-- ===== src/Vendors/Context/Allowed.antt =====
-- Under which rows of the database vendors/services.py `resolve_vendor_survey_context` lets a user work
-- on a survey, by their columns.
use quant_tool.Base.{
  ℕ, ◌≤◌, ◌≡◌, refl, ap, sym, subst, ◌∙◌, Bool, true, false, none, some, [], ◌∷◌, arith, inl, inr,
  Option-cases,
}
use quant_tool.Base.Result.{ok}
use quant_tool.Base.Table.{Table, lookup}
use quant_tool.Base.Keys.{HasDistinctKeys, find-lookup, any-lookup}
use quant_tool.Base.Lists.{find, any}
use quant_tool.Money.{payable_cpi}
use quant_tool.Vendors.Models.{
  Profile, Commercial, Client, User, ClientAllocation, SurveyAllocation, Survey, Db,
}
use quant_tool.Vendors.Policy.{is_active_now}
use quant_tool.Vendors.Scope.{profile_of, vendor_scope_user_id}
use quant_tool.Vendors.Context.{
  VendorSurveyContext, is_grant, is_override, window_open, cut_for, commercial_of,
  resolve_vendor_survey_context,
}
use quant_tool.Vendors.Context.Resolve.{Granted, supplier_context-Granted, resolve_supplier}
use quant_tool.Vendors.Context.Terms.{
  IsOpen, IsWithin, is_active_now-IsOpen, cpi_in_range-IsWithin, IsCutOf, cut_for-IsCutOf,
}

-- The supplier, its prices and the client of the survey are active, and the row `a` is theirs.
pub record IsTheirs (db : Db) (v : ℕ) (survey : Survey) (a : ClientAllocation) : Type 0 where
  pub user : User
  pub commercial : Commercial
  pub client_id : ℕ
  pub client : Client
  pub user_row : lookup v db.users ≡ some user
  pub user_active : user.is_active ≡ true
  pub commercial_row : user.vendor_commercial_profile ≡ some commercial
  pub commercial_active : commercial.is_active ≡ true
  pub of_survey : survey.client_id ≡ some client_id
  pub client_row : lookup client_id db.clients ≡ some client
  pub client_active : client.is_active ≡ true
  pub its_vendor : a.vendor_id ≡ v
  pub its_client : a.client_id ≡ client_id

grant-IsTheirs :
    (db : Db) (v : ℕ) (survey : Survey) (a : ClientAllocation)
    → is_grant db v survey.client_id a ≡ true
    → IsTheirs db v survey a
grant-IsTheirs db v survey a e = elim (Option-cases survey.client_id) [
  | inl nobody ↦ absurd (ground (arith, nobody, e))
  | inr (c, its) ↦ elim (Option-cases (lookup c db.clients)) [
    | inl gone ↦ absurd (ground (arith, its, gone, e))
    | inr (client, row) ↦ elim (Option-cases (lookup v db.users)) [
      | inl gone ↦ absurd (ground (arith, its, gone, e))
      | inr (u, user_row) ↦ elim (Option-cases u.vendor_commercial_profile) [
        | inl bare ↦ absurd (ground (arith, its, user_row, bare, e))
        | inr (p, prices) ↦ record {
          user = u;
          commercial = p;
          client_id = c;
          client = client;
          user_row = user_row;
          user_active = ground (arith, its, user_row, e);
          commercial_row = prices;
          commercial_active = ground (arith, its, user_row, prices, e);
          of_survey = its;
          client_row = row;
          client_active = ground (arith, its, row, e);
          its_vendor = ground (arith, its, e);
          its_client = ground (arith, its, e);
        }
      ]
    ]
  ]
]

-- The project's allocation is one of the grant for the survey, active and open.
abbrev pub IsOpenProject : ℕ → ℕ → ℕ → SurveyAllocation → Type 0
IsOpenProject allocation_id survey_id now p =
    (p.client_allocation_id ≡ allocation_id)
    × (p.survey_id ≡ survey_id)
    × (p.is_active ≡ true)
    × IsOpen p.starts_at p.ends_at now

-- Under what the context `c` of the user is given.
pub record IsAllowed (db : Db) (now user survey_id : ℕ) (survey : Survey) (require_capacity : Bool)
    (c : VendorSurveyContext) : Type 0 where
  pub vendor_id : ℕ
  pub profile : Profile
  pub scope : vendor_scope_user_id db user ≡ some vendor_id
  pub row : lookup c.client_allocation.0 db.client_allocations ≡ some c.client_allocation.1
  pub theirs : IsTheirs db vendor_id survey c.client_allocation.1
  pub is_active : c.client_allocation.1.is_active ≡ true
  pub window : let a = c.client_allocation.1 in IsOpen a.starts_at a.ends_at now
  pub range : let a = c.client_allocation.1 in IsWithin survey.cpi a.min_cpi a.max_cpi
  pub project :
      (k : ℕ) (p : SurveyAllocation)
      → c.survey_allocation ≡ some (k, p)
      → (lookup k db.survey_allocations ≡ some p)
        × IsOpenProject c.client_allocation.0 survey_id now p
  pub no_project :
      (k : ℕ) (p : SurveyAllocation)
      → c.survey_allocation ≡ none
      → lookup k db.survey_allocations ≡ some p
      → p.client_allocation_id ≡ c.client_allocation.0
      → ¬ (p.survey_id ≡ survey_id)
  pub capacity : require_capacity ≡ true → 1 ≤ survey.remaining
  pub profile_row : profile_of db c.client_allocation.1.vendor_id ≡ some profile
  pub cut :
      IsCutOf db profile.account_type c.survey_allocation c.client_allocation.1 c.cpi_cut_percent
  pub price : c.payable_cpi ≡ payable_cpi survey.cpi c.cpi_cut_percent

find-none :
    (p : ℕ × SurveyAllocation → Bool) (t : Table SurveyAllocation)
    → find p t ≡ none
    → any p t ≡ false
find-none p [] e = refl
find-none p (row ∷ t) e = ground (arith, find-none p t)

module _ (db : Db) (now survey_id : ℕ) (c : VendorSurveyContext)
    (keys : HasDistinctKeys db.survey_allocations)
    (found : find (λ row. is_override c.client_allocation.0 survey_id row.1) db.survey_allocations
      ≡ c.survey_allocation) where
  project_found :
      (k : ℕ) (p : SurveyAllocation)
      → is_active_now p.is_active p.starts_at p.ends_at now ≡ true
      → c.survey_allocation ≡ some (k, p)
      → (lookup k db.survey_allocations ≡ some p)
        × IsOpenProject c.client_allocation.0 survey_id now p
  project_found k p open_now e =
      let (row, test) =
        find-lookup (λ r. is_override c.client_allocation.0 survey_id r.1) k p db.survey_allocations
          keys (found ∙ e) in
      let (active, window) = is_active_now-IsOpen p.is_active p.starts_at p.ends_at now open_now in
      (row, (ground (arith, test), ground (arith, test), active, window))

  project_missing :
      (k : ℕ) (p : SurveyAllocation)
      → c.survey_allocation ≡ none
      → lookup k db.survey_allocations ≡ some p
      → p.client_allocation_id ≡ c.client_allocation.0
      → ¬ (p.survey_id ≡ survey_id)
  project_missing k p e row its_grant its_survey =
      let out =
        any-lookup (λ r. is_override c.client_allocation.0 survey_id r.1) k p db.survey_allocations
          (find-none (λ r. is_override c.client_allocation.0 survey_id r.1) db.survey_allocations
            (found ∙ e))
          row in
      absurd (ground (arith, out, its_grant, its_survey))

Granted-IsCutOf :
    (db : Db) (now v survey_id : ℕ) (survey : Survey) (cap : Bool) (c : VendorSurveyContext)
    → Granted db now v survey_id survey cap c
    → (profile : Profile) × (profile_of db c.client_allocation.1.vendor_id ≡ some profile)
      × IsCutOf db profile.account_type c.survey_allocation c.client_allocation.1 c.cpi_cut_percent
Granted-IsCutOf db now v survey_id survey cap c g =
    let a = c.client_allocation.1 in
    elim (Option-cases (profile_of db a.vendor_id)) [
      | inl bare ↦ let e = g.cut in absurd (ground (arith, bare, e))
      | inr (profile, has) ↦
          let e = g.cut in
          let cut : cut_for profile.account_type c.survey_allocation a
                (commercial_of db a.vendor_id)
              ≡ c.cpi_cut_percent =
            ground (arith, has, e) in
          (
            profile,
            has,
            subst (IsCutOf db profile.account_type c.survey_allocation a) cut
                (cut_for-IsCutOf db profile.account_type c.survey_allocation a),
          )
    ]

-- In a database with unique keys a user gets a context for a survey only as one of a supplier, from a
-- stored grant of that supplier for the survey's client: supplier, its prices, client and grant are
-- active, now is in the grant's window, the survey's CPI is known and in its range where that has
-- limits, the project's allocation under the grant, if there is one, is the one in the context and is
-- active and open, and a unit remains where capacity is required. The cut is 0 for an internal
-- supplier, and otherwise the first percentage that is set of the project's allocation, the grant and
-- the supplier's default; the price is the survey's CPI less the cut.
pub context-IsAllowed :
    (db : Db) (now user survey_id : ℕ) (survey : Survey) (cap : Bool) (c : VendorSurveyContext)
    → HasDistinctKeys db.client_allocations
    → HasDistinctKeys db.survey_allocations
    → resolve_vendor_survey_context db now user survey_id survey cap ≡ ok (some c)
    → IsAllowed db now user survey_id survey cap c
context-IsAllowed db now user survey_id survey cap c grants projects e =
    let (v, scope, ctx) = resolve_supplier db now user survey_id survey cap c e in
    let g = supplier_context-Granted db now v survey_id survey cap c ctx in
    let a = c.client_allocation.1 in
    let (row, test) =
      find-lookup (λ r. is_grant db v survey.client_id r.1) c.client_allocation.0 a
        db.client_allocations grants g.grant in
    let (active, window) = is_active_now-IsOpen a.is_active a.starts_at a.ends_at now g.open_now in
    let (profile, profile_row, cut) = Granted-IsCutOf db now v survey_id survey cap c g in
    record {
      vendor_id = v;
      profile = profile;
      scope = scope;
      row = row;
      theirs = grant-IsTheirs db v survey a test;
      is_active = active;
      window = window;
      range = cpi_in_range-IsWithin survey.cpi a.min_cpi a.max_cpi g.in_range;
      project = λ k p h.
          project_found db now survey_id c projects g.override k p
            (sym (ap (λ o. window_open o now) h) ∙ g.override_open) h;
      no_project = project_missing db now survey_id c projects g.override;
      capacity = g.capacity;
      profile_row = profile_row;
      cut = cut;
      price = g.price;
    }
