-- ===== src/Vendors/Context/Resolve.antt =====
-- When vendors/services.py `resolve_vendor_survey_context` gives a context, and at which price.
use quant_tool.Base.{
  ℕ, ◌≤◌, ◌≡◌, ◌↔◌, refl, Bool, true, Option, none, some, arith, inl, inr, Option-cases,
}
use quant_tool.Base.Int.{ℤ, pos}
use quant_tool.Base.Result.{ok}
use quant_tool.Base.Table.{Table}
use quant_tool.Base.Lists.{find}
use quant_tool.Money.{payable_cpi}
use quant_tool.Money.Bounds.{payable_whole}
use quant_tool.Vendors.Models.{
  internal_vendor, Profile, Commercial, ClientAllocation, SurveyAllocation, Survey, Db,
}
use quant_tool.Vendors.Policy.{Policy, cpi_in_range, is_active_now}
use quant_tool.Vendors.Scope.{profile_of, vendor_scope_user_id}
use quant_tool.Vendors.Context.{
  policies_for_user, policy_for, organization_gate, is_grant, is_override, VendorSurveyContext,
  window_open, cut_for, commercial_of, supplier_context, resolve_vendor_survey_context,
}

-- The cut, where the supplier has a profile.
abbrev pub cut_of :
    Option Profile → Option (ℕ × SurveyAllocation) → ClientAllocation → Option Commercial → Option ℤ
cut_of none override a commercial = none
cut_of (some profile) override a commercial =
    some (cut_for profile.account_type override a commercial)

-- What has to hold for a supplier to get the context `c` for a survey.
pub record Granted (db : Db) (now vendor_id survey_id : ℕ) (survey : Survey)
    (require_capacity : Bool) (c : VendorSurveyContext) : Type 0 where
  pub supplier : c.vendor_id ≡ vendor_id
  pub grant :
      find (λ row. is_grant db vendor_id survey.client_id row.1) db.client_allocations
      ≡ some c.client_allocation
  pub open_now :
      let a = c.client_allocation.1 in is_active_now a.is_active a.starts_at a.ends_at now ≡ true
  pub in_range : let a = c.client_allocation.1 in cpi_in_range survey.cpi a.min_cpi a.max_cpi ≡ true
  pub override :
      find (λ row. is_override c.client_allocation.0 survey_id row.1) db.survey_allocations
      ≡ c.survey_allocation
  pub override_open : window_open c.survey_allocation now ≡ true
  pub capacity : require_capacity ≡ true → 1 ≤ survey.remaining
  pub cut :
      let a = c.client_allocation.1 in
      cut_of (profile_of db a.vendor_id) c.survey_allocation a (commercial_of db a.vendor_id)
      ≡ some c.cpi_cut_percent
  pub price : c.payable_cpi ≡ payable_cpi survey.cpi c.cpi_cut_percent

pub supplier_context-Granted :
    (db : Db) (now v survey_id : ℕ) (survey : Survey) (cap : Bool) (c : VendorSurveyContext)
    → supplier_context db now v survey_id survey cap ≡ ok c
    → Granted db now v survey_id survey cap c
unfolding supplier_context
supplier_context-Granted db now v survey_id survey cap c e = record {
  supplier = ground arith;
  grant = ground arith;
  open_now = ground arith;
  in_range = ground arith;
  override = ground arith;
  override_open = ground arith;
  capacity = ground arith;
  cut = ground arith;
  price = ground arith;
}

Granted-supplier_context :
    (db : Db) (now v survey_id : ℕ) (survey : Survey) (cap : Bool) (c : VendorSurveyContext)
    → Granted db now v survey_id survey cap c
    → supplier_context db now v survey_id survey cap ≡ ok c
unfolding supplier_context
Granted-supplier_context db now v survey_id survey cap c g = ground arith

-- A supplier gets a context exactly when a grant of an active supplier and client is found, it is
-- active and open now, the survey's CPI is in its range, an override of the project (if any) is
-- active and open, quantity remains where it is required and the supplier has a profile; the
-- context holds that grant, that override, their cut and the survey's CPI after it.
supplier_context_iff :
    (db : Db) (now v survey_id : ℕ) (survey : Survey) (cap : Bool) (c : VendorSurveyContext)
    → (supplier_context db now v survey_id survey cap ≡ ok c)
      ↔ Granted db now v survey_id survey cap c
supplier_context_iff db now v survey_id survey cap c = (
  supplier_context-Granted db now v survey_id survey cap c,
  Granted-supplier_context db now v survey_id survey cap c,
)

pub resolve_supplier :
    (db : Db) (now user survey_id : ℕ) (survey : Survey) (cap : Bool) (c : VendorSurveyContext)
    → resolve_vendor_survey_context db now user survey_id survey cap ≡ ok (some c)
    → (v : ℕ) × (vendor_scope_user_id db user ≡ some v)
      × (supplier_context db now v survey_id survey cap ≡ ok c)
unfolding resolve_vendor_survey_context
resolve_supplier db now user survey_id survey cap c e =
    elim (Option-cases (vendor_scope_user_id db user)) [
      | inl nobody ↦ ground (arith, nobody)
      | inr (v, scope) ↦ (v, scope, ground (arith, scope))
    ]

payable_whole_option : (cpi : Option ℤ) → payable_cpi cpi (pos 0) ≡ cpi
payable_whole_option none = unfold payable_cpi in refl
payable_whole_option (some source) = payable_whole source

internal_cut :
    (profile : Profile) (override : Option (ℕ × SurveyAllocation)) (a : ClientAllocation)
    (commercial : Option Commercial)
    → profile.account_type ≡ internal_vendor
    → cut_for profile.account_type override a commercial ≡ pos 0
internal_cut profile override a commercial h = rw h (unfold cut_for in refl)

-- An internal supplier is paid the survey's CPI itself.
internal_full_cpi :
    (db : Db) (now user survey_id : ℕ) (survey : Survey) (cap : Bool) (c : VendorSurveyContext)
    (profile : Profile)
    → resolve_vendor_survey_context db now user survey_id survey cap ≡ ok (some c)
    → profile_of db c.client_allocation.1.vendor_id ≡ some profile
    → profile.account_type ≡ internal_vendor
    → c.payable_cpi ≡ survey.cpi
internal_full_cpi db now user survey_id survey cap c profile e has internal =
    let (v, _, ctx) = resolve_supplier db now user survey_id survey cap c e in
    let g = supplier_context-Granted db now v survey_id survey cap c ctx in
    let a = c.client_allocation.1 in
    let zero_cut : c.cpi_cut_percent ≡ pos 0 = ground (
      arith,
      has,
      g.cut,
      internal_cut profile c.survey_allocation a (commercial_of db a.vendor_id) internal,
    ) in
    rw (g.price, zero_cut) (payable_whole_option survey.cpi)

-- A user under an organization unit reaches a survey only under a policy for its client that is
-- active and whose range holds its CPI, whatever the supplier's own grant says.
organization_policy_holds :
    (db : Db) (now user survey_id : ℕ) (survey : Survey) (cap : Bool) (policies : Table Policy)
    (result : Option VendorSurveyContext)
    → policies_for_user db user ≡ some policies
    → resolve_vendor_survey_context db now user survey_id survey cap ≡ ok result
    → (policy : Policy) × (policy_for policies survey.client_id ≡ some policy)
      × (policy.is_active ≡ true)
      × (cpi_in_range survey.cpi policy.min_cpi policy.max_cpi ≡ true)
unfolding resolve_vendor_survey_context organization_gate
organization_policy_holds db now user survey_id survey cap policies result has e =
    elim (Option-cases (policy_for policies survey.client_id)) [
      | inl missing ↦ ground arith
      | inr (policy, found) ↦ (policy, found, ground arith, ground arith)
    ]
