-- ===== src/Vendors/Context/Terms.antt =====
-- The windows, CPI ranges and cuts of vendors/services.py `resolve_vendor_survey_context`, by the columns
-- of the allocations.
use quant_tool.Base.{
  ℕ, ◌<◌, ◌≤◌, ◌≡◌, refl, ap, sym, subst, ◌∙◌, some_same, Bool, true, false, Option, none, some,
  arith, inl, inr, Option-cases,
}
use quant_tool.Base.Int.{ℤ, pos, ◌≤ℤ◌}
use quant_tool.Vendors.Models.{
  AccountType, employee, internal_vendor, external_vendor, ClientAllocation, SurveyAllocation, Db,
  client_cut, survey_cut,
}
use quant_tool.Vendors.Policy.{cpi_in_range, is_active_now}
use quant_tool.Vendors.Context.{cut_for, commercial_of}
use quant_tool.Vendors.Reservation.Frozen.{Takes, is_internal, client_cut-Takes}

-- The window is open: started, where a start is set, and not ended, where an end is.
abbrev pub IsOpen : Option ℕ → Option ℕ → ℕ → Type 0
IsOpen starts_at ends_at now =
    ((start : ℕ) → starts_at ≡ some start → start ≤ now)
    × ((end : ℕ) → ends_at ≡ some end → now < end)

-- The CPI is known and within each limit that is set.
abbrev pub IsWithin : Option ℤ → Option ℤ → Option ℤ → Type 0
IsWithin cpi min_cpi max_cpi =
    ((low : ℤ) → min_cpi ≡ some low → (value : ℤ) × (cpi ≡ some value) × (low ≤ℤ value))
    × ((high : ℤ) → max_cpi ≡ some high → (value : ℤ) × (cpi ≡ some value) × (value ≤ℤ high))

pub is_active_now-IsOpen :
    (is_active : Bool) (starts_at ends_at : Option ℕ) (now : ℕ)
    → is_active_now is_active starts_at ends_at now ≡ true
    → (is_active ≡ true) × IsOpen starts_at ends_at now
unfolding is_active_now
is_active_now-IsOpen is_active starts_at ends_at now e =
    (ground arith, ((λ start h. ground arith), (λ end h. ground arith)))

pub cpi_in_range-IsWithin :
    (cpi min_cpi max_cpi : Option ℤ)
    → cpi_in_range cpi min_cpi max_cpi ≡ true
    → IsWithin cpi min_cpi max_cpi
unfolding cpi_in_range
cpi_in_range-IsWithin none none none e = ((λ low h. cc), (λ high h. cc))
cpi_in_range-IsWithin none (some x) max_cpi e = cc
cpi_in_range-IsWithin none none (some x) e = cc
cpi_in_range-IsWithin (some value) min_cpi max_cpi e =
    ((λ low h. (value, refl, ground arith)), (λ high h. (value, refl, ground arith)))

-- The cut: none for an internal supplier, else the project's own percentage, else that of the grant.
pub data IsCutOf (db : Db) (kind : AccountType) (override : Option (ℕ × SurveyAllocation))
    (a : ClientAllocation) : ℤ → Type 0 where
  internal : is_internal kind ≡ true → IsCutOf db kind override a (pos 0)
  of_project :
      {cut : ℤ} (k : ℕ) (p : SurveyAllocation)
      → is_internal kind ≡ false
      → override ≡ some (k, p)
      → p.cpi_cut_override_percent ≡ some cut
      → IsCutOf db kind override a cut
  of_grant :
      {cut : ℤ}
      → is_internal kind ≡ false
      → ((k : ℕ) (p : SurveyAllocation)
          → override ≡ some (k, p)
          → p.cpi_cut_override_percent ≡ none)
      → Takes db a cut
      → IsCutOf db kind override a cut

project_cut-IsCutOf :
    (db : Db) (kind : AccountType) (k : ℕ) (p : SurveyAllocation) (a : ClientAllocation)
    → is_internal kind ≡ false
    → IsCutOf db kind (some (k, p)) a (survey_cut p a (commercial_of db a.vendor_id))
unfolding survey_cut
project_cut-IsCutOf db kind k p a plain = elim (Option-cases p.cpi_cut_override_percent) [
  | inr (cut, its_own) ↦
      let e : survey_cut p a (commercial_of db a.vendor_id) ≡ cut = ground (arith, its_own) in
      subst (IsCutOf db kind (some (k, p)) a) (sym e) (of_project k p plain refl its_own)
  | inl unset ↦
      let e : survey_cut p a (commercial_of db a.vendor_id)
          ≡ client_cut a (commercial_of db a.vendor_id) =
        ground (arith, unset) in
      subst (IsCutOf db kind (some (k, p)) a) (sym e) (
        of_grant plain
          (λ i r same. ap (λ x. x.1.cpi_cut_override_percent) (sym (some_same same)) ∙ unset)
          (client_cut-Takes db a))
]

pub cut_for-IsCutOf :
    (db : Db) (kind : AccountType) (override : Option (ℕ × SurveyAllocation)) (a : ClientAllocation)
    → IsCutOf db kind override a (cut_for kind override a (commercial_of db a.vendor_id))
unfolding cut_for
cut_for-IsCutOf db internal_vendor override a = internal refl
cut_for-IsCutOf db employee none a = of_grant refl (λ k p e. cc) (client_cut-Takes db a)
cut_for-IsCutOf db external_vendor none a = of_grant refl (λ k p e. cc) (client_cut-Takes db a)
cut_for-IsCutOf db employee (some (k, p)) a = project_cut-IsCutOf db employee k p a refl
cut_for-IsCutOf db external_vendor (some (k, p)) a =
    project_cut-IsCutOf db external_vendor k p a refl
