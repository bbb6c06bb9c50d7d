-- ===== src/Vendors/Context.antt =====
-- vendors/services.py `resolve_vendor_survey_context`: the client grant and the project override
-- under which a user may work on a survey. A call ends with the error of the first check that fails.
pub mod Resolve
pub mod Terms
pub mod Allowed
use quant_tool.Base.{ℕ, Bool, true, false, not, ◌&&◌, Option, none, some, List, ltb, ◌==◌, is_some}
use quant_tool.Base.Int.{ℤ, pos}
use quant_tool.Base.Result.{Result, ok, err, ◌>>=◌, ◌>>◌, raise_if, or_raise}
use quant_tool.Base.Table.{Table, lookup}
use quant_tool.Base.Lists.{find, select}
use quant_tool.Money.{payable_cpi}
use quant_tool.Vendors.Models.{
  AccountType, employee, internal_vendor, external_vendor, Commercial, User, Client, Survey, Rule,
  ClientAllocation, SurveyAllocation, Db, client_cut, survey_cut,
}
use quant_tool.Vendors.Policy.{Policy, cpi_in_range, is_active_now, organization_client_policies}
use quant_tool.Vendors.Scope.{profile_of, vendor_scope_user_id}

-- The texts of `AllocationUnavailable`, and the exceptions of a missing row.
pub data Unavailable : Type 0 where
  client_not_assigned cpi_outside_unit client_not_allocated cpi_outside_supplier : Unavailable
  project_disabled exhausted allocation_required access_inactive commercial_inactive : Unavailable
  survey_mismatch client_mismatch client_window project_window not_expired : Unavailable
  does_not_exist no_profile : Unavailable

abbrev pub user_active : Db → ℕ → Bool
user_active db k = elim (lookup k db.users) [ none ↦ false | some u ↦ u.is_active ]

abbrev pub client_active : Db → ℕ → Bool
client_active db k = elim (lookup k db.clients) [ none ↦ false | some c ↦ c.is_active ]

abbrev pub commercial_of : Db → ℕ → Option Commercial
commercial_of db k = elim (lookup k db.users) [ none ↦ none | some u ↦ u.vendor_commercial_profile ]

abbrev pub commercial_active : Db → ℕ → Bool
commercial_active db k = elim (commercial_of db k) [ none ↦ false | some c ↦ c.is_active ]

-- The policies of a user: the rules of active clients, from the unit of its profile.
unfoldable pub policies_for_user : Db → ℕ → Option (Table Policy)
unfolding organization_client_policies
policies_for_user db user = elim (profile_of db user) [
  | none ↦ none
  | some p ↦
      organization_client_policies db.units
        (select (λ rule. client_active db rule.client_id) db.rules) p.organization_unit_id
]

-- `organization_policies.get(survey.client_id)`
abbrev pub policy_for : Table Policy → Option ℕ → Option Policy
policy_for policies none = none
policy_for policies (some client_id) = lookup client_id policies

unfoldable pub organization_gate : Option (Table Policy) → Survey → Result Unavailable (Unit {0})
organization_gate none survey = ok tt
organization_gate (some policies) survey = do
  policy ← or_raise (policy_for policies survey.client_id) client_not_assigned
  raise_if (not policy.is_active) client_not_assigned
  raise_if (not (cpi_in_range survey.cpi policy.min_cpi policy.max_cpi)) cpi_outside_unit

-- The filter of the query for the grant; `unique_vendor_client_allocation` leaves one row at most.
abbrev pub is_grant : Db → ℕ → Option ℕ → ClientAllocation → Bool
is_grant db vendor_id none a = false
is_grant db vendor_id (some client_id) a =
    (a.vendor_id == vendor_id)
    && user_active db vendor_id
    && commercial_active db vendor_id
    && client_active db client_id
    && (a.client_id == client_id)
    && a.is_active

abbrev pub is_override : ℕ → ℕ → SurveyAllocation → Bool
is_override allocation_id survey_id p =
    (p.client_allocation_id == allocation_id) && (p.survey_id == survey_id)

-- `VendorSurveyContext`, the two allocations with their keys
pub record VendorSurveyContext : Type 0 where
  pub vendor_id : ℕ
  pub client_allocation : ℕ × ClientAllocation
  pub survey_allocation : Option (ℕ × SurveyAllocation)
  pub cpi_cut_percent : ℤ
  pub payable_cpi : Option ℤ

abbrev pub window_open : Option (ℕ × SurveyAllocation) → ℕ → Bool
window_open none now = true
window_open (some (_, p)) now = is_active_now p.is_active p.starts_at p.ends_at now

-- The cut that applies: the override's or the grant's, and none for an internal supplier.
unfoldable pub cut_for :
    AccountType → Option (ℕ × SurveyAllocation) → ClientAllocation → Option Commercial → ℤ
unfolding client_cut survey_cut
cut_for internal_vendor override a commercial = pos 0
cut_for _ none a commercial = client_cut a commercial
cut_for _ (some (_, p)) a commercial = survey_cut p a commercial

-- The checks of the supplier `vendor_id`, from the query for the grant to the returned context.
unfoldable pub supplier_context :
    Db → ℕ → ℕ → ℕ → Survey → Bool → Result Unavailable VendorSurveyContext
supplier_context db now vendor_id survey_id survey require_capacity = do
  (allocation_id, a) ←
      or_raise (find (λ row. is_grant db vendor_id survey.client_id row.1) db.client_allocations)
        client_not_allocated
  raise_if (not (is_active_now a.is_active a.starts_at a.ends_at now)) client_not_allocated
  raise_if (not (cpi_in_range survey.cpi a.min_cpi a.max_cpi)) cpi_outside_supplier
  let override = find (λ row. is_override allocation_id survey_id row.1) db.survey_allocations
  raise_if (not (window_open override now)) project_disabled
  raise_if (require_capacity && ltb survey.remaining 1) exhausted
  profile ← or_raise (profile_of db a.vendor_id) no_profile
  let cut = cut_for profile.account_type override a (commercial_of db a.vendor_id)
  ok (record {
    vendor_id = vendor_id;
    client_allocation = (allocation_id, a);
    survey_allocation = override;
    cpi_cut_percent = cut;
    payable_cpi = payable_cpi survey.cpi cut;
  })

-- `none`: the user belongs to no supplier.
unfoldable pub resolve_vendor_survey_context :
    Db → ℕ → ℕ → ℕ → Survey → Bool → Result Unavailable (Option VendorSurveyContext)
resolve_vendor_survey_context db now user survey_id survey require_capacity = do
  organization_gate (policies_for_user db user) survey
  elim (vendor_scope_user_id db user) [
    | none ↦ ok none
    | some v ↦ do
      context ← supplier_context db now v survey_id survey require_capacity
      ok (some context)
  ]
