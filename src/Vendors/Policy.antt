-- ===== src/Vendors/Policy.antt =====
-- vendors/services.py: CPI ranges, active windows, and the client rules that a user inherits from
-- the units above (`organization_client_policies_for_user`).
pub mod Inherit
pub mod Ancestors
use quant_tool.Base.{
  ℕ, zero, suc, ◌+◌, Bool, true, false, not, ◌&&◌, ◌||◌, Option, none, some, List, [], ◌∷◌, ◌++◌,
  leb, ltb, ◌==◌, is_none, if◌then◌else◌,
}
use quant_tool.Base.Int.{ℤ, ltb_ℤ}
use quant_tool.Vendors.Models.{OrganizationUnit, Rule}
use quant_tool.Base.Table.{Table, lookup}
use quant_tool.Base.Lists.{length, select, contains}
use mathlib.Core.List.{reverse}

abbrev below : Option ℤ → ℤ → Bool
below none value = false
below (some minimum) value = ltb_ℤ value minimum

abbrev above : Option ℤ → ℤ → Bool
above none value = false
above (some maximum) value = ltb_ℤ maximum value

-- `_cpi_in_range`
unfoldable pub cpi_in_range : Option ℤ → Option ℤ → Option ℤ → Bool
cpi_in_range none minimum maximum = is_none minimum && is_none maximum
cpi_in_range (some value) minimum maximum = not (below minimum value || above maximum value)

-- `_is_active_now`, of an allocation's three columns
unfoldable pub is_active_now : Bool → Option ℕ → Option ℕ → ℕ → Bool
is_active_now is_active starts_at ends_at now =
    is_active
    && elim starts_at [ none ↦ true | some start ↦ leb start now ]
    && elim ends_at [ none ↦ true | some end ↦ ltb now end ]

-- `OrganizationClientPolicy`
pub record Policy : Type 0 where
  pub client_id : ℕ
  pub is_active : Bool
  pub min_cpi : Option ℤ
  pub max_cpi : Option ℤ
  pub source_unit_id : ℕ

-- How the walk up the units ends: the ids from the user's unit to the top, or an inactive unit.
pub data Ancestry : Type 0 where
  reached : List ℕ → Ancestry
  blocked out_of_fuel : Ancestry

abbrev pub above_unit : ℕ → Ancestry → Ancestry
above_unit k (reached ks) = reached (k ∷ ks)
above_unit k blocked = blocked
above_unit k out_of_fuel = out_of_fuel

-- `while current_unit and current_unit.pk not in visited_units`. A parent is always a row of the
-- table (a foreign key), so that a missing row ends the walk as `None` does.
unfoldable pub walk : ℕ → Table OrganizationUnit → Option ℕ → List ℕ → Ancestry
walk zero units current visited = out_of_fuel
walk (suc fuel) units none visited = reached []
walk (suc fuel) units (some k) visited = elim (lookup k units) [
  | none ↦ reached []
  | some unit ↦
      let rest = above_unit k (walk fuel units unit.parent (k ∷ visited)) in
      if contains k visited then reached [] else if unit.is_active then rest else blocked
]

-- `policies[key] = value`
unfoldable pub put : ℕ → Policy → Table Policy → Table Policy
put k p [] = (k, p) ∷ []
put k p ((j, q) ∷ t) = if j == k then (j, p) ∷ t else (j, q) ∷ put k p t

-- A child's own bound, or the bound of the policy above where the rule inherits and there is one.
abbrev pub inherited : Bool → Option Policy → (Policy → Option ℤ) → Option ℤ → Option ℤ
inherited inherit none column own = own
inherited inherit (some p) column own = if inherit then column p else own

-- The policy that one rule of a unit gives below the policy `parent`.
unfoldable pub policy_of : ℕ → Rule → Option Policy → Policy
policy_of unit_id rule parent = record {
  client_id = rule.client_id;
  is_active = rule.is_active;
  min_cpi = inherited rule.inherit_cpi_range parent (λ p. p.min_cpi) rule.min_cpi;
  max_cpi = inherited rule.inherit_cpi_range parent (λ p. p.max_cpi) rule.max_cpi;
  source_unit_id = unit_id;
}

-- `for rule in rules_by_unit.get(unit_id, [])`
unfoldable pub apply_rules : ℕ → List Rule → Table Policy → Table Policy
apply_rules unit_id [] policies = policies
apply_rules unit_id (rule ∷ rules) policies =
    let parent = lookup rule.client_id policies in
    apply_rules unit_id rules (put rule.client_id (policy_of unit_id rule parent) policies)

abbrev pub rules_of : ℕ → List Rule → List Rule
rules_of unit_id = select (λ rule. rule.organization_unit_id == unit_id)

-- `for unit_id in ...`
unfoldable pub apply_units : List ℕ → List Rule → Table Policy → Table Policy
apply_units [] rules policies = policies
apply_units (k ∷ ks) rules policies =
    apply_units ks rules (apply_rules k (rules_of k rules) policies)

-- The policies of a user who belongs to the unit `current`; `none` where the user has no unit.
-- An inactive unit on the way up leaves no client at all. The walk does not run out of fuel.
unfoldable pub organization_client_policies :
    Table OrganizationUnit → List Rule → Option ℕ → Option (Table Policy)
unfolding walk apply_units
organization_client_policies units rules none = none
organization_client_policies units rules (some unit_id) =
    elim (walk (length units + 2) units (some unit_id) []) [
      | reached ancestry ↦ some (apply_units (reverse ancestry) rules [])
      | blocked ↦ some []
      | out_of_fuel ↦ none
    ]
