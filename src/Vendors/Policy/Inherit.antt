-- ===== src/Vendors/Policy/Inherit.antt =====
-- The policies that `organization_client_policies_for_user` (vendors/services.py) computes by
-- overwriting a dictionary from the top unit down, against the rule that the nearest unit decides.
use quant_tool.Base.{ℕ, ◌≡◌, Option, none, some, List, [], ◌∷◌, ◌==◌}
use quant_tool.Base.Table.{Table, lookup}
use quant_tool.Base.Lists.{find}
use quant_tool.Vendors.Policy.Ancestors.{Units}
use quant_tool.Vendors.Models.{OrganizationUnit, Rule}
use quant_tool.Vendors.Policy.{Policy, policy_of, rules_of, organization_client_policies}

-- A unit holds at most one rule for a client: `unique_client_access_per_organization_unit`.
abbrev pub rule_for : ℕ → List Rule → Option Rule
rule_for client = find (λ rule. rule.client_id == client)

abbrev pub OncePerClient : List Rule → Type 0
OncePerClient [] = Unit
OncePerClient (r ∷ rs) = (rule_for r.client_id rs ≡ none) × OncePerClient rs

-- What a unit with, or without, a rule for a client makes of the policy from above.
abbrev pub decide_at : ℕ → Option Rule → Option Policy → Option Policy
decide_at unit_id none above = above
decide_at unit_id (some rule) above = some (policy_of unit_id rule above)

-- The policy for one client by recursion from the user's own unit outwards.
abbrev pub nearest : ℕ → List ℕ → List Rule → Option Policy
nearest client [] rules = none
nearest client (k ∷ outer) rules =
    decide_at k (rule_for client (rules_of k rules)) (nearest client outer rules)

-- What `organization_client_policies_for_user` returns for a user of the unit `from`.
pub record Resolved (units : Table OrganizationUnit) (rules : List Rule) (from : ℕ) : Type 0 where
  pub policies : Table Policy
  pub ancestry : List ℕ
  pub result : organization_client_policies units rules (some from) ≡ some policies
  pub units_above : Units units from ancestry
  pub agrees : (client : ℕ) → lookup client policies ≡ nearest client ancestry rules
