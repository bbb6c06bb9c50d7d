-- ===== src/Accounts.antt =====
-- accounts/access.py: which function codes an account has, which roles it may assign, and whose
-- activity it sees. The request's and the shared cache are not modelled: each call computes anew.
pub mod Permissions
pub mod Subordinates
pub mod Activity
mod Tests
use quant_tool.Base.{
  ℕ, zero, suc, ◌+◌, String, str_eq, starts_with, Bool, true, false, not, ◌&&◌, ◌||◌, Option, none,
  some, List, [], ◌∷◌, ◌++◌, leb, ltb, ◌==◌, if◌then◌else◌,
}
use quant_tool.Base.Table.{Table, lookup}
use quant_tool.Base.Lists.{length, any, select, contains}
use quant_tool.Base.Closure.{Parents, descend}
use quant_tool.Vendors.Models.{AccountType, employee, internal_vendor, external_vendor}

pub record AccessFunction : Type 0 where
  pub code : String
  pub is_active : Bool

-- `RoleFunctionPermission`
pub record Assignment : Type 0 where
  pub function : AccessFunction
  pub allowed : Bool

pub record Role : Type 0 where
  pub slug : String
  pub rank : ℕ
  pub is_system : Bool
  pub is_active : Bool
  pub created_by : Option ℕ
  pub function_assignments : List Assignment

pub data Effect : Type 0 where
  allow deny : Effect

-- `UserFunctionOverride`
pub record Override : Type 0 where
  pub function : AccessFunction
  pub effect : Effect

-- `EmployeeProfile`
pub record Profile : Type 0 where
  pub account_type : AccountType
  pub role_id : Option ℕ
  pub created_by : Option ℕ
  pub organization_unit_id : Option ℕ

pub record User : Type 0 where
  pub is_authenticated : Bool
  pub is_active : Bool
  pub is_superuser : Bool
  pub employee_profile : Option Profile
  pub function_overrides : List Override

pub data UnitType : Type 0 where
  branch sub_branch shift : UnitType

pub record OrganizationUnit : Type 0 where
  pub workspace_owner : ℕ
  pub parent : Option ℕ
  pub unit_type : UnitType

pub record Db : Type 0 where
  pub users : Table User
  pub roles : Table Role
  pub functions : List AccessFunction
  pub units : Table OrganizationUnit

-- EXTERNAL_VENDOR_FORBIDDEN_CODES
abbrev pub external_vendor_forbidden_codes : List String
external_vendor_forbidden_codes =
    "access.manage" ∷ "permissions.view" ∷ "roles.view" ∷ "roles.create" ∷ "roles.update"
    ∷ "roles.delete" ∷ "users.manage" ∷ "users.view" ∷ "users.create" ∷ "users.update"
    ∷ "users.delete" ∷ "respondents.create" ∷ "clients.manage" ∷ "vendors.manage"
    ∷ "allocations.manage" ∷ "clients.integration.view" ∷ "clients.integration.manage"
    ∷ "clients.integration.test" ∷ "clients.integration.preview" ∷ "clients.integration.sync"
    ∷ "organization.view" ∷ "organization.manage" ∷ "organization.clients.manage"
    ∷ "termination_reasons.view" ∷ "termination_reasons.filter.rid"
    ∷ "termination_reasons.action.refresh" ∷ "termination_reasons.filter.status"
    ∷ "termination_reasons.filter.client" ∷ "termination_reasons.filters.clear"
    ∷ "termination_reasons.summary" ∷ "termination_reasons.control.pagination"
    ∷ "termination_reasons.action.details" ∷ "termination_reasons.card.total"
    ∷ "termination_reasons.card.terminated" ∷ "termination_reasons.card.quota"
    ∷ "termination_reasons.card.quality" ∷ "termination_reasons.column.rid"
    ∷ "termination_reasons.column.survey" ∷ "termination_reasons.column.client"
    ∷ "termination_reasons.column.respondent" ∷ "termination_reasons.column.status"
    ∷ "termination_reasons.column.ended" ∷ "termination_reasons.column.actions"
    ∷ "termination_reasons.field.status" ∷ "termination_reasons.field.reason"
    ∷ "termination_reasons.field.respondent" ∷ "termination_reasons.field.survey"
    ∷ "termination_reasons.field.timing" ∷ "termination_reasons.field.audit"
    ∷ "studies.card.revenue" ∷ "dashboard.card.revenue" ∷ "dashboard.card.average_cpi"
    ∷ "dashboard.card.rpc" ∷ "dashboard.graph.finance_filters" ∷ "sync.run" ∷ []

-- A set of codes is a list: membership, `add` and `discard`.
abbrev pub has : String → List String → Bool
has code = any (λ c. str_eq c code)

abbrev pub add : String → List String → List String
add code codes = if has code codes then codes else codes ++ code ∷ []

abbrev pub discard : String → List String → List String
discard code = select (λ c. not (str_eq c code))

abbrev pub role_of : Db → Option Profile → Option Role
role_of db none = none
role_of db (some p) = elim p.role_id [ none ↦ none | some k ↦ lookup k db.roles ]

-- The codes of a role's assignments that are allowed, of functions that are active.
unfoldable pub granted_codes : List Assignment → List String
granted_codes [] = []
granted_codes (a ∷ assignments) =
    let rest = granted_codes assignments in
    if a.allowed && a.function.is_active then a.function.code ∷ rest else rest

unfoldable pub role_codes : Option Role → List String
unfolding granted_codes
role_codes none = []
role_codes (some role) = if role.is_active then granted_codes role.function_assignments else []

abbrev pub set_effect : Effect → String → List String → List String
set_effect allow code codes = add code codes
set_effect deny code codes = discard code codes

-- `for code, effect in override_rows`, of the active functions
unfoldable pub apply_overrides : List Override → List String → List String
apply_overrides [] codes = codes
apply_overrides (o ∷ overrides) codes =
    apply_overrides overrides
      (if o.function.is_active then set_effect o.effect o.function.code codes else codes)

unfoldable pub is_forbidden : String → Bool
is_forbidden code = has code external_vendor_forbidden_codes || starts_with code "organization."

abbrev pub is_external : Option Profile → Bool
is_external none = false
is_external (some p) = elim p.account_type [ external_vendor ↦ true | _ ↦ false ]

unfoldable pub active_codes : List AccessFunction → List String
active_codes [] = []
active_codes (f ∷ functions) =
    let rest = active_codes functions in if f.is_active then f.code ∷ rest else rest

-- `load_from_database`
unfoldable pub load_codes : Db → User → List String
unfolding role_codes apply_overrides is_forbidden active_codes
load_codes db u =
    let codes = apply_overrides u.function_overrides (role_codes (role_of db u.employee_profile)) in
    if u.is_superuser
    then active_codes db.functions
    else if is_external u.employee_profile
    then select (λ c. not (is_forbidden c)) codes
    else codes

unfoldable pub effective_permission_codes : Db → User → List String
unfolding load_codes
effective_permission_codes db u =
    if not u.is_authenticated || not u.is_active then [] else load_codes db u

unfoldable pub has_function_access : Db → User → String → Bool
unfolding effective_permission_codes
has_function_access db u code =
    u.is_authenticated
    && u.is_active
    && (u.is_superuser || has code (effective_permission_codes db u))

abbrev pub is_subset : List String → List String → Bool
is_subset xs ys = not (any (λ c. not (has c ys)) xs)

-- `assignable_roles`
unfoldable pub is_assignable : Db → User → ℕ × Role → Bool
unfolding granted_codes
is_assignable db u (k, role) =
    role.is_active
    && (u.is_superuser
        || is_subset (granted_codes role.function_assignments) (effective_permission_codes db u))

unfoldable pub assignable_roles : Db → User → Table Role
assignable_roles db u = select (is_assignable db u) db.roles
