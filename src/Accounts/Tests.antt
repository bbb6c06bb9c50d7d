-- ===== src/Accounts/Tests.antt =====
-- Test data and runs of accounts/access.py.
use quant_tool.Base.{
  ℕ, ◌≡◌, refl, ◌↔◌, true, false, not, ◌&&◌, Option, none, some, List, [], ◌∷◌, ◌==◌, arith,
}
use quant_tool.Base.Table.{lookup}
use quant_tool.Base.Lists.{contains}
use quant_tool.Base.Closure.{descend, closure, children_of}
use quant_tool.Base.Closure.Reach.{Below}
use quant_tool.Vendors.Models.{employee, external_vendor}
use quant_tool.Accounts.{
  AccessFunction, Assignment, Role, allow, Profile, User, UnitType, branch, sub_branch, shift,
  OrganizationUnit, Db, has, role_of, is_external, is_forbidden, effective_permission_codes,
  assignable_roles, is_assignable,
}
use quant_tool.Accounts.Permissions.{
  overridden, role_grants, effective_permission_codes_lem, assignable_roles_subset,
}
use quant_tool.Accounts.Subordinates.{creators, subordinate_user_ids, subordinate_user_ids_iff}
use quant_tool.Accounts.Activity.{activity_visible_user_ids, is_super_admin_account}
use quant_tool.Accounts.Activity.Climb.{IsHierarchy}
use quant_tool.Accounts.Activity.Team.{HasProfile, IsTop, IsTeammate, activity_visible_team}

abbrev view : AccessFunction
view = record { code = "dashboard.view"; is_active = true }

abbrev sync : AccessFunction
sync = record { code = "sync.run"; is_active = true }

abbrev retired : AccessFunction
retired = record { code = "old.view"; is_active = false }

abbrev granting : List AccessFunction → List Assignment
granting [] = []
granting (f ∷ functions) = record { function = f; allowed = true } ∷ granting functions

abbrev a_role : ℕ → List AccessFunction → Role
a_role rank functions = record {
  slug = "a-role";
  rank = rank;
  is_system = false;
  is_active = true;
  created_by = none;
  function_assignments = granting functions;
}

abbrev member : ℕ → Option ℕ → Option ℕ → User
member role_id creator unit = record {
  is_authenticated = true;
  is_active = true;
  is_superuser = false;
  employee_profile = some (record {
    account_type = employee;
    role_id = some role_id;
    created_by = creator;
    organization_unit_id = unit;
  });
  function_overrides = [];
}

abbrev unit_of : Option ℕ → UnitType → OrganizationUnit
unit_of parent kind = record { workspace_owner = 1; parent = parent; unit_type = kind }

-- The users 1 and 2 created one another, and 2 created 3. The lead 2 stands in the unit 11.
abbrev db : Db
db = record {
  users =
      (1, member 100 (some 2) (some 10))
      ∷ (2, member 101 (some 1) (some 11))
      ∷ (3, member 102 (some 2) (some 12))
      ∷ [];
  roles =
      (100, a_role 40 (view ∷ sync ∷ []))
      ∷ (101, a_role 20 (view ∷ retired ∷ []))
      ∷ (102, a_role 10 [])
      ∷ [];
  functions = view ∷ sync ∷ retired ∷ [];
  units =
      (10, unit_of none branch)
      ∷ (11, unit_of (some 10) sub_branch)
      ∷ (12, unit_of (some 11) shift)
      ∷ [];
}

abbrev lead : User
lead = member 101 (some 1) (some 11)

abbrev chief : User
chief = member 100 (some 2) (some 10)

lead_views : has "dashboard.view" (effective_permission_codes db lead) ≡ true
unfolding effective_permission_codes
lead_views = refl

-- An override allows an external supplier a forbidden code in vain.
supplier_syncs_not :
    has "sync.run" (
      effective_permission_codes db (record chief {
        employee_profile = some (record {
          account_type = external_vendor;
          role_id = some 100;
          created_by = none;
          organization_unit_id = none;
        });
        function_overrides = record { function = sync; effect = allow } ∷ [];
      }))
    ≡ false
unfolding effective_permission_codes
supplier_syncs_not = refl

effective_permission_codes_lem_example : has "old.view" (effective_permission_codes db lead) ≡ (
    overridden [] "old.view" (role_grants (role_of db lead.employee_profile) "old.view")
    && not (is_external lead.employee_profile && is_forbidden "old.view"))
effective_permission_codes_lem_example = effective_permission_codes_lem db lead "old.view"

is_assigned : lookup 101 (assignable_roles db chief) ≡ some (a_role 20 (view ∷ retired ∷ []))
unfolding assignable_roles is_assignable effective_permission_codes
is_assigned = refl

assignable_roles_subset_example : has "dashboard.view" (effective_permission_codes db chief) ≡ true
assignable_roles_subset_example =
    assignable_roles_subset db chief lead
      (record {
        account_type = employee;
        role_id = some 101;
        created_by = some 1;
        organization_unit_id = some 11;
      })
      101 (a_role 20 (view ∷ retired ∷ [])) "dashboard.view" refl refl is_assigned refl refl refl
      refl lead_views

two_below_one : subordinate_user_ids db 1 chief ≡ some (2 ∷ 3 ∷ [])
unfolding subordinate_user_ids descend closure children_of
two_below_one = refl

subordinate_user_ids_iff_example :
    (r : List ℕ) × (subordinate_user_ids db 1 chief ≡ some r)
    × ((a : ℕ)
        → (contains a r ≡ true) ↔ (Below (creators db.users) (1 ∷ []) a × ((a == 1) ≡ false)))
subordinate_user_ids_iff_example = subordinate_user_ids_iff db 1 chief refl refl

a-IsHierarchy : IsHierarchy db.units
unfolding IsHierarchy
a-IsHierarchy k p unit up found parent there = ground (arith, found, parent, there)

lead_not_super : is_super_admin_account db lead ≡ false
unfolding is_super_admin_account
lead_not_super = refl

activity_visible_team_example :
    (top : ℕ) × (ids : List ℕ) × IsTop db 20 11 top
    × (activity_visible_user_ids db none 2 lead ≡ some (2 ∷ ids))
    × ((a : ℕ)
        → contains a ids ≡ true
        → (q : Profile) × HasProfile db.users a q × IsTeammate db 20 top q)
activity_visible_team_example =
    activity_visible_team db none 2 lead
      (record {
        account_type = employee;
        role_id = some 101;
        created_by = some 1;
        organization_unit_id = some 11;
      })
      (a_role 20 (view ∷ retired ∷ [])) 11 (unit_of (some 10) sub_branch) refl lead_not_super refl
      refl refl refl refl refl a-IsHierarchy
