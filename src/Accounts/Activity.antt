-- ===== src/Accounts/Activity.antt =====
-- accounts/access.py `activity_visible_user_ids`: whose tracking activity an account sees. The
-- supplier that owns the account (vendors/access.py `vendor_scope_user_id`) is an argument.
pub mod Climb
pub mod Team
use quant_tool.Base.{
  ℕ, zero, suc, ◌+◌, ◌<◌, ◌≡◌, refl, ap, ◌↔◌, ◌⊎◌, inl, inr, String, str_eq, Bool, true, false, not,
  ◌&&◌, ◌||◌, Option, none, some, List, [], ◌∷◌, ◌++◌, leb, ltb, ◌==◌, ==→eq, arith, if◌then◌else◌,
  Bool-cases, Option-cases, some_same, not_none,
}
use quant_tool.Base.Table.{Table, lookup}
use quant_tool.Base.Lists.{any, contains}
use quant_tool.Base.Closure.{Parents, descend, contains-append}
use quant_tool.Base.Closure.Reach.{Below, descend_iff}
use quant_tool.Vendors.Models.{AccountType, employee, internal_vendor, external_vendor}
use quant_tool.Accounts.{
  UnitType, branch, sub_branch, shift, Role, User, Profile, OrganizationUnit, Db, role_of,
}
use quant_tool.Accounts.Subordinates.{
  keys, members, is_employee, is_internal_vendor, is_placed_in, subordinate_user_ids,
}

abbrev parents_of : Table OrganizationUnit → Parents
parents_of [] = []
parents_of ((k, unit) ∷ units) = (k, unit.parent) ∷ parents_of units

-- vendors/access.py `organization_unit_descendant_ids`, with the unit itself
unfoldable pub organization_unit_descendant_ids : Db → ℕ → Option (List ℕ)
organization_unit_descendant_ids db k = descend (parents_of db.units) (k ∷ []) (k ∷ [])

abbrev is_branch : UnitType → Bool
is_branch branch = true
is_branch _ = false

-- `while scope_unit.parent_id and scope_unit.unit_type != "branch"`, from the unit `k`; `none` where
-- the fuel runs out.
unfoldable pub climb : ℕ → Table OrganizationUnit → ℕ → OrganizationUnit → Option ℕ
climb zero units k unit = none
climb (suc fuel) units k unit = elim unit.parent [
  | none ↦ some k
  | some p ↦
      let rest : Option ℕ = elim (lookup p units) [
        | none ↦ some k
        | some up ↦ climb fuel units p up
      ] in
      if is_branch unit.unit_type then some k else rest
]

-- A branch, a sub-branch and a shift are three levels.
abbrev pub levels : ℕ
levels = 3

abbrev is_super_slug : Option Role → Bool
is_super_slug none = false
is_super_slug (some role) =
    role.is_active && (str_eq role.slug "super-admin" || str_eq role.slug "superadmin")

unfoldable pub is_super_admin_account : Db → User → Bool
is_super_admin_account db u =
    u.is_authenticated
    && u.is_active
    && (u.is_superuser || is_super_slug (role_of db u.employee_profile))

-- An employee with a role of a lower rank.
unfoldable pub is_lower : Db → ℕ → Profile → Bool
is_lower db rank p =
    is_employee p.account_type
    && elim (role_of db (some p)) [ none ↦ false | some role ↦ ltb role.rank rank ]

abbrev unit_in : List ℕ → Profile → Bool
unit_in units p = elim p.organization_unit_id [ none ↦ false | some k ↦ contains k units ]

abbrev same_creator : ℕ → Profile → Bool
same_creator creator p = elim p.created_by [ none ↦ false | some c ↦ c == creator ]

abbrev also : ℕ → Option (List ℕ) → Option (List ℕ)
also k none = none
also k (some ids) = some (k ∷ ids)

-- The lower employees in the unit of a team lead, or in the branch of a higher one.
unfoldable pub team_of : Db → ℕ → ℕ → Option (List ℕ)
unfolding climb organization_unit_descendant_ids is_lower
team_of db rank unit_id = elim (lookup unit_id db.units) [
  | none ↦ some []
  | some unit ↦
      let scope = if ltb 20 rank then climb levels db.units unit_id unit else some unit_id in
      elim scope [
        | none ↦ none
        | some top ↦ elim (organization_unit_descendant_ids db top) [
          | none ↦ none
          | some units ↦ some (members (λ p. unit_in units p && is_lower db rank p) db.users)
        ]
      ]
]

-- What an employee with a rank of at least 20 sees beside the own activity.
unfoldable pub employee_team : Db → ℕ → User → Profile → ℕ → Option (List ℕ)
unfolding team_of is_lower subordinate_user_ids
employee_team db k u p rank = elim p.organization_unit_id [
  | some unit_id ↦ team_of db rank unit_id
  | none ↦ elim p.created_by [
    | none ↦ subordinate_user_ids db k u
    | some creator ↦ some (members (λ q. same_creator creator q && is_lower db rank q) db.users)
  ]
]

unfoldable pub visible_with_role : Db → Option ℕ → ℕ → User → Profile → Role → Option (List ℕ)
unfolding employee_team subordinate_user_ids is_placed_in
visible_with_role db vendor k u p role =
    let own =
      if not (is_employee p.account_type) || ltb role.rank 20
      then some (k ∷ [])
      else also k (employee_team db k u p role.rank) in
    elim vendor [
      | none ↦ own
      | some owner ↦
          if is_internal_vendor p.account_type
          then elim (subordinate_user_ids db k u) [
            | none ↦ none
            | some ids ↦ some (k ∷ ids ++ members (is_placed_in db owner) db.users)
          ]
          else own
    ]

-- `activity_visible_user_ids` of an account; `vendor` is the supplier that owns it.
unfoldable pub activity_visible_user_ids : Db → Option ℕ → ℕ → User → Option (List ℕ)
unfolding visible_with_role
activity_visible_user_ids db vendor k u =
    if not u.is_authenticated
    then some []
    else if is_super_admin_account db u
    then some (keys db.users)
    else elim u.employee_profile [
      | none ↦ some (k ∷ [])
      | some p ↦ elim (role_of db (some p)) [
        | none ↦ some (k ∷ [])
        | some role ↦ visible_with_role db vendor k u p role
      ]
    ]
