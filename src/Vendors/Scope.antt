-- ===== src/Vendors/Scope.antt =====
-- vendors/access.py: the supplier that owns an account (`vendor_scope_user_id`), by the workspace
-- of its unit, by its own account type, or by the account that created it.
use quant_tool.Base.{
  ℕ, zero, suc, ◌+◌, ◌<◌, ◌≡◌, ◌≢◌, refl, ap, subst, ◌∙◌, Bool, true, false, Option, none, some,
  List, [], ◌∷◌, inl, inr, arith, if◌then◌else◌, Option-cases, Bool-cases,
}
use quant_tool.Base.Table.{lookup}
use quant_tool.Base.Lists.{length, contains}
use quant_tool.Base.Walk.{unvisited, unvisited-cons-lt}
use quant_tool.Vendors.Models.{AccountType, employee, internal_vendor, external_vendor, Profile, Db}

-- `account_type in VENDOR_ACCOUNT_TYPES`
abbrev pub is_vendor : AccountType → Bool
is_vendor employee = false
is_vendor internal_vendor = true
is_vendor external_vendor = true

pub data Scope : Type 0 where
  owner : ℕ → Scope
  no_owner out_of_fuel : Scope

abbrev pub profile_of : Db → ℕ → Option Profile
profile_of db k = elim (lookup k db.users) [ none ↦ none | some user ↦ user.employee_profile ]

-- The owner of the workspace that a profile's unit lies in, where that is a supplier.
unfoldable pub workspace_vendor : Db → Profile → Option ℕ
workspace_vendor db p = elim p.organization_unit_id [
  | none ↦ none
  | some unit_id ↦ elim (lookup unit_id db.units) [
    | none ↦ none
    | some unit ↦ elim (profile_of db unit.workspace_owner) [
      | none ↦ none
      | some q ↦ if is_vendor q.account_type then some unit.workspace_owner else none
    ]
  ]
]

-- `while current and current.pk not in visited`
unfoldable pub scope_from : ℕ → Db → Option ℕ → List ℕ → Scope
scope_from zero db current visited = out_of_fuel
scope_from (suc fuel) db none visited = no_owner
scope_from (suc fuel) db (some k) visited = elim (profile_of db k) [
  | none ↦ no_owner
  | some p ↦
      let up = scope_from fuel db p.created_by (k ∷ visited) in
      if contains k visited then no_owner else elim (workspace_vendor db p) [
        | some v ↦ owner v
        | none ↦ if is_vendor p.account_type then owner k else up
      ]
]

-- The supplier that owns the authenticated user `k`.
unfoldable pub vendor_scope_user_id : Db → ℕ → Option ℕ
unfolding scope_from workspace_vendor
vendor_scope_user_id db k = elim (scope_from (length db.users + 1) db (some k) []) [
  | owner v ↦ some v
  | no_owner ↦ none
  | out_of_fuel ↦ none
]

-- The rounds that `vendor_scope_user_id` allows suffice, also where accounts created one another
-- in a cycle.
pub scope_from-ne-out_of_fuel :
    (fuel : ℕ) (db : Db) (current : Option ℕ) (visited : List ℕ)
    → unvisited visited db.users < fuel
    → scope_from fuel db current visited ≢ out_of_fuel
unfolding scope_from
scope_from-ne-out_of_fuel zero db current visited h = absurd (omega arith)
scope_from-ne-out_of_fuel (suc fuel) db none visited h = cc
scope_from-ne-out_of_fuel (suc fuel) db (some k) visited h =
    elim (Option-cases (lookup k db.users)) [
      | inl gone ↦ ground arith
      | inr (user, found) ↦ elim (Option-cases user.employee_profile) [
        | inl bare ↦ ground arith
        | inr (p, has) ↦ ground (
          arith,
          found,
          has,
          scope_from-ne-out_of_fuel fuel db p.created_by (k ∷ visited),
          unvisited-cons-lt k visited db.users found,
        )
      ]
    ]

-- How the account `v` owns the account `k`.
pub data Owns (db : Db) : ℕ → ℕ → Type 0 where
  workspace :
      {k v : ℕ} (p : Profile)
      → profile_of db k ≡ some p
      → workspace_vendor db p ≡ some v
      → Owns db k v
  itself :
      {k : ℕ} (p : Profile)
      → profile_of db k ≡ some p
      → workspace_vendor db p ≡ none
      → is_vendor p.account_type ≡ true
      → Owns db k k
  creator :
      {k c v : ℕ} (p : Profile)
      → profile_of db k ≡ some p
      → workspace_vendor db p ≡ none
      → is_vendor p.account_type ≡ false
      → p.created_by ≡ some c
      → Owns db c v
      → Owns db k v

abbrev pub IsSupplier : Db → ℕ → Type 0
IsSupplier db v = (p : Profile) × (profile_of db v ≡ some p) × (is_vendor p.account_type ≡ true)

scope_none-ne-owner :
    (fuel : ℕ) (db : Db) (v : ℕ) (visited : List ℕ) {P : Type 0}
    → scope_from fuel db none visited ≡ owner v
    → P
unfolding scope_from
scope_none-ne-owner zero db v visited e = cc
scope_none-ne-owner (suc fuel) db v visited e = cc

scope_from-Owns :
    (fuel : ℕ) (db : Db) (k v : ℕ) (visited : List ℕ)
    → scope_from fuel db (some k) visited ≡ owner v
    → Owns db k v
unfolding scope_from
scope_from-Owns zero db k v visited e = cc
scope_from-Owns (suc fuel) db k v visited e = elim (Option-cases (profile_of db k)) [
  | inl bare ↦ cc (rw (bare, scope_from) at e)
  | inr (p, has) ↦ elim (Bool-cases (contains k visited)) [
    | inl old ↦ cc (rw (has, old, scope_from) at e)
    | inr new ↦ elim (Option-cases (workspace_vendor db p)) [
      | inr (w, lies) ↦
          let same : w ≡ v = cc (rw (has, new, lies, scope_from) at e) in
          workspace p has (lies ∙ ap some same)
      | inl bare ↦ elim (Bool-cases (is_vendor p.account_type)) [
        | inl vendor ↦
            let same : k ≡ v = cc (rw (has, new, bare, vendor, scope_from) at e) in
            subst (Owns db k) same (itself p has bare vendor)
        | inr plain ↦
            let up : scope_from fuel db p.created_by (k ∷ visited) ≡ owner v =
              rw (has, new, bare, plain, scope_from) at e in
            elim (Option-cases p.created_by) [
              | inl top ↦ scope_none-ne-owner fuel db v (k ∷ visited) (rw top at up)
              | inr (c, by) ↦
                  creator p has bare plain by
                    (scope_from-Owns fuel db c v (k ∷ visited) (rw by at up))
            ]
      ]
    ]
  ]
]

workspace_vendor-IsSupplier :
    (db : Db) (p : Profile) (v : ℕ) → workspace_vendor db p ≡ some v → IsSupplier db v
unfolding workspace_vendor
workspace_vendor-IsSupplier db p v e = elim (Option-cases p.organization_unit_id) [
  | inl free ↦ cc (rw (free, workspace_vendor) at e)
  | inr (u, placed) ↦ elim (Option-cases (lookup u db.units)) [
    | inl gone ↦ cc (rw (placed, gone, workspace_vendor) at e)
    | inr (unit, row) ↦ elim (Option-cases (profile_of db unit.workspace_owner)) [
      | inl bare ↦ cc (rw (placed, row, bare, workspace_vendor) at e)
      | inr (q, has) ↦ elim (Bool-cases (is_vendor q.account_type)) [
        | inr plain ↦ cc (rw (placed, row, has, plain, workspace_vendor) at e)
        | inl vendor ↦
            let same : unit.workspace_owner ≡ v =
              cc (rw (placed, row, has, vendor, workspace_vendor) at e) in
            (q, rw (← same) has, vendor)
      ]
    ]
  ]
]

Owns-IsSupplier : (db : Db) {k v : ℕ} → Owns db k v → IsSupplier db v
Owns-IsSupplier db {v = v} (workspace p has lies) = workspace_vendor-IsSupplier db p v lies
Owns-IsSupplier db (itself p has bare vendor) = (p, has, vendor)
Owns-IsSupplier db (creator p has bare plain by up) = Owns-IsSupplier db up

-- A supplier that is found for an account owns it, by a workspace, as the account itself or through
-- the accounts that created it, and has a supplier's account type.
pub vendor_scope-Owns :
    (db : Db) (k v : ℕ) → vendor_scope_user_id db k ≡ some v → Owns db k v × IsSupplier db v
unfolding vendor_scope_user_id
vendor_scope-Owns db k v e = go (scope_from (length db.users + 1) db (some k) []) refl
  where
    go :
        (s : Scope)
        → scope_from (length db.users + 1) db (some k) [] ≡ s
        → Owns db k v × IsSupplier db v
    go (owner w) h =
        let same : w ≡ v = cc (rw (h, vendor_scope_user_id) at e) in
        let owns = subst (Owns db k) same (scope_from-Owns _ db k w [] h) in
        (owns, Owns-IsSupplier db owns)
    go no_owner h = cc (rw (h, vendor_scope_user_id) at e)
    go out_of_fuel h = cc (rw (h, vendor_scope_user_id) at e)
