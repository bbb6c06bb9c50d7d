-- ===== src/Accounts/Subordinates.antt =====
-- accounts/access.py `subordinate_user_ids` and `manageable_user_ids`: the accounts that an account
-- created, directly or through others.
use quant_tool.Base.{
  ℕ, ◌≡◌, refl, ap, ◌↔◌, inl, inr, Bool, true, false, not, ◌&&◌, Option, none, some, List, [], ◌∷◌,
  ◌++◌, ◌==◌, ==→eq, arith, if◌then◌else◌, Bool-cases,
}
use quant_tool.Base.Table.{Table, lookup}
use quant_tool.Base.Lists.{select, contains}
use quant_tool.Base.Closure.{Parents, descend}
use quant_tool.Base.Closure.Reach.{Below, descend_iff}
use quant_tool.Vendors.Models.{AccountType, employee, internal_vendor}
use quant_tool.Accounts.{User, Profile, Db}

-- The profiles' users with the accounts that created them.
abbrev pub creators : Table User → Parents
creators [] = []
creators ((k, u) ∷ users) = elim u.employee_profile [
  | none ↦ creators users
  | some p ↦ (k, p.created_by) ∷ creators users
]

abbrev pub keys {ℓ} : {V : Type ℓ} → List (ℕ × V) → List ℕ
keys [] = []
keys ((k, _) ∷ t) = k ∷ keys t

-- `descendants.discard(user.id)`
abbrev pub without : ℕ → List ℕ → List ℕ
without k = select (λ a. not (a == k))

-- The loop takes two rounds more than there are accounts; `none` would mean that these ran out.
unfoldable pub subordinate_user_ids : Db → ℕ → User → Option (List ℕ)
subordinate_user_ids db k u =
    if not u.is_authenticated
    then some []
    else if u.is_superuser
    then some (keys db.users)
    else elim (descend (creators db.users) (k ∷ []) []) [
      | none ↦ none
      | some r ↦ some (without k r)
    ]

-- The users whose profile passes the test.
abbrev pub members : (Profile → Bool) → Table User → List ℕ
members test [] = []
members test ((k, u) ∷ users) =
    let rest = members test users in
    elim u.employee_profile [ none ↦ rest | some p ↦ if test p then k ∷ rest else rest ]

abbrev pub is_employee : AccountType → Bool
is_employee employee = true
is_employee _ = false

abbrev pub is_internal_vendor : AccountType → Bool
is_internal_vendor internal_vendor = true
is_internal_vendor _ = false

-- An employee who is placed in a unit of the owner's workspace.
unfoldable pub is_placed_in : Db → ℕ → Profile → Bool
is_placed_in db owner p = is_employee p.account_type && elim p.organization_unit_id [
  | none ↦ false
  | some unit_id ↦ elim (lookup unit_id db.units) [
    | none ↦ false
    | some unit ↦ unit.workspace_owner == owner
  ]
]

unfoldable pub manageable_user_ids : Db → ℕ → User → Option (List ℕ)
unfolding subordinate_user_ids is_placed_in
manageable_user_ids db k u =
    if not u.is_authenticated then some [] else elim (subordinate_user_ids db k u) [
      | none ↦ none
      | some ids ↦ some (
          if u.is_superuser then ids else elim u.employee_profile [
            | none ↦ ids
            | some p ↦
                if is_internal_vendor p.account_type
                then ids ++ members (is_placed_in db k) db.users
                else ids
          ])
    ]

contains-without :
    (a k : ℕ) (xs : List ℕ) → contains a (without k xs) ≡ (contains a xs && not (a == k))
contains-without a k [] = refl
contains-without a k (x ∷ xs) = elim (Bool-cases (x == a)) [
  | inl same ↦
      let e = ap (λ i. i == k) (==→eq x a same) in ground (arith, same, e, contains-without a k xs)
  | inr other ↦ ground (arith, other, contains-without a k xs)
]

-- The search for an account's subordinates ends, also where accounts created one another in a circle,
-- and has then found exactly the others that it created, directly or through others.
pub subordinate_user_ids_iff :
    (db : Db) (k : ℕ) (u : User)
    → u.is_authenticated ≡ true
    → u.is_superuser ≡ false
    → (r : List ℕ) × (subordinate_user_ids db k u ≡ some r)
      × ((a : ℕ)
          → (contains a r ≡ true) ↔ (Below (creators db.users) (k ∷ []) a × ((a == k) ≡ false)))
unfolding subordinate_user_ids
subordinate_user_ids_iff db k u signed_in plain =
    let (r, e, exact) = descend_iff (creators db.users) (k ∷ []) [] (λ a h. absurd (cc)) in
    (
      without k r,
      rw (signed_in, plain, e) refl,
      λ a. (
        λ h. elim ((exact a).0 (ground (arith, contains-without a k r))) [
          | inl never ↦ absurd (cc)
          | inr below ↦ (below, ground (arith, contains-without a k r))
        ],
        λ both. ground (arith, contains-without a k r, (exact a).1 (inr (both.0))),
      ),
    )
