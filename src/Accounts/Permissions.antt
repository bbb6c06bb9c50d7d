-- ===== src/Accounts/Permissions.antt =====
-- The codes of an account (accounts/access.py `effective_permission_codes`), and that no account can
-- pass on more than it has (`assignable_roles`).
use quant_tool.Base.{
  ℕ, ◌==◌, ==→eq, some_same, String, str_eq, eq_iff, ◌≡◌, refl, ap, subst, inl, inr, Bool, true,
  false, not, ◌&&◌, ◌||◌, Option, none, some, List, [], ◌∷◌, ◌++◌, arith, if◌then◌else◌, Bool-cases,
}
use quant_tool.Base.Table.{Table, lookup}
use quant_tool.Base.Lists.{select}
use quant_tool.Accounts.{
  AccessFunction, Assignment, Role, Effect, allow, deny, Override, Profile, User, Db, has, add,
  role_of, granted_codes, role_codes, set_effect, apply_overrides, is_forbidden, is_external,
  active_codes, load_codes, effective_permission_codes, is_subset, is_assignable, assignable_roles,
}

-- The role grants the code.
pub grants : List Assignment → String → Bool
grants [] code = false
grants (a ∷ assignments) code =
    (a.allowed && a.function.is_active && str_eq a.function.code code) || grants assignments code

pub role_grants : Option Role → String → Bool
role_grants none code = false
role_grants (some role) code = role.is_active && grants role.function_assignments code

-- What the overrides of active functions make of a code: the last one for it decides.
pub overridden : List Override → String → Bool → Bool
overridden [] code before = before
overridden (o ∷ overrides) code before = overridden overrides code (
    if o.function.is_active && str_eq o.function.code code
    then elim o.effect [ allow ↦ true | deny ↦ false ]
    else before)

-- An active function has the code.
pub is_function : List AccessFunction → String → Bool
is_function [] code = false
is_function (f ∷ functions) code = (f.is_active && str_eq f.code code) || is_function functions code

has-append : (c : String) (xs ys : List String) → has c (xs ++ ys) ≡ (has c xs || has c ys)
has-append c [] ys = refl
has-append c (x ∷ xs) ys = ground (arith, has-append c xs ys)

has-add : (c d : String) (codes : List String) → has c (add d codes) ≡ (has c codes || str_eq d c)
has-add c d codes = elim (Bool-cases (has d codes)) [
  | inl old ↦ elim (Bool-cases (str_eq d c)) [
    | inl same ↦
        let there = subst (λ x. has x codes ≡ true) ((eq_iff d c).0 same) old in
        rw (old, same, there) refl
    | inr other ↦ ground (arith, old, other)
  ]
  | inr new ↦ ground (arith, new, has-append c codes (d ∷ []))
]

has-select :
    (c : String) (p : String → Bool) (codes : List String)
    → has c (select p codes) ≡ (has c codes && p c)
has-select c p [] = refl
has-select c p (x ∷ xs) = elim (Bool-cases (str_eq x c)) [
  | inl same ↦ let e = ap p ((eq_iff x c).0 same) in ground (arith, same, e, has-select c p xs)
  | inr other ↦ ground (arith, other, has-select c p xs)
]

granted_codes-grants :
    (assignments : List Assignment) (c : String)
    → has c (granted_codes assignments) ≡ grants assignments c
unfolding granted_codes grants
granted_codes-grants [] c = refl
granted_codes-grants (a ∷ assignments) c = ground (arith, granted_codes-grants assignments c)

role_codes-grants : (role : Option Role) (c : String) → has c (role_codes role) ≡ role_grants role c
unfolding role_codes role_grants
role_codes-grants none c = refl
role_codes-grants (some role) c = ground (arith, granted_codes-grants role.function_assignments c)

str_eq_comm : (c d : String) → str_eq c d ≡ str_eq d c
str_eq_comm c d = ground (arith, eq_iff c d, eq_iff d c)

set_effect-has :
    (e : Effect) (d c : String) (codes : List String)
    → has c (set_effect e d codes)
      ≡ (if str_eq d c then elim e [ allow ↦ true | deny ↦ false ] else has c codes)
set_effect-has allow d c codes = ground (arith, has-add c d codes)
set_effect-has deny d c codes =
    ground (arith, has-select c (λ x. not (str_eq x d)) codes, str_eq_comm c d)

apply_overrides-has :
    (overrides : List Override) (c : String) (codes : List String)
    → has c (apply_overrides overrides codes) ≡ overridden overrides c (has c codes)
unfolding apply_overrides overridden
apply_overrides-has [] c codes = refl
apply_overrides-has (o ∷ overrides) c codes = elim (Bool-cases o.function.is_active) [
  | inl active ↦ rw (active, apply_overrides-has overrides c, set_effect-has) refl
  | inr unused ↦ rw (unused, apply_overrides-has overrides c) refl
]

active_codes-is_function :
    (functions : List AccessFunction) (c : String)
    → has c (active_codes functions) ≡ is_function functions c
unfolding active_codes is_function
active_codes-is_function [] c = refl
active_codes-is_function (f ∷ functions) c = ground (arith, active_codes-is_function functions c)

-- An account that is signed in and active has a code exactly where it is a superuser and the code is
-- that of an active function, or where the last override for the code allows it, or there is none
-- and its active role grants it; and never, for an external supplier, where the code is forbidden or
-- one of the organization's. Any other account has none.
pub effective_permission_codes_lem :
    (db : Db) (u : User) (c : String)
    → has c (effective_permission_codes db u) ≡ (
        u.is_authenticated
        && u.is_active
        && (if u.is_superuser
            then is_function db.functions c
            else overridden u.function_overrides c (role_grants (role_of db u.employee_profile) c)
              && not (is_external u.employee_profile && is_forbidden c)))
unfolding effective_permission_codes load_codes
effective_permission_codes_lem db u c =
    let role = role_of db u.employee_profile in
    let codes = apply_overrides u.function_overrides (role_codes role) in
    ground (
      arith,
      active_codes-is_function db.functions c,
      has-select c (λ x. not (is_forbidden x)) codes,
      apply_overrides-has u.function_overrides c (role_codes role),
      role_codes-grants role c,
    )

subset_has :
    (xs ys : List String) (c : String) → is_subset xs ys ≡ true → has c xs ≡ true → has c ys ≡ true
subset_has [] ys c h there = cc
subset_has (x ∷ xs) ys c h there = elim (Bool-cases (str_eq x c)) [
  | inl same ↦ let e = ap (λ d. has d ys) ((eq_iff x c).0 same) in ground (arith, h, e)
  | inr other ↦ ground (arith, h, there, other, subset_has xs ys c)
]

lookup_passed :
    {V : Type 0} (k : ℕ) (p : ℕ × V → Bool) (t : Table V) {v : V}
    → lookup k (select p t) ≡ some v
    → p (k, v) ≡ true
lookup_passed k p [] h = cc
lookup_passed k p ((j, w) ∷ t) {v} h = elim (Bool-cases (p (j, w))) [
  | inl kept ↦ elim (Bool-cases (j == k)) [
    | inl same ↦
        subst (λ x. p (k, x) ≡ true) (some_same (rw (kept, same) at h))
          (subst (λ i. p (i, w) ≡ true) (==→eq j k same) kept)
    | inr other ↦ lookup_passed k p t (rw (kept, other) at h)
  ]
  | inr dropped ↦ lookup_passed k p t (rw dropped at h)
]

-- Who is not a superuser passes on no more than they have: where such an account may assign a role,
-- another account that is not a superuser, has that role and no overrides of its own has only codes
-- that the assigning one has.
pub assignable_roles_subset :
    (db : Db) (u v : User) (p : Profile) (k : ℕ) (role : Role) (c : String)
    → u.is_superuser ≡ false
    → lookup k db.roles ≡ some role
    → lookup k (assignable_roles db u) ≡ some role
    → v.employee_profile ≡ some p
    → p.role_id ≡ some k
    → v.function_overrides ≡ []
    → v.is_superuser ≡ false
    → has c (effective_permission_codes db v) ≡ true
    → has c (effective_permission_codes db u) ≡ true
unfolding assignable_roles is_assignable overridden role_grants
assignable_roles_subset db u v p k role c plain found assignable profile has_role none_own plain_v
      there =
    let theirs = effective_permission_codes_lem db v c in
    let passed = lookup_passed k (is_assignable db u) db.roles assignable in
    let own : (b : Bool) → overridden v.function_overrides c b ≡ b = λ b. rw none_own refl in
    let role_is : role_of db v.employee_profile ≡ some role = rw (profile, has_role) found in
    let grant = ap (λ r. role_grants r c) role_is in
    subset_has (granted_codes role.function_assignments) (effective_permission_codes db u) c
      (ground (arith, passed, plain))
      (ground (
        arith,
        theirs,
        there,
        plain_v,
        own (role_grants (role_of db v.employee_profile) c),
        grant,
        granted_codes-grants role.function_assignments c,
      ))
