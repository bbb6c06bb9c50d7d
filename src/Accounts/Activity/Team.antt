-- ===== src/Accounts/Activity/Team.antt =====
-- Whom a team lead sees (accounts/access.py `activity_visible_user_ids`).
use quant_tool.Base.{
  ℕ, ◌<◌, ◌≤◌, ◌≡◌, refl, ap, subst, some_same, ◌∙◌, ◌⊎◌, ◌↔◌, inl, inr, Bool, true, false, ◌&&◌,
  Option, none, some, List, [], ◌∷◌, ltb, ◌==◌, ==→eq, arith, if◌then◌else◌, Bool-cases,
  Option-cases,
}
use quant_tool.Base.Table.{Table, lookup}
use quant_tool.Base.Lists.{contains}
use quant_tool.Base.Closure.Reach.{Below, descend_iff}
use quant_tool.Vendors.Models.{AccountType, employee, internal_vendor, external_vendor}
use quant_tool.Accounts.{Role, User, Profile, OrganizationUnit, Db, role_of}
use quant_tool.Accounts.Subordinates.{members}
use quant_tool.Accounts.Activity.{
  parents_of, organization_unit_descendant_ids, climb, levels, is_super_admin_account, is_employee,
  is_lower, unit_in, team_of, employee_team, visible_with_role, also, activity_visible_user_ids,
}
use quant_tool.Accounts.Activity.Climb.{IsHierarchy, climb_total, level_bound, Climbs, climb-Climbs}

-- A user `a` has the profile `q`.
pub HasProfile : Table User → ℕ → Profile → Type 0
HasProfile [] a q = ⊥
HasProfile ((k, u) ∷ users) a q = ((k ≡ a) × (u.employee_profile ≡ some q)) ⊎ HasProfile users a q

members_passed :
    (test : Profile → Bool) (users : Table User) (a : ℕ)
    → contains a (members test users) ≡ true
    → (q : Profile) × HasProfile users a q × (test q ≡ true)
unfolding HasProfile
members_passed test [] a h = absurd (cc)
members_passed test ((k, u) ∷ users) a h = elim (Option-cases u.employee_profile) [
  | inl without ↦
      let (q, there, passed) = members_passed test users a (ground (arith, without)) in
      (q, inr there, passed)
  | inr (p, has) ↦ elim (Bool-cases (test p && k == a)) [
    | inl here ↦ (p, inl (==→eq k a (ground (arith, here)), has), ground (arith, here))
    | inr not_here ↦
        let (q, there, passed) = members_passed test users a (ground (arith, has, not_here)) in
        (q, inr there, passed)
  ]
]

-- Where the code's search starts
StartsAt : Db → ℕ → ℕ → OrganizationUnit → ℕ → Type 0
StartsAt db rank unit_id unit top =
    (if ltb 20 rank then climb levels db.units unit_id unit else some unit_id) ≡ some top

-- The unit `top` is where the lead's part begins: for a rank up to 20 the lead's own unit, for a
-- higher one what is reached up from there.
pub data IsTop (db : Db) (rank unit_id : ℕ) : ℕ → Type 0 where
  own_unit : rank ≤ 20 → IsTop db rank unit_id unit_id
  above : {top : ℕ} → 20 < rank → Climbs db.units unit_id top → IsTop db rank unit_id top

StartsAt-IsTop :
    (db : Db) (rank unit_id : ℕ) (unit : OrganizationUnit) (top : ℕ)
    → lookup unit_id db.units ≡ some unit
    → StartsAt db rank unit_id unit top
    → IsTop db rank unit_id top
unfolding StartsAt
StartsAt-IsTop db rank unit_id unit top found e = elim (Bool-cases (ltb 20 rank)) [
  | inl high ↦
      above (ground (arith, high))
        (climb-Climbs levels db.units unit_id unit top found (rw high at e))
  | inr low ↦
      subst (IsTop db rank unit_id) (some_same (rw low at e)) (own_unit (ground (arith, low)))
]

-- The employee `q` has a role of a lower rank and a unit that is `top` or below it.
pub IsTeammate : Db → ℕ → ℕ → Profile → Type 0
IsTeammate db rank top q =
    (q.account_type ≡ employee)
    × ((r : Role) × (role_of db (some q) ≡ some r) × (r.rank < rank))
    × ((c : ℕ) × (q.organization_unit_id ≡ some c)
        × ((c ≡ top) ⊎ Below (parents_of db.units) (top ∷ []) c))

StartsAt-total :
    (db : Db) (rank unit_id : ℕ) (unit : OrganizationUnit)
    → IsHierarchy db.units
    → lookup unit_id db.units ≡ some unit
    → (top : ℕ) × StartsAt db rank unit_id unit top
unfolding StartsAt
StartsAt-total db rank unit_id unit rule found = elim (Bool-cases (ltb 20 rank)) [
  | inl high ↦
      let (top, e) =
        climb_total levels db.units unit_id unit rule found (level_bound unit.unit_type) in
      (top, rw high e)
  | inr low ↦ (unit_id, rw low refl)
]

is_employee→eq : (t : AccountType) → is_employee t ≡ true → t ≡ employee
is_employee→eq employee e = refl
is_employee→eq internal_vendor e = cc
is_employee→eq external_vendor e = cc

lower_rank :
    (db : Db) (rank : ℕ) (q : Profile)
    → is_lower db rank q ≡ true
    → (q.account_type ≡ employee) × ((r : Role) × (role_of db (some q) ≡ some r) × (r.rank < rank))
unfolding is_lower
lower_rank db rank q e = elim (Option-cases (role_of db (some q))) [
  | inl none_there ↦ absurd (ground (arith, none_there, e))
  | inr (r, has_role) ↦ (
    is_employee→eq q.account_type (ground (arith, e)),
    (r, has_role, ground (arith, has_role, e)),
  )
]

teammate :
    (db : Db) (rank top : ℕ) (units : List ℕ) (q : Profile)
    → ((a : ℕ)
        → (contains a units ≡ true)
          ↔ ((contains a (top ∷ []) ≡ true) ⊎ Below (parents_of db.units) (top ∷ []) a))
    → (unit_in units q && is_lower db rank q) ≡ true
    → IsTeammate db rank top q
unfolding IsTeammate
teammate db rank top units q exact passed = elim (Option-cases q.organization_unit_id) [
  | inl unplaced ↦ absurd (ground (arith, unplaced, passed))
  | inr (c, placed) ↦ (
    (lower_rank db rank q (ground (arith, passed))).0,
    (lower_rank db rank q (ground (arith, passed))).1,
    (
      c,
      placed,
      elim ((exact c).0 (ground (arith, placed, passed))) [
        | inl here ↦ inl (ground (arith, here))
        | inr below ↦ inr below
      ],
    ),
  )
]

team_of_total :
    (db : Db) (rank unit_id : ℕ) (unit : OrganizationUnit)
    → IsHierarchy db.units
    → lookup unit_id db.units ≡ some unit
    → (top : ℕ) × (ids : List ℕ) × StartsAt db rank unit_id unit top
      × (team_of db rank unit_id ≡ some ids)
      × ((a : ℕ)
          → contains a ids ≡ true
          → (q : Profile) × HasProfile db.users a q × IsTeammate db rank top q)
unfolding team_of organization_unit_descendant_ids StartsAt IsTeammate
team_of_total db rank unit_id unit rule found =
    let (top, at_top) = StartsAt-total db rank unit_id unit rule found in
    let (units, e, exact) = descend_iff (parents_of db.units) (top ∷ []) (top ∷ []) (λ a h. h) in
    (
      top,
      members (λ p. unit_in units p && is_lower db rank p) db.users,
      at_top,
      rw (found, at_top, e, team_of) refl,
      λ a h.
          let (q, has, passed) =
            members_passed (λ p. unit_in units p && is_lower db rank p) db.users a h in
          (q, has, teammate db rank top units q exact passed),
    )

visible_employee :
    (db : Db) (vendor : Option ℕ) (k : ℕ) (u : User) (p : Profile) (role : Role)
    → p.account_type ≡ employee
    → ltb role.rank 20 ≡ false
    → visible_with_role db vendor k u p role ≡ also k (employee_team db k u p role.rank)
unfolding visible_with_role
visible_employee db none k u p role kind high = ground (arith, kind, high)
visible_employee db (some owner) k u p role kind high = ground (arith, kind, high)

-- An employee with a role of rank 20 or more and a unit of any type, who is no super admin, sees the
-- own activity and otherwise only that of employees with a role of a lower rank who are placed in the
-- lead's unit or anywhere below it; for a rank above 20, in the branch above that unit, or the
-- uppermost unit where there is no branch, or anywhere below. Where units are a hierarchy the search
-- ends.
pub activity_visible_team :
    (db : Db) (vendor : Option ℕ) (k : ℕ) (u : User) (p : Profile) (role : Role) (unit_id : ℕ)
    (unit : OrganizationUnit)
    → u.is_authenticated ≡ true
    → is_super_admin_account db u ≡ false
    → u.employee_profile ≡ some p
    → p.account_type ≡ employee
    → role_of db (some p) ≡ some role
    → ltb role.rank 20 ≡ false
    → p.organization_unit_id ≡ some unit_id
    → lookup unit_id db.units ≡ some unit
    → IsHierarchy db.units
    → (top : ℕ) × (ids : List ℕ) × IsTop db role.rank unit_id top
      × (activity_visible_user_ids db vendor k u ≡ some (k ∷ ids))
      × ((a : ℕ)
          → contains a ids ≡ true
          → (q : Profile) × HasProfile db.users a q × IsTeammate db role.rank top q)
unfolding activity_visible_user_ids employee_team
activity_visible_team db vendor k u p role unit_id unit signed_in plain profile kind has_role high
      placed found rule =
    let (top, ids, at_top, team, only) = team_of_total db role.rank unit_id unit rule found in
    let of_role : activity_visible_user_ids db vendor k u ≡ visible_with_role db vendor k u p role =
      ground (arith, signed_in, plain, profile, has_role) in
    let of_unit : employee_team db k u p role.rank ≡ some ids = ground (arith, placed, team) in
    (
      top,
      ids,
      StartsAt-IsTop db role.rank unit_id unit top found at_top,
      of_role ∙ visible_employee db vendor k u p role kind high ∙ ap (also k) of_unit,
      only,
    )
