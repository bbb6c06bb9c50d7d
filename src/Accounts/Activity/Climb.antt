-- ===== src/Accounts/Activity/Climb.antt =====
-- The climb from a unit to its branch (accounts/access.py `activity_visible_user_ids`), which ends where
-- the units are a hierarchy (vendors/models.py `OrganizationUnit.clean`).
use quant_tool.Base.{
  ℕ, zero, suc, ◌<◌, ◌≡◌, refl, ap, sym, subst, ◌∙◌, inl, inr, true, false, none, some, arith,
  Bool-cases, Option-cases,
}
use quant_tool.Base.Table.{Table, lookup}
use quant_tool.Accounts.{UnitType, branch, sub_branch, shift, OrganizationUnit}
use quant_tool.Accounts.Activity.{is_branch, climb, levels}

-- The rank of a unit's type, and the rule that `OrganizationUnit.clean` keeps: a parent is of a type
-- above.
abbrev pub level : UnitType → ℕ
level branch = 0
level sub_branch = 1
level shift = 2

unfoldable pub IsHierarchy : Table OrganizationUnit → Type 0
IsHierarchy units =
    (k p : ℕ) (unit up : OrganizationUnit)
    → lookup k units ≡ some unit
    → unit.parent ≡ some p
    → lookup p units ≡ some up
    → level up.unit_type < level unit.unit_type

pub climb_total :
    (fuel : ℕ) (units : Table OrganizationUnit) (k : ℕ) (unit : OrganizationUnit)
    → IsHierarchy units
    → lookup k units ≡ some unit
    → level unit.unit_type < fuel
    → (top : ℕ) × (climb fuel units k unit ≡ some top)
unfolding climb IsHierarchy
climb_total zero units k unit rule found h = absurd (omega arith)
climb_total (suc fuel) units k unit rule found h = elim (Option-cases unit.parent) [
  | inl root ↦ (k, ground (arith, root))
  | inr (p, parent) ↦ elim (Bool-cases (is_branch unit.unit_type)) [
    | inl is_top ↦ (k, ground (arith, parent, is_top))
    | inr inner ↦ elim (Option-cases (lookup p units)) [
      | inl gone ↦ (k, ground (arith, parent, inner, gone))
      | inr (up, there) ↦
          let (top, e) =
            climb_total fuel units p up rule there
              (omega (arith, rule k p unit up found parent there)) in
          (top, ground (arith, parent, inner, there, e))
    ]
  ]
]

pub level_bound : (t : UnitType) → level t < levels
level_bound branch = omega arith
level_bound sub_branch = omega arith
level_bound shift = omega arith

-- Up from the unit `k` one reaches `top`: the first unit that is a branch or has no parent there.
pub data Climbs (units : Table OrganizationUnit) : ℕ → ℕ → Type 0 where
  at_branch :
      {k : ℕ} (unit : OrganizationUnit)
      → lookup k units ≡ some unit
      → unit.unit_type ≡ branch
      → Climbs units k k
  at_root :
      {k : ℕ} (unit : OrganizationUnit)
      → lookup k units ≡ some unit
      → unit.parent ≡ none
      → Climbs units k k
  at_orphan :
      {k : ℕ} (unit : OrganizationUnit) (p : ℕ)
      → lookup k units ≡ some unit
      → unit.parent ≡ some p
      → lookup p units ≡ none
      → Climbs units k k
  up :
      {k top : ℕ} (unit : OrganizationUnit) (p : ℕ)
      → lookup k units ≡ some unit
      → unit.parent ≡ some p
      → ¬ (unit.unit_type ≡ branch)
      → Climbs units p top
      → Climbs units k top

is_branch→eq : (t : UnitType) → is_branch t ≡ true → t ≡ branch
is_branch→eq branch e = refl
is_branch→eq sub_branch e = cc
is_branch→eq shift e = cc

not_branch : (t : UnitType) → is_branch t ≡ false → ¬ (t ≡ branch)
not_branch t e same = cc (sym e ∙ ap is_branch same)

pub climb-Climbs :
    (fuel : ℕ) (units : Table OrganizationUnit) (k : ℕ) (unit : OrganizationUnit) (top : ℕ)
    → lookup k units ≡ some unit
    → climb fuel units k unit ≡ some top
    → Climbs units k top
unfolding climb
climb-Climbs zero units k unit top found e = cc
climb-Climbs (suc fuel) units k unit top found e =
    let here : Climbs units k k → k ≡ top → Climbs units k top =
      λ c s. subst (Climbs units k) s c in
    elim (Option-cases unit.parent) [
      | inl root ↦ here (at_root unit found root) (ground (arith, root, e))
      | inr (p, parent) ↦ elim (Bool-cases (is_branch unit.unit_type)) [
        | inl is_top ↦
            here (at_branch unit found (is_branch→eq unit.unit_type is_top))
              (ground (arith, parent, is_top, e))
        | inr inner ↦ elim (Option-cases (lookup p units)) [
          | inl gone ↦
              here (at_orphan unit p found parent gone) (ground (arith, parent, inner, gone, e))
          | inr (next, there) ↦
              up unit p found parent (not_branch unit.unit_type inner)
                (climb-Climbs fuel units p next top there (ground (arith, parent, inner, there, e)))
        ]
      ]
    ]
