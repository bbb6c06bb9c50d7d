-- ===== src/Vendors/Policy/Ancestors.antt =====
-- The walk from a user's unit to the top of the organization (vendors/services.py
-- `organization_client_policies_for_user`): it ends, and one inactive unit closes every client.
use quant_tool.Base.{
  ℕ, zero, suc, ◌+◌, ◌<◌, ◌≡◌, ◌≢◌, refl, sym, subst, Bool, true, false, Option, none, some, List,
  [], ◌∷◌, inl, inr, ◌⊎◌, arith, Option-cases, Bool-cases, ==_refl, ==→eq, ◌||◌, ◌==◌,
  if◌then◌else◌,
}
use quant_tool.Base.Table.{Table, lookup}
use quant_tool.Base.Lists.{length, contains}
use quant_tool.Base.Walk.{unvisited, unvisited-le-length, unvisited-cons-lt}
use quant_tool.Vendors.Models.{OrganizationUnit, Rule}
use quant_tool.Vendors.Policy.{
  Ancestry, reached, blocked, out_of_fuel, above_unit, walk, organization_client_policies,
}

-- As many rounds as there are units, and one more, suffice, also where the parents form a cycle.
pub walk-ne-out_of_fuel :
    (fuel : ℕ) (units : Table OrganizationUnit) (current : Option ℕ) (visited : List ℕ)
    → unvisited visited units < fuel
    → walk fuel units current visited ≢ out_of_fuel
unfolding walk
walk-ne-out_of_fuel zero units current visited h = absurd (omega arith)
walk-ne-out_of_fuel (suc fuel) units none visited h = cc
walk-ne-out_of_fuel (suc fuel) units (some k) visited h = elim (Option-cases (lookup k units)) [
  | inl gone ↦ rw (gone, walk) (cc)
  | inr (unit, found) ↦
      rw (found, walk)
        (ground (
          arith,
          walk-ne-out_of_fuel fuel units unit.parent (k ∷ visited),
          unvisited-cons-lt k visited units found,
        ))
]

reached_above :
    (active : Bool) (k : ℕ) (w : Ancestry) (ks : List ℕ)
    → (if active then above_unit k w else blocked) ≡ reached ks
    → (active ≡ true) × ((rest : List ℕ) × (w ≡ reached rest) × (ks ≡ k ∷ rest))
reached_above true k (reached rest) ks e = (refl, (rest, refl, cc))
reached_above true k blocked ks e = cc
reached_above true k out_of_fuel ks e = cc
reached_above false k w ks e = cc

-- How a walk that reaches the top passes a unit that it has not visited.
walk_step :
    (fuel : ℕ) (units : Table OrganizationUnit) (k : ℕ) (visited ks : List ℕ)
    {unit : OrganizationUnit}
    → lookup k units ≡ some unit
    → contains k visited ≡ false
    → walk (suc fuel) units (some k) visited ≡ reached ks
    → (unit.is_active ≡ true)
      × ((rest : List ℕ) × (walk fuel units unit.parent (k ∷ visited) ≡ reached rest)
          × (ks ≡ k ∷ rest))
unfolding walk
walk_step fuel units k visited ks {unit} found new e =
    reached_above unit.is_active k (walk fuel units unit.parent (k ∷ visited)) ks
      (rw (found, new, walk) at e)

-- A unit at which the walk arrives is on its list, or was visited before.
walk_first :
    (fuel : ℕ) (units : Table OrganizationUnit) (k : ℕ) (visited ks : List ℕ)
    {unit : OrganizationUnit}
    → lookup k units ≡ some unit
    → walk fuel units (some k) visited ≡ reached ks
    → (contains k visited || contains k ks) ≡ true
walk_first zero units k visited ks found e = unfold walk in cc
walk_first (suc fuel) units k visited ks found e = elim (Bool-cases (contains k visited)) [
  | inl old ↦ rw old
  | inr new ↦
      let step = walk_step fuel units k visited ks found new e in rw (new, step.1.2, ==_refl k)
]

-- What a walk that reaches the top has found at its first unit, if anything.
record FirstUnit (fuel : ℕ) (units : Table OrganizationUnit) (k : ℕ) (visited ks : List ℕ)
    : Type 0 where
  unit : OrganizationUnit
  row : lookup k units ≡ some unit
  active : unit.is_active ≡ true
  rest : List ℕ
  onwards : walk fuel units unit.parent (k ∷ visited) ≡ reached rest
  list : ks ≡ k ∷ rest

walk-FirstUnit :
    (fuel : ℕ) (units : Table OrganizationUnit) (k : ℕ) (visited ks : List ℕ)
    → walk (suc fuel) units (some k) visited ≡ reached ks
    → (ks ≡ []) ⊎ FirstUnit fuel units k visited ks
walk-FirstUnit fuel units k visited ks e = elim (Option-cases (lookup k units)) [
  | inl gone ↦ inl (unfold walk in ground (arith, rw (gone, walk) at e))
  | inr (unit, found) ↦ elim (Bool-cases (contains k visited)) [
    | inl old ↦ inl (unfold walk in ground (arith, rw (found, old, walk) at e))
    | inr new ↦
        let step = walk_step fuel units k visited ks found new e in
        inr (record {
          unit = unit;
          row = found;
          active = step.0;
          rest = step.1.0;
          onwards = step.1.1;
          list = step.1.2;
        })
  ]
]

walk-none :
    (fuel : ℕ) (units : Table OrganizationUnit) (visited ks : List ℕ)
    → walk fuel units none visited ≡ reached ks
    → ks ≡ []
unfolding walk
walk-none zero units visited ks e = cc
walk-none (suc fuel) units visited ks e = cc

not_contains_nil : (j : ℕ) (ks : List ℕ) {P : Type 0} → ks ≡ [] → contains j ks ≡ true → P
not_contains_nil j [] e m = cc
not_contains_nil j (k ∷ ks) e m = cc

-- Every unit on the list is active.
walk_active :
    (fuel : ℕ) (units : Table OrganizationUnit) (current : Option ℕ) (visited ks : List ℕ) (j : ℕ)
    {unit : OrganizationUnit}
    → walk fuel units current visited ≡ reached ks
    → contains j ks ≡ true
    → lookup j units ≡ some unit
    → unit.is_active ≡ true
walk_active fuel units none visited ks j e m found =
    not_contains_nil j ks (walk-none fuel units visited ks e) m
walk_active zero units (some k) visited ks j e m found = unfold walk in cc
walk_active (suc fuel) units (some k) visited ks j {unit} e m found =
    elim (walk-FirstUnit fuel units k visited ks e) [
      | inl nothing ↦ not_contains_nil j ks nothing m
      | inr first ↦ ground (
        arith,
        first.row,
        first.active,
        first.list,
        walk_active fuel units first.unit.parent (k ∷ visited) first.rest j {unit = unit}
            first.onwards,
      )
    ]

-- The parent of a unit on the list is on the list, or was visited before.
walk_parent :
    (fuel : ℕ) (units : Table OrganizationUnit) (current : Option ℕ) (visited ks : List ℕ) (j p : ℕ)
    {unit above : OrganizationUnit}
    → walk fuel units current visited ≡ reached ks
    → contains j ks ≡ true
    → lookup j units ≡ some unit
    → unit.parent ≡ some p
    → lookup p units ≡ some above
    → (contains p visited || contains p ks) ≡ true
walk_parent fuel units none visited ks j p e m found up row =
    not_contains_nil j ks (walk-none fuel units visited ks e) m
walk_parent zero units (some k) visited ks j p e m found up row = unfold walk in cc
walk_parent (suc fuel) units (some k) visited ks j p {unit} {above} e m found up row =
    elim (walk-FirstUnit fuel units k visited ks e) [
      | inl nothing ↦ not_contains_nil j ks nothing m
      | inr first ↦ elim (Bool-cases (k == j)) [
        | inl same ↦
            let here : first.unit ≡ unit = ground (arith, found, first.row, ==→eq k j same) in
            let onwards : walk fuel units (some p) (k ∷ visited) ≡ reached first.rest =
              rw (here, up) at first.onwards in
            ground (arith, first.list, walk_first fuel units p (k ∷ visited) first.rest row onwards)
        | inr other ↦ ground (
          arith,
          first.list,
          walk_parent fuel units first.unit.parent (k ∷ visited) first.rest j p {unit = unit}
              {above = above} first.onwards,
        )
      ]
    ]

-- The unit `from`, or a unit above it.
pub data IsAbove (units : Table OrganizationUnit) (from : ℕ) : ℕ → Type 0 where
  self : IsAbove units from from
  parent :
      {k j : ℕ} (unit : OrganizationUnit)
      → IsAbove units from k
      → lookup k units ≡ some unit
      → unit.parent ≡ some j
      → IsAbove units from j

-- A walk from `from` that reaches the top lists every unit above.
walk_all :
    (fuel : ℕ) (units : Table OrganizationUnit) (from : ℕ) (ks : List ℕ) {j : ℕ}
    {unit : OrganizationUnit}
    → walk fuel units (some from) [] ≡ reached ks
    → IsAbove units from j
    → lookup j units ≡ some unit
    → contains j ks ≡ true
walk_all fuel units from ks e self row = walk_first fuel units from [] ks row e
walk_all fuel units from ks {j} e (parent {k = k} below above found up) row =
    walk_parent fuel units (some from) [] ks k j e (walk_all fuel units from ks e above found) found
      up row

unvisited-lt-fuel : (units : Table OrganizationUnit) → unvisited [] units < length units + 2
unvisited-lt-fuel units = omega (arith, unvisited-le-length [] units)

-- A user whose unit, or a unit above it, is inactive is left with no client; the walk up the
-- units ends, also where the parents form a cycle.
pub inactive_unit_blocks :
    (units : Table OrganizationUnit) (rules : List Rule) (from j : ℕ) {unit : OrganizationUnit}
    → IsAbove units from j
    → lookup j units ≡ some unit
    → unit.is_active ≡ false
    → organization_client_policies units rules (some from) ≡ some []
unfolding organization_client_policies
inactive_unit_blocks units rules from j {unit} above row inactive =
    go (walk (length units + 2) units (some from) []) refl
  where
    go :
        (w : Ancestry)
        → walk (length units + 2) units (some from) [] ≡ w
        → organization_client_policies units rules (some from) ≡ some []
    go (reached ks) e =
        let active =
          walk_active _ units (some from) [] ks j e (walk_all _ units from ks e above row) row in
        cc
    go blocked e = rw (e, organization_client_policies)
    go out_of_fuel e =
        absurd (walk-ne-out_of_fuel _ units (some from) [] (unvisited-lt-fuel units) e)

IsAbove-trans :
    (units : Table OrganizationUnit) {a b c : ℕ}
    → IsAbove units a b
    → IsAbove units b c
    → IsAbove units a c
IsAbove-trans units h self = h
IsAbove-trans units h (parent unit below row up) = parent unit (IsAbove-trans units h below) row up

-- An inactive unit above `from`.
pub record Inactive (units : Table OrganizationUnit) (from : ℕ) : Type 0 where
  pub at : ℕ
  pub unit : OrganizationUnit
  pub lies_above : IsAbove units from at
  pub row : lookup at units ≡ some unit
  pub inactive : unit.is_active ≡ false

blocked_above : (k : ℕ) (w : Ancestry) → above_unit k w ≡ blocked → w ≡ blocked
blocked_above k (reached ks) e = cc
blocked_above k blocked e = refl
blocked_above k out_of_fuel e = cc

walk-none-ne-blocked :
    (fuel : ℕ) (units : Table OrganizationUnit) (visited : List ℕ) {P : Type 0}
    → walk fuel units none visited ≡ blocked
    → P
unfolding walk
walk-none-ne-blocked zero units visited e = cc
walk-none-ne-blocked (suc fuel) units visited e = cc

-- A walk is stopped only by an inactive unit.
pub walk_blocked :
    (fuel : ℕ) (units : Table OrganizationUnit) (from : ℕ) (visited : List ℕ)
    → walk fuel units (some from) visited ≡ blocked
    → Inactive units from
unfolding walk
walk_blocked zero units from visited e = cc
walk_blocked (suc fuel) units from visited e = elim (Option-cases (lookup from units)) [
  | inl gone ↦ cc (rw (gone, walk) at e)
  | inr (unit, found) ↦ elim (Bool-cases (contains from visited)) [
    | inl old ↦ cc (rw (found, old, walk) at e)
    | inr new ↦ elim (Bool-cases unit.is_active) [
      | inr inactive ↦ record {
        at = from;
        unit = unit;
        lies_above = self;
        row = found;
        inactive = inactive;
      }
      | inl active ↦
          let w = walk fuel units unit.parent (from ∷ visited) in
          let stopped : w ≡ blocked = blocked_above from w (rw (found, new, active, walk) at e) in
          elim (Option-cases unit.parent) [
            | inl top ↦ walk-none-ne-blocked fuel units (from ∷ visited) (rw top at stopped)
            | inr (p, up) ↦
                let above = walk_blocked fuel units p (from ∷ visited) (rw up at stopped) in
                record {
                  at = above.at;
                  unit = above.unit;
                  lies_above = IsAbove-trans units (parent unit self found up) above.lies_above;
                  row = above.row;
                  inactive = above.inactive;
                }
          ]
    ]
  ]
]

-- `ks` follows the parents from `current` upwards, and may stop early.
pub data ParentChain (units : Table OrganizationUnit) : Option ℕ → List ℕ → Type 0 where
  stop : {current : Option ℕ} → ParentChain units current []
  next :
      {k : ℕ} {ks : List ℕ} (unit : OrganizationUnit)
      → lookup k units ≡ some unit
      → ParentChain units unit.parent ks
      → ParentChain units (some k) (k ∷ ks)

walk_chain :
    (fuel : ℕ) (units : Table OrganizationUnit) (current : Option ℕ) (visited ks : List ℕ)
    → walk fuel units current visited ≡ reached ks
    → ParentChain units current ks
walk_chain fuel units none visited ks e =
    subst (ParentChain units none) (sym (walk-none fuel units visited ks e)) stop
walk_chain zero units (some k) visited ks e = unfold walk in cc
walk_chain (suc fuel) units (some k) visited ks e =
    elim (walk-FirstUnit fuel units k visited ks e) [
      | inl nothing ↦ subst (ParentChain units (some k)) (sym nothing) stop
      | inr first ↦
          let above =
            walk_chain fuel units first.unit.parent (k ∷ visited) first.rest first.onwards in
          subst (ParentChain units (some k)) (sym first.list) (next first.unit first.row above)
    ]

-- The walk of a user whose units are all active: the list of them all, from the user's own upwards.
pub record Units (units : Table OrganizationUnit) (from : ℕ) (ancestry : List ℕ) : Type 0 where
  pub chain : ParentChain units (some from) ancestry
  pub complete :
      (j : ℕ) (unit : OrganizationUnit)
      → IsAbove units from j
      → lookup j units ≡ some unit
      → contains j ancestry ≡ true

abbrev pub AllActive : Table OrganizationUnit → ℕ → Type 0
AllActive units from =
    (j : ℕ) (unit : OrganizationUnit)
    → IsAbove units from j
    → lookup j units ≡ some unit
    → unit.is_active ≡ true

pub walk_active-Units :
    (units : Table OrganizationUnit) (from : ℕ)
    → AllActive units from
    → (ks : List ℕ) × (walk (length units + 2) units (some from) [] ≡ reached ks)
      × Units units from ks
walk_active-Units units from active = go (walk (length units + 2) units (some from) []) refl
  where
    go :
        (w : Ancestry)
        → walk (length units + 2) units (some from) [] ≡ w
        → (ks : List ℕ) × (walk (length units + 2) units (some from) [] ≡ reached ks)
          × Units units from ks
    go (reached ks) e = (
      ks,
      e,
      record {
        chain = walk_chain _ units (some from) [] ks e;
        complete = λ j unit above row. walk_all _ units from ks e above row;
      },
    )
    go blocked e =
        let b = walk_blocked _ units from [] e in
        let on = active b.at b.unit b.lies_above b.row in cc (on, b.inactive)
    go out_of_fuel e =
        absurd (walk-ne-out_of_fuel _ units (some from) [] (unvisited-lt-fuel units) e)
