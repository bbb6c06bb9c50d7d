-- ===== src/Base/Closure.antt =====
-- A loop that follows a parent column downwards: all rows below a start, one level at a time, until
-- a level brings no new row (accounts/access.py `subordinate_user_ids`, vendors/access.py
-- `organization_unit_descendant_ids`).
pub mod Reach
use Prim.Native.Nat.{ℕ, zero, suc, ◌+◌, ◌≤◌, ◌<◌}
use mathlib.Core.Path.{◌≡◌, refl, ap, subst}
use mathlib.Core.Logic.{◌⊎◌, ◌↔◌, inl, inr}
use mathlib.Core.Bool.{Bool, true, false, not, ◌&&◌, ◌||◌}
use mathlib.Core.Option.{Option, none, some}
use mathlib.Core.List.{List, [], ◌∷◌, ◌++◌}
use native.Mathlib.Omega.{arith}
use quant_tool.Base.Tests.{◌==◌, ==→eq, ==_refl, Bool-cases, if◌then◌else◌}
use quant_tool.Base.Lists.{length, any, contains}

-- The rows' keys with the parent that each row names.
abbrev pub Parents : Type 0
Parents = List (ℕ × Option ℕ)

abbrev pub parent_in : Option ℕ → List ℕ → Bool
parent_in none frontier = false
parent_in (some p) frontier = contains p frontier

-- `set(Model.objects.filter(parent_id__in=frontier).values_list("id")) - seen`
unfoldable pub children_of : Parents → List ℕ → List ℕ → List ℕ
children_of [] frontier seen = []
children_of ((k, parent) ∷ rows) frontier seen =
    let rest = children_of rows frontier seen in
    if parent_in parent frontier && not (contains k seen) then k ∷ rest else rest

-- `while frontier:` with fuel; `none` means that the fuel ran out.
unfoldable pub closure : ℕ → Parents → List ℕ → List ℕ → Option (List ℕ)
closure zero rows frontier seen = none
closure (suc fuel) rows [] seen = some seen
closure (suc fuel) rows (k ∷ frontier) seen =
    let children = children_of rows (k ∷ frontier) seen in
    closure fuel rows children (seen ++ children)

-- The rows that have not been reached.
abbrev pub unseen : Parents → List ℕ → ℕ
unseen [] seen = 0
unseen ((k, _) ∷ rows) seen =
    let rest = unseen rows seen in if contains k seen then rest else suc rest

pub contains-append :
    (a : ℕ) (xs ys : List ℕ) → contains a (xs ++ ys) ≡ (contains a xs || contains a ys)
contains-append a [] ys = refl
contains-append a (x ∷ xs) ys = ground (arith, contains-append a xs ys)

unseen_mono : (rows : Parents) (seen new : List ℕ) → unseen rows (seen ++ new) ≤ unseen rows seen
unseen_mono [] seen new = omega arith
unseen_mono ((k, p) ∷ rows) seen new =
    ground (arith, unseen_mono rows seen new, contains-append k seen new)

-- A level that brings a row leaves fewer.
unseen_lt :
    (rows : Parents) (seen : List ℕ) (new : List ℕ) (k : ℕ)
    → any (λ row. row.0 == k) rows ≡ true
    → contains k seen ≡ false
    → contains k new ≡ true
    → unseen rows (seen ++ new) < unseen rows seen
unseen_lt [] seen new k h fresh there = cc
unseen_lt ((j, p) ∷ rows) seen new k h fresh there = elim (Bool-cases (j == k)) [
  | inl same ↦
      let e = ==→eq j k same in
      let fresh_j : contains j seen ≡ false = rw e fresh in
      let there_j : contains j new ≡ true = rw e there in
      ground (arith, fresh_j, there_j, unseen_mono rows seen new, contains-append j seen new)
  | inr other ↦ ground (
    arith,
    other,
    unseen_lt rows seen new k,
    unseen_mono rows seen new,
    contains-append j seen new,
  )
]

contains_same : (a k : ℕ) (xs : List ℕ) → (k == a) ≡ true → contains k xs ≡ contains a xs
contains_same a k xs same = ap (λ i. contains i xs) (==→eq k a same)

-- The row `a` names a parent among `frontier`.
abbrev pub has_parent_in : Parents → List ℕ → ℕ → Bool
has_parent_in rows frontier a = any (λ row. (row.0 == a) && parent_in row.1 frontier) rows

children_of-contains :
    (rows : Parents) (frontier seen : List ℕ) (a : ℕ)
    → contains a (children_of rows frontier seen)
      ≡ (has_parent_in rows frontier a && not (contains a seen))
unfolding children_of
children_of-contains [] frontier seen a = refl
children_of-contains ((k, parent) ∷ rows) frontier seen a = elim (Bool-cases (k == a)) [
  | inl same ↦
      ground (arith, same, contains_same a k seen same, children_of-contains rows frontier seen a)
  | inr other ↦ ground (arith, other, children_of-contains rows frontier seen a)
]

-- The row `a` names the parent `p`.
abbrev pub has_edge : Parents → ℕ → ℕ → Bool
has_edge rows p a = has_parent_in rows (p ∷ []) a

edge_in :
    (rows : Parents) (frontier : List ℕ) (p a : ℕ)
    → contains p frontier ≡ true
    → has_edge rows p a ≡ true
    → has_parent_in rows frontier a ≡ true
edge_in [] frontier p a there edge = edge
edge_in ((k, none) ∷ rows) frontier p a there edge = ground (arith, edge_in rows frontier p a there)
edge_in ((k, some q) ∷ rows) frontier p a there edge = elim (Bool-cases (p == q)) [
  | inl same ↦
      let here : contains q frontier ≡ true = rw (← contains_same q p frontier same) there in
      ground (arith, here, edge_in rows frontier p a there)
  | inr other ↦ ground (arith, other, edge_in rows frontier p a there)
]

in_edge :
    (rows : Parents) (frontier : List ℕ) (a : ℕ)
    → has_parent_in rows frontier a ≡ true
    → (p : ℕ) × (contains p frontier ≡ true) × (has_edge rows p a ≡ true)
in_edge [] frontier a h = cc
in_edge ((k, none) ∷ rows) frontier a h =
    let (p, there, edge) = in_edge rows frontier a (ground arith) in (p, there, ground arith)
in_edge ((k, some q) ∷ rows) frontier a h = elim (Bool-cases ((k == a) && contains q frontier)) [
  | inl here ↦ (q, ground arith, ground (arith, ==_refl q))
  | inr not_here ↦
      let (p, there, edge) = in_edge rows frontier a (ground arith) in (p, there, ground arith)
]

-- The loop from `starts`, with two rounds more than there are rows.
unfoldable pub descend : Parents → List ℕ → List ℕ → Option (List ℕ)
descend rows starts seen = closure (length rows + 2) rows starts seen
