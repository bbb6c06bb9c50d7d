-- ===== src/Base/Closure/Reach.antt =====
-- The loop of Base/Closure ends, and finds exactly what is below the start.
use Prim.Native.Nat.{ℕ, zero, suc, ◌+◌, ◌≤◌, ◌<◌}
use mathlib.Core.Path.{◌≡◌, refl, subst}
use mathlib.Core.Logic.{◌⊎◌, ◌↔◌, inl, inr}
use mathlib.Core.Bool.{true, false, ◌||◌}
use mathlib.Core.Option.{some}
use mathlib.Core.List.{List, [], ◌∷◌, ◌++◌}
use native.Mathlib.Omega.{arith}
use quant_tool.Base.Tests.{◌==◌, ==_refl, Bool-cases}
use quant_tool.Base.Lists.{length, any, contains}
use quant_tool.Base.Closure.{
  Parents, children_of, closure, descend, unseen, contains-append, unseen_lt, has_parent_in,
  children_of-contains, has_edge, edge_in, in_edge,
}

-- The rows below a start: a row that names one as its parent, and so on.
pub data Below (rows : Parents) (starts : List ℕ) : ℕ → Type 0 where
  child : (p a : ℕ) → contains p starts ≡ true → has_edge rows p a ≡ true → Below rows starts a
  deeper : (p a : ℕ) → Below rows starts p → has_edge rows p a ≡ true → Below rows starts a

child-Below :
    (rows : Parents) (frontier seen : List ℕ) (a : ℕ)
    → contains a (children_of rows frontier seen) ≡ true
    → Below rows frontier a
child-Below rows frontier seen a h =
    let (p, there, edge) =
      in_edge rows frontier a (ground (arith, children_of-contains rows frontier seen a)) in
    child p a there edge

-- What is below the next level is below this one.
Below-children :
    (rows : Parents) (frontier seen : List ℕ) {a : ℕ}
    → Below rows (children_of rows frontier seen) a
    → Below rows frontier a
Below-children rows frontier seen (child p a there edge) =
    deeper p a (child-Below rows frontier seen p there) edge
Below-children rows frontier seen (deeper p a b edge) =
    deeper p a (Below-children rows frontier seen b) edge

seen_or_new :
    (a : ℕ) (xs ys : List ℕ)
    → contains a (xs ++ ys) ≡ true
    → (contains a xs ≡ true) ⊎ (contains a ys ≡ true)
seen_or_new a xs ys h = elim (Bool-cases (contains a xs)) [
  | inl old ↦ inl old
  | inr new ↦ inr (ground (arith, contains-append a xs ys))
]

same_list : {xs ys : List ℕ} → some xs ≡ some ys → xs ≡ ys
same_list h = cc

closure_sound :
    (fuel : ℕ) (rows : Parents) (frontier seen : List ℕ) (a : ℕ) {r : List ℕ}
    → closure fuel rows frontier seen ≡ some r
    → contains a r ≡ true
    → (contains a seen ≡ true) ⊎ Below rows frontier a
unfolding closure
closure_sound zero rows frontier seen a h there = absurd (cc)
closure_sound (suc fuel) rows [] seen a h there = inl (rw (same_list h) there)
closure_sound (suc fuel) rows (k ∷ frontier) seen a h there =
    let children = children_of rows (k ∷ frontier) seen in
    elim (closure_sound fuel rows children (seen ++ children) a h there) [
      | inl old ↦ elim (seen_or_new a seen children old) [
        | inl before ↦ inl before
        | inr new ↦ inr (child-Below rows (k ∷ frontier) seen a new)
      ]
      | inr below ↦ inr (Below-children rows (k ∷ frontier) seen below)
    ]

-- All rows below what was seen before this level are seen.
IsExpanded : Parents → List ℕ → List ℕ → List ℕ → Type 0
IsExpanded rows starts frontier seen =
    (p a : ℕ)
    → has_edge rows p a ≡ true
    → (contains p seen || contains p starts) ≡ true
    → contains p frontier ≡ false
    → contains a seen ≡ true

expand :
    (rows : Parents) (starts frontier seen : List ℕ)
    → IsExpanded rows starts frontier seen
    → IsExpanded rows starts
        (children_of rows frontier seen)
        (seen ++ children_of rows frontier seen)
unfolding IsExpanded
expand rows starts frontier seen old p a edge from new =
    let children = children_of rows frontier seen in
    elim (Bool-cases (contains p frontier)) [
      | inl here ↦ ground (
        arith,
        contains-append a seen children,
        children_of-contains rows frontier seen a,
        edge_in rows frontier p a here edge,
      )
      | inr past ↦ ground (
        arith,
        contains-append a seen children,
        contains-append p seen children,
        old p a edge,
        past,
        new,
      )
    ]

closure_complete :
    (fuel : ℕ) (rows : Parents) (starts frontier seen : List ℕ) {r : List ℕ}
    → closure fuel rows frontier seen ≡ some r
    → IsExpanded rows starts frontier seen
    → IsExpanded rows starts [] r
unfolding closure
closure_complete zero rows starts frontier seen h old = absurd (cc)
closure_complete (suc fuel) rows starts [] seen h old =
    subst (IsExpanded rows starts []) (same_list h) old
closure_complete (suc fuel) rows starts (k ∷ frontier) seen h old =
    closure_complete fuel rows starts (children_of rows (k ∷ frontier) seen)
      (seen ++ children_of rows (k ∷ frontier) seen) h (expand rows starts (k ∷ frontier) seen old)

Below-in :
    (rows : Parents) (starts r : List ℕ) {a : ℕ}
    → IsExpanded rows starts [] r
    → Below rows starts a
    → contains a r ≡ true
unfolding IsExpanded
Below-in rows starts r all (child p a there edge) = all p a edge (ground (arith, there)) refl
Below-in rows starts r all (deeper p a b edge) =
    all p a edge (ground (arith, Below-in rows starts r all b)) refl

has_row :
    (rows : Parents) (frontier : List ℕ) (a : ℕ)
    → has_parent_in rows frontier a ≡ true
    → any (λ row. row.0 == a) rows ≡ true
has_row [] frontier a h = h
has_row ((k, parent) ∷ rows) frontier a h = ground (arith, has_row rows frontier a)

level_lt :
    (rows : Parents) (frontier seen : List ℕ) (c : ℕ) (cs : List ℕ)
    → children_of rows frontier seen ≡ c ∷ cs
    → unseen rows (seen ++ c ∷ cs) < unseen rows seen
level_lt rows frontier seen c cs e =
    let here : contains c (children_of rows frontier seen) ≡ true =
      rw e (ground (arith, ==_refl c)) in
    let facts = children_of-contains rows frontier seen c in
    unseen_lt rows seen (c ∷ cs) c (has_row rows frontier c (ground (arith, here, facts)))
      (ground (arith, here, facts)) (ground (arith, ==_refl c))

list_cases : (xs : List ℕ) → (xs ≡ []) ⊎ ((x : ℕ) × (ys : List ℕ) × (xs ≡ x ∷ ys))
list_cases [] = inl refl
list_cases (x ∷ xs) = inr (x, xs, refl)

closure_empty :
    (fuel : ℕ) (rows : Parents) (seen : List ℕ) → 0 < fuel → closure fuel rows [] seen ≡ some seen
unfolding closure
closure_empty zero rows seen h = absurd (omega arith)
closure_empty (suc fuel) rows seen h = refl

closure_total :
    (fuel : ℕ) (rows : Parents) (frontier seen : List ℕ)
    → unseen rows seen + 1 < fuel
    → (r : List ℕ) × (closure fuel rows frontier seen ≡ some r)
unfolding closure
closure_total zero rows frontier seen h = absurd (omega arith)
closure_total (suc fuel) rows [] seen h = (seen, refl)
closure_total (suc fuel) rows (k ∷ frontier) seen h =
    elim (list_cases (children_of rows (k ∷ frontier) seen)) [
      | inl none_new ↦
          (seen ++ [], rw none_new (closure_empty fuel rows (seen ++ []) (omega arith)))
      | inr (c, cs, new) ↦
          let (r, e) =
            closure_total fuel rows (c ∷ cs) (seen ++ c ∷ cs)
              (omega (arith, level_lt rows (k ∷ frontier) seen c cs new)) in
          (r, rw new e)
    ]

unseen-le-length : (rows : Parents) (seen : List ℕ) → unseen rows seen ≤ length rows
unseen-le-length [] seen = omega arith
unseen-le-length ((k, p) ∷ rows) seen = ground (arith, unseen-le-length rows seen)

closure_keeps :
    (fuel : ℕ) (rows : Parents) (frontier seen : List ℕ) (a : ℕ) {r : List ℕ}
    → closure fuel rows frontier seen ≡ some r
    → contains a seen ≡ true
    → contains a r ≡ true
unfolding closure
closure_keeps zero rows frontier seen a h there = absurd (cc)
closure_keeps (suc fuel) rows [] seen a h there = rw (← same_list h) there
closure_keeps (suc fuel) rows (k ∷ frontier) seen a h there =
    let children = children_of rows (k ∷ frontier) seen in
    closure_keeps fuel rows children (seen ++ children) a h
      (ground (arith, contains-append a seen children, there))

-- The loop ends, and has then found exactly what was seen before and what is below the starts. What
-- was seen before has to be among the starts.
pub descend_iff :
    (rows : Parents) (starts seen : List ℕ)
    → ((a : ℕ) → contains a seen ≡ true → contains a starts ≡ true)
    → (r : List ℕ) × (descend rows starts seen ≡ some r)
      × ((a : ℕ) → (contains a r ≡ true) ↔ ((contains a seen ≡ true) ⊎ Below rows starts a))
unfolding descend IsExpanded
descend_iff rows starts seen within =
    let (r, e) =
      closure_total (length rows + 2) rows starts seen
        (omega (arith, unseen-le-length rows seen)) in
    let all =
      closure_complete (length rows + 2) rows starts starts seen e
        (λ p a edge from new. ground (arith, within p)) in
    (
      r,
      e,
      λ a. (
        closure_sound (length rows + 2) rows starts seen a e,
        λ reached. elim reached [
          | inl old ↦ closure_keeps (length rows + 2) rows starts seen a e old
          | inr below ↦ Below-in rows starts r all below
        ],
      ),
    )
