-- ===== src/Inventory/Merge.antt =====
-- What `merge_inventory` keeps of the payloads of a run.
use quant_tool.Base.{
  ℕ, ◌≤◌, ◌≡◌, refl, ap, sym, ◌∙◌, some_same, ==→eq, ==_refl, some, List, [], ◌∷◌, leb, arith, ◌==◌,
  inl, inr, Option-cases, Bool-cases,
}
use quant_tool.Base.Table.{Table, lookup, set_row, lookup-set_row}
use quant_tool.Base.Lists.{All}
use quant_tool.Inventory.{
  Payload, IsDistinct, payload_modified_at, merge_one, merge_all, merge_inventory,
}

set_row-IsDistinct :
    (k : ℕ) (p : Payload) (t : Table Payload) → IsDistinct t → IsDistinct (set_row k p t)
set_row-IsDistinct k p [] d = (refl, tt)
set_row-IsDistinct k p ((j, q) ∷ t) d = elim (Bool-cases (j == k)) [
  | inl same ↦ rw same d
  | inr other ↦ rw other (ground (arith, lookup-set_row j k p t), set_row-IsDistinct k p t d.1)
]

-- The table `t` has a payload for `k` that is at least as new as `p`.
abbrev pub HasNewer : Table Payload → ℕ → Payload → Type 0
HasNewer t k p =
    (q : Payload) × (lookup k t ≡ some q) × (payload_modified_at p ≤ payload_modified_at q)

abbrev pub IsCovered : Table Payload → Payload → Type 0
IsCovered t p = (k : ℕ) → p.survey_id ≡ some k → HasNewer t k p

merge_one-HasNewer :
    (p q : Payload) (k : ℕ) (t : Table Payload) → HasNewer t k q → HasNewer (merge_one p t) k q
unfolding merge_one
merge_one-HasNewer p q k t (best, row, newer) = elim (Option-cases p.survey_id) [
  | inl bare ↦ rw (bare, merge_one) (best, row, newer)
  | inr (j, own) ↦ elim (Option-cases (lookup j t)) [
    | inl new ↦ rw (own, new, merge_one) (best, ground (arith, lookup-set_row k j p t), newer)
    | inr (current, old) ↦
        elim (Bool-cases (leb (payload_modified_at current) (payload_modified_at p))) [
          | inr older ↦ rw (own, old, older, merge_one) (best, row, newer)
          | inl later ↦
              rw (own, old, later, merge_one)
                (elim (Bool-cases (j == k)) [
                  | inr other ↦ (best, rw (lookup-set_row, other) row, newer)
                  | inl same ↦
                      let e : best ≡ current =
                        some_same (sym row ∙ ap (λ i. lookup i t) (sym (==→eq j k same)) ∙ old) in
                      let f = ap payload_modified_at e in
                      (p, rw (lookup-set_row, same) refl, grind arith)
                ])
        ]
  ]
]

merge_one-IsCovered : (p : Payload) (t : Table Payload) → IsCovered (merge_one p t) p
unfolding merge_one
merge_one-IsCovered p t k own = elim (Option-cases (lookup k t)) [
  | inl new ↦ rw (own, new, merge_one) (p, rw (lookup-set_row, ==_refl k) refl, omega arith)
  | inr (current, old) ↦
      elim (Bool-cases (leb (payload_modified_at current) (payload_modified_at p))) [
        | inr older ↦ rw (own, old, older, merge_one) (current, old, ground arith)
        | inl later ↦
            rw (own, old, later, merge_one) (p, rw (lookup-set_row, ==_refl k) refl, omega arith)
      ]
]

merge_all-HasNewer :
    (q : Payload) (k : ℕ) (inventory : List Payload) (t : Table Payload)
    → HasNewer t k q
    → HasNewer (merge_all inventory t) k q
unfolding merge_all
merge_all-HasNewer q k [] t h = h
merge_all-HasNewer q k (p ∷ inventory) t h =
    merge_all-HasNewer q k inventory (merge_one p t) (merge_one-HasNewer p q k t h)

merge_all-IsCovered :
    (inventory : List Payload) (t : Table Payload)
    → All (IsCovered (merge_all inventory t)) inventory
unfolding merge_all
merge_all-IsCovered [] t = tt
merge_all-IsCovered (p ∷ inventory) t = (
  λ k own. merge_all-HasNewer p k inventory (merge_one p t) (merge_one-IsCovered p t k own),
  merge_all-IsCovered inventory (merge_one p t),
)

IsCovered-later :
    (ps paged : List Payload) (t : Table Payload)
    → All (IsCovered t) ps
    → All (IsCovered (merge_all paged t)) ps
IsCovered-later [] paged t all = tt
IsCovered-later (p ∷ ps) paged t all =
    (λ k own. merge_all-HasNewer p k paged t (all.0 k own), IsCovered-later ps paged t all.1)

-- A property of the payloads of the inventories, and each under its own key.
abbrev pub AllOwn : (Payload → Type 0) → Table Payload → Type 0
AllOwn P [] = Unit
AllOwn P ((k, p) ∷ t) = (p.survey_id ≡ some k) × P p × AllOwn P t

set_row-AllOwn :
    (P : Payload → Type 0) (k : ℕ) (p : Payload) (t : Table Payload)
    → p.survey_id ≡ some k
    → P p
    → AllOwn P t
    → AllOwn P (set_row k p t)
set_row-AllOwn P k p [] own h all = (own, h, tt)
set_row-AllOwn P k p ((j, q) ∷ t) own h all = elim (Bool-cases (j == k)) [
  | inl same ↦ rw same (own ∙ ap some (sym (==→eq j k same)), h, all.2)
  | inr other ↦ rw other (all.0, all.1, set_row-AllOwn P k p t own h all.2)
]

-- The merged table is well formed.
abbrev pub IsMerged : (Payload → Type 0) → Table Payload → Type 0
IsMerged P t = IsDistinct t × AllOwn P t

merge_one-IsMerged :
    (P : Payload → Type 0) (p : Payload) (t : Table Payload)
    → P p
    → IsMerged P t
    → IsMerged P (merge_one p t)
unfolding merge_one
merge_one-IsMerged P p t h m = elim (Option-cases p.survey_id) [
  | inl bare ↦ rw (bare, merge_one) m
  | inr (j, own) ↦
      let written : IsMerged P (set_row j p t) =
        (set_row-IsDistinct j p t m.0, set_row-AllOwn P j p t own h m.1) in
      elim (Option-cases (lookup j t)) [
        | inl new ↦ rw (own, new, merge_one) written
        | inr (current, old) ↦
            elim (Bool-cases (leb (payload_modified_at current) (payload_modified_at p))) [
              | inr older ↦ rw (own, old, older, merge_one) m
              | inl later ↦ rw (own, old, later, merge_one) written
            ]
      ]
]

merge_all-IsMerged :
    (P : Payload → Type 0) (inventory : List Payload) (t : Table Payload)
    → All P inventory
    → IsMerged P t
    → IsMerged P (merge_all inventory t)
unfolding merge_all
merge_all-IsMerged P [] t all m = m
merge_all-IsMerged P (p ∷ inventory) t all m =
    merge_all-IsMerged P inventory (merge_one p t) all.1 (merge_one-IsMerged P p t all.0 m)

-- The merged inventory has one payload for each key, each under its own key and taken from one of the
-- two inventories (what holds of all of their payloads holds of it), and for every payload with a key
-- one that is at least as new.
pub merge_inventory-IsMerged :
    (P : Payload → Type 0) (full paged : List Payload)
    → All P full
    → All P paged
    → let merged = merge_inventory full paged in
      IsMerged P merged × All (IsCovered merged) full × All (IsCovered merged) paged
unfolding merge_inventory
merge_inventory-IsMerged P full paged h g = (
  merge_all-IsMerged P paged _ g (merge_all-IsMerged P full [] h (tt, tt)),
  IsCovered-later full paged (merge_all full []) (merge_all-IsCovered full []),
  merge_all-IsCovered paged (merge_all full []),
)
