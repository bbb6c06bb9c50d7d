-- ===== src/Base/Table.antt =====
-- A database table: rows under their primary keys, in the order of the keys' creation.
use Prim.Native.Nat.{ℕ}
use mathlib.Core.Path.{◌≡◌}
use mathlib.Core.Option.{Option, none, some}
use mathlib.Core.List.{List, [], ◌∷◌, ◌++◌}
use native.Mathlib.Omega.{arith}
use quant_tool.Base.Tests.{◌==◌, if◌then◌else◌}

abbrev pub Table : Type 0 → Type 0
Table V = List (ℕ × V)

module _ {V : Type 0} where
  -- `.filter(pk=k).first()`
  abbrev pub lookup : ℕ → Table V → Option V
  lookup k [] = none
  lookup k ((j, v) ∷ t) = if j == k then some v else lookup k t

  -- `.filter(pk=k).update(...)`
  abbrev pub update : ℕ → (V → V) → Table V → Table V
  update k f [] = []
  update k f ((j, v) ∷ t) = (if j == k then (j, f v) else (j, v)) ∷ update k f t

  -- `.create(...)`, under the key that the database issued
  abbrev pub create : ℕ → V → Table V → Table V
  create k v t = t ++ (k, v) ∷ []

  abbrev pub mapped : (V → V) → Option V → Option V
  mapped f none = none
  mapped f (some v) = some (f v)

  pub lookup-update :
      (j k : ℕ) (f : V → V) (t : Table V)
      → lookup j (update k f t) ≡ (if k == j then mapped f (lookup j t) else lookup j t)
  lookup-update j k f [] = ground arith
  lookup-update j k f ((i, v) ∷ t) = ground (arith, lookup-update j k f t)

  pub lookup-create :
      (j k : ℕ) (v : V) (t : Table V)
      → lookup j (create k v t) ≡ (
          let old = lookup j t in
          elim old [ some w ↦ some w | none ↦ if k == j then some v else none ])
  lookup-create j k v [] = ground arith
  lookup-create j k v ((i, w) ∷ t) = ground (arith, lookup-create j k v t)

  -- `.update_or_create(...)`, or a Python dictionary's `t[k] = v`
  abbrev pub set_row : ℕ → V → Table V → Table V
  set_row k v [] = (k, v) ∷ []
  set_row k v ((j, w) ∷ t) = if j == k then (j, v) ∷ t else (j, w) ∷ set_row k v t

  pub lookup-set_row :
      (j k : ℕ) (v : V) (t : Table V)
      → lookup j (set_row k v t) ≡ (if k == j then some v else lookup j t)
  lookup-set_row j k v [] = ground arith
  lookup-set_row j k v ((i, w) ∷ t) = ground (arith, lookup-set_row j k v t)
