-- ===== src/Base/Keys.antt =====
-- Tables in which no key stands twice: what is found in them, and what holds of all rows.
use Prim.Native.Nat.{ℕ}
use mathlib.Core.Path.{◌≡◌, refl, subst}
use mathlib.Core.Logic.{inl, inr}
use mathlib.Core.Bool.{Bool, true, false}
use mathlib.Core.Option.{none, some}
use mathlib.Core.List.{[], ◌∷◌}
use native.Mathlib.Omega.{arith}
use quant_tool.Base.Tests.{◌==◌, ==_refl, ==→eq, Bool-cases}
use quant_tool.Base.Table.{Table, lookup, update, create, lookup-update, lookup-create}
use quant_tool.Base.Lists.{find, any}

module _ {V : Type 0} where
  abbrev pub HasDistinctKeys : Table V → Type 0
  HasDistinctKeys [] = Unit
  HasDistinctKeys ((k, v) ∷ t) = (lookup k t ≡ none) × HasDistinctKeys t

  pub update-HasDistinctKeys :
      (k : ℕ) (f : V → V) (t : Table V) → HasDistinctKeys t → HasDistinctKeys (update k f t)
  update-HasDistinctKeys k f [] d = tt
  update-HasDistinctKeys k f ((j, v) ∷ t) d =
      let rest : lookup j (update k f t) ≡ none = ground (arith, d.0, lookup-update j k f t) in
      elim (Bool-cases (j == k)) [
        | inl same ↦ rw same (rest, update-HasDistinctKeys k f t d.1)
        | inr other ↦ rw other (rest, update-HasDistinctKeys k f t d.1)
      ]

  pub create-HasDistinctKeys :
      (k : ℕ) (v : V) (t : Table V)
      → lookup k t ≡ none
      → HasDistinctKeys t
      → HasDistinctKeys (create k v t)
  create-HasDistinctKeys k v [] e d = (refl, tt)
  create-HasDistinctKeys k v ((j, w) ∷ t) e d = (
    ground (arith, d.0, e, lookup-create j k v t),
    create-HasDistinctKeys k v t (ground (arith, e)) d.1,
  )

  pub find-lookup :
      (p : ℕ × V → Bool) (k : ℕ) (v : V) (t : Table V)
      → HasDistinctKeys t
      → find p t ≡ some (k, v)
      → (lookup k t ≡ some v) × (p (k, v) ≡ true)
  find-lookup p k v [] d e = cc
  find-lookup p k v ((j, w) ∷ t) d e = elim (Bool-cases (p (j, w))) [
    | inl hit ↦ ground arith
    | inr other ↦ ground (arith, find-lookup p k v t d.1)
  ]

  -- No row passes the test, and then not the one under a key; and back.
  pub any-lookup :
      (p : ℕ × V → Bool) (k : ℕ) (v : V) (t : Table V)
      → any p t ≡ false
      → lookup k t ≡ some v
      → p (k, v) ≡ false
  any-lookup p k v [] e h = cc
  any-lookup p k v ((j, w) ∷ t) e h = elim (Bool-cases (j == k)) [
    | inr other ↦ any-lookup p k v t (ground (arith, e)) (ground (arith, h))
    | inl same ↦
        let f : w ≡ v = ground (arith, h) in
        let g : p (j, w) ≡ false = ground (arith, e) in
        subst (λ i. p (i, v) ≡ false) (==→eq j k same) (subst (λ u. p (j, u) ≡ false) f g)
  ]

  pub lookup-any :
      (p : ℕ × V → Bool) (t : Table V)
      → HasDistinctKeys t
      → ((k : ℕ) (v : V) → lookup k t ≡ some v → p (k, v) ≡ false)
      → any p t ≡ false
  lookup-any p [] d h = refl
  lookup-any p ((j, w) ∷ t) d h =
      let first : p (j, w) ≡ false = h j w (rw (==_refl j) refl) in
      let rest = lookup-any p t d.1 (λ k v e. h k v (ground (arith, d.0, e))) in
      rw (first, rest) refl
