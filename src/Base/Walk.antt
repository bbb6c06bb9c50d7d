-- ===== src/Base/Walk.antt =====
-- A loop that follows foreign keys and stops at a key that it has visited: the rows not visited
-- yet bound the rounds that are left.
use quant_tool.Base.Tests.{if◌then◌else◌}
use quant_tool.Base.Table.{Table, lookup}
use quant_tool.Base.Lists.{length, contains}
use Prim.Native.Nat.{ℕ, suc, ◌≤◌, ◌<◌}
use mathlib.Core.Path.{◌≡◌}
use mathlib.Core.Bool.{false}
use mathlib.Core.Option.{some}
use mathlib.Core.List.{List, [], ◌∷◌}
use native.Mathlib.Omega.{arith}

module _ {V : Type 0} where
  abbrev pub unvisited : List ℕ → Table V → ℕ
  unvisited visited [] = 0
  unvisited visited ((k, _) ∷ t) =
      let rest = unvisited visited t in if contains k visited then rest else suc rest

  pub unvisited-le-length : (visited : List ℕ) (t : Table V) → unvisited visited t ≤ length t
  unvisited-le-length visited [] = omega arith
  unvisited-le-length visited ((k, v) ∷ t) = ground (arith, unvisited-le-length visited t)

  pub unvisited-cons-le :
      (k : ℕ) (visited : List ℕ) (t : Table V) → unvisited (k ∷ visited) t ≤ unvisited visited t
  unvisited-cons-le k visited [] = omega arith
  unvisited-cons-le k visited ((j, v) ∷ t) = ground (arith, unvisited-cons-le k visited t)

  -- Visiting a row for the first time leaves fewer.
  pub unvisited-cons-lt :
      (k : ℕ) (visited : List ℕ) (t : Table V) {v : V}
      → lookup k t ≡ some v
      → contains k visited ≡ false
      → unvisited (k ∷ visited) t < unvisited visited t
  unvisited-cons-lt k visited [] {v} found new = cc
  unvisited-cons-lt k visited ((j, w) ∷ t) {v} found new =
      ground (arith, unvisited-cons-lt k visited t {v = v}, unvisited-cons-le k visited t)
