-- ===== src/Prelude/Map/Fresh.antt =====
-- How many entries of a map have a key that a set of visited keys does not hold: the measure of a
-- walk through the map that never visits a key twice.
use yggdrasil_ng.Prelude.Eq.{HasEq}
use yggdrasil_ng.Prelude.Tests.{if◌then◌else◌}
use yggdrasil_ng.Prelude.Lists.{length}
use yggdrasil_ng.Prelude.Map.{Map, get, insert, contains_key, contains_key-insert}
use Prim.Native.Nat.{ℕ, ◌+◌, ◌≤◌, ◌<◌}
use mathlib.Core.Path.{◌≡◌}
use mathlib.Core.Bool.{false}
use mathlib.Core.Option.{some}
use mathlib.Core.List.{[], ◌∷◌}
use native.Mathlib.Omega.{arith}

module _ {ℓ κ μ} {K : Type ℓ} {V : Type κ} {W : Type μ} ⦃e : HasEq K⦄ where
  pub fresh : Map K V → Map K W → ℕ
  fresh [] visited = 0
  fresh ((k, v) ∷ m) visited = (if contains_key visited k then 0 else 1) + fresh m visited

  pub fresh-le : (m : Map K V) (visited : Map K W) → fresh m visited ≤ length m
  unfolding fresh
  fresh-le [] visited = omega arith
  fresh-le ((k, v) ∷ m) visited = ground (arith, fresh-le m visited)

  fresh-insert-le :
      (m : Map K V) (visited : Map K W) (n : K) (w : W)
      → fresh m (insert visited n w) ≤ fresh m visited
  unfolding fresh
  fresh-insert-le [] visited n w = omega arith
  fresh-insert-le ((k, v) ∷ m) visited n w =
      ground (arith, contains_key-insert visited n k w, fresh-insert-le m visited n w)

  -- Visiting a new key of the map leaves fewer.
  pub fresh-insert-lt :
      (m : Map K V) (visited : Map K W) (n : K) (w : W) (v : V)
      → get m n ≡ some v
      → contains_key visited n ≡ false
      → fresh m (insert visited n w) < fresh m visited
  unfolding fresh get
  fresh-insert-lt [] visited n w v h f = cc
  fresh-insert-lt ((k, u) ∷ m) visited n w v h f = ground (
    arith,
    e.beq_iff k n,
    e.beq_iff n k,
    contains_key-insert visited n k w,
    fresh-insert-le m visited n w,
    fresh-insert-lt m visited n w v,
  )
