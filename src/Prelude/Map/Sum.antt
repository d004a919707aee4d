-- ===== src/Prelude/Map/Sum.antt =====
-- The sum of a measure over the values of a map.
use Prim.Native.Nat.{ℕ, ◌+◌, ◌≤◌}
use yggdrasil_ng.Prelude.Eq.{HasEq}
use yggdrasil_ng.Prelude.Map.{Map, get, insert, remove, modify, Distinct}
use mathlib.Core.Path.{◌≡◌, refl}
use mathlib.Core.Option.{none, some}
use mathlib.Core.List.{[], ◌∷◌}
use native.Mathlib.Omega.{arith}

module _ {ℓ κ} {K : Type ℓ} {V : Type κ} ⦃e : HasEq K⦄ (g : V → ℕ) where
  unfoldable pub sum_by : Map K V → ℕ
  sum_by [] = 0
  sum_by ((k, v) ∷ m) = g v + sum_by m

  pub get-sum_by : (m : Map K V) (k : K) (v : V) → get m k ≡ some v → g v ≤ sum_by m
  unfolding get sum_by
  get-sum_by [] k v h = ground arith
  get-sum_by ((j, w) ∷ m) k v h = ground (arith, get-sum_by m k v)

  pub insert_new-sum_by :
      (m : Map K V) (k : K) (w : V) → get m k ≡ none → sum_by (insert m k w) ≡ g w + sum_by m
  unfolding get insert sum_by
  insert_new-sum_by [] k w h = refl
  insert_new-sum_by ((j, v) ∷ m) k w h = ground (arith, insert_new-sum_by m k w)

  pub insert_old-sum_by :
      (m : Map K V) (k : K) (v w : V)
      → get m k ≡ some v
      → sum_by (insert m k w) + g v ≡ g w + sum_by m
  unfolding get insert sum_by
  insert_old-sum_by [] k v w h = ground arith
  insert_old-sum_by ((j, u) ∷ m) k v w h = ground (arith, insert_old-sum_by m k v w)

  pub modify-sum_by :
      (m : Map K V) (k : K) (f : V → V)
      → ((v : V) → g (f v) ≡ g v)
      → sum_by (modify m k f) ≡ sum_by m
  unfolding modify sum_by
  modify-sum_by [] k f same = refl
  modify-sum_by ((j, u) ∷ m) k f same = ground (arith, modify-sum_by m k f same, same u)

  remove_fresh-sum_by : (m : Map K V) (k : K) → get m k ≡ none → sum_by (remove m k) ≡ sum_by m
  unfolding get remove sum_by
  remove_fresh-sum_by [] k h = refl
  remove_fresh-sum_by ((j, u) ∷ m) k h = ground (arith, remove_fresh-sum_by m k)

  -- An entry that weighs nothing can go.
  pub remove-sum_by :
      (m : Map K V) (k : K) (v : V)
      → Distinct m
      → get m k ≡ some v
      → g v ≡ 0
      → sum_by (remove m k) ≡ sum_by m
  unfolding get remove sum_by
  remove-sum_by [] k v d h zero_ = refl
  remove-sum_by ((j, u) ∷ m) k v (fresh, d) h zero_ =
      ground (arith, remove-sum_by m k v d, remove_fresh-sum_by m k, e.beq_iff j k)
