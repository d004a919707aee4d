-- ===== src/Prelude/Map/Distinct.antt =====
-- The operations keep one entry for each key.
use yggdrasil_ng.Prelude.Eq.{HasEq, ◌=?◌}
use yggdrasil_ng.Prelude.Tests.{Bool-cases}
use yggdrasil_ng.Prelude.Map.{
  Map, get, insert, remove, modify, retain, Distinct, get-remove, get-insert, get-modify,
  get-retain-none, get-retain, keep_some,
}
use mathlib.Core.Path.{◌≡◌, refl}
use mathlib.Core.Logic.{inl, inr, ◌↔◌}
use mathlib.Core.Bool.{Bool, true}
use mathlib.Core.Option.{Option, none, some}
use mathlib.Core.List.{[], ◌∷◌}
use native.Mathlib.Omega.{arith}

module _ {ℓ κ} {K : Type ℓ} {V : Type κ} ⦃e : HasEq K⦄ where
  pub insert-Distinct : (m : Map K V) (k : K) (v : V) → Distinct m → Distinct (insert m k v)
  unfolding insert get
  insert-Distinct [] k v h = (refl, tt)
  insert-Distinct ((j, w) ∷ m) k v (fresh, h) = elim (Bool-cases (j =? k)) [
    | inl same ↦ rw same (ground (arith, e.beq_iff j k), h)
    | inr other ↦
        rw other (
          ground (arith, get-insert m k j v, e.beq_iff j k, e.beq_iff k j),
          insert-Distinct m k v h,
        )
  ]

  pub remove-Distinct : (m : Map K V) (k : K) → Distinct m → Distinct (remove m k)
  unfolding remove
  remove-Distinct [] k h = tt
  remove-Distinct ((j, w) ∷ m) k (fresh, h) = elim (Bool-cases (j =? k)) [
    | inl same ↦ rw same (remove-Distinct m k h)
    | inr other ↦ rw other (ground (arith, get-remove m k j, fresh), remove-Distinct m k h)
  ]

  pub modify-Distinct : (m : Map K V) (k : K) (f : V → V) → Distinct m → Distinct (modify m k f)
  unfolding modify
  modify-Distinct [] k f h = tt
  modify-Distinct ((j, w) ∷ m) k f (fresh, h) = elim (Bool-cases (j =? k)) [
    | inl same ↦ rw same (fresh, h)
    | inr other ↦
        rw other (
          ground (arith, get-modify m k j f, e.beq_iff j k, e.beq_iff k j),
          modify-Distinct m k f h,
        )
  ]

  pub retain-Distinct : (keep : K → V → Bool) (m : Map K V) → Distinct m → Distinct (retain keep m)
  unfolding retain
  retain-Distinct keep [] h = tt
  retain-Distinct keep ((j, w) ∷ m) (fresh, h) = elim (Bool-cases (keep j w)) [
    | inl kept ↦ rw kept (get-retain-none keep m j fresh, retain-Distinct keep m h)
    | inr out ↦ rw out (retain-Distinct keep m h)
  ]

  keep_some_iff :
      (keep : K → V → Bool) (k : K) (o : Option V) (v : V)
      → (keep_some keep k o ≡ some v) ↔ ((o ≡ some v) × (keep k v ≡ true))
  unfolding keep_some
  keep_some_iff keep k none v = ground arith
  keep_some_iff keep k (some w) v = (λ h. ground arith, λ (h, l). ground arith)

  -- What is left after `retain` is what was there and passes the test.
  pub get-retain_iff :
      (keep : K → V → Bool) (m : Map K V) (k : K) (v : V)
      → Distinct m
      → (get (retain keep m) k ≡ some v) ↔ ((get m k ≡ some v) × (keep k v ≡ true))
  get-retain_iff keep m k v h = rw (get-retain keep m k h) (keep_some_iff keep k (get m k) v)
