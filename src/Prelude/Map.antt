-- ===== src/Prelude/Map.antt =====
-- Rust's `HashMap` as an association list. The iteration order of a hash map is not specified: it
-- is that of the list, and no theorem depends on it. A key has at most one entry where `Distinct`.
pub mod Fresh
pub mod Distinct
pub mod Sum
use yggdrasil_ng.Prelude.Eq.{HasEq, ◌=?◌}
use yggdrasil_ng.Prelude.Tests.{if◌then◌else◌, Bool-cases, Option-cases}
use mathlib.Core.Path.{◌≡◌, refl, ap, ◌∙◌, sym}
use mathlib.Core.Logic.{inl, inr}
use mathlib.Core.Bool.{Bool, true, false}
use mathlib.Core.Option.{Option, none, some}
use mathlib.Core.List.{List, [], ◌∷◌}
use mathlib.Core.Option
use native.Mathlib.Omega.{arith}

abbrev pub Map {ℓ κ} : Type ℓ → Type κ → Type (ℓ ⊔ κ)
Map K V = List (K × V)

module _ {ℓ κ} {K : Type ℓ} {V : Type κ} ⦃e : HasEq K⦄ where
  -- `map.get(k)`
  unfoldable pub get : Map K V → K → Option V
  get [] k = none
  get ((j, v) ∷ m) k = if j =? k then some v else get m k

  -- `map.insert(k, v)`
  unfoldable pub insert : Map K V → K → V → Map K V
  insert [] k v = (k, v) ∷ []
  insert ((j, w) ∷ m) k v = if j =? k then (k, v) ∷ m else (j, w) ∷ insert m k v

  -- `map.remove(k)`
  unfoldable pub remove : Map K V → K → Map K V
  remove [] k = []
  remove ((j, w) ∷ m) k = let rest = remove m k in if j =? k then rest else (j, w) ∷ rest

  -- `if let Some(v) = map.get_mut(k) { *v = f(v) }`
  unfoldable pub modify : Map K V → K → (V → V) → Map K V
  modify [] k f = []
  modify ((j, w) ∷ m) k f = if j =? k then (j, f w) ∷ m else (j, w) ∷ modify m k f

  -- `map.retain(|k, v| keep(k, v))`
  unfoldable pub retain : (K → V → Bool) → Map K V → Map K V
  retain keep [] = []
  retain keep ((j, w) ∷ m) = let rest = retain keep m in if keep j w then (j, w) ∷ rest else rest

  -- `for v in map.values_mut() { *v = f(v) }`
  unfoldable pub map_values : (V → V) → Map K V → Map K V
  map_values f [] = []
  map_values f ((j, w) ∷ m) = (j, f w) ∷ map_values f m

  -- `map.contains_key(k)`
  unfoldable pub contains_key : Map K V → K → Bool
  contains_key m k = elim (get m k) [ none ↦ false | some v ↦ true ]

  -- Every key has one entry.
  abbrev pub Distinct : Map K V → Type (ℓ ⊔ κ)
  Distinct [] = Unit
  Distinct ((k, v) ∷ m) = (get m k ≡ none) × Distinct m

module _ {ℓ κ} {K : Type ℓ} {V : Type κ} ⦃e : HasEq K⦄ where
  pub get-insert :
      (m : Map K V) (k j : K) (v : V) → get (insert m k v) j ≡ (if k =? j then some v else get m j)
  unfolding get insert
  get-insert [] k j v = refl
  get-insert ((i, w) ∷ m) k j v =
      ground (arith, e.beq_iff i k, e.beq_iff i j, e.beq_iff k j, get-insert m k j v)

  pub get-remove : (m : Map K V) (k j : K) → get (remove m k) j ≡ (if k =? j then none else get m j)
  unfolding get remove
  get-remove [] k j = ground arith
  get-remove ((i, w) ∷ m) k j =
      ground (arith, e.beq_iff i k, e.beq_iff i j, e.beq_iff k j, get-remove m k j)

  pub get-modify :
      (m : Map K V) (k j : K) (f : V → V)
      → get (modify m k f) j ≡ (if k =? j then Option.map f (get m j) else get m j)
  unfolding get modify
  get-modify [] k j f = ground arith
  get-modify ((i, w) ∷ m) k j f =
      ground (arith, e.beq_iff i k, e.beq_iff i j, e.beq_iff k j, get-modify m k j f)

  unfoldable pub keep_some : (K → V → Bool) → K → Option V → Option V
  keep_some keep k none = none
  keep_some keep k (some v) = if keep k v then some v else none

  pub get-retain-none :
      (keep : K → V → Bool) (m : Map K V) (k : K) → get m k ≡ none → get (retain keep m) k ≡ none
  unfolding get retain
  get-retain-none keep [] k h = refl
  get-retain-none keep ((i, w) ∷ m) k h = ground (arith, get-retain-none keep m k)

  -- `retain` keeps what the test keeps.
  pub get-retain :
      (keep : K → V → Bool) (m : Map K V) (k : K)
      → Distinct m
      → get (retain keep m) k ≡ keep_some keep k (get m k)
  unfolding get retain keep_some
  get-retain keep [] k h = refl
  get-retain keep ((i, w) ∷ m) k (fresh, h) =
      ground (arith, e.beq_iff i k, get-retain keep m k h, get-retain-none keep m k)

  pub get-map_values :
      (f : V → V) (m : Map K V) (k : K) → get (map_values f m) k ≡ Option.map f (get m k)
  unfolding get map_values
  get-map_values f [] k = refl
  get-map_values f ((i, w) ∷ m) k = ground (arith, get-map_values f m k)

  pub contains_key-insert :
      (m : Map K V) (k j : K) (v : V)
      → contains_key (insert m k v) j ≡ (if k =? j then true else contains_key m j)
  unfolding contains_key
  contains_key-insert m k j v = ground (arith, get-insert m k j v)
