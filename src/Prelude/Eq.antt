-- ===== src/Prelude/Eq.antt =====
-- Equality tests as an interface: `==` of Rust on keys, ports and identifiers.
use Prim.Native.Nat.{ℕ}
use mathlib.Core.Path.{◌≡◌, refl}
use mathlib.Core.Logic.{◌↔◌}
use mathlib.Core.Bool.{Bool, true}
use yggdrasil_ng.Prelude.Tests.{◌==◌, ==_iff}

pub record HasEq {ℓ} (A : Type ℓ) : Type ℓ where
  pub beq : A → A → Bool
  pub beq_iff : (a b : A) → (beq a b ≡ true) ↔ (a ≡ b)

infix 50 ◌=?◌
abbrev pub ◌=?◌ {ℓ} : {A : Type ℓ} ⦃e : HasEq A⦄ → A → A → Bool
◌=?◌ ⦃e⦄ = e.beq

instance abbrev pub nat_eq : HasEq ℕ
nat_eq = record { beq = ◌==◌; beq_iff = ==_iff }

pub beq_refl {ℓ} : {A : Type ℓ} ⦃e : HasEq A⦄ (a : A) → (a =? a) ≡ true
beq_refl ⦃e⦄ a = (e.beq_iff a a).1 refl
