-- ===== src/Prelude/Bytes.antt =====
-- Byte strings: equality and the lexicographic order of Rust's arrays and slices.
use yggdrasil_ng.Prelude.Eq.{HasEq}
use yggdrasil_ng.Prelude.Tests.{◌==◌, ltb}
use Prim.Native.Nat.{ℕ, ◌<◌}
use mathlib.Core.Path.{◌≡◌, refl}
use mathlib.Core.Logic.{◌↔◌}
use mathlib.Core.Bool.{Bool, true, false, ◌&&◌, ◌||◌}
use mathlib.Core.List.{List, [], ◌∷◌}
use native.Mathlib.Omega.{arith}

abbrev pub Bytes : Type 0
Bytes = List ℕ

abbrev pub IsByte : ℕ → Type 0
IsByte b = b < 256

unfoldable pub bytes_beq : Bytes → Bytes → Bool
bytes_beq [] [] = true
bytes_beq [] (y ∷ ys) = false
bytes_beq (x ∷ xs) [] = false
bytes_beq (x ∷ xs) (y ∷ ys) = x == y && bytes_beq xs ys

bytes_beq_sound : (xs ys : Bytes) → bytes_beq xs ys ≡ true → xs ≡ ys
unfolding bytes_beq
bytes_beq_sound [] [] h = refl
bytes_beq_sound [] (y ∷ ys) h = cc
bytes_beq_sound (x ∷ xs) [] h = cc
bytes_beq_sound (x ∷ xs) (y ∷ ys) h = ground (arith, bytes_beq_sound xs ys)

bytes_beq_refl : (xs : Bytes) → bytes_beq xs xs ≡ true
unfolding bytes_beq
bytes_beq_refl [] = refl
bytes_beq_refl (x ∷ xs) = ground (arith, bytes_beq_refl xs)

pub bytes_beq_iff : (xs ys : Bytes) → (bytes_beq xs ys ≡ true) ↔ (xs ≡ ys)
bytes_beq_iff xs ys = (bytes_beq_sound xs ys, λ e. rw e (bytes_beq_refl ys))

instance abbrev pub bytes_eq : HasEq Bytes
bytes_eq = record { beq = bytes_beq; beq_iff = bytes_beq_iff }

-- `a < b` on byte arrays.
unfoldable pub bytes_ltb : Bytes → Bytes → Bool
bytes_ltb [] [] = false
bytes_ltb [] (y ∷ ys) = true
bytes_ltb (x ∷ xs) [] = false
bytes_ltb (x ∷ xs) (y ∷ ys) = ltb x y || (x == y && bytes_ltb xs ys)

pub bytes_ltb_irrefl : (xs : Bytes) → bytes_ltb xs xs ≡ false
unfolding bytes_ltb
bytes_ltb_irrefl [] = refl
bytes_ltb_irrefl (x ∷ xs) = ground (arith, bytes_ltb_irrefl xs)

pub bytes_ltb_trans :
    (xs ys zs : Bytes) → bytes_ltb xs ys ≡ true → bytes_ltb ys zs ≡ true → bytes_ltb xs zs ≡ true
unfolding bytes_ltb
bytes_ltb_trans [] [] zs h k = cc
bytes_ltb_trans [] (y ∷ ys) [] h k = cc
bytes_ltb_trans [] (y ∷ ys) (z ∷ zs) h k = refl
bytes_ltb_trans (x ∷ xs) [] zs h k = cc
bytes_ltb_trans (x ∷ xs) (y ∷ ys) [] h k = cc
bytes_ltb_trans (x ∷ xs) (y ∷ ys) (z ∷ zs) h k = ground (arith, bytes_ltb_trans xs ys zs)

-- Two byte strings that are not ordered either way are equal.
pub bytes_ltb_connected :
    (xs ys : Bytes) → bytes_ltb xs ys ≡ false → bytes_ltb ys xs ≡ false → xs ≡ ys
unfolding bytes_ltb
bytes_ltb_connected [] [] h k = refl
bytes_ltb_connected [] (y ∷ ys) h k = cc
bytes_ltb_connected (x ∷ xs) [] h k = cc
bytes_ltb_connected (x ∷ xs) (y ∷ ys) h k = ground (arith, bytes_ltb_connected xs ys)
