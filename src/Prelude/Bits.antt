-- ===== src/Prelude/Bits.antt =====
-- Masks and shifts on machine words as arithmetic. The tactics take `bit_and` and `bit_or` for
-- unknowns; the lemmas below say what the program's masks compute.
use Prim.Native.Nat.{
  ℕ, zero, suc, ◌+◌, ◌*◌, ◌/◌, ◌%◌, ◌^◌, ◌≤◌, ◌<◌, min, max, bit_and, bit_or, digits,
  bit_and-bitwise, bit_or-bitwise,
}
use mathlib.Core.Path.{◌≡◌, refl, ap, ◌∙◌}
use mathlib.Core.Bool.{Bool, true, ◌&&◌}
use native.Mathlib.Omega.{arith}
use native.Mathlib.Nat.{pow-suc}
use yggdrasil_ng.Prelude.Tests.{◌==◌, ==_iff}

-- Extra fuel does not change a digit recursion.
module _ (tail : ℕ → ℕ) (op : ℕ → ℕ → ℕ) where
  digits-stable :
      (i j f g : ℕ) → i ≤ f → i ≤ g → (k : ℕ) → i ≤ k → digits tail op f i j ≡ digits tail op g i j
  digits-stable zero j zero zero u v k l = refl
  digits-stable zero j zero (suc g) u v k l = refl
  digits-stable zero j (suc f) zero u v k l = refl
  digits-stable zero j (suc f) (suc g) u v k l = refl
  digits-stable (suc i) j zero g u v k l = absurd (omega arith)
  digits-stable (suc i) j (suc f) zero u v k l = absurd (omega arith)
  digits-stable (suc i) j (suc f) (suc g) u v zero l = absurd (omega arith)
  digits-stable (suc i) j (suc f) (suc g) u v (suc k) l =
      let e = digits-stable (suc i / 2) (j / 2) f g (omega arith) (omega arith) k (omega arith) in
      ap (λ (t : ℕ). t * 2 + op (suc i % 2) (j % 2)) e

-- One binary digit at c time.
pub bit_or-halves : (c d : ℕ) → bit_or c d ≡ bit_or (c / 2) (d / 2) * 2 + max (c % 2) (d % 2)
bit_or-halves zero d = simp bit_or-bitwise (omega arith)
bit_or-halves (suc c) d = simp bit_or-bitwise (
    ap (λ r. r * 2 + max (suc c % 2) (d % 2))
      (digits-stable (λ v. v) max (suc c / 2) (d / 2) c (suc c / 2) (omega arith) (omega arith)
        (suc c) (omega arith)))

pub bit_and-halves : (c d : ℕ) → bit_and c d ≡ bit_and (c / 2) (d / 2) * 2 + min (c % 2) (d % 2)
bit_and-halves zero d = simp bit_and-bitwise (omega arith)
bit_and-halves (suc c) d = simp bit_and-bitwise (
    ap (λ r. r * 2 + min (suc c % 2) (d % 2))
      (digits-stable (λ v. 0) min (suc c / 2) (d / 2) c (suc c / 2) (omega arith) (omega arith)
        (suc c) (omega arith)))

double_shift : (g s : ℕ) → g * 2 ^ suc s ≡ g * 2 ^ s * 2
double_shift g s = omega (arith, ap (λ (t : ℕ). g * t) (pow-suc 2 s))

-- `low | (g << s)` is a sum where `low` fits below the shift.
pub bit_or-shifted : (s low g : ℕ) → low < 2 ^ s → bit_or low (g * 2 ^ s) ≡ low + g * 2 ^ s
bit_or-shifted zero low g h =
    let e : low ≡ 0 = omega arith in rw e (bit_or-bitwise 0 (g * 1) ∙ omega arith)
bit_or-shifted (suc s) low g h = omega (
  arith,
  bit_or-halves low (g * 2 ^ suc s),
  double_shift g s,
  pow-suc 2 s,
  ap (λ (t : ℕ). bit_or (low / 2) t) halved,
  bit_or-shifted s (low / 2) g (omega (arith, pow-suc 2 s)),
)
  where
    halved : g * 2 ^ suc s / 2 ≡ g * 2 ^ s
    halved = omega (arith, double_shift g s)

-- By recursion on a bound of the number.
bit_and-zero_fuel : (fuel x : ℕ) → x ≤ fuel → bit_and x 0 ≡ 0
bit_and-zero_fuel zero zero k = refl
bit_and-zero_fuel zero (suc x) k = absurd (omega arith)
bit_and-zero_fuel (suc fuel) zero k = refl
bit_and-zero_fuel (suc fuel) (suc x) k =
    let half = bit_and-zero_fuel fuel (suc x / 2) (omega arith) in
    omega (arith, bit_and-halves (suc x) 0)

bit_and-zero : (x : ℕ) → bit_and x 0 ≡ 0
bit_and-zero x = bit_and-zero_fuel x x (omega arith)

-- The low bits of a word of any width, one more with each lemma.
pub low_bits_1 : (a : ℕ) → bit_and a 1 ≡ a % 2
low_bits_1 a = omega (arith, bit_and-halves a 1, bit_and-zero (a / 2))

low_bits_2 : (a : ℕ) → bit_and a 3 ≡ a % 4
low_bits_2 a = omega (arith, bit_and-halves a 3, low_bits_1 (a / 2))

low_bits_3 : (a : ℕ) → bit_and a 7 ≡ a % 8
low_bits_3 a = omega (arith, bit_and-halves a 7, low_bits_2 (a / 2))

low_bits_4 : (a : ℕ) → bit_and a 15 ≡ a % 16
low_bits_4 a = omega (arith, bit_and-halves a 15, low_bits_3 (a / 2))

low_bits_5 : (a : ℕ) → bit_and a 31 ≡ a % 32
low_bits_5 a = omega (arith, bit_and-halves a 31, low_bits_4 (a / 2))

low_bits_6 : (a : ℕ) → bit_and a 63 ≡ a % 64
low_bits_6 a = omega (arith, bit_and-halves a 63, low_bits_5 (a / 2))

-- `a & 0x7f`
pub bit_and-0x7f : (a : ℕ) → bit_and a 0x7f ≡ a % 128
bit_and-0x7f a = omega (arith, bit_and-halves a 127, low_bits_6 (a / 2))

-- A statement about every byte, checked value by value.
unfoldable pub every_byte : ℕ → (ℕ → Bool) → Bool
every_byte zero test = true
every_byte (suc n) test = test n && every_byte n test

pub every_byte_sound :
    (n : ℕ) (test : ℕ → Bool) (x : ℕ) → every_byte n test ≡ true → x < n → test x ≡ true
unfolding every_byte
every_byte_sound zero test x h lt = absurd (omega arith)
every_byte_sound (suc n) test x h lt = ground (arith, every_byte_sound n test x)

pub bit_and-0x80 : (b : ℕ) → b < 256 → bit_and b 0x80 ≡ b / 128 * 128
unfolding every_byte
bit_and-0x80 b h =
    (==_iff _ _).0 (every_byte_sound 256 (λ x. bit_and x 0x80 == x / 128 * 128) b refl h)

pub bit_or-0x80 : (b : ℕ) → b < 128 → bit_or b 0x80 ≡ b + 128
unfolding every_byte
bit_or-0x80 b h = (==_iff _ _).0 (every_byte_sound 128 (λ x. bit_or x 0x80 == x + 128) b refl h)
