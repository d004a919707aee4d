-- ===== src/Wire/Uvarint/Decode.antt =====
-- `decode_uvarint` on any input, well formed or not.
use yggdrasil_ng.Prelude.{
  ℕ, ◌+◌, ◌*◌, ◌%◌, ◌^◌, ◌≤◌, ◌<◌, ◌≡◌, ap, ◌∙◌, [], ◌∷◌, ◌++◌, bit_and, bit_or, some, arith,
  length,
}
use yggdrasil_ng.Prelude.Bits.{bit_and-0x7f, bit_or-shifted}
use yggdrasil_ng.Prelude.Bytes.{Bytes}
use yggdrasil_ng.Wire.Uvarint.{IsU64, decode_loop, decode_uvarint}
use native.Mathlib.Decide.{dec_lt}
use native.Mathlib.Nat.{pow-le-pow_right, mod-eq_of_lt}
use native.Mathlib.Numerals.{towards_suc}

pub pow-seven : (s : ℕ) → 2 ^ (s + 7) ≡ 128 * 2 ^ s
pow-seven s = simp towards_suc (omega arith)

pow-le-63 : (s : ℕ) → s ≤ 63 → 2 ^ s ≤ 2 ^ 63
pow-le-63 s h = pow-le-pow_right (omega arith) h

group_fits : (g s : ℕ) → g < 128 → s ≤ 56 → g * 2 ^ s + 2 ^ s ≤ 2 ^ 63
group_fits g s h k = omega (arith, pow-seven s, pow-le-63 (s + 7) (omega arith), times)
  where
    times : g * 2 ^ s + 2 ^ s ≤ 128 * 2 ^ s
    times = grind arith

-- The new group lands above the bits that are there.
pub add_group :
    (value byte shift : ℕ)
    → value < 2 ^ shift
    → byte % 128 * 2 ^ shift < 2 ^ 64
    → bit_or value (bit_and byte 0x7f * 2 ^ shift % 2 ^ 64) ≡ value + byte % 128 * 2 ^ shift
add_group value byte shift h fits =
    rw bit_and-0x7f
      (ap (bit_or value) (mod-eq_of_lt fits) ∙ bit_or-shifted shift value (byte % 128) h)

group_below : (byte s : ℕ) → byte % 128 * 2 ^ s + 2 ^ s ≤ 128 * 2 ^ s
group_below byte s = grind arith

group_cases :
    (byte shift i : ℕ)
    → shift ≡ 7 * i
    → i ≤ 9
    → (shift ≡ 63 → byte ≤ 1)
    → byte % 128 * 2 ^ shift + 2 ^ shift ≤ 2 ^ 64
group_cases byte shift i s k top = elim (dec_lt i 9) [
  | yes h ↦ omega (arith, group_fits (byte % 128) shift (omega arith) (omega arith))
  | no h ↦ let e : shift ≡ 63 = omega arith in rw e (omega (arith, top e))
]

-- The tenth byte is refused above 1.
top_guard :
    (byte : ℕ) (rest : Bytes) (value shift i : ℕ) {r : ℕ × ℕ}
    → decode_loop (byte ∷ rest) value shift i ≡ some r
    → shift ≡ 63
    → byte ≤ 1
unfolding decode_loop
top_guard byte rest value shift i e s = ground arith

decode_loop-bounds :
    (input : Bytes) (value shift i v n : ℕ)
    → shift ≡ 7 * i
    → i ≤ 9
    → value < 2 ^ shift
    → decode_loop input value shift i ≡ some (v, n)
    → IsU64 v × (i < n) × (n ≤ 10) × (n ≤ i + length input)
unfolding decode_loop
decode_loop-bounds [] value shift i v n s k h e = cc
decode_loop-bounds (byte ∷ rest) value shift i v n s k h e =
    let fits = group_cases byte shift i s k (top_guard byte rest value shift i e) in
    let sum = add_group value byte shift h (omega arith) in
    let next = decode_loop-bounds rest (value + byte % 128 * 2 ^ shift) (shift + 7) (i + 1) v n in
    ground (arith, sum, fits, group_below byte shift, pow-seven shift, next)

-- A successful decode is a u64 read from one to ten bytes of the input.
pub decode_uvarint-bounds :
    (input : Bytes) (v n : ℕ)
    → decode_uvarint input ≡ some (v, n)
    → IsU64 v × (1 ≤ n) × (n ≤ 10) × (n ≤ length input)
unfolding decode_uvarint
decode_uvarint-bounds input v n e =
    omega (arith, decode_loop-bounds input 0 0 0 v n (omega arith) (omega arith) (omega arith) e)

-- Bytes behind the number are not looked at.
decode_loop-append :
    (input more : Bytes) (value shift i : ℕ) {r : ℕ × ℕ}
    → decode_loop input value shift i ≡ some r
    → decode_loop (input ++ more) value shift i ≡ some r
unfolding decode_loop
decode_loop-append [] more value shift i e = cc
decode_loop-append (byte ∷ rest) more value shift i {r} e = ground (
  arith,
  decode_loop-append rest more (bit_or value (bit_and byte 0x7f * 2 ^ shift % 2 ^ 64)) (shift + 7)
      (i + 1) {r = r},
)

pub decode_uvarint-append :
    (input more : Bytes) {r : ℕ × ℕ}
    → decode_uvarint input ≡ some r
    → decode_uvarint (input ++ more) ≡ some r
unfolding decode_uvarint
decode_uvarint-append input more e = decode_loop-append input more 0 0 0 e
