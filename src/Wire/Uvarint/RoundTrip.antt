-- ===== src/Wire/Uvarint/RoundTrip.antt =====
-- `decode_uvarint` reads back what `encode_uvarint` wrote.
use yggdrasil_ng.Prelude.{
  ℕ, zero, suc, ◌+◌, ◌*◌, ◌/◌, ◌%◌, ◌^◌, ◌≤◌, ◌<◌, ◌≡◌, ap, ◌∙◌, [], ◌∷◌, ◌++◌, none, some, arith,
  length, length-append, inl, inr, append-nil, Option-cases,
}
use yggdrasil_ng.Prelude.Bits.{bit_and-0x80}
use yggdrasil_ng.Prelude.Bytes.{Bytes}
use yggdrasil_ng.Wire.Uvarint.{IsU64, encode_loop, encode_uvarint, decode_loop, decode_uvarint}
use yggdrasil_ng.Wire.Uvarint.Encode.{lt_or_ge, encode_loop-small, encode_loop-large}
use yggdrasil_ng.Wire.Uvarint.Decode.{
  pow-seven, add_group, decode_uvarint-bounds, decode_uvarint-append,
}
use native.Mathlib.Nat.{div-add-mod, pow-suc, pow-le-pow_right, mul-le-mul_left}

-- The low group of `w` and the groups above it, both shifted by `s`.
split_groups : (w s : ℕ) → w * 2 ^ s ≡ w % 128 * 2 ^ s + w / 128 * 2 ^ (s + 7)
split_groups w s = omega (
  arith,
  ap (λ (t : ℕ). t * 2 ^ s) (div-add-mod w 128),
  ap (λ (t : ℕ). w / 128 * t) (pow-seven s),
)

decode_last :
    (w value shift i : ℕ) (rest : Bytes)
    → w < 128
    → value < 2 ^ shift
    → w * 2 ^ shift < 2 ^ 64
    → (63 ≤ shift → w ≤ 1)
    → decode_loop (w ∷ rest) value shift i ≡ some (value + w * 2 ^ shift, i + 1)
unfolding decode_loop
decode_last w value shift i rest h low fits top =
    let e : w % 128 ≡ w = omega arith in
    let sum = rw e at (add_group value w shift low (rw e fits)) in
    ground (arith, sum, bit_and-0x80 w (omega arith))

decode_inner :
    (g value shift i : ℕ) (rest : Bytes)
    → g < 128
    → value < 2 ^ shift
    → g * 2 ^ shift < 2 ^ 64
    → shift < 63
    → i < 9
    → decode_loop ((g + 128) ∷ rest) value shift i
      ≡ decode_loop rest (value + g * 2 ^ shift) (shift + 7) (i + 1)
unfolding decode_loop
decode_inner g value shift i rest h low fits top k =
    let e : (g + 128) % 128 ≡ g = omega arith in
    let sum = rw e at (add_group value (g + 128) shift low (rw e fits)) in
    ground (arith, sum, bit_and-0x80 (g + 128) (omega arith))

top_digit : (w s : ℕ) → 63 ≤ s → w * 2 ^ s < 2 ^ 64 → w ≤ 1
top_digit w s h fits = omega (arith, times)
  where
    times : w * 2 ^ 63 ≤ w * 2 ^ s
    times = mul-le-mul_left w (pow-le-pow_right (omega arith) h)

group_room : (g s : ℕ) → g < 128 → g * 2 ^ s + 2 ^ s ≤ 128 * 2 ^ s
group_room g s h = grind arith

-- `w` is what is still to be read, and it counts from bit `shift` on.
decode_loop-encode_loop :
    (fuel w value shift i : ℕ) (rest : Bytes)
    → fuel + i ≡ 10
    → shift ≡ 7 * i
    → w < 128 ^ fuel
    → value < 2 ^ shift
    → IsU64 (value + w * 2 ^ shift)
    → 1 ≤ fuel
    → decode_loop (encode_loop fuel [] w ++ rest) value shift i
      ≡ some (value + w * 2 ^ shift, i + length (encode_loop fuel [] w))
decode_loop-encode_loop zero w value shift i rest hf hs hw low fits pos = absurd (omega arith)
decode_loop-encode_loop (suc fuel) w value shift i rest hf hs hw low fits pos = elim (lt_or_ge w) [
  | inl small ↦ rw (encode_loop-small fuel w small) (
      decode_last w value shift i rest small low (omega arith)
        (λ h. top_digit w shift h (omega arith)))
  | inr large ↦ rw (encode_loop-large fuel w large) (
      decode_inner (w % 128) value shift i (encode_loop fuel [] (w / 128) ++ rest) (omega arith) low
        (omega (arith, split_groups w shift)) (omega (arith, few fuel hw large))
        (omega (arith, few fuel hw large))
      ∙ decode_loop-encode_loop fuel (w / 128) (value + w % 128 * 2 ^ shift) (shift + 7) (i + 1)
          rest (omega arith) (omega arith) (omega (arith, pow-suc 128 fuel))
          (omega (arith, pow-seven shift, group_room (w % 128) shift (omega arith)))
          (omega (arith, split_groups w shift)) (omega (arith, few fuel hw large))
      ∙ ground (arith, split_groups w shift))
]
  where
    few : (f : ℕ) → w < 128 ^ suc f → 128 ≤ w → 1 ≤ f
    few zero h l = absurd (omega arith)
    few (suc f) h l = omega arith

-- Every u64 is read back from its encoding with its length, whatever follows.
pub decode_uvarint-encode_uvarint :
    (v : ℕ) (rest : Bytes)
    → IsU64 v
    → decode_uvarint (encode_uvarint [] v ++ rest) ≡ some (v, length (encode_uvarint [] v))
unfolding decode_uvarint encode_uvarint
decode_uvarint-encode_uvarint v rest h =
    decode_loop-encode_loop 10 v 0 0 0 rest (omega arith) (omega arith) (omega arith) (omega arith)
      (omega arith) (omega arith)
    ∙ ground arith

-- No proper prefix of an encoding of a u64 decodes.
pub decode_uvarint_truncated :
    (v byte : ℕ) (front back : Bytes)
    → IsU64 v
    → encode_uvarint [] v ≡ front ++ (byte ∷ back)
    → decode_uvarint front ≡ none
decode_uvarint_truncated v byte front back h e = elim (Option-cases (decode_uvarint front)) [
  | inl failed ↦ failed
  | inr ((u, n), done) ↦ absurd (too_long u n done)
]
  where
    whole : decode_uvarint (front ++ (byte ∷ back)) ≡ some (v, length (front ++ (byte ∷ back)))
    whole = rw (append-nil, e) at (decode_uvarint-encode_uvarint v [] h)

    too_long : (u n : ℕ) → decode_uvarint front ≡ some (u, n) → ⊥
    too_long u n done = ground (
      arith,
      whole,
      decode_uvarint-append front (byte ∷ back) done,
      decode_uvarint-bounds front u n done,
      length-append front (byte ∷ back),
    )
