-- ===== src/Wire/Uvarint/Encode.antt =====
-- What `encode_uvarint` writes: groups of seven bits, lowest first, the last below 128.
use yggdrasil_ng.Prelude.{
  ℕ, zero, suc, ◌+◌, ◌/◌, ◌%◌, ◌^◌, ◌≤◌, ◌<◌, ◌≡◌, sym, ap, ◌∙◌, [], ◌∷◌, ◌++◌, append_assoc, arith,
  length, All, ◌⊎◌, inl, inr, append-nil,
}
use native.Mathlib.Decide.{dec_lt}
use native.Mathlib.Nat.{pow-suc}
use yggdrasil_ng.Prelude.Bits.{bit_and-0x7f, bit_or-0x80}
use yggdrasil_ng.Prelude.Bytes.{Bytes, IsByte}
use yggdrasil_ng.Wire.Uvarint.{IsU64, encode_loop, encode_uvarint, size_loop, uvarint_size}

encode_loop-last :
    (fuel : ℕ) (out : Bytes) (v : ℕ) → v < 128 → encode_loop (suc fuel) out v ≡ out ++ (v ∷ [])
unfolding encode_loop
encode_loop-last fuel out v h = ground (arith, bit_and-0x7f v)

encode_loop-inner :
    (fuel : ℕ) (out : Bytes) (v : ℕ)
    → 128 ≤ v
    → encode_loop (suc fuel) out v ≡ encode_loop fuel (out ++ ((v % 128 + 128) ∷ [])) (v / 128)
unfolding encode_loop
encode_loop-inner fuel out v h = ground (arith, bit_and-0x7f v, bit_or-0x80 (v % 128))

-- `value < 128 ^ fuel` is left for the rounds to come.
pub lt_or_ge : (v : ℕ) → (v < 128) ⊎ (128 ≤ v)
lt_or_ge v = elim (dec_lt v 128) [ yes h ↦ inl h | no h ↦ inr (omega arith) ]

pub encode_loop-append :
    (fuel : ℕ) (out : Bytes) (v : ℕ) → encode_loop fuel out v ≡ out ++ encode_loop fuel [] v
encode_loop-append zero out v = unfold encode_loop in sym (append-nil out)
encode_loop-append (suc fuel) out v = elim (lt_or_ge v) [
  | inl h ↦ rw (encode_loop-last fuel out v h, encode_loop-last fuel [] v h)
  | inr h ↦
      rw (encode_loop-inner fuel out v h, encode_loop-inner fuel [] v h)
        (encode_loop-append fuel (out ++ (group ∷ [])) (v / 128)
          ∙ append_assoc out (group ∷ []) (encode_loop fuel [] (v / 128))
          ∙ ap (λ t. out ++ t) (sym (encode_loop-append fuel (group ∷ []) (v / 128))))
]
  where
    group : ℕ
    group = v % 128 + 128

pub encode_loop-small : (fuel v : ℕ) → v < 128 → encode_loop (suc fuel) [] v ≡ v ∷ []
encode_loop-small fuel v h = encode_loop-last fuel [] v h

pub encode_loop-large :
    (fuel v : ℕ)
    → 128 ≤ v
    → encode_loop (suc fuel) [] v ≡ (v % 128 + 128) ∷ encode_loop fuel [] (v / 128)
encode_loop-large fuel v h =
    encode_loop-inner fuel [] v h ∙ encode_loop-append fuel ((v % 128 + 128) ∷ []) (v / 128)

-- The buffer keeps what it held, and the encoding follows it.
pub encode_uvarint-append :
    (out : Bytes) (v : ℕ) → encode_uvarint out v ≡ out ++ encode_uvarint [] v
unfolding encode_uvarint
encode_uvarint-append out v = encode_loop-append 10 out v

encode_loop-IsByte : (fuel v : ℕ) → All IsByte (encode_loop fuel [] v)
encode_loop-IsByte zero v = unfold encode_loop in tt
encode_loop-IsByte (suc fuel) v = elim (lt_or_ge v) [
  | inl h ↦ rw (encode_loop-small fuel v h) (omega arith, tt)
  | inr h ↦ rw (encode_loop-large fuel v h) (omega arith, encode_loop-IsByte fuel (v / 128))
]

-- Every element that the encoder writes is a byte.
pub encode_uvarint-IsByte : (v : ℕ) → All IsByte (encode_uvarint [] v)
unfolding encode_uvarint
encode_uvarint-IsByte v = encode_loop-IsByte 10 v

size_loop-eq :
    (fuel v size : ℕ)
    → v < 128 ^ suc fuel
    → size_loop fuel v (size + 1) ≡ size + length (encode_loop (suc fuel) [] v)
unfolding size_loop
size_loop-eq zero v size h = rw (encode_loop-small zero v (omega arith)) (omega arith)
size_loop-eq (suc fuel) v size h = elim (lt_or_ge v) [
  | inl low ↦ rw (encode_loop-small (suc fuel) v low) (ground arith)
  | inr high ↦
      rw (encode_loop-large (suc fuel) v high)
        (ground (arith, size_loop-eq fuel (v / 128) (size + 1), pow-suc 128 (suc fuel)))
]

-- `uvarint_size` is the number of bytes that `encode_uvarint` writes.
pub uvarint_size-encode : (v : ℕ) → IsU64 v → uvarint_size v ≡ length (encode_uvarint [] v)
unfolding uvarint_size encode_uvarint
uvarint_size-encode v h = omega (arith, size_loop-eq 9 v 0 (omega arith))

encode_loop-length : (fuel v : ℕ) → length (encode_loop fuel [] v) ≤ fuel
encode_loop-length zero v = unfold encode_loop in omega arith
encode_loop-length (suc fuel) v = elim (lt_or_ge v) [
  | inl h ↦ rw (encode_loop-small fuel v h) (omega arith)
  | inr h ↦ rw (encode_loop-large fuel v h) (omega (arith, encode_loop-length fuel (v / 128)))
]

pub encode_uvarint-length :
    (v : ℕ) → (1 ≤ length (encode_uvarint [] v)) × (length (encode_uvarint [] v) ≤ 10)
unfolding encode_uvarint
encode_uvarint-length v = (nonempty, encode_loop-length 10 v)
  where
    nonempty : 1 ≤ length (encode_loop 10 [] v)
    nonempty = elim (lt_or_ge v) [
      | inl h ↦ rw (encode_loop-small 9 v h) (omega arith)
      | inr h ↦ rw (encode_loop-large 9 v h) (omega arith)
    ]
