-- ===== src/Wire/Bloom/Flags.antt =====
-- The flags of a filter on the wire: one bit each, which no other write touches.
use yggdrasil_ng.Prelude.{
  ℕ, zero, suc, ◌-◌, ◌/◌, ◌%◌, ◌^◌, ◌<◌, ◌≡◌, ◌≢◌, refl, ap, ◌∙◌, List, [], ◌∷◌, true, false, not,
  ◌==◌, ==_iff, bit_and, bit_or, get_or, set, replicate, length, arith, Bool-cases, inl, inr,
}
use yggdrasil_ng.Prelude.Bytes.{Bytes}
use yggdrasil_ng.Prelude.Bits.{bit_and-halves, low_bits_1, every_byte, every_byte_sound}
use native.Mathlib.Nat.{pow-suc}
use yggdrasil_ng.Bloom.{word_bit}
use yggdrasil_ng.Bloom.Words.{
  word_bit-zero, word_bit-suc, word_bit-bit_or, word_bit-pow, get_or-set_same, length-set,
}
use yggdrasil_ng.Wire.Bloom.{flag_mask, set_flag, has_flag}

pow_half : (k : ℕ) → 2 ^ suc k / 2 ≡ 2 ^ k
pow_half k = omega (arith, pow-suc 2 k)

-- The test of one bit by a mask.
bit_and-pow : (k x : ℕ) → not (bit_and x (2 ^ k) == 0) ≡ word_bit x k
bit_and-pow zero x = rw (word_bit-zero x) (ground (arith, low_bits_1 x))
bit_and-pow (suc k) x = rw (word_bit-suc x k) (
    ground (
      arith,
      bit_and-halves x (2 ^ suc k),
      pow-suc 2 k,
      ap (λ (t : ℕ). bit_and (x / 2) t) (pow_half k),
      bit_and-pow k (x / 2),
    ))

word_bit-nothing : (k : ℕ) → word_bit 0 k ≡ false
word_bit-nothing zero = word_bit-zero 0
word_bit-nothing (suc k) = word_bit-suc 0 k ∙ word_bit-nothing k

word_bit-pow_other : (a b : ℕ) → a ≢ b → word_bit (2 ^ a) b ≡ false
word_bit-pow_other zero zero h = absurd (h refl)
word_bit-pow_other zero (suc b) h = word_bit-suc 1 b ∙ word_bit-nothing b
word_bit-pow_other (suc a) zero h = word_bit-zero (2 ^ suc a) ∙ ground (arith, pow-suc 2 a)
word_bit-pow_other (suc a) (suc b) h =
    word_bit-suc (2 ^ suc a) b ∙ rw (pow_half a) (word_bit-pow_other a b (λ p. h (ap suc p)))

mask_is_pow : (idx : ℕ) → flag_mask idx ≡ 2 ^ (7 - idx % 8)
unfolding flag_mask every_byte
mask_is_pow idx =
    (==_iff _ _).0
      (every_byte_sound 8 (λ r. 0x80 / 2 ^ r == 2 ^ (7 - r)) (idx % 8) refl (omega arith))

has_flag-word_bit :
    (flags : Bytes) (idx : ℕ)
    → has_flag flags idx ≡ word_bit (get_or flags (idx / 8) 0) (7 - idx % 8)
unfolding has_flag
has_flag-word_bit flags idx =
    rw (mask_is_pow idx) (bit_and-pow (7 - idx % 8) (get_or flags (idx / 8) 0))

get_or-set_other : (xs : List ℕ) (i j v : ℕ) → i ≢ j → get_or (set xs i v) j 0 ≡ get_or xs j 0
get_or-set_other [] i j v h = refl
get_or-set_other (x ∷ xs) zero zero v h = absurd (h refl)
get_or-set_other (x ∷ xs) zero (suc j) v h = refl
get_or-set_other (x ∷ xs) (suc i) zero v h = refl
get_or-set_other (x ∷ xs) (suc i) (suc j) v h = get_or-set_other xs i j v (λ p. h (ap suc p))

pub length-set_flag : (flags : Bytes) (idx : ℕ) → length (set_flag flags idx) ≡ length flags
unfolding set_flag
length-set_flag flags idx = length-set flags (idx / 8) _

pub has_flag-set_flag :
    (flags : Bytes) (idx : ℕ) → idx / 8 < length flags → has_flag (set_flag flags idx) idx ≡ true
unfolding set_flag
has_flag-set_flag flags idx h =
    rw
      (
        has_flag-word_bit (set_flag flags idx) idx,
        get_or-set_same flags (idx / 8) (bit_or (get_or flags (idx / 8) 0) (flag_mask idx)) h,
        mask_is_pow idx,
        word_bit-bit_or (get_or flags (idx / 8) 0) (2 ^ (7 - idx % 8)) (7 - idx % 8),
        word_bit-pow (7 - idx % 8),
      )
      (ground arith)

pub has_flag-set_flag_other :
    (flags : Bytes) (idx j : ℕ)
    → idx ≢ j
    → idx / 8 < length flags
    → has_flag (set_flag flags j) idx ≡ has_flag flags idx
unfolding set_flag
has_flag-set_flag_other flags idx j h l = elim (Bool-cases (j / 8 == idx / 8)) [
  | inl c ↦
      let at : j / 8 ≡ idx / 8 = (==_iff _ _).0 c in
      let apart : 7 - j % 8 ≢ 7 - idx % 8 = λ p. absurd (omega (arith, p)) in
      rw
        (
          has_flag-word_bit (set_flag flags j) idx,
          has_flag-word_bit flags idx,
          at,
          get_or-set_same flags (idx / 8) (bit_or (get_or flags (idx / 8) 0) (flag_mask j)) l,
          mask_is_pow j,
          word_bit-bit_or (get_or flags (idx / 8) 0) (2 ^ (7 - j % 8)) (7 - idx % 8),
          word_bit-pow_other (7 - j % 8) (7 - idx % 8) apart,
        )
        (ground arith)
  | inr c ↦
      let apart : j / 8 ≢ idx / 8 = λ p. cc ((==_iff _ _).1 p, c) in
      rw
        (
          has_flag-word_bit (set_flag flags j) idx,
          has_flag-word_bit flags idx,
          get_or-set_other flags (j / 8) (idx / 8) (bit_or (get_or flags (j / 8) 0) (flag_mask j))
              apart,
        )
        refl
]

get_or-replicate : (n i : ℕ) → get_or {A = ℕ} (replicate n 0) i 0 ≡ 0
get_or-replicate zero i = refl
get_or-replicate (suc n) zero = refl
get_or-replicate (suc n) (suc i) = get_or-replicate n i

pub has_flag-replicate : (n idx : ℕ) → has_flag (replicate n 0) idx ≡ false
has_flag-replicate n idx =
    has_flag-word_bit (replicate n 0) idx
    ∙ rw (get_or-replicate n (idx / 8)) (word_bit-nothing (7 - idx % 8))
