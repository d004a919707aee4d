-- ===== src/Wire/Bloom/RoundTrip.antt =====
-- A filter is read back from its bytes.
use yggdrasil_ng.Prelude.{
  ℕ, zero, suc, ◌+◌, ◌*◌, ◌/◌, ◌%◌, ◌^◌, ◌<◌, ◌≤◌, ◌≡◌, ◌≢◌, refl, ◌∙◌, List, [], ◌∷◌, ◌++◌, Bool,
  true, false, not, ◌||◌, ◌&&◌, ◌==◌, ==_iff, if◌then◌else◌, length, replicate, arith, Bool-cases,
  inl, inr, All, length-append,
}
use native.Mathlib.Nat.{pow-suc}
use yggdrasil_ng.Prelude.Bytes.{Bytes}
use yggdrasil_ng.Prelude.Result.{ok}
use yggdrasil_ng.Wire.Uvarint.{IsU64}
use yggdrasil_ng.Wire.Reader.{is_empty, read_fixed-append}
use yggdrasil_ng.Wire.Bloom.{
  bloom_filter_u64s, bloom_filter_flags, all_ones, set_flag, has_flag, scan, be_bytes, keep_bytes,
  encode_bloom, from_be_bytes, read_word, read_words, finish_bloom, decode_bloom,
}
use yggdrasil_ng.Wire.Bloom.Flags.{
  length-set_flag, has_flag-set_flag, has_flag-set_flag_other, has_flag-replicate,
}

from_be_bytes-append :
    (xs : Bytes) (acc b : ℕ) → from_be_bytes acc (xs ++ (b ∷ [])) ≡ from_be_bytes acc xs * 256 + b
unfolding from_be_bytes
from_be_bytes-append [] acc b = refl
from_be_bytes-append (x ∷ xs) acc b = from_be_bytes-append xs (acc * 256 + x) b

from_be_bytes-be_bytes : (n u : ℕ) → u < 256 ^ n → from_be_bytes 0 (be_bytes n u) ≡ u
unfolding be_bytes
from_be_bytes-be_bytes zero u h = unfold from_be_bytes in omega arith
from_be_bytes-be_bytes (suc n) u h =
    let high = from_be_bytes-be_bytes n (u / 256) (omega (arith, pow-suc 256 n)) in
    omega (arith, from_be_bytes-append (be_bytes n (u / 256)) 0 (u % 256))

length-be_bytes : (n u : ℕ) → length (be_bytes n u) ≡ n
unfolding be_bytes
length-be_bytes zero u = refl
length-be_bytes (suc n) u =
    omega (arith, length-append (be_bytes n (u / 256)) (u % 256 ∷ []), length-be_bytes n (u / 256))

-- Flags for 128 words.
abbrev IsFlags : Bytes → Type 0
IsFlags flags = length flags ≡ 16

abbrev mark : Bool → Bytes → ℕ → Bytes
mark c flags idx = if c then set_flag flags idx else flags

mark-IsFlags : (c : Bool) (flags : Bytes) (idx : ℕ) → IsFlags flags → IsFlags (mark c flags idx)
mark-IsFlags true flags idx h = length-set_flag flags idx ∙ h
mark-IsFlags false flags idx h = h

has_flag-mark :
    (c : Bool) (flags : Bytes) (idx : ℕ)
    → IsFlags flags
    → idx < 128
    → has_flag flags idx ≡ false
    → has_flag (mark c flags idx) idx ≡ c
has_flag-mark true flags idx h l e = has_flag-set_flag flags idx (omega arith)
has_flag-mark false flags idx h l e = e

has_flag-mark_other :
    (c : Bool) (flags : Bytes) (idx j : ℕ)
    → IsFlags flags
    → idx < 128
    → idx ≢ j
    → has_flag (mark c flags j) idx ≡ has_flag flags idx
has_flag-mark_other true flags idx j h l n = has_flag-set_flag_other flags idx j n (omega arith)
has_flag-mark_other false flags idx j h l n = refl

abbrev is_ones : ℕ → Bool
is_ones u = not (u == 0) && u == all_ones

-- The flags of the words before stay.
scan_keeps :
    (us : List ℕ) (idx : ℕ) (f0 f1 : Bytes) (j : ℕ)
    → IsFlags f0
    → IsFlags f1
    → j < 128
    → j < idx
    → (has_flag (scan us idx f0 f1).0 j ≡ has_flag f0 j)
      × (has_flag (scan us idx f0 f1).1 j ≡ has_flag f1 j)
unfolding scan
scan_keeps [] idx f0 f1 j h0 h1 l lt = (refl, refl)
scan_keeps (u ∷ us) idx f0 f1 j h0 h1 l lt =
    let apart : j ≢ idx = λ p. absurd (omega arith) in
    let (e0, e1) =
      scan_keeps us (idx + 1) (mark (u == 0) f0 idx) (mark (is_ones u) f1 idx) j
        (mark-IsFlags (u == 0) f0 idx h0) (mark-IsFlags (is_ones u) f1 idx h1) l (omega arith) in
    (
      e0 ∙ has_flag-mark_other (u == 0) f0 j idx h0 l apart,
      e1 ∙ has_flag-mark_other (is_ones u) f1 j idx h1 l apart,
    )

-- No flag from an index on.
abbrev Clear : Bytes → ℕ → Type 0
Clear flags idx = (j : ℕ) → idx ≤ j → j < 128 → has_flag flags j ≡ false

mark-Clear :
    (c : Bool) (flags : Bytes) (idx : ℕ)
    → IsFlags flags
    → Clear flags idx
    → Clear (mark c flags idx) (idx + 1)
mark-Clear c flags idx h clear j le l =
    let apart : j ≢ idx = λ p. absurd (omega arith) in
    has_flag-mark_other c flags j idx h l apart ∙ clear j (omega arith) l

-- A word by its flags.
read_word-keep :
    (u idx : ℕ) (f0 f1 : Bytes) (keep : List ℕ)
    → u < 2 ^ 64
    → has_flag f0 idx ≡ (u == 0)
    → has_flag f1 idx ≡ is_ones u
    → read_word f0 f1 idx (keep_bytes (if u == 0 || u == all_ones then keep else u ∷ keep))
      ≡ ok (u, keep_bytes keep)
unfolding read_word keep_bytes
read_word-keep u idx f0 f1 keep l e0 e1 = elim (Bool-cases (u == 0)) [
  | inl z ↦ rw (e0, e1, z) (let at : u ≡ 0 = (==_iff u 0).0 z in rw at refl)
  | inr z ↦ elim (Bool-cases (u == all_ones)) [
    | inl o ↦ rw (e0, e1, z, o) (let at : u ≡ all_ones = (==_iff u all_ones).0 o in rw at refl)
    | inr o ↦
        rw
          (
            e0,
            e1,
            z,
            o,
            read_fixed-append 8 (be_bytes 8 u) (length-be_bytes 8 u) (keep_bytes keep),
            from_be_bytes-be_bytes 8 u l,
          )
          refl
  ]
]

read_words-scan :
    (us : List ℕ) (idx : ℕ) (f0 f1 : Bytes)
    → All IsU64 us
    → idx + length us ≤ 128
    → IsFlags f0
    → IsFlags f1
    → Clear f0 idx
    → Clear f1 idx
    → read_words
        (length us)
        (scan us idx f0 f1).0
        (scan us idx f0 f1).1
        idx
        (keep_bytes (scan us idx f0 f1).2)
      ≡ ok (us, [])
unfolding scan read_words
read_words-scan [] idx f0 f1 a l h0 h1 c0 c1 = unfold keep_bytes in refl
read_words-scan (u ∷ us) idx f0 f1 (b, a) l h0 h1 c0 c1 =
    let g0 = mark (u == 0) f0 idx in
    let g1 = mark (is_ones u) f1 idx in
    let i0 = mark-IsFlags (u == 0) f0 idx h0 in
    let i1 = mark-IsFlags (is_ones u) f1 idx h1 in
    let (k0, k1) = scan_keeps us (idx + 1) g0 g1 idx i0 i1 (omega arith) (omega arith) in
    let e0 =
      k0 ∙ has_flag-mark (u == 0) f0 idx h0 (omega arith) (c0 idx (omega arith) (omega arith)) in
    let e1 =
      k1 ∙ has_flag-mark (is_ones u) f1 idx h1 (omega arith) (c1 idx (omega arith) (omega arith)) in
    let rest =
      read_words-scan us (idx + 1) g0 g1 a (omega arith) i0 i1 (mark-Clear (u == 0) f0 idx h0 c0)
        (mark-Clear (is_ones u) f1 idx h1 c1) in
    rw (read_word-keep u idx _ _ (scan us (idx + 1) g0 g1).2 b e0 e1, rest) refl

scan-IsFlags :
    (us : List ℕ) (idx : ℕ) (f0 f1 : Bytes)
    → IsFlags f0
    → IsFlags f1
    → IsFlags (scan us idx f0 f1).0 × IsFlags (scan us idx f0 f1).1
unfolding scan
scan-IsFlags [] idx f0 f1 h0 h1 = (h0, h1)
scan-IsFlags (u ∷ us) idx f0 f1 h0 h1 =
    scan-IsFlags us (idx + 1) (mark (u == 0) f0 idx) (mark (is_ones u) f1 idx)
      (mark-IsFlags (u == 0) f0 idx h0) (mark-IsFlags (is_ones u) f1 idx h1)

-- A filter of 128 words of 64 bits is read back from its compressed encoding.
pub decode_bloom-encode_bloom :
    (words : List ℕ)
    → length words ≡ bloom_filter_u64s
    → All IsU64 words
    → decode_bloom (encode_bloom words []) ≡ ok words
unfolding decode_bloom encode_bloom finish_bloom is_empty
decode_bloom-encode_bloom words n a =
    let fits : 0 + length words ≤ 128 = omega (arith, n) in
    let blank : Bytes = replicate bloom_filter_flags 0 in
    let done = scan words 0 blank blank in
    let (l0, l1) = scan-IsFlags words 0 blank blank refl refl in
    let clear : Clear blank 0 = λ j le l. has_flag-replicate bloom_filter_flags j in
    let all = read_words-scan words 0 blank blank a fits refl refl clear clear in
    rw
      (
        read_fixed-append bloom_filter_flags done.0 l0 (done.1 ++ keep_bytes done.2),
        read_fixed-append bloom_filter_flags done.1 l1 (keep_bytes done.2),
        ← n,
        all,
      )
      refl
