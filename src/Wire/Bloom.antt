-- ===== src/Wire/Bloom.antt =====
-- crates/ironwood/src/wire.rs: a bloom filter on the wire. Words that are all zeros or all ones are
-- flags, the others follow as bytes.
pub mod Flags
pub mod RoundTrip
use yggdrasil_ng.Prelude.{
  ℕ, zero, suc, ◌+◌, ◌*◌, ◌/◌, ◌%◌, ◌^◌, List, [], ◌∷◌, ◌++◌, Bool, true, false, ◌&&◌, ◌||◌, not,
  ◌==◌, if◌then◌else◌, bit_and, bit_or, get_or, set, replicate,
}
use yggdrasil_ng.Prelude.Bytes.{Bytes}
use yggdrasil_ng.Prelude.Result.{Result, ok, err, Error, ◌>>=◌}
use yggdrasil_ng.Wire.Reader.{Cursor, is_empty, read_fixed}

abbrev pub bloom_filter_flags : ℕ
bloom_filter_flags = 16

abbrev pub bloom_filter_u64s : ℕ
bloom_filter_u64s = 128

abbrev pub all_ones : ℕ
all_ones = 18446744073709551615

-- `0x80 >> (idx % 8)`
pub flag_mask : ℕ → ℕ
flag_mask idx = 0x80 / 2 ^ (idx % 8)

pub set_flag : Bytes → ℕ → Bytes
set_flag flags idx = set flags (idx / 8) (bit_or (get_or flags (idx / 8) 0) (flag_mask idx))

pub has_flag : Bytes → ℕ → Bool
has_flag flags idx = not (bit_and (get_or flags (idx / 8) 0) (flag_mask idx) == 0)

-- The loop of `encode_bloom`: the flags and the words to keep.
pub scan : List ℕ → ℕ → Bytes → Bytes → Bytes × Bytes × List ℕ
scan [] idx flags0 flags1 = (flags0, flags1, [])
scan (u ∷ us) idx flags0 flags1 =
    let (f0, f1, keep) =
      scan us (idx + 1) (if u == 0 then set_flag flags0 idx else flags0)
        (if not (u == 0) && u == all_ones then set_flag flags1 idx else flags1) in
    (f0, f1, if u == 0 || u == all_ones then keep else u ∷ keep)

-- `to_be_bytes`, for words of `n` bytes.
pub be_bytes : ℕ → ℕ → Bytes
be_bytes zero u = []
be_bytes (suc n) u = be_bytes n (u / 256) ++ (u % 256 ∷ [])

pub keep_bytes : List ℕ → Bytes
keep_bytes [] = []
keep_bytes (u ∷ us) = be_bytes 8 u ++ keep_bytes us

pub encode_bloom : List ℕ → Bytes → Bytes
encode_bloom words out =
    let (flags0, flags1, keep) =
      scan words 0 (replicate bloom_filter_flags 0) (replicate bloom_filter_flags 0) in
    out ++ (flags0 ++ (flags1 ++ keep_bytes keep))

-- `from_be_bytes`
pub from_be_bytes : ℕ → Bytes → ℕ
from_be_bytes acc [] = acc
from_be_bytes acc (b ∷ bs) = from_be_bytes (acc * 256 + b) bs

-- One round of the loop of `decode_bloom`.
pub read_word : Bytes → Bytes → ℕ → Cursor → Result (ℕ × Cursor)
read_word flags0 flags1 idx r =
    if has_flag flags0 idx && has_flag flags1 idx
    then err Error.decode
    else if has_flag flags0 idx
    then ok (0, r)
    else if has_flag flags1 idx
    then ok (all_ones, r)
    else (do (bytes, r') ← read_fixed 8 r; ok (from_be_bytes 0 bytes, r'))

pub read_words : ℕ → Bytes → Bytes → ℕ → Cursor → Result (List ℕ × Cursor)
read_words zero flags0 flags1 idx r = ok ([], r)
read_words (suc n) flags0 flags1 idx r = do
  (u, r') ← read_word flags0 flags1 idx r
  (us, r'') ← read_words n flags0 flags1 (idx + 1) r'
  ok (u ∷ us, r'')

pub finish_bloom : List ℕ → Cursor → Result (List ℕ)
finish_bloom words r = if not (is_empty r) then err Error.decode else ok words

pub decode_bloom : Bytes → Result (List ℕ)
decode_bloom bytes = do
  (flags0, r) ← read_fixed bloom_filter_flags bytes
  (flags1, r') ← read_fixed bloom_filter_flags r
  (words, r'') ← read_words bloom_filter_u64s flags0 flags1 0 r'
  finish_bloom words r''
