-- ===== src/Bloom.antt =====
-- crates/ironwood/src/bloom.rs: the filter of 8192 bits in 128 words of 64. `murmur3_x64_128` is the
-- murmur3 crate's, so the hash of the data with seed 0 is an argument.
pub mod Peers
pub mod Words
pub mod Filter
pub mod Cover
pub mod Send
pub mod Multicast
pub mod Reach
pub mod Maintenance
pub mod Answers
use yggdrasil_ng.Prelude.{
  ℕ, zero, suc, ◌+◌, ◌*◌, ◌/◌, ◌%◌, ◌^◌, List, [], ◌∷◌, ◌++◌, Bool, true, false, not, ◌==◌,
  if◌then◌else◌, bit_and, bit_or, get_or, set, replicate,
}
use yggdrasil_ng.Prelude.Bytes.{Bytes}

abbrev pub bloom_filter_bits : ℕ
bloom_filter_bits = 8192

abbrev pub bloom_filter_k : ℕ
bloom_filter_k = 8

abbrev pub bloom_filter_u64s : ℕ
bloom_filter_u64s = 128

pub record BloomFilter : Type 0 where
  pub bits : List ℕ

-- `BloomFilter::new`
unfoldable pub new_filter : BloomFilter
new_filter = record { bits = replicate bloom_filter_u64s 0 }

unfoldable pub set_bit : BloomFilter → ℕ → BloomFilter
set_bit f bit = record {
  bits = set f.bits (bit / 64) (bit_or (get_or f.bits (bit / 64) 0) (2 ^ (bit % 64)));
}

-- `(w >> offset) & 1 == 1`
unfoldable pub word_bit : ℕ → ℕ → Bool
word_bit w offset = bit_and (w / 2 ^ offset) 1 == 1

unfoldable pub get_bit : BloomFilter → ℕ → Bool
get_bit f bit = word_bit (get_or f.bits (bit / 64) 0) (bit % 64)

-- `self.bits[i] |= other.bits[i]` for each `i`; both have 128 words.
unfoldable pub or_words : List ℕ → List ℕ → List ℕ
or_words [] ys = []
or_words (x ∷ xs) [] = x ∷ xs
or_words (x ∷ xs) (y ∷ ys) = bit_or x y ∷ or_words xs ys

unfoldable pub merge : BloomFilter → BloomFilter → BloomFilter
merge f other = record { bits = or_words f.bits other.bits }

unfoldable pub words_beq : List ℕ → List ℕ → Bool
words_beq [] [] = true
words_beq [] (y ∷ ys) = false
words_beq (x ∷ xs) [] = false
words_beq (x ∷ xs) (y ∷ ys) = if x == y then words_beq xs ys else false

-- `equal`
unfoldable pub filter_equal : BloomFilter → BloomFilter → Bool
filter_equal f other = words_beq f.bits other.bits

pub record Hashes : Type 0 where
  pub h0 : ℕ
  pub h1 : ℕ
  pub h2 : ℕ
  pub h3 : ℕ

-- `h[j]`, for an index below 4.
unfoldable pub hash_at : Hashes → ℕ → ℕ
hash_at h zero = h.h0
hash_at h (suc zero) = h.h1
hash_at h (suc (suc zero)) = h.h2
hash_at h (suc (suc (suc j))) = h.h3

unfoldable pub location : Hashes → ℕ → ℕ → ℕ
location h i m =
    let base = hash_at h (i % 2) in
    let mult = hash_at h (2 + (i + i % 2) % 4 / 2) in (base + i * mult % 2 ^ 64) % 2 ^ 64 % m

-- The loops over `0..8`, with the rounds that are left and the index.
unfoldable pub add_loop : Hashes → ℕ → ℕ → BloomFilter → BloomFilter
add_loop h zero i f = f
add_loop h (suc n) i f = add_loop h n (i + 1) (set_bit f (location h i bloom_filter_bits))

unfoldable pub test_loop : Hashes → ℕ → ℕ → BloomFilter → Bool
test_loop h zero i f = true
test_loop h (suc n) i f =
    let rest = test_loop h n (i + 1) f in
    if not (get_bit f (location h i bloom_filter_bits)) then false else rest

module _ (murmur : Bytes → ℕ) where
  unfoldable pub base_hashes : Bytes → Hashes
  base_hashes data_ = record {
    h0 = murmur data_ % 2 ^ 64;
    h1 = murmur data_ / 2 ^ 64 % 2 ^ 64;
    h2 = murmur (data_ ++ (1 ∷ [])) % 2 ^ 64;
    h3 = murmur (data_ ++ (1 ∷ [])) / 2 ^ 64 % 2 ^ 64;
  }

  unfoldable pub add : BloomFilter → Bytes → BloomFilter
  add f key = add_loop (base_hashes key) bloom_filter_k 0 f

  unfoldable pub test : BloomFilter → Bytes → Bool
  test f key = test_loop (base_hashes key) bloom_filter_k 0 f
