-- ===== src/Bloom/Filter.antt =====
-- crates/ironwood/src/bloom.rs: what a filter keeps when keys are added and filters are merged.
use yggdrasil_ng.Prelude.{
  ℕ, zero, suc, ◌+◌, ◌/◌, ◌%◌, ◌^◌, ◌<◌, ◌≡◌, refl, sym, ◌∙◌, true, ◌||◌, ◌⊎◌, inl, inr, bit_or,
  get_or, length, arith,
}
use yggdrasil_ng.Prelude.Bytes.{Bytes}
use yggdrasil_ng.Bloom.{
  BloomFilter, new_filter, set_bit, get_bit, merge, Hashes, location, bloom_filter_bits,
  bloom_filter_k, bloom_filter_u64s, add_loop, test_loop, base_hashes, add, test,
}
use yggdrasil_ng.Bloom.Words.{
  word_bit-bit_or, word_bit-pow, word_bit-set, get_or-set_same, get_or-or_words, length-set,
  length-or_words,
}

-- A filter has 128 words.
abbrev pub IsFilter : BloomFilter → Type 0
IsFilter f = length f.bits ≡ bloom_filter_u64s

-- Every bit of the first filter is set in the second.
abbrev pub Within : BloomFilter → BloomFilter → Type 0
Within f g = (b : ℕ) → get_bit f b ≡ true → get_bit g b ≡ true

set_bit-Within : (f : BloomFilter) (c : ℕ) → Within f (set_bit f c)
unfolding get_bit set_bit
set_bit-Within f c b h = word_bit-set f.bits (c / 64) (b / 64) (2 ^ (c % 64)) (b % 64) h

set_bit-IsFilter : (f : BloomFilter) (c : ℕ) → IsFilter f → IsFilter (set_bit f c)
unfolding set_bit
set_bit-IsFilter f c h = length-set f.bits (c / 64) _ ∙ h

get_bit-set_bit : (f : BloomFilter) (c : ℕ) → IsFilter f → c < 8192 → get_bit (set_bit f c) c ≡ true
unfolding get_bit set_bit
get_bit-set_bit f c h lt =
    rw
      (
        get_or-set_same f.bits (c / 64) (bit_or (get_or f.bits (c / 64) 0) (2 ^ (c % 64)))
            (omega arith),
        word_bit-bit_or (get_or f.bits (c / 64) 0) (2 ^ (c % 64)) (c % 64),
        word_bit-pow (c % 64),
      )
      (ground arith)

location-lt : (h : Hashes) (i : ℕ) → location h i bloom_filter_bits < 8192
unfolding location
location-lt h i = omega arith

-- The bits of a merged filter.
pub get_bit-merge :
    (f g : BloomFilter) (b : ℕ)
    → IsFilter f
    → IsFilter g
    → get_bit (merge f g) b ≡ (get_bit f b || get_bit g b)
unfolding get_bit merge
get_bit-merge f g b hf hg =
    rw (get_or-or_words f.bits g.bits (b / 64) (hf ∙ sym hg))
      (word_bit-bit_or (get_or f.bits (b / 64) 0) (get_or g.bits (b / 64) 0) (b % 64))

pub merge-IsFilter : (f g : BloomFilter) → IsFilter f → IsFilter (merge f g)
unfolding merge
merge-IsFilter f g h = length-or_words f.bits g.bits ∙ h

pub new_filter-IsFilter : IsFilter new_filter
unfolding new_filter
new_filter-IsFilter = refl

-- A key that the smaller filter may hold, the larger one may hold too.
test_loop-Within :
    (h : Hashes) (n i : ℕ) (f g : BloomFilter)
    → Within f g
    → test_loop h n i f ≡ true
    → test_loop h n i g ≡ true
unfolding test_loop
test_loop-Within h zero i f g w e = refl
test_loop-Within h (suc n) i f g w e =
    ground (arith, w (location h i bloom_filter_bits), test_loop-Within h n (i + 1) f g w)

add_loop-Within : (h : Hashes) (n i : ℕ) (f : BloomFilter) → Within f (add_loop h n i f)
unfolding add_loop
add_loop-Within h zero i f b e = e
add_loop-Within h (suc n) i f b e =
    let c = location h i bloom_filter_bits in
    add_loop-Within h n (i + 1) (set_bit f c) b (set_bit-Within f c b e)

add_loop-IsFilter :
    (h : Hashes) (n i : ℕ) (f : BloomFilter) → IsFilter f → IsFilter (add_loop h n i f)
unfolding add_loop
add_loop-IsFilter h zero i f e = e
add_loop-IsFilter h (suc n) i f e = add_loop-IsFilter h n (i + 1) _ (set_bit-IsFilter f _ e)

test_loop-add_loop :
    (h : Hashes) (n i : ℕ) (f : BloomFilter)
    → IsFilter f
    → test_loop h n i (add_loop h n i f) ≡ true
unfolding test_loop add_loop
test_loop-add_loop h zero i f e = refl
test_loop-add_loop h (suc n) i f e =
    let c = location h i bloom_filter_bits in
    let f' = set_bit f c in
    let good : IsFilter f' = set_bit-IsFilter f c e in
    let here : get_bit (add_loop h n (i + 1) f') c ≡ true =
      add_loop-Within h n (i + 1) f' c (get_bit-set_bit f c e (location-lt h i)) in
    ground (arith, here, test_loop-add_loop h n (i + 1) f' good)

module _ (murmur : Bytes → ℕ) where
  pub test-Within :
      (f g : BloomFilter) (key : Bytes)
      → Within f g
      → test murmur f key ≡ true
      → test murmur g key ≡ true
  unfolding test
  test-Within f g key w e = test_loop-Within (base_hashes murmur key) bloom_filter_k 0 f g w e

  pub add-Within : (f : BloomFilter) (key : Bytes) → Within f (add murmur f key)
  unfolding add
  add-Within f key = add_loop-Within (base_hashes murmur key) bloom_filter_k 0 f

  pub add-IsFilter : (f : BloomFilter) (key : Bytes) → IsFilter f → IsFilter (add murmur f key)
  unfolding add
  add-IsFilter f key e = add_loop-IsFilter (base_hashes murmur key) bloom_filter_k 0 f e

  -- In a filter of 128 words, a key that was added tests positive.
  pub test-add :
      (f : BloomFilter) (key : Bytes) → IsFilter f → test murmur (add murmur f key) key ≡ true
  unfolding test add
  test-add f key e = test_loop-add_loop (base_hashes murmur key) bloom_filter_k 0 f e

  -- A key that one of two filters may hold, their union may hold.
  pub test-merge :
      (f g : BloomFilter) (key : Bytes)
      → IsFilter f
      → IsFilter g
      → (test murmur f key ≡ true) ⊎ (test murmur g key ≡ true)
      → test murmur (merge f g) key ≡ true
  test-merge f g key hf hg (inl e) =
      test-Within f (merge f g) key (λ b s. ground (arith, get_bit-merge f g b hf hg)) e
  test-merge f g key hf hg (inr e) =
      test-Within g (merge f g) key (λ b s. ground (arith, get_bit-merge f g b hf hg)) e
