-- ===== src/Bloom/Cover.antt =====
-- crates/ironwood/src/bloom.rs: what the filter for a peer covers, `get_bloom_for`.
use yggdrasil_ng.Prelude.{
  ℕ, ◌≡◌, refl, List, [], ◌∷◌, some, true, false, not, ◌&&◌, ◌=?◌, ==_iff, inl, inr, arith,
  Bool-cases, All,
}
use yggdrasil_ng.Prelude.Bytes.{Bytes, bytes_eq}
use yggdrasil_ng.Prelude.Map.{get}
use yggdrasil_ng.Wire.Message.{PublicKey}
use yggdrasil_ng.Bloom.{BloomFilter, merge, words_beq, filter_equal, test}
use yggdrasil_ng.Bloom.Filter.{IsFilter, merge-IsFilter, test-merge}
use yggdrasil_ng.Bloom.Peers.{BloomInfo, Blooms, recv_filters, merge_all}

abbrev pub IsInfo : BloomInfo → Type 0
IsInfo info = IsFilter info.send × IsFilter info.recv

-- All filters have 128 words.
abbrev pub IsValid : Blooms → Type 0
IsValid blooms = All (λ (e : PublicKey × BloomInfo). IsInfo e.1) blooms

pub get-IsInfo :
    (blooms : Blooms) (key : PublicKey) (info : BloomInfo)
    → IsValid blooms
    → get blooms key ≡ some info
    → IsInfo info
unfolding get
get-IsInfo [] key info v h = absurd (ground arith)
get-IsInfo ((k, i) ∷ blooms) key info (vi, v) h = elim (Bool-cases (k =? key)) [
  | inl e ↦ let same : i ≡ info = ground arith in rw (← same) vi
  | inr e ↦ get-IsInfo blooms key info v (ground arith)
]

words_beq_sound : (xs ys : List ℕ) → words_beq xs ys ≡ true → xs ≡ ys
unfolding words_beq
words_beq_sound [] [] h = refl
words_beq_sound [] (y ∷ ys) h = absurd (ground arith)
words_beq_sound (x ∷ xs) [] h = absurd (ground arith)
words_beq_sound (x ∷ xs) (y ∷ ys) h = ground (arith, ==_iff x y, words_beq_sound xs ys)

pub filter_equal_sound : (f g : BloomFilter) → filter_equal f g ≡ true → f ≡ g
unfolding filter_equal
filter_equal_sound f g h = ground (arith, words_beq_sound f.bits g.bits h)

pub recv_filters-All :
    (blooms : Blooms) (key : PublicKey) → IsValid blooms → All IsFilter (recv_filters blooms key)
unfolding recv_filters
recv_filters-All [] key v = tt
recv_filters-All ((k, info) ∷ blooms) key ((hs, hr), v) =
    elim (Bool-cases (info.on_tree && not (k =? key))) [
      | inl e ↦ rw e (hr, recv_filters-All blooms key v)
      | inr e ↦ rw e (recv_filters-All blooms key v)
    ]

module _ (murmur : Bytes → ℕ) (xkey : Bytes) where
  pub merge_all-base :
      (b : BloomFilter) (fs : List BloomFilter)
      → IsFilter b
      → All IsFilter fs
      → test murmur b xkey ≡ true
      → test murmur (merge_all b fs) xkey ≡ true
  unfolding merge_all
  merge_all-base b [] hb hs t = t
  merge_all-base b (f ∷ fs) hb (hf, hs) t =
      merge_all-base (merge b f) fs (merge-IsFilter b f hb) hs
        (test-merge murmur b f xkey hb hf (inl t))

  -- The filter of a peer on the tree, other than the one the union is for, is in the union.
  pub merge_all-recv :
      (blooms : Blooms) (key k : PublicKey) (info : BloomInfo) (b : BloomFilter)
      → IsFilter b
      → IsValid blooms
      → get blooms k ≡ some info
      → info.on_tree ≡ true
      → (k =? key) ≡ false
      → test murmur info.recv xkey ≡ true
      → test murmur (merge_all b (recv_filters blooms key)) xkey ≡ true
  unfolding get merge_all recv_filters
  merge_all-recv [] key k info b hb v g t d m = absurd (ground arith)
  merge_all-recv ((j, i) ∷ blooms) key k info b hb ((hs, hr), v) g t d m =
      elim (Bool-cases (j =? k)) [
        | inl e ↦
            let same : i ≡ info = ground arith in
            let at : j ≡ k = (bytes_eq.beq_iff j k).0 e in
            let other : (i.on_tree && not (j =? key)) ≡ true = rw (same, at, t, d) refl in
            rw other (
              merge_all-base (merge b i.recv) (recv_filters blooms key) (merge-IsFilter b i.recv hb)
                (recv_filters-All blooms key v)
                (test-merge murmur b i.recv xkey hb hr (inr (rw same m))))
        | inr e ↦
            let g' : get blooms k ≡ some info = ground arith in
            elim (Bool-cases (i.on_tree && not (j =? key))) [
              | inl c ↦ rw c (
                  merge_all-recv blooms key k info (merge b i.recv) (merge-IsFilter b i.recv hb) v
                    g' t d m)
              | inr c ↦ rw c (merge_all-recv blooms key k info b hb v g' t d m)
            ]
      ]

pub merge_all-IsFilter :
    (b : BloomFilter) (fs : List BloomFilter) → IsFilter b → IsFilter (merge_all b fs)
unfolding merge_all
merge_all-IsFilter b [] h = h
merge_all-IsFilter b (f ∷ fs) h = merge_all-IsFilter (merge b f) fs (merge-IsFilter b f h)
