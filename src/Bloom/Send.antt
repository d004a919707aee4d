-- ===== src/Bloom/Send.antt =====
-- crates/ironwood/src/bloom.rs: the answers of `get_bloom_for`, and the state they leave.
use yggdrasil_ng.Prelude.{
  ℕ, ◌≡◌, refl, sym, ap, [], ◌∷◌, none, some, Bool, true, false, ◌=?◌, inl, inr, arith, Bool-cases,
  Option-cases, beq_refl,
}
use yggdrasil_ng.Prelude.Bytes.{Bytes, bytes_eq}
use yggdrasil_ng.Prelude.Map.{get, insert, get-insert}
use yggdrasil_ng.Wire.Message.{PublicKey}
use yggdrasil_ng.Bloom.{BloomFilter, new_filter, filter_equal, test}
use yggdrasil_ng.Bloom.Filter.{
  IsFilter, merge-IsFilter, new_filter-IsFilter, add-IsFilter, test-add, test-merge,
}
use yggdrasil_ng.Bloom.Peers.{
  BloomInfo, Blooms, Transform, x_key, get_send_bloom, kept_ones, store_bloom, collected,
  get_bloom_for,
}
use yggdrasil_ng.Bloom.Cover.{
  IsInfo, IsValid, get-IsInfo, filter_equal_sound, recv_filters-All, merge_all-base, merge_all-recv,
  merge_all-IsFilter,
}

kept_ones-IsFilter :
    (b : BloomFilter) (info : BloomInfo) (keep : Bool)
    → IsFilter b
    → IsFilter (kept_ones b info keep)
unfolding kept_ones
kept_ones-IsFilter b info true h = merge-IsFilter b info.send h
kept_ones-IsFilter b info false h = h

-- The stored filter is the one that is returned.
store_bloom-send :
    (b : BloomFilter) (info : BloomInfo) (keep : Bool)
    → (store_bloom b info keep).0.send ≡ (store_bloom b info keep).1
unfolding store_bloom
store_bloom-send b info keep = elim (Bool-cases (filter_equal (kept_ones b info keep) info.send)) [
  | inl e ↦ rw e (sym (filter_equal_sound _ _ e))
  | inr e ↦ rw e refl
]

store_bloom-IsInfo :
    (b : BloomFilter) (info : BloomInfo) (keep : Bool)
    → IsFilter b
    → IsInfo info
    → IsInfo (store_bloom b info keep).0
store_bloom-IsInfo b info keep hb (hs, hr) = (
  rw (store_bloom-send b info keep) (unfold store_bloom in kept_ones-IsFilter b info keep hb),
  unfold store_bloom in hr,
)

pub insert-IsValid :
    (blooms : Blooms) (key : PublicKey) (info : BloomInfo)
    → IsValid blooms
    → IsInfo info
    → IsValid (insert blooms key info)
unfolding insert
insert-IsValid [] key info v h = (h, tt)
insert-IsValid ((k, i) ∷ blooms) key info (vi, v) h = elim (Bool-cases (k =? key)) [
  | inl e ↦ rw e (h, v)
  | inr e ↦ rw e (vi, insert-IsValid blooms key info v h)
]

module _ (murmur : Bytes → ℕ) (blooms : Blooms) (key our_key : PublicKey) (keep : Bool)
    (transform : Transform) where
  abbrev answer : BloomInfo → BloomInfo × BloomFilter × Bool
  answer info = store_bloom (collected murmur blooms key our_key transform) info keep

  abbrev outcome : BloomInfo → Blooms × BloomFilter × Bool
  outcome info = (insert blooms key (answer info).0, (answer info).1, (answer info).2)

  get_bloom_for-some :
      (info : BloomInfo)
      → get blooms key ≡ some info
      → get_bloom_for murmur blooms key our_key keep transform ≡ some (outcome info)
  unfolding get_bloom_for
  get_bloom_for-some info h = rw (get_bloom_for, h) refl

  get_bloom_for-none :
      get blooms key ≡ none → get_bloom_for murmur blooms key our_key keep transform ≡ none
  unfolding get_bloom_for
  get_bloom_for-none h = rw (get_bloom_for, h) refl

  -- What an answer of `get_bloom_for` is made of.
  pub get_bloom_for-inv :
      (r : Blooms × BloomFilter × Bool)
      → get_bloom_for murmur blooms key our_key keep transform ≡ some r
      → (info : BloomInfo) × (get blooms key ≡ some info) × (outcome info ≡ r)
  get_bloom_for-inv r h = elim (Option-cases (get blooms key)) [
    | inl e ↦ let lost = get_bloom_for-none e in absurd (ground arith)
    | inr (info, e) ↦ let got = get_bloom_for-some info e in (info, e, ground arith)
  ]

  collected-IsFilter : IsFilter (collected murmur blooms key our_key transform)
  unfolding collected
  collected-IsFilter = merge_all-IsFilter _ _ (add-IsFilter murmur new_filter _ new_filter-IsFilter)

  -- Where the peer has an entry and all filters have 128 words, get_bloom_for returns a filter,
  -- stores that filter as the one sent to the peer, and leaves filters of 128 words.
  pub get_bloom_for_stored :
      (info : BloomInfo)
      → IsValid blooms
      → get blooms key ≡ some info
      → (r : Blooms × BloomFilter × Bool) × (get_bloom_for murmur blooms key our_key keep transform
          ≡ some r)
        × (get_send_bloom r.0 key ≡ some r.1)
        × IsValid r.0
  unfolding get_send_bloom
  get_bloom_for_stored info v h = (
    outcome info,
    get_bloom_for-some info h,
    rw (get-insert blooms key key (answer info).0, beq_refl key)
        (ap (λ f. some f)
          (store_bloom-send (collected murmur blooms key our_key transform) info keep)),
    insert-IsValid blooms key (answer info).0 v (
        store_bloom-IsInfo (collected murmur blooms key our_key transform) info keep
          collected-IsFilter (get-IsInfo blooms key info v h)),
  )

  -- What the union covers, the answer covers.
  answer-collected :
      (xkey : Bytes) (info : BloomInfo)
      → IsInfo info
      → test murmur (collected murmur blooms key our_key transform) xkey ≡ true
      → test murmur (answer info).1 xkey ≡ true
  unfolding store_bloom kept_ones
  answer-collected xkey info (hs, hr) t = elim (Bool-cases keep) [
    | inl e ↦ rw e (
        test-merge murmur (collected murmur blooms key our_key transform) info.send xkey
          collected-IsFilter hs (inl t))
    | inr e ↦ rw e t
  ]

  module _ (r : Blooms × BloomFilter × Bool) (v : IsValid blooms)
      (h : get_bloom_for murmur blooms key our_key keep transform ≡ some r) where
    get_bloom_for-collected :
        (xkey : Bytes)
        → test murmur (collected murmur blooms key our_key transform) xkey ≡ true
        → test murmur r.1 xkey ≡ true
    get_bloom_for-collected xkey t =
        let (info, e, same) = get_bloom_for-inv r h in
        rw (← same) (answer-collected xkey info (get-IsInfo blooms key info v e) t)

    -- The filter for a peer covers our own key.
    pub get_bloom_for-x_key : test murmur r.1 (x_key our_key transform) ≡ true
    get_bloom_for-x_key = get_bloom_for-collected (x_key our_key transform) (
        unfold collected in
        merge_all-base murmur (x_key our_key transform) _ _
          (add-IsFilter murmur new_filter _ new_filter-IsFilter) (recv_filters-All blooms key v)
          (test-add murmur new_filter _ new_filter-IsFilter))

    -- It covers what another peer on the tree has sent.
    pub get_bloom_for-recv :
        (xkey : Bytes) (k : PublicKey) (info : BloomInfo)
        → get blooms k ≡ some info
        → info.on_tree ≡ true
        → (k =? key) ≡ false
        → test murmur info.recv xkey ≡ true
        → test murmur r.1 xkey ≡ true
    get_bloom_for-recv xkey k info g t d m = get_bloom_for-collected xkey (
        unfold collected in
        merge_all-recv murmur xkey blooms key k info _
          (add-IsFilter murmur new_filter _ new_filter-IsFilter) v g t d m)
