-- ===== src/Bloom/Answers.antt =====
-- crates/ironwood/src/bloom.rs: the maintenance of the filters answers, of whatever length they are.
use yggdrasil_ng.Prelude.{
  ℕ, ◌+◌, ◌≡◌, refl, inl, inr, List, [], ◌∷◌, ◌++◌, some, not, ◌||◌, ltb, Bool-cases,
}
use yggdrasil_ng.Prelude.Bytes.{Bytes, bytes_eq}
use yggdrasil_ng.Prelude.Map.{Map, get, insert, modify}
use yggdrasil_ng.Wire.Message.{PublicKey}
use yggdrasil_ng.Bloom.{BloomFilter}
use yggdrasil_ng.Bloom.Peers.{
  BloomInfo, Blooms, Transform, fix_on_tree, on_tree_keys, get_bloom_for, store_bloom, collected,
  send_round, send_rounds, do_maintenance,
}
use yggdrasil_ng.Bloom.Maintenance.{Knows, insert-Knows, modify-Knows, on_tree_keys-Knows}

module _ (murmur : Bytes → ℕ) (self_key : PublicKey) (transform : Transform) where
  send_round-Knows :
      (blooms : Blooms) (k : PublicKey) (info : BloomInfo) (ks : List PublicKey)
      → get blooms k ≡ some info
      → Knows blooms ks
      → (r : Blooms × List (PublicKey × BloomFilter)) × (send_round murmur blooms k self_key
            transform
          ≡ some r)
        × Knows r.0 ks
  unfolding send_round get_bloom_for
  send_round-Knows blooms k info ks e h =
      let (info', b, is_new) =
        store_bloom (collected murmur blooms k self_key transform) info (not info.z_dirty) in
      let stored = insert blooms k info' in
      let kept = insert-Knows blooms k info' ks h in
      elim (Bool-cases (is_new || not (ltb (info.seq + 1) 3600))) [
        | inl c ↦ (
          (modify stored k (λ i. record i { seq = 0 }), (k, b) ∷ []),
          rw (send_round, e, get_bloom_for, e, c) refl,
          modify-Knows stored k _ ks kept,
        )
        | inr c ↦ (
          (modify stored k (λ i. record i { seq = info.seq + 1 }), []),
          rw (send_round, e, get_bloom_for, e, c) refl,
          modify-Knows stored k _ ks kept,
        )
      ]

  send_rounds-Knows :
      (ks : List PublicKey) (blooms : Blooms)
      → Knows blooms ks
      → (r : Blooms × List (PublicKey × BloomFilter)) × (send_rounds murmur blooms ks self_key
            transform
          ≡ some r)
  unfolding send_rounds
  send_rounds-Knows [] blooms h = ((blooms, []), refl)
  send_rounds-Knows (k ∷ ks) blooms ((info, at), h) =
      let ((blooms', sent), e, h') = send_round-Knows blooms k info ks at h in
      let (rest, e') = send_rounds-Knows ks blooms' h' in
      ((rest.0, sent ++ rest.1), rw (send_rounds, e, e') refl)

  pub do_maintenance_answers :
      (blooms : Blooms) (self_parent : PublicKey) (parents : Map PublicKey PublicKey)
      → (result : Blooms × List (PublicKey × BloomFilter)) × (do_maintenance murmur blooms self_key
            self_parent parents transform
          ≡ some result)
  unfolding do_maintenance
  do_maintenance_answers blooms self_parent parents =
      let (fixed, blank) = fix_on_tree self_key self_parent parents blooms in
      let (rest, e) = send_rounds-Knows (on_tree_keys fixed) fixed (on_tree_keys-Knows fixed) in
      ((rest.0, blank ++ rest.1), rw (do_maintenance, e) refl)
