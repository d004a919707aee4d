-- ===== src/Bloom/Reach.antt =====
-- crates/ironwood/src/bloom.rs: filters that travel over several nodes, each built by
-- `get_bloom_for` of one node and received by the next.
use yggdrasil_ng.Prelude.{ℕ, ◌≡◌, some, Bool, true, false, ◌=?◌}
use mathlib.Core.List.{Memᴰ}
use yggdrasil_ng.Prelude.Bytes.{Bytes, bytes_eq}
use yggdrasil_ng.Prelude.Map.{Distinct, get}
use yggdrasil_ng.Wire.Message.{PublicKey}
use yggdrasil_ng.Bloom.{BloomFilter, test}
use yggdrasil_ng.Bloom.Peers.{
  BloomInfo, Blooms, Transform, x_key, get_bloom_for, get_multicast_targets,
}
use yggdrasil_ng.Bloom.Cover.{IsValid}
use yggdrasil_ng.Bloom.Send.{get_bloom_for-x_key, get_bloom_for-recv}
use yggdrasil_ng.Bloom.Multicast.{get_multicast_targets_iff}

-- The filters that stem from the node `dest`: one it answers for a peer, and one that a node
-- answers which has such a filter from another peer on the tree.
pub data Advertised (murmur : Bytes → ℕ) (transform : Transform) (dest : PublicKey)
    : BloomFilter → Type 0 where
  own :
      (blooms : Blooms) (key : PublicKey) (keep : Bool) (r : Blooms × BloomFilter × Bool)
      → IsValid blooms
      → get_bloom_for murmur blooms key dest keep transform ≡ some r
      → Advertised murmur transform dest r.1
  relay :
      (blooms : Blooms) (key our_key k : PublicKey) (info : BloomInfo) (keep : Bool)
      (r : Blooms × BloomFilter × Bool)
      → IsValid blooms
      → get blooms k ≡ some info
      → info.on_tree ≡ true
      → (k =? key) ≡ false
      → Advertised murmur transform dest info.recv
      → get_bloom_for murmur blooms key our_key keep transform ≡ some r
      → Advertised murmur transform dest r.1

module _ (murmur : Bytes → ℕ) (transform : Transform) (dest : PublicKey) where
  test-Advertised :
      (f : BloomFilter)
      → Advertised murmur transform dest f
      → test murmur f (x_key dest transform) ≡ true
  test-Advertised f (own blooms key keep r v h) =
      get_bloom_for-x_key murmur blooms key dest keep transform r v h
  test-Advertised f (relay blooms key our_key k info keep r v g t d a h) =
      get_bloom_for-recv murmur blooms key our_key keep transform r v h (x_key dest transform) k
        info g t d (test-Advertised info.recv a)

  -- Where filters have 128 words and a key has one entry: if a peer on the tree has sent a filter
  -- that stems from a node over any chain of nodes that each built its filter with get_bloom_for
  -- from one received over the tree, then the peer is among the targets of a lookup for that node,
  -- unless the lookup came from this peer.
  pub get_multicast_targets-Advertised :
      (blooms : Blooms) (from_key k : PublicKey) (info : BloomInfo)
      → Distinct blooms
      → get blooms k ≡ some info
      → info.on_tree ≡ true
      → (k =? from_key) ≡ false
      → Advertised murmur transform dest info.recv
      → Memᴰ k (get_multicast_targets murmur blooms from_key dest transform)
  get_multicast_targets-Advertised blooms from_key k info d g t f a =
      (get_multicast_targets_iff murmur from_key dest transform blooms k d).1
        (info, g, t, f, test-Advertised info.recv a)
