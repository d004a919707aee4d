-- ===== src/Bloom/Peers.antt =====
-- crates/ironwood/src/bloom.rs: `Blooms`, the filters of all peers.
use yggdrasil_ng.Prelude.{
  ℕ, ◌+◌, List, [], ◌∷◌, ◌++◌, Option, none, some, Bool, true, false, ◌&&◌, ◌||◌, not, ltb,
  if◌then◌else◌, ◌=?◌,
}
use mathlib.Core.Option
use yggdrasil_ng.Prelude.Bytes.{Bytes, bytes_eq}
use yggdrasil_ng.Prelude.Map.{Map, get, insert, remove, modify, contains_key}
use yggdrasil_ng.Wire.Message.{PublicKey}
use yggdrasil_ng.Bloom.{BloomFilter, new_filter, merge, filter_equal, add, test}

pub record BloomInfo : Type 0 where
  pub send : BloomFilter
  pub recv : BloomFilter
  pub seq : ℕ
  pub on_tree : Bool
  pub z_dirty : Bool

-- `BloomInfo::new`
unfoldable pub new_info : BloomInfo
new_info = record {
  send = new_filter;
  recv = new_filter;
  seq = 0;
  on_tree = false;
  z_dirty = false;
}

abbrev pub Blooms : Type 0
Blooms = Map PublicKey BloomInfo

abbrev pub Transform : Type 0
Transform = Option (PublicKey → PublicKey)

unfoldable pub is_on_tree : Blooms → PublicKey → Bool
is_on_tree blooms key = elim (get blooms key) [ none ↦ false | some info ↦ info.on_tree ]

unfoldable pub x_key : PublicKey → Transform → PublicKey
x_key key none = key
x_key key (some f) = f key

unfoldable pub add_info : Blooms → PublicKey → Blooms
add_info blooms key = if contains_key blooms key then blooms else insert blooms key new_info

unfoldable pub remove_info : Blooms → PublicKey → Blooms
remove_info blooms key = remove blooms key

unfoldable pub handle_bloom : Blooms → PublicKey → BloomFilter → Blooms
handle_bloom blooms peer_key filter = modify blooms peer_key (λ info. record info { recv = filter })

unfoldable pub get_send_bloom : Blooms → PublicKey → Option BloomFilter
get_send_bloom blooms key = Option.map (λ info. info.send) (get blooms key)

-- Whether the peer is our parent or our child.
unfoldable pub is_near : PublicKey → PublicKey → Map PublicKey PublicKey → PublicKey → Bool
is_near self_key self_parent parents pk =
    if self_parent =? pk
    then true
    else elim (get parents pk) [ none ↦ false | some parent ↦ parent =? self_key ]

-- `fix_on_tree`, for one peer.
unfoldable pub fix_info : Bool → BloomInfo → BloomInfo
fix_info near info =
    if info.on_tree && not near
    then record info { on_tree = near; send = new_filter }
    else record info { on_tree = near }

-- The new states and the blank filters to send.
unfoldable pub fix_on_tree :
    PublicKey
    → PublicKey
    → Map PublicKey PublicKey
    → Blooms
    → Blooms × List (PublicKey × BloomFilter)
fix_on_tree self_key self_parent parents [] = ([], [])
fix_on_tree self_key self_parent parents ((pk, info) ∷ blooms) =
    let near = is_near self_key self_parent parents pk in
    let (rest, to_send) = fix_on_tree self_key self_parent parents blooms in
    (
      (pk, fix_info near info) ∷ rest,
      if info.on_tree && not near then (pk, new_filter) ∷ to_send else to_send,
    )

-- The filters received from the peers on the tree other than `key`.
unfoldable pub recv_filters : Blooms → PublicKey → List BloomFilter
recv_filters [] key = []
recv_filters ((k, info) ∷ blooms) key =
    let rest = recv_filters blooms key in
    if info.on_tree && not (k =? key) then info.recv ∷ rest else rest

unfoldable pub merge_all : BloomFilter → List BloomFilter → BloomFilter
merge_all b [] = b
merge_all b (f ∷ fs) = merge_all (merge b f) fs

-- With `keep_ones` the filter keeps what was sent before.
unfoldable pub kept_ones : BloomFilter → BloomInfo → Bool → BloomFilter
kept_ones b info keep_ones = if keep_ones then merge b info.send else b

unfoldable pub new_dirty : BloomFilter → BloomInfo → Bool → Bool
new_dirty b info keep_ones =
    if keep_ones
    then (if not info.z_dirty then not (filter_equal (merge b info.send) b) else info.z_dirty)
    else false

-- The state of the peer that gets the filter, and the answer.
unfoldable pub store_bloom : BloomFilter → BloomInfo → Bool → BloomInfo × BloomFilter × Bool
store_bloom b info keep_ones =
    let sent = kept_ones b info keep_ones in
    let is_new = not (filter_equal sent info.send) in
    (
      record info {
        z_dirty = new_dirty b info keep_ones;
        send = if is_new then sent else info.send;
      },
      sent,
      is_new,
    )

unfoldable pub on_tree_keys : Blooms → List PublicKey
on_tree_keys [] = []
on_tree_keys ((k, info) ∷ blooms) =
    let rest = on_tree_keys blooms in if info.on_tree then k ∷ rest else rest

module _ (murmur : Bytes → ℕ) where
  -- Our own key and what the other peers on the tree sent.
  unfoldable pub collected : Blooms → PublicKey → PublicKey → Transform → BloomFilter
  collected blooms key our_key transform =
      merge_all (add murmur new_filter (x_key our_key transform)) (recv_filters blooms key)

  -- None is the panic of `expect`.
  unfoldable pub get_bloom_for :
      Blooms → PublicKey → PublicKey → Bool → Transform → Option (Blooms × BloomFilter × Bool)
  get_bloom_for blooms key our_key keep_ones transform = elim (get blooms key) [
    | none ↦ none
    | some info ↦
        let (info', b, is_new) =
          store_bloom (collected blooms key our_key transform) info keep_ones in
        some (insert blooms key info', b, is_new)
  ]

  unfoldable pub get_multicast_targets : Blooms → PublicKey → PublicKey → Transform → List PublicKey
  get_multicast_targets [] from_key to_key transform = []
  get_multicast_targets ((k, info) ∷ blooms) from_key to_key transform =
      let rest = get_multicast_targets blooms from_key to_key transform in
      if not info.on_tree
      then rest
      else if k =? from_key
      then rest
      else if not (test murmur info.recv (x_key to_key transform))
      then rest
      else k ∷ rest

  -- `self.blooms.values().filter(..).count()`
  unfoldable pub count_on_tree_targets_for_xkey : Blooms → PublicKey → ℕ
  count_on_tree_targets_for_xkey [] xkey = 0
  count_on_tree_targets_for_xkey ((k, info) ∷ blooms) xkey =
      let rest = count_on_tree_targets_for_xkey blooms xkey in
      if info.on_tree && test murmur info.recv xkey then rest + 1 else rest

  -- The round for one peer: its filter goes out if it is new, or again after an hour.
  unfoldable pub send_round :
      Blooms → PublicKey → PublicKey → Transform → Option (Blooms × List (PublicKey × BloomFilter))
  send_round blooms k self_key transform = elim (get blooms k) [
    | none ↦ none
    | some info ↦ elim (get_bloom_for blooms k self_key (not info.z_dirty) transform) [
      | none ↦ none
      | some (blooms', bloom, is_new) ↦
          if is_new || not (ltb (info.seq + 1) 3600)
          then some (modify blooms' k (λ i. record i { seq = 0 }), (k, bloom) ∷ [])
          else some (modify blooms' k (λ i. record i { seq = info.seq + 1 }), [])
    ]
  ]

  unfoldable pub send_rounds :
      Blooms
      → List PublicKey
      → PublicKey
      → Transform
      → Option (Blooms × List (PublicKey × BloomFilter))
  send_rounds blooms [] self_key transform = some (blooms, [])
  send_rounds blooms (k ∷ ks) self_key transform = elim (send_round blooms k self_key transform) [
    | none ↦ none
    | some (blooms', sent) ↦ elim (send_rounds blooms' ks self_key transform) [
      | none ↦ none
      | some (blooms'', more) ↦ some (blooms'', sent ++ more)
    ]
  ]

  unfoldable pub do_maintenance :
      Blooms
      → PublicKey
      → PublicKey
      → Map PublicKey PublicKey
      → Transform
      → Option (Blooms × List (PublicKey × BloomFilter))
  do_maintenance blooms self_key self_parent parents transform =
      let (fixed, blank) = fix_on_tree self_key self_parent parents blooms in
      elim (send_rounds fixed (on_tree_keys fixed) self_key transform) [
        | none ↦ none
        | some (blooms', sent) ↦ some (blooms', blank ++ sent)
      ]
