-- ===== src/Tests/Bloom.antt =====
-- crates/ironwood/src/bloom.rs: the theorems at two nodes and a small hash.
use yggdrasil_ng.Prelude.{
  ℕ, ◌+◌, ◌*◌, ◌≡◌, ◌↔◌, refl, List, [], ◌∷◌, none, some, Bool, true, false, ◌=?◌,
}
use mathlib.Core.List.{Memᴰ}
use yggdrasil_ng.Prelude.Bytes.{Bytes, bytes_eq, bytes_beq}
use yggdrasil_ng.Prelude.Map.{Distinct, get}
use yggdrasil_ng.Wire.Message.{PublicKey}
use yggdrasil_ng.Bloom.{BloomFilter, new_filter}
use yggdrasil_ng.Bloom.Filter.{new_filter-IsFilter}
use yggdrasil_ng.Bloom.Peers.{
  BloomInfo, Blooms, new_info, get_send_bloom, get_bloom_for, get_multicast_targets, do_maintenance,
}
use yggdrasil_ng.Bloom.Cover.{IsValid}
use yggdrasil_ng.Bloom.Send.{get_bloom_for_stored}
use yggdrasil_ng.Bloom.Multicast.{IsTarget, get_multicast_targets_iff}
use yggdrasil_ng.Bloom.Reach.{Advertised, own, get_multicast_targets-Advertised}
use yggdrasil_ng.Bloom.Maintenance.{do_maintenance_total}
use yggdrasil_ng.Tests.{key_a, key_b}

abbrev small_hash : Bytes → ℕ
small_hash [] = 5
small_hash (b ∷ bs) = b + 31 * small_hash bs

abbrev one_peer : Blooms
one_peer = (key_b, new_info) ∷ []

one_peer-IsValid : IsValid one_peer
one_peer-IsValid = unfold new_info in ((new_filter-IsFilter, new_filter-IsFilter), tt)

one_peer-get : get one_peer key_b ≡ some new_info
unfolding get bytes_beq
one_peer-get = refl

made_by_a :
    (r : Blooms × BloomFilter × Bool) × (get_bloom_for small_hash one_peer key_b key_a true none
      ≡ some r)
    × (get_send_bloom r.0 key_b ≡ some r.1)
    × IsValid r.0
made_by_a =
    get_bloom_for_stored small_hash one_peer key_b key_a true none new_info one_peer-IsValid
      one_peer-get

-- The filter of node a as node b holds it.
abbrev filter_of_a : BloomFilter
filter_of_a = made_by_a.0.1

abbrev info_of_a : BloomInfo
info_of_a = record {
  send = new_filter;
  recv = filter_of_a;
  seq = 0;
  on_tree = true;
  z_dirty = false;
}

abbrev at_b : Blooms
at_b = (key_a, info_of_a) ∷ []

at_b-get : get at_b key_a ≡ some info_of_a
unfolding get bytes_beq
at_b-get = refl

at_b-Distinct : Distinct at_b
unfolding get
at_b-Distinct = (refl, tt)

keys_differ : (key_a =? key_b) ≡ false
unfolding bytes_beq
keys_differ = refl

get_multicast_targets_iff_example :
    Memᴰ key_a (get_multicast_targets small_hash at_b key_b key_a none)
    ↔ IsTarget small_hash key_b key_a none at_b key_a
get_multicast_targets_iff_example =
    get_multicast_targets_iff small_hash key_b key_a none at_b key_a at_b-Distinct

filter_of_a-Advertised : Advertised small_hash none key_a filter_of_a
filter_of_a-Advertised = own one_peer key_b true made_by_a.0 one_peer-IsValid made_by_a.1

get_multicast_targets-Advertised_example :
    Memᴰ key_a (get_multicast_targets small_hash at_b key_b key_a none)
get_multicast_targets-Advertised_example =
    get_multicast_targets-Advertised small_hash none key_a at_b key_b key_a info_of_a at_b-Distinct
      at_b-get refl keys_differ filter_of_a-Advertised

do_maintenance_total_example :
    (r : Blooms × List (PublicKey × BloomFilter)) × (do_maintenance small_hash one_peer key_a key_b
        [] none
      ≡ some r)
    × IsValid r.0
do_maintenance_total_example =
    do_maintenance_total small_hash none key_a one_peer key_b [] one_peer-IsValid
