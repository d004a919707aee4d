-- ===== src/Pathfinder/Paths.antt =====
-- crates/ironwood/src/pathfinder.rs: the operations on the known paths.
use yggdrasil_ng.Prelude.{
  ℕ, List, Option, none, some, Bool, true, false, ◌&&◌, not, if◌then◌else◌, ◌=?◌, nat_eq,
}
use yggdrasil_ng.Prelude.Bytes.{bytes_eq}
use yggdrasil_ng.Prelude.Map.{get, insert, modify, contains_key}
use yggdrasil_ng.Wire.Path.{PeerPort}
use yggdrasil_ng.Wire.Message.{PublicKey}
use yggdrasil_ng.Traffic.{TrafficPacket}
use yggdrasil_ng.Pathfinder.{PathInfo, Pathfinder, elapsed_less, found_path}

unfoldable pub should_throttle_lookup : Pathfinder → PublicKey → ℕ → ℕ → Bool
should_throttle_lookup p dest throttle now = elim (get p.paths dest) [
  | some info ↦ elapsed_less now info.req_time throttle
  | none ↦ false
]

unfoldable pub mark_lookup_sent : Pathfinder → PublicKey → ℕ → Pathfinder
mark_lookup_sent p dest now = record p {
  paths = modify p.paths dest (λ info. record info { req_time = now });
}

unfoldable pub handle_broken : Pathfinder → PublicKey → Pathfinder
handle_broken p dest = record p {
  paths = modify p.paths dest (λ info. record info { broken = true });
}

unfoldable pub learn_path_from_traffic : Pathfinder → PublicKey → List PeerPort → ℕ → Pathfinder
learn_path_from_traffic p source path now =
    if contains_key p.paths source
    then p
    else record p { paths = insert p.paths source (found_path 0 path now) }

-- `reset_timeout`, on an entry.
unfoldable pub refreshed : ℕ → PathInfo → PathInfo
refreshed now info = if not info.broken then record info { last_refresh = now } else info

unfoldable pub reset_timeout : Pathfinder → PublicKey → ℕ → Pathfinder
reset_timeout p key now = record p { paths = modify p.paths key (refreshed now) }

-- `is_some_and(|info| !info.broken && info.path.as_slice() == from)`
unfoldable pub coords_match : List PeerPort → Option PathInfo → Bool
coords_match from none = false
coords_match from (some info) = not info.broken && info.path =? from

unfoldable pub refresh_if_coords_match : Pathfinder → PublicKey → List PeerPort → ℕ → Pathfinder
refresh_if_coords_match p key from now =
    if coords_match from (get p.paths key) then reset_timeout p key now else p

-- `filter(|info| !info.broken).map(|info| info.path.as_slice())`
unfoldable pub live_path : Option PathInfo → Option (List PeerPort)
live_path none = none
live_path (some info) = if not info.broken then some info.path else none

unfoldable pub get_path : Pathfinder → PublicKey → Option (List PeerPort)
get_path p dest = live_path (get p.paths dest)

unfoldable pub needs_traffic_cache : Pathfinder → PublicKey → Bool
needs_traffic_cache p dest = elim (get p.paths dest) [
  | none ↦ false
  | some info ↦ elim info.cached_traffic [ none ↦ true | some t ↦ false ]
]

unfoldable pub cache_traffic : Pathfinder → PublicKey → TrafficPacket → Pathfinder
cache_traffic p dest traffic = record p {
  paths = modify p.paths dest (λ info. record info { cached_traffic = some traffic });
}
