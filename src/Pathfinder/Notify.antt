-- ===== src/Pathfinder/Notify.antt =====
-- crates/ironwood/src/pathfinder.rs: what a node does with a path notification.
use yggdrasil_ng.Prelude.{
  ℕ, List, Option, none, some, Bool, true, false, ◌&&◌, not, leb, if◌then◌else◌, ◌=?◌, nat_eq,
}
use yggdrasil_ng.Prelude.Bytes.{bytes_eq}
use yggdrasil_ng.Prelude.Map.{get, insert, modify, contains_key}
use yggdrasil_ng.Wire.Path.{PeerPort}
use yggdrasil_ng.Wire.Message.{PublicKey}
use yggdrasil_ng.Traffic.{TrafficPacket}
use yggdrasil_ng.Pathfinder.{PathInfo, PathRumor, Pathfinder, found_path}

-- What `accept_notify` stores in a known path.
unfoldable pub renewed : PathInfo → ℕ → List PeerPort → ℕ → PathInfo
renewed info notify_seq notify_path now = record info {
  path = notify_path;
  seq = notify_seq;
  broken = false;
  last_refresh = now;
  cached_traffic = none;
}

-- `t.dest == source`, on the packet of a rumor.
unfoldable pub waits_for : PublicKey → PathRumor → Bool
waits_for source rumor = elim rumor.traffic [ none ↦ false | some t ↦ t.dest =? source ]

-- `rumor.traffic.take()` under the test.
unfoldable pub take_traffic : PublicKey → PathRumor → PathRumor
take_traffic source rumor =
    if waits_for source rumor then record rumor { traffic = none } else rumor

unfoldable pub traffic_for : PublicKey → Option PathRumor → Option TrafficPacket
traffic_for source none = none
traffic_for source (some rumor) = if waits_for source rumor then rumor.traffic else none

unfoldable pub accept_known :
    Pathfinder
    → PublicKey
    → PathInfo
    → ℕ
    → List PeerPort
    → ℕ
    → Pathfinder × Bool × Option TrafficPacket
accept_known p source info notify_seq notify_path now =
    if leb notify_seq info.seq
    then (p, false, none)
    else if not info.broken && info.path =? notify_path
    then (p, false, none)
    else (
      record p { paths = insert p.paths source (renewed info notify_seq notify_path now) },
      true,
      info.cached_traffic,
    )

unfoldable pub accept_new :
    Pathfinder
    → PublicKey
    → PublicKey
    → ℕ
    → List PeerPort
    → ℕ
    → Pathfinder × Bool × Option TrafficPacket
accept_new p source xformed_source notify_seq notify_path now =
    if not (contains_key p.rumors xformed_source) then (p, false, none) else (
      record p {
        paths = insert p.paths source (found_path notify_seq notify_path now);
        rumors = modify p.rumors xformed_source (take_traffic source);
      },
      true,
      traffic_for source (get p.rumors xformed_source),
    )

unfoldable pub accept_notify :
    Pathfinder
    → PublicKey
    → PublicKey
    → ℕ
    → List PeerPort
    → ℕ
    → Pathfinder × Bool × Option TrafficPacket
accept_notify p source xformed_source notify_seq notify_path now = elim (get p.paths source) [
  | some info ↦ accept_known p source info notify_seq notify_path now
  | none ↦ accept_new p source xformed_source notify_seq notify_path now
]
