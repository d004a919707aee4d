-- ===== src/Node/Entry.antt =====
-- crates/ironwood/src/router.rs: the operations on traffic and paths that the network layer calls.
use yggdrasil_ng.Prelude.{List, [], ◌∷◌, none, some, not, ◌==◌, if◌then◌else◌, nat_eq, length}
use yggdrasil_ng.Prelude.Bytes.{bytes_eq}
use yggdrasil_ng.Prelude.Map.{contains_key, modify}
use yggdrasil_ng.Wire.Path.{PeerPort}
use yggdrasil_ng.Wire.Message.{PublicKey, PathLookup, PathNotify, PathBroken}
use yggdrasil_ng.Bloom.Peers.{is_on_tree}
use yggdrasil_ng.Traffic.{TrafficPacket}
use yggdrasil_ng.Pathfinder.Rumors.{
  should_throttle_rumor, ensure_rumor, mark_rumor_sent, cache_rumor_traffic,
  cache_rumor_traffic_if_absent,
}
use yggdrasil_ng.Pathfinder.Paths.{get_path, needs_traffic_cache, cache_traffic}
use yggdrasil_ng.Router.{PeerId}
use yggdrasil_ng.Router.Action
use yggdrasil_ng.Router.Action.{RouterAction}
use yggdrasil_ng.Router.Expire.{best_peer_for_key}
use yggdrasil_ng.Node.{Node, Outside, Run, self_of, with_pathfinder, cached_coords, x_key_of}
use yggdrasil_ng.Node.Handlers.{
  handle_notify_internal, handle_lookup_internal, do_send_lookup, handle_broken_internal, route,
}

unfoldable pub handle_traffic : Outside → Node → TrafficPacket → Run
handle_traffic o n tr = route o n tr

-- The lookup for a packet that waits in the rumor of `xform`.
unfoldable pub send_rumor : Outside → Node → PublicKey → PublicKey → Run
send_rumor o n xform dest =
    let p = n.pathfinder in
    if not (should_throttle_rumor p xform n.path_throttle o.now)
    then do_send_lookup o (route o) (with_pathfinder n (mark_rumor_sent p xform o.now)) dest
    else some (n, [])

-- Without a path, the packet waits and a lookup goes out.
unfoldable pub wait_for_path : Outside → Node → TrafficPacket → Run
wait_for_path o n tr =
    let xform = x_key_of n tr.dest in
    let (p, created) = ensure_rumor n.pathfinder xform o.now in
    let p =
      if tr.keepalive
      then cache_rumor_traffic_if_absent p xform tr
      else cache_rumor_traffic p xform tr in
    send_rumor o (with_pathfinder n p) xform tr.dest

-- A packet on a known path, kept in case the path changes.
unfoldable pub send_on_path : Outside → Node → List PeerPort → TrafficPacket → Run
send_on_path o n path tr =
    let (from, n) = cached_coords n (self_of n) in
    let tr = record tr { path = path; from = from } in
    let p =
      if needs_traffic_cache n.pathfinder tr.dest
      then cache_traffic n.pathfinder tr.dest tr
      else n.pathfinder in
    route o (with_pathfinder n p) tr

unfoldable pub send_far : Outside → Node → TrafficPacket → Run
send_far o n tr = elim (get_path n.pathfinder tr.dest) [
  | some path ↦ send_on_path o n path tr
  | none ↦ wait_for_path o n tr
]

-- The shortcut to a direct peer.
unfoldable pub send_near : Node → PeerId → TrafficPacket → Run
send_near n peer_id tr =
    let (path, n) = cached_coords n tr.dest in
    let (from, n) = cached_coords n (self_of n) in
    some
      (n, Action.send_traffic peer_id (record tr { path = path; from = from; watermark = 0 }) ∷ [])

unfoldable pub send_traffic : Outside → Node → TrafficPacket → Run
send_traffic o n tr =
    if length tr.payload == 0 then send_far o n tr else elim (best_peer_for_key n.router tr.dest) [
      | some peer_id ↦ send_near n peer_id tr
      | none ↦ send_far o n tr
    ]

unfoldable pub force_lookup : Outside → Node → PublicKey → Run
force_lookup o n dest =
    let xform = x_key_of n dest in
    let p =
      if contains_key n.pathfinder.rumors xform
      then (record n.pathfinder {
        rumors = modify n.pathfinder.rumors xform (λ rumor. record rumor { send_time = none });
      })
      else (ensure_rumor n.pathfinder xform o.now).0 in
    do_send_lookup o (route o) (with_pathfinder n p) dest

unfoldable pub handle_lookup : Outside → Node → PublicKey → PathLookup → Run
handle_lookup o n peer_key lookup =
    if not (is_on_tree n.router.blooms peer_key)
    then some (n, [])
    else handle_lookup_internal o (route o) n peer_key lookup

unfoldable pub handle_notify : Outside → Node → PublicKey → PathNotify → Run
handle_notify o n peer_key notify = handle_notify_internal o (route o) n notify

unfoldable pub handle_broken : Outside → Node → PathBroken → Run
handle_broken o n broken = handle_broken_internal o (route o) n broken
