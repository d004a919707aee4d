-- ===== src/Node/Handlers.antt =====
-- crates/ironwood/src/router.rs: lookups, notifications, broken paths and traffic. The handlers call
-- each other in a circle through `route_traffic`, which is therefore on fuel; the others take it as
-- an argument.
use yggdrasil_ng.Prelude.{
  ℕ, zero, suc, List, [], ◌∷◌, Option, none, some, not, if◌then◌else◌, ◌=?◌, nat_eq, replicate,
}
use yggdrasil_ng.Prelude.Bytes.{Bytes, bytes_eq}
use yggdrasil_ng.Wire.Uvarint.{encode_uvarint}
use yggdrasil_ng.Wire.Path.{PeerPort, encode_path}
use yggdrasil_ng.Wire.Message.{PublicKey, PathLookup, PathNotify, PathNotifyInfo, PathBroken}
use yggdrasil_ng.Bloom.Peers.{get_multicast_targets}
use yggdrasil_ng.Traffic.{TrafficPacket}
use yggdrasil_ng.Pathfinder.{OwnPathInfo, sign, content_equal}
use yggdrasil_ng.Pathfinder.Paths.{
  should_throttle_lookup, mark_lookup_sent, learn_path_from_traffic, refresh_if_coords_match,
  get_path, needs_traffic_cache, cache_traffic,
}
use yggdrasil_ng.Pathfinder.Paths
use yggdrasil_ng.Pathfinder.Notify.{accept_notify}
use yggdrasil_ng.Router.{Router}
use yggdrasil_ng.Router.Action
use yggdrasil_ng.Router.Action.{RouterAction}
use yggdrasil_ng.Router.Lookup.{u64_max}
use yggdrasil_ng.Router.Expire.{best_peer_for_key}
use yggdrasil_ng.Node.{
  Node, Outside, Run, self_of, with_pathfinder, cached_coords, next_hop, x_key_of, after_actions,
  then_actions,
}

-- The lookups to the links of the targets.
unfoldable pub multicast : Router → PathLookup → List PublicKey → List RouterAction
multicast r lookup [] = []
multicast r lookup (k ∷ ks) =
    let rest = multicast r lookup ks in
    elim (best_peer_for_key r k) [
      | none ↦ rest
      | some peer_id ↦ Action.send_path_lookup peer_id lookup ∷ rest
    ]

-- Our own coordinates with the time, not signed yet.
unfoldable pub fresh_info : Outside → List PeerPort → OwnPathInfo
fresh_info o path = record { seq = o.unix_secs; path = path; sig = replicate 64 0 }

-- What we stored is used again if nothing changed, else the new one is signed and stored.
unfoldable pub own_info : Outside → OwnPathInfo → List PeerPort → OwnPathInfo
own_info o info path =
    let fresh = fresh_info o path in
    if not (content_equal info fresh) then sign o.crypto_sign fresh else info

unfoldable pub own_notify : Node → OwnPathInfo → PathLookup → PathNotify
own_notify n info lookup = record {
  path = lookup.from;
  watermark = u64_max;
  source = self_of n;
  dest = lookup.source;
  info = record { seq = info.seq; path = info.path; sig = info.sig };
}

-- The bytes that the signature of a notification covers.
unfoldable pub notify_bytes : PathNotifyInfo → Bytes
notify_bytes info = encode_path (encode_uvarint [] info.seq) info.path

-- The packet is for us: it teaches a path back to its source.
unfoldable pub deliver : Outside → Node → TrafficPacket → Run
deliver o n tr =
    let p = learn_path_from_traffic n.pathfinder tr.source tr.from o.now in
    let p = refresh_if_coords_match p tr.source tr.from o.now in
    some
      (with_pathfinder n p, Action.path_notify_callback tr.source ∷ Action.deliver_traffic tr ∷ [])

module _ (o : Outside) (route : Node → TrafficPacket → Run) where
  -- The packet that waited goes out on the new path, from our present coordinates.
  unfoldable pub send_waiting : Node → List PeerPort → Option TrafficPacket → Run
  send_waiting n path none = some (n, [])
  send_waiting n path (some t) =
      let (from, n) = cached_coords n (self_of n) in route n (record t { path = path; from = from })

  -- The rest of `handle_notify_internal`, behind the signature.
  unfoldable pub take_notify : Node → PathNotify → Run
  take_notify n notify =
      let (p, accepted, traffic) =
        accept_notify n.pathfinder notify.source (x_key_of n notify.source) notify.info.seq
          notify.info.path o.now in
      then_actions (send_waiting (with_pathfinder n p) notify.info.path traffic)
        (if accepted then Action.path_notify_callback notify.source ∷ [] else [])

  -- A notification that no peer is closer to.
  unfoldable pub arrived_notify : Node → PathNotify → Run
  arrived_notify n notify =
      if not (notify.dest =? self_of n)
      then some (n, [])
      else if not (o.verify notify.source (notify_bytes notify.info) notify.info.sig)
      then some (n, [])
      else take_notify n notify

  unfoldable pub handle_notify_internal : Node → PathNotify → Run
  handle_notify_internal n notify =
      let (hop, watermark, n) = next_hop n notify.path notify.watermark in
      elim hop [
        | some peer_id ↦
            some (n, Action.send_path_notify peer_id (record notify { watermark = watermark }) ∷ [])
        | none ↦ arrived_notify n notify
      ]

  -- The answer to a lookup for our own key.
  unfoldable pub answer_lookup : Node → PathLookup → Run
  answer_lookup n lookup =
      let (path, n) = cached_coords n (self_of n) in
      let info = own_info o n.pathfinder.info path in
      handle_notify_internal (with_pathfinder n (record n.pathfinder { info = info }))
        (own_notify n info lookup)

  unfoldable pub handle_lookup_internal : Node → PublicKey → PathLookup → Run
  handle_lookup_internal n from_key lookup =
      let targets =
        get_multicast_targets o.murmur n.router.blooms from_key lookup.dest
          n.router.bloom_transform in
      after_actions (multicast n.router lookup targets) (
        if x_key_of n lookup.dest =? x_key_of n (self_of n)
        then answer_lookup n lookup
        else some (n, []))

  -- `do_send_lookup`, behind the throttle.
  unfoldable pub start_lookup : Node → PublicKey → Run
  start_lookup n dest =
      let n = with_pathfinder n (mark_lookup_sent n.pathfinder dest o.now) in
      let (from, n) = cached_coords n (self_of n) in
      handle_lookup_internal n (self_of n) (record { source = self_of n; dest = dest; from = from })

  unfoldable pub do_send_lookup : Node → PublicKey → Run
  do_send_lookup n dest =
      if should_throttle_lookup n.pathfinder dest n.path_throttle o.now
      then some (n, [])
      else start_lookup n dest

  -- A report of a broken path that no peer is closer to.
  unfoldable pub arrived_broken : Node → PathBroken → Run
  arrived_broken n broken =
      if not (broken.source =? self_of n)
      then some (n, [])
      else (let n = with_pathfinder n (Paths.handle_broken n.pathfinder broken.dest) in
          if not (should_throttle_lookup n.pathfinder broken.dest n.path_throttle o.now)
          then do_send_lookup n broken.dest
          else some (n, []))

  unfoldable pub handle_broken_internal : Node → PathBroken → Run
  handle_broken_internal n broken =
      let (hop, watermark, n) = next_hop n broken.path broken.watermark in
      elim hop [
        | some peer_id ↦
            some (n, Action.send_path_broken peer_id (record broken { watermark = watermark }) ∷ [])
        | none ↦ arrived_broken n broken
      ]

  unfoldable pub do_broken : Node → TrafficPacket → Run
  do_broken n tr =
      handle_broken_internal n
        (record { path = tr.from; watermark = u64_max; source = tr.source; dest = tr.dest })

  -- `route_traffic`, with the calls of itself that the circle makes.
  unfoldable pub route_step : Node → TrafficPacket → Run
  route_step n tr =
      let (hop, watermark, n) = next_hop n tr.path tr.watermark in
      elim hop [
        | some peer_id ↦
            some (n, Action.send_traffic peer_id (record tr { watermark = watermark }) ∷ [])
        | none ↦ if tr.dest =? self_of n then deliver o n tr else do_broken n tr
      ]

unfoldable pub route_traffic : ℕ → Outside → Node → TrafficPacket → Run
route_traffic zero o n tr = none
route_traffic (suc fuel) o n tr = route_step o (route_traffic fuel o) n tr

-- Two rounds of the circle: the second time, our own notification is not accepted again.
abbrev pub route_fuel : ℕ
route_fuel = 2

abbrev pub route : Outside → Node → TrafficPacket → Run
route o = route_traffic route_fuel o
