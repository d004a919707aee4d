-- ===== src/Node/Arrival.antt =====
-- crates/ironwood/src/router.rs: a waiting packet goes out on the path that a notification brings.
use yggdrasil_ng.Prelude.{
  ℕ, ◌≡◌, refl, sym, ap, ◌∙◌, List, [], ◌∷◌, none, some, true, false, ◌=?◌, nat_eq,
}
use yggdrasil_ng.Prelude.Bytes.{bytes_eq, bytes_beq_iff}
use yggdrasil_ng.Prelude.Map.{get, contains_key, get-insert}
use yggdrasil_ng.Wire.Path.{PeerPort}
use yggdrasil_ng.Wire.Message.{PublicKey, PathNotify}
use yggdrasil_ng.Traffic.{TrafficPacket}
use yggdrasil_ng.Pathfinder.{PathRumor, Pathfinder, found_path}
use yggdrasil_ng.Pathfinder.Paths.{get_path, live_path}
use yggdrasil_ng.Pathfinder.Notify.{accept_notify, accept_new, waits_for, traffic_for}
use yggdrasil_ng.Router.Action
use yggdrasil_ng.Router.Action.{RouterAction}
use yggdrasil_ng.Router.Expire.{best_peer_for_key}
use yggdrasil_ng.Node.{
  Node, Outside, Run, self_of, with_pathfinder, cached_coords, next_hop, x_key_of, then_actions,
}
use yggdrasil_ng.Node.Enough.{next_hop-self_of}
use yggdrasil_ng.Node.Handlers.{
  notify_bytes, arrived_notify, take_notify, handle_notify_internal, send_waiting, route,
}
use yggdrasil_ng.Node.Entry.{send_traffic, handle_notify}
use yggdrasil_ng.Node.Frame.{HasTrueCache, frame_of, next_hop-Kept}
use yggdrasil_ng.Node.Events.{handle-Fine, handle, sent}
use yggdrasil_ng.Router.Lookup.{path_of}
use yggdrasil_ng.Router.Lookup.Cache.{cached_root_and_path-IsCacheOf}
use yggdrasil_ng.Node.Waiting.{Waits, Stored, send_traffic-Waits}
use mathlib.Core.Path.{subst}
use yggdrasil_ng.Bloom.Peers.{x_key}

waits_for-Stored :
    (rumor : PathRumor) (packet : TrafficPacket)
    → rumor.traffic ≡ some packet
    → waits_for packet.dest rumor ≡ true
unfolding waits_for
waits_for-Stored rumor packet holds =
    rw (waits_for, holds) ((bytes_beq_iff packet.dest packet.dest).1 refl)

accept_notify-Stored :
    (p : Pathfinder) (packet : TrafficPacket) (key : PublicKey) (seq : ℕ) (path : List PeerPort)
    (now : ℕ)
    → get p.paths packet.dest ≡ none
    → Stored p key packet
    → let r = accept_notify p packet.dest key seq path now in
      (r.1 ≡ true) × (r.2 ≡ some packet) × (get_path r.0 packet.dest ≡ some path)
unfolding accept_notify accept_new contains_key traffic_for get_path live_path found_path
accept_notify-Stored p packet key seq path now empty (rumor, at, holds) =
    let known : contains_key p.rumors key ≡ true = rw (contains_key, at) refl in
    let waits = waits_for-Stored rumor packet holds in
    let traffic : traffic_for packet.dest (get p.rumors key) ≡ some packet = rw (at, waits) holds in
    rw (accept_notify, empty, known)
      (
        refl,
        traffic,
        rw
            (
              get-insert p.paths packet.dest packet.dest (found_path seq path now),
              (bytes_beq_iff packet.dest packet.dest).1 refl,
            )
            refl,
      )

module _ (o : Outside) (n : Node) (packet : TrafficPacket) (m : PathNotify) where
  -- The node after the notification, before the packet goes out.
  abbrev pub found : Node
  found =
      with_pathfinder n
        (accept_notify n.pathfinder m.source (x_key_of n m.source) m.info.seq m.info.path o.now).0

  take_notify-Waits :
      (r : Node → TrafficPacket → Run)
      → Waits n packet
      → m.source ≡ packet.dest
      → (take_notify o r n m
          ≡ then_actions
              (send_waiting o r found m.info.path (some packet))
              (Action.path_notify_callback m.source ∷ []))
        × (get_path found.pathfinder packet.dest ≡ some m.info.path)
  unfolding take_notify
  take_notify-Waits r waits same =
      let (accepted, traffic, path) =
        accept_notify-Stored n.pathfinder packet (x_key_of n packet.dest) m.info.seq m.info.path
          o.now waits.no_path (waits.rumor, waits.stored, waits.holds) in
      rw (take_notify, same, accepted, traffic) (refl, path)

-- The coordinates that the tree gives to the node.
abbrev pub own_coords : Node → List PeerPort
own_coords n = (path_of n.router.infos (self_of n)).path

pub cached_coords-own_coords :
    (n : Node) → HasTrueCache n → (cached_coords n (self_of n)).0 ≡ own_coords n
unfolding cached_coords
cached_coords-own_coords n true_ =
    ap (λ p. p.path)
      (cached_root_and_path-IsCacheOf n.router.infos n.router.cache (self_of n) true_).0

-- The node has the path, is otherwise the same, and the packet is routed on the path.
abbrev pub GoesOut : Outside → Node → TrafficPacket → PathNotify → Run → Type 0
GoesOut o n packet m run =
    (at : Node) × (frame_of at ≡ frame_of n)
    × (get_path at.pathfinder packet.dest ≡ some m.info.path)
    × (run
        ≡ then_actions (route o at (record packet { path = m.info.path; from = own_coords n }))
            (Action.path_notify_callback m.source ∷ []))

take_notify-GoesOut :
    (o : Outside) (n : Node) (packet : TrafficPacket) (m : PathNotify)
    → Waits n packet
    → HasTrueCache n
    → m.source ≡ packet.dest
    → GoesOut o n packet m (take_notify o (route o) n m)
unfolding send_waiting cached_coords
take_notify-GoesOut o n packet m waits true_ same =
    let (run, path) = take_notify-Waits o n packet m (route o) waits same in
    let n' = found o n packet m in
    ((cached_coords n' (self_of n')).1, refl, path, rw (← cached_coords-own_coords n true_) run)

-- What waits, and where the packet goes out, depends on the frame and the pathfinder only.
frame-Waits :
    (n n' : Node) (packet : TrafficPacket)
    → frame_of n' ≡ frame_of n
    → n'.pathfinder ≡ n.pathfinder
    → Waits n packet
    → Waits n' packet
frame-Waits n n' packet frame same waits =
    let key : x_key_of n' packet.dest ≡ x_key_of n packet.dest =
      ap (λ f. x_key packet.dest f.0.bloom_transform) frame in
    record {
      no_path = rw same waits.no_path;
      rumor = waits.rumor;
      stored = rw (same, key) waits.stored;
      holds = waits.holds;
    }

frame-GoesOut :
    (o : Outside) (n n' : Node) (packet : TrafficPacket) (m : PathNotify) (run : Run)
    → frame_of n' ≡ frame_of n
    → GoesOut o n' packet m run
    → GoesOut o n packet m run
frame-GoesOut o n n' packet m run frame (at, same, path, e) =
    let coords : own_coords n ≡ own_coords n' =
      sym (ap (λ f. (path_of f.0.infos f.0.self_key).path) frame) in
    (at, same ∙ frame, path, rw coords e)

node_of : Node → Run → Node
node_of n none = n
node_of n (some (n', actions)) = n'

some-node :
    {run : Run} {n n' : Node} {a a' : List RouterAction}
    → run ≡ some (n, a)
    → run ≡ some (n', a')
    → n ≡ n'
unfolding node_of
some-node {n = n} e e' = ap (node_of n) (sym e ∙ e')

-- A notification for us, properly signed by the destination of a waiting packet, gives us the path
-- and the packet goes out on it.
pub handle_notify-GoesOut :
    (o : Outside) (n : Node) (packet : TrafficPacket) (m : PathNotify) (peer_key : PublicKey)
    → Waits n packet
    → HasTrueCache n
    → m.source ≡ packet.dest
    → m.dest ≡ self_of n
    → o.verify m.source (notify_bytes m.info) m.info.sig ≡ true
    → (next_hop n m.path m.watermark).0 ≡ none
    → GoesOut o n packet m (handle_notify o n peer_key m)
unfolding handle_notify handle_notify_internal arrived_notify next_hop
handle_notify-GoesOut o n packet m peer_key waits true_ same mine signed stop =
    let n' = (next_hop n m.path m.watermark).2 in
    let (frame, kept) = next_hop-Kept n m.path m.watermark in
    let here : (m.dest =? self_of n') ≡ true =
      (bytes_beq_iff m.dest _).1 (mine ∙ sym (next_hop-self_of n m.path m.watermark)) in
    rw (handle_notify_internal, stop, arrived_notify, here, signed)
      (frame-GoesOut o n n' packet m _ frame (
        take_notify-GoesOut o n' packet m (frame-Waits n n' packet frame refl waits) (kept true_)
          same))

-- The same from the start: a packet for another node that is no direct peer and to which no path is
-- known is sent, and then a notification from that node arrives.
pub send_traffic-handle_notify :
    (o o' : Outside) (n n' : Node) (packet : TrafficPacket) (actions : List RouterAction)
    (m : PathNotify) (peer_key : PublicKey)
    → HasTrueCache n
    → (x_key_of n packet.dest =? x_key_of n (self_of n)) ≡ false
    → best_peer_for_key n.router packet.dest ≡ none
    → get n.pathfinder.paths packet.dest ≡ none
    → packet.keepalive ≡ false
    → send_traffic o n packet ≡ some (n', actions)
    → m.source ≡ packet.dest
    → m.dest ≡ self_of n
    → o'.verify m.source (notify_bytes m.info) m.info.sig ≡ true
    → (next_hop n' m.path m.watermark).0 ≡ none
    → GoesOut o' n packet m (handle_notify o' n' peer_key m)
unfolding handle
send_traffic-handle_notify o o' n n' packet actions m peer_key true_ other far empty alive went same
      mine signed stop =
    let (n1, actions1, e, w) = send_traffic-Waits o packet n other far empty alive in
    let fine = handle-Fine o n (sent packet) in
    let after = some-node e went in
    let after' = some-node fine.answers went in
    let frame : frame_of n' ≡ frame_of n = rw (← after') fine.frame in
    frame-GoesOut o' n n' packet m _ frame (
      handle_notify-GoesOut o' n' packet m peer_key (subst (λ x. Waits x packet) after w)
        (subst HasTrueCache after' (fine.cached true_)) same
        (mine ∙ sym (ap (λ f. f.0.self_key) frame)) signed stop)
