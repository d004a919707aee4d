-- ===== src/Node/Delivery.antt =====
-- crates/ironwood/src/router.rs: forwarding, and delivery to a direct peer.
use yggdrasil_ng.Prelude.{
  ℕ, ◌≡◌, refl, sym, ◌∙◌, List, [], ◌∷◌, none, some, false, ◌==◌, nat_eq, length, arith,
}
use yggdrasil_ng.Prelude.Bytes.{bytes_eq, bytes_beq_iff}
use yggdrasil_ng.Wire.Path.{PeerPort}
use yggdrasil_ng.Traffic.{TrafficPacket}
use yggdrasil_ng.Router.{PeerId}
use yggdrasil_ng.Router.Action
use yggdrasil_ng.Router.Action.{RouterAction}
use yggdrasil_ng.Router.Expire.{best_peer_for_key}
use yggdrasil_ng.Router.Lookup.{lookup}
use yggdrasil_ng.Node.{Node, Outside, self_of, next_hop, cached_coords}
use yggdrasil_ng.Node.Enough.{next_hop-self_of}
use yggdrasil_ng.Node.Handlers.{route_traffic, route_step, deliver}
use yggdrasil_ng.Node.Entry.{handle_traffic, send_traffic, send_near}

abbrev pub next_of : Node → List PeerPort → ℕ → Node
next_of n path w = (next_hop n path w).2

-- With watermark 0 no peer is closer.
next_hop-zero : (n : Node) (path : List PeerPort) → (next_hop n path 0).0 ≡ none
unfolding next_hop lookup
next_hop-zero n path = ground arith

-- A packet with watermark 0 is delivered, whatever its path.
handle_traffic-zero :
    (o : Outside) (n : Node) (packet : TrafficPacket)
    → packet.watermark ≡ 0
    → packet.dest ≡ self_of n
    → handle_traffic o n packet ≡ deliver o (next_of n packet.path packet.watermark) packet
unfolding handle_traffic route_traffic route_step
handle_traffic-zero o n packet zeroed mine =
    let stop : (next_hop n packet.path packet.watermark).0 ≡ none =
      rw zeroed (next_hop-zero n packet.path) in
    let here = mine ∙ sym (next_hop-self_of n packet.path packet.watermark) in
    rw (route_step, stop, (bytes_beq_iff packet.dest _).1 here) refl

-- send_traffic hands a packet that is not empty to the best link of a destination that is a direct
-- peer, and the node with that key delivers it, whatever either of the two knows of the tree.
pub send_traffic-handle_traffic :
    (o o' : Outside) (n m : Node) (packet : TrafficPacket) (id : PeerId)
    → (length packet.payload == 0) ≡ false
    → best_peer_for_key n.router packet.dest ≡ some id
    → self_of m ≡ packet.dest
    → (handed : TrafficPacket) × (n' : Node) × (m' : Node) × (send_traffic o n packet
        ≡ some (n', Action.send_traffic id handed ∷ []))
      × (handed.payload ≡ packet.payload)
      × (handle_traffic o' m handed
          ≡ some
              (m', Action.path_notify_callback packet.source ∷ Action.deliver_traffic handed ∷ []))
unfolding deliver send_near send_traffic cached_coords
send_traffic-handle_traffic o o' n m packet id full link there =
    let (path, n1) = cached_coords n packet.dest in
    let (from, n2) = cached_coords n1 (self_of n1) in
    let handed : TrafficPacket = record packet { path = path; from = from; watermark = 0 } in
    (
      handed,
      n2,
      _,
      rw (send_traffic, full, link) refl,
      refl,
      handle_traffic-zero o' m handed refl (sym there),
    )
