-- ===== src/Node/Reply.antt =====
-- crates/ironwood/src/router.rs: the answer to a lookup, and the whole discovery of a path.
use yggdrasil_ng.Prelude.{
  ℕ, ◌≡◌, refl, sym, ap, ◌∙◌, inl, inr, List, [], ◌∷◌, ◌++◌, none, some, true, false, ◌=?◌, nat_eq,
  Bool-cases, arith,
}
use yggdrasil_ng.Prelude.Bytes.{Bytes, bytes_eq, bytes_beq_iff}
use yggdrasil_ng.Prelude.Map.{get}
use yggdrasil_ng.Wire.Path.{PeerPort}
use yggdrasil_ng.Wire.Message.{PublicKey, PathLookup, PathNotify}
use yggdrasil_ng.Traffic.{TrafficPacket}
use yggdrasil_ng.Bloom.Peers.{is_on_tree, get_multicast_targets}
use yggdrasil_ng.Pathfinder.{own_bytes_for_sig, sign, content_equal}
use yggdrasil_ng.Router.{PeerId}
use yggdrasil_ng.Router.Action
use yggdrasil_ng.Router.Action.{RouterAction}
use yggdrasil_ng.Router.Expire.{best_peer_for_key}
use yggdrasil_ng.Router.Lookup.{u64_max, lookup}
use yggdrasil_ng.Node.{
  Node, Outside, Run, self_of, with_pathfinder, cached_coords, next_hop, x_key_of, after_actions,
}
use yggdrasil_ng.Node.Handlers.{
  multicast, own_info, own_notify, fresh_info, notify_bytes, answer_lookup, handle_lookup_internal,
  handle_notify_internal, route,
}
use yggdrasil_ng.Node.Entry.{handle_lookup, handle_notify, send_traffic}
use yggdrasil_ng.Node.Frame.{HasTrueCache}
use yggdrasil_ng.Node.Arrival.{
  GoesOut, own_coords, cached_coords-own_coords, send_traffic-handle_notify,
}

-- What the node's signature covers and the signature match.
abbrev pub HasSigned : Outside → Node → Type 0
HasSigned o n =
    o.verify (self_of n) (own_bytes_for_sig n.pathfinder.info) n.pathfinder.info.sig ≡ true

-- Ed25519: a signature made with the node's key passes the check with its public key.
abbrev pub CanSign : Outside → Node → Type 0
CanSign o n = (bytes : Bytes) → o.verify (self_of n) bytes (o.crypto_sign bytes) ≡ true

module _ (o : Outside) (n : Node) (path : List PeerPort) (can : CanSign o n)
    (ok : HasSigned o n) where
  own_info-HasSigned :
      let info = own_info o n.pathfinder.info path in
      o.verify (self_of n) (own_bytes_for_sig info) info.sig ≡ true
  unfolding own_info sign own_bytes_for_sig
  own_info-HasSigned = elim (Bool-cases (content_equal n.pathfinder.info (fresh_info o path))) [
    | inl c ↦ rw (own_info, c) ok
    | inr c ↦ rw (own_info, c) (can (own_bytes_for_sig (fresh_info o path)))
  ]

  own_info-path : (own_info o n.pathfinder.info path).path ≡ path
  unfolding own_info fresh_info content_equal sign
  own_info-path = ground (arith, bytes_beq_iff n.pathfinder.info.path path)

-- The notification that answers a lookup: from us to the one who looks, with our coordinates and a
-- signature that passes.
pub record Answers (o : Outside) (n : Node) (l : PathLookup) (m : PathNotify) : Type 0 where
  pub source : m.source ≡ self_of n
  pub dest : m.dest ≡ l.source
  pub toward : m.path ≡ l.from
  pub coords : m.info.path ≡ own_coords n
  pub signed : o.verify (self_of n) (notify_bytes m.info) m.info.sig ≡ true

-- The node while it answers, with its own coordinates in the cache.
abbrev pub answering : Node → Node
answering n = (cached_coords n (self_of n)).1

answer_lookup-Answers :
    (o : Outside) (r : Node → TrafficPacket → Run) (n : Node) (l : PathLookup) (id : PeerId)
    → CanSign o n
    → HasSigned o n
    → HasTrueCache n
    → (next_hop (answering n) l.from u64_max).0 ≡ some id
    → (n' : Node) × (m : PathNotify) × (answer_lookup o r n l
        ≡ some (n', Action.send_path_notify id m ∷ []))
      × Answers o n l m
unfolding answer_lookup cached_coords own_notify notify_bytes own_bytes_for_sig next_hop
    handle_notify_internal lookup own_info
answer_lookup-Answers o r n l id can ok true_ hop =
    let (path, n1) = cached_coords n (self_of n) in
    let info = own_info o n.pathfinder.info path in
    let n2 = with_pathfinder n1 (record n.pathfinder { info = info }) in
    let (id', w, n3) = next_hop n2 l.from u64_max in
    (
      n3,
      record (own_notify n2 info l) { watermark = w },
      rw (handle_notify_internal, hop) refl,
      record {
        source = refl;
        dest = refl;
        toward = refl;
        coords = own_info-path o n path can ok ∙ cached_coords-own_coords n true_;
        signed = own_info-HasSigned o n path can ok;
      },
    )

-- A node that gets a lookup for its own key from a peer on the tree, and is not where the one who
-- looks is, sends the next hop a notification with its coordinates, properly signed.
pub handle_lookup-Answers :
    (o : Outside) (n : Node) (peer_key : PublicKey) (l : PathLookup) (id : PeerId)
    → CanSign o n
    → HasSigned o n
    → HasTrueCache n
    → is_on_tree n.router.blooms peer_key ≡ true
    → l.dest ≡ self_of n
    → (next_hop (answering n) l.from u64_max).0 ≡ some id
    → (n' : Node) × (m : PathNotify) × (actions : List RouterAction) × (handle_lookup o n peer_key l
        ≡ some (n', actions ++ (Action.send_path_notify id m ∷ [])))
      × Answers o n l m
unfolding handle_lookup handle_lookup_internal after_actions
handle_lookup-Answers o n peer_key l id can ok true_ near mine hop =
    let (n', m, e, answers) = answer_lookup-Answers o (route o) n l id can ok true_ hop in
    let targets =
      get_multicast_targets o.murmur n.router.blooms peer_key l.dest n.router.bloom_transform in
    let matches : (x_key_of n l.dest =? x_key_of n (self_of n)) ≡ true =
      (bytes_beq_iff (x_key_of n l.dest) _).1 (ap (x_key_of n) mine) in
    (n', m, multicast n.router l targets, rw (handle_lookup, near, matches, e) refl, answers)

module _ (oa oa' ob : Outside) (a a' b : Node) (packet : TrafficPacket) (l : PathLookup) where
  -- The discovery of a path from end to end: node a sends a packet, no keepalive, for b, which is
  -- no direct peer and to which it knows no path; b gets, from a peer on the tree, a lookup for its
  -- key that names a; and the notification that b answers with gets to a, where no peer is closer
  -- to its path. Then a has the path, and the packet is routed on the coordinates of b. The caches
  -- hold true coordinates, b signs with its key, and the transformed keys differ.
  pub discovery-GoesOut :
      (actions : List RouterAction) (peer_a peer_b : PublicKey) (id : PeerId) (w : ℕ)
      → HasTrueCache a
      → HasTrueCache b
      → CanSign ob b
      → HasSigned ob b
      → oa'.verify ≡ ob.verify
      → packet.dest ≡ self_of b
      → l.dest ≡ self_of b
      → l.source ≡ self_of a
      → (x_key_of a packet.dest =? x_key_of a (self_of a)) ≡ false
      → best_peer_for_key a.router packet.dest ≡ none
      → get a.pathfinder.paths packet.dest ≡ none
      → packet.keepalive ≡ false
      → send_traffic oa a packet ≡ some (a', actions)
      → is_on_tree b.router.blooms peer_b ≡ true
      → (next_hop (answering b) l.from u64_max).0 ≡ some id
      → (next_hop a' l.from w).0 ≡ none
      → (b' : Node) × (m : PathNotify) × (more : List RouterAction) × (handle_lookup ob b peer_b l
          ≡ some (b', more ++ (Action.send_path_notify id m ∷ [])))
        × (m.info.path ≡ own_coords b)
        × GoesOut oa' a packet
            (record m { watermark = w })
            (handle_notify oa' a' peer_a (record m { watermark = w }))
  discovery-GoesOut actions peer_a peer_b id w true_a true_b can ok same to_b for_b from_a other far
        empty alive went near hop stop =
      let (b', m, more, e, answers) =
        handle_lookup-Answers ob b peer_b l id can ok true_b near for_b hop in
      let signed : oa'.verify m.source (notify_bytes m.info) m.info.sig ≡ true =
        rw (same, answers.source) answers.signed in
      let here : (next_hop a' m.path w).0 ≡ none = rw answers.toward stop in
      (
        b',
        m,
        more,
        e,
        answers.coords,
        send_traffic-handle_notify oa oa' a a' packet actions (record m { watermark = w }) peer_a
            true_a other far empty alive went (answers.source ∙ sym to_b) (answers.dest ∙ from_a)
            signed here,
      )
