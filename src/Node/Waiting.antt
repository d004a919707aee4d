-- ===== src/Node/Waiting.antt =====
-- crates/ironwood/src/router.rs: a packet without a path waits until a notification brings one.
use yggdrasil_ng.Prelude.{
  ℕ, ◌≡◌, refl, ap, ◌∙◌, inl, inr, List, [], ◌++◌, none, some, true, false, if◌then◌else◌, ◌=?◌,
  nat_eq, Option-cases, Bool-cases, arith,
}
use yggdrasil_ng.Prelude.Bytes.{bytes_eq, bytes_beq_iff}
use yggdrasil_ng.Prelude.Map.{get, modify, contains_key, contains_key-insert, get-modify}
use yggdrasil_ng.Wire.Message.{PublicKey, PathLookup}
use yggdrasil_ng.Traffic.{TrafficPacket}
use yggdrasil_ng.Bloom.Peers.{get_multicast_targets}
use yggdrasil_ng.Pathfinder.{PathRumor, Pathfinder}
use yggdrasil_ng.Pathfinder.Rumors.{
  ensure_rumor, mark_rumor_sent, cache_rumor_traffic, cache_rumor_traffic_if_absent,
  should_throttle_rumor,
}
use yggdrasil_ng.Pathfinder.Paths.{mark_lookup_sent, should_throttle_lookup, get_path, live_path}
use yggdrasil_ng.Router.Action.{RouterAction}
use yggdrasil_ng.Router.Expire.{best_peer_for_key}
use yggdrasil_ng.Node.{
  Node, Outside, Run, self_of, with_pathfinder, cached_coords, x_key_of, after_actions,
}
use yggdrasil_ng.Node.Handlers.{
  multicast, handle_lookup_internal, start_lookup, do_send_lookup, route,
}
use yggdrasil_ng.Node.Entry.{send_rumor, wait_for_path, send_far, send_traffic}

-- The packet waits in the rumor of its destination, to which no path is known.
pub record Waits (n : Node) (packet : TrafficPacket) : Type 0 where
  pub no_path : get n.pathfinder.paths packet.dest ≡ none
  pub rumor : PathRumor
  pub stored : get n.pathfinder.rumors (x_key_of n packet.dest) ≡ some rumor
  pub holds : rumor.traffic ≡ some packet

-- A rumor for the key that holds the packet.
abbrev pub Stored : Pathfinder → PublicKey → TrafficPacket → Type 0
Stored p key packet =
    (rumor : PathRumor) × (get p.rumors key ≡ some rumor) × (rumor.traffic ≡ some packet)

modify-Stored :
    (p : Pathfinder) (key : PublicKey) (packet : TrafficPacket) (f : PathRumor → PathRumor)
    → ((rumor : PathRumor) → (f rumor).traffic ≡ rumor.traffic)
    → Stored p key packet
    → Stored (record p { rumors = modify p.rumors key f }) key packet
modify-Stored p key packet f same (rumor, at, holds) = (
  f rumor,
  get-modify p.rumors key key f ∙ rw ((bytes_beq_iff key key).1 refl, at) refl,
  same rumor ∙ holds,
)

cache_rumor_traffic-Stored :
    (p : Pathfinder) (key : PublicKey) (packet : TrafficPacket)
    → contains_key p.rumors key ≡ true
    → Stored (cache_rumor_traffic p key packet) key packet
unfolding cache_rumor_traffic contains_key
cache_rumor_traffic-Stored p key packet known = elim (Option-cases (get p.rumors key)) [
  | inl e ↦ absurd (cc (rw (contains_key, e) at known))
  | inr (rumor, e) ↦ (
    record rumor { traffic = some packet },
    get-modify p.rumors key key _ ∙ rw ((bytes_beq_iff key key).1 refl, e) refl,
    refl,
  )
]

ensure_rumor-known :
    (p : Pathfinder) (key : PublicKey) (now : ℕ)
    → contains_key (ensure_rumor p key now).0.rumors key ≡ true
unfolding ensure_rumor contains_key
ensure_rumor-known p key now = elim (Bool-cases (contains_key p.rumors key)) [
  | inl c ↦ rw (ensure_rumor, c) c
  | inr c ↦
      rw (ensure_rumor, c)
        (contains_key-insert p.rumors key key _ ∙ rw ((bytes_beq_iff key key).1 refl) refl)
]

ensure_rumor-paths :
    (p : Pathfinder) (key : PublicKey) (now : ℕ) → (ensure_rumor p key now).0.paths ≡ p.paths
unfolding ensure_rumor
ensure_rumor-paths p key now = elim (Bool-cases (contains_key p.rumors key)) [
  | inl c ↦ rw (ensure_rumor, c) refl
  | inr c ↦ rw (ensure_rumor, c) refl
]

Waits-make :
    (n : Node) (packet : TrafficPacket)
    → get n.pathfinder.paths packet.dest ≡ none
    → Stored n.pathfinder (x_key_of n packet.dest) packet
    → Waits n packet
Waits-make n packet empty (rumor, at, holds) = record {
  no_path = empty;
  rumor = rumor;
  stored = at;
  holds = holds;
}

new_not_throttled :
    (p : Pathfinder) (dest : PublicKey) (throttle now : ℕ)
    → get p.paths dest ≡ none
    → should_throttle_lookup p dest throttle now ≡ false
unfolding should_throttle_lookup
new_not_throttled p dest throttle now empty = rw (should_throttle_lookup, empty) refl

module _ (o : Outside) (packet : TrafficPacket) where
  -- The lookup for another node's key goes to the peers and changes nothing of what waits.
  do_send_lookup-Waits :
      (r : Node → TrafficPacket → Run) (n : Node)
      → (x_key_of n packet.dest =? x_key_of n (self_of n)) ≡ false
      → Waits n packet
      → (n' : Node) × (actions : List RouterAction) × (do_send_lookup o r n packet.dest
          ≡ some (n', actions))
        × Waits n' packet
  unfolding do_send_lookup start_lookup handle_lookup_internal cached_coords mark_lookup_sent
      after_actions
  do_send_lookup-Waits r n other waits =
      let fresh = new_not_throttled n.pathfinder packet.dest n.path_throttle o.now waits.no_path in
      let marked = with_pathfinder n (mark_lookup_sent n.pathfinder packet.dest o.now) in
      let (from, n') = cached_coords marked (self_of n) in
      let l : PathLookup = record { source = self_of n; dest = packet.dest; from = from } in
      let targets =
        get_multicast_targets o.murmur n.router.blooms (self_of n) packet.dest
          n.router.bloom_transform in
      (
        n',
        multicast n'.router l targets ++ [],
        rw (do_send_lookup, fresh, other) refl,
        record {
          no_path =
              get-modify n.pathfinder.paths packet.dest packet.dest _
              ∙ rw waits.no_path (ground arith);
          rumor = waits.rumor;
          stored = waits.stored;
          holds = waits.holds;
        },
      )

  send_rumor-Waits :
      (n : Node)
      → (x_key_of n packet.dest =? x_key_of n (self_of n)) ≡ false
      → Waits n packet
      → (n' : Node) × (actions : List RouterAction) × (send_rumor o n
            (x_key_of n packet.dest)
            packet.dest
          ≡ some (n', actions))
        × Waits n' packet
  unfolding send_rumor mark_rumor_sent
  send_rumor-Waits n other waits =
      let key = x_key_of n packet.dest in
      let sent =
        Waits-make (with_pathfinder n (mark_rumor_sent n.pathfinder key o.now)) packet waits.no_path
          (modify-Stored n.pathfinder key packet (λ rumor. record rumor { send_time = some o.now })
            (λ rumor. refl) (waits.rumor, waits.stored, waits.holds)) in
      elim (Bool-cases (should_throttle_rumor n.pathfinder key n.path_throttle o.now)) [
        | inl c ↦ (n, [], rw (send_rumor, c) refl, waits)
        | inr c ↦
            let (n', actions, e, w) = do_send_lookup-Waits (route o) _ other sent in
            (n', actions, rw (send_rumor, c) e, w)
      ]

  wait_for_path-Waits :
      (n : Node)
      → (x_key_of n packet.dest =? x_key_of n (self_of n)) ≡ false
      → get n.pathfinder.paths packet.dest ≡ none
      → packet.keepalive ≡ false
      → (n' : Node) × (actions : List RouterAction) × (wait_for_path o n packet
          ≡ some (n', actions))
        × Waits n' packet
  unfolding wait_for_path cache_rumor_traffic
  wait_for_path-Waits n other empty alive =
      let key = x_key_of n packet.dest in
      let p = (ensure_rumor n.pathfinder key o.now).0 in
      let known = ensure_rumor-known n.pathfinder key o.now in
      let stored = cache_rumor_traffic-Stored p key packet known in
      let empty' : get p.paths packet.dest ≡ none =
        rw (ensure_rumor-paths n.pathfinder key o.now) empty in
      let waits =
        Waits-make (with_pathfinder n (cache_rumor_traffic p key packet)) packet empty' stored in
      let (n', actions, e, w) = send_rumor-Waits _ other waits in
      let chosen =
        ap
          (λ b.
            send_rumor o
              (with_pathfinder n (
                if b
                then cache_rumor_traffic_if_absent p key packet
                else cache_rumor_traffic p key packet))
              key packet.dest)
          alive in
      (n', actions, chosen ∙ e, w)

  send_far-Waits :
      (n : Node)
      → (x_key_of n packet.dest =? x_key_of n (self_of n)) ≡ false
      → get n.pathfinder.paths packet.dest ≡ none
      → packet.keepalive ≡ false
      → (n' : Node) × (actions : List RouterAction) × (send_far o n packet ≡ some (n', actions))
        × Waits n' packet
  unfolding send_far get_path live_path
  send_far-Waits n other empty alive =
      let (n', actions, e, w) = wait_for_path-Waits n other empty alive in
      (n', actions, rw (send_far, empty) e, w)

  -- A packet for another node to which no path is known, and which is no direct peer, waits for one.
  pub send_traffic-Waits :
      (n : Node)
      → (x_key_of n packet.dest =? x_key_of n (self_of n)) ≡ false
      → best_peer_for_key n.router packet.dest ≡ none
      → get n.pathfinder.paths packet.dest ≡ none
      → packet.keepalive ≡ false
      → (n' : Node) × (actions : List RouterAction) × (send_traffic o n packet ≡ some (n', actions))
        × Waits n' packet
  unfolding send_traffic
  send_traffic-Waits n other far empty alive =
      let (n', actions, e, w) = send_far-Waits n other empty alive in
      (n', actions, rw (send_traffic, far) (ground (arith, e)), w)
