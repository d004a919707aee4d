-- ===== src/Node/Agree.antt =====
-- crates/ironwood/src/router.rs: the fuel of `route_traffic`, and that one round is enough on a node
-- that has answered its own lookup.
use yggdrasil_ng.Prelude.{
  ◌≡◌, refl, sym, ◌∙◌, ◌⊎◌, inl, inr, List, Option, none, some, true, false, nat_eq, Option-cases,
}
use yggdrasil_ng.Prelude.Bytes.{bytes_eq}
use yggdrasil_ng.Wire.Path.{PeerPort}
use yggdrasil_ng.Wire.Message.{PublicKey, PathLookup, PathNotify, PathBroken}
use yggdrasil_ng.Traffic.{TrafficPacket}
use yggdrasil_ng.Pathfinder.Notify.{accept_notify}
use yggdrasil_ng.Pathfinder.Paths.{mark_lookup_sent}
use yggdrasil_ng.Pathfinder.Paths
use yggdrasil_ng.Router.Lookup.{u64_max}
use yggdrasil_ng.Node.{
  Node, Outside, Run, self_of, with_pathfinder, cached_coords, next_hop, x_key_of,
}
use yggdrasil_ng.Node.Handlers.{
  send_waiting, take_notify, arrived_notify, handle_notify_internal, answer_lookup,
  handle_lookup_internal, start_lookup, do_send_lookup, arrived_broken, handle_broken_internal,
  do_broken, route_step, own_info, own_notify,
}
use yggdrasil_ng.Node.Enough.{
  settled, next_hop-self_of, next_hop-settled, cached_coords-settled, accept_notify-settles,
  own_info-seq, modify-settled,
}

module _ (o : Outside) where
  -- Two continuations that agree where they are needed: on a settled node, and only if the present
  -- node is not settled.
  module _ (r r' : Node → TrafficPacket → Run) where
    abbrev Agree : Node → Type 0
    Agree n =
        settled o n ≡ false
        → (n' : Node) (tr : TrafficPacket) → settled o n' ≡ true
        → r n' tr ≡ r' n' tr

    send_waiting-Agree :
        (n n' : Node) (path : List PeerPort) (t : Option TrafficPacket)
        → Agree n
        → (t ≡ none) ⊎ ((settled o n ≡ false) × (settled o n' ≡ true))
        → send_waiting o r n' path t ≡ send_waiting o r' n' path t
    unfolding send_waiting
    send_waiting-Agree n n' path none agree h = refl
    send_waiting-Agree n n' path (some t) agree (inl e) = absurd (cc e)
    send_waiting-Agree n n' path (some t) agree (inr (open_, set)) =
        agree open_ (cached_coords n' (self_of n')).1 _
          (cached_coords-settled o n' (self_of n') ∙ set)

    take_notify-Agree :
        (n : Node) (m : PathNotify)
        → Agree n
        → m.source ≡ self_of n
        → m.info.seq ≡ o.unix_secs
        → take_notify o r n m ≡ take_notify o r' n m
    unfolding take_notify
    take_notify-Agree n m agree mine now =
        let step = accept_notify-settles o n (x_key_of n (self_of n)) m.info.path in
        let got =
          accept_notify n.pathfinder m.source (x_key_of n m.source) m.info.seq m.info.path o.now in
        rw
          (send_waiting-Agree n (with_pathfinder n got.0) m.info.path got.2 agree
            (rw (mine, now) step))
          refl

    arrived_notify-Agree :
        (n : Node) (m : PathNotify)
        → Agree n
        → m.source ≡ self_of n
        → m.info.seq ≡ o.unix_secs
        → arrived_notify o r n m ≡ arrived_notify o r' n m
    unfolding arrived_notify
    arrived_notify-Agree n m agree mine now = rw (take_notify-Agree n m agree mine now) refl

    handle_notify_internal-Agree :
        (n : Node) (m : PathNotify)
        → Agree n
        → m.source ≡ self_of n
        → m.info.seq ≡ o.unix_secs
        → handle_notify_internal o r n m ≡ handle_notify_internal o r' n m
    unfolding handle_notify_internal
    handle_notify_internal-Agree n m agree mine now =
        let still = next_hop-settled o n m.path m.watermark in
        let self = next_hop-self_of n m.path m.watermark in
        elim (Option-cases (next_hop n m.path m.watermark).0) [
          | inl e ↦
              rw (handle_notify_internal, e)
                (arrived_notify-Agree (next_hop n m.path m.watermark).2 m
                  (λ open_. agree (sym still ∙ open_)) (mine ∙ sym self) now)
          | inr (id, e) ↦ rw (handle_notify_internal, e) refl
        ]

    answer_lookup-Agree :
        (n : Node) (l : PathLookup) → Agree n → answer_lookup o r n l ≡ answer_lookup o r' n l
    unfolding answer_lookup own_notify settled cached_coords
    answer_lookup-Agree n l agree =
        let (path, n') = cached_coords n (self_of n) in
        let info = own_info o n'.pathfinder.info path in
        handle_notify_internal-Agree (with_pathfinder n' (record n'.pathfinder { info = info }))
          (own_notify n' info l) agree refl (own_info-seq o n'.pathfinder.info path)

    handle_lookup_internal-Agree :
        (n : Node) (from_key : PublicKey) (l : PathLookup)
        → Agree n
        → handle_lookup_internal o r n from_key l ≡ handle_lookup_internal o r' n from_key l
    unfolding handle_lookup_internal
    handle_lookup_internal-Agree n from_key l agree = rw (answer_lookup-Agree n l agree) refl

    do_send_lookup-Agree :
        (n : Node) (dest : PublicKey)
        → Agree n
        → do_send_lookup o r n dest ≡ do_send_lookup o r' n dest
    unfolding do_send_lookup start_lookup mark_lookup_sent cached_coords settled
    do_send_lookup-Agree n dest agree =
        let marked = with_pathfinder n (mark_lookup_sent n.pathfinder dest o.now) in
        let still : settled o marked ≡ settled o n =
          modify-settled o n dest (λ info. record info { req_time = o.now }) (λ info. refl) in
        let (from, n') = cached_coords marked (self_of marked) in
        let l : PathLookup = record { source = self_of n'; dest = dest; from = from } in
        rw (handle_lookup_internal-Agree n' (self_of n') l (λ open_. agree (sym still ∙ open_)))
          refl

    arrived_broken-Agree :
        (n : Node) (broken : PathBroken)
        → Agree n
        → arrived_broken o r n broken ≡ arrived_broken o r' n broken
    unfolding arrived_broken Paths.handle_broken
    arrived_broken-Agree n broken agree =
        let marked = with_pathfinder n (Paths.handle_broken n.pathfinder broken.dest) in
        let still : settled o marked ≡ settled o n =
          modify-settled o n broken.dest (λ info. record info { broken = true }) (λ info. refl) in
        rw (do_send_lookup-Agree marked broken.dest (λ open_. agree (sym still ∙ open_))) refl

    handle_broken_internal-Agree :
        (n : Node) (broken : PathBroken)
        → Agree n
        → handle_broken_internal o r n broken ≡ handle_broken_internal o r' n broken
    unfolding handle_broken_internal
    handle_broken_internal-Agree n broken agree =
        let still = next_hop-settled o n broken.path broken.watermark in
        elim (Option-cases (next_hop n broken.path broken.watermark).0) [
          | inl e ↦
              rw (handle_broken_internal, e)
                (arrived_broken-Agree (next_hop n broken.path broken.watermark).2 broken
                  (λ open_. agree (sym still ∙ open_)))
          | inr (id, e) ↦ rw (handle_broken_internal, e) refl
        ]

    pub route_step-Agree :
        (n : Node) (tr : TrafficPacket) → Agree n → route_step o r n tr ≡ route_step o r' n tr
    unfolding route_step do_broken
    route_step-Agree n tr agree =
        let still = next_hop-settled o n tr.path tr.watermark in
        let n' = (next_hop n tr.path tr.watermark).2 in
        elim (Option-cases (next_hop n tr.path tr.watermark).0) [
          | inl e ↦
              let same =
                handle_broken_internal-Agree n'
                  (record {
                    path = tr.from;
                    watermark = u64_max;
                    source = tr.source;
                    dest = tr.dest;
                  })
                  (λ open_. agree (sym still ∙ open_)) in
              rw (route_step, e, same) refl
          | inr (id, e) ↦ rw (route_step, e) refl
        ]

  -- On a settled node one round is enough, and the continuation does not matter.
  pub settled-Agree :
      (r r' : Node → TrafficPacket → Run) (n : Node) (tr : TrafficPacket)
      → settled o n ≡ true
      → route_step o r n tr ≡ route_step o r' n tr
  settled-Agree r r' n tr set = route_step-Agree r r' n tr (λ open_. absurd (cc (open_, set)))
