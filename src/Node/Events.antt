-- ===== src/Node/Events.antt =====
-- crates/ironwood/src/router.rs: any sequence of the handlers of traffic and of path discovery.
use yggdrasil_ng.Prelude.{
  ℕ, suc, ◌≡◌, refl, sym, ◌∙◌, inl, inr, List, [], ◌∷◌, none, some, nat_eq, Option-cases,
}
use yggdrasil_ng.Prelude.Bytes.{bytes_eq}
use yggdrasil_ng.Wire.Path.{PeerPort}
use yggdrasil_ng.Wire.Message.{PublicKey, PathLookup, PathNotify, PathBroken}
use yggdrasil_ng.Traffic.{TrafficPacket}
use yggdrasil_ng.Pathfinder.Paths.{get_path}
use yggdrasil_ng.Router.Expire.{best_peer_for_key}
use yggdrasil_ng.Router.Action.{RouterAction}
use yggdrasil_ng.Node.{Node, Outside, Run, self_of, cached_coords, after_actions}
use yggdrasil_ng.Node.Handlers.{route_step, route_traffic, route}
use yggdrasil_ng.Node.Entry.{
  handle_traffic, send_rumor, wait_for_path, send_on_path, send_far, send_near, send_traffic,
  force_lookup, handle_lookup, handle_notify, handle_broken,
}
use yggdrasil_ng.Node.Agree.{route_step-Agree, settled-Agree}
use yggdrasil_ng.Node.Frame.{
  is_local, all_local, Fine, via-Fine, some-Fine, after_actions-Fine, cached_coords-Kept,
}
use yggdrasil_ng.Node.Frame.Handlers.{
  same-Fine, if-Fine, with_pathfinder-Fine, handle_notify_internal-Fine,
  handle_lookup_internal-Fine, do_send_lookup-Fine, handle_broken_internal-Fine, route_step-Fine,
}

idle : Node → TrafficPacket → Run
idle n tr = some (n, [])

route_rounds :
    (o : Outside) (n : Node) (tr : TrafficPacket)
    → (k : ℕ) → route_traffic (suc (suc k)) o n tr ≡ route_step o (route_step o idle) n tr
unfolding route_traffic
route_rounds o n tr k =
    route_step-Agree o (route_traffic (suc k) o) (route_step o idle) n tr
      (λ open_ n' tr' set. settled-Agree o (route_traffic k o) idle n' tr' set)

module _ (o : Outside) where
  pub route-Fine : (n : Node) (tr : TrafficPacket) → Fine n (route o n tr)
  unfolding idle
  route-Fine n tr = rw (route_rounds o n tr 0) (
      route_step-Fine o (route_step o idle)
        (λ n' tr'. route_step-Fine o idle (λ n'' tr''. same-Fine n'') n' tr') n tr)

  send_rumor-Fine : (n : Node) (xform dest : PublicKey) → Fine n (send_rumor o n xform dest)
  unfolding send_rumor
  send_rumor-Fine n xform dest =
      if-Fine _ n _ _
        (with_pathfinder-Fine n _ _ (do_send_lookup-Fine o (route o) route-Fine _ dest))
        (same-Fine n)

  wait_for_path-Fine : (n : Node) (tr : TrafficPacket) → Fine n (wait_for_path o n tr)
  unfolding wait_for_path
  wait_for_path-Fine n tr = with_pathfinder-Fine n _ _ (send_rumor-Fine _ _ tr.dest)

  send_on_path-Fine :
      (n : Node) (path : List PeerPort) (tr : TrafficPacket) → Fine n (send_on_path o n path tr)
  unfolding send_on_path
  send_on_path-Fine n path tr =
      let n' = (cached_coords n (self_of n)).1 in
      via-Fine n n' _ (cached_coords-Kept n (self_of n))
        (with_pathfinder-Fine n' _ _ (route-Fine _ _))

  send_far-Fine : (n : Node) (tr : TrafficPacket) → Fine n (send_far o n tr)
  unfolding send_far
  send_far-Fine n tr = elim (Option-cases (get_path n.pathfinder tr.dest)) [
    | inl e ↦ rw (send_far, e) (wait_for_path-Fine n tr)
    | inr (path, e) ↦ rw (send_far, e) (send_on_path-Fine n path tr)
  ]

  send_near-Fine : (n : Node) (id : ℕ) (tr : TrafficPacket) → Fine n (send_near n id tr)
  unfolding send_near all_local is_local
  send_near-Fine n id tr =
      let n1 = (cached_coords n tr.dest).1 in
      let n2 = (cached_coords n1 (self_of n1)).1 in
      via-Fine n n1 _ (cached_coords-Kept n tr.dest) (
        via-Fine n1 n2 _ (cached_coords-Kept n1 (self_of n1))
          (some-Fine n2 n2 _ (refl, λ h. h) refl))

  send_traffic-Fine : (n : Node) (tr : TrafficPacket) → Fine n (send_traffic o n tr)
  unfolding send_traffic
  send_traffic-Fine n tr = elim (Option-cases (best_peer_for_key n.router tr.dest)) [
    | inl e ↦ rw (send_traffic, e) (if-Fine _ n _ _ (send_far-Fine n tr) (send_far-Fine n tr))
    | inr (id, e) ↦
        rw (send_traffic, e) (if-Fine _ n _ _ (send_far-Fine n tr) (send_near-Fine n id tr))
  ]

  force_lookup-Fine : (n : Node) (dest : PublicKey) → Fine n (force_lookup o n dest)
  unfolding force_lookup
  force_lookup-Fine n dest =
      with_pathfinder-Fine n _ _ (do_send_lookup-Fine o (route o) route-Fine _ dest)

  handle_lookup-Fine :
      (n : Node) (peer : PublicKey) (l : PathLookup) → Fine n (handle_lookup o n peer l)
  unfolding handle_lookup
  handle_lookup-Fine n peer l =
      if-Fine _ n _ _ (same-Fine n) (handle_lookup_internal-Fine o (route o) route-Fine n peer l)

-- Two rounds of the circle of the handlers are enough: route_traffic answers, and more fuel changes
-- nothing.
pub route_traffic_total :
    (o : Outside) (n : Node) (tr : TrafficPacket) (k : ℕ)
    → (route_traffic (suc (suc k)) o n tr ≡ route_traffic 2 o n tr)
      × ((answer : Node × List RouterAction) × (route_traffic 2 o n tr ≡ some answer))
route_traffic_total o n tr k =
    let fine = route-Fine o n tr in
    (
      route_rounds o n tr k ∙ sym (route_rounds o n tr 0),
      ((fine.after, fine.actions), fine.answers),
    )

-- What the network layer may call.
pub data Event : Type 0 where
  sent : TrafficPacket → Event
  received : TrafficPacket → Event
  forced : PublicKey → Event
  looked_up : PublicKey → PathLookup → Event
  notified : PublicKey → PathNotify → Event
  broken : PathBroken → Event

unfoldable pub handle : Outside → Node → Event → Run
handle o n (sent tr) = send_traffic o n tr
handle o n (received tr) = handle_traffic o n tr
handle o n (forced dest) = force_lookup o n dest
handle o n (looked_up peer l) = handle_lookup o n peer l
handle o n (notified peer m) = handle_notify o n peer m
handle o n (broken b) = handle_broken o n b

-- Every handler of traffic and of path discovery answers, changes nothing of the node but its cache
-- of coordinates and its pathfinder, keeps the cache true, and delivers only packets for this node.
pub handle-Fine : (o : Outside) (n : Node) (event : Event) → Fine n (handle o n event)
unfolding handle handle_traffic handle_notify handle_broken
handle-Fine o n (sent tr) = send_traffic-Fine o n tr
handle-Fine o n (received tr) = route-Fine o n tr
handle-Fine o n (forced dest) = force_lookup-Fine o n dest
handle-Fine o n (looked_up peer l) = handle_lookup-Fine o n peer l
handle-Fine o n (notified peer m) = handle_notify_internal-Fine o (route o) (route-Fine o) n m
handle-Fine o n (broken b) = handle_broken_internal-Fine o (route o) (route-Fine o) n b

-- Events at their times, one after the other.
unfoldable pub handle_all : Node → List (Outside × Event) → Run
handle_all n [] = some (n, [])
handle_all n ((o, event) ∷ events) = elim (handle o n event) [
  | none ↦ none
  | some (n', actions) ↦ after_actions actions (handle_all n' events)
]

-- Any sequence of the handlers of traffic and of path discovery, at any times, answers, changes
-- nothing of the node but its cache of coordinates and its pathfinder, keeps the cache true, and
-- delivers only packets for this node.
pub handle_all-Fine : (events : List (Outside × Event)) (n : Node) → Fine n (handle_all n events)
unfolding handle_all
handle_all-Fine [] n = same-Fine n
handle_all-Fine ((o, event) ∷ events) n =
    let step = handle-Fine o n event in
    rw (handle_all, step.answers)
      (after_actions-Fine n step.actions _ step.delivers
        (via-Fine n step.after _ (step.frame, step.cached) (handle_all-Fine events step.after)))
