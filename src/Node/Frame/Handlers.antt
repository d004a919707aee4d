-- ===== src/Node/Frame/Handlers.antt =====
-- crates/ironwood/src/router.rs: each handler keeps the frame and delivers only what is for us.
use yggdrasil_ng.Prelude.{
  ◌≡◌, refl, inl, inr, List, [], ◌∷◌, Option, none, some, Bool, true, false, if◌then◌else◌, ◌=?◌,
  nat_eq, Bool-cases, Option-cases, arith,
}
use yggdrasil_ng.Prelude.Bytes.{bytes_eq}
use yggdrasil_ng.Wire.Path.{PeerPort}
use yggdrasil_ng.Wire.Message.{PublicKey, PathLookup, PathNotify, PathBroken}
use yggdrasil_ng.Traffic.{TrafficPacket}
use yggdrasil_ng.Pathfinder.{Pathfinder}
use yggdrasil_ng.Pathfinder.Notify.{accept_notify}
use yggdrasil_ng.Pathfinder.Paths.{mark_lookup_sent, should_throttle_lookup, get_path}
use yggdrasil_ng.Pathfinder.Paths
use yggdrasil_ng.Router.{Router}
use yggdrasil_ng.Router.Action.{path_notify_callback}
use yggdrasil_ng.Node.{
  Node, Outside, Run, self_of, with_pathfinder, cached_coords, next_hop, x_key_of,
}
use yggdrasil_ng.Node.Handlers.{
  multicast, send_waiting, take_notify, arrived_notify, handle_notify_internal, answer_lookup,
  handle_lookup_internal, start_lookup, do_send_lookup, arrived_broken, handle_broken_internal,
  do_broken, deliver, route_step, own_info,
}
use yggdrasil_ng.Node.Frame.{
  is_local, all_local, Fine, Kept, some-Fine, via-Fine, after_actions-Fine, then_actions-Fine,
  next_hop-Kept, cached_coords-Kept,
}

pathfinder-Kept : (n : Node) (p : Pathfinder) → Kept n (with_pathfinder n p)
pathfinder-Kept n p = (refl, λ h. h)

pub same-Fine : (n : Node) → Fine n (some (n, []))
unfolding all_local
same-Fine n = some-Fine n n [] (refl, λ h. h) refl

-- A change of the pathfinder in front of a handler.
pub with_pathfinder-Fine :
    (n : Node) (p : Pathfinder) (run : Run) → Fine (with_pathfinder n p) run → Fine n run
with_pathfinder-Fine n p run fine = via-Fine n (with_pathfinder n p) run (pathfinder-Kept n p) fine

pub if-Fine : (b : Bool) (n : Node) (a c : Run) → Fine n a → Fine n c → Fine n (if b then a else c)
if-Fine true n a c x y = x
if-Fine false n a c x y = y

multicast-local :
    (ks : List PublicKey) (self : PublicKey) (r : Router) (l : PathLookup)
    → all_local self (multicast r l ks) ≡ true
unfolding all_local multicast is_local
multicast-local [] self r l = refl
multicast-local (k ∷ ks) self r l = ground (arith, multicast-local ks self r l)

callback-local :
    (b : Bool) (self key : PublicKey)
    → all_local self (if b then path_notify_callback key ∷ [] else []) ≡ true
unfolding all_local is_local
callback-local true self key = refl
callback-local false self key = refl

module _ (o : Outside) (r : Node → TrafficPacket → Run)
    (fine : (n : Node) (tr : TrafficPacket) → Fine n (r n tr)) where
  send_waiting-Fine :
      (n : Node) (path : List PeerPort) (t : Option TrafficPacket)
      → Fine n (send_waiting o r n path t)
  unfolding send_waiting
  send_waiting-Fine n path none = same-Fine n
  send_waiting-Fine n path (some t) =
      via-Fine n (cached_coords n (self_of n)).1 _ (cached_coords-Kept n (self_of n)) (fine _ _)

  take_notify-Fine : (n : Node) (m : PathNotify) → Fine n (take_notify o r n m)
  unfolding take_notify
  take_notify-Fine n m =
      let (p, accepted, traffic) =
        accept_notify n.pathfinder m.source (x_key_of n m.source) m.info.seq m.info.path o.now in
      then_actions-Fine n _ _ (callback-local accepted (self_of n) m.source)
        (with_pathfinder-Fine n p _ (send_waiting-Fine (with_pathfinder n p) m.info.path traffic))

  arrived_notify-Fine : (n : Node) (m : PathNotify) → Fine n (arrived_notify o r n m)
  unfolding arrived_notify
  arrived_notify-Fine n m =
      if-Fine _ n _ _ (same-Fine n) (if-Fine _ n _ _ (same-Fine n) (take_notify-Fine n m))

  pub handle_notify_internal-Fine :
      (n : Node) (m : PathNotify) → Fine n (handle_notify_internal o r n m)
  unfolding handle_notify_internal all_local is_local
  handle_notify_internal-Fine n m =
      let kept = next_hop-Kept n m.path m.watermark in
      let n' = (next_hop n m.path m.watermark).2 in
      elim (Option-cases (next_hop n m.path m.watermark).0) [
        | inl e ↦ rw (handle_notify_internal, e) (via-Fine n n' _ kept (arrived_notify-Fine n' m))
        | inr (id, e) ↦ rw (handle_notify_internal, e) (some-Fine n n' _ kept refl)
      ]

  answer_lookup-Fine : (n : Node) (l : PathLookup) → Fine n (answer_lookup o r n l)
  unfolding answer_lookup
  answer_lookup-Fine n l =
      let (path, n') = cached_coords n (self_of n) in
      let p = record n'.pathfinder { info = own_info o n'.pathfinder.info path } in
      via-Fine n n' _ (cached_coords-Kept n (self_of n))
        (with_pathfinder-Fine n' p _ (handle_notify_internal-Fine (with_pathfinder n' p) _))

  pub handle_lookup_internal-Fine :
      (n : Node) (from_key : PublicKey) (l : PathLookup)
      → Fine n (handle_lookup_internal o r n from_key l)
  unfolding handle_lookup_internal
  handle_lookup_internal-Fine n from_key l =
      after_actions-Fine n _ _ (multicast-local _ (self_of n) n.router l)
        (if-Fine _ n _ _ (answer_lookup-Fine n l) (same-Fine n))

  start_lookup-Fine : (n : Node) (dest : PublicKey) → Fine n (start_lookup o r n dest)
  unfolding start_lookup
  start_lookup-Fine n dest =
      let p = mark_lookup_sent n.pathfinder dest o.now in
      let n1 = with_pathfinder n p in
      let n2 = (cached_coords n1 (self_of n1)).1 in
      with_pathfinder-Fine n p _
        (via-Fine n1 n2 _ (cached_coords-Kept n1 (self_of n1)) (handle_lookup_internal-Fine n2 _ _))

  pub do_send_lookup-Fine : (n : Node) (dest : PublicKey) → Fine n (do_send_lookup o r n dest)
  unfolding do_send_lookup
  do_send_lookup-Fine n dest = if-Fine _ n _ _ (same-Fine n) (start_lookup-Fine n dest)

  arrived_broken-Fine : (n : Node) (b : PathBroken) → Fine n (arrived_broken o r n b)
  unfolding arrived_broken
  arrived_broken-Fine n b =
      let p = Paths.handle_broken n.pathfinder b.dest in
      if-Fine _ n _ _ (same-Fine n) (
        with_pathfinder-Fine n p _ (
          if-Fine _ (with_pathfinder n p) _ _ (do_send_lookup-Fine (with_pathfinder n p) b.dest)
            (same-Fine (with_pathfinder n p))))

  pub handle_broken_internal-Fine :
      (n : Node) (b : PathBroken) → Fine n (handle_broken_internal o r n b)
  unfolding handle_broken_internal all_local is_local
  handle_broken_internal-Fine n b =
      let kept = next_hop-Kept n b.path b.watermark in
      let n' = (next_hop n b.path b.watermark).2 in
      elim (Option-cases (next_hop n b.path b.watermark).0) [
        | inl e ↦ rw (handle_broken_internal, e) (via-Fine n n' _ kept (arrived_broken-Fine n' b))
        | inr (id, e) ↦ rw (handle_broken_internal, e) (some-Fine n n' _ kept refl)
      ]

  deliver-Fine :
      (n : Node) (tr : TrafficPacket) → (tr.dest =? self_of n) ≡ true → Fine n (deliver o n tr)
  unfolding deliver all_local is_local
  deliver-Fine n tr mine = some-Fine n _ _ (refl, λ h. h) (rw mine refl)

  stuck-Fine :
      (n : Node) (tr : TrafficPacket)
      → Fine n (if tr.dest =? self_of n then deliver o n tr else do_broken o r n tr)
  unfolding do_broken
  stuck-Fine n tr = elim (Bool-cases (tr.dest =? self_of n)) [
    | inl mine ↦ rw mine (deliver-Fine n tr mine)
    | inr other ↦ rw other (handle_broken_internal-Fine n _)
  ]

  pub route_step-Fine : (n : Node) (tr : TrafficPacket) → Fine n (route_step o r n tr)
  unfolding route_step all_local is_local
  route_step-Fine n tr =
      let kept = next_hop-Kept n tr.path tr.watermark in
      let n' = (next_hop n tr.path tr.watermark).2 in
      elim (Option-cases (next_hop n tr.path tr.watermark).0) [
        | inl e ↦ rw (route_step, e) (via-Fine n n' _ kept (stuck-Fine n' tr))
        | inr (id, e) ↦ rw (route_step, e) (some-Fine n n' _ kept refl)
      ]
