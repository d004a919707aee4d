-- ===== src/Node/Frame.antt =====
-- crates/ironwood/src/router.rs: what the handlers leave as it is, whichever of the others they call.
pub mod Handlers
use yggdrasil_ng.Prelude.{
  ℕ, zero, suc, ◌+◌, ◌≡◌, refl, sym, ap, ◌∙◌, inl, inr, List, [], ◌∷◌, ◌++◌, Option, none, some,
  Bool, true, false, ◌&&◌, not, leb, if◌then◌else◌, ◌=?◌, ◌==◌, nat_eq, length, Bool-cases,
  Option-cases, arith,
}
use yggdrasil_ng.Prelude.Bytes.{bytes_eq}
use yggdrasil_ng.Prelude.Map.{contains_key}
use yggdrasil_ng.Wire.Path.{PeerPort}
use yggdrasil_ng.Wire.Message.{PublicKey, PathLookup, PathNotify, PathBroken}
use yggdrasil_ng.Bloom.Peers.{is_on_tree, get_multicast_targets}
use yggdrasil_ng.Traffic.{TrafficPacket}
use yggdrasil_ng.Pathfinder.{Pathfinder}
use yggdrasil_ng.Pathfinder.Notify.{accept_notify}
use yggdrasil_ng.Pathfinder.Paths.{mark_lookup_sent, should_throttle_lookup}
use yggdrasil_ng.Pathfinder.Paths
use yggdrasil_ng.Router.{Router, PeerEntry, reset_cache}
use yggdrasil_ng.Router.Action.{RouterAction, deliver_traffic}
use yggdrasil_ng.Router.Expire.{best_peer_for_key}
use yggdrasil_ng.Router.Lookup.{
  Cache, get_dist, get_cost, accepts_candidate, choose, keys, lookup, u64_max,
}
use yggdrasil_ng.Router.Lookup.Cache.{IsCacheOf, get_dist-IsCacheOf, cached_root_and_path-IsCacheOf}
use yggdrasil_ng.Router.Lookup.Choice.{collect-closer_entries}
use yggdrasil_ng.Node.{
  Node, Outside, Run, self_of, with_pathfinder, cached_coords, next_hop, x_key_of, after_actions,
  then_actions,
}
use yggdrasil_ng.Node.Handlers.{
  multicast, send_waiting, take_notify, arrived_notify, handle_notify_internal, answer_lookup,
  handle_lookup_internal, start_lookup, do_send_lookup, arrived_broken, handle_broken_internal,
  do_broken, deliver, route_step, route_traffic, own_info, own_notify,
}

-- Whether a packet is delivered to the node with this key, if one is.
unfoldable pub is_local : PublicKey → RouterAction → Bool
is_local self (deliver_traffic tr) = tr.dest =? self
is_local self _ = true

unfoldable pub all_local : PublicKey → List RouterAction → Bool
all_local self [] = true
all_local self (a ∷ actions) = is_local self a && all_local self actions

-- The cache holds the coordinates that the tree gives.
abbrev pub HasTrueCache : Node → Type 0
HasTrueCache n = IsCacheOf n.router.infos n.router.cache

-- All of the node but its cache and its pathfinder.
abbrev pub frame_of : Node → Router × ℕ × ℕ × ℕ
frame_of n = (record n.router { cache = [] }, n.last_refresh, n.path_timeout, n.path_throttle)

-- The handler answers, changes nothing but the cache and the pathfinder, keeps the cache true, and
-- delivers no packet that is for another node.
pub record Fine (n : Node) (run : Run) : Type 0 where
  pub after : Node
  pub actions : List RouterAction
  pub answers : run ≡ some (after, actions)
  pub frame : frame_of after ≡ frame_of n
  pub cached : HasTrueCache n → HasTrueCache after
  pub delivers : all_local (self_of n) actions ≡ true

all_local-++ :
    (xs : List RouterAction) (self : PublicKey) (ys : List RouterAction)
    → all_local self (xs ++ ys) ≡ (all_local self xs && all_local self ys)
unfolding all_local
all_local-++ [] self ys = refl
all_local-++ (x ∷ xs) self ys = ground (arith, all_local-++ xs self ys)

-- A step from one node to the next that keeps the frame and the truth of the cache.
abbrev pub Kept : Node → Node → Type 0
Kept n n' = (frame_of n' ≡ frame_of n) × (HasTrueCache n → HasTrueCache n')

pub some-Fine :
    (n n' : Node) (actions : List RouterAction)
    → Kept n n'
    → all_local (self_of n) actions ≡ true
    → Fine n (some (n', actions))
some-Fine n n' actions (frame, cached) local_ = record {
  after = n';
  actions = actions;
  answers = refl;
  frame = frame;
  cached = cached;
  delivers = local_;
}

pub via-Fine : (n n' : Node) (run : Run) → Kept n n' → Fine n' run → Fine n run
via-Fine n n' run (frame, cached) fine = record {
  after = fine.after;
  actions = fine.actions;
  answers = fine.answers;
  frame = fine.frame ∙ frame;
  cached = λ h. fine.cached (cached h);
  delivers = rw (← ap (λ f. f.0.self_key) frame) fine.delivers;
}

pub after_actions-Fine :
    (n : Node) (actions : List RouterAction) (run : Run)
    → all_local (self_of n) actions ≡ true
    → Fine n run
    → Fine n (after_actions actions run)
unfolding after_actions
after_actions-Fine n actions run local_ fine = record {
  after = fine.after;
  actions = actions ++ fine.actions;
  answers = rw fine.answers refl;
  frame = fine.frame;
  cached = fine.cached;
  delivers = rw (all_local-++ actions (self_of n) fine.actions, local_) fine.delivers;
}

pub then_actions-Fine :
    (n : Node) (run : Run) (actions : List RouterAction)
    → all_local (self_of n) actions ≡ true
    → Fine n run
    → Fine n (then_actions run actions)
unfolding then_actions
then_actions-Fine n run actions local_ fine = record {
  after = fine.after;
  actions = fine.actions ++ actions;
  answers = rw fine.answers refl;
  frame = fine.frame;
  cached = fine.cached;
  delivers = rw (all_local-++ fine.actions (self_of n) actions, fine.delivers) local_;
}

choose-IsCacheOf :
    (ps : List PeerEntry) (r : Router) (cache : Cache) (path : List PeerPort)
    (best : Option PeerEntry) (cost dist : ℕ)
    → IsCacheOf r.infos cache
    → IsCacheOf r.infos (choose r cache path ps best cost dist).1
unfolding choose
choose-IsCacheOf [] r cache path best cost dist h = h
choose-IsCacheOf (p ∷ ps) r cache path best cost dist h =
    choose-IsCacheOf ps r (get_dist r cache path p.key).1 path _ _ _
      (get_dist-IsCacheOf r cache path p.key h).1

lookup-frame :
    (r : Router) (path : List PeerPort) (w : ℕ) → reset_cache (lookup r path w).2 ≡ reset_cache r
unfolding lookup reset_cache
lookup-frame r path w = elim (Bool-cases (leb w (get_dist r r.cache path r.self_key).0)) [
  | inl c ↦ rw (lookup, c) refl
  | inr c ↦ rw (lookup, c) refl
]

lookup-IsCacheOf :
    (r : Router) (path : List PeerPort) (w : ℕ)
    → IsCacheOf r.infos r.cache
    → IsCacheOf (lookup r path w).2.infos (lookup r path w).2.cache
unfolding lookup
lookup-IsCacheOf r path w h =
    let ok = (get_dist-IsCacheOf r r.cache path r.self_key h).1 in
    let (d, cache) = get_dist r r.cache path r.self_key in
    let ok' = (collect-closer_entries r path d (keys r.peers) cache [] ok).1 in
    elim (Bool-cases (leb w d)) [
      | inl c ↦ rw (lookup, c) ok
      | inr c ↦ rw (lookup, c) (choose-IsCacheOf _ r _ path none u64_max u64_max ok')
    ]

pub next_hop-Kept : (n : Node) (path : List PeerPort) (w : ℕ) → Kept n (next_hop n path w).2
unfolding next_hop reset_cache
next_hop-Kept n path w = (
  ap (λ r. (r, n.last_refresh, n.path_timeout, n.path_throttle)) (lookup-frame n.router path w),
  lookup-IsCacheOf n.router path w,
)

pub cached_coords-Kept : (n : Node) (key : PublicKey) → Kept n (cached_coords n key).1
unfolding cached_coords
cached_coords-Kept n key =
    (refl, λ h. (cached_root_and_path-IsCacheOf n.router.infos n.router.cache key h).1)
