-- ===== src/Node/Runs.antt =====
-- crates/ironwood/src/router.rs: any run of a node: links that come and go, the signature protocol,
-- its handlers, announcements from peers, filters, rounds of maintenance, forced refreshes and expiry.
use yggdrasil_ng.Prelude.{
  ℕ, ◌≡◌, refl, List, [], ◌∷◌, ◌++◌, none, some, ◌=?◌, inl, inr, Bool-cases, Option-cases,
}
use yggdrasil_ng.Prelude.Bytes.{bytes_eq}
use yggdrasil_ng.Prelude.Map.{get}
use yggdrasil_ng.Wire.Path.{PeerPort}
use yggdrasil_ng.Wire.Message.{PublicKey, SigReq, SigRes}
use yggdrasil_ng.Bloom.{BloomFilter}
use yggdrasil_ng.Router.{
  PeerId, PeerEntry, Router, RouterAnnounce, update, save, accepts, info_of, reset_cache,
}
use yggdrasil_ng.Router.Action.{RouterAction, send_sig_res}
use yggdrasil_ng.Router.Signature.{handle_request_with_data, handle_response, handle_response-infos}
use yggdrasil_ng.Router.Peers.{add_peer, remove_peer}
use yggdrasil_ng.Router.Peers.Cached.{add_peer-IsCacheOf, remove_peer-IsCacheOf}
use yggdrasil_ng.Router.Lookup.Cache.{IsCacheOf}
use yggdrasil_ng.Router.Announcing.{handle_announce, mark_sent, note_self, reply}
use yggdrasil_ng.Router.Expire.{expire_infos, expire_keys, expire_key, expired}
use yggdrasil_ng.Node.{Node, Outside, Run, after_actions}
use yggdrasil_ng.Node.Frame.{HasTrueCache}
use yggdrasil_ng.Node.Events.{Event, handle, handle-Fine}
use yggdrasil_ng.Node.Upkeep.{do_maintenance, force_refresh}
use yggdrasil_ng.Node.Place.{no_cache-IsCacheOf, do_maintenance-infos}
use yggdrasil_ng.Node.Start.{RouterConfig, new_node, handle_bloom, empty_cache}

pub data Step : Type 0 where
  handled : Outside → Event → Step
  maintained : Outside → (PublicKey → ℕ) → Step
  linked : PeerEntry → ℕ → Step
  unlinked : PeerId → PublicKey → PeerPort → Step
  requested : Outside → PeerEntry → SigReq → Step
  answered : PeerId → PublicKey → SigRes → ℕ → Step
  announced : PeerId → PublicKey → RouterAnnounce → ℕ → Step
  filtered : PublicKey → BloomFilter → Step
  refreshed : ℕ → Step
  aged : ℕ → Step

unfoldable pub with_router : Node → Router × List RouterAction → Run
with_router n (r, actions) = some (record n { router = r }, actions)

unfoldable pub node_step : Node → Step → Run
node_step n (handled o event) = handle o n event
node_step n (maintained o nonces) = do_maintenance o nonces n
node_step n (linked entry nonce) = with_router n (add_peer n.router entry nonce)
node_step n (unlinked peer_id key port) = with_router n (remove_peer n.router peer_id key port)
node_step n (requested o peer req) =
    let (peer_id, res) = handle_request_with_data o.crypto_sign n.router peer req in
    some (n, send_sig_res peer_id res ∷ [])
node_step n (answered peer_id key res rtt) =
    some (record n { router = handle_response n.router peer_id key res rtt }, [])
node_step n (announced peer_id peer_key ann now) =
    with_router n (handle_announce n.router peer_id peer_key ann now)
node_step n (filtered peer_key filter) = some (handle_bloom n peer_key filter, [])
node_step n (refreshed now) = some (force_refresh now n, [])
node_step n (aged now) = with_router n (expire_infos n.router now, [])

unfoldable pub node_run : Node → List Step → Run
node_run n [] = some (n, [])
node_run n (step ∷ steps) = elim (node_step n step) [
  | none ↦ none
  | some (n', actions) ↦ after_actions actions (node_run n' steps)
]

abbrev IsCached : Router → Type 0
IsCached r = IsCacheOf r.infos r.cache

update-IsCached :
    (r : Router) (ann : RouterAnnounce) (now : ℕ) → IsCached r → IsCached (update r ann now).0
unfolding update save reset_cache
update-IsCached r ann now h = elim (Bool-cases (accepts (get r.infos ann.key) (info_of ann))) [
  | inl c ↦ rw (update, c) (no_cache-IsCacheOf (save r ann now) refl)
  | inr c ↦ rw (update, c) h
]

note_self-IsCached : (r : Router) (key : PublicKey) → IsCached r → IsCached (note_self r key)
unfolding note_self
note_self-IsCached r key h = elim (Bool-cases (key =? r.self_key)) [
  | inl c ↦ rw (note_self, c) h
  | inr c ↦ rw (note_self, c) h
]

reply-IsCached :
    (r : Router) (id : PeerId) (peer_key : PublicKey) (ann : RouterAnnounce)
    → IsCached r
    → IsCached (reply r id peer_key ann).0
unfolding reply mark_sent
reply-IsCached r id peer_key ann h = elim (Option-cases (get r.infos ann.key)) [
  | inl e ↦ rw (reply, e) h
  | inr (old, e) ↦ rw (reply, e) h
]

handle_announce-IsCached :
    (r : Router) (id : PeerId) (peer_key : PublicKey) (ann : RouterAnnounce) (now : ℕ)
    → IsCached r
    → IsCached (handle_announce r id peer_key ann now).0
unfolding handle_announce mark_sent
handle_announce-IsCached r id peer_key ann now h =
    let (r', accepted) = update r ann now in
    let h' = update-IsCached r ann now h in
    elim (Bool-cases accepted) [
      | inl c ↦ rw (handle_announce, c) (note_self-IsCached r' ann.key h')
      | inr c ↦ rw (handle_announce, c) (reply-IsCached r' id peer_key ann h')
    ]

expire_key-IsCached : (r : Router) (key : PublicKey) → IsCached r → IsCached (expire_key r key)
unfolding expire_key reset_cache get
expire_key-IsCached r key h = elim (Bool-cases (key =? r.self_key)) [
  | inl c ↦ rw (expire_key, c) h
  | inr c ↦ rw (expire_key, c) (λ k p e. absurd (cc e))
]

expire_keys-IsCached : (ks : List PublicKey) (r : Router) → IsCached r → IsCached (expire_keys r ks)
unfolding expire_keys
expire_keys-IsCached [] r h = h
expire_keys-IsCached (k ∷ ks) r h =
    expire_keys-IsCached ks (expire_key r k) (expire_key-IsCached r k h)

-- The step answers, and keeps the cache true.
abbrev Answers : Node → Run → Type 0
Answers n run =
    (n' : Node) × (actions : List RouterAction) × (run ≡ some (n', actions)) × HasTrueCache n'

node_step-Answers : (n : Node) (step : Step) → HasTrueCache n → Answers n (node_step n step)
unfolding node_step with_router handle_bloom force_refresh expire_infos
node_step-Answers n (handled o event) h =
    let fine = handle-Fine o n event in (fine.after, fine.actions, fine.answers, fine.cached h)
node_step-Answers n (maintained o nonces) h =
    let (n', actions, e, infos, true_) = do_maintenance-infos o nonces n in (n', actions, e, true_)
node_step-Answers n (linked entry nonce) h =
    let (r, actions) = add_peer n.router entry nonce in
    (record n { router = r }, actions, refl, add_peer-IsCacheOf n.router entry nonce h)
node_step-Answers n (unlinked peer_id key port) h =
    let (r, actions) = remove_peer n.router peer_id key port in
    (record n { router = r }, actions, refl, remove_peer-IsCacheOf n.router peer_id key port h)
node_step-Answers n (requested o peer req) h = (n, _, refl, h)
node_step-Answers n (answered peer_id key res rtt) h =
    let (same, cached) = handle_response-infos n.router peer_id key res rtt in
    (
      record n { router = handle_response n.router peer_id key res rtt },
      [],
      refl,
      rw (same, cached) h,
    )
node_step-Answers n (announced id peer_key ann now) h =
    let (r, actions) = handle_announce n.router id peer_key ann now in
    (
      record n { router = r },
      actions,
      refl,
      handle_announce-IsCached n.router id peer_key ann now h,
    )
node_step-Answers n (filtered peer_key filter) h = (handle_bloom n peer_key filter, [], refl, h)
node_step-Answers n (refreshed now) h = (force_refresh now n, [], refl, h)
node_step-Answers n (aged now) h = (
  record n { router = expire_infos n.router now },
  [],
  refl,
  expire_keys-IsCached (expired n.router now n.router.info_times) n.router h,
)

node_run-Answers : (steps : List Step) (n : Node) → HasTrueCache n → Answers n (node_run n steps)
unfolding node_run after_actions
node_run-Answers [] n h = (n, [], refl, h)
node_run-Answers (step ∷ steps) n h =
    let (n', actions, e, h') = node_step-Answers n step h in
    let (n'', more, e', h'') = node_run-Answers steps n' h' in
    (n'', actions ++ more, rw (node_run, e, e') refl, h'')

-- From a new node, any run of links that come and go, of signature requests and responses, of the
-- handlers of traffic and of path discovery, of announcements, of filters, of rounds of
-- maintenance, of forced refreshes and of expiry answers, and its cache holds the coordinates that
-- the tree gives.
pub node_run-HasTrueCache :
    (o : Outside) (self_key : PublicKey) (config : RouterConfig) (steps : List Step)
    → (n : Node) × (actions : List RouterAction) × (node_run (new_node o self_key config) steps
        ≡ some (n, actions))
      × HasTrueCache n
node_run-HasTrueCache o self_key config steps =
    node_run-Answers steps (new_node o self_key config) (empty_cache o self_key config)
