-- ===== src/Router/Parent.antt =====
-- crates/ironwood/src/router.rs: the choice of a parent. `Crypto::sign` is an argument, as are the
-- random nonces and the time.
pub mod Least
pub mod Adopt
pub mod Root
pub mod Cache
use yggdrasil_ng.Prelude.{
  ℕ, zero, suc, ◌+◌, ◌*◌, ◌%◌, ◌^◌, List, [], ◌∷◌, ◌++◌, Option, none, some, Bool, true, false,
  ◌&&◌, ◌||◌, not, ltb, if◌then◌else◌, ◌=?◌, nat_eq,
}
use mathlib.Core.Option
use yggdrasil_ng.Prelude.Bytes.{Bytes, bytes_eq, bytes_ltb}
use yggdrasil_ng.Prelude.Map.{Map, get, insert, remove, contains_key}
use yggdrasil_ng.Wire.Message.{PublicKey, Sig}
use yggdrasil_ng.Router.{
  PeerId, PeerEntry, Router, RouterAnnounce, SigReqState, SigResState, update,
}
use yggdrasil_ng.Router.Action.{RouterAction, send_sig_req}
use yggdrasil_ng.Router.Signature.{new_req, sig_res_bytes_for_sig}
use yggdrasil_ng.Router.Tree.{get_root_and_dists}
use yggdrasil_ng.Router.Lookup.{u64_max, get_cost, saturating_mul, values, entries}

-- `self_info_parent`
pub current_parent : Router → PublicKey
current_parent r = elim (get r.infos r.self_key) [ none ↦ r.self_key | some info ↦ info.parent ]

-- `best_root`, `best_parent` and `best_cost` of `select_parent`.
pub record Choice : Type 0 where
  pub root : PublicKey
  pub parent : PublicKey
  pub cost : ℕ

-- The loops over the links to one peer.
pub least_cost : Router → ℕ → List PeerEntry → ℕ → ℕ
least_cost r dist [] cost = cost
least_cost r dist (entry ∷ rest) cost =
    let c = saturating_mul dist (get_cost r entry.id) in
    least_cost r dist rest (if ltb c cost then c else cost)

pub be_root : Router → Choice
be_root r = record { root = r.self_key; parent = r.self_key; cost = u64_max }

-- "Check current parent"
pub keep_parent : Router → Choice
keep_parent r =
    let parent = current_parent r in
    let (root, dists, valid) = get_root_and_dists r.infos r.self_key in
    if contains_key r.peers parent && (valid && bytes_ltb root r.self_key)
    then record {
      root = root;
      parent = parent;
      cost =
          least_cost r (Option.get_or (get dists root) u64_max) (entries (get r.peers parent))
            u64_max;
    }
    else be_root r

-- The distance over the peer: one more than the peer's.
pub dist_over : Option ℕ → ℕ
dist_over none = u64_max
dist_over (some d) = d + 1

pub response_cost : Router → PublicKey → ℕ
response_cost r pk =
    let (p_root, p_dists, valid) = get_root_and_dists r.infos pk in
    least_cost r (dist_over (get p_dists p_root)) (entries (get r.peers pk)) u64_max

-- Whether the loop over the responses looks at the costs for this peer, and does not `continue`.
unfoldable pub is_candidate : Router → PublicKey → Bool
is_candidate r pk =
    let (p_root, p_dists, valid) = get_root_and_dists r.infos pk in
    contains_key r.infos pk && (valid && not (contains_key p_dists r.self_key))

-- The rest of the round: a lower root wins, with an equal root the cost decides. `cost * 2` wraps.
pub prefer : Router → PublicKey → PublicKey → ℕ → Choice → Choice
prefer r pk p_root cost best =
    let offer : Choice = record { root = p_root; parent = pk; cost = cost } in
    let lower = bytes_ltb p_root best.root in
    let best' = if lower then offer else best in
    if not lower && not (p_root =? best.root)
    then best
    else if (r.refresh && ltb (cost * 2 % 2 ^ 64) best'.cost)
        || (not (best'.parent =? current_parent r) && ltb cost best'.cost)
    then offer
    else best'

-- "Check all peers with responses"
pub consider : Router → List PublicKey → Choice → Choice
consider r [] best = best
consider r (pk ∷ pks) best =
    let p_root = (get_root_and_dists r.infos pk).0 in
    consider r pks
      (if is_candidate r pk then prefer r pk p_root (response_cost r pk) best else best)

unfoldable pub response_keys : Map PublicKey SigResState → List PublicKey
response_keys [] = []
response_keys ((k, res) ∷ m) = k ∷ response_keys m

pub select_parent : Router → PublicKey × PublicKey
select_parent r =
    let best = consider r (response_keys r.responses) (keep_parent r) in (best.root, best.parent)

-- The announcement that `become_root` makes.
pub root_announce : (Bytes → Sig) → Router → ℕ → RouterAnnounce
root_announce sign r nonce =
    let req = new_req r nonce in
    let psig = sign (sig_res_bytes_for_sig r.self_key r.self_key req.seq req.nonce 0) in
    record {
      key = r.self_key;
      parent = r.self_key;
      seq = req.seq;
      nonce = req.nonce;
      port = 0;
      psig = psig;
      sig = psig;
    }

pub become_root : (Bytes → Sig) → Router → ℕ → ℕ → Router × Bool
become_root sign r nonce now = update r (root_announce sign r nonce) now

-- The announcement that `use_response` makes.
unfoldable pub child_announce : (Bytes → Sig) → Router → PublicKey → SigResState → RouterAnnounce
child_announce sign r peer_key res = record {
  key = r.self_key;
  parent = peer_key;
  seq = res.seq;
  nonce = res.nonce;
  port = res.port;
  psig = res.psig;
  sig = sign (sig_res_bytes_for_sig r.self_key peer_key res.seq res.nonce res.port);
}

unfoldable pub use_response : (Bytes → Sig) → Router → PublicKey → SigResState → ℕ → Router × Bool
use_response sign r peer_key res now = update r (child_announce sign r peer_key res) now

pub clear_reqs : Router → Router
clear_reqs r = record r { requests = []; responses = []; res_seqs = []; res_seq_ctr = 0 }

-- The requests to the links of one peer.
pub send_req_links : Router → SigReqState → List PeerEntry → Router × List RouterAction
send_req_links r req [] = (r, [])
send_req_links r req (entry ∷ rest) =
    let (r', actions) =
      send_req_links (record r { responded = remove r.responded entry.id }) req rest in
    (r', send_sig_req entry.id (record { seq = req.seq; nonce = req.nonce }) ∷ actions)

pub send_req_peers :
    (PublicKey → ℕ) → Router → Map PublicKey (Map PeerId PeerEntry) → Router × List RouterAction
send_req_peers nonces r [] = (r, [])
send_req_peers nonces r ((pk, links) ∷ rest) =
    let req = new_req r (nonces pk) in
    let (r', actions) =
      send_req_links (record r { requests = insert r.requests pk req }) req (values links) in
    let (r'', more) = send_req_peers nonces r' rest in (r'', actions ++ more)

pub send_reqs : (PublicKey → ℕ) → Router → Router × List RouterAction
send_reqs nonces r = let r' = clear_reqs r in send_req_peers nonces r' r'.peers

pub reset_flags : Router → Router
reset_flags r = record r { refresh = false; do_root1 = false; do_root2 = false }

-- The attempt to use the response of the selected parent; the flag says whether it was used.
pub try_response : (Bytes → Sig) → Router → PublicKey → PublicKey → ℕ → Router × Bool
try_response sign r best_root best_parent now = elim (get r.responses best_parent) [
  | none ↦ (r, false)
  | some res ↦
      if not (best_root =? r.self_key) then use_response sign r best_parent res now else (r, false)
]

-- The end of `fix`: to become root, at the second tick without a parent.
pub fall_back : (Bytes → Sig) → (PublicKey → ℕ) → Router → ℕ → Router × List RouterAction
fall_back sign nonces r now =
    if r.do_root2
    then send_reqs nonces (reset_flags (become_root sign r (nonces r.self_key) now).0)
    else (if not r.do_root1 then record r { do_root1 = true } else r, [])

pub fix : (Bytes → Sig) → (PublicKey → ℕ) → Router → ℕ → Router × List RouterAction
fix sign nonces r now =
    let (best_root, best_parent) = select_parent r in
    if r.refresh || r.do_root1 || r.do_root2 || not (current_parent r =? best_parent)
    then (let (r', used) = try_response sign r best_root best_parent now in
        if used then send_reqs nonces (reset_flags r') else fall_back sign nonces r' now)
    else (r, [])
