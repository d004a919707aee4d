-- ===== src/Router/Peers.antt =====
-- crates/ironwood/src/router.rs: links to peers come and go.
pub mod Paired
pub mod Cached
use yggdrasil_ng.Prelude.{
  ℕ, List, [], ◌∷◌, ◌++◌, Option, none, some, Bool, true, false, not, if◌then◌else◌, nat_eq, length,
}
use mathlib.Core.Option
use yggdrasil_ng.Prelude.Bytes.{bytes_eq}
use yggdrasil_ng.Prelude.Map.{Map, get, insert, remove, modify, contains_key}
use yggdrasil_ng.Wire.Path.{PeerPort}
use yggdrasil_ng.Wire.Message.{PublicKey}
use yggdrasil_ng.Bloom.Peers.{add_info, remove_info, get_send_bloom}
use yggdrasil_ng.Router.{PeerId, PeerEntry, Router, SigReqState, get_announce, to_wire}
use yggdrasil_ng.Router.Action.{RouterAction, send_sig_req, send_announce, send_bloom}
use yggdrasil_ng.Router.Signature.{new_req}
use yggdrasil_ng.Router.Lookup.{unknown_latency, values}

-- What the first link to a key sets up.
pub open_key : Router → PeerEntry → Router
open_key r entry =
    if not (contains_key r.peers entry.key)
    then record r {
      peers = insert r.peers entry.key [];
      sent = insert r.sent entry.key [];
      ports = insert r.ports entry.port entry.key;
      blooms = add_info r.blooms entry.key;
    }
    else r

-- The announcements that were sent to the peer before, for one more link.
pub resend : Router → PeerId → Map PublicKey (Unit {0}) → List RouterAction
resend r peer_id [] = []
resend r peer_id ((k, _) ∷ sent) =
    let rest = resend r peer_id sent in
    elim (get r.infos k) [
      | none ↦ rest
      | some info ↦ send_announce peer_id (to_wire (get_announce info k)) ∷ rest
    ]

pub resend_sent : Router → PeerEntry → List RouterAction
resend_sent r entry =
    if not (contains_key r.peers entry.key)
    then []
    else elim (get r.sent entry.key) [ none ↦ [] | some sent ↦ resend r entry.id sent ]

pub open_link : Router → PeerEntry → Router
open_link r entry = record r {
  peers = modify r.peers entry.key (λ links. insert links entry.id entry);
  lags = insert r.lags entry.id unknown_latency;
}

-- The open request to the peer, a new one with this nonce if there is none.
pub request_of : Router → PublicKey → ℕ → SigReqState
request_of r key nonce = Option.get_or (get r.requests key) (new_req r nonce)

pub bloom_action : Router → PublicKey → PeerId → List RouterAction
bloom_action r key peer_id = elim (get_send_bloom r.blooms key) [
  | none ↦ []
  | some bloom ↦ send_bloom peer_id bloom ∷ []
]

pub add_peer : Router → PeerEntry → ℕ → Router × List RouterAction
add_peer r entry nonce =
    let r' = open_link (open_key r entry) entry in
    let req = request_of r' entry.key nonce in
    let r'' = record r' {
      requests =
          if not (contains_key r'.requests entry.key)
          then insert r'.requests entry.key req
          else r'.requests;
      responded = remove r'.responded entry.id;
    } in
    (
      r'',
      resend_sent r entry
          ++ (send_sig_req entry.id (record { seq = req.seq; nonce = req.nonce })
              ∷ bloom_action r'' entry.key entry.id),
    )

pub is_empty : Map PeerId PeerEntry → Bool
is_empty [] = true
is_empty (e ∷ m) = false

-- What goes with the last link to a key.
pub close_key : Router → PublicKey → PeerPort → Router
close_key r key port = record r {
  peers = remove r.peers key;
  sent = remove r.sent key;
  ports = remove r.ports port;
  requests = remove r.requests key;
  responses = remove r.responses key;
  res_seqs = remove r.res_seqs key;
  ancs = remove r.ancs key;
  cache = remove r.cache key;
  blooms = remove_info r.blooms key;
}

pub bloom_actions : Router → PublicKey → List PeerEntry → List RouterAction
bloom_actions r key [] = []
bloom_actions r key (entry ∷ rest) = bloom_action r key entry.id ++ bloom_actions r key rest

pub close_link : Router → PeerId → Router
close_link r peer_id = record r {
  lags = remove r.lags peer_id;
  responded = remove r.responded peer_id;
  rtts = remove r.rtts peer_id;
}

pub remove_peer : Router → PeerId → PublicKey → PeerPort → Router × List RouterAction
remove_peer r peer_id key port =
    let r' = close_link r peer_id in
    elim (get r'.peers key) [
      | none ↦ (r', [])
      | some links ↦
          let left = remove links peer_id in
          if is_empty left
          then (close_key r' key port, [])
          else (record r' { peers = insert r'.peers key left }, bloom_actions r' key (values left))
    ]
