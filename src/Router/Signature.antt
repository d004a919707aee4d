-- ===== src/Router/Signature.antt =====
-- crates/ironwood/src/router.rs: the signature protocol, by which a node gets its parent's
-- signature. `Crypto::sign` and `Crypto::verify` are ed25519's and arguments, as is the random nonce.
use yggdrasil_ng.Prelude.{
  ℕ, ◌+◌, ◌*◌, ◌/◌, ◌%◌, ◌^◌, ◌≡◌, ◌≢◌, ◌⊎◌, refl, ap, ◌∙◌, inl, inr, [], ◌++◌, Option, none, some,
  Bool, true, false, ◌&&◌, not, ◌==◌, if◌then◌else◌, ◌=?◌, nat_eq, beq_refl, min, arith, Bool-cases,
}
use mathlib.Core.Option
use yggdrasil_ng.Prelude.Bytes.{Bytes, bytes_eq, bytes_beq_iff}
use yggdrasil_ng.Prelude.Map.{get, insert, contains_key, get-insert}
use yggdrasil_ng.Wire.Uvarint.{encode_uvarint}
use yggdrasil_ng.Wire.Path.{PeerPort}
use yggdrasil_ng.Wire.Message.{PublicKey, Sig, SigReq, SigRes}
use yggdrasil_ng.Router.{
  PeerId, PeerEntry, Router, RouterAnnounce, SigReqState, SigResState, bytes_for_sig, check,
}

-- One more than the number of the node's own entry, which wraps around, 1 without an entry.
unfoldable pub new_req : Router → ℕ → SigReqState
new_req r nonce = elim (get r.infos r.self_key) [
  | none ↦ record { seq = 1; nonce = nonce }
  | some info ↦ record { seq = (info.seq + 1) % 2 ^ 64; nonce = nonce }
]

pub sig_res_bytes_for_sig : PublicKey → PublicKey → ℕ → ℕ → PeerPort → Bytes
sig_res_bytes_for_sig node parent seq nonce port =
    encode_uvarint (encode_uvarint (encode_uvarint (([] ++ node) ++ parent) seq) nonce) port

-- The response, and the peer that it goes to.
pub handle_request_with_data : (Bytes → Sig) → Router → PeerEntry → SigReq → PeerId × SigRes
handle_request_with_data sign r peer req =
    let res_bytes = sig_res_bytes_for_sig peer.key r.self_key req.seq req.nonce peer.port in
    (peer.id, record { seq = req.seq; nonce = req.nonce; port = peer.port; psig = sign res_bytes })

pub check_sig_res : (PublicKey → Bytes → Sig → Bool) → SigRes → PublicKey → PublicKey → Bool
check_sig_res verify res node parent =
    if res.port == 0 && not (node =? parent)
    then false
    else verify parent (sig_res_bytes_for_sig node parent res.seq res.nonce res.port) res.psig

-- `Duration::from_nanos(u32::MAX as u64)`
abbrev unknown_latency : ℕ
unknown_latency = 4294967295

-- The new lag of a link whose round trip took `rtt`.
pub smoothed_lag : ℕ → ℕ → ℕ
smoothed_lag lag rtt =
    if lag == unknown_latency then rtt * 2 else lag * 7 / 8 + min rtt (lag * 2) / 8

-- Whether the response answers the request that is open.
pub req_match : Option SigReqState → SigRes → Bool
req_match none res = false
req_match (some req) res = req.seq == res.seq && req.nonce == res.nonce

save_rtt : Router → PeerId → ℕ → Router
save_rtt r peer_id rtt = if rtt == 0 then r else record r { rtts = insert r.rtts peer_id rtt }

pub state_of : SigRes → SigResState
state_of res = record { seq = res.seq; nonce = res.nonce; port = res.port; psig = res.psig }

save_response : Router → PublicKey → SigRes → Bool → Router
save_response r key res matches =
    if not (contains_key r.responses key) && matches
    then record r {
      res_seq_ctr = (r.res_seq_ctr + 1) % 2 ^ 64;
      res_seqs = insert r.res_seqs key ((r.res_seq_ctr + 1) % 2 ^ 64);
      responses = insert r.responses key (state_of res);
    }
    else r

save_lag : Router → PeerId → ℕ → Bool → Router
save_lag r peer_id rtt matches =
    if not (contains_key r.responded peer_id) && matches
    then record r {
      responded = insert r.responded peer_id tt;
      lags =
          insert r.lags peer_id
            (smoothed_lag (Option.get_or (get r.lags peer_id) unknown_latency) rtt);
    }
    else r

pub handle_response : Router → PeerId → PublicKey → SigRes → ℕ → Router
handle_response r peer_id key res rtt =
    let matches = req_match (get r.requests key) res in
    save_lag (save_response (save_rtt r peer_id rtt) key res matches) peer_id rtt matches

-- The answer to a signature request passes the requester's check, if the signer's signatures verify
-- and the port is not 0 or the nodes are one.
pub check_sig_res-handle_request :
    (sign : Bytes → Sig) (verify : PublicKey → Bytes → Sig → Bool) (r : Router) (peer : PeerEntry)
    (req : SigReq)
    → ((bytes : Bytes) → verify r.self_key bytes (sign bytes) ≡ true)
    → (peer.port ≢ 0) ⊎ (peer.key ≡ r.self_key)
    → check_sig_res verify (handle_request_with_data sign r peer req).1 peer.key r.self_key ≡ true
unfolding check_sig_res handle_request_with_data
check_sig_res-handle_request sign verify r peer req valid port = ground (
  arith,
  bytes_beq_iff peer.key r.self_key,
  valid (sig_res_bytes_for_sig peer.key r.self_key req.seq req.nonce peer.port),
)

-- An announcement made from a response passes `check` exactly if the response passes `check_sig_res`
-- and the node's own signature verifies.
pub check-check_sig_res :
    (verify : PublicKey → Bytes → Sig → Bool) (ann : RouterAnnounce)
    → check verify ann ≡ (
        check_sig_res verify
          (record { seq = ann.seq; nonce = ann.nonce; port = ann.port; psig = ann.psig })
          ann.key
          ann.parent
        && verify ann.key (bytes_for_sig ann) ann.sig)
unfolding check check_sig_res bytes_for_sig sig_res_bytes_for_sig
check-check_sig_res verify ann = ground arith

save_lag-responses :
    (r : Router) (peer_id : PeerId) (rtt : ℕ) (matches : Bool)
    → (save_lag r peer_id rtt matches).responses ≡ r.responses
unfolding save_lag
save_lag-responses r peer_id rtt matches =
    elim (Bool-cases (not (contains_key r.responded peer_id) && matches)) [
      | inl first ↦ rw (save_lag, first) refl
      | inr other ↦ rw (save_lag, other) refl
    ]

save_rtt-responses :
    (r : Router) (peer_id : PeerId) (rtt : ℕ) → (save_rtt r peer_id rtt).responses ≡ r.responses
unfolding save_rtt
save_rtt-responses r peer_id rtt = elim (Bool-cases (rtt == 0)) [
  | inl none_ ↦ rw (save_rtt, none_) refl
  | inr some_ ↦ rw (save_rtt, some_) refl
]

save_response-responses :
    (r : Router) (key : PublicKey) (res : SigRes) (matches : Bool)
    → get (save_response r key res matches).responses key ≡ (
        if not (contains_key r.responses key) && matches
        then some (state_of res)
        else get r.responses key)
unfolding save_response
save_response-responses r key res matches =
    elim (Bool-cases (not (contains_key r.responses key) && matches)) [
      | inl first ↦
          rw (save_response, first, get-insert r.responses key key (state_of res), beq_refl key)
            refl
      | inr other ↦ rw (save_response, other) refl
    ]

-- A response is kept exactly if it answers the open request and its peer has none yet; otherwise
-- what is kept stays.
pub handle_response-responses :
    (r : Router) (peer_id : PeerId) (key : PublicKey) (res : SigRes) (rtt : ℕ)
    → get (handle_response r peer_id key res rtt).responses key ≡ (
        if not (contains_key r.responses key) && req_match (get r.requests key) res
        then some (record { seq = res.seq; nonce = res.nonce; port = res.port; psig = res.psig })
        else get r.responses key)
unfolding handle_response state_of
handle_response-responses r peer_id key res rtt =
    let matches = req_match (get r.requests key) res in
    let timed = save_rtt r peer_id rtt in
    ap (λ m. get m key)
      (save_lag-responses (save_response timed key res matches) peer_id rtt matches)
    ∙ save_response-responses timed key res matches
    ∙ ap (λ m. if not (contains_key m key) && matches then some (state_of res) else get m key)
        (save_rtt-responses r peer_id rtt)

save_rtt-infos :
    (r : Router) (peer_id : PeerId) (rtt : ℕ)
    → ((save_rtt r peer_id rtt).infos ≡ r.infos) × ((save_rtt r peer_id rtt).cache ≡ r.cache)
unfolding save_rtt
save_rtt-infos r peer_id rtt = elim (Bool-cases (rtt == 0)) [
  | inl c ↦ rw (save_rtt, c) (refl, refl)
  | inr c ↦ rw (save_rtt, c) (refl, refl)
]

save_response-infos :
    (r : Router) (key : PublicKey) (res : SigRes) (matches : Bool)
    → ((save_response r key res matches).infos ≡ r.infos)
      × ((save_response r key res matches).cache ≡ r.cache)
unfolding save_response
save_response-infos r key res matches =
    elim (Bool-cases (not (contains_key r.responses key) && matches)) [
      | inl c ↦ rw (save_response, c) (refl, refl)
      | inr c ↦ rw (save_response, c) (refl, refl)
    ]

save_lag-infos :
    (r : Router) (peer_id : PeerId) (rtt : ℕ) (matches : Bool)
    → ((save_lag r peer_id rtt matches).infos ≡ r.infos)
      × ((save_lag r peer_id rtt matches).cache ≡ r.cache)
unfolding save_lag
save_lag-infos r peer_id rtt matches =
    elim (Bool-cases (not (contains_key r.responded peer_id) && matches)) [
      | inl c ↦ rw (save_lag, c) (refl, refl)
      | inr c ↦ rw (save_lag, c) (refl, refl)
    ]

-- A response leaves the announcements and the cache.
pub handle_response-infos :
    (r : Router) (peer_id : PeerId) (key : PublicKey) (res : SigRes) (rtt : ℕ)
    → ((handle_response r peer_id key res rtt).infos ≡ r.infos)
      × ((handle_response r peer_id key res rtt).cache ≡ r.cache)
unfolding handle_response
handle_response-infos r peer_id key res rtt =
    let matches = req_match (get r.requests key) res in
    let timed = save_rtt r peer_id rtt in
    let saved = save_response timed key res matches in
    let (i, c) = save_rtt-infos r peer_id rtt in
    let (i', c') = save_response-infos timed key res matches in
    let (i'', c'') = save_lag-infos saved peer_id rtt matches in (i'' ∙ i' ∙ i, c'' ∙ c' ∙ c)
