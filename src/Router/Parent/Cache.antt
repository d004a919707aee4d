-- ===== src/Router/Parent/Cache.antt =====
-- crates/ironwood/src/router.rs: `fix` leaves the cache empty, if it was.
use yggdrasil_ng.Prelude.{
  ℕ, ◌≡◌, refl, List, [], ◌∷◌, Bool, true, false, not, if◌then◌else◌, ◌=?◌, inl, inr, Bool-cases,
  Option-cases,
}
use yggdrasil_ng.Prelude.Bytes.{Bytes, bytes_eq}
use yggdrasil_ng.Prelude.Map.{Map, get}
use yggdrasil_ng.Wire.Message.{PublicKey, Sig}
use yggdrasil_ng.Router.{
  PeerId, PeerEntry, Router, RouterAnnounce, SigReqState, update, save, accepts, info_of,
  reset_cache,
}
use yggdrasil_ng.Router.Action.{RouterAction}
use yggdrasil_ng.Router.Lookup.{values}
use yggdrasil_ng.Router.Signature.{new_req}
use yggdrasil_ng.Router.Parent.{
  select_parent, become_root, use_response, clear_reqs, send_req_links, send_req_peers, send_reqs,
  reset_flags, try_response, fall_back, fix,
}

abbrev pub HasNoCache : Router → Type 0
HasNoCache r = r.cache ≡ []

pub update-HasNoCache :
    (r : Router) (ann : RouterAnnounce) (now : ℕ) → HasNoCache r → HasNoCache (update r ann now).0
unfolding update save reset_cache
update-HasNoCache r ann now h = elim (Bool-cases (accepts (get r.infos ann.key) (info_of ann))) [
  | inl c ↦ rw (update, c) refl
  | inr c ↦ rw (update, c) h
]

send_req_links-HasNoCache :
    (links : List PeerEntry) (r : Router) (req : SigReqState)
    → HasNoCache r
    → HasNoCache (send_req_links r req links).0
unfolding send_req_links
send_req_links-HasNoCache [] r req h = h
send_req_links-HasNoCache (entry ∷ rest) r req h = send_req_links-HasNoCache rest _ req h

send_req_peers-HasNoCache :
    (peers : Map PublicKey (Map PeerId PeerEntry)) (nonces : PublicKey → ℕ) (r : Router)
    → HasNoCache r
    → HasNoCache (send_req_peers nonces r peers).0
unfolding send_req_peers
send_req_peers-HasNoCache [] nonces r h = h
send_req_peers-HasNoCache ((pk, links) ∷ rest) nonces r h =
    send_req_peers-HasNoCache rest nonces _
      (send_req_links-HasNoCache (values links) _ (new_req r (nonces pk)) h)

send_reqs-HasNoCache :
    (nonces : PublicKey → ℕ) (r : Router)
    → HasNoCache r
    → HasNoCache (send_reqs nonces (reset_flags r)).0
unfolding send_reqs clear_reqs reset_flags
send_reqs-HasNoCache nonces r h = send_req_peers-HasNoCache r.peers nonces _ h

if-HasNoCache :
    (b : Bool) (x y : Router × List RouterAction)
    → HasNoCache x.0
    → HasNoCache y.0
    → HasNoCache (if b then x else y).0
if-HasNoCache true x y hx hy = hx
if-HasNoCache false x y hx hy = hy

flag-HasNoCache :
    (b : Bool) (r : Router)
    → HasNoCache r
    → HasNoCache (if b then record r { do_root1 = true } else r)
flag-HasNoCache true r h = h
flag-HasNoCache false r h = h

module _ (sign : Bytes → Sig) (nonces : PublicKey → ℕ) (r : Router) (now : ℕ)
    (h : HasNoCache r) where
  try_response-HasNoCache :
      (root parent : PublicKey) → HasNoCache (try_response sign r root parent now).0
  unfolding try_response use_response
  try_response-HasNoCache root parent = elim (Option-cases (get r.responses parent)) [
    | inl e ↦ rw (try_response, e) h
    | inr (res, e) ↦ elim (Bool-cases (root =? r.self_key)) [
      | inl c ↦ rw (try_response, e, c) h
      | inr c ↦ rw (try_response, e, c) (update-HasNoCache r _ now h)
    ]
  ]

  fall_back-HasNoCache : HasNoCache (fall_back sign nonces r now).0
  unfolding fall_back become_root
  fall_back-HasNoCache =
      if-HasNoCache r.do_root2 _ _ (send_reqs-HasNoCache nonces _ (update-HasNoCache r _ now h))
        (flag-HasNoCache (not r.do_root1) r h)

-- With an empty cache, fix leaves it empty: what it computed the coordinates from may have changed.
pub fix-HasNoCache :
    (sign : Bytes → Sig) (nonces : PublicKey → ℕ) (r : Router) (now : ℕ)
    → HasNoCache r
    → HasNoCache (fix sign nonces r now).0
unfolding fix
fix-HasNoCache sign nonces r now h =
    let (root, parent) = select_parent r in
    let (tried, used) = try_response sign r root parent now in
    let kept = try_response-HasNoCache sign nonces r now h root parent in
    if-HasNoCache _ _ _
      (if-HasNoCache used _ _ (send_reqs-HasNoCache nonces tried kept)
        (fall_back-HasNoCache sign nonces tried now kept))
      h
