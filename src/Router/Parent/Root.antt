-- ===== src/Router/Parent/Root.antt =====
-- `fix`: what it leaves of the node's place in the tree.
use yggdrasil_ng.Prelude.{
  ℕ, ◌+◌, ◌%◌, ◌^◌, ◌<◌, ◌≡◌, ◌≢◌, refl, ap, ◌∙◌, List, [], ◌∷◌, Bool, true, false, ◌||◌, not,
  if◌then◌else◌, ◌=?◌, arith, Bool-cases, Option-cases, inl, inr, some, beq_refl,
}
use yggdrasil_ng.Prelude.Bytes.{Bytes, bytes_eq, bytes_ltb, bytes_beq_iff, bytes_ltb_irrefl}
use yggdrasil_ng.Prelude.Map.{Map, get, get-insert}
use yggdrasil_ng.Wire.Path.{PeerPort}
use yggdrasil_ng.Wire.Message.{PublicKey, Sig}
use yggdrasil_ng.Router.{
  PeerId, PeerEntry, Router, RouterInfo, SigReqState, info_of, newer, accepts, reset_cache, save,
}
use yggdrasil_ng.Router.Action.{RouterAction}
use yggdrasil_ng.Router.Signature.{new_req}
use yggdrasil_ng.Router.Lookup.{values}
use yggdrasil_ng.Router.Tree.{Infos}
use yggdrasil_ng.Router.Tree.Climb.{Climb, at_root}
use yggdrasil_ng.Router.Update.{update_accepted, update_rejected}
use yggdrasil_ng.Router.Parent.{
  current_parent, select_parent, root_announce, become_root, child_announce, use_response,
  clear_reqs, send_req_links, send_req_peers, send_reqs, reset_flags, try_response, fall_back, fix,
}
use yggdrasil_ng.Router.Parent.Least.{LeadsTo, select_parent_sound, select_parent-le}
use yggdrasil_ng.Router.Parent.Adopt.{use_response-Climb}

-- The number after that of the node's own announcement, if it has one, fits in 64 bits.
abbrev pub HasNext : Infos → PublicKey → Type 0
HasNext infos self = (info : RouterInfo) → get infos self ≡ some info → info.seq + 1 < 2 ^ 64

new_req-seq :
    (r : Router) (nonce : ℕ) (info : RouterInfo)
    → HasNext r.infos r.self_key
    → get r.infos r.self_key ≡ some info
    → (new_req r nonce).seq ≡ info.seq + 1
unfolding new_req
new_req-seq r nonce info next e =
    let fits = next info e in
    let kept : (info.seq + 1) % 2 ^ 64 ≡ info.seq + 1 = omega (arith, fits) in rw (new_req, e) kept

-- The number of the announcement that a node makes of itself is then above the last one.
root_accepted :
    (sign : Bytes → Sig) (r : Router) (nonce : ℕ)
    → HasNext r.infos r.self_key
    → accepts (get r.infos r.self_key) (info_of (root_announce sign r nonce)) ≡ true
unfolding accepts newer info_of root_announce
root_accepted sign r nonce next = elim (Option-cases (get r.infos r.self_key)) [
  | inl e ↦ rw e refl
  | inr (info, e) ↦ let n = new_req-seq r nonce info next e in rw e (ground (arith, n))
]

-- Becoming root is then accepted, and makes the node its own root.
pub become_root-Climb :
    (sign : Bytes → Sig) (r : Router) (nonce now : ℕ)
    → HasNext r.infos r.self_key
    → ((become_root sign r nonce now).1 ≡ true)
      × Climb (become_root sign r nonce now).0.infos r.self_key r.self_key []
unfolding become_root root_announce save reset_cache info_of
become_root-Climb sign r nonce now next =
    let ann = root_announce sign r nonce in
    let e = update_accepted r ann now (root_accepted sign r nonce next) in
    (
      rw e refl,
      rw e (
          at_root (info_of ann)
            (get-insert r.infos r.self_key r.self_key (info_of ann) ∙ rw (beq_refl r.self_key) refl)
            refl),
    )

-- Requests leave the announcements as they are.
send_req_links-infos :
    (links : List PeerEntry) (r : Router) (req : SigReqState)
    → (send_req_links r req links).0.infos ≡ r.infos
unfolding send_req_links
send_req_links-infos [] r req = refl
send_req_links-infos (entry ∷ rest) r req = send_req_links-infos rest _ req

send_req_peers-infos :
    (peers : Map PublicKey (Map PeerId PeerEntry)) (nonces : PublicKey → ℕ) (r : Router)
    → (send_req_peers nonces r peers).0.infos ≡ r.infos
unfolding send_req_peers
send_req_peers-infos [] nonces r = refl
send_req_peers-infos ((pk, links) ∷ rest) nonces r =
    send_req_peers-infos rest nonces _
    ∙ send_req_links-infos (values links) _ (new_req r (nonces pk))

send_reqs-infos :
    (nonces : PublicKey → ℕ) (r : Router) → (send_reqs nonces (reset_flags r)).0.infos ≡ r.infos
unfolding send_reqs clear_reqs reset_flags
send_reqs-infos nonces r = send_req_peers-infos r.peers nonces _

-- A node with a place in the tree: its way up ends at a root that is not above its own key.
abbrev pub HasPlace : Infos → PublicKey → Type 0
HasPlace infos self =
    (root : PublicKey) × ((up : List PeerPort) × Climb infos self root up
      × (bytes_ltb self root ≡ false))

module _ (sign : Bytes → Sig) (now : ℕ) (r : Router) (root parent : PublicKey) where
  try_response_used :
      LeadsTo r root parent
      → bytes_ltb r.self_key root ≡ false
      → (try_response sign r root parent now).1 ≡ true
      → HasPlace (try_response sign r root parent now).0.infos r.self_key
  unfolding try_response
  try_response_used h le used = elim (Option-cases (get r.responses parent)) [
    | inl e ↦ let no : false ≡ true = rw (try_response, e) at used in absurd (cc no)
    | inr (res, e) ↦ elim (Bool-cases (root =? r.self_key)) [
      | inl c ↦ let no : false ≡ true = rw (try_response, e, c) at used in absurd (cc no)
      | inr c ↦
          let away : root ≢ r.self_key = λ p. cc ((bytes_beq_iff root r.self_key).1 p, c) in
          let (up, w) =
            use_response-Climb sign r root parent res now h away
              (rw (try_response, e, c) at used) in
          rw (try_response, e, c) (root, (up, w, le))
    ]
  ]

  try_response_unused :
      (try_response sign r root parent now).1 ≡ false → (try_response sign r root parent now).0 ≡ r
  unfolding try_response use_response
  try_response_unused unused = elim (Option-cases (get r.responses parent)) [
    | inl e ↦ rw (try_response, e) refl
    | inr (res, e) ↦ elim (Bool-cases (root =? r.self_key)) [
      | inl c ↦ rw (try_response, e, c) refl
      | inr c ↦
          let ann = child_announce sign r parent res in
          elim (Bool-cases (accepts (get r.infos ann.key) (info_of ann))) [
            | inl t ↦
                let no : true ≡ false =
                  rw (try_response, e, c, update_accepted r ann now t) at unused in
                absurd (cc no)
            | inr f ↦ rw (try_response, e, c, update_rejected r ann now f) refl
          ]
    ]
  ]

fall_back-root :
    (sign : Bytes → Sig) (nonces : PublicKey → ℕ) (r : Router) (now : ℕ)
    → r.do_root2 ≡ true
    → fall_back sign nonces r now
      ≡ send_reqs nonces (reset_flags (become_root sign r (nonces r.self_key) now).0)
unfolding fall_back
fall_back-root sign nonces r now second = ap (λ (b : Bool). if b then made else waiting) second
  where
    made : Router × List RouterAction
    made = send_reqs nonces (reset_flags (become_root sign r (nonces r.self_key) now).0)

    waiting : Router × List RouterAction
    waiting = (if not r.do_root1 then record r { do_root1 = true } else r, [])

-- After fix in a state with do_root2 set, whatever the announcements and responses are, the parents
-- of the node lead to a root, and the root's key is not above its own, provided that the number
-- after that of its own announcement fits in 64 bits.
pub fix-HasPlace :
    (sign : Bytes → Sig) (nonces : PublicKey → ℕ) (r : Router) (now : ℕ)
    → r.do_root2 ≡ true
    → HasNext r.infos r.self_key
    → HasPlace (fix sign nonces r now).0.infos r.self_key
unfolding fix
fix-HasPlace sign nonces r now second next =
    let root = (select_parent r).0 in
    let parent = (select_parent r).1 in
    let tried = try_response sign r root parent now in
    let open_ : (r.refresh || r.do_root1 || r.do_root2 || not (current_parent r =? parent)) ≡ true =
      ground arith in
    elim (Bool-cases tried.1) [
      | inl used ↦
          let place =
            try_response_used sign now r root parent (select_parent_sound r) (select_parent-le r)
              used in
          rw (fix, open_, used, send_reqs-infos nonces tried.0) place
      | inr unused ↦
          let same = try_response_unused sign now r root parent unused in
          let made = become_root sign r (nonces r.self_key) now in
          rw
            (
              fix,
              open_,
              unused,
              same,
              fall_back-root sign nonces r now second,
              send_reqs-infos nonces made.0,
            )
            (
              r.self_key,
              (
                [],
                (become_root-Climb sign r (nonces r.self_key) now next).1,
                bytes_ltb_irrefl r.self_key,
              ),
            )
    ]
