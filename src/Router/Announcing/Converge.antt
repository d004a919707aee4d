-- ===== src/Router/Announcing/Converge.antt =====
-- `handle_announce`: two routers agree on a node after one of them has announced it to the other.
use yggdrasil_ng.Prelude.{
  ℕ, ◌≡◌, refl, sym, ap, ◌∙◌, List, [], ◌∷◌, some, Bool, true, false, not, if◌then◌else◌, ◌=?◌,
  ==_iff, arith, Bool-cases, Option-cases, inl, inr, beq_refl,
}
use yggdrasil_ng.Prelude.Bytes.{bytes_eq, bytes_beq_iff}
use yggdrasil_ng.Prelude.Map.{get, get-insert}
use yggdrasil_ng.Wire.Message.{PublicKey}
use yggdrasil_ng.Router.{
  PeerId, Router, RouterInfo, RouterAnnounce, get_announce, to_wire, from_wire, info_of, newer,
  accepts, save, update,
}
use yggdrasil_ng.Router.Action.{RouterAction, send_announce}
use yggdrasil_ng.Router.Order.{newer_connected}
use yggdrasil_ng.Router.Update.{merge, get-update, update_rejected, update_accepted}
use yggdrasil_ng.Router.Announcing.{mark_sent, info_beq, note_self, reply, handle_announce}

info_beq_sound : (a b : RouterInfo) → info_beq a b ≡ true → a ≡ b
unfolding info_beq
info_beq_sound a b h = ground (
  arith,
  bytes_beq_iff a.parent b.parent,
  bytes_beq_iff a.psig b.psig,
  bytes_beq_iff a.sig b.sig,
  ==_iff a.seq b.seq,
  ==_iff a.nonce b.nonce,
  ==_iff a.port b.port,
)

note_self-infos : (r : Router) (key : PublicKey) → (note_self r key).infos ≡ r.infos
unfolding note_self
note_self-infos r key = elim (Bool-cases (key =? r.self_key)) [
  | inl c ↦ rw (note_self, c) refl
  | inr c ↦ rw (note_self, c) refl
]

reply-infos :
    (r : Router) (peer_id : PeerId) (peer_key : PublicKey) (ann : RouterAnnounce)
    → (reply r peer_id peer_key ann).0.infos ≡ r.infos
unfolding reply mark_sent
reply-infos r peer_id peer_key ann = elim (Option-cases (get r.infos ann.key)) [
  | inl e ↦ rw (reply, e) refl
  | inr (old, e) ↦ rw (reply, e) refl
]

-- What the store holds after `handle_announce` is what `update` leaves.
handle_announce-infos :
    (r : Router) (peer_id : PeerId) (peer_key : PublicKey) (ann : RouterAnnounce) (now : ℕ)
    → (handle_announce r peer_id peer_key ann now).0.infos ≡ (update r ann now).0.infos
unfolding handle_announce mark_sent
handle_announce-infos r peer_id peer_key ann now =
    elim (Bool-cases (accepts (get r.infos ann.key) (info_of ann))) [
      | inl t ↦
          rw (handle_announce, update_accepted r ann now t)
            (note_self-infos (save r ann now) ann.key)
      | inr f ↦
          rw (handle_announce, update_rejected r ann now f) (reply-infos r peer_id peer_key ann)
    ]

-- The announcements among the actions, as the peer at the other end of the link handles them.
pub receive : Router → PeerId → PublicKey → ℕ → List RouterAction → Router
receive r peer_id peer_key now [] = r
receive r peer_id peer_key now (send_announce id ann ∷ rest) =
    receive (handle_announce r peer_id peer_key (from_wire ann) now).0 peer_id peer_key now rest
receive r peer_id peer_key now (action ∷ rest) = receive r peer_id peer_key now rest

module _ (b : Router) (peer_id : PeerId) (peer_key : PublicKey) (ann : RouterAnnounce)
    (now : ℕ) where
  quiet :
      accepts (get b.infos ann.key) (info_of ann) ≡ true
      → (handle_announce b peer_id peer_key ann now).1 ≡ []
  unfolding handle_announce
  quiet t = rw (handle_announce, update_accepted b ann now t) refl

  answers :
      (held : RouterInfo)
      → get b.infos ann.key ≡ some held
      → accepts (get b.infos ann.key) (info_of ann) ≡ false
      → (handle_announce b peer_id peer_key ann now).1 ≡ (
          if not (info_beq held (info_of ann))
          then send_announce peer_id (to_wire (get_announce held ann.key)) ∷ []
          else [])
  unfolding handle_announce reply
  answers held e f = rw (handle_announce, update_rejected b ann now f, reply, e) refl

settled :
    (mine held : RouterInfo)
    → newer held mine ≡ false
    → (held.seq ≡ mine.seq → held.parent ≡ mine.parent → held.nonce ≡ mine.nonce → held ≡ mine)
    → merge (some mine) held ≡ held
unfolding merge
settled mine held f agree = elim (Bool-cases (newer mine held)) [
  | inl t ↦ rw t refl
  | inr g ↦ let (s, p, n) = newer_connected held mine f g in rw g (sym (agree s p n))
]

module _ (a b : Router) (id_a id_b : PeerId) (key_a key_b : PublicKey) (ann : RouterAnnounce)
    (now later : ℕ) (held_a : get a.infos ann.key ≡ some (info_of ann)) where
  abbrev answer : Router × List RouterAction
  answer = handle_announce b id_a key_a ann now

  abbrev left : Router
  left = receive a id_b key_b later answer.1

  when_accepted :
      accepts (get b.infos ann.key) (info_of ann) ≡ true
      → get left.infos ann.key ≡ get answer.0.infos ann.key
  unfolding receive
  when_accepted t = rw (quiet b id_a key_a ann now t) (
      held_a
      ∙ sym (
          ap (λ m. get m ann.key)
            (handle_announce-infos b id_a key_a ann now
              ∙ ap (λ (p : Router × Bool). p.0.infos) (update_accepted b ann now t))
          ∙ unfold save in
            get-insert b.infos ann.key ann.key (info_of ann) ∙ rw (beq_refl ann.key) refl))

  when_rejected :
      (held : RouterInfo)
      → get b.infos ann.key ≡ some held
      → accepts (get b.infos ann.key) (info_of ann) ≡ false
      → (held.seq ≡ ann.seq
          → held.parent ≡ ann.parent
          → held.nonce ≡ ann.nonce
          → held ≡ info_of ann)
      → get left.infos ann.key ≡ get answer.0.infos ann.key
  unfolding receive from_wire to_wire get_announce info_of
  when_rejected held e f agree =
      let stays : get answer.0.infos ann.key ≡ some held =
        ap (λ m. get m ann.key)
          (handle_announce-infos b id_a key_a ann now
            ∙ ap (λ (p : Router × Bool). p.0.infos) (update_rejected b ann now f))
        ∙ e in
      let old : newer held (info_of ann) ≡ false = unfold accepts in rw e at f in
      elim (Bool-cases (info_beq held (info_of ann))) [
        | inl c ↦
            let same = info_beq_sound held (info_of ann) c in
            rw (answers b id_a key_a ann now held e f, c, stays)
              (held_a ∙ ap (λ i. some i) (sym same))
        | inr c ↦
            let back = from_wire (to_wire (get_announce held ann.key)) in
            rw (answers b id_a key_a ann now held e f, c, stays)
              (ap (λ m. get m ann.key) (handle_announce-infos a id_b key_b back later)
                ∙ get-update a back later ann.key
                ∙ rw (beq_refl ann.key, held_a)
                    (ap (λ i. some i) (settled (info_of ann) held old agree)))
      ]

  -- When a router announces its entry for a node to another, and handles what the other sends back,
  -- both hold the same entry for that node, provided that the other's entry is the announced one if
  -- they agree in sequence number, parent and nonce.
  pub handle_announce_converges :
      ((held : RouterInfo)
        → get b.infos ann.key ≡ some held
        → held.seq ≡ ann.seq
        → held.parent ≡ ann.parent
        → held.nonce ≡ ann.nonce
        → held ≡ info_of ann)
      → get (receive a id_b key_b later (handle_announce b id_a key_a ann now).1).infos ann.key
        ≡ get (handle_announce b id_a key_a ann now).0.infos ann.key
  handle_announce_converges agree =
      elim (Bool-cases (accepts (get b.infos ann.key) (info_of ann))) [
        | inl t ↦ when_accepted t
        | inr f ↦ elim (Option-cases (get b.infos ann.key)) [
          | inl e ↦ let no : true ≡ false = unfold accepts in rw e at f in absurd (cc no)
          | inr (held, e) ↦ when_rejected held e f (agree held e)
        ]
      ]
