-- ===== src/Router/Announcing/Unsent.antt =====
-- `send_announces`: what was sent is not sent again; and the walk for an ancestry ends.
use yggdrasil_ng.Prelude.{
  ℕ, zero, suc, ◌+◌, ◌<◌, ◌≡◌, ◌≢◌, refl, ◌∙◌, List, [], ◌∷◌, ◌++◌, none, true, ◌||◌, ◌=?◌, arith,
  Bool-cases, Option-cases, inl, inr, beq_refl, length,
}
use yggdrasil_ng.Prelude.Bytes.{bytes_eq, bytes_beq_iff}
use yggdrasil_ng.Prelude.Map.{Map, get, insert, contains_key, contains_key-insert}
use yggdrasil_ng.Prelude.Map.Fresh.{fresh, fresh-le, fresh-insert-lt}
use yggdrasil_ng.Wire.Message.{PublicKey}
use yggdrasil_ng.Router.{PeerEntry, Router}
use yggdrasil_ng.Router.Tree.{Infos}
use yggdrasil_ng.Router.Lookup.{entries}
use yggdrasil_ng.Router.Announcing.{
  is_member, ancestry_loop, get_ancestry, unsent, announces, send_all, send_links, announce_rounds,
  send_announces,
}

abbrev Sent : Type 0
Sent = Map PublicKey (Unit {0})

-- The set that `unsent` leaves.
after : List PublicKey → Sent → Sent
after ks sent = (unsent ks sent).1

after_keeps :
    (ks : List PublicKey) (sent : Sent) (k : PublicKey)
    → contains_key sent k ≡ true
    → contains_key (after ks sent) k ≡ true
unfolding unsent after
after_keeps [] sent k h = h
after_keeps (j ∷ ks) sent k h = elim (Bool-cases (contains_key sent j)) [
  | inl c ↦ rw c (after_keeps ks sent k h)
  | inr c ↦
      rw c (
        after_keeps ks (insert sent j tt) k
          (rw (contains_key-insert sent j k tt, h) (ground arith)))
]

after_all :
    (ks : List PublicKey) (sent : Sent) (k : PublicKey)
    → is_member ks k ≡ true
    → contains_key (after ks sent) k ≡ true
unfolding unsent after is_member
after_all [] sent k h = absurd (cc h)
after_all (j ∷ ks) sent k h = elim (Bool-cases (j =? k)) [
  | inl same ↦
      let at : j ≡ k = (bytes_beq_iff j k).0 same in
      elim (Bool-cases (contains_key sent j)) [
        | inl c ↦ rw c (after_keeps ks sent k (rw (← at) c))
        | inr c ↦
            rw c (
              after_keeps ks (insert sent j tt) k (rw (contains_key-insert sent j k tt, same) refl))
      ]
  | inr other ↦
      let later : is_member ks k ≡ true = ground arith in
      elim (Bool-cases (contains_key sent j)) [
        | inl c ↦ rw c (after_all ks sent k later)
        | inr c ↦ rw c (after_all ks (insert sent j tt) k later)
      ]
]

unsent_nothing :
    (ks : List PublicKey) (sent : Sent)
    → ((k : PublicKey) → is_member ks k ≡ true → contains_key sent k ≡ true)
    → unsent ks sent ≡ ([], sent)
unfolding unsent is_member
unsent_nothing [] sent h = refl
unsent_nothing (j ∷ ks) sent h =
    let here : contains_key sent j ≡ true = h j (rw (beq_refl j) refl) in
    let later = unsent_nothing ks sent (λ k m. h k (ground arith)) in rw (here, later) refl

send_links-nil : (links : List PeerEntry) → send_links links [] ≡ []
unfolding send_links send_all
send_links-nil [] = refl
send_links-nil (entry ∷ rest) = send_links-nil rest

rounds_again :
    (r : Router) (anc : List PublicKey) (sent : Map PublicKey Sent)
    → announce_rounds r anc (announce_rounds r anc sent).0 ≡ ((announce_rounds r anc sent).0, [])
unfolding announce_rounds after announces
rounds_again r anc [] = refl
rounds_again r anc ((peer_key, sent) ∷ rest) =
    let theirs = get_ancestry r.infos peer_key in
    let sent' = after anc sent in
    let sent'' = after theirs sent' in
    let mine_done =
      unsent_nothing anc sent'' (λ k m. after_keeps theirs sent' k (after_all anc sent k m)) in
    let theirs_done = unsent_nothing theirs sent'' (after_all theirs sent') in
    rw
      (
        mine_done,
        theirs_done,
        rounds_again r anc rest,
        send_links-nil (entries (get r.peers peer_key)),
      )
      refl

-- A second send_announces right after the first sends nothing and changes nothing.
pub send_announces_again :
    (r : Router) → send_announces (send_announces r).0 ≡ ((send_announces r).0, [])
unfolding send_announces announce_rounds
send_announces_again r = rw (rounds_again r (get_ancestry r.infos r.self_key) r.sent) refl

is_member-append :
    (xs : List PublicKey) (y k : PublicKey)
    → is_member (xs ++ (y ∷ [])) k ≡ (is_member xs k || (y =? k))
unfolding is_member
is_member-append [] y k = ground arith
is_member-append (x ∷ xs) y k = ground (arith, is_member-append xs y k)

ancestry_loop-ends :
    (fuel : ℕ) (infos : Infos) (anc : List PublicKey) (visited : Sent) (here : PublicKey)
    → ((k : PublicKey) → contains_key visited k ≡ is_member anc k)
    → fresh infos visited < fuel
    → ancestry_loop fuel infos anc here ≢ none
unfolding ancestry_loop
ancestry_loop-ends zero infos anc visited here same h = absurd (omega arith)
ancestry_loop-ends (suc fuel) infos anc visited here same h =
    elim (Bool-cases (is_member anc here)) [
      | inl c ↦ rw (ancestry_loop, c) (λ p. cc p)
      | inr c ↦ elim (Option-cases (get infos here)) [
        | inl e ↦ rw (ancestry_loop, c, e) (λ p. cc p)
        | inr (info, e) ↦
            let less = fresh-insert-lt infos visited here tt info e (same here ∙ c) in
            rw (ancestry_loop, c, e)
              (ancestry_loop-ends fuel infos (anc ++ (here ∷ [])) (insert visited here tt)
                info.parent
                (λ k.
                  rw (contains_key-insert visited here k tt, is_member-append anc here k)
                    (ground (arith, same k)))
                (omega arith))
      ]
    ]

-- The walk for an ancestry ends within its fuel.
pub ancestry_loop-ne-none :
    (infos : Infos) (key : PublicKey) → ancestry_loop (length infos + 1) infos [] key ≢ none
unfolding is_member contains_key get
ancestry_loop-ne-none infos key =
    ancestry_loop-ends _ infos [] [] key (λ k. refl)
      (omega (arith, fresh-le {W = Unit {0}} infos []))
