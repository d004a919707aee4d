-- ===== src/Router/Peers/Paired.antt =====
-- The maps by peer have the same keys.
use yggdrasil_ng.Prelude.{
  ℕ, ◌≡◌, refl, ap, List, [], ◌∷◌, some, Bool, true, false, if◌then◌else◌, ◌=?◌, arith, Bool-cases,
  Option-cases, inl, inr, beq_refl, nat_eq,
}
use yggdrasil_ng.Prelude.Bytes.{bytes_eq, bytes_beq_iff}
use yggdrasil_ng.Prelude.Map.{
  Map, get, insert, remove, modify, contains_key, get-remove, get-modify, contains_key-insert,
}
use yggdrasil_ng.Wire.Path.{PeerPort}
use yggdrasil_ng.Wire.Message.{PublicKey}
use yggdrasil_ng.Bloom.Peers.{Blooms, new_info, add_info, remove_info}
use yggdrasil_ng.Router.{PeerId, PeerEntry, Router}
use yggdrasil_ng.Router.Peers.{
  open_key, open_link, add_peer, is_empty, close_key, close_link, remove_peer,
}

contains_key-remove {κ} :
    {V : Type κ} (m : Map PublicKey V) (k j : PublicKey)
    → contains_key (remove m k) j ≡ (if k =? j then false else contains_key m j)
unfolding contains_key
contains_key-remove m k j = ground (arith, get-remove m k j)

contains_key-modify {κ} :
    {V : Type κ} (m : Map PublicKey V) (k j : PublicKey) (f : V → V)
    → contains_key (modify m k f) j ≡ contains_key m j
unfolding contains_key
contains_key-modify m k j f = ground (arith, get-modify m k j f)

contains_key-add_info :
    (blooms : Blooms) (k j : PublicKey)
    → contains_key (add_info blooms k) j ≡ (if k =? j then true else contains_key blooms j)
unfolding add_info
contains_key-add_info blooms k j =
    ground (arith, bytes_beq_iff k j, contains_key-insert blooms k j new_info)

-- A key has links exactly if it has a set of sent announcements, and exactly if it has filters.
abbrev pub IsPaired : Router → Type 0
IsPaired r =
    (k : PublicKey)
    → (contains_key r.sent k ≡ contains_key r.peers k)
      × (contains_key r.blooms k ≡ contains_key r.peers k)

paired_after : (c a b : Bool) → a ≡ b → (if c then true else a) ≡ (if c then true else b)
paired_after c a b e = ap (λ (x : Bool). if c then true else x) e

paired_without : (c a b : Bool) → a ≡ b → (if c then false else a) ≡ (if c then false else b)
paired_without c a b e = ap (λ (x : Bool). if c then false else x) e

open_key-IsPaired : (r : Router) (entry : PeerEntry) → IsPaired r → IsPaired (open_key r entry)
unfolding open_key
open_key-IsPaired r entry h k = elim (Bool-cases (contains_key r.peers entry.key)) [
  | inl c ↦ rw (open_key, c) (h k)
  | inr c ↦
      let (s, b) = h k in
      rw
        (
          open_key,
          c,
          contains_key-insert r.sent entry.key k [],
          contains_key-insert r.peers entry.key k [],
          contains_key-add_info r.blooms entry.key k,
        )
        (paired_after (entry.key =? k) _ _ s, paired_after (entry.key =? k) _ _ b)
]

open_link-IsPaired : (r : Router) (entry : PeerEntry) → IsPaired r → IsPaired (open_link r entry)
unfolding open_link
open_link-IsPaired r entry h k =
    rw (contains_key-modify r.peers entry.key k (λ links. insert links entry.id entry)) (h k)

-- A new link keeps the maps paired.
pub add_peer-IsPaired :
    (r : Router) (entry : PeerEntry) (nonce : ℕ) → IsPaired r → IsPaired (add_peer r entry nonce).0
unfolding add_peer
add_peer-IsPaired r entry nonce h =
    open_link-IsPaired (open_key r entry) entry (open_key-IsPaired r entry h)

close_key-IsPaired :
    (r : Router) (key : PublicKey) (port : PeerPort) → IsPaired r → IsPaired (close_key r key port)
unfolding close_key remove_info
close_key-IsPaired r key port h k =
    let (s, b) = h k in
    rw
      (
        contains_key-remove r.sent key k,
        contains_key-remove r.peers key k,
        contains_key-remove r.blooms key k,
      )
      (paired_without (key =? k) _ _ s, paired_without (key =? k) _ _ b)

contains_key-known {κ} :
    {V : Type κ} (m : Map PublicKey V) (k j : PublicKey) (v w : V)
    → get m k ≡ some v
    → contains_key (insert m k w) j ≡ contains_key m j
unfolding contains_key
contains_key-known m k j v w h = ground (arith, contains_key-insert m k j w, bytes_beq_iff k j)

-- So does a link that goes.
pub remove_peer-IsPaired :
    (r : Router) (peer_id : PeerId) (key : PublicKey) (port : PeerPort)
    → IsPaired r
    → IsPaired (remove_peer r peer_id key port).0
unfolding remove_peer close_link
remove_peer-IsPaired r peer_id key port h = elim (Option-cases (get r.peers key)) [
  | inl e ↦ λ k. rw (remove_peer, e) (h k)
  | inr (links, e) ↦ elim (Bool-cases (is_empty (remove links peer_id))) [
    | inl c ↦ λ k. rw (remove_peer, e, c) (close_key-IsPaired (close_link r peer_id) key port h k)
    | inr c ↦ λ k.
        rw (remove_peer, e, c, contains_key-known r.peers key k links (remove links peer_id) e)
          (h k)
  ]
]

-- With the last link to a key, what was kept for the key is gone.
pub remove_peer_last :
    (r : Router) (peer_id : PeerId) (key : PublicKey) (port : PeerPort)
    (links : Map PeerId PeerEntry)
    → get r.peers key ≡ some links
    → is_empty (remove links peer_id) ≡ true
    → (contains_key (remove_peer r peer_id key port).0.peers key ≡ false)
      × (contains_key (remove_peer r peer_id key port).0.sent key ≡ false)
      × (contains_key (remove_peer r peer_id key port).0.requests key ≡ false)
      × (contains_key (remove_peer r peer_id key port).0.responses key ≡ false)
      × (contains_key (remove_peer r peer_id key port).0.blooms key ≡ false)
unfolding remove_peer close_link close_key remove_info
remove_peer_last r peer_id key port links e c =
    rw
      (
        remove_peer,
        e,
        c,
        contains_key-remove r.peers key key,
        contains_key-remove r.sent key key,
        contains_key-remove r.requests key key,
        contains_key-remove r.responses key key,
        contains_key-remove r.blooms key key,
        beq_refl key,
      )
      (refl, refl, refl, refl, refl)

-- Links that come, with the nonces drawn for them, and links that go.
pub data PeerEvent : Type 0 where
  up : PeerEntry → ℕ → PeerEvent
  down : PeerId → PublicKey → PeerPort → PeerEvent

pub events : Router → List PeerEvent → Router
events r [] = r
events r (up entry nonce ∷ rest) = events (add_peer r entry nonce).0 rest
events r (down peer_id key port ∷ rest) = events (remove_peer r peer_id key port).0 rest

-- Through any links that come and go, a key has links exactly if it has a set of sent
-- announcements, and exactly if it has filters, provided that this held before.
pub events-IsPaired : (es : List PeerEvent) (r : Router) → IsPaired r → IsPaired (events r es)
unfolding events
events-IsPaired [] r h = h
events-IsPaired (up entry nonce ∷ rest) r h =
    events-IsPaired rest _ (add_peer-IsPaired r entry nonce h)
events-IsPaired (down peer_id key port ∷ rest) r h =
    events-IsPaired rest _ (remove_peer-IsPaired r peer_id key port h)
