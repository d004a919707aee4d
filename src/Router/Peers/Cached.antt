-- ===== src/Router/Peers/Cached.antt =====
-- Links that come and go leave the announcements, and keep the cached coordinates true.
use yggdrasil_ng.Prelude.{
  ℕ, ◌≡◌, refl, none, some, not, ◌=?◌, nat_eq, Bool-cases, Option-cases, inl, inr,
}
use yggdrasil_ng.Prelude.Bytes.{bytes_eq}
use yggdrasil_ng.Prelude.Map.{get, remove, contains_key, get-remove}
use yggdrasil_ng.Wire.Path.{PeerPort}
use yggdrasil_ng.Wire.Message.{PublicKey}
use yggdrasil_ng.Router.{PeerId, PeerEntry, Router}
use yggdrasil_ng.Router.Lookup.Cache.{IsCacheOf}
use yggdrasil_ng.Router.Peers.{
  open_key, open_link, add_peer, is_empty, close_key, close_link, remove_peer,
}

open_key-infos :
    (r : Router) (entry : PeerEntry)
    → ((open_key r entry).infos ≡ r.infos) × ((open_key r entry).cache ≡ r.cache)
unfolding open_key
open_key-infos r entry = elim (Bool-cases (not (contains_key r.peers entry.key))) [
  | inl c ↦ rw (open_key, c) (refl, refl)
  | inr c ↦ rw (open_key, c) (refl, refl)
]

pub add_peer-IsCacheOf :
    (r : Router) (entry : PeerEntry) (nonce : ℕ)
    → IsCacheOf r.infos r.cache
    → IsCacheOf (add_peer r entry nonce).0.infos (add_peer r entry nonce).0.cache
unfolding add_peer open_link
add_peer-IsCacheOf r entry nonce h = let (e, f) = open_key-infos r entry in rw (e, f) h

-- A cache with an entry less is still true.
remove-IsCacheOf :
    (r : Router) (key : PublicKey)
    → IsCacheOf r.infos r.cache
    → IsCacheOf r.infos (remove r.cache key)
remove-IsCacheOf r key h k p e = elim (Bool-cases (key =? k)) [
  | inl c ↦ let no : none ≡ some p = rw (get-remove r.cache key k, c) at e in absurd (cc no)
  | inr c ↦ h k p (rw (get-remove r.cache key k, c) at e)
]

pub remove_peer-IsCacheOf :
    (r : Router) (peer_id : PeerId) (key : PublicKey) (port : PeerPort)
    → IsCacheOf r.infos r.cache
    → IsCacheOf (remove_peer r peer_id key port).0.infos (remove_peer r peer_id key port).0.cache
unfolding remove_peer close_link close_key
remove_peer-IsCacheOf r peer_id key port h = elim (Option-cases (get r.peers key)) [
  | inl e ↦ rw (remove_peer, e) h
  | inr (links, e) ↦ elim (Bool-cases (is_empty (remove links peer_id))) [
    | inl last ↦ rw (remove_peer, e, last) (remove-IsCacheOf r key h)
    | inr more ↦ rw (remove_peer, e, more) h
  ]
]
