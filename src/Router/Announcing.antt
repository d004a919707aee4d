-- ===== src/Router/Announcing.antt =====
-- crates/ironwood/src/router.rs: tree announcements from peers and to them.
pub mod Converge
pub mod Unsent
use yggdrasil_ng.Prelude.{
  ℕ, zero, suc, ◌+◌, List, [], ◌∷◌, ◌++◌, Option, none, some, Bool, true, false, ◌&&◌, not,
  if◌then◌else◌, ◌==◌, ◌=?◌, nat_eq, length,
}
use mathlib.Core.List.{reverse}
use mathlib.Core.Option
use yggdrasil_ng.Prelude.Bytes.{Bytes, bytes_eq}
use yggdrasil_ng.Prelude.Map.{Map, get, insert, remove, modify, contains_key}
use yggdrasil_ng.Wire.Message.{PublicKey, Announce}
use yggdrasil_ng.Bloom.Peers.{BloomInfo, do_maintenance}
use yggdrasil_ng.Bloom.{BloomFilter}
use yggdrasil_ng.Router.{
  PeerId, PeerEntry, Router, RouterInfo, RouterAnnounce, get_announce, to_wire, info_of, update,
}
use yggdrasil_ng.Router.Action.{RouterAction, send_announce, send_bloom}
use yggdrasil_ng.Router.Tree.{Infos}
use yggdrasil_ng.Router.Lookup.{entries, keys}
use yggdrasil_ng.Router.Parent.{current_parent}

-- `if let Some(sent) = self.sent.get_mut(peer_key) { sent.insert(k); }`
unfoldable pub mark_sent : Router → PublicKey → PublicKey → Router
mark_sent r peer_key k = record r { sent = modify r.sent peer_key (λ sent. insert sent k tt) }

pub info_beq : RouterInfo → RouterInfo → Bool
info_beq a b =
    a.parent =? b.parent
    && (a.seq == b.seq
        && (a.nonce == b.nonce && (a.port == b.port && (a.psig =? b.psig && a.sig =? b.sig))))

-- An announcement of ourselves asks for a new one.
unfoldable pub note_self : Router → PublicKey → Router
note_self r key = if key =? r.self_key then record r { refresh = true } else r

-- The answer to an announcement that was not accepted: what we know, if it differs.
unfoldable pub reply : Router → PeerId → PublicKey → RouterAnnounce → Router × List RouterAction
reply r peer_id peer_key ann = elim (get r.infos ann.key) [
  | none ↦ (r, [])
  | some old_info ↦ (
    mark_sent r peer_key ann.key,
    if not (info_beq old_info (info_of ann))
        then send_announce peer_id (to_wire (get_announce old_info ann.key)) ∷ []
        else [],
  )
]

unfoldable pub handle_announce :
    Router → PeerId → PublicKey → RouterAnnounce → ℕ → Router × List RouterAction
handle_announce r peer_id peer_key ann now =
    let (r', accepted) = update r ann now in
    if accepted
    then (mark_sent (note_self r' ann.key) peer_key ann.key, [])
    else reply r' peer_id peer_key ann

unfoldable pub is_member : List PublicKey → PublicKey → Bool
is_member [] k = false
is_member (j ∷ js) k = if j =? k then true else is_member js k

-- One round for each node of the walk, `none` if there are more than `fuel`.
pub ancestry_loop : ℕ → Infos → List PublicKey → PublicKey → Option (List PublicKey)
ancestry_loop zero infos anc here = none
ancestry_loop (suc fuel) infos anc here = elim (is_member anc here) [
  | true ↦ some anc
  | false ↦ elim (get infos here) [
    | none ↦ some anc
    | some info ↦ ancestry_loop fuel infos (anc ++ (here ∷ [])) info.parent
  ]
]

pub backwards_ancestry : Infos → PublicKey → List PublicKey
backwards_ancestry infos key = Option.get_or (ancestry_loop (length infos + 1) infos [] key) []

pub get_ancestry : Infos → PublicKey → List PublicKey
get_ancestry infos key = reverse (backwards_ancestry infos key)

pub keys_beq : List PublicKey → List PublicKey → Bool
keys_beq [] [] = true
keys_beq [] (y ∷ ys) = false
keys_beq (x ∷ xs) [] = false
keys_beq (x ∷ xs) (y ∷ ys) = if x =? y then keys_beq xs ys else false

pub is_other : Option (List PublicKey) → List PublicKey → Bool
is_other none anc = true
is_other (some old) anc = not (keys_beq old anc)

-- The rounds of `update_ancestries`.
pub update_ancestries_of :
    Infos → Map PublicKey (List PublicKey) → List PublicKey → Map PublicKey (List PublicKey)
update_ancestries_of infos ancs [] = ancs
update_ancestries_of infos ancs (k ∷ ks) =
    let anc = get_ancestry infos k in
    update_ancestries_of infos (if is_other (get ancs k) anc then insert ancs k anc else ancs) ks

unfoldable pub update_ancestries : Router → Router
update_ancestries r = record r { ancs = update_ancestries_of r.infos r.ancs (keys r.peers) }

-- The keys that were not sent yet, and the set with them.
pub unsent : List PublicKey → Map PublicKey (Unit {0}) → List PublicKey × Map PublicKey (Unit {0})
unsent [] sent = ([], sent)
unsent (k ∷ ks) sent =
    let seen = contains_key sent k in
    let (rest, sent') = unsent ks (if seen then sent else insert sent k tt) in
    (if seen then rest else k ∷ rest, sent')

pub announces : Infos → List PublicKey → List Announce
announces infos [] = []
announces infos (k ∷ ks) =
    let rest = announces infos ks in
    elim (get infos k) [ none ↦ rest | some info ↦ to_wire (get_announce info k) ∷ rest ]

pub send_all : PeerId → List Announce → List RouterAction
send_all peer_id [] = []
send_all peer_id (ann ∷ anns) = send_announce peer_id ann ∷ send_all peer_id anns

pub send_links : List PeerEntry → List Announce → List RouterAction
send_links [] anns = []
send_links (entry ∷ rest) anns = send_all entry.id anns ++ send_links rest anns

-- The rounds of `send_announces`, one for each entry of `sent`.
pub announce_rounds :
    Router
    → List PublicKey
    → Map PublicKey (Map PublicKey (Unit {0}))
    → Map PublicKey (Map PublicKey (Unit {0})) × List RouterAction
announce_rounds r self_anc [] = ([], [])
announce_rounds r self_anc ((peer_key, sent) ∷ rest) =
    let (mine, sent') = unsent self_anc sent in
    let (theirs, sent'') = unsent (get_ancestry r.infos peer_key) sent' in
    let (others, actions) = announce_rounds r self_anc rest in
    (
      (peer_key, sent'') ∷ others,
      send_links (entries (get r.peers peer_key)) (announces r.infos (mine ++ theirs)) ++ actions,
    )

unfoldable pub send_announces : Router → Router × List RouterAction
send_announces r =
    let (sent, actions) = announce_rounds r (get_ancestry r.infos r.self_key) r.sent in
    (record r { sent = sent }, actions)

pub parent_map : Infos → Map PublicKey PublicKey
parent_map [] = []
parent_map ((k, info) ∷ infos) = (k, info.parent) ∷ parent_map infos

pub bloom_to_links : BloomFilter → List PeerEntry → List RouterAction
bloom_to_links bloom [] = []
bloom_to_links bloom (entry ∷ rest) = send_bloom entry.id bloom ∷ bloom_to_links bloom rest

pub bloom_sends : Router → List (PublicKey × BloomFilter) → List RouterAction
bloom_sends r [] = []
bloom_sends r ((k, bloom) ∷ rest) =
    bloom_to_links bloom (entries (get r.peers k)) ++ bloom_sends r rest

-- None is the panic in `get_bloom_for`.
unfoldable pub blooms_maintenance : (Bytes → ℕ) → Router → Option (Router × List RouterAction)
blooms_maintenance murmur r =
    elim (do_maintenance murmur r.blooms r.self_key (current_parent r) (parent_map r.infos)
      r.bloom_transform) [
        | none ↦ none
        | some (blooms, to_send) ↦ some (record r { blooms = blooms }, bloom_sends r to_send)
      ]
