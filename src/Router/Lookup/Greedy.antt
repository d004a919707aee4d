-- ===== src/Router/Lookup/Greedy.antt =====
-- What the choice of the next hop promises: every hop is strictly closer to the destination.
use yggdrasil_ng.Prelude.{
  ℕ, zero, suc, ◌+◌, ◌<◌, ◌≤◌, ◌≡◌, refl, ap, inl, inr, sym, ◌∙◌, List, [], Option, none, some,
  true, false, leb, arith, Bool-cases,
}
use mathlib.Core.List.{Memᴰ}
use mathlib.Core.List.Memᴰ
use mathlib.Core.Option
use yggdrasil_ng.Prelude.Bytes.{bytes_eq}
use yggdrasil_ng.Prelude.Map.{get}
use yggdrasil_ng.Wire.Path.{PeerPort}
use yggdrasil_ng.Wire.Message.{PublicKey}
use yggdrasil_ng.Router.{Router, PeerEntry, PeerId}
use yggdrasil_ng.Router.Lookup.{Cache, get_dist, choose, collect, entries, keys, lookup, u64_max}
use yggdrasil_ng.Router.Lookup.Cache.{IsCacheOf, dist_of, get_dist-IsCacheOf}
use yggdrasil_ng.Router.Lookup.Choice.{
  closer_entries, collect-closer_entries, IsCloser, closer_entries-IsCloser,
  closer_entries_complete, choose-mem, choose-none,
}

module _ (r : Router) (path : List PeerPort) (watermark : ℕ) where
  self_dist : ℕ
  self_dist = (get_dist r r.cache path r.self_key).0

  candidates : List PeerEntry × Cache
  candidates = collect r (get_dist r r.cache path r.self_key).1 path self_dist (keys r.peers) []

  best : Option PeerEntry × Cache
  best = choose r candidates.1 path candidates.0 none u64_max u64_max

  too_far :
      leb watermark self_dist ≡ true
      → ((lookup r path watermark).0 ≡ none) × ((lookup r path watermark).1 ≡ watermark)
  unfolding lookup self_dist
  too_far h = rw (lookup, h) (refl, refl)

  goes_on :
      leb watermark self_dist ≡ false
      → ((lookup r path watermark).0 ≡ Option.map (λ p. p.id) best.0)
        × ((lookup r path watermark).1 ≡ self_dist)
  unfolding lookup self_dist candidates best
  goes_on h = rw (lookup, h) (refl, refl)

map_id-some :
    (o : Option PeerEntry) (id : PeerId)
    → Option.map (λ p. p.id) o ≡ some id
    → (e : PeerEntry) × (o ≡ some e) × (e.id ≡ id)
map_id-some none id h = cc h
map_id-some (some e) id h = (e, refl, cc h)

map_id-none : (o : Option PeerEntry) → Option.map (λ p. p.id) o ≡ none → o ≡ none
map_id-none none h = refl
map_id-none (some e) h = cc h

some-goes_on :
    (r : Router) (path : List PeerPort) (watermark : ℕ) (id : PeerId)
    → (lookup r path watermark).0 ≡ some id
    → leb watermark (self_dist r path watermark) ≡ false
some-goes_on r path watermark id h =
    elim (Bool-cases (leb watermark (self_dist r path watermark))) [
      | inl far ↦ cc (h, (too_far r path watermark far).0)
      | inr near ↦ near
    ]

-- Where there is a next hop, the watermark to forward with is lower.
pub lookup-lowers_watermark :
    (r : Router) (path : List PeerPort) (watermark : ℕ) (id : PeerId)
    → (lookup r path watermark).0 ≡ some id
    → (lookup r path watermark).1 < watermark
lookup-lowers_watermark r path watermark id h =
    let near = some-goes_on r path watermark id h in
    let low : self_dist r path watermark < watermark = ground arith in
    rw ((goes_on r path watermark near).1) low

module _ (r : Router) (path : List PeerPort) (watermark : ℕ) (ok : IsCacheOf r.infos r.cache) where
  self_dist-dist_of : self_dist r path watermark ≡ dist_of r path r.self_key
  unfolding self_dist
  self_dist-dist_of = (get_dist-IsCacheOf r r.cache path r.self_key ok).0

  candidates-closer_entries :
      (candidates r path watermark).0
      ≡ closer_entries r path (dist_of r path r.self_key) (keys r.peers)
  unfolding candidates
  candidates-closer_entries =
      let ok' = (get_dist-IsCacheOf r r.cache path r.self_key ok).1 in
      (collect-closer_entries r path (self_dist r path watermark) (keys r.peers)
        (get_dist r r.cache path r.self_key).1 [] ok').0
      ∙ ap (λ d. closer_entries r path d (keys r.peers)) self_dist-dist_of

  best-mem :
      (e : PeerEntry)
      → (best r path watermark).0 ≡ some e
      → Memᴰ e (closer_entries r path (dist_of r path r.self_key) (keys r.peers))
  unfolding best
  best-mem e h =
      let found = candidates r path watermark in
      elim (choose-mem r path found.0 found.1 none u64_max u64_max e h) [
        | inl absent ↦ cc absent
        | inr m ↦ rw candidates-closer_entries at m
      ]

  best-none :
      (best r path watermark).0 ≡ none
      → closer_entries r path (dist_of r path r.self_key) (keys r.peers) ≡ []
  unfolding best
  best-none h =
      let found = candidates r path watermark in
      sym candidates-closer_entries ∙ (choose-none r path found.0 found.1 none u64_max u64_max h).1

  -- With a cache that holds only true coordinates, a next hop is a link to a peer that is strictly
  -- closer to the destination than this node; the new watermark is this node's distance and lies
  -- below the old one.
  pub lookup-IsCloser :
      (id : PeerId)
      → (lookup r path watermark).0 ≡ some id
      → ((lookup r path watermark).1 ≡ dist_of r path r.self_key)
        × (dist_of r path r.self_key < watermark)
        × (e : PeerEntry) × (key : PublicKey) × (e.id ≡ id)
        × IsCloser r path (dist_of r path r.self_key) e key
  lookup-IsCloser id h =
      let near = some-goes_on r path watermark id h in
      let (next, mark) = goes_on r path watermark near in
      let d = self_dist-dist_of in
      let (e, chosen, e_id) = map_id-some (best r path watermark).0 id (sym next ∙ h) in
      let (key, closer) =
        closer_entries-IsCloser r path (dist_of r path r.self_key) (keys r.peers) e
          (best-mem e chosen) in
      (mark ∙ d, rw (← d) (ground arith), e, key, e_id, closer)

  -- With a cache that holds only true coordinates and a watermark above this node's distance, a
  -- lookup finds no hop only where no link leads to a closer peer.
  pub lookup-stuck :
      (lookup r path watermark).0 ≡ none
      → dist_of r path r.self_key < watermark
      → (e : PeerEntry) (key : PublicKey) → Memᴰ key (keys r.peers)
      → Memᴰ e (entries (get r.peers key))
      → dist_of r path r.self_key ≤ dist_of r path key
  lookup-stuck h low e key known link =
      let near : leb watermark (self_dist r path watermark) ≡ false =
        rw self_dist-dist_of (ground arith) in
      let next = (goes_on r path watermark near).0 in
      let empty = best-none (map_id-none (best r path watermark).0 (sym next ∙ h)) in
      elim (Bool-cases (leb (dist_of r path r.self_key) (dist_of r path key))) [
        | inl c ↦ ground arith
        | inr c ↦
            let m =
              closer_entries_complete r path (dist_of r path r.self_key) (keys r.peers) e key known
                (link, ground arith) in
            absurd (Memᴰ.not-nil (rw empty at m))
      ]

-- A packet's way: one `lookup` after the other, each in the router of the node that has the packet,
-- whatever that node knows of the tree.
pub data Hops (path : List PeerPort) : ℕ → ℕ → ℕ → Type 0 where
  arrived : {w : ℕ} → Hops path w zero w
  hop :
      {w n w' : ℕ} (r : Router) (id : PeerId)
      → (lookup r path w).0 ≡ some id
      → Hops path (lookup r path w).1 n w'
      → Hops path w (suc n) w'

-- A chain of lookups in any routers, each with the watermark that the one before left, has at most
-- as many hops as the watermark falls.
pub Hops-bounded : (path : List PeerPort) {w n w' : ℕ} → Hops path w n w' → w' + n ≤ w
Hops-bounded path arrived = omega arith
Hops-bounded path {w = w} (hop r id h rest) =
    ground (arith, lookup-lowers_watermark r path w id h, Hops-bounded path rest)
