-- ===== src/Router/Lookup/Choice.antt =====
-- The candidates of the next hop, and the loop that takes the best of them.
use yggdrasil_ng.Prelude.{
  ℕ, ◌≡◌, ◌≢◌, ◌⊎◌, refl, ap, inl, inr, sym, ◌∙◌, List, [], ◌∷◌, ◌++◌, append-nil, append_assoc,
  Option, none, some, Bool, true, false, ltb, ◌<◌, arith, if◌then◌else◌,
}
use mathlib.Core.List.{Memᴰ}
use mathlib.Core.List.Memᴰ
use yggdrasil_ng.Prelude.Bytes.{bytes_eq}
use yggdrasil_ng.Prelude.Map.{get}
use yggdrasil_ng.Wire.Path.{PeerPort}
use yggdrasil_ng.Wire.Message.{PublicKey}
use yggdrasil_ng.Router.{Router, PeerEntry}
use yggdrasil_ng.Router.Lookup.{
  Cache, get_dist, get_cost, accepts_candidate, choose, entries, collect,
}
use yggdrasil_ng.Router.Lookup.Cache.{IsCacheOf, dist_of, get_dist-IsCacheOf}

-- The entries of the keys that are closer than `bound`.
pub closer_entries : Router → List PeerPort → ℕ → List PublicKey → List PeerEntry
closer_entries r path bound [] = []
closer_entries r path bound (k ∷ ks) =
    (if ltb (dist_of r path k) bound then entries (get r.peers k) else [])
    ++ closer_entries r path bound ks

append-if :
    (b : Bool) (xs ys zs : List PeerEntry)
    → (if b then xs ++ ys else xs) ++ zs ≡ xs ++ ((if b then ys else []) ++ zs)
append-if true xs ys zs = append_assoc xs ys zs
append-if false xs ys zs = refl

collect-cons :
    (r : Router) (path : List PeerPort) (bound : ℕ) (k : PublicKey) (ks : List PublicKey)
    (cache : Cache) (found : List PeerEntry)
    → IsCacheOf r.infos cache
    → collect r cache path bound (k ∷ ks) found
      ≡ collect r
          (get_dist r cache path k).1
          path
          bound
          ks
          (if ltb (dist_of r path k) bound then found ++ entries (get r.peers k) else found)
unfolding collect
collect-cons r path bound k ks cache found h =
    ap
      (λ d.
        collect r (get_dist r cache path k).1 path bound ks
          (if ltb d bound then found ++ entries (get r.peers k) else found))
      (get_dist-IsCacheOf r cache path k h).0

-- The loop over the peers collects the closer ones.
pub collect-closer_entries :
    (r : Router) (path : List PeerPort) (bound : ℕ) (ks : List PublicKey) (cache : Cache)
    (found : List PeerEntry)
    → IsCacheOf r.infos cache
    → ((collect r cache path bound ks found).0 ≡ found ++ closer_entries r path bound ks)
      × IsCacheOf r.infos (collect r cache path bound ks found).1
unfolding collect closer_entries
collect-closer_entries r path bound [] cache found h = (rw (append-nil found) refl, h)
collect-closer_entries r path bound (k ∷ ks) cache found h =
    let h' = (get_dist-IsCacheOf r cache path k h).1 in
    let es = entries (get r.peers k) in
    let closer = ltb (dist_of r path k) bound in
    let (rest, h'') =
      collect-closer_entries r path bound ks (get_dist r cache path k).1
        (if closer then found ++ es else found) h' in
    rw (collect-cons r path bound k ks cache found h)
      (rest ∙ append-if closer found es (closer_entries r path bound ks), h'')

mem-append_if :
    (b : Bool) (xs ys : List PeerEntry) (e : PeerEntry)
    → Memᴰ e ((if b then xs else []) ++ ys)
    → ((b ≡ true) × Memᴰ e xs) ⊎ Memᴰ e ys
mem-append_if true xs ys e m = elim (Memᴰ.append_cases xs m) [
  | inl h ↦ inl (refl, h)
  | inr h ↦ inr h
]
mem-append_if false xs ys e m = inr m

module _ (r : Router) (path : List PeerPort) (bound : ℕ) where
  -- The entry is one of the peers of the key, which is closer than `bound`.
  abbrev pub IsCloser : PeerEntry → PublicKey → Type 0
  IsCloser e key = Memᴰ e (entries (get r.peers key)) × (dist_of r path key < bound)

  pub closer_entries-IsCloser :
      (ks : List PublicKey) (e : PeerEntry)
      → Memᴰ e (closer_entries r path bound ks)
      → (key : PublicKey) × IsCloser e key
  unfolding closer_entries
  closer_entries-IsCloser [] e m = absurd (Memᴰ.not-nil m)
  closer_entries-IsCloser (k ∷ ks) e m =
      let es = entries (get r.peers k) in
      elim (mem-append_if (ltb (dist_of r path k) bound) es (closer_entries r path bound ks) e m) [
        | inl (closer, here) ↦ (k, (here, ground arith))
        | inr there ↦ closer_entries-IsCloser ks e there
      ]

  closer_entries-head :
      (ks : List PublicKey) (e : PeerEntry) (key : PublicKey)
      → IsCloser e key
      → Memᴰ e (closer_entries r path bound (key ∷ ks))
  unfolding closer_entries
  closer_entries-head ks e key (m, lt) =
      let closer : ltb (dist_of r path key) bound ≡ true = ground arith in
      rw closer (Memᴰ.append_left (closer_entries r path bound ks) m)

  pub closer_entries_complete :
      (ks : List PublicKey) (e : PeerEntry) (key : PublicKey)
      → Memᴰ key ks
      → IsCloser e key
      → Memᴰ e (closer_entries r path bound ks)
  unfolding closer_entries
  closer_entries_complete [] e key m h = absurd (Memᴰ.not-nil m)
  closer_entries_complete (k ∷ ks) e key (Memᴰ.head eq) h =
      rw (sym eq) (closer_entries-head ks e key h)
  closer_entries_complete (k ∷ ks) e key (Memᴰ.tail there) h =
      Memᴰ.append_right (if ltb (dist_of r path k) bound then entries (get r.peers k) else [])
        (closer_entries_complete ks e key there h)

if-best :
    (b : Bool) (p : PeerEntry) (best : Option PeerEntry) (e : PeerEntry)
    → (if b then some p else best) ≡ some e
    → (ps : List PeerEntry) → (best ≡ some e) ⊎ Memᴰ e (p ∷ ps)
if-best true p best e h ps = inr (Memᴰ.head (cc h))
if-best false p best e h ps = inl h

accepts_candidate-none :
    (p : PeerEntry) (c d : ℕ) (best : Option PeerEntry) (cost dist : ℕ)
    → best ≡ none
    → accepts_candidate p c d best cost dist ≡ true
unfolding accepts_candidate
accepts_candidate-none p c d none cost dist h = refl
accepts_candidate-none p c d (some b) cost dist h = cc h

if-none :
    (b : Bool) (p : PeerEntry) (best : Option PeerEntry)
    → (best ≡ none → b ≡ true)
    → (if b then some p else best) ≢ none
if-none true p best h k = cc k
if-none false p best h k = cc (h k)

module _ (r : Router) (path : List PeerPort) where
  -- The choice is the best so far or one of the candidates that are left.
  pub choose-mem :
      (ps : List PeerEntry) (cache : Cache) (best : Option PeerEntry) (cost dist : ℕ)
      (e : PeerEntry)
      → (choose r cache path ps best cost dist).0 ≡ some e
      → (best ≡ some e) ⊎ Memᴰ e ps
  unfolding choose
  choose-mem [] cache best cost dist e h = inl h
  choose-mem (p ∷ ps) cache best cost dist e h =
      let d = get_dist r cache path p.key in
      let c = get_cost r p.id in
      let b = accepts_candidate p c d.0 best cost dist in
      elim (choose-mem ps d.1 (if b then some p else best) (if b then c else cost)
        (if b then d.0 else dist) e h) [
          | inl k ↦ if-best b p best e k ps
          | inr m ↦ inr (Memᴰ.tail m)
        ]

  -- There is a choice if there is a candidate.
  pub choose-none :
      (ps : List PeerEntry) (cache : Cache) (best : Option PeerEntry) (cost dist : ℕ)
      → (choose r cache path ps best cost dist).0 ≡ none
      → (best ≡ none) × (ps ≡ [])
  unfolding choose
  choose-none [] cache best cost dist h = (h, refl)
  choose-none (p ∷ ps) cache best cost dist h =
      let d = get_dist r cache path p.key in
      let c = get_cost r p.id in
      let b = accepts_candidate p c d.0 best cost dist in
      absurd (
        if-none b p best (accepts_candidate-none p c d.0 best cost dist)
          (choose-none ps d.1 (if b then some p else best) (if b then c else cost)
            (if b then d.0 else dist) h).0)
