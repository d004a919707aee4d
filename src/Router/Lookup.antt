-- ===== src/Router/Lookup.antt =====
-- crates/ironwood/src/router.rs: tree distances and the choice of the next hop. These operations
-- change nothing of the router but the cache of coordinates, so that is the state they pass.
pub mod Metric
pub mod Cache
pub mod Choice
pub mod Greedy
use yggdrasil_ng.Prelude.{
  ℕ, ◌+◌, ◌-◌, ◌*◌, ◌/◌, ◌%◌, ◌^◌, List, [], ◌∷◌, ◌++◌, Option, none, some, Bool, true, false, not,
  ◌&&◌, ltb, leb, ◌==◌, if◌then◌else◌, ◌=?◌, nat_eq, length, min,
}
use yggdrasil_ng.Prelude.Bytes.{bytes_eq}
use yggdrasil_ng.Prelude.Map.{Map, get, insert}
use mathlib.Core.Option
use yggdrasil_ng.Wire.Path.{PeerPort}
use yggdrasil_ng.Wire.Message.{PublicKey}
use yggdrasil_ng.Router.{RouterInfo, RouterPath, Router, PeerEntry, PeerId}
use yggdrasil_ng.Router.Tree.{Infos, get_root_and_path}

abbrev pub Cache : Type 0
Cache = Map PublicKey RouterPath

abbrev pub u64_max : ℕ
u64_max = 2 ^ 64 - 1

-- Coordinates from the tree, without the cache.
unfoldable pub path_of : Infos → PublicKey → RouterPath
path_of infos key =
    let (root, path) = get_root_and_path infos key in record { root = root; path = path }

unfoldable pub cached_root_and_path : Infos → Cache → PublicKey → RouterPath × Cache
cached_root_and_path infos cache key = elim (get cache key) [
  | some path ↦ (path, cache)
  | none ↦ (path_of infos key, insert cache key (path_of infos key))
]

-- One round for each index that both paths have; `dist` is at least the lengths that are left.
unfoldable pub dist_loop : ℕ → List PeerPort → List PeerPort → ℕ
dist_loop dist [] ds = dist
dist_loop dist (k ∷ ks) [] = dist
dist_loop dist (k ∷ ks) (d ∷ ds) =
    let rest = dist_loop (dist - 2) ks ds in if k == d then rest else dist

-- Steps between two positions of one tree.
unfoldable pub tree_dist : List PeerPort → List PeerPort → ℕ
tree_dist key_path dest_path = dist_loop (length key_path + length dest_path) key_path dest_path

-- `infos.get(&root).map_or(true, |info| info.parent != root)`
unfoldable pub is_no_root : Infos → PublicKey → Bool
is_no_root infos root = elim (get infos root) [
  | none ↦ true
  | some info ↦ not (info.parent =? root)
]

-- `get_dist`, once it has the two sets of coordinates.
unfoldable pub dist_between : Infos → PublicKey → RouterPath → List PeerPort → ℕ
dist_between infos self_root key_path dest_path =
    if is_no_root infos key_path.root
    then u64_max
    else if not (key_path.root =? self_root)
    then u64_max
    else tree_dist key_path.path dest_path

unfoldable pub get_dist : Router → Cache → List PeerPort → PublicKey → ℕ × Cache
get_dist r cache dest_path key =
    let (self_path, cache) = cached_root_and_path r.infos cache r.self_key in
    let (key_path, cache) = cached_root_and_path r.infos cache key in
    (dist_between r.infos self_path.root key_path dest_path, cache)

-- `Duration::from_nanos(u32::MAX as u64)`
abbrev pub unknown_latency : ℕ
unknown_latency = 2 ^ 32 - 1

-- `as_millis() as u64`, at least 1. A `lag` is in nanoseconds.
unfoldable pub get_cost : Router → PeerId → ℕ
get_cost r id =
    let c = Option.get_or (get r.lags id) unknown_latency / 1000000 % 2 ^ 64 in
    if c == 0 then 1 else c

pub saturating_mul : ℕ → ℕ → ℕ
saturating_mul a b = min (a * b) u64_max

-- Whether the candidate `p` replaces the best peer `b` so far.
pub better : PeerEntry → ℕ → ℕ → PeerEntry → ℕ → ℕ → Bool
better p cost dist b best_cost best_dist =
    if p.key =? b.key && ltb p.prio b.prio
    then true
    else if p.key =? b.key && ltb b.prio p.prio
    then false
    else if ltb (saturating_mul cost dist) (saturating_mul best_cost best_dist)
    then true
    else if ltb (saturating_mul best_cost best_dist) (saturating_mul cost dist)
    then false
    else if ltb dist best_dist
    then true
    else if ltb best_dist dist
    then false
    else if ltb cost best_cost
    then true
    else if ltb best_cost cost
    then false
    else ltb p.order b.order

unfoldable pub accepts_candidate : PeerEntry → ℕ → ℕ → Option PeerEntry → ℕ → ℕ → Bool
accepts_candidate p cost dist none best_cost best_dist = true
accepts_candidate p cost dist (some b) best_cost best_dist =
    better p cost dist b best_cost best_dist

-- The loop over the candidates, with the best peer, its cost and its distance.
unfoldable pub choose :
    Router
    → Cache
    → List PeerPort
    → List PeerEntry
    → Option PeerEntry
    → ℕ
    → ℕ
    → Option PeerEntry × Cache
choose r cache path [] best best_cost best_dist = (best, cache)
choose r cache path (p ∷ ps) best best_cost best_dist =
    let (dist, cache) = get_dist r cache path p.key in
    let cost = get_cost r p.id in
    let take = accepts_candidate p cost dist best best_cost best_dist in
    choose r cache path ps (if take then some p else best) (if take then cost else best_cost)
      (if take then dist else best_dist)

unfoldable pub values : Map PeerId PeerEntry → List PeerEntry
values [] = []
values ((id, entry) ∷ m) = entry ∷ values m

unfoldable pub entries : Option (Map PeerId PeerEntry) → List PeerEntry
entries none = []
entries (some peers) = values peers

unfoldable pub keys : Map PublicKey (Map PeerId PeerEntry) → List PublicKey
keys [] = []
keys ((k, v) ∷ m) = k ∷ keys m

-- The entries of the peers that are closer than `best_dist`.
unfoldable pub collect :
    Router → Cache → List PeerPort → ℕ → List PublicKey → List PeerEntry → List PeerEntry × Cache
collect r cache path best_dist [] candidates = (candidates, cache)
collect r cache path best_dist (k ∷ ks) candidates =
    let (dist, cache) = get_dist r cache path k in
    collect r cache path best_dist ks
      (if ltb dist best_dist then candidates ++ entries (get r.peers k) else candidates)

-- The next hop, the watermark to forward with, and the router with its cache.
unfoldable pub lookup : Router → List PeerPort → ℕ → Option PeerId × ℕ × Router
lookup r path watermark =
    let (self_dist, cache) = get_dist r r.cache path r.self_key in
    let (candidates, cache') = collect r cache path self_dist (keys r.peers) [] in
    let (best, cache'') = choose r cache' path candidates none u64_max u64_max in
    if leb watermark self_dist
    then (none, watermark, record r { cache = cache })
    else (Option.map (λ p. p.id) best, self_dist, record r { cache = cache'' })
