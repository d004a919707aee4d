-- ===== src/Router/Lookup/Cache.antt =====
-- The cache of coordinates holds what the walk up the tree computes, so it changes no distance.
use yggdrasil_ng.Prelude.{Option-cases, ℕ, ◌≡◌, refl, inl, inr, List, some, arith}
use yggdrasil_ng.Prelude.Bytes.{bytes_eq, bytes_beq_iff}
use yggdrasil_ng.Prelude.Map.{get, insert, get-insert}
use yggdrasil_ng.Wire.Path.{PeerPort}
use yggdrasil_ng.Wire.Message.{PublicKey}
use yggdrasil_ng.Router.{RouterPath, Router}
use yggdrasil_ng.Router.Tree.{Infos}
use yggdrasil_ng.Router.Lookup.{Cache, path_of, cached_root_and_path, dist_between, get_dist}

abbrev pub IsCacheOf : Infos → Cache → Type 0
IsCacheOf infos cache =
    (k : PublicKey) (p : RouterPath) → get cache k ≡ some p → p ≡ path_of infos k

insert-IsCacheOf :
    (infos : Infos) (cache : Cache) (key : PublicKey)
    → IsCacheOf infos cache
    → IsCacheOf infos (insert cache key (path_of infos key))
insert-IsCacheOf infos cache key h k p e =
    ground (arith, get-insert cache key k (path_of infos key), bytes_beq_iff key k, h k p)

pub cached_root_and_path-IsCacheOf :
    (infos : Infos) (cache : Cache) (key : PublicKey)
    → IsCacheOf infos cache
    → ((cached_root_and_path infos cache key).0 ≡ path_of infos key)
      × IsCacheOf infos (cached_root_and_path infos cache key).1
unfolding cached_root_and_path
cached_root_and_path-IsCacheOf infos cache key h = elim (Option-cases (get cache key)) [
  | inl e ↦ rw (cached_root_and_path, e) (refl, insert-IsCacheOf infos cache key h)
  | inr (p, e) ↦ rw (cached_root_and_path, e) (h key p e, h)
]

-- The distance from `key` to the destination, without the cache.
unfoldable pub dist_of : Router → List PeerPort → PublicKey → ℕ
dist_of r path key =
    dist_between r.infos (path_of r.infos r.self_key).root (path_of r.infos key) path

-- With a cache that holds only true coordinates, the distance is the one computed without a cache,
-- and the cache stays so.
pub get_dist-IsCacheOf :
    (r : Router) (cache : Cache) (path : List PeerPort) (key : PublicKey)
    → IsCacheOf r.infos cache
    → ((get_dist r cache path key).0 ≡ dist_of r path key)
      × IsCacheOf r.infos (get_dist r cache path key).1
unfolding get_dist dist_of
get_dist-IsCacheOf r cache path key h =
    let (self_path, h1) = cached_root_and_path-IsCacheOf r.infos cache r.self_key h in
    let cache1 = (cached_root_and_path r.infos cache r.self_key).1 in
    let (key_path, h2) = cached_root_and_path-IsCacheOf r.infos cache1 key h1 in
    (rw (self_path, key_path) refl, h2)
