-- ===== src/Tests/Router.antt =====
-- crates/ironwood/src/router.rs: the theorems at a net of two nodes.
use yggdrasil_ng.Prelude.{
  ℕ, ◌+◌, ◌<◌, ◌≤◌, ◌≡◌, ◌≢◌, refl, [], ◌∷◌, none, some, Bool, true, false, All, arith, ◌&&◌,
}
use mathlib.Core.List.{reverse, Memᴰ}
use yggdrasil_ng.Prelude.Bytes.{Bytes, bytes_eq, bytes_beq}
use yggdrasil_ng.Prelude.Map.{get, insert, contains_key}
use yggdrasil_ng.Wire.Message.{PublicKey, Sig}
use yggdrasil_ng.Router.{
  RouterInfo, RouterAnnounce, PeerEntry, Router, bytes_for_sig, check, update, info_of,
}
use yggdrasil_ng.Router.Update.{Agree, update-update_comm, IsNewest, updates, updates-IsNewest}
use yggdrasil_ng.Router.Tree.{Infos, get_root_and_path, coords_loop}
use yggdrasil_ng.Router.Tree.Climb.{Climb, at_root, below}
use yggdrasil_ng.Router.Tree.Coords.{get_root_and_path-Climb}
use yggdrasil_ng.Router.Lookup.{
  tree_dist, get_dist, lookup, entries, keys, dist_loop, path_of, cached_root_and_path, is_no_root,
  dist_between, get_cost, choose, collect, values, accepts_candidate,
}
use yggdrasil_ng.Router.Lookup.Cache.{IsCacheOf, dist_of, get_dist-IsCacheOf}
use yggdrasil_ng.Router.Lookup.Choice.{IsCloser}
use yggdrasil_ng.Router.Lookup.Greedy.{
  lookup-IsCloser, lookup-stuck, Hops, arrived, hop, Hops-bounded,
}
use yggdrasil_ng.Router.Signature.{check_sig_res, check-check_sig_res}
use yggdrasil_ng.Tests.{key_a, key_b, some_sig}

abbrev root_info : RouterInfo
root_info = record { parent = key_a; seq = 1; nonce = 0; port = 0; psig = some_sig; sig = some_sig }

abbrev child_info : RouterInfo
child_info = record {
  parent = key_a;
  seq = 2;
  nonce = 0;
  port = 3;
  psig = some_sig;
  sig = some_sig;
}

abbrev infos : Infos
infos = (key_a, root_info) ∷ (key_b, child_info) ∷ []

abbrev link_b : PeerEntry
link_b = record { id = 8; key = key_b; port = 3; prio = 0; order = 0 }

-- The root of the net, with a link to its child.
abbrev root_node : Router
root_node = record {
  self_key = key_a;
  peers = (key_b, (8, link_b) ∷ []) ∷ [];
  sent = [];
  infos = infos;
  info_times = [];
  cache = [];
  lags = [];
  rtts = [];
  requests = (key_b, record { seq = 3; nonce = 77 }) ∷ [];
  responses = [];
  responded = [];
  res_seqs = [];
  res_seq_ctr = 0;
  refresh = false;
  do_root1 = false;
  do_root2 = false;
  ports = [];
  ancs = [];
  blooms = [];
  bloom_transform = none;
  router_refresh = 240;
  router_timeout = 300;
}

abbrev ann : ℕ → RouterAnnounce
ann seq = record {
  key = key_b;
  parent = key_a;
  seq = seq;
  nonce = 0;
  port = 3;
  psig = some_sig;
  sig = some_sig;
}

two_and_three-Agree : Agree (ann 2) (ann 3)
two_and_three-Agree = λ k s p n. absurd (omega arith)

update-update_comm_example :
    get (update (update root_node (ann 2) 10).0 (ann 3) 20).0.infos key_b
    ≡ get (update (update root_node (ann 3) 10).0 (ann 2) 20).0.infos key_b
update-update_comm_example =
    update-update_comm root_node (ann 2) (ann 3) 10 20 key_b two_and_three-Agree

updates-IsNewest_example :
    All
      (λ (p : RouterAnnounce × ℕ).
        IsNewest (updates root_node ((ann 3, 10) ∷ (ann 2, 20) ∷ [])) p.0.key (info_of p.0))
      ((ann 3, 10) ∷ (ann 2, 20) ∷ [])
updates-IsNewest_example = updates-IsNewest ((ann 3, 10) ∷ (ann 2, 20) ∷ []) root_node

key_a-Climb : Climb infos key_a key_a []
unfolding get bytes_beq
key_a-Climb = at_root root_info refl refl

key_a-ne-key_b : key_a ≢ key_b
key_a-ne-key_b e = cc e

key_b-Climb : Climb infos key_b key_a (3 ∷ [])
unfolding get bytes_beq
key_b-Climb = below child_info refl key_a-ne-key_b key_a-Climb

get_root_and_path-Climb_example : get_root_and_path infos key_b ≡ (key_a, reverse (3 ∷ []))
get_root_and_path-Climb_example = get_root_and_path-Climb infos key_b key_a (3 ∷ []) key_b-Climb

empty-IsCacheOf : IsCacheOf infos []
unfolding get
empty-IsCacheOf k p h = cc h

get_dist-IsCacheOf_example :
    ((get_dist root_node [] (3 ∷ []) key_b).0 ≡ dist_of root_node (3 ∷ []) key_b)
    × IsCacheOf infos (get_dist root_node [] (3 ∷ []) key_b).1
get_dist-IsCacheOf_example = get_dist-IsCacheOf root_node [] (3 ∷ []) key_b empty-IsCacheOf

next_hop : (lookup root_node (3 ∷ []) 100).0 ≡ some 8
unfolding lookup get_dist cached_root_and_path path_of get_root_and_path coords_loop dist_between
    is_no_root tree_dist dist_loop collect choose accepts_candidate get_cost keys entries values get
    insert contains_key bytes_beq
next_hop = refl

lookup-IsCloser_example :
    ((lookup root_node (3 ∷ []) 100).1 ≡ dist_of root_node (3 ∷ []) key_a)
    × (dist_of root_node (3 ∷ []) key_a < 100)
    × (e : PeerEntry) × (key : PublicKey) × (e.id ≡ 8)
    × IsCloser root_node (3 ∷ []) (dist_of root_node (3 ∷ []) key_a) e key
lookup-IsCloser_example = lookup-IsCloser root_node (3 ∷ []) 100 empty-IsCacheOf 8 next_hop

one_hop : Hops (3 ∷ []) 100 1 (lookup root_node (3 ∷ []) 100).1
one_hop = hop root_node 8 next_hop arrived

Hops-bounded_example : (lookup root_node (3 ∷ []) 100).1 + 1 ≤ 100
Hops-bounded_example = Hops-bounded (3 ∷ []) one_hop

-- At its own coordinates the node is the nearest.
no_hop : (lookup root_node [] 100).0 ≡ none
unfolding lookup get_dist cached_root_and_path path_of get_root_and_path coords_loop dist_between
    is_no_root tree_dist dist_loop collect choose accepts_candidate get_cost keys entries values get
    insert contains_key bytes_beq
no_hop = refl

near : dist_of root_node [] key_a < 100
unfolding dist_of path_of get_root_and_path coords_loop dist_between is_no_root tree_dist dist_loop
    get insert contains_key bytes_beq
near = omega arith

peer_of_b : Memᴰ link_b (entries (get root_node.peers key_b))
unfolding entries values get bytes_beq
peer_of_b = Memᴰ.head refl

key_of_b : Memᴰ key_b (keys root_node.peers)
unfolding keys
key_of_b = Memᴰ.head refl

lookup-stuck_example : dist_of root_node [] key_a ≤ dist_of root_node [] key_b
lookup-stuck_example =
    lookup-stuck root_node [] 100 empty-IsCacheOf no_hop near link_b key_b key_of_b peer_of_b

abbrev verify_all : PublicKey → Bytes → Sig → Bool
verify_all key bytes sig = true

check-check_sig_res_example : check verify_all (ann 3) ≡ (
    check_sig_res verify_all (record { seq = 3; nonce = 0; port = 3; psig = some_sig }) key_b key_a
    && verify_all key_b (bytes_for_sig (ann 3)) some_sig)
check-check_sig_res_example = check-check_sig_res verify_all (ann 3)
