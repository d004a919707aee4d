-- ===== src/Tests/Tree.antt =====
-- crates/ironwood/src/router.rs: the theorems on parents, links and announcements at a node that
-- hears of a lower root.
use yggdrasil_ng.Prelude.{◌≡◌, ◌⊎◌, ◌↔◌, refl, ap, ◌∙◌, [], ◌∷◌, none, some, true, false, arith}
use mathlib.Core.List.{Memᴰ}
use yggdrasil_ng.Prelude.Bytes.{bytes_eq, bytes_beq, bytes_ltb}
use yggdrasil_ng.Prelude.Map.{get, insert, contains_key, Distinct}
use yggdrasil_ng.Router.{RouterInfo, RouterAnnounce, PeerEntry, info_of, SigResState, Router}
use yggdrasil_ng.Router.Tree.{dists_loop, get_root_and_dists}
use yggdrasil_ng.Router.Parent.{response_keys, is_candidate, select_parent}
use yggdrasil_ng.Router.Parent.Least.{select_parent_least}
use yggdrasil_ng.Router.Peers.Paired.{IsPaired, up, down, events, events-IsPaired}
use yggdrasil_ng.Router.Announcing.{handle_announce}
use yggdrasil_ng.Router.Announcing.Converge.{receive, handle_announce_converges}
use yggdrasil_ng.Router.Expire.{IsInTime, expire_infos, get-expire_infos}
use yggdrasil_ng.Tests.{key_a, key_b, some_sig}

abbrev root_info : RouterInfo
root_info = record { parent = key_a; seq = 1; nonce = 0; port = 0; psig = some_sig; sig = some_sig }

abbrev lone_info : RouterInfo
lone_info = record { parent = key_b; seq = 2; nonce = 0; port = 0; psig = some_sig; sig = some_sig }

abbrev link_a : PeerEntry
link_a = record { id = 7; key = key_a; port = 4; prio = 0; order = 0 }

abbrev response : SigResState
response = record { seq = 3; nonce = 77; port = 5; psig = some_sig }

-- A node that is its own root, with a link to the lower root, which has responded.
abbrev lone_node : Router
lone_node = record {
  self_key = key_b;
  peers = (key_a, (7, link_a) ∷ []) ∷ [];
  sent = (key_a, []) ∷ [];
  infos = (key_a, root_info) ∷ (key_b, lone_info) ∷ [];
  info_times = (key_a, 10) ∷ (key_b, 200) ∷ [];
  cache = [];
  lags = [];
  rtts = [];
  requests = [];
  responses = (key_a, response) ∷ [];
  responded = [];
  res_seqs = [];
  res_seq_ctr = 0;
  refresh = false;
  do_root1 = false;
  do_root2 = true;
  ports = (4, key_a) ∷ [];
  ancs = [];
  blooms = [];
  bloom_transform = none;
  router_refresh = 240;
  router_timeout = 300;
}

key_a_candidate : is_candidate lone_node key_a ≡ true
unfolding is_candidate get_root_and_dists dists_loop contains_key get bytes_beq insert
key_a_candidate = refl

a_responded : Memᴰ key_a (response_keys lone_node.responses)
unfolding response_keys
a_responded = Memᴰ.head refl

select_parent_least_example :
    (bytes_ltb (get_root_and_dists lone_node.infos key_a).0 (select_parent lone_node).0 ≡ false)
    × (bytes_ltb lone_node.self_key (select_parent lone_node).0 ≡ false)
select_parent_least_example = select_parent_least lone_node key_a a_responded key_a_candidate

abbrev bare_node : Router
bare_node = record lone_node { peers = []; sent = []; responses = [] }

bare_node-IsPaired : IsPaired bare_node
unfolding contains_key get
bare_node-IsPaired k = (refl, refl)

events-IsPaired_example : IsPaired (events bare_node (up link_a 5 ∷ down 7 key_a 4 ∷ []))
events-IsPaired_example =
    events-IsPaired (up link_a 5 ∷ down 7 key_a 4 ∷ []) bare_node bare_node-IsPaired

-- An older announcement of the root.
abbrev old_announce : RouterAnnounce
old_announce = record {
  key = key_a;
  parent = key_a;
  seq = 0;
  nonce = 0;
  port = 0;
  psig = some_sig;
  sig = some_sig;
}

abbrev behind : Router
behind = record lone_node {
  infos =
      (
        key_a,
        record { parent = key_a; seq = 0; nonce = 0; port = 0; psig = some_sig; sig = some_sig },
      )
      ∷ [];
}

behind_held : get behind.infos key_a ≡ some (info_of old_announce)
unfolding get bytes_beq info_of
behind_held = refl

lone_held : get lone_node.infos key_a ≡ some root_info
unfolding get bytes_beq
lone_held = refl

-- The announcements have different numbers.
no_tie :
    (held : RouterInfo)
    → get lone_node.infos key_a ≡ some held
    → held.seq ≡ 0
    → held.parent ≡ key_a
    → held.nonce ≡ 0
    → held ≡ info_of old_announce
no_tie held e s p n =
    let same : root_info ≡ held = cc (lone_held, e) in
    let one : root_info.seq ≡ 0 = ap (λ (i : RouterInfo). i.seq) same ∙ s in
    absurd (omega (arith, one))

handle_announce_converges_example :
    get
      (receive behind 7 key_a 300 (handle_announce lone_node 7 key_a old_announce 300).1).infos
      key_a
    ≡ get (handle_announce lone_node 7 key_a old_announce 300).0.infos key_a
handle_announce_converges_example =
    handle_announce_converges behind lone_node 7 7 key_a key_a old_announce 300 300 behind_held
      no_tie

times_Distinct : Distinct lone_node.info_times
unfolding get bytes_beq
times_Distinct = (refl, (refl, tt))

get-expire_infos_example : (get (expire_infos lone_node 400).infos key_a ≡ some root_info) ↔ (
    (get lone_node.infos key_a ≡ some root_info) × ((key_a ≡ key_b) ⊎ IsInTime lone_node 400 key_a))
get-expire_infos_example = get-expire_infos lone_node 400 key_a root_info times_Distinct
