-- ===== src/Tests/Node.antt =====
-- crates/ironwood/src/router.rs: the theorems on the handlers, at two nodes below one root.
use yggdrasil_ng.Prelude.{
  ℕ, ◌≡◌, refl, List, [], ◌∷◌, ◌++◌, none, some, Bool, true, false, ◌=?◌, replicate, ◌+◌, ◌^◌, ◌-◌,
  beq_refl, ap, arith,
}
use yggdrasil_ng.Prelude.Bytes.{Bytes, bytes_eq, bytes_beq}
use yggdrasil_ng.Prelude.Map.{get, insert, modify, contains_key}
use yggdrasil_ng.Wire.Path.{PeerPort}
use yggdrasil_ng.Wire.Message.{PublicKey, Sig, PathLookup, PathNotify}
use yggdrasil_ng.Traffic.{TrafficPacket}
use yggdrasil_ng.Bloom.Peers.{BloomInfo, new_info, is_on_tree, x_key, get_multicast_targets}
use yggdrasil_ng.Router.{RouterInfo, RouterAnnounce, PeerEntry, Router}
use yggdrasil_ng.Router.Action
use yggdrasil_ng.Router.Action.{RouterAction}
use yggdrasil_ng.Router.Expire.{best_peer_for_key, best_of, least_prio}
use yggdrasil_ng.Router.Lookup.{
  u64_max, tree_dist, get_dist, lookup, entries, keys, dist_loop, path_of, cached_root_and_path,
  is_no_root, dist_between, get_cost, choose, collect, values, accepts_candidate,
}
use yggdrasil_ng.Router.Tree.{get_root_and_path, coords_loop}
use yggdrasil_ng.Bloom.{test, test_loop, get_bit, word_bit, location, hash_at, base_hashes}
use yggdrasil_ng.Pathfinder.Rumors.{
  ensure_rumor, cache_rumor_traffic, should_throttle_rumor, recent, mark_rumor_sent,
}
use yggdrasil_ng.Pathfinder.Paths.{get_path, live_path, should_throttle_lookup, mark_lookup_sent}
use yggdrasil_ng.Router.Parent.Root.{HasPlace, HasNext}
use yggdrasil_ng.Node.{Node, Outside, next_hop, cached_coords, after_actions}
use yggdrasil_ng.Node.Handlers.{
  do_send_lookup, start_lookup, handle_lookup_internal, multicast, route_traffic,
}
use yggdrasil_ng.Node.Entry.{
  send_far, wait_for_path, send_rumor, send_traffic, handle_lookup, handle_notify, handle_traffic,
}
use yggdrasil_ng.Node.Frame.{HasTrueCache, Fine}
use yggdrasil_ng.Node.Events.{
  Event, sent, received, looked_up, handle_all, handle_all-Fine, route_traffic_total,
}
use yggdrasil_ng.Node.Delivery.{send_traffic-handle_traffic}
use yggdrasil_ng.Node.Upkeep.{do_maintenance, force_refresh}
use yggdrasil_ng.Node.Runs.{
  Step, handled, maintained, linked, unlinked, requested, answered, announced, filtered, refreshed,
  aged, node_run, node_run-HasTrueCache,
}
use yggdrasil_ng.Node.Start.{RouterConfig, new_node, new_node-HasPlace}
use yggdrasil_ng.Node.Place.{do_maintenance-HasPlace, force_refresh-HasPlace}
use yggdrasil_ng.Node.Arrival.{GoesOut, own_coords}
use yggdrasil_ng.Node.Reply.{HasSigned, answering, discovery-GoesOut}
use yggdrasil_ng.Tests.{key_a, key_b, some_sig}

abbrev key_c : PublicKey
key_c = 3 ∷ []

abbrev info_below : PublicKey → PeerPort → RouterInfo
info_below parent port = record {
  parent = parent;
  seq = 1;
  nonce = 0;
  port = port;
  psig = some_sig;
  sig = some_sig;
}

abbrev up_link : PeerEntry
up_link = record { id = 7; key = key_c; port = 1; prio = 0; order = 0 }

abbrev up_filter : BloomInfo
up_filter = record new_info { recv = record { bits = replicate 128 (2 ^ 64 - 1) }; on_tree = true }

-- A node with this key below the root, with a link to the root.
abbrev below_root : PublicKey → PeerPort → Router
below_root key port = record {
  self_key = key;
  peers = (key_c, (7, up_link) ∷ []) ∷ [];
  sent = (key_c, []) ∷ [];
  infos = (key_c, info_below key_c 0) ∷ (key, info_below key_c port) ∷ [];
  info_times = (key_c, 10) ∷ (key, 10) ∷ [];
  cache = [];
  lags = [];
  rtts = [];
  requests = [];
  responses = [];
  responded = [];
  res_seqs = [];
  res_seq_ctr = 0;
  refresh = false;
  do_root1 = false;
  do_root2 = false;
  ports = (1, key_c) ∷ [];
  ancs = [];
  blooms = (key_c, up_filter) ∷ [];
  bloom_transform = none;
  router_refresh = 240;
  router_timeout = 300;
}

abbrev fresh_node : PublicKey → PeerPort → Node
fresh_node key port = record {
  router = below_root key port;
  pathfinder = record {
    info = record { seq = 0; path = []; sig = some_sig };
    paths = [];
    rumors = [];
  };
  last_refresh = 0;
  path_timeout = 60;
  path_throttle = 1;
}

abbrev node_a : Node
node_a = fresh_node key_a 1

abbrev node_b : Node
node_b = fresh_node key_b 2

abbrev sig_check : PublicKey → Bytes → Sig → Bool
sig_check key bytes sig = sig =? some_sig

-- Outside at a time.
abbrev at : ℕ → Outside
at now = record {
  murmur = λ bytes. 5;
  verify = sig_check;
  crypto_sign = λ bytes. some_sig;
  now = now;
  unix_secs = now + 1000;
}

abbrev to_b : TrafficPacket
to_b = record {
  path = [];
  from = [];
  source = key_a;
  dest = key_b;
  watermark = u64_max;
  payload = 8 ∷ 9 ∷ [];
  keepalive = false;
}

abbrev for_b : PathLookup
for_b = record { source = key_a; dest = key_b; from = 1 ∷ [] }

true_cache : (key : PublicKey) (port : PeerPort) → HasTrueCache (fresh_node key port)
unfolding get
true_cache key port k p h = absurd (cc h)

-- The node after it sent the packet.
abbrev waiting_a : Node
waiting_a = record node_a {
  router = record (below_root key_a 1) {
    cache = (key_a, record { root = key_c; path = 1 ∷ [] }) ∷ [];
  };
  pathfinder = record {
    info = record { seq = 0; path = []; sig = some_sig };
    paths = [];
    rumors =
        (
          key_b,
          record { traffic = some to_b; send_time = some 10; retry_time = none; created = 10 },
        )
        ∷ [];
  };
}

a_sends : send_traffic (at 10) node_a to_b ≡ some (waiting_a, Action.send_path_lookup 7 for_b ∷ [])
unfolding send_traffic best_peer_for_key best_of least_prio entries values get bytes_beq get_path
    live_path send_far wait_for_path send_rumor ensure_rumor contains_key insert cache_rumor_traffic
    modify should_throttle_rumor recent mark_rumor_sent do_send_lookup should_throttle_lookup
    start_lookup mark_lookup_sent cached_coords cached_root_and_path path_of get_root_and_path
    coords_loop handle_lookup_internal x_key after_actions multicast get_multicast_targets test
    test_loop get_bit word_bit location hash_at base_hashes
a_sends = refl

hop_b : (next_hop (answering node_b) (1 ∷ []) u64_max).0 ≡ some 7
unfolding next_hop cached_coords lookup get_dist cached_root_and_path path_of get_root_and_path
    coords_loop get insert bytes_beq contains_key dist_between is_no_root tree_dist dist_loop
    collect keys values entries choose get_cost accepts_candidate
hop_b = refl

stop_a : (next_hop waiting_a (1 ∷ []) 1).0 ≡ none
unfolding next_hop lookup get_dist cached_root_and_path path_of get_root_and_path coords_loop get
    insert bytes_beq contains_key dist_between is_no_root tree_dist dist_loop collect keys values
    entries choose get_cost accepts_candidate
stop_a = refl

b_far : best_peer_for_key node_a.router key_b ≡ none
unfolding best_peer_for_key best_of entries get bytes_beq
b_far = refl

c_near : is_on_tree node_b.router.blooms key_c ≡ true
unfolding is_on_tree get bytes_beq
c_near = refl

b_other : (key_b =? key_a) ≡ false
unfolding bytes_beq
b_other = refl

discovery-GoesOut_example :
    (b' : Node) × (m : PathNotify) × (more : List RouterAction) × (handle_lookup
        (at 20)
        node_b
        key_c
        for_b
      ≡ some (b', more ++ (Action.send_path_notify 7 m ∷ [])))
    × (m.info.path ≡ own_coords node_b)
    × GoesOut
        (at 30)
        node_a
        to_b
        (record m { watermark = 1 })
        (handle_notify (at 30) waiting_a key_c (record m { watermark = 1 }))
unfolding x_key get
discovery-GoesOut_example =
    discovery-GoesOut (at 10) (at 30) (at 20) node_a waiting_a node_b to_b for_b
      (Action.send_path_lookup 7 for_b ∷ []) key_c key_c 7 1 (true_cache key_a 1)
      (true_cache key_b 2) (λ bytes. beq_refl some_sig) (beq_refl some_sig) refl refl refl refl
      b_other b_far refl refl a_sends c_near hop_b stop_a

abbrev later_events : List (Outside × Event)
later_events = (at 10, sent to_b) ∷ (at 11, looked_up key_c for_b) ∷ (at 12, received to_b) ∷ []

handle_all-Fine_example : Fine node_a (handle_all node_a later_events)
handle_all-Fine_example = handle_all-Fine later_events node_a

route_traffic_total_example :
    (route_traffic 5 (at 10) node_a to_b ≡ route_traffic 2 (at 10) node_a to_b)
    × ((answer : Node × List RouterAction) × (route_traffic 2 (at 10) node_a to_b ≡ some answer))
route_traffic_total_example = route_traffic_total (at 10) node_a to_b 3

-- A packet for the root, which is a direct peer.
abbrev to_c : TrafficPacket
to_c = record to_b { dest = key_c }

c_link : best_peer_for_key node_a.router key_c ≡ some 7
unfolding best_peer_for_key best_of least_prio entries values get bytes_beq
c_link = refl

send_traffic-handle_traffic_example :
    (handed : TrafficPacket) × (n' : Node) × (m' : Node) × (send_traffic (at 10) node_a to_c
      ≡ some (n', Action.send_traffic 7 handed ∷ []))
    × (handed.payload ≡ to_c.payload)
    × (handle_traffic (at 10) (fresh_node key_c 0) handed
        ≡ some (m', Action.path_notify_callback key_a ∷ Action.deliver_traffic handed ∷ []))
send_traffic-handle_traffic_example =
    send_traffic-handle_traffic (at 10) (at 10) node_a (fresh_node key_c 0) to_c 7 refl c_link refl

abbrev one_nonce : PublicKey → ℕ
one_nonce key = 1

abbrev ticked_a : Node
ticked_a = record node_a { router = record (below_root key_a 1) { do_root1 = true } }

a_next : HasNext node_a.router.infos key_a
unfolding get bytes_beq
a_next info e =
    let same : info_below key_c 1 ≡ info = cc e in
    let one : 1 ≡ info.seq = ap (λ (i : RouterInfo). i.seq) same in omega (arith, one)

do_maintenance-HasPlace_example :
    (n' : Node) × (actions : List RouterAction) × (do_maintenance (at 10) one_nonce ticked_a
      ≡ some (n', actions))
    × HasPlace n'.router.infos key_a
do_maintenance-HasPlace_example = do_maintenance-HasPlace (at 10) one_nonce ticked_a refl a_next

force_refresh-HasPlace_example :
    (n' : Node) × (actions : List RouterAction) × (do_maintenance
        (at 10)
        one_nonce
        (force_refresh 9 node_a)
      ≡ some (n', actions))
    × HasPlace n'.router.infos key_a
force_refresh-HasPlace_example = force_refresh-HasPlace (at 10) one_nonce node_a 9 a_next

abbrev some_config : RouterConfig
some_config = record {
  router_refresh = 240;
  router_timeout = 300;
  path_timeout = 60;
  path_throttle = 1;
  bloom_transform = none;
}

new_node-HasPlace_example :
    HasTrueCache (new_node (at 1) key_a some_config)
    × HasSigned (at 1) (new_node (at 1) key_a some_config)
    × ((n' : Node) × (actions : List RouterAction) × (do_maintenance
            (at 2)
            one_nonce
            (new_node (at 1) key_a some_config)
          ≡ some (n', actions))
        × HasPlace n'.router.infos key_a)
new_node-HasPlace_example =
    new_node-HasPlace (at 1) (at 2) one_nonce key_a some_config (λ bytes. beq_refl some_sig)

abbrev a_link : PeerEntry
a_link = record { id = 7; key = key_a; port = 1; prio = 0; order = 0 }

abbrev announce_a : RouterAnnounce
announce_a = record {
  key = key_a;
  parent = key_a;
  seq = 1;
  nonce = 0;
  port = 0;
  psig = some_sig;
  sig = some_sig;
}

abbrev some_steps : List Step
some_steps =
    linked a_link 1
    ∷ maintained (at 2) one_nonce
    ∷ answered 7 key_a (record { seq = 2; nonce = 1; port = 1; psig = some_sig }) 30
    ∷ announced 7 key_a announce_a 3
    ∷ requested (at 3) a_link (record { seq = 1; nonce = 1 })
    ∷ handled (at 3) (sent to_b)
    ∷ filtered key_a up_filter.recv
    ∷ refreshed 4
    ∷ maintained (at 5) one_nonce
    ∷ handled (at 6) (sent (record to_b { dest = key_a }))
    ∷ aged 400
    ∷ unlinked 7 key_a 1
    ∷ maintained (at 401) one_nonce
    ∷ []

node_run-HasTrueCache_example :
    (n : Node) × (actions : List RouterAction) × (node_run
        (new_node (at 1) key_c some_config)
        some_steps
      ≡ some (n, actions))
    × HasTrueCache n
node_run-HasTrueCache_example = node_run-HasTrueCache (at 1) key_c some_config some_steps
