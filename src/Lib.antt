-- ===== src/Lib.antt =====
-- Yggdrasil-ng is an overlay network: nodes that know their neighbours form a spanning tree, give each
-- other coordinates in it, and route packets greedily by the distance between coordinates. This library
-- models the parts that decide where packets go and which are let in.
--
-- How the parts interact: peers exchange the messages of the wire protocol. The router asks a peer for
-- a signature (Signature), chooses a parent among the peers that have answered (Parent), announces the
-- result to its peers (Announcing), and keeps the newest announcement of each node (update); the walks
-- up the announced parents give each node its root and coordinates; lookup takes the link to a peer
-- that is closer to a packet's destination. Peers on the tree exchange bloom filters of the keys behind
-- them, which say where a path lookup goes. The path finder learns the coordinates of destinations from
-- signed notifications, and from the packets that arrive. A packet for a destination without a path
-- waits in the path finder while a lookup goes out; the node with the key answers with a notification,
-- and the packet goes out on the path that it brings. The handlers of these messages work on the
-- router, the filters and the path finder together, as one Node. Packets that wait for a connection or
-- for the host are in a packet queue, with caps on its bytes and on those of each flow. A link that is silent for the interval of its
-- peer timeout is closed. The firewall stands between the network and the host's own network device.
--
-- Files, and the code that they model:
--   Prelude and below         shared notation, hash maps as association lists, byte strings, bits; Error
--                             of crates/ironwood/src/types.rs in Prelude/Result
--   Wire/Uvarint, Path,       crates/ironwood/src/wire.rs: encode_uvarint, decode_uvarint, uvarint_size;
--     Reader, Message,        encode_path, decode_path, path_size; WireReader; the messages from SigReq
--     Bloom, Frame            to Traffic, with encode, decode and size; encode_bloom and decode_bloom;
--                             PacketType and the frames
--   Router                    crates/ironwood/src/router.rs: RouterInfo, RouterAnnounce and its
--                             conversions, the fields of Router that the models use, update
--   Router/Tree               get_root_and_path, get_root_and_dists
--   Router/Lookup             cached_root_and_path, get_dist, get_cost, lookup
--   Router/Peers              add_peer, remove_peer; Paired and Cached have the proofs
--   Router/Parent             select_parent, become_root, use_response, send_reqs, clear_reqs, fix; Least
--                             for the choice, Adopt and Root for the tree that fix leaves
--   Router/Announcing         handle_announce, get_ancestry, update_ancestries, send_announces,
--                             blooms_maintenance; Converge and Unsent have the proofs
--   Router/Expire             expire_infos, best_peer_for_key
--   Router/Action             RouterAction
--   Node                      crates/ironwood/src/router.rs: Router with its Pathfinder
--   Node/Handlers             do_send_lookup, handle_lookup_internal, handle_notify_internal, do_broken,
--                             handle_broken_internal, route_traffic
--   Node/Entry                send_traffic, handle_traffic, force_lookup, handle_lookup, handle_notify,
--                             handle_broken; the other files below Node have the proofs: Enough and
--                             Agree for the fuel, Frame and Events for what the handlers leave as it
--                             is, Delivery, Waiting, Arrival and Reply for the way of a packet
--   Node/Upkeep               do_maintenance, force_refresh; Place has the proofs
--   Node/Start                Router::new, Pathfinder::new, Router::handle_bloom; Runs for any run of a
--                             node
--   Router/Signature          new_req, handle_request_with_data, check_sig_res, handle_response
--   Bloom                     crates/ironwood/src/bloom.rs: BloomFilter and its locations; Words and
--                             Filter have the proofs
--   Bloom/Peers               BloomInfo and Blooms; Cover and Send for get_bloom_for, Multicast for
--                             get_multicast_targets, Maintenance and Answers for fix_on_tree and
--                             do_maintenance, Reach for filters that travel over several nodes
--   PeerTimeout and below     crates/ironwood/src/peer_timeout.rs: the configuration and the interval,
--                             Control for PeerTimeoutCtrl, Registry for PeerLivenessRegistry; Bounds,
--                             Sticky and Sharing have the proofs
--   Traffic                   crates/ironwood/src/traffic.rs: TrafficPacket
--   Traffic/Queue             PacketQueue but for the dequeueing: the flows and their ring, drop_from,
--                             largest_flow, drop_largest; Push for push; Counted, Ring, Drop, Evict,
--                             Store, Caps, Append, Places and Runs have the proofs. Where deactivate
--                             meets an index into an empty ring, the code panics, and the model
--                             leaves the ring
--   Pathfinder and below      crates/ironwood/src/pathfinder.rs: Rumors, Paths, Notify and Cleanup have
--                             the operations, Sequence, Learning, Lifetime and Waiting the proofs
--   Firewall and below        crates/yggdrasil/src/firewall.rs: the connection table, Parse for parse,
--                             Filter for observe_outbound and check_inbound; Safe, Accept and Table
--                             have the proofs
--   Tests and below           the theorems at concrete inputs
--
-- State is passed explicitly, one function for each operation under its own name; the parts of a long
-- operation are functions of their own. A hash map is an association list: its order is not specified
-- in Rust, and no theorem depends on it. A hash set is a map to the unit type. The clock is an argument:
-- each Instant is a number that the caller gives, and elapsed and duration_since are subtractions that
-- stop at 0; all readings of a clock within one handler of Node are the same. Log lines are left out.
-- What the connections of one peer share behind an Arc is a heap of states with addresses, and a Mutex
-- makes each write one step. What the router sends is the list of RouterAction that its operations
-- return. A panic of unwrap, expect or clamp is the answer none.
--
-- Numbers are natural numbers. A u64 is bounded by the IsU64 hypotheses, and decode_uvarint keeps the
-- wrap of its shifts, as do the locations in a filter, the doubled cost in select_parent and the number
-- that new_req gives a node's next announcement; the lengths of paths and packets are small against the machine's, so sums of lengths are not wrapped, but for
-- decode_frame, where a length from the wire can overflow and the model is stuck. The byte counts of the
-- packet queue are u64 that wrap around, as in a build without overflow checks; its packet count is not
-- bounded. Durations are not bounded.
--
-- Fuel: encode_uvarint has 10 rounds, which a u64 never exceeds; decode_path has one round more than
-- there are bytes; the walks up the tree have one round more than there are announced nodes, since none
-- is visited twice, and the walk for an ancestry has as many; the extension headers of a packet have the
-- 8 rounds of the code. The handlers of Node call each other in a circle, which has 2 rounds: a node can
-- answer its own lookup, but takes its own notification only once. The loops of push have one round
-- more than there are packets.
--
-- Parameters: Crypto::sign and Crypto::verify (ed25519), the random nonces of new_req, the seconds since
-- the epoch, the hash of the murmur3 crate, the transform of keys that the configuration gives to the
-- filters, and the subnets of the ipnet crate with their test for membership.
--
-- Not modelled: the bloom filter codec of bloom.rs, which is compiled for tests only, the status log of
-- do_maintenance, the dequeueing of the packet queue with CoDel, and the delivery queue around it,
-- sessions and ciphers, addresses, crypto-key routing, and all network, device, file and command line
-- code. The constructor Firewall::new is a record that a caller writes out; the strings of the
-- firewall's configuration are not parsed, and the switch that turns it off is read elsewhere.
pub mod Prelude
pub mod Wire
pub mod Router
pub mod Node
pub mod Traffic
pub mod Pathfinder
pub mod Firewall
pub mod Bloom
pub mod PeerTimeout
pub mod Tests
