-- ===== src/Traffic/Queue/Push.antt =====
-- crates/ironwood/src/traffic.rs: `push`, which makes room under both caps first.
use yggdrasil_ng.Prelude.{
  ℕ, zero, suc, ◌+◌, [], ◌∷◌, ◌++◌, Option, none, some, ◌&&◌, ◌||◌, ltb, leb, ◌==◌, if◌then◌else◌,
  nat_eq, length,
}
use mathlib.Core.Option
use yggdrasil_ng.Prelude.Map.{get, insert}
use yggdrasil_ng.Traffic.{TrafficPacket, wire_size}
use yggdrasil_ng.Traffic.Queue.{
  FlowKey, flow_key_eq, PqPacketInfo, Flow, PacketQueue, add_u64, flow_for, drop_from, drop_largest,
  activate, index_of, new_flow,
}

-- How a loop that makes room ends: there is room, or it returned from `push`, or the fuel ran out.
pub data Room : Type 0 where
  room : PacketQueue → Room
  gave_up : PacketQueue → Room
  spent : Room

unfoldable pub flow_size : PacketQueue → FlowKey → ℕ
flow_size q key = elim (get q.flows key) [ none ↦ 0 | some flow ↦ flow.size ]

unfoldable pub flow_count : PacketQueue → FlowKey → ℕ
flow_count q key = elim (get q.flows key) [ none ↦ 0 | some flow ↦ length flow.infos ]

-- The loop under the cap of a flow.
unfoldable pub evict_flow : ℕ → PacketQueue → FlowKey → ℕ → Room
evict_flow zero q key pkt_size = spent
evict_flow (suc fuel) q key pkt_size =
    if leb (add_u64 (flow_size q key) pkt_size) q.max_bytes_per_flow || flow_count q key == 0
    then room q
    else elim (drop_from q key) [
      | none ↦ gave_up q
      | some (info, q') ↦ evict_flow fuel q' key pkt_size
    ]

-- The loop under the cap of the queue.
unfoldable pub evict_largest : ℕ → PacketQueue → ℕ → Room
evict_largest zero q pkt_size = spent
evict_largest (suc fuel) q pkt_size =
    if ltb q.max_bytes_total (add_u64 q.size pkt_size) && ltb 0 q.size
    then elim (drop_largest q) [
      | none ↦ gave_up q
      | some (info, q') ↦ evict_largest fuel q' pkt_size
    ]
    else room q

unfoldable pub with_info : Flow → PqPacketInfo → Flow
with_info flow info = record flow {
  infos = flow.infos ++ (info ∷ []);
  size = add_u64 flow.size info.size;
}

-- The packet at the end of its flow, which is made again if it is gone.
unfoldable pub store_info : PacketQueue → FlowKey → PqPacketInfo → PacketQueue
store_info q key info = record q {
  flows = insert q.flows key (with_info (Option.get_or (get q.flows key) new_flow) info);
  size = add_u64 q.size info.size;
  count = q.count + 1;
}

unfoldable pub append_info : PacketQueue → FlowKey → PqPacketInfo → PacketQueue
append_info q key info =
    let q = store_info q key info in
    elim (index_of (get q.flows key)) [ none ↦ activate q key | some idx ↦ q ]

abbrev pub key_of : TrafficPacket → FlowKey
key_of packet = record { source = packet.source; dest = packet.dest }

-- Each round drops a packet, so one round more than there are packets is enough.
unfoldable pub push_fitting : PacketQueue → PqPacketInfo → Option PacketQueue
push_fitting q info =
    let key = key_of info.packet in
    let q = flow_for q key in
    elim (evict_flow (q.count + 1) q key info.size) [
      | spent ↦ none
      | gave_up q' ↦ some q'
      | room q' ↦ elim (evict_largest (q'.count + 1) q' info.size) [
        | spent ↦ none
        | gave_up q'' ↦ some q''
        | room q'' ↦ some (append_info q'' key info)
      ]
    ]

-- None is out of fuel.
unfoldable pub push : PacketQueue → TrafficPacket → ℕ → Option PacketQueue
push q packet now =
    let pkt_size = wire_size packet in
    if ltb q.max_bytes_total pkt_size || ltb q.max_bytes_per_flow pkt_size
    then some q
    else push_fitting q (record { packet = packet; size = pkt_size; time = now })
