-- ===== src/Tests/Traffic.antt =====
-- crates/ironwood/src/traffic.rs: the theorems at a small queue.
use yggdrasil_ng.Prelude.{◌+◌, ◌*◌, ◌≤◌, ◌≡◌, refl, List, [], ◌∷◌, ◌++◌, some, false, arith}
use yggdrasil_ng.Prelude.Map.{get}
use yggdrasil_ng.Wire.Path.{path_size, ports_size}
use yggdrasil_ng.Wire.Uvarint.{uvarint_size, size_loop}
use yggdrasil_ng.Traffic.{TrafficPacket, wire_size}
use yggdrasil_ng.Traffic.Queue.{PacketQueue, new_queue}
use yggdrasil_ng.Traffic.Queue.Push.{push, key_of, flow_size}
use yggdrasil_ng.Traffic.Queue.Evict.{IsUnder}
use yggdrasil_ng.Traffic.Queue.Counted.{IsCounted}
use yggdrasil_ng.Traffic.Queue.Caps.{
  QueueEvent, pushed, dropped_largest, queue_run, queue_run-IsUnder, new_queue-IsUnder,
}
use yggdrasil_ng.Traffic.Queue.Places.{HasPlaces}
use yggdrasil_ng.Traffic.Queue.Runs.{queue_run-HasPlaces}
use yggdrasil_ng.Traffic.Queue.Append.{infos_of, push-appends}
use yggdrasil_ng.Tests.{key_a, key_b}

abbrev small_packet : TrafficPacket
small_packet = record {
  path = [];
  from = [];
  source = key_a;
  dest = key_b;
  watermark = 9;
  payload = 1 ∷ 2 ∷ [];
  keepalive = false;
}

abbrev some_events : List QueueEvent
some_events =
    pushed small_packet 10 ∷ pushed small_packet 11 ∷ pushed small_packet 12 ∷ dropped_largest ∷ []

abbrev back_packet : TrafficPacket
back_packet = record small_packet { source = key_b; dest = key_a }

-- Two flows, the first of which goes.
abbrev two_flows : List QueueEvent
two_flows =
    pushed small_packet 10 ∷ pushed back_packet 11 ∷ dropped_largest ∷ pushed back_packet 12 ∷ []

queue_run-HasPlaces_example :
    (q : PacketQueue) × (queue_run (new_queue 8) two_flows ≡ some q) × HasPlaces q
queue_run-HasPlaces_example = queue_run-HasPlaces 8 two_flows (omega arith) (omega arith)

queue_run-IsUnder_example :
    (q : PacketQueue) × (queue_run (new_queue 8) some_events ≡ some q) × IsUnder (8 * 64) (8 * 16) q
queue_run-IsUnder_example = queue_run-IsUnder 8 some_events (omega arith) (omega arith)

new_queue-IsCounted : IsCounted (new_queue 8)
new_queue-IsCounted = (new_queue-IsUnder 8 (omega arith) (omega arith)).counted

small_size : wire_size small_packet ≡ 69
unfolding wire_size path_size ports_size uvarint_size size_loop
small_size = refl

fits_queue : (new_queue 8).size + wire_size small_packet ≤ (new_queue 8).max_bytes_total
unfolding new_queue
fits_queue = rw small_size (omega arith)

fits_flow :
    flow_size (new_queue 8) (key_of small_packet) + wire_size small_packet
    ≤ (new_queue 8).max_bytes_per_flow
unfolding new_queue flow_size get
fits_flow = rw small_size (omega arith)

push-appends_example :
    (q' : PacketQueue) × (push (new_queue 8) small_packet 10 ≡ some q')
    × (infos_of q' (key_of small_packet)
        ≡ infos_of (new_queue 8) (key_of small_packet)
          ++ (record { packet = small_packet; size = wire_size small_packet; time = 10 } ∷ []))
    × (q'.size ≡ (new_queue 8).size + wire_size small_packet)
    × (q'.count ≡ (new_queue 8).count + 1)
push-appends_example =
    push-appends (new_queue 8) small_packet 10 new_queue-IsCounted fits_queue fits_flow
