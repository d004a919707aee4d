-- ===== src/Traffic/Queue/Caps.antt =====
-- crates/ironwood/src/traffic.rs: `push` answers, keeps the counts and both caps.
use yggdrasil_ng.Prelude.{
  ℕ, ◌+◌, ◌*◌, ◌^◌, ◌≤◌, ◌<◌, ◌≡◌, refl, List, [], ◌∷◌, Option, none, some, ◌||◌, if◌then◌else◌,
  ◌==◌, inl, inr, arith, Bool-cases, ltb,
}
use yggdrasil_ng.Prelude.Map.{get}
use yggdrasil_ng.Prelude.Map.Sum.{sum_by}
use yggdrasil_ng.Traffic.{TrafficPacket, wire_size}
use yggdrasil_ng.Traffic.Queue.{
  FlowKey, flow_key_eq, PqPacketInfo, Flow, PacketQueue, flow_for, drop_largest, new_queue,
  max_message_size,
}
use yggdrasil_ng.Traffic.Queue.Push.{append_info, key_of, push_fitting, push}
use yggdrasil_ng.Traffic.Queue.Evict.{
  IsUnder, drop_largest-Dropped, Dropped-IsUnder, evict_flow-room, evict_largest-room,
}
use yggdrasil_ng.Traffic.Queue.Store.{store_info-IsUnder, append_info-IsUnder, flow_for-IsUnder}

push_fitting-IsUnder :
    (q : PacketQueue) (info : PqPacketInfo) (total per_flow : ℕ)
    → IsUnder total per_flow q
    → info.size ≤ total
    → info.size ≤ per_flow
    → (q' : PacketQueue) × (push_fitting q info ≡ some q') × IsUnder total per_flow q'
unfolding push_fitting
push_fitting-IsUnder q info total per_flow ok fit fit' =
    let key = key_of info.packet in
    let start = flow_for q key in
    let (q1, e1, ok1, fits) =
      evict_flow-room (start.count + 1) start key info.size total per_flow (omega arith) fit'
        (flow_for-IsUnder q key total per_flow ok) in
    let (q2, ok2, end) =
      evict_largest-room (q1.count + 1) q1 key info.size total per_flow (omega arith) fit ok1
        fits in
    elim end [
      | inl e2 ↦ (q2, rw (push_fitting, e1, e2) refl, ok2)
      | inr (e2, fits2, room_) ↦ (
        append_info q2 key info,
        rw (push_fitting, e1, e2) refl,
        append_info-IsUnder q2 key info total per_flow
            (store_info-IsUnder q2 key info total per_flow ok2 fits2 room_),
      )
    ]

-- push always answers: its loops end. It keeps the counts of bytes and packets equal to those of the
-- backlogs, and neither the queue nor a flow goes over its cap; nothing wraps around.
pub push-IsUnder :
    (q : PacketQueue) (packet : TrafficPacket) (now total per_flow : ℕ)
    → IsUnder total per_flow q
    → (q' : PacketQueue) × (push q packet now ≡ some q') × IsUnder total per_flow q'
unfolding push
push-IsUnder q packet now total per_flow ok =
    let cap = ok.total_cap in
    let cap' = ok.flow_cap in
    elim (Bool-cases
      (ltb q.max_bytes_total (wire_size packet) || ltb q.max_bytes_per_flow (wire_size packet))) [
        | inl c ↦ (q, rw (push, c) refl, ok)
        | inr c ↦
            let (q', e, ok') =
              push_fitting-IsUnder q
                (record { packet = packet; size = wire_size packet; time = now }) total per_flow ok
                (ground arith) (ground arith) in
            (q', rw (push, c) e, ok')
      ]

no_flow : (key : FlowKey) (flow : Flow) → get [] key ≡ some flow → 1 ≤ 0
unfolding get
no_flow key flow h = absurd (cc h)

abbrev pub u63_range : ℕ
u63_range = 2 ^ 63

-- A new queue, for a quantum whose caps are far below 2^64.
pub new_queue-IsUnder :
    (quantum : ℕ)
    → 0 < quantum
    → quantum * 64 < u63_range
    → IsUnder (quantum * 64) (quantum * 16) (new_queue quantum)
unfolding new_queue sum_by
new_queue-IsUnder quantum some_ small =
    let given : (if quantum == 0 then max_message_size else quantum) ≡ quantum = ground arith in
    record {
      counted = record {
        backlog = record {
          distinct = tt;
          each = λ key flow h. absurd (ground (arith, no_flow key flow h));
          sum_bytes = refl;
          sum_packets = refl;
        };
        capped = omega arith;
        total_small = rw given (omega arith);
        flow_small = rw given (omega arith);
      };
      total_cap = rw given (omega arith);
      flow_cap = rw given (omega arith);
    }

-- What happens to a queue apart from the dequeueing.
pub data QueueEvent : Type 0 where
  pushed : TrafficPacket → ℕ → QueueEvent
  dropped_largest : QueueEvent

unfoldable pub after_drop : PacketQueue → Option (PqPacketInfo × PacketQueue) → PacketQueue
after_drop q none = q
after_drop q (some (info, q')) = q'

unfoldable pub queue_step : PacketQueue → QueueEvent → Option PacketQueue
queue_step q (pushed packet now) = push q packet now
queue_step q dropped_largest = some (after_drop q (drop_largest q))

unfoldable pub queue_run : PacketQueue → List QueueEvent → Option PacketQueue
queue_run q [] = some q
queue_run q (event ∷ events) = elim (queue_step q event) [
  | none ↦ none
  | some q' ↦ queue_run q' events
]

queue_step-IsUnder :
    (q : PacketQueue) (event : QueueEvent) (total per_flow : ℕ)
    → IsUnder total per_flow q
    → (q' : PacketQueue) × (queue_step q event ≡ some q') × IsUnder total per_flow q'
unfolding queue_step after_drop
queue_step-IsUnder q (pushed packet now) total per_flow ok =
    push-IsUnder q packet now total per_flow ok
queue_step-IsUnder q dropped_largest total per_flow ok = elim (drop_largest-Dropped q ok.counted) [
  | inl e ↦ (q, rw e refl, ok)
  | inr (info, q', e, d) ↦ (q', rw e refl, Dropped-IsUnder q q' info total per_flow ok d)
]

queue_run-Under :
    (events : List QueueEvent) (q : PacketQueue) (total per_flow : ℕ)
    → IsUnder total per_flow q
    → (q' : PacketQueue) × (queue_run q events ≡ some q') × IsUnder total per_flow q'
unfolding queue_run
queue_run-Under [] q total per_flow ok = (q, refl, ok)
queue_run-Under (event ∷ events) q total per_flow ok =
    let (q', e, ok') = queue_step-IsUnder q event total per_flow ok in
    let (q'', e', ok'') = queue_run-Under events q' total per_flow ok' in
    (q'', rw (queue_run, e) e', ok'')

-- From a new queue, whose quantum is not 0 and has caps below 2^63, any sequence of pushes and of
-- drops from the largest flow answers; the size and the count are those of the packets in the
-- flows, the queue has at most 64 quanta and each flow at most 16.
pub queue_run-IsUnder :
    (quantum : ℕ) (events : List QueueEvent)
    → 0 < quantum
    → quantum * 64 < u63_range
    → (q : PacketQueue) × (queue_run (new_queue quantum) events ≡ some q)
      × IsUnder (quantum * 64) (quantum * 16) q
queue_run-IsUnder quantum events some_ small =
    queue_run-Under events (new_queue quantum) (quantum * 64) (quantum * 16)
      (new_queue-IsUnder quantum some_ small)
