-- ===== src/Traffic/Queue/Runs.antt =====
-- crates/ironwood/src/traffic.rs: the places of the flows in the ring, through any pushes and drops.
use yggdrasil_ng.Prelude.{
  ℕ, zero, suc, ◌+◌, ◌*◌, ◌<◌, ◌≡◌, ◌⊎◌, refl, List, [], ◌∷◌, Option, none, some, ◌&&◌, ◌||◌, ltb,
  leb, ◌==◌, nat_eq, inl, inr, Bool-cases, Option-cases,
}
use mathlib.Core.Option
use yggdrasil_ng.Prelude.Map.{get, contains_key}
use yggdrasil_ng.Traffic.{TrafficPacket, wire_size}
use yggdrasil_ng.Traffic.Queue.{
  FlowKey, flow_key_eq, PqPacketInfo, Flow, PacketQueue, add_u64, new_queue, new_flow, flow_for,
  index_of, without_head, drop_head, drop_infos, drop_from, drop_largest, largest_flow,
}
use yggdrasil_ng.Traffic.Queue.Push.{
  Room, room, gave_up, spent, flow_size, flow_count, evict_flow, evict_largest, with_info,
  store_info, append_info, key_of, push_fitting, push,
}
use yggdrasil_ng.Traffic.Queue.Caps.{
  QueueEvent, pushed, dropped_largest, after_drop, queue_step, queue_run, u63_range,
  queue_run-IsUnder,
}
use yggdrasil_ng.Traffic.Queue.Places.{
  HasPlaces, activate-HasPlaces, remove_flow_if_empty-HasPlaces, insert-Places,
}

-- Whatever the drop answers, the places are right afterwards.
Keeps : Option (PqPacketInfo × PacketQueue) → Type 0
Keeps none = Unit
Keeps (some (info, q)) = HasPlaces q

drop_head-HasPlaces :
    (q : PacketQueue) (key : FlowKey) (flow : Flow) (info : PqPacketInfo) (rest : List PqPacketInfo)
    → HasPlaces q
    → get q.flows key ≡ some flow
    → HasPlaces (drop_head q key flow info rest)
unfolding drop_head without_head index_of
drop_head-HasPlaces q key flow info rest h e =
    remove_flow_if_empty-HasPlaces _ key
      (insert-Places q.flows q.active key (without_head q.quantum flow info rest) h (λ i f. rw e f))

drop_infos-Keeps :
    (q : PacketQueue) (key : FlowKey) (flow : Flow) (infos : List PqPacketInfo)
    → HasPlaces q
    → get q.flows key ≡ some flow
    → Keeps (drop_infos q key flow infos)
unfolding drop_infos Keeps
drop_infos-Keeps q key flow [] h e = tt
drop_infos-Keeps q key flow (info ∷ rest) h e = drop_head-HasPlaces q key flow info rest h e

drop_from-Keeps : (q : PacketQueue) (key : FlowKey) → HasPlaces q → Keeps (drop_from q key)
unfolding drop_from Keeps
drop_from-Keeps q key h = elim (Option-cases (get q.flows key)) [
  | inl e ↦ rw (drop_from, e) tt
  | inr (flow, e) ↦ rw (drop_from, e) (drop_infos-Keeps q key flow flow.infos h e)
]

drop_largest-Keeps : (q : PacketQueue) → HasPlaces q → Keeps (drop_largest q)
unfolding drop_largest Keeps
drop_largest-Keeps q h = elim (Option-cases (largest_flow q)) [
  | inl e ↦ rw (drop_largest, e) tt
  | inr (key, e) ↦ rw (drop_largest, e) (drop_from-Keeps q key h)
]

-- However a loop that makes room ends, the places are right.
Fits : Room → Type 0
Fits (room q) = HasPlaces q
Fits (gave_up q) = HasPlaces q
Fits spent = Unit

evict_flow-Fits :
    (fuel : ℕ) (q : PacketQueue) (key : FlowKey) (pkt_size : ℕ)
    → HasPlaces q
    → Fits (evict_flow fuel q key pkt_size)
unfolding evict_flow Fits Keeps
evict_flow-Fits zero q key pkt_size h = tt
evict_flow-Fits (suc fuel) q key pkt_size h =
    elim (Bool-cases
      (leb (add_u64 (flow_size q key) pkt_size) q.max_bytes_per_flow || flow_count q key == 0)) [
        | inl c ↦ rw (evict_flow, c) h
        | inr c ↦ elim (Option-cases (drop_from q key)) [
          | inl e ↦ rw (evict_flow, c, e) h
          | inr ((info, q'), e) ↦
              rw (evict_flow, c, e)
                (evict_flow-Fits fuel q' key pkt_size (rw e at (drop_from-Keeps q key h)))
        ]
      ]

evict_largest-Fits :
    (fuel : ℕ) (q : PacketQueue) (pkt_size : ℕ) → HasPlaces q → Fits (evict_largest fuel q pkt_size)
unfolding evict_largest Fits Keeps
evict_largest-Fits zero q pkt_size h = tt
evict_largest-Fits (suc fuel) q pkt_size h =
    elim (Bool-cases (ltb q.max_bytes_total (add_u64 q.size pkt_size) && ltb 0 q.size)) [
      | inl c ↦ elim (Option-cases (drop_largest q)) [
        | inl e ↦ rw (evict_largest, c, e) h
        | inr ((info, q'), e) ↦
            rw (evict_largest, c, e)
              (evict_largest-Fits fuel q' pkt_size (rw e at (drop_largest-Keeps q h)))
      ]
      | inr c ↦ rw (evict_largest, c) h
    ]

flow_for-HasPlaces : (q : PacketQueue) (key : FlowKey) → HasPlaces q → HasPlaces (flow_for q key)
unfolding flow_for
flow_for-HasPlaces q key h = elim (Bool-cases (contains_key q.flows key)) [
  | inl c ↦ rw (flow_for, c) h
  | inr c ↦ rw (flow_for, c) (insert-Places q.flows q.active key new_flow h (λ i e. absurd (cc e)))
]

store_info-HasPlaces :
    (q : PacketQueue) (key : FlowKey) (info : PqPacketInfo)
    → HasPlaces q
    → HasPlaces (store_info q key info)
unfolding store_info with_info index_of
store_info-HasPlaces q key info h =
    insert-Places q.flows q.active key (with_info (Option.get_or (get q.flows key) new_flow) info) h
      (λ i e. elim (Option-cases (get q.flows key)) [
        | inl none_ ↦ absurd (cc (rw none_ at e))
        | inr (flow, f) ↦ rw f (rw f at e)
      ])

append_info-HasPlaces :
    (q : PacketQueue) (key : FlowKey) (info : PqPacketInfo)
    → HasPlaces q
    → HasPlaces (append_info q key info)
unfolding append_info
append_info-HasPlaces q key info h =
    let stored = store_info q key info in
    let h' = store_info-HasPlaces q key info h in
    elim (Option-cases (index_of (get stored.flows key))) [
      | inl e ↦ rw (append_info, e) (activate-HasPlaces stored key h')
      | inr (idx, e) ↦ rw (append_info, e) h'
    ]

-- A queue that an operation answers with has the right places.
Sound : Option PacketQueue → Type 0
Sound o = (q : PacketQueue) → o ≡ some q → HasPlaces q

some-Sound : (q : PacketQueue) → HasPlaces q → Sound (some q)
unfolding Sound
some-Sound q h q' e = let same : q ≡ q' = cc e in rw (← same) h

Room-cases :
    (r : Room)
    → (r ≡ spent) ⊎ ((q : PacketQueue) × (r ≡ gave_up q)) ⊎ ((q : PacketQueue) × (r ≡ room q))
Room-cases (room q) = inr (inr (q, refl))
Room-cases (gave_up q) = inr (inl (q, refl))
Room-cases spent = inl refl

push_fitting-Sound :
    (q : PacketQueue) (info : PqPacketInfo) → HasPlaces q → Sound (push_fitting q info)
unfolding push_fitting Sound Fits
push_fitting-Sound q info h =
    let key = key_of info.packet in
    let start = flow_for q key in
    let h1 = evict_flow-Fits (start.count + 1) start key info.size (flow_for-HasPlaces q key h) in
    elim (Room-cases (evict_flow (start.count + 1) start key info.size)) [
      | inl e ↦ rw (push_fitting, e) (λ q' f. absurd (cc f))
      | inr (inl (q1, e)) ↦ rw (push_fitting, e) (some-Sound q1 (rw e at h1))
      | inr (inr (q1, e)) ↦
          let h2 = evict_largest-Fits (q1.count + 1) q1 info.size (rw e at h1) in
          elim (Room-cases (evict_largest (q1.count + 1) q1 info.size)) [
            | inl f ↦ rw (push_fitting, e, f) (λ q' g. absurd (cc g))
            | inr (inl (q2, f)) ↦ rw (push_fitting, e, f) (some-Sound q2 (rw f at h2))
            | inr (inr (q2, f)) ↦
                rw (push_fitting, e, f)
                  (some-Sound (append_info q2 key info)
                    (append_info-HasPlaces q2 key info (rw f at h2)))
          ]
    ]

push-Sound :
    (q : PacketQueue) (packet : TrafficPacket) (now : ℕ) → HasPlaces q → Sound (push q packet now)
unfolding push
push-Sound q packet now h =
    elim (Bool-cases
      (ltb q.max_bytes_total (wire_size packet) || ltb q.max_bytes_per_flow (wire_size packet))) [
        | inl c ↦ rw (push, c) (some-Sound q h)
        | inr c ↦
            rw (push, c)
              (push_fitting-Sound q
                (record { packet = packet; size = wire_size packet; time = now }) h)
      ]

queue_step-Sound : (q : PacketQueue) (event : QueueEvent) → HasPlaces q → Sound (queue_step q event)
unfolding queue_step after_drop Keeps
queue_step-Sound q (pushed packet now) h = push-Sound q packet now h
queue_step-Sound q dropped_largest h = elim (Option-cases (drop_largest q)) [
  | inl e ↦ rw e (some-Sound q h)
  | inr ((info, q'), e) ↦ rw e (some-Sound q' (rw e at (drop_largest-Keeps q h)))
]

queue_run-Sound :
    (events : List QueueEvent) (q : PacketQueue) → HasPlaces q → Sound (queue_run q events)
unfolding queue_run Sound
queue_run-Sound [] q h = some-Sound q h
queue_run-Sound (event ∷ events) q h = elim (Option-cases (queue_step q event)) [
  | inl e ↦ rw (queue_run, e) (λ q' f. absurd (cc f))
  | inr (q1, e) ↦ rw (queue_run, e) (queue_run-Sound events q1 (queue_step-Sound q event h q1 e))
]

new_queue-HasPlaces : (quantum : ℕ) → HasPlaces (new_queue quantum)
unfolding new_queue get index_of
new_queue-HasPlaces quantum k i e = absurd (cc e)

-- From a new queue, whose quantum is not 0 and has caps below 2^63, any sequence of pushes and of
-- drops from the largest flow answers with a queue where each flow that has an index stands at this
-- place of the ring of active flows.
pub queue_run-HasPlaces :
    (quantum : ℕ) (events : List QueueEvent)
    → 0 < quantum
    → quantum * 64 < u63_range
    → (q : PacketQueue) × (queue_run (new_queue quantum) events ≡ some q) × HasPlaces q
unfolding Sound
queue_run-HasPlaces quantum events some_ small =
    let (q, e, under) = queue_run-IsUnder quantum events some_ small in
    (q, e, queue_run-Sound events (new_queue quantum) (new_queue-HasPlaces quantum) q e)
