-- ===== src/Traffic/Queue/Evict.antt =====
-- crates/ironwood/src/traffic.rs: the loops of `push` that make room end.
use yggdrasil_ng.Prelude.{
  ℕ, zero, suc, ◌+◌, ◌≤◌, ◌<◌, ◌≡◌, ◌⊎◌, refl, ◌∙◌, List, [], ◌∷◌, none, some, ◌&&◌, ◌||◌, ◌==◌,
  length, inl, inr, arith, Bool-cases, Option-cases, ltb, leb,
}
use yggdrasil_ng.Prelude.Map.{get}
use yggdrasil_ng.Prelude.Map.Sum.{get-sum_by}
use yggdrasil_ng.Traffic.Queue.{
  FlowKey, flow_key_eq, PqPacketInfo, PacketQueue, add_u64, drop_largest, largest_flow,
}
use yggdrasil_ng.Traffic.Queue.Push.{
  room, gave_up, flow_size, flow_count, evict_flow, evict_largest,
}
use yggdrasil_ng.Traffic.Queue.Counted.{bytes, flow_packets, IsCounted, add_u64_exact}
use yggdrasil_ng.Traffic.Queue.Drop.{Dropped, drop_from-Dropped}

-- The packets of the queue are counted, and its caps are these.
pub record IsUnder (total per_flow : ℕ) (q : PacketQueue) : Type 0 where
  pub counted : IsCounted q
  pub total_cap : q.max_bytes_total ≡ total
  pub flow_cap : q.max_bytes_per_flow ≡ per_flow

flow_count-le : (q : PacketQueue) (key : FlowKey) → IsCounted q → flow_count q key ≤ q.count
unfolding flow_count
flow_count-le q key ok = elim (Option-cases (get q.flows key)) [
  | inl e ↦ rw (flow_count, e) (omega arith)
  | inr (flow, e) ↦
      let sum = get-sum_by flow_packets q.flows key flow e in
      let total = ok.backlog.sum_packets in rw (flow_count, e) (omega arith)
]

pub Dropped-IsUnder :
    (q q' : PacketQueue) (info : PqPacketInfo) (total per_flow : ℕ)
    → IsUnder total per_flow q
    → Dropped q info q'
    → IsUnder total per_flow q'
Dropped-IsUnder q q' info total per_flow ok d = record {
  counted = d.counted;
  total_cap = d.caps.0 ∙ ok.total_cap;
  flow_cap = d.caps.1 ∙ ok.flow_cap;
}

-- Under the flow's cap, with the packet.
abbrev pub FitsFlow : FlowKey → ℕ → ℕ → PacketQueue → Type 0
FitsFlow key pkt_size per_flow q = flow_size q key + pkt_size ≤ per_flow

flow_size-le :
    (q : PacketQueue) (key : FlowKey) → IsCounted q → flow_size q key ≤ q.max_bytes_per_flow
unfolding flow_size
flow_size-le q key ok = elim (Option-cases (get q.flows key)) [
  | inl e ↦ rw (flow_size, e) (omega arith)
  | inr (flow, e) ↦ rw (flow_size, e) ((ok.backlog.each key flow e).1)
]

-- A flow without packets has no bytes.
flow_size-zero :
    (q : PacketQueue) (key : FlowKey) → IsCounted q → flow_count q key ≡ 0 → flow_size q key ≡ 0
unfolding flow_size flow_count bytes
flow_size-zero q key ok h = elim (Option-cases (get q.flows key)) [
  | inl e ↦ rw (flow_size, e) refl
  | inr (flow, e) ↦
      let none_ : length flow.infos ≡ 0 = rw (flow_count, e) at h in
      rw (flow_size, e) ((ok.backlog.each key flow e).0 ∙ no_bytes flow.infos none_)
]
  where
    no_bytes : (infos : List PqPacketInfo) → length infos ≡ 0 → bytes infos ≡ 0
    no_bytes [] h = refl
    no_bytes (info ∷ infos) h = absurd (ground arith)

-- The loop under the flow's cap ends, with room for a packet that is not larger than the cap.
pub evict_flow-room :
    (fuel : ℕ) (q : PacketQueue) (key : FlowKey) (pkt_size total per_flow : ℕ)
    → q.count < fuel
    → pkt_size ≤ per_flow
    → IsUnder total per_flow q
    → (q' : PacketQueue) × (evict_flow fuel q key pkt_size ≡ room q')
      × IsUnder total per_flow q'
      × FitsFlow key pkt_size per_flow q'
unfolding evict_flow
evict_flow-room zero q key pkt_size total per_flow enough fit ok = absurd (ground arith)
evict_flow-room (suc fuel) q key pkt_size total per_flow enough fit ok =
    let small = ok.counted.flow_small in
    let le = flow_size-le q key ok.counted in
    let cap = ok.flow_cap in
    let exact = add_u64_exact (flow_size q key) pkt_size (omega arith) in
    elim (Bool-cases
      (leb (add_u64 (flow_size q key) pkt_size) q.max_bytes_per_flow || flow_count q key == 0)) [
        | inl c ↦
            let fits : FitsFlow key pkt_size per_flow q =
              ground (arith, flow_size-zero q key ok.counted) in
            (q, rw (evict_flow, c) refl, ok, fits)
        | inr c ↦ elim (drop_from-Dropped q key ok.counted) [
          | inl (e, idle) ↦ absurd (ground arith)
          | inr (info, q', e, d) ↦
              let fewer = d.fewer in
              let (q'', e', ok', fits) =
                evict_flow-room fuel q' key pkt_size total per_flow (omega arith) fit
                  (Dropped-IsUnder q q' info total per_flow ok d) in
              (q'', rw (evict_flow, c, e) e', ok', fits)
        ]
      ]

pub drop_largest-Dropped :
    (q : PacketQueue)
    → IsCounted q
    → (drop_largest q ≡ none)
      ⊎ ((info : PqPacketInfo) × (q' : PacketQueue) × (drop_largest q ≡ some (info, q'))
          × Dropped q info q')
unfolding drop_largest
drop_largest-Dropped q ok = elim (Option-cases (largest_flow q)) [
  | inl e ↦ inl (rw (drop_largest, e) refl)
  | inr (key, e) ↦ elim (drop_from-Dropped q key ok) [
    | inl (e', idle) ↦ inl (rw (drop_largest, e) e')
    | inr (info, q', e', d) ↦ inr (info, q', rw (drop_largest, e) e', d)
  ]
]

-- The loop under the queue's cap ends: with room, or without a packet to drop.
pub evict_largest-room :
    (fuel : ℕ) (q : PacketQueue) (key : FlowKey) (pkt_size total per_flow : ℕ)
    → q.count < fuel
    → pkt_size ≤ total
    → IsUnder total per_flow q
    → FitsFlow key pkt_size per_flow q
    → (q' : PacketQueue) × IsUnder total per_flow q'
      × ((evict_largest fuel q pkt_size ≡ gave_up q')
          ⊎ ((evict_largest fuel q pkt_size ≡ room q')
              × FitsFlow key pkt_size per_flow q'
              × (q'.size + pkt_size ≤ total)))
unfolding evict_largest
evict_largest-room zero q key pkt_size total per_flow enough fit ok fits = absurd (ground arith)
evict_largest-room (suc fuel) q key pkt_size total per_flow enough fit ok fits =
    let small = ok.counted.total_small in
    let capped = ok.counted.capped in
    let cap = ok.total_cap in
    let exact = add_u64_exact q.size pkt_size (omega arith) in
    elim (Bool-cases (ltb q.max_bytes_total (add_u64 q.size pkt_size) && ltb 0 q.size)) [
      | inr c ↦ (q, ok, inr (rw (evict_largest, c) refl, fits, ground arith))
      | inl c ↦ elim (drop_largest-Dropped q ok.counted) [
        | inl e ↦ (q, ok, inl (rw (evict_largest, c, e) refl))
        | inr (info, q', e, d) ↦
            let fewer = d.fewer in
            let shrinks = d.sizes key in
            let (q'', ok', end) =
              evict_largest-room fuel q' key pkt_size total per_flow (omega arith) fit
                (Dropped-IsUnder q q' info total per_flow ok d) (omega arith) in
            (q'', ok', rw (evict_largest, c, e) end)
      ]
    ]
