-- ===== src/Traffic/Queue/Append.antt =====
-- crates/ironwood/src/traffic.rs: a packet that fits goes to the end of its flow, and nothing is
-- dropped for it.
use yggdrasil_ng.Prelude.{
  ℕ, zero, suc, ◌+◌, ◌≤◌, ◌<◌, ◌≡◌, refl, ap, ◌∙◌, List, [], ◌∷◌, ◌++◌, none, some, true, false,
  ◌&&◌, ◌||◌, ◌==◌, length, inl, inr, arith, Option-cases, beq_refl, ltb, leb,
}
use mathlib.Core.Option
use yggdrasil_ng.Prelude.Map.{get, contains_key, get-insert, get-modify}
use yggdrasil_ng.Traffic.{TrafficPacket, wire_size}
use yggdrasil_ng.Traffic.Queue.{
  FlowKey, flow_key_eq, PqPacketInfo, Flow, PacketQueue, add_u64, u64_range, flow_for, new_flow,
  activate, index_of, set_index,
}
use yggdrasil_ng.Traffic.Queue.Push.{
  room, flow_size, flow_count, evict_flow, evict_largest, with_info, store_info, append_info,
  key_of, push_fitting, push,
}
use yggdrasil_ng.Traffic.Queue.Counted.{IsCounted, add_u64_exact}
use yggdrasil_ng.Traffic.Queue.Ring.{totals_of}

unfoldable pub infos_of : PacketQueue → FlowKey → List PqPacketInfo
infos_of q key = elim (get q.flows key) [ none ↦ [] | some flow ↦ flow.infos ]

evict_flow-fits :
    (fuel : ℕ) (q : PacketQueue) (key : FlowKey) (pkt_size : ℕ)
    → 0 < fuel
    → flow_size q key + pkt_size ≤ q.max_bytes_per_flow
    → q.max_bytes_per_flow < u64_range
    → evict_flow fuel q key pkt_size ≡ room q
unfolding evict_flow
evict_flow-fits zero q key pkt_size some_ fits small = absurd (ground arith)
evict_flow-fits (suc fuel) q key pkt_size some_ fits small =
    let exact = add_u64_exact (flow_size q key) pkt_size (omega arith) in
    let open_ : (leb (add_u64 (flow_size q key) pkt_size) q.max_bytes_per_flow
          || flow_count q key == 0)
        ≡ true =
      ground arith in
    rw (evict_flow, open_) refl

evict_largest-fits :
    (fuel : ℕ) (q : PacketQueue) (pkt_size : ℕ)
    → 0 < fuel
    → q.size + pkt_size ≤ q.max_bytes_total
    → q.max_bytes_total < u64_range
    → evict_largest fuel q pkt_size ≡ room q
unfolding evict_largest
evict_largest-fits zero q pkt_size some_ fits small = absurd (ground arith)
evict_largest-fits (suc fuel) q pkt_size some_ fits small =
    let exact = add_u64_exact q.size pkt_size (omega arith) in
    let closed : (ltb q.max_bytes_total (add_u64 q.size pkt_size) && ltb 0 q.size) ≡ false =
      ground arith in
    rw (evict_largest, closed) refl

-- The flow is there, with the same packets, and the totals are the same.
flow_for-keeps :
    (q : PacketQueue) (key : FlowKey)
    → (infos_of (flow_for q key) key ≡ infos_of q key)
      × (flow_size (flow_for q key) key ≡ flow_size q key)
      × (totals_of (flow_for q key) ≡ totals_of q)
unfolding flow_for contains_key infos_of flow_size
flow_for-keeps q key = elim (Option-cases (get q.flows key)) [
  | inr (flow, e) ↦ rw (flow_for, contains_key, e) (refl, refl, refl)
  | inl e ↦
      rw
        (
          flow_for,
          contains_key,
          e,
          infos_of,
          flow_size,
          get-insert q.flows key key new_flow,
          beq_refl key,
        )
        (refl, refl, refl)
]

infos-get :
    (q : PacketQueue) (key : FlowKey) (flow : Flow)
    → get q.flows key ≡ some flow
    → infos_of q key ≡ flow.infos
unfolding infos_of
infos-get q key flow e = rw (infos_of, e) refl

module _ (q : PacketQueue) (key : FlowKey) (info : PqPacketInfo) where
  abbrev old_flow : Flow
  old_flow = Option.get_or (get q.flows key) new_flow

  stored_at : get (store_info q key info).flows key ≡ some (with_info old_flow info)
  unfolding store_info
  stored_at = get-insert q.flows key key (with_info old_flow info) ∙ rw (beq_refl key) refl

  old_flow-infos : old_flow.infos ≡ infos_of q key
  unfolding infos_of
  old_flow-infos = elim (Option-cases (get q.flows key)) [
    | inl e ↦ rw (infos_of, e) refl
    | inr (flow, e) ↦ rw (infos_of, e) refl
  ]

  append_info-infos :
      (infos_of (append_info q key info) key ≡ infos_of q key ++ (info ∷ []))
      × ((append_info q key info).size ≡ add_u64 q.size info.size)
      × ((append_info q key info).count ≡ q.count + 1)
  unfolding append_info activate set_index infos_of with_info store_info
  append_info-infos =
      let stored = store_info q key info in
      let at = stored_at in
      let old = ap (λ infos. infos ++ (info ∷ [])) old_flow-infos in
      elim (Option-cases (index_of (get stored.flows key))) [
        | inl e ↦
            rw (append_info, e)
              (
                infos-get (activate stored key) key
                      (record (with_info old_flow info) { index = some (length stored.active) })
                      (get-modify stored.flows key key _ ∙ rw (beq_refl key, at) refl)
                    ∙ old,
                refl,
                refl,
              )
        | inr (idx, e) ↦
            rw (append_info, e)
              (infos-get stored key (with_info old_flow info) at ∙ old, refl, refl)
      ]

-- A packet that fits under both caps goes to the end of its flow: the packets that wait there stay
-- in front of it, the size grows by its wire size, and the count by one.
pub push-appends :
    (q : PacketQueue) (packet : TrafficPacket) (now : ℕ)
    → IsCounted q
    → q.size + wire_size packet ≤ q.max_bytes_total
    → flow_size q (key_of packet) + wire_size packet ≤ q.max_bytes_per_flow
    → (q' : PacketQueue) × (push q packet now ≡ some q')
      × (infos_of q' (key_of packet)
          ≡ infos_of q (key_of packet)
            ++ (record { packet = packet; size = wire_size packet; time = now } ∷ []))
      × (q'.size ≡ q.size + wire_size packet)
      × (q'.count ≡ q.count + 1)
unfolding push push_fitting
push-appends q packet now ok fits fits' =
    let key = key_of packet in
    let info : PqPacketInfo = record { packet = packet; size = wire_size packet; time = now } in
    let start = flow_for q key in
    let (infos, size, totals) = flow_for-keeps q key in
    let small = ok.total_small in
    let small' = ok.flow_small in
    let bytes_ : start.size ≡ q.size = ap (λ t. t.0) totals in
    let count : start.count ≡ q.count = ap (λ t. t.1) totals in
    let total : start.max_bytes_total ≡ q.max_bytes_total = ap (λ t. t.2) totals in
    let per_flow : start.max_bytes_per_flow ≡ q.max_bytes_per_flow = ap (λ t. t.3) totals in
    let accepted : (ltb q.max_bytes_total (wire_size packet)
          || ltb q.max_bytes_per_flow (wire_size packet))
        ≡ false =
      ground arith in
    let first =
      evict_flow-fits (start.count + 1) start key (wire_size packet) (omega arith) (omega arith)
        (omega arith) in
    let second =
      evict_largest-fits (start.count + 1) start (wire_size packet) (omega arith) (omega arith)
        (omega arith) in
    let (infos', size', count') = append_info-infos start key info in
    let exact = add_u64_exact start.size (wire_size packet) (omega arith) in
    (
      append_info start key info,
      rw (push, accepted, push_fitting, first, second) refl,
      infos' ∙ ap (λ xs. xs ++ (info ∷ [])) infos,
      size' ∙ exact ∙ ap (λ n. n + wire_size packet) bytes_,
      count' ∙ ap (λ n. n + 1) count,
    )
