-- ===== src/Traffic/Queue/Drop.antt =====
-- crates/ironwood/src/traffic.rs: what dropping a packet does to the counts.
use yggdrasil_ng.Prelude.{
  suc, ◌+◌, ◌-◌, ◌≤◌, ◌≡◌, ◌⊎◌, refl, ap, ◌∙◌, List, [], ◌∷◌, none, some, length, inl, inr, arith,
  Option-cases,
}
use yggdrasil_ng.Prelude.Map.{get, insert, get-insert}
use yggdrasil_ng.Prelude.Map.Sum.{get-sum_by}
use yggdrasil_ng.Traffic.Queue.{
  FlowKey, flow_key_eq, flow_key_beq_iff, PqPacketInfo, Flow, PacketQueue, sub_u64,
  remove_flow_if_empty, without_head, drop_head, drop_infos, drop_from,
}
use yggdrasil_ng.Traffic.Queue.Push.{flow_size, flow_count}
use yggdrasil_ng.Traffic.Queue.Counted.{
  bytes, flow_bytes, flow_packets, IsFlow, Backlog, IsCounted, sub_u64_exact, insert_old-Backlog,
}
use yggdrasil_ng.Traffic.Queue.Ring.{remove_flow_if_empty-Cleaned}

-- A dropped packet: the counts go down by it, the caps stay, and no flow is larger than it was.
pub record Dropped (q : PacketQueue) (info : PqPacketInfo) (q' : PacketQueue) : Type 0 where
  pub counted : IsCounted q'
  pub fewer : q'.count + 1 ≡ q.count
  pub less : q'.size + info.size ≡ q.size
  pub caps :
      (q'.max_bytes_total ≡ q.max_bytes_total) × (q'.max_bytes_per_flow ≡ q.max_bytes_per_flow)
  pub sizes : (key : FlowKey) → flow_size q' key ≤ flow_size q key

module _ (q : PacketQueue) (key : FlowKey) (flow : Flow) (info : PqPacketInfo)
    (rest : List PqPacketInfo) (ok : IsCounted q) (at : get q.flows key ≡ some flow)
    (head : flow.infos ≡ info ∷ rest) where
  head_bytes : flow_bytes flow ≡ info.size + bytes rest
  unfolding bytes
  head_bytes = rw head refl

  head_packets : flow_packets flow ≡ suc (length rest)
  head_packets = rw head refl

  flow_small : flow.size ≡ info.size + bytes rest
  flow_small = (ok.backlog.each key flow at).0 ∙ head_bytes

  info_small : (info.size ≤ q.size) × (1 ≤ q.count)
  info_small =
      let sum = get-sum_by flow_bytes q.flows key flow at in
      let packets = get-sum_by flow_packets q.flows key flow at in
      let sum' = ok.backlog.sum_bytes in
      let packets' = ok.backlog.sum_packets in
      let b = head_bytes in
      let p = head_packets in (ground (arith, sum, sum', b), ground (arith, packets, packets', p))

  without_head-size : (without_head q.quantum flow info rest).size ≡ bytes rest
  unfolding without_head
  without_head-size =
      let under = (ok.backlog.each key flow at).1 in
      let small = ok.flow_small in
      let size = flow_small in
      sub_u64_exact flow.size info.size (omega arith) (omega arith) ∙ omega arith

  without_head-IsFlow : IsFlow q.max_bytes_per_flow (without_head q.quantum flow info rest)
  unfolding without_head
  without_head-IsFlow =
      let under = (ok.backlog.each key flow at).1 in
      let size = flow_small in let size' = without_head-size in (size', omega arith)

  size_exact : sub_u64 q.size info.size ≡ q.size - info.size
  size_exact =
      let (le, one) = info_small in
      let capped = ok.capped in
      let small = ok.total_small in sub_u64_exact q.size info.size le (omega arith)

  abbrev headless : PacketQueue
  headless = record q {
    flows = insert q.flows key (without_head q.quantum flow info rest);
    size = sub_u64 q.size info.size;
    count = q.count - 1;
  }

  headless-Backlog : Backlog q.max_bytes_per_flow headless.size headless.count headless.flows
  unfolding without_head
  headless-Backlog =
      let (le, one) = info_small in
      let exact = size_exact in
      let b = head_bytes in
      let p = head_packets in
      insert_old-Backlog q.max_bytes_per_flow q.size q.count q.flows ok.backlog key flow
        (without_head q.quantum flow info rest) at without_head-IsFlow headless.size headless.count
        (omega arith) (omega arith)

  headless-sizes : (k : FlowKey) → flow_size headless k ≤ flow_size q k
  unfolding flow_size
  headless-sizes k =
      let size = flow_small in
      let size' = without_head-size in
      ground (
        arith,
        get-insert q.flows key k (without_head q.quantum flow info rest),
        flow_key_beq_iff key k,
        at,
      )

  drop_head-Dropped : Dropped q info (drop_head q key flow info rest)
  unfolding drop_head
  drop_head-Dropped =
      let clean = remove_flow_if_empty-Cleaned headless key in
      let q' = remove_flow_if_empty headless key in
      let size : q'.size ≡ headless.size = ap (λ t. t.0) clean.totals in
      let count : q'.count ≡ headless.count = ap (λ t. t.1) clean.totals in
      let total : q'.max_bytes_total ≡ q.max_bytes_total = ap (λ t. t.2) clean.totals in
      let per_flow : q'.max_bytes_per_flow ≡ q.max_bytes_per_flow = ap (λ t. t.3) clean.totals in
      let (le, one) = info_small in
      let exact = size_exact in
      let capped = ok.capped in
      let small = ok.total_small in
      let small' = ok.flow_small in
      record {
        counted = record {
          backlog = rw (size, count, per_flow) (clean.keeps _ _ _ headless-Backlog);
          capped = omega arith;
          total_small = omega arith;
          flow_small = omega arith;
        };
        fewer = omega arith;
        less = omega arith;
        caps = (total, per_flow);
        sizes = λ k. let a = clean.sizes k in let b = headless-sizes k in omega arith;
      }

drop_infos-Dropped :
    (infos : List PqPacketInfo) (q : PacketQueue) (key : FlowKey) (flow : Flow)
    → IsCounted q
    → get q.flows key ≡ some flow
    → flow.infos ≡ infos
    → ((drop_infos q key flow infos ≡ none) × (length infos ≡ 0))
      ⊎ ((info : PqPacketInfo) × (q' : PacketQueue) × (drop_infos q key flow infos
            ≡ some (info, q'))
          × Dropped q info q')
unfolding drop_infos
drop_infos-Dropped [] q key flow ok at e = inl (refl, refl)
drop_infos-Dropped (info ∷ rest) q key flow ok at e =
    inr (info, drop_head q key flow info rest, refl, drop_head-Dropped q key flow info rest ok at e)

-- Either the flow has no packet, or its head is dropped.
pub drop_from-Dropped :
    (q : PacketQueue) (key : FlowKey)
    → IsCounted q
    → ((drop_from q key ≡ none) × (flow_count q key ≡ 0))
      ⊎ ((info : PqPacketInfo) × (q' : PacketQueue) × (drop_from q key ≡ some (info, q'))
          × Dropped q info q')
unfolding drop_from flow_count
drop_from-Dropped q key ok = elim (Option-cases (get q.flows key)) [
  | inl e ↦ inl (rw (drop_from, e) refl, rw (flow_count, e) refl)
  | inr (flow, e) ↦
      rw (drop_from, flow_count, e) (drop_infos-Dropped flow.infos q key flow ok e refl)
]
