-- ===== src/Traffic/Queue/Store.antt =====
-- crates/ironwood/src/traffic.rs: a packet that has room keeps the counts and both caps.
use yggdrasil_ng.Prelude.{
  ℕ, ◌+◌, ◌≤◌, ◌<◌, ◌≡◌, refl, List, [], ◌∷◌, ◌++◌, length, inl, inr, arith, Option-cases,
}
use yggdrasil_ng.Prelude.Map.{get, contains_key}
use yggdrasil_ng.Traffic.Queue.{
  FlowKey, flow_key_eq, PqPacketInfo, Flow, PacketQueue, u64_range, flow_for, new_flow, activate,
  index_of, set_index,
}
use yggdrasil_ng.Traffic.Queue.Push.{flow_size, with_info, store_info, append_info}
use yggdrasil_ng.Traffic.Queue.Counted.{
  bytes, flow_bytes, IsFlow, Backlog, IsCounted, add_u64_exact, modify-Backlog, insert_old-Backlog,
  insert_new-Backlog,
}
use yggdrasil_ng.Traffic.Queue.Evict.{IsUnder, FitsFlow}

with_info-bytes :
    (infos : List PqPacketInfo) (info : PqPacketInfo)
    → (bytes (infos ++ (info ∷ [])) ≡ bytes infos + info.size)
      × (length (infos ++ (info ∷ [])) ≡ length infos + 1)
unfolding bytes
with_info-bytes [] info = (omega arith, refl)
with_info-bytes (i ∷ infos) info =
    let (b, p) = with_info-bytes infos info in (omega arith, omega arith)

with_info-IsFlow :
    (flow : Flow) (info : PqPacketInfo) (cap : ℕ)
    → cap < u64_range
    → flow.size ≡ flow_bytes flow
    → flow.size + info.size ≤ cap
    → IsFlow cap (with_info flow info)
unfolding with_info
with_info-IsFlow flow info cap small counted fits =
    let exact = add_u64_exact flow.size info.size (omega arith) in
    let more = (with_info-bytes flow.infos info).0 in (omega arith, omega arith)

store_info-Backlog :
    (q : PacketQueue) (key : FlowKey) (info : PqPacketInfo)
    → IsCounted q
    → flow_size q key + info.size ≤ q.max_bytes_per_flow
    → Backlog q.max_bytes_per_flow (q.size + info.size) (q.count + 1) (store_info q key info).flows
unfolding store_info flow_size bytes with_info
store_info-Backlog q key info ok fits = elim (Option-cases (get q.flows key)) [
  | inl e ↦
      let fits' : 0 + info.size ≤ q.max_bytes_per_flow = rw (flow_size, e) at fits in
      let small = ok.flow_small in
      let (more, longer) = with_info-bytes [] info in
      rw (store_info, e)
        (insert_new-Backlog q.max_bytes_per_flow q.size q.count q.flows ok.backlog key
          (with_info new_flow info) e
          (with_info-IsFlow new_flow info q.max_bytes_per_flow (omega arith) refl fits')
          (q.size + info.size) (q.count + 1) (omega arith) (omega arith))
  | inr (flow, e) ↦
      let fits' : flow.size + info.size ≤ q.max_bytes_per_flow = rw (flow_size, e) at fits in
      let small = ok.flow_small in
      let (more, longer) = with_info-bytes flow.infos info in
      rw (store_info, e)
        (insert_old-Backlog q.max_bytes_per_flow q.size q.count q.flows ok.backlog key flow
          (with_info flow info) e
          (with_info-IsFlow flow info q.max_bytes_per_flow (omega arith)
            (ok.backlog.each key flow e).0 fits')
          (q.size + info.size) (q.count + 1) (omega arith) (omega arith))
]

pub store_info-IsUnder :
    (q : PacketQueue) (key : FlowKey) (info : PqPacketInfo) (total per_flow : ℕ)
    → IsUnder total per_flow q
    → FitsFlow key info.size per_flow q
    → q.size + info.size ≤ total
    → IsUnder total per_flow (store_info q key info)
unfolding store_info
store_info-IsUnder q key info total per_flow ok fits room_ =
    let small = ok.counted.total_small in
    let small' = ok.counted.flow_small in
    let cap = ok.total_cap in
    let cap' = ok.flow_cap in
    let exact = add_u64_exact q.size info.size (omega arith) in
    record {
      counted = record {
        backlog = rw exact (store_info-Backlog q key info ok.counted (omega arith));
        capped = omega arith;
        total_small = small;
        flow_small = small';
      };
      total_cap = cap;
      flow_cap = cap';
    }

activate-IsUnder :
    (q : PacketQueue) (key : FlowKey) (total per_flow : ℕ)
    → IsUnder total per_flow q
    → IsUnder total per_flow (activate q key)
unfolding activate set_index
activate-IsUnder q key total per_flow ok = record {
  counted = record {
    backlog =
        modify-Backlog q.max_bytes_per_flow q.size q.count q.flows ok.counted.backlog key _
          (λ flow. refl) (λ flow. refl);
    capped = ok.counted.capped;
    total_small = ok.counted.total_small;
    flow_small = ok.counted.flow_small;
  };
  total_cap = ok.total_cap;
  flow_cap = ok.flow_cap;
}

pub append_info-IsUnder :
    (q : PacketQueue) (key : FlowKey) (info : PqPacketInfo) (total per_flow : ℕ)
    → IsUnder total per_flow (store_info q key info)
    → IsUnder total per_flow (append_info q key info)
unfolding append_info
append_info-IsUnder q key info total per_flow ok =
    elim (Option-cases (index_of (get (store_info q key info).flows key))) [
      | inl e ↦ rw (append_info, e) (activate-IsUnder _ key total per_flow ok)
      | inr (idx, e) ↦ rw (append_info, e) ok
    ]

pub flow_for-IsUnder :
    (q : PacketQueue) (key : FlowKey) (total per_flow : ℕ)
    → IsUnder total per_flow q
    → IsUnder total per_flow (flow_for q key)
unfolding flow_for contains_key bytes
flow_for-IsUnder q key total per_flow ok = elim (Option-cases (get q.flows key)) [
  | inr (flow, e) ↦ rw (flow_for, contains_key, e) ok
  | inl e ↦
      rw (flow_for, contains_key, e)
        (record {
          counted = record {
            backlog =
                insert_new-Backlog q.max_bytes_per_flow q.size q.count q.flows ok.counted.backlog
                  key new_flow e (refl, omega arith) q.size q.count (omega arith) (omega arith);
            capped = ok.counted.capped;
            total_small = ok.counted.total_small;
            flow_small = ok.counted.flow_small;
          };
          total_cap = ok.total_cap;
          flow_cap = ok.flow_cap;
        })
]
