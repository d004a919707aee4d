-- ===== src/Traffic/Queue/Counted.antt =====
-- crates/ironwood/src/traffic.rs: the byte and packet counts of the queue, which no operation lets
-- wrap around.
use yggdrasil_ng.Prelude.{
  ℕ, ◌+◌, ◌-◌, ◌^◌, ◌≤◌, ◌<◌, ◌≡◌, refl, sym, ap, ◌∙◌, List, [], ◌∷◌, Option, none, some, Bool,
  true, false, if◌then◌else◌, ◌=?◌, length, arith,
}
use mathlib.Core.Option
use mathlib.Core.Path.{subst}
use yggdrasil_ng.Prelude.Map.{
  Map, Distinct, get, insert, remove, modify, get-insert, get-modify, get-remove,
}
use yggdrasil_ng.Prelude.Map.Distinct.{insert-Distinct, modify-Distinct, remove-Distinct}
use yggdrasil_ng.Prelude.Map.Sum.{
  sum_by, insert_new-sum_by, insert_old-sum_by, modify-sum_by, remove-sum_by,
}
use yggdrasil_ng.Traffic.Queue.{
  FlowKey, flow_key_eq, PqPacketInfo, Flow, PacketQueue, add_u64, sub_u64, u64_range,
}

-- The bytes of a backlog.
unfoldable pub bytes : List PqPacketInfo → ℕ
bytes [] = 0
bytes (info ∷ infos) = info.size + bytes infos

abbrev pub flow_bytes : Flow → ℕ
flow_bytes flow = bytes flow.infos

abbrev pub flow_packets : Flow → ℕ
flow_packets flow = length flow.infos

-- What a flow stores agrees with its backlog and is under the cap.
abbrev pub IsFlow : ℕ → Flow → Type 0
IsFlow cap flow = (flow.size ≡ flow_bytes flow) × (flow.size ≤ cap)

-- The flows hold so many bytes and packets, and each of them is under the cap.
pub record Backlog (cap n_bytes n_packets : ℕ) (flows : Map FlowKey Flow) : Type 0 where
  pub distinct : Distinct flows
  pub each : (key : FlowKey) (flow : Flow) → get flows key ≡ some flow → IsFlow cap flow
  pub sum_bytes : sum_by flow_bytes flows ≡ n_bytes
  pub sum_packets : sum_by flow_packets flows ≡ n_packets

-- The queue's size and count are those of the backlogs, and both caps hold.
pub record IsCounted (q : PacketQueue) : Type 0 where
  pub backlog : Backlog q.max_bytes_per_flow q.size q.count q.flows
  pub capped : q.size ≤ q.max_bytes_total
  pub total_small : q.max_bytes_total < 2 ^ 63
  pub flow_small : q.max_bytes_per_flow < 2 ^ 63

pub sub_u64_exact : (a b : ℕ) → b ≤ a → a < u64_range → sub_u64 a b ≡ a - b
unfolding sub_u64
sub_u64_exact a b le small = omega arith

pub add_u64_exact : (a b : ℕ) → a + b < u64_range → add_u64 a b ≡ a + b
unfolding add_u64
add_u64_exact a b small = omega arith

map-IsFlow :
    (c : Bool) (o : Option Flow) (cap : ℕ) (f : Flow → Flow)
    → ((flow : Flow) → (f flow).infos ≡ flow.infos)
    → ((flow : Flow) → (f flow).size ≡ flow.size)
    → ((v : Flow) → o ≡ some v → IsFlow cap v)
    → (v : Flow) → (if c then Option.map f o else o) ≡ some v
    → IsFlow cap v
map-IsFlow true none cap f infos size h v e = absurd (cc e)
map-IsFlow true (some w) cap f infos size h v e =
    let (counted, under) = h w refl in
    let at : f w ≡ v = cc e in
    subst (IsFlow cap) at (size w ∙ counted ∙ sym (ap bytes (infos w)), rw (size w) under)
map-IsFlow false o cap f infos size h v e = h v e

if-IsFlow :
    (c : Bool) (o : Option Flow) (cap : ℕ) (flow : Flow)
    → IsFlow cap flow
    → ((v : Flow) → o ≡ some v → IsFlow cap v)
    → (v : Flow) → (if c then some flow else o) ≡ some v
    → IsFlow cap v
if-IsFlow true o cap flow new h v e = let at : flow ≡ v = cc e in subst (IsFlow cap) at new
if-IsFlow false o cap flow new h v e = h v e

module _ (cap b p : ℕ) (flows : Map FlowKey Flow) (ok : Backlog cap b p flows) where
  -- A change of a flow that leaves its packets and its size.
  pub modify-Backlog :
      (key : FlowKey) (f : Flow → Flow)
      → ((flow : Flow) → (f flow).infos ≡ flow.infos)
      → ((flow : Flow) → (f flow).size ≡ flow.size)
      → Backlog cap b p (modify flows key f)
  modify-Backlog key f infos size = record {
    distinct = modify-Distinct flows key f ok.distinct;
    each = λ k v e.
        map-IsFlow (key =? k) (get flows k) cap f infos size (ok.each k) v
          (sym (get-modify flows key k f) ∙ e);
    sum_bytes = modify-sum_by flow_bytes flows key f (λ flow. ap bytes (infos flow)) ∙ ok.sum_bytes;
    sum_packets =
        modify-sum_by flow_packets flows key f (λ flow. ap length (infos flow)) ∙ ok.sum_packets;
  }

  -- A flow in the place of an old one.
  pub insert_old-Backlog :
      (key : FlowKey) (old flow : Flow)
      → get flows key ≡ some old
      → IsFlow cap flow
      → (b' p' : ℕ) → b' + flow_bytes old ≡ flow_bytes flow + b
      → p' + flow_packets old ≡ flow_packets flow + p
      → Backlog cap b' p' (insert flows key flow)
  insert_old-Backlog key old flow h new b' p' eb ep = record {
    distinct = insert-Distinct flows key flow ok.distinct;
    each = λ k v e.
        if-IsFlow (key =? k) (get flows k) cap flow new (ok.each k) v
          (sym (get-insert flows key k flow) ∙ e);
    sum_bytes = ground (arith, insert_old-sum_by flow_bytes flows key old flow h, ok.sum_bytes);
    sum_packets =
        ground (arith, insert_old-sum_by flow_packets flows key old flow h, ok.sum_packets);
  }

  -- A flow without packets can go.
  pub remove-Backlog :
      (key : FlowKey) (flow : Flow)
      → get flows key ≡ some flow
      → flow.infos ≡ []
      → Backlog cap b p (remove flows key)
  unfolding bytes
  remove-Backlog key flow h empty = record {
    distinct = remove-Distinct flows key ok.distinct;
    each = λ k v e. ok.each k v (ground (arith, get-remove flows key k, e));
    sum_bytes =
        remove-sum_by flow_bytes flows key flow ok.distinct h (rw empty refl) ∙ ok.sum_bytes;
    sum_packets =
        remove-sum_by flow_packets flows key flow ok.distinct h (rw empty refl) ∙ ok.sum_packets;
  }

  -- A new flow can come.
  pub insert_new-Backlog :
      (key : FlowKey) (flow : Flow)
      → get flows key ≡ none
      → IsFlow cap flow
      → (b' p' : ℕ) → b' ≡ flow_bytes flow + b
      → p' ≡ flow_packets flow + p
      → Backlog cap b' p' (insert flows key flow)
  insert_new-Backlog key flow h new b' p' eb ep = record {
    distinct = insert-Distinct flows key flow ok.distinct;
    each = λ k v e.
        if-IsFlow (key =? k) (get flows k) cap flow new (ok.each k) v
          (sym (get-insert flows key k flow) ∙ e);
    sum_bytes = ground (arith, insert_new-sum_by flow_bytes flows key flow h, ok.sum_bytes);
    sum_packets = ground (arith, insert_new-sum_by flow_packets flows key flow h, ok.sum_packets);
  }
