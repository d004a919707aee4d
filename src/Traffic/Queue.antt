-- ===== src/Traffic/Queue.antt =====
-- crates/ironwood/src/traffic.rs: the packet queue, without the dequeueing. A `u64` wraps around, as
-- the release build has no overflow checks.
pub mod Push
pub mod Counted
pub mod Ring
pub mod Drop
pub mod Evict
pub mod Store
pub mod Caps
pub mod Append
pub mod Places
pub mod Runs
use yggdrasil_ng.Prelude.{
  ℕ, zero, suc, ◌+◌, ◌-◌, ◌*◌, ◌%◌, ◌^◌, ◌≡◌, ◌↔◌, refl, List, [], ◌∷◌, ◌++◌, Option, none, some,
  Bool, true, false, ◌&&◌, ◌||◌, not, ltb, leb, ◌==◌, if◌then◌else◌, ◌=?◌, nat_eq, HasEq, length,
  get_elem?, set, take, min, arith, Bool-cases,
}
use yggdrasil_ng.Prelude.Bytes.{bytes_eq, bytes_beq_iff}
use yggdrasil_ng.Prelude.Map.{Map, get, insert, remove, modify, contains_key}
use yggdrasil_ng.Wire.Message.{PublicKey}
use yggdrasil_ng.Traffic.{TrafficPacket, wire_size}

abbrev pub u64_range : ℕ
u64_range = 2 ^ 64

unfoldable pub add_u64 : ℕ → ℕ → ℕ
add_u64 a b = (a + b) % u64_range

unfoldable pub sub_u64 : ℕ → ℕ → ℕ
sub_u64 a b = (a + (u64_range - b)) % u64_range

-- `DEFAULT_PACKET_QUEUE_MAX_BYTES_MULTIPLIER`
abbrev pub max_bytes_multiplier : ℕ
max_bytes_multiplier = 64

-- `DEFAULT_PACKET_QUEUE_PER_FLOW_MULTIPLIER`
abbrev pub per_flow_multiplier : ℕ
per_flow_multiplier = 16

-- `DEFAULT_MAX_MESSAGE_SIZE`
abbrev pub max_message_size : ℕ
max_message_size = 1024 * 1024

pub record FlowKey : Type 0 where
  pub source : PublicKey
  pub dest : PublicKey

abbrev pub flow_key_beq : FlowKey → FlowKey → Bool
flow_key_beq a b = a.source =? b.source && a.dest =? b.dest

pub flow_key_beq_iff : (a b : FlowKey) → (flow_key_beq a b ≡ true) ↔ (a ≡ b)
flow_key_beq_iff a b =
    let s = bytes_beq_iff a.source b.source in
    let d = bytes_beq_iff a.dest b.dest in (λ h. ground (arith, s, d), λ h. ground (arith, s, d))

instance abbrev pub flow_key_eq : HasEq FlowKey
flow_key_eq = record { beq = flow_key_beq; beq_iff = flow_key_beq_iff }

pub record PqPacketInfo : Type 0 where
  pub packet : TrafficPacket
  pub size : ℕ
  pub time : ℕ

pub record Flow : Type 0 where
  pub infos : List PqPacketInfo
  pub size : ℕ
  pub deficit : ℕ
  pub index : Option ℕ

-- `PacketQueue` without the state of CoDel, which only the dequeueing uses.
pub record PacketQueue : Type 0 where
  pub flows : Map FlowKey Flow
  pub active : List FlowKey
  pub next : Option ℕ
  pub size : ℕ
  pub count : ℕ
  pub max_bytes_total : ℕ
  pub max_bytes_per_flow : ℕ
  pub quantum : ℕ

-- `PacketQueue::new`
unfoldable pub new_queue : ℕ → PacketQueue
new_queue quantum =
    let quantum = if quantum == 0 then max_message_size else quantum in
    record {
      flows = [];
      active = [];
      next = none;
      size = 0;
      count = 0;
      max_bytes_total = quantum * max_bytes_multiplier % u64_range;
      max_bytes_per_flow = quantum * per_flow_multiplier % u64_range;
      quantum = quantum;
    }

unfoldable pub is_empty : PacketQueue → Bool
is_empty q = q.size == 0

-- `flow.index = index`, where the flow is there.
unfoldable pub set_index : Map FlowKey Flow → FlowKey → Option ℕ → Map FlowKey Flow
set_index flows key index = modify flows key (λ flow. record flow { index = index })

unfoldable pub activate : PacketQueue → FlowKey → PacketQueue
activate q key = record q {
  active = q.active ++ (key ∷ []);
  flows = set_index q.flows key (some (length q.active));
}

-- The key that moves to the place of the one that goes.
unfoldable pub move_last : Map FlowKey Flow → List FlowKey → ℕ → ℕ → Map FlowKey Flow
move_last flows active idx last = elim (get_elem? active last) [
  | none ↦ flows
  | some moved ↦ if not (idx == last) then set_index flows moved (some idx) else flows
]

unfoldable pub place_last : List FlowKey → ℕ → ℕ → List FlowKey
place_last active idx last = elim (get_elem? active last) [
  | none ↦ active
  | some moved ↦ if not (idx == last) then set active idx moved else active
]

-- The cursor afterwards.
unfoldable pub fix_next : Option ℕ → ℕ → ℕ → Option ℕ
fix_next none idx last = none
fix_next (some n) idx last =
    if last == 0
    then none
    else let n' = if n == last then idx else n in if leb last n' then some 0 else some n'

-- Where the index is behind the ring, the ring stays. The code panics for an index into an empty
-- ring; the ring stays here too.
unfoldable pub deactivate_at : PacketQueue → FlowKey → ℕ → PacketQueue
deactivate_at q key idx =
    let last = length q.active - 1 in
    if ltb last idx then q else record q {
      flows = set_index (move_last q.flows q.active idx last) key none;
      active = take last (place_last q.active idx last);
      next = fix_next q.next idx last;
    }

unfoldable pub index_of : Option Flow → Option ℕ
index_of none = none
index_of (some flow) = flow.index

unfoldable pub deactivate : PacketQueue → FlowKey → PacketQueue
deactivate q key = elim (index_of (get q.flows key)) [
  | none ↦ q
  | some idx ↦ deactivate_at q key idx
]

abbrev pub new_flow : Flow
new_flow = record { infos = []; size = 0; deficit = 0; index = none }

-- `flow_for`, for its effect.
unfoldable pub flow_for : PacketQueue → FlowKey → PacketQueue
flow_for q key =
    if contains_key q.flows key then q else record q { flows = insert q.flows key new_flow }

unfoldable pub is_nil : List PqPacketInfo → Bool
is_nil [] = true
is_nil (info ∷ infos) = false

unfoldable pub remove_flow_if_empty : PacketQueue → FlowKey → PacketQueue
remove_flow_if_empty q key = elim (get q.flows key) [
  | none ↦ q
  | some flow ↦
      if not (is_nil flow.infos)
      then q
      else let q' = deactivate q key in record q' { flows = remove q'.flows key }
]

-- The flow without its head.
unfoldable pub without_head : ℕ → Flow → PqPacketInfo → List PqPacketInfo → Flow
without_head quantum flow info rest =
    let deficit_cap = quantum * 4 % u64_range in
    record flow {
      infos = rest;
      size = sub_u64 flow.size info.size;
      deficit = if ltb deficit_cap flow.deficit then deficit_cap else flow.deficit;
    }

unfoldable pub drop_head :
    PacketQueue → FlowKey → Flow → PqPacketInfo → List PqPacketInfo → PacketQueue
drop_head q key flow info rest =
    remove_flow_if_empty
      (record q {
        flows = insert q.flows key (without_head q.quantum flow info rest);
        size = sub_u64 q.size info.size;
        count = q.count - 1;
      })
      key

unfoldable pub drop_infos :
    PacketQueue → FlowKey → Flow → List PqPacketInfo → Option (PqPacketInfo × PacketQueue)
drop_infos q key flow [] = none
drop_infos q key flow (info ∷ rest) = some (info, drop_head q key flow info rest)

-- None leaves the queue as it is.
unfoldable pub drop_from : PacketQueue → FlowKey → Option (PqPacketInfo × PacketQueue)
drop_from q key = elim (get q.flows key) [
  | none ↦ none
  | some flow ↦ drop_infos q key flow flow.infos
]

-- The size and the head's time of a flow that has a head.
unfoldable pub head_of : Option Flow → Option (ℕ × ℕ)
head_of none = none
head_of (some flow) = elim flow.infos [ [] ↦ none | info ∷ rest ↦ some (flow.size, info.time) ]

-- `max_by` keeps the last of equal ones.
unfoldable pub larger : Option (FlowKey × ℕ × ℕ) → FlowKey → ℕ × ℕ → FlowKey × ℕ × ℕ
larger none key (size, time) = (key, size, time)
larger (some (best, size', time')) key (size, time) =
    if ltb size size' || (size == size' && ltb time' time)
    then (best, size', time')
    else (key, size, time)

unfoldable pub largest_loop :
    Map FlowKey Flow → List FlowKey → Option (FlowKey × ℕ × ℕ) → Option (FlowKey × ℕ × ℕ)
largest_loop flows [] best = best
largest_loop flows (key ∷ keys) best = elim (head_of (get flows key)) [
  | none ↦ largest_loop flows keys best
  | some head ↦ largest_loop flows keys (some (larger best key head))
]

unfoldable pub largest_flow : PacketQueue → Option FlowKey
largest_flow q = elim (largest_loop q.flows q.active none) [
  | none ↦ none
  | some (key, size, time) ↦ some key
]

-- None leaves the queue as it is: nothing was dropped.
unfoldable pub drop_largest : PacketQueue → Option (PqPacketInfo × PacketQueue)
drop_largest q = elim (largest_flow q) [ none ↦ none | some key ↦ drop_from q key ]
