-- ===== src/PeerTimeout/Registry.antt =====
-- crates/ironwood/src/peer_timeout.rs: `PeerLivenessRegistry`. The durable states are shared by
-- reference (`Arc`), so they lie in a heap, and the map and the controllers hold their addresses.
use yggdrasil_ng.Prelude.{
  ℕ, List, [], ◌∷◌, ◌++◌, Option, none, some, ◌&&◌, not, ltb, if◌then◌else◌, length, get_elem?, set,
}
use yggdrasil_ng.Prelude.Bytes.{bytes_eq}
use yggdrasil_ng.Prelude.Map.{Map, get, insert, remove, contains_key}
use yggdrasil_ng.Wire.Message.{PublicKey}
use yggdrasil_ng.PeerTimeout.{
  AdaptiveTimeoutConfig, DurableLiveness, LivenessSnapshot, millis, new_durable, snapshot_of,
}
use yggdrasil_ng.PeerTimeout.Control.{Connection}

abbrev pub registry_soft_cap : ℕ
registry_soft_cap = 4096

abbrev pub Address : Type 0
Address = ℕ

pub record Registry : Type 0 where
  pub map : Map PublicKey Address
  pub heap : List DurableLiveness

pub record PeerTimeoutCtrl : Type 0 where
  pub key : PublicKey
  pub durable : Address
  pub connection : Connection

-- The key that goes when the map is full: that of the first entry.
unfoldable pub make_room : Map PublicKey Address → PublicKey → Map PublicKey Address
make_room [] key = []
make_room ((k, a) ∷ m) key =
    if not (ltb (length ((k, a) ∷ m)) registry_soft_cap) && not (contains_key ((k, a) ∷ m) key)
    then remove ((k, a) ∷ m) k
    else (k, a) ∷ m

unfoldable pub new_ctrl : PublicKey → Address → PeerTimeoutCtrl
new_ctrl key a = record {
  key = key;
  durable = a;
  connection = record { deadline_slot = none; epoch = none };
}

-- `entry(key).or_insert_with(...)`
unfoldable pub entry_or_new :
    AdaptiveTimeoutConfig → Registry → PublicKey → Registry × PeerTimeoutCtrl
entry_or_new cfg r key = elim (get r.map key) [
  | some a ↦ (r, new_ctrl key a)
  | none ↦ (
    record {
      map = insert r.map key (length r.heap);
      heap = r.heap ++ (new_durable (millis cfg.min_interval) ∷ []);
    },
    new_ctrl key (length r.heap),
  )
]

unfoldable pub ctrl_for : AdaptiveTimeoutConfig → Registry → PublicKey → Registry × PeerTimeoutCtrl
ctrl_for cfg r key = entry_or_new cfg (record r { map = make_room r.map key }) key

-- What a controller does to its durable state.
unfoldable pub write_durable : Registry → Address → (DurableLiveness → DurableLiveness) → Registry
write_durable r a f = elim (get_elem? r.heap a) [
  | none ↦ r
  | some d ↦ record r { heap = set r.heap a (f d) }
]

unfoldable pub snapshot : AdaptiveTimeoutConfig → Registry → PublicKey → Option LivenessSnapshot
snapshot cfg r key = elim (get r.map key) [
  | none ↦ none
  | some a ↦ elim (get_elem? r.heap a) [ none ↦ none | some d ↦ snapshot_of cfg d ]
]
