-- ===== src/PeerTimeout/Sharing.antt =====
-- The connections of one peer share its durable state.
use yggdrasil_ng.Prelude.{
  zero, suc, ◌<◌, ◌≡◌, refl, ap, ◌∙◌, List, [], ◌∷◌, some, true, beq_refl, length, get_elem?, set,
  arith, Option-cases, inl, inr,
}
use yggdrasil_ng.Prelude.Bytes.{bytes_eq}
use yggdrasil_ng.Prelude.Map.{Map, get, contains_key, get-insert}
use yggdrasil_ng.Wire.Message.{PublicKey}
use yggdrasil_ng.PeerTimeout.{AdaptiveTimeoutConfig, DurableLiveness, snapshot_of}
use yggdrasil_ng.PeerTimeout.Registry.{
  Registry, Address, make_room, new_ctrl, entry_or_new, ctrl_for, write_durable, snapshot,
}

make_room-known :
    (m : Map PublicKey Address) (key : PublicKey) → contains_key m key ≡ true → make_room m key ≡ m
unfolding make_room
make_room-known [] key h = refl
make_room-known ((k, a) ∷ m) key h = ground arith

entry_or_new-get :
    (cfg : AdaptiveTimeoutConfig) (r : Registry) (key : PublicKey)
    → get (entry_or_new cfg r key).0.map key ≡ some (entry_or_new cfg r key).1.durable
unfolding entry_or_new new_ctrl
entry_or_new-get cfg r key = elim (Option-cases (get r.map key)) [
  | inl absent ↦
      rw (entry_or_new, absent, get-insert r.map key key (length r.heap), beq_refl key) refl
  | inr (a, found) ↦ rw (entry_or_new, found) found
]

get-contains :
    (m : Map PublicKey Address) (key : PublicKey) (a : Address)
    → get m key ≡ some a
    → contains_key m key ≡ true
unfolding contains_key
get-contains m key a h = ground arith

entry_or_new-known :
    (cfg : AdaptiveTimeoutConfig) (r : Registry) (key : PublicKey) (a : Address)
    → get r.map key ≡ some a
    → entry_or_new cfg r key ≡ (r, new_ctrl key a)
unfolding entry_or_new
entry_or_new-known cfg r key a h = rw (entry_or_new, h) refl

module _ (cfg : AdaptiveTimeoutConfig) (r : Registry) (key : PublicKey) where
  ctrl_for-get : get (ctrl_for cfg r key).0.map key ≡ some (ctrl_for cfg r key).1.durable
  unfolding ctrl_for
  ctrl_for-get = entry_or_new-get cfg (record r { map = make_room r.map key }) key

  -- A second connection to a key right after the first gets the same durable state, and leaves the
  -- registry as it is.
  pub ctrl_for_again :
      ctrl_for cfg (ctrl_for cfg r key).0 key
      ≡ ((ctrl_for cfg r key).0, new_ctrl key (ctrl_for cfg r key).1.durable)
  unfolding ctrl_for
  ctrl_for_again =
      let r' = (ctrl_for cfg r key).0 in
      let a = (ctrl_for cfg r key).1.durable in
      let known = get-contains r'.map key a ctrl_for-get in
      ap (λ m. entry_or_new cfg (record r' { map = m }) key) (make_room-known r'.map key known)
      ∙ entry_or_new-known cfg r' key a ctrl_for-get

get_elem?-set :
    (heap : List DurableLiveness) (a : Address) (d : DurableLiveness)
    → a < length heap
    → get_elem? (set heap a d) a ≡ some d
get_elem?-set [] a d h = absurd (omega arith)
get_elem?-set (x ∷ heap) zero d h = refl
get_elem?-set (x ∷ heap) (suc a) d h = get_elem?-set heap a d (omega arith)

get_elem?-bound :
    (heap : List DurableLiveness) (a : Address) (d : DurableLiveness)
    → get_elem? heap a ≡ some d
    → a < length heap
get_elem?-bound [] a d h = cc h
get_elem?-bound (x ∷ heap) zero d h = omega arith
get_elem?-bound (x ∷ heap) (suc a) d h = omega (arith, get_elem?-bound heap a d h)

write_durable-known :
    (r : Registry) (a : Address) (d : DurableLiveness) (f : DurableLiveness → DurableLiveness)
    → get_elem? r.heap a ≡ some d
    → write_durable r a f ≡ record r { heap = set r.heap a (f d) }
unfolding write_durable
write_durable-known r a d f h = rw (write_durable, h) refl

-- What a connection writes to the durable state of a registered key is what the registry reports
-- for that key.
pub snapshot-write_durable :
    (cfg : AdaptiveTimeoutConfig) (r : Registry) (key : PublicKey) (a : Address)
    (d : DurableLiveness) (f : DurableLiveness → DurableLiveness)
    → get r.map key ≡ some a
    → get_elem? r.heap a ≡ some d
    → snapshot cfg (write_durable r a f) key ≡ snapshot_of cfg (f d)
unfolding snapshot
snapshot-write_durable cfg r key a d f h k =
    let there = get_elem?-set r.heap a (f d) (get_elem?-bound r.heap a d k) in
    ap (λ q. snapshot cfg q key) (write_durable-known r a d f k) ∙ rw (snapshot, h, there) refl
