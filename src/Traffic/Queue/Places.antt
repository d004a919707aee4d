-- ===== src/Traffic/Queue/Places.antt =====
-- crates/ironwood/src/traffic.rs: `activate`, `deactivate` and the index that each flow has in the
-- ring of active flows.
use yggdrasil_ng.Prelude.{
  ℕ, suc, ◌-◌, ◌≤◌, ◌≡◌, ◌≢◌, refl, sym, ◌∙◌, List, [], ◌∷◌, Option, none, some, true, false, ltb,
  ◌==◌, ◌=?◌, nat_eq, length, get_elem?, take, set, inl, inr, arith, Bool-cases, Option-cases,
}
use mathlib.Core.Option
use yggdrasil_ng.Prelude.Elems.{
  get_elem?-small, get_elem?-there, get_elem?-append, get_elem?-end, get_elem?-take, get_elem?-set,
  get_elem?-set_other,
}
use yggdrasil_ng.Prelude.Map.{Map, get, insert, remove, get-insert, get-modify, get-remove}
use yggdrasil_ng.Traffic.Queue.{
  FlowKey, flow_key_eq, Flow, PacketQueue, set_index, move_last, place_last, activate,
  deactivate_at, deactivate, flow_key_beq_iff, index_of, is_nil, remove_flow_if_empty,
}

-- The flow with an index stands at that place of the ring.
abbrev pub Places : Map FlowKey Flow → List FlowKey → Type 0
Places flows active =
    (key : FlowKey) (i : ℕ) → index_of (get flows key) ≡ some i → get_elem? active i ≡ some key

abbrev pub HasPlaces : PacketQueue → Type 0
HasPlaces q = Places q.flows q.active

index_of-set_index :
    (flows : Map FlowKey Flow) (key : FlowKey) (index : Option ℕ) (k : FlowKey)
    → (key =? k) ≡ false
    → index_of (get (set_index flows key index) k) ≡ index_of (get flows k)
unfolding set_index
index_of-set_index flows key index k other =
    rw (get-modify flows key k (λ flow. record flow { index = index }), other) refl

index_of-map :
    (o : Option Flow) (index : Option ℕ) (i : ℕ)
    → index_of (Option.map (λ (flow : Flow). record flow { index = index }) o) ≡ some i
    → index ≡ some i
unfolding index_of
index_of-map none index i h = absurd (cc h)
index_of-map (some flow) index i h = h

index_of-set_index_same :
    (flows : Map FlowKey Flow) (key : FlowKey) (index : Option ℕ) (k : FlowKey) (i : ℕ)
    → (key =? k) ≡ true
    → index_of (get (set_index flows key index) k) ≡ some i
    → index ≡ some i
unfolding set_index
index_of-set_index_same flows key index k i same h =
    index_of-map (get flows k) index i
      (rw (get-modify flows key k (λ flow. record flow { index = index }), same) at h)

-- Different keys are at different places.
differ :
    (active : List FlowKey) (i j : ℕ) (a b : FlowKey)
    → (a =? b) ≡ false
    → get_elem? active i ≡ some a
    → get_elem? active j ≡ some b
    → i ≢ j
differ active i j a b other at_i at_j e =
    let there : get_elem? active j ≡ some a = rw e at at_i in
    let same : a ≡ b = cc (there, at_j) in cc ((flow_key_beq_iff a b).1 same, other)

pub activate-HasPlaces :
    (q : PacketQueue) (key : FlowKey) → HasPlaces q → HasPlaces (activate q key)
unfolding activate
activate-HasPlaces q key h k i e = elim (Bool-cases (key =? k)) [
  | inl same ↦
      let at_end : length q.active ≡ i =
        cc (index_of-set_index_same q.flows key (some (length q.active)) k i same e) in
      let name : key ≡ k = (flow_key_beq_iff key k).0 same in
      rw (← at_end, ← name) (get_elem?-end q.active key)
  | inr other ↦
      let there =
        h k i (sym (index_of-set_index q.flows key (some (length q.active)) k other) ∙ e) in
      get_elem?-append q.active (key ∷ []) i (get_elem?-small q.active i k there) ∙ there
]

-- The other keys of the ring keep their places when its last key moves to the place of one that goes.
module _ (active : List FlowKey) (key moved : FlowKey) (idx last : ℕ) where
  placed :
      (i : ℕ) (k : FlowKey)
      → get_elem? active idx ≡ some key
      → get_elem? active last ≡ some moved
      → (key =? k) ≡ false
      → get_elem? active i ≡ some k
      → get_elem? (place_last active idx last) i ≡ some k
  unfolding place_last
  placed i k at_idx at_last other at_i = elim (Bool-cases (idx == last)) [
    | inl c ↦ rw (place_last, at_last, c) at_i
    | inr c ↦
        rw (place_last, at_last, c)
          (get_elem?-set_other active idx i moved (differ active idx i key k other at_idx at_i)
            ∙ at_i)
  ]

  popped :
      (i : ℕ) (k : FlowKey)
      → length active ≤ suc last
      → get_elem? active idx ≡ some key
      → get_elem? active last ≡ some moved
      → (key =? k) ≡ false
      → (moved =? k) ≡ false
      → get_elem? active i ≡ some k
      → get_elem? (take last (place_last active idx last)) i ≡ some k
  popped i k len at_idx at_last other other' at_i =
      let small = get_elem?-small active i k at_i in
      let away = differ active last i moved k other' at_last at_i in
      get_elem?-take (place_last active idx last) last i (ground (arith, small, away))
      ∙ placed i k at_idx at_last other at_i

  -- The moved key, where it is another one.
  moved_there :
      idx ≤ last
      → get_elem? active idx ≡ some key
      → get_elem? active last ≡ some moved
      → (key =? moved) ≡ false
      → get_elem? (take last (place_last active idx last)) idx ≡ some moved
  unfolding place_last
  moved_there le at_idx at_last other =
      let away = differ active idx last key moved other at_idx at_last in
      let no : (idx == last) ≡ false = ground (arith, away) in
      let small = get_elem?-small active idx key at_idx in
      rw (place_last, at_last, no)
        (get_elem?-take (set active idx moved) last idx (ground (arith, away))
          ∙ get_elem?-set active idx moved small)

-- The flows after the last key has moved, at a flow that stays.
module _ (q : PacketQueue) (key moved : FlowKey) (idx last : ℕ) (h : HasPlaces q) where
  moved-Places :
      (k : FlowKey) (i : ℕ)
      → length q.active ≤ suc last
      → idx ≤ last
      → get_elem? q.active idx ≡ some key
      → get_elem? q.active last ≡ some moved
      → (key =? k) ≡ false
      → index_of (get (move_last q.flows q.active idx last) k) ≡ some i
      → get_elem? (take last (place_last q.active idx last)) i ≡ some k
  unfolding move_last
  moved-Places k i len le at_idx at_last other e = elim (Bool-cases (idx == last)) [
    | inl c ↦
        let there = h k i (rw (move_last, at_last, c) at e) in
        let same : idx ≡ last = ground arith in
        let at_last' : get_elem? q.active last ≡ some key = rw same at at_idx in
        let name : moved ≡ key = cc (at_last, at_last') in
        popped q.active key moved idx last i k len at_idx at_last other (rw name other) there
    | inr c ↦
        let e' : index_of (get (set_index q.flows moved (some idx)) k) ≡ some i =
          rw (move_last, at_last, c) at e in
        elim (Bool-cases (moved =? k)) [
          | inl same ↦
              let name : moved ≡ k = (flow_key_beq_iff moved k).0 same in
              let place : idx ≡ i =
                cc (index_of-set_index_same q.flows moved (some idx) k i same e') in
              let other' : (key =? moved) ≡ false = rw name other in
              rw (← name, ← place)
                (moved_there q.active key moved idx last le at_idx at_last other')
          | inr other' ↦
              let there = h k i (sym (index_of-set_index q.flows moved (some idx) k other') ∙ e') in
              popped q.active key moved idx last i k len at_idx at_last other other' there
        ]
  ]

deactivate_at-HasPlaces :
    (q : PacketQueue) (key : FlowKey) (idx : ℕ)
    → HasPlaces q
    → index_of (get q.flows key) ≡ some idx
    → HasPlaces (deactivate_at q key idx)
unfolding deactivate_at
deactivate_at-HasPlaces q key idx h index =
    let last = length q.active - 1 in
    let at_idx = h key idx index in
    let small = get_elem?-small q.active idx key at_idx in
    let (moved, at_last) = get_elem?-there q.active last (omega (arith, small)) in
    let inside : ltb last idx ≡ false = ground (arith, small) in
    rw (deactivate_at, inside)
      (λ k i e. elim (Bool-cases (key =? k)) [
        | inl same ↦
            absurd (
              cc
                (index_of-set_index_same (move_last q.flows q.active idx last) key none k i same e))
        | inr other ↦
            moved-Places q key moved idx last h k i (omega (arith, small)) (omega (arith, small))
              at_idx at_last other
              (sym (index_of-set_index (move_last q.flows q.active idx last) key none k other) ∙ e)
      ])

deactivate-HasPlaces :
    (q : PacketQueue) (key : FlowKey) → HasPlaces q → HasPlaces (deactivate q key)
unfolding deactivate
deactivate-HasPlaces q key h = elim (Option-cases (index_of (get q.flows key))) [
  | inl e ↦ rw (deactivate, e) h
  | inr (idx, e) ↦ rw (deactivate, e) (deactivate_at-HasPlaces q key idx h e)
]

remove-HasPlaces :
    (q : PacketQueue) (key : FlowKey)
    → HasPlaces q
    → HasPlaces (record q { flows = remove q.flows key })
unfolding index_of
remove-HasPlaces q key h k i e = elim (Bool-cases (key =? k)) [
  | inl same ↦ absurd (cc (rw (get-remove q.flows key k, same) at e))
  | inr other ↦ h k i (rw (get-remove q.flows key k, other) at e)
]

pub remove_flow_if_empty-HasPlaces :
    (q : PacketQueue) (key : FlowKey) → HasPlaces q → HasPlaces (remove_flow_if_empty q key)
unfolding remove_flow_if_empty
remove_flow_if_empty-HasPlaces q key h = elim (Option-cases (get q.flows key)) [
  | inl e ↦ rw (remove_flow_if_empty, e) h
  | inr (flow, e) ↦ elim (Bool-cases (is_nil flow.infos)) [
    | inl c ↦
        rw (remove_flow_if_empty, e, c)
          (remove-HasPlaces (deactivate q key) key (deactivate-HasPlaces q key h))
    | inr c ↦ rw (remove_flow_if_empty, e, c) h
  ]
]

-- A flow that gets another value with the same index.
pub insert-Places :
    (flows : Map FlowKey Flow) (active : List FlowKey) (key : FlowKey) (flow : Flow)
    → Places flows active
    → ((i : ℕ) → flow.index ≡ some i → index_of (get flows key) ≡ some i)
    → Places (insert flows key flow) active
unfolding index_of
insert-Places flows active key flow h same k i e = elim (Bool-cases (key =? k)) [
  | inl c ↦
      let name : key ≡ k = (flow_key_beq_iff key k).0 c in
      rw (← name) (h key i (same i (rw (get-insert flows key k flow, c) at e)))
  | inr c ↦ h k i (rw (get-insert flows key k flow, c) at e)
]
