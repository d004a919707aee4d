-- ===== src/Traffic/Queue/Ring.antt =====
-- crates/ironwood/src/traffic.rs: `remove_flow_if_empty` and the ring leave the counts as they are.
use yggdrasil_ng.Prelude.{
  ℕ, ◌-◌, ◌≤◌, ◌≡◌, refl, ◌∙◌, List, [], ◌∷◌, Option, none, some, true, ◌==◌, length, get_elem?,
  inl, inr, arith, Bool-cases, Option-cases, ltb,
}
use mathlib.Core.Option
use yggdrasil_ng.Prelude.Map.{Map, get, remove, get-modify, get-remove}
use yggdrasil_ng.Traffic.Queue.{
  FlowKey, flow_key_eq, PqPacketInfo, Flow, PacketQueue, set_index, move_last, deactivate_at,
  deactivate, index_of, is_nil, remove_flow_if_empty,
}
use yggdrasil_ng.Traffic.Queue.Push.{flow_size}
use yggdrasil_ng.Traffic.Queue.Counted.{Backlog, modify-Backlog, remove-Backlog}

abbrev infos_at : Map FlowKey Flow → FlowKey → Option (List PqPacketInfo)
infos_at flows key = Option.map (λ flow. flow.infos) (get flows key)

abbrev size_at : Map FlowKey Flow → FlowKey → Option ℕ
size_at flows key = Option.map (λ flow. flow.size) (get flows key)

-- A change of positions in the ring only.
record Reindexed (m m' : Map FlowKey Flow) : Type 0 where
  keeps : (cap b p : ℕ) → Backlog cap b p m → Backlog cap b p m'
  infos : (key : FlowKey) → infos_at m' key ≡ infos_at m key
  sizes : (key : FlowKey) → size_at m' key ≡ size_at m key

same-Reindexed : (m : Map FlowKey Flow) → Reindexed m m
same-Reindexed m = record { keeps = λ cap b p h. h; infos = λ key. refl; sizes = λ key. refl }

then-Reindexed : (m m' m'' : Map FlowKey Flow) → Reindexed m m' → Reindexed m' m'' → Reindexed m m''
then-Reindexed m m' m'' x y = record {
  keeps = λ cap b p h. y.keeps cap b p (x.keeps cap b p h);
  infos = λ key. y.infos key ∙ x.infos key;
  sizes = λ key. y.sizes key ∙ x.sizes key;
}

set_index-Reindexed :
    (m : Map FlowKey Flow) (key : FlowKey) (index : Option ℕ) → Reindexed m (set_index m key index)
unfolding set_index
set_index-Reindexed m key index = record {
  keeps = λ cap b p h. modify-Backlog cap b p m h key _ (λ flow. refl) (λ flow. refl);
  infos = λ k. ground (arith, get-modify m key k (λ flow. record flow { index = index }));
  sizes = λ k. ground (arith, get-modify m key k (λ flow. record flow { index = index }));
}

move_last-Reindexed :
    (m : Map FlowKey Flow) (active : List FlowKey) (idx last : ℕ)
    → Reindexed m (move_last m active idx last)
unfolding move_last
move_last-Reindexed m active idx last = elim (Option-cases (get_elem? active last)) [
  | inl e ↦ rw (move_last, e) (same-Reindexed m)
  | inr (moved, e) ↦ elim (Bool-cases (idx == last)) [
    | inl c ↦ rw (move_last, e, c) (same-Reindexed m)
    | inr c ↦ rw (move_last, e, c) (set_index-Reindexed m moved (some idx))
  ]
]

abbrev pub totals_of : PacketQueue → ℕ × ℕ × ℕ × ℕ
totals_of q = (q.size, q.count, q.max_bytes_total, q.max_bytes_per_flow)

deactivate_at-Reindexed :
    (q : PacketQueue) (key : FlowKey) (idx : ℕ)
    → Reindexed q.flows (deactivate_at q key idx).flows
      × (totals_of (deactivate_at q key idx) ≡ totals_of q)
unfolding deactivate_at
deactivate_at-Reindexed q key idx =
    let last = length q.active - 1 in
    elim (Bool-cases (ltb last idx)) [
      | inl c ↦ rw (deactivate_at, c) (same-Reindexed q.flows, refl)
      | inr c ↦
          rw (deactivate_at, c)
            (
              then-Reindexed q.flows (move_last q.flows q.active idx last) _
                  (move_last-Reindexed q.flows q.active idx last)
                  (set_index-Reindexed (move_last q.flows q.active idx last) key none),
              refl,
            )
    ]

deactivate-Reindexed :
    (q : PacketQueue) (key : FlowKey)
    → Reindexed q.flows (deactivate q key).flows × (totals_of (deactivate q key) ≡ totals_of q)
unfolding deactivate
deactivate-Reindexed q key = elim (Option-cases (index_of (get q.flows key))) [
  | inl e ↦ rw (deactivate, e) (same-Reindexed q.flows, refl)
  | inr (idx, e) ↦ rw (deactivate, e) (deactivate_at-Reindexed q key idx)
]

abbrev size_of : Option Flow → ℕ
size_of o = elim o [ none ↦ 0 | some flow ↦ flow.size ]

Reindexed-flow_size :
    (m m' : Map FlowKey Flow) (key : FlowKey)
    → Reindexed m m'
    → size_of (get m' key) ≡ size_of (get m key)
Reindexed-flow_size m m' key same = ground (arith, same.sizes key)

is_nil_sound : (infos : List PqPacketInfo) → is_nil infos ≡ true → infos ≡ []
unfolding is_nil
is_nil_sound [] h = refl
is_nil_sound (info ∷ infos) h = absurd (cc h)

-- What remove_flow_if_empty leaves: the same counts, and no flow is larger than it was.
pub record Cleaned (q q' : PacketQueue) : Type 0 where
  pub keeps : (cap b p : ℕ) → Backlog cap b p q.flows → Backlog cap b p q'.flows
  pub totals : totals_of q' ≡ totals_of q
  pub sizes : (key : FlowKey) → flow_size q' key ≤ flow_size q key

infos_at-some :
    (m m' : Map FlowKey Flow) (key : FlowKey) (flow : Flow)
    → infos_at m' key ≡ infos_at m key
    → get m key ≡ some flow
    → (flow' : Flow) × (get m' key ≡ some flow') × (flow'.infos ≡ flow.infos)
infos_at-some m m' key flow same e = elim (Option-cases (get m' key)) [
  | inl none_ ↦ absurd (ground (arith, same, e, none_))
  | inr (flow', e') ↦ (flow', e', ground (arith, same, e, e'))
]

same-Cleaned : (q : PacketQueue) → Cleaned q q
same-Cleaned q = record { keeps = λ cap b p h. h; totals = refl; sizes = λ key. omega arith }

remove-Cleaned :
    (q : PacketQueue) (key : FlowKey) (flow : Flow)
    → get q.flows key ≡ some flow
    → flow.infos ≡ []
    → let q' = deactivate q key in Cleaned q (record q' { flows = remove q'.flows key })
unfolding flow_size
remove-Cleaned q key flow e empty =
    let (same, totals) = deactivate-Reindexed q key in
    let q' = deactivate q key in
    let (flow', e', infos) = infos_at-some q.flows q'.flows key flow (same.infos key) e in
    record {
      keeps = λ cap b p h.
          remove-Backlog cap b p q'.flows (same.keeps cap b p h) key flow' e' (infos ∙ empty);
      totals = totals;
      sizes = λ k.
          ground (arith, get-remove q'.flows key k, Reindexed-flow_size q.flows q'.flows k same);
    }

pub remove_flow_if_empty-Cleaned :
    (q : PacketQueue) (key : FlowKey) → Cleaned q (remove_flow_if_empty q key)
unfolding remove_flow_if_empty
remove_flow_if_empty-Cleaned q key = elim (Option-cases (get q.flows key)) [
  | inl e ↦ rw (remove_flow_if_empty, e) (same-Cleaned q)
  | inr (flow, e) ↦ elim (Bool-cases (is_nil flow.infos)) [
    | inl c ↦
        rw (remove_flow_if_empty, e, c) (remove-Cleaned q key flow e (is_nil_sound flow.infos c))
    | inr c ↦ rw (remove_flow_if_empty, e, c) (same-Cleaned q)
  ]
]
