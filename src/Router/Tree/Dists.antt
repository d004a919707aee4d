-- ===== src/Router/Tree/Dists.antt =====
-- `get_root_and_dists` is valid exactly where the parents lead to a root.
use yggdrasil_ng.Prelude.{
  ℕ, zero, suc, ◌+◌, ◌<◌, ◌≡◌, ◌≢◌, refl, ap, ◌∙◌, List, [], ◌∷◌, none, some, Option, true, false,
  Bool, arith, Bool-cases, Option-cases, inl, inr, length, beq_refl,
}
use yggdrasil_ng.Prelude.Bytes.{bytes_eq, bytes_beq_iff}
use yggdrasil_ng.Prelude.Map.{Map, get, insert, contains_key, get-insert}
use yggdrasil_ng.Prelude.Map.Fresh.{fresh, fresh-le, fresh-insert-lt}
use mathlib.Core.Path.{subst}
use yggdrasil_ng.Wire.Path.{PeerPort}
use yggdrasil_ng.Wire.Message.{PublicKey}
use yggdrasil_ng.Router.{RouterInfo}
use yggdrasil_ng.Router.Tree.{Infos, zero_key, dists_loop, get_root_and_dists}
use yggdrasil_ng.Router.Tree.Climb.{
  Climb, at_root, below, Above, not_visited, Above-insert, nothing_visited,
}
use yggdrasil_ng.Router.Tree.Ends.{parent_cases}

module _ (fuel : ℕ) (infos : Infos) (dists : Map PublicKey ℕ) (next : PublicKey) (dist : ℕ) where
  pub dists_seen :
      contains_key dists next ≡ true
      → dists_loop (suc fuel) infos dists next dist ≡ some (zero_key, dists, false)
  unfolding dists_loop
  dists_seen s = ground arith

  pub dists_missing :
      get infos next ≡ none
      → dists_loop (suc fuel) infos dists next dist ≡ some (zero_key, dists, false)
  unfolding dists_loop
  dists_missing e = ground arith

  module _ (info : RouterInfo) (e : get infos next ≡ some info)
      (new : contains_key dists next ≡ false) where
    pub dists_root :
        info.parent ≡ next
        → dists_loop (suc fuel) infos dists next dist ≡ some (next, insert dists next dist, true)
    unfolding dists_loop
    dists_root r = ground (arith, bytes_beq_iff info.parent next)

    pub dists_next :
        info.parent ≢ next
        → dists_loop (suc fuel) infos dists next dist
          ≡ dists_loop fuel infos (insert dists next dist) info.parent (dist + 1)
    unfolding dists_loop
    dists_next r = ground (arith, bytes_beq_iff info.parent next)

dists_loop-ends :
    (fuel : ℕ) (infos : Infos) (dists : Map PublicKey ℕ) (next : PublicKey) (dist : ℕ)
    → fresh infos dists < fuel
    → dists_loop fuel infos dists next dist ≢ none
dists_loop-ends zero infos dists next dist h = absurd (omega arith)
dists_loop-ends (suc fuel) infos dists next dist h = elim (Bool-cases (contains_key dists next)) [
  | inl seen ↦ rw (dists_seen fuel infos dists next dist seen) (λ p. cc)
  | inr new ↦ elim (Option-cases (get infos next)) [
    | inl e ↦ rw (dists_missing fuel infos dists next dist e) (λ p. cc)
    | inr (info, e) ↦ elim (parent_cases info next) [
      | inl r ↦ rw (dists_root fuel infos dists next dist info e new r) (λ p. cc)
      | inr r ↦ rw (dists_next fuel infos dists next dist info e new r) (
          dists_loop-ends fuel infos (insert dists next dist) info.parent (dist + 1)
            (omega (arith, fresh-insert-lt infos dists next dist info e new)))
    ]
  ]
]

-- The walk for distances ends within its fuel.
pub dists-ne-none :
    (infos : Infos) (dest : PublicKey) → dists_loop (length infos + 1) infos [] dest 0 ≢ none
dists-ne-none infos dest =
    dists_loop-ends _ infos [] dest 0 (omega (arith, fresh-le {W = ℕ} infos []))

-- A valid answer: the root, and its distance among the distances.
Valid : PublicKey → ℕ → Option (PublicKey × Map PublicKey ℕ × Bool) → Type 0
Valid root n o =
    (dists : Map PublicKey ℕ) × (o ≡ some (root, dists, true)) × (get dists root ≡ some n)

dists_loop-Climb :
    (fuel : ℕ) {infos : Infos} (dists : Map PublicKey ℕ) (dist : ℕ) {next root : PublicKey}
    {up : List PeerPort}
    → Climb infos next root up
    → Above infos root (length up) dists
    → dists_loop fuel infos dists next dist ≢ none
    → Valid root (dist + length up) (dists_loop fuel infos dists next dist)
unfolding Valid
dists_loop-Climb zero dists dist c above ends = absurd (unfold dists_loop in ends refl)
dists_loop-Climb (suc fuel) {infos} dists dist {next} (at_root info e s) above ends = (
  insert dists next dist,
  dists_root fuel infos dists next dist info e (not_visited dists (at_root info e s) above) s,
  get-insert dists next next dist ∙ rw (beq_refl next) (ap (λ n. some n) (omega arith)),
)
dists_loop-Climb (suc fuel) {infos} dists dist {next} {root} (below {up = up} info e n c) above
      ends =
    let step =
      dists_next fuel infos dists next dist info e (not_visited dists (below info e n c) above) n in
    let (ds, q, d) =
      dists_loop-Climb fuel (insert dists next dist) (dist + 1) c
        (Above-insert dists dist (length up) (below info e n c) (omega arith) above)
        (rw step at ends) in
    (ds, step ∙ q, d ∙ ap (λ n. some n) (omega arith))

-- What a walk that ends valid has found.
Reached : Infos → PublicKey → PublicKey × Map PublicKey ℕ × Bool → Type 0
Reached infos next r = (r.2 ≡ true) → (up : List PeerPort) × Climb infos next r.0 up

dists_loop_sound :
    (fuel : ℕ) (infos : Infos) (dists : Map PublicKey ℕ) (next : PublicKey) (dist : ℕ)
    (r : PublicKey × Map PublicKey ℕ × Bool)
    → dists_loop fuel infos dists next dist ≡ some r
    → Reached infos next r
unfolding Reached
dists_loop_sound zero infos dists next dist r h v = absurd (unfold dists_loop in cc)
dists_loop_sound (suc fuel) infos dists next dist r h v =
    elim (Bool-cases (contains_key dists next)) [
      | inl seen ↦ absurd (invalid (dists_seen fuel infos dists next dist seen))
      | inr new ↦ elim (Option-cases (get infos next)) [
        | inl e ↦ absurd (invalid (dists_missing fuel infos dists next dist e))
        | inr (info, e) ↦ elim (parent_cases info next) [
          | inl same ↦ (
            [],
            subst (λ x. Climb infos next x [])
                (cc (h, dists_root fuel infos dists next dist info e new same))
                (at_root info e same),
          )
          | inr other ↦
              let (up, c) =
                dists_loop_sound fuel infos (insert dists next dist) info.parent (dist + 1) r
                  (rw (dists_next fuel infos dists next dist info e new other) at h) v in
              (info.port ∷ up, below info e other c)
        ]
      ]
    ]
  where
    invalid : dists_loop (suc fuel) infos dists next dist ≡ some (zero_key, dists, false) → ⊥
    invalid p = cc (h, p, v)

-- Where the parents of a node lead to a root, get_root_and_dists is valid, names it and gives its
-- distance.
pub get_root_and_dists-Climb :
    (infos : Infos) (dest root : PublicKey) (up : List PeerPort)
    → Climb infos dest root up
    → ((get_root_and_dists infos dest).0 ≡ root)
      × ((get_root_and_dists infos dest).2 ≡ true)
      × (get (get_root_and_dists infos dest).1 root ≡ some (length up))
unfolding get_root_and_dists Valid
get_root_and_dists-Climb infos dest root up c =
    let (ds, q, d) =
      dists_loop-Climb (length infos + 1) [] 0 c (λ v h. absurd (nothing_visited ℕ v h))
        (dists-ne-none infos dest) in
    rw q (refl, refl, d ∙ ap (λ n. some n) (omega arith))

get_root_and_dists-Reached :
    (infos : Infos) (dest : PublicKey)
    → (get_root_and_dists infos dest).2 ≡ true
    → (up : List PeerPort) × Climb infos dest (get_root_and_dists infos dest).0 up
unfolding get_root_and_dists Reached
get_root_and_dists-Reached infos dest =
    elim (Option-cases (dists_loop (length infos + 1) infos [] dest 0)) [
      | inl stuck ↦ absurd (dists-ne-none infos dest stuck)
      | inr (r, e) ↦ rw e (dists_loop_sound (length infos + 1) infos [] dest 0 r e)
    ]

-- An answer of get_root_and_dists that is marked valid comes from a chain of parents to the root
-- that it names, at that distance.
pub get_root_and_dists_sound :
    (infos : Infos) (dest : PublicKey)
    → (get_root_and_dists infos dest).2 ≡ true
    → (up : List PeerPort) × Climb infos dest (get_root_and_dists infos dest).0 up
      × (get (get_root_and_dists infos dest).1 (get_root_and_dists infos dest).0 ≡ some (length up))
get_root_and_dists_sound infos dest v =
    let (up, c) = get_root_and_dists-Reached infos dest v in
    let (_, _, d) = get_root_and_dists-Climb infos dest (get_root_and_dists infos dest).0 up c in
    (up, c, d)
