-- ===== src/Router/Parent/Least.antt =====
-- `select_parent`: which root and parent it names.
use yggdrasil_ng.Prelude.{
  ℕ, ◌≡◌, ◌⊎◌, refl, List, [], ◌∷◌, Bool, true, false, ◌&&◌, if◌then◌else◌, arith, Bool-cases, inl,
  inr,
}
use mathlib.Core.List.{Memᴰ}
use mathlib.Core.List.Memᴰ
use yggdrasil_ng.Prelude.Bytes.{
  Bytes, bytes_eq, bytes_ltb, bytes_ltb_irrefl, bytes_ltb_trans, bytes_ltb_connected, bytes_beq_iff,
}
use yggdrasil_ng.Prelude.Map.{contains_key}
use yggdrasil_ng.Wire.Message.{PublicKey}
use yggdrasil_ng.Router.{Router}
use yggdrasil_ng.Router.Tree.{get_root_and_dists}
use yggdrasil_ng.Router.Parent.{
  Choice, current_parent, be_root, keep_parent, response_cost, is_candidate, prefer, consider,
  response_keys, select_parent,
}

-- A key that is not above another, which is not above a third.
pub not_above_trans :
    (a b c : Bytes) → bytes_ltb b a ≡ false → bytes_ltb c b ≡ false → bytes_ltb c a ≡ false
not_above_trans a b c h k = ground (arith, bytes_ltb_trans c a b, bytes_ltb_connected a b)

not_above_lower : (a b : Bytes) → bytes_ltb a b ≡ true → bytes_ltb b a ≡ false
not_above_lower a b h = ground (arith, bytes_ltb_trans a b a, bytes_ltb_irrefl a)

module _ (r : Router) where
  abbrev root_of : PublicKey → PublicKey
  root_of pk = (get_root_and_dists r.infos pk).0

  prefer-root :
      (pk p_root : PublicKey) (cost : ℕ) (best : Choice)
      → (prefer r pk p_root cost best).root
        ≡ (if bytes_ltb p_root best.root then p_root else best.root)
  unfolding prefer
  prefer-root pk p_root cost best = ground (arith, bytes_beq_iff p_root best.root)

  prefer_cases :
      (pk p_root : PublicKey) (cost : ℕ) (best : Choice)
      → ((prefer r pk p_root cost best) ≡ best)
        ⊎ ((prefer r pk p_root cost best) ≡ record { root = p_root; parent = pk; cost = cost })
  unfolding prefer
  prefer_cases pk p_root cost best = ground arith

  abbrev next : PublicKey → Choice → Choice
  next pk best =
      if is_candidate r pk then prefer r pk (root_of pk) (response_cost r pk) best else best

  next-le : (pk : PublicKey) (best : Choice) → bytes_ltb best.root (next pk best).root ≡ false
  next-le pk best = ground (
    arith,
    prefer-root pk (root_of pk) (response_cost r pk) best,
    bytes_ltb_irrefl best.root,
    not_above_lower (root_of pk) best.root,
  )

  next-least :
      (pk : PublicKey) (best : Choice)
      → is_candidate r pk ≡ true
      → bytes_ltb (root_of pk) (next pk best).root ≡ false
  next-least pk best c =
      ground (
        arith,
        prefer-root pk (root_of pk) (response_cost r pk) best,
        bytes_ltb_irrefl (root_of pk),
      )

  -- The root never rises from round to round.
  consider-le :
      (pks : List PublicKey) (best : Choice)
      → bytes_ltb best.root (consider r pks best).root ≡ false
  unfolding consider
  consider-le [] best = bytes_ltb_irrefl best.root
  consider-le (pk ∷ pks) best =
      not_above_trans (consider r pks (next pk best)).root (next pk best).root best.root
        (consider-le pks (next pk best)) (next-le pk best)

  consider_least :
      (pks : List PublicKey) (best : Choice) (pk : PublicKey)
      → Memᴰ pk pks
      → is_candidate r pk ≡ true
      → bytes_ltb (root_of pk) (consider r pks best).root ≡ false
  unfolding consider
  consider_least [] best pk m c = absurd (Memᴰ.not-nil m)
  consider_least (j ∷ pks) best pk m c = elim (Memᴰ.cases_cons m) [
    | inl at ↦
        let c' : is_candidate r j ≡ true = rw (← at) c in
        rw at (
          not_above_trans (consider r pks (next j best)).root (next j best).root (root_of j)
            (consider-le pks (next j best)) (next-least j best c'))
    | inr later ↦ consider_least pks (next j best) pk later c
  ]

  -- How a root and a parent can be named: the node itself, the current parent with the root that the
  -- node has, or a peer that has responded, with the peer's root.
  abbrev pub LeadsTo : PublicKey → PublicKey → Type 0
  LeadsTo root parent =
      ((root ≡ r.self_key) × (parent ≡ r.self_key))
      ⊎ (((parent ≡ current_parent r)
            × (root ≡ (get_root_and_dists r.infos r.self_key).0)
            × ((get_root_and_dists r.infos r.self_key).2 ≡ true)
            × (contains_key r.peers parent ≡ true))
          ⊎ ((root ≡ (get_root_and_dists r.infos parent).0)
              × (is_candidate r parent ≡ true)
              × Memᴰ parent (response_keys r.responses)))

  abbrev guard : Bool
  guard =
      contains_key r.peers (current_parent r)
      && ((get_root_and_dists r.infos r.self_key).2 && bytes_ltb (root_of r.self_key) r.self_key)

  keep_parent_sound : LeadsTo (keep_parent r).root (keep_parent r).parent
  unfolding keep_parent be_root
  keep_parent_sound = elim (Bool-cases guard) [
    | inl g ↦ rw (keep_parent, g) (inr (inl (refl, refl, ground arith, ground arith)))
    | inr g ↦ rw (keep_parent, g) (inl (refl, refl))
  ]

  keep_parent-le : bytes_ltb r.self_key (keep_parent r).root ≡ false
  unfolding keep_parent be_root
  keep_parent-le = elim (Bool-cases guard) [
    | inl g ↦ rw (keep_parent, g) (not_above_lower (root_of r.self_key) r.self_key (ground arith))
    | inr g ↦ rw (keep_parent, g) (bytes_ltb_irrefl r.self_key)
  ]

  next_sound :
      (pk : PublicKey) (best : Choice)
      → Memᴰ pk (response_keys r.responses)
      → LeadsTo best.root best.parent
      → LeadsTo (next pk best).root (next pk best).parent
  next_sound pk best m h = elim (Bool-cases (is_candidate r pk)) [
    | inl c ↦ rw c (elim (prefer_cases pk (root_of pk) (response_cost r pk) best) [
      | inl e ↦ rw e h
      | inr e ↦ rw e (inr (inr (refl, c, m)))
    ])
    | inr c ↦ rw c h
  ]

  consider_sound :
      (pks : List PublicKey) (best : Choice)
      → ((pk : PublicKey) → Memᴰ pk pks → Memᴰ pk (response_keys r.responses))
      → LeadsTo best.root best.parent
      → LeadsTo (consider r pks best).root (consider r pks best).parent
  unfolding consider
  consider_sound [] best sub h = h
  consider_sound (pk ∷ pks) best sub h =
      consider_sound pks (next pk best) (λ j m. sub j (Memᴰ.tail m))
        (next_sound pk best (sub pk (Memᴰ.head refl)) h)

  -- The root and the parent are of one of the three kinds.
  pub select_parent_sound : LeadsTo (select_parent r).0 (select_parent r).1
  unfolding select_parent
  select_parent_sound =
      consider_sound (response_keys r.responses) (keep_parent r) (λ j m. m) keep_parent_sound

  pub select_parent-le : bytes_ltb r.self_key (select_parent r).0 ≡ false
  unfolding select_parent
  select_parent-le =
      not_above_trans (select_parent r).0 (keep_parent r).root r.self_key
        (consider-le (response_keys r.responses) (keep_parent r)) keep_parent-le

-- The root that select_parent names is not above the node's own key, nor above the root of any peer
-- with a response and a valid ancestry that does not lead over the node.
pub select_parent_least :
    (r : Router) (pk : PublicKey)
    → Memᴰ pk (response_keys r.responses)
    → is_candidate r pk ≡ true
    → (bytes_ltb (get_root_and_dists r.infos pk).0 (select_parent r).0 ≡ false)
      × (bytes_ltb r.self_key (select_parent r).0 ≡ false)
unfolding select_parent
select_parent_least r pk m c =
    (consider_least r (response_keys r.responses) (keep_parent r) pk m c, select_parent-le r)
