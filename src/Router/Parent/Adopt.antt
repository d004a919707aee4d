-- ===== src/Router/Parent/Adopt.antt =====
-- `use_response`: a node that adopts a parent has the parent's root.
use yggdrasil_ng.Prelude.{
  ℕ, ◌<◌, ◌≡◌, ◌≢◌, refl, sym, ap, ◌∙◌, List, [], ◌∷◌, some, true, false, ◌=?◌, arith, Bool-cases,
  inl, inr, beq_refl, length,
}
use mathlib.Core.Path.{subst}
use yggdrasil_ng.Prelude.Bytes.{Bytes, bytes_eq, bytes_beq_iff}
use yggdrasil_ng.Prelude.Map.{get, insert, contains_key, get-insert}
use yggdrasil_ng.Wire.Path.{PeerPort}
use yggdrasil_ng.Wire.Message.{PublicKey, Sig}
use yggdrasil_ng.Router.{
  Router, RouterInfo, RouterAnnounce, SigResState, info_of, accepts, save, update,
}
use yggdrasil_ng.Router.Tree.{Infos, get_root_and_dists}
use yggdrasil_ng.Router.Tree.Climb.{Climb, at_root, below, Climb-unique}
use yggdrasil_ng.Router.Tree.Dists.{get_root_and_dists_sound}
use yggdrasil_ng.Router.Tree.Avoid.{get_root_and_dists-insert, differ}
use yggdrasil_ng.Router.Update.{update_accepted, update_rejected}
use yggdrasil_ng.Router.Parent.{current_parent, is_candidate, child_announce, use_response}
use yggdrasil_ng.Router.Parent.Least.{LeadsTo}

-- A climb that is shorter than that of a node does not lead over the node.
Climb-insert :
    (infos : Infos) (self : PublicKey) (own : RouterInfo) {k root : PublicKey} {up : List PeerPort}
    → Climb infos k root up
    → ((high : List PeerPort) → Climb infos self root high → length up < length high)
    → Climb (insert infos self own) k root up
Climb-insert infos self own {k} (at_root info e s) shorter = elim (Bool-cases (self =? k)) [
  | inl c ↦
      let at : self ≡ k = (bytes_beq_iff self k).0 c in
      let no : 0 < 0 = shorter [] (rw at (at_root info e s)) in absurd (omega arith)
  | inr c ↦ at_root info (get-insert infos self k own ∙ rw c e) s
]
Climb-insert infos self own {k} {root} (below {up = up} info e n c) shorter =
    elim (Bool-cases (self =? k)) [
      | inl q ↦
          let at : self ≡ k = (bytes_beq_iff self k).0 q in
          let no = shorter (info.port ∷ up) (rw at (below info e n c)) in absurd (omega arith)
      | inr q ↦
          below info (get-insert infos self k own ∙ rw q e) n
            (Climb-insert infos self own c (λ high h. omega (arith, shorter high h)))
    ]

-- The chain from the current parent of a node that has a root.
parent-Climb :
    (infos : Infos) (self root : PublicKey) (up : List PeerPort) (own info : RouterInfo)
    → Climb infos self root up
    → get infos self ≡ some info
    → info.parent ≢ self
    → (high : List PeerPort) × Climb (insert infos self own) info.parent root high
parent-Climb infos self root up own info (at_root i e s) g n =
    let same : i ≡ info = cc (e, g) in absurd (n (ap (λ (x : RouterInfo). x.parent) (sym same) ∙ s))
parent-Climb infos self root _ own info (below {up = up} i e n' c) g n =
    let same : i ≡ info = cc (e, g) in
    let shorter : (high : List PeerPort) → Climb infos self root high → length up < length high =
      λ high h. let u = (Climb-unique (below i e n' c) h refl).1 in rw (← u) (omega arith) in
    (
      up,
      subst (λ (x : RouterInfo). Climb (insert infos self own) x.parent root up) same
          (Climb-insert infos self own c shorter),
    )

update-true :
    (r : Router) (ann : RouterAnnounce) (now : ℕ)
    → (update r ann now).1 ≡ true
    → (update r ann now).0.infos ≡ insert r.infos ann.key (info_of ann)
unfolding save
update-true r ann now h = elim (Bool-cases (accepts (get r.infos ann.key) (info_of ann))) [
  | inl t ↦ rw (update_accepted r ann now t) refl
  | inr f ↦ let no : false ≡ true = rw (update_rejected r ann now f) at h in absurd (cc no)
]

get-Climb :
    {infos : Infos} {k root : PublicKey} {up : List PeerPort}
    → Climb infos k root up
    → (info : RouterInfo) × (get infos k ≡ some info)
get-Climb (at_root info e s) = (info, e)
get-Climb (below info e n c) = (info, e)

-- The way up from a parent that can be selected, in the map with a new entry of the node.
Way : Router → RouterInfo → PublicKey → PublicKey → Type 0
Way r own root pk =
    (pk ≢ r.self_key) × ((up : List PeerPort) × Climb (insert r.infos r.self_key own) pk root up)

module _ (r : Router) (own : RouterInfo) (root pk : PublicKey) where
  candidate-Way :
      root ≡ (get_root_and_dists r.infos pk).0 → is_candidate r pk ≡ true → Way r own root pk
  unfolding Way is_candidate
  candidate-Way e c =
      let v : (get_root_and_dists r.infos pk).2 ≡ true = ground arith in
      let a : contains_key (get_root_and_dists r.infos pk).1 r.self_key ≡ false = ground arith in
      (
        differ r.infos r.self_key own pk v a,
        rw e (get_root_and_dists-insert r.infos r.self_key own pk v a),
      )

  current_parent_known :
      (info : RouterInfo) → get r.infos r.self_key ≡ some info → current_parent r ≡ info.parent
  unfolding current_parent
  current_parent_known info g = rw (current_parent, g) refl

  parent-Way :
      pk ≡ current_parent r
      → root ≡ (get_root_and_dists r.infos r.self_key).0
      → (get_root_and_dists r.infos r.self_key).2 ≡ true
      → root ≢ r.self_key
      → Way r own root pk
  unfolding Way
  parent-Way p e v away =
      let (up, c, d) = get_root_and_dists_sound r.infos r.self_key v in
      let c' : Climb r.infos r.self_key root up = rw e c in
      let (info, g) = get-Climb c' in
      let named : pk ≡ info.parent = p ∙ current_parent_known info g in
      let n : info.parent ≢ r.self_key = λ s. away ((Climb-unique c' (at_root info g s) refl).0) in
      (λ s. n (sym named ∙ s), rw named (parent-Climb r.infos r.self_key root up own info c' g n))

  way : LeadsTo r root pk → root ≢ r.self_key → Way r own root pk
  way (inl (s, _)) away = absurd (away s)
  way (inr (inl (p, e, v, k))) away = parent-Way p e v away
  way (inr (inr (e, c, m))) away = candidate-Way e c

-- If a node takes a parent that select_parent may name, with a root other than itself, and its
-- announcement is accepted, then its parents lead to that root.
pub use_response-Climb :
    (sign : Bytes → Sig) (r : Router) (root pk : PublicKey) (res : SigResState) (now : ℕ)
    → LeadsTo r root pk
    → root ≢ r.self_key
    → (use_response sign r pk res now).1 ≡ true
    → (up : List PeerPort) × Climb (use_response sign r pk res now).0.infos r.self_key root up
unfolding use_response child_announce info_of Way
use_response-Climb sign r root pk res now h away used =
    let ann = child_announce sign r pk res in
    let own = info_of ann in
    let (n, (up, c)) = way r own root pk h away in
    (
      res.port ∷ up,
      rw (update-true r ann now used) (
          below own (get-insert r.infos r.self_key r.self_key own ∙ rw (beq_refl r.self_key) refl) n
            c),
    )
