-- ===== src/Router/Tree/Climb.antt =====
-- What the walks look for: the chain of parents from a node to a node that is its own parent.
use yggdrasil_ng.Prelude.{
  ℕ, ◌<◌, ◌≡◌, ◌≢◌, refl, sym, ap, ◌∙◌, List, [], ◌∷◌, some, true, false, ◌=?◌, arith, Bool-cases,
  inl, inr, length,
}
use yggdrasil_ng.Prelude.Bytes.{bytes_eq, bytes_beq_iff}
use yggdrasil_ng.Prelude.Map.{Map, get, insert, contains_key, contains_key-insert}
use mathlib.Core.Path.{subst}
use yggdrasil_ng.Wire.Path.{PeerPort}
use yggdrasil_ng.Wire.Message.{PublicKey}
use yggdrasil_ng.Router.{RouterInfo}
use yggdrasil_ng.Router.Tree.{Infos}

-- `Climb infos k root up`: from `k` the parents lead to `root`, and `up` are the ports on the way.
pub data Climb (infos : Infos) : PublicKey → PublicKey → List PeerPort → Type 0 where
  at_root :
      {k : PublicKey} (info : RouterInfo)
      → get infos k ≡ some info
      → info.parent ≡ k
      → Climb infos k k []
  below :
      {k root : PublicKey} {up : List PeerPort} (info : RouterInfo)
      → get infos k ≡ some info
      → info.parent ≢ k
      → Climb infos info.parent root up
      → Climb infos k root (info.port ∷ up)

same_info :
    (infos : Infos) {k j : PublicKey} {i i' : RouterInfo}
    → get infos k ≡ some i
    → get infos j ≡ some i'
    → k ≡ j
    → i ≡ i'
same_info infos e e' p = cc (ap (get infos) p)

-- A node has one climb at most.
pub Climb-unique :
    {infos : Infos} {k j root top : PublicKey} {up high : List PeerPort}
    → Climb infos k root up
    → Climb infos j top high
    → k ≡ j
    → (root ≡ top) × (up ≡ high)
Climb-unique (at_root i e s) (at_root i' e' s') p = (p, refl)
Climb-unique {infos} (at_root i e s) (below i' e' n' c') p =
    absurd (n' (ap (λ (x : RouterInfo). x.parent) (sym (same_info infos e e' p)) ∙ s ∙ p))
Climb-unique {infos} (below i e n c) (at_root i' e' s') p =
    absurd (n (ap (λ (x : RouterInfo). x.parent) (same_info infos e e' p) ∙ s' ∙ sym p))
Climb-unique {infos} (below i e n c) (below i' e' n' c') p =
    let same = same_info infos e e' p in
    let (r, u) = Climb-unique c c' (ap (λ (x : RouterInfo). x.parent) same) in
    (r, cc (u, ap (λ (x : RouterInfo). x.port) same))

-- Every visited node lies further from the root than `n` steps.
abbrev pub Above : {W : Type 0} → Infos → PublicKey → ℕ → Map PublicKey W → Type 0
Above infos root n visited =
    (v : PublicKey)
    → contains_key visited v ≡ true
    → (high : List PeerPort) × Climb infos v root high × (n < length high)

pub not_visited :
    {W : Type 0} {infos : Infos} {k root : PublicKey} {up : List PeerPort}
    (visited : Map PublicKey W)
    → Climb infos k root up
    → Above infos root (length up) visited
    → contains_key visited k ≡ false
not_visited {k = k} {up = up} visited c above = elim (Bool-cases (contains_key visited k)) [
  | inr new ↦ new
  | inl seen ↦
      let (high, c', lt) = above k seen in
      let (_, same) = Climb-unique c c' refl in absurd (omega (arith, ap length same))
]

pub Above-insert :
    {W : Type 0} {infos : Infos} {k root : PublicKey} {up : List PeerPort}
    (visited : Map PublicKey W) (w : W) (n : ℕ)
    → Climb infos k root up
    → n < length up
    → Above infos root (length up) visited
    → Above infos root n (insert visited k w)
Above-insert {infos} {k} {root} {up} visited w n c lt above v h = elim (Bool-cases (k =? v)) [
  | inl same ↦ (up, subst (λ x. Climb infos x root up) ((bytes_beq_iff k v).0 same) c, lt)
  | inr other ↦
      let (high, c', lt') = above v (rw other at (rw (contains_key-insert visited k v w) at h)) in
      (high, c', omega arith)
]

pub nothing_visited : (W : Type 0) (v : PublicKey) → contains_key {V = W} [] v ≡ true → ⊥
unfolding contains_key get
nothing_visited W v h = cc
