-- ===== src/Bloom/Multicast.antt =====
-- crates/ironwood/src/bloom.rs: which peers get a multicast packet, and which are on the tree.
use yggdrasil_ng.Prelude.{
  ℕ, ◌≡◌, ◌↔◌, refl, sym, List, [], ◌∷◌, none, some, Bool, true, false, not, ◌&&◌, ◌=?◌,
  if◌then◌else◌, ◌⊎◌, inl, inr, arith, Bool-cases,
}
use mathlib.Core.List.{Memᴰ}
use mathlib.Core.List.Memᴰ
use yggdrasil_ng.Prelude.Bytes.{Bytes, bytes_eq}
use yggdrasil_ng.Prelude.Map.{Distinct, get}
use yggdrasil_ng.Wire.Message.{PublicKey}
use yggdrasil_ng.Bloom.{test}
use yggdrasil_ng.Bloom.Peers.{BloomInfo, Blooms, Transform, x_key, get_multicast_targets}

-- Membership in a list that a test may extend.
mem_if :
    (c : Bool) (j : PublicKey) (ks : List PublicKey) (k : PublicKey)
    → Memᴰ k (if c then j ∷ ks else ks)
    → ((c ≡ true) × (k ≡ j)) ⊎ Memᴰ k ks
mem_if true j ks k m = elim (Memᴰ.cases_cons m) [ inl at ↦ inl (refl, at) | inr later ↦ inr later ]
mem_if false j ks k m = inr m

module _ (murmur : Bytes → ℕ) (from_key to_key : PublicKey) (transform : Transform) where
  -- A peer on the tree, other than the one the packet came from, whose filter may hold the key.
  abbrev pub IsTarget : Blooms → PublicKey → Type 0
  IsTarget blooms k =
      (info : BloomInfo) × (get blooms k ≡ some info)
      × (info.on_tree ≡ true)
      × ((k =? from_key) ≡ false)
      × (test murmur info.recv (x_key to_key transform) ≡ true)

  abbrev chosen : PublicKey → BloomInfo → Bool
  chosen k info =
      info.on_tree && (not (k =? from_key) && test murmur info.recv (x_key to_key transform))

  abbrev targets : Blooms → List PublicKey
  targets blooms = get_multicast_targets murmur blooms from_key to_key transform

  targets-cons :
      (j : PublicKey) (i : BloomInfo) (blooms : Blooms)
      → targets ((j, i) ∷ blooms) ≡ (if chosen j i then j ∷ targets blooms else targets blooms)
  unfolding get_multicast_targets
  targets-cons j i blooms = ground arith

  targets_sound :
      (blooms : Blooms) (k : PublicKey)
      → Distinct blooms
      → Memᴰ k (targets blooms)
      → IsTarget blooms k
  unfolding get get_multicast_targets
  targets_sound [] k d m = absurd (Memᴰ.not-nil m)
  targets_sound ((j, i) ∷ blooms) k (fresh, d) m =
      elim (mem_if (chosen j i) j (targets blooms) k (rw (targets-cons j i blooms) at m)) [
        | inl (c, at) ↦
            let same : (j =? k) ≡ true = (bytes_eq.beq_iff j k).1 (sym at) in
            (i, rw same refl, ground arith, rw at (ground arith), ground arith)
        | inr later ↦
            let (info, g, t, f, e) = targets_sound blooms k d later in
            let other : (j =? k) ≡ false = elim (Bool-cases (j =? k)) [
              | inl same ↦
                  let at : j ≡ k = (bytes_eq.beq_iff j k).0 same in
                  let lost : get blooms k ≡ none = rw (← at) fresh in absurd (ground arith)
              | inr differ ↦ differ
            ] in
            (info, rw other g, t, f, e)
      ]

  targets_complete : (blooms : Blooms) (k : PublicKey) → IsTarget blooms k → Memᴰ k (targets blooms)
  unfolding get
  targets_complete [] k (info, g, t, f, e) = absurd (ground arith)
  targets_complete ((j, i) ∷ blooms) k (info, g, t, f, e) = elim (Bool-cases (j =? k)) [
    | inl c ↦
        let same : i ≡ info = ground arith in
        let at : j ≡ k = (bytes_eq.beq_iff j k).0 c in
        rw (targets-cons j i blooms, same, at, t, f, e) (Memᴰ.head refl)
    | inr c ↦
        let later = targets_complete blooms k (info, ground arith, t, f, e) in
        rw (targets-cons j i blooms)
          (elim (Bool-cases (chosen j i)) [ inl e ↦ rw e (Memᴰ.tail later) | inr e ↦ rw e later ])
  ]

  -- Provided that each key has one entry, the targets of a multicast are exactly the peers on the
  -- tree, other than the one it came from, whose filter may hold the destination.
  pub get_multicast_targets_iff :
      (blooms : Blooms) (k : PublicKey)
      → Distinct blooms
      → Memᴰ k (get_multicast_targets murmur blooms from_key to_key transform) ↔ IsTarget blooms k
  get_multicast_targets_iff blooms k d = (targets_sound blooms k d, targets_complete blooms k)
