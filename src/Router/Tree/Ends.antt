-- ===== src/Router/Tree/Ends.antt =====
-- One round of the walks, case by case, and that the walks end within their fuel.
use yggdrasil_ng.Prelude.{
  ℕ, zero, suc, ◌+◌, ◌<◌, ◌≡◌, ◌≢◌, List, [], ◌∷◌, ◌++◌, none, some, true, false, ◌=?◌, arith,
  Bool-cases, Option-cases, inl, inr, length, ◌⊎◌,
}
use yggdrasil_ng.Prelude.Bytes.{bytes_eq, bytes_beq_iff}
use yggdrasil_ng.Prelude.Map.{Map, get, insert, contains_key}
use yggdrasil_ng.Prelude.Map.Fresh.{fresh, fresh-le, fresh-insert-lt}
use yggdrasil_ng.Wire.Path.{PeerPort}
use yggdrasil_ng.Wire.Message.{PublicKey}
use yggdrasil_ng.Router.{RouterInfo}
use yggdrasil_ng.Router.Tree.{Infos, coords_loop}
use mathlib.Core.List.{reverse}

module _ (fuel : ℕ) (infos : Infos) (dest : PublicKey) (visited : Map PublicKey (Unit {0}))
    (next : PublicKey) (ports : List PeerPort) where
  pub coords_seen :
      contains_key visited next ≡ true
      → coords_loop (suc fuel) infos dest visited next ports ≡ some (dest, [])
  unfolding coords_loop
  coords_seen s = ground arith

  pub coords_missing :
      get infos next ≡ none → coords_loop (suc fuel) infos dest visited next ports ≡ some (dest, [])
  unfolding coords_loop
  coords_missing e = ground arith

  module _ (info : RouterInfo) (e : get infos next ≡ some info)
      (new : contains_key visited next ≡ false) where
    pub coords_root :
        info.parent ≡ next
        → coords_loop (suc fuel) infos dest visited next ports ≡ some (next, reverse ports)
    unfolding coords_loop
    coords_root r = ground (arith, bytes_beq_iff next info.parent)

    pub coords_next :
        info.parent ≢ next
        → coords_loop (suc fuel) infos dest visited next ports
          ≡ coords_loop fuel infos dest
              (insert visited next tt)
              info.parent
              (ports ++ (info.port ∷ []))
    unfolding coords_loop
    coords_next r = ground (arith, bytes_beq_iff next info.parent)

-- The parent of an entry is the node itself or another.
pub parent_cases : (info : RouterInfo) (k : PublicKey) → (info.parent ≡ k) ⊎ (info.parent ≢ k)
parent_cases info k = elim (Bool-cases (info.parent =? k)) [
  | inl e ↦ inl ((bytes_beq_iff info.parent k).0 e)
  | inr e ↦ inr (λ p. cc ((bytes_beq_iff info.parent k).1 p))
]

coords_loop-ends :
    (fuel : ℕ) (infos : Infos) (dest : PublicKey) (visited : Map PublicKey (Unit {0}))
    (next : PublicKey) (ports : List PeerPort)
    → fresh infos visited < fuel
    → coords_loop fuel infos dest visited next ports ≢ none
coords_loop-ends zero infos dest visited next ports h = absurd (omega arith)
coords_loop-ends (suc fuel) infos dest visited next ports h =
    elim (Bool-cases (contains_key visited next)) [
      | inl seen ↦ rw (coords_seen fuel infos dest visited next ports seen) (λ p. cc)
      | inr new ↦ elim (Option-cases (get infos next)) [
        | inl e ↦ rw (coords_missing fuel infos dest visited next ports e) (λ p. cc)
        | inr (info, e) ↦ elim (parent_cases info next) [
          | inl r ↦ rw (coords_root fuel infos dest visited next ports info e new r) (λ p. cc)
          | inr r ↦ rw (coords_next fuel infos dest visited next ports info e new r) (
              coords_loop-ends fuel infos dest (insert visited next tt) info.parent
                (ports ++ (info.port ∷ []))
                (omega (arith, fresh-insert-lt infos visited next tt info e new)))
        ]
      ]
    ]

-- The walk for coordinates ends within its fuel.
pub coords-ne-none :
    (infos : Infos) (dest : PublicKey) → coords_loop (length infos + 1) infos dest [] dest [] ≢ none
coords-ne-none infos dest =
    coords_loop-ends _ infos dest [] dest [] (omega (arith, fresh-le {W = Unit {0}} infos []))
