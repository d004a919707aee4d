-- ===== src/Router/Tree/Coords.antt =====
-- `get_root_and_path` finds the root and the coordinates of a node where there are any.
use yggdrasil_ng.Prelude.{
  ℕ, zero, suc, ◌+◌, ◌≡◌, ◌≢◌, refl, sym, ap, ◌∙◌, List, [], ◌∷◌, ◌++◌, none, some, arith,
  Bool-cases, Option-cases, ◌⊎◌, Option, inl, inr, length, append-nil, append_assoc,
}
use yggdrasil_ng.Prelude.Bytes.{bytes_eq}
use yggdrasil_ng.Prelude.Map.{Map, get, insert, contains_key}
use mathlib.Core.List.{reverse}
use mathlib.Core.Path.{subst}
use yggdrasil_ng.Wire.Path.{PeerPort}
use yggdrasil_ng.Wire.Message.{PublicKey}
use yggdrasil_ng.Router.{RouterInfo}
use yggdrasil_ng.Router.Tree.{Infos, coords_loop, get_root_and_path}
use yggdrasil_ng.Router.Tree.Climb.{
  Climb, at_root, below, Above, not_visited, Above-insert, nothing_visited,
}
use yggdrasil_ng.Router.Tree.Ends.{
  coords_seen, coords_missing, parent_cases, coords_root, coords_next, coords-ne-none,
}

coords_loop-Climb :
    (fuel : ℕ) {infos : Infos} (dest : PublicKey) (visited : Map PublicKey (Unit {0}))
    (ports : List PeerPort) {next root : PublicKey} {up : List PeerPort}
    → Climb infos next root up
    → Above infos root (length up) visited
    → coords_loop fuel infos dest visited next ports ≢ none
    → coords_loop fuel infos dest visited next ports ≡ some (root, reverse (ports ++ up))
coords_loop-Climb zero dest visited ports c above ends = absurd (unfold coords_loop in ends refl)
coords_loop-Climb (suc fuel) {infos} dest visited ports {next} (at_root info e s) above ends =
    coords_root fuel infos dest visited next ports info e
      (not_visited visited (at_root info e s) above) s
    ∙ ap (λ t. some (next, reverse t)) (sym (append-nil ports))
coords_loop-Climb (suc fuel) {infos} dest visited ports {next} {root} (below {up = up} info e n c)
      above ends =
    step
    ∙ coords_loop-Climb fuel dest (insert visited next tt) (ports ++ (info.port ∷ [])) c
        (Above-insert visited tt (length up) (below info e n c) (omega arith) above)
        (rw step at ends)
    ∙ ap (λ t. some (root, reverse t)) (append_assoc ports (info.port ∷ []) up)
  where
    step :
        coords_loop (suc fuel) infos dest visited next ports
        ≡ coords_loop fuel infos dest
            (insert visited next tt)
            info.parent
            (ports ++ (info.port ∷ []))
    step =
        coords_next fuel infos dest visited next ports info e
          (not_visited visited (below info e n c) above) n

-- Where the parents of a node lead to a root, get_root_and_path finds that root and the ports from
-- it down.
pub get_root_and_path-Climb :
    (infos : Infos) (dest root : PublicKey) (up : List PeerPort)
    → Climb infos dest root up
    → get_root_and_path infos dest ≡ (root, reverse up)
unfolding get_root_and_path
get_root_and_path-Climb infos dest root up c =
    rw
      (coords_loop-Climb _ dest [] [] c (λ v h. absurd (nothing_visited (Unit {0}) v h))
        (coords-ne-none infos dest))
      refl

-- What a walk from `next` that has passed `ports` answers.
Answers : Infos → PublicKey → PublicKey → List PeerPort → PublicKey × List PeerPort → Type 0
Answers infos dest next ports (root, path) =
    ((up : List PeerPort) × Climb infos next root up × (path ≡ reverse (ports ++ up)))
    ⊎ ((root ≡ dest) × (path ≡ []))

module _ (infos : Infos) (dest next : PublicKey) (ports : List PeerPort) where
  failed :
      {o : Option (PublicKey × List PeerPort)} {r : PublicKey × List PeerPort}
      → o ≡ some (dest, [])
      → o ≡ some r
      → Answers infos dest next ports r
  unfolding Answers
  failed p q = inr (cc (p, q), cc (p, q))

  found :
      {o : Option (PublicKey × List PeerPort)} {r : PublicKey × List PeerPort} (info : RouterInfo)
      → get infos next ≡ some info
      → info.parent ≡ next
      → o ≡ some (next, reverse ports)
      → o ≡ some r
      → Answers infos dest next ports r
  unfolding Answers
  found info e same p q = inl (
    [],
    subst (λ x. Climb infos next x []) (cc (p, q)) (at_root info e same),
    cc (p, q, append-nil ports),
  )

  higher :
      (r : PublicKey × List PeerPort) (info : RouterInfo)
      → get infos next ≡ some info
      → info.parent ≢ next
      → Answers infos dest info.parent (ports ++ (info.port ∷ [])) r
      → Answers infos dest next ports r
  unfolding Answers
  higher r info e n (inl (up, c, q)) =
      inl
        (info.port ∷ up, below info e n c, q ∙ ap reverse (append_assoc ports (info.port ∷ []) up))
  higher r info e n (inr f) = inr f

coords_loop-sound :
    (fuel : ℕ) (infos : Infos) (dest : PublicKey) (visited : Map PublicKey (Unit {0}))
    (next : PublicKey) (ports : List PeerPort) (r : PublicKey × List PeerPort)
    → coords_loop fuel infos dest visited next ports ≡ some r
    → Answers infos dest next ports r
coords_loop-sound zero infos dest visited next ports r h = absurd (unfold coords_loop in cc)
coords_loop-sound (suc fuel) infos dest visited next ports r h =
    elim (Bool-cases (contains_key visited next)) [
      | inl seen ↦
          failed infos dest next ports (coords_seen fuel infos dest visited next ports seen) h
      | inr new ↦ elim (Option-cases (get infos next)) [
        | inl e ↦
            failed infos dest next ports (coords_missing fuel infos dest visited next ports e) h
        | inr (info, e) ↦ elim (parent_cases info next) [
          | inl same ↦
              found infos dest next ports info e same
                (coords_root fuel infos dest visited next ports info e new same) h
          | inr other ↦ higher infos dest next ports r info e other (
              coords_loop-sound fuel infos dest (insert visited next tt) info.parent
                (ports ++ (info.port ∷ [])) r
                (rw (coords_next fuel infos dest visited next ports info e new other) at h))
        ]
      ]
    ]

-- The answer of get_root_and_path is a root above the node with the ports of the way down, or the
-- node itself with no coordinates.
pub get_root_and_path_sound :
    (infos : Infos) (dest : PublicKey)
    → ((up : List PeerPort) × Climb infos dest (get_root_and_path infos dest).0 up
        × ((get_root_and_path infos dest).1 ≡ reverse up))
      ⊎ (((get_root_and_path infos dest).0 ≡ dest) × ((get_root_and_path infos dest).1 ≡ []))
unfolding get_root_and_path Answers
get_root_and_path_sound infos dest =
    elim (Option-cases (coords_loop (length infos + 1) infos dest [] dest [])) [
      | inl stuck ↦ absurd (coords-ne-none infos dest stuck)
      | inr (r, e) ↦ rw e (coords_loop-sound (length infos + 1) infos dest [] dest [] r e)
    ]
