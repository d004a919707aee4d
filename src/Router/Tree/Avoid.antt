-- ===== src/Router/Tree/Avoid.antt =====
-- A walk that does not visit a node is the same when the entry of that node is replaced.
use yggdrasil_ng.Prelude.{
  ℕ, zero, suc, ◌+◌, ◌≡◌, ◌≢◌, refl, sym, ◌∙◌, List, [], ◌∷◌, some, true, false, ◌=?◌, Bool, arith,
  Bool-cases, Option-cases, inl, inr, beq_refl, length, ◌⊎◌,
}
use yggdrasil_ng.Prelude.Bytes.{bytes_eq, bytes_beq_iff}
use yggdrasil_ng.Prelude.Map.{Map, get, insert, contains_key, get-insert, contains_key-insert}
use yggdrasil_ng.Wire.Path.{PeerPort}
use yggdrasil_ng.Wire.Message.{PublicKey}
use yggdrasil_ng.Router.{RouterInfo}
use yggdrasil_ng.Router.Tree.{Infos, dists_loop, get_root_and_dists}
use yggdrasil_ng.Router.Tree.Climb.{Climb, at_root, below}
use yggdrasil_ng.Router.Tree.Ends.{parent_cases}
use yggdrasil_ng.Router.Tree.Dists.{
  dists_seen, dists_missing, dists_root, dists_next, dists-ne-none,
}

abbrev Answer : Type 0
Answer = PublicKey × Map PublicKey ℕ × Bool

-- What a round does: it ends without a root, at a root, or goes on to the parent.
round_cases :
    (infos : Infos) (fuel : ℕ) (dists : Map PublicKey ℕ) (next : PublicKey) (dist : ℕ) (r : Answer)
    → dists_loop (suc fuel) infos dists next dist ≡ some r
    → ((r.1 ≡ dists) × (r.2 ≡ false))
      ⊎ ((info : RouterInfo) × (get infos next ≡ some info)
          × (((info.parent ≡ next) × (r.0 ≡ next) × (r.1 ≡ insert dists next dist))
              ⊎ ((info.parent ≢ next)
                  × (dists_loop fuel infos (insert dists next dist) info.parent (dist + 1)
                      ≡ some r))))
round_cases infos fuel dists next dist r h = elim (Bool-cases (contains_key dists next)) [
  | inl seen ↦ let q = dists_seen fuel infos dists next dist seen in inl (cc (h, q), cc (h, q))
  | inr new ↦ elim (Option-cases (get infos next)) [
    | inl e ↦ let q = dists_missing fuel infos dists next dist e in inl (cc (h, q), cc (h, q))
    | inr (info, e) ↦ elim (parent_cases info next) [
      | inl same ↦
          let q = dists_root fuel infos dists next dist info e new same in
          inr (info, e, inl (same, cc (h, q), cc (h, q)))
      | inr other ↦
          inr
            (info, e, inr (other, sym (dists_next fuel infos dists next dist info e new other) ∙ h))
    ]
  ]
]

module _ (infos : Infos) (self : PublicKey) (own : RouterInfo) where
  -- The nodes that were visited are among the distances.
  visited_stay :
      (fuel : ℕ) (dists : Map PublicKey ℕ) (next : PublicKey) (dist : ℕ) (r : Answer)
      (v : PublicKey)
      → dists_loop fuel infos dists next dist ≡ some r
      → contains_key dists v ≡ true
      → contains_key r.1 v ≡ true
  visited_stay zero dists next dist r v h c = absurd (unfold dists_loop in cc)
  visited_stay (suc fuel) dists next dist r v h c =
      let added : contains_key (insert dists next dist) v ≡ true =
        rw (contains_key-insert dists next v dist, c) (ground arith) in
      elim (round_cases infos fuel dists next dist r h) [
        | inl (q, f) ↦ rw q c
        | inr (info, e, inl (same, at, q)) ↦ rw q added
        | inr (info, e, inr (other, h')) ↦
            visited_stay fuel (insert dists next dist) info.parent (dist + 1) r v h' added
      ]

  -- A node that is not among the distances is not the one that was just visited.
  not_self :
      (dists : Map PublicKey ℕ) (next : PublicKey)
      → contains_key dists next ≡ true
      → contains_key dists self ≡ false
      → get (insert infos self own) next ≡ get infos next
  not_self dists next t f = elim (Bool-cases (self =? next)) [
    | inl e ↦
        let at : self ≡ next = (bytes_beq_iff self next).0 e in
        let t' : contains_key dists self ≡ true = rw at t in absurd (cc (t', f))
    | inr e ↦ get-insert infos self next own ∙ rw e refl
  ]

  dists_loop-insert :
      (fuel : ℕ) (dists : Map PublicKey ℕ) (next : PublicKey) (dist : ℕ) (r : Answer)
      → dists_loop fuel infos dists next dist ≡ some r
      → r.2 ≡ true
      → contains_key r.1 self ≡ false
      → (up : List PeerPort) × Climb (insert infos self own) next r.0 up
  dists_loop-insert zero dists next dist r h v a = absurd (unfold dists_loop in cc)
  dists_loop-insert (suc fuel) dists next dist r h v a =
      let here : contains_key (insert dists next dist) next ≡ true =
        rw (contains_key-insert dists next next dist, beq_refl next) refl in
      elim (round_cases infos fuel dists next dist r h) [
        | inl (q, f) ↦ absurd (cc (v, f))
        | inr (info, e, inl (same, at, q)) ↦
            let e' = not_self r.1 next (rw q here) a ∙ e in ([], rw at (at_root info e' same))
        | inr (info, e, inr (other, h')) ↦
            let e' =
              not_self r.1 next
                (visited_stay fuel (insert dists next dist) info.parent (dist + 1) r next h' here) a
              ∙ e in
            let (up, c) =
              dists_loop-insert fuel (insert dists next dist) info.parent (dist + 1) r h' v a in
            (info.port ∷ up, below info e' other c)
      ]

  -- The chain of parents that the walk followed, in the map with the new entry.
  pub get_root_and_dists-insert :
      (k : PublicKey)
      → (get_root_and_dists infos k).2 ≡ true
      → contains_key (get_root_and_dists infos k).1 self ≡ false
      → (up : List PeerPort) × Climb (insert infos self own) k (get_root_and_dists infos k).0 up
  unfolding get_root_and_dists
  get_root_and_dists-insert k v a =
      elim (Option-cases (dists_loop (length infos + 1) infos [] k 0)) [
        | inl stuck ↦ absurd (dists-ne-none infos k stuck)
        | inr (r, e) ↦
            rw e (dists_loop-insert (length infos + 1) [] k 0 r e (rw e at v) (rw e at a))
      ]

  start_visited :
      (fuel : ℕ) (dists : Map PublicKey ℕ) (next : PublicKey) (dist : ℕ) (r : Answer)
      → dists_loop fuel infos dists next dist ≡ some r
      → r.2 ≡ true
      → contains_key r.1 next ≡ true
  start_visited zero dists next dist r h v = absurd (unfold dists_loop in cc)
  start_visited (suc fuel) dists next dist r h v =
      let here : contains_key (insert dists next dist) next ≡ true =
        rw (contains_key-insert dists next next dist, beq_refl next) refl in
      elim (round_cases infos fuel dists next dist r h) [
        | inl (q, f) ↦ absurd (cc (v, f))
        | inr (info, e, inl (same, at, q)) ↦ rw q here
        | inr (info, e, inr (other, h')) ↦
            visited_stay fuel (insert dists next dist) info.parent (dist + 1) r next h' here
      ]

  -- A node is on its own way up.
  pub differ :
      (k : PublicKey)
      → (get_root_and_dists infos k).2 ≡ true
      → contains_key (get_root_and_dists infos k).1 self ≡ false
      → k ≢ self
  unfolding get_root_and_dists
  differ k v a at = elim (Option-cases (dists_loop (length infos + 1) infos [] k 0)) [
    | inl stuck ↦ dists-ne-none infos k stuck
    | inr (r, e) ↦
        let seen = start_visited (length infos + 1) [] k 0 r e (rw e at v) in
        let seen' : contains_key r.1 self ≡ true = rw (← at) seen in
        let unseen : contains_key r.1 self ≡ false = rw e at a in cc (seen', unseen)
  ]
