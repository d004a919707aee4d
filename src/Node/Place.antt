-- ===== src/Node/Place.antt =====
-- crates/ironwood/src/router.rs: one round of `do_maintenance` always answers, and gives a node that
-- waited for one tick a place in the tree.
use yggdrasil_ng.Prelude.{
  none, ℕ, ◌-◌, ◌≡◌, refl, sym, ap, ◌∙◌, inl, inr, List, [], ◌∷◌, ◌++◌, some, true, ◌||◌, leb,
  Bool-cases,
}
use mathlib.Core.Path.{subst}
use yggdrasil_ng.Wire.Message.{PublicKey}
use yggdrasil_ng.Pathfinder.Rumors.{should_throttle_rumor_retry, mark_rumor_retry}
use yggdrasil_ng.Pathfinder.Cleanup.{cleanup_expired, rumors_needing_retry}
use yggdrasil_ng.Bloom.Answers.{do_maintenance_answers}
use yggdrasil_ng.Router.{Router, reset_cache}
use yggdrasil_ng.Router.Action.{RouterAction}
use yggdrasil_ng.Router.Parent.{fix, current_parent}
use yggdrasil_ng.Router.Parent.Cache.{HasNoCache, fix-HasNoCache}
use yggdrasil_ng.Router.Lookup.Cache.{IsCacheOf}
use yggdrasil_ng.Prelude.Map.{get}
use yggdrasil_ng.Prelude.Bytes.{bytes_eq}
use yggdrasil_ng.Router.Parent.Root.{HasPlace, HasNext, fix-HasPlace}
use yggdrasil_ng.Router.Announcing.{
  update_ancestries, send_announces, blooms_maintenance, parent_map, bloom_sends,
}
use yggdrasil_ng.Node.{Node, Outside, self_of, with_pathfinder, x_key_of, after_actions}
use yggdrasil_ng.Node.Handlers.{route}
use yggdrasil_ng.Node.Frame.{HasTrueCache, Fine, via-Fine, after_actions-Fine}
use yggdrasil_ng.Node.Frame.Handlers.{same-Fine, with_pathfinder-Fine, do_send_lookup-Fine}
use yggdrasil_ng.Node.Events.{route-Fine}
use yggdrasil_ng.Node.Upkeep.{
  check_refresh, second_tick, tree_maintenance, retry_lookups, do_maintenance, force_refresh,
}

retry_lookups-Fine :
    (dests : List PublicKey) (o : Outside) (n : Node) → Fine n (retry_lookups o n dests)
unfolding retry_lookups
retry_lookups-Fine [] o n = same-Fine n
retry_lookups-Fine (dest ∷ dests) o n =
    let xform = x_key_of n dest in
    let marked = with_pathfinder n (mark_rumor_retry n.pathfinder xform o.now) in
    let step =
      with_pathfinder-Fine n (mark_rumor_retry n.pathfinder xform o.now) _
        (do_send_lookup-Fine o (route o) (route-Fine o) marked dest) in
    elim (Bool-cases (should_throttle_rumor_retry n.pathfinder xform n.path_throttle o.now)) [
      | inl c ↦ rw (retry_lookups, c) (retry_lookups-Fine dests o n)
      | inr c ↦
          rw (retry_lookups, c, step.answers)
            (after_actions-Fine n step.actions _ step.delivers (
              via-Fine n step.after _ (step.frame, step.cached)
                (retry_lookups-Fine dests o step.after)))
    ]

-- Where the filters' maintenance leaves the announcements.
blooms_maintenance-infos :
    (o : Outside) (r : Router)
    → (r' : Router) × (actions : List RouterAction) × (blooms_maintenance o.murmur r
        ≡ some (r', actions))
      × (r'.infos ≡ r.infos)
      × (r'.cache ≡ r.cache)
unfolding blooms_maintenance
blooms_maintenance-infos o r =
    let ((blooms, sends), e) =
      do_maintenance_answers o.murmur r.self_key r.bloom_transform r.blooms (current_parent r)
        (parent_map r.infos) in
    (record r { blooms = blooms }, bloom_sends r sends, rw (blooms_maintenance, e) refl, refl, refl)

pub no_cache-IsCacheOf : (r : Router) → HasNoCache r → IsCacheOf r.infos r.cache
unfolding get
no_cache-IsCacheOf r empty k p h = let no : none ≡ some p = rw empty at h in absurd (cc no)

-- The announcements after the tree's part are those that `fix` leaves.
tree_maintenance-infos :
    (o : Outside) (nonces : PublicKey → ℕ) (r : Router)
    → (r' : Router) × (actions : List RouterAction) × (tree_maintenance o nonces r
        ≡ some (r', actions))
      × (r'.infos
          ≡ (fix o.crypto_sign nonces
              (update_ancestries (reset_cache (second_tick r)))
              o.now).0.infos)
      × HasNoCache r'
unfolding tree_maintenance send_announces update_ancestries reset_cache
tree_maintenance-infos o nonces r =
    let (fixed, requests) =
      fix o.crypto_sign nonces (update_ancestries (reset_cache (second_tick r))) o.now in
    let (sent, announces) = send_announces fixed in
    let (r', filters, e, infos, cache) = blooms_maintenance-infos o sent in
    let empty =
      fix-HasNoCache o.crypto_sign nonces (update_ancestries (reset_cache (second_tick r))) o.now
        refl in
    (r', requests ++ (announces ++ filters), rw (tree_maintenance, e) refl, infos, cache ∙ empty)

second_tick-HasPlace :
    (o : Outside) (nonces : PublicKey → ℕ) (r : Router)
    → (r.do_root2 || r.do_root1) ≡ true
    → HasNext r.infos r.self_key
    → HasPlace
        (fix o.crypto_sign nonces (update_ancestries (reset_cache (second_tick r))) o.now).0.infos
        r.self_key
unfolding second_tick update_ancestries reset_cache
second_tick-HasPlace o nonces r ticked next =
    fix-HasPlace o.crypto_sign nonces (update_ancestries (reset_cache (second_tick r))) o.now ticked
      next

check_refresh-router :
    (now : ℕ) (n : Node)
    → ((check_refresh now n).router.do_root1 ≡ n.router.do_root1)
      × ((check_refresh now n).router.do_root2 ≡ n.router.do_root2)
      × (self_of (check_refresh now n) ≡ self_of n)
      × ((check_refresh now n).router.infos ≡ n.router.infos)
unfolding check_refresh
check_refresh-router now n =
    elim (Bool-cases (leb n.router.router_refresh (now - n.last_refresh))) [
      | inl c ↦ rw (check_refresh, c) (refl, refl, refl, refl)
      | inr c ↦ rw (check_refresh, c) (refl, refl, refl, refl)
    ]

-- A round of do_maintenance answers, leaves the announcements of its tree's part, and a true cache.
pub do_maintenance-infos :
    (o : Outside) (nonces : PublicKey → ℕ) (n : Node)
    → (n' : Node) × (actions : List RouterAction) × (do_maintenance o nonces n ≡ some (n', actions))
      × (n'.router.infos
          ≡ (fix o.crypto_sign nonces
              (update_ancestries (reset_cache (second_tick (check_refresh o.now n).router)))
              o.now).0.infos)
      × HasTrueCache n'
unfolding do_maintenance after_actions
do_maintenance-infos o nonces n =
    let n1 = check_refresh o.now n in
    let (r, actions, e, infos, empty) = tree_maintenance-infos o nonces n1.router in
    let p = cleanup_expired n1.pathfinder n1.path_timeout o.now in
    let n2 = record n1 { router = r; pathfinder = p } in
    let fine = retry_lookups-Fine (rumors_needing_retry p) o n2 in
    (
      fine.after,
      actions ++ fine.actions,
      rw (do_maintenance, e, fine.answers) refl,
      ap (λ f. f.0.infos) fine.frame ∙ infos,
      fine.cached (no_cache-IsCacheOf r empty),
    )

-- A round of do_maintenance answers, and if the node waited for a tick (do_root1 or do_root2 is
-- set) and the number after that of its own announcement fits in 64 bits, its parents lead to a
-- root afterwards, and the root's key is not above its own.
pub do_maintenance-HasPlace :
    (o : Outside) (nonces : PublicKey → ℕ) (n : Node)
    → (n.router.do_root2 || n.router.do_root1) ≡ true
    → HasNext n.router.infos (self_of n)
    → (n' : Node) × (actions : List RouterAction) × (do_maintenance o nonces n ≡ some (n', actions))
      × HasPlace n'.router.infos (self_of n)
do_maintenance-HasPlace o nonces n ticked next =
    let (n', actions, e, infos, true_) = do_maintenance-infos o nonces n in
    let (same1, same2, self, infos1) = check_refresh-router o.now n in
    let place =
      second_tick-HasPlace o nonces (check_refresh o.now n).router (rw (same1, same2) ticked)
        (rw (infos1, self) next) in
    let self1 = self_of (check_refresh o.now n) in
    let there = subst (λ i. HasPlace i self1) (sym infos) place in
    (n', actions, e, subst (HasPlace n'.router.infos) self there)

-- The first tick after force_refresh gives the node a place in the tree, at any time, provided that
-- the number after that of its own announcement fits in 64 bits.
pub force_refresh-HasPlace :
    (o : Outside) (nonces : PublicKey → ℕ) (n : Node) (now : ℕ)
    → HasNext n.router.infos (self_of n)
    → (n' : Node) × (actions : List RouterAction) × (do_maintenance o nonces (force_refresh now n)
        ≡ some (n', actions))
      × HasPlace n'.router.infos (self_of n)
unfolding force_refresh
force_refresh-HasPlace o nonces n now next =
    do_maintenance-HasPlace o nonces (force_refresh now n) refl next
