-- ===== src/Node/Upkeep.antt =====
-- crates/ironwood/src/router.rs: `do_maintenance` and `force_refresh`.
use yggdrasil_ng.Prelude.{
  ℕ, ◌-◌, List, [], ◌∷◌, ◌++◌, Option, none, some, true, ◌||◌, leb, if◌then◌else◌,
}
use yggdrasil_ng.Wire.Message.{PublicKey}
use yggdrasil_ng.Pathfinder.Rumors.{should_throttle_rumor_retry, mark_rumor_retry}
use yggdrasil_ng.Pathfinder.Cleanup.{cleanup_expired, rumors_needing_retry}
use yggdrasil_ng.Router.{Router, reset_cache}
use yggdrasil_ng.Router.Action.{RouterAction}
use yggdrasil_ng.Router.Parent.{fix}
use yggdrasil_ng.Router.Announcing.{update_ancestries, send_announces, blooms_maintenance}
use yggdrasil_ng.Node.{Node, Outside, Run, with_pathfinder, x_key_of, after_actions}
use yggdrasil_ng.Node.Handlers.{do_send_lookup, route}

-- The check of the refresh timer.
unfoldable pub check_refresh : ℕ → Node → Node
check_refresh now n =
    if leb n.router.router_refresh (now - n.last_refresh)
    then record n { router = record n.router { refresh = true }; last_refresh = now }
    else n

-- A second tick follows the first.
unfoldable pub second_tick : Router → Router
second_tick r = record r { do_root2 = r.do_root2 || r.do_root1 }

-- The part of `do_maintenance` that is about the tree, none if the filters panic.
unfoldable pub tree_maintenance :
    Outside → (PublicKey → ℕ) → Router → Option (Router × List RouterAction)
tree_maintenance o nonces r =
    let (r, requests) =
      fix o.crypto_sign nonces (update_ancestries (reset_cache (second_tick r))) o.now in
    let (r, announces) = send_announces r in
    elim (blooms_maintenance o.murmur r) [
      | none ↦ none
      | some (r, filters) ↦ some (r, requests ++ (announces ++ filters))
    ]

-- The lookups of the rumors that still wait.
unfoldable pub retry_lookups : Outside → Node → List PublicKey → Run
retry_lookups o n [] = some (n, [])
retry_lookups o n (dest ∷ dests) =
    let xform = x_key_of n dest in
    if should_throttle_rumor_retry n.pathfinder xform n.path_throttle o.now
    then retry_lookups o n dests
    else elim (do_send_lookup o (route o)
        (with_pathfinder n (mark_rumor_retry n.pathfinder xform o.now)) dest) [
          | none ↦ none
          | some (n', actions) ↦ after_actions actions (retry_lookups o n' dests)
        ]

-- The random nonces of the requests are an argument; none is also a panic of the filters.
unfoldable pub do_maintenance : Outside → (PublicKey → ℕ) → Node → Run
do_maintenance o nonces n =
    let n = check_refresh o.now n in
    elim (tree_maintenance o nonces n.router) [
      | none ↦ none
      | some (r, actions) ↦
          let p = cleanup_expired n.pathfinder n.path_timeout o.now in
          after_actions actions
            (retry_lookups o (record n { router = r; pathfinder = p }) (rumors_needing_retry p))
    ]

-- `checked_sub` is none below 0.
unfoldable pub force_refresh : ℕ → Node → Node
force_refresh now n = record n {
  router = record n.router { refresh = true; do_root1 = true; do_root2 = true };
  last_refresh = if leb n.router.router_refresh now then now - n.router.router_refresh else now;
}
