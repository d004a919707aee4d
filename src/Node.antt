-- ===== src/Node.antt =====
-- crates/ironwood/src/router.rs: the handlers of path discovery and of traffic, which use the tree,
-- the filters and the known paths together. All readings of a clock within one handler are the same.
pub mod Handlers
pub mod Entry
pub mod Upkeep
pub mod Enough
pub mod Agree
pub mod Frame
pub mod Events
pub mod Delivery
pub mod Waiting
pub mod Arrival
pub mod Reply
pub mod Place
pub mod Start
pub mod Runs
use yggdrasil_ng.Prelude.{ℕ, ◌^◌, ◌-◌, List, [], ◌∷◌, ◌++◌, Option, none, some, Bool, replicate}
use yggdrasil_ng.Prelude.Bytes.{Bytes}
use yggdrasil_ng.Wire.Path.{PeerPort}
use yggdrasil_ng.Wire.Message.{PublicKey, Sig}
use yggdrasil_ng.Pathfinder.{Pathfinder}
use yggdrasil_ng.Bloom.Peers.{x_key}
use yggdrasil_ng.Router.{PeerId, Router}
use yggdrasil_ng.Router.Action.{RouterAction}
use yggdrasil_ng.Router.Lookup.{cached_root_and_path, lookup}

-- `Router` with its `Pathfinder` and the time of the last refresh.
pub record Node : Type 0 where
  pub router : Router
  pub pathfinder : Pathfinder
  pub last_refresh : ℕ
  pub path_timeout : ℕ
  pub path_throttle : ℕ

-- What the handlers take from outside: the hash of the filters, `Crypto::verify`, `Crypto::sign` with
-- the node's key, `Instant::now`, and the seconds since the epoch.
pub record Outside : Type 0 where
  pub murmur : Bytes → ℕ
  pub verify : PublicKey → Bytes → Sig → Bool
  pub crypto_sign : Bytes → Sig
  pub now : ℕ
  pub unix_secs : ℕ

-- A handler's answer: the new state and the actions, none if the fuel ran out.
abbrev pub Run : Type 0
Run = Option (Node × List RouterAction)

abbrev pub self_of : Node → PublicKey
self_of n = n.router.self_key

abbrev pub with_pathfinder : Node → Pathfinder → Node
with_pathfinder n p = record n { pathfinder = p }

unfoldable pub cached_coords : Node → PublicKey → List PeerPort × Node
cached_coords n key =
    let (path, cache) = cached_root_and_path n.router.infos n.router.cache key in
    (path.path, record n { router = record n.router { cache = cache } })

unfoldable pub next_hop : Node → List PeerPort → ℕ → Option PeerId × ℕ × Node
next_hop n path watermark =
    let (hop, watermark, r) = lookup n.router path watermark in
    (hop, watermark, record n { router = r })

abbrev pub x_key_of : Node → PublicKey → PublicKey
x_key_of n key = x_key key n.router.bloom_transform

-- `actions.extend(..)`, in front of what a later step answers.
unfoldable pub after_actions : List RouterAction → Run → Run
after_actions actions none = none
after_actions actions (some (n, more)) = some (n, actions ++ more)

unfoldable pub then_actions : Run → List RouterAction → Run
then_actions none more = none
then_actions (some (n, actions)) more = some (n, actions ++ more)
