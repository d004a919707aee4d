-- ===== src/Node/Start.antt =====
-- crates/ironwood/src/router.rs, with crates/ironwood/src/pathfinder.rs: a new node, and the filters
-- that it gets.
use yggdrasil_ng.Prelude.{ℕ, ◌≡◌, refl, List, [], some, true, false, replicate}
use yggdrasil_ng.Prelude.Bytes.{Bytes, bytes_eq}
use yggdrasil_ng.Prelude.Map.{get}
use yggdrasil_ng.Wire.Message.{PublicKey, Sig}
use yggdrasil_ng.Bloom.{BloomFilter}
use yggdrasil_ng.Bloom.Peers.{Transform}
use yggdrasil_ng.Bloom.Peers
use yggdrasil_ng.Pathfinder.{OwnPathInfo, Pathfinder, sign, own_bytes_for_sig}
use yggdrasil_ng.Router.{Router}
use yggdrasil_ng.Router.Action.{RouterAction}
use yggdrasil_ng.Router.Parent.Root.{HasPlace}
use yggdrasil_ng.Node.{Node, Outside}
use yggdrasil_ng.Node.Frame.{HasTrueCache}
use yggdrasil_ng.Node.Reply.{CanSign, HasSigned}
use yggdrasil_ng.Node.Upkeep.{do_maintenance}
use yggdrasil_ng.Node.Place.{do_maintenance-HasPlace}

-- The fields of the configuration that the router reads.
pub record RouterConfig : Type 0 where
  pub router_refresh : ℕ
  pub router_timeout : ℕ
  pub path_timeout : ℕ
  pub path_throttle : ℕ
  pub bloom_transform : Transform

-- `OwnPathInfo::new`
unfoldable pub empty_info : OwnPathInfo
empty_info = record { seq = 0; path = []; sig = replicate 64 0 }

-- `Pathfinder::new`
unfoldable pub new_pathfinder : (Bytes → Sig) → Pathfinder
new_pathfinder crypto_sign = record { info = sign crypto_sign empty_info; paths = []; rumors = [] }

unfoldable pub new_router : PublicKey → RouterConfig → Router
new_router self_key config = record {
  self_key = self_key;
  peers = [];
  sent = [];
  infos = [];
  info_times = [];
  cache = [];
  lags = [];
  rtts = [];
  requests = [];
  responses = [];
  responded = [];
  res_seqs = [];
  res_seq_ctr = 0;
  refresh = false;
  do_root1 = false;
  do_root2 = true;
  ports = [];
  ancs = [];
  blooms = [];
  bloom_transform = config.bloom_transform;
  router_refresh = config.router_refresh;
  router_timeout = config.router_timeout;
}

-- `Router::new`
unfoldable pub new_node : Outside → PublicKey → RouterConfig → Node
new_node o self_key config = record {
  router = new_router self_key config;
  pathfinder = new_pathfinder o.crypto_sign;
  last_refresh = o.now;
  path_timeout = config.path_timeout;
  path_throttle = config.path_throttle;
}

unfoldable pub handle_bloom : Node → PublicKey → BloomFilter → Node
handle_bloom n peer_key filter = record n {
  router = record n.router { blooms = Peers.handle_bloom n.router.blooms peer_key filter };
}

pub empty_cache :
    (o : Outside) (self_key : PublicKey) (config : RouterConfig)
    → HasTrueCache (new_node o self_key config)
unfolding new_node new_router get
empty_cache o self_key config k p h = absurd (cc h)

-- A new node's cache is true and its own path is signed, and its first round of do_maintenance
-- gives it a place in the tree, provided that its signatures pass.
pub new_node-HasPlace :
    (o o' : Outside) (nonces : PublicKey → ℕ) (self_key : PublicKey) (config : RouterConfig)
    → CanSign o (new_node o self_key config)
    → HasTrueCache (new_node o self_key config)
      × HasSigned o (new_node o self_key config)
      × ((n' : Node) × (actions : List RouterAction) × (do_maintenance o' nonces
              (new_node o self_key config)
            ≡ some (n', actions))
          × HasPlace n'.router.infos self_key)
unfolding new_node new_router new_pathfinder sign own_bytes_for_sig get
new_node-HasPlace o o' nonces self_key config can = (
  empty_cache o self_key config,
  can (own_bytes_for_sig empty_info),
  do_maintenance-HasPlace o' nonces (new_node o self_key config) refl (λ info e. absurd (cc e)),
)
