-- ===== src/Router/Action.antt =====
-- crates/ironwood/src/router.rs: what the router asks the networking layer to do.
use yggdrasil_ng.Wire.Message.{
  PublicKey, SigReq, SigRes, Announce, PathLookup, PathNotify, PathBroken,
}
use yggdrasil_ng.Bloom.{BloomFilter}
use yggdrasil_ng.Traffic.{TrafficPacket}
use yggdrasil_ng.Router.{PeerId}

pub data RouterAction : Type 0 where
  send_sig_req : PeerId → SigReq → RouterAction
  send_sig_res : PeerId → SigRes → RouterAction
  send_announce : PeerId → Announce → RouterAction
  send_bloom : PeerId → BloomFilter → RouterAction
  send_traffic : PeerId → TrafficPacket → RouterAction
  send_path_notify : PeerId → PathNotify → RouterAction
  send_path_lookup : PeerId → PathLookup → RouterAction
  send_path_broken : PeerId → PathBroken → RouterAction
  deliver_traffic : TrafficPacket → RouterAction
  path_notify_callback : PublicKey → RouterAction
