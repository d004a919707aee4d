-- ===== src/Traffic.antt =====
-- crates/ironwood/src/traffic.rs: the packets of user traffic.
pub mod Queue
use yggdrasil_ng.Prelude.{ℕ, ◌+◌, ◌^◌, ◌-◌, List, [], Bool, true, false, length}
use yggdrasil_ng.Prelude.Bytes.{Bytes}
use yggdrasil_ng.Wire.Uvarint.{uvarint_size}
use yggdrasil_ng.Wire.Path.{PeerPort, path_size}
use yggdrasil_ng.Wire.Message.{PublicKey}

pub record TrafficPacket : Type 0 where
  pub path : List PeerPort
  pub from : List PeerPort
  pub source : PublicKey
  pub dest : PublicKey
  pub watermark : ℕ
  pub payload : Bytes
  pub keepalive : Bool

-- `TrafficPacket::new`
pub new_packet : PublicKey → PublicKey → Bytes → TrafficPacket
new_packet source dest payload = record {
  path = [];
  from = [];
  source = source;
  dest = dest;
  watermark = 2 ^ 64 - 1;
  payload = payload;
  keepalive = false;
}

-- `TrafficPacket::keepalive`
pub as_keepalive : TrafficPacket → TrafficPacket
as_keepalive tr = record tr { keepalive = true }

unfoldable pub wire_size : TrafficPacket → ℕ
wire_size tr =
    path_size tr.path + path_size tr.from + 32 + 32 + uvarint_size tr.watermark + length tr.payload
