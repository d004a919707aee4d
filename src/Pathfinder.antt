-- ===== src/Pathfinder.antt =====
-- crates/ironwood/src/pathfinder.rs: the paths to known destinations and the lookups that wait for
-- one. An `Instant` is a number that the caller passes in for the clock, `elapsed` and
-- `duration_since` are subtractions that stop at 0.
pub mod Rumors
pub mod Paths
pub mod Notify
pub mod Cleanup
pub mod Sequence
pub mod Learning
pub mod Lifetime
pub mod Waiting
use yggdrasil_ng.Prelude.{
  ℕ, ◌-◌, ◌≤◌, List, [], ◌∷◌, Option, none, some, Bool, true, false, ◌&&◌, ◌||◌, not, ltb, leb,
  ◌==◌, if◌then◌else◌, ◌=?◌, nat_eq, HasEq, ◌≡◌, arith,
}
use mathlib.Core.Option
use yggdrasil_ng.Prelude.Bytes.{Bytes, bytes_eq}
use yggdrasil_ng.Prelude.Map.{Map, get, insert, modify, retain, contains_key}
use yggdrasil_ng.Wire.Uvarint.{encode_uvarint}
use yggdrasil_ng.Wire.Path.{PeerPort, encode_path}
use yggdrasil_ng.Wire.Message.{PublicKey, Sig}
use yggdrasil_ng.Traffic.{TrafficPacket}

pub record PathInfo : Type 0 where
  pub path : List PeerPort
  pub seq : ℕ
  pub req_time : ℕ
  pub last_refresh : ℕ
  pub cached_traffic : Option TrafficPacket
  pub broken : Bool

pub record PathRumor : Type 0 where
  pub traffic : Option TrafficPacket
  pub send_time : Option ℕ
  pub retry_time : Option ℕ
  pub created : ℕ

pub record OwnPathInfo : Type 0 where
  pub seq : ℕ
  pub path : List PeerPort
  pub sig : Sig

-- The bytes that are signed.
unfoldable pub own_bytes_for_sig : OwnPathInfo → Bytes
own_bytes_for_sig info = encode_path (encode_uvarint [] info.seq) info.path

-- `Crypto::sign` makes an ed25519 signature with the node's key; it is an argument.
unfoldable pub sign : (Bytes → Sig) → OwnPathInfo → OwnPathInfo
sign crypto_sign info = record info { sig = crypto_sign (own_bytes_for_sig info) }

-- A port list is a list of numbers, so its equality is that of byte strings.
unfoldable pub content_equal : OwnPathInfo → OwnPathInfo → Bool
content_equal info other = info.seq == other.seq && info.path =? other.path

pub record Pathfinder : Type 0 where
  pub info : OwnPathInfo
  pub paths : Map PublicKey PathInfo
  pub rumors : Map PublicKey PathRumor

-- `t.elapsed() < throttle`
abbrev pub elapsed_less : ℕ → ℕ → ℕ → Bool
elapsed_less now t throttle = ltb (now - t) throttle

-- A new path.
unfoldable pub found_path : ℕ → List PeerPort → ℕ → PathInfo
found_path notify_seq notify_path now = record {
  path = notify_path;
  seq = notify_seq;
  req_time = now;
  last_refresh = now;
  cached_traffic = none;
  broken = false;
}
