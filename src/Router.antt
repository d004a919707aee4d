-- ===== src/Router.antt =====
-- crates/ironwood/src/router.rs: the state of the spanning tree router and the store of tree
-- announcements. A hash set is a map to the unit type, an `Instant` a number that the caller passes
-- in for the clock.
pub mod Order
pub mod Update
pub mod Tree
pub mod Lookup
pub mod Signature
pub mod Action
pub mod Parent
pub mod Peers
pub mod Announcing
pub mod Expire
use yggdrasil_ng.Prelude.{
  ℕ, ◌+◌, List, [], ◌∷◌, ◌++◌, Option, none, some, Bool, true, false, ◌&&◌, not, ltb, ◌==◌,
  if◌then◌else◌, ◌=?◌, nat_eq,
}
use yggdrasil_ng.Prelude.Bytes.{Bytes, bytes_eq, bytes_ltb}
use yggdrasil_ng.Prelude.Map.{Map, get, insert, remove, map_values}
use yggdrasil_ng.Wire.Uvarint.{encode_uvarint}
use yggdrasil_ng.Wire.Path.{PeerPort}
use yggdrasil_ng.Wire.Message.{PublicKey, Sig, Announce, SigRes}
use yggdrasil_ng.Bloom.Peers.{Blooms, Transform}

abbrev pub PeerId : Type 0
PeerId = ℕ

pub record RouterInfo : Type 0 where
  pub parent : PublicKey
  pub seq : ℕ
  pub nonce : ℕ
  pub port : PeerPort
  pub psig : Sig
  pub sig : Sig

pub record RouterAnnounce : Type 0 where
  pub key : PublicKey
  pub parent : PublicKey
  pub seq : ℕ
  pub nonce : ℕ
  pub port : PeerPort
  pub psig : Sig
  pub sig : Sig

pub get_announce : RouterInfo → PublicKey → RouterAnnounce
get_announce info key = record {
  key = key;
  parent = info.parent;
  seq = info.seq;
  nonce = info.nonce;
  port = info.port;
  psig = info.psig;
  sig = info.sig;
}

-- The bytes that node and parent sign: node, parent, seq, nonce, port.
pub bytes_for_sig : RouterAnnounce → Bytes
bytes_for_sig ann =
    encode_uvarint
      (encode_uvarint (encode_uvarint (([] ++ ann.key) ++ ann.parent) ann.seq) ann.nonce) ann.port

-- `Crypto::verify` checks an ed25519 signature; it is an argument.
pub check : (PublicKey → Bytes → Sig → Bool) → RouterAnnounce → Bool
check verify ann =
    if ann.port == 0 && not (ann.key =? ann.parent)
    then false
    else verify ann.key (bytes_for_sig ann) ann.sig
      && verify ann.parent (bytes_for_sig ann) ann.psig

pub to_wire : RouterAnnounce → Announce
to_wire ann = record {
  key = ann.key;
  parent = ann.parent;
  sig_res = record { seq = ann.seq; nonce = ann.nonce; port = ann.port; psig = ann.psig };
  sig = ann.sig;
}

pub from_wire : Announce → RouterAnnounce
from_wire ann = record {
  key = ann.key;
  parent = ann.parent;
  seq = ann.sig_res.seq;
  nonce = ann.sig_res.nonce;
  port = ann.sig_res.port;
  psig = ann.sig_res.psig;
  sig = ann.sig;
}

pub record PeerEntry : Type 0 where
  pub id : PeerId
  pub key : PublicKey
  pub port : PeerPort
  pub prio : ℕ
  pub order : ℕ

pub record SigReqState : Type 0 where
  pub seq : ℕ
  pub nonce : ℕ

pub record SigResState : Type 0 where
  pub seq : ℕ
  pub nonce : ℕ
  pub port : PeerPort
  pub psig : Sig

pub record RouterPath : Type 0 where
  pub root : PublicKey
  pub path : List PeerPort

-- `Router` without its keys, its `Pathfinder` and the times of its own timers. `lags` and `rtts` are
-- nanoseconds.
pub record Router : Type 0 where
  pub self_key : PublicKey
  pub peers : Map PublicKey (Map PeerId PeerEntry)
  pub sent : Map PublicKey (Map PublicKey (Unit {0}))
  pub infos : Map PublicKey RouterInfo
  pub info_times : Map PublicKey ℕ
  pub cache : Map PublicKey RouterPath
  pub lags : Map PeerId ℕ
  pub rtts : Map PeerId ℕ
  pub requests : Map PublicKey SigReqState
  pub responses : Map PublicKey SigResState
  pub responded : Map PeerId (Unit {0})
  pub res_seqs : Map PublicKey ℕ
  pub res_seq_ctr : ℕ
  pub refresh : Bool
  pub do_root1 : Bool
  pub do_root2 : Bool
  pub ports : Map PeerPort PublicKey
  pub ancs : Map PublicKey (List PublicKey)
  pub blooms : Blooms
  pub bloom_transform : Transform
  pub router_refresh : ℕ
  pub router_timeout : ℕ

-- The fields that `update` saves.
unfoldable pub info_of : RouterAnnounce → RouterInfo
info_of ann = record {
  parent = ann.parent;
  seq = ann.seq;
  nonce = ann.nonce;
  port = ann.port;
  psig = ann.psig;
  sig = ann.sig;
}

-- The comparison in `update`: whether `ann` replaces `info`.
unfoldable pub newer : RouterInfo → RouterInfo → Bool
newer info ann =
    if ltb ann.seq info.seq
    then false
    else if ltb info.seq ann.seq
    then true
    else if bytes_ltb info.parent ann.parent
    then false
    else if bytes_ltb ann.parent info.parent
    then true
    else ltb ann.nonce info.nonce

unfoldable pub accepts : Option RouterInfo → RouterInfo → Bool
accepts none ann = true
accepts (some info) ann = newer info ann

unfoldable pub reset_cache : Router → Router
reset_cache r = record r { cache = [] }

-- The rest of `update`, behind the comparison.
unfoldable pub save : Router → RouterAnnounce → ℕ → Router
unfolding reset_cache
save r ann now =
    let r' = reset_cache (record r { sent = map_values (λ sent. remove sent ann.key) r.sent }) in
    record r' {
      infos = insert r'.infos ann.key (info_of ann);
      info_times = insert r'.info_times ann.key now;
    }

unfoldable pub update : Router → RouterAnnounce → ℕ → Router × Bool
update r ann now =
    if accepts (get r.infos ann.key) (info_of ann) then (save r ann now, true) else (r, false)
