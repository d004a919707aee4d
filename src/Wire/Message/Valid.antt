-- ===== src/Wire/Message/Valid.antt =====
-- The messages that the program builds: numbers are u64, ports of a path are not zero, keys have 32
-- bytes and signatures 64. The Rust types give the widths.
use yggdrasil_ng.Prelude.{◌≡◌, All, length}
use yggdrasil_ng.Wire.Uvarint.{IsU64}
use yggdrasil_ng.Wire.Path.{IsPort}
use yggdrasil_ng.Wire.Reader.{public_key_size, signature_size}
use yggdrasil_ng.Wire.Message.{
  SigReq, SigRes, Announce, PathLookup, PathNotifyInfo, PathNotify, PathBroken, Traffic, PublicKey,
  Sig,
}

abbrev pub IsKey : PublicKey → Type 0
IsKey key = length key ≡ public_key_size

abbrev pub IsSig : Sig → Type 0
IsSig sig = length sig ≡ signature_size

pub record IsSigReq (m : SigReq) : Type 0 where
  pub seq : IsU64 m.seq
  pub nonce : IsU64 m.nonce

pub record IsSigRes (m : SigRes) : Type 0 where
  pub seq : IsU64 m.seq
  pub nonce : IsU64 m.nonce
  pub port : IsU64 m.port
  pub psig : IsSig m.psig

pub record IsAnnounce (m : Announce) : Type 0 where
  pub key : IsKey m.key
  pub parent : IsKey m.parent
  pub sig_res : IsSigRes m.sig_res
  pub sig : IsSig m.sig

pub record IsPathLookup (m : PathLookup) : Type 0 where
  pub source : IsKey m.source
  pub dest : IsKey m.dest
  pub from : All IsPort m.from

pub record IsPathNotifyInfo (m : PathNotifyInfo) : Type 0 where
  pub seq : IsU64 m.seq
  pub path : All IsPort m.path
  pub sig : IsSig m.sig

pub record IsPathNotify (m : PathNotify) : Type 0 where
  pub path : All IsPort m.path
  pub watermark : IsU64 m.watermark
  pub source : IsKey m.source
  pub dest : IsKey m.dest
  pub info : IsPathNotifyInfo m.info

pub record IsPathBroken (m : PathBroken) : Type 0 where
  pub path : All IsPort m.path
  pub watermark : IsU64 m.watermark
  pub source : IsKey m.source
  pub dest : IsKey m.dest

pub record IsTraffic (m : Traffic) : Type 0 where
  pub path : All IsPort m.path
  pub from : All IsPort m.from
  pub source : IsKey m.source
  pub dest : IsKey m.dest
  pub watermark : IsU64 m.watermark
