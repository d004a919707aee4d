-- ===== src/Wire/Message.antt =====
-- crates/ironwood/src/wire.rs: the messages, with `encode` and `decode` of each. An encoder takes
-- the buffer that it appends to.
pub mod Valid
pub mod Layout
pub mod RoundTrip
use yggdrasil_ng.Prelude.{ℕ, ◌+◌, List, [], ◌++◌, Bool, true, false, if◌then◌else◌, length}
use yggdrasil_ng.Prelude.Bytes.{Bytes}
use yggdrasil_ng.Prelude.Result.{Result, ok, err, Error, ◌>>=◌}
use yggdrasil_ng.Wire.Uvarint.{encode_uvarint, uvarint_size}
use yggdrasil_ng.Wire.Path.{PeerPort, encode_path, path_size}
use yggdrasil_ng.Wire.Reader.{
  Cursor, is_empty, read_uvarint, read_public_key, read_signature, read_path, public_key_size,
}

abbrev pub PublicKey : Type 0
PublicKey = Bytes

abbrev pub Sig : Type 0
Sig = Bytes

pub record SigReq : Type 0 where
  pub seq : ℕ
  pub nonce : ℕ

pub encode_sig_req : SigReq → Bytes → Bytes
encode_sig_req m out = encode_uvarint (encode_uvarint out m.seq) m.nonce

pub decode_sig_req : Cursor → Result (SigReq × Cursor)
decode_sig_req r = do
  (seq, r) ← read_uvarint r
  (nonce, r) ← read_uvarint r
  ok (record { seq = seq; nonce = nonce }, r)

pub record SigRes : Type 0 where
  pub seq : ℕ
  pub nonce : ℕ
  pub port : PeerPort
  pub psig : Sig

pub encode_sig_res : SigRes → Bytes → Bytes
encode_sig_res m out =
    encode_uvarint (encode_uvarint (encode_uvarint out m.seq) m.nonce) m.port ++ m.psig

pub decode_sig_res : Cursor → Result (SigRes × Cursor)
decode_sig_res r = do
  (seq, r) ← read_uvarint r
  (nonce, r) ← read_uvarint r
  (port, r) ← read_uvarint r
  (psig, r) ← read_signature r
  ok (record { seq = seq; nonce = nonce; port = port; psig = psig }, r)

pub record Announce : Type 0 where
  pub key : PublicKey
  pub parent : PublicKey
  pub sig_res : SigRes
  pub sig : Sig

pub encode_announce : Announce → Bytes → Bytes
encode_announce m out = encode_sig_res m.sig_res ((out ++ m.key) ++ m.parent) ++ m.sig

-- `if !r.is_empty() { return Err(Error::Decode) }`, and then the message.
unfoldable pub finish {ℓ} : {A : Type ℓ} → A → Cursor → Result A
unfolding is_empty
finish m r = if is_empty r then ok m else err Error.decode

pub decode_announce : Bytes → Result Announce
decode_announce input = do
  (key, r) ← read_public_key input
  (parent, r) ← read_public_key r
  (sig_res, r) ← decode_sig_res r
  (sig, r) ← read_signature r
  finish (record { key = key; parent = parent; sig_res = sig_res; sig = sig }) r

pub record PathLookup : Type 0 where
  pub source : PublicKey
  pub dest : PublicKey
  pub from : List PeerPort

pub encode_path_lookup : PathLookup → Bytes → Bytes
encode_path_lookup m out = encode_path ((out ++ m.source) ++ m.dest) m.from

pub decode_path_lookup : Bytes → Result PathLookup
decode_path_lookup input = do
  (source, r) ← read_public_key input
  (dest, r) ← read_public_key r
  (from, r) ← read_path r
  finish (record { source = source; dest = dest; from = from }) r

pub record PathNotifyInfo : Type 0 where
  pub seq : ℕ
  pub path : List PeerPort
  pub sig : Sig

pub encode_path_notify_info : PathNotifyInfo → Bytes → Bytes
encode_path_notify_info m out = encode_path (encode_uvarint out m.seq) m.path ++ m.sig

pub decode_path_notify_info : Cursor → Result (PathNotifyInfo × Cursor)
decode_path_notify_info r = do
  (seq, r) ← read_uvarint r
  (path, r) ← read_path r
  (sig, r) ← read_signature r
  ok (record { seq = seq; path = path; sig = sig }, r)

pub record PathNotify : Type 0 where
  pub path : List PeerPort
  pub watermark : ℕ
  pub source : PublicKey
  pub dest : PublicKey
  pub info : PathNotifyInfo

pub encode_path_notify : PathNotify → Bytes → Bytes
encode_path_notify m out =
    encode_path_notify_info m.info
      ((encode_uvarint (encode_path out m.path) m.watermark ++ m.source) ++ m.dest)

pub decode_path_notify : Bytes → Result PathNotify
decode_path_notify input = do
  (path, r) ← read_path input
  (watermark, r) ← read_uvarint r
  (source, r) ← read_public_key r
  (dest, r) ← read_public_key r
  (info, r) ← decode_path_notify_info r
  finish (record { path = path; watermark = watermark; source = source; dest = dest; info = info })
      r

pub record PathBroken : Type 0 where
  pub path : List PeerPort
  pub watermark : ℕ
  pub source : PublicKey
  pub dest : PublicKey

pub encode_path_broken : PathBroken → Bytes → Bytes
encode_path_broken m out =
    (encode_uvarint (encode_path out m.path) m.watermark ++ m.source) ++ m.dest

pub decode_path_broken : Bytes → Result PathBroken
decode_path_broken input = do
  (path, r) ← read_path input
  (watermark, r) ← read_uvarint r
  (source, r) ← read_public_key r
  (dest, r) ← read_public_key r
  finish (record { path = path; watermark = watermark; source = source; dest = dest }) r

pub record Traffic : Type 0 where
  pub path : List PeerPort
  pub from : List PeerPort
  pub source : PublicKey
  pub dest : PublicKey
  pub watermark : ℕ
  pub payload : Bytes

unfoldable pub traffic_size : Traffic → ℕ
traffic_size m =
    path_size m.path
    + path_size m.from
    + public_key_size
    + public_key_size
    + uvarint_size m.watermark
    + length m.payload

unfoldable pub encode_traffic : Traffic → Bytes → Bytes
encode_traffic m out =
    encode_uvarint ((encode_path (encode_path out m.path) m.from ++ m.source) ++ m.dest) m.watermark
    ++ m.payload

-- The payload is the rest of the cursor.
pub decode_traffic : Bytes → Result Traffic
decode_traffic input = do
  (path, r) ← read_path input
  (from, r) ← read_path r
  (source, r) ← read_public_key r
  (dest, r) ← read_public_key r
  (watermark, r) ← read_uvarint r
  ok (record {
    path = path;
    from = from;
    source = source;
    dest = dest;
    watermark = watermark;
    payload = r;
  })
