-- ===== src/Wire/Message/RoundTrip.antt =====
-- Every decoder reads back what its encoder wrote.
use yggdrasil_ng.Prelude.{
  ◌≡◌, [], ◌++◌, append_assoc, append-nil, length, length-append, arith, List, All,
}
use yggdrasil_ng.Prelude.Bytes.{Bytes}
use yggdrasil_ng.Prelude.Result.{ok}
use yggdrasil_ng.Wire.Path.{PeerPort, IsPort}
use yggdrasil_ng.Wire.Path.RoundTrip.{path_bytes, path_size-length, uvarint_bytes-length}
use yggdrasil_ng.Wire.Reader.{
  read_signature, read_path, read_public_key, public_key_size, signature_size, read_uvarint-bytes,
  read_path-bytes, read_public_key-append, read_signature-append,
}
use yggdrasil_ng.Wire.Message.{
  SigReq, SigRes, Announce, PathLookup, PathNotifyInfo, PathNotify, PathBroken, Traffic, finish,
  encode_sig_req, decode_sig_req, encode_sig_res, decode_sig_res, encode_announce, decode_announce,
  encode_path_lookup, decode_path_lookup, decode_path_notify_info, encode_path_notify,
  decode_path_notify, encode_path_broken, decode_path_broken, encode_traffic, decode_traffic,
  traffic_size,
}
use yggdrasil_ng.Wire.Message.Valid.{
  IsSigReq, IsSigRes, IsAnnounce, IsPathLookup, IsPathNotifyInfo, IsPathNotify, IsPathBroken,
  IsTraffic,
}
use yggdrasil_ng.Wire.Message.Layout.{
  to_bytes, sig_res_bytes, encode_sig_res-bytes, info_bytes, encode_path_notify_info-bytes,
}

-- A signature request is read back, and what follows it stays in the cursor.
pub decode_sig_req-encode :
    (m : SigReq) (rest : Bytes)
    → IsSigReq m
    → decode_sig_req (encode_sig_req m [] ++ rest) ≡ ok (m, rest)
unfolding encode_sig_req decode_sig_req
decode_sig_req-encode m rest h =
    simp (to_bytes, read_uvarint-bytes m.seq h.seq, read_uvarint-bytes m.nonce h.nonce)

decode_sig_res-bytes :
    (m : SigRes)
    → IsSigRes m
    → (rest : Bytes) → decode_sig_res (sig_res_bytes m ++ rest) ≡ ok (m, rest)
unfolding decode_sig_res sig_res_bytes
decode_sig_res-bytes m h rest = simp (
  to_bytes,
  read_uvarint-bytes m.seq h.seq,
  read_uvarint-bytes m.nonce h.nonce,
  read_uvarint-bytes m.port h.port,
  read_signature-append m.psig h.psig,
)

-- A signature response is read back, and what follows it stays in the cursor.
pub decode_sig_res-encode :
    (m : SigRes) (rest : Bytes)
    → IsSigRes m
    → decode_sig_res (encode_sig_res m [] ++ rest) ≡ ok (m, rest)
decode_sig_res-encode m rest h = rw encode_sig_res-bytes (decode_sig_res-bytes m h rest)

-- At the end of a message the cursor is empty.
read_signature-last :
    (sig : Bytes) → length sig ≡ signature_size → read_signature sig ≡ ok (sig, [])
read_signature-last sig h = rw append-nil at (read_signature-append sig h [])

-- An announcement within its widths is read back from its encoding.
pub decode_announce-encode :
    (m : Announce) → IsAnnounce m → decode_announce (encode_announce m []) ≡ ok m
unfolding encode_announce decode_announce finish
decode_announce-encode m h = simp (
  encode_sig_res-bytes,
  append_assoc,
  read_public_key-append m.key h.key,
  read_public_key-append m.parent h.parent,
  decode_sig_res-bytes m.sig_res h.sig_res,
  read_signature-last m.sig h.sig,
)

read_path-last :
    (path : List PeerPort) → All IsPort path → read_path (path_bytes path) ≡ ok (path, [])
read_path-last path h = rw append-nil at (read_path-bytes path h [])

read_public_key-last :
    (key : Bytes) → length key ≡ public_key_size → read_public_key key ≡ ok (key, [])
read_public_key-last key h = rw append-nil at (read_public_key-append key h [])

-- A path lookup within its widths is read back from its encoding.
pub decode_path_lookup-encode :
    (m : PathLookup) → IsPathLookup m → decode_path_lookup (encode_path_lookup m []) ≡ ok m
unfolding encode_path_lookup decode_path_lookup finish
decode_path_lookup-encode m h = simp (
  to_bytes,
  read_public_key-append m.source h.source,
  read_public_key-append m.dest h.dest,
  read_path-last m.from h.from,
)

info_last :
    (m : PathNotifyInfo) → IsPathNotifyInfo m → decode_path_notify_info (info_bytes m) ≡ ok (m, [])
unfolding decode_path_notify_info info_bytes
info_last m h =
    simp (
      read_uvarint-bytes m.seq h.seq,
      read_path-bytes m.path h.path,
      read_signature-last m.sig h.sig,
    )

-- A path notification within its widths is read back from its encoding.
pub decode_path_notify-encode :
    (m : PathNotify) → IsPathNotify m → decode_path_notify (encode_path_notify m []) ≡ ok m
unfolding encode_path_notify decode_path_notify finish
decode_path_notify-encode m h = simp (
  encode_path_notify_info-bytes,
  to_bytes,
  read_path-bytes m.path h.path,
  read_uvarint-bytes m.watermark h.watermark,
  read_public_key-append m.source h.source,
  read_public_key-append m.dest h.dest,
  info_last m.info h.info,
)

-- A path broken message is read back from its encoding.
pub decode_path_broken-encode :
    (m : PathBroken) → IsPathBroken m → decode_path_broken (encode_path_broken m []) ≡ ok m
unfolding encode_path_broken decode_path_broken finish
decode_path_broken-encode m h = simp (
  to_bytes,
  read_path-bytes m.path h.path,
  read_uvarint-bytes m.watermark h.watermark,
  read_public_key-append m.source h.source,
  read_public_key-last m.dest h.dest,
)

-- A traffic packet within its widths is read back from its encoding.
pub decode_traffic-encode :
    (m : Traffic) → IsTraffic m → decode_traffic (encode_traffic m []) ≡ ok m
unfolding encode_traffic decode_traffic
decode_traffic-encode m h = simp (
  to_bytes,
  read_path-bytes m.path h.path,
  read_path-bytes m.from h.from,
  read_public_key-append m.source h.source,
  read_public_key-append m.dest h.dest,
  read_uvarint-bytes m.watermark h.watermark,
)

-- Traffic::size is the number of bytes of the encoding.
pub traffic_size-encode :
    (m : Traffic) → IsTraffic m → length (encode_traffic m []) ≡ traffic_size m
unfolding encode_traffic traffic_size
traffic_size-encode m h =
    simp (to_bytes, length-append)
      (omega (
        arith,
        path_size-length m.path h.path,
        path_size-length m.from h.from,
        uvarint_bytes-length m.watermark h.watermark,
        h.source,
        h.dest,
      ))
