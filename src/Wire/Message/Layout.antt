-- ===== src/Wire/Message/Layout.antt =====
-- What each encoder appends.
use yggdrasil_ng.Prelude.{◌≡◌, ◌++◌, append_assoc}
use yggdrasil_ng.Prelude.Bytes.{Bytes}
use yggdrasil_ng.Wire.Path.RoundTrip.{
  uvarint_bytes, path_bytes, encode_uvarint-bytes, encode_path-bytes,
}
use yggdrasil_ng.Wire.Message.{SigRes, PathNotifyInfo, encode_sig_res, encode_path_notify_info}

pub ruleset to_bytes = (encode_uvarint-bytes, encode_path-bytes, append_assoc)

unfoldable pub sig_res_bytes : SigRes → Bytes
sig_res_bytes m = uvarint_bytes m.seq ++ (uvarint_bytes m.nonce ++ (uvarint_bytes m.port ++ m.psig))

pub encode_sig_res-bytes :
    (m : SigRes) (out : Bytes) → encode_sig_res m out ≡ out ++ sig_res_bytes m
unfolding encode_sig_res sig_res_bytes
encode_sig_res-bytes m out = simp to_bytes

unfoldable pub info_bytes : PathNotifyInfo → Bytes
info_bytes m = uvarint_bytes m.seq ++ (path_bytes m.path ++ m.sig)

pub encode_path_notify_info-bytes :
    (m : PathNotifyInfo) (out : Bytes) → encode_path_notify_info m out ≡ out ++ info_bytes m
unfolding encode_path_notify_info info_bytes
encode_path_notify_info-bytes m out = simp to_bytes
