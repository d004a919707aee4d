-- ===== src/Wire/Frame.antt =====
-- crates/ironwood/src/wire.rs: packet types and frames, `length | type | payload`.
pub mod RoundTrip
use yggdrasil_ng.Prelude.{
  ℕ, zero, suc, ◌+◌, ◌^◌, List, [], ◌∷◌, ◌++◌, ltb, leb, ◌==◌, if◌then◌else◌, length, take, drop,
}
use yggdrasil_ng.Prelude.Bytes.{Bytes}
use yggdrasil_ng.Prelude.Result.{Result, ok, err, stuck, Error, ok_or, ◌>>=◌}
use yggdrasil_ng.Wire.Uvarint.{encode_uvarint, decode_uvarint, uvarint_size}
use yggdrasil_ng.Wire.Path.{PeerPort, encode_path, path_size}
use yggdrasil_ng.Wire.Reader.{public_key_size}
use yggdrasil_ng.Wire.Message.{PublicKey}

pub data PacketType : Type 0 where
  dummy keep_alive proto_sig_req proto_sig_res proto_announce proto_bloom_filter : PacketType
  proto_path_lookup proto_path_notify proto_path_broken traffic : PacketType

-- `packet_type as u8`
unfoldable pub packet_byte : PacketType → ℕ
packet_byte PacketType.dummy = 0
packet_byte PacketType.keep_alive = 1
packet_byte PacketType.proto_sig_req = 2
packet_byte PacketType.proto_sig_res = 3
packet_byte PacketType.proto_announce = 4
packet_byte PacketType.proto_bloom_filter = 5
packet_byte PacketType.proto_path_lookup = 6
packet_byte PacketType.proto_path_notify = 7
packet_byte PacketType.proto_path_broken = 8
packet_byte PacketType.traffic = 9

unfoldable pub try_from : ℕ → Result PacketType
try_from v =
    if v == 0
    then ok PacketType.dummy
    else if v == 1
    then ok PacketType.keep_alive
    else if v == 2
    then ok PacketType.proto_sig_req
    else if v == 3
    then ok PacketType.proto_sig_res
    else if v == 4
    then ok PacketType.proto_announce
    else if v == 5
    then ok PacketType.proto_bloom_filter
    else if v == 6
    then ok PacketType.proto_path_lookup
    else if v == 7
    then ok PacketType.proto_path_notify
    else if v == 8
    then ok PacketType.proto_path_broken
    else if v == 9
    then ok PacketType.traffic
    else err Error.unrecognized_message

pub encode_frame : PacketType → Bytes → Bytes
encode_frame packet_type payload =
    let content_len = 1 + length payload in
    (encode_uvarint [] content_len ++ (packet_byte packet_type ∷ [])) ++ payload

-- One buffer for a traffic packet: no intermediate message, no copy of it.
pub encode_traffic_frame : List PeerPort → List PeerPort → PublicKey → PublicKey → ℕ → Bytes → Bytes
encode_traffic_frame path from source dest watermark payload =
    let content_len =
      1
      + path_size path
      + path_size from
      + public_key_size
      + public_key_size
      + uvarint_size watermark
      + length payload in
    let frame = encode_uvarint [] content_len ++ (packet_byte PacketType.traffic ∷ []) in
    let frame = encode_path (encode_path frame path) from in
    encode_uvarint ((frame ++ source) ++ dest) watermark ++ payload

-- `&content[1..]` behind the test for an empty content.
split_content : Bytes → ℕ → Result (PacketType × Bytes × ℕ)
split_content [] total = err Error.decode
split_content (byte ∷ payload) total = do
  packet_type ← try_from byte
  ok (packet_type, payload, total)

-- `len_bytes + length` is a usize: past 2 ^ 64 the Rust function panics, which is `stuck` here.
pub decode_frame : Bytes → Result (PacketType × Bytes × ℕ)
unfolding split_content
decode_frame input = do
  (len, len_bytes) ← ok_or (decode_uvarint input) Error.decode
  let total = len_bytes + len
  if leb (2 ^ 64) total
      then stuck
      else if ltb (length input) total
      then err Error.decode
      else split_content (take len (drop len_bytes input)) total
