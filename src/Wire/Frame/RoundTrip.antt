-- ===== src/Wire/Frame/RoundTrip.antt =====
-- Frames are read back, and the traffic fast path writes the frame of the traffic message.
use yggdrasil_ng.Prelude.{
  ℕ, ◌+◌, ◌^◌, ◌≤◌, ◌<◌, ◌≡◌, ◌↔◌, refl, ◌∙◌, [], ◌∷◌, ◌++◌, arith, length, length-append, take,
  drop, take-append, drop-append, append_assoc, some,
}
use yggdrasil_ng.Prelude.Bytes.{Bytes}
use yggdrasil_ng.Prelude.Result.{ok}
use yggdrasil_ng.Wire.Uvarint.{encode_uvarint, decode_uvarint}
use yggdrasil_ng.Wire.Uvarint.Encode.{encode_uvarint-length}
use yggdrasil_ng.Wire.Uvarint.RoundTrip.{decode_uvarint-encode_uvarint}
use yggdrasil_ng.Wire.Path.{path_size}
use yggdrasil_ng.Wire.Uvarint.{uvarint_size}
use yggdrasil_ng.Wire.Reader.{public_key_size}
use yggdrasil_ng.Wire.Message.{Traffic, encode_traffic, traffic_size}
use yggdrasil_ng.Wire.Message.Valid.{IsTraffic}
use yggdrasil_ng.Wire.Message.Layout.{to_bytes}
use yggdrasil_ng.Wire.Message.RoundTrip.{traffic_size-encode}
use yggdrasil_ng.Wire.Frame.{
  PacketType, packet_byte, try_from, encode_frame, encode_traffic_frame, split_content,
  decode_frame,
}

try_from-packet_byte : (t : PacketType) → try_from (packet_byte t) ≡ ok t
unfolding try_from packet_byte
try_from-packet_byte PacketType.dummy = refl
try_from-packet_byte _ = refl

-- `try_from` accepts exactly the bytes of the packet types.
pub try_from_iff : (v : ℕ) (t : PacketType) → (try_from v ≡ ok t) ↔ (v ≡ packet_byte t)
unfolding try_from packet_byte
try_from_iff v PacketType.dummy = ground arith
try_from_iff v _ = ground arith

decode_frame_step :
    (input : Bytes) (len len_bytes : ℕ)
    → decode_uvarint input ≡ some (len, len_bytes)
    → len_bytes + len < 2 ^ 64
    → len_bytes + len ≤ length input
    → decode_frame input ≡ split_content (take len (drop len_bytes input)) (len_bytes + len)
unfolding decode_frame
decode_frame_step input len len_bytes e small fits = rw e (ground arith)

split_content-content :
    (t : PacketType) (payload : Bytes) (total : ℕ)
    → split_content (packet_byte t ∷ payload) total ≡ ok (t, payload, total)
unfolding split_content
split_content-content t payload total = rw (try_from-packet_byte t)

-- `head` is the encoding of the length of `content`.
frame_content :
    (head content rest : Bytes) (n : ℕ)
    → length content ≡ n
    → take n (drop (length head) (head ++ (content ++ rest))) ≡ content
frame_content head content rest n e =
    rw (drop-append head (content ++ rest), ← e) (take-append content rest)

-- A frame with a payload shorter than 2^63 bytes is read back with its type, payload and size,
-- whatever follows.
pub decode_frame-encode_frame :
    (t : PacketType) (payload rest : Bytes)
    → length payload < 2 ^ 63
    → decode_frame (encode_frame t payload ++ rest)
      ≡ ok (t, payload, length (encode_frame t payload))
unfolding encode_frame
decode_frame-encode_frame t payload rest h =
    let head : Bytes = encode_uvarint [] (1 + length payload) in
    let content : Bytes = packet_byte t ∷ payload in
    let size = length-append head (content ++ rest) in
    let inner = length-append content rest in
    let short = (encode_uvarint-length (1 + length payload)).1 in
    rw (append_assoc head, append_assoc head)
      (decode_frame_step (head ++ (content ++ rest)) (1 + length payload) (length head)
          (decode_uvarint-encode_uvarint (1 + length payload) (content ++ rest) (omega arith))
          (omega arith) (omega (arith, size, inner))
        ∙ rw (frame_content head content rest (1 + length payload) (omega arith)) (
            split_content-content t payload (length head + (1 + length payload))
            ∙ ground (arith, length-append head content)))

content_len :
    (m : Traffic)
    → IsTraffic m
    → 1
        + path_size m.path
        + path_size m.from
        + public_key_size
        + public_key_size
        + uvarint_size m.watermark
        + length m.payload
      ≡ 1 + length (encode_traffic m [])
unfolding traffic_size
content_len m h = omega (arith, traffic_size-encode m h)

-- The one-buffer traffic frame is the frame of the encoded traffic message.
pub encode_traffic_frame-encode_frame :
    (m : Traffic)
    → IsTraffic m
    → encode_traffic_frame m.path m.from m.source m.dest m.watermark m.payload
      ≡ encode_frame PacketType.traffic (encode_traffic m [])
unfolding encode_traffic_frame encode_frame
encode_traffic_frame-encode_frame m h =
    rw (content_len m h) (unfold encode_traffic in simp to_bytes)
