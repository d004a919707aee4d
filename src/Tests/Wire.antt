-- ===== src/Tests/Wire.antt =====
-- crates/ironwood/src/wire.rs: the theorems on the encodings at concrete messages.
use yggdrasil_ng.Prelude.{
  ℕ, zero, suc, replicate, ◌+◌, ◌≡◌, ◌↔◌, refl, List, [], ◌∷◌, ◌++◌, none, some, length, All, arith,
}
use yggdrasil_ng.Prelude.Result.{ok}
use yggdrasil_ng.Wire.Uvarint.{IsU64, encode_uvarint, decode_uvarint, uvarint_size, encode_loop}
use yggdrasil_ng.Wire.Uvarint.Encode.{uvarint_size-encode}
use yggdrasil_ng.Wire.Uvarint.RoundTrip.{decode_uvarint-encode_uvarint, decode_uvarint_truncated}
use yggdrasil_ng.Wire.Path.{PeerPort, IsPort, encode_path, decode_path, path_size}
use yggdrasil_ng.Wire.Path.RoundTrip.{decode_path-encode_path, path_size-encode_path}
use yggdrasil_ng.Wire.Message.{
  SigReq, SigRes, PathBroken, encode_sig_req, decode_sig_req, encode_sig_res, decode_sig_res,
  encode_path_broken, decode_path_broken,
}
use yggdrasil_ng.Wire.Message.Valid.{IsSigRes}
use yggdrasil_ng.Wire.Message.RoundTrip.{
  decode_sig_req-encode, decode_sig_res-encode, decode_path_broken-encode,
}
use yggdrasil_ng.Wire.Bloom.{all_ones, encode_bloom, decode_bloom}
use yggdrasil_ng.Wire.Bloom.RoundTrip.{decode_bloom-encode_bloom}
use yggdrasil_ng.Wire.Frame.{PacketType, packet_byte, try_from, encode_frame, decode_frame}
use yggdrasil_ng.Wire.Frame.RoundTrip.{try_from_iff, decode_frame-encode_frame}
use yggdrasil_ng.Tests.{key_a, key_b, some_sig}

decode_uvarint-encode_uvarint_example :
    decode_uvarint (encode_uvarint [] 300 ++ (7 ∷ [])) ≡ some (300, length (encode_uvarint [] 300))
decode_uvarint-encode_uvarint_example = decode_uvarint-encode_uvarint 300 (7 ∷ []) (omega arith)

encode_300 : encode_uvarint [] 300 ≡ (172 ∷ []) ++ (2 ∷ [])
unfolding encode_uvarint encode_loop
encode_300 = refl

decode_uvarint_truncated_example : decode_uvarint (172 ∷ []) ≡ none
decode_uvarint_truncated_example =
    decode_uvarint_truncated 300 2 (172 ∷ []) [] (omega arith) encode_300

uvarint_size-encode_example : uvarint_size 300 ≡ length (encode_uvarint [] 300)
uvarint_size-encode_example = uvarint_size-encode 300 (omega arith)

abbrev some_path : List PeerPort
some_path = 3 ∷ 200 ∷ []

some_path-IsPort : All IsPort some_path
some_path-IsPort = ((omega arith, omega arith), ((omega arith, omega arith), tt))

decode_path-encode_path_example :
    decode_path (encode_path [] some_path ++ (7 ∷ []))
    ≡ ok (some_path, length (encode_path [] some_path))
decode_path-encode_path_example = decode_path-encode_path some_path (7 ∷ []) some_path-IsPort

path_size-encode_path_example : length (encode_path (5 ∷ []) some_path) ≡ 1 + path_size some_path
path_size-encode_path_example = path_size-encode_path (5 ∷ []) some_path some_path-IsPort

abbrev some_sig_req : SigReq
some_sig_req = record { seq = 300; nonce = 4 }

decode_sig_req-encode_example :
    decode_sig_req (encode_sig_req some_sig_req [] ++ (7 ∷ [])) ≡ ok (some_sig_req, 7 ∷ [])
decode_sig_req-encode_example =
    decode_sig_req-encode some_sig_req (7 ∷ []) (record { seq = omega arith; nonce = omega arith })

abbrev some_sig_res : SigRes
some_sig_res = record { seq = 300; nonce = 4; port = 2; psig = some_sig }

some_sig_res-IsSigRes : IsSigRes some_sig_res
some_sig_res-IsSigRes = record {
  seq = omega arith;
  nonce = omega arith;
  port = omega arith;
  psig = refl;
}

decode_sig_res-encode_example :
    decode_sig_res (encode_sig_res some_sig_res [] ++ (7 ∷ [])) ≡ ok (some_sig_res, 7 ∷ [])
decode_sig_res-encode_example = decode_sig_res-encode some_sig_res (7 ∷ []) some_sig_res-IsSigRes

abbrev some_broken : PathBroken
some_broken = record { path = some_path; watermark = 9; source = key_a; dest = key_b }

decode_path_broken-encode_example :
    decode_path_broken (encode_path_broken some_broken []) ≡ ok some_broken
decode_path_broken-encode_example =
    decode_path_broken-encode some_broken
      (record { path = some_path-IsPort; watermark = omega arith; source = refl; dest = refl })

try_from_iff_example : (try_from 9 ≡ ok PacketType.traffic) ↔ (9 ≡ packet_byte PacketType.traffic)
try_from_iff_example = try_from_iff 9 PacketType.traffic

decode_frame-encode_frame_example :
    decode_frame (encode_frame PacketType.traffic (1 ∷ 2 ∷ []) ++ (7 ∷ []))
    ≡ ok (PacketType.traffic, 1 ∷ 2 ∷ [], length (encode_frame PacketType.traffic (1 ∷ 2 ∷ [])))
decode_frame-encode_frame_example =
    decode_frame-encode_frame PacketType.traffic (1 ∷ 2 ∷ []) (7 ∷ []) (omega arith)

sevens : (n : ℕ) → All IsU64 (replicate n 7)
sevens zero = tt
sevens (suc n) = (omega arith, sevens n)

-- A filter with a word of each kind.
abbrev some_words : List ℕ
some_words = 0 ∷ all_ones ∷ 1 ∷ replicate 125 7

some_words-IsU64 : All IsU64 some_words
some_words-IsU64 = (omega arith, (omega arith, (omega arith, sevens 125)))

decode_bloom-encode_bloom_example : decode_bloom (encode_bloom some_words []) ≡ ok some_words
decode_bloom-encode_bloom_example = decode_bloom-encode_bloom some_words refl some_words-IsU64
