-- ===== src/Wire/Path.antt =====
-- crates/ironwood/src/wire.rs: paths, sequences of port numbers that a zero ends.
pub mod RoundTrip
use yggdrasil_ng.Prelude.{
  ℕ, zero, suc, ◌+◌, ◌<◌, List, [], ◌∷◌, ◌++◌, ◌==◌, if◌then◌else◌, length, drop,
}
use yggdrasil_ng.Prelude.Bytes.{Bytes}
use yggdrasil_ng.Prelude.Result.{Result, ok, stuck, Error, ok_or, ◌>>=◌}
use yggdrasil_ng.Wire.Uvarint.{encode_uvarint, decode_uvarint, uvarint_size, IsU64}

abbrev pub PeerPort : Type 0
PeerPort = ℕ

-- Zero ends a path on the wire, so no port of a path is zero.
abbrev pub IsPort : PeerPort → Type 0
IsPort port = (0 < port) × IsU64 port

encode_ports : Bytes → List PeerPort → Bytes
encode_ports out [] = out
encode_ports out (port ∷ path) = encode_ports (encode_uvarint out port) path

pub encode_path : Bytes → List PeerPort → Bytes
unfolding encode_ports
encode_path out path = encode_uvarint (encode_ports out path) 0

unfoldable pub ports_size : ℕ → List PeerPort → ℕ
ports_size size [] = size
ports_size size (port ∷ path) = ports_size (size + uvarint_size port) path

unfoldable pub path_size : List PeerPort → ℕ
unfolding ports_size
path_size path = ports_size 0 path + uvarint_size 0

decode_path_loop : ℕ → Bytes → ℕ → List PeerPort → Result (List PeerPort × ℕ)
decode_path_loop zero input offset path = stuck
decode_path_loop (suc fuel) input offset path = do
  (value, len) ← ok_or (decode_uvarint (drop offset input)) Error.decode
  let rest = decode_path_loop fuel input (offset + len) (path ++ (value ∷ []))
  if value == 0 then ok (path, offset + len) else rest

-- Each round takes a byte at least, so one round more than there are bytes is enough.
pub decode_path : Bytes → Result (List PeerPort × ℕ)
decode_path input = decode_path_loop (length input + 1) input 0 []
