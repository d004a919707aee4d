-- ===== src/Wire/Reader.antt =====
-- crates/ironwood/src/wire.rs: `WireReader`, a cursor over a byte slice. The cursor is the rest of
-- the bytes; a read returns it with the value. A read that fails leaves the caller with the error.
use yggdrasil_ng.Prelude.{
  ℕ, ◌≡◌, List, [], ◌∷◌, ◌++◌, Bool, true, false, ltb, if◌then◌else◌, length, take, drop, All,
  arith, length-append, take-append, drop-append,
}
use yggdrasil_ng.Prelude.Bytes.{Bytes}
use yggdrasil_ng.Prelude.Result.{Result, ok, err, Error, ok_or, ◌>>=◌}
use yggdrasil_ng.Wire.Uvarint.{decode_uvarint, IsU64}
use yggdrasil_ng.Wire.Path.{PeerPort, IsPort, decode_path}
use yggdrasil_ng.Wire.Path.RoundTrip.{
  uvarint_bytes, path_bytes, decode_uvarint-bytes, decode_path-bytes,
}

abbrev pub Cursor : Type 0
Cursor = Bytes

unfoldable pub is_empty : Cursor → Bool
is_empty [] = true
is_empty (b ∷ r) = false

unfoldable pub read_uvarint : Cursor → Result (ℕ × Cursor)
read_uvarint r = do (value, len) ← ok_or (decode_uvarint r) Error.decode; ok (value, drop len r)

unfoldable pub read_fixed : ℕ → Cursor → Result (Bytes × Cursor)
read_fixed n r = if ltb (length r) n then err Error.decode else ok (take n r, drop n r)

abbrev pub public_key_size : ℕ
public_key_size = 32

abbrev pub signature_size : ℕ
signature_size = 64

pub read_public_key : Cursor → Result (Bytes × Cursor)
read_public_key r = read_fixed public_key_size r

pub read_signature : Cursor → Result (Bytes × Cursor)
read_signature r = read_fixed signature_size r

pub read_path : Cursor → Result (List PeerPort × Cursor)
read_path r = do (path, consumed) ← decode_path r; ok (path, drop consumed r)

-- Each read takes what its encoding wrote from the front.
pub read_uvarint-bytes :
    (v : ℕ) → IsU64 v → (rest : Bytes) → read_uvarint (uvarint_bytes v ++ rest) ≡ ok (v, rest)
unfolding read_uvarint
read_uvarint-bytes v h rest = rw (decode_uvarint-bytes v h rest, drop-append (uvarint_bytes v) rest)

pub read_path-bytes :
    (path : List PeerPort)
    → All IsPort path
    → (rest : Bytes) → read_path (path_bytes path ++ rest) ≡ ok (path, rest)
unfolding read_path
read_path-bytes path h rest = rw (decode_path-bytes path h rest, drop-append (path_bytes path) rest)

pub read_fixed-append :
    (n : ℕ) (field : Bytes)
    → length field ≡ n
    → (rest : Bytes) → read_fixed n (field ++ rest) ≡ ok (field, rest)
unfolding read_fixed
read_fixed-append n field h rest =
    rw (← h)
      (ground (arith, take-append field rest, drop-append field rest, length-append field rest))

pub read_public_key-append :
    (key : Bytes)
    → length key ≡ public_key_size
    → (rest : Bytes) → read_public_key (key ++ rest) ≡ ok (key, rest)
unfolding read_public_key
read_public_key-append key h rest = read_fixed-append public_key_size key h rest

pub read_signature-append :
    (sig : Bytes)
    → length sig ≡ signature_size
    → (rest : Bytes) → read_signature (sig ++ rest) ≡ ok (sig, rest)
unfolding read_signature
read_signature-append sig h rest = read_fixed-append signature_size sig h rest
