-- ===== src/Wire/Path/RoundTrip.antt =====
-- Paths are read back from their encoding, and decoding ends on every input.
use yggdrasil_ng.Prelude.{
  ℕ, zero, suc, ◌+◌, ◌-◌, ◌≤◌, ◌<◌, ◌≡◌, ◌≢◌, sym, ap, ◌∙◌, List, [], ◌∷◌, ◌++◌, some, arith,
  length, length-append, length-drop, drop, drop-append, inl, inr, append-nil, append_assoc,
  Option-cases, All,
}
use yggdrasil_ng.Prelude.Bytes.{Bytes}
use yggdrasil_ng.Prelude.Result.{ok, stuck}
use yggdrasil_ng.Wire.Uvarint.{encode_uvarint, decode_uvarint, uvarint_size, IsU64}
use yggdrasil_ng.Wire.Uvarint.Encode.{
  encode_uvarint-append, uvarint_size-encode, encode_uvarint-length,
}
use yggdrasil_ng.Wire.Uvarint.Decode.{decode_uvarint-bounds}
use yggdrasil_ng.Wire.Uvarint.RoundTrip.{decode_uvarint-encode_uvarint}
use yggdrasil_ng.Wire.Path.{
  PeerPort, IsPort, encode_ports, encode_path, ports_size, path_size, decode_path_loop, decode_path,
}

-- What encoding a number or a path adds to a buffer.
pub uvarint_bytes : ℕ → Bytes
uvarint_bytes v = encode_uvarint [] v

pub path_bytes : List PeerPort → Bytes
path_bytes [] = uvarint_bytes 0
path_bytes (port ∷ path) = uvarint_bytes port ++ path_bytes path

pub encode_uvarint-bytes : (out : Bytes) (v : ℕ) → encode_uvarint out v ≡ out ++ uvarint_bytes v
unfolding uvarint_bytes
encode_uvarint-bytes out v = encode_uvarint-append out v

encode_ports-bytes :
    (path : List PeerPort) (out : Bytes)
    → encode_uvarint (encode_ports out path) 0 ≡ out ++ path_bytes path
unfolding encode_ports path_bytes
encode_ports-bytes [] out = encode_uvarint-bytes out 0
encode_ports-bytes (port ∷ path) out =
    encode_ports-bytes path (encode_uvarint out port)
    ∙ ap (λ t. t ++ path_bytes path) (encode_uvarint-bytes out port)
    ∙ append_assoc out (uvarint_bytes port) (path_bytes path)

pub encode_path-bytes :
    (out : Bytes) (path : List PeerPort) → encode_path out path ≡ out ++ path_bytes path
unfolding encode_path
encode_path-bytes out path = encode_ports-bytes path out

pub uvarint_bytes-length : (v : ℕ) → IsU64 v → length (uvarint_bytes v) ≡ uvarint_size v
unfolding uvarint_bytes
uvarint_bytes-length v h = sym (uvarint_size-encode v h)

ports_size-length :
    (path : List PeerPort) (size : ℕ)
    → All IsPort path
    → ports_size size path + uvarint_size 0 ≡ size + length (path_bytes path)
unfolding ports_size path_bytes
ports_size-length [] size h = omega (arith, uvarint_bytes-length 0 (omega arith))
ports_size-length (port ∷ path) size (hp, h) = omega (
  arith,
  ports_size-length path (size + uvarint_size port) h,
  uvarint_bytes-length port hp.1,
  length-append (uvarint_bytes port) (path_bytes path),
)

pub path_size-length :
    (path : List PeerPort) → All IsPort path → path_size path ≡ length (path_bytes path)
unfolding path_size
path_size-length path h = omega (arith, ports_size-length path 0 h)

-- `path_size` is the number of bytes that `encode_path` adds.
pub path_size-encode_path :
    (out : Bytes) (path : List PeerPort)
    → All IsPort path
    → length (encode_path out path) ≡ length out + path_size path
path_size-encode_path out path h =
    rw encode_path-bytes
      (omega (arith, length-append out (path_bytes path), path_size-length path h))

pub decode_uvarint-bytes :
    (v : ℕ)
    → IsU64 v
    → (rest : Bytes) → decode_uvarint (uvarint_bytes v ++ rest) ≡ some (v, length (uvarint_bytes v))
unfolding uvarint_bytes
decode_uvarint-bytes v h rest = decode_uvarint-encode_uvarint v rest h

decode_path_loop-port :
    (fuel : ℕ) (input : Bytes) (offset len : ℕ) (port : PeerPort) (seen : List PeerPort)
    → 0 < port
    → decode_uvarint (drop offset input) ≡ some (port, len)
    → decode_path_loop (suc fuel) input offset seen
      ≡ decode_path_loop fuel input (offset + len) (seen ++ (port ∷ []))
unfolding decode_path_loop
decode_path_loop-port fuel input offset len port seen h e = rw e (ground arith)

-- `front` is what the loop has read.
decode_path_loop-bytes :
    (path : List PeerPort) (fuel : ℕ) (front rest : Bytes) (seen : List PeerPort)
    → All IsPort path
    → length path < fuel
    → decode_path_loop fuel (front ++ (path_bytes path ++ rest)) (length front) seen
      ≡ ok (seen ++ path, length front + length (path_bytes path))
unfolding decode_path_loop path_bytes
decode_path_loop-bytes path zero front rest seen h hf = absurd (omega arith)
decode_path_loop-bytes [] (suc fuel) front rest seen h hf =
    rw (drop-append front (uvarint_bytes 0 ++ rest), decode_uvarint-bytes 0 (omega arith) rest)
      (ap (λ t. ok (t, length front + length (uvarint_bytes 0))) (sym (append-nil seen)))
decode_path_loop-bytes (port ∷ path) (suc fuel) front rest seen (hp, h) hf =
    rw (append_assoc (uvarint_bytes port) (path_bytes path) rest) (
      decode_path_loop-port fuel _ (length front) (length (uvarint_bytes port)) port seen hp.0
        (rw (drop-append front) (decode_uvarint-bytes port hp.1 (path_bytes path ++ rest)))
      ∙ rw (append_assoc front, length-append front (uvarint_bytes port)) at
          (decode_path_loop-bytes path fuel (front ++ uvarint_bytes port) rest (seen ++ (port ∷ []))
            h (omega arith))
      ∙ ground (
        arith,
        append_assoc seen (port ∷ []) path,
        length-append (uvarint_bytes port) (path_bytes path),
      ))

uvarint_bytes-pos : (v : ℕ) → 1 ≤ length (uvarint_bytes v)
unfolding uvarint_bytes
uvarint_bytes-pos v = (encode_uvarint-length v).0

path_bytes-longer : (path : List PeerPort) → length path < length (path_bytes path)
unfolding path_bytes
path_bytes-longer [] = uvarint_bytes-pos 0
path_bytes-longer (port ∷ path) = omega (
  arith,
  uvarint_bytes-pos port,
  path_bytes-longer path,
  length-append (uvarint_bytes port) (path_bytes path),
)

pub decode_path-bytes :
    (path : List PeerPort)
    → All IsPort path
    → (rest : Bytes) → decode_path (path_bytes path ++ rest) ≡ ok (path, length (path_bytes path))
unfolding decode_path
decode_path-bytes path h rest =
    decode_path_loop-bytes path _ [] rest [] h
      (omega (arith, length-append (path_bytes path) rest, path_bytes-longer path))
    ∙ ground arith

-- A path of nonzero u64 ports is read back with its length, whatever follows.
pub decode_path-encode_path :
    (path : List PeerPort) (rest : Bytes)
    → All IsPort path
    → decode_path (encode_path [] path ++ rest) ≡ ok (path, length (encode_path [] path))
decode_path-encode_path path rest h = rw encode_path-bytes (decode_path-bytes path h rest)

decode_path_loop-ne-stuck :
    (fuel : ℕ) (input : Bytes) (offset : ℕ) (seen : List PeerPort)
    → length input - offset < fuel
    → decode_path_loop fuel input offset seen ≢ stuck
unfolding decode_path_loop
decode_path_loop-ne-stuck zero input offset seen h = absurd (omega arith)
decode_path_loop-ne-stuck (suc fuel) input offset seen h =
    elim (Option-cases (decode_uvarint (drop offset input))) [
      | inl failed ↦ rw failed (λ e. cc)
      | inr ((value, len), done) ↦ rw done (
          ground (
            arith,
            decode_uvarint-bounds (drop offset input) value len done,
            length-drop offset input,
            decode_path_loop-ne-stuck fuel input (offset + len) (seen ++ (value ∷ [])),
          ))
    ]

-- Decoding a path ends on every input.
pub decode_path-ne-stuck : (input : Bytes) → decode_path input ≢ stuck
unfolding decode_path
decode_path-ne-stuck input = decode_path_loop-ne-stuck _ input 0 [] (omega arith)
