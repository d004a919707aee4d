-- ===== src/Wire/Uvarint.antt =====
-- crates/ironwood/src/wire.rs: unsigned LEB128 integers. A byte slice is a list of numbers, an
-- output buffer is an argument that is appended to, and u64 arithmetic is modulo 2 ^ 64.
pub mod Encode
pub mod Decode
pub mod RoundTrip
use yggdrasil_ng.Prelude.{
  ℕ, zero, suc, ◌+◌, ◌*◌, ◌/◌, ◌%◌, ◌^◌, ◌<◌, bit_and, bit_or, List, [], ◌∷◌, ◌++◌, Option, none,
  some, ◌&&◌, ltb, leb, ◌==◌, if◌then◌else◌,
}
use yggdrasil_ng.Prelude.Bytes.{Bytes}

abbrev pub IsU64 : ℕ → Type 0
IsU64 v = v < 2 ^ 64

-- At most `fuel` rounds of the loop. `value >>= 7` is `value / 128`.
unfoldable pub encode_loop : ℕ → Bytes → ℕ → Bytes
encode_loop zero out value = out
encode_loop (suc fuel) out value =
    let byte = bit_and value 0x7f % 256 in
    let shifted = value / 128 in
    let more = encode_loop fuel (out ++ (bit_or byte 0x80 ∷ [])) shifted in
    if shifted == 0 then out ++ (byte ∷ []) else more

-- Ten rounds are enough for a u64.
unfoldable pub encode_uvarint : Bytes → ℕ → Bytes
encode_uvarint out value = encode_loop 10 out value

-- The list is what the iteration has not reached, `i` the index of its head.
pub decode_loop : Bytes → ℕ → ℕ → ℕ → Option (ℕ × ℕ)
decode_loop [] value shift i = none
decode_loop (byte ∷ rest) value shift i =
    let value' = bit_or value (bit_and byte 0x7f * 2 ^ shift % 2 ^ 64) in
    let next = decode_loop rest value' (shift + 7) (i + 1) in
    if leb 63 shift && ltb 1 byte
    then none
    else if bit_and byte 0x80 == 0
    then some (value', i + 1)
    else if leb 9 i
    then none
    else next

pub decode_uvarint : Bytes → Option (ℕ × ℕ)
decode_uvarint input = decode_loop input 0 0 0

unfoldable pub size_loop : ℕ → ℕ → ℕ → ℕ
size_loop zero value size = size
size_loop (suc fuel) value size =
    let more = size_loop fuel (value / 128) (size + 1) in if leb 0x80 value then more else size

-- The loop leaves a u64 below 0x80 in nine rounds at most.
unfoldable pub uvarint_size : ℕ → ℕ
uvarint_size value = size_loop 9 value 1
