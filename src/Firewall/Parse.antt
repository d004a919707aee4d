-- ===== src/Firewall/Parse.antt =====
-- crates/yggdrasil/src/firewall.rs: `parse`, with the reads that are out of bounds as panics.
use yggdrasil_ng.Prelude.{
  ℕ, zero, suc, ◌+◌, ◌*◌, ◌/◌, none, some, Bool, true, false, ◌||◌, not, ltb, ◌==◌, if◌then◌else◌,
  length, get_elem?, take, drop,
}
use yggdrasil_ng.Prelude.Bytes.{Bytes}
use yggdrasil_ng.Firewall.{
  proto_tcp, proto_udp, proto_icmpv6, icmp_echo_request, icmp_echo_reply, is_tracked,
}

-- The result of code that may index out of bounds: `Some`, `None` or a panic.
pub data Read {ℓ} (A : Type ℓ) : Type ℓ where
  value : A → Read A
  no_value : Read A
  panic : Read A

infixl 5 ◌>>=◌
abbrev pub ◌>>=◌ {ℓ κ} : {A : Type ℓ} {B : Type κ} → Read A → (A → Read B) → Read B
value a >>= f = f a
no_value >>= f = no_value
panic >>= f = panic

pub record Parsed : Type 0 where
  pub proto : ℕ
  pub src_ip : Bytes
  pub dst_ip : Bytes
  pub src_port : ℕ
  pub dst_port : ℕ
  pub tcp_flags : ℕ
  pub icmp_type : ℕ

-- `pkt[i]`
unfoldable pub read : Bytes → ℕ → Read ℕ
read pkt i = elim (get_elem? pkt i) [ some b ↦ value b | none ↦ panic ]

-- `u16::from_be_bytes([pkt[i], pkt[i + 1]])`
unfoldable pub read_u16 : Bytes → ℕ → Read ℕ
read_u16 pkt i = do high ← read pkt i; low ← read pkt (i + 1); value (high * 256 + low)

-- `pkt[from..from + n]`
unfoldable pub read_slice : Bytes → ℕ → ℕ → Read Bytes
read_slice pkt from n =
    if ltb (length pkt) (from + n) then panic else value (take n (drop from pkt))

-- `HOP_BY_HOP | ROUTING | DEST_OPTS`
unfoldable pub is_options : ℕ → Bool
is_options next = next == 0 || next == 43 || next == 60

abbrev pub fragment : ℕ
fragment = 44

-- The length of an options header, or nothing if it is cut off.
unfoldable pub options_header : Bytes → ℕ → Read (ℕ × ℕ)
options_header pkt off =
    if ltb (length pkt) (off + 2)
    then no_value
    else (read pkt off >>= λ nxt. read pkt (off + 1) >>= λ len.
        if ltb (length pkt) (off + (len + 1) * 8)
        then no_value
        else value (nxt, off + (len + 1) * 8))

-- The next header and offset behind a fragment header that is the first of its packet.
unfoldable pub fragment_header : Bytes → ℕ → Read (ℕ × ℕ)
fragment_header pkt off =
    if ltb (length pkt) (off + 8)
    then no_value
    else (read_u16 pkt (off + 2) >>= λ frag_word.
        if not (frag_word / 8 == 0)
        then no_value
        else (read pkt off >>= λ next. value (next, off + 8)))

-- At most as many extension headers as the first number says; the code allows 8.
unfoldable pub extension_loop : ℕ → Bytes → ℕ → ℕ → Read (ℕ × ℕ)
extension_loop zero pkt next off = value (next, off)
extension_loop (suc n) pkt next off = elim (is_options next) [
  | true ↦ options_header pkt off >>= λ (nxt, off'). extension_loop n pkt nxt off'
  | false ↦ elim (next == fragment) [
    | true ↦ fragment_header pkt off >>= λ (nxt, off'). extension_loop n pkt nxt off'
    | false ↦ value (next, off)
  ]
]

-- The ports, the flags and the type.
unfoldable pub transport : Bytes → ℕ → ℕ → Read (ℕ × ℕ × ℕ × ℕ)
transport pkt proto off =
    if proto == proto_tcp
    then (if ltb (length pkt) (off + 14) then no_value else (do
      src_port ← read_u16 pkt off
      dst_port ← read_u16 pkt (off + 2)
      tcp_flags ← read pkt (off + 13)
      value (src_port, dst_port, tcp_flags, 0)))
    else if proto == proto_udp
    then (if ltb (length pkt) (off + 8) then no_value else (do
      src_port ← read_u16 pkt off
      dst_port ← read_u16 pkt (off + 2)
      value (src_port, dst_port, 0, 0)))
    else if proto == proto_icmpv6
    then (if ltb (length pkt) (off + 8)
        then no_value
        else (read pkt off >>= λ icmp_type.
            if icmp_type == icmp_echo_request || icmp_type == icmp_echo_reply
            then (read_u16 pkt (off + 4) >>= λ id. value (id, id, 0, icmp_type))
            else value (0, 0, 0, icmp_type)))
    else no_value

-- Behind the extension headers, with the two addresses.
unfoldable pub parse_transport : Bytes → ℕ → ℕ → Bytes → Bytes → Read Parsed
parse_transport pkt proto off src_ip dst_ip =
    if not (is_tracked proto)
    then no_value
    else (transport pkt proto off >>= λ (src_port, dst_port, tcp_flags, icmp_type). value (record {
      proto = proto;
      src_ip = src_ip;
      dst_ip = dst_ip;
      src_port = src_port;
      dst_port = dst_port;
      tcp_flags = tcp_flags;
      icmp_type = icmp_type;
    }))

unfoldable pub parse : Bytes → Read Parsed
parse pkt =
    if ltb (length pkt) 40
    then no_value
    else (read pkt 0 >>= λ version.
        if not (version / 16 == 6)
        then no_value
        else (read_slice pkt 8 16 >>= λ src_ip. read_slice pkt 24 16 >>= λ dst_ip.
            read pkt 6 >>= λ next. extension_loop 8 pkt next 40 >>= λ (proto, off).
            parse_transport pkt proto off src_ip dst_ip))
