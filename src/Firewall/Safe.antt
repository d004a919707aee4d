-- ===== src/Firewall/Safe.antt =====
-- `parse` never reads behind the end of the packet.
use yggdrasil_ng.Prelude.{
  ℕ, zero, suc, ◌+◌, ◌*◌, ◌/◌, ◌<◌, ◌≤◌, ◌≡◌, ◌≢◌, refl, Bool, true, false, not, inl, inr, ltb,
  ◌==◌, if◌then◌else◌, length, take, drop, arith, Bool-cases, ==_iff,
}
use yggdrasil_ng.Prelude.Bytes.{Bytes}
use yggdrasil_ng.Prelude.Elems.{get_elem?-there}
use yggdrasil_ng.Firewall.{proto_tcp, proto_udp, proto_icmpv6}
use yggdrasil_ng.Firewall.Parse.{
  Read, value, no_value, panic, ◌>>=◌, Parsed, read, read_u16, read_slice, is_options, fragment,
  options_header, fragment_header, extension_loop, transport, parse_transport, parse,
}

read-value : (pkt : Bytes) (i : ℕ) → i < length pkt → (b : ℕ) × (read pkt i ≡ value b)
unfolding read
read-value pkt i h = let (b, e) = get_elem?-there pkt i h in (b, rw (read, e) refl)

read_u16-value : (pkt : Bytes) (i : ℕ) → i + 1 < length pkt → (w : ℕ) × (read_u16 pkt i ≡ value w)
unfolding read_u16
read_u16-value pkt i h =
    let (high, e) = read-value pkt i (omega arith) in
    let (low, f) = read-value pkt (i + 1) h in (high * 256 + low, rw (read_u16, e, f) refl)

read_slice-value :
    (pkt : Bytes) (from n : ℕ)
    → from + n ≤ length pkt
    → (s : Bytes) × (read_slice pkt from n ≡ value s)
unfolding read_slice
read_slice-value pkt from n h =
    let fits : ltb (length pkt) (from + n) ≡ false = ground arith in
    (take n (drop from pkt), rw (read_slice, fits) refl)

module _ (pkt : Bytes) where
  options_header-ne-panic : (off : ℕ) → options_header pkt off ≢ panic
  unfolding options_header
  options_header-ne-panic off = elim (Bool-cases (ltb (length pkt) (off + 2))) [
    | inl cut ↦ rw (options_header, cut) (λ e. cc e)
    | inr fits ↦
        let (nxt, e) = read-value pkt off (ground arith) in
        let (len, f) = read-value pkt (off + 1) (ground arith) in
        rw (options_header, fits, e, f) (ground arith)
  ]

  fragment_header-ne-panic : (off : ℕ) → fragment_header pkt off ≢ panic
  unfolding fragment_header
  fragment_header-ne-panic off = elim (Bool-cases (ltb (length pkt) (off + 8))) [
    | inl cut ↦ rw (fragment_header, cut) (λ e. cc e)
    | inr fits ↦
        let (frag_word, e) = read_u16-value pkt (off + 2) (ground arith) in
        let (next, f) = read-value pkt off (ground arith) in
        rw (fragment_header, fits, e, f) (ground arith)
  ]

  extension_loop-ne-panic : (n next off : ℕ) → extension_loop n pkt next off ≢ panic
  unfolding extension_loop
  extension_loop-ne-panic zero next off = λ e. cc e
  extension_loop-ne-panic (suc n) next off =
      bind_cases n next off (options_header-ne-panic off) (fragment_header-ne-panic off)
        (extension_loop-ne-panic n)
    where
      bind-ne-panic :
          (n : ℕ) (r : Read (ℕ × ℕ))
          → r ≢ panic
          → ((next off : ℕ) → extension_loop n pkt next off ≢ panic)
          → (r >>= λ (next, off). extension_loop n pkt next off) ≢ panic
      bind-ne-panic n (value (next, off)) h k = k next off
      bind-ne-panic n no_value h k = λ e. cc e
      bind-ne-panic n panic h k = λ e. h refl

      bind_cases :
          (n next off : ℕ)
          → options_header pkt off ≢ panic
          → fragment_header pkt off ≢ panic
          → ((next off : ℕ) → extension_loop n pkt next off ≢ panic)
          → extension_loop (suc n) pkt next off ≢ panic
      bind_cases n next off h l k = elim (Bool-cases (is_options next)) [
        | inl options ↦ rw (extension_loop, options) (bind-ne-panic n (options_header pkt off) h k)
        | inr other ↦ elim (Bool-cases (next == fragment)) [
          | inl frag ↦
              rw (extension_loop, other, frag) (bind-ne-panic n (fragment_header pkt off) l k)
          | inr last ↦ rw (extension_loop, other, last) (λ e. cc e)
        ]
      ]

  tcp-ne-panic : (off : ℕ) → transport pkt proto_tcp off ≢ panic
  unfolding transport
  tcp-ne-panic off = elim (Bool-cases (ltb (length pkt) (off + 14))) [
    | inl cut ↦ rw (transport, cut) (λ e. cc e)
    | inr fits ↦
        let (src, e) = read_u16-value pkt off (ground arith) in
        let (dst, f) = read_u16-value pkt (off + 2) (ground arith) in
        let (flags, g) = read-value pkt (off + 13) (ground arith) in
        rw (transport, fits, e, f, g) (λ e. cc e)
  ]

  udp-ne-panic : (off : ℕ) → transport pkt proto_udp off ≢ panic
  unfolding transport
  udp-ne-panic off = elim (Bool-cases (ltb (length pkt) (off + 8))) [
    | inl cut ↦ rw (transport, cut) (λ e. cc e)
    | inr fits ↦
        let (src, e) = read_u16-value pkt off (ground arith) in
        let (dst, f) = read_u16-value pkt (off + 2) (ground arith) in
        rw (transport, fits, e, f) (λ e. cc e)
  ]

  icmp-ne-panic : (off : ℕ) → transport pkt proto_icmpv6 off ≢ panic
  unfolding transport
  icmp-ne-panic off = elim (Bool-cases (ltb (length pkt) (off + 8))) [
    | inl cut ↦ rw (transport, cut) (λ e. cc e)
    | inr fits ↦
        let (icmp_type, e) = read-value pkt off (ground arith) in
        let (id, f) = read_u16-value pkt (off + 4) (ground arith) in
        rw (transport, fits, e, f) (ground arith)
  ]

  transport-ne-panic : (proto off : ℕ) → transport pkt proto off ≢ panic
  transport-ne-panic proto off = elim (Bool-cases (proto == proto_tcp)) [
    | inl t ↦ rw ((==_iff proto proto_tcp).0 t) (tcp-ne-panic off)
    | inr not_t ↦ elim (Bool-cases (proto == proto_udp)) [
      | inl u ↦ rw ((==_iff proto proto_udp).0 u) (udp-ne-panic off)
      | inr not_u ↦ elim (Bool-cases (proto == proto_icmpv6)) [
        | inl i ↦ rw ((==_iff proto proto_icmpv6).0 i) (icmp-ne-panic off)
        | inr not_i ↦ unfold transport in rw (transport, not_t, not_u, not_i) (λ e. cc e)
      ]
    ]
  ]

  parse_transport-ne-panic :
      (proto off : ℕ) (src dst : Bytes) → parse_transport pkt proto off src dst ≢ panic
  unfolding parse_transport
  parse_transport-ne-panic proto off src dst = let h = transport-ne-panic proto off in ground arith

  behind_headers-ne-panic :
      (src dst : Bytes) (headers : Read (ℕ × ℕ))
      → headers ≢ panic
      → (headers >>= λ (proto, off). parse_transport pkt proto off src dst) ≢ panic
  behind_headers-ne-panic src dst (value (proto, off)) h =
      parse_transport-ne-panic proto off src dst
  behind_headers-ne-panic src dst no_value h = λ e. cc e
  behind_headers-ne-panic src dst panic h = λ e. h refl

  if_version :
      (b : Bool) (rest : Read Parsed) → rest ≢ panic → (if b then no_value else rest) ≢ panic
  if_version true rest h = λ e. cc e
  if_version false rest h = h

  -- Parsing any bytes never reads behind the end of the packet.
  pub parse-ne-panic : parse pkt ≢ panic
  unfolding parse
  parse-ne-panic = elim (Bool-cases (ltb (length pkt) 40)) [
    | inl short ↦ rw (parse, short) (λ e. cc e)
    | inr long ↦
        let (version, e) = read-value pkt 0 (ground arith) in
        let (next, f) = read-value pkt 6 (ground arith) in
        let (src, g) = read_slice-value pkt 8 16 (ground arith) in
        let (dst, k) = read_slice-value pkt 24 16 (ground arith) in
        rw (parse, long, e, g, k, f)
          (if_version (not (version / 16 == 6)) _ (
            behind_headers-ne-panic src dst (extension_loop 8 pkt next 40)
              (extension_loop-ne-panic 8 next 40)))
  ]
