-- ===== src/Firewall.antt =====
-- crates/yggdrasil/src/firewall.rs: the connection table of the packet firewall. An `Instant` is a
-- number of seconds that the caller passes in for the clock, a hash set a map to the unit type.
pub mod Parse
pub mod Safe
pub mod Filter
pub mod Accept
pub mod Table
use yggdrasil_ng.Prelude.{
  ℕ, ◌-◌, ◌≡◌, ◌↔◌, List, Option, none, some, Bool, true, false, ◌&&◌, ◌||◌, not, ltb, ◌==◌,
  if◌then◌else◌, HasEq, bit_and, arith,
}
use yggdrasil_ng.Prelude.Bytes.{Bytes, bytes_beq, bytes_beq_iff}
use yggdrasil_ng.Prelude.Map.{Map, retain}

abbrev pub proto_tcp : ℕ
proto_tcp = 6

abbrev pub proto_udp : ℕ
proto_udp = 17

abbrev pub proto_icmpv6 : ℕ
proto_icmpv6 = 58

abbrev pub tcp_flag_fin : ℕ
tcp_flag_fin = 1

abbrev pub tcp_flag_syn : ℕ
tcp_flag_syn = 2

abbrev pub tcp_flag_rst : ℕ
tcp_flag_rst = 4

abbrev pub tcp_flag_ack : ℕ
tcp_flag_ack = 16

abbrev pub icmp_echo_request : ℕ
icmp_echo_request = 128

abbrev pub icmp_echo_reply : ℕ
icmp_echo_reply = 129

pub record FlowKey : Type 0 where
  pub proto : ℕ
  pub our_ip : Bytes
  pub our_port : ℕ
  pub peer_ip : Bytes
  pub peer_port : ℕ

unfoldable pub flow_key_beq : FlowKey → FlowKey → Bool
flow_key_beq a b =
    a.proto == b.proto
    && bytes_beq a.our_ip b.our_ip
    && a.our_port == b.our_port
    && bytes_beq a.peer_ip b.peer_ip
    && a.peer_port == b.peer_port

pub flow_key_beq_iff : (a b : FlowKey) → (flow_key_beq a b ≡ true) ↔ (a ≡ b)
unfolding flow_key_beq
flow_key_beq_iff a b =
    ground (arith, bytes_beq_iff a.our_ip b.our_ip, bytes_beq_iff a.peer_ip b.peer_ip)

instance abbrev pub flow_key_eq : HasEq FlowKey
flow_key_eq = record { beq = flow_key_beq; beq_iff = flow_key_beq_iff }

pub data TcpState : Type 0 where
  syn_sent established fin_seen closed : TcpState

pub record FlowEntry : Type 0 where
  pub last_seen : ℕ
  pub tcp_state : Option TcpState

unfoldable pub tcp_timeout : Option TcpState → ℕ
tcp_timeout (some syn_sent) = 30
tcp_timeout (some established) = 300
tcp_timeout (some fin_seen) = 10
tcp_timeout (some closed) = 10
tcp_timeout none = 30

-- `FlowEntry::timeout`
unfoldable pub flow_timeout : FlowEntry → ℕ → ℕ
flow_timeout entry proto =
    if proto == proto_tcp
    then tcp_timeout entry.tcp_state
    else if proto == proto_udp
    then 60
    else if proto == proto_icmpv6
    then 30
    else 60

-- Whether a flag of the byte is set.
abbrev pub has_flag : ℕ → ℕ → Bool
has_flag flags flag = not (bit_and flags flag == 0)

unfoldable pub advance_open : Option TcpState → Bool → Bool → TcpState
advance_open (some closed) syn ack = closed
advance_open (some fin_seen) syn ack = fin_seen
advance_open (some established) syn ack = established
advance_open (some syn_sent) syn ack =
    if ack && not syn then established else if syn && ack then established else syn_sent
advance_open none syn ack =
    if ack && not syn then established else if syn && ack then established else syn_sent

unfoldable pub advance_tcp : Option TcpState → ℕ → TcpState
advance_tcp prev flags =
    if has_flag flags tcp_flag_rst
    then closed
    else if has_flag flags tcp_flag_fin
    then fin_seen
    else advance_open prev (has_flag flags tcp_flag_syn) (has_flag flags tcp_flag_ack)

unfoldable pub is_tracked : ℕ → Bool
is_tracked proto = proto == proto_tcp || proto == proto_udp || proto == proto_icmpv6

abbrev pub FlowTable : Type 0
FlowTable = Map FlowKey FlowEntry

unfoldable pub keep_flow : ℕ → FlowKey → FlowEntry → Bool
keep_flow now key entry = ltb (now - entry.last_seen) (flow_timeout entry key.proto)

-- `gc`, on the table.
unfoldable pub gc : FlowTable → ℕ → FlowTable
gc table now = retain (keep_flow now) table
