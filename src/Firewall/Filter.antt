-- ===== src/Firewall/Filter.antt =====
-- crates/yggdrasil/src/firewall.rs: what the firewall does with outbound and inbound packets.
-- `Ipv6Net` is the ipnet crate's, so the subnets and the test for membership are parameters.
use yggdrasil_ng.Prelude.{
  ℕ, List, [], ◌∷◌, none, some, Bool, true, false, ◌&&◌, not, leb, ◌==◌, if◌then◌else◌, nat_eq,
}
use yggdrasil_ng.Prelude.Bytes.{Bytes}
use yggdrasil_ng.Prelude.Map.{Map, get, insert, contains_key}
use yggdrasil_ng.Firewall.{
  FlowKey, flow_key_eq, syn_sent, FlowEntry, advance_tcp, is_tracked, FlowTable, proto_tcp,
  proto_udp, proto_icmpv6, icmp_echo_request, has_flag, tcp_flag_syn, tcp_flag_ack,
}
use yggdrasil_ng.Firewall.Parse.{value, no_value, panic, Parsed, parse}

module _ (Ipv6Net : Type 0) where
  pub record Config : Type 0 where
    pub open_tcp : Map ℕ (Unit {0})
    pub open_udp : Map ℕ (Unit {0})
    pub open_all_for : List Ipv6Net
    pub allow_icmp_echo : Bool

-- The key of an outbound packet, and that of an inbound one, which is reversed.
unfoldable pub outbound_key : Parsed → FlowKey
outbound_key p = record {
  proto = p.proto;
  our_ip = p.src_ip;
  our_port = p.src_port;
  peer_ip = p.dst_ip;
  peer_port = p.dst_port;
}

unfoldable pub inbound_key : Parsed → FlowKey
inbound_key p = record {
  proto = p.proto;
  our_ip = p.dst_ip;
  our_port = p.dst_port;
  peer_ip = p.src_ip;
  peer_port = p.src_port;
}

-- What a packet of a known flow does to its entry.
unfoldable pub seen : Parsed → ℕ → FlowEntry → FlowEntry
seen p now entry = record {
  last_seen = now;
  tcp_state =
      if p.proto == proto_tcp
      then some (advance_tcp entry.tcp_state p.tcp_flags)
      else entry.tcp_state;
}

unfoldable pub new_entry : Parsed → ℕ → FlowEntry
new_entry p now = record {
  last_seen = now;
  tcp_state = if p.proto == proto_tcp then some syn_sent else none;
}

-- `t.entry(key).or_insert(new)`, and the changes to the entry.
unfoldable pub record_flow : FlowTable → Parsed → ℕ → FlowTable
record_flow table p now = elim (get table (outbound_key p)) [
  | some entry ↦ insert table (outbound_key p) (seen p now entry)
  | none ↦ insert table (outbound_key p) (seen p now (new_entry p now))
]

unfoldable pub observe_parsed : FlowTable → Parsed → ℕ → FlowTable
observe_parsed table p now = if not (is_tracked p.proto) then table else record_flow table p now

unfoldable pub observe_outbound : FlowTable → Bytes → ℕ → FlowTable
observe_outbound table pkt now = elim (parse pkt) [
  | value p ↦ observe_parsed table p now
  | no_value ↦ table
  | panic ↦ table
]

module _ {Ipv6Net : Type 0} (contains : Ipv6Net → Bytes → Bool) where
  unfoldable pub in_open_subnet : List Ipv6Net → Bytes → Bool
  in_open_subnet [] src = false
  in_open_subnet (net ∷ nets) src = if contains net src then true else in_open_subnet nets src

  unfoldable pub passes_icmp : Config Ipv6Net → Parsed → Bool
  passes_icmp cfg p =
      if p.proto == proto_icmpv6
      then (if leb 1 p.icmp_type && leb p.icmp_type 4
          then true
          else p.icmp_type == icmp_echo_request && cfg.allow_icmp_echo)
      else false

  -- Whether the whitelist of ports lets the packet open a flow.
  unfoldable pub opens_port : Config Ipv6Net → Parsed → Bool
  opens_port cfg p =
      if p.proto == proto_tcp
      then (has_flag p.tcp_flags tcp_flag_syn && not (has_flag p.tcp_flags tcp_flag_ack))
        && contains_key cfg.open_tcp p.dst_port
      else if p.proto == proto_udp
      then contains_key cfg.open_udp p.dst_port
      else false

  unfoldable pub open_port : Config Ipv6Net → FlowTable → Parsed → ℕ → FlowTable × Bool
  open_port cfg table p now =
      if opens_port cfg p
      then (insert table (inbound_key p) (new_entry p now), true)
      else (table, false)

  unfoldable pub check_parsed : Config Ipv6Net → FlowTable → Parsed → ℕ → FlowTable × Bool
  check_parsed cfg table p now =
      if in_open_subnet cfg.open_all_for p.src_ip
      then (table, true)
      else if passes_icmp cfg p
      then (table, true)
      else (elim (get table (inbound_key p)) [
        | some entry ↦ (insert table (inbound_key p) (seen p now entry), true)
        | none ↦ open_port cfg table p now
      ])

  unfoldable pub check_inbound : Config Ipv6Net → FlowTable → Bytes → ℕ → FlowTable × Bool
  check_inbound cfg table pkt now = elim (parse pkt) [
    | value p ↦ check_parsed cfg table p now
    | no_value ↦ (table, false)
    | panic ↦ (table, false)
  ]
