-- ===== src/Tests/Firewall.antt =====
-- crates/yggdrasil/src/firewall.rs: the theorems at concrete packets.
use yggdrasil_ng.Prelude.{ℕ, ◌≡◌, ◌≢◌, ◌↔◌, refl, [], ◌∷◌, ◌++◌, Bool, true, false, replicate}
use yggdrasil_ng.Prelude.Bytes.{Bytes, bytes_eq, bytes_beq}
use yggdrasil_ng.Prelude.Map.{get, insert, contains_key}
use yggdrasil_ng.Firewall.{FlowKey, flow_key_eq, flow_key_beq, is_tracked}
use yggdrasil_ng.Firewall.Parse.{
  value, panic, Parsed, parse, parse_transport, transport, read, read_u16, read_slice,
  extension_loop, is_options,
}
use yggdrasil_ng.Firewall.Safe.{parse-ne-panic}
use yggdrasil_ng.Firewall.Filter.{
  Config, outbound_key, inbound_key, observe_outbound, check_inbound, observe_parsed, record_flow,
}
use yggdrasil_ng.Firewall.Accept.{Admitted, check_inbound-observe_outbound, check_inbound_iff}
use yggdrasil_ng.Firewall.Table.{sent, run, step, SomeOpens, run-SomeOpens}

abbrev here : Bytes
here = replicate 16 2

abbrev there : Bytes
there = replicate 16 3

-- A UDP packet of 8 bytes with the two addresses and ports.
abbrev udp : Bytes → Bytes → ℕ → ℕ → Bytes
udp src dst src_port dst_port =
    (96 ∷ 0 ∷ 0 ∷ 0 ∷ 0 ∷ 8 ∷ 17 ∷ 64 ∷ [])
    ++ (src ++ (dst ++ (0 ∷ src_port ∷ 0 ∷ dst_port ∷ 0 ∷ 8 ∷ 0 ∷ 0 ∷ [])))

abbrev parsed : Bytes → Bytes → ℕ → ℕ → Parsed
parsed src dst src_port dst_port = record {
  proto = 17;
  src_ip = src;
  dst_ip = dst;
  src_port = src_port;
  dst_port = dst_port;
  tcp_flags = 0;
  icmp_type = 0;
}

parse_sent : parse (udp here there 40 53) ≡ value (parsed here there 40 53)
unfolding parse parse_transport transport read read_u16 read_slice extension_loop is_options
    is_tracked
parse_sent = refl

parse_reply : parse (udp there here 53 40) ≡ value (parsed there here 53 40)
unfolding parse parse_transport transport read read_u16 read_slice extension_loop is_options
    is_tracked
parse_reply = refl

tracked : is_tracked 17 ≡ true
unfolding is_tracked
tracked = refl

reversed : inbound_key (parsed there here 53 40) ≡ outbound_key (parsed here there 40 53)
unfolding inbound_key outbound_key
reversed = refl

-- Subnets are given by their whole address here.
abbrev whole : Bytes → Bytes → Bool
whole net ip = bytes_beq net ip

abbrev shut_config : Config Bytes
shut_config = record { open_tcp = []; open_udp = []; open_all_for = []; allow_icmp_echo = false }

check_inbound-observe_outbound_example :
    (check_inbound whole shut_config
      (observe_outbound [] (udp here there 40 53) 100)
      (udp there here 53 40)
      101).1
    ≡ true
check_inbound-observe_outbound_example =
    check_inbound-observe_outbound whole shut_config [] (udp here there 40 53)
      (udp there here 53 40) (parsed here there 40 53) (parsed there here 53 40) 100 101 parse_sent
      tracked parse_reply reversed

check_inbound_iff_example :
    ((check_inbound whole shut_config [] (udp there here 53 40) 101).1 ≡ true)
    ↔ ((p : Parsed) × (parse (udp there here 53 40) ≡ value p) × Admitted whole shut_config [] p)
check_inbound_iff_example = check_inbound_iff whole shut_config [] (udp there here 53 40) 101

parse-ne-panic_example : parse (96 ∷ 0 ∷ []) ≢ panic
parse-ne-panic_example = parse-ne-panic (96 ∷ 0 ∷ [])

abbrev key_sent : FlowKey
key_sent = record { proto = 17; our_ip = here; our_port = 40; peer_ip = there; peer_port = 53 }

opened :
    contains_key (run whole shut_config [] (sent (udp here there 40 53) 100 ∷ [])) key_sent ≡ true
unfolding parse parse_transport transport read read_u16 read_slice extension_loop is_options
    is_tracked run step observe_outbound observe_parsed record_flow get insert contains_key
    outbound_key flow_key_beq bytes_beq
opened = refl

run-SomeOpens_example : SomeOpens whole shut_config (sent (udp here there 40 53) 100 ∷ []) key_sent
run-SomeOpens_example =
    run-SomeOpens whole shut_config (sent (udp here there 40 53) 100 ∷ []) key_sent opened
