-- ===== src/Firewall/Accept.antt =====
-- Which packets the firewall lets in.
use yggdrasil_ng.Prelude.{
  ℕ, ◌≡◌, ◌≢◌, ◌≤◌, ◌⊎◌, ◌↔◌, List, [], ◌∷◌, refl, inl, inr, some, Bool, true, false, beq_refl,
  bit_and, nat_eq, arith, Bool-cases, Option-cases,
}
use mathlib.Core.List.{Memᴰ}
use mathlib.Core.List.Memᴰ
use yggdrasil_ng.Prelude.Bytes.{Bytes}
use yggdrasil_ng.Prelude.Map.{get, contains_key, get-insert}
use yggdrasil_ng.Firewall.{flow_key_eq, FlowEntry, FlowTable, is_tracked}
use yggdrasil_ng.Firewall.Parse.{Read, value, no_value, panic, Parsed, parse}
use yggdrasil_ng.Firewall.Filter.{
  Config, outbound_key, inbound_key, seen, new_entry, record_flow, observe_parsed, observe_outbound,
  in_open_subnet, passes_icmp, opens_port, open_port, check_parsed, check_inbound,
}

record_flow-key :
    (table : FlowTable) (p : Parsed) (now : ℕ)
    → (e : FlowEntry) × (get (record_flow table p now) (outbound_key p) ≡ some e)
unfolding record_flow
record_flow-key table p now = elim (Option-cases (get table (outbound_key p))) [
  | inl absent ↦
      let e = seen p now (new_entry p now) in
      (
        e,
        rw
            (
              record_flow,
              absent,
              get-insert table (outbound_key p) (outbound_key p) e,
              beq_refl (outbound_key p),
            )
            refl,
      )
  | inr (old, found) ↦
      let e = seen p now old in
      (
        e,
        rw
            (
              record_flow,
              found,
              get-insert table (outbound_key p) (outbound_key p) e,
              beq_refl (outbound_key p),
            )
            refl,
      )
]

pub Read-cases :
    {A : Type 0} (r : Read A) → ((a : A) × (r ≡ value a)) ⊎ (r ≡ no_value) ⊎ (r ≡ panic)
Read-cases (value a) = inl (a, refl)
Read-cases no_value = inr (inl refl)
Read-cases panic = inr (inr refl)

no_packet {ℓ} : {A : Type ℓ} → false ≡ true → A
no_packet h = cc h

module _ {Ipv6Net : Type 0} (contains : Ipv6Net → Bytes → Bool) (cfg : Config Ipv6Net) where
  check_parsed-known :
      (table : FlowTable) (p : Parsed) (now : ℕ) (e : FlowEntry)
      → get table (inbound_key p) ≡ some e
      → (check_parsed contains cfg table p now).1 ≡ true
  unfolding check_parsed
  check_parsed-known table p now e h = ground arith

  -- The reply to a tracked outbound packet is let in under every configuration.
  pub check_inbound-observe_outbound :
      (table : FlowTable) (sent reply : Bytes) (p q : Parsed) (now later : ℕ)
      → parse sent ≡ value p
      → is_tracked p.proto ≡ true
      → parse reply ≡ value q
      → inbound_key q ≡ outbound_key p
      → (check_inbound contains cfg (observe_outbound table sent now) reply later).1 ≡ true
  unfolding check_inbound observe_outbound observe_parsed
  check_inbound-observe_outbound table sent reply p q now later h tracked k same =
      let (e, found) = record_flow-key table p now in
      let found' : get (record_flow table p now) (inbound_key q) ≡ some e = rw same found in
      rw (check_inbound, k, observe_outbound, h, observe_parsed, tracked)
        (check_parsed-known (record_flow table p now) q later e found')

  -- The source is in one of the subnets.
  pub InSubnet : List Ipv6Net → Bytes → Type 0
  InSubnet nets src = (net : Ipv6Net) × Memᴰ net nets × (contains net src ≡ true)

  -- An ICMPv6 message of the types 1 to 4, or an echo request where these are allowed.
  pub IsIcmp : Parsed → Type 0
  IsIcmp p =
      (p.proto ≡ 58)
      × (((1 ≤ p.icmp_type) × (p.icmp_type ≤ 4))
          ⊎ ((p.icmp_type ≡ 128) × (cfg.allow_icmp_echo ≡ true)))

  -- A TCP packet with the SYN bit and without the ACK bit to an open port, or a UDP packet to one.
  pub OpensPort : Parsed → Type 0
  OpensPort p =
      ((p.proto ≡ 6)
        × ((bit_and p.tcp_flags 2 ≢ 0)
            × ((bit_and p.tcp_flags 16 ≡ 0) × (contains_key cfg.open_tcp p.dst_port ≡ true))))
      ⊎ ((p.proto ≡ 17) × (contains_key cfg.open_udp p.dst_port ≡ true))

  -- The flow whose packets go from the packet's destination to its source is in the table.
  pub IsKnown : FlowTable → Parsed → Type 0
  IsKnown table p =
      contains_key table (record {
        proto = p.proto;
        our_ip = p.dst_ip;
        our_port = p.dst_port;
        peer_ip = p.src_ip;
        peer_port = p.src_port;
      })
      ≡ true

  pub Admitted : FlowTable → Parsed → Type 0
  Admitted table p = InSubnet cfg.open_all_for p.src_ip ⊎ IsIcmp p ⊎ IsKnown table p ⊎ OpensPort p

  behind :
      (net : Ipv6Net) (nets : List Ipv6Net) (src : Bytes)
      → contains net src ≡ false
      → InSubnet (net ∷ nets) src
      → InSubnet nets src
  unfolding InSubnet
  behind net nets src c (other, Memᴰ.head e, c') =
      let no : contains net src ≡ true = rw e at c' in absurd (cc (no, c))
  behind net nets src c (other, Memᴰ.tail m, c') = (other, m, c')

  in_open_subnet_iff :
      (nets : List Ipv6Net) (src : Bytes)
      → (in_open_subnet contains nets src ≡ true) ↔ InSubnet nets src
  unfolding in_open_subnet InSubnet
  in_open_subnet_iff [] src = (λ h. no_packet h, λ (net, m, h). absurd (Memᴰ.not-nil m))
  in_open_subnet_iff (net ∷ nets) src =
      let (to, from) = in_open_subnet_iff nets src in
      elim (Bool-cases (contains net src)) [
        | inl c ↦ rw (in_open_subnet, c) (λ h. (net, Memᴰ.head refl, c), λ h. refl)
        | inr c ↦
            rw (in_open_subnet, c)
              (
                λ h. let (other, m, c') = to h in (other, Memᴰ.tail m, c'),
                λ h. from (behind net nets src c h),
              )
      ]

  passes_icmp_iff : (p : Parsed) → (passes_icmp contains cfg p ≡ true) ↔ IsIcmp p
  unfolding passes_icmp IsIcmp
  passes_icmp_iff p = ground arith

  pub opens_port_iff : (p : Parsed) → (opens_port contains cfg p ≡ true) ↔ OpensPort p
  unfolding opens_port OpensPort
  opens_port_iff p = ground arith

  check_parsed_iff :
      (table : FlowTable) (p : Parsed) (now : ℕ)
      → ((check_parsed contains cfg table p now).1 ≡ true) ↔ Admitted table p
  unfolding check_parsed open_port Admitted IsKnown contains_key inbound_key
  check_parsed_iff table p now =
      ground
        (arith, in_open_subnet_iff cfg.open_all_for p.src_ip, passes_icmp_iff p, opens_port_iff p)

  -- An inbound packet is let in exactly if it parses and comes from an open subnet, or is an ICMPv6
  -- message of the types 1 to 4 or an allowed echo request, or a flow with its addresses and ports
  -- exchanged is known, or it is a TCP packet with SYN and without ACK, or a UDP packet, to an open
  -- port.
  pub check_inbound_iff :
      (table : FlowTable) (pkt : Bytes) (now : ℕ)
      → ((check_inbound contains cfg table pkt now).1 ≡ true)
        ↔ ((p : Parsed) × (parse pkt ≡ value p) × Admitted table p)
  unfolding check_inbound
  check_inbound_iff table pkt now = elim (Read-cases (parse pkt)) [
    | inl (p, e) ↦ (
      λ h. (p, e, (check_parsed_iff table p now).0 (rw (check_inbound, e) at h)),
      λ (q, f, a).
          rw (check_inbound, e)
            ((check_parsed_iff table p now).1 (same_packet q p table (cc (f, e)) a)),
    )
    | inr (inl e) ↦ (λ h. no_packet (rw (check_inbound, e) at h), λ (q, f, a). cc (e, f))
    | inr (inr e) ↦ (λ h. no_packet (rw (check_inbound, e) at h), λ (q, f, a). cc (e, f))
  ]
    where
      same_packet : (q p : Parsed) (table : FlowTable) → q ≡ p → Admitted table q → Admitted table p
      same_packet q p table e a = rw e at a
