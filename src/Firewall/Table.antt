-- ===== src/Firewall/Table.antt =====
-- Where the flows of the connection table come from, and how they go.
use yggdrasil_ng.Prelude.{
  ℕ, ◌-◌, ◌<◌, ◌≡◌, ◌≢◌, ◌⊎◌, ◌↔◌, refl, sym, inl, inr, List, [], ◌∷◌, Option, some, Bool, true,
  arith, Bool-cases, Option-cases,
}
use yggdrasil_ng.Prelude.Bytes.{Bytes}
use yggdrasil_ng.Prelude.Map.{
  get, insert, contains_key, Distinct, contains_key-insert, get-retain-none,
}
use yggdrasil_ng.Prelude.Map.Distinct.{get-retain_iff}
use yggdrasil_ng.Firewall.{
  FlowKey, flow_key_eq, flow_key_beq_iff, TcpState, fin_seen, closed, FlowEntry, FlowTable,
  is_tracked, gc, keep_flow, flow_timeout, advance_tcp, advance_open,
}
use yggdrasil_ng.Firewall.Parse.{value, Parsed, parse}
use yggdrasil_ng.Firewall.Filter.{
  Config, outbound_key, inbound_key, seen, new_entry, record_flow, observe_parsed, observe_outbound,
  in_open_subnet, passes_icmp, opens_port, open_port, check_parsed, check_inbound,
}
use yggdrasil_ng.Firewall.Accept.{Read-cases, OpensPort, opens_port_iff}

-- The collection keeps exactly the flows seen within their timeout.
pub gc_iff :
    (table : FlowTable) (now : ℕ) (key : FlowKey) (entry : FlowEntry)
    → Distinct table
    → (get (gc table now) key ≡ some entry)
      ↔ ((get table key ≡ some entry) × (now - entry.last_seen < flow_timeout entry key.proto))
unfolding gc keep_flow
gc_iff table now key entry h =
    let (to, from) = get-retain_iff (keep_flow now) table key entry h in
    (λ k. ((to k).0, ground (arith, (to k).1)), λ (k, l). from (k, ground arith))

pub tcp_run : Option TcpState → List ℕ → Option TcpState
tcp_run state [] = state
tcp_run state (flags ∷ rest) = tcp_run (some (advance_tcp state flags)) rest

abbrev pub IsClosing : Option TcpState → Type 0
IsClosing state = (state ≡ some fin_seen) ⊎ (state ≡ some closed)

advance_tcp-IsClosing :
    (state : Option TcpState) (f : ℕ) → IsClosing state → IsClosing (some (advance_tcp state f))
unfolding advance_tcp advance_open
advance_tcp-IsClosing state f (inl h) = rw h (ground arith)
advance_tcp-IsClosing state f (inr h) = rw h (ground arith)

-- A TCP flow that was closed stays closing, whatever flags follow.
pub tcp_run-IsClosing :
    (flags : List ℕ) (state : Option TcpState) → IsClosing state → IsClosing (tcp_run state flags)
unfolding tcp_run
tcp_run-IsClosing [] state h = h
tcp_run-IsClosing (f ∷ fs) state h =
    tcp_run-IsClosing fs (some (advance_tcp state f)) (advance_tcp-IsClosing state f h)

insert-contains :
    (table : FlowTable) (k key : FlowKey) (e : FlowEntry)
    → contains_key (insert table k e) key ≡ true
    → (contains_key table key ≡ true) ⊎ (k ≡ key)
insert-contains table k key e h =
    ground (arith, contains_key-insert table k key e, flow_key_beq_iff k key)

get-contains :
    (table : FlowTable) (key : FlowKey) (e : FlowEntry)
    → get table key ≡ some e
    → contains_key table key ≡ true
unfolding contains_key
get-contains table key e h = ground arith

no_flow : (key : FlowKey) → contains_key {K = FlowKey} {V = FlowEntry} [] key ≢ true
unfolding contains_key get
no_flow key e = cc e

gc-contains :
    (table : FlowTable) (now : ℕ) (key : FlowKey)
    → contains_key (gc table now) key ≡ true
    → contains_key table key ≡ true
unfolding gc contains_key
gc-contains table now key h = ground (arith, get-retain-none (keep_flow now) table key)

record_flow-contains :
    (table : FlowTable) (p : Parsed) (now : ℕ) (key : FlowKey)
    → contains_key (record_flow table p now) key ≡ true
    → (contains_key table key ≡ true) ⊎ (outbound_key p ≡ key)
unfolding record_flow
record_flow-contains table p now key h = elim (Option-cases (get table (outbound_key p))) [
  | inl absent ↦
      insert-contains table (outbound_key p) key (seen p now (new_entry p now))
        (rw (record_flow, absent) at h)
  | inr (old, found) ↦
      insert-contains table (outbound_key p) key (seen p now old) (rw (record_flow, found) at h)
]

pub data Event : Type 0 where
  sent : Bytes → ℕ → Event
  received : Bytes → ℕ → Event
  collected : ℕ → Event

module _ {Ipv6Net : Type 0} (contains : Ipv6Net → Bytes → Bool) (cfg : Config Ipv6Net) where
  unfoldable pub step : FlowTable → Event → FlowTable
  step table (sent pkt now) = observe_outbound table pkt now
  step table (received pkt now) = (check_inbound contains cfg table pkt now).0
  step table (collected now) = gc table now

  unfoldable pub run : FlowTable → List Event → FlowTable
  run table [] = table
  run table (e ∷ es) = run (step table e) es

  -- The event may open the flow: a TCP, UDP or ICMPv6 packet of this host from our address and port
  -- of the flow to the peer's, or an inbound packet from the peer's to ours, to an open port.
  pub data Opens : Event → FlowKey → Type 0 where
    by_sent :
        (pkt : Bytes) (now : ℕ) (p : Parsed)
        → parse pkt ≡ value p
        → (p.proto ≡ 6) ⊎ (p.proto ≡ 17) ⊎ (p.proto ≡ 58)
        → Opens (sent pkt now) (record {
          proto = p.proto;
          our_ip = p.src_ip;
          our_port = p.src_port;
          peer_ip = p.dst_ip;
          peer_port = p.dst_port;
        })
    by_port :
        (pkt : Bytes) (now : ℕ) (p : Parsed)
        → parse pkt ≡ value p
        → OpensPort contains cfg p
        → Opens (received pkt now) (record {
          proto = p.proto;
          our_ip = p.dst_ip;
          our_port = p.dst_port;
          peer_ip = p.src_ip;
          peer_port = p.src_port;
        })

  is_tracked_cases :
      (proto : ℕ) → is_tracked proto ≡ true → (proto ≡ 6) ⊎ (proto ≡ 17) ⊎ (proto ≡ 58)
  unfolding is_tracked
  is_tracked_cases proto h = ground arith

  sent-Opens :
      (pkt : Bytes) (now : ℕ) (p : Parsed)
      → parse pkt ≡ value p
      → is_tracked p.proto ≡ true
      → Opens (sent pkt now) (outbound_key p)
  unfolding outbound_key
  sent-Opens pkt now p e h = by_sent pkt now p e (is_tracked_cases p.proto h)

  received-Opens :
      (pkt : Bytes) (now : ℕ) (p : Parsed)
      → parse pkt ≡ value p
      → opens_port contains cfg p ≡ true
      → Opens (received pkt now) (inbound_key p)
  unfolding inbound_key
  received-Opens pkt now p e h = by_port pkt now p e ((opens_port_iff contains cfg p).0 h)

  pub data SomeOpens : List Event → FlowKey → Type 0 where
    now_ : {e : Event} {es : List Event} {key : FlowKey} → Opens e key → SomeOpens (e ∷ es) key
    later_ :
        {e : Event} {es : List Event} {key : FlowKey} → SomeOpens es key → SomeOpens (e ∷ es) key

  sent-contains :
      (table : FlowTable) (pkt : Bytes) (now : ℕ) (key : FlowKey)
      → contains_key (observe_outbound table pkt now) key ≡ true
      → (contains_key table key ≡ true) ⊎ Opens (sent pkt now) key
  unfolding observe_outbound observe_parsed
  sent-contains table pkt now key h = elim (Read-cases (parse pkt)) [
    | inl (p, e) ↦ elim (Bool-cases (is_tracked p.proto)) [
      | inl tracked ↦
          elim (record_flow-contains table p now key
            (rw (observe_outbound, e, observe_parsed, tracked) at h)) [
              | inl old ↦ inl old
              | inr new ↦ inr (rw (sym new) (sent-Opens pkt now p e tracked))
            ]
      | inr other ↦ inl (rw (observe_outbound, e, observe_parsed, other) at h)
    ]
    | inr (inl e) ↦ inl (rw (observe_outbound, e) at h)
    | inr (inr e) ↦ inl (rw (observe_outbound, e) at h)
  ]

  -- What an inbound packet does to the table.
  check_parsed_cases :
      (table : FlowTable) (p : Parsed) (now : ℕ)
      → ((check_parsed contains cfg table p now).0 ≡ table)
        ⊎ ((old : FlowEntry) × (get table (inbound_key p) ≡ some old)
            × ((check_parsed contains cfg table p now).0
                ≡ insert table (inbound_key p) (seen p now old)))
        ⊎ ((opens_port contains cfg p ≡ true)
            × ((check_parsed contains cfg table p now).0
                ≡ insert table (inbound_key p) (new_entry p now)))
  unfolding check_parsed open_port
  check_parsed_cases table p now =
      elim (Bool-cases (in_open_subnet contains cfg.open_all_for p.src_ip)) [
        | inl net ↦ inl (rw (check_parsed, net) refl)
        | inr no_net ↦ elim (Bool-cases (passes_icmp contains cfg p)) [
          | inl icmp ↦ inl (rw (check_parsed, no_net, icmp) refl)
          | inr no_icmp ↦ elim (Option-cases (get table (inbound_key p))) [
            | inr (old, found) ↦
                inr (inl (old, found, rw (check_parsed, no_net, no_icmp, found) refl))
            | inl absent ↦ elim (Bool-cases (opens_port contains cfg p)) [
              | inl port ↦
                  inr (inr (port, rw (check_parsed, no_net, no_icmp, absent, open_port, port) refl))
              | inr no_port ↦
                  inl (rw (check_parsed, no_net, no_icmp, absent, open_port, no_port) refl)
            ]
          ]
        ]
      ]

  check_parsed-contains :
      (table : FlowTable) (pkt : Bytes) (p : Parsed) (now : ℕ) (key : FlowKey)
      → parse pkt ≡ value p
      → contains_key (check_parsed contains cfg table p now).0 key ≡ true
      → (contains_key table key ≡ true) ⊎ Opens (received pkt now) key
  check_parsed-contains table pkt p now key e h = elim (check_parsed_cases table p now) [
    | inl same ↦ inl (rw same at h)
    | inr (inl (old, found, eq)) ↦
        elim (insert-contains table (inbound_key p) key (seen p now old) (rw eq at h)) [
          | inl there ↦ inl there
          | inr hit ↦ inl (rw (sym hit) (get-contains table (inbound_key p) old found))
        ]
    | inr (inr (port, eq)) ↦
        elim (insert-contains table (inbound_key p) key (new_entry p now) (rw eq at h)) [
          | inl there ↦ inl there
          | inr hit ↦ inr (rw (sym hit) (received-Opens pkt now p e port))
        ]
  ]

  received-contains :
      (table : FlowTable) (pkt : Bytes) (now : ℕ) (key : FlowKey)
      → contains_key (check_inbound contains cfg table pkt now).0 key ≡ true
      → (contains_key table key ≡ true) ⊎ Opens (received pkt now) key
  unfolding check_inbound
  received-contains table pkt now key h = elim (Read-cases (parse pkt)) [
    | inl (p, e) ↦ check_parsed-contains table pkt p now key e (rw (check_inbound, e) at h)
    | inr (inl e) ↦ inl (rw (check_inbound, e) at h)
    | inr (inr e) ↦ inl (rw (check_inbound, e) at h)
  ]

  step-contains :
      (table : FlowTable) (e : Event) (key : FlowKey)
      → contains_key (step table e) key ≡ true
      → (contains_key table key ≡ true) ⊎ Opens e key
  unfolding step
  step-contains table (sent pkt now) key h = sent-contains table pkt now key h
  step-contains table (received pkt now) key h = received-contains table pkt now key h
  step-contains table (collected now) key h = inl (gc-contains table now key h)

  run-contains :
      (es : List Event) (table : FlowTable) (key : FlowKey)
      → contains_key (run table es) key ≡ true
      → (contains_key table key ≡ true) ⊎ SomeOpens es key
  unfolding run
  run-contains [] table key h = inl h
  run-contains (e ∷ es) table key h = elim (run-contains es (step table e) key h) [
    | inr later ↦ inr (later_ later)
    | inl there ↦ elim (step-contains table e key there) [
      | inl old ↦ inl old
      | inr opened ↦ inr (now_ opened)
    ]
  ]

  -- Every flow in the connection table, after any run from the empty table, was opened by an
  -- outbound TCP, UDP or ICMPv6 packet of the host, or by an inbound TCP packet with SYN and
  -- without ACK, or UDP packet, to an open port.
  pub run-SomeOpens :
      (es : List Event) (key : FlowKey) → contains_key (run [] es) key ≡ true → SomeOpens es key
  run-SomeOpens es key h = elim (run-contains es [] key h) [
    | inl there ↦ absurd (no_flow key there)
    | inr opened ↦ opened
  ]
