-- ===== src/Nflog/Suppressed.antt =====
-- internal/nftables/nftables.go with internal/filter/common.go and internal/actions/flow.go: the redirects
-- of TCP connections that the HTTP or HTTPS proxy has reported, in the kernel's log.
use g0efilter.Prelude.{
  ℕ, suc, ◌+◌, ◌/◌, ◌≤◌, ◌≡◌, refl, sym, ap, ◌∙◌, ◌⊎◌, inl, inr, Bool, true, false, ◌&&◌, ◌||◌,
  Option, some, [], ◌∷◌, ◌++◌, arith, ltb, Bool-cases, length, Has,
}
use g0efilter.Text.{Bytes, codes, is_empty, contains, lower}
use g0efilter.Nftables.{Prefix, allowed, blocked, audit, redirected, dns_redirected}
use g0efilter.Flow.{
  RecentSynthetic, flow_id, flow_text, fnv64a, fnv_offset, hex_digits, is_synthetic_recent,
  suppress_window,
}
use g0efilter.Flow.Recent.{History, run, IsPast, IsOrdered, is_synthetic_recent_iff}
use g0efilter.Conn.{
  LogLine, Component, parse_host_port, source_addr, emit_synthetic, emit_synthetic_flow,
}
use g0efilter.Nflog.{
  Layers, Decoder, parse_ip_layer, PacketInfo, parse_packet_info, Action, map_prefix_to_action,
  process_action_event, flow_of, nflog_hook, endpoint,
}

-- The texts of the prefixes, as the rules spell them.
abbrev pub prefix_text : Prefix → Bytes
prefix_text allowed = codes "allowed"
prefix_text blocked = codes "blocked"
prefix_text audit = codes "audit"
prefix_text redirected = codes "redirected"
prefix_text dns_redirected = codes "dns_redirected"

abbrev pub action_of : Prefix → Action
action_of allowed = Action.allowed
action_of blocked = Action.blocked
action_of audit = Action.audit
action_of redirected = Action.redirected
action_of dns_redirected = Action.redirected

map_prefix_to_action-prefix_text :
    (p : Prefix) → map_prefix_to_action (prefix_text p) ≡ some (action_of p)
unfolding map_prefix_to_action contains lower
map_prefix_to_action-prefix_text allowed = refl
map_prefix_to_action-prefix_text blocked = refl
map_prefix_to_action-prefix_text audit = refl
map_prefix_to_action-prefix_text redirected = refl
map_prefix_to_action-prefix_text dns_redirected = refl

is_empty-snoc : (xs : Bytes) (d : ℕ) (ys : Bytes) → is_empty (xs ++ (d ∷ ys)) ≡ false
is_empty-snoc [] d ys = refl
is_empty-snoc (x ∷ xs) d ys = refl

endpoint-nonempty : (ip : Bytes) (port : ℕ) → is_empty (endpoint ip port) ≡ false
endpoint-nonempty [] port = refl
endpoint-nonempty (c ∷ ip) port = refl

hex_digits-nonempty : (fuel n : ℕ) → is_empty (hex_digits (suc fuel) n) ≡ false
unfolding hex_digits
hex_digits-nonempty fuel n = elim (Bool-cases (ltb n 16)) [
  | inl e ↦ rw e refl
  | inr e ↦ rw e (is_empty-snoc (hex_digits fuel (n / 16)) _ [])
]

flow_id-nonempty :
    (a : Bytes) (b : ℕ) (c : Bytes) (d : ℕ) (proto : Bytes)
    → is_empty (flow_id a b c d proto) ≡ false
unfolding flow_id
flow_id-nonempty a b c d proto =
    hex_digits-nonempty 15 (fnv64a fnv_offset (flow_text a b c d proto))

-- The proxy writes the protocol in lower case and the packet reader in upper case.
flow_id-tcp :
    (a : Bytes) (b : ℕ) (c : Bytes) (d : ℕ)
    → flow_id a b c d (codes "tcp") ≡ flow_id a b c d (codes "TCP")
unfolding flow_id flow_text
flow_id-tcp a b c d = refl

emit_synthetic-flow :
    (component : Component) (remote : Option Bytes) (target : Bytes) (line : LogLine) (flow : Bytes)
    → emit_synthetic true component remote target ≡ some (line, flow)
    → flow
      ≡ flow_id
          (source_addr remote).0
          (source_addr remote).1
          (parse_host_port target).0
          (parse_host_port target).1
          (codes "tcp")
unfolding emit_synthetic emit_synthetic_flow
emit_synthetic-flow component remote target line flow e = ground (arith, e)

abbrev is_redirect : Prefix → Bool
is_redirect redirected = true
is_redirect dns_redirected = true
is_redirect _ = false

quiet_lem :
    (now : ℕ) (recent : RecentSynthetic) (p : Prefix) (flow flow' : Bytes) (pkt : PacketInfo)
    (n : ℕ)
    → flow ≡ flow'
    → is_empty flow ≡ false
    → is_synthetic_recent now flow recent ≡ true
    → is_redirect p ≡ true
    → process_action_event now recent (action_of p) flow' pkt n ≡ []
unfolding process_action_event
quiet_lem now recent redirected flow flow' pkt n e c r k = rw (← e, c, r) refl
quiet_lem now recent dns_redirected flow flow' pkt n e c r k = rw (← e, c, r) refl
quiet_lem now recent allowed flow flow' pkt n e c r k = absurd (ground (arith, k))
quiet_lem now recent blocked flow flow' pkt n e c r k = absurd (ground (arith, k))
quiet_lem now recent audit flow flow' pkt n e c r k = absurd (ground (arith, k))

-- A packet of the sizes that are read, with a TCP layer between these addresses and ports.
pub record IsSegment (d : Decoder) (payload : Bytes) (source destination : Bytes × ℕ) : Type 0 where
  pub long : 20 ≤ length payload
  pub layers : Layers
  pub decoded : parse_ip_layer d payload ≡ some layers
  pub ports : layers.tcp_ports ≡ some (source.1, destination.1)
  pub from : layers.source ≡ source.0
  pub to : layers.destination ≡ destination.0
  pub known : (is_empty source.0 || is_empty destination.0) ≡ false

module _ (d : Decoder) (payload : Bytes) (source destination : Bytes × ℕ)
    (s : IsSegment d payload source destination) where
  packet_lem :
      let pkt = parse_packet_info d payload in
      (pkt.source_ip ≡ source.0)
      × (pkt.source_port ≡ source.1)
      × (pkt.destination_ip ≡ destination.0)
      × (pkt.destination_port ≡ destination.1)
      × (pkt.protocol ≡ codes "TCP")
  unfolding parse_packet_info
  packet_lem = ground (arith, s.long, s.decoded, s.ports, s.from, s.to)

  flow_lem :
      flow_of (parse_packet_info d payload)
      ≡ flow_id source.0 source.1 destination.0 destination.1 (codes "TCP")
  unfolding flow_of
  flow_lem = let (a, b, c, e, f) = packet_lem in rw (a, b, c, e, f, s.known) refl

  src_lem : (parse_packet_info d payload).src ≡ endpoint source.0 source.1
  unfolding parse_packet_info
  src_lem = ground (arith, s.long, s.decoded, s.ports, s.from, s.to)

  pkt_nonempty :
      (is_empty (parse_packet_info d payload).src && is_empty (parse_packet_info d payload).dst)
      ≡ false
  pkt_nonempty =
      let known = ap is_empty src_lem ∙ endpoint-nonempty source.0 source.1 in ground (arith, known)

  not_short : ltb (length payload) 20 ≡ false
  not_short = ground (arith, s.long)

  hook_lem :
      (now : ℕ) (recent : RecentSynthetic) (p : Prefix)
      → nflog_hook d now recent (some (prefix_text p)) (some payload)
        ≡ process_action_event now recent
            (action_of p)
            (flow_of (parse_packet_info d payload))
            (parse_packet_info d payload)
            (length payload)
  unfolding nflog_hook
  hook_lem now recent p =
      rw (not_short, pkt_nonempty, map_prefix_to_action-prefix_text p, nflog_hook) refl

  -- The HTTP or HTTPS proxy reports the redirect of a TCP connection by `EmitSynthetic`, and at most five
  -- seconds later the kernel's log of a redirect rule hands over a packet of it: nothing is logged,
  -- whatever was reported in between. The clock does not go back, and the TCP packet decodes to the
  -- addresses that the proxy saw. Queries that the DNS proxy reports are not covered.
  pub synthetic-suppresses :
      (component : Component) (remote : Option Bytes) (target : Bytes) (line : LogLine)
      (flow : Bytes)
      → source_addr remote ≡ source
      → parse_host_port target ≡ destination
      → emit_synthetic true component remote target ≡ some (line, flow)
      → (h : History) (t now : ℕ) → IsOrdered h
      → IsPast now h
      → Has (flow, t) h
      → now ≤ t + suppress_window
      → (p : Prefix) → (p ≡ redirected) ⊎ (p ≡ dns_redirected)
      → nflog_hook d now (run h) (some (prefix_text p)) (some payload) ≡ []
  unfolding process_action_event
  synthetic-suppresses component remote target line flow e1 e2 e3 h t now o past m near p q =
      let a = emit_synthetic-flow component remote target line flow e3 in
      let b = flow_id-tcp source.0 source.1 destination.0 destination.1 in
      let same : flow ≡ flow_of (parse_packet_info d payload) =
        a
        ∙ ap
            (λ x.
              flow_id x.0 x.1 (parse_host_port target).0 (parse_host_port target).1 (codes "tcp"))
            e1
        ∙ ap (λ x. flow_id source.0 source.1 x.0 x.1 (codes "tcp")) e2
        ∙ b
        ∙ sym flow_lem in
      let known = flow_id-nonempty source.0 source.1 destination.0 destination.1 (codes "TCP") in
      let c : is_empty flow ≡ false = ap is_empty (same ∙ flow_lem) ∙ known in
      let recent = (is_synthetic_recent_iff h now flow o past).1 (c, (t, m, near)) in
      let kind : is_redirect p ≡ true = elim q [
        | inl e ↦ ap is_redirect e
        | inr e ↦ ap is_redirect e
      ] in
      hook_lem now (run h) p
      ∙ quiet_lem now (run h) p flow (flow_of (parse_packet_info d payload))
          (parse_packet_info d payload) (length payload) same c recent kind
