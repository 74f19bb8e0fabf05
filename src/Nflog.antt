-- ===== src/Nflog.antt =====
-- internal/nftables/nftables.go: the packets that the log rules hand over. The decoders of the packet
-- library are parameters. A log line is as in Conn.
pub mod Suppressed
use g0efilter.Prelude.{
  ℕ, zero, suc, ◌+◌, ◌-◌, ◌*◌, ◌/◌, ◌%◌, ◌^◌, ◌≤◌, ◌<◌, ◌≡◌, refl, sym, ap, ◌∙◌, ◌≢◌, ◌↔◌, ◌⊎◌, inl,
  inr, Bool, true, false, not, ◌&&◌, ◌||◌, Option, none, some, List, [], ◌∷◌, ◌++◌, map, arith, ltb,
  leb, ◌==◌, if◌then◌else◌, ltb→lt, lt→ltb, leb→le, ==_iff, tests, Bool-cases, Option-cases, length,
  get_elem?, get_or, replicate, length-append, length-set, get_elem?-set_self, get_elem?-set_ne,
  take-append-drop, length-take, length-drop, length-replicate, length-map, All, Any, Has, all,
  all_iff, All-of_all, all_of_All, All-append, All-mono, dec_lt, ℕ_discrete, filter, take_whole,
  length-take_bound,
}
use g0efilter.Text.{Bytes, codes, equal, is_empty, contains, to_lower, trim_space}
use g0efilter.Text.Number.{itoa, parse_uint32}
use g0efilter.Flow.{RecentSynthetic, flow_id, is_synthetic_recent}
use g0efilter.Conn.{debug, warn, text, number, Fields, LogLine}

abbrev pub min_packet_size : ℕ
min_packet_size = 20

abbrev positive_or : ℕ → Option ℕ → ℕ
positive_or default none = default
positive_or default (some n) = if ltb 0 n then n else default

-- `parseNflogConfig`, with the texts of `NFLOG_BUFSIZE` and `NFLOG_QTHRESH`.
unfoldable pub parse_nflog_config : Bytes → Bytes → ℕ × ℕ
parse_nflog_config bufsize qthresh = (
  positive_or 96 (parse_uint32 (trim_space bufsize)),
  positive_or 50 (parse_uint32 (trim_space qthresh)),
)

-- What the library finds in a packet: the texts of the addresses, the number of the protocol, and the
-- ports of a TCP and of a UDP layer.
pub record Layers : Type 0 where
  pub source : Bytes
  pub destination : Bytes
  pub protocol_number : ℕ
  pub tcp_ports : Option (ℕ × ℕ)
  pub udp_ports : Option (ℕ × ℕ)

pub record Decoder : Type 0 where
  pub ipv4_layers : Bytes → Option Layers
  pub ipv6_layers : Bytes → Option Layers

-- `parseIPLayer`
unfoldable pub parse_ip_layer : Decoder → Bytes → Option Layers
parse_ip_layer d [] = none
parse_ip_layer d (c ∷ s) =
    if c / 16 == 4
    then d.ipv4_layers (c ∷ s)
    else if c / 16 == 6
    then d.ipv6_layers (c ∷ s)
    else none

-- `PacketInfo`
pub record PacketInfo : Type 0 where
  pub src : Bytes
  pub dst : Bytes
  pub protocol : Bytes
  pub source_ip : Bytes
  pub destination_ip : Bytes
  pub source_port : ℕ
  pub destination_port : ℕ

abbrev pub no_packet_info : PacketInfo
no_packet_info = record {
  src = [];
  dst = [];
  protocol = [];
  source_ip = [];
  destination_ip = [];
  source_port = 0;
  destination_port = 0;
}

-- `fmt.Sprintf("%s:%d", ip, port)`
abbrev pub endpoint : Bytes → ℕ → Bytes
endpoint ip port = ip ++ codes ":" ++ itoa port

abbrev with_ports : Layers → Bytes → ℕ → ℕ → PacketInfo
with_ports l proto sport dport = record {
  src = endpoint l.source sport;
  dst = endpoint l.destination dport;
  protocol = proto;
  source_ip = l.source;
  destination_ip = l.destination;
  source_port = sport;
  destination_port = dport;
}

abbrev without_ports : Layers → PacketInfo
without_ports l = record {
  src = l.source;
  dst = l.destination;
  protocol = itoa l.protocol_number;
  source_ip = l.source;
  destination_ip = l.destination;
  source_port = 0;
  destination_port = 0;
}

-- `parsePacketInfo`
unfoldable pub parse_packet_info : Decoder → Bytes → PacketInfo
parse_packet_info d payload =
    if ltb (length payload) min_packet_size
    then no_packet_info
    else elim (parse_ip_layer d payload) [
      | none ↦ no_packet_info
      | some l ↦ elim l.tcp_ports [
        | some (sport, dport) ↦ with_ports l (codes "TCP") sport dport
        | none ↦ elim l.udp_ports [
          | some (sport, dport) ↦ with_ports l (codes "UDP") sport dport
          | none ↦ without_ports l
        ]
      ]
    ]

pub data Action : Type 0 where
  allowed blocked redirected audit : Action

-- `actions.ActionAllowed` and the other texts.
abbrev pub action_text : Action → Bytes
action_text allowed = codes "ALLOWED"
action_text blocked = codes "BLOCKED"
action_text redirected = codes "REDIRECTED"
action_text audit = codes "AUDIT"

-- `mapPrefixToAction`; `none` is the empty text.
unfoldable pub map_prefix_to_action : Bytes → Option Action
map_prefix_to_action prefix_text =
    let pl = to_lower prefix_text in
    if contains (codes "redirect") pl
    then some redirected
    else if contains (codes "block") pl
    then some blocked
    else if contains (codes "audit") pl
    then some audit
    else if contains (codes "allow") pl
    then some allowed
    else none

abbrev text_field : Bytes → Bytes → Fields
text_field key value = if is_empty value then [] else (key, text value) ∷ []

abbrev number_field : Bytes → ℕ → Fields
number_field key value = if value == 0 then [] else (key, number value) ∷ []

-- `buildLogFields`
unfoldable pub build_log_fields : PacketInfo → Bytes → ℕ → Fields
build_log_fields pkt flow payload_len =
    (codes "protocol", text pkt.protocol)
      ∷ (codes "payload_len", number payload_len)
      ∷ text_field (codes "src") pkt.src
    ++ text_field (codes "dst") pkt.dst
    ++ text_field (codes "source_ip") pkt.source_ip
    ++ number_field (codes "source_port") pkt.source_port
    ++ text_field (codes "destination_ip") pkt.destination_ip
    ++ number_field (codes "destination_port") pkt.destination_port
    ++ text_field (codes "flow_id") flow

abbrev is_redirected : Action → Bool
is_redirected redirected = true
is_redirected _ = false

abbrev is_quiet : Action → Bool
is_quiet redirected = true
is_quiet allowed = true
is_quiet _ = false

-- `processActionEvent`, at a time.
unfoldable pub process_action_event :
    ℕ → RecentSynthetic → Action → Bytes → PacketInfo → ℕ → List LogLine
process_action_event now recent action flow pkt payload_len =
    if is_redirected action && not (is_empty flow) && is_synthetic_recent now flow recent
    then []
    else record {
      level = if is_quiet action then debug else warn;
      message = codes "nflog.event";
      fields =
          build_log_fields pkt flow payload_len
          ++ ((codes "action", text (action_text action)) ∷ []);
    }
      ∷ []

-- The flow of a packet, where both addresses are known.
unfoldable pub flow_of : PacketInfo → Bytes
flow_of pkt =
    if is_empty pkt.source_ip || is_empty pkt.destination_ip
    then []
    else flow_id pkt.source_ip pkt.source_port pkt.destination_ip pkt.destination_port pkt.protocol

abbrev or_empty : Option Bytes → Bytes
or_empty none = []
or_empty (some s) = s

-- The callback of `createNflogHook`, at a time. It always returns 0.
unfoldable pub nflog_hook :
    Decoder → ℕ → RecentSynthetic → Option Bytes → Option Bytes → List LogLine
unfolding flow_of
nflog_hook d now recent attr_prefix attr_payload =
    let prefix_text = or_empty attr_prefix in
    let payload = or_empty attr_payload in
    let pkt = parse_packet_info d payload in
    if ltb (length payload) min_packet_size
    then []
    else if is_empty pkt.src && is_empty pkt.dst
    then []
    else elim (map_prefix_to_action prefix_text) [
      | some action ↦ process_action_event now recent action (flow_of pkt) pkt (length payload)
      | none ↦
          record {
            level = debug;
            message = codes "nflog.packet";
            fields =
                (codes "prefix", text prefix_text)
                ∷ (codes "protocol", text pkt.protocol)
                ∷ (codes "src", text pkt.src)
                ∷ (codes "dst", text pkt.dst)
                ∷ (codes "payload_len", number (length payload))
                ∷ [];
          }
          ∷ []
    ]
