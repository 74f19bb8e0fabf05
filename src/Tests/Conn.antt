-- ===== src/Tests/Conn.antt =====
-- The connection filters, the flow ids and the kernel's log.
use g0efilter.Prelude.{
  ℕ, ◌+◌, ◌≤◌, ◌≡◌, refl, ◌↔◌, inl, inr, true, false, none, some, [], ◌∷◌, arith, if◌then◌else◌,
  replicate, Has,
}
use g0efilter.Text.{Bytes, codes, is_empty, contains}
use g0efilter.Text.Number.{numeral, digits_value}
use g0efilter.Matcher.{new_matcher}
use g0efilter.Nftables.{redirected}
use g0efilter.Flow.{flow_id, is_synthetic_recent, suppress_window}
use g0efilter.Flow.Recent.{History, run, is_synthetic_recent_iff}
use g0efilter.Conn.{
  http, https, LogLine, source_addr, parse_host_port, split_host_port, cut, cut_last,
  emit_synthetic, emit_synthetic_flow,
}
use g0efilter.Nflog.{Layers, Decoder, parse_ip_layer, nflog_hook}
use g0efilter.Nflog.Suppressed.{IsSegment, prefix_text, synthetic-suppresses}
use g0efilter.ConnFilter.{ConnOptions, Connection}
use g0efilter.ConnFilter.Http.{Head, handle_http, served_options}
use g0efilter.ConnFilter.Contacts.{view, nothing}
use g0efilter.ConnFilter.Decided.{outcome}
use g0efilter.ConnFilter.Served.{host_of, IsAccepted, handle_http-outcome}
use g0efilter.Tests.Dns.{env, allowlist, options, empty_cache-IsCoherent}

abbrev pub conn_options : ConnOptions
conn_options = record { opts = options; logger = true; drop_with_rst = true; proc_info = none }

-- A client whose original destination is known and answers.
abbrev pub conn : Connection
conn = record {
  is_tcp = true;
  remote = some (codes "172.17.0.2:40000");
  original_dst = some (codes "10.0.0.7:443");
  dial_error = λ t. none;
}

abbrev head : Head
head = record { host_header = some (codes "www.Example.com:80"); consumed = codes "GET / HTTP/1.1" }

handle_http-outcome_example :
    (view
        (handle_http env
          (served_options env conn_options)
          (new_matcher env allowlist)
          conn
          head
          []).0
      ≡ (if conn.is_tcp
          then outcome env (served_options env conn_options) allowlist http conn (host_of head)
          else nothing))
    × IsAccepted (host_of head)
handle_http-outcome_example =
    handle_http-outcome env conn_options allowlist conn [] empty_cache-IsCoherent head

abbrev source : Bytes × ℕ
source = (codes "172.17.0.2", 40000)

abbrev destination : Bytes × ℕ
destination = (codes "10.0.0.7", 443)

abbrev flow : Bytes
flow = flow_id source.0 source.1 destination.0 destination.1 (codes "tcp")

-- Another flow is marked afterwards.
abbrev history : History
history = (codes "cafe", 9) ∷ (flow, 5) ∷ []

is_synthetic_recent_iff_example :
    (is_synthetic_recent 10 flow (run history) ≡ true)
    ↔ ((is_empty flow ≡ false) × ((t : ℕ) × Has (flow, t) history × (10 ≤ t + suppress_window)))
is_synthetic_recent_iff_example =
    is_synthetic_recent_iff history 10 flow ((omega arith, tt), (tt, tt))
      (omega arith, (omega arith, tt))

abbrev layers : Layers
layers = record {
  source = source.0;
  destination = destination.0;
  protocol_number = 6;
  tcp_ports = some (40000, 443);
  udp_ports = none;
}

abbrev decoder : Decoder
decoder = record { ipv4_layers = λ s. some layers; ipv6_layers = λ s. none }

abbrev payload : Bytes
payload = replicate 40 69

payload-IsSegment : IsSegment decoder payload source destination
unfolding parse_ip_layer
payload-IsSegment = record {
  long = omega arith;
  layers = layers;
  decoded = refl;
  ports = refl;
  from = refl;
  to = refl;
  known = refl;
}

source_lem : source_addr conn.remote ≡ source
unfolding source_addr split_host_port cut cut_last contains numeral digits_value
source_lem = refl

destination_lem : parse_host_port (codes "10.0.0.7:443") ≡ destination
unfolding parse_host_port split_host_port cut cut_last contains numeral digits_value
destination_lem = refl

emitted :
    (line : LogLine) × (emit_synthetic true https conn.remote (codes "10.0.0.7:443")
      ≡ some (line, flow))
unfolding emit_synthetic emit_synthetic_flow source_addr parse_host_port split_host_port cut
    cut_last contains numeral digits_value
emitted = (_, refl)

synthetic-suppresses_example :
    nflog_hook decoder 10 (run history) (some (prefix_text redirected)) (some payload) ≡ []
synthetic-suppresses_example =
    synthetic-suppresses decoder payload source destination payload-IsSegment https conn.remote
      (codes "10.0.0.7:443") emitted.0 flow source_lem destination_lem emitted.1 history 5 10
      ((omega arith, tt), (tt, tt)) (omega arith, (omega arith, tt)) (inr (inl refl)) (omega arith)
      redirected (inl refl)
