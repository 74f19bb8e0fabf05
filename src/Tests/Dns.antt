-- ===== src/Tests/Dns.antt =====
-- The DNS proxy.
use g0efilter.Prelude.{
  ◌≤◌, ◌≡◌, refl, inl, inr, true, false, none, some, List, [], ◌∷◌, arith, All, Any, Has,
}
use g0efilter.Text.{Bytes, codes, split, is_empty, to_lower, trim_suffix}
use g0efilter.Assoc.{lookup, insert}
use g0efilter.Host.{sanitize_dns_qname}
use g0efilter.Pattern.{Env}
use g0efilter.Matcher.{Cache, new_matcher, allows}
use g0efilter.Matcher.Cached.{IsCoherent}
use g0efilter.Permit.{Options}
use g0efilter.Permit.Table.{IsPrepared}
use g0efilter.Dns.{
  type_a, type_null, Question, a, txt, other, null, Rr, Response, Network, udp, check_exfil_query,
  check_exfil_response, extract_answer_ips, forward,
}
use g0efilter.Prelude.{◌||◌}
use g0efilter.DnsFilter.Verdict.{IsClean, Refuses, decide-forwards, decide-Refuses}
use g0efilter.Permit.Table.{policy}
use g0efilter.Dns.{check_exfil_response}
use g0efilter.DnsFilter.{
  decide, handle_blocked, DnsHandler, State, create_dns_handler, Event, reply, upstream, handle,
}
use g0efilter.DnsFilter.Answered.{handle-IsAnswered}
use g0efilter.DnsFilter.Replies.{IsAnswered}
use g0efilter.DnsFilter.Enforced.{IsEnforced, handle-IsEnforced}
use g0efilter.Dns.Forward.{IsWhole, forward_sound, forward_complete}
use g0efilter.Dns.Addresses.{addresses, extract_answer_ips_lem}

abbrev answer : Response
answer = record {
  truncated = false;
  rcode = 0;
  answer = a (some (10 ∷ 0 ∷ 0 ∷ 1 ∷ [])) 300 ∷ other ∷ a (some (10 ∷ 0 ∷ 0 ∷ 2 ∷ [])) 60 ∷ [];
}

-- Every exchange gives the answer.
abbrev net : Network
net = record {
  exchange = λ n p up q. some answer;
  expired = λ _. false;
  message_length = λ r. 100;
  ip_string = λ s. s;
}

abbrev request : List Question
request = record { name = codes "www.example.com."; qtype = type_a } ∷ []

abbrev upstreams : List Bytes
upstreams = codes "127.0.0.11:53" ∷ []

answered : forward net request upstreams 0 ≡ some answer
unfolding forward
answered = refl

forward_sound_example : Any (λ up. IsWhole net request up answer) upstreams
forward_sound_example = forward_sound net request upstreams 0 answer answered

forward_complete_example : (r : Response) × (forward net request upstreams 0 ≡ some r)
forward_complete_example =
    forward_complete net request upstreams 0 (inl (λ n p. (answer, refl))) (λ n l. refl)

two_addresses :
    addresses answer.answer ≡ (10 ∷ 0 ∷ 0 ∷ 1 ∷ [], 300) ∷ (10 ∷ 0 ∷ 0 ∷ 2 ∷ [], 60) ∷ []
unfolding addresses
two_addresses = refl

extract_answer_ips_lem_example :
    ((extract_answer_ips net answer).0 ≡ (10 ∷ 0 ∷ 0 ∷ 1 ∷ []) ∷ (10 ∷ 0 ∷ 0 ∷ 2 ∷ []) ∷ [])
    × All (λ y. (extract_answer_ips net answer).1 ≤ y.1) (addresses answer.answer)
    × Any (λ y. y.1 ≡ (extract_answer_ips net answer).1) (addresses answer.answer)
unfolding addresses
extract_answer_ips_lem_example =
    extract_answer_ips_lem net answer (10 ∷ 0 ∷ 0 ∷ 1 ∷ [], 300) ((10 ∷ 0 ∷ 0 ∷ 2 ∷ [], 60) ∷ [])
      two_addresses

abbrev pub env : Env
env = record {
  regexp_compile = λ _. none;
  to_ascii = λ s. some s;
  parse_ip = λ _. false;
  parse_cidr = λ _. false;
  is_upper = λ _. false;
}

pub empty_cache-IsCoherent : IsCoherent env []
unfolding IsCoherent lookup
empty_cache-IsCoherent = λ p re h. absurd (ground arith)

abbrev pub allowlist : List Bytes
allowlist = codes "*.example.com" ∷ []

abbrev pub options : Options
options = record {
  default_allow = false;
  denylist = [];
  learning_mode = false;
  on_learn = false;
  on_resolved = true;
  audit_mode = false;
  dns_hardening = true;
  deny_matcher = none;
}

abbrev handler : DnsHandler
handler = record {
  allowlist = new_matcher env allowlist;
  opts = options;
  upstreams = upstreams;
  logger = true;
}

abbrev fresh : State
fresh = record { limiter = none; cache = [] }

options-IsPrepared : IsPrepared env options
unfolding IsPrepared
options-IsPrepared = inl refl

handle-IsAnswered_example :
    IsAnswered (handle env net handler 5 (codes "10.0.0.9") [] request fresh).0
handle-IsAnswered_example = handle-IsAnswered env net handler 5 (codes "10.0.0.9") [] request fresh

sent :
    Has (reply (upstream answer)) (handle env net handler 5 (codes "10.0.0.9") [] request fresh).0
unfolding g0efilter.Dns.address_of handle lookup g0efilter.Assoc.delete_where insert
    g0efilter.Assoc.remove g0efilter.Dns.ask_tcp g0efilter.Dns.ask_upstream check_exfil_response
    g0efilter.Dns.collect_ips extract_answer_ips forward g0efilter.Dns.lower_ttl
    g0efilter.Dns.txt_bytes g0efilter.DnsFilter.block_exfil_response g0efilter.DnsFilter.decide
    g0efilter.DnsFilter.handle_allowed_request g0efilter.DnsFilter.handle_blocked
    g0efilter.DnsFilter.handle_response g0efilter.DnsFilter.report_resolved_ips
    g0efilter.Matcher.add_pattern g0efilter.Matcher.add_patterns g0efilter.Matcher.cached_compile
    g0efilter.Matcher.compile_wildcard g0efilter.Matcher.match_pattern new_matcher
    g0efilter.Matcher.normalize_domain g0efilter.Matcher.scan_patterns
    g0efilter.Pattern.is_regex_pattern g0efilter.Permit.deny_matcher_of
    g0efilter.Permit.maybe_learn_host_by g0efilter.Text.contains g0efilter.Text.has_suffix
    g0efilter.Text.trim_left g0efilter.Text.trim_right g0efilter.Text.trim_space
    g0efilter.DnsFilter.rate_limited g0efilter.DnsFilter.emit_synthetic_event
    g0efilter.DnsFilter.handle_question g0efilter.DnsFilter.sanitize_and_log_qname trim_suffix
    sanitize_dns_qname split g0efilter.Text.lower g0efilter.Host.is_valid_dns_qname_label
    g0efilter.Host.is_valid_dns_char g0efilter.DnsFilter.block_exfil_query
    g0efilter.DnsFilter.block_exfil check_exfil_query g0efilter.Permit.audited
    g0efilter.Permit.host_permitted_by allows
sent = inr (inr (inr (inl refl)))

handle-IsEnforced_example : IsEnforced env net handler allowlist request (reply (upstream answer))
handle-IsEnforced_example =
    handle-IsEnforced env net handler allowlist 5 (codes "10.0.0.9") [] request fresh
      (reply (upstream answer)) refl refl options-IsPrepared empty_cache-IsCoherent sent

www_permitted :
    (policy env allowlist options (codes "www.example.com") || options.audit_mode) ≡ true
unfolding policy g0efilter.Matcher.Cached.listed g0efilter.Matcher.Cached.covers
    g0efilter.Matcher.normalize_domain g0efilter.Matcher.compile_wildcard
    g0efilter.Pattern.is_regex_pattern g0efilter.Text.has_suffix g0efilter.Text.trim_space
    g0efilter.Text.trim_left g0efilter.Text.trim_right trim_suffix g0efilter.Text.lower
    g0efilter.Text.contains
www_permitted = refl

evil_refused : policy env allowlist options (codes "evil.org") ≡ false
unfolding policy g0efilter.Matcher.Cached.listed g0efilter.Matcher.Cached.covers
    g0efilter.Matcher.normalize_domain g0efilter.Matcher.compile_wildcard
    g0efilter.Pattern.is_regex_pattern g0efilter.Text.has_suffix g0efilter.Text.trim_space
    g0efilter.Text.trim_left g0efilter.Text.trim_right trim_suffix g0efilter.Text.lower
    g0efilter.Text.contains
evil_refused = refl

answer-IsClean : IsClean net handler answer
unfolding check_exfil_response g0efilter.Dns.txt_bytes
answer-IsClean = refl

decide-forwards_example :
    Has
      (reply (upstream answer))
      (decide env net handler request (codes "www.example.com") type_a []).0
decide-forwards_example =
    decide-forwards env net handler allowlist request (codes "www.example.com") type_a [] refl
      options-IsPrepared empty_cache-IsCoherent answer www_permitted answered answer-IsClean

decide-Refuses_example :
    Refuses type_a (decide env net handler request (codes "evil.org") type_a []).0
decide-Refuses_example =
    decide-Refuses env net handler allowlist request (codes "evil.org") type_a [] refl
      options-IsPrepared empty_cache-IsCoherent evil_refused refl
