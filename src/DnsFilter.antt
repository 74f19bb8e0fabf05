-- ===== src/DnsFilter.antt =====
-- internal/filter/dns_filter.go: the DNS proxy's handler. A request is answered with a list of
-- events, in the order in which the code makes them: log lines, the synthetic flow event, reports to
-- the callbacks and the reply. The limiter and the cache of compiled patterns are passed along. Debug
-- lines, the fields of process attribution and the flow id are left out.
pub mod Replies
pub mod Answered
pub mod Inert
pub mod Served
pub mod Enforced
pub mod Verdict
use g0efilter.Prelude.{
  ℕ, ◌+◌, ◌-◌, Bool, true, false, not, ◌&&◌, ◌||◌, Option, none, some, List, [], ◌∷◌, ◌++◌, map,
  leb, if◌then◌else◌, length, get_or,
}
use g0efilter.Text.{Bytes, codes, is_empty, trim_suffix}
use g0efilter.Host.{sanitize_dns_qname}
use g0efilter.DnsLimiter.{DnsRateLimiter, new_dns_rate_limiter, allow}
use g0efilter.Pattern.{Env}
use g0efilter.Matcher.{Cache, HostMatcher, new_matcher, normalize_patterns}
use g0efilter.Permit.{Options, audited, host_permitted_by, Learned, maybe_learn_host_by}
use g0efilter.Dns.{
  Qtype, type_a, type_aaaa, type_null, type_other, Rcode, format_error, server_failure, name_error,
  refused, Question, Rr, Response, Network, check_exfil_query, check_exfil_response,
  extract_answer_ips, forward,
}

-- `dnsHandler`, without what changes; `logger` is whether `opts.Logger` is set.
pub record DnsHandler : Type 0 where
  pub allowlist : HostMatcher
  pub opts : Options
  pub upstreams : List Bytes
  pub logger : Bool

-- What changes from request to request.
pub record State : Type 0 where
  pub limiter : Option DnsRateLimiter
  pub cache : Cache

-- `createDNSHandler`, with the upstreams from the environment and the two numbers of the limiter.
unfoldable pub create_dns_handler : Env → List Bytes → Options → Bool → List Bytes → DnsHandler
create_dns_handler env allowlist opts logger upstreams =
    let denylist = normalize_patterns env opts.denylist in
    record {
      allowlist = new_matcher env allowlist;
      opts = record {
        default_allow = opts.default_allow;
        denylist = denylist;
        learning_mode = opts.learning_mode;
        on_learn = opts.on_learn;
        on_resolved = opts.on_resolved;
        audit_mode = opts.audit_mode;
        dns_hardening = opts.dns_hardening;
        deny_matcher = some (new_matcher env denylist);
      };
      upstreams = upstreams;
      logger = logger;
    }

pub data Reply : Type 0 where
  error : Rcode → Reply
  sinkhole : Qtype → Reply
  upstream : Response → Reply

pub data LogLine : Type 0 where
  rate_limited_line qname_invalid_line upstream_error_line : LogLine
  hardening_line : Bytes → Bytes → LogLine
  audit_line blocked_line : Bytes → LogLine
  allowed_line : ℕ → LogLine

pub data Event : Type 0 where
  log : LogLine → Event
  synthetic : Bytes → Event
  learned : Learned → Event
  resolved : List Bytes → ℕ → Event
  reply : Reply → Event

-- A log line, where there is a logger.
abbrev pub log_if : Bool → LogLine → List Event
log_if logger line = if logger then log line ∷ [] else []

-- `rateLimited`: the events, whether the request was refused, the limiter.
unfoldable pub rate_limited :
    Bool → ℕ → Bytes → Option DnsRateLimiter → List Event × Bool × Option DnsRateLimiter
rate_limited logger now source none = ([], false, none)
rate_limited logger now source (some l) =
    let (l', passed) = allow l now source in
    if passed
    then ([], false, some l')
    else (log_if logger rate_limited_line ++ (reply (error refused) ∷ []), true, some l')

-- `emitSyntheticEvent`; `local_addr` is empty when the writer has no local address.
unfoldable pub emit_synthetic_event : DnsHandler → Bytes → List Event
emit_synthetic_event h local_addr =
    let dst = if is_empty local_addr then get_or h.upstreams 0 [] else local_addr in
    if not h.logger || is_empty dst then [] else synthetic dst ∷ []

-- `sanitizeAndLogQname`; `none` is a name that is refused.
unfoldable pub sanitize_and_log_qname : Bytes → Option Bytes
sanitize_and_log_qname raw_qname =
    let qname = trim_suffix (codes ".") raw_qname in
    elim (sanitize_dns_qname qname) [
      | none ↦ if is_empty qname then some qname else none
      | some sanitized ↦ some sanitized
    ]

-- `!handler.opts.AuditMode && !handler.opts.LearningMode`
abbrev pub enforcing : Options → Bool
enforcing opts = not opts.audit_mode && not opts.learning_mode

-- The end of `blockExfilQuery` and `blockExfilResponse`: the events and whether it answered.
unfoldable pub block_exfil : DnsHandler → Bytes → Rcode → List Event × Bool
block_exfil h reason rcode =
    let enforce = enforcing h.opts in
    let line =
      log_if h.logger
        (hardening_line (if enforce then codes "BLOCKED" else codes "AUDIT") reason) in
    if is_empty reason
    then ([], false)
    else if not enforce
    then (line, false)
    else (line ++ (reply (error rcode) ∷ []), true)

-- `blockExfilQuery`
unfoldable pub block_exfil_query : DnsHandler → Bytes → Qtype → List Event × Bool
block_exfil_query h qname qtype =
    if not h.opts.dns_hardening || is_empty qname
    then ([], false)
    else block_exfil h (check_exfil_query qname qtype) refused

-- `blockExfilResponse`
unfoldable pub block_exfil_response : Network → DnsHandler → Response → List Event × Bool
block_exfil_response net h resp =
    if not h.opts.dns_hardening
    then ([], false)
    else block_exfil h (check_exfil_response net resp) server_failure

abbrev pub is_address_type : Qtype → Bool
is_address_type type_a = true
is_address_type type_aaaa = true
is_address_type _ = false

-- `handleBlockedEnforcedType` and `handleBlockedNonEnforcedType`
unfoldable pub handle_blocked : DnsHandler → Qtype → List Event
handle_blocked h qtype =
    if is_address_type qtype
    then log_if h.logger (blocked_line (codes "sinkholed-not-allowlisted"))
      ++ (reply (sinkhole qtype) ∷ [])
    else log_if h.logger (blocked_line (codes "nxdomain")) ++ (reply (error name_error) ∷ [])

-- `reportResolvedIPs`
unfoldable pub report_resolved_ips : Network → DnsHandler → Response → List Event
report_resolved_ips net h resp =
    let (ips, ttl) = extract_answer_ips net resp in
    if not h.opts.on_resolved || leb (length ips) 0 then [] else resolved ips ttl ∷ []

-- `handleAllowedRequest` once an upstream answered.
unfoldable pub handle_response : Network → DnsHandler → Bool → Response → List Event
unfolding block_exfil_response report_resolved_ips
handle_response net h fully_permitted resp =
    let (events, answered) = block_exfil_response net h resp in
    let report = if fully_permitted then report_resolved_ips net h resp else [] in
    let line = log_if (h.logger && fully_permitted) (allowed_line resp.rcode) in
    if answered then events else events ++ (report ++ (line ++ (reply (upstream resp) ∷ [])))

-- `handleAllowedRequest`
unfoldable pub handle_allowed_request : Network → DnsHandler → List Question → Bool → List Event
unfolding handle_response
handle_allowed_request net h request fully_permitted = elim (forward net request h.upstreams 0) [
  | none ↦ log_if h.logger upstream_error_line ++ (reply (error server_failure) ∷ [])
  | some resp ↦ handle_response net h fully_permitted resp
]

-- The part of `handle` from the policy on.
unfoldable pub decide :
    Env → Network → DnsHandler → List Question → Bytes → Qtype → Cache → List Event × Cache
decide env net h request qname qtype cache =
    let verdict = host_permitted_by env qname h.allowlist h.opts cache in
    let was_audited = audited verdict.0 h.opts in
    let learns = maybe_learn_host_by env qname h.allowlist h.opts verdict.1 in
    let audit =
      if was_audited then log_if h.logger (audit_line (codes "would-be-blocked")) else [] in
    let served =
      audit ++ (map learned learns.0 ++ handle_allowed_request net h request (not was_audited)) in
    if not was_audited && not verdict.0
    then (handle_blocked h qtype, verdict.1)
    else (served, learns.1)

-- The part of `handle` from the question on.
unfoldable pub handle_question :
    Env → Network → DnsHandler → List Question → Question → Cache → List Event × Cache
unfolding decide
handle_question env net h request question cache = elim (sanitize_and_log_qname question.name) [
  | none ↦ (log_if h.logger qname_invalid_line ++ (reply (error refused) ∷ []), cache)
  | some qname ↦
      let (events, answered) = block_exfil_query h qname question.qtype in
      let rest = decide env net h request qname question.qtype cache in
      if answered then (events, cache) else (events ++ rest.0, rest.1)
]

abbrev handle_request : Env → Network → DnsHandler → List Question → Cache → List Event × Cache
handle_request env net h [] cache = (reply (error format_error) ∷ [], cache)
handle_request env net h (question ∷ rest) cache =
    handle_question env net h (question ∷ rest) question cache

-- `handle`
unfoldable pub handle :
    Env → Network → DnsHandler → ℕ → Bytes → Bytes → List Question → State → List Event × State
handle env net h now source local_addr request st =
    let (events, answered, limiter) = rate_limited h.logger now source st.limiter in
    let rest = handle_request env net h request st.cache in
    if answered then (events, record { limiter = limiter; cache = st.cache }) else (
      events ++ (emit_synthetic_event h local_addr ++ rest.0),
      record { limiter = limiter; cache = rest.1 },
    )
