-- ===== src/ConnFilter/Http.antt =====
-- internal/filter/http_filter.go. What `textproto` makes of the head of a request is a parameter: an
-- error, or the value of the Host header.
use g0efilter.Prelude.{
  Bool, true, false, not, ◌&&◌, Option, none, some, List, [], ◌++◌, if◌then◌else◌,
}
use g0efilter.Text.{Bytes, codes, is_empty, to_lower, trim_suffix}
use g0efilter.Host.{sanitize_host}
use g0efilter.Pattern.{Env}
use g0efilter.Matcher.{Cache, HostMatcher, new_matcher, normalize_patterns}
use g0efilter.Permit.{Options}
use g0efilter.Conn.{http, split_host_port}
use g0efilter.ConnFilter.{ConnOptions, Connection, Event, emit_for_target, decide}

-- The head of a request: the header, `none` for an error, and the bytes that were read.
pub record Head : Type 0 where
  pub host_header : Option Bytes
  pub consumed : Bytes

-- The end of `readHeadWithTextproto`
unfoldable pub normalize_host_header : Bytes → Bytes
normalize_host_header host =
    if is_empty host
    then host
    else trim_suffix (codes ".")
        (to_lower (elim (split_host_port host) [ none ↦ host | some (h, port) ↦ h ]))

-- `readHeadWithTextproto`: the host and whether there was an error.
unfoldable pub read_head_with_textproto : Head → Bytes × Bool
unfolding normalize_host_header
read_head_with_textproto head = elim head.host_header [
  | none ↦ ([], true)
  | some host ↦ (normalize_host_header host, false)
]

-- `validateAndSanitizeHost`
unfoldable pub validate_and_sanitize_host : Bytes → Bytes
validate_and_sanitize_host host = elim (sanitize_host host) [
  | none ↦ []
  | some sanitized ↦ sanitized
]

-- `parseAndValidateHTTP`: the host, whether there was an error, and the events.
unfoldable pub parse_and_validate_http : ConnOptions → Connection → Head → Bytes × Bool × List Event
unfolding validate_and_sanitize_host read_head_with_textproto emit_for_target
parse_and_validate_http c conn head =
    let (raw_host, failed) = read_head_with_textproto head in
    let host = validate_and_sanitize_host raw_host in
    (
      host,
      failed,
      if c.logger && not (is_empty host) && not failed then emit_for_target c http conn else [],
    )

-- `httpViolationReason`
unfoldable pub http_violation_reason : Bytes → Bool → Options → Bytes
http_violation_reason host failed opts =
    if is_empty host
    then codes "no-host"
    else if failed
    then codes "parse-failed"
    else if opts.default_allow
    then codes "denylisted"
    else codes "not-allowlisted"

-- `handleHTTP`
unfoldable pub handle_http :
    Env → ConnOptions → HostMatcher → Connection → Head → Cache → List Event × Cache
unfolding parse_and_validate_http http_violation_reason
handle_http env c allowlist conn head cache =
    let (host, failed, events) = parse_and_validate_http c conn head in
    let reason = http_violation_reason host failed c.opts in
    let (more, cache') = decide env c http allowlist conn host reason head.consumed cache in
    if conn.is_tcp then (events ++ more, cache') else ([], cache)

-- The options that `Serve80` and `Serve443` hand to the handler.
unfoldable pub served_options : Env → ConnOptions → ConnOptions
served_options env c =
    let denylist = normalize_patterns env c.opts.denylist in
    record c {
      opts = record c.opts { denylist = denylist; deny_matcher = some (new_matcher env denylist) };
    }
