-- ===== src/ConnFilter/Https.antt =====
-- internal/filter/https_filter.go. The client's bytes are what it sends until the reader of the
-- ClientHello stops; those that the reader took are a parameter.
use g0efilter.Prelude.{not, ◌&&◌, none, some, List, [], ◌++◌, if◌then◌else◌}
use g0efilter.Text.{Bytes, codes, is_empty, to_lower, trim_suffix}
use g0efilter.Host.{sanitize_host}
use g0efilter.Hello.Reader.{Cryptobyte}
use g0efilter.Hello.{Result, ok, err, read_client_hello_sni}
use g0efilter.Pattern.{Env}
use g0efilter.Matcher.{Cache, HostMatcher}
use g0efilter.Permit.{Options}
use g0efilter.Conn.{https}
use g0efilter.ConnFilter.{ConnOptions, Connection, Event, emit_for_target, decide}

-- The name of `extractSNIFromConnection`, from what the reader returned: lower-cased, without a final
-- dot, and empty when the reader failed or the name is not a valid host.
unfoldable pub sni_of_result : Result Bytes → Bytes
sni_of_result (err e) = []
sni_of_result (ok raw_sni) = elim (sanitize_host (trim_suffix (codes ".") (to_lower raw_sni))) [
  | none ↦ []
  | some sanitized ↦ sanitized
]

-- `peekClientHello`, and the name.
unfoldable pub sni_of : Cryptobyte → Bytes → Bytes
unfolding sni_of_result
sni_of cb stream = sni_of_result (read_client_hello_sni cb stream)

-- `extractSNIFromConnection`: the name and the events.
unfoldable pub extract_sni_from_connection :
    Cryptobyte → ConnOptions → Connection → Bytes → Bytes × List Event
unfolding sni_of emit_for_target
extract_sni_from_connection cb c conn stream =
    let sni = sni_of cb stream in
    (
      sni,
      if c.logger && not (is_empty sni) && conn.is_tcp then emit_for_target c https conn else [],
    )

-- The reason of `httpsViolationContext`.
unfoldable pub https_violation_reason : Bytes → Options → Bytes
https_violation_reason sni opts =
    if is_empty sni
    then codes "no-sni"
    else if opts.default_allow
    then codes "denylisted"
    else codes "not-allowlisted"

-- `handle`
unfoldable pub handle_https :
    Env
    → Cryptobyte
    → ConnOptions
    → HostMatcher
    → Connection
    → Bytes
    → Bytes
    → Cache
    → List Event × Cache
unfolding extract_sni_from_connection https_violation_reason
handle_https env cb c allowlist conn stream buffered cache =
    let (sni, events) = extract_sni_from_connection cb c conn stream in
    let reason = https_violation_reason sni c.opts in
    let (more, cache') = decide env c https allowlist conn sni reason buffered cache in
    if conn.is_tcp then (events ++ more, cache') else ([], cache)
