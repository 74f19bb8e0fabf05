-- ===== src/ConnFilter/Served.antt =====
-- internal/filter/http_filter.go and internal/filter/https_filter.go: the two handlers, with the options
-- that `Serve80` and `Serve443` hand them.
use g0efilter.Prelude.{
  ◌≡◌, refl, ap, ◌∙◌, ◌⊎◌, inl, inr, Bool, true, false, not, ◌&&◌, some, List, [], ◌++◌,
  if◌then◌else◌, Option-cases,
}
use g0efilter.Text.{Bytes, codes, is_empty, to_lower, trim_suffix}
use g0efilter.Host.{sanitize_host}
use g0efilter.Host.Valid.{IsHost}
use g0efilter.Host.Sanitize.{sanitize_host_iff}
use g0efilter.Hello.{Result, ok, err, read_client_hello_sni}
use g0efilter.Hello.Reader.{Cryptobyte}
use g0efilter.Pattern.{Env}
use g0efilter.Matcher.{Cache, new_matcher}
use g0efilter.Matcher.Cached.{IsCoherent}
use g0efilter.Permit.Table.{IsPrepared}
use g0efilter.Conn.{Component, http, https}
use g0efilter.ConnFilter.{ConnOptions, Connection, Event, emit_for_target, decide}
use g0efilter.ConnFilter.Http.{
  Head, validate_and_sanitize_host, read_head_with_textproto, parse_and_validate_http,
  http_violation_reason, handle_http, served_options,
}
use g0efilter.ConnFilter.Https.{
  sni_of_result, sni_of, extract_sni_from_connection, https_violation_reason, handle_https,
}
use g0efilter.ConnFilter.Contacts.{View, view, join, nothing, view-append, emit_for_target-view}
use g0efilter.ConnFilter.Decided.{outcome, decide-outcome}

-- The name of the request, and that of the ClientHello, as the policy is asked about it.
unfoldable pub host_of : Head → Bytes
host_of head = validate_and_sanitize_host (read_head_with_textproto head).0

-- A name that is accepted, or none.
abbrev pub IsAccepted : Bytes → Type 0
IsAccepted s = (s ≡ []) ⊎ IsHost s

sanitized_IsHost : (s t : Bytes) → sanitize_host s ≡ some t → IsHost t
sanitized_IsHost s t e = let h = (sanitize_host_iff s t).0 e in rw h.0 h.1

validate_and_sanitize_host-IsAccepted : (s : Bytes) → IsAccepted (validate_and_sanitize_host s)
unfolding validate_and_sanitize_host
validate_and_sanitize_host-IsAccepted s = elim (Option-cases (sanitize_host s)) [
  | inl e ↦ rw (e, validate_and_sanitize_host) (inl refl)
  | inr (t, e) ↦ rw (e, validate_and_sanitize_host) (inr (sanitized_IsHost s t e))
]

sni_of_result-IsAccepted : (r : Result Bytes) → IsAccepted (sni_of_result r)
unfolding sni_of_result
sni_of_result-IsAccepted (err e) = inl refl
sni_of_result-IsAccepted (ok raw_sni) =
    let s = trim_suffix (codes ".") (to_lower raw_sni) in
    elim (Option-cases (sanitize_host s)) [
      | inl e ↦ rw (e, sni_of_result) (inl refl)
      | inr (t, e) ↦ rw (e, sni_of_result) (inr (sanitized_IsHost s t e))
    ]

prepared : (env : Env) (c : ConnOptions) → IsPrepared env (served_options env c).opts
unfolding IsPrepared served_options
prepared env c = inr refl

emitted_view :
    (b : Bool) (c : ConnOptions) (component : Component) (conn : Connection)
    → view (if b then emit_for_target c component conn else []) ≡ nothing
unfolding view
emitted_view true c component conn = emit_for_target-view c component conn
emitted_view false c component conn = refl

-- The handler of a TCP connection: synthetic events first, then the decision.
handler_view :
    (is_tcp : Bool) (es : List Event) (r : List Event × Cache) (cache : Cache) (v : View)
    → view es ≡ nothing
    → view r.0 ≡ v
    → view (if◌then◌else◌ {A = List Event × Cache} is_tcp (es ++ r.0, r.1) ([], cache)).0
      ≡ (if is_tcp then v else nothing)
unfolding view
handler_view true es r cache v a b = view-append es r.0 ∙ ap (λ t. join t (view r.0)) a ∙ b
handler_view false es r cache v a b = refl

module _ (env : Env) (options : ConnOptions) (allowlist : List Bytes) (conn : Connection)
    (cache : Cache) (coherent : IsCoherent env cache) where
  abbrev c : ConnOptions
  c = served_options env options

  -- An HTTP connection, with a coherent cache: the policy is asked about a valid host name, or about the
  -- empty name where the head has an error, no host or no valid one; what is dialled, joined, learned,
  -- logged and reset is what that name leads to, and a connection that is not TCP leads to nothing.
  pub handle_http-outcome :
      (head : Head)
      → (view (handle_http env c (new_matcher env allowlist) conn head cache).0
          ≡ (if conn.is_tcp then outcome env c allowlist http conn (host_of head) else nothing))
        × IsAccepted (host_of head)
  unfolding handle_http host_of parse_and_validate_http
  handle_http-outcome head =
      let host = host_of head in
      let failed = (read_head_with_textproto head).1 in
      let reason = http_violation_reason host failed c.opts in
      (
        handler_view conn.is_tcp
            (if c.logger && not (is_empty host) && not failed
              then emit_for_target c http conn
              else [])
            (decide env c http (new_matcher env allowlist) conn host reason head.consumed cache)
            cache (outcome env c allowlist http conn host)
            (emitted_view (c.logger && not (is_empty host) && not failed) c http conn)
            (decide-outcome env c allowlist http conn host reason head.consumed cache
              (prepared env options) coherent),
        validate_and_sanitize_host-IsAccepted (read_head_with_textproto head).0,
      )

  -- A TLS connection, with a coherent cache: the policy is asked about a valid host name, or about the empty
  -- name where the ClientHello cannot be read or names no valid host; what is dialled, joined, learned,
  -- logged and reset is what that name leads to, and a connection that is not TCP leads to nothing.
  pub handle_https-outcome :
      (cb : Cryptobyte) (stream buffered : Bytes)
      → (view (handle_https env cb c (new_matcher env allowlist) conn stream buffered cache).0 ≡ (
          if conn.is_tcp then outcome env c allowlist https conn (sni_of cb stream) else nothing))
        × IsAccepted (sni_of cb stream)
  unfolding handle_https extract_sni_from_connection sni_of
  handle_https-outcome cb stream buffered =
      let sni = sni_of cb stream in
      let reason = https_violation_reason sni c.opts in
      let due = c.logger && not (is_empty sni) && conn.is_tcp in
      (
        handler_view conn.is_tcp (if due then emit_for_target c https conn else [])
            (decide env c https (new_matcher env allowlist) conn sni reason buffered cache) cache
            (outcome env c allowlist https conn sni) (emitted_view due c https conn)
            (decide-outcome env c allowlist https conn sni reason buffered cache
              (prepared env options) coherent),
        sni_of_result-IsAccepted (read_client_hello_sni cb stream),
      )
