-- ===== src/ConnFilter.antt =====
-- internal/filter/http_filter.go and internal/filter/https_filter.go: what the two TCP proxies do with a
-- connection, as the list of its effects in their order. Both share the decision, so the types and the
-- observations stand here. Debug lines and deadlines are left out; the error that a handler returns
-- is ignored by its caller.
pub mod Http
pub mod Https
pub mod Contacts
pub mod Decided
pub mod Served
use g0efilter.Prelude.{
  ℕ, zero, suc, ◌+◌, ◌-◌, ◌*◌, ◌/◌, ◌%◌, ◌^◌, ◌≤◌, ◌<◌, ◌≡◌, refl, sym, ap, ◌∙◌, ◌≢◌, ◌↔◌, ◌⊎◌, inl,
  inr, Bool, true, false, not, ◌&&◌, ◌||◌, Option, none, some, List, [], ◌∷◌, ◌++◌, map, arith, ltb,
  leb, ◌==◌, if◌then◌else◌, ltb→lt, lt→ltb, leb→le, ==_iff, tests, Bool-cases, Option-cases, length,
  get_elem?, get_or, replicate, length-append, length-set, get_elem?-set_self, get_elem?-set_ne,
  take-append-drop, length-take, length-drop, length-replicate, length-map, All, Any, Has, all,
  all_iff, All-of_all, all_of_All, All-append, All-mono, dec_lt, ℕ_discrete, filter, take_whole,
  length-take_bound,
}
use g0efilter.Text.{Bytes, codes, is_empty}
use g0efilter.Pattern.{Env}
use g0efilter.Matcher.{Cache, HostMatcher}
use g0efilter.Permit.{
  Options, Learned, audited, host_permitted_by, maybe_learn_host_by, maybe_learn_ip,
}
use g0efilter.Conn.{
  Provider, LogLine, Component, emit_synthetic, parse_host_port, log_policy_violation,
  log_allowed_connection, logdst_conn_dial_error,
}

-- `Options`, with the parts that only the connection filters read.
pub record ConnOptions : Type 0 where
  pub opts : Options
  pub logger : Bool
  pub drop_with_rst : Bool
  pub proc_info : Option Provider

-- A connection: whether it is a TCP connection, its remote address, what `originalDstTCP` answers, and
-- the error text of a dial, or none.
pub record Connection : Type 0 where
  pub is_tcp : Bool
  pub remote : Option Bytes
  pub original_dst : Option Bytes
  pub dial_error : Bytes → Option Bytes

pub data Event : Type 0 where
  synthetic : LogLine × Bytes → Event
  blocked_line audit_line allowed_line dial_error_line : LogLine → Event
  learned : Learned → Event
  linger : Event
  dial write splice : Bytes → Event

abbrev pub optional_event : Option (LogLine × Bytes) → List Event
optional_event none = []
optional_event (some s) = synthetic s ∷ []

-- `EmitSynthetic` for the original destination, where there is one.
unfoldable pub emit_for_target : ConnOptions → Component → Connection → List Event
emit_for_target c component conn = elim conn.original_dst [
  | none ↦ []
  | some target ↦ optional_event (emit_synthetic c.logger component conn.remote target)
]

-- Of two decisions about a connection without an identifier, and of the destination.
abbrev pub destination : Connection → Bytes × ℕ
destination conn = elim conn.original_dst [ none ↦ ([], 0) | some target ↦ parse_host_port target ]

-- A refusal or an audited connection: the synthetic event that is still due, and the line.
unfoldable pub log_violation :
    ConnOptions → Component → Bytes → Bytes → (LogLine → Event) → Bytes → Connection → List Event
unfolding emit_for_target
log_violation c component action reason line identifier conn =
    let (dest_ip, dest_port) = destination conn in
    (if is_empty identifier then emit_for_target c component conn else [])
    ++ map line (
        log_policy_violation c.logger c.proc_info component action reason identifier conn.remote
          dest_ip dest_port)

-- The dial of the original destination; the bytes that were read before are replayed.
unfoldable pub connect_and_splice :
    ConnOptions → Component → Connection → Bytes → Bytes → List Event
connect_and_splice c component conn target replayed = elim (conn.dial_error target) [
  | some e ↦
      dial target
      ∷ map dial_error_line (logdst_conn_dial_error c.logger component target conn.remote e)
  | none ↦
      dial target ∷ (if is_empty replayed then [] else write replayed ∷ []) ++ (splice target ∷ [])
]

-- `handleAllowedHTTP` and `handleAllowedHTTPS`
unfoldable pub handle_allowed :
    ConnOptions → Component → Connection → Bytes → Bytes → Bool → List Event
unfolding connect_and_splice
handle_allowed c component conn identifier replayed log_allowed = elim conn.original_dst [
  | none ↦ []
  | some target ↦
      (if is_empty identifier
        then map learned (maybe_learn_ip (parse_host_port target).0 c.opts)
        else [])
      ++ (if log_allowed
          then map allowed_line
              (log_allowed_connection c.logger c.proc_info component target identifier conn.remote)
          else [])
      ++ connect_and_splice c component conn target replayed
]

-- The part of `handleHTTP` and of `handle` behind the identifier, with what it does on a violation.
unfoldable pub decide :
    Env
    → ConnOptions
    → Component
    → HostMatcher
    → Connection
    → Bytes
    → Bytes
    → Bytes
    → Cache
    → List Event × Cache
unfolding log_violation handle_allowed
decide env c component allowlist conn identifier reason replayed cache =
    let verdict = host_permitted_by env identifier allowlist c.opts cache in
    let was_audited = audited verdict.0 c.opts in
    let learnt = maybe_learn_host_by env identifier allowlist c.opts verdict.1 in
    if not was_audited && not verdict.0
    then (
      log_violation c component (codes "BLOCKED") reason blocked_line identifier conn
          ++ (if c.drop_with_rst then linger ∷ [] else []),
      verdict.1,
    )
    else (
      (if was_audited
            then log_violation c component (codes "AUDIT") reason audit_line identifier conn
            else [])
          ++ map learned learnt.0
          ++ handle_allowed c component conn identifier replayed (not was_audited),
      learnt.1,
    )
