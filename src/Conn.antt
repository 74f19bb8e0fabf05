-- ===== src/Conn.antt =====
-- internal/filter/common.go: the addresses of a connection, the synthetic events and the log lines. A
-- line is its level, its message and its fields, in their order; whether there is a logger is a
-- flag. The port of a socket address is taken as an unsigned numeral.
use g0efilter.Prelude.{
  ℕ, Bool, not, ◌&&◌, ◌||◌, Option, none, some, List, [], ◌∷◌, ◌++◌, ◌==◌, if◌then◌else◌,
}
use g0efilter.Text.{Bytes, codes, is_empty, contains, to_lower}
use g0efilter.Text.Number.{numeral, itoa}
use g0efilter.Flow.{flow_id}

-- The part of a text up to the first byte of the kind, and from behind it.
unfoldable pub cut : ℕ → Bytes → Option (Bytes × Bytes)
cut sep [] = none
cut sep (c ∷ s) =
    let rest = cut sep s in
    if c == sep
    then some ([], s)
    else elim rest [ none ↦ none | some (before, after) ↦ some (c ∷ before, after) ]

-- The same at the last such byte.
unfoldable pub cut_last : ℕ → Bytes → Option (Bytes × Bytes)
cut_last sep [] = none
cut_last sep (c ∷ s) = elim (cut_last sep s) [
  | some (before, after) ↦ some (c ∷ before, after)
  | none ↦ if c == sep then some ([], s) else none
]

abbrev has_bracket : Bytes → Bool
has_bracket s = contains (codes "[") s || contains (codes "]") s

-- `net.SplitHostPort`; the kind of the error is left out.
unfoldable pub split_host_port : Bytes → Option (Bytes × Bytes)
unfolding cut cut_last
split_host_port [] = none
split_host_port (c ∷ s) =
    if c == b'['
    then elim (cut b']' s) [
      | none ↦ none
      | some (host, rest) ↦ elim rest [
        | [] ↦ none
        | d ∷ port ↦
            if d == b':'
              && not (contains (codes ":") port)
              && not (has_bracket port)
              && not (contains (codes "[") host)
            then some (host, port)
            else none
      ]
    ]
    else elim (cut_last b':' (c ∷ s)) [
      | none ↦ none
      | some (host, port) ↦
          if contains (codes ":") host || has_bracket host || has_bracket port
          then none
          else some (host, port)
    ]

-- `net.JoinHostPort`
unfoldable pub join_host_port : Bytes → Bytes → Bytes
join_host_port host port =
    if contains (codes ":") host
    then codes "[" ++ host ++ codes "]:" ++ port
    else host ++ codes ":" ++ port

abbrev or_zero : Option ℕ → ℕ
or_zero none = 0
or_zero (some n) = n

-- `parseHostPort`
unfoldable pub parse_host_port : Bytes → Bytes × ℕ
unfolding split_host_port
parse_host_port s = elim (split_host_port s) [
  | none ↦ (s, 0)
  | some (host, port) ↦ (host, or_zero (numeral port))
]

-- `sourceAddr`; `none` is a connection without a remote address.
unfoldable pub source_addr : Option Bytes → Bytes × ℕ
unfolding parse_host_port
source_addr none = ([], 0)
source_addr (some remote) = parse_host_port remote

pub data Level : Type 0 where
  debug info warn : Level

pub data Value : Type 0 where
  text : Bytes → Value
  number : ℕ → Value

abbrev pub Fields : Type 0
Fields = List (Bytes × Value)

pub record LogLine : Type 0 where
  pub level : Level
  pub message : Bytes
  pub fields : Fields

pub data Component : Type 0 where
  http https : Component

abbrev pub component_text : Component → Bytes
component_text http = codes "http"
component_text https = codes "https"

-- `procinfo.Info`
pub record ProcInfo : Type 0 where
  pub pid : ℕ
  pub name : Bytes
  pub cmdline : Bytes
  pub executable : Bytes

abbrev pub Provider : Type 0
Provider = Bytes → ℕ → Bytes → Option ProcInfo

-- `procFields`
unfoldable pub proc_fields : Option Provider → Bytes → ℕ → Bytes → Fields
proc_fields none source_ip source_port proto = []
proc_fields (some find) source_ip source_port proto = elim (find source_ip source_port proto) [
  | none ↦ (codes "process_name", text (codes "unknown")) ∷ []
  | some p ↦
      (codes "pid", number p.pid)
      ∷ (codes "process_name", text p.name)
      ∷ (codes "cmdline", text p.cmdline)
      ∷ (codes "executable", text p.executable)
      ∷ []
]

-- `EmitSynthetic` and `EmitSyntheticUDP`, with the protocol: the line and the flow that is marked.
unfoldable pub emit_synthetic_flow :
    Bool → Bytes → Bytes → Bytes → Bytes → Bytes → ℕ → Bytes → Bytes → Option (LogLine × Bytes)
unfolding parse_host_port
emit_synthetic_flow logger component proto proto_upper log_prefix source_ip source_port target dst =
    let (dest_ip, dest_port) = parse_host_port target in
    let flow = flow_id source_ip source_port dest_ip dest_port proto in
    if not logger || is_empty target
    then none
    else some (
      record {
        level = debug;
        message = codes "nflog.synthetic";
        fields =
            (codes "component", text component)
            ∷ (codes "action", text (codes "REDIRECTED"))
            ∷ (codes "protocol", text proto_upper)
            ∷ (codes "prefix", text log_prefix)
            ∷ (codes "source_ip", text source_ip)
            ∷ (codes "source_port", number source_port)
            ∷ (codes "destination_ip", text dest_ip)
            ∷ (codes "destination_port", number dest_port)
            ∷ (codes "src", text (source_ip ++ codes ":" ++ itoa source_port))
            ∷ (codes "dst", text dst)
            ∷ (codes "flow_id", text flow)
            ∷ [];
      },
      flow,
    )

-- `EmitSynthetic`
unfoldable pub emit_synthetic : Bool → Component → Option Bytes → Bytes → Option (LogLine × Bytes)
unfolding parse_host_port source_addr emit_synthetic_flow
emit_synthetic logger component remote target =
    let source = source_addr remote in
    let dest = parse_host_port target in
    emit_synthetic_flow logger (component_text component) (codes "tcp") (codes "TCP")
      (codes "redirected") source.0 source.1 target (dest.0 ++ codes ":" ++ itoa dest.1)

-- `EmitSyntheticUDP`
unfoldable pub emit_synthetic_udp : Bool → Bytes → Bytes → ℕ → Bytes → Option (LogLine × Bytes)
unfolding emit_synthetic_flow
emit_synthetic_udp logger component source_ip source_port dst =
    emit_synthetic_flow logger component (codes "udp") (codes "UDP") (codes "dns_redirected")
      source_ip source_port dst dst

-- `baseLogFields`
unfoldable pub base_log_fields : Component → Bytes → Bytes → Bytes → ℕ → Fields
base_log_fields component action identifier source_ip source_port =
    (codes "component", text (component_text component))
    ∷ (codes "action", text action)
    ∷ (elim component [ http ↦ codes "host" | https ↦ codes "https" ], text identifier)
    ∷ (codes "source_ip", text source_ip)
    ∷ (codes "source_port", number source_port)
    ∷ []

-- The destination and the flow, as two functions append them.
unfoldable pub dest_fields : Bytes → ℕ → Bytes → ℕ → Fields
dest_fields source_ip source_port dest_ip dest_port =
    (codes "destination_ip", text dest_ip)
    ∷ (codes "destination_port", number dest_port)
    ∷ (codes "dst", text (join_host_port dest_ip (itoa dest_port)))
    ∷ (codes "flow_id", text (flow_id source_ip source_port dest_ip dest_port (codes "tcp")))
    ∷ []

-- `logAllowedConnection`
unfoldable pub log_allowed_connection :
    Bool → Option Provider → Component → Bytes → Bytes → Option Bytes → List LogLine
unfolding parse_host_port source_addr base_log_fields dest_fields proc_fields
log_allowed_connection logger proc component target identifier remote =
    let (source_ip, source_port) = source_addr remote in
    let (dest_ip, dest_port) = parse_host_port target in
    if not logger
    then []
    else record {
      level = info;
      message = component_text component ++ codes ".allowed";
      fields =
          base_log_fields component (codes "ALLOWED") identifier source_ip source_port
          ++ dest_fields source_ip source_port dest_ip dest_port
          ++ proc_fields proc source_ip source_port (codes "tcp");
    }
      ∷ []

-- `logPolicyViolation`, which `logBlockedConnection` calls with the action `BLOCKED` and
-- `logAuditedConnection` with `AUDIT`.
unfoldable pub log_policy_violation :
    Bool
    → Option Provider
    → Component
    → Bytes
    → Bytes
    → Bytes
    → Option Bytes
    → Bytes
    → ℕ
    → List LogLine
unfolding source_addr base_log_fields dest_fields proc_fields
log_policy_violation logger proc component action reason identifier remote dest_ip dest_port =
    let (source_ip, source_port) = source_addr remote in
    if not logger
    then []
    else record {
      level = warn;
      message = component_text component ++ codes "." ++ to_lower action;
      fields =
          base_log_fields component action identifier source_ip source_port
          ++ ((codes "reason", text reason) ∷ [])
          ++ (if is_empty dest_ip then [] else dest_fields source_ip source_port dest_ip dest_port)
          ++ proc_fields proc source_ip source_port (codes "tcp");
    }
      ∷ []

-- `logdstConnDialError`, with the text of the error.
unfoldable pub logdst_conn_dial_error :
    Bool → Component → Bytes → Option Bytes → Bytes → List LogLine
unfolding parse_host_port source_addr
logdst_conn_dial_error logger component target remote err =
    let (source_ip, source_port) = source_addr remote in
    let (dest_ip, dest_port) = parse_host_port target in
    if not logger
    then []
    else record {
      level = warn;
      message = component_text component ++ codes ".dst_conn_dial_error";
      fields =
          (codes "component", text (component_text component))
          ∷ (codes "destination_ip", text dest_ip)
          ∷ (codes "destination_port", number dest_port)
          ∷ (codes "dst", text (join_host_port dest_ip (itoa dest_port)))
          ∷ (codes "err", text err)
          ∷ (codes "source_ip", text source_ip)
          ∷ (codes "source_port", number source_port)
          ∷ [];
    }
      ∷ []
