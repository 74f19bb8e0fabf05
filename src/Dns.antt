-- ===== src/Dns.antt =====
-- The DNS messages that the proxy reads, the checks of internal/filter/dns_hardening.go on them,
-- and of internal/filter/dns_filter.go `forward`, `extractAnswerIPs` and `defaultUpstreamsFromEnv`.
-- The package `miekg/dns` stands behind the record `Network`: exchanges with an upstream, the packed
-- length of a message and the text of an address.
pub mod Exfil
pub mod Forward
pub mod Addresses
use g0efilter.Prelude.{
  ℕ, ◌+◌, ◌-◌, Bool, true, false, not, Option, none, some, List, [], ◌∷◌, map, ltb, leb,
  if◌then◌else◌, length, all, filter,
}
use g0efilter.Text.{Bytes, codes, is_empty, split, trim_space}

-- A query type, as far as the proxy tells them apart.
pub data Qtype : Type 0 where
  type_a type_aaaa type_null : Qtype
  type_other : ℕ → Qtype

pub data Rcode : Type 0 where
  format_error server_failure name_error refused : Rcode

pub record Question : Type 0 where
  pub name : Bytes
  pub qtype : Qtype

-- `dns.RR`: an address (absent when the record holds none) with its TTL, or another record.
pub data Rr : Type 0 where
  a aaaa : Option Bytes → ℕ → Rr
  null other : Rr
  txt : List Bytes → Rr

pub record Response : Type 0 where
  pub truncated : Bool
  pub rcode : ℕ
  pub answer : List Rr

pub data Protocol : Type 0 where
  udp tcp : Protocol

-- The first argument of `exchange` counts the exchanges of a request so far, so that the same
-- question may be answered differently later; `none` is an error or no message. `expired` is whether
-- the deadline that the context of a request sets for all of its exchanges has passed at one of them.
pub record Network : Type 0 where
  pub exchange : ℕ → Protocol → Bytes → List Question → Option Response
  pub expired : ℕ → Bool
  pub message_length : Response → ℕ
  pub ip_string : Bytes → Bytes

abbrev pub exfil_max_qname : ℕ
exfil_max_qname = 220

abbrev pub exfil_max_label : ℕ
exfil_max_label = 56

abbrev pub max_txt_payload_bytes : ℕ
max_txt_payload_bytes = 1024

abbrev pub max_response_bytes : ℕ
max_response_bytes = 4096

abbrev pub is_null : Qtype → Bool
is_null type_null = true
is_null _ = false

-- `checkExfilQuery`; the empty reason is none.
unfoldable pub check_exfil_query : Bytes → Qtype → Bytes
check_exfil_query qname qtype =
    if is_null qtype
    then codes "null-query"
    else if ltb exfil_max_qname (length qname)
    then codes "qname-too-long"
    else if not (all (λ l. leb (length l) exfil_max_label) (split b'.' qname))
    then codes "label-too-long"
    else []

abbrev pub total_length : List Bytes → ℕ
total_length [] = 0
total_length (s ∷ ss) = length s + total_length ss

-- The loop over the answer, with the text bytes so far; `none` is a NULL record.
unfoldable pub txt_bytes : List Rr → ℕ → Option ℕ
txt_bytes [] n = some n
txt_bytes (null ∷ rs) n = none
txt_bytes (txt ss ∷ rs) n = txt_bytes rs (n + total_length ss)
txt_bytes (a ip ttl ∷ rs) n = txt_bytes rs n
txt_bytes (aaaa ip ttl ∷ rs) n = txt_bytes rs n
txt_bytes (other ∷ rs) n = txt_bytes rs n

-- `checkExfilResponse`
unfoldable pub check_exfil_response : Network → Response → Bytes
check_exfil_response net resp =
    if ltb max_response_bytes (net.message_length resp)
    then codes "response-too-large"
    else elim (txt_bytes resp.answer 0) [
      | none ↦ codes "null-record"
      | some n ↦ if ltb max_txt_payload_bytes n then codes "txt-payload-too-large" else []
    ]

-- The type switch of `extractAnswerIPs`: an address and its TTL.
unfoldable pub address_of : Rr → Option (Bytes × ℕ)
address_of (a none ttl) = none
address_of (a (some ip) ttl) = some (ip, ttl)
address_of (aaaa none ttl) = none
address_of (aaaa (some ip) ttl) = some (ip, ttl)
address_of null = none
address_of other = none
address_of (txt ss) = none

-- `minTTL` and `haveTTL` after one more address.
unfoldable pub lower_ttl : Option ℕ → ℕ → Option ℕ
lower_ttl none ttl = some ttl
lower_ttl (some least) ttl = if ltb ttl least then some ttl else some least

-- The loop of `extractAnswerIPs`.
unfoldable pub collect_ips : Network → List Rr → Option ℕ → List Bytes × Option ℕ
collect_ips net [] least = ([], least)
collect_ips net (r ∷ rs) least = elim (address_of r) [
  | none ↦ collect_ips net rs least
  | some (ip, ttl) ↦
      let rest = collect_ips net rs (lower_ttl least ttl) in (net.ip_string ip ∷ rest.0, rest.1)
]

abbrev pub or_zero : Option ℕ → ℕ
or_zero none = 0
or_zero (some n) = n

-- `extractAnswerIPs`
unfoldable pub extract_answer_ips : Network → Response → List Bytes × ℕ
unfolding collect_ips
extract_answer_ips net resp =
    let found = collect_ips net resp.answer none in (found.0, or_zero found.1)

-- `ExchangeContext`: after the deadline it fails.
unfoldable pub exchange_context : Network → ℕ → Protocol → Bytes → List Question → Option Response
exchange_context net n protocol up request =
    if net.expired n then none else net.exchange n protocol up request

-- One upstream in the loop of `forward`: two attempts on UDP, then TCP for a truncated answer.
-- Returned with the number of exchanges so far.
unfoldable pub ask_tcp : Network → List Question → Bytes → ℕ → Response → Option Response × ℕ
unfolding exchange_context
ask_tcp net request up n response =
    if not response.truncated
    then (some response, n)
    else (exchange_context net n tcp up request, n + 1)

unfoldable pub ask_upstream : Network → List Question → Bytes → ℕ → Option Response × ℕ
unfolding ask_tcp exchange_context
ask_upstream net request up n = elim (exchange_context net n udp up request) [
  | some response ↦ ask_tcp net request up (n + 1) response
  | none ↦ elim (exchange_context net (n + 1) udp up request) [
    | some response ↦ ask_tcp net request up (n + 2) response
    | none ↦ (none, n + 2)
  ]
]

-- `forward`, from an upstream on; `none` is the deadline error.
unfoldable pub forward : Network → List Question → List Bytes → ℕ → Option Response
unfolding ask_upstream
forward net request [] n = none
forward net request (up ∷ ups) n = elim (ask_upstream net request up n).0 [
  | some response ↦ some response
  | none ↦ forward net request ups (ask_upstream net request up n).1
]

-- `defaultUpstreamsFromEnv`, from the value of `DNS_UPSTREAMS`.
unfoldable pub default_upstreams_from_env : Bytes → List Bytes
default_upstreams_from_env value =
    let out = filter (λ p. not (is_empty p)) (map trim_space (split b',' (trim_space value))) in
    if is_empty (trim_space value)
    then codes "127.0.0.11:53" ∷ []
    else (if ltb 0 (length out) then out else codes "127.0.0.11:53" ∷ [])
