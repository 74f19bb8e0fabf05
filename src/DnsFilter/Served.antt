-- ===== src/DnsFilter/Served.antt =====
-- What reaches the client from an upstream, and what is pushed into the resolved set.
use g0efilter.Prelude.{
  ◌≡◌, sym, ◌⊎◌, inl, inr, Bool, true, false, not, ◌&&◌, ◌||◌, some, List, [], ◌∷◌, ◌++◌, arith,
  if◌then◌else◌, Option-cases, Has,
}
use g0efilter.Text.{Bytes, is_empty}
use g0efilter.Pattern.{Env}
use g0efilter.Matcher.{Cache, new_matcher}
use g0efilter.Matcher.Cached.{IsCoherent}
use g0efilter.Permit.{audited, host_permitted_by}
use g0efilter.Permit.Table.{policy, IsPrepared, host_permitted_by-policy}
use g0efilter.Dns.{
  Qtype, server_failure, Question, Response, Network, check_exfil_response, extract_answer_ips,
  forward,
}
use g0efilter.Permit.{maybe_learn_host_by}
use g0efilter.Text.{codes}
use g0efilter.DnsFilter.{
  audit_line, allowed_line, DnsHandler, upstream, Event, resolved, reply, log_if, enforcing,
  block_exfil, block_exfil_response, handle_blocked, report_resolved_ips, handle_response,
  handle_allowed_request, decide,
}
use g0efilter.DnsFilter.Inert.{
  past_notes, is_outgoing, Inert-log_if, no_outgoing, behind, past_refusal, past_list, Has-append,
  Has-only, Has-if, logged_error, Inert-block_exfil_response, Inert-handle_blocked,
}

-- The event passes on an upstream's answer to the request, as the reply or, for a query that the
-- policy permits, as addresses for the resolved set; and where hardening is on and violations are
-- enforced, the answer has none.
unfoldable pub IsServed : Network → DnsHandler → List Question → Bool → Event → Type 0
IsServed net h request full e =
    (resp : Response) × (forward net request h.upstreams 0 ≡ some resp)
    × ((not h.opts.dns_hardening
          || not (enforcing h.opts)
          || is_empty (check_exfil_response net resp))
        ≡ true)
    × ((e ≡ reply (upstream resp))
        ⊎ ((full ≡ true)
            × (e ≡ resolved (extract_answer_ips net resp).0 (extract_answer_ips net resp).1)))

from_report :
    (net : Network) (h : DnsHandler) (r : Response) (e : Event)
    → Has e (report_resolved_ips net h r)
    → e ≡ resolved (extract_answer_ips net r).0 (extract_answer_ips net r).1
unfolding report_resolved_ips
from_report net h r e k = sym (Has-only _ e _ k)

screened :
    (net : Network) (h : DnsHandler) (r : Response)
    → (block_exfil_response net h r).1 ≡ false
    → (not h.opts.dns_hardening || not (enforcing h.opts) || is_empty (check_exfil_response net r))
      ≡ true
unfolding block_exfil_response block_exfil
screened net h r e = ground (arith, e)

from_response :
    (net : Network) (h : DnsHandler) (request : List Question) (full : Bool) (resp : Response)
    (e : Event)
    → is_outgoing e ≡ true
    → forward net request h.upstreams 0 ≡ some resp
    → Has e (handle_response net h full resp)
    → IsServed net h request full e
unfolding handle_response IsServed
from_response net h request full resp e out came k =
    let (unanswered, sent) = past_list e _ _ _ out (Inert-block_exfil_response net h resp) k in
    let ok = screened net h resp unanswered in
    elim (Has-append e (if full then report_resolved_ips net h resp else [])
      (log_if (h.logger && full) (allowed_line resp.rcode) ++ (reply (upstream resp) ∷ [])) sent) [
        | inl report ↦
            let (permitted, pushed) = Has-if full e _ report in
            (resp, came, ok, inr (permitted, from_report net h resp e pushed))
        | inr line ↦
            elim (behind e (log_if (h.logger && full) (allowed_line resp.rcode))
              (reply (upstream resp) ∷ []) out
              (Inert-log_if (h.logger && full) (allowed_line resp.rcode)) line) [
                | inl here ↦ (resp, came, ok, inl (sym here))
                | inr there ↦ absurd there
              ]
      ]

from_allowed :
    (net : Network) (h : DnsHandler) (request : List Question) (full : Bool) (e : Event)
    → is_outgoing e ≡ true
    → Has e (handle_allowed_request net h request full)
    → IsServed net h request full e
unfolding handle_allowed_request
from_allowed net h request full e out k = elim (Option-cases (forward net request h.upstreams 0)) [
  | inl lost ↦ absurd (
      no_outgoing e _ out (logged_error h.logger _ server_failure)
        (rw (lost, handle_allowed_request) at k))
  | inr (resp, came) ↦
      from_response net h request full resp e out came (rw (came, handle_allowed_request) at k)
]

pub from_decide :
    (env : Env) (net : Network) (h : DnsHandler) (allowlist : List Bytes) (request : List Question)
    (qname : Bytes) (qtype : Qtype) (cache : Cache) (e : Event)
    → is_outgoing e ≡ true
    → h.allowlist ≡ new_matcher env allowlist
    → IsPrepared env h.opts
    → IsCoherent env cache
    → Has e (decide env net h request qname qtype cache).0
    → (full : Bool) × IsServed net h request full e
      × ((policy env allowlist h.opts qname || (h.opts.audit_mode && not full)) ≡ true)
unfolding decide audited
from_decide env net h allowlist request qname qtype cache e out is_matcher prepared ok k =
    let verdict = host_permitted_by env qname h.allowlist h.opts cache in
    let agrees : verdict.0 ≡ policy env allowlist h.opts qname =
      rw is_matcher (host_permitted_by-policy env allowlist h.opts qname cache prepared ok).0 in
    let (passed, sent) =
      past_refusal e (handle_blocked h qtype) _ (not (audited verdict.0 h.opts) && not verdict.0) _
        _ out (Inert-handle_blocked h qtype) k in
    let full = not (audited verdict.0 h.opts) in
    let served =
      past_notes e (audited verdict.0 h.opts) h.logger (audit_line (codes "would-be-blocked"))
        (maybe_learn_host_by env qname h.allowlist h.opts verdict.1).0
        (handle_allowed_request net h request full) out sent in
    (full, from_allowed net h request full e out served, ground (arith, agrees, passed))
