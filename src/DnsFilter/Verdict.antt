-- ===== src/DnsFilter/Verdict.antt =====
-- What the verdict of the policy leads to: a forwarded answer, or a refusal.
use g0efilter.Prelude.{
  ◌≡◌, refl, inl, inr, Bool, true, false, not, ◌&&◌, ◌||◌, some, List, [], ◌∷◌, ◌++◌, map, arith,
  All, if◌then◌else◌, Has,
}
use g0efilter.Text.{Bytes, codes, is_empty}
use g0efilter.Pattern.{Env}
use g0efilter.Matcher.{Cache, new_matcher}
use g0efilter.Matcher.Cached.{IsCoherent}
use g0efilter.Permit.{audited, host_permitted_by, maybe_learn_host_by}
use g0efilter.Permit.Table.{policy, IsPrepared, host_permitted_by-policy}
use g0efilter.Dns.{
  type_a, type_aaaa, type_null, type_other, name_error, Qtype, Question, Response, Network,
  check_exfil_response, forward,
}
use g0efilter.DnsFilter.{
  DnsHandler, Event, LogLine, Reply, log, synthetic, resolved, sinkhole, error, log_if, audit_line,
  learned, allowed_line, reply, upstream, enforcing, block_exfil, block_exfil_response,
  handle_blocked, report_resolved_ips, handle_response, handle_allowed_request, decide,
}

Has-behind : (e : Event) (xs ys : List Event) → Has e ys → Has e (xs ++ ys)
Has-behind e [] ys h = h
Has-behind e (x ∷ xs) ys h = inr (Has-behind e xs ys h)

-- The answer is not held back: hardening is off, violations are only logged, or there is none.
abbrev pub IsClean : Network → DnsHandler → Response → Type 0
IsClean net h resp =
    (not h.opts.dns_hardening || not (enforcing h.opts) || is_empty (check_exfil_response net resp))
    ≡ true

not_held :
    (net : Network) (h : DnsHandler) (resp : Response)
    → IsClean net h resp
    → (block_exfil_response net h resp).1 ≡ false
unfolding block_exfil_response block_exfil
not_held net h resp c = ground (arith, c)

handle_response-sends :
    (net : Network) (h : DnsHandler) (full : Bool) (resp : Response)
    → IsClean net h resp
    → Has (reply (upstream resp)) (handle_response net h full resp)
unfolding handle_response
handle_response-sends net h full resp c = rw (not_held net h resp c) (
    Has-behind _ (block_exfil_response net h resp).0 _ (
      Has-behind _ (if full then report_resolved_ips net h resp else []) _
        (Has-behind _ (log_if (h.logger && full) (allowed_line resp.rcode)) _ (inl refl))))

handle_allowed_request-sends :
    (net : Network) (h : DnsHandler) (request : List Question) (full : Bool) (resp : Response)
    → forward net request h.upstreams 0 ≡ some resp
    → IsClean net h resp
    → Has (reply (upstream resp)) (handle_allowed_request net h request full)
unfolding handle_allowed_request
handle_allowed_request-sends net h request full resp e c =
    rw (e, handle_allowed_request) (handle_response-sends net h full resp c)

-- The refusal of a query: the null address for a query for addresses, and NXDOMAIN for any other.
abbrev pub refusal : Qtype → Reply
refusal type_a = sinkhole type_a
refusal type_aaaa = sinkhole type_aaaa
refusal type_null = error name_error
refusal (type_other n) = error name_error

abbrev pub replies : List Event → List Reply
replies [] = []
replies (log l ∷ es) = replies es
replies (synthetic dst ∷ es) = replies es
replies (learned l ∷ es) = replies es
replies (resolved ips ttl ∷ es) = replies es
replies (reply r ∷ es) = r ∷ replies es

-- An event that reports a flow, a name or an address.
abbrev pub is_report : Event → Bool
is_report (log l) = false
is_report (reply r) = false
is_report (synthetic dst) = true
is_report (learned l) = true
is_report (resolved ips ttl) = true

abbrev pub Refuses : Qtype → List Event → Type 0
Refuses qtype es = (replies es ≡ refusal qtype ∷ []) × All (λ e. is_report e ≡ false) es

logged-Refuses :
    (qtype : Qtype) (b : Bool) (line : LogLine)
    → Refuses qtype (log_if b line ++ (reply (refusal qtype) ∷ []))
logged-Refuses qtype true line = (refl, (refl, (refl, tt)))
logged-Refuses qtype false line = (refl, (refl, tt))

handle_blocked-Refuses : (h : DnsHandler) (qtype : Qtype) → Refuses qtype (handle_blocked h qtype)
unfolding handle_blocked
handle_blocked-Refuses h type_a = logged-Refuses type_a h.logger _
handle_blocked-Refuses h type_aaaa = logged-Refuses type_aaaa h.logger _
handle_blocked-Refuses h type_null = logged-Refuses type_null h.logger _
handle_blocked-Refuses h (type_other n) = logged-Refuses (type_other n) h.logger _

module _ (env : Env) (net : Network) (h : DnsHandler) (allowlist : List Bytes)
    (request : List Question) (qname : Bytes) (qtype : Qtype) (cache : Cache)
    (is_matcher : h.allowlist ≡ new_matcher env allowlist) (prepared : IsPrepared env h.opts)
    (coherent : IsCoherent env cache) where
  verdict_lem :
      (host_permitted_by env qname h.allowlist h.opts cache).0 ≡ policy env allowlist h.opts qname
  verdict_lem =
      rw is_matcher (host_permitted_by-policy env allowlist h.opts qname cache prepared coherent).0

  -- With the matcher of the allowlist, a denylist matcher that is absent or built from the denylist,
  -- and a coherent cache: outside audit mode a query for a name that the policy does not permit gets
  -- exactly one reply, the null address for a query of type A or AAAA and NXDOMAIN for any other, and
  -- nothing is learned and no address is pushed to the resolved set.
  pub decide-Refuses :
      policy env allowlist h.opts qname ≡ false
      → h.opts.audit_mode ≡ false
      → Refuses qtype (decide env net h request qname qtype cache).0
  unfolding decide audited
  decide-Refuses refused quiet =
      let e : (decide env net h request qname qtype cache).0 ≡ handle_blocked h qtype =
        ground (arith, verdict_lem, refused, quiet) in
      rw e (handle_blocked-Refuses h qtype)

  -- Under the same conditions, for a name that the policy permits, or in audit mode, the answer that `forward` returned is sent
  -- to the client, unless enforced hardening finds something in it.
  pub decide-forwards :
      (resp : Response)
      → (policy env allowlist h.opts qname || h.opts.audit_mode) ≡ true
      → forward net request h.upstreams 0 ≡ some resp
      → IsClean net h resp
      → Has (reply (upstream resp)) (decide env net h request qname qtype cache).0
  unfolding decide audited
  decide-forwards resp permitted came clean =
      let verdict = host_permitted_by env qname h.allowlist h.opts cache in
      let passed : (not (audited verdict.0 h.opts) && not verdict.0) ≡ false =
        ground (arith, verdict_lem, permitted) in
      rw passed (
        Has-behind _
          (if audited verdict.0 h.opts
            then log_if h.logger (audit_line (codes "would-be-blocked"))
            else [])
          _
          (Has-behind _ (map learned (maybe_learn_host_by env qname h.allowlist h.opts verdict.1).0)
            _
            (handle_allowed_request-sends net h request (not (audited verdict.0 h.opts)) resp came
              clean)))
