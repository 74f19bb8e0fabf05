-- ===== src/DnsFilter/Replies.antt =====
-- The stages of the handler: each one answers or passes the request on.
use g0efilter.Prelude.{
  ◌≡◌, refl, ◌⊎◌, inl, inr, Bool, true, false, not, ◌&&◌, List, [], ◌∷◌, ◌++◌, map, if◌then◌else◌,
  Option-cases, All,
}
use g0efilter.Text.{Bytes, is_empty}
use g0efilter.Permit.{Learned}
use g0efilter.Dns.{Qtype, Rcode, Question, Response, Network, forward}
use g0efilter.DnsFilter.{
  DnsHandler, Reply, error, upstream, LogLine, Event, learned, reply, log_if, emit_synthetic_event,
  enforcing, block_exfil, block_exfil_query, block_exfil_response, is_address_type, handle_blocked,
  report_resolved_ips, handle_response, handle_allowed_request,
}

abbrev pub is_reply : Event → Bool
is_reply (reply r) = true
is_reply _ = false

abbrev pub Quiet : List Event → Type 0
Quiet = All (λ e. is_reply e ≡ false)

-- The events end with a reply, and no other event is one.
pub data IsAnswered : List Event → Type 0 where
  done : (r : Reply) → IsAnswered (reply r ∷ [])
  before : {e : Event} {es : List Event} → is_reply e ≡ false → IsAnswered es → IsAnswered (e ∷ es)

pub IsAnswered-append : (xs ys : List Event) → Quiet xs → IsAnswered ys → IsAnswered (xs ++ ys)
IsAnswered-append [] ys q a = a
IsAnswered-append (x ∷ xs) ys q a = before q.0 (IsAnswered-append xs ys q.1 a)

pub Quiet-log_if : (b : Bool) (l : LogLine) → Quiet (log_if b l)
Quiet-log_if true l = (refl, tt)
Quiet-log_if false l = tt

pub Quiet-learned : (ls : List Learned) → Quiet (map learned ls)
Quiet-learned [] = tt
Quiet-learned (l ∷ ls) = (refl, Quiet-learned ls)

pub Quiet-if : (t : Bool) (xs ys : List Event) → Quiet xs → Quiet ys → Quiet (if t then xs else ys)
Quiet-if true xs ys h k = h
Quiet-if false xs ys h k = k

pub IsAnswered-if :
    (t : Bool) (xs ys : List Event)
    → IsAnswered xs
    → IsAnswered ys
    → IsAnswered (if t then xs else ys)
IsAnswered-if true xs ys h k = h
IsAnswered-if false xs ys h k = k

pub Quiet-emit : (h : DnsHandler) (addr : Bytes) → Quiet (emit_synthetic_event h addr)
unfolding emit_synthetic_event
Quiet-emit h addr = Quiet-if _ [] (_ ∷ []) tt (refl, tt)

pub Quiet-report :
    (net : Network) (h : DnsHandler) (r : Response) → Quiet (report_resolved_ips net h r)
unfolding report_resolved_ips
Quiet-report net h r = Quiet-if _ [] (_ ∷ []) tt (refl, tt)

-- A stage of the handler: it answers, or it is quiet.
abbrev pub IsStage : List Event → Bool → Type 0
IsStage es answered = ((answered ≡ true) × IsAnswered es) ⊎ ((answered ≡ false) × Quiet es)

IsStage-if :
    (t : Bool) (p q : List Event × Bool)
    → IsStage p.0 p.1
    → IsStage q.0 q.1
    → IsStage (if t then p else q).0 (if t then p else q).1
IsStage-if true p q h k = h
IsStage-if false p q h k = k

-- A stage followed by the rest of the handler, which runs when the stage did not answer.
pub IsAnswered-stage :
    (es : List Event) (answered : Bool) (rest : List Event)
    → IsStage es answered
    → IsAnswered rest
    → IsAnswered (if answered then es else es ++ rest)
IsAnswered-stage es answered rest (inl (e, a)) k = rw e a
IsAnswered-stage es answered rest (inr (e, q)) k = rw e (IsAnswered-append es rest q k)

pub logged_reply : (b : Bool) (l : LogLine) (r : Reply) → IsAnswered (log_if b l ++ (reply r ∷ []))
logged_reply b l r = IsAnswered-append (log_if b l) (reply r ∷ []) (Quiet-log_if b l) (done r)

block_exfil-IsStage :
    (h : DnsHandler) (reason : Bytes) (rcode : Rcode)
    → IsStage (block_exfil h reason rcode).0 (block_exfil h reason rcode).1
unfolding block_exfil
block_exfil-IsStage h reason rcode =
    IsStage-if (is_empty reason) ([], false) _ (inr (refl, tt))
      (IsStage-if (not (enforcing h.opts)) _ _ (inr (refl, Quiet-log_if h.logger _))
        (inl (refl, logged_reply h.logger _ (error rcode))))

pub block_exfil_query-IsStage :
    (h : DnsHandler) (qname : Bytes) (qtype : Qtype)
    → IsStage (block_exfil_query h qname qtype).0 (block_exfil_query h qname qtype).1
unfolding block_exfil_query
block_exfil_query-IsStage h qname qtype =
    IsStage-if _ ([], false) _ (inr (refl, tt)) (block_exfil-IsStage h _ _)

pub block_exfil_response-IsStage :
    (net : Network) (h : DnsHandler) (r : Response)
    → IsStage (block_exfil_response net h r).0 (block_exfil_response net h r).1
unfolding block_exfil_response
block_exfil_response-IsStage net h r =
    IsStage-if _ ([], false) _ (inr (refl, tt)) (block_exfil-IsStage h _ _)

pub handle_blocked-IsAnswered : (h : DnsHandler) (q : Qtype) → IsAnswered (handle_blocked h q)
unfolding handle_blocked
handle_blocked-IsAnswered h q =
    IsAnswered-if (is_address_type q) _ _ (logged_reply _ _ _) (logged_reply _ _ _)

handle_response-IsAnswered :
    (net : Network) (h : DnsHandler) (full : Bool) (r : Response)
    → IsAnswered (handle_response net h full r)
unfolding handle_response
handle_response-IsAnswered net h full r =
    IsAnswered-stage _ _ _ (block_exfil_response-IsStage net h r) (
      IsAnswered-append _ _ (Quiet-if full _ [] (Quiet-report net h r) tt)
        (logged_reply (h.logger && full) _ (upstream r)))

pub handle_allowed_request-IsAnswered :
    (net : Network) (h : DnsHandler) (request : List Question) (full : Bool)
    → IsAnswered (handle_allowed_request net h request full)
unfolding handle_allowed_request
handle_allowed_request-IsAnswered net h request full =
    elim (Option-cases (forward net request h.upstreams 0)) [
      | inl e ↦ rw (e, handle_allowed_request) (logged_reply _ _ _)
      | inr (r, e) ↦ rw (e, handle_allowed_request) (handle_response-IsAnswered net h full r)
    ]
