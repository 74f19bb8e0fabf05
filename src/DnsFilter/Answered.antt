-- ===== src/DnsFilter/Answered.antt =====
-- Every request is answered once, and last.
use g0efilter.Prelude.{
  ℕ, refl, inl, inr, Bool, true, false, Option, none, some, List, [], ◌∷◌, ◌++◌, if◌then◌else◌,
  Bool-cases, Option-cases,
}
use g0efilter.Text.{Bytes}
use g0efilter.DnsLimiter.{DnsRateLimiter, allow}
use g0efilter.Pattern.{Env}
use g0efilter.Matcher.{Cache}
use g0efilter.Dns.{Qtype, refused, format_error, Question, Network}
use g0efilter.DnsFilter.{
  DnsHandler, State, error, Event, rate_limited, sanitize_and_log_qname, decide, handle_question,
  handle_request, handle,
}
use g0efilter.DnsFilter.Replies.{
  IsAnswered, done, IsAnswered-append, Quiet-log_if, Quiet-learned, Quiet-if, Quiet-emit, IsStage,
  logged_reply, block_exfil_query-IsStage, handle_blocked-IsAnswered,
  handle_allowed_request-IsAnswered,
}

first_if :
    (t : Bool) (p q : List Event × Cache)
    → IsAnswered p.0
    → IsAnswered q.0
    → IsAnswered (if t then p else q).0
first_if true p q h k = h
first_if false p q h k = k

stage_first :
    {A : Type 0} (es : List Event) (answered : Bool) (rest : List Event) (x y : A)
    → IsStage es answered
    → IsAnswered rest
    → IsAnswered (if◌then◌else◌ {A = List Event × A} answered (es, x) (es ++ rest, y)).0
stage_first es answered rest x y (inl (e, a)) k = rw e a
stage_first es answered rest x y (inr (e, q)) k = rw e (IsAnswered-append es rest q k)

decide-IsAnswered :
    (env : Env) (net : Network) (h : DnsHandler) (request : List Question) (qname : Bytes)
    (qtype : Qtype) (cache : Cache)
    → IsAnswered (decide env net h request qname qtype cache).0
unfolding decide
decide-IsAnswered env net h request qname qtype cache =
    first_if _ _ _ (handle_blocked-IsAnswered h qtype) (
      IsAnswered-append _ _ (Quiet-if _ _ [] (Quiet-log_if h.logger _) tt) (
        IsAnswered-append _ _ (Quiet-learned _)
          (handle_allowed_request-IsAnswered net h request _)))

handle_question-IsAnswered :
    (env : Env) (net : Network) (h : DnsHandler) (request : List Question) (question : Question)
    (cache : Cache)
    → IsAnswered (handle_question env net h request question cache).0
unfolding handle_question
handle_question-IsAnswered env net h request question cache =
    elim (Option-cases (sanitize_and_log_qname question.name)) [
      | inl e ↦ rw (e, handle_question) (logged_reply _ _ _)
      | inr (qname, e) ↦
          rw (e, handle_question)
            (stage_first _ _ _ _ _ (block_exfil_query-IsStage h qname question.qtype)
              (decide-IsAnswered env net h request qname question.qtype cache))
    ]

handle_request-IsAnswered :
    (env : Env) (net : Network) (h : DnsHandler) (request : List Question) (cache : Cache)
    → IsAnswered (handle_request env net h request cache).0
handle_request-IsAnswered env net h [] cache = done (error format_error)
handle_request-IsAnswered env net h (q ∷ qs) cache =
    handle_question-IsAnswered env net h (q ∷ qs) q cache

rate_limited-IsStage :
    (logger : Bool) (now : ℕ) (source : Bytes) (l : Option DnsRateLimiter)
    → IsStage (rate_limited logger now source l).0 (rate_limited logger now source l).1
unfolding rate_limited
rate_limited-IsStage logger now source none = inr (refl, tt)
rate_limited-IsStage logger now source (some l) = elim (Bool-cases (allow l now source).1) [
  | inl passed ↦ rw passed (inr (refl, tt))
  | inr over ↦ rw over (inl (refl, logged_reply logger _ (error refused)))
]

-- Every request is answered with exactly one reply, and the reply is the last event: what is learned
-- and what is pushed into the resolved set comes before it.
pub handle-IsAnswered :
    (env : Env) (net : Network) (h : DnsHandler) (now : ℕ) (source local_addr : Bytes)
    (request : List Question) (st : State)
    → IsAnswered (handle env net h now source local_addr request st).0
unfolding handle
handle-IsAnswered env net h now source local_addr request st =
    let stage = rate_limited-IsStage h.logger now source st.limiter in
    stage_first _ _ _ _ _ stage (
      IsAnswered-append _ _ (Quiet-emit h local_addr)
        (handle_request-IsAnswered env net h request st.cache))
