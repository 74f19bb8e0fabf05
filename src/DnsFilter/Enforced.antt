-- ===== src/DnsFilter/Enforced.antt =====
-- The proxy lets out only what the policy and the hardening checks let pass.
use g0efilter.Prelude.{
  ℕ, ◌≡◌, refl, ◌⊎◌, inl, inr, Bool, true, false, not, ◌&&◌, ◌||◌, some, List, [], ◌∷◌, arith,
  Option-cases, Has,
}
use g0efilter.Text.{Bytes, is_empty}
use g0efilter.Pattern.{Env}
use g0efilter.Matcher.{Cache, new_matcher}
use g0efilter.Matcher.Cached.{IsCoherent}
use g0efilter.Permit.{Options}
use g0efilter.Permit.Table.{policy, IsPrepared}
use g0efilter.Dns.{Qtype, refused, format_error, Question, Network, check_exfil_query}
use g0efilter.DnsFilter.{
  DnsHandler, State, error, Event, reply, sanitize_and_log_qname, enforcing, block_exfil,
  block_exfil_query, handle_question, handle_request, handle,
}
use g0efilter.DnsFilter.Served.{IsServed, from_decide}
use g0efilter.DnsFilter.Inert.{
  is_outgoing, no_outgoing, behind, past_stage, logged_error, Inert-block_exfil_query, Inert-emit,
  Inert-rate_limited,
}

-- The question of a request whose name is accepted.
unfoldable pub IsAsked : List Question → Bytes → Qtype → Type 0
IsAsked request qname qtype =
    (q : Question) × (rest : List Question) × (request ≡ q ∷ rest)
    × (sanitize_and_log_qname q.name ≡ some qname)
    × (q.qtype ≡ qtype)

-- With hardening on and violations enforced, a query that passed the check of queries.
abbrev pub IsScreened : Options → Bytes → Qtype → Type 0
IsScreened opts qname qtype =
    (not opts.dns_hardening || not (enforcing opts) || is_empty (check_exfil_query qname qtype))
    ≡ true

query-IsScreened :
    (h : DnsHandler) (qname : Bytes) (qtype : Qtype)
    → (block_exfil_query h qname qtype).1 ≡ false
    → IsScreened h.opts qname qtype ⊎ (qname ≡ [])
unfolding block_exfil_query block_exfil
query-IsScreened h [] qtype e = inr refl
query-IsScreened h (x ∷ qname) qtype e = inl (ground (arith, e))

-- What must hold of a request from whose answer something goes out.
unfoldable pub IsEnforced : Env → Network → DnsHandler → List Bytes → List Question → Event → Type 0
IsEnforced env net h allowlist request e =
    (qname : Bytes) × (qtype : Qtype) × (full : Bool) × IsAsked request qname qtype
    × (IsScreened h.opts qname qtype ⊎ (qname ≡ []))
    × IsServed net h request full e
    × ((policy env allowlist h.opts qname || (h.opts.audit_mode && not full)) ≡ true)

from_question :
    (env : Env) (net : Network) (h : DnsHandler) (allowlist : List Bytes) (q : Question)
    (rest : List Question) (cache : Cache) (e : Event)
    → is_outgoing e ≡ true
    → h.allowlist ≡ new_matcher env allowlist
    → IsPrepared env h.opts
    → IsCoherent env cache
    → Has e (handle_question env net h (q ∷ rest) q cache).0
    → IsEnforced env net h allowlist (q ∷ rest) e
unfolding handle_question IsEnforced IsAsked
from_question env net h allowlist q rest cache e out is_matcher prepared ok k =
    elim (Option-cases (sanitize_and_log_qname q.name)) [
      | inl bad ↦
          absurd
            (no_outgoing e _ out (logged_error h.logger _ refused) (rw (bad, handle_question) at k))
      | inr (qname, named) ↦
          let (unanswered, sent) =
            past_stage e _ _ _ _ _ out (Inert-block_exfil_query h qname q.qtype)
              (rw (named, handle_question) at k) in
          let (full, served, permitted) =
            from_decide env net h allowlist (q ∷ rest) qname q.qtype cache e out is_matcher prepared
              ok sent in
          (
            qname,
            q.qtype,
            full,
            (q, rest, refl, named, refl),
            query-IsScreened h qname q.qtype unanswered,
            served,
            permitted,
          )
    ]

from_request :
    (env : Env) (net : Network) (h : DnsHandler) (allowlist : List Bytes) (request : List Question)
    (cache : Cache) (e : Event)
    → is_outgoing e ≡ true
    → h.allowlist ≡ new_matcher env allowlist
    → IsPrepared env h.opts
    → IsCoherent env cache
    → Has e (handle_request env net h request cache).0
    → IsEnforced env net h allowlist request e
from_request env net h allowlist [] cache e out is_matcher prepared ok k =
    absurd (no_outgoing e (reply (error format_error) ∷ []) out (refl, tt) k)
from_request env net h allowlist (q ∷ rest) cache e out is_matcher prepared ok k =
    from_question env net h allowlist q rest cache e out is_matcher prepared ok k

-- A handler with the matcher of an allowlist and a denylist matcher that is absent or built from the
-- denylist, with a coherent cache, sends an upstream's answer to the client or addresses to the
-- resolved set only for a request with a question whose name is accepted, from the answer that
-- `forward` returned. Addresses go out only for a name that the policy permits, a reply only for
-- such a name or in audit mode; and when hardening is enforced (no audit and no learning mode), the
-- question, unless its name is empty, and the answer passed the hardening checks.
pub handle-IsEnforced :
    (env : Env) (net : Network) (h : DnsHandler) (allowlist : List Bytes) (now : ℕ)
    (source local_addr : Bytes) (request : List Question) (st : State) (e : Event)
    → is_outgoing e ≡ true
    → h.allowlist ≡ new_matcher env allowlist
    → IsPrepared env h.opts
    → IsCoherent env st.cache
    → Has e (handle env net h now source local_addr request st).0
    → IsEnforced env net h allowlist request e
unfolding handle
handle-IsEnforced env net h allowlist now source local_addr request st e out is_matcher prepared ok
      k =
    let (passed, sent) =
      past_stage e _ _ _ _ _ out (Inert-rate_limited h.logger now source st.limiter) k in
    let served = behind e _ _ out (Inert-emit h local_addr) sent in
    from_request env net h allowlist request st.cache e out is_matcher prepared ok served
