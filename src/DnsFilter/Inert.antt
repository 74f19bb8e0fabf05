-- ===== src/DnsFilter/Inert.antt =====
-- The stages of the handler that send nothing of an upstream's answer anywhere.
use g0efilter.Prelude.{
  ℕ, ◌≡◌, refl, ap, ◌⊎◌, inl, inr, Bool, true, false, not, Option, none, some, List, [], ◌∷◌, ◌++◌,
  map, arith, if◌then◌else◌, Bool-cases, All, Has, All-append,
}
use g0efilter.Text.{Bytes, is_empty}
use g0efilter.DnsLimiter.{DnsRateLimiter, allow}
use g0efilter.Permit.{Learned}
use g0efilter.Dns.{Qtype, Rcode, refused, server_failure, name_error, Response, Network}
use g0efilter.DnsFilter.{
  DnsHandler, error, upstream, LogLine, Event, learned, resolved, reply, log_if, rate_limited,
  emit_synthetic_event, enforcing, block_exfil, block_exfil_query, block_exfil_response,
  is_address_type, handle_blocked,
}

-- An upstream's answer in the reply, or addresses for the resolved set.
abbrev pub is_outgoing : Event → Bool
is_outgoing (reply (upstream r)) = true
is_outgoing (resolved ips ttl) = true
is_outgoing _ = false

abbrev pub Inert : List Event → Type 0
Inert = All (λ e. is_outgoing e ≡ false)

pub Inert-append : (xs ys : List Event) → Inert xs → Inert ys → Inert (xs ++ ys)
Inert-append = All-append (λ e. is_outgoing e ≡ false)

pub Inert-log_if : (b : Bool) (l : LogLine) → Inert (log_if b l)
Inert-log_if true l = (refl, tt)
Inert-log_if false l = tt

pub Inert-learned : (ls : List Learned) → Inert (map learned ls)
Inert-learned [] = tt
Inert-learned (l ∷ ls) = (refl, Inert-learned ls)

pub Inert-if : (t : Bool) (xs ys : List Event) → Inert xs → Inert ys → Inert (if t then xs else ys)
Inert-if true xs ys h k = h
Inert-if false xs ys h k = k

pub no_outgoing : (e : Event) (es : List Event) → is_outgoing e ≡ true → Inert es → ¬ Has e es
no_outgoing e [] out quiet h = h
no_outgoing e (f ∷ es) out quiet (inl here) =
    absurd (ground (arith, out, quiet.0, ap is_outgoing here))
no_outgoing e (f ∷ es) out quiet (inr there) = no_outgoing e es out quiet.1 there

-- Past a quiet front.
pub behind :
    (e : Event) (xs ys : List Event) → is_outgoing e ≡ true → Inert xs → Has e (xs ++ ys) → Has e ys
behind e [] ys out quiet h = h
behind e (x ∷ xs) ys out quiet (inl here) =
    absurd (ground (arith, out, quiet.0, ap is_outgoing here))
behind e (x ∷ xs) ys out quiet (inr there) = behind e xs ys out quiet.1 there

pub Has-append : (e : Event) (xs ys : List Event) → Has e (xs ++ ys) → Has e xs ⊎ Has e ys
Has-append e [] ys h = inr h
Has-append e (x ∷ xs) ys (inl here) = inl (inl here)
Has-append e (x ∷ xs) ys (inr there) = elim (Has-append e xs ys there) [
  | inl front ↦ inl (inr front)
  | inr back ↦ inr back
]

pub Has-only : (t : Bool) (e x : Event) → Has e (if t then [] else x ∷ []) → x ≡ e
Has-only true e x h = absurd h
Has-only false e x (inl here) = here
Has-only false e x (inr there) = absurd there

pub Has-if :
    (t : Bool) (e : Event) (xs : List Event) → Has e (if t then xs else []) → (t ≡ true) × Has e xs
Has-if true e xs h = (refl, h)
Has-if false e xs h = absurd h

pub past_list :
    (e : Event) (es : List Event) (answered : Bool) (rest : List Event)
    → is_outgoing e ≡ true
    → Inert es
    → Has e (if answered then es else es ++ rest)
    → (answered ≡ false) × Has e rest
past_list e es true rest out quiet h = absurd (no_outgoing e es out quiet h)
past_list e es false rest out quiet h = (refl, behind e es rest out quiet h)

pub past_refusal :
    {A : Type 0} (e : Event) (es rest : List Event) (over : Bool) (x y : A)
    → is_outgoing e ≡ true
    → Inert es
    → Has e (if◌then◌else◌ {A = List Event × A} over (es, x) (rest, y)).0
    → (over ≡ false) × Has e rest
past_refusal e es rest true x y out quiet h = absurd (no_outgoing e es out quiet h)
past_refusal e es rest false x y out quiet h = (refl, h)

-- Past a stage that answers without an outgoing event: it did not answer.
pub past_stage :
    {A : Type 0} (e : Event) (es : List Event) (answered : Bool) (rest : List Event) (x y : A)
    → is_outgoing e ≡ true
    → Inert es
    → Has e (if◌then◌else◌ {A = List Event × A} answered (es, x) (es ++ rest, y)).0
    → (answered ≡ false) × Has e rest
past_stage e es true rest x y out quiet h = absurd (no_outgoing e es out quiet h)
past_stage e es false rest x y out quiet h = (refl, behind e es rest out quiet h)

pub logged_error :
    (b : Bool) (l : LogLine) (r : Rcode) → Inert (log_if b l ++ (reply (error r) ∷ []))
logged_error b l r = Inert-append (log_if b l) _ (Inert-log_if b l) (refl, tt)

Inert-pair :
    {A : Type 0} (t : Bool) (p q : List Event × A)
    → Inert p.0
    → Inert q.0
    → Inert (if t then p else q).0
Inert-pair true p q h k = h
Inert-pair false p q h k = k

Inert-block_exfil :
    (h : DnsHandler) (reason : Bytes) (rcode : Rcode) → Inert (block_exfil h reason rcode).0
unfolding block_exfil
Inert-block_exfil h reason rcode =
    Inert-pair (is_empty reason) ([], false) _ tt
      (Inert-pair (not (enforcing h.opts)) _ _ (Inert-log_if h.logger _)
        (logged_error h.logger _ rcode))

pub Inert-block_exfil_query :
    (h : DnsHandler) (qname : Bytes) (qtype : Qtype) → Inert (block_exfil_query h qname qtype).0
unfolding block_exfil_query
Inert-block_exfil_query h qname qtype =
    Inert-pair _ ([], false) _ tt (Inert-block_exfil h _ refused)

pub Inert-block_exfil_response :
    (net : Network) (h : DnsHandler) (r : Response) → Inert (block_exfil_response net h r).0
unfolding block_exfil_response
Inert-block_exfil_response net h r =
    Inert-pair _ ([], false) _ tt (Inert-block_exfil h _ server_failure)

pub Inert-handle_blocked : (h : DnsHandler) (q : Qtype) → Inert (handle_blocked h q)
unfolding handle_blocked
Inert-handle_blocked h q =
    Inert-if (is_address_type q) _ _ (Inert-append _ _ (Inert-log_if h.logger _) (refl, tt))
      (logged_error h.logger _ name_error)

pub Inert-emit : (h : DnsHandler) (addr : Bytes) → Inert (emit_synthetic_event h addr)
unfolding emit_synthetic_event
Inert-emit h addr = Inert-if _ [] (_ ∷ []) tt (refl, tt)

pub Inert-rate_limited :
    (logger : Bool) (now : ℕ) (source : Bytes) (l : Option DnsRateLimiter)
    → Inert (rate_limited logger now source l).0
unfolding rate_limited
Inert-rate_limited logger now source none = tt
Inert-rate_limited logger now source (some l) = elim (Bool-cases (allow l now source).1) [
  | inl passed ↦ rw passed tt
  | inr over ↦ rw over (logged_error logger _ refused)
]

-- Past the audit line and what is learned.
pub past_notes :
    (e : Event) (t b : Bool) (l : LogLine) (ls : List Learned) (es : List Event)
    → is_outgoing e ≡ true
    → Has e ((if t then log_if b l else []) ++ (map learned ls ++ es))
    → Has e es
past_notes e t b l ls es out h = behind e (map learned ls) es out (Inert-learned ls) (
    behind e (if t then log_if b l else []) (map learned ls ++ es) out
      (Inert-if t (log_if b l) [] (Inert-log_if b l) tt) h)
