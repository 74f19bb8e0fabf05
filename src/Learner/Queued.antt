-- ===== src/Learner/Queued.antt =====
-- internal/g0efilter/learner.go: what is queued, over any run.
use mathlib.Core.Path.{subst}
use g0efilter.Prelude.{
  ℕ, ◌≤◌, ◌<◌, ◌≡◌, refl, sym, ap, ◌∙◌, ◌⊎◌, inl, inr, true, false, Option, none, some, List, [],
  ◌∷◌, ◌++◌, map, length, leb, Bool-cases, arith, length-append, All, All-append, All-mono,
}
use g0efilter.Text.{Bytes, is_empty}
use g0efilter.Text.Laws.{equal_iff}
use g0efilter.Pattern.{Env}
use g0efilter.PolicyFile.{PolicyError, Yaml, PolicyFile}
use g0efilter.Learner.{
  learner_max_seen, LearnEntry, Learner, new_learner, Line, cap_reached, append_failed, learned,
  key_of, in_keys, record_value, append_entry, line_of, flush_batch, flush, Call, observe, tick,
  World, step, run, handed, observed,
}
use g0efilter.Learner.Lists.{
  Distinct, Distinct-append, append_assoc, append_nil, map-snoc, Sublist, ends, Sublist-skip,
  Sublist-keep,
}

-- An observed entry is blank, or its key was seen, or the limit is reached.
abbrev pub IsTaken : List Bytes → LearnEntry → Type 0
IsTaken seen e =
    (is_empty e.value ≡ true) ⊎ (in_keys (key_of e) seen ≡ true) ⊎ (length seen ≡ learner_max_seen)

-- With the observed entries and the entries that were handed to the policy file.
pub record IsQueued (given done : List LearnEntry) (l : Learner) : Type 0 where
  pub once : Distinct l.seen
  pub bounded : length l.seen ≤ learner_max_seen
  pub taken : All (IsTaken l.seen) given
  pub seen_queued : l.seen ≡ map key_of (done ++ l.pending)
  pub in_order : Sublist (done ++ l.pending) given

below : {m n : ℕ} → leb m n ≡ false → n < m
below h = ground (arith, h)

at_limit : {m n : ℕ} → leb m n ≡ true → n ≤ m → n ≡ m
at_limit h k = ground (arith, h, k)

in_keys-grows :
    (ks : List Bytes) (x k : Bytes) → in_keys x ks ≡ true → in_keys x (ks ++ (k ∷ [])) ≡ true
in_keys-grows [] x k h = absurd (ground (arith, h))
in_keys-grows (y ∷ ks) x k h = ground (arith, h, in_keys-grows ks x k)

in_keys-last : (ks : List Bytes) (k : Bytes) → in_keys k (ks ++ (k ∷ [])) ≡ true
in_keys-last [] k = ground (arith, (equal_iff k k).1 refl)
in_keys-last (y ∷ ks) k = ground (arith, in_keys-last ks k)

IsTaken-grows :
    (seen : List Bytes) (k : Bytes)
    → length seen < learner_max_seen
    → (e : LearnEntry) → IsTaken seen e
    → IsTaken (seen ++ (k ∷ [])) e
IsTaken-grows seen k l e (inl b) = inl b
IsTaken-grows seen k l e (inr (inl h)) = inr (inl (in_keys-grows seen (key_of e) k h))
IsTaken-grows seen k l e (inr (inr h)) = absurd (omega (arith, l, h))

abbrev Unchanged : Learner → LearnEntry → Learner → Type 0
Unchanged l e r =
    (r.seen ≡ l.seen)
    × (r.pending ≡ l.pending)
    × (length l.seen ≤ learner_max_seen → IsTaken l.seen e)

abbrev Queues : Learner → LearnEntry → Learner → Type 0
Queues l e r =
    (in_keys (key_of e) l.seen ≡ false)
    × (length l.seen < learner_max_seen)
    × (r.seen ≡ l.seen ++ (key_of e ∷ []))
    × (r.pending ≡ l.pending ++ (e ∷ []))

record_value-cases :
    (l : Learner) (e : LearnEntry)
    → Unchanged l e (record_value l e).1 ⊎ Queues l e (record_value l e).1
unfolding record_value
record_value-cases l e = elim (Bool-cases (is_empty e.value)) [
  | inl a ↦ inl (rw (a, record_value) refl, rw (a, record_value) refl, λ k. inl a)
  | inr a ↦ elim (Bool-cases (in_keys (key_of e) l.seen)) [
    | inl b ↦ inl (rw (a, b, record_value) refl, rw (a, b, record_value) refl, λ k. inr (inl b))
    | inr b ↦ elim (Bool-cases (leb learner_max_seen (length l.seen))) [
      | inl c ↦ elim (Bool-cases l.cap_warned) [
        | inl d ↦ inl (
          rw (a, b, c, d, record_value) refl,
          rw (a, b, c, d, record_value) refl,
          λ k. inr (inr (at_limit c k)),
        )
        | inr d ↦ inl (
          rw (a, b, c, d, record_value) refl,
          rw (a, b, c, d, record_value) refl,
          λ k. inr (inr (at_limit c k)),
        )
      ]
      | inr c ↦ inr (b, below c, rw (a, b, c, record_value) refl, rw (a, b, c, record_value) refl)
    ]
  ]
]

record_value-IsQueued :
    (given done : List LearnEntry) (l : Learner) (e : LearnEntry)
    → IsQueued given done l
    → IsQueued (given ++ (e ∷ [])) done (record_value l e).1
record_value-IsQueued given done l e h = elim (record_value-cases l e) [
  | inl (a, b, t) ↦ record {
    once = rw a h.once;
    bounded = rw a h.bounded;
    taken = rw a (All-append _ given _ h.taken (t h.bounded, tt));
    seen_queued = rw (a, b) h.seen_queued;
    in_order = rw b (Sublist-skip e h.in_order);
  }
  | inr (a, b, c, d) ↦
      let grown = All-mono _ _ (IsTaken-grows l.seen (key_of e) b) given h.taken in
      record {
        once = rw c (Distinct-append l.seen (key_of e) h.once a);
        bounded = rw c (omega (arith, b, length-append l.seen (key_of e ∷ [])));
        taken = rw c (All-append _ given _ grown (inr (inl (in_keys-last l.seen (key_of e))), tt));
        seen_queued =
            rw (c, d)
              (ap (λ r. r ++ (key_of e ∷ [])) h.seen_queued
                ∙ sym (map-snoc (done ++ l.pending) e)
                ∙ ap (map key_of) (append_assoc done l.pending (e ∷ [])));
        in_order = rw d (
            subst (λ r. Sublist r (given ++ (e ∷ []))) (append_assoc done l.pending (e ∷ []))
              (Sublist-keep e h.in_order));
      }
]

handed-append : (xs ys : List Line) → handed (xs ++ ys) ≡ handed xs ++ handed ys
unfolding handed
handed-append [] ys = refl
handed-append (learned e ∷ xs) ys = ap (λ r. e ∷ r) (handed-append xs ys)
handed-append (append_failed e err ∷ xs) ys = ap (λ r. e ∷ r) (handed-append xs ys)
handed-append (cap_reached key ∷ xs) ys = handed-append xs ys

handed-record_value : (l : Learner) (e : LearnEntry) → handed (record_value l e).0 ≡ []
unfolding handed record_value
handed-record_value l e = ground arith

module _ (yaml : Yaml) (env : Env) where
  handed-line_of :
      (e : LearnEntry) (err : Option PolicyError) (lines : List Line)
      → handed (line_of yaml env e err ∷ lines) ≡ e ∷ handed lines
  unfolding handed
  handed-line_of e none lines = refl
  handed-line_of e (some x) lines = refl

  handed-flush_batch :
      (batch : List LearnEntry) (file : PolicyFile yaml)
      → handed (flush_batch yaml env batch file).0 ≡ batch
  unfolding flush_batch handed
  handed-flush_batch [] file = refl
  handed-flush_batch (e ∷ batch) file =
      handed-line_of e (append_entry yaml env file e).0 _
      ∙ ap (λ r. e ∷ r) (handed-flush_batch batch (append_entry yaml env file e).1)

  abbrev Stays : List LearnEntry → World yaml → Type 0
  Stays given w = IsQueued given (handed w.lines) w.learner

  flushed-IsQueued :
      (given done : List LearnEntry) (l : Learner)
      → IsQueued given done l
      → IsQueued given (done ++ l.pending) (record l { pending = [] })
  flushed-IsQueued given done l h = record {
    once = h.once;
    bounded = h.bounded;
    taken = h.taken;
    seen_queued = h.seen_queued ∙ ap (map key_of) (sym (append_nil _));
    in_order = subst (λ r. Sublist r given) (sym (append_nil _)) h.in_order;
  }

  step-observe :
      (given : List LearnEntry) (w : World yaml) (e : LearnEntry)
      → Stays given w
      → Stays (given ++ (e ∷ [])) (step yaml env w (observe e))
  unfolding step
  step-observe given w e h =
      let same : handed (w.lines ++ (record_value w.learner e).0) ≡ handed w.lines =
        handed-append w.lines _
        ∙ ap (λ r. handed w.lines ++ r) (handed-record_value w.learner e)
        ∙ append_nil _ in
      subst (λ done. IsQueued (given ++ (e ∷ [])) done (record_value w.learner e).1) (sym same)
        (record_value-IsQueued given (handed w.lines) w.learner e h)

  step-tick :
      (given : List LearnEntry) (w : World yaml)
      → Stays given w
      → Stays given (step yaml env w tick)
  unfolding step flush
  step-tick given w h =
      let same : handed (w.lines ++ (flush_batch yaml env w.learner.pending w.file).0)
          ≡ handed w.lines ++ w.learner.pending =
        handed-append w.lines _
        ∙ ap (λ r. handed w.lines ++ r) (handed-flush_batch w.learner.pending w.file) in
      subst (λ done. IsQueued given done (record w.learner { pending = [] })) (sym same)
        (flushed-IsQueued given (handed w.lines) w.learner h)

  run-Stays :
      (calls : List Call) (given : List LearnEntry) (w : World yaml)
      → Stays given w
      → Stays (given ++ observed calls) (run yaml env w calls)
  unfolding run observed
  run-Stays [] given w h = subst (λ g. Stays g w) (sym (append_nil given)) h
  run-Stays (tick ∷ calls) given w h =
      run-Stays calls given (step yaml env w tick) (step-tick given w h)
  run-Stays (observe e ∷ calls) given w h =
      subst (λ g. Stays g (run yaml env (step yaml env w (observe e)) calls))
        (append_assoc given (e ∷ []) (observed calls))
        (run-Stays calls (given ++ (e ∷ [])) (step yaml env w (observe e))
          (step-observe given w e h))

  abbrev pub start : PolicyFile yaml → World yaml
  start file = record { learner = new_learner; file = file; lines = [] }

  -- After any observed values and flushes: every observed value is empty or its key was seen, or the
  -- limit of 10000 keys is reached; no key stands twice, and there are at most 10000; the keys that were
  -- seen are those of the entries that the lines of the flushes are about and then of the waiting ones, and
  -- these entries were observed in that order.
  pub learner_stays-IsQueued :
      (file : PolicyFile yaml) (calls : List Call)
      → IsQueued
          (observed calls)
          (handed (run yaml env (start file) calls).lines)
          (run yaml env (start file) calls).learner
  unfolding Distinct handed
  learner_stays-IsQueued file calls = run-Stays calls [] (start file) (record {
    once = tt;
    bounded = ground arith;
    taken = tt;
    seen_queued = refl;
    in_order = ends;
  })
