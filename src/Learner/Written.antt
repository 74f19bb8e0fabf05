-- ===== src/Learner/Written.antt =====
-- internal/g0efilter/learner.go: what the learner writes to the policy file, over any run.
use mathlib.Core.Path.{subst}
use g0efilter.Prelude.{
  ◌⊎◌, if◌then◌else◌, ◌≡◌, refl, sym, true, inl, inr, Bool, Bool-cases, Option, none, some, List,
  [], ◌∷◌, ◌++◌, arith, All, Any, All-append, All-mono,
}
use g0efilter.Text.{Bytes, codes, equal, trim_space}
use g0efilter.Pattern.{Env}
use g0efilter.PolicyFile.{
  AllowList, Config, PolicyError, write_failed, ok, load_config, Yaml, RoundTrips, PolicyFile,
  Field, domains_field, ips_field, is_listed, extended, any_is, equal_fold,
}
use g0efilter.PolicyFile.Readable.{IsReadable}
use g0efilter.PolicyFile.Append.{IsAppended, append, append-IsReadable}
use g0efilter.Learner.{
  LearnEntry, Learner, Line, cap_reached, append_failed, learned, append_entry, line_of,
  record_value, flush_batch, flush, Call, observe, tick, World, step, run,
}
use g0efilter.Learner.Queued.{start}

any_is-append :
    (same : Bytes → Bytes → Bool) (v : Bytes) (xs ys : List Bytes)
    → any_is same v xs ≡ true
    → any_is same v (xs ++ ys) ≡ true
any_is-append same v [] ys h = absurd (ground (arith, h))
any_is-append same v (x ∷ xs) ys h = ground (arith, h, any_is-append same v xs ys)

is_listed-grows :
    (f g : Field) (v w : Bytes) (l : AllowList)
    → is_listed f v l ≡ true
    → is_listed f v (extended g w l) ≡ true
unfolding is_listed extended
is_listed-grows domains_field domains_field v w l h = any_is-append equal_fold v l.domains _ h
is_listed-grows domains_field ips_field v w l h = h
is_listed-grows ips_field domains_field v w l h = h
is_listed-grows ips_field ips_field v w l h = any_is-append equal v l.ips _ h

abbrev field_of : Bytes → Field
field_of kind = if equal kind (codes "ip") then ips_field else domains_field

-- A line that reports an entry as learned is about one that the allowlist has.
pub IsTrue : AllowList → Line → Type 0
IsTrue l (learned e) = is_listed (field_of e.kind) (trim_space e.value) l ≡ true
IsTrue l (append_failed e err) = Unit
IsTrue l (cap_reached key) = Unit

Grows : AllowList → AllowList → Type 0
Grows l m = (f : Field) (v : Bytes) → is_listed f v l ≡ true → is_listed f v m ≡ true

IsTrue-Grows : (l m : AllowList) → Grows l m → (line : Line) → IsTrue l line → IsTrue m line
unfolding IsTrue Grows
IsTrue-Grows l m g (learned e) h = g _ _ h
IsTrue-Grows l m g (append_failed e err) h = tt
IsTrue-Grows l m g (cap_reached key) h = tt

module _ (yaml : Yaml) (env : Env) where
  -- The policy file has this configuration, and `Read` accepts it.
  abbrev pub Holds : PolicyFile yaml → Config → Type 0
  Holds file cfg = (load_config yaml file ≡ ok cfg) × IsReadable env cfg

  append_entry-field :
      (file : PolicyFile yaml) (e : LearnEntry)
      → append_entry yaml env file e ≡ append yaml env (field_of e.kind) file e.value
  append_entry-field file e = elim (Bool-cases (equal e.kind (codes "ip"))) [
    | inl p ↦ rw p refl
    | inr p ↦ rw p refl
  ]

  line_of-IsTrue :
      (l : AllowList) (e : LearnEntry) (err : Option PolicyError)
      → (err ≡ none → is_listed (field_of e.kind) (trim_space e.value) l ≡ true)
      → IsTrue l (line_of yaml env e err)
  unfolding IsTrue
  line_of-IsTrue l e none h = h refl
  line_of-IsTrue l e (some x) h = tt

  -- What a batch leaves, from a configuration.
  abbrev Leaves : Config → List Line × PolicyFile yaml → Type 0
  Leaves cfg r =
      (after : Config) × Holds r.1 after
      × Grows cfg.allow_list after.allow_list
      × All (IsTrue after.allow_list) r.0

  IsAppended-Grows :
      (f : Field) (v : Bytes) (cfg : Config) (r : Option PolicyError × PolicyFile yaml)
      (a : IsAppended yaml f v cfg r)
      → Grows cfg.allow_list a.after
  unfolding Grows
  IsAppended-Grows f v cfg r a g w h = elim a.kept_or_extended [
    | inl e ↦ rw e h
    | inr e ↦ rw e (is_listed-grows g f w v cfg.allow_list h)
  ]

  -- A line that reports that a write of the policy file failed.
  abbrev pub IsCutLine : Line → Type 0
  IsCutLine (append_failed e err) = err ≡ write_failed
  IsCutLine (learned e) = ⊥
  IsCutLine (cap_reached key) = ⊥

  Any-behind : (xs ys : List Line) → Any IsCutLine ys → Any IsCutLine (xs ++ ys)
  Any-behind [] ys h = h
  Any-behind (x ∷ xs) ys h = inr (Any-behind xs ys h)

  Any-front : (xs ys : List Line) → Any IsCutLine xs → Any IsCutLine (xs ++ ys)
  Any-front [] ys h = absurd h
  Any-front (x ∷ xs) ys (inl h) = inl h
  Any-front (x ∷ xs) ys (inr h) = inr (Any-front xs ys h)

  line_of-cut :
      (e : LearnEntry) (err : Option PolicyError)
      → err ≡ some write_failed
      → IsCutLine (line_of yaml env e err)
  line_of-cut e none h = absurd (ground (arith, h))
  line_of-cut e (some x) h = ground (arith, h)

  module _ (trips : RoundTrips yaml) where
    append_entry-Leaves :
        (file : PolicyFile yaml) (cfg : Config) (e : LearnEntry)
        → Holds file cfg
        → let r = append_entry yaml env file e in
          let line = line_of yaml env e r.0 in IsCutLine line ⊎ Leaves cfg (line ∷ [], r.1)
    append_entry-Leaves file cfg e h =
        subst
          (λ r. IsCutLine (line_of yaml env e r.0) ⊎ Leaves cfg (line_of yaml env e r.0 ∷ [], r.1))
          (sym (append_entry-field file e))
          (elim (append-IsReadable yaml env trips (field_of e.kind) file cfg e.value h.0 h.1) [
            | inl cut ↦ inl (line_of-cut e _ cut.1)
            | inr (a, p) ↦ inr (
              record cfg { allow_list = a.after },
              (a.loads, p),
              IsAppended-Grows _ _ cfg _ a,
              (line_of-IsTrue a.after e _ a.lists, tt),
            )
          ])

    flush_batch-Leaves :
        (batch : List LearnEntry) (file : PolicyFile yaml) (cfg : Config)
        → Holds file cfg
        → Any IsCutLine (flush_batch yaml env batch file).0
          ⊎ Leaves cfg (flush_batch yaml env batch file)
    unfolding flush_batch Grows
    flush_batch-Leaves [] file cfg h = inr (cfg, h, λ f v x. x, tt)
    flush_batch-Leaves (e ∷ batch) file cfg h = elim (append_entry-Leaves file cfg e h) [
      | inl cut ↦ inl (inl cut)
      | inr (mid, m, g, t) ↦
          elim (flush_batch-Leaves batch (append_entry yaml env file e).1 mid m) [
            | inl cut ↦ inl (inr cut)
            | inr (after, k, g', t') ↦ inr (
              after,
              k,
              λ f v x. g' f v (g f v x),
              (IsTrue-Grows mid.allow_list after.allow_list g' _ t.0, t'),
            )
          ]
    ]

    abbrev pub IsSound : World yaml → Type 0
    IsSound w = (cfg : Config) × Holds w.file cfg × All (IsTrue cfg.allow_list) w.lines

    -- Some write has failed, and a line says so, or all is well.
    abbrev Goes : World yaml → Type 0
    Goes w = Any IsCutLine w.lines ⊎ IsSound w

    record_value-IsTrue :
        (l : AllowList) (r : Learner) (e : LearnEntry) → All (IsTrue l) (record_value r e).0
    unfolding IsTrue record_value
    record_value-IsTrue l r e = ground arith

    step-Goes : (w : World yaml) (c : Call) → Goes w → Goes (step yaml env w c)
    unfolding step flush
    step-Goes w (observe e) (inl cut) = inl (Any-front w.lines _ cut)
    step-Goes w tick (inl cut) = inl (Any-front w.lines _ cut)
    step-Goes w (observe e) (inr (cfg, h, t)) =
        inr (cfg, h, All-append _ w.lines _ t (record_value-IsTrue cfg.allow_list w.learner e))
    step-Goes w tick (inr (cfg, h, t)) = elim (flush_batch-Leaves w.learner.pending w.file cfg h) [
      | inl cut ↦ inl (Any-behind w.lines _ cut)
      | inr (after, k, g, t') ↦ inr (
        after,
        k,
        All-append _ w.lines _
            (All-mono _ _ (IsTrue-Grows cfg.allow_list after.allow_list g) w.lines t) t',
      )
    ]

    run-Goes : (calls : List Call) (w : World yaml) → Goes w → Goes (run yaml env w calls)
    unfolding run
    run-Goes [] w h = h
    run-Goes (c ∷ calls) w h = run-Goes calls (step yaml env w c) (step-Goes w c h)

    -- After any observed values and flushes from a policy file that `Read` accepts, without a line that
    -- reports a failed write: `Read` accepts the policy file, and every entry that was logged as learned
    -- stands in its allowlist.
    pub learner_stays-IsSound :
        (file : PolicyFile yaml) (cfg : Config) (calls : List Call)
        → load_config yaml file ≡ ok cfg
        → IsReadable env cfg
        → ¬ (Any IsCutLine (run yaml env (start yaml env file) calls).lines)
        → IsSound (run yaml env (start yaml env file) calls)
    learner_stays-IsSound file cfg calls e h whole =
        elim (run-Goes calls (start yaml env file) (inr (cfg, (e, h), tt))) [
          | inl cut ↦ absurd (whole cut)
          | inr sound ↦ sound
        ]
