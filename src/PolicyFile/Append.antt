-- ===== src/PolicyFile/Append.antt =====
-- internal/policy/policy.go: appending to the policy file keeps the file readable.
use g0efilter.Prelude.{
  ◌≡◌, refl, sym, ap, ◌∙◌, Bool, inl, inr, ◌⊎◌, true, List, [], ◌∷◌, ◌++◌, arith, All-append,
  Option, none, some, Option-cases, Bool-cases,
}
use mathlib.Core.Path.{subst}
use g0efilter.Text.{Bytes, equal, to_lower, trim_space, is_empty}
use g0efilter.Text.Laws.{equal_refl}
use g0efilter.Pattern.{Env}
use g0efilter.Entry.{EntryError, empty, validate_ip, validate_domain}
use g0efilter.PolicyFile.{
  AllowList, Config, bad_ip, bad_domain, ok, PolicyError, Yaml, PolicyFile, RoundTrips, load_config,
  Field, domains_field, ips_field, is_listed, extended, any_is, Write, succeeds, fails, write_file,
  marshal_failed, write_back, write_failed, append_to_allowlist, append_domain, append_ip,
  equal_fold,
}
use g0efilter.PolicyFile.Entries.{trim_space_idem}
use g0efilter.PolicyFile.Readable.{AreClean, IsReadable, IsGood, IsGood-readable, IsReadable-good}

cons_append :
    (same : Bytes → Bytes → Bool) (xs : List Bytes) {value : Bytes}
    → same value value ≡ true
    → any_is same value (xs ++ (value ∷ [])) ≡ true
cons_append same [] e = ground (arith, e)
cons_append same (x ∷ xs) e = ground (arith, cons_append same xs e)

is_listed-extended :
    (field : Field) (value : Bytes) (l : AllowList)
    → is_listed field value (extended field value l) ≡ true
unfolding is_listed extended
is_listed-extended domains_field value l =
    cons_append equal_fold l.domains (equal_refl (to_lower value))
is_listed-extended ips_field value l = cons_append equal l.ips (equal_refl value)

-- The next write fails.
abbrev pub FailsNext : {D : Type 0} → List (Write D) → Type 0
FailsNext [] = ⊥
FailsNext (succeeds ∷ ws) = ⊥
FailsNext (fails left ∷ ws) = Unit

error_lists : (e : PolicyError) (b : Bool) → some e ≡ none → b ≡ true
error_lists e b q = absurd (ground (arith, q))

module _ (yaml : Yaml) where
  -- What appending a value leaves: the allowlist, as it was or with the value at its end; without an
  -- error the value is listed.
  pub record IsAppended (field : Field) (value : Bytes) (cfg : Config)
      (r : Option PolicyError × PolicyFile yaml) : Type 0 where
    pub after : AllowList
    pub loads : load_config yaml r.1 ≡ ok (record cfg { allow_list = after })
    pub kept_or_extended : (after ≡ cfg.allow_list) ⊎ (after ≡ extended field value cfg.allow_list)
    pub lists : r.0 ≡ none → is_listed field value after ≡ true

  abbrev IsAppended-error :
      {field : Field} {value : Bytes} {cfg : Config} {file : PolicyFile yaml} (e : PolicyError)
      → load_config yaml file ≡ ok cfg
      → IsAppended field value cfg (some e, file)
  IsAppended-error {cfg = cfg} e p = record {
    after = cfg.allow_list;
    loads = p;
    kept_or_extended = inl refl;
    lists = error_lists e _;
  }

  IsAppended-listed :
      {field : Field} {value : Bytes} {cfg : Config} {file : PolicyFile yaml}
      → load_config yaml file ≡ ok cfg
      → is_listed field value cfg.allow_list ≡ true
      → IsAppended field value cfg (none, file)
  IsAppended-listed {cfg = cfg} p q = record {
    after = cfg.allow_list;
    loads = p;
    kept_or_extended = inl refl;
    lists = λ _. q;
  }

  -- The write failed, and the error says so.
  abbrev pub IsCut : PolicyFile yaml → Option PolicyError × PolicyFile yaml → Type 0
  IsCut file r = FailsNext file.writes × (r.0 ≡ some write_failed)

  module _ (trips : RoundTrips yaml) where
    write_file-cases :
        (ws : List (Write yaml.Document)) (text : yaml.Document)
        → (FailsNext ws × ((write_file yaml ws text).0 ≡ some write_failed))
          ⊎ (rest : List (Write yaml.Document)) × (write_file yaml ws text
              ≡ (none, record { content = some text; writes = rest }))
    unfolding write_file
    write_file-cases [] text = inr ([], refl)
    write_file-cases (succeeds ∷ ws) text = inr (ws, refl)
    write_file-cases (fails left ∷ ws) text = inl (tt, refl)

    write_back-cases :
        (cfg : Config) (file : PolicyFile yaml)
        → (write_back yaml file cfg ≡ (some marshal_failed, file))
          ⊎ (FailsNext file.writes × ((write_back yaml file cfg).0 ≡ some write_failed))
          ⊎ ((write_back yaml file cfg).0 ≡ none)
            × (load_config yaml (write_back yaml file cfg).1 ≡ ok cfg)
    unfolding write_back load_config
    write_back-cases cfg file = elim (Option-cases (yaml.marshal cfg)) [
      | inl e ↦ inl (rw (e, write_back) refl)
      | inr (text, e) ↦ elim (write_file-cases file.writes text) [
        | inl (f, w) ↦ inr (inl (f, rw (e, write_back) w))
        | inr (rest, w) ↦ inr (
            inr (
              rw (e, write_back, w) refl,
              rw (e, write_back, w, load_config, trips cfg text e) refl,
            ))
      ]
    ]

    append-IsCut :
        (field : Field) (value : Bytes) (cfg : Config) (file : PolicyFile yaml)
        → load_config yaml file ≡ ok cfg
        → IsCut file (append_to_allowlist yaml file field value)
          ⊎ IsAppended field value cfg (append_to_allowlist yaml file field value)
    unfolding append_to_allowlist
    append-IsCut field value cfg file p =
        let next : Config = record cfg { allow_list = extended field value cfg.allow_list } in
        elim (Bool-cases (is_listed field value cfg.allow_list)) [
          | inl q ↦
              let e : append_to_allowlist yaml file field value ≡ (none, file) =
                rw (append_to_allowlist, p, q) refl in
              inr (subst (IsAppended field value cfg) (sym e) (IsAppended-listed p q))
          | inr q ↦
              let e : append_to_allowlist yaml file field value ≡ write_back yaml file next =
                rw (append_to_allowlist, p, q) refl in
              elim (write_back-cases next file) [
                | inl f ↦ inr (
                    subst (IsAppended field value cfg) (sym (e ∙ f))
                      (IsAppended-error marshal_failed p))
                | inr (inl (f, w)) ↦ inl (f, ap (λ r. r.0) e ∙ w)
                | inr (inr (f, g)) ↦ inr (
                    subst (IsAppended field value cfg) (sym e) (record {
                      after = extended field value cfg.allow_list;
                      loads = g;
                      kept_or_extended = inr refl;
                      lists = λ _. is_listed-extended field value cfg.allow_list;
                    }))
              ]
        ]

  -- `AppendDomain` and `AppendIP`
  abbrev pub append : Env → Field → PolicyFile yaml → Bytes → Option PolicyError × PolicyFile yaml
  append env domains_field = append_domain yaml env
  append env ips_field = append_ip yaml env

  module _ (env : Env) (trips : RoundTrips yaml) where
    abbrev check_of : Field → Bytes → Option EntryError
    check_of domains_field = validate_domain env
    check_of ips_field = validate_ip env

    -- Appending is refused with an error, or the text is valid and goes to `appendToAllowlist`.
    append-cases :
        (field : Field) (file : PolicyFile yaml) (raw : Bytes)
        → ((e : PolicyError) × (append env field file raw ≡ (some e, file)))
          ⊎ (check_of field (trim_space raw) ≡ none)
            × (append env field file raw ≡ append_to_allowlist yaml file field (trim_space raw))
    unfolding append_domain append_ip
    append-cases domains_field file raw = elim (Bool-cases (is_empty (trim_space raw))) [
      | inl b ↦ inl (bad_domain empty, rw (b, append_domain) refl)
      | inr b ↦ elim (Option-cases (validate_domain env (trim_space raw))) [
        | inl c ↦ inr (c, rw (b, c, append_domain) refl)
        | inr (e, c) ↦ inl (bad_domain e, rw (b, c, append_domain) refl)
      ]
    ]
    append-cases ips_field file raw = elim (Bool-cases (is_empty (trim_space raw))) [
      | inl b ↦ inl (bad_ip empty, rw (b, append_ip) refl)
      | inr b ↦ elim (Option-cases (validate_ip env (trim_space raw))) [
        | inl c ↦ inr (c, rw (b, c, append_ip) refl)
        | inr (e, c) ↦ inl (bad_ip e, rw (b, c, append_ip) refl)
      ]
    ]

    extended-AreClean :
        (field : Field) (raw : Bytes) (l : AllowList)
        → check_of field (trim_space raw) ≡ none
        → AreClean env l
        → AreClean env (extended field (trim_space raw) l)
    unfolding extended
    extended-AreClean domains_field raw l c h =
        (h.0, All-append _ l.domains _ h.1 (inr (rw (trim_space_idem raw) c), tt))
    extended-AreClean ips_field raw l c h =
        (All-append _ l.ips _ h.0 (inr (rw (trim_space_idem raw) c), tt), h.1)

    extended-IsGood :
        (field : Field) (raw : Bytes) (cfg : Config) (l : AllowList)
        → check_of field (trim_space raw) ≡ none
        → IsGood env cfg
        → (l ≡ cfg.allow_list) ⊎ (l ≡ extended field (trim_space raw) cfg.allow_list)
        → IsGood env (record cfg { allow_list = l })
    unfolding IsGood
    extended-IsGood field raw cfg l c (a, h, k) (inl e) = rw e (a, h, k)
    extended-IsGood field raw cfg l c (a, h, k) (inr e) =
        rw e (a, extended-AreClean field raw cfg.allow_list c h, k)

    -- A result of appending: a failed write, or a file that `Read` accepts.
    abbrev pub Outcome :
        Field → PolicyFile yaml → Config → Bytes → Option PolicyError × PolicyFile yaml → Type 0
    Outcome field file cfg raw r =
        IsCut file r
        ⊎ (a : IsAppended field (trim_space raw) cfg r) × IsReadable env
            (record cfg { allow_list = a.after })

    -- Appending to a policy file that `Read` accepts either returns the error of a write that failed, or
    -- leaves a file that `Read` accepts, whose allowlist is the one before or has the trimmed text at its
    -- end; if there is no error the text is listed.
    pub append-IsReadable :
        (field : Field) (file : PolicyFile yaml) (cfg : Config) (raw : Bytes)
        → load_config yaml file ≡ ok cfg
        → IsReadable env cfg
        → Outcome field file cfg raw (append env field file raw)
    append-IsReadable field file cfg raw p h = elim (append-cases field file raw) [
      | inl (e, q) ↦ subst (Outcome field file cfg raw) (sym q) (inr (IsAppended-error e p, h))
      | inr (c, q) ↦
          subst (Outcome field file cfg raw) (sym q)
            (elim (append-IsCut trips field (trim_space raw) cfg file p) [
              | inl cut ↦ inl cut
              | inr a ↦ inr (
                a,
                IsReadable-good env (record cfg { allow_list = a.after })
                    (extended-IsGood field raw cfg a.after c (IsGood-readable env cfg h)
                      a.kept_or_extended),
              )
            ])
    ]
