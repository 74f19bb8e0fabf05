-- ===== src/PolicyFile/Read.antt =====
-- internal/policy/policy.go: what `Read` returns.
use g0efilter.Prelude.{
  ◌≡◌, refl, sym, ◌∙◌, ◌⊎◌, inl, inr, false, ◌||◌, Bool-cases, Option, none, List, [], ◌∷◌, arith,
  All, if◌then◌else◌,
}
use mathlib.Core.Path.{subst}
use g0efilter.Text.{Bytes, codes, equal, is_empty, trim_space, to_lower}
use g0efilter.Text.Laws.{equal_iff}
use g0efilter.Pattern.{Env}
use g0efilter.Entry.{EntryError, validate_ip, validate_domain}
use g0efilter.PolicyFile.{
  AllowList, Config, Policy, Result, ok, error, bad_ip, bad_domain, Yaml, PolicyFile, Environment,
  validate_ips, validate_domains, validate_lists, validate_default_action, bad_default_action,
  read_config, load_config, load_from_env, is_set, trimmed, parse_comma_separated, read,
}
use g0efilter.PolicyFile.Entries.{IsClean, kept, validate_entries_iff, Result-cases}

-- A valid entry of a list.
abbrev pub IsEntry : (Bytes → Option EntryError) → Bytes → Type 0
IsEntry check entry = (is_empty entry ≡ false) × (check entry ≡ none)

kept-IsEntry :
    (check : Bytes → Option EntryError) (entries : List Bytes)
    → All (IsClean check) entries
    → All (IsEntry check) (kept entries)
kept-IsEntry check [] h = tt
kept-IsEntry check (raw ∷ entries) h = elim (Bool-cases (is_empty (trim_space raw))) [
  | inl e ↦ rw e (kept-IsEntry check entries h.1)
  | inr e ↦ elim h.0 [
    | inl f ↦ absurd (ground (arith, e, f))
    | inr f ↦ rw e ((e, f), kept-IsEntry check entries h.1)
  ]
]

ok_inj : {A : Type 0} {x y : A} → ok x ≡ ok y → x ≡ y
ok_inj e = ground (arith, e)

-- One of the two default actions, or none.
abbrev pub IsAction : Bytes → Type 0
IsAction a = (a ≡ []) ⊎ (a ≡ codes "deny") ⊎ (a ≡ codes "allow")

-- The test of `validateDefaultAction`, on the text in lower case.
abbrev checked : Bytes → Result Bytes
checked action =
    if is_empty action || equal action (codes "deny") || equal action (codes "allow")
    then ok action
    else error bad_default_action

checked-IsAction : (action a : Bytes) → checked action ≡ ok a → IsAction a
checked-IsAction [] a e = inl (sym (ok_inj e))
checked-IsAction (c ∷ s) a e = elim (Bool-cases (equal (c ∷ s) (codes "deny"))) [
  | inl p ↦ inr (inl (sym (ok_inj (rw p at e)) ∙ (equal_iff _ _).0 p))
  | inr p ↦ elim (Bool-cases (equal (c ∷ s) (codes "allow"))) [
    | inl q ↦ inr (inr (sym (ok_inj (rw (p, q) at e)) ∙ (equal_iff _ _).0 q))
    | inr q ↦ absurd (ground (arith, rw (p, q) at e))
  ]
]

module _ (env : Env) where
  abbrev pub AreEntries : List Bytes → List Bytes → Type 0
  AreEntries ips domains =
      All (IsEntry (validate_ip env)) ips × All (IsEntry (validate_domain env)) domains

  -- The lists have only valid entries, and the default action is one of the two, or is not set.
  pub record IsChecked (pol : Policy) : Type 0 where
    pub action : IsAction pol.default_action
    pub allow_lists : AreEntries pol.allow_ips pol.allow_domains
    pub deny_lists : AreEntries pol.deny_ips pol.deny_domains

  validate_lists-AreEntries :
      (l : AllowList) {r : List Bytes × List Bytes}
      → validate_lists env l ≡ ok r
      → AreEntries r.0 r.1
  unfolding validate_lists validate_ips validate_domains
  validate_lists-AreEntries l {r} e = elim (Result-cases (validate_ips env l.ips)) [
    | inl (x, p) ↦ absurd (ground (arith, e, p))
    | inr (xs, p) ↦ elim (Result-cases (validate_domains env l.domains)) [
      | inl (x, q) ↦ absurd (ground (arith, e, p, q))
      | inr (ys, q) ↦
          let a = (validate_entries_iff (validate_ip env) bad_ip l.ips xs).0 p in
          let b = (validate_entries_iff (validate_domain env) bad_domain l.domains ys).0 q in
          let i : xs ≡ r.0 = ground (arith, e, p, q) in
          let d : ys ≡ r.1 = ground (arith, e, p, q) in
          (
            subst (All _) (sym a.1 ∙ i) (kept-IsEntry _ l.ips a.0),
            subst (All _) (sym b.1 ∙ d) (kept-IsEntry _ l.domains b.0),
          )
    ]
  ]

  action_of : (raw a : Bytes) → validate_default_action raw ≡ ok a → IsAction a
  unfolding validate_default_action
  action_of raw a e = checked-IsAction (to_lower (trim_space raw)) a e

  read_config-IsChecked :
      (cfg : Config) (pol : Policy) → read_config env cfg ≡ ok pol → IsChecked pol
  unfolding read_config
  read_config-IsChecked cfg pol e =
      elim (Result-cases (validate_default_action cfg.default_action)) [
        | inl (x, p) ↦ absurd (ground (arith, e, p))
        | inr (a, p) ↦ elim (Result-cases (validate_lists env cfg.allow_list)) [
          | inl (x, q) ↦ absurd (ground (arith, e, p, q))
          | inr (xs, q) ↦ elim (Result-cases (validate_lists env cfg.deny_list)) [
            | inl (x, r) ↦ absurd (ground (arith, e, p, q, r))
            | inr (ys, r) ↦
                let i : record {
                  default_action = a;
                  allow_ips = xs.0;
                  allow_domains = xs.1;
                  deny_ips = ys.0;
                  deny_domains = ys.1;
                }
                    ≡ pol =
                  ok_inj (rw (p, q, r) at e) in
                subst IsChecked i (record {
                  action = action_of cfg.default_action a p;
                  allow_lists = validate_lists-AreEntries cfg.allow_list q;
                  deny_lists = validate_lists-AreEntries cfg.deny_list r;
                })
          ]
        ]
      ]

  load_from_env-IsChecked :
      (vars : Environment) (pol : Policy) → load_from_env env vars ≡ ok pol → IsChecked pol
  unfolding load_from_env
  load_from_env-IsChecked vars pol e =
      let allow : AllowList = record {
        ips = parse_comma_separated vars.allow_ips;
        domains = parse_comma_separated vars.allow_domains;
      } in
      let deny : AllowList = record {
        ips = parse_comma_separated vars.deny_ips;
        domains = parse_comma_separated vars.deny_domains;
      } in
      elim (Result-cases (validate_lists env allow)) [
        | inl (x, q) ↦ absurd (ground (arith, e, q))
        | inr (xs, q) ↦ elim (Result-cases (validate_lists env deny)) [
          | inl (x, r) ↦ absurd (ground (arith, e, q, r))
          | inr (ys, r) ↦
              let i : record {
                default_action = [];
                allow_ips = xs.0;
                allow_domains = xs.1;
                deny_ips = ys.0;
                deny_domains = ys.1;
              }
                  ≡ pol =
                ok_inj (rw (q, r) at e) in
              subst IsChecked i (record {
                action = inl refl;
                allow_lists = validate_lists-AreEntries allow q;
                deny_lists = validate_lists-AreEntries deny r;
              })
        ]
      ]

  -- A policy that `Read` returns, from the environment or from the file, has only valid entries, none of
  -- them blank, and the default action `deny`, `allow` or none.
  pub read-IsChecked :
      (yaml : Yaml) (vars : Environment) (file : PolicyFile yaml) (pol : Policy)
      → read yaml env vars file ≡ ok pol
      → IsChecked pol
  unfolding read
  read-IsChecked yaml vars file pol e = elim (Bool-cases (is_set (trimmed vars))) [
    | inl p ↦ load_from_env-IsChecked (trimmed vars) pol (rw p at e)
    | inr p ↦ elim (Result-cases (load_config yaml file)) [
      | inl (x, q) ↦ absurd (ground (arith, e, p, q))
      | inr (cfg, q) ↦ read_config-IsChecked cfg pol (rw (p, q) at e)
    ]
  ]
