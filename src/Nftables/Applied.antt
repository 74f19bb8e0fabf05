-- ===== src/Nftables/Applied.antt =====
-- internal/nftables/nftables.go: what `ApplyPolicyRulesWithContext` runs, and what it leaves in force.
use g0efilter.Prelude.{
  ℕ, ◌≡◌, refl, ap, ◌⊎◌, inl, inr, true, false, ◌||◌, none, some, List, [], ◌∷◌, arith,
  if◌then◌else◌, Bool-cases,
}
use g0efilter.Nftables.Kernel.{Sets, Packet, send}
use g0efilter.Nftables.Policy.{is_permitted, proxy_port}
use g0efilter.Text.{Bytes}
use g0efilter.Nftables.Script.{Command, Loaded, run_script}
use g0efilter.Nftables.Apply.{
  https, http, dns, ApplyError, dry_run_failed, apply_failed, Result, ok, error, parse_port,
  Addresses, PolicyRules, Nft, Run, dry_run, commit, config_of, script_of,
  apply_policy_rules_with_context, validate_and_parse_ruleset, apply_ruleset,
}
use g0efilter.Nftables.Egress.{destiny, send-generate_ruleset}
use g0efilter.Nftables.Reload.{loaded_tables, script_of-loads}

Result-cases :
    {A : Type 0} (r : Result A) → ((e : ApplyError) × (r ≡ error e)) ⊎ ((a : A) × (r ≡ ok a))
Result-cases (error e) = inl (e, refl)
Result-cases (ok a) = inr (a, refl)

module _ (nft : Nft) (net : Addresses) (filter_mode : Bytes) (rules : PolicyRules)
    (https_str http_str dns_str : Bytes) where
  abbrev pub outcome : List Run × Result Unit
  outcome = apply_policy_rules_with_context nft net filter_mode rules https_str http_str dns_str

  -- The three ports, and the script of the configuration with them.
  abbrev pub AreParsed : ℕ → ℕ → ℕ → Type 0
  AreParsed p q r =
      (parse_port https_str https ≡ ok p)
      × (parse_port http_str http ≡ ok q)
      × (parse_port dns_str dns ≡ ok r)

  abbrev pub script_for : ℕ → ℕ → ℕ → List Command
  script_for p q r = script_of (config_of net filter_mode rules p q r)

  -- A port text is refused, with the error of the first one that is.
  abbrev pub IsRefused : ApplyError → Type 0
  IsRefused e =
      (parse_port https_str https ≡ error e)
      ⊎ ((p : ℕ) × (parse_port https_str https ≡ ok p) × (parse_port http_str http ≡ error e))
      ⊎ ((p : ℕ) × (q : ℕ) × (parse_port https_str https ≡ ok p)
          × (parse_port http_str http ≡ ok q)
          × (parse_port dns_str dns ≡ error e))

  ran :
      (p q r : ℕ)
      → AreParsed p q r
      → outcome ≡ (
          if nft.checks (script_for p q r)
          then (
            dry_run (script_for p q r) ∷ commit (script_for p q r) ∷ [],
            if nft.applies (script_for p q r) then ok tt else error apply_failed,
          )
          else (dry_run (script_for p q r) ∷ [], error dry_run_failed))
  unfolding apply_policy_rules_with_context validate_and_parse_ruleset apply_ruleset
  ran p q r h = rw (h.0, h.1, h.2, apply_policy_rules_with_context) (ground arith)

  -- A call ends in one of three ways: a port text is refused and nothing is run; the dry run fails and is
  -- all that was run; or the dry run of the script succeeds, the same script is applied, and the
  -- error is that of applying it.
  pub apply-cases :
      ((e : ApplyError) × IsRefused e × (outcome ≡ ([], error e)))
      ⊎ ((p : ℕ) × (q : ℕ) × (r : ℕ) × AreParsed p q r
          × (nft.checks (script_for p q r) ≡ false)
          × (outcome ≡ (dry_run (script_for p q r) ∷ [], error dry_run_failed)))
      ⊎ ((p : ℕ) × (q : ℕ) × (r : ℕ) × AreParsed p q r
          × (nft.checks (script_for p q r) ≡ true)
          × (outcome ≡ (
            dry_run (script_for p q r) ∷ commit (script_for p q r) ∷ [],
            if nft.applies (script_for p q r) then ok tt else error apply_failed,
          )))
  unfolding apply_policy_rules_with_context
  apply-cases = elim (Result-cases (parse_port https_str https)) [
    | inl (e, i) ↦ inl (e, inl i, rw (i, apply_policy_rules_with_context) refl)
    | inr (p, i) ↦ elim (Result-cases (parse_port http_str http)) [
      | inl (e, j) ↦ inl (e, inr (inl (p, i, j)), rw (i, j, apply_policy_rules_with_context) refl)
      | inr (q, j) ↦ elim (Result-cases (parse_port dns_str dns)) [
        | inl (e, h) ↦
            inl (e, inr (inr (p, q, i, j, h)), rw (i, j, h, apply_policy_rules_with_context) refl)
        | inr (r, h) ↦ elim (Bool-cases (nft.checks (script_for p q r))) [
          | inl c ↦ inr (inr (p, q, r, (i, j, h), c, ground (arith, c, ran p q r (i, j, h))))
          | inr c ↦ inr (inl (p, q, r, (i, j, h), c, ground (arith, c, ran p q r (i, j, h))))
        ]
      ]
    ]
  ]

  -- When a call returns no error, the three texts are ports, the script of the configuration was tried and
  -- then applied, and nothing else was run; and whatever the managed tables held before, that script
  -- leaves them so that every packet goes where the policy of the configuration sends it.
  pub apply-enforces :
      outcome.1 ≡ ok tt
      → (p : ℕ) × (q : ℕ) × (r : ℕ) × AreParsed p q r
        × (outcome.0 ≡ dry_run (script_for p q r) ∷ commit (script_for p q r) ∷ [])
        × ((before : Loaded)
            → (l : Loaded) × (run_script (script_for p q r) before ≡ some l)
              × ((k : Sets) (packet : Packet)
                  → let cfg = config_of net filter_mode rules p q r in
                    send k (loaded_tables l) packet
                    ≡ destiny
                        (if packet.established then none else proxy_port k cfg packet)
                        (is_permitted k cfg packet || cfg.audit)))
  apply-enforces e = elim apply-cases [
    | inl (x, h, o) ↦ absurd (ground (arith, e, o))
    | inr (inl (p, q, r, h, c, o)) ↦ absurd (ground (arith, e, o))
    | inr (inr (p, q, r, h, c, o)) ↦ (
      p,
      q,
      r,
      h,
      ap (λ x. x.0) o,
      λ before.
          let (l, run, same) = script_of-loads (config_of net filter_mode rules p q r) before in
          (
            l,
            run,
            λ k packet.
                rw same (send-generate_ruleset k (config_of net filter_mode rules p q r) packet),
          ),
    )
  ]
