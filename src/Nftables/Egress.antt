-- ===== src/Nftables/Egress.antt =====
-- internal/nftables/nftables.go: the rulesets of `GenerateRuleset`, from the packet's point of view.
use g0efilter.Prelude.{
  ℕ, ◌≡◌, refl, ◌∙◌, inl, inr, Bool, true, false, not, ◌||◌, Option, none, some, List, [], ◌∷◌, map,
  arith, if◌then◌else◌, Bool-cases, Option-cases,
}
use g0efilter.Nftables.{Prefix, allowed, blocked, audit, redirected, dns_redirected}
use g0efilter.Nftables.Generate.{
  RulesetConfig, generate_enforcing_ruleset, generate_ruleset, audit_ruleset,
}
use g0efilter.Nftables.Kernel.{
  Sets, Packet, Fate, passed, sent_to, redirected_packet, Hook, run_hook, filter_hook, nat_hook,
  send,
}
use g0efilter.Nftables.Policy.{is_permitted, proxy_port}
use g0efilter.Nftables.Walks.{passes, sends, logs_blocked}
use g0efilter.Nftables.Enforced.{enforced}
use g0efilter.Nftables.Translated.{translated}
use g0efilter.Nftables.Audited.{
  audit_prefix, audit_fate, run_hook-audit_ruleset, generated-is_template,
}

-- The prefix of the lines on what the policy refuses.
abbrev pub logs_audit : List Prefix → Bool
logs_audit [] = false
logs_audit (audit ∷ ps) = true
logs_audit (_ ∷ ps) = logs_audit ps

audit_prefix-logs :
    (ps : List Prefix)
    → (logs_blocked (map audit_prefix ps) ≡ false)
      × (logs_audit (map audit_prefix ps) ≡ logs_blocked ps || logs_audit ps)
audit_prefix-logs [] = (refl, refl)
audit_prefix-logs (allowed ∷ ps) = audit_prefix-logs ps
audit_prefix-logs (blocked ∷ ps) = ((audit_prefix-logs ps).0, refl)
audit_prefix-logs (audit ∷ ps) = ground (arith, audit_prefix-logs ps)
audit_prefix-logs (redirected ∷ ps) = audit_prefix-logs ps
audit_prefix-logs (dns_redirected ∷ ps) = audit_prefix-logs ps

module _ (k : Sets) (cfg : RulesetConfig) (p : Packet) where
  abbrev enforcing_run : Hook → List Prefix × Fate
  enforcing_run hook = run_hook k hook (generate_enforcing_ruleset cfg) p

  abbrev audited_run : Hook → List Prefix × Fate
  audited_run hook = (map audit_prefix (enforcing_run hook).0, audit_fate (enforcing_run hook).1)

  switched :
      (hook : Hook) (audit_mode : Bool)
      → run_hook k hook
          (if audit_mode
            then audit_ruleset (generate_enforcing_ruleset cfg)
            else generate_enforcing_ruleset cfg)
          p
        ≡ (if audit_mode then audited_run hook else enforcing_run hook)
  switched hook true =
      run_hook-audit_ruleset k hook (generate_enforcing_ruleset cfg) p (generated-is_template cfg)
  switched hook false = refl

  -- The filter chain of either family, in every mode and stance, accepts exactly the packets that the
  -- policy of the configuration permits, and in audit mode every packet. Without audit mode it logs
  -- `blocked` for exactly the packets that it drops.
  pub generate_ruleset-filter :
      ((run_hook k filter_hook (generate_ruleset cfg) p).1
        ≡ passes (is_permitted k cfg p || cfg.audit))
      × (logs_blocked (run_hook k filter_hook (generate_ruleset cfg) p).0
          ≡ not (is_permitted k cfg p || cfg.audit))
  unfolding generate_ruleset
  generate_ruleset-filter =
      rw (switched filter_hook cfg.audit)
        (ground (arith, enforced k cfg p, audit_prefix-logs (enforcing_run filter_hook).0))

  -- The nat chain of either family sends a packet to the proxy's port that the policy names, and no
  -- other packet anywhere, also in audit mode.
  pub generate_ruleset-nat :
      (run_hook k nat_hook (generate_ruleset cfg) p).1 ≡ sends (proxy_port k cfg p)
  unfolding generate_ruleset
  generate_ruleset-nat = rw (switched nat_hook cfg.audit) (ground (arith, translated k cfg p))

  proxied_permitted :
      (port : ℕ)
      → proxy_port k cfg p ≡ some port
      → is_permitted k cfg (redirected_packet p port) ≡ true
  unfolding is_permitted proxy_port
  proxied_permitted port e = ground (arith, e)

-- Where the policy sends a packet: to the port of a proxy, or on, or nowhere.
abbrev pub destiny : Option ℕ → Bool → Fate
destiny none permitted = passes permitted
destiny (some port) permitted = sent_to port

module _ (k : Sets) (cfg : RulesetConfig) (p : Packet) where
  -- A packet on its way through both hooks: the first packet of a connection that the policy names a
  -- proxy port for ends at that port (in the DNS modes every query without the mark that is not to the
  -- loopback address, also one to an allowlisted address); any other leaves when the policy permits it
  -- or in audit mode, and is dropped otherwise.
  pub send-generate_ruleset :
      send k (generate_ruleset cfg) p
      ≡ destiny
          (if p.established then none else proxy_port k cfg p)
          (is_permitted k cfg p || cfg.audit)
  unfolding send
  send-generate_ruleset =
      rw (generate_ruleset-nat k cfg p, send)
        (elim (Bool-cases p.established) [
          | inl e ↦ ground (arith, e, (generate_ruleset-filter k cfg p).0)
          | inr e ↦ elim (Option-cases (proxy_port k cfg p)) [
            | inl o ↦ ground (arith, e, o, (generate_ruleset-filter k cfg p).0)
            | inr (port, o) ↦ ground (
              arith,
              e,
              o,
              proxied_permitted k cfg p port o,
              (generate_ruleset-filter k cfg (redirected_packet p port)).0,
            )
          ]
        ])

  -- What the proxies send carries the mark: it leaves as it is, in every mode and stance, and is never
  -- sent back to a proxy.
  pub send-marked : p.has_mark ≡ true → send k (generate_ruleset cfg) p ≡ passed
  unfolding is_permitted proxy_port
  send-marked e = send-generate_ruleset ∙ ground (arith, e)
