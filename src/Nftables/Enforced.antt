-- ===== src/Nftables/Enforced.antt =====
-- internal/nftables/nftables.go: the rulesets of every mode decide as the policy of the configuration.
use g0efilter.Prelude.{
  ◌≡◌, inl, inr, Bool, true, false, not, ◌&&◌, ◌||◌, List, [], ◌∷◌, arith, Bool-cases,
}
use g0efilter.Nftables.{
  Family, v4, v6, tcp, udp, allow_daddr, deny_daddr, resolved_allow, interval, timeout, Table,
}
use g0efilter.Text.{Bytes, codes, equal}
use g0efilter.Nftables.Filter.{
  generate_https_filter_rules_allow, generate_dns_filter_rules_allow,
  generate_dns_strict_filter_rules, generate_dns_filter_rules, generate_https_filter_rules,
  generate_https_filter_rules_allow_v6, generate_dns_filter_rules_allow_v6,
  generate_dns_strict_filter_rules_v6, generate_dns_filter_rules_v6, generate_https_filter_rules_v6,
}
use g0efilter.Nftables.Nat.{
  generate_https_nat_rules_allow, generate_dns_nat_rules, generate_https_nat_rules,
  generate_https_nat_rules_allow_v6, generate_dns_nat_rules_v6, generate_https_nat_rules_v6,
}
use g0efilter.Nftables.Generate.{
  RulesetConfig, or_placeholder, join_entries, generate_enforcing_ruleset,
}
use g0efilter.Nftables.Kernel.{
  Sets, Packet, holds, loopback, is_segment, is_neighbour, run_table, run_hook, filter_hook,
}
use g0efilter.Nftables.Policy.{
  is_dns, is_strict, is_allowed, is_denied, is_exempt, is_to_proxy, is_listed, is_permitted,
  is_ipv6,
}
use g0efilter.Nftables.Walks.{
  IsExact, https_allow_walk, https_allow_v6_walk, dns_allow_walk, dns_allow_v6_walk, strict_walk,
  strict_v6_walk, dns_walk, dns_v6_walk, https_walk, https_v6_walk,
}

-- A family at a time.
by_family : (P : Family → Type 0) → P v4 → P v6 → (f : Family) → P f
by_family P a b v4 = a
by_family P a b v6 = b

pub at_family :
    (P : Packet → Type 0)
    → ((p : Packet) → P (record p { family = v4 }))
    → ((p : Packet) → P (record p { family = v6 }))
    → (p : Packet) → P p
at_family P a b p = by_family (λ f. P (record p { family = f })) (a p) (b p) p.family

module _ (k : Sets) (cfg : RulesetConfig) where
  abbrev pub allow_v4_text : Bytes
  allow_v4_text = or_placeholder (codes "127.0.0.1") cfg.allow_v4

  abbrev pub allow_v6_text : Bytes
  allow_v6_text = or_placeholder (codes "::1") cfg.allow_v6

  abbrev pub deny_v4_text : Bytes
  deny_v4_text = join_entries cfg.deny_v4

  abbrev pub deny_v6_text : Bytes
  deny_v6_text = join_entries cfg.deny_v6

  -- The chains of a ruleset decide as the policy.
  abbrev pub IsEnforced : Packet → Type 0
  IsEnforced p =
      IsExact (is_permitted k cfg p) (run_hook k filter_hook (generate_enforcing_ruleset cfg) p)

  abbrev pub https_allow_tables : List Table
  https_allow_tables =
      generate_https_filter_rules_allow allow_v4_text deny_v4_text cfg.http_port cfg.https_port
      ∷ generate_https_nat_rules_allow allow_v4_text deny_v4_text cfg.http_port cfg.https_port
      ∷ generate_https_filter_rules_allow_v6 allow_v6_text deny_v6_text cfg.http_port cfg.https_port
      ∷ generate_https_nat_rules_allow_v6 allow_v6_text deny_v6_text cfg.http_port cfg.https_port
      ∷ []

  pub https_allow_generated :
      cfg.default_allow ≡ true
      → (is_dns cfg || is_strict cfg) ≡ false
      → generate_enforcing_ruleset cfg ≡ https_allow_tables
  unfolding generate_enforcing_ruleset
  https_allow_generated d m = ground (arith, d, m)

  abbrev pub dns_allow_tables : List Table
  dns_allow_tables =
      generate_dns_filter_rules_allow allow_v4_text deny_v4_text cfg.dns_port
      ∷ generate_dns_nat_rules cfg.dns_port
      ∷ generate_dns_filter_rules_allow_v6 allow_v6_text deny_v6_text cfg.dns_port
      ∷ generate_dns_nat_rules_v6 cfg.dns_port
      ∷ []

  pub dns_allow_generated :
      cfg.default_allow ≡ true
      → (is_dns cfg || is_strict cfg) ≡ true
      → generate_enforcing_ruleset cfg ≡ dns_allow_tables
  unfolding generate_enforcing_ruleset
  dns_allow_generated d m = ground (arith, d, m)

  abbrev pub strict_tables : List Table
  strict_tables =
      generate_dns_strict_filter_rules allow_v4_text cfg.dns_port
      ∷ generate_dns_nat_rules cfg.dns_port
      ∷ generate_dns_strict_filter_rules_v6 allow_v6_text cfg.dns_port
      ∷ generate_dns_nat_rules_v6 cfg.dns_port
      ∷ []

  pub strict_generated :
      cfg.default_allow ≡ false
      → is_strict cfg ≡ true
      → generate_enforcing_ruleset cfg ≡ strict_tables
  unfolding generate_enforcing_ruleset
  strict_generated d m = ground (arith, d, m)

  abbrev pub dns_tables : List Table
  dns_tables =
      generate_dns_filter_rules allow_v4_text cfg.dns_port
      ∷ generate_dns_nat_rules cfg.dns_port
      ∷ generate_dns_filter_rules_v6 allow_v6_text cfg.dns_port
      ∷ generate_dns_nat_rules_v6 cfg.dns_port
      ∷ []

  pub dns_generated :
      cfg.default_allow ≡ false
      → is_dns cfg ≡ true
      → is_strict cfg ≡ false
      → generate_enforcing_ruleset cfg ≡ dns_tables
  unfolding generate_enforcing_ruleset
  dns_generated d m s = ground (arith, d, m, s)

  abbrev pub https_tables : List Table
  https_tables =
      generate_https_filter_rules allow_v4_text cfg.http_port cfg.https_port
      ∷ generate_https_nat_rules allow_v4_text cfg.http_port cfg.https_port
      ∷ generate_https_filter_rules_v6 allow_v6_text cfg.http_port cfg.https_port
      ∷ generate_https_nat_rules_v6 allow_v6_text cfg.http_port cfg.https_port
      ∷ []

  pub https_generated :
      cfg.default_allow ≡ false
      → is_dns cfg ≡ false
      → is_strict cfg ≡ false
      → generate_enforcing_ruleset cfg ≡ https_tables
  unfolding generate_enforcing_ruleset
  https_generated d m s = ground (arith, d, m, s)

  https_allow_spec : Packet → Bool
  https_allow_spec p =
      is_exempt k cfg p
      || (equal p.daddr (loopback p.family)
          && (is_segment tcp cfg.http_port p.payload || is_segment tcp cfg.https_port p.payload))
      || (is_allowed k cfg p || not (is_denied k cfg p))

  https_allow_permitted :
      cfg.default_allow ≡ true
      → (is_dns cfg || is_strict cfg) ≡ false
      → (p : Packet) → is_permitted k cfg p ≡ https_allow_spec p
  unfolding is_permitted is_to_proxy is_listed https_allow_spec
  https_allow_permitted d m p = ground (arith, d, m)

  https_allow_lem :
      cfg.default_allow ≡ true → (is_dns cfg || is_strict cfg) ≡ false → (p : Packet) → IsEnforced p
  unfolding https_allow_spec run_hook run_table is_exempt is_allowed is_denied
      generate_https_filter_rules_allow generate_https_filter_rules_allow_v6
      generate_https_nat_rules_allow generate_https_nat_rules_allow_v6
  https_allow_lem d m p =
      rw (https_allow_generated d m, https_allow_permitted d m p)
        (at_family (λ p. IsExact (https_allow_spec p) (run_hook k filter_hook https_allow_tables p))
          (λ p.
            https_allow_walk
              (holds k (interval allow_daddr allow_v4_text ∷ interval deny_daddr deny_v4_text ∷ [])
                (record p { family = v4 }))
              allow_v4_text deny_v4_text cfg.http_port cfg.https_port)
          (λ p.
            https_allow_v6_walk
              (holds k (interval allow_daddr allow_v6_text ∷ interval deny_daddr deny_v6_text ∷ [])
                (record p { family = v6 }))
              allow_v6_text deny_v6_text cfg.http_port cfg.https_port)
          p)

  dns_allow_spec : Packet → Bool
  dns_allow_spec p =
      is_exempt k cfg p
      || (equal p.daddr (loopback p.family)
          && (is_segment udp cfg.dns_port p.payload || is_segment tcp cfg.dns_port p.payload))
      || (is_allowed k cfg p || not (is_denied k cfg p))

  dns_allow_permitted :
      cfg.default_allow ≡ true
      → (is_dns cfg || is_strict cfg) ≡ true
      → (p : Packet) → is_permitted k cfg p ≡ dns_allow_spec p
  unfolding is_permitted is_to_proxy is_listed dns_allow_spec
  dns_allow_permitted d m p = ground (arith, d, m)

  dns_allow_lem :
      cfg.default_allow ≡ true → (is_dns cfg || is_strict cfg) ≡ true → (p : Packet) → IsEnforced p
  unfolding dns_allow_spec run_hook run_table is_exempt is_allowed is_denied
      generate_dns_filter_rules_allow generate_dns_filter_rules_allow_v6 generate_dns_nat_rules
      generate_dns_nat_rules_v6
  dns_allow_lem d m p =
      rw (dns_allow_generated d m, dns_allow_permitted d m p)
        (at_family (λ p. IsExact (dns_allow_spec p) (run_hook k filter_hook dns_allow_tables p))
          (λ p.
            dns_allow_walk
              (holds k (interval allow_daddr allow_v4_text ∷ interval deny_daddr deny_v4_text ∷ [])
                (record p { family = v4 }))
              allow_v4_text deny_v4_text cfg.dns_port)
          (λ p.
            dns_allow_v6_walk
              (holds k (interval allow_daddr allow_v6_text ∷ interval deny_daddr deny_v6_text ∷ [])
                (record p { family = v6 }))
              allow_v6_text deny_v6_text cfg.dns_port)
          p)

  strict_spec : Packet → Bool
  strict_spec p =
      is_exempt k cfg p
      || (equal p.daddr (loopback p.family)
          && (is_segment udp cfg.dns_port p.payload || is_segment tcp cfg.dns_port p.payload))
      || (is_allowed k cfg p
          || k.in_resolved p.family p.daddr
          || (is_ipv6 p.family && is_neighbour p.payload))

  strict_permitted :
      cfg.default_allow ≡ false
      → is_strict cfg ≡ true
      → (p : Packet) → is_permitted k cfg p ≡ strict_spec p
  unfolding is_permitted is_to_proxy is_listed strict_spec
  strict_permitted d m p = ground (arith, d, m)

  strict_lem : cfg.default_allow ≡ false → is_strict cfg ≡ true → (p : Packet) → IsEnforced p
  unfolding strict_spec run_hook run_table is_exempt is_allowed is_denied
      generate_dns_strict_filter_rules generate_dns_strict_filter_rules_v6 generate_dns_nat_rules
      generate_dns_nat_rules_v6
  strict_lem d m p =
      rw (strict_generated d m, strict_permitted d m p)
        (at_family (λ p. IsExact (strict_spec p) (run_hook k filter_hook strict_tables p))
          (λ p.
            strict_walk
              (holds k (interval allow_daddr allow_v4_text ∷ timeout resolved_allow ∷ [])
                (record p { family = v4 }))
              allow_v4_text cfg.dns_port)
          (λ p.
            strict_v6_walk
              (holds k (interval allow_daddr allow_v6_text ∷ timeout resolved_allow ∷ [])
                (record p { family = v6 }))
              allow_v6_text cfg.dns_port)
          p)

  dns_spec : Packet → Bool
  dns_spec p =
      is_exempt k cfg p
      || (equal p.daddr (loopback p.family)
          && (is_segment udp cfg.dns_port p.payload || is_segment tcp cfg.dns_port p.payload))
      || true

  dns_permitted :
      cfg.default_allow ≡ false
      → is_dns cfg ≡ true
      → is_strict cfg ≡ false
      → (p : Packet) → is_permitted k cfg p ≡ dns_spec p
  unfolding is_permitted is_to_proxy is_listed dns_spec
  dns_permitted d m s p = ground (arith, d, m, s)

  dns_lem :
      cfg.default_allow ≡ false
      → is_dns cfg ≡ true
      → is_strict cfg ≡ false
      → (p : Packet) → IsEnforced p
  unfolding dns_spec run_hook run_table is_exempt is_allowed is_denied generate_dns_filter_rules
      generate_dns_filter_rules_v6 generate_dns_nat_rules generate_dns_nat_rules_v6
  dns_lem d m s p =
      rw (dns_generated d m s, dns_permitted d m s p)
        (at_family (λ p. IsExact (dns_spec p) (run_hook k filter_hook dns_tables p))
          (λ p.
            dns_walk (holds k (interval allow_daddr allow_v4_text ∷ []) (record p { family = v4 }))
              allow_v4_text cfg.dns_port)
          (λ p.
            dns_v6_walk
              (holds k (interval allow_daddr allow_v6_text ∷ []) (record p { family = v6 }))
              allow_v6_text cfg.dns_port)
          p)

  https_spec : Packet → Bool
  https_spec p =
      is_exempt k cfg p
      || (equal p.daddr (loopback p.family)
          && (is_segment tcp cfg.http_port p.payload || is_segment tcp cfg.https_port p.payload))
      || is_allowed k cfg p

  https_permitted :
      cfg.default_allow ≡ false
      → is_dns cfg ≡ false
      → is_strict cfg ≡ false
      → (p : Packet) → is_permitted k cfg p ≡ https_spec p
  unfolding is_permitted is_to_proxy is_listed https_spec
  https_permitted d m s p = ground (arith, d, m, s)

  https_lem :
      cfg.default_allow ≡ false
      → is_dns cfg ≡ false
      → is_strict cfg ≡ false
      → (p : Packet) → IsEnforced p
  unfolding https_spec run_hook run_table is_exempt is_allowed is_denied generate_https_filter_rules
      generate_https_filter_rules_v6 generate_https_nat_rules generate_https_nat_rules_v6
  https_lem d m s p =
      rw (https_generated d m s, https_permitted d m s p)
        (at_family (λ p. IsExact (https_spec p) (run_hook k filter_hook https_tables p))
          (λ p.
            https_walk
              (holds k (interval allow_daddr allow_v4_text ∷ []) (record p { family = v4 }))
              allow_v4_text cfg.http_port cfg.https_port)
          (λ p.
            https_v6_walk
              (holds k (interval allow_daddr allow_v6_text ∷ []) (record p { family = v6 }))
              allow_v6_text cfg.http_port cfg.https_port)
          p)

  pub enforced : (p : Packet) → IsEnforced p
  enforced p = elim (Bool-cases cfg.default_allow) [
    | inl d ↦ elim (Bool-cases (is_dns cfg || is_strict cfg)) [
      | inl m ↦ dns_allow_lem d m p
      | inr m ↦ https_allow_lem d m p
    ]
    | inr d ↦ elim (Bool-cases (is_strict cfg)) [
      | inl s ↦ strict_lem d s p
      | inr s ↦ elim (Bool-cases (is_dns cfg)) [
        | inl m ↦ dns_lem d m s p
        | inr m ↦ https_lem d m s p
      ]
    ]
  ]
