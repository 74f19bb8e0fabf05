-- ===== src/Nftables/Translated.antt =====
-- internal/nftables/nftables.go: the rulesets of every mode redirect as the policy of the configuration.
use g0efilter.Prelude.{
  ℕ, ◌≡◌, inl, inr, true, false, not, ◌&&◌, ◌||◌, Option, none, some, [], ◌∷◌, arith, if◌then◌else◌,
  Bool-cases,
}
use g0efilter.Nftables.{v4, v6, tcp, udp, allow_daddr, deny_daddr, interval}
use g0efilter.Text.{equal}
use g0efilter.Nftables.Filter.{
  generate_https_filter_rules_allow, generate_dns_filter_rules_allow,
  generate_dns_strict_filter_rules, generate_dns_filter_rules, generate_https_filter_rules,
  generate_https_filter_rules_allow_v6, generate_dns_filter_rules_allow_v6,
  generate_dns_strict_filter_rules_v6, generate_dns_filter_rules_v6, generate_https_filter_rules_v6,
}
use g0efilter.Nftables.Nat.{
  generate_https_nat_rules_allow, generate_dns_nat_rules, generate_https_nat_rules,
  generate_https_nat_rules_allow_v6, generate_dns_nat_rules_v6, generate_https_nat_rules_v6,
}
use g0efilter.Nftables.Generate.{RulesetConfig, generate_enforcing_ruleset}
use g0efilter.Nftables.Kernel.{
  Sets, Packet, holds, loopback, is_segment, run_table, run_hook, nat_hook,
}
use g0efilter.Nftables.Policy.{is_dns, is_strict, is_allowed, is_denied, proxy_port}
use g0efilter.Nftables.Walks.{
  sends, https_allow_nat, https_allow_v6_nat, dns_nat, dns_v6_nat, https_nat, https_v6_nat,
}
use g0efilter.Nftables.Enforced.{
  at_family, allow_v4_text, allow_v6_text, deny_v4_text, deny_v6_text, https_allow_tables,
  dns_allow_tables, strict_tables, dns_tables, https_tables, https_allow_generated,
  dns_allow_generated, strict_generated, dns_generated, https_generated,
}

module _ (k : Sets) (cfg : RulesetConfig) where
  -- The nat chains redirect as the policy says.
  abbrev pub IsTranslated : Packet → Type 0
  IsTranslated p =
      (run_hook k nat_hook (generate_enforcing_ruleset cfg) p).1 ≡ sends (proxy_port k cfg p)

  https_allow_port : Packet → Option ℕ
  https_allow_port p =
      if p.has_mark || is_allowed k cfg p || is_denied k cfg p
      then none
      else if is_segment tcp 80 p.payload
      then some cfg.http_port
      else if is_segment tcp 443 p.payload
      then some cfg.https_port
      else none

  https_allow_proxied :
      cfg.default_allow ≡ true
      → (is_dns cfg || is_strict cfg) ≡ false
      → (p : Packet) → proxy_port k cfg p ≡ https_allow_port p
  unfolding proxy_port is_allowed is_denied https_allow_port
  https_allow_proxied d m p = ground (arith, d, m)

  https_allow_nat_lem :
      cfg.default_allow ≡ true
      → (is_dns cfg || is_strict cfg) ≡ false
      → (p : Packet) → IsTranslated p
  unfolding https_allow_port run_hook run_table is_allowed is_denied
      generate_https_filter_rules_allow generate_https_filter_rules_allow_v6
      generate_https_nat_rules_allow generate_https_nat_rules_allow_v6
  https_allow_nat_lem d m p =
      rw (https_allow_generated k cfg d m, https_allow_proxied d m p)
        (at_family
          (λ p. (run_hook k nat_hook (https_allow_tables k cfg) p).1 ≡ sends (https_allow_port p))
          (λ p.
            https_allow_nat
              (holds k
                (interval allow_daddr (allow_v4_text k cfg)
                  ∷ interval deny_daddr (deny_v4_text k cfg)
                  ∷ [])
                (record p { family = v4 }))
              (allow_v4_text k cfg) (deny_v4_text k cfg) cfg.http_port cfg.https_port)
          (λ p.
            https_allow_v6_nat
              (holds k
                (interval allow_daddr (allow_v6_text k cfg)
                  ∷ interval deny_daddr (deny_v6_text k cfg)
                  ∷ [])
                (record p { family = v6 }))
              (allow_v6_text k cfg) (deny_v6_text k cfg) cfg.http_port cfg.https_port)
          p)

  dns_allow_port : Packet → Option ℕ
  dns_allow_port p =
      if p.has_mark
        || (equal p.daddr (loopback p.family)
            && (is_segment udp 53 p.payload || is_segment tcp 53 p.payload))
        || (equal p.daddr (loopback p.family)
            && (is_segment udp cfg.dns_port p.payload || is_segment tcp cfg.dns_port p.payload))
        || not (is_segment udp 53 p.payload || is_segment tcp 53 p.payload)
      then none
      else some cfg.dns_port

  dns_allow_proxied :
      cfg.default_allow ≡ true
      → (is_dns cfg || is_strict cfg) ≡ true
      → (p : Packet) → proxy_port k cfg p ≡ dns_allow_port p
  unfolding proxy_port is_allowed is_denied dns_allow_port
  dns_allow_proxied d m p = ground (arith, d, m)

  dns_allow_nat_lem :
      cfg.default_allow ≡ true
      → (is_dns cfg || is_strict cfg) ≡ true
      → (p : Packet) → IsTranslated p
  unfolding dns_allow_port run_hook run_table is_allowed is_denied generate_dns_filter_rules_allow
      generate_dns_filter_rules_allow_v6 generate_dns_nat_rules generate_dns_nat_rules_v6
  dns_allow_nat_lem d m p =
      rw (dns_allow_generated k cfg d m, dns_allow_proxied d m p)
        (at_family
          (λ p. (run_hook k nat_hook (dns_allow_tables k cfg) p).1 ≡ sends (dns_allow_port p))
          (λ p. dns_nat (holds k ([]) (record p { family = v4 })) cfg.dns_port)
          (λ p. dns_v6_nat (holds k ([]) (record p { family = v6 })) cfg.dns_port) p)

  strict_port : Packet → Option ℕ
  strict_port p =
      if p.has_mark
        || (equal p.daddr (loopback p.family)
            && (is_segment udp 53 p.payload || is_segment tcp 53 p.payload))
        || (equal p.daddr (loopback p.family)
            && (is_segment udp cfg.dns_port p.payload || is_segment tcp cfg.dns_port p.payload))
        || not (is_segment udp 53 p.payload || is_segment tcp 53 p.payload)
      then none
      else some cfg.dns_port

  strict_proxied :
      cfg.default_allow ≡ false
      → is_strict cfg ≡ true
      → (p : Packet) → proxy_port k cfg p ≡ strict_port p
  unfolding proxy_port is_allowed is_denied strict_port
  strict_proxied d m p = ground (arith, d, m)

  strict_nat_lem : cfg.default_allow ≡ false → is_strict cfg ≡ true → (p : Packet) → IsTranslated p
  unfolding strict_port run_hook run_table is_allowed is_denied generate_dns_strict_filter_rules
      generate_dns_strict_filter_rules_v6 generate_dns_nat_rules generate_dns_nat_rules_v6
  strict_nat_lem d m p =
      rw (strict_generated k cfg d m, strict_proxied d m p)
        (at_family (λ p. (run_hook k nat_hook (strict_tables k cfg) p).1 ≡ sends (strict_port p))
          (λ p. dns_nat (holds k ([]) (record p { family = v4 })) cfg.dns_port)
          (λ p. dns_v6_nat (holds k ([]) (record p { family = v6 })) cfg.dns_port) p)

  dns_port : Packet → Option ℕ
  dns_port p =
      if p.has_mark
        || (equal p.daddr (loopback p.family)
            && (is_segment udp 53 p.payload || is_segment tcp 53 p.payload))
        || (equal p.daddr (loopback p.family)
            && (is_segment udp cfg.dns_port p.payload || is_segment tcp cfg.dns_port p.payload))
        || not (is_segment udp 53 p.payload || is_segment tcp 53 p.payload)
      then none
      else some cfg.dns_port

  dns_proxied :
      cfg.default_allow ≡ false
      → is_dns cfg ≡ true
      → is_strict cfg ≡ false
      → (p : Packet) → proxy_port k cfg p ≡ dns_port p
  unfolding proxy_port is_allowed is_denied dns_port
  dns_proxied d m s p = ground (arith, d, m, s)

  dns_nat_lem :
      cfg.default_allow ≡ false
      → is_dns cfg ≡ true
      → is_strict cfg ≡ false
      → (p : Packet) → IsTranslated p
  unfolding dns_port run_hook run_table is_allowed is_denied generate_dns_filter_rules
      generate_dns_filter_rules_v6 generate_dns_nat_rules generate_dns_nat_rules_v6
  dns_nat_lem d m s p =
      rw (dns_generated k cfg d m s, dns_proxied d m s p)
        (at_family (λ p. (run_hook k nat_hook (dns_tables k cfg) p).1 ≡ sends (dns_port p))
          (λ p. dns_nat (holds k ([]) (record p { family = v4 })) cfg.dns_port)
          (λ p. dns_v6_nat (holds k ([]) (record p { family = v6 })) cfg.dns_port) p)

  https_port : Packet → Option ℕ
  https_port p =
      if p.has_mark || is_allowed k cfg p
      then none
      else if is_segment tcp 80 p.payload
      then some cfg.http_port
      else if is_segment tcp 443 p.payload
      then some cfg.https_port
      else none

  https_proxied :
      cfg.default_allow ≡ false
      → is_dns cfg ≡ false
      → is_strict cfg ≡ false
      → (p : Packet) → proxy_port k cfg p ≡ https_port p
  unfolding proxy_port is_allowed is_denied https_port
  https_proxied d m s p = ground (arith, d, m, s)

  https_nat_lem :
      cfg.default_allow ≡ false
      → is_dns cfg ≡ false
      → is_strict cfg ≡ false
      → (p : Packet) → IsTranslated p
  unfolding https_port run_hook run_table is_allowed is_denied generate_https_filter_rules
      generate_https_filter_rules_v6 generate_https_nat_rules generate_https_nat_rules_v6
  https_nat_lem d m s p =
      rw (https_generated k cfg d m s, https_proxied d m s p)
        (at_family (λ p. (run_hook k nat_hook (https_tables k cfg) p).1 ≡ sends (https_port p))
          (λ p.
            https_nat
              (holds k (interval allow_daddr (allow_v4_text k cfg) ∷ []) (record p { family = v4 }))
              (allow_v4_text k cfg) cfg.http_port cfg.https_port)
          (λ p.
            https_v6_nat
              (holds k (interval allow_daddr (allow_v6_text k cfg) ∷ []) (record p { family = v6 }))
              (allow_v6_text k cfg) cfg.http_port cfg.https_port)
          p)

  pub translated : (p : Packet) → IsTranslated p
  translated p = elim (Bool-cases cfg.default_allow) [
    | inl d ↦ elim (Bool-cases (is_dns cfg || is_strict cfg)) [
      | inl m ↦ dns_allow_nat_lem d m p
      | inr m ↦ https_allow_nat_lem d m p
    ]
    | inr d ↦ elim (Bool-cases (is_strict cfg)) [
      | inl s ↦ strict_nat_lem d s p
      | inr s ↦ elim (Bool-cases (is_dns cfg)) [
        | inl m ↦ dns_nat_lem d m s p
        | inr m ↦ https_nat_lem d m s p
      ]
    ]
  ]
