-- ===== src/Nftables/Nat.antt =====
-- internal/nftables/nftables.go: the templates of the nat tables.
use g0efilter.Prelude.{ℕ, [], ◌∷◌}
use g0efilter.Text.{Bytes}
use g0efilter.Nftables.{
  v4, v6, tcp, udp, allow_daddr, deny_daddr, interval, marked, daddr_loopback, dport, daddr_in,
  redirected, dns_redirected, return, redirect, log, verdict, rule, nat_output, Table,
}

-- `generateHTTPSNATRulesAllow`
unfoldable pub generate_https_nat_rules_allow : Bytes → Bytes → ℕ → ℕ → Table
generate_https_nat_rules_allow allow_set deny_set http_port https_port = record {
  family = v4;
  sets = interval allow_daddr allow_set ∷ interval deny_daddr deny_set ∷ [];
  chain = nat_output (
      rule (marked ∷ []) (verdict return)
      ∷ rule (daddr_in allow_daddr ∷ []) (verdict return)
      ∷ rule (daddr_in deny_daddr ∷ []) (verdict return)
      ∷ rule (dport tcp 80 ∷ []) (log redirected)
      ∷ rule (dport tcp 80 ∷ []) (verdict (redirect http_port))
      ∷ rule (dport tcp 443 ∷ []) (log redirected)
      ∷ rule (dport tcp 443 ∷ []) (verdict (redirect https_port))
      ∷ []);
}

-- `generateDNSNATRules`
unfoldable pub generate_dns_nat_rules : ℕ → Table
generate_dns_nat_rules dns_port = record {
  family = v4;
  sets = [];
  chain = nat_output (
      rule (marked ∷ []) (verdict return)
      ∷ rule (daddr_loopback ∷ dport udp 53 ∷ []) (verdict return)
      ∷ rule (daddr_loopback ∷ dport tcp 53 ∷ []) (verdict return)
      ∷ rule (daddr_loopback ∷ dport udp dns_port ∷ []) (verdict return)
      ∷ rule (daddr_loopback ∷ dport tcp dns_port ∷ []) (verdict return)
      ∷ rule (dport udp 53 ∷ []) (log dns_redirected)
      ∷ rule (dport udp 53 ∷ []) (verdict (redirect dns_port))
      ∷ rule (dport tcp 53 ∷ []) (log dns_redirected)
      ∷ rule (dport tcp 53 ∷ []) (verdict (redirect dns_port))
      ∷ []);
}

-- `generateHTTPSNATRules`
unfoldable pub generate_https_nat_rules : Bytes → ℕ → ℕ → Table
generate_https_nat_rules allow_set http_port https_port = record {
  family = v4;
  sets = interval allow_daddr allow_set ∷ [];
  chain = nat_output (
      rule (marked ∷ []) (verdict return)
      ∷ rule (daddr_in allow_daddr ∷ []) (verdict return)
      ∷ rule (dport tcp 80 ∷ []) (log redirected)
      ∷ rule (dport tcp 80 ∷ []) (verdict (redirect http_port))
      ∷ rule (dport tcp 443 ∷ []) (log redirected)
      ∷ rule (dport tcp 443 ∷ []) (verdict (redirect https_port))
      ∷ []);
}

-- `generateHTTPSNATRulesAllowV6`
unfoldable pub generate_https_nat_rules_allow_v6 : Bytes → Bytes → ℕ → ℕ → Table
generate_https_nat_rules_allow_v6 allow_set deny_set http_port https_port = record {
  family = v6;
  sets = interval allow_daddr allow_set ∷ interval deny_daddr deny_set ∷ [];
  chain = nat_output (
      rule (marked ∷ []) (verdict return)
      ∷ rule (daddr_in allow_daddr ∷ []) (verdict return)
      ∷ rule (daddr_in deny_daddr ∷ []) (verdict return)
      ∷ rule (dport tcp 80 ∷ []) (log redirected)
      ∷ rule (dport tcp 80 ∷ []) (verdict (redirect http_port))
      ∷ rule (dport tcp 443 ∷ []) (log redirected)
      ∷ rule (dport tcp 443 ∷ []) (verdict (redirect https_port))
      ∷ []);
}

-- `generateDNSNATRulesV6`
unfoldable pub generate_dns_nat_rules_v6 : ℕ → Table
generate_dns_nat_rules_v6 dns_port = record {
  family = v6;
  sets = [];
  chain = nat_output (
      rule (marked ∷ []) (verdict return)
      ∷ rule (daddr_loopback ∷ dport udp 53 ∷ []) (verdict return)
      ∷ rule (daddr_loopback ∷ dport tcp 53 ∷ []) (verdict return)
      ∷ rule (daddr_loopback ∷ dport udp dns_port ∷ []) (verdict return)
      ∷ rule (daddr_loopback ∷ dport tcp dns_port ∷ []) (verdict return)
      ∷ rule (dport udp 53 ∷ []) (log dns_redirected)
      ∷ rule (dport udp 53 ∷ []) (verdict (redirect dns_port))
      ∷ rule (dport tcp 53 ∷ []) (log dns_redirected)
      ∷ rule (dport tcp 53 ∷ []) (verdict (redirect dns_port))
      ∷ []);
}

-- `generateHTTPSNATRulesV6`
unfoldable pub generate_https_nat_rules_v6 : Bytes → ℕ → ℕ → Table
generate_https_nat_rules_v6 allow_set http_port https_port = record {
  family = v6;
  sets = interval allow_daddr allow_set ∷ [];
  chain = nat_output (
      rule (marked ∷ []) (verdict return)
      ∷ rule (daddr_in allow_daddr ∷ []) (verdict return)
      ∷ rule (dport tcp 80 ∷ []) (log redirected)
      ∷ rule (dport tcp 80 ∷ []) (verdict (redirect http_port))
      ∷ rule (dport tcp 443 ∷ []) (log redirected)
      ∷ rule (dport tcp 443 ∷ []) (verdict (redirect https_port))
      ∷ []);
}
