-- ===== src/Nftables/Filter.antt =====
-- internal/nftables/nftables.go: the templates of the filter tables.
use g0efilter.Prelude.{ℕ, true, false, [], ◌∷◌}
use g0efilter.Text.{Bytes}
use g0efilter.Nftables.{
  v4, v6, tcp, udp, allow_daddr, deny_daddr, resolved_allow, interval, timeout, oif_lo,
  ct_established, marked, daddr_loopback, echo_request, neighbour_discovery, dport, daddr_in,
  allowed, blocked, accept, drop, log, verdict, rule, filter_output, Table,
}

-- `generateHTTPSFilterRulesAllow`
unfoldable pub generate_https_filter_rules_allow : Bytes → Bytes → ℕ → ℕ → Table
generate_https_filter_rules_allow allow_set deny_set http_port https_port = record {
  family = v4;
  sets = interval allow_daddr allow_set ∷ interval deny_daddr deny_set ∷ [];
  chain = filter_output true (
      rule (oif_lo ∷ []) (verdict accept)
      ∷ rule (ct_established ∷ []) (verdict accept)
      ∷ rule (marked ∷ []) (verdict accept)
      ∷ rule (daddr_loopback ∷ dport tcp http_port ∷ []) (verdict accept)
      ∷ rule (daddr_loopback ∷ dport tcp https_port ∷ []) (verdict accept)
      ∷ rule (daddr_in allow_daddr ∷ []) (verdict accept)
      ∷ rule (daddr_in deny_daddr ∷ []) (log blocked)
      ∷ rule (daddr_in deny_daddr ∷ []) (verdict drop)
      ∷ []);
}

-- `generateDNSFilterRulesAllow`
unfoldable pub generate_dns_filter_rules_allow : Bytes → Bytes → ℕ → Table
generate_dns_filter_rules_allow allow_set deny_set dns_port = record {
  family = v4;
  sets = interval allow_daddr allow_set ∷ interval deny_daddr deny_set ∷ [];
  chain = filter_output true (
      rule (oif_lo ∷ []) (verdict accept)
      ∷ rule (ct_established ∷ []) (verdict accept)
      ∷ rule (marked ∷ []) (verdict accept)
      ∷ rule (daddr_loopback ∷ dport udp dns_port ∷ []) (verdict accept)
      ∷ rule (daddr_loopback ∷ dport tcp dns_port ∷ []) (verdict accept)
      ∷ rule (daddr_in allow_daddr ∷ []) (verdict accept)
      ∷ rule (daddr_in deny_daddr ∷ []) (log blocked)
      ∷ rule (daddr_in deny_daddr ∷ []) (verdict drop)
      ∷ []);
}

-- `generateDNSStrictFilterRules`
unfoldable pub generate_dns_strict_filter_rules : Bytes → ℕ → Table
generate_dns_strict_filter_rules allow_set dns_port = record {
  family = v4;
  sets = interval allow_daddr allow_set ∷ timeout resolved_allow ∷ [];
  chain = filter_output false (
      rule (oif_lo ∷ []) (verdict accept)
      ∷ rule (ct_established ∷ []) (verdict accept)
      ∷ rule (marked ∷ []) (verdict accept)
      ∷ rule (daddr_loopback ∷ dport udp dns_port ∷ []) (verdict accept)
      ∷ rule (daddr_loopback ∷ dport tcp dns_port ∷ []) (verdict accept)
      ∷ rule (echo_request ∷ daddr_in allow_daddr ∷ []) (verdict accept)
      ∷ rule (daddr_in allow_daddr ∷ []) (log allowed)
      ∷ rule (daddr_in allow_daddr ∷ []) (verdict accept)
      ∷ rule (daddr_in resolved_allow ∷ []) (log allowed)
      ∷ rule (daddr_in resolved_allow ∷ []) (verdict accept)
      ∷ rule [] (log blocked)
      ∷ rule [] (verdict drop)
      ∷ []);
}

-- `generateDNSFilterRules`
unfoldable pub generate_dns_filter_rules : Bytes → ℕ → Table
generate_dns_filter_rules allow_set dns_port = record {
  family = v4;
  sets = interval allow_daddr allow_set ∷ [];
  chain = filter_output true (
      rule (oif_lo ∷ []) (verdict accept)
      ∷ rule (ct_established ∷ []) (verdict accept)
      ∷ rule (marked ∷ []) (verdict accept)
      ∷ rule (daddr_loopback ∷ dport udp dns_port ∷ []) (verdict accept)
      ∷ rule (daddr_loopback ∷ dport tcp dns_port ∷ []) (verdict accept)
      ∷ rule (echo_request ∷ daddr_in allow_daddr ∷ []) (verdict accept)
      ∷ []);
}

-- `generateHTTPSFilterRules`
unfoldable pub generate_https_filter_rules : Bytes → ℕ → ℕ → Table
generate_https_filter_rules allow_set http_port https_port = record {
  family = v4;
  sets = interval allow_daddr allow_set ∷ [];
  chain = filter_output false (
      rule (oif_lo ∷ []) (verdict accept)
      ∷ rule (ct_established ∷ []) (verdict accept)
      ∷ rule (marked ∷ []) (verdict accept)
      ∷ rule (daddr_loopback ∷ dport tcp http_port ∷ []) (verdict accept)
      ∷ rule (daddr_loopback ∷ dport tcp https_port ∷ []) (verdict accept)
      ∷ rule (echo_request ∷ daddr_in allow_daddr ∷ []) (verdict accept)
      ∷ rule (daddr_in allow_daddr ∷ []) (log allowed)
      ∷ rule (daddr_in allow_daddr ∷ []) (verdict accept)
      ∷ rule [] (log blocked)
      ∷ rule [] (verdict drop)
      ∷ []);
}

-- `generateHTTPSFilterRulesAllowV6`
unfoldable pub generate_https_filter_rules_allow_v6 : Bytes → Bytes → ℕ → ℕ → Table
generate_https_filter_rules_allow_v6 allow_set deny_set http_port https_port = record {
  family = v6;
  sets = interval allow_daddr allow_set ∷ interval deny_daddr deny_set ∷ [];
  chain = filter_output true (
      rule (oif_lo ∷ []) (verdict accept)
      ∷ rule (ct_established ∷ []) (verdict accept)
      ∷ rule (marked ∷ []) (verdict accept)
      ∷ rule (daddr_loopback ∷ dport tcp http_port ∷ []) (verdict accept)
      ∷ rule (daddr_loopback ∷ dport tcp https_port ∷ []) (verdict accept)
      ∷ rule (daddr_in allow_daddr ∷ []) (verdict accept)
      ∷ rule (daddr_in deny_daddr ∷ []) (log blocked)
      ∷ rule (daddr_in deny_daddr ∷ []) (verdict drop)
      ∷ []);
}

-- `generateDNSFilterRulesAllowV6`
unfoldable pub generate_dns_filter_rules_allow_v6 : Bytes → Bytes → ℕ → Table
generate_dns_filter_rules_allow_v6 allow_set deny_set dns_port = record {
  family = v6;
  sets = interval allow_daddr allow_set ∷ interval deny_daddr deny_set ∷ [];
  chain = filter_output true (
      rule (oif_lo ∷ []) (verdict accept)
      ∷ rule (ct_established ∷ []) (verdict accept)
      ∷ rule (marked ∷ []) (verdict accept)
      ∷ rule (daddr_loopback ∷ dport udp dns_port ∷ []) (verdict accept)
      ∷ rule (daddr_loopback ∷ dport tcp dns_port ∷ []) (verdict accept)
      ∷ rule (daddr_in allow_daddr ∷ []) (verdict accept)
      ∷ rule (daddr_in deny_daddr ∷ []) (log blocked)
      ∷ rule (daddr_in deny_daddr ∷ []) (verdict drop)
      ∷ []);
}

-- `generateDNSStrictFilterRulesV6`
unfoldable pub generate_dns_strict_filter_rules_v6 : Bytes → ℕ → Table
generate_dns_strict_filter_rules_v6 allow_set dns_port = record {
  family = v6;
  sets = interval allow_daddr allow_set ∷ timeout resolved_allow ∷ [];
  chain = filter_output false (
      rule (oif_lo ∷ []) (verdict accept)
      ∷ rule (ct_established ∷ []) (verdict accept)
      ∷ rule (marked ∷ []) (verdict accept)
      ∷ rule (daddr_loopback ∷ dport udp dns_port ∷ []) (verdict accept)
      ∷ rule (daddr_loopback ∷ dport tcp dns_port ∷ []) (verdict accept)
      ∷ rule (echo_request ∷ daddr_in allow_daddr ∷ []) (verdict accept)
      ∷ rule (neighbour_discovery ∷ []) (verdict accept)
      ∷ rule (daddr_in allow_daddr ∷ []) (log allowed)
      ∷ rule (daddr_in allow_daddr ∷ []) (verdict accept)
      ∷ rule (daddr_in resolved_allow ∷ []) (log allowed)
      ∷ rule (daddr_in resolved_allow ∷ []) (verdict accept)
      ∷ rule [] (log blocked)
      ∷ rule [] (verdict drop)
      ∷ []);
}

-- `generateDNSFilterRulesV6`
unfoldable pub generate_dns_filter_rules_v6 : Bytes → ℕ → Table
generate_dns_filter_rules_v6 allow_set dns_port = record {
  family = v6;
  sets = interval allow_daddr allow_set ∷ [];
  chain = filter_output true (
      rule (oif_lo ∷ []) (verdict accept)
      ∷ rule (ct_established ∷ []) (verdict accept)
      ∷ rule (marked ∷ []) (verdict accept)
      ∷ rule (daddr_loopback ∷ dport udp dns_port ∷ []) (verdict accept)
      ∷ rule (daddr_loopback ∷ dport tcp dns_port ∷ []) (verdict accept)
      ∷ rule (echo_request ∷ daddr_in allow_daddr ∷ []) (verdict accept)
      ∷ []);
}

-- `generateHTTPSFilterRulesV6`
unfoldable pub generate_https_filter_rules_v6 : Bytes → ℕ → ℕ → Table
generate_https_filter_rules_v6 allow_set http_port https_port = record {
  family = v6;
  sets = interval allow_daddr allow_set ∷ [];
  chain = filter_output false (
      rule (oif_lo ∷ []) (verdict accept)
      ∷ rule (ct_established ∷ []) (verdict accept)
      ∷ rule (marked ∷ []) (verdict accept)
      ∷ rule (daddr_loopback ∷ dport tcp http_port ∷ []) (verdict accept)
      ∷ rule (daddr_loopback ∷ dport tcp https_port ∷ []) (verdict accept)
      ∷ rule (echo_request ∷ daddr_in allow_daddr ∷ []) (verdict accept)
      ∷ rule (daddr_in allow_daddr ∷ []) (log allowed)
      ∷ rule (daddr_in allow_daddr ∷ []) (verdict accept)
      ∷ rule [] (log blocked)
      ∷ rule [] (verdict drop)
      ∷ []);
}
