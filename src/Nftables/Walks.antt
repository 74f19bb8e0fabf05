-- ===== src/Nftables/Walks.antt =====
-- internal/nftables/nftables.go: the rules of each template, tried in their order, whatever the tests of
-- the rules find.
use g0efilter.Prelude.{
  ℕ, ◌≡◌, Bool, true, false, not, ◌&&◌, ◌||◌, Option, none, some, List, [], ◌∷◌, arith,
  if◌then◌else◌,
}
use g0efilter.Text.{Bytes}
use g0efilter.Nftables.{
  tcp, udp, allow_daddr, deny_daddr, resolved_allow, Match, oif_lo, ct_established, marked,
  daddr_loopback, neighbour_discovery, dport, daddr_in, Prefix, blocked, Verdict, Rule, Chain,
  filter_output, nat_output,
}
use g0efilter.Nftables.Filter.{
  generate_https_filter_rules_allow, generate_dns_filter_rules_allow,
  generate_dns_strict_filter_rules, generate_dns_filter_rules, generate_https_filter_rules,
  generate_https_filter_rules_allow_v6, generate_dns_filter_rules_allow_v6,
  generate_dns_strict_filter_rules_v6, generate_dns_filter_rules_v6, generate_https_filter_rules_v6,
}
use g0efilter.Nftables.Nat.{
  generate_https_nat_rules_allow, generate_dns_nat_rules, generate_https_nat_rules,
  generate_https_nat_rules_allow_v6, generate_dns_nat_rules_v6, generate_https_nat_rules_v6,
}
use g0efilter.Nftables.Kernel.{Fate, fate_of, passed, dropped, sent_to, walk}

-- A fate of the filter hook.
abbrev pub passes : Bool → Fate
passes b = if b then passed else dropped

-- A fate of the nat hook.
abbrev pub sends : Option ℕ → Fate
sends none = passed
sends (some port) = sent_to port

-- The prefix `blocked` stands among the lines.
abbrev pub logs_blocked : List Prefix → Bool
logs_blocked [] = false
logs_blocked (blocked ∷ ps) = true
logs_blocked (_ ∷ ps) = logs_blocked ps

abbrev pub rules_of : Chain → List Rule
rules_of (filter_output policy rules) = rules
rules_of (nat_output rules) = rules

-- A run of a filter chain accepts exactly what is permitted, and logs the rest.
abbrev pub IsExact : Bool → List Prefix × Fate → Type 0
IsExact permitted out = (out.1 ≡ passes permitted) × (logs_blocked out.0 ≡ not permitted)

abbrev pub judged : Bool → List Prefix × Option Verdict → List Prefix × Fate
judged policy out = (out.0, fate_of policy out.1)

module _ (test : Match → Bool) where
  abbrev pub exempt : Bool
  exempt = test oif_lo || test ct_established || test marked

  -- A port of a proxy, on the loopback address.
  abbrev pub to_ports : Match → Match → Bool
  to_ports m n = test daddr_loopback && (test m || test n)

  pub https_allow_walk :
      (allow_set : Bytes) (deny_set : Bytes) (http_port : ℕ) (https_port : ℕ)
      → IsExact
          (exempt
            || to_ports (dport tcp http_port) (dport tcp https_port)
            || (test (daddr_in allow_daddr) || not (test (daddr_in deny_daddr))))
          (judged true (
            walk test (
              rules_of
                (generate_https_filter_rules_allow allow_set deny_set http_port https_port).chain)))
  unfolding walk generate_https_filter_rules_allow
  https_allow_walk allow_set deny_set http_port https_port = (ground arith, ground arith)

  pub https_allow_v6_walk :
      (allow_set : Bytes) (deny_set : Bytes) (http_port : ℕ) (https_port : ℕ)
      → IsExact
          (exempt
            || to_ports (dport tcp http_port) (dport tcp https_port)
            || (test (daddr_in allow_daddr) || not (test (daddr_in deny_daddr))))
          (judged true (
            walk test (
              rules_of
                (generate_https_filter_rules_allow_v6 allow_set deny_set http_port
                  https_port).chain)))
  unfolding walk generate_https_filter_rules_allow_v6
  https_allow_v6_walk allow_set deny_set http_port https_port = (ground arith, ground arith)

  pub dns_allow_walk :
      (allow_set : Bytes) (deny_set : Bytes) (dns_port : ℕ)
      → IsExact
          (exempt
            || to_ports (dport udp dns_port) (dport tcp dns_port)
            || (test (daddr_in allow_daddr) || not (test (daddr_in deny_daddr))))
          (judged true (
            walk test
              (rules_of (generate_dns_filter_rules_allow allow_set deny_set dns_port).chain)))
  unfolding walk generate_dns_filter_rules_allow
  dns_allow_walk allow_set deny_set dns_port = (ground arith, ground arith)

  pub dns_allow_v6_walk :
      (allow_set : Bytes) (deny_set : Bytes) (dns_port : ℕ)
      → IsExact
          (exempt
            || to_ports (dport udp dns_port) (dport tcp dns_port)
            || (test (daddr_in allow_daddr) || not (test (daddr_in deny_daddr))))
          (judged true (
            walk test
              (rules_of (generate_dns_filter_rules_allow_v6 allow_set deny_set dns_port).chain)))
  unfolding walk generate_dns_filter_rules_allow_v6
  dns_allow_v6_walk allow_set deny_set dns_port = (ground arith, ground arith)

  pub strict_walk :
      (allow_set : Bytes) (dns_port : ℕ)
      → IsExact
          (exempt
            || to_ports (dport udp dns_port) (dport tcp dns_port)
            || (test (daddr_in allow_daddr) || test (daddr_in resolved_allow) || false))
          (judged false
            (walk test (rules_of (generate_dns_strict_filter_rules allow_set dns_port).chain)))
  unfolding walk generate_dns_strict_filter_rules
  strict_walk allow_set dns_port = (ground arith, ground arith)

  pub strict_v6_walk :
      (allow_set : Bytes) (dns_port : ℕ)
      → IsExact
          (exempt
            || to_ports (dport udp dns_port) (dport tcp dns_port)
            || (test (daddr_in allow_daddr)
                || test (daddr_in resolved_allow)
                || test neighbour_discovery))
          (judged false
            (walk test (rules_of (generate_dns_strict_filter_rules_v6 allow_set dns_port).chain)))
  unfolding walk generate_dns_strict_filter_rules_v6
  strict_v6_walk allow_set dns_port = (ground arith, ground arith)

  pub dns_walk :
      (allow_set : Bytes) (dns_port : ℕ)
      → IsExact
          (exempt || to_ports (dport udp dns_port) (dport tcp dns_port) || true)
          (judged true (walk test (rules_of (generate_dns_filter_rules allow_set dns_port).chain)))
  unfolding walk generate_dns_filter_rules
  dns_walk allow_set dns_port = (ground arith, ground arith)

  pub dns_v6_walk :
      (allow_set : Bytes) (dns_port : ℕ)
      → IsExact (exempt || to_ports (dport udp dns_port) (dport tcp dns_port) || true) (
          judged true
            (walk test (rules_of (generate_dns_filter_rules_v6 allow_set dns_port).chain)))
  unfolding walk generate_dns_filter_rules_v6
  dns_v6_walk allow_set dns_port = (ground arith, ground arith)

  pub https_walk :
      (allow_set : Bytes) (http_port : ℕ) (https_port : ℕ)
      → IsExact
          (exempt
            || to_ports (dport tcp http_port) (dport tcp https_port)
            || test (daddr_in allow_daddr))
          (judged false (
            walk test
              (rules_of (generate_https_filter_rules allow_set http_port https_port).chain)))
  unfolding walk generate_https_filter_rules
  https_walk allow_set http_port https_port = (ground arith, ground arith)

  pub https_v6_walk :
      (allow_set : Bytes) (http_port : ℕ) (https_port : ℕ)
      → IsExact
          (exempt
            || to_ports (dport tcp http_port) (dport tcp https_port)
            || test (daddr_in allow_daddr))
          (judged false (
            walk test
              (rules_of (generate_https_filter_rules_v6 allow_set http_port https_port).chain)))
  unfolding walk generate_https_filter_rules_v6
  https_v6_walk allow_set http_port https_port = (ground arith, ground arith)

  pub https_allow_nat :
      (allow_set : Bytes) (deny_set : Bytes) (http_port : ℕ) (https_port : ℕ)
      → fate_of true
          (walk test (
            rules_of
              (generate_https_nat_rules_allow allow_set deny_set http_port https_port).chain)).1
        ≡ sends (
            if test marked || test (daddr_in allow_daddr) || test (daddr_in deny_daddr)
            then none
            else if test (dport tcp 80)
            then some http_port
            else if test (dport tcp 443)
            then some https_port
            else none)
  unfolding walk generate_https_nat_rules_allow
  https_allow_nat allow_set deny_set http_port https_port = ground arith

  pub https_allow_v6_nat :
      (allow_set : Bytes) (deny_set : Bytes) (http_port : ℕ) (https_port : ℕ)
      → fate_of true
          (walk test (
            rules_of
              (generate_https_nat_rules_allow_v6 allow_set deny_set http_port https_port).chain)).1
        ≡ sends (
            if test marked || test (daddr_in allow_daddr) || test (daddr_in deny_daddr)
            then none
            else if test (dport tcp 80)
            then some http_port
            else if test (dport tcp 443)
            then some https_port
            else none)
  unfolding walk generate_https_nat_rules_allow_v6
  https_allow_v6_nat allow_set deny_set http_port https_port = ground arith

  pub https_nat :
      (allow_set : Bytes) (http_port : ℕ) (https_port : ℕ)
      → fate_of true
          (walk test (rules_of (generate_https_nat_rules allow_set http_port https_port).chain)).1
        ≡ sends (
            if test marked || test (daddr_in allow_daddr)
            then none
            else if test (dport tcp 80)
            then some http_port
            else if test (dport tcp 443)
            then some https_port
            else none)
  unfolding walk generate_https_nat_rules
  https_nat allow_set http_port https_port = ground arith

  pub https_v6_nat :
      (allow_set : Bytes) (http_port : ℕ) (https_port : ℕ)
      → fate_of true
          (walk test
            (rules_of (generate_https_nat_rules_v6 allow_set http_port https_port).chain)).1
        ≡ sends (
            if test marked || test (daddr_in allow_daddr)
            then none
            else if test (dport tcp 80)
            then some http_port
            else if test (dport tcp 443)
            then some https_port
            else none)
  unfolding walk generate_https_nat_rules_v6
  https_v6_nat allow_set http_port https_port = ground arith

  pub dns_nat :
      (dns_port : ℕ)
      → fate_of true (walk test (rules_of (generate_dns_nat_rules dns_port).chain)).1
        ≡ sends (
            if test marked
              || to_ports (dport udp 53) (dport tcp 53)
              || to_ports (dport udp dns_port) (dport tcp dns_port)
              || not (test (dport udp 53) || test (dport tcp 53))
            then none
            else some dns_port)
  unfolding walk generate_dns_nat_rules
  dns_nat dns_port = ground arith

  pub dns_v6_nat :
      (dns_port : ℕ)
      → fate_of true (walk test (rules_of (generate_dns_nat_rules_v6 dns_port).chain)).1
        ≡ sends (
            if test marked
              || to_ports (dport udp 53) (dport tcp 53)
              || to_ports (dport udp dns_port) (dport tcp dns_port)
              || not (test (dport udp 53) || test (dport tcp 53))
            then none
            else some dns_port)
  unfolding walk generate_dns_nat_rules_v6
  dns_v6_nat dns_port = ground arith
