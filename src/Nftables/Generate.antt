-- ===== src/Nftables/Generate.antt =====
-- internal/nftables/nftables.go: `generateEnforcingRuleset`, `auditRuleset`, `GenerateRuleset` and
-- `GenerateNftRuleset`. A ruleset is the list of its four tables.
use g0efilter.Prelude.{ℕ, Bool, true, false, ◌||◌, List, [], ◌∷◌, ◌++◌, map, if◌then◌else◌}
use g0efilter.Text.{Bytes, codes, equal, is_empty, to_lower}
use g0efilter.Nftables.{
  deny_daddr, Match, daddr_in, blocked, audit, accept, drop, log, verdict, Rule, rule, Chain,
  filter_output, nat_output, Table,
}
use g0efilter.Nftables.Filter.{
  generate_https_filter_rules_allow, generate_dns_filter_rules_allow,
  generate_dns_strict_filter_rules, generate_dns_filter_rules, generate_https_filter_rules,
  generate_https_filter_rules_allow_v6, generate_dns_filter_rules_allow_v6,
  generate_dns_strict_filter_rules_v6, generate_dns_filter_rules_v6, generate_https_filter_rules_v6,
}
use g0efilter.Nftables.Nat.{
  generate_https_nat_rules_allow, generate_dns_nat_rules, generate_https_nat_rules,
  generate_https_nat_rules_allow_v6, generate_dns_nat_rules_v6, generate_https_nat_rules_v6,
}

-- `RulesetConfig`
pub record RulesetConfig : Type 0 where
  pub allow_v4 : List Bytes
  pub allow_v6 : List Bytes
  pub deny_v4 : List Bytes
  pub deny_v6 : List Bytes
  pub https_port : ℕ
  pub http_port : ℕ
  pub dns_port : ℕ
  pub mode : Bytes
  pub default_allow : Bool
  pub audit : Bool

-- `actions.ModeHTTPS`, `actions.ModeDNS` and `actions.ModeDNSStrict`
abbrev pub mode_https : Bytes
mode_https = codes "https"

abbrev pub mode_dns : Bytes
mode_dns = codes "dns"

abbrev pub mode_dns_strict : Bytes
mode_dns_strict = codes "dns-strict"

-- `strings.Join(entries, ", ")`
unfoldable pub join_entries : List Bytes → Bytes
join_entries [] = []
join_entries (e ∷ []) = e
join_entries (e ∷ f ∷ es) = e ++ codes ", " ++ join_entries (f ∷ es)

-- The joined entries, or the placeholder.
unfoldable pub or_placeholder : Bytes → List Bytes → Bytes
or_placeholder placeholder entries =
    let joined = join_entries entries in if is_empty joined then placeholder else joined

-- `generateEnforcingRuleset`
unfoldable pub generate_enforcing_ruleset : RulesetConfig → List Table
generate_enforcing_ruleset cfg =
    let mode = to_lower cfg.mode in
    let allow_set_v4 = or_placeholder (codes "127.0.0.1") cfg.allow_v4 in
    let allow_set_v6 = or_placeholder (codes "::1") cfg.allow_v6 in
    let deny_set_v4 = join_entries cfg.deny_v4 in
    let deny_set_v6 = join_entries cfg.deny_v6 in
    if cfg.default_allow
    then (if equal mode mode_dns || equal mode mode_dns_strict
        then generate_dns_filter_rules_allow allow_set_v4 deny_set_v4 cfg.dns_port
          ∷ generate_dns_nat_rules cfg.dns_port
          ∷ generate_dns_filter_rules_allow_v6 allow_set_v6 deny_set_v6 cfg.dns_port
          ∷ generate_dns_nat_rules_v6 cfg.dns_port
          ∷ []
        else generate_https_filter_rules_allow allow_set_v4 deny_set_v4 cfg.http_port cfg.https_port
          ∷ generate_https_nat_rules_allow allow_set_v4 deny_set_v4 cfg.http_port cfg.https_port
          ∷ generate_https_filter_rules_allow_v6 allow_set_v6 deny_set_v6 cfg.http_port
              cfg.https_port
          ∷ generate_https_nat_rules_allow_v6 allow_set_v6 deny_set_v6 cfg.http_port cfg.https_port
          ∷ [])
    else if equal mode mode_dns_strict
    then generate_dns_strict_filter_rules allow_set_v4 cfg.dns_port
      ∷ generate_dns_nat_rules cfg.dns_port
      ∷ generate_dns_strict_filter_rules_v6 allow_set_v6 cfg.dns_port
      ∷ generate_dns_nat_rules_v6 cfg.dns_port
      ∷ []
    else if equal mode mode_dns
    then generate_dns_filter_rules allow_set_v4 cfg.dns_port
      ∷ generate_dns_nat_rules cfg.dns_port
      ∷ generate_dns_filter_rules_v6 allow_set_v6 cfg.dns_port
      ∷ generate_dns_nat_rules_v6 cfg.dns_port
      ∷ []
    else generate_https_filter_rules allow_set_v4 cfg.http_port cfg.https_port
      ∷ generate_https_nat_rules allow_set_v4 cfg.http_port cfg.https_port
      ∷ generate_https_filter_rules_v6 allow_set_v6 cfg.http_port cfg.https_port
      ∷ generate_https_nat_rules_v6 allow_set_v6 cfg.http_port cfg.https_port
      ∷ []

-- A line that ends in `@deny_daddr_v4 drop` or `@deny_daddr_v6 drop`, or is `drop` alone.
unfoldable pub is_replaced : List Match → Bool
is_replaced [] = true
is_replaced (daddr_in deny_daddr ∷ []) = true
is_replaced (m ∷ []) = false
is_replaced (m ∷ n ∷ ms) = is_replaced (n ∷ ms)

-- The replacements of `auditRuleset` in one line.
unfoldable pub audit_rule : Rule → Rule
audit_rule (rule ms (log blocked)) = rule ms (log audit)
audit_rule (rule ms (log p)) = rule ms (log p)
audit_rule (rule ms (verdict drop)) = rule ms (verdict (if is_replaced ms then accept else drop))
audit_rule (rule ms (verdict v)) = rule ms (verdict v)

unfoldable pub audit_chain : Chain → Chain
unfolding audit_rule
audit_chain (filter_output policy rules) = filter_output true (map audit_rule rules)
audit_chain (nat_output rules) = nat_output (map audit_rule rules)

-- `auditRuleset`
unfoldable pub audit_ruleset : List Table → List Table
audit_ruleset = map (λ t. record { family = t.family; sets = t.sets; chain = audit_chain t.chain })

-- `GenerateRuleset`
unfoldable pub generate_ruleset : RulesetConfig → List Table
generate_ruleset cfg =
    let tables = generate_enforcing_ruleset cfg in
    if cfg.audit then audit_ruleset tables else tables

-- `GenerateNftRuleset`
unfoldable pub generate_nft_ruleset : List Bytes → List Bytes → ℕ → ℕ → ℕ → Bytes → List Table
generate_nft_ruleset v4_list v6_list https_port http_port dns_port mode = generate_ruleset (record {
  allow_v4 = v4_list;
  allow_v6 = v6_list;
  deny_v4 = [];
  deny_v6 = [];
  https_port = https_port;
  http_port = http_port;
  dns_port = dns_port;
  mode = mode;
  default_allow = false;
  audit = false;
})
