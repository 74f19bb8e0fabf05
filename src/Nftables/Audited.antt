-- ===== src/Nftables/Audited.antt =====
-- internal/nftables/nftables.go: what `auditRuleset` makes of a ruleset, for every packet.
use g0efilter.Nftables.Walks.{rules_of}
use g0efilter.Prelude.{
  ◌≡◌, refl, inl, inr, Bool, true, ◌&&◌, Option, some, List, [], ◌∷◌, map, arith, Bool-cases, all,
}
use g0efilter.Nftables.{
  Family, SetBlock, Match, Prefix, allowed, blocked, audit, redirected, dns_redirected, Verdict,
  accept, drop, return, redirect, log, verdict, Rule, rule, Chain, filter_output, nat_output, Table,
}
use g0efilter.Nftables.Generate.{
  RulesetConfig, generate_enforcing_ruleset, audit_ruleset, audit_chain, audit_rule, is_replaced,
}
use g0efilter.Nftables.Kernel.{
  Sets, Packet, Fate, fate_of, passed, dropped, holds, walk, run_table, Hook, run_hook, is_on,
  is_family,
}
use g0efilter.Nftables.Filter.{
  generate_https_filter_rules_allow, generate_dns_filter_rules_allow,
  generate_dns_strict_filter_rules, generate_dns_filter_rules, generate_https_filter_rules,
  generate_https_filter_rules_allow_v6, generate_dns_filter_rules_allow_v6,
  generate_dns_strict_filter_rules_v6, generate_dns_filter_rules_v6, generate_https_filter_rules_v6,
}
use g0efilter.Nftables.Nat.{
  generate_https_nat_rules_allow, generate_dns_nat_rules, generate_https_nat_rules,
  generate_https_nat_rules_allow_v6, generate_dns_nat_rules_v6, generate_https_nat_rules_v6,
}

-- A `drop` stands in one of the forms that are replaced.
abbrev pub is_plain : Rule → Bool
is_plain (rule ms (log p)) = true
is_plain (rule ms (verdict accept)) = true
is_plain (rule ms (verdict drop)) = is_replaced ms
is_plain (rule ms (verdict return)) = true
is_plain (rule ms (verdict (redirect port))) = true

abbrev pub is_template : Table → Bool
is_template t = all is_plain (rules_of t.chain)

-- The dry-run counterparts of a log prefix, of a verdict and of a fate.
abbrev pub audit_prefix : Prefix → Prefix
audit_prefix blocked = audit
audit_prefix p = p

abbrev audit_verdict : Option Verdict → Option Verdict
audit_verdict (some drop) = some accept
audit_verdict o = o

abbrev pub audit_fate : Fate → Fate
audit_fate dropped = passed
audit_fate f = f

walk-audit_rule :
    (test : Match → Bool) (rules : List Rule)
    → all is_plain rules ≡ true
    → walk test (map audit_rule rules)
      ≡ (map audit_prefix (walk test rules).0, audit_verdict (walk test rules).1)
unfolding walk audit_rule
walk-audit_rule test [] h = refl
walk-audit_rule test (rule ms (log allowed) ∷ rules) h =
    ground (arith, walk-audit_rule test rules (ground arith))
walk-audit_rule test (rule ms (log blocked) ∷ rules) h =
    ground (arith, walk-audit_rule test rules (ground arith))
walk-audit_rule test (rule ms (log audit) ∷ rules) h =
    ground (arith, walk-audit_rule test rules (ground arith))
walk-audit_rule test (rule ms (log redirected) ∷ rules) h =
    ground (arith, walk-audit_rule test rules (ground arith))
walk-audit_rule test (rule ms (log dns_redirected) ∷ rules) h =
    ground (arith, walk-audit_rule test rules (ground arith))
walk-audit_rule test (rule ms (verdict accept) ∷ rules) h =
    ground (arith, walk-audit_rule test rules (ground arith))
walk-audit_rule test (rule ms (verdict drop) ∷ rules) h =
    ground (arith, walk-audit_rule test rules (ground arith))
walk-audit_rule test (rule ms (verdict return) ∷ rules) h =
    ground (arith, walk-audit_rule test rules (ground arith))
walk-audit_rule test (rule ms (verdict (redirect port)) ∷ rules) h =
    ground (arith, walk-audit_rule test rules (ground arith))

fate_of-audit :
    (policy : Bool) (o : Option Verdict)
    → fate_of true (audit_verdict o) ≡ audit_fate (fate_of policy o)
fate_of-audit policy o = ground arith

run_table-audit_chain :
    (k : Sets) (p : Packet) (family : Family) (sets : List SetBlock) (c : Chain)
    → all is_plain (rules_of c) ≡ true
    → run_table k (record { family = family; sets = sets; chain = audit_chain c }) p ≡ (
      map audit_prefix (run_table k (record { family = family; sets = sets; chain = c }) p).0,
      audit_fate (run_table k (record { family = family; sets = sets; chain = c }) p).1,
    )
unfolding run_table audit_chain
run_table-audit_chain k p family sets (filter_output policy rules) h =
    rw (walk-audit_rule (holds k sets p) rules h, fate_of-audit policy) refl
run_table-audit_chain k p family sets (nat_output rules) h =
    rw (walk-audit_rule (holds k sets p) rules h, fate_of-audit true) refl

is_on-audit_chain : (hook : Hook) (c : Chain) → is_on hook (audit_chain c) ≡ is_on hook c
unfolding audit_chain
is_on-audit_chain hook c = ground arith

-- When every `drop` of a ruleset stands in a form that the replacements cover: a packet runs into
-- the same rules, `blocked` is logged as `audit`, and a packet that was dropped passes.
pub run_hook-audit_ruleset :
    (k : Sets) (hook : Hook) (tables : List Table) (p : Packet)
    → all is_template tables ≡ true
    → run_hook k hook (audit_ruleset tables) p
      ≡ (map audit_prefix (run_hook k hook tables p).0, audit_fate (run_hook k hook tables p).1)
unfolding run_hook audit_ruleset
run_hook-audit_ruleset k hook [] p h = refl
run_hook-audit_ruleset k hook (t ∷ ts) p h =
    let rest = run_hook-audit_ruleset k hook ts p (ground arith) in
    let here = run_table-audit_chain k p t.family t.sets t.chain (ground arith) in
    rw (is_on-audit_chain hook t.chain)
      (elim (Bool-cases (is_family t.family p.family && is_on hook t.chain)) [
        | inl e ↦ rw e here
        | inr e ↦ rw e rest
      ])

-- The templates are written so.
pub generated-is_template :
    (cfg : RulesetConfig) → all is_template (generate_enforcing_ruleset cfg) ≡ true
unfolding generate_enforcing_ruleset is_replaced generate_https_filter_rules
    generate_https_filter_rules_v6 generate_https_nat_rules generate_https_nat_rules_v6
    generate_https_filter_rules_allow generate_https_filter_rules_allow_v6
    generate_https_nat_rules_allow generate_https_nat_rules_allow_v6 generate_dns_filter_rules_allow
    generate_dns_filter_rules_allow_v6 generate_dns_nat_rules generate_dns_nat_rules_v6
    generate_dns_filter_rules generate_dns_filter_rules_v6 generate_dns_strict_filter_rules
    generate_dns_strict_filter_rules_v6
generated-is_template cfg = ground arith
