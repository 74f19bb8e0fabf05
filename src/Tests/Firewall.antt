-- ===== src/Tests/Firewall.antt =====
-- The nftables rulesets, their application, and the packets that are logged.
use g0efilter.Prelude.{
  ℕ, ◌*◌, ◌≡◌, refl, ◌⊎◌, true, false, not, ◌||◌, none, some, List, [], ◌∷◌, map, if◌then◌else◌,
}
use g0efilter.Nftables.{v4, tcp}
use g0efilter.Text.{Bytes, codes, equal, trim_space, trim_left, trim_right, lower}
use g0efilter.Text.Number.{atoi, numeral, digits_value}
use g0efilter.Nftables.Generate.{
  RulesetConfig, mode_https, mode_dns_strict, or_placeholder, join_entries,
  generate_enforcing_ruleset, generate_ruleset, audit_ruleset,
}
use g0efilter.Nftables.Kernel.{Sets, Packet, passed, sent_to, segment, run_hook, filter_hook, send}
use g0efilter.Nftables.Policy.{
  is_allowed, is_denied, is_exempt, is_to_proxy, is_permitted, proxy_port,
}
use g0efilter.Nftables.Walks.{passes, logs_blocked}
use g0efilter.Nftables.Audited.{
  audit_prefix, audit_fate, run_hook-audit_ruleset, generated-is_template,
}
use g0efilter.Nftables.Egress.{destiny, generate_ruleset-filter, send-generate_ruleset, send-marked}
use g0efilter.Nftables.Script.{Command, Loaded, run_script}
use g0efilter.Nftables.Apply.{
  ApplyError, dry_run_failed, apply_failed, Result, ok, error, parse_port, Addresses, PolicyRules,
  Nft, Run, dry_run, commit, config_of, script_of, apply_policy_rules_with_context,
  validate_and_parse_ruleset, apply_ruleset,
}
use g0efilter.Nftables.Reload.{loaded_tables, script_of-loads}
use g0efilter.Nftables.Applied.{
  outcome, AreParsed, IsRefused, script_for, apply-cases, apply-enforces,
}
use g0efilter.Nftables.Resolved.{second, add_resolved_ips}
use g0efilter.Nftables.Refreshed.{
  Live, run_element, any_names, sets_with, resolved-generate_ruleset,
}

-- An element list is one address.
abbrev sets : Sets
sets = record { in_elements = equal; in_resolved = λ f a. false }

abbrev server : Bytes
server = codes "10.0.0.7"

abbrev cfg : RulesetConfig
cfg = record {
  allow_v4 = server ∷ [];
  allow_v6 = [];
  deny_v4 = [];
  deny_v6 = [];
  https_port = 8443;
  http_port = 8080;
  dns_port = 53;
  mode = mode_https;
  default_allow = false;
  audit = false;
}

-- A new TLS connection to a server that is not on the list.
abbrev packet : Packet
packet = record {
  family = v4;
  to_lo = false;
  established = false;
  has_mark = false;
  daddr = codes "10.0.0.8";
  payload = segment tcp 443;
}

abbrev marked_packet : Packet
marked_packet = record packet { has_mark = true }

generate_ruleset-filter_example :
    ((run_hook sets filter_hook (generate_ruleset cfg) packet).1
      ≡ passes (is_permitted sets cfg packet || cfg.audit))
    × (logs_blocked (run_hook sets filter_hook (generate_ruleset cfg) packet).0
        ≡ not (is_permitted sets cfg packet || cfg.audit))
generate_ruleset-filter_example = generate_ruleset-filter sets cfg packet

send-generate_ruleset_example :
    send sets (generate_ruleset cfg) packet
    ≡ destiny
        (if packet.established then none else proxy_port sets cfg packet)
        (is_permitted sets cfg packet || cfg.audit)
send-generate_ruleset_example = send-generate_ruleset sets cfg packet

-- That packet goes to the HTTPS proxy.
sent_example :
    destiny
      (if packet.established then none else proxy_port sets cfg packet)
      (is_permitted sets cfg packet || cfg.audit)
    ≡ sent_to 8443
unfolding proxy_port is_allowed is_denied or_placeholder join_entries lower
sent_example = refl

send-marked_example : send sets (generate_ruleset cfg) marked_packet ≡ passed
send-marked_example = send-marked sets cfg marked_packet refl

run_hook-audit_ruleset_example :
    run_hook sets filter_hook (audit_ruleset (generate_enforcing_ruleset cfg)) packet ≡ (
      map audit_prefix (run_hook sets filter_hook (generate_enforcing_ruleset cfg) packet).0,
      audit_fate (run_hook sets filter_hook (generate_enforcing_ruleset cfg) packet).1,
    )
run_hook-audit_ruleset_example =
    run_hook-audit_ruleset sets filter_hook (generate_enforcing_ruleset cfg) packet
      (generated-is_template cfg)

abbrev before : Loaded
before = record { filter_v4 = none; nat_v4 = some []; filter_v6 = none; nat_v6 = none }

script_of-loads_example :
    (l : Loaded) × (run_script (script_of cfg) before ≡ some l)
    × (loaded_tables l ≡ generate_ruleset cfg)
script_of-loads_example = script_of-loads cfg before

-- Every text without a slash is an IPv4 address.
abbrev net : Addresses
net = record { parse_ip = λ s. some (v4, s); parse_cidr = λ s. none }

abbrev nft : Nft
nft = record { checks = λ s. true; applies = λ s. true }

abbrev rules : PolicyRules
rules = record { allow_ips = server ∷ []; deny_ips = []; default_allow = false; audit = false }

abbrev result : List Run × Result Unit
result = outcome nft net [] rules (codes "8443") (codes "8080") (codes "53")

abbrev AreRead : ℕ → ℕ → ℕ → Type 0
AreRead = AreParsed nft net [] rules (codes "8443") (codes "8080") (codes "53")

abbrev script : ℕ → ℕ → ℕ → List Command
script = script_for nft net [] rules (codes "8443") (codes "8080") (codes "53")

apply-cases_example :
    ((e : ApplyError) × IsRefused nft net [] rules (codes "8443") (codes "8080") (codes "53") e
      × (result ≡ ([], error e)))
    ⊎ ((p : ℕ) × (q : ℕ) × (r : ℕ) × AreRead p q r
        × (nft.checks (script p q r) ≡ false)
        × (result ≡ (dry_run (script p q r) ∷ [], error dry_run_failed)))
    ⊎ ((p : ℕ) × (q : ℕ) × (r : ℕ) × AreRead p q r
        × (nft.checks (script p q r) ≡ true)
        × (result ≡ (
          dry_run (script p q r) ∷ commit (script p q r) ∷ [],
          if nft.applies (script p q r) then ok tt else error apply_failed,
        )))
apply-cases_example = apply-cases nft net [] rules (codes "8443") (codes "8080") (codes "53")

applied : result.1 ≡ ok tt
unfolding apply_policy_rules_with_context validate_and_parse_ruleset apply_ruleset parse_port atoi
    numeral digits_value trim_space trim_left trim_right
applied = refl

apply-enforces_example :
    (p : ℕ) × (q : ℕ) × (r : ℕ) × AreRead p q r
    × (result.0 ≡ dry_run (script p q r) ∷ commit (script p q r) ∷ [])
    × ((loaded : Loaded)
        → (l : Loaded) × (run_script (script p q r) loaded ≡ some l)
          × ((k : Sets) (p' : Packet)
              → let c = config_of net [] rules p q r in
                send k (loaded_tables l) p'
                ≡ destiny
                    (if p'.established then none else proxy_port k c p')
                    (is_permitted k c p' || c.audit)))
apply-enforces_example =
    apply-enforces nft net [] rules (codes "8443") (codes "8080") (codes "53") applied

abbrev batch : List Bytes
batch = server ∷ codes "10.0.0.8" ∷ []

abbrev stale : Live
stale f a = some 5

abbrev strict_cfg : RulesetConfig
strict_cfg = record cfg { mode = mode_dns_strict }

abbrev strict_sets : Sets
strict_sets =
    sets_with equal (add_resolved_ips run_element net batch (300 * second) (λ f a. none)).1

resolved-generate_ruleset_example :
    (run_hook strict_sets filter_hook (generate_ruleset strict_cfg) packet).1
    ≡ passes (any_names net v4 (codes "10.0.0.8") batch)
unfolding is_exempt is_to_proxy is_allowed or_placeholder join_entries lower
resolved-generate_ruleset_example =
    resolved-generate_ruleset net batch (300 * second) equal strict_cfg packet refl refl refl refl
      refl refl refl
