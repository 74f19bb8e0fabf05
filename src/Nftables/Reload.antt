-- ===== src/Nftables/Reload.antt =====
-- internal/nftables/nftables.go: what the script of a reload leaves in the kernel.
use g0efilter.Prelude.{
  ◌≡◌, refl, ◌∙◌, Bool, true, false, ◌||◌, none, some, List, [], ◌∷◌, ◌++◌, map, if◌then◌else◌,
}
use g0efilter.Nftables.{v4, v6, Table}
use g0efilter.Nftables.Filter.{
  generate_https_filter_rules_allow, generate_dns_filter_rules_allow,
  generate_dns_strict_filter_rules, generate_dns_filter_rules, generate_https_filter_rules,
  generate_https_filter_rules_allow_v6, generate_dns_filter_rules_allow_v6,
  generate_dns_strict_filter_rules_v6, generate_dns_filter_rules_v6, generate_https_filter_rules_v6,
}
use g0efilter.Nftables.Nat.{
  generate_https_nat_rules_allow, generate_dns_nat_rules, generate_https_nat_rules,
  generate_https_nat_rules_allow_v6, generate_dns_nat_rules_v6, generate_https_nat_rules_v6,
}
use g0efilter.Nftables.Generate.{
  RulesetConfig, mode_dns, mode_dns_strict, generate_enforcing_ruleset, generate_ruleset,
  audit_ruleset, audit_chain,
}
use g0efilter.Nftables.Kernel.{filter_hook, nat_hook}
use g0efilter.Text.{equal, to_lower}
use g0efilter.Nftables.Script.{table_name, Command, load, Loaded, name_of, bodies, run_script}
use g0efilter.Nftables.Apply.{atomic_replace_preamble, script_of}

-- All that the managed tables hold.
unfoldable pub loaded_tables : Loaded → List Table
loaded_tables l = bodies l.filter_v4 ++ bodies l.nat_v4 ++ bodies l.filter_v6 ++ bodies l.nat_v6

-- One body for each table, in the order of the code.
abbrev IsWhole : List Table → Type 0
IsWhole (a ∷ b ∷ c ∷ d ∷ []) =
    (name_of a ≡ table_name v4 filter_hook)
    × (name_of b ≡ table_name v4 nat_hook)
    × (name_of c ≡ table_name v6 filter_hook)
    × (name_of d ≡ table_name v6 nat_hook)
IsWhole _ = ⊥

if_both :
    (P : List Table → Type 0) (b : Bool) {xs ys : List Table}
    → P xs
    → P ys
    → P (if b then xs else ys)
if_both P true h k = h
if_both P false h k = k

abbrev IsWholeBoth : List Table → Type 0
IsWholeBoth ts = IsWhole ts × IsWhole (audit_ruleset ts)

whole : (cfg : RulesetConfig) → IsWholeBoth (generate_enforcing_ruleset cfg)
unfolding generate_enforcing_ruleset audit_ruleset audit_chain name_of
    generate_https_filter_rules_allow generate_https_filter_rules_allow_v6
    generate_dns_filter_rules_allow generate_dns_filter_rules_allow_v6
    generate_dns_strict_filter_rules generate_dns_strict_filter_rules_v6 generate_dns_filter_rules
    generate_dns_filter_rules_v6 generate_https_filter_rules generate_https_filter_rules_v6
    generate_https_nat_rules_allow generate_https_nat_rules_allow_v6 generate_dns_nat_rules
    generate_dns_nat_rules_v6 generate_https_nat_rules generate_https_nat_rules_v6
whole cfg =
    let mode = to_lower cfg.mode in
    if_both IsWholeBoth cfg.default_allow
      (if_both IsWholeBoth (equal mode mode_dns || equal mode mode_dns_strict)
        ((refl, refl, refl, refl), (refl, refl, refl, refl))
        ((refl, refl, refl, refl), (refl, refl, refl, refl)))
      (if_both IsWholeBoth (equal mode mode_dns_strict)
        ((refl, refl, refl, refl), (refl, refl, refl, refl))
        (if_both IsWholeBoth (equal mode mode_dns)
          ((refl, refl, refl, refl), (refl, refl, refl, refl))
          ((refl, refl, refl, refl), (refl, refl, refl, refl))))

generate_ruleset-IsWhole : (cfg : RulesetConfig) → IsWhole (generate_ruleset cfg)
unfolding generate_ruleset
generate_ruleset-IsWhole cfg = if_both IsWhole cfg.audit (whole cfg).1 (whole cfg).0

fresh : Loaded
fresh = record { filter_v4 = none; nat_v4 = none; filter_v6 = none; nat_v6 = none }

load_whole :
    (ts : List Table)
    → IsWhole ts
    → (l : Loaded) × (run_script (map load ts) fresh ≡ some l) × (loaded_tables l ≡ ts)
unfolding run_script loaded_tables fresh
load_whole (a ∷ b ∷ c ∷ d ∷ []) h = (
  record {
    filter_v4 = some (a ∷ []);
    nat_v4 = some (b ∷ []);
    filter_v6 = some (c ∷ []);
    nat_v6 = some (d ∷ []);
  },
  rw (h.0, h.1, h.2, h.3, run_script) refl,
  refl,
)
load_whole [] h = elim h [ ]
load_whole (a ∷ []) h = elim h [ ]
load_whole (a ∷ b ∷ []) h = elim h [ ]
load_whole (a ∷ b ∷ c ∷ []) h = elim h [ ]
load_whole (a ∷ b ∷ c ∷ d ∷ e ∷ ts) h = elim h [ ]

preamble_clears :
    (cs : List Command) (l : Loaded)
    → run_script (atomic_replace_preamble ++ cs) l ≡ run_script cs fresh
unfolding run_script atomic_replace_preamble fresh
preamble_clears cs l = refl

-- Whatever the managed tables held before, the script of a configuration succeeds, and leaves in them one
-- body each: the tables that were generated.
pub script_of-loads :
    (cfg : RulesetConfig) (before : Loaded)
    → (l : Loaded) × (run_script (script_of cfg) before ≡ some l)
      × (loaded_tables l ≡ generate_ruleset cfg)
unfolding script_of
script_of-loads cfg before =
    let (l, e, same) = load_whole (generate_ruleset cfg) (generate_ruleset-IsWhole cfg) in
    (l, preamble_clears (map load (generate_ruleset cfg)) before ∙ e, same)
