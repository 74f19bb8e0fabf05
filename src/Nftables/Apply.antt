-- ===== src/Nftables/Apply.antt =====
-- internal/nftables/nftables.go: the ports, the families, and `ApplyPolicyRulesWithContext` with its
-- wrappers. The runs of `nft` are parameters; the calls are recorded in order.
use g0efilter.Prelude.{
  ℕ, Bool, false, ◌||◌, Option, none, some, List, [], ◌∷◌, ◌++◌, map, ltb, if◌then◌else◌,
}
use g0efilter.Prelude.Int.{pos, negsuc}
use g0efilter.Text.{Bytes, codes, is_empty, to_lower, trim_space, contains}
use g0efilter.Text.Number.{atoi}
use g0efilter.Nftables.{Family, v4, v6}
use g0efilter.Nftables.Generate.{RulesetConfig, mode_https, generate_ruleset}
use g0efilter.Nftables.Kernel.{filter_hook, nat_hook}
use g0efilter.Nftables.Script.{table_name, Command, create, delete, load}

pub data PortName : Type 0 where
  https http dns : PortName

pub data ApplyError : Type 0 where
  invalid_port port_out_of_range : PortName → ApplyError
  dry_run_failed apply_failed : ApplyError

-- A value, or the error that the code returns.
pub data Result (A : Type 0) : Type 0 where
  ok : A → Result A
  error : ApplyError → Result A

-- `parsePort`
unfoldable pub parse_port : Bytes → PortName → Result ℕ
parse_port s name = elim (atoi (trim_space s)) [
  | none ↦ error (invalid_port name)
  | some (negsuc n) ↦ error (port_out_of_range name)
  | some (pos port) ↦
      if ltb port 1 || ltb 65535 port then error (port_out_of_range name) else ok port
]

-- `net.ParseIP` and `net.ParseCIDR`, and `To4` of what they return: the family and the usual text of an
-- address, and the family of a prefix.
pub record Addresses : Type 0 where
  pub parse_ip : Bytes → Option (Family × Bytes)
  pub parse_cidr : Bytes → Option Family

-- The family of an entry that is kept.
unfoldable pub entry_family : Addresses → Bytes → Option Family
entry_family net entry =
    if is_empty entry
    then none
    else if contains (codes "/") entry
    then net.parse_cidr entry
    else elim (net.parse_ip entry) [ none ↦ none | some (family, text) ↦ some family ]

-- `splitByFamily`
unfoldable pub split_by_family : Addresses → List Bytes → List Bytes × List Bytes
split_by_family net [] = ([], [])
split_by_family net (raw ∷ entries) =
    let (v4_list, v6_list) = split_by_family net entries in
    let entry = trim_space raw in
    elim (entry_family net entry) [
      | none ↦ (v4_list, v6_list)
      | some v4 ↦ (entry ∷ v4_list, v6_list)
      | some v6 ↦ (v4_list, entry ∷ v6_list)
    ]

-- `atomicReplacePreamble`
unfoldable pub atomic_replace_preamble : List Command
atomic_replace_preamble =
    create (table_name v4 filter_hook)
    ∷ delete (table_name v4 filter_hook)
    ∷ create (table_name v4 nat_hook)
    ∷ delete (table_name v4 nat_hook)
    ∷ create (table_name v6 filter_hook)
    ∷ delete (table_name v6 filter_hook)
    ∷ create (table_name v6 nat_hook)
    ∷ delete (table_name v6 nat_hook)
    ∷ []

-- `PolicyRules`
pub record PolicyRules : Type 0 where
  pub allow_ips : List Bytes
  pub deny_ips : List Bytes
  pub default_allow : Bool
  pub audit : Bool

-- Whether `nft -c -f -` and `nft -f -` end without an error on a script.
pub record Nft : Type 0 where
  pub checks : List Command → Bool
  pub applies : List Command → Bool

pub data Run : Type 0 where
  dry_run commit : List Command → Run

-- `validateAndParseRuleset`
unfoldable pub validate_and_parse_ruleset : Nft → List Command → List Run × Result Unit
validate_and_parse_ruleset nft script =
    (dry_run script ∷ [], if nft.checks script then ok tt else error dry_run_failed)

-- `applyRuleset`
unfoldable pub apply_ruleset : Nft → List Command → List Run × Result Unit
apply_ruleset nft script =
    (commit script ∷ [], if nft.applies script then ok tt else error apply_failed)

-- Runs follow one another until an error.
abbrev pub and_then : List Run × Result Unit → List Run × Result Unit → List Run × Result Unit
and_then (runs, ok u) (more, r) = (runs ++ more, r)
and_then (runs, error e) (more, r) = (runs, error e)

-- `mode`, with the text of `FILTER_MODE`.
unfoldable pub mode_of : Bytes → Bytes
mode_of filter_mode =
    let mode = to_lower (trim_space filter_mode) in if is_empty mode then mode_https else mode

abbrev pub or_loopback : List Bytes → List Bytes
or_loopback [] = codes "127.0.0.1" ∷ []
or_loopback (ip ∷ ips) = ip ∷ ips

-- The configuration and the script of `ApplyPolicyRulesWithContext`, from the parsed ports.
unfoldable pub config_of : Addresses → Bytes → PolicyRules → ℕ → ℕ → ℕ → RulesetConfig
config_of net filter_mode rules https_port http_port dns_port =
    let allow = split_by_family net (or_loopback rules.allow_ips) in
    let deny = split_by_family net rules.deny_ips in
    record {
      allow_v4 = allow.0;
      allow_v6 = allow.1;
      deny_v4 = deny.0;
      deny_v6 = deny.1;
      https_port = https_port;
      http_port = http_port;
      dns_port = dns_port;
      mode = mode_of filter_mode;
      default_allow = rules.default_allow;
      audit = rules.audit;
    }

unfoldable pub script_of : RulesetConfig → List Command
unfolding atomic_replace_preamble
script_of cfg = atomic_replace_preamble ++ map load (generate_ruleset cfg)

-- `ApplyPolicyRulesWithContext`
unfoldable pub apply_policy_rules_with_context :
    Nft → Addresses → Bytes → PolicyRules → Bytes → Bytes → Bytes → List Run × Result Unit
apply_policy_rules_with_context nft net filter_mode rules https_port_str http_port_str
      dns_port_str =
    elim (parse_port https_port_str https) [
      | error e ↦ ([], error e)
      | ok https_port ↦ elim (parse_port http_port_str http) [
        | error e ↦ ([], error e)
        | ok http_port ↦ elim (parse_port dns_port_str dns) [
          | error e ↦ ([], error e)
          | ok dns_port ↦
              let script =
                script_of (config_of net filter_mode rules https_port http_port dns_port) in
              and_then (validate_and_parse_ruleset nft script) (apply_ruleset nft script)
        ]
      ]
    ]

-- `ApplyNftRulesWithContext` and `ApplyNftRules`
unfoldable pub apply_nft_rules :
    Nft → Addresses → Bytes → List Bytes → Bytes → Bytes → Bytes → List Run × Result Unit
apply_nft_rules nft net filter_mode allowlist =
    apply_policy_rules_with_context nft net filter_mode
      (record { allow_ips = allowlist; deny_ips = []; default_allow = false; audit = false })

-- `ApplyNftRulesAuto`, with the text of `DNS_PORT`.
unfoldable pub apply_nft_rules_auto :
    Nft → Addresses → Bytes → Bytes → List Bytes → Bytes → Bytes → List Run × Result Unit
apply_nft_rules_auto nft net filter_mode dns_port_env allowlist https_port_str http_port_str =
    let dns_port_str = trim_space dns_port_env in
    apply_nft_rules nft net filter_mode allowlist https_port_str http_port_str
      (if is_empty dns_port_str then codes "53" else dns_port_str)
