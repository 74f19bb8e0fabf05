-- ===== src/Tests/Names.antt =====
-- Host names, query names and patterns.
use g0efilter.Prelude.{
  ◌≤◌, ◌≡◌, refl, ◌↔◌, inl, true, false, none, some, List, [], ◌∷◌, ◌++◌, map, arith, length,
}
use g0efilter.Text.{Bytes, codes, equal, split, contains, to_lower, trim_space, trim_suffix}
use g0efilter.Assoc.{lookup}
use g0efilter.Host.{
  sanitize_host, sanitize_dns_qname, has_valid_structure, has_valid_labels,
  determine_structure_failure_reason, determine_label_failure_reason, unknown_value,
}
use g0efilter.Host.Valid.{IsHost}
use g0efilter.Host.Sanitize.{sanitize_host_iff}
use g0efilter.Entry.{validate_domain_labels}
use g0efilter.Entry.Literal.{AreEntryLabels, validate_domain_labels_iff}
use g0efilter.Pattern.{Env, wildcard_match, compile_wildcard_pattern}
use g0efilter.Pattern.Wildcard.{Covers, wildcard_match_iff}
use g0efilter.Matcher.{new_matcher, allows, match_pattern}
use g0efilter.Matcher.Cached.{IsCoherent, listed}
use g0efilter.Matcher.Listed.{allows-new_matcher}
use g0efilter.Matcher.Leading.{match_pattern_leading_iff}
use g0efilter.Permit.{Options, host_permitted_by}
use g0efilter.Permit.Table.{policy, IsPrepared, host_permitted_by-policy}

sanitize_host_iff_example :
    (sanitize_host (codes "a.example.com") ≡ some (codes "a.example.com"))
    ↔ ((codes "a.example.com" ≡ codes "a.example.com") × IsHost (codes "a.example.com"))
sanitize_host_iff_example = sanitize_host_iff (codes "a.example.com") (codes "a.example.com")

qname_lowered : sanitize_dns_qname (codes "_SIP.Example.com") ≡ some (codes "_sip.example.com")
unfolding sanitize_dns_qname split g0efilter.Text.lower g0efilter.Host.is_valid_dns_qname_label
    g0efilter.Host.is_valid_dns_char
qname_lowered = refl

host_accepted : sanitize_host (codes "a.example.com") ≡ some (codes "a.example.com")
unfolding sanitize_host g0efilter.Host.has_valid_length g0efilter.Host.has_valid_characters
    g0efilter.Host.is_valid_dns_char has_valid_structure g0efilter.Text.has_suffix contains
    has_valid_labels split g0efilter.Host.check_labels g0efilter.Host.is_valid_label
    g0efilter.Host.is_valid_tld g0efilter.Host.is_all_numeric
host_accepted = refl

compiled : compile_wildcard_pattern (codes "a.*.com") ≡ some (codes "a." ∷ codes ".com" ∷ [])
unfolding compile_wildcard_pattern contains g0efilter.Text.has_suffix split
    g0efilter.Pattern.is_valid_wildcard_chunk g0efilter.Text.lower
compiled = refl

wildcard_match_iff_example :
    (wildcard_match (codes "a." ∷ codes ".com" ∷ []) (codes "a.b.com") ≡ true)
    ↔ Covers (map to_lower (split b'*' (codes "a.*.com"))) (codes "a.b.com")
wildcard_match_iff_example =
    wildcard_match_iff (codes "a.*.com") {cs = codes "a." ∷ codes ".com" ∷ []} (codes "a.b.com")
      compiled

abbrev env : Env
env = record {
  regexp_compile = λ _. none;
  to_ascii = λ s. some s;
  parse_ip = λ _. false;
  parse_cidr = λ _. false;
  is_upper = λ _. false;
}

empty_cache-IsCoherent : IsCoherent env []
unfolding IsCoherent lookup
empty_cache-IsCoherent = λ p re h. absurd (ground arith)

abbrev allowlist : List Bytes
allowlist = codes "*.example.com" ∷ codes "github.com." ∷ []

allows-new_matcher_example :
    ((allows env (new_matcher env allowlist) (codes "GitHub.com") []).0
      ≡ listed env allowlist (codes "GitHub.com"))
    × IsCoherent env (allows env (new_matcher env allowlist) (codes "GitHub.com") []).1
allows-new_matcher_example =
    allows-new_matcher env allowlist (codes "GitHub.com") [] empty_cache-IsCoherent

no_star : contains (codes "*") (codes "com") ≡ false
unfolding contains
no_star = refl

match_pattern_leading_iff_example :
    ((match_pattern env (codes "a.com") (codes "*.com") []).0 ≡ true)
    ↔ ((x : Bytes) × (1 ≤ length x) × (codes "a.com" ≡ x ++ (b'.' ∷ codes "com")))
match_pattern_leading_iff_example =
    match_pattern_leading_iff env (codes "a.com") (codes "com") [] no_star

abbrev options : Options
options = record {
  default_allow = true;
  denylist = codes "evil.com" ∷ [];
  learning_mode = false;
  on_learn = true;
  on_resolved = true;
  audit_mode = false;
  dns_hardening = true;
  deny_matcher = none;
}

options-IsPrepared : IsPrepared env options
unfolding IsPrepared
options-IsPrepared = inl refl

host_permitted_by-policy_example :
    ((host_permitted_by env (codes "evil.com") (new_matcher env allowlist) options []).0
      ≡ policy env allowlist options (codes "evil.com"))
    × IsCoherent env
        (host_permitted_by env (codes "evil.com") (new_matcher env allowlist) options []).1
host_permitted_by-policy_example =
    host_permitted_by-policy env allowlist options (codes "evil.com") [] options-IsPrepared
      empty_cache-IsCoherent

validate_domain_labels_iff_example :
    (validate_domain_labels env (codes "a.Example.com") ≡ none)
    ↔ AreEntryLabels env (split b'.' (codes "a.Example.com"))
validate_domain_labels_iff_example = validate_domain_labels_iff env (codes "a.Example.com")
