-- ===== src/PolicyFile/Readable.antt =====
-- internal/policy/policy.go: the policy files that `Read` accepts.
use g0efilter.Prelude.{◌≡◌, refl, inl, inr, List, arith, All}
use g0efilter.Text.{Bytes}
use g0efilter.Pattern.{Env}
use g0efilter.Entry.{validate_ip, validate_domain}
use g0efilter.PolicyFile.{
  AllowList, Config, Policy, bad_ip, bad_domain, ok, validate_ips, validate_domains, validate_lists,
  validate_default_action, read_config,
}
use g0efilter.PolicyFile.Entries.{IsClean, kept, validate_entries_iff, Result-cases}

module _ (env : Env) where
  abbrev pub AreClean : AllowList → Type 0
  AreClean l = All (IsClean (validate_ip env)) l.ips × All (IsClean (validate_domain env)) l.domains

  -- `Read` accepts the configuration.
  abbrev pub IsReadable : Config → Type 0
  IsReadable cfg = (pol : Policy) × (read_config env cfg ≡ ok pol)

  -- What it checks.
  unfoldable pub IsGood : Config → Type 0
  IsGood cfg =
      ((a : Bytes) × (validate_default_action cfg.default_action ≡ ok a))
      × AreClean cfg.allow_list
      × AreClean cfg.deny_list

  lists_clean :
      (l : AllowList) {r : List Bytes × List Bytes} → validate_lists env l ≡ ok r → AreClean l
  unfolding validate_lists validate_ips validate_domains
  lists_clean l e = elim (Result-cases (validate_ips env l.ips)) [
    | inl (x, p) ↦ absurd (ground (arith, e, p))
    | inr (xs, p) ↦ elim (Result-cases (validate_domains env l.domains)) [
      | inl (x, q) ↦ absurd (ground (arith, e, p, q))
      | inr (ys, q) ↦ (
        ((validate_entries_iff (validate_ip env) bad_ip l.ips xs).0 p).0,
        ((validate_entries_iff (validate_domain env) bad_domain l.domains ys).0 q).0,
      )
    ]
  ]

  clean_lists :
      (l : AllowList) → AreClean l → validate_lists env l ≡ ok (kept l.ips, kept l.domains)
  unfolding validate_lists validate_ips validate_domains
  clean_lists l h =
      let a = (validate_entries_iff (validate_ip env) bad_ip l.ips (kept l.ips)).1 (h.0, refl) in
      let b =
        (validate_entries_iff (validate_domain env) bad_domain l.domains (kept l.domains)).1
          (h.1, refl) in
      rw (a, b) refl

  pub IsGood-readable : (cfg : Config) → IsReadable cfg → IsGood cfg
  unfolding IsGood read_config
  IsGood-readable cfg (pol, e) = elim (Result-cases (validate_default_action cfg.default_action)) [
    | inl (x, p) ↦ absurd (ground (arith, e, p))
    | inr (a, p) ↦ elim (Result-cases (validate_lists env cfg.allow_list)) [
      | inl (x, q) ↦ absurd (ground (arith, e, p, q))
      | inr (xs, q) ↦ elim (Result-cases (validate_lists env cfg.deny_list)) [
        | inl (x, r) ↦ absurd (ground (arith, e, p, q, r))
        | inr (ys, r) ↦ ((a, p), lists_clean cfg.allow_list q, lists_clean cfg.deny_list r)
      ]
    ]
  ]

  pub IsReadable-good : (cfg : Config) → IsGood cfg → IsReadable cfg
  unfolding IsGood read_config
  IsReadable-good cfg ((a, p), h, k) =
      rw (p, clean_lists cfg.allow_list h, clean_lists cfg.deny_list k) (_, refl)
