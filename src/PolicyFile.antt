-- ===== src/PolicyFile.antt =====
-- internal/policy/policy.go: the policy file and the environment, `Read` and what it calls, and the
-- functions that append to the file. The package `yaml` is a parameter. A write that fails may leave any
-- contents behind. An error is its kind. Log lines are left out.
pub mod Entries
pub mod Readable
pub mod Append
pub mod Read
use g0efilter.Prelude.{
  ℕ, zero, suc, ◌+◌, ◌-◌, ◌*◌, ◌/◌, ◌%◌, ◌^◌, ◌≤◌, ◌<◌, ◌≡◌, refl, sym, ap, ◌∙◌, ◌≢◌, ◌↔◌, ◌⊎◌, inl,
  inr, Bool, true, false, not, ◌&&◌, ◌||◌, Option, none, some, List, [], ◌∷◌, ◌++◌, map, arith, ltb,
  leb, ◌==◌, if◌then◌else◌, ltb→lt, lt→ltb, leb→le, ==_iff, tests, Bool-cases, Option-cases, length,
  get_elem?, get_or, replicate, length-append, length-set, get_elem?-set_self, get_elem?-set_ne,
  take-append-drop, length-take, length-drop, length-replicate, length-map, All, Any, Has, all,
  all_iff, All-of_all, all_of_All, All-append, All-mono, dec_lt, ℕ_discrete, filter, take_whole,
  length-take_bound,
}
use g0efilter.Text.{Bytes, codes, equal, is_empty, to_lower, trim_space, split}
use g0efilter.Pattern.{Env}
use g0efilter.Entry.{EntryError, empty, validate_ip, validate_domain}

-- `AllowList`
pub record AllowList : Type 0 where
  pub ips : List Bytes
  pub domains : List Bytes

-- `Config`
pub record Config : Type 0 where
  pub default_action : Bytes
  pub allow_list : AllowList
  pub deny_list : AllowList

-- `Policy`
pub record Policy : Type 0 where
  pub default_action : Bytes
  pub allow_ips : List Bytes
  pub allow_domains : List Bytes
  pub deny_ips : List Bytes
  pub deny_domains : List Bytes

pub data PolicyError : Type 0 where
  bad_ip bad_domain : EntryError → PolicyError
  bad_default_action load_failed marshal_failed write_failed : PolicyError

pub data Result (A : Type 0) : Type 0 where
  ok : A → Result A
  error : PolicyError → Result A

infixl 5 ◌>>=◌
abbrev pub ◌>>=◌ : {A B : Type 0} → Result A → (A → Result B) → Result B
ok a >>= f = f a
error e >>= f = error e

abbrev pub cons_ok : Bytes → Result (List Bytes) → Result (List Bytes)
cons_ok x (ok xs) = ok (x ∷ xs)
cons_ok x (error e) = error e

-- The loop of `validateIPs` and of `validateDomains`, with the check and its error.
unfoldable pub validate_entries :
    (Bytes → Option EntryError) → (EntryError → PolicyError) → List Bytes → Result (List Bytes)
validate_entries check fail [] = ok []
validate_entries check fail (raw ∷ entries) =
    let rest = validate_entries check fail entries in
    let entry = trim_space raw in
    if is_empty entry
    then rest
    else elim (check entry) [ some e ↦ error (fail e) | none ↦ cons_ok entry rest ]

-- `validateIPs`
unfoldable pub validate_ips : Env → List Bytes → Result (List Bytes)
unfolding validate_entries
validate_ips env = validate_entries (validate_ip env) bad_ip

-- `validateDomains`
unfoldable pub validate_domains : Env → List Bytes → Result (List Bytes)
unfolding validate_entries
validate_domains env = validate_entries (validate_domain env) bad_domain

-- `validateLists`; an empty list is the nil slice.
unfoldable pub validate_lists : Env → AllowList → Result (List Bytes × List Bytes)
unfolding validate_ips validate_domains
validate_lists env l = do
  ips ← validate_ips env l.ips
  domains ← validate_domains env l.domains
  ok (ips, domains)

-- `validateDefaultAction`
unfoldable pub validate_default_action : Bytes → Result Bytes
validate_default_action raw =
    let action = to_lower (trim_space raw) in
    if is_empty action || equal action (codes "deny") || equal action (codes "allow")
    then ok action
    else error bad_default_action

abbrev nonempty : List Bytes → List Bytes
nonempty = filter (λ s. not (is_empty s))

-- `parseCommaSeparated`
unfoldable pub parse_comma_separated : Bytes → List Bytes
parse_comma_separated input =
    if is_empty input then [] else nonempty (map trim_space (split b',' input))

-- The part of `Read` behind `loadConfig`.
unfoldable pub read_config : Env → Config → Result Policy
unfolding validate_lists validate_default_action
read_config env cfg = do
  action ← validate_default_action cfg.default_action
  allow ← validate_lists env cfg.allow_list
  deny ← validate_lists env cfg.deny_list
  ok (record {
    default_action = action;
    allow_ips = allow.0;
    allow_domains = allow.1;
    deny_ips = deny.0;
    deny_domains = deny.1;
  })

-- The texts of `ALLOWLIST_IPS`, `ALLOWLIST_DOMAINS`, `DENYLIST_IPS` and `DENYLIST_DOMAINS`.
pub record Environment : Type 0 where
  pub allow_ips : Bytes
  pub allow_domains : Bytes
  pub deny_ips : Bytes
  pub deny_domains : Bytes

-- `loadFromEnv`
unfoldable pub load_from_env : Env → Environment → Result Policy
unfolding parse_comma_separated validate_lists
load_from_env env vars = do
  allow ← validate_lists env (record {
    ips = parse_comma_separated vars.allow_ips;
    domains = parse_comma_separated vars.allow_domains;
  })
  deny ← validate_lists env (record {
    ips = parse_comma_separated vars.deny_ips;
    domains = parse_comma_separated vars.deny_domains;
  })
  ok (record {
    default_action = [];
    allow_ips = allow.0;
    allow_domains = allow.1;
    deny_ips = deny.0;
    deny_domains = deny.1;
  })

-- `yaml.Unmarshal` and `yaml.Marshal` on a configuration.
pub record Yaml : Type 1 where
  pub Document : Type 0
  pub unmarshal : Document → Option Config
  pub marshal : Config → Option Document

-- A configuration that was written is read back.
abbrev pub RoundTrips : Yaml → Type 0
RoundTrips yaml =
    (cfg : Config) (text : yaml.Document)
    → yaml.marshal cfg ≡ some text
    → yaml.unmarshal text ≡ some cfg

-- What `os.WriteFile` does: it writes the text, or fails and leaves anything, such as the old text, a part
-- of the new one, or nothing that can be read.
pub data Write (D : Type 0) : Type 0 where
  succeeds : Write D
  fails : Option D → Write D

-- The path of the policy: its text, where it is a regular file that can be read, and what the next
-- writes will do; those behind the list succeed.
pub record PolicyFile (yaml : Yaml) : Type 0 where
  pub content : Option yaml.Document
  pub writes : List (Write yaml.Document)

-- `loadConfig`
unfoldable pub load_config : (yaml : Yaml) → PolicyFile yaml → Result Config
load_config yaml file = elim file.content [
  | none ↦ error load_failed
  | some text ↦ elim (yaml.unmarshal text) [ none ↦ error load_failed | some cfg ↦ ok cfg ]
]

abbrev pub trimmed : Environment → Environment
trimmed vars = record {
  allow_ips = trim_space vars.allow_ips;
  allow_domains = trim_space vars.allow_domains;
  deny_ips = trim_space vars.deny_ips;
  deny_domains = trim_space vars.deny_domains;
}

abbrev pub is_set : Environment → Bool
is_set vars =
    not (is_empty vars.allow_ips)
    || not (is_empty vars.allow_domains)
    || not (is_empty vars.deny_ips)
    || not (is_empty vars.deny_domains)

-- `Read`
unfoldable pub read : (yaml : Yaml) → Env → Environment → PolicyFile yaml → Result Policy
unfolding load_from_env load_config read_config
read yaml env vars file =
    if is_set (trimmed vars)
    then load_from_env env (trimmed vars)
    else (load_config yaml file >>= read_config env)

-- `ReadPolicy`
unfoldable pub read_policy :
    (yaml : Yaml) → Env → Environment → PolicyFile yaml → Result (List Bytes × List Bytes)
unfolding read
read_policy yaml env vars file = do
  pol ← read yaml env vars file
  ok (pol.allow_ips, pol.allow_domains)

-- `strings.EqualFold` on ASCII.
abbrev pub equal_fold : Bytes → Bytes → Bool
equal_fold s t = equal (to_lower s) (to_lower t)

abbrev pub any_is : (Bytes → Bytes → Bool) → Bytes → List Bytes → Bool
any_is same value [] = false
any_is same value (e ∷ es) = same e value || any_is same value es

-- The fields that the callers of `appendToAllowlist` pass.
pub data Field : Type 0 where
  domains_field ips_field : Field

-- The check for duplicates.
unfoldable pub is_listed : Field → Bytes → AllowList → Bool
is_listed domains_field value l = any_is equal_fold value l.domains
is_listed ips_field value l = any_is equal value l.ips

unfoldable pub extended : Field → Bytes → AllowList → AllowList
extended domains_field value l = record l { domains = l.domains ++ (value ∷ []) }
extended ips_field value l = record l { ips = l.ips ++ (value ∷ []) }

module _ (yaml : Yaml) where
  -- `os.WriteFile`: the error, and the file afterwards.
  unfoldable pub write_file :
      List (Write yaml.Document) → yaml.Document → Option PolicyError × PolicyFile yaml
  write_file [] text = (none, record { content = some text; writes = [] })
  write_file (succeeds ∷ writes) text = (none, record { content = some text; writes = writes })
  write_file (fails left ∷ writes) text =
      (some write_failed, record { content = left; writes = writes })

  -- The end of `appendToAllowlist`: the error, and the file afterwards.
  unfoldable pub write_back : PolicyFile yaml → Config → Option PolicyError × PolicyFile yaml
  unfolding write_file
  write_back file cfg = elim (yaml.marshal cfg) [
    | none ↦ (some marshal_failed, file)
    | some text ↦ write_file file.writes text
  ]

  -- `appendToAllowlist`
  unfoldable pub append_to_allowlist :
      PolicyFile yaml → Field → Bytes → Option PolicyError × PolicyFile yaml
  unfolding load_config is_listed extended write_back
  append_to_allowlist file field value = elim (load_config yaml file) [
    | error e ↦ (some e, file)
    | ok cfg ↦
        if is_listed field value cfg.allow_list
        then (none, file)
        else write_back file (record cfg { allow_list = extended field value cfg.allow_list })
  ]

  -- `AppendDomain`
  unfoldable pub append_domain :
      Env → PolicyFile yaml → Bytes → Option PolicyError × PolicyFile yaml
  unfolding append_to_allowlist
  append_domain env file raw =
      let domain = trim_space raw in
      if is_empty domain
      then (some (bad_domain empty), file)
      else elim (validate_domain env domain) [
        | some e ↦ (some (bad_domain e), file)
        | none ↦ append_to_allowlist file domains_field domain
      ]

  -- `AppendIP`
  unfoldable pub append_ip : Env → PolicyFile yaml → Bytes → Option PolicyError × PolicyFile yaml
  unfolding append_to_allowlist
  append_ip env file raw =
      let ip = trim_space raw in
      if is_empty ip then (some (bad_ip empty), file) else elim (validate_ip env ip) [
        | some e ↦ (some (bad_ip e), file)
        | none ↦ append_to_allowlist file ips_field ip
      ]
