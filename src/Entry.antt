-- ===== src/Entry.antt =====
-- internal/policy/policy.go: the checks of a policy file's entries, `validateIP`, `validateDomain`
-- and what they call. An error is its kind, without the entry that its text quotes; `none` is nil.
pub mod Literal
use g0efilter.Prelude.{
  ℕ, ◌+◌, ◌-◌, ◌*◌, ◌/◌, ◌%◌, Bool, not, ◌&&◌, ◌||◌, Option, none, some, List, [], ◌∷◌, ltb, leb,
  ◌==◌, if◌then◌else◌, length, get_or, drop, all,
}
use g0efilter.Text.{
  Bytes, codes, equal, is_empty, within, has_prefix, has_suffix, contains, trim_suffix, trim_space,
  to_lower, split,
}
use g0efilter.Text.Runes.{runes}
use g0efilter.Pattern.{
  Env, max_domain_length, is_regex_pattern, compile_domain_pattern, compile_wildcard_pattern,
}

pub data EntryError : Type 0 where
  empty contains_port scoped_address bad_range bad_ip : EntryError
  bad_domain bad_pattern ip_literal too_long bad_dots no_dot : EntryError
  label_length label_chars hyphen_position numeric_tld : EntryError

-- `strings.Count(s, ":")`
abbrev pub count_colons : Bytes → ℕ
count_colons [] = 0
count_colons (c ∷ s) = if c == b':' then 1 + count_colons s else count_colons s

-- `validateIP`
unfoldable pub validate_ip : Env → Bytes → Option EntryError
validate_ip env entry =
    let ip = trim_space entry in
    if is_empty ip
    then some empty
    else if has_prefix (codes "[") ip
    then some contains_port
    else if contains (codes "%") ip
    then some scoped_address
    else if count_colons ip == 1 && contains (codes ".") ip
    then some contains_port
    else if contains (codes "/") ip
    then (if env.parse_cidr ip then none else some bad_range)
    else if env.parse_ip ip
    then none
    else some bad_ip

-- `isAllDigits`
unfoldable pub is_all_digits : Bytes → Bool
is_all_digits = all (within b'0' b'9')

-- `unicode.IsUpper`
abbrev pub is_upper : Env → ℕ → Bool
is_upper env r = if ltb r 128 then within b'A' b'Z' r else env.is_upper r

-- `validateLabelChars`: no error.
unfoldable pub validate_label_chars : Env → Bytes → Bool
validate_label_chars env label =
    all (λ r. within b'a' b'z' r || within b'0' b'9' r || r == b'-' || is_upper env r) (runes label)

-- The body of the loop of `validateDomainLabels`; the two tests on the lower-case label see the same
-- hyphens and digits when only the ASCII letters are folded.
unfoldable pub validate_label : Env → Bytes → Bool → Option EntryError
validate_label env label is_last =
    let lowered = to_lower label in
    if ltb (length label) 1 || ltb 63 (length label)
    then some label_length
    else if not (validate_label_chars env label)
    then some label_chars
    else if get_or lowered 0 0 == b'-' || get_or lowered (length lowered - 1) 0 == b'-'
    then some hyphen_position
    else if is_last && is_all_digits lowered
    then some numeric_tld
    else none

-- The loop of `validateDomainLabels`.
unfoldable pub validate_labels : Env → List Bytes → Option EntryError
validate_labels env [] = none
validate_labels env (l ∷ ls) =
    let rest = validate_labels env ls in
    elim (validate_label env l (leb (length ls) 0)) [ some e ↦ some e | none ↦ rest ]

-- `validateDomainLabels`
unfoldable pub validate_domain_labels : Env → Bytes → Option EntryError
validate_domain_labels env ascii = validate_labels env (split b'.' ascii)

-- `domainToASCII`, without its result.
unfoldable pub domain_to_ascii : Env → Bytes → Option EntryError
domain_to_ascii env ascii =
    if is_empty ascii
    then some bad_domain
    else if env.parse_ip ascii
    then some ip_literal
    else if ltb max_domain_length (length ascii)
    then some too_long
    else if has_prefix (codes ".") ascii
        || has_suffix (codes ".") ascii
        || contains (codes "..") ascii
    then some bad_dots
    else if not (contains (codes ".") ascii)
    then some no_dot
    else none

-- `validateDomain` on a name without stars.
unfoldable pub validate_literal : Env → Bytes → Option EntryError
unfolding domain_to_ascii validate_domain_labels
validate_literal env domain = elim (env.to_ascii (trim_suffix (codes ".") domain)) [
  | none ↦ some bad_domain
  | some ascii ↦ elim (domain_to_ascii env ascii) [
    | some e ↦ some e
    | none ↦ validate_domain_labels env ascii
  ]
]

abbrev pub compiled : {A : Type 0} → Option A → Option EntryError
compiled none = some bad_pattern
compiled (some re) = none

-- `validateDomain`
unfoldable pub validate_domain : Env → Bytes → Option EntryError
unfolding validate_literal
validate_domain env entry =
    let domain = trim_space entry in
    let after = drop 2 domain in
    if is_empty domain
    then some empty
    else if equal domain (codes "*")
    then none
    else if is_regex_pattern domain
    then compiled (compile_domain_pattern env domain)
    else if has_prefix (codes "*.") domain && not (contains (codes "*") after)
    then (if is_empty after then some bad_domain else validate_literal env after)
    else if contains (codes "*") domain
    then compiled (compile_wildcard_pattern (trim_suffix (codes ".") domain))
    else validate_literal env domain
