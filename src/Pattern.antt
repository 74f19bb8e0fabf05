-- ===== src/Pattern.antt =====
-- internal/policy/policy.go: the domain patterns of a policy, `IsRegexPattern`,
-- `CompileDomainPattern`, `CompileWildcardPattern` and what they call. Of the package `regexp` the
-- wildcard compiler uses expressions of one shape, `\A(?i:c0.+c1.+...)\z` with literal chunks: its
-- compiled form is the list of the chunks, and `wildcard_match` is the meaning of the expression. A
-- user's expression is compiled by an engine that is a parameter. `none` is an error.
pub mod Wildcard
use g0efilter.Prelude.{
  ℕ, ◌+◌, ◌-◌, ◌*◌, ◌/◌, Bool, true, false, not, ◌&&◌, ◌||◌, Option, none, some, List, [], ◌∷◌,
  ◌++◌, map, ltb, ◌==◌, if◌then◌else◌, length, take, drop, all,
}
use g0efilter.Text.{
  Bytes, codes, within, equal, is_empty, has_prefix, has_suffix, contains, to_lower, lower, split,
}

abbrev pub max_domain_length : ℕ
max_domain_length = 253

abbrev pub max_regex_length : ℕ
max_regex_length = 1024

-- What the program takes from outside: `regexp.Compile` with the method `MatchString`,
-- `idna.Lookup.ToASCII`, `net.ParseIP` and `net.ParseCIDR` (whether they accept), and the table
-- behind `unicode.IsUpper` for the runes from 128 on.
pub record Env : Type 0 where
  pub regexp_compile : Bytes → Option (Bytes → Bool)
  pub to_ascii : Bytes → Option Bytes
  pub parse_ip : Bytes → Bool
  pub parse_cidr : Bytes → Bool
  pub is_upper : ℕ → Bool

-- `IsRegexPattern`
unfoldable pub is_regex_pattern : Bytes → Bool
is_regex_pattern s = ltb 2 (length s) && has_prefix (codes "/") s && has_suffix (codes "/") s

-- `CompileDomainPattern`; `inner` is `pattern[1 : len(pattern)-1]`.
unfoldable pub compile_domain_pattern : Env → Bytes → Option (Bytes → Bool)
unfolding is_regex_pattern
compile_domain_pattern env pattern =
    let inner = take (length pattern - 2) (drop 1 pattern) in
    if not (is_regex_pattern pattern)
    then none
    else if ltb max_regex_length (length inner)
    then none
    else env.regexp_compile (codes "\\A(?i:" ++ (inner ++ codes ")\\z"))

-- `validateWildcardStructure`: no error.
unfoldable pub validate_wildcard_structure : Bytes → Bool
validate_wildcard_structure pattern =
    if not (contains (codes "*") pattern) || equal pattern (codes "*")
    then false
    else if ltb max_domain_length (length pattern)
    then false
    else if contains (codes "**") pattern
    then false
    else if contains (codes "..") pattern
        || has_prefix (codes ".") pattern
        || has_suffix (codes ".") pattern
    then false
    else if not (contains (codes ".") pattern)
    then false
    else true

-- `isValidWildcardChunk`
unfoldable pub is_valid_wildcard_chunk : Bytes → Bool
is_valid_wildcard_chunk chunk =
    all
      (λ r.
        within b'a' b'z' r || within b'A' b'Z' r || within b'0' b'9' r || r == b'.' || r == b'-')
      chunk

-- `CompileWildcardPattern`: the chunks between the stars, in lower case.
unfoldable pub compile_wildcard_pattern : Bytes → Option (List Bytes)
unfolding validate_wildcard_structure
compile_wildcard_pattern pattern =
    let parts = split b'*' pattern in
    if not (validate_wildcard_structure pattern)
    then none
    else if not (all is_valid_wildcard_chunk parts)
    then none
    else some (map to_lower parts)

-- A literal under `(?i:)` at the front of a text.
abbrev pub fold_prefix : Bytes → Bytes → Bool
fold_prefix [] s = true
fold_prefix (c ∷ cs) [] = false
fold_prefix (c ∷ cs) (x ∷ xs) = lower c == lower x && fold_prefix cs xs

-- `.+` in front of an expression: one byte or more that is no newline.
abbrev pub plus : (Bytes → Bool) → Bytes → Bool
plus k [] = false
plus k (x ∷ xs) = not (x == 10) && (k xs || plus k xs)

-- `\A(?i:c0.+c1.+...)\z` on a text.
unfoldable pub wildcard_match : List Bytes → Bytes → Bool
wildcard_match [] s = is_empty s
wildcard_match (c ∷ []) s = fold_prefix c s && is_empty (drop (length c) s)
wildcard_match (c ∷ d ∷ cs) s =
    fold_prefix c s && plus (wildcard_match (d ∷ cs)) (drop (length c) s)
