-- ===== src/Matcher.antt =====
-- internal/filter/common.go, the host matcher: `normalizeDomain`, the cache of compiled patterns,
-- `hostMatcher` and `matchPattern`. The process-wide `regexCache` is a value that every match takes
-- and returns; `none` under a key is a pattern that does not compile.
pub mod Cached
pub mod Listed
pub mod Leading
use g0efilter.Prelude.{
  Bool, true, false, not, ◌&&◌, ◌||◌, Option, none, some, List, [], ◌∷◌, ◌++◌, map, ltb,
  if◌then◌else◌, length, drop,
}
use g0efilter.Text.{
  Bytes, codes, equal, has_prefix, has_suffix, contains, to_lower, trim_suffix, trim_space,
}
use g0efilter.Assoc.{lookup, insert}
use g0efilter.Pattern.{
  Env, is_regex_pattern, compile_domain_pattern, compile_wildcard_pattern, wildcard_match,
}

-- `*regexp.Regexp`, as what it matches.
abbrev pub Compiled : Type 0
Compiled = Bytes → Bool

abbrev pub Cache : Type 0
Cache = List (Bytes × Option Compiled)

-- `normalizeDomain`
unfoldable pub normalize_domain : Env → Bytes → Bytes
unfolding is_regex_pattern
normalize_domain env domain =
    let trimmed = trim_space domain in
    let folded = to_lower (trim_suffix (codes ".") trimmed) in
    if is_regex_pattern trimmed
    then trimmed
    else if equal folded (codes "*")
    then folded
    else elim (env.to_ascii folded) [ none ↦ folded | some ascii ↦ ascii ]

-- `NormalizePatterns`
unfoldable pub normalize_patterns : Env → List Bytes → List Bytes
normalize_patterns env = map (normalize_domain env)

-- `policy.CompileWildcardPattern` as an expression that matches.
unfoldable pub compile_wildcard : Bytes → Option Compiled
compile_wildcard pattern = elim (compile_wildcard_pattern pattern) [
  | none ↦ none
  | some chunks ↦ some (wildcard_match chunks)
]

-- `cachedCompile`
unfoldable pub cached_compile : (Bytes → Option Compiled) → Bytes → Cache → Option Compiled × Cache
cached_compile compile pattern cache = elim (lookup pattern cache) [
  | some re ↦ (re, cache)
  | none ↦ (compile pattern, insert pattern (compile pattern) cache)
]

-- `re != nil && re.MatchString(host)`
abbrev pub accepts : Option Compiled → Bytes → Bool
accepts none host = false
accepts (some re) host = re host

-- `matchPattern`
unfoldable pub match_pattern : Env → Bytes → Bytes → Cache → Bool × Cache
unfolding cached_compile
match_pattern env host pattern cache =
    let suffix = drop 1 pattern in
    let regex = cached_compile (compile_domain_pattern env) pattern cache in
    let wildcard = cached_compile compile_wildcard pattern cache in
    if equal pattern (codes "*")
    then (true, cache)
    else if is_regex_pattern pattern
    then (accepts regex.0 host, regex.1)
    else if has_prefix (codes "*.") pattern && not (contains (codes "*") (drop 2 pattern))
    then (has_suffix suffix host && ltb (length suffix) (length host), cache)
    else if contains (codes "*") pattern
    then (accepts wildcard.0 host, wildcard.1)
    else (equal host pattern, cache)

-- `hostMatcher`; `exact` is a set, a map to the empty struct.
pub record HostMatcher : Type 0 where
  pub exact : List {0} (Bytes × Unit)
  pub patterns : List Bytes

-- The loop body of `newMatcher`.
unfoldable pub add_pattern : Env → HostMatcher → Bytes → HostMatcher
add_pattern env m pattern =
    let p = normalize_domain env pattern in
    if contains (codes "*") p || is_regex_pattern p
    then record { exact = m.exact; patterns = m.patterns ++ (p ∷ []) }
    else record { exact = insert p tt m.exact; patterns = m.patterns }

unfoldable pub add_patterns : Env → HostMatcher → List Bytes → HostMatcher
add_patterns env m [] = m
add_patterns env m (p ∷ ps) = add_patterns env (add_pattern env m p) ps

-- `newMatcher`
unfoldable pub new_matcher : Env → List Bytes → HostMatcher
new_matcher env patterns = add_patterns env (record { exact = []; patterns = [] }) patterns

-- The loop of `allows`, which stops at the first pattern that matches.
unfoldable pub scan_patterns : Env → Bytes → List Bytes → Cache → Bool × Cache
scan_patterns env host [] cache = (false, cache)
scan_patterns env host (p ∷ ps) cache =
    let step = match_pattern env host p cache in
    let rest = scan_patterns env host ps step.1 in if step.0 then (true, step.1) else rest

abbrev pub is_some : {A : Type 0} → Option A → Bool
is_some none = false
is_some (some x) = true

-- `(*hostMatcher).allows`
unfoldable pub allows : Env → HostMatcher → Bytes → Cache → Bool × Cache
allows env m host cache =
    let h = normalize_domain env host in
    if is_some (lookup h m.exact) then (true, cache) else scan_patterns env h m.patterns cache
