-- ===== src/Matcher/Listed.antt =====
-- `hostMatcher` holds a list of patterns: the split into exact names and patterns loses nothing.
use g0efilter.Prelude.{
  ◌≡◌, refl, ◌∙◌, inl, inr, Bool, true, false, ◌||◌, List, [], ◌∷◌, ◌++◌, map, arith, if◌then◌else◌,
  Bool-cases,
}
use g0efilter.Text.Laws.{equal-sym}
use g0efilter.Text.{Bytes, codes, equal, has_prefix, contains}
use g0efilter.Assoc.{lookup, insert}
use g0efilter.Assoc.Laws.{lookup-insert}
use g0efilter.Pattern.{Env, is_regex_pattern}
use g0efilter.Matcher.{
  Cache, normalize_domain, HostMatcher, add_pattern, add_patterns, new_matcher, is_some, allows,
}
use g0efilter.Matcher.Cached.{
  covers, any_covers, listed, IsCoherent, IsRight, if_IsRight, scan_patterns_lem, if_or,
}

-- What a matcher holds.
abbrev hit : Env → HostMatcher → Bytes → Bool
hit env m h = is_some (lookup h m.exact) || any_covers env h m.patterns

any_covers-append :
    (env : Env) (h : Bytes) (ps qs : List Bytes)
    → any_covers env h (ps ++ qs) ≡ (any_covers env h ps || any_covers env h qs)
any_covers-append env h [] qs = refl
any_covers-append env h (p ∷ ps) qs = ground (arith, any_covers-append env h ps qs)

leading_star : (p : Bytes) → has_prefix (codes "*.") p ≡ true → contains (codes "*") p ≡ true
unfolding contains
leading_star [] h = absurd (ground arith)
leading_star (x ∷ p) h = ground arith

only_star : (p : Bytes) → equal p (codes "*") ≡ true → contains (codes "*") p ≡ true
unfolding contains
only_star [] h = absurd (ground arith)
only_star (x ∷ p) h = ground arith

-- An exact name covers itself only.
covers_exact :
    (env : Env) (h p : Bytes)
    → (contains (codes "*") p || is_regex_pattern p) ≡ false
    → covers env h p ≡ equal p h
unfolding covers
covers_exact env h p e =
    let star = only_star p in
    let leading = leading_star p in let flip = equal-sym p h in ground (arith, star, leading, flip)

is_some-insert :
    (p h : Bytes) (m : List (Bytes × Unit))
    → is_some (lookup h (insert p tt m)) ≡ (equal p h || is_some (lookup h m))
is_some-insert p h m = rw (lookup-insert p h tt m) (ground arith)

hit-add_pattern :
    (env : Env) (m : HostMatcher) (h p : Bytes)
    → hit env (add_pattern env m p) h ≡ (hit env m h || covers env h (normalize_domain env p))
unfolding add_pattern
hit-add_pattern env m h p =
    let q = normalize_domain env p in
    elim (Bool-cases (contains (codes "*") q || is_regex_pattern q)) [
      | inl pattern ↦ ground (arith, any_covers-append env h m.patterns (q ∷ []), pattern)
      | inr exact ↦ ground (arith, is_some-insert q h m.exact, covers_exact env h q exact, exact)
    ]

hit-add_patterns :
    (env : Env) (m : HostMatcher) (h : Bytes) (ps : List Bytes)
    → hit env (add_patterns env m ps) h
      ≡ (hit env m h || any_covers env h (map (normalize_domain env) ps))
unfolding add_patterns
hit-add_patterns env m h [] = ground arith
hit-add_patterns env m h (p ∷ ps) =
    let rest = hit-add_patterns env (add_pattern env m p) h ps in
    let first = hit-add_pattern env m h p in ground (arith, rest, first)

-- Whatever a coherent cache holds, the matcher built from a list of patterns accepts a host exactly
-- when some pattern of the list covers it, both normalized, and the cache stays coherent.
pub allows-new_matcher :
    (env : Env) (patterns : List Bytes) (host : Bytes) (cache : Cache)
    → IsCoherent env cache
    → ((allows env (new_matcher env patterns) host cache).0 ≡ listed env patterns host)
      × IsCoherent env (allows env (new_matcher env patterns) host cache).1
unfolding allows new_matcher listed lookup
allows-new_matcher env patterns host cache ok =
    let m = new_matcher env patterns in
    let h = normalize_domain env host in
    let held = hit-add_patterns env (record { exact = []; patterns = [] }) h patterns in
    let both : IsRight env
        (if is_some (lookup h m.exact) then true else any_covers env h m.patterns)
        (allows env m host cache) =
      if_IsRight env (is_some (lookup h m.exact)) _ _ _ _ (λ _. (refl, ok))
        (λ _. scan_patterns_lem env h m.patterns cache ok) in
    (both.0 ∙ if_or (is_some (lookup h m.exact)) (any_covers env h m.patterns) ∙ held, both.1)
