-- ===== src/Matcher/Cached.antt =====
-- The host matcher against a plain search: no cache, no split into exact names and patterns.
use g0efilter.Prelude.{
  ◌≡◌, refl, sym, ap, ◌∙◌, inl, inr, Bool, true, false, not, ◌&&◌, ◌||◌, Option, none, some, List,
  [], ◌∷◌, map, ltb, if◌then◌else◌, Bool-cases, length, drop,
}
use g0efilter.Text.{Bytes, codes, equal, has_prefix, has_suffix, contains}
use g0efilter.Text.Laws.{equal_iff}
use g0efilter.Assoc.{lookup, insert}
use g0efilter.Assoc.Laws.{lookup-insert}
use g0efilter.Pattern.{Env, is_regex_pattern, compile_domain_pattern}
use g0efilter.Matcher.{
  Compiled, Cache, normalize_domain, compile_wildcard, cached_compile, accepts, match_pattern,
  scan_patterns,
}

-- What a pattern compiles to.
unfoldable pub compile_pattern : Env → Bytes → Option Compiled
compile_pattern env p =
    if is_regex_pattern p then compile_domain_pattern env p else compile_wildcard p

-- The cache holds what its keys compile to.
unfoldable pub IsCoherent : Env → Cache → Type 0
IsCoherent env cache =
    (p : Bytes) (re : Option Compiled) → lookup p cache ≡ some re → re ≡ compile_pattern env p

-- Whether a normalized pattern covers a normalized host.
unfoldable pub covers : Env → Bytes → Bytes → Bool
covers env host p =
    if equal p (codes "*")
    then true
    else if is_regex_pattern p
    then accepts (compile_domain_pattern env p) host
    else if has_prefix (codes "*.") p && not (contains (codes "*") (drop 2 p))
    then has_suffix (drop 1 p) host && ltb (length (drop 1 p)) (length host)
    else if contains (codes "*") p
    then accepts (compile_wildcard p) host
    else equal host p

abbrev pub any_covers : Env → Bytes → List Bytes → Bool
any_covers env host [] = false
any_covers env host (p ∷ ps) = covers env host p || any_covers env host ps

-- Some pattern of a list, normalized, covers the normalized host.
unfoldable pub listed : Env → List Bytes → Bytes → Bool
listed env patterns host =
    any_covers env (normalize_domain env host) (map (normalize_domain env) patterns)

-- The right answer, and a cache that is still coherent.
abbrev pub IsRight : Env → Bool → Bool × Cache → Type 0
IsRight env b r = (r.0 ≡ b) × IsCoherent env r.1

pub if_IsRight :
    (env : Env) (t a b : Bool) (q r : Bool × Cache)
    → (t ≡ true → IsRight env a q)
    → (t ≡ false → IsRight env b r)
    → IsRight env (if t then a else b) (if t then q else r)
if_IsRight env true a b q r on_true on_false = on_true refl
if_IsRight env false a b q r on_true on_false = on_false refl

some_inj : (x y : Option Compiled) → some x ≡ some y → x ≡ y
some_inj x y h = ap (λ o. elim o [ none ↦ x | some z ↦ z ]) h

IsCoherent-insert :
    (env : Env) (p : Bytes) (r : Option Compiled) (cache : Cache)
    → IsCoherent env cache
    → r ≡ compile_pattern env p
    → IsCoherent env (insert p r cache)
unfolding IsCoherent
IsCoherent-insert env p r cache ok e q re h = elim (Bool-cases (equal p q)) [
  | inl same ↦
      let held : some r ≡ some re = rw same at (sym (lookup-insert p q r cache) ∙ h) in
      let names : p ≡ q = (equal_iff p q).0 same in rw (← names, ← e) (some_inj re r (sym held))
  | inr other ↦
      let held : lookup q cache ≡ some re = rw other at (sym (lookup-insert p q r cache) ∙ h) in
      ok q re held
]

IsCoherent-lookup :
    (env : Env) (cache : Cache) (p : Bytes) (re : Option Compiled)
    → IsCoherent env cache
    → lookup p cache ≡ some re
    → re ≡ compile_pattern env p
unfolding IsCoherent
IsCoherent-lookup env cache p re ok = ok p re

cached_cases :
    (env : Env) (compile : Bytes → Option Compiled) (p : Bytes) (cache : Cache)
    → IsCoherent env cache
    → compile p ≡ compile_pattern env p
    → (o : Option (Option Compiled)) → lookup p cache ≡ o
    → ((cached_compile compile p cache).0 ≡ compile p)
      × IsCoherent env (cached_compile compile p cache).1
unfolding cached_compile
cached_cases env compile p cache ok e none h =
    rw (h, cached_compile) (refl, IsCoherent-insert env p (compile p) cache ok e)
cached_cases env compile p cache ok e (some re) h =
    rw (h, cached_compile) (IsCoherent-lookup env cache p re ok h ∙ sym e, ok)

cached_compile_lem :
    (env : Env) (compile : Bytes → Option Compiled) (p : Bytes) (cache : Cache)
    → IsCoherent env cache
    → compile p ≡ compile_pattern env p
    → ((cached_compile compile p cache).0 ≡ compile p)
      × IsCoherent env (cached_compile compile p cache).1
unfolding cached_compile
cached_compile_lem env compile p cache ok e =
    cached_cases env compile p cache ok e (lookup p cache) refl

match_pattern_lem :
    (env : Env) (host p : Bytes) (cache : Cache)
    → IsCoherent env cache
    → IsRight env (covers env host p) (match_pattern env host p cache)
unfolding match_pattern covers compile_pattern
match_pattern_lem env host p cache ok =
    if_IsRight env (equal p (codes "*")) _ _ _ _ (λ _. (refl, ok))
      (λ _.
        if_IsRight env (is_regex_pattern p) _ _ _ _
          (λ regex.
            let (e, k) =
              cached_compile_lem env (compile_domain_pattern env) p cache ok (rw regex refl) in
            (ap (λ re. accepts re host) e, k))
          (λ plain.
            if_IsRight env (has_prefix (codes "*.") p && not (contains (codes "*") (drop 2 p))) _ _
              _ _ (λ _. (refl, ok))
              (λ _.
                if_IsRight env (contains (codes "*") p) _ _ _ _
                  (λ _.
                    let (e, k) =
                      cached_compile_lem env compile_wildcard p cache ok (rw plain refl) in
                    (ap (λ re. accepts re host) e, k))
                  (λ _. (refl, ok)))))

pub if_or : (a b : Bool) → (if a then true else b) ≡ (a || b)
if_or true b = refl
if_or false b = refl

pub scan_patterns_lem :
    (env : Env) (host : Bytes) (ps : List Bytes) (cache : Cache)
    → IsCoherent env cache
    → IsRight env (any_covers env host ps) (scan_patterns env host ps cache)
unfolding scan_patterns
scan_patterns_lem env host [] cache ok = (refl, ok)
scan_patterns_lem env host (p ∷ ps) cache ok =
    let (e, k) = match_pattern_lem env host p cache ok in
    let rest = scan_patterns_lem env host ps (match_pattern env host p cache).1 k in
    let both : IsRight env
        (if (match_pattern env host p cache).0 then true else any_covers env host ps)
        (scan_patterns env host (p ∷ ps) cache) =
      if_IsRight env (match_pattern env host p cache).0 _ _ _ _ (λ _. (refl, k)) (λ _. rest) in
    (
      both.0
          ∙ ap (λ t. if t then true else any_covers env host ps) e
          ∙ if_or (covers env host p) (any_covers env host ps),
      both.1,
    )
