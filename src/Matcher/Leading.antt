-- ===== src/Matcher/Leading.antt =====
-- Patterns of the form `*.d`, which `matchPattern` decides without an expression.
use g0efilter.Prelude.{
  ◌+◌, ◌-◌, ◌≤◌, ◌≡◌, refl, sym, ap, ◌∙◌, ◌↔◌, true, false, ◌&&◌, [], ◌∷◌, ◌++◌, arith, ltb, leb,
  length, take, drop, length-append, take-append-drop,
}
use g0efilter.Text.{Bytes, codes, has_suffix, contains}
use g0efilter.Text.Laws.{equal_iff, equal_refl}
use g0efilter.Pattern.{Env, is_regex_pattern}
use g0efilter.Matcher.{Cache, match_pattern}

drop_append : (x t : Bytes) → drop (length x) (x ++ t) ≡ t
drop_append [] t = refl
drop_append (c ∷ x) t = drop_append x t

has_suffix_sound : (t s : Bytes) → has_suffix t s ≡ true → s ≡ take (length s - length t) s ++ t
unfolding has_suffix
has_suffix_sound t s h =
    let e : drop (length s - length t) s ≡ t =
      (equal_iff (drop (length s - length t) s) t).0 (ground arith) in
    sym (take-append-drop (length s - length t) s) ∙ ap (λ r. take (length s - length t) s ++ r) e

has_suffix_complete : (t x : Bytes) → has_suffix t (x ++ t) ≡ true
unfolding has_suffix
has_suffix_complete t x =
    let n : length (x ++ t) - length t ≡ length x = omega (arith, length-append x t) in
    let e = drop_append x t in
    let fits : leb (length t) (length (x ++ t)) ≡ true = ground (arith, length-append x t) in
    rw (fits, n, e) (equal_refl t)

match_pattern_leading :
    (env : Env) (host d : Bytes) (cache : Cache)
    → contains (codes "*") d ≡ false
    → (match_pattern env host (codes "*." ++ d) cache).0
      ≡ (has_suffix (b'.' ∷ d) host && ltb (length (b'.' ∷ d)) (length host))
unfolding match_pattern is_regex_pattern
match_pattern_leading env host d cache e = ground (arith, e)

suffix_iff :
    (t s : Bytes)
    → ((has_suffix t s && ltb (length t) (length s)) ≡ true)
      ↔ ((x : Bytes) × (1 ≤ length x) × (s ≡ x ++ t))
suffix_iff t s = (
  λ h.
      let e = has_suffix_sound t s (ground (arith, h)) in
      let x : Bytes = take (length s - length t) s in
      let n : length s ≡ length x + length t = ap length e ∙ length-append x t in
      (x, ground (arith, n, h), e),
  λ k.
      let (x, n, e) = k in
      let m : length s ≡ length x + length t = ap length e ∙ length-append x t in
      let p : has_suffix t s ≡ true = rw e (has_suffix_complete t x) in ground (arith, p, m, n),
)

-- Whatever the cache holds, a pattern `*.d` whose rest has no star matches a host exactly when the
-- host is one byte or more followed by `.d`: every name below `d` matches, and `d` does not.
pub match_pattern_leading_iff :
    (env : Env) (host d : Bytes) (cache : Cache)
    → contains (codes "*") d ≡ false
    → ((match_pattern env host (codes "*." ++ d) cache).0 ≡ true)
      ↔ ((x : Bytes) × (1 ≤ length x) × (host ≡ x ++ (b'.' ∷ d)))
match_pattern_leading_iff env host d cache e =
    rw (match_pattern_leading env host d cache e) (suffix_iff (b'.' ∷ d) host)
