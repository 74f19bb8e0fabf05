-- ===== src/Permit/Table.antt =====
-- The decision on a host, as a function of the two lists.
use g0efilter.Prelude.{
  ◌≡◌, refl, ap, ◌∙◌, ◌⊎◌, inl, inr, Bool, true, false, not, ◌&&◌, ◌||◌, none, some, List, [], ◌∷◌,
  arith, if◌then◌else◌,
}
use g0efilter.Text.{Bytes, is_empty}
use g0efilter.Pattern.{Env}
use g0efilter.Matcher.{Cache, new_matcher, allows}
use g0efilter.Matcher.Cached.{listed, IsCoherent, IsRight, if_IsRight}
use g0efilter.Matcher.Listed.{allows-new_matcher}
use g0efilter.Permit.{
  Options, deny_matcher_of, host_permitted_by, Learned, domain, maybe_learn_host_by,
}

-- The policy, by mode: learning passes all; default deny passes a name that the allowlist covers;
-- default allow passes what the allowlist covers and what the denylist does not, and no name at all.
unfoldable pub policy : Env → List Bytes → Options → Bytes → Bool
policy env allowlist opts host =
    opts.learning_mode
    || (not opts.default_allow && not (is_empty host) && listed env allowlist host)
    || (opts.default_allow
        && (is_empty host || listed env allowlist host || not (listed env opts.denylist host)))

-- A matcher that was built beforehand was built from the denylist.
unfoldable pub IsPrepared : Env → Options → Type 0
IsPrepared env opts =
    (opts.deny_matcher ≡ none) ⊎ (opts.deny_matcher ≡ some (new_matcher env opts.denylist))

deny_matcher_of_lem :
    (env : Env) (opts : Options)
    → IsPrepared env opts
    → deny_matcher_of env opts ≡ new_matcher env opts.denylist
unfolding deny_matcher_of IsPrepared
deny_matcher_of_lem env opts (inl e) = rw e refl
deny_matcher_of_lem env opts (inr e) = rw e refl

denied_lem :
    (env : Env) (opts : Options) (host : Bytes) (cache : Cache)
    → IsPrepared env opts
    → IsCoherent env cache
    → IsRight env (listed env opts.denylist host) (allows env (deny_matcher_of env opts) host cache)
denied_lem env opts host cache prepared ok =
    rw (deny_matcher_of_lem env opts prepared) (allows-new_matcher env opts.denylist host cache ok)

-- The policy again, with the order of the tests that the code has.
abbrev decide : Bool → Bool → Bool → Bool → Bool → Bool
decide learning default_allow empty allowed denied =
    if learning
    then true
    else if not default_allow
    then (if empty then false else allowed)
    else if empty
    then true
    else if allowed
    then true
    else not denied

policy-decide :
    (env : Env) (allowlist : List Bytes) (opts : Options) (host : Bytes)
    → decide opts.learning_mode opts.default_allow
        (is_empty host)
        (listed env allowlist host)
        (listed env opts.denylist host)
      ≡ policy env allowlist opts host
unfolding policy
policy-decide env allowlist opts host = ground arith

host_permitted_by-decide :
    (env : Env) (allowlist : List Bytes) (opts : Options) (host : Bytes) (cache : Cache)
    → IsPrepared env opts
    → IsCoherent env cache
    → IsRight env
        (decide opts.learning_mode opts.default_allow
          (is_empty host)
          (listed env allowlist host)
          (listed env opts.denylist host))
        (host_permitted_by env host (new_matcher env allowlist) opts cache)
unfolding host_permitted_by deny_matcher_of
host_permitted_by-decide env allowlist opts host cache prepared ok =
    let allow = allows-new_matcher env allowlist host cache ok in
    let (deny, coherent) =
      denied_lem env opts host (allows env (new_matcher env allowlist) host cache).1 prepared
        allow.1 in
    if_IsRight env opts.learning_mode _ _ _ _ (λ _. (refl, ok))
      (λ _.
        if_IsRight env (not opts.default_allow) _ _ _ _
          (λ _. if_IsRight env (is_empty host) _ _ _ _ (λ _. (refl, ok)) (λ _. allow))
          (λ _.
            if_IsRight env (is_empty host) _ _ _ _ (λ _. (refl, ok))
              (λ _.
                let m = allows env (new_matcher env allowlist) host cache in
                let last =
                  if_IsRight env m.0 true (not (listed env opts.denylist host)) (true, m.1) _
                    (λ _. (refl, allow.1)) (λ _. (ap not deny, coherent)) in
                (
                  last.0
                      ∙ ap (λ t. if t then true else not (listed env opts.denylist host)) allow.0,
                  last.1,
                ))))

-- With the allowlist's matcher, a denylist matcher that is absent or built from the denylist, and a
-- coherent cache, the decision on a host is the policy's: learning mode permits everything, default
-- deny permits a nonempty host that the allowlist covers, default allow permits the empty host, what
-- the allowlist covers and what the denylist does not cover. The cache stays coherent.
pub host_permitted_by-policy :
    (env : Env) (allowlist : List Bytes) (opts : Options) (host : Bytes) (cache : Cache)
    → IsPrepared env opts
    → IsCoherent env cache
    → ((host_permitted_by env host (new_matcher env allowlist) opts cache).0
        ≡ policy env allowlist opts host)
      × IsCoherent env (host_permitted_by env host (new_matcher env allowlist) opts cache).1
host_permitted_by-policy env allowlist opts host cache prepared ok =
    let (e, k) = host_permitted_by-decide env allowlist opts host cache prepared ok in
    (e ∙ policy-decide env allowlist opts host, k)

if_IsCoherent :
    (env : Env) (t : Bool) (q r : List Learned × Cache)
    → IsCoherent env q.1
    → IsCoherent env r.1
    → IsCoherent env (if t then q else r).1
if_IsCoherent env true q r h k = h
if_IsCoherent env false q r h k = k

-- With a coherent cache, in learning mode with a callback, exactly the nonempty hosts that the
-- allowlist does not cover are reported, each once; without learning mode or a callback nothing is.
-- The cache stays coherent.
pub maybe_learn_host_by-unlisted :
    (env : Env) (allowlist : List Bytes) (opts : Options) (host : Bytes) (cache : Cache)
    → IsCoherent env cache
    → ((maybe_learn_host_by env host (new_matcher env allowlist) opts cache).0 ≡ (
        if opts.learning_mode
          && opts.on_learn
          && not (is_empty host)
          && not (listed env allowlist host)
        then domain host ∷ []
        else []))
      × IsCoherent env (maybe_learn_host_by env host (new_matcher env allowlist) opts cache).1
unfolding maybe_learn_host_by
maybe_learn_host_by-unlisted env allowlist opts host cache ok =
    let (ea, ka) = allows-new_matcher env allowlist host cache ok in
    (
      ground (arith, ea),
      if_IsCoherent env (not opts.learning_mode || not opts.on_learn || is_empty host) _ _ ok
          (if_IsCoherent env (allows env (new_matcher env allowlist) host cache).0 _ _ ka ka),
    )
