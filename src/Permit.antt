-- ===== src/Permit.antt =====
-- internal/filter/common.go: `Options`, as far as a decision reads it, and the decisions about a
-- host, `hostPermittedBy`, `maybeLearnHostBy`, `maybeLearnIP` and `audited`. A callback that is set
-- is `true` in `on_learn` and `on_resolved`; a report to `OnLearn` is the value of type `Learned`.
pub mod Table
use g0efilter.Prelude.{
  Bool, true, false, not, ◌&&◌, ◌||◌, Option, none, some, List, [], ◌∷◌, if◌then◌else◌,
}
use g0efilter.Text.{Bytes, is_empty}
use g0efilter.Pattern.{Env}
use g0efilter.Matcher.{Cache, HostMatcher, new_matcher, allows}

-- `Options`
pub record Options : Type 0 where
  pub default_allow : Bool
  pub denylist : List Bytes
  pub learning_mode : Bool
  pub on_learn : Bool
  pub on_resolved : Bool
  pub audit_mode : Bool
  pub dns_hardening : Bool
  pub deny_matcher : Option HostMatcher

-- `audited`
unfoldable pub audited : Bool → Options → Bool
audited permitted opts = not permitted && opts.audit_mode

-- `opts.denyMatcher`, or one built on the spot.
unfoldable pub deny_matcher_of : Env → Options → HostMatcher
deny_matcher_of env opts = elim opts.deny_matcher [
  | none ↦ new_matcher env opts.denylist
  | some deny ↦ deny
]

-- `hostPermittedBy`
unfoldable pub host_permitted_by : Env → Bytes → HostMatcher → Options → Cache → Bool × Cache
unfolding deny_matcher_of
host_permitted_by env host allow opts cache =
    let allowed = allows env allow host cache in
    let denied = allows env (deny_matcher_of env opts) host allowed.1 in
    if opts.learning_mode
    then (true, cache)
    else if not opts.default_allow
    then (if is_empty host then (false, cache) else allowed)
    else if is_empty host
    then (true, cache)
    else if allowed.0
    then (true, allowed.1)
    else (not denied.0, denied.1)

-- What `OnLearn` is told.
pub data Learned : Type 0 where
  domain : Bytes → Learned
  ip : Bytes → Learned

-- `maybeLearnHostBy`
unfoldable pub maybe_learn_host_by :
    Env → Bytes → HostMatcher → Options → Cache → List Learned × Cache
maybe_learn_host_by env host allow opts cache =
    let allowed = allows env allow host cache in
    if not opts.learning_mode || not opts.on_learn || is_empty host
    then ([], cache)
    else if allowed.0
    then ([], allowed.1)
    else (domain host ∷ [], allowed.1)

-- `maybeLearnIP`
unfoldable pub maybe_learn_ip : Bytes → Options → List Learned
maybe_learn_ip dest_ip opts =
    if not opts.learning_mode || not opts.on_learn || is_empty dest_ip then [] else ip dest_ip ∷ []
