-- ===== src/ConnFilter/Decided.antt =====
-- internal/filter/http_filter.go and internal/filter/https_filter.go: what a connection leads to, as a
-- function of the policy of the lists, the mode and the destination.
use g0efilter.Prelude.{
  ◌≡◌, refl, sym, ap, ◌∙◌, inl, inr, Bool, true, false, not, ◌&&◌, Option, none, some, List, [],
  ◌∷◌, ◌++◌, map, arith, if◌then◌else◌, Option-cases,
}
use g0efilter.Text.{Bytes, codes, is_empty}
use g0efilter.Pattern.{Env}
use g0efilter.Matcher.{Cache, HostMatcher, new_matcher}
use g0efilter.Matcher.Cached.{listed, IsCoherent}
use g0efilter.Permit.{audited, host_permitted_by, Learned, domain, maybe_learn_host_by}
use g0efilter.Permit.Table.{
  policy, IsPrepared, host_permitted_by-policy, maybe_learn_host_by-unlisted,
}
use g0efilter.Conn.{LogLine, Component}
use g0efilter.ConnFilter.{
  ConnOptions, Connection, Event, blocked_line, audit_line, learned, linger, log_violation,
  handle_allowed, decide,
}
use g0efilter.ConnFilter.Contacts.{
  View, view, join, nothing, only, was_blocked, was_audited, was_allowed, view-append,
  log_violation-view, view_landed, view_nowhere, is_reachable, learns_ip, learned-view, append_nil,
  view-append3,
}

blocked_seen : (l : LogLine) → view (blocked_line l ∷ []) ≡ ([], [], [], was_blocked ∷ [], false)
unfolding view
blocked_seen l = refl

audit_seen : (l : LogLine) → view (audit_line l ∷ []) ≡ ([], [], [], was_audited ∷ [], false)
unfolding view
audit_seen l = refl

empty_view : view [] ≡ nothing
unfolding view
empty_view = refl

reset_view :
    (b rst : Bool)
    → join ([], [], [], only b was_blocked, false) (view (if rst then linger ∷ [] else []))
      ≡ ([], [], [], only b was_blocked, rst)
unfolding view
reset_view true true = refl
reset_view true false = refl
reset_view false true = refl
reset_view false false = refl

module _ (b : Bool) (hosts : List Learned) where
  abbrev hosts_view : View
  hosts_view = ([], [], hosts, [], false)

  join_audit_none :
      join (join ([], [], [], only b was_audited, false) hosts_view) nothing
      ≡ ([], [], hosts, only (b && true) was_audited, false)
  join_audit_none = ground (arith, append_nil hosts)

  join_none :
      join (join nothing hosts_view) nothing ≡ ([], [], hosts, only (b && false) was_audited, false)
  join_none = ground (arith, append_nil hosts)

  module _ (ds ss : List Bytes) (ips : List Learned) where
    join_audit_dst :
        join
          (join ([], [], [], only b was_audited, false) hosts_view)
          (ds, ss, ips, only (b && false) was_allowed, false)
        ≡ (ds, ss, hosts ++ ips, only b was_audited, false)
    join_audit_dst = ground arith

    join_dst :
        join (join nothing hosts_view) (ds, ss, ips, only (b && true) was_allowed, false)
        ≡ (ds, ss, hosts ++ ips, only b was_allowed, false)
    join_dst = ground arith

if_events :
    (b : Bool) (x y : List Event × Cache) → (if b then x else y).0 ≡ (if b then x.0 else y.0)
if_events true x y = refl
if_events false x y = refl

if_cases :
    (permitted audit_mode : Bool) (refused : List Event) (passed : Bool → List Event) (u : View)
    (v : Bool → View)
    → view refused ≡ u
    → ((was : Bool) → view (passed was) ≡ v was)
    → view (
        if not (not permitted && audit_mode) && not permitted
        then refused
        else passed (not permitted && audit_mode))
      ≡ (if not permitted && not audit_mode then u else v (not permitted && audit_mode))
if_cases true true refused passed u v a b = b false
if_cases true false refused passed u v a b = b false
if_cases false true refused passed u v a b = b true
if_cases false false refused passed u v a b = a

module _ (env : Env) (c : ConnOptions) (allowlist : List Bytes) (component : Component)
    (conn : Connection) (identifier : Bytes) where
  abbrev is_permitted : Bool
  is_permitted = policy env allowlist c.opts identifier

  -- The policy refuses, and audit mode lets pass.
  abbrev is_audited : Bool
  is_audited = not is_permitted && c.opts.audit_mode

  abbrev learned_hosts : List Learned
  learned_hosts =
      if c.opts.learning_mode
        && c.opts.on_learn
        && not (is_empty identifier)
        && not (listed env allowlist identifier)
      then domain identifier ∷ []
      else []

  -- What becomes of a connection that is let through.
  abbrev landed : Bool → Option Bytes → View
  landed was none = ([], [], learned_hosts, only (c.logger && was) was_audited, false)
  landed was (some target) = (
    target ∷ [],
    only (is_reachable c component conn target) target,
    learned_hosts ++ learns_ip c component conn identifier target,
    only c.logger (if was then was_audited else was_allowed),
    false,
  )

  -- A refused connection is logged and closed, with a reset where that is set; any other reports
  -- what there is to learn, and is joined with its original destination, where that is known and can
  -- be reached.
  unfoldable pub outcome : View
  outcome =
      if not is_permitted && not c.opts.audit_mode
      then ([], [], [], only c.logger was_blocked, c.drop_with_rst)
      else landed is_audited conn.original_dst

  module _ (reason replayed : Bytes) (cache : Cache) (prepared : IsPrepared env c.opts)
      (coherent : IsCoherent env cache) where
    abbrev allow_matcher : HostMatcher
    allow_matcher = new_matcher env allowlist

    verdict_lem : (host_permitted_by env identifier allow_matcher c.opts cache).0 ≡ is_permitted
    verdict_lem =
        (host_permitted_by-policy env allowlist c.opts identifier cache prepared coherent).0

    learnt_lem :
        (maybe_learn_host_by env identifier allow_matcher c.opts
          (host_permitted_by env identifier allow_matcher c.opts cache).1).0
        ≡ learned_hosts
    learnt_lem =
        let k =
          (host_permitted_by-policy env allowlist c.opts identifier cache prepared coherent).1 in
        (maybe_learn_host_by-unlisted env allowlist c.opts identifier
          (host_permitted_by env identifier allow_matcher c.opts cache).1 k).0

    refused_view :
        view (
          log_violation c component (codes "BLOCKED") reason blocked_line identifier conn
          ++ (if c.drop_with_rst then linger ∷ [] else []))
        ≡ ([], [], [], only c.logger was_blocked, c.drop_with_rst)
    refused_view =
        let v = log_violation c component (codes "BLOCKED") reason blocked_line identifier conn in
        let r = if c.drop_with_rst then linger ∷ [] else [] in
        view-append v r
        ∙ ap (λ t. join t (view r))
            (log_violation-view c component conn blocked_line was_blocked blocked_seen
              (codes "BLOCKED") reason identifier)
        ∙ reset_view c.logger c.drop_with_rst

    passed_view :
        (was : Bool)
        → view (
            (if was
              then log_violation c component (codes "AUDIT") reason audit_line identifier conn
              else [])
            ++ map learned learned_hosts
            ++ handle_allowed c component conn identifier replayed (not was))
          ≡ landed was conn.original_dst
    passed_view true = elim (Option-cases conn.original_dst) [
      | inl e ↦
          view-append3 (log_violation c component (codes "AUDIT") reason audit_line identifier conn)
            (map learned learned_hosts) (handle_allowed c component conn identifier replayed false)
            (log_violation-view c component conn audit_line was_audited audit_seen (codes "AUDIT")
              reason identifier)
            (learned-view learned_hosts) (view_nowhere c component conn identifier replayed false e)
          ∙ join_audit_none c.logger learned_hosts
          ∙ ap (landed true) (sym e)
      | inr (target, e) ↦
          view-append3 (log_violation c component (codes "AUDIT") reason audit_line identifier conn)
            (map learned learned_hosts) (handle_allowed c component conn identifier replayed false)
            (log_violation-view c component conn audit_line was_audited audit_seen (codes "AUDIT")
              reason identifier)
            (learned-view learned_hosts)
            (view_landed c component conn identifier replayed target false e)
          ∙ join_audit_dst c.logger learned_hosts (target ∷ [])
              (only (is_reachable c component conn target) target)
              (learns_ip c component conn identifier target)
          ∙ ap (landed true) (sym e)
    ]
    passed_view false = elim (Option-cases conn.original_dst) [
      | inl e ↦
          view-append3 [] (map learned learned_hosts)
            (handle_allowed c component conn identifier replayed true) empty_view
            (learned-view learned_hosts) (view_nowhere c component conn identifier replayed true e)
          ∙ join_none c.logger learned_hosts
          ∙ ap (landed false) (sym e)
      | inr (target, e) ↦
          view-append3 [] (map learned learned_hosts)
            (handle_allowed c component conn identifier replayed true) empty_view
            (learned-view learned_hosts)
            (view_landed c component conn identifier replayed target true e)
          ∙ join_dst c.logger learned_hosts (target ∷ [])
              (only (is_reachable c component conn target) target)
              (learns_ip c component conn identifier target)
          ∙ ap (landed false) (sym e)
    ]

    abbrev passed_events : Bool → List Learned → List Event
    passed_events was hosts =
        (if was
          then log_violation c component (codes "AUDIT") reason audit_line identifier conn
          else [])
        ++ map learned hosts
        ++ handle_allowed c component conn identifier replayed (not was)

    abbrev refused_events : List Event
    refused_events =
        log_violation c component (codes "BLOCKED") reason blocked_line identifier conn
        ++ (if c.drop_with_rst then linger ∷ [] else [])

    decide-events :
        (decide env c component allow_matcher conn identifier reason replayed cache).0 ≡ (
          if not is_audited && not is_permitted
          then refused_events
          else passed_events is_audited learned_hosts)
    unfolding decide audited
    decide-events = rw (decide, if_events, verdict_lem, learnt_lem) refl

    pub decide-outcome :
        view (decide env c component allow_matcher conn identifier reason replayed cache).0
        ≡ outcome
    unfolding outcome
    decide-outcome =
        ap view decide-events
        ∙ if_cases is_permitted c.opts.audit_mode refused_events
            (λ was. passed_events was learned_hosts)
            ([], [], [], only c.logger was_blocked, c.drop_with_rst)
            (λ was. landed was conn.original_dst) refused_view passed_view
