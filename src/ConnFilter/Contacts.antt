-- ===== src/ConnFilter/Contacts.antt =====
-- What can be observed of the effects on a connection, and what each part of the decision adds.
use g0efilter.Prelude.{
  ℕ, ◌≡◌, refl, ap, ◌∙◌, inl, inr, Bool, true, false, ◌&&◌, ◌||◌, Option, none, some, List, [], ◌∷◌,
  ◌++◌, map, arith, if◌then◌else◌, Bool-cases, Option-cases, length,
}
use g0efilter.Text.{Bytes, is_empty}
use g0efilter.Permit.{Learned}
use g0efilter.Permit.{maybe_learn_ip}
use g0efilter.Conn.{
  LogLine, Component, parse_host_port, emit_synthetic, log_policy_violation, log_allowed_connection,
  logdst_conn_dial_error,
}
use g0efilter.ConnFilter.{
  ConnOptions, Connection, Event, synthetic, blocked_line, audit_line, allowed_line,
  dial_error_line, learned, linger, dial, write, splice, optional_event, emit_for_target,
  log_violation, connect_and_splice, handle_allowed, destination,
}

-- The servers that are dialled.
abbrev pub dials : List Event → List Bytes
dials [] = []
dials (dial target ∷ es) = target ∷ dials es
dials (_ ∷ es) = dials es

-- The servers that the client is joined with.
abbrev pub splices : List Event → List Bytes
splices [] = []
splices (splice target ∷ es) = target ∷ splices es
splices (_ ∷ es) = splices es

abbrev pub reports : List Event → List Learned
reports [] = []
reports (learned l ∷ es) = l ∷ reports es
reports (_ ∷ es) = reports es

pub data Verdict : Type 0 where
  was_blocked was_audited was_allowed : Verdict

abbrev pub verdicts : List Event → List Verdict
verdicts [] = []
verdicts (blocked_line l ∷ es) = was_blocked ∷ verdicts es
verdicts (audit_line l ∷ es) = was_audited ∷ verdicts es
verdicts (allowed_line l ∷ es) = was_allowed ∷ verdicts es
verdicts (_ ∷ es) = verdicts es

abbrev pub lingers : List Event → Bool
lingers [] = false
lingers (linger ∷ es) = true
lingers (_ ∷ es) = lingers es

-- The five observations together.
abbrev pub View : Type 0
View = List Bytes × List Bytes × List Learned × List Verdict × Bool

unfoldable pub view : List Event → View
view es = (dials es, splices es, reports es, verdicts es, lingers es)

abbrev pub join : View → View → View
join v w = (v.0 ++ w.0, v.1 ++ w.1, v.2 ++ w.2, v.3 ++ w.3, v.4 || w.4)

abbrev pub nothing : View
nothing = ([], [], [], [], false)

pub view-append : (es fs : List Event) → view (es ++ fs) ≡ join (view es) (view fs)
unfolding view
view-append [] fs = refl
view-append (synthetic s ∷ es) fs = view-append es fs
view-append (blocked_line l ∷ es) fs = ground (arith, view-append es fs)
view-append (audit_line l ∷ es) fs = ground (arith, view-append es fs)
view-append (allowed_line l ∷ es) fs = ground (arith, view-append es fs)
view-append (dial_error_line l ∷ es) fs = view-append es fs
view-append (learned l ∷ es) fs = ground (arith, view-append es fs)
view-append (linger ∷ es) fs = ground (arith, view-append es fs)
view-append (dial t ∷ es) fs = ground (arith, view-append es fs)
view-append (write b ∷ es) fs = view-append es fs
view-append (splice t ∷ es) fs = ground (arith, view-append es fs)

pub view-append3 :
    (x y z : List Event) {u v w : View}
    → view x ≡ u
    → view y ≡ v
    → view z ≡ w
    → view (x ++ y ++ z) ≡ join (join u v) w
view-append3 x y z {u} {v} {w} a b c =
    view-append (x ++ y) z
    ∙ ap (λ t. join t (view z)) (view-append x y)
    ∙ ap (λ t. join (join t (view y)) (view z)) a
    ∙ ap (λ t. join (join u t) (view z)) b
    ∙ ap (join (join u v)) c

pub append_nil : {A : Type 0} (xs : List A) → xs ++ [] ≡ xs
append_nil [] = refl
append_nil (x ∷ xs) = ap (λ ys. x ∷ ys) (append_nil xs)

and_true : (b : Bool) → b ≡ b && true
and_true true = refl
and_true false = refl

and_false : (b : Bool) → false ≡ b && false
and_false true = refl
and_false false = refl

-- A list with one element, or none.
abbrev pub only : {A : Type 0} → Bool → A → List A
only b a = if b then a ∷ [] else []

optional_event-view : (o : Option (LogLine × Bytes)) → view (optional_event o) ≡ nothing
unfolding view
optional_event-view none = refl
optional_event-view (some s) = refl

pub learned-view : (ls : List Learned) → view (map learned ls) ≡ ([], [], ls, [], false)
unfolding view
learned-view [] = refl
learned-view (l ∷ ls) = ground (arith, learned-view ls)

module _ (c : ConnOptions) (component : Component) (conn : Connection) where
  pub emit_for_target-view : view (emit_for_target c component conn) ≡ nothing
  unfolding emit_for_target view
  emit_for_target-view = elim (Option-cases conn.original_dst) [
    | inl e ↦ rw (e, emit_for_target) refl
    | inr (target, e) ↦
        rw (e, emit_for_target)
          (optional_event-view (emit_synthetic c.logger component conn.remote target))
  ]

  abbrev emitted : Bytes → List Event
  emitted identifier = if is_empty identifier then emit_for_target c component conn else []

  emitted-view : (identifier : Bytes) → view (emitted identifier) ≡ nothing
  unfolding view
  emitted-view identifier = elim (Bool-cases (is_empty identifier)) [
    | inl e ↦ rw e emit_for_target-view
    | inr e ↦ rw e refl
  ]

  -- A log line that is written when there is a logger.
  abbrev IsOptional : List LogLine → Type 0
  IsOptional ls = length ls ≡ (if c.logger then 1 else 0)

  log_policy_violation-IsOptional :
      (action reason identifier dest_ip : Bytes) (dest_port : ℕ)
      → IsOptional (
          log_policy_violation c.logger c.proc_info component action reason identifier conn.remote
            dest_ip dest_port)
  unfolding log_policy_violation
  log_policy_violation-IsOptional action reason identifier dest_ip dest_port = ground arith

  log_allowed_connection-IsOptional :
      (target identifier : Bytes)
      → IsOptional
          (log_allowed_connection c.logger c.proc_info component target identifier conn.remote)
  unfolding log_allowed_connection
  log_allowed_connection-IsOptional target identifier = ground arith

  module _ (line : LogLine → Event) (v : Verdict)
      (seen : (l : LogLine) → view (line l ∷ []) ≡ ([], [], [], v ∷ [], false)) where
    lines-view :
        (ls : List LogLine)
        → IsOptional ls
        → view (map line ls) ≡ ([], [], [], only c.logger v, false)
    unfolding view
    lines-view [] e = ground (arith, e)
    lines-view (l ∷ []) e = ground (arith, e, seen l)
    lines-view (l ∷ m ∷ ls) e = absurd (ground (arith, e))

    pub log_violation-view :
        (action reason identifier : Bytes)
        → view (log_violation c component action reason line identifier conn)
          ≡ ([], [], [], only c.logger v, false)
    unfolding log_violation
    log_violation-view action reason identifier =
        let d = destination conn in
        let ls =
          log_policy_violation c.logger c.proc_info component action reason identifier conn.remote
            d.0 d.1 in
        view-append (emitted identifier) (map line ls)
        ∙ ap (λ v'. join v' (view (map line ls))) (emitted-view identifier)
        ∙ lines-view ls (log_policy_violation-IsOptional action reason identifier d.0 d.1)

  abbrev pub is_reachable : Bytes → Bool
  is_reachable target = elim (conn.dial_error target) [ none ↦ true | some e ↦ false ]

  dial_error-view : (ls : List LogLine) → view (map dial_error_line ls) ≡ nothing
  unfolding view
  dial_error-view [] = refl
  dial_error-view (l ∷ ls) = dial_error-view ls

  dialled :
      (target : Bytes) (es : List Event)
      → view (dial target ∷ es) ≡ join (target ∷ [], [], [], [], false) (view es)
  unfolding view
  dialled target es = refl

  replay-view :
      (target replayed : Bytes)
      → view ((if is_empty replayed then [] else write replayed ∷ []) ++ (splice target ∷ []))
        ≡ ([], target ∷ [], [], [], false)
  unfolding view
  replay-view target [] = refl
  replay-view target (b ∷ replayed) = refl

  connect_and_splice-view :
      (target replayed : Bytes)
      → view (connect_and_splice c component conn target replayed)
        ≡ (target ∷ [], only (is_reachable target) target, [], [], false)
  unfolding connect_and_splice
  connect_and_splice-view target replayed = elim (Option-cases (conn.dial_error target)) [
    | inl e ↦
        rw (e, connect_and_splice, is_reachable)
          (dialled target
              ((if is_empty replayed then [] else write replayed ∷ []) ++ (splice target ∷ []))
            ∙ ap (join (target ∷ [], [], [], [], false)) (replay-view target replayed))
    | inr (x, e) ↦
        rw (e, connect_and_splice, is_reachable)
          (let ls = logdst_conn_dial_error c.logger component target conn.remote x in
            dialled target (map dial_error_line ls)
            ∙ ap (join (target ∷ [], [], [], [], false)) (dial_error-view ls))
  ]

  -- What the code does for a connection that it lets through.
  abbrev pub learns_ip : Bytes → Bytes → List Learned
  learns_ip identifier target =
      if is_empty identifier then maybe_learn_ip (parse_host_port target).0 c.opts else []

  learns-view :
      (identifier target : Bytes)
      → view (
          if is_empty identifier
          then map learned (maybe_learn_ip (parse_host_port target).0 c.opts)
          else [])
        ≡ ([], [], learns_ip identifier target, [], false)
  unfolding view
  learns-view [] target = learned-view (maybe_learn_ip (parse_host_port target).0 c.opts)
  learns-view (b ∷ identifier) target = refl

  allows-view :
      (target identifier : Bytes) (log_allowed : Bool)
      → view (
          if log_allowed
          then map allowed_line
              (log_allowed_connection c.logger c.proc_info component target identifier conn.remote)
          else [])
        ≡ ([], [], [], only (c.logger && log_allowed) was_allowed, false)
  unfolding view
  allows-view target identifier true =
      lines-view allowed_line was_allowed (λ l. refl) _
        (log_allowed_connection-IsOptional target identifier)
      ∙ ap (λ b. ([], [], [], only b was_allowed, false)) (and_true c.logger)
  allows-view target identifier false =
      ap (λ b. ([], [], [], only b was_allowed, false)) (and_false c.logger)

  pub view_nowhere :
      (identifier replayed : Bytes) (log_allowed : Bool)
      → conn.original_dst ≡ none
      → view (handle_allowed c component conn identifier replayed log_allowed) ≡ nothing
  unfolding handle_allowed view
  view_nowhere identifier replayed log_allowed e = rw (e, handle_allowed) refl

  pub view_landed :
      (identifier replayed target : Bytes) (log_allowed : Bool)
      → conn.original_dst ≡ some target
      → view (handle_allowed c component conn identifier replayed log_allowed) ≡ (
        target ∷ [],
        only (is_reachable target) target,
        learns_ip identifier target,
        only (c.logger && log_allowed) was_allowed,
        false,
      )
  unfolding handle_allowed
  view_landed identifier replayed target log_allowed e =
      rw (e, handle_allowed)
        (let a =
            if is_empty identifier
            then map learned (maybe_learn_ip (parse_host_port target).0 c.opts)
            else [] in
          let b =
            if log_allowed
            then map allowed_line (
                log_allowed_connection c.logger c.proc_info component target identifier conn.remote)
            else [] in
          let d = connect_and_splice c component conn target replayed in
          view-append (a ++ b) d
          ∙ ap (λ v. join v (view d)) (view-append a b)
          ∙ ap (λ v. join (join v (view b)) (view d)) (learns-view identifier target)
          ∙ ap (λ v. join (join ([], [], learns_ip identifier target, [], false) v) (view d))
              (allows-view target identifier log_allowed)
          ∙ ap
              (join (
                join ([], [], learns_ip identifier target, [], false)
                  ([], [], [], only (c.logger && log_allowed) was_allowed, false)))
              (connect_and_splice-view target replayed)
          ∙ rw
              (
                append_nil (learns_ip identifier target),
                append_nil (learns_ip identifier target),
                append_nil (only (c.logger && log_allowed) was_allowed),
              )
              refl)
