-- ===== src/Flow/Recent.antt =====
-- internal/actions/flow.go: which flows count as recent, whatever was swept in between.
use g0efilter.Prelude.{
  ℕ, ◌+◌, ◌*◌, ◌≤◌, ◌≡◌, refl, ap, ◌↔◌, inl, inr, Bool, true, false, Option, some, List, [], ◌∷◌,
  arith, ltb, leb, Bool-cases, Option-cases, All, Has, All-mono,
}
use g0efilter.Text.{Bytes, equal, is_empty}
use g0efilter.Assoc.Laws.{lookup-insert}
use g0efilter.Text.Laws.{equal_iff, equal_refl}
use g0efilter.Assoc.{lookup, insert, delete_where}
use g0efilter.Flow.{
  RecentSynthetic, suppress_window, prune_interval, sweep, mark_synthetic, is_synthetic_recent,
}

-- The calls of `MarkSynthetic`, the latest first.
abbrev pub History : Type 0
History = List (Bytes × ℕ)

unfoldable pub run : History → RecentSynthetic
run [] = record { m = []; writes = 0 }
run ((flow, t) ∷ h) = mark_synthetic t flow (run h)

-- No call of the history is later than the time.
abbrev pub IsPast : ℕ → History → Type 0
IsPast now = All (λ e. e.1 ≤ now)

-- The clock does not go back.
abbrev pub IsOrdered : History → Type 0
IsOrdered [] = Unit
IsOrdered ((flow, t) ∷ h) = IsPast t h × IsOrdered h

module _ {V : Type 0} (p : V → Bool) where
  lookup-kept :
      (k : Bytes) (m : List (Bytes × V)) (v : V)
      → lookup k m ≡ some v
      → p v ≡ false
      → lookup k (delete_where p m) ≡ some v
  unfolding lookup delete_where
  lookup-kept k [] v e n = e
  lookup-kept k ((j, w) ∷ m) v e n = ground (arith, lookup-kept k m v)

-- A predicate of the entries.
module _ (Q : Bytes → ℕ → Type 0) where
  abbrev AllQ : List (Bytes × ℕ) → Type 0
  AllQ = All (λ e. Q e.0 e.1)

  AllQ-insert : (k : Bytes) (v : ℕ) (m : List (Bytes × ℕ)) → Q k v → AllQ m → AllQ (insert k v m)
  unfolding insert
  AllQ-insert k v [] q a = (q, tt)
  AllQ-insert k v ((j, w) ∷ m) q a = elim (Bool-cases (equal j k)) [
    | inl same ↦ rw same (q, a.1)
    | inr other ↦ rw other (a.0, AllQ-insert k v m q a.1)
  ]

  AllQ-delete_where : (p : ℕ → Bool) (m : List (Bytes × ℕ)) → AllQ m → AllQ (delete_where p m)
  unfolding delete_where
  AllQ-delete_where p [] a = tt
  AllQ-delete_where p ((j, w) ∷ m) a = elim (Bool-cases (p w)) [
    | inl dropped ↦ rw dropped (AllQ-delete_where p m a.1)
    | inr kept ↦ rw kept (a.0, AllQ-delete_where p m a.1)
  ]

  AllQ-lookup : (k : Bytes) (m : List (Bytes × ℕ)) {v : ℕ} → AllQ m → lookup k m ≡ some v → Q k v
  unfolding lookup
  AllQ-lookup k [] a e = absurd (ground arith)
  AllQ-lookup k ((j, w) ∷ m) {v} a e = elim (Bool-cases (equal j k)) [
    | inl same ↦
        let key : j ≡ k = (equal_iff j k).0 same in
        let value : w ≡ v = ground (arith, e, same) in rw (← key, ← value) a.0
    | inr other ↦ AllQ-lookup k m a.1 (ground (arith, e, other))
  ]

  AllQ-sweep : (t : ℕ) (s : RecentSynthetic) → AllQ s.m → AllQ (sweep t s).m
  unfolding sweep
  AllQ-sweep t s a = elim (Bool-cases (leb prune_interval s.writes)) [
    | inl e ↦ rw e (AllQ-delete_where _ s.m a)
    | inr e ↦ rw e a
  ]

-- Every entry of the map is a call of the history.
run-Has : (h : History) → AllQ (λ j w. Has (j, w) h) (run h).m
unfolding run mark_synthetic
run-Has [] = tt
run-Has ((k, t) ∷ h) = elim (Bool-cases (is_empty k)) [
  | inl e ↦ rw e (All-mono _ _ (λ x q. inr q) (run h).m (run-Has h))
  | inr e ↦ rw e (
      AllQ-sweep (λ j w. Has (j, w) ((k, t) ∷ h)) t
        (record { m = insert k t (run h).m; writes = (run h).writes + 1 })
        (AllQ-insert (λ j w. Has (j, w) ((k, t) ∷ h)) k t (run h).m (inl refl)
          (All-mono _ _ (λ x q. inr q) (run h).m (run-Has h))))
]

abbrev window4 : ℕ
window4 = suppress_window * 4

sweep_keeps :
    (u : ℕ) (k : Bytes) (w : ℕ) (s : RecentSynthetic)
    → lookup k s.m ≡ some w
    → u ≤ w + window4
    → lookup k (sweep u s).m ≡ some w
unfolding sweep
sweep_keeps u k w s e b = elim (Bool-cases (leb prune_interval s.writes)) [
  | inl c ↦ rw c (lookup-kept (λ v. ltb (v + window4) u) k s.m w e (ground arith))
  | inr c ↦ rw c e
]

All-Has : {A : Type 0} (P : A → Type 0) (xs : List A) {a : A} → All P xs → Has a xs → P a
All-Has P [] h m = absurd m
All-Has P (x ∷ xs) h (inl e) = rw (← e) h.0
All-Has P (x ∷ xs) h (inr m) = All-Has P xs h.1 m

-- What was marked in the last twenty seconds has an entry that is no older.
abbrev IsKept : ℕ → Option ℕ → Type 0
IsKept t o = (v : ℕ) × (o ≡ some v) × (t ≤ v)

mark_keeps :
    (u : ℕ) (k flow : Bytes) (t : ℕ) (s : RecentSynthetic)
    → IsKept t (lookup flow s.m)
    → t ≤ u
    → u ≤ t + window4
    → IsKept t (lookup flow (mark_synthetic u k s).m)
unfolding mark_synthetic
mark_keeps u k flow t s (v, e, b) past near = elim (Bool-cases (is_empty k)) [
  | inl c ↦ rw c (v, e, b)
  | inr c ↦ elim (Bool-cases (equal k flow)) [
    | inl same ↦ rw c (
      u,
      sweep_keeps u flow u (record { m = insert k u s.m; writes = s.writes + 1 })
          (ground (arith, lookup-insert k flow u s.m, same)) (omega arith),
      past,
    )
    | inr other ↦ rw c (
      v,
      sweep_keeps u flow v (record { m = insert k u s.m; writes = s.writes + 1 })
          (ground (arith, lookup-insert k flow u s.m, other, e)) (omega arith),
      b,
    )
  ]
]

mark_keeps_self :
    (u : ℕ) (flow : Bytes) (s : RecentSynthetic)
    → is_empty flow ≡ false
    → IsKept u (lookup flow (mark_synthetic u flow s).m)
unfolding mark_synthetic
mark_keeps_self u flow s c = rw c (
  u,
  sweep_keeps u flow u (record { m = insert flow u s.m; writes = s.writes + 1 })
      (ground (arith, lookup-insert flow flow u s.m, equal_refl flow)) (omega arith),
  omega arith,
)

run_keeps :
    (h : History) (now : ℕ) (flow : Bytes) (t : ℕ)
    → IsOrdered h
    → IsPast now h
    → is_empty flow ≡ false
    → Has (flow, t) h
    → now ≤ t + window4
    → IsKept t (lookup flow (run h).m)
unfolding run
run_keeps [] now flow t o p c m b = absurd m
run_keeps ((k, u) ∷ h) now flow t o p c (inl e) b =
    let key : k ≡ flow = ap (λ x. x.0) e in
    let time : u ≡ t = ap (λ x. x.1) e in rw (key, time) (mark_keeps_self t flow (run h) c)
run_keeps ((k, u) ∷ h) now flow t o p c (inr m) b =
    let past = All-Has (λ x. x.1 ≤ u) h o.0 m in
    mark_keeps u k flow t (run h) (run_keeps h now flow t o.1 p.1 c m b) past (omega arith)

-- With a clock that does not go back: a flow is recent exactly when it is not empty and was marked at most
-- five seconds ago, however many marks and sweeps came after.
pub is_synthetic_recent_iff :
    (h : History) (now : ℕ) (flow : Bytes)
    → IsOrdered h
    → IsPast now h
    → (is_synthetic_recent now flow (run h) ≡ true)
      ↔ ((is_empty flow ≡ false) × ((t : ℕ) × Has (flow, t) h × (now ≤ t + suppress_window)))
unfolding is_synthetic_recent
is_synthetic_recent_iff h now flow o p = (
  λ r. elim (Option-cases (lookup flow (run h).m)) [
    | inl e ↦ absurd (ground (arith, r, e))
    | inr (v, e) ↦ (
      ground (arith, r),
      (v, AllQ-lookup (λ j w. Has (j, w) h) flow (run h).m (run-Has h) e, ground (arith, r, e)),
    )
  ],
  λ q.
      let (v, e, later) = run_keeps h now flow q.1.0 o p q.0 q.1.1 (omega (arith, q.1.2)) in
      ground (arith, q.0, e, later, q.1.2),
)
