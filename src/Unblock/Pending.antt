-- ===== src/Unblock/Pending.antt =====
-- What holds of the store of unblock requests, whatever calls come in.
use g0efilter.Prelude.{
  ℕ, ◌-◌, ◌≤◌, ◌≡◌, inl, inr, false, none, List, [], ◌∷◌, ◌++◌, arith, leb, Bool-cases,
  Option-cases, length, length-drop, All,
}
use g0efilter.Text.{Bytes, equal, to_lower, trim_space}
use g0efilter.Text.Laws.{equal-sym}
use g0efilter.Assoc.{lookup, insert, remove, IsMap}
use g0efilter.Assoc.Distinct.{IsMap-insert, IsMap-remove}
use g0efilter.Assoc.Laws.{length-insert_le, length-remove_le, All-insert, All-remove}
use g0efilter.Unblock.{
  complete, new_request, UnblockRequest, CompletedUnblock, Requests, UnblockStore, max_completed,
  new_unblock_store, is_same, find_duplicate, add_new, add, keep_last, acknowledge,
}

-- The two requests ask for different things.
abbrev pub Differs : UnblockRequest → UnblockRequest → Type 0
Differs r s = is_same r.kind r.value r.target_hostname s ≡ false

-- No two pending requests ask for the same.
abbrev pub AreDifferent : Requests → Type 0
AreDifferent [] = Unit
AreDifferent (e ∷ m) = All (λ f. Differs e.1 f.1) m × AreDifferent m

-- Ids stand once, no two pending requests ask for the same, and both lists are bounded.
pub record IsValid (s : UnblockStore) : Type 0 where
  pub distinct : IsMap s.requests
  pub different : AreDifferent s.requests
  pub pending_bound : length s.requests ≤ s.max_pending
  pub completed_bound : length s.completed ≤ max_completed

Differs-sym : (r s : UnblockRequest) → Differs r s → Differs s r
Differs-sym r s h = ground (
  arith,
  h,
  equal-sym r.kind s.kind,
  equal-sym r.value s.value,
  equal-sym r.target_hostname s.target_hostname,
)

AreDifferent-insert :
    (id : Bytes) (r : UnblockRequest) (m : Requests)
    → All (λ e. Differs r e.1) m
    → AreDifferent m
    → AreDifferent (insert id r m)
unfolding insert
AreDifferent-insert id r [] fresh d = (tt, tt)
AreDifferent-insert id r ((i, w) ∷ m) fresh d = elim (Bool-cases (equal i id)) [
  | inl same ↦ rw same (fresh.1, d.1)
  | inr other ↦ rw other (
    All-insert (Differs w) id r m (Differs-sym r w fresh.0) d.0,
    AreDifferent-insert id r m fresh.1 d.1,
  )
]

AreDifferent-remove : (id : Bytes) (m : Requests) → AreDifferent m → AreDifferent (remove id m)
unfolding remove
AreDifferent-remove id [] d = tt
AreDifferent-remove id ((i, w) ∷ m) d = elim (Bool-cases (equal i id)) [
  | inl same ↦ rw same (AreDifferent-remove id m d.1)
  | inr other ↦ rw other (All-remove (Differs w) id m d.0, AreDifferent-remove id m d.1)
]

no_duplicate :
    (kind value target : Bytes) (m : Requests)
    → find_duplicate kind value target m ≡ none
    → All (λ e. is_same kind value target e.1 ≡ false) m
unfolding find_duplicate
no_duplicate kind value target [] h = tt
no_duplicate kind value target (e ∷ m) h =
    (ground (arith, h), no_duplicate kind value target m (ground (arith, h)))

length-keep_last : (n : ℕ) (xs : List CompletedUnblock) → length (keep_last n xs) ≤ n
length-keep_last n xs = ground (arith, length-drop (length xs - n) xs)

add-IsValid :
    (now : ℕ) (id kind value target : Bytes) (s : UnblockStore)
    → IsValid s
    → IsValid (add now id kind value target s).1
unfolding add add_new
add-IsValid now id kind value target s v =
    let t = to_lower (trim_space target) in
    elim (Option-cases (find_duplicate kind value t s.requests)) [
      | inr (pending, e) ↦ rw (e, add) v
      | inl e ↦ elim (Bool-cases (leb s.max_pending (length s.requests))) [
        | inl full ↦ rw (e, add, full) v
        | inr room ↦
            rw (e, add, room)
              (record {
                distinct = IsMap-insert id (new_request now id kind value t) s.requests v.distinct;
                different =
                    AreDifferent-insert id (new_request now id kind value t) s.requests
                      (no_duplicate kind value t s.requests e) v.different;
                pending_bound =
                    ground (
                      arith,
                      length-insert_le id (new_request now id kind value t) s.requests,
                      room,
                    );
                completed_bound = v.completed_bound;
              })
      ]
    ]

acknowledge-IsValid :
    (now : ℕ) (id : Bytes) (s : UnblockStore) → IsValid s → IsValid (acknowledge now id s).1
unfolding acknowledge
acknowledge-IsValid now id s v = elim (Option-cases (lookup id s.requests)) [
  | inl e ↦ rw (e, acknowledge) v
  | inr (req, e) ↦
      rw (e, acknowledge)
        (record {
          distinct = IsMap-remove id s.requests v.distinct;
          different = AreDifferent-remove id s.requests v.different;
          pending_bound = omega (arith, length-remove_le id s.requests, v.pending_bound);
          completed_bound = length-keep_last max_completed (s.completed ++ (complete now req ∷ []));
        })
]

-- What comes in: requests, with the time and the id drawn, and acknowledgements.
pub data Call : Type 0 where
  adds : ℕ → Bytes → Bytes → Bytes → Bytes → Call
  acknowledges : ℕ → Bytes → Call

unfoldable pub run : UnblockStore → List Call → UnblockStore
run s [] = s
run s (adds now id kind value target ∷ cs) = run (add now id kind value target s).1 cs
run s (acknowledges now id ∷ cs) = run (acknowledge now id s).1 cs

run-IsValid : (s : UnblockStore) (cs : List Call) → IsValid s → IsValid (run s cs)
unfolding run
run-IsValid s [] v = v
run-IsValid s (adds now id kind value target ∷ cs) v =
    run-IsValid (add now id kind value target s).1 cs (add-IsValid now id kind value target s v)
run-IsValid s (acknowledges now id ∷ cs) v =
    run-IsValid (acknowledge now id s).1 cs (acknowledge-IsValid now id s v)

-- After any calls on a new store, whatever ids are drawn: every id stands once, no two pending
-- requests have the same type, value and target, no more requests are pending than the maximum, and
-- at most 100 completed ones are kept.
pub store_stays-IsValid : (cs : List Call) → IsValid (run new_unblock_store cs)
unfolding new_unblock_store
store_stays-IsValid cs = run-IsValid new_unblock_store cs (record {
  distinct = tt;
  different = tt;
  pending_bound = omega arith;
  completed_bound = omega arith;
})
