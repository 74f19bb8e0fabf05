-- ===== src/Store/Query.antt =====
-- `Query` against a search of the list of entries, and the order of its results.
use g0efilter.Prelude.{
  ℕ, zero, suc, ◌-◌, ◌≤◌, ◌<◌, ◌≡◌, refl, sym, ◌∙◌, inl, inr, Bool, true, false, not, List, [], ◌∷◌,
  ◌++◌, arith, ltb, ◌==◌, lt→ltb, Bool-cases, length, get_or, take, length-append, length-replicate,
  dec_lt, ℕ_discrete, filter, length-take_bound,
}
use mathlib.Core.List.{append-nil, append_assoc}
use mathlib.Core.Path.{subst}
use g0efilter.Prelude.Int.{ℤ}
use g0efilter.Store.{
  LogEntry, blank, MemStore, capacity, new_mem_store, insert, clear, limit_of, should_skip_entry,
  prev_index, scan, query,
}
use g0efilter.Store.View.{IsValid, prev, back, view, start-prev, insert-IsValid, insert_refines}
use g0efilter.Text.{Bytes, to_lower, trim_space}

take-nil : (n : ℕ) → take {A = LogEntry} n [] ≡ []
take-nil zero = refl
take-nil (suc n) = refl

-- A search that has room for one result more.
take-room :
    (limit : ℕ) (out xs : List LogEntry) (it : LogEntry)
    → length out < limit
    → out ++ take (limit - length out) (it ∷ xs)
      ≡ (out ++ (it ∷ [])) ++ take (limit - length (out ++ (it ∷ []))) xs
take-room limit out xs it h =
    let more : limit - length out ≡ suc (limit - length (out ++ (it ∷ []))) =
      omega (arith, length-append out (it ∷ [])) in
    rw (more, append_assoc)

scan_search :
    (s : MemStore) (skip : LogEntry → Bool) (limit left idx : ℕ) (out : List LogEntry)
    → scan s skip limit left idx out
      ≡ out ++ take (limit - length out) (filter (λ e. not (skip e)) (back s.buf s.size idx left))
unfolding scan back prev_index
scan_search s skip limit zero idx out = rw (take-nil, append-nil)
scan_search s skip limit (suc left) idx out =
    let it = get_or s.buf idx blank in
    let rest = filter (λ e. not (skip e)) (back s.buf s.size (prev s.size idx) left) in
    elim (dec_lt (length out) limit) [
      | no full ↦
          let stop : ltb (length out) limit ≡ false = ground arith in
          let none_left : limit - length out ≡ 0 = omega arith in rw (stop, none_left, append-nil)
      | yes room ↦ rw (lt→ltb (length out) limit room) (elim (Bool-cases (skip it)) [
        | inl skipped ↦ rw skipped (scan_search s skip limit left (prev s.size idx) out)
        | inr kept ↦ rw kept (
            scan_search s skip limit left (prev s.size idx) (out ++ (it ∷ []))
            ∙ sym (take-room limit out rest it room))
      ])
    ]

search :
    (s : MemStore) (skip : LogEntry → Bool) (limit left idx : ℕ)
    → scan s skip limit left idx []
      ≡ take limit (filter (λ e. not (skip e)) (back s.buf s.size idx left))
search s skip limit left idx =
    let all_room : limit - 0 ≡ limit = omega arith in
    rw all_room at (scan_search s skip limit left idx [])

back_nothing : (buf : List LogEntry) (size idx n : ℕ) → n ≡ 0 → back buf size idx n ≡ []
unfolding back
back_nothing buf size idx n e = rw e

-- On a valid store `Query` returns the entries that pass the id and text filters, newest first, up
-- to the limit, which is 5000 if the argument is not between 1 and 5000.
pub query_refines :
    (s : MemStore) (q : Bytes) (since_id limit : ℤ)
    → IsValid s
    → query s q since_id limit
      ≡ take
          (limit_of limit)
          (filter (λ e. not (should_skip_entry e (to_lower (trim_space q)) since_id)) (view s))
unfolding query
query_refines s q since_id limit v = elim (ℕ_discrete s.count 0) [
  | yes empty ↦
      let nothing : view s ≡ [] = back_nothing s.buf s.size (prev s.size s.head) s.count empty in
      let is_zero : (s.count == 0) ≡ true = ground arith in
      rw (is_zero, nothing) (sym (take-nil (limit_of limit)))
  | no some_there ↦
      let more : (s.count == 0) ≡ false = ground arith in
      rw (more, start-prev s.head s.size v.positive v.head_in)
        (search s (λ it. should_skip_entry it (to_lower (trim_space q)) since_id) (limit_of limit)
          s.count (prev s.size s.head))
]

-- Every id is below the bound, and below the one in front of it.
abbrev pub Falls : ℕ → List LogEntry → Type 0
Falls b [] = Unit
Falls b (e ∷ es) = (e.id < b) × Falls e.id es

Falls-mono : (a b : ℕ) (es : List LogEntry) → a ≤ b → Falls a es → Falls b es
Falls-mono a b [] h f = tt
Falls-mono a b (e ∷ es) h f = (omega arith, f.1)

Falls-take : (b n : ℕ) (es : List LogEntry) → Falls b es → Falls b (take n es)
Falls-take b zero es f = tt
Falls-take b (suc n) [] f = tt
Falls-take b (suc n) (e ∷ es) f = (f.0, Falls-take e.id n es f.1)

Falls-filter :
    (p : LogEntry → Bool) (b : ℕ) (es : List LogEntry) → Falls b es → Falls b (filter p es)
Falls-filter p b [] f = tt
Falls-filter p b (e ∷ es) f = elim (Bool-cases (p e)) [
  | inl kept ↦ rw kept (f.0, Falls-filter p e.id es f.1)
  | inr skipped ↦ rw skipped (Falls-filter p b es (Falls-mono e.id b es (omega arith) f.1))
]

-- The invariant of the store's users: a valid store whose ids fall.
pub record IsOrdered (s : MemStore) : Type 0 where
  pub valid : IsValid s
  pub falls : Falls s.next_id (view s)

capacity_pos : (n : ℤ) → 1 ≤ capacity n
capacity_pos (ℤ.pos n) = ground arith
capacity_pos (ℤ.negsuc n) = omega arith

new_mem_store-IsOrdered : (n : ℤ) → IsOrdered (new_mem_store n)
unfolding new_mem_store
new_mem_store-IsOrdered n = record {
  valid = record {
    storage = length-replicate (capacity n) blank;
    positive = capacity_pos n;
    head_in = capacity_pos n;
    count_in = omega arith;
  };
  falls = subst (Falls 1) (sym (back_nothing _ _ _ 0 refl)) tt;
}

next_id-insert : (s : MemStore) (e : LogEntry) → s.next_id < (insert s e).0.next_id
unfolding insert
next_id-insert s e = omega arith

insert-IsOrdered : (s : MemStore) (e : LogEntry) → IsOrdered s → IsOrdered (insert s e).0
insert-IsOrdered s e o = record {
  valid = insert-IsValid s e o.valid;
  falls =
      subst (Falls (insert s e).0.next_id) (sym (insert_refines s e o.valid))
        (Falls-take _ s.size (record e { id = s.next_id } ∷ view s) (next_id-insert s e, o.falls));
}

clear-IsOrdered : (s : MemStore) → IsOrdered s → IsOrdered (clear s)
unfolding clear
clear-IsOrdered s o = record {
  valid = record {
    storage = o.valid.storage;
    positive = o.valid.positive;
    head_in = omega (arith, o.valid.positive);
    count_in = omega arith;
  };
  falls = subst (Falls 1) (sym (back_nothing s.buf s.size (prev s.size 0) 0 refl)) tt;
}

-- What happens to a store: entries come in, and the user clears it.
pub data Op : Type 0 where
  add : LogEntry → Op
  wipe : Op

unfoldable pub apply : MemStore → Op → MemStore
apply s (add e) = (insert s e).0
apply s wipe = clear s

unfoldable pub run : MemStore → List Op → MemStore
run s [] = s
run s (op ∷ ops) = run (apply s op) ops

apply-IsOrdered : (s : MemStore) (op : Op) → IsOrdered s → IsOrdered (apply s op)
unfolding apply
apply-IsOrdered s (add e) o = insert-IsOrdered s e o
apply-IsOrdered s wipe o = clear-IsOrdered s o

run-IsOrdered : (s : MemStore) (ops : List Op) → IsOrdered s → IsOrdered (run s ops)
unfolding run
run-IsOrdered s [] o = o
run-IsOrdered s (op ∷ ops) o = run-IsOrdered (apply s op) ops (apply-IsOrdered s op o)

-- Whatever was inserted and cleared since the store was made, and whatever is asked, the results of
-- `Query` have strictly falling ids, all below the next id, and there are no more of them than the
-- limit allows.
pub query_sorted :
    (n : ℤ) (ops : List Op) (q : Bytes) (since_id limit : ℤ)
    → let s = run (new_mem_store n) ops in
      Falls s.next_id (query s q since_id limit)
      × (length (query s q since_id limit) ≤ limit_of limit)
query_sorted n ops q since_id limit =
    let s = run (new_mem_store n) ops in
    let o = run-IsOrdered (new_mem_store n) ops (new_mem_store-IsOrdered n) in
    let skip = λ (e : LogEntry). not (should_skip_entry e (to_lower (trim_space q)) since_id) in
    rw (query_refines s q since_id limit o.valid) (
      Falls-take s.next_id (limit_of limit) _ (Falls-filter skip s.next_id (view s) o.falls),
      length-take_bound (limit_of limit) (filter skip (view s)),
    )
