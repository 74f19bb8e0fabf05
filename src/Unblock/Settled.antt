-- ===== src/Unblock/Settled.antt =====
-- Asking twice, and acknowledging twice.
use g0efilter.Prelude.{
  ℕ, zero, suc, ◌≤◌, ◌≡◌, refl, sym, ap, ◌∙◌, inl, inr, true, false, none, some, List, [], ◌∷◌,
  ◌++◌, arith, ltb, leb, if◌then◌else◌, Bool-cases, Option-cases, length, drop, length-append, Has,
}
use g0efilter.Text.{Bytes, to_lower, trim_space}
use g0efilter.Text.Laws.{equal_refl}
use g0efilter.Assoc.{lookup, insert, remove}
use g0efilter.Assoc.Laws.{lookup-remove}
use g0efilter.Unblock.{
  UnblockRequest, CompletedUnblock, Requests, UnblockStore, max_completed, new_request, complete,
  find_duplicate, add, keep_last, acknowledge,
}

find_inserted :
    (now : ℕ) (id kind value target : Bytes) (m : Requests)
    → find_duplicate kind value target m ≡ none
    → find_duplicate kind value target (insert id (new_request now id kind value target) m)
      ≡ some id
unfolding find_duplicate insert
find_inserted now id kind value target [] h =
    ground (arith, equal_refl kind, equal_refl value, equal_refl target)
find_inserted now id kind value target ((i, w) ∷ m) h = ground (
  arith,
  equal_refl kind,
  equal_refl value,
  equal_refl target,
  h,
  find_inserted now id kind value target m (ground (arith, h)),
)

module _ (now : ℕ) (id kind value target : Bytes) (s : UnblockStore) where
  add_pending :
      (pending : Bytes)
      → find_duplicate kind value (to_lower (trim_space target)) s.requests ≡ some pending
      → add now id kind value target s ≡ (pending, s)
  unfolding add
  add_pending pending e = rw (e, add) refl

  add_full :
      find_duplicate kind value (to_lower (trim_space target)) s.requests ≡ none
      → leb s.max_pending (length s.requests) ≡ true
      → add now id kind value target s ≡ ([], s)
  unfolding add
  add_full e full = rw (e, add, full) refl

  add_room :
      find_duplicate kind value (to_lower (trim_space target)) s.requests ≡ none
      → leb s.max_pending (length s.requests) ≡ false
      → add now id kind value target s ≡ (
        id,
        record s {
          requests =
              insert id (new_request now id kind value (to_lower (trim_space target))) s.requests;
        },
      )
  unfolding add
  add_room e room = rw (e, add, room) refl

-- Adding the same request again, at any later time and whatever id is drawn, gives what the first
-- call gave and leaves the store as that call left it.
pub add-again :
    (now later : ℕ) (id other kind value target : Bytes) (s : UnblockStore)
    → let first = add now id kind value target s in
      add later other kind value target first.1 ≡ first
add-again now later id other kind value target s =
    let t = to_lower (trim_space target) in
    let again : UnblockStore → Bytes × UnblockStore = λ r. add later other kind value target r in
    elim (Option-cases (find_duplicate kind value t s.requests)) [
      | inr (pending, e) ↦
          let first = add_pending now id kind value target s pending e in
          ap (λ r. again r.1) first
          ∙ add_pending later other kind value target s pending e
          ∙ sym first
      | inl e ↦ elim (Bool-cases (leb s.max_pending (length s.requests))) [
        | inl full ↦
            let first = add_full now id kind value target s e full in
            ap (λ r. again r.1) first ∙ add_full later other kind value target s e full ∙ sym first
        | inr room ↦
            let first = add_room now id kind value target s e room in
            ap (λ r. again r.1) first
            ∙ add_pending later other kind value target _ id
                (find_inserted now id kind value t s.requests e)
            ∙ sym first
      ]
    ]

drop-keeps :
    (k : ℕ) (xs : List CompletedUnblock) (c : CompletedUnblock)
    → k ≤ length xs
    → Has c (drop k (xs ++ (c ∷ [])))
drop-keeps zero [] c h = inl refl
drop-keeps zero (x ∷ xs) c h = inr (drop-keeps zero xs c (omega arith))
drop-keeps (suc k) [] c h = absurd (omega arith)
drop-keeps (suc k) (x ∷ xs) c h = drop-keeps k xs c (omega arith)

kept :
    (xs : List CompletedUnblock) (c : CompletedUnblock)
    → Has c (keep_last max_completed (xs ++ (c ∷ [])))
kept xs c = elim (Bool-cases (ltb max_completed (length (xs ++ (c ∷ []))))) [
  | inl long ↦ rw long (drop-keeps _ xs c (omega (arith, length-append xs (c ∷ []))))
  | inr short ↦ rw short (drop-keeps 0 xs c (omega arith))
]

acknowledge_found :
    (now : ℕ) (id : Bytes) (s : UnblockStore) (req : UnblockRequest)
    → lookup id s.requests ≡ some req
    → acknowledge now id s ≡ (
      true,
      record s {
        requests = remove id s.requests;
        completed = keep_last max_completed (s.completed ++ (complete now req ∷ []));
      },
    )
unfolding acknowledge
acknowledge_found now id s req h = rw (h, acknowledge) refl

acknowledge_missing :
    (now : ℕ) (id : Bytes) (s : UnblockStore)
    → lookup id s.requests ≡ none
    → acknowledge now id s ≡ (false, s)
unfolding acknowledge
acknowledge_missing now id s h = rw (h, acknowledge) refl

-- An acknowledgement of an id under which a request is pending succeeds: then nothing is pending
-- under the id, the request is among the completed ones, and acknowledging the id again fails and
-- changes nothing.
pub acknowledge-once :
    (now later : ℕ) (id : Bytes) (s : UnblockStore) (req : UnblockRequest)
    → lookup id s.requests ≡ some req
    → let first = acknowledge now id s in
      (first.0 ≡ true)
      × (lookup id first.1.requests ≡ none)
      × Has (complete now req) first.1.completed
      × (acknowledge later id first.1 ≡ (false, first.1))
acknowledge-once now later id s req h =
    let gone : lookup id (remove id s.requests) ≡ none =
      lookup-remove id id s.requests
      ∙ ap (λ t. if t then none else lookup id s.requests) (equal_refl id) in
    rw (acknowledge_found now id s req h)
      (refl, gone, kept s.completed (complete now req), acknowledge_missing later id _ gone)
