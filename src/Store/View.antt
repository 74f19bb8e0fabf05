-- ===== src/Store/View.antt =====
-- The store as a bounded list of entries, newest first.
use g0efilter.Prelude.{
  ℕ, zero, suc, ◌+◌, ◌-◌, ◌%◌, ◌≤◌, ◌<◌, ◌≡◌, refl, sym, ap, ◌∙◌, ◌≢◌, ◌⊎◌, false, List, [], ◌∷◌,
  arith, ltb, ◌==◌, if◌then◌else◌, lt→ltb, length, set, get_or, take, length-set, dec_lt,
  take_whole,
}
use native.Mathlib.Numerals.{add-one}
use mathlib.Core.Path.{subst}
use native.Mathlib.Nat.{mod-eq_of_lt, mod-eq-sub-mod}
use g0efilter.Store.{LogEntry, blank, MemStore, insert}

-- The capacity is positive, the buffer has that size, and the head and the count lie within it.
pub record IsValid (s : MemStore) : Type 0 where
  pub storage : length s.buf ≡ s.size
  pub positive : 1 ≤ s.size
  pub head_in : s.head < s.size
  pub count_in : s.count ≤ s.size

-- The index in front of `idx`, going round.
abbrev pub prev : ℕ → ℕ → ℕ
prev size idx = if idx == 0 then size - 1 else idx - 1

-- The `n` entries from `idx` on, backwards.
unfoldable pub back : List LogEntry → ℕ → ℕ → ℕ → List LogEntry
back buf size idx zero = []
back buf size idx (suc n) = get_or buf idx blank ∷ back buf size (prev size idx) n

-- The entries, newest first.
abbrev pub view : MemStore → List LogEntry
view s = back s.buf s.size (prev s.size s.head) s.count

pub length-back : (buf : List LogEntry) (size idx n : ℕ) → length (back buf size idx n) ≡ n
unfolding back
length-back buf size idx zero = refl
length-back buf size idx (suc n) = ap suc (length-back buf size (prev size idx) n)

take-back :
    (buf : List LogEntry) (size idx k n : ℕ)
    → k ≤ n
    → take k (back buf size idx n) ≡ back buf size idx k
unfolding back
take-back buf size idx zero n h = refl
take-back buf size idx (suc k) zero h = absurd (omega arith)
take-back buf size idx (suc k) (suc n) h =
    ap (◌∷◌ (get_or buf idx blank)) (take-back buf size (prev size idx) k n (omega arith))

get_or-set_ne :
    (xs : List LogEntry) (i j : ℕ) (v d : LogEntry)
    → i ≢ j
    → get_or (set xs i v) j d ≡ get_or xs j d
get_or-set_ne [] i j v d h = refl
get_or-set_ne (x ∷ xs) zero zero v d h = absurd (h refl)
get_or-set_ne (x ∷ xs) zero (suc j) v d h = refl
get_or-set_ne (x ∷ xs) (suc i) zero v d h = refl
get_or-set_ne (x ∷ xs) (suc i) (suc j) v d h = get_or-set_ne xs i j v d (λ e. h (ap suc e))

get_or-set_self :
    (xs : List LogEntry) (i : ℕ) (v d : LogEntry) → i < length xs → get_or (set xs i v) i d ≡ v
get_or-set_self [] i v d h = absurd (omega arith)
get_or-set_self (x ∷ xs) zero v d h = refl
get_or-set_self (x ∷ xs) (suc i) v d h = get_or-set_self xs i v d (omega arith)

-- `idx` is `d` steps in front of `head`, going round.
abbrev Ahead : ℕ → ℕ → ℕ → ℕ → Type 0
Ahead size head idx d = (idx ≡ head + d) ⊎ (idx + size ≡ head + d)

-- A write at the head is not seen before the walk comes round to it.
back-set :
    (buf : List LogEntry) (size head idx d n : ℕ) (v : LogEntry)
    → head < size
    → idx < size
    → d < size
    → Ahead size head idx d
    → n ≤ d
    → back (set buf head v) size idx n ≡ back buf size idx n
unfolding back
back-set buf size head idx d zero v h i k a n = refl
back-set buf size head idx d (suc m) v h i k a n = cc (
  get_or-set_ne buf head idx v blank (ground arith),
  back-set buf size head (prev size idx) (d - 1) m v h (ground arith) (omega arith) (ground arith)
      (omega arith),
)

-- The index of the newest entry, as `Query` computes it.
pub start-prev :
    (head size : ℕ) → 1 ≤ size → head < size → (head + size - 1) % size ≡ prev size head
start-prev zero size p h = mod-eq_of_lt (omega arith) ∙ ground arith
start-prev (suc head) size p h = ground (
  arith,
  mod-eq-sub-mod {n = suc head + size - 1} {m = size} (omega arith),
  mod-eq_of_lt {n = suc head + size - 1 - size} {m = size} (omega arith),
)

-- The next head, written out.
next_head :
    (head size : ℕ) → head < size → (head + 1) % size ≡ (if head + 1 == size then 0 else head + 1)
next_head head size h = elim (dec_lt (head + 1) size) [
  | yes p ↦ ground (arith, mod-eq_of_lt p)
  | no p ↦ ground (
    arith,
    mod-eq-sub-mod {n = head + 1} {m = size} (omega arith),
    mod-eq_of_lt {n = head + 1 - size} {m = size} (omega arith),
  )
]

next_in : (head size : ℕ) → head < size → (head + 1) % size < size
next_in head size h = ground (arith, next_head head size h)

pub insert-IsValid : (s : MemStore) (e : LogEntry) → IsValid s → IsValid (insert s e).0
unfolding insert
insert-IsValid s e v =
    ground (
      arith,
      length-set s.buf s.head (record e { id = s.next_id }),
      next_in s.head s.size v.head_in,
    )

-- The head is the newest index after an insertion.
prev-next : (head size : ℕ) → head < size → prev size ((head + 1) % size) ≡ head
prev-next head size h = ground (arith, next_head head size h)

module _ (buf : List LogEntry) (e : LogEntry) (head : ℕ) (storage : head < length buf) where
  back-set_head :
      (size n : ℕ)
      → head < size
      → n < size
      → back (set buf head e) size head (suc n) ≡ e ∷ back buf size (prev size head) n
  unfolding back
  back-set_head size n h k = cc (
    get_or-set_self buf head e blank storage,
    back-set buf size head (prev size head) (size - 1) n e h (ground arith) (omega arith)
        (ground arith) (omega arith),
  )

  -- With room left, and with none.
  grow :
      (size n : ℕ)
      → head < size
      → n < size
      → back (set buf head e) size head (suc n) ≡ take size (e ∷ back buf size (prev size head) n)
  grow size n h k =
      back-set_head size n h k
      ∙ sym (
          take_whole size (e ∷ back buf size (prev size head) n)
            (omega (arith, length-back buf size (prev size head) n)))

  rotate :
      (m : ℕ)
      → head < suc m
      → back (set buf head e) (suc m) head (suc m)
        ≡ take (suc m) (e ∷ back buf (suc m) (prev (suc m) head) (suc m))
  rotate m h =
      back-set_head (suc m) m h (omega arith)
      ∙ ap (◌∷◌ e) (sym (take-back buf (suc m) (prev (suc m) head) m (suc m) (omega arith)))

  turn :
      (size n : ℕ)
      → head < size
      → n ≤ size
      → back (set buf head e) size head (if ltb n size then n + 1 else n)
        ≡ take size (e ∷ back buf size (prev size head) n)
  turn size n h k = elim (dec_lt n size) [
    | yes p ↦ rw (lt→ltb n size p, add-one) (grow size n h p)
    | no p ↦
        let same : n ≡ size = omega arith in
        let full : ltb size size ≡ false = ground arith in
        let whole : size ≡ suc (size - 1) = omega arith in
        rw (same, full)
          (subst (λ k. back (set buf head e) k head k ≡ take k (e ∷ back buf k (prev k head) k))
            (sym whole) (rotate (size - 1) (omega arith)))
  ]

-- `Insert` on a valid store, as the list of its entries: the entry, with its new id, goes in front, and the list is cut to
-- the capacity.
pub insert_refines :
    (s : MemStore) (e : LogEntry)
    → IsValid s
    → view (insert s e).0 ≡ take s.size (record e { id = s.next_id } ∷ view s)
unfolding insert
insert_refines s e v =
    let e' = record e { id = s.next_id } in
    let storage : s.head < length s.buf = omega arith in
    rw (prev-next s.head s.size v.head_in)
      (turn s.buf e' s.head storage s.size s.count v.head_in v.count_in)
