-- ===== src/Assoc/Laws.antt =====
-- What a map holds after a write or a deletion, and how many entries.
use g0efilter.Prelude.{
  ◌+◌, ◌≤◌, ◌≡◌, refl, inl, inr, Bool, none, some, List, [], ◌∷◌, arith, if◌then◌else◌, Bool-cases,
  length, All,
}
use g0efilter.Assoc.{lookup, insert, remove, delete_where}
use g0efilter.Text.{Bytes, equal}
use g0efilter.Text.Laws.{equal_iff}

module _ {V : Type 0} where
  pub lookup-insert :
      (k j : Bytes) (v : V) (m : List (Bytes × V))
      → lookup j (insert k v m) ≡ (if equal k j then some v else lookup j m)
  unfolding lookup insert
  lookup-insert k j v [] = refl
  lookup-insert k j v ((i, w) ∷ m) =
      ground (arith, equal_iff k j, equal_iff i k, equal_iff i j, lookup-insert k j v m)

  pub lookup-remove :
      (k j : Bytes) (m : List (Bytes × V))
      → lookup j (remove k m) ≡ (if equal k j then none else lookup j m)
  unfolding lookup remove
  lookup-remove k j [] = ground arith
  lookup-remove k j ((i, w) ∷ m) =
      ground (arith, equal_iff k j, equal_iff i k, equal_iff i j, lookup-remove k j m)

  -- A write to a key that is there keeps the size; a new key adds one.
  pub length-insert_old :
      (k : Bytes) (v : V) (m : List (Bytes × V)) (u : V)
      → lookup k m ≡ some u
      → length (insert k v m) ≡ length m
  unfolding lookup insert
  length-insert_old k v [] u h = ground arith
  length-insert_old k v ((i, w) ∷ m) u h = ground (arith, length-insert_old k v m u)

  pub length-insert_le :
      (k : Bytes) (v : V) (m : List (Bytes × V)) → length (insert k v m) ≤ length m + 1
  unfolding insert
  length-insert_le k v [] = omega arith
  length-insert_le k v ((i, w) ∷ m) = ground (arith, length-insert_le k v m)

  pub length-remove_le : (k : Bytes) (m : List (Bytes × V)) → length (remove k m) ≤ length m
  unfolding remove
  length-remove_le k [] = omega arith
  length-remove_le k ((i, w) ∷ m) = ground (arith, length-remove_le k m)

  pub length-remove_lt :
      (k : Bytes) (m : List (Bytes × V)) (u : V)
      → lookup k m ≡ some u
      → length (remove k m) + 1 ≤ length m
  unfolding lookup remove
  length-remove_lt k [] u h = ground arith
  length-remove_lt k ((i, w) ∷ m) u h = ground (arith, length-remove_lt k m u, length-remove_le k m)

  pub length-delete_where_le :
      (p : V → Bool) (m : List (Bytes × V)) → length (delete_where p m) ≤ length m
  unfolding delete_where
  length-delete_where_le p [] = omega arith
  length-delete_where_le p ((i, w) ∷ m) = ground (arith, length-delete_where_le p m)

  -- A predicate of the values that holds of a map holds after each operation.
  module _ (P : V → Type 0) where
    pub All-insert :
        (k : Bytes) (v : V) (m : List (Bytes × V))
        → P v
        → All (λ e. P e.1) m
        → All (λ e. P e.1) (insert k v m)
    unfolding insert
    All-insert k v [] h a = (h, tt)
    All-insert k v ((i, w) ∷ m) h a = elim (Bool-cases (equal i k)) [
      | inl same ↦ rw same (h, a.1)
      | inr other ↦ rw other (a.0, All-insert k v m h a.1)
    ]

    pub All-remove :
        (k : Bytes) (m : List (Bytes × V)) → All (λ e. P e.1) m → All (λ e. P e.1) (remove k m)
    unfolding remove
    All-remove k [] a = tt
    All-remove k ((i, w) ∷ m) a = elim (Bool-cases (equal i k)) [
      | inl same ↦ rw same (All-remove k m a.1)
      | inr other ↦ rw other (a.0, All-remove k m a.1)
    ]

    pub All-delete_where :
        (p : V → Bool) (m : List (Bytes × V))
        → All (λ e. P e.1) m
        → All (λ e. P e.1) (delete_where p m)
    unfolding delete_where
    All-delete_where p [] a = tt
    All-delete_where p ((i, w) ∷ m) a = elim (Bool-cases (p w)) [
      | inl dropped ↦ rw dropped (All-delete_where p m a.1)
      | inr kept ↦ rw kept (a.0, All-delete_where p m a.1)
    ]

    pub lookup-All :
        (k : Bytes) (m : List (Bytes × V)) {v : V} → All (λ e. P e.1) m → lookup k m ≡ some v → P v
    unfolding lookup
    lookup-All k [] a h = absurd (ground arith)
    lookup-All k ((i, w) ∷ m) {v} a h = elim (Bool-cases (equal i k)) [
      | inl same ↦ let e : w ≡ v = ground arith in rw (← e) a.0
      | inr other ↦ lookup-All k m a.1 (ground arith)
    ]
