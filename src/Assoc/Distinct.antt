-- ===== src/Assoc/Distinct.antt =====
-- The keys of a map stay distinct.
use g0efilter.Prelude.{
  ◌≡◌, refl, inl, inr, Bool, false, none, List, [], ◌∷◌, arith, Bool-cases, All,
}
use g0efilter.Assoc.{lookup, insert, remove, delete_where, Fresh, IsMap}
use g0efilter.Text.{Bytes, equal}
use g0efilter.Text.Laws.{equal_iff}

-- A predicate of the keys that holds of a map holds after each operation.
module _ {V : Type 0} (Q : Bytes → Type 0) where
  pub keys-insert :
      (k : Bytes) (v : V) (m : List (Bytes × V))
      → Q k
      → All (λ e. Q e.0) m
      → All (λ e. Q e.0) (insert k v m)
  unfolding insert
  keys-insert k v [] q a = (q, tt)
  keys-insert k v ((i, w) ∷ m) q a = elim (Bool-cases (equal i k)) [
    | inl same ↦ rw same (q, a.1)
    | inr other ↦ rw other (a.0, keys-insert k v m q a.1)
  ]

  pub keys-remove :
      (k : Bytes) (m : List (Bytes × V)) → All (λ e. Q e.0) m → All (λ e. Q e.0) (remove k m)
  unfolding remove
  keys-remove k [] a = tt
  keys-remove k ((i, w) ∷ m) a = elim (Bool-cases (equal i k)) [
    | inl same ↦ rw same (keys-remove k m a.1)
    | inr other ↦ rw other (a.0, keys-remove k m a.1)
  ]

  pub keys-delete_where :
      (p : V → Bool) (m : List (Bytes × V))
      → All (λ e. Q e.0) m
      → All (λ e. Q e.0) (delete_where p m)
  unfolding delete_where
  keys-delete_where p [] a = tt
  keys-delete_where p ((i, w) ∷ m) a = elim (Bool-cases (p w)) [
    | inl dropped ↦ rw dropped (keys-delete_where p m a.1)
    | inr kept ↦ rw kept (a.0, keys-delete_where p m a.1)
  ]

module _ {V : Type 0} where
  pub lookup_of_Fresh : (k : Bytes) (m : List (Bytes × V)) → Fresh k m → lookup k m ≡ none
  unfolding lookup
  lookup_of_Fresh k [] f = refl
  lookup_of_Fresh k (e ∷ m) f = ground (arith, lookup_of_Fresh k m f.1)

  pub IsMap-insert : (k : Bytes) (v : V) (m : List (Bytes × V)) → IsMap m → IsMap (insert k v m)
  unfolding insert
  IsMap-insert k v [] d = (tt, tt)
  IsMap-insert k v ((i, w) ∷ m) d = elim (Bool-cases (equal i k)) [
    | inl same ↦ rw same (let e : i ≡ k = (equal_iff i k).0 same in rw (← e) (d.0, d.1))
    | inr other ↦
        let other' : equal k i ≡ false = ground (arith, equal_iff k i, equal_iff i k) in
        rw other (keys-insert (λ j. equal j i ≡ false) k v m other' d.0, IsMap-insert k v m d.1)
  ]

  pub IsMap-remove : (k : Bytes) (m : List (Bytes × V)) → IsMap m → IsMap (remove k m)
  unfolding remove
  IsMap-remove k [] d = tt
  IsMap-remove k ((i, w) ∷ m) d = elim (Bool-cases (equal i k)) [
    | inl same ↦ rw same (IsMap-remove k m d.1)
    | inr other ↦ rw other (keys-remove (λ j. equal j i ≡ false) k m d.0, IsMap-remove k m d.1)
  ]

  pub IsMap-delete_where :
      (p : V → Bool) (m : List (Bytes × V)) → IsMap m → IsMap (delete_where p m)
  unfolding delete_where
  IsMap-delete_where p [] d = tt
  IsMap-delete_where p ((i, w) ∷ m) d = elim (Bool-cases (p w)) [
    | inl dropped ↦ rw dropped (IsMap-delete_where p m d.1)
    | inr kept ↦
        rw kept (keys-delete_where (λ j. equal j i ≡ false) p m d.0, IsMap-delete_where p m d.1)
  ]
