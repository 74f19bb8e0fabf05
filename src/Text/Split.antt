-- ===== src/Text/Split.antt =====
-- `split` and `join` are inverse on parts that hold no separator.
use g0efilter.Prelude.{
  All-append, ℕ_discrete, ℕ, ◌≡◌, ◌≢◌, refl, ap, List, [], ◌∷◌, ◌++◌, arith, All, inl, inr, ◌==◌,
  Bool-cases, ==_iff, ◌∙◌, false,
}
use g0efilter.Text.{Bytes, cons_head, split, join}

-- No byte of the text is the separator.
abbrev pub Avoids : ℕ → Bytes → Type 0
Avoids sep = All (λ c. c ≢ sep)

module _ (sep : ℕ) where
  pub split_shape : (s : Bytes) → (l : Bytes) × (ls : List Bytes) × (split sep s ≡ l ∷ ls)
  unfolding split
  split_shape [] = ([], [], refl)
  split_shape (x ∷ xs) =
      let (l, ls, e) = split_shape xs in
      elim (Bool-cases (x == sep)) [
        | inl same ↦ ([], l ∷ ls, rw (same, e))
        | inr other ↦ (x ∷ l, ls, rw (other, e))
      ]

  join-cons :
      (x : ℕ) (l : Bytes) (ls : List Bytes) → join sep ((x ∷ l) ∷ ls) ≡ x ∷ join sep (l ∷ ls)
  unfolding join
  join-cons x l [] = refl
  join-cons x l (m ∷ ls) = refl

  join_at_sep : (l : Bytes) (ls : List Bytes) → join sep ([] ∷ l ∷ ls) ≡ sep ∷ join sep (l ∷ ls)
  unfolding join
  join_at_sep l ls = refl

  pub join_one : (l : Bytes) → join sep (l ∷ []) ≡ l
  unfolding join
  join_one l = refl

  -- The two branches of `split` at a byte.
  pub split_at_sep : (xs : Bytes) → split sep (sep ∷ xs) ≡ [] ∷ split sep xs
  unfolding split
  split_at_sep xs = rw ((==_iff sep sep).1 refl)

  pub split_of_eq : (x : ℕ) (xs : Bytes) → x ≡ sep → split sep (x ∷ xs) ≡ [] ∷ split sep xs
  split_of_eq x xs p = ap (λ y. split sep (y ∷ xs)) p ∙ split_at_sep xs

  pub split_nil : split sep [] ≡ [] ∷ []
  unfolding split
  split_nil = refl

  pub split_at_other :
      (x : ℕ) (xs : Bytes) → x ≢ sep → split sep (x ∷ xs) ≡ cons_head x (split sep xs)
  unfolding split
  split_at_other x xs h = let e : (x == sep) ≡ false = ground arith in rw e

  pub join-split : (s : Bytes) → join sep (split sep s) ≡ s
  join-split [] = unfold split join in refl
  join-split (x ∷ xs) =
      let (l, ls, e) = split_shape xs in
      let ih : join sep (l ∷ ls) ≡ xs = rw (← e) (join-split xs) in
      elim (ℕ_discrete x sep) [
        | yes p ↦ rw (p, split_at_sep, e) (join_at_sep l ls ∙ ap (◌∷◌ sep) ih)
        | no p ↦ rw (split_at_other x xs p, e) (join-cons x l ls ∙ ap (◌∷◌ x) ih)
      ]

  Avoids-cons_head :
      (x : ℕ) (ls : List Bytes) → x ≢ sep → All (Avoids sep) ls → All (Avoids sep) (cons_head x ls)
  Avoids-cons_head x [] h k = ((h, tt), tt)
  Avoids-cons_head x (l ∷ ls) h k = ((h, k.0), k.1)

  pub Avoids-split : (s : Bytes) → All (Avoids sep) (split sep s)
  Avoids-split [] = unfold split in (tt, tt)
  Avoids-split (x ∷ xs) = elim (ℕ_discrete x sep) [
    | yes p ↦ rw (p, split_at_sep) (tt, Avoids-split xs)
    | no p ↦ rw (split_at_other x xs p) (Avoids-cons_head x (split sep xs) p (Avoids-split xs))
  ]

  pub split_of_Avoids : (l : Bytes) → Avoids sep l → split sep l ≡ l ∷ []
  split_of_Avoids [] h = unfold split in refl
  split_of_Avoids (x ∷ l) h = split_at_other x l h.0 ∙ ap (cons_head x) (split_of_Avoids l h.1)

  split-append : (l r : Bytes) → Avoids sep l → split sep (l ++ (sep ∷ r)) ≡ l ∷ split sep r
  split-append [] r h = split_at_sep r
  split-append (x ∷ l) r h =
      split_at_other x (l ++ (sep ∷ r)) h.0 ∙ ap (cons_head x) (split-append l r h.1)

  pub split-join :
      (l : Bytes) (ls : List Bytes)
      → All (Avoids sep) (l ∷ ls)
      → split sep (join sep (l ∷ ls)) ≡ l ∷ ls
  unfolding join
  split-join l [] h = split_of_Avoids l h.0
  split-join l (m ∷ ls) h =
      split-append l (join sep (m ∷ ls)) h.0 ∙ ap (◌∷◌ l) (split-join m ls h.1)

  All-cons_head :
      (P : ℕ → Type 0) (x : ℕ) (ls : List Bytes)
      → P x
      → All (All P) ls
      → All (All P) (cons_head x ls)
  All-cons_head P x [] h k = ((h, tt), tt)
  All-cons_head P x (l ∷ ls) h k = ((h, k.0), k.1)

  -- What holds of each byte of a text holds of each byte of its parts.
  pub All-split : (P : ℕ → Type 0) (s : Bytes) → All P s → All (All P) (split sep s)
  All-split P [] h = unfold split in (tt, tt)
  All-split P (x ∷ xs) h = elim (ℕ_discrete x sep) [
    | yes p ↦ rw (p, split_at_sep) (tt, All-split P xs h.1)
    | no p ↦ rw (split_at_other x xs p) (All-cons_head P x (split sep xs) h.0 (All-split P xs h.1))
  ]

  -- What holds of the separator and of each byte of the parts holds of each byte of the text.
  pub All-join : (P : ℕ → Type 0) (ls : List Bytes) → P sep → All (All P) ls → All P (join sep ls)
  unfolding join
  All-join P [] h k = tt
  All-join P (l ∷ []) h k = k.0
  All-join P (l ∷ m ∷ ls) h k =
      All-append P l (sep ∷ join sep (m ∷ ls)) k.0 (h, All-join P (m ∷ ls) h k.1)
