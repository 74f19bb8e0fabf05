-- ===== src/PolicyFile/Entries.antt =====
-- internal/policy/policy.go: what the validation of a list returns.
use g0efilter.Prelude.{
  ◌≡◌, refl, sym, ap, ◌∙◌, ◌↔◌, ◌⊎◌, inl, inr, true, false, not, ◌||◌, Option, none, List, [], ◌∷◌,
  map, arith, ◌==◌, Bool-cases, Option-cases, All, filter,
}
use g0efilter.Text.{within, Bytes, is_empty, trim_left, trim_right, trim_space}
use g0efilter.Entry.{EntryError}
use g0efilter.PolicyFile.{PolicyError, Result, ok, error, validate_entries}

-- A text that begins with no white space.
Starts : Bytes → Type 0
Starts [] = Unit
Starts (c ∷ s) = (within 9 13 c || c == 32) ≡ false

trim_left-Starts : (s : Bytes) → Starts (trim_left s)
unfolding trim_left Starts
trim_left-Starts [] = tt
trim_left-Starts (c ∷ s) = elim (Bool-cases (within 9 13 c || c == 32)) [
  | inl e ↦ rw e (trim_left-Starts s)
  | inr e ↦ rw (e, Starts) e
]

trim_right-Starts : (s : Bytes) → Starts s → Starts (trim_right s)
unfolding trim_right Starts
trim_right-Starts [] h = tt
trim_right-Starts (c ∷ s) h = rw (h, Starts) h

Starts-trim_left : (s : Bytes) → Starts s → trim_left s ≡ s
unfolding trim_left Starts
Starts-trim_left [] h = refl
Starts-trim_left (c ∷ s) h = rw h refl

trim_right_idem : (s : Bytes) → trim_right (trim_right s) ≡ trim_right s
unfolding trim_right
trim_right_idem [] = refl
trim_right_idem (c ∷ s) = ground (arith, trim_right_idem s)

pub trim_space_idem : (s : Bytes) → trim_space (trim_space s) ≡ trim_space s
unfolding trim_space
trim_space_idem s =
    ap trim_right (
      Starts-trim_left (trim_right (trim_left s))
        (trim_right-Starts (trim_left s) (trim_left-Starts s)))
    ∙ trim_right_idem (trim_left s)

pub Result-cases :
    {A : Type 0} (r : Result A) → ((e : PolicyError) × (r ≡ error e)) ⊎ ((a : A) × (r ≡ ok a))
Result-cases (error e) = inl (e, refl)
Result-cases (ok a) = inr (a, refl)

ok_inj : {xs ys : List Bytes} → ok xs ≡ ok ys → xs ≡ ys
ok_inj e = ground (arith, e)

-- An entry that the validation lets through: blank, or valid when trimmed.
abbrev pub IsClean : (Bytes → Option EntryError) → Bytes → Type 0
IsClean check raw = (is_empty (trim_space raw) ≡ true) ⊎ (check (trim_space raw) ≡ none)

abbrev pub kept : List Bytes → List Bytes
kept entries = filter (λ s. not (is_empty s)) (map trim_space entries)

module _ (check : Bytes → Option EntryError) (fail : EntryError → PolicyError) where
  validate_clean :
      (entries : List Bytes)
      → All (IsClean check) entries
      → validate_entries check fail entries ≡ ok (kept entries)
  unfolding validate_entries
  validate_clean [] h = refl
  validate_clean (raw ∷ entries) h = ground (arith, h.0, validate_clean entries h.1)

  head-IsClean :
      (raw : Bytes) (entries : List Bytes) {xs : List Bytes}
      → validate_entries check fail (raw ∷ entries) ≡ ok xs
      → IsClean check raw
  unfolding validate_entries
  head-IsClean raw entries h = elim (Bool-cases (is_empty (trim_space raw))) [
    | inl e ↦ inl e
    | inr e ↦ elim (Option-cases (check (trim_space raw))) [
      | inl c ↦ inr c
      | inr (x, c) ↦ absurd (ground (arith, h, e, c))
    ]
  ]

  IsClean-validated :
      (entries : List Bytes) {xs : List Bytes}
      → validate_entries check fail entries ≡ ok xs
      → All (IsClean check) entries
  unfolding validate_entries
  IsClean-validated [] h = tt
  IsClean-validated (raw ∷ entries) {xs} h =
      elim (Result-cases (validate_entries check fail entries)) [
        | inl (e, q) ↦ absurd (ground (arith, h, q))
        | inr (ys, q) ↦ (head-IsClean raw entries h, IsClean-validated entries q)
      ]

  -- The validation of a list succeeds exactly when every entry of it is blank or valid, and returns the
  -- trimmed entries that are not blank, in their order.
  pub validate_entries_iff :
      (entries xs : List Bytes)
      → (validate_entries check fail entries ≡ ok xs)
        ↔ (All (IsClean check) entries × (xs ≡ kept entries))
  validate_entries_iff entries xs = (
    λ h.
        let clean = IsClean-validated entries h in
        (clean, ok_inj (sym h ∙ validate_clean entries clean)),
    λ h. validate_clean entries h.0 ∙ ap ok (sym h.1),
  )
