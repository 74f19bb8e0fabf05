-- ===== src/Entry/Literal.antt =====
-- The labels that the names of a policy file may have.
use g0efilter.Prelude.{
  ℕ, zero, suc, ◌-◌, ◌≤◌, ◌≡◌, refl, ap, ◌∙◌, ◌≢◌, ◌↔◌, ◌⊎◌, inl, inr, Bool, true, false, ◌&&◌,
  none, some, List, [], ◌∷◌, arith, leb, ◌==◌, Bool-cases, length, get_or, length-map, All,
  All-mono, all_iff, ◌<◌,
}
use g0efilter.Text.{Bytes, within, to_lower, lower, split}
use g0efilter.Text.Runes.{runes, runes-ascii}
use g0efilter.Pattern.{Env}
use g0efilter.Host.{sanitize_host}
use g0efilter.Host.Valid.{IsLdh, IsDigit, IsLabel, LabelsFit}
use g0efilter.Host.Sanitize.{IsHost-of_sanitize, parts_of_IsHost}
use g0efilter.Entry.{
  is_all_digits, validate_label_chars, validate_label, validate_labels, validate_domain_labels,
}

module _ (env : Env) where
  -- A letter of ASCII, a digit or a hyphen, or a capital letter beyond ASCII.
  abbrev pub IsEntryRune : ℕ → Type 0
  IsEntryRune r = IsLdh r ⊎ ((b'A' ≤ r) × (r ≤ b'Z')) ⊎ ((128 ≤ r) × (env.is_upper r ≡ true))

  -- 1 to 63 bytes of such runes, with no hyphen at either end; the last label is no number.
  abbrev pub IsEntryLabel : Bytes → Bool → Type 0
  IsEntryLabel l is_last =
      (1 ≤ length l)
      × (length l ≤ 63)
      × All IsEntryRune (runes l)
      × (get_or l 0 0 ≢ b'-')
      × (get_or l (length l - 1) 0 ≢ b'-')
      × ((is_last ≡ false) ⊎ ¬ (All IsDigit l))

  abbrev pub AreEntryLabels : List Bytes → Type 0
  AreEntryLabels [] = Unit
  AreEntryLabels (l ∷ ls) = IsEntryLabel l (leb (length ls) 0) × AreEntryLabels ls

digits_iff : (l : Bytes) → (is_all_digits l ≡ true) ↔ All IsDigit l
unfolding is_all_digits
digits_iff l = all_iff (within b'0' b'9') IsDigit (λ c. ground arith) l

chars_iff :
    (env : Env) (l : Bytes) → (validate_label_chars env l ≡ true) ↔ All (IsEntryRune env) (runes l)
unfolding validate_label_chars
chars_iff env l = all_iff _ (IsEntryRune env) (λ c. ground arith) (runes l)

get_or-lower : (l : Bytes) (i : ℕ) → get_or (to_lower l) i 0 ≡ lower (get_or l i 0)
unfolding lower
get_or-lower [] i = refl
get_or-lower (c ∷ l) zero = refl
get_or-lower (c ∷ l) (suc i) = get_or-lower l i

lower_hyphen : (c : ℕ) → (lower c == b'-') ≡ (c == b'-')
unfolding lower
lower_hyphen c = ground arith

digits-lower : (l : Bytes) → is_all_digits (to_lower l) ≡ is_all_digits l
unfolding is_all_digits lower
digits-lower [] = refl
digits-lower (c ∷ l) = ground (arith, digits-lower l)

tail_ok :
    (l : Bytes) (is_last : Bool)
    → (is_last ≡ true → is_all_digits l ≡ false)
    → (is_last ≡ false) ⊎ ¬ (All IsDigit l)
tail_ok l false h = inl refl
tail_ok l true h =
    inr (λ a. let e = (digits_iff l).1 a in let k = h refl in absurd (ground (arith, e, k)))

tail_passes :
    (l : Bytes) (is_last : Bool)
    → (is_last ≡ false) ⊎ ¬ (All IsDigit l)
    → (is_last && is_all_digits l) ≡ false
tail_passes l false h = refl
tail_passes l true (inl e) = absurd (ground (arith, e))
tail_passes l true (inr n) = elim (Bool-cases (is_all_digits l)) [
  | inl e ↦ absurd (n ((digits_iff l).0 e))
  | inr e ↦ e
]

validate_label_iff :
    (env : Env) (l : Bytes) (is_last : Bool)
    → (validate_label env l is_last ≡ none) ↔ IsEntryLabel env l is_last
unfolding validate_label
validate_label_iff env l is_last =
    let n = length-map l lower in
    let first = ap (λ c. c == b'-') (get_or-lower l 0) ∙ lower_hyphen (get_or l 0 0) in
    let final =
      ap (λ c. c == b'-') (get_or-lower l (length l - 1))
      ∙ lower_hyphen (get_or l (length l - 1) 0) in
    let digits = digits-lower l in
    let d = digits_iff l in
    let c = chars_iff env l in
    let final' : (get_or (to_lower l) (length (to_lower l) - 1) 0 == b'-')
        ≡ (get_or l (length l - 1) 0 == b'-') =
      rw n final in
    (
      λ h. (
        ground (arith, h),
        ground (arith, h),
        c.0 (ground (arith, h)),
        ground (arith, h, first),
        ground (arith, h, final'),
        tail_ok l is_last (λ e. ground (arith, h, e, digits)),
      ),
      λ k.
          let (lower_bound, upper_bound, chars, at_first, at_last, tail) = k in
          ground (
            arith,
            lower_bound,
            upper_bound,
            c.1 chars,
            at_first,
            at_last,
            first,
            final',
            digits,
            tail_passes l is_last tail,
          ),
    )

validate_labels_iff :
    (env : Env) (ls : List Bytes) → (validate_labels env ls ≡ none) ↔ AreEntryLabels env ls
unfolding validate_labels
validate_labels_iff env [] = (λ _. tt, λ _. refl)
validate_labels_iff env (l ∷ ls) =
    let here = validate_label_iff env l (leb (length ls) 0) in
    let rest = validate_labels_iff env ls in
    (
      λ h. (here.0 (ground (arith, h)), rest.0 (ground (arith, h, here))),
      λ k. ground (arith, here.1 k.0, rest.1 k.1),
    )

-- `validateDomainLabels` accepts a name exactly when each of its dot-separated labels has 1 to 63
-- bytes, which encode ASCII letters, digits, hyphens and capital letters beyond ASCII, with no hyphen
-- at either end, and the last one is no number.
pub validate_domain_labels_iff :
    (env : Env) (ascii : Bytes)
    → (validate_domain_labels env ascii ≡ none) ↔ AreEntryLabels env (split b'.' ascii)
unfolding validate_domain_labels
validate_domain_labels_iff env ascii = validate_labels_iff env (split b'.' ascii)

ldh_ascii : (l : Bytes) → All IsLdh l → All (λ c. c < 128) l
ldh_ascii l h = All-mono IsLdh (λ c. c < 128) (λ c k. ground (arith, k)) l h

module _ (env : Env) where
  ldh_entry : (l : Bytes) → All IsLdh l → All (IsEntryRune env) (runes l)
  ldh_entry l h =
      rw (runes-ascii l (ldh_ascii l h)) (All-mono IsLdh (IsEntryRune env) (λ c k. inl k) l h)

  of_label :
      (l : Bytes) (is_last : Bool)
      → All IsLdh l
      → IsLabel l
      → (is_last ≡ false) ⊎ ¬ (All IsDigit l)
      → IsEntryLabel env l is_last
  of_label l is_last a v t = (v.lower_bound, v.upper_bound, ldh_entry l a, v.first_ne, v.last_ne, t)

  of_host : (ls : List Bytes) → All (All IsLdh) ls → LabelsFit ls → AreEntryLabels env ls
  of_host [] a f = tt
  of_host (l ∷ []) a f = (of_label l true a.0 f.0 (inr f.1.1), tt)
  of_host (l ∷ m ∷ ls) a f = (of_label l _ a.0 f.0 (inl (ground arith)), of_host (m ∷ ls) a.1 f.1)

  -- Every host name that `sanitizeHost` accepts passes `validateDomainLabels`: the labels of a learned
  -- host are labels that a policy file may have.
  pub validate_domain_labels-of_host :
      (s : Bytes) → sanitize_host s ≡ some s → validate_domain_labels env s ≡ none
  validate_domain_labels-of_host s h =
      let host = IsHost-of_sanitize s h in
      (validate_domain_labels_iff env s).1
        (rw (parts_of_IsHost s host) (of_host host.labels host.alphabet host.fit))
