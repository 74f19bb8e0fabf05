-- ===== src/Host/Sanitize.antt =====
-- `sanitizeHost` accepts exactly the host names of `Host.Valid`, unchanged.
use g0efilter.Prelude.{
  ℕ, ◌≤◌, ◌≡◌, refl, sym, ap, ◌∙◌, ◌≢◌, ◌↔◌, ◌⊎◌, inl, inr, true, some, List, [], ◌∷◌, arith,
  length, All, All-mono,
}
use mathlib.Core.Path.{subst}
use g0efilter.Host.{
  has_valid_labels, has_valid_length, has_valid_characters, has_valid_structure, sanitize_host,
}
use g0efilter.Host.Structure.{structure_of_labels}
use g0efilter.Host.Valid.{IsLdh, LabelsFit, IsHost, check_labels_iff, chars_iff}
use g0efilter.Text.{Bytes, split, join}
use g0efilter.Text.Split.{
  Avoids, split_shape, join-split, split-join, Avoids-split, All-split, All-join,
}

-- The label test in terms of the parts of the name.
labels_iff :
    (s : Bytes)
    → (has_valid_labels s ≡ true) ↔ ((2 ≤ length (split b'.' s)) × LabelsFit (split b'.' s))
unfolding has_valid_labels
labels_iff s =
    let (l, ls, e) = split_shape b'.' s in
    rw e (ground (arith, check_labels_iff (length (l ∷ ls)) 0 l ls (omega arith)))

-- Bytes that are neither a dot nor refused are those of labels.
IsLdh-of_char : (c : ℕ) → (IsLdh c ⊎ (c ≡ b'.')) × (c ≢ b'.') → IsLdh c
IsLdh-of_char c h = ground arith

All-pair : (P Q : ℕ → Type 0) (xs : Bytes) → All P xs → All Q xs → All (λ c. P c × Q c) xs
All-pair P Q [] h k = tt
All-pair P Q (x ∷ xs) h k = ((h.0, k.0), All-pair P Q xs h.1 k.1)

IsLdh-parts :
    (ls : List Bytes)
    → All (All (λ c. IsLdh c ⊎ (c ≡ b'.'))) ls
    → All (Avoids b'.') ls
    → All (All IsLdh) ls
IsLdh-parts [] h k = tt
IsLdh-parts (l ∷ ls) h k =
    (All-mono _ IsLdh IsLdh-of_char l (All-pair _ _ l h.0 k.0), IsLdh-parts ls h.1 k.1)

Avoids-parts : (ls : List Bytes) → All (All IsLdh) ls → All (Avoids b'.') ls
Avoids-parts ls h =
    All-mono (All IsLdh) (Avoids b'.') (λ l. All-mono IsLdh _ (λ c k. ground arith) l) ls h

split-labels :
    (ls : List Bytes) → LabelsFit ls → All (Avoids b'.') ls → split b'.' (join b'.' ls) ≡ ls
split-labels [] h k = absurd h
split-labels (l ∷ ls) h k = split-join b'.' l ls k

-- A name is returned unchanged, never repaired.
unchanged : (s t : Bytes) → sanitize_host s ≡ some t → t ≡ s
unfolding sanitize_host
unchanged s t h = ground arith

-- Acceptance, test by test.
accepted_iff :
    (s : Bytes)
    → (sanitize_host s ≡ some s) ↔ (
        (has_valid_length s ≡ true)
        × (has_valid_characters s ≡ true)
        × (has_valid_structure s ≡ true)
        × (has_valid_labels s ≡ true))
unfolding sanitize_host
accepted_iff s = ground arith

length_iff : (s : Bytes) → (has_valid_length s ≡ true) ↔ ((1 ≤ length s) × (length s ≤ 253))
unfolding has_valid_length
length_iff s = ground arith

pub IsHost-of_sanitize : (s : Bytes) → sanitize_host s ≡ some s → IsHost s
IsHost-of_sanitize s h =
    let (ok_length, ok_chars, ok_structure, ok_labels) = (accepted_iff s).0 h in
    let fits = (labels_iff s).0 ok_labels in
    record {
      labels = split b'.' s;
      joined = join-split b'.' s;
      several = fits.0;
      alphabet =
          IsLdh-parts (split b'.' s) (All-split b'.' _ s ((chars_iff s).0 ok_chars))
            (Avoids-split b'.' s);
      fit = fits.1;
      short = ((length_iff s).0 ok_length).1;
    }

nonempty_of_labels : (s : Bytes) → 2 ≤ length (split b'.' s) → 1 ≤ length s
unfolding split
nonempty_of_labels [] h = omega arith
nonempty_of_labels (x ∷ xs) h = omega arith

-- The labels are the parts between the dots.
pub parts_of_IsHost : (s : Bytes) (h : IsHost s) → split b'.' s ≡ h.labels
parts_of_IsHost s h =
    ap (split b'.') (sym h.joined) ∙ split-labels h.labels h.fit (Avoids-parts h.labels h.alphabet)

pub chars_of_IsHost : (s : Bytes) → IsHost s → All (λ c. IsLdh c ⊎ (c ≡ b'.')) s
chars_of_IsHost s h = subst (All _) h.joined (
    All-join b'.' _ h.labels (inr refl)
      (All-mono (All IsLdh) _ (λ l. All-mono IsLdh _ (λ c. inl) l) h.labels h.alphabet))

pub sanitize_of_IsHost : (s : Bytes) → IsHost s → sanitize_host s ≡ some s
sanitize_of_IsHost s h =
    let parts = parts_of_IsHost s h in
    let several : 2 ≤ length (split b'.' s) = rw parts h.several in
    let fit : LabelsFit (split b'.' s) = rw parts h.fit in
    (accepted_iff s).1 (
      (length_iff s).1 (nonempty_of_labels s several, h.short),
      (chars_iff s).1 (chars_of_IsHost s h),
      structure_of_labels s fit,
      (labels_iff s).1 (several, fit),
    )

-- `sanitizeHost` returns a name exactly when it is the given one and that is a host name: labels
-- of 1 to 63 letters, digits and hyphens with no hyphen at an end, two of them at least, at most
-- 253 bytes in all, and a last label of two bytes or more that is not all digits.
pub sanitize_host_iff : (s t : Bytes) → (sanitize_host s ≡ some t) ↔ ((t ≡ s) × IsHost s)
sanitize_host_iff s t = (
  λ h. let e = unchanged s t h in (e, IsHost-of_sanitize s (rw e at h)),
  λ k. rw k.0 (sanitize_of_IsHost s k.1),
)
