-- ===== src/Host/Structure.antt =====
-- `hasValidStructure` refuses nothing that `hasValidLabels` accepts.
use mathlib.Core.Path.{subst}
use g0efilter.Prelude.{
  ℕ, suc, ◌-◌, ◌≤◌, ◌≡◌, refl, sym, ap, ◌∙◌, ◌≢◌, true, false, List, [], ◌∷◌, arith, length, get_or,
  drop, All, ℕ_discrete,
}
use g0efilter.Host.{has_valid_structure}
use g0efilter.Host.Valid.{IsLabel, LabelsFit}
use g0efilter.Text.{Bytes, codes, split, contains, has_suffix, has_prefix, cons_head, join}
use g0efilter.Text.Split.{split_shape, split_of_eq, split_nil, split_at_other, join-split, join_one}

-- The structure test refuses nothing that the label test accepts.
abbrev pub last_byte : Bytes → ℕ
last_byte s = get_or s (length s - 1) 0

abbrev pub NonEmpty : Bytes → Type 0
NonEmpty l = 1 ≤ length l

LabelsFit-NonEmpty : (ls : List Bytes) → LabelsFit ls → All NonEmpty ls
LabelsFit-NonEmpty [] h = tt
LabelsFit-NonEmpty (l ∷ []) h = (h.0.lower_bound, tt)
LabelsFit-NonEmpty (l ∷ m ∷ ls) h = (h.0.lower_bound, LabelsFit-NonEmpty (m ∷ ls) h.1)

-- The last of the parts ends in no hyphen.
abbrev pub LastFits : List Bytes → Type 0
LastFits [] = ⊥
LastFits (l ∷ []) = NonEmpty l × (last_byte l ≢ b'-')
LastFits (l ∷ m ∷ ls) = LastFits (m ∷ ls)

LabelsFit-LastFits : (ls : List Bytes) → LabelsFit ls → LastFits ls
LabelsFit-LastFits [] h = h
LabelsFit-LastFits (l ∷ []) h = (h.0.lower_bound, h.0.last_ne)
LabelsFit-LastFits (l ∷ m ∷ ls) h = LabelsFit-LastFits (m ∷ ls) h.1

abbrev TailNonEmpty : List Bytes → Type 0
TailNonEmpty [] = Unit
TailNonEmpty (l ∷ ls) = All NonEmpty ls

TailNonEmpty-cons_head : (x : ℕ) (ls : List Bytes) → TailNonEmpty (cons_head x ls) → TailNonEmpty ls
TailNonEmpty-cons_head x [] h = tt
TailNonEmpty-cons_head x (l ∷ ls) h = h

TailNonEmpty-of_All : (ls : List Bytes) → All NonEmpty ls → TailNonEmpty ls
TailNonEmpty-of_All [] h = tt
TailNonEmpty-of_All (l ∷ ls) h = h.1

-- A text with a first part begins with no dot.
no_leading_dot : (s : Bytes) → All NonEmpty (split b'.' s) → has_prefix (codes ".") s ≡ false
no_leading_dot [] h = refl
no_leading_dot (x ∷ xs) h = elim (ℕ_discrete x b'.') [
  | yes p ↦
      let k : All NonEmpty ([] ∷ split b'.' xs) =
        subst (All NonEmpty) (split_of_eq b'.' x xs p) h in
      absurd (omega (arith, k.0))
  | no p ↦ ground arith
]

-- Two dots in a row make an empty part behind the first one.
no_double_dot : (s : Bytes) → TailNonEmpty (split b'.' s) → contains (codes "..") s ≡ false
unfolding contains
no_double_dot [] h = refl
no_double_dot (x ∷ xs) h = elim (ℕ_discrete x b'.') [
  | yes p ↦
      let k : All NonEmpty (split b'.' xs) = subst TailNonEmpty (split_of_eq b'.' x xs p) h in
      ground (arith, no_leading_dot xs k, no_double_dot xs (TailNonEmpty-of_All (split b'.' xs) k))
  | no p ↦
      let k : TailNonEmpty (cons_head x (split b'.' xs)) =
        subst TailNonEmpty (split_at_other b'.' x xs p) h in
      ground (arith, no_double_dot xs (TailNonEmpty-cons_head x (split b'.' xs) k))
]

last_byte-cons : (x : ℕ) (xs : Bytes) → NonEmpty xs → last_byte (x ∷ xs) ≡ last_byte xs
last_byte-cons x [] h = absurd (omega arith)
last_byte-cons x (y ∷ ys) h =
    let e : suc (suc (length ys)) - 1 ≡ suc (length ys) = omega arith in
    let e' : suc (length ys) - 1 ≡ length ys = omega arith in rw (e, e')

-- The text ends in no hyphen.
abbrev EndFits : Bytes → Type 0
EndFits s = NonEmpty s × (last_byte s ≢ b'-')

EndFits-cons : (x : ℕ) (xs : Bytes) → EndFits xs → EndFits (x ∷ xs)
EndFits-cons x xs h = (omega arith, λ e. h.1 (sym (last_byte-cons x xs h.0) ∙ e))

EndFits-cons_head :
    (x : ℕ) (xs l : Bytes) (ls : List Bytes)
    → split b'.' xs ≡ l ∷ ls
    → LastFits ((x ∷ l) ∷ ls)
    → (LastFits (l ∷ ls) → EndFits xs)
    → EndFits (x ∷ xs)
EndFits-cons_head x xs l [] e h ih =
    let k : l ≡ xs = sym (join_one b'.' l) ∙ ap (join b'.') (sym e) ∙ join-split b'.' xs in
    subst (λ y. EndFits (x ∷ y)) k h
EndFits-cons_head x xs l (m ∷ ls) e h ih = EndFits-cons x xs (ih h)

-- The last byte of a text is that of its last part.
EndFits-split : (s : Bytes) → LastFits (split b'.' s) → EndFits s
EndFits-split [] h =
    let k : LastFits ([] ∷ []) = subst LastFits (split_nil b'.') h in absurd (omega (arith, k.0))
EndFits-split (x ∷ xs) h =
    let (l, ls, e) = split_shape b'.' xs in
    let ih : LastFits (l ∷ ls) → EndFits xs = λ k. EndFits-split xs (subst LastFits (sym e) k) in
    elim (ℕ_discrete x b'.') [
      | yes p ↦
          let k : LastFits ([] ∷ l ∷ ls) =
            subst LastFits (split_of_eq b'.' x xs p ∙ ap (◌∷◌ []) e) h in
          EndFits-cons x xs (ih k)
      | no p ↦
          EndFits-cons_head x xs l ls e
            (subst LastFits (split_at_other b'.' x xs p ∙ ap (cons_head x) e) h) ih
    ]

drop_last : (s : Bytes) → NonEmpty s → drop (length s - 1) s ≡ last_byte s ∷ []
drop_last [] h = absurd (omega arith)
drop_last (x ∷ []) h = refl
drop_last (x ∷ y ∷ ys) h =
    let e : suc (suc (length ys)) - 1 ≡ suc (length ys) = omega arith in
    let e' : suc (length ys) - 1 ≡ length ys = omega arith in
    rw e (rw e' at (drop_last (y ∷ ys) (omega arith)))

no_trailing_hyphen : (s : Bytes) → EndFits s → has_suffix (codes "-") s ≡ false
unfolding has_suffix
no_trailing_hyphen s h = ground (arith, drop_last s h.0)

LabelsFit-head : (l : Bytes) (ls : List Bytes) → LabelsFit (l ∷ ls) → IsLabel l
LabelsFit-head l [] h = h.0
LabelsFit-head l (m ∷ ls) h = h.0

-- A text whose first label is fine begins with no hyphen.
no_leading_hyphen : (s : Bytes) → LabelsFit (split b'.' s) → has_prefix (codes "-") s ≡ false
no_leading_hyphen [] h = refl
no_leading_hyphen (x ∷ xs) h = elim (ℕ_discrete x b'.') [
  | yes p ↦ ground arith
  | no p ↦
      let (l, ls, e) = split_shape b'.' xs in
      let k : LabelsFit ((x ∷ l) ∷ ls) =
        subst LabelsFit (split_at_other b'.' x xs p ∙ ap (cons_head x) e) h in
      ground (arith, (LabelsFit-head (x ∷ l) ls k).first_ne)
]

pub structure_of_labels : (s : Bytes) → LabelsFit (split b'.' s) → has_valid_structure s ≡ true
unfolding has_valid_structure
structure_of_labels s h =
    let parts = LabelsFit-NonEmpty (split b'.' s) h in
    let ends = EndFits-split s (LabelsFit-LastFits (split b'.' s) h) in
    rw (
      no_leading_dot s parts,
      no_leading_hyphen s h,
      no_trailing_hyphen s ends,
      no_double_dot s (TailNonEmpty-of_All (split b'.' s) parts),
    )
