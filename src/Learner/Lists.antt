-- ===== src/Learner/Lists.antt =====
-- internal/g0efilter/learner.go: lists of keys and of entries, and what appending does to them.
use g0efilter.Prelude.{
  ◌≡◌, refl, sym, ap, inl, inr, false, List, [], ◌∷◌, ◌++◌, map, Bool-cases, arith,
}
use g0efilter.Text.{Bytes, equal}
use g0efilter.Text.Laws.{equal_iff}
use g0efilter.Learner.{LearnEntry, key_of, in_keys}

-- No key stands twice.
unfoldable pub Distinct : List Bytes → Type 0
Distinct [] = Unit
Distinct (k ∷ ks) = (in_keys k ks ≡ false) × Distinct ks

equal_flip : (s t : Bytes) → equal s t ≡ false → equal t s ≡ false
equal_flip s t e = elim (Bool-cases (equal t s)) [
  | inl p ↦ absurd (ground (arith, e, (equal_iff s t).1 (sym ((equal_iff t s).0 p))))
  | inr p ↦ p
]

in_keys-append :
    (ks : List Bytes) (x k : Bytes)
    → in_keys x ks ≡ false
    → equal k x ≡ false
    → in_keys x (ks ++ (k ∷ [])) ≡ false
in_keys-append [] x k h e = ground (arith, e)
in_keys-append (y ∷ ks) x k h e = ground (arith, h, e, in_keys-append ks x k)

pub Distinct-append :
    (ks : List Bytes) (k : Bytes) → Distinct ks → in_keys k ks ≡ false → Distinct (ks ++ (k ∷ []))
unfolding Distinct
Distinct-append [] k h e = (refl, tt)
Distinct-append (x ∷ ks) k h e = (
  in_keys-append ks x k h.0 (equal_flip x k (ground (arith, e))),
  Distinct-append ks k h.1 (ground (arith, e)),
)

pub append_assoc : {A : Type 0} (xs ys zs : List A) → (xs ++ ys) ++ zs ≡ xs ++ (ys ++ zs)
append_assoc [] ys zs = refl
append_assoc (x ∷ xs) ys zs = ap (λ r. x ∷ r) (append_assoc xs ys zs)

pub append_nil : {A : Type 0} (xs : List A) → xs ++ [] ≡ xs
append_nil [] = refl
append_nil (x ∷ xs) = ap (λ r. x ∷ r) (append_nil xs)

pub map-snoc :
    (es : List LearnEntry) (e : LearnEntry)
    → map key_of (es ++ (e ∷ [])) ≡ map key_of es ++ (key_of e ∷ [])
map-snoc [] e = refl
map-snoc (x ∷ es) e = ap (λ r. key_of x ∷ r) (map-snoc es e)

-- The first list has some elements of the second one, in their order.
pub data Sublist : List LearnEntry → List LearnEntry → Type 0 where
  ends : Sublist [] []
  skips : {xs ys : List LearnEntry} {y : LearnEntry} → Sublist xs ys → Sublist xs (y ∷ ys)
  keeps : {xs ys : List LearnEntry} {x : LearnEntry} → Sublist xs ys → Sublist (x ∷ xs) (x ∷ ys)

pub Sublist-skip :
    {xs ys : List LearnEntry} (e : LearnEntry) → Sublist xs ys → Sublist xs (ys ++ (e ∷ []))
Sublist-skip e ends = skips ends
Sublist-skip e (skips s) = skips (Sublist-skip e s)
Sublist-skip e (keeps s) = keeps (Sublist-skip e s)

pub Sublist-keep :
    {xs ys : List LearnEntry} (e : LearnEntry)
    → Sublist xs ys
    → Sublist (xs ++ (e ∷ [])) (ys ++ (e ∷ []))
Sublist-keep e ends = keeps ends
Sublist-keep e (skips s) = skips (Sublist-keep e s)
Sublist-keep e (keeps s) = keeps (Sublist-keep e s)
