-- ===== src/Pattern/Wildcard.antt =====
-- Which hosts a wildcard pattern covers.
use g0efilter.Prelude.{
  ◌≤◌, ◌≡◌, refl, sym, ap, ◌∙◌, ◌≢◌, ◌↔◌, inl, inr, Bool, true, some, List, [], ◌∷◌, ◌++◌, map,
  arith, Bool-cases, length, drop, All,
}
use g0efilter.Pattern.{fold_prefix, plus, wildcard_match, compile_wildcard_pattern}
use g0efilter.Text.{Bytes, is_empty, lower, to_lower, split}
use g0efilter.Text.Split.{split_shape}

-- One byte or more, none of them a newline.
abbrev pub IsFill : Bytes → Type 0
IsFill x = (1 ≤ length x) × All (λ c. c ≢ 10) x

-- A text is a chunk, up to case, then a filling, then what the other chunks cover; the last chunk
-- ends it.
pub data Covers : List Bytes → Bytes → Type 0 where
  last : {c s : Bytes} → to_lower s ≡ to_lower c → Covers (c ∷ []) s
  more :
      {c d : Bytes} {cs : List Bytes} (a x : Bytes) {r s : Bytes}
      → to_lower a ≡ to_lower c
      → IsFill x
      → Covers (d ∷ cs) r
      → s ≡ a ++ (x ++ r)
      → Covers (c ∷ d ∷ cs) s

-- A chunk in front: what it matches, and what is left.
fold_prefix_sound :
    (c s : Bytes)
    → fold_prefix c s ≡ true
    → (a : Bytes) × (to_lower a ≡ to_lower c) × (s ≡ a ++ drop (length c) s)
fold_prefix_sound [] s h = ([], refl, refl)
fold_prefix_sound (c ∷ cs) [] h = absurd (ground arith)
fold_prefix_sound (c ∷ cs) (x ∷ xs) h =
    let (a, e, p) = fold_prefix_sound cs xs (ground arith) in
    let q : lower x ≡ lower c = ground arith in (x ∷ a, cc, ap (◌∷◌ x) p)

fold_prefix_complete :
    (c a r : Bytes)
    → to_lower a ≡ to_lower c
    → (fold_prefix c (a ++ r) ≡ true) × (drop (length c) (a ++ r) ≡ r)
fold_prefix_complete [] [] r h = (refl, refl)
fold_prefix_complete [] (x ∷ a) r h = absurd (ground arith)
fold_prefix_complete (c ∷ cs) [] r h = absurd (ground arith)
fold_prefix_complete (c ∷ cs) (x ∷ a) r h =
    let (p, q) = fold_prefix_complete cs a r (ground arith) in
    let e : lower x ≡ lower c = ground arith in (ground arith, q)

plus_sound :
    (k : Bytes → Bool) (s : Bytes)
    → plus k s ≡ true
    → (x r : Bytes) × IsFill x × (k r ≡ true) × (s ≡ x ++ r)
plus_sound k [] h = absurd (ground arith)
plus_sound k (x ∷ xs) h = elim (Bool-cases (k xs)) [
  | inl here ↦ (x ∷ [], xs, (omega arith, (ground arith, tt)), here, refl)
  | inr later ↦
      let (y, r, f, done, e) = plus_sound k xs (ground arith) in
      (x ∷ y, r, (omega arith, (ground arith, f.1)), done, ap (◌∷◌ x) e)
]

plus_complete : (k : Bytes → Bool) (x r : Bytes) → IsFill x → k r ≡ true → plus k (x ++ r) ≡ true
plus_complete k [] r f h = absurd (omega arith)
plus_complete k (x ∷ []) r f h = ground (arith, f.1.0)
plus_complete k (x ∷ y ∷ ys) r f h =
    ground (arith, f.1.0, plus_complete k (y ∷ ys) r (omega arith, f.1.1) h)

empty_sound : (s : Bytes) → is_empty s ≡ true → s ≡ []
empty_sound [] h = refl
empty_sound (x ∷ s) h = absurd (ground arith)

empty_complete : (s : Bytes) → s ≡ [] → is_empty s ≡ true
empty_complete [] h = refl
empty_complete (x ∷ s) h = absurd (ground arith)

append_nil : (a : Bytes) → a ++ [] ≡ a
append_nil [] = refl
append_nil (x ∷ a) = ap (◌∷◌ x) (append_nil a)

match_sound :
    (c : Bytes) (cs : List Bytes) (s : Bytes) → wildcard_match (c ∷ cs) s ≡ true → Covers (c ∷ cs) s
unfolding wildcard_match
match_sound c [] s h =
    let (a, e, p) = fold_prefix_sound c s (ground arith) in
    let z : drop (length c) s ≡ [] = empty_sound (drop (length c) s) (ground arith) in
    last (ap to_lower (p ∙ ap (λ r. a ++ r) z ∙ append_nil a) ∙ e)
match_sound c (d ∷ cs) s h =
    let (a, e, p) = fold_prefix_sound c s (ground arith) in
    let (x, r, f, m, q) = plus_sound (wildcard_match (d ∷ cs)) (drop (length c) s) (ground arith) in
    more a x e f (match_sound d cs r m) (p ∙ ap (λ t. a ++ t) q)

match_complete :
    (c : Bytes) (cs : List Bytes) (s : Bytes) → Covers (c ∷ cs) s → wildcard_match (c ∷ cs) s ≡ true
unfolding wildcard_match
match_complete c [] s (last e) =
    let (p, q) = fold_prefix_complete c s [] e in
    let n : s ++ [] ≡ s = append_nil s in
    let p' : fold_prefix c s ≡ true = rw (sym n) p in
    let q' : drop (length c) s ≡ [] = ap (drop (length c)) (sym n) ∙ q in
    ground (arith, p', q', empty_complete (drop (length c) s) q')
match_complete c (d ∷ cs) s (more a x {r = r} e f k eq) =
    let (p, q) = fold_prefix_complete c a (x ++ r) e in
    let i = plus_complete (wildcard_match (d ∷ cs)) x _ f (match_complete d cs r k) in
    rw (eq, p, q, i)

compiled_iff :
    (parts : List Bytes) {cs : List Bytes} (l : Bytes) (ls : List Bytes) (s : Bytes)
    → parts ≡ l ∷ ls
    → cs ≡ map to_lower parts
    → (wildcard_match cs s ≡ true) ↔ Covers (map to_lower parts) s
compiled_iff parts {cs} l ls s e h =
    let whole : (wildcard_match (to_lower l ∷ map to_lower ls) s ≡ true)
        ↔ Covers (to_lower l ∷ map to_lower ls) s =
      (
        match_sound (to_lower l) (map to_lower ls) s,
        match_complete (to_lower l) (map to_lower ls) s,
      ) in
    rw (h, e) whole

-- For a pattern that compiles, the compiled expression accepts a text iff the text is the pattern's
-- parts between the stars, in lower case and compared up to case, in their order, with one byte or
-- more and no newline for every star.
pub wildcard_match_iff :
    (pattern : Bytes) {cs : List Bytes} (s : Bytes)
    → compile_wildcard_pattern pattern ≡ some cs
    → (wildcard_match cs s ≡ true) ↔ Covers (map to_lower (split b'*' pattern)) s
unfolding compile_wildcard_pattern
wildcard_match_iff pattern {cs} s h =
    let (l, ls, e) = split_shape b'*' pattern in
    let shape : cs ≡ map to_lower (split b'*' pattern) = ground arith in
    compiled_iff (split b'*' pattern) l ls s e shape
