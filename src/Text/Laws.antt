-- ===== src/Text/Laws.antt =====
-- Equality of texts is decided by `equal`, and lower-casing is idempotent.
use g0efilter.Prelude.{ℕ, true, ◌≡◌, refl, ◌↔◌, [], ◌∷◌, arith}
use g0efilter.Text.{Bytes, equal, lower, to_lower}

pub equal_iff : (a b : Bytes) → (equal a b ≡ true) ↔ (a ≡ b)
equal_iff [] [] = ground arith
equal_iff [] (y ∷ b) = ground arith
equal_iff (x ∷ a) [] = ground arith
equal_iff (x ∷ a) (y ∷ b) = ground (arith, equal_iff a b)

pub equal_refl : (a : Bytes) → equal a a ≡ true
equal_refl a = (equal_iff a a).1 refl

pub equal-sym : (s t : Bytes) → equal s t ≡ equal t s
equal-sym [] [] = refl
equal-sym [] (y ∷ t) = refl
equal-sym (x ∷ s) [] = refl
equal-sym (x ∷ s) (y ∷ t) = ground (arith, equal-sym s t)

pub lower-lower : (c : ℕ) → lower (lower c) ≡ lower c
unfolding lower
lower-lower c = ground arith

pub to_lower-to_lower : (s : Bytes) → to_lower (to_lower s) ≡ to_lower s
to_lower-to_lower [] = refl
to_lower-to_lower (c ∷ s) = cc (lower-lower c, to_lower-to_lower s)
