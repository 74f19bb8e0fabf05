-- ===== src/Text/Number.antt =====
-- The functions of the standard package `strconv` that the program calls: `Atoi`, `ParseUint` to
-- the base 10 and `Itoa`.
use g0efilter.Prelude.{
  ℕ, zero, suc, ◌+◌, ◌-◌, ◌*◌, ◌/◌, ◌%◌, ◌^◌, ◌<◌, ◌≡◌, refl, ap, ◌∙◌, inl, inr, Bool, true, Option,
  none, some, [], ◌∷◌, ◌++◌, arith, ltb, leb, ◌==◌, if◌then◌else◌, lt→ltb, Bool-cases, All,
  All-append,
}
use g0efilter.Prelude.Int.{ℤ, pos, negsuc}
use g0efilter.Text.{Bytes, is_empty, within, trim_left, trim_right, trim_space}

abbrev pub is_digit : ℕ → Bool
is_digit = within b'0' b'9'

-- The value of digits behind those that stand for `acc`.
unfoldable pub digits_value : ℕ → Bytes → Option ℕ
digits_value acc [] = some acc
digits_value acc (c ∷ cs) =
    let rest = digits_value (acc * 10 + (c - b'0')) cs in if is_digit c then rest else none

unfoldable pub numeral : Bytes → Option ℕ
numeral s = if is_empty s then none else digits_value 0 s

abbrev pub bounded : ℕ → Option ℕ → Option ℕ
bounded limit none = none
bounded limit (some n) = if leb n limit then some n else none

-- `strconv.ParseUint(s, 10, 32)`
unfoldable pub parse_uint32 : Bytes → Option ℕ
parse_uint32 s = bounded (2 ^ 32 - 1) (numeral s)

abbrev pub negative : ℕ → ℤ
negative zero = pos 0
negative (suc n) = negsuc n

abbrev signed : (ℕ → ℤ) → Option ℕ → Option ℤ
signed f none = none
signed f (some n) = some (f n)

-- `strconv.Atoi` with an `int` of 64 bits: a sign may stand in front.
unfoldable pub atoi : Bytes → Option ℤ
unfolding numeral
atoi [] = none
atoi (c ∷ cs) =
    if c == b'-'
    then signed negative (bounded (2 ^ 63) (numeral cs))
    else signed pos (bounded (2 ^ 63 - 1) (numeral (if c == b'+' then cs else c ∷ cs)))

unfoldable pub itoa_digits : ℕ → ℕ → Bytes
itoa_digits zero n = []
itoa_digits (suc fuel) n =
    let rest = itoa_digits fuel (n / 10) in
    if ltb n 10 then (b'0' + n) ∷ [] else rest ++ ((b'0' + n % 10) ∷ [])

-- `strconv.Itoa` of a number that is not negative; no `int` has more than 19 digits.
unfoldable pub itoa : ℕ → Bytes
unfolding itoa_digits
itoa n = itoa_digits 20 n

digits_value-snoc :
    (acc : ℕ) (xs : Bytes) (d v : ℕ)
    → d < 10
    → digits_value acc xs ≡ some v
    → digits_value acc (xs ++ ((b'0' + d) ∷ [])) ≡ some (v * 10 + d)
unfolding digits_value
digits_value-snoc acc [] d v h e = ground (arith, e)
digits_value-snoc acc (x ∷ xs) d v h e =
    ground (arith, digits_value-snoc (acc * 10 + (x - b'0')) xs d v h)

abbrev IsDigit : ℕ → Type 0
IsDigit c = is_digit c ≡ true

itoa_digits-value :
    (fuel n : ℕ) → n < 10 ^ fuel → 0 < fuel → digits_value 0 (itoa_digits fuel n) ≡ some n
unfolding itoa_digits digits_value
itoa_digits-value zero n h p = absurd (ground arith)
itoa_digits-value (suc zero) n h p = ground (arith, lt→ltb n 10 (omega arith))
itoa_digits-value (suc (suc fuel)) n h p =
    let small : n / 10 < 10 ^ suc fuel = omega arith in
    let q =
      digits_value-snoc 0 (itoa_digits (suc fuel) (n / 10)) (n % 10) (n / 10) (omega arith)
        (itoa_digits-value (suc fuel) (n / 10) small (omega arith)) in
    let whole : n / 10 * 10 + n % 10 ≡ n = omega arith in
    elim (Bool-cases (ltb n 10)) [ inl e ↦ ground (arith, e) | inr e ↦ rw e (q ∙ ap some whole) ]

itoa_digits-IsDigit : (fuel n : ℕ) → All IsDigit (itoa_digits fuel n)
unfolding itoa_digits
itoa_digits-IsDigit zero n = tt
itoa_digits-IsDigit (suc fuel) n = elim (Bool-cases (ltb n 10)) [
  | inl e ↦ rw e (ground arith, tt)
  | inr e ↦ rw e (
      All-append IsDigit (itoa_digits fuel (n / 10)) _ (itoa_digits-IsDigit fuel (n / 10))
        (ground arith, tt))
]

snoc_cons : (xs : Bytes) (d : ℕ) → (c : ℕ) × (cs : Bytes) × (xs ++ (d ∷ []) ≡ c ∷ cs)
snoc_cons [] d = (d, [], refl)
snoc_cons (x ∷ xs) d = (x, xs ++ (d ∷ []), refl)

lt→leb : (n : ℕ) → n < 2 ^ 63 → leb n (2 ^ 63 - 1) ≡ true
lt→leb n h = ground arith

itoa_digits-cons : (fuel n : ℕ) → 0 < fuel → (c : ℕ) × (cs : Bytes) × (itoa_digits fuel n ≡ c ∷ cs)
unfolding itoa_digits
itoa_digits-cons zero n p = absurd (ground arith)
itoa_digits-cons (suc fuel) n p = elim (Bool-cases (ltb n 10)) [
  | inl e ↦ (b'0' + n, [], rw e refl)
  | inr e ↦ rw e (snoc_cons (itoa_digits fuel (n / 10)) (b'0' + n % 10))
]

trim_right-IsDigit : (s : Bytes) → All IsDigit s → trim_right s ≡ s
unfolding trim_right
trim_right-IsDigit [] h = refl
trim_right-IsDigit (c ∷ s) h = ground (arith, h.0, trim_right-IsDigit s h.1)

trim_space-IsDigit : (s : Bytes) → All IsDigit s → trim_space s ≡ s
unfolding trim_space trim_left
trim_space-IsDigit [] h = refl
trim_space-IsDigit (c ∷ s) h = ground (arith, h.0, trim_right-IsDigit (c ∷ s) h)

atoi-IsDigit :
    (s : Bytes) (n : ℕ) → All IsDigit s → numeral s ≡ some n → n < 2 ^ 63 → atoi s ≡ some (pos n)
unfolding atoi
atoi-IsDigit [] n h e b = absurd (ground (arith, e))
atoi-IsDigit (c ∷ s) n h e b = ground (arith, h.0, e, lt→leb n b)

numeral_cons : (s : Bytes) {c : ℕ} {cs : Bytes} → s ≡ c ∷ cs → numeral s ≡ digits_value 0 s
unfolding numeral
numeral_cons s e = rw e refl

-- A number below 2^63 is written with digits only and read back.
pub atoi-itoa : (n : ℕ) → n < 2 ^ 63 → atoi (trim_space (itoa n)) ≡ some (pos n)
unfolding itoa numeral
atoi-itoa n b =
    let digits = itoa_digits-IsDigit 20 n in
    let (c, cs, e) = itoa_digits-cons 20 n (omega arith) in
    let value = itoa_digits-value 20 n (omega arith) (omega arith) in
    rw (trim_space-IsDigit (itoa_digits 20 n) digits)
      (atoi-IsDigit (itoa_digits 20 n) n digits (numeral_cons (itoa_digits 20 n) e ∙ value) b)
