-- ===== src/Text.antt =====
-- Go strings as lists of bytes, and the functions of the standard packages `strings` and
-- `unicode/utf8` that the program calls on them. The case and white-space tables are those of
-- ASCII; the separators and needles that the program passes are ASCII.
pub mod Runes
pub mod Laws
pub mod Split
pub mod Number
use Prim.Native.Char.{code}
use Prim.Native.String.{String}
use g0efilter.Prelude.{
  ℕ, ◌+◌, ◌-◌, Bool, true, false, ◌&&◌, ◌||◌, List, [], ◌∷◌, ◌++◌, map, leb, ◌==◌, if◌then◌else◌,
  length, drop, take,
}

abbrev pub Bytes : Type 0
Bytes = List ℕ

-- The bytes of an ASCII literal.
abbrev pub codes : String → Bytes
codes String.[] = []
codes (String.◌∷◌ c s) = code c ∷ codes s

abbrev pub within : ℕ → ℕ → ℕ → Bool
within lo hi c = leb lo c && leb c hi

-- `==` on strings.
abbrev pub equal : Bytes → Bytes → Bool
equal [] [] = true
equal [] (y ∷ ys) = false
equal (x ∷ xs) [] = false
equal (x ∷ xs) (y ∷ ys) = x == y && equal xs ys

-- `s == ""`
abbrev pub is_empty : Bytes → Bool
is_empty [] = true
is_empty (x ∷ xs) = false

-- `strings.HasPrefix(s, p)`, with the prefix first.
abbrev pub has_prefix : Bytes → Bytes → Bool
has_prefix [] s = true
has_prefix (p ∷ ps) [] = false
has_prefix (p ∷ ps) (x ∷ xs) = p == x && has_prefix ps xs

-- `strings.HasSuffix(s, t)`, with the suffix first.
unfoldable pub has_suffix : Bytes → Bytes → Bool
has_suffix t s = leb (length t) (length s) && equal (drop (length s - length t) s) t

-- `strings.Contains(s, t)`, with the needle first.
unfoldable pub contains : Bytes → Bytes → Bool
contains t [] = is_empty t
contains t (x ∷ xs) = has_prefix t (x ∷ xs) || contains t xs

-- `strings.TrimSuffix(s, t)`, with the suffix first.
unfoldable pub trim_suffix : Bytes → Bytes → Bytes
unfolding has_suffix
trim_suffix t s = if has_suffix t s then take (length s - length t) s else s

-- `strings.ToLower` on one ASCII byte.
unfoldable pub lower : ℕ → ℕ
lower c = if within b'A' b'Z' c then c + 32 else c

abbrev pub to_lower : Bytes → Bytes
to_lower = map lower

-- The ASCII white space of `strings.TrimSpace`.
abbrev is_space : ℕ → Bool
is_space c = within 9 13 c || c == 32

unfoldable pub trim_left : Bytes → Bytes
trim_left [] = []
trim_left (x ∷ xs) = if is_space x then trim_left xs else x ∷ xs

-- A trailing run of white space goes; white space in front of another byte stays.
unfoldable pub trim_right : Bytes → Bytes
trim_right [] = []
trim_right (x ∷ xs) =
    let rest = trim_right xs in if is_space x && is_empty rest then [] else x ∷ rest

unfoldable pub trim_space : Bytes → Bytes
unfolding trim_left trim_right
trim_space s = trim_right (trim_left s)

abbrev pub cons_head : ℕ → List Bytes → List Bytes
cons_head x [] = (x ∷ []) ∷ []
cons_head x (l ∷ ls) = (x ∷ l) ∷ ls

-- `strings.Split(s, sep)` and `strings.SplitSeq(s, sep)` for a separator of one byte.
unfoldable pub split : ℕ → Bytes → List Bytes
split sep [] = [] ∷ []
split sep (x ∷ xs) = let rest = split sep xs in if x == sep then [] ∷ rest else cons_head x rest

-- `strings.Join(parts, sep)` for a separator of one byte.
unfoldable pub join : ℕ → List Bytes → Bytes
join sep [] = []
join sep (l ∷ []) = l
join sep (l ∷ m ∷ ls) = l ++ (sep ∷ join sep (m ∷ ls))
