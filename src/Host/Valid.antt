-- ===== src/Host/Valid.antt =====
-- What `sanitizeHost` accepts, described by the labels of the name.
use g0efilter.Prelude.{
  ℕ, ◌+◌, ◌-◌, ◌≤◌, ◌≡◌, ◌≢◌, ◌↔◌, ◌⊎◌, true, not, ◌||◌, List, [], ◌∷◌, arith, ltb, length, get_or,
  All, all, all_iff,
}
use g0efilter.Host.{
  is_valid_dns_char, is_all_numeric, is_valid_label, is_valid_tld, check_labels,
  has_valid_characters,
}
use g0efilter.Text.{Bytes, join}

-- A letter, a digit or a hyphen, in lower case.
abbrev pub IsLdh : ℕ → Type 0
IsLdh c = ((b'a' ≤ c) × (c ≤ b'z')) ⊎ ((b'0' ≤ c) × (c ≤ b'9')) ⊎ (c ≡ b'-')

abbrev pub IsDigit : ℕ → Type 0
IsDigit c = (b'0' ≤ c) × (c ≤ b'9')

-- RFC 1035: 1 to 63 bytes, with no hyphen at either end.
pub record IsLabel (l : Bytes) : Type 0 where
  pub lower_bound : 1 ≤ length l
  pub upper_bound : length l ≤ 63
  pub first_ne : get_or l 0 0 ≢ b'-'
  pub last_ne : get_or l (length l - 1) 0 ≢ b'-'

-- At least two bytes, one of which is no digit.
abbrev pub IsTld : Bytes → Type 0
IsTld l = (2 ≤ length l) × ¬ (All IsDigit l)

-- Every part is a label, and the last one is a top-level domain.
abbrev pub LabelsFit : List Bytes → Type 0
LabelsFit [] = ⊥
LabelsFit (l ∷ []) = IsLabel l × IsTld l
LabelsFit (l ∷ m ∷ ls) = IsLabel l × LabelsFit (m ∷ ls)

-- A lower-case host name: dot-separated labels of letters, digits and hyphens, two at least.
pub record IsHost (h : Bytes) : Type 0 where
  pub labels : List Bytes
  pub joined : join b'.' labels ≡ h
  pub several : 2 ≤ length labels
  pub alphabet : All (All IsLdh) labels
  pub fit : LabelsFit labels
  pub short : length h ≤ 253

pub is_valid_label_iff : (l : Bytes) → (is_valid_label l ≡ true) ↔ IsLabel l
unfolding is_valid_label
is_valid_label_iff l = ground arith

is_all_numeric_iff : (l : Bytes) → 1 ≤ length l → (is_all_numeric l ≡ true) ↔ All IsDigit l
unfolding is_all_numeric
is_all_numeric_iff l h =
    let digits : (all (λ r. not (ltb r b'0' || ltb b'9' r)) l ≡ true) ↔ All IsDigit l =
      all_iff _ IsDigit (λ c. ground arith) l in
    (λ e. digits.0 (ground arith), λ d. ground (arith, digits.1 d))

is_valid_tld_iff : (l : Bytes) → (is_valid_tld l ≡ true) ↔ IsTld l
unfolding is_valid_tld
is_valid_tld_iff l = ground (arith, is_all_numeric_iff l)

pub check_labels_iff :
    (n idx : ℕ) (l : Bytes) (ls : List Bytes)
    → idx + length (l ∷ ls) ≡ n
    → (check_labels n idx (l ∷ ls) ≡ true) ↔ LabelsFit (l ∷ ls)
unfolding check_labels
check_labels_iff n idx l [] e = ground (arith, is_valid_label_iff l, is_valid_tld_iff l)
check_labels_iff n idx l (m ∷ ls) e =
    ground (arith, is_valid_label_iff l, check_labels_iff n (idx + 1) m ls)

-- The characters.
char_ok_iff : (c : ℕ) → (is_valid_dns_char c ≡ true) ↔ (IsLdh c ⊎ (c ≡ b'.'))
unfolding is_valid_dns_char
char_ok_iff c = ground arith

pub chars_iff : (s : Bytes) → (has_valid_characters s ≡ true) ↔ All (λ c. IsLdh c ⊎ (c ≡ b'.')) s
unfolding has_valid_characters
chars_iff s = all_iff is_valid_dns_char _ char_ok_iff s
