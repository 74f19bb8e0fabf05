-- ===== src/Hello/Reader.antt =====
-- The methods of golang.org/x/crypto/cryptobyte's `String` that the ClientHello parser calls, and
-- what their documentation promises. A method that returns false is `none`; otherwise the bytes
-- that it read stand beside the bytes that are left.
use g0efilter.Prelude.{ℕ, ◌+◌, ◌*◌, ◌<◌, ◌≡◌, Option, some, ◌∷◌, ◌++◌, length}
use g0efilter.Text.{Bytes}

pub record Cryptobyte : Type 0 where
  pub skip : ℕ → Bytes → Option Bytes
  pub read_uint8 : Bytes → Option (ℕ × Bytes)
  pub read_uint16 : Bytes → Option (ℕ × Bytes)
  pub read_uint8_length_prefixed : Bytes → Option (Bytes × Bytes)
  pub read_uint16_length_prefixed : Bytes → Option (Bytes × Bytes)
  -- Each one reads a value in front of any rest.
  pub skip_read : (xs rest : Bytes) → skip (length xs) (xs ++ rest) ≡ some rest
  pub uint8_read : (b : ℕ) (rest : Bytes) → b < 256 → read_uint8 (b ∷ rest) ≡ some (b, rest)
  pub uint16_read :
      (hi lo : ℕ) (rest : Bytes)
      → hi < 256
      → lo < 256
      → read_uint16 (hi ∷ lo ∷ rest) ≡ some (hi * 256 + lo, rest)
  pub uint8_prefixed_read :
      (xs rest : Bytes)
      → length xs < 256
      → read_uint8_length_prefixed (length xs ∷ (xs ++ rest)) ≡ some (xs, rest)
  pub uint16_prefixed_read :
      (hi lo : ℕ) (xs rest : Bytes)
      → hi < 256
      → lo < 256
      → length xs ≡ hi * 256 + lo
      → read_uint16_length_prefixed (hi ∷ lo ∷ (xs ++ rest)) ≡ some (xs, rest)
  -- A successful read advances over what it read.
  pub uint8_advances :
      (s : Bytes) (b : ℕ) (r : Bytes) → read_uint8 s ≡ some (b, r) → length r < length s
  pub uint16_advances :
      (s : Bytes) (n : ℕ) (r : Bytes) → read_uint16 s ≡ some (n, r) → length r < length s
  pub uint16_prefixed_advances :
      (s x r : Bytes) → read_uint16_length_prefixed s ≡ some (x, r) → length r < length s
