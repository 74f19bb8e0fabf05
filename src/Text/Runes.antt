-- ===== src/Text/Runes.antt =====
-- The runes of a Go string, as `range` yields them: UTF-8, with U+FFFD for each byte that begins no
-- encoded rune.
use g0efilter.Prelude.{
  ℕ, zero, suc, ◌+◌, ◌*◌, ◌%◌, ◌<◌, ◌≡◌, refl, ap, ◌&&◌, List, [], ◌∷◌, arith, ltb, ◌==◌,
  if◌then◌else◌, All,
}
use g0efilter.Text.{Bytes, within}

-- What a byte at the front encodes, and how many further bytes it takes.
abbrev pub two : ℕ → Bytes → ℕ × ℕ
two c [] = (65533, 0)
two c (x ∷ s) = if within 128 191 x then ((c % 32) * 64 + x % 64, 1) else (65533, 0)

abbrev pub three : ℕ → Bytes → ℕ × ℕ
three c [] = (65533, 0)
three c (x ∷ []) = (65533, 0)
three c (x ∷ y ∷ s) =
    let low = if c == 224 then 160 else 128 in
    let high = if c == 237 then 159 else 191 in
    if within low high x && within 128 191 y
    then ((c % 16) * 4096 + (x % 64) * 64 + y % 64, 2)
    else (65533, 0)

abbrev pub four : ℕ → Bytes → ℕ × ℕ
four c [] = (65533, 0)
four c (x ∷ []) = (65533, 0)
four c (x ∷ y ∷ []) = (65533, 0)
four c (x ∷ y ∷ z ∷ s) =
    let low = if c == 240 then 144 else 128 in
    let high = if c == 244 then 143 else 191 in
    if within low high x && within 128 191 y && within 128 191 z
    then ((c % 8) * 262144 + (x % 64) * 4096 + (y % 64) * 64 + z % 64, 3)
    else (65533, 0)

unfoldable pub decode_rune : ℕ → Bytes → ℕ × ℕ
decode_rune c s =
    if ltb c 128
    then (c, 0)
    else if within 194 223 c
    then two c s
    else if within 224 239 c
    then three c s
    else if within 240 244 c
    then four c s
    else (65533, 0)

-- The runes behind some bytes that belong to the rune before.
unfoldable pub runes_from : ℕ → Bytes → List ℕ
unfolding decode_rune
runes_from taken [] = []
runes_from (suc taken) (c ∷ s) = runes_from taken s
runes_from zero (c ∷ s) = (decode_rune c s).0 ∷ runes_from (decode_rune c s).1 s

unfoldable pub runes : Bytes → List ℕ
unfolding runes_from
runes = runes_from 0

decode_rune-ascii : (c : ℕ) (s : Bytes) → c < 128 → decode_rune c s ≡ (c, 0)
unfolding decode_rune
decode_rune-ascii c s h = ground (arith, h)

-- In a text of ASCII bytes every byte is a rune.
pub runes-ascii : (s : Bytes) → All (λ c. c < 128) s → runes s ≡ s
unfolding runes runes_from
runes-ascii [] h = refl
runes-ascii (c ∷ s) h = rw (decode_rune-ascii c s h.0) (ap (λ r. c ∷ r) (runes-ascii s h.1))
