-- ===== src/Hello/Records.antt =====
-- The record layer: a handshake message is put together again however it was cut into records.
use g0efilter.Prelude.{
  ℕ, zero, suc, ◌+◌, ◌*◌, ◌/◌, ◌%◌, ◌≤◌, ◌<◌, ◌≡◌, refl, sym, ap, ◌∙◌, ◌⊎◌, inl, inr, false, Option,
  none, some, List, [], ◌∷◌, ◌++◌, arith, Bool-cases, length, get_or, take, drop, length-append,
  All, dec_lt,
}
use mathlib.Core.List.{append_assoc}
use g0efilter.Hello.{
  ok, read_record, parse_client_hello_sni, read_need, is_incomplete, body_of, reassemble,
  read_client_hello_sni, max_client_hello_size,
}
use g0efilter.Hello.Reader.{Cryptobyte}
use g0efilter.Hello.Wire.{ClientHello, IsClientHello, encode_body, parse-encode_body}
use g0efilter.Text.{Bytes}

-- A handshake record with two version bytes around a fragment, in front of a rest.
abbrev pub encode_record : ℕ → ℕ → Bytes → Bytes → Bytes
encode_record v1 v2 frag rest =
    22 ∷ v1 ∷ v2 ∷ (length frag / 256) ∷ (length frag % 256) ∷ (frag ++ rest)

abbrev pub encode_records : ℕ → ℕ → List Bytes → Bytes → Bytes
encode_records v1 v2 [] rest = rest
encode_records v1 v2 (f ∷ fs) rest = encode_record v1 v2 f (encode_records v1 v2 fs rest)

abbrev pub flatten : List Bytes → Bytes
flatten [] = []
flatten (f ∷ fs) = f ++ flatten fs

-- The ClientHello handshake message around a body.
abbrev pub encode_handshake : Bytes → Bytes
encode_handshake body =
    1 ∷ (length body / 65536) ∷ (length body / 256 % 256) ∷ (length body % 256) ∷ body

abbrev pub IsFragment : Bytes → Type 0
IsFragment f = (1 ≤ length f) × (length f ≤ 18432)

take-append : (xs ys : Bytes) → take (length xs) (xs ++ ys) ≡ xs
take-append [] ys = refl
take-append (x ∷ xs) ys = ap (◌∷◌ x) (take-append xs ys)

drop-append : (xs ys : Bytes) → drop (length xs) (xs ++ ys) ≡ ys
drop-append [] ys = refl
drop-append (x ∷ xs) ys = drop-append xs ys

take-append_left : (n : ℕ) (xs ys : Bytes) → n ≤ length xs → take n (xs ++ ys) ≡ take n xs
take-append_left zero xs ys h = refl
take-append_left (suc n) [] ys h = absurd (omega arith)
take-append_left (suc n) (x ∷ xs) ys h = ap (◌∷◌ x) (take-append_left n xs ys (omega arith))

get_or-append_left : (i : ℕ) (xs ys : Bytes) → i < length xs → get_or (xs ++ ys) i 0 ≡ get_or xs i 0
get_or-append_left i [] ys h = absurd (omega arith)
get_or-append_left zero (x ∷ xs) ys h = refl
get_or-append_left (suc i) (x ∷ xs) ys h = get_or-append_left i xs ys (omega arith)

read_record-encode :
    (v1 v2 : ℕ) (f rest : Bytes)
    → IsFragment f
    → read_record (encode_record v1 v2 f rest) ≡ ok (f, rest)
unfolding read_record
read_record-encode v1 v2 f rest h =
    let n : length f / 256 * 256 + length f % 256 ≡ length f = omega arith in
    ground (arith, n, take-append f rest, drop-append f rest, length-append f rest)

-- The header bytes of the message, from any part of it that is long enough.
read_need-prefix :
    (body extra acc rest : Bytes)
    → length body ≤ max_client_hello_size
    → acc ++ rest ≡ encode_handshake body ++ extra
    → 4 ≤ length acc
    → read_need none acc ≡ ok (some (4 + length body))
unfolding read_need
read_need-prefix body extra acc rest h e k =
    let at = λ (i : ℕ). ap (λ xs. get_or xs i 0) e in
    ground (
      arith,
      get_or-append_left 0 acc rest (omega arith),
      get_or-append_left 1 acc rest (omega arith),
      get_or-append_left 2 acc rest (omega arith),
      get_or-append_left 3 acc rest (omega arith),
      at 0,
      at 1,
      at 2,
      at 3,
    )

-- The body, once the message is there.
body_of-prefix :
    (body extra acc rest : Bytes)
    → acc ++ rest ≡ encode_handshake body ++ extra
    → 4 + length body ≤ length acc
    → body_of (some (4 + length body)) acc ≡ body
body_of-prefix body extra acc rest e h =
    let n : 4 + length body ≡ length (encode_handshake body) = omega arith in
    let whole : take (4 + length body) acc ≡ encode_handshake body =
      sym (take-append_left (4 + length body) acc rest h)
      ∙ ap (take (4 + length body)) e
      ∙ rw n (take-append (encode_handshake body) extra) in
    rw whole

read_need-short : (acc : Bytes) → length acc < 4 → read_need none acc ≡ ok none
unfolding read_need
read_need-short acc h = ground arith

-- What the loop knows of the length that the message needs.
abbrev IsNeed : Bytes → Bytes → Option ℕ → Type 0
IsNeed body acc none = length acc < 4
IsNeed body acc (some n) = n ≡ 4 + length body

read_need-IsNeed :
    (body extra acc rest : Bytes) (need : Option ℕ)
    → length body ≤ max_client_hello_size
    → acc ++ rest ≡ encode_handshake body ++ extra
    → (need ≡ none) ⊎ (need ≡ some (4 + length body))
    → (need' : Option ℕ) × (read_need need acc ≡ ok need') × IsNeed body acc need'
read_need-IsNeed body extra acc rest (some n) h e k =
    (some n, unfold read_need in refl, ground arith)
read_need-IsNeed body extra acc rest none h e k = elim (dec_lt (length acc) 4) [
  | yes short ↦ (none, read_need-short acc short, short)
  | no enough ↦
      (some (4 + length body), read_need-prefix body extra acc rest h e (omega arith), refl)
]

need_cases :
    (body acc : Bytes) (need : Option ℕ)
    → IsNeed body acc need
    → (need ≡ none) ⊎ (need ≡ some (4 + length body))
need_cases body acc none n = inl refl
need_cases body acc (some m) n = inr (ap some n)

-- A loop that stops has the whole message.
stop_body :
    (body extra acc rest : Bytes) (need : Option ℕ)
    → acc ++ rest ≡ encode_handshake body ++ extra
    → IsNeed body acc need
    → is_incomplete need acc ≡ false
    → body_of need acc ≡ body
stop_body body extra acc rest none e n h = absurd (ground arith)
stop_body body extra acc rest (some m) e n h =
    rw n (body_of-prefix body extra acc rest e (ground arith))

-- With every record read the message is there.
end_stops :
    (body extra acc : Bytes) (need : Option ℕ)
    → acc ++ [] ≡ encode_handshake body ++ extra
    → IsNeed body acc need
    → is_incomplete need acc ≡ false
end_stops body extra acc none e n = absurd (omega (arith, ap length e, length-append acc []))
end_stops body extra acc (some m) e n =
    ground (arith, ap length e, length-append acc [], length-append body extra)

module _ (c : Cryptobyte) (v1 v2 : ℕ) (body extra tail : Bytes)
    (small : length body ≤ max_client_hello_size) where
  reassemble-encode :
      (fuel : ℕ) (fs : List Bytes) (acc : Bytes) (need : Option ℕ)
      → length fs < fuel
      → All IsFragment fs
      → acc ++ flatten fs ≡ encode_handshake body ++ extra
      → IsNeed body acc need
      → reassemble c fuel acc need (encode_records v1 v2 fs tail) ≡ parse_client_hello_sni c body
  unfolding reassemble
  reassemble-encode zero fs acc need h a e n = absurd (omega arith)
  reassemble-encode (suc fuel) [] acc need h a e n =
      let stop = end_stops body extra acc need e n in
      rw (stop, stop_body body extra acc [] need e n stop)
  reassemble-encode (suc fuel) (f ∷ fs) acc need h a e n =
      elim (Bool-cases (is_incomplete need acc)) [
        | inr stop ↦ rw (stop, stop_body body extra acc (f ++ flatten fs) need e n stop)
        | inl more ↦
            let e' : (acc ++ f) ++ flatten fs ≡ encode_handshake body ++ extra =
              append_assoc acc f (flatten fs) ∙ e in
            let (need', read, n') =
              read_need-IsNeed body extra (acc ++ f) (flatten fs) need small e'
                (need_cases body acc need n) in
            rw (more, read_record-encode v1 v2 f (encode_records v1 v2 fs tail) a.0, read)
              (reassemble-encode fuel fs (acc ++ f) need' (omega arith) a.1 e' n')
      ]

length-encode_records :
    (v1 v2 : ℕ) (fs : List Bytes) (tail : Bytes) → length fs ≤ length (encode_records v1 v2 fs tail)
length-encode_records v1 v2 [] tail = omega arith
length-encode_records v1 v2 (f ∷ fs) tail =
    omega
      (arith, length-encode_records v1 v2 fs tail, length-append f (encode_records v1 v2 fs tail))

-- Of a well-formed ClientHello (every vector fits its length prefix), the name in the first
-- host_name entry of the first server_name extension is what is returned,
-- however the handshake message is cut into records of 1 to 18432 bytes, and whatever follows it in
-- the last of them and behind; for bodies of at most 65536 bytes.
pub read_client_hello_sni-encode :
    (c : Cryptobyte) (h : ClientHello) (v1 v2 : ℕ) (fs : List Bytes) (extra tail : Bytes)
    → IsClientHello h
    → length (encode_body h) ≤ max_client_hello_size
    → All IsFragment fs
    → flatten fs ≡ encode_handshake (encode_body h) ++ extra
    → read_client_hello_sni c (encode_records v1 v2 fs tail) ≡ ok h.name
unfolding read_client_hello_sni
read_client_hello_sni-encode c h v1 v2 fs extra tail w small a e =
    reassemble-encode c v1 v2 (encode_body h) extra tail small
      (length (encode_records v1 v2 fs tail) + 1) fs [] none
      (omega (arith, length-encode_records v1 v2 fs tail)) a e (omega arith)
    ∙ parse-encode_body c h w
