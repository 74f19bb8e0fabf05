-- ===== src/Tests/Hello.antt =====
-- A ClientHello in two records, read with a reader that has the documented behaviour of cryptobyte.
use g0efilter.Matcher.{new_matcher}
use g0efilter.Conn.{https}
use g0efilter.ConnFilter.Http.{served_options}
use g0efilter.ConnFilter.Https.{sni_of, handle_https}
use g0efilter.ConnFilter.Contacts.{view, nothing}
use g0efilter.ConnFilter.Decided.{outcome}
use g0efilter.ConnFilter.Served.{IsAccepted, handle_https-outcome}
use g0efilter.Tests.Dns.{env, allowlist, empty_cache-IsCoherent}
use g0efilter.Tests.Conn.{conn_options, conn}
use g0efilter.Prelude.{
  ℕ, ◌+◌, ◌*◌, ◌≤◌, ◌<◌, ◌≡◌, refl, ap, ◌≢◌, true, Option, none, some, List, [], ◌∷◌, ◌++◌, arith,
  leb, if◌then◌else◌, length, take, drop, replicate, length-append, length-drop, All,
}
use g0efilter.Text.{Bytes, codes}
use g0efilter.Hello.Reader.{Cryptobyte}
use g0efilter.Hello.{read_client_hello_sni, max_client_hello_size, ok, err, out_of_fuel}
use g0efilter.Hello.Total.{read_client_hello_sni-returns}
use g0efilter.Hello.Wire.{ClientHello, IsClientHello, encode_body}
use g0efilter.Hello.Records.{
  encode_records, encode_handshake, flatten, IsFragment, read_client_hello_sni-encode,
}

unfoldable skip_bytes : ℕ → Bytes → Option Bytes
skip_bytes n s = if leb n (length s) then some (drop n s) else none

unfoldable uint8 : Bytes → Option (ℕ × Bytes)
uint8 [] = none
uint8 (b ∷ s) = some (b, s)

unfoldable uint16 : Bytes → Option (ℕ × Bytes)
uint16 [] = none
uint16 (b ∷ []) = none
uint16 (hi ∷ lo ∷ s) = some (hi * 256 + lo, s)

unfoldable bytes_of : ℕ → Bytes → Option (Bytes × Bytes)
bytes_of n s = if leb n (length s) then some (take n s, drop n s) else none

unfoldable prefixed8 : Bytes → Option (Bytes × Bytes)
unfolding bytes_of
prefixed8 [] = none
prefixed8 (n ∷ s) = bytes_of n s

unfoldable prefixed16 : Bytes → Option (Bytes × Bytes)
unfolding bytes_of
prefixed16 [] = none
prefixed16 (b ∷ []) = none
prefixed16 (hi ∷ lo ∷ s) = bytes_of (hi * 256 + lo) s

front : (xs ys : Bytes) → take (length xs) (xs ++ ys) ≡ xs
front [] ys = refl
front (x ∷ xs) ys = ap (◌∷◌ x) (front xs ys)

back : (xs ys : Bytes) → drop (length xs) (xs ++ ys) ≡ ys
back [] ys = refl
back (x ∷ xs) ys = back xs ys

skip_all : (xs rest : Bytes) → skip_bytes (length xs) (xs ++ rest) ≡ some rest
unfolding skip_bytes
skip_all xs rest = ground (arith, back xs rest, length-append xs rest)

bytes_all : (xs rest : Bytes) → bytes_of (length xs) (xs ++ rest) ≡ some (xs, rest)
unfolding bytes_of
bytes_all xs rest =
    let fits : leb (length xs) (length (xs ++ rest)) ≡ true =
      ground (arith, length-append xs rest) in
    rw (fits, front xs rest, back xs rest) refl

read8 : (b : ℕ) (rest : Bytes) → b < 256 → uint8 (b ∷ rest) ≡ some (b, rest)
unfolding uint8
read8 b rest h = refl

read16 :
    (hi lo : ℕ) (rest : Bytes)
    → hi < 256
    → lo < 256
    → uint16 (hi ∷ lo ∷ rest) ≡ some (hi * 256 + lo, rest)
unfolding uint16
read16 hi lo rest h k = refl

read8_prefixed :
    (xs rest : Bytes) → length xs < 256 → prefixed8 (length xs ∷ (xs ++ rest)) ≡ some (xs, rest)
unfolding prefixed8
read8_prefixed xs rest h = bytes_all xs rest

read16_prefixed :
    (hi lo : ℕ) (xs rest : Bytes)
    → hi < 256
    → lo < 256
    → length xs ≡ hi * 256 + lo
    → prefixed16 (hi ∷ lo ∷ (xs ++ rest)) ≡ some (xs, rest)
unfolding prefixed16
read16_prefixed hi lo xs rest h k e = rw (← e) (bytes_all xs rest)

uint8_less : (s : Bytes) (b : ℕ) (r : Bytes) → uint8 s ≡ some (b, r) → length r < length s
unfolding uint8
uint8_less [] b r h = absurd (ground arith)
uint8_less (x ∷ s) b r h = let e : s ≡ r = ground arith in omega (arith, ap length e)

uint16_less : (s : Bytes) (b : ℕ) (r : Bytes) → uint16 s ≡ some (b, r) → length r < length s
unfolding uint16
uint16_less [] b r h = absurd (ground arith)
uint16_less (x ∷ []) b r h = absurd (ground arith)
uint16_less (x ∷ y ∷ s) b r h = let e : s ≡ r = ground arith in omega (arith, ap length e)

prefixed16_less : (s x r : Bytes) → prefixed16 s ≡ some (x, r) → length r < length s
unfolding prefixed16 bytes_of
prefixed16_less [] x r h = absurd (ground arith)
prefixed16_less (b ∷ []) x r h = absurd (ground arith)
prefixed16_less (hi ∷ lo ∷ s) x r h =
    let e : drop (hi * 256 + lo) s ≡ r = ground (arith, h) in
    omega (arith, ap length e, length-drop (hi * 256 + lo) s)

abbrev reader : Cryptobyte
reader = record {
  skip = skip_bytes;
  read_uint8 = uint8;
  read_uint16 = uint16;
  read_uint8_length_prefixed = prefixed8;
  read_uint16_length_prefixed = prefixed16;
  skip_read = skip_all;
  uint8_read = read8;
  uint16_read = read16;
  uint8_prefixed_read = read8_prefixed;
  uint16_prefixed_read = read16_prefixed;
  uint8_advances = uint8_less;
  uint16_advances = uint16_less;
  uint16_prefixed_advances = prefixed16_less;
}

abbrev hello : ClientHello
hello = record {
  start = replicate 34 3;
  session_id = 1 ∷ 2 ∷ [];
  ciphers = 19 ∷ 1 ∷ [];
  compression = 0 ∷ [];
  extensions_before = (10, 0 ∷ 29 ∷ []) ∷ [];
  names_before = [];
  name = codes "example.com";
  names_after = [];
  list_after = [];
  extensions_after = [];
  body_after = [];
}

abbrev fragments : List Bytes
unfolding encode_body
fragments =
    take 20 (encode_handshake (encode_body hello))
    ∷ drop 20 (encode_handshake (encode_body hello))
    ∷ []

hello-IsClientHello : IsClientHello hello
hello-IsClientHello = record {
  start_length = refl;
  session_fits = omega arith;
  ciphers_fit = omega arith;
  compression_fits = omega arith;
  others = ((omega arith, omega arith, omega arith), tt);
  other_names = tt;
  name_fits = omega arith;
  list_fits = omega arith;
  server_name_fits = omega arith;
  extensions_fit = omega arith;
}

hello_small : length (encode_body hello) ≤ max_client_hello_size
unfolding encode_body
hello_small = omega arith

fragments_ok : All IsFragment fragments
unfolding encode_body fragments
fragments_ok = ((omega arith, omega arith), ((omega arith, omega arith), tt))

fragments_flat : flatten fragments ≡ encode_handshake (encode_body hello) ++ []
unfolding encode_body fragments
fragments_flat = refl

read_client_hello_sni-encode_example :
    read_client_hello_sni reader (encode_records 3 1 fragments []) ≡ ok (codes "example.com")
read_client_hello_sni-encode_example =
    read_client_hello_sni-encode reader hello 3 1 fragments [] [] hello-IsClientHello hello_small
      fragments_ok fragments_flat

read_client_hello_sni-returns_example :
    read_client_hello_sni reader (22 ∷ 3 ∷ 1 ∷ 0 ∷ 2 ∷ 1 ∷ 0 ∷ []) ≢ err out_of_fuel
read_client_hello_sni-returns_example =
    read_client_hello_sni-returns reader (22 ∷ 3 ∷ 1 ∷ 0 ∷ 2 ∷ 1 ∷ 0 ∷ [])

abbrev stream : Bytes
stream = encode_records 3 1 fragments []

handle_https-outcome_example :
    (view
        (handle_https env reader
          (served_options env conn_options)
          (new_matcher env allowlist)
          conn
          stream
          stream
          []).0
      ≡ (if conn.is_tcp
          then outcome env
              (served_options env conn_options)
              allowlist
              https
              conn
              (sni_of reader stream)
          else nothing))
    × IsAccepted (sni_of reader stream)
handle_https-outcome_example =
    handle_https-outcome env conn_options allowlist conn [] empty_cache-IsCoherent reader stream
      stream
