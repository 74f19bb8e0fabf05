-- ===== src/Hello.antt =====
-- internal/filter/clienthello.go: SNI extraction from a TLS ClientHello. The reader is the list of
-- the bytes that it will give before it ends; `cryptobyte` is a parameter (Hello/Reader). The
-- loops take fuel and give `out_of_fuel` without it; `read_client_hello_sni` hands over enough for
-- every input (Hello/Total). Bytes are below 256, so `|` of shifted bytes is a sum.
pub mod Reader
pub mod Wire
pub mod Records
pub mod Total
use g0efilter.Prelude.{
  ℕ, zero, suc, ◌+◌, ◌*◌, Bool, true, not, ◌||◌, Option, none, some, [], ◌++◌, ltb, ◌==◌,
  if◌then◌else◌, length, get_or, take, drop,
}
use g0efilter.Hello.Reader.{Cryptobyte}
use g0efilter.Text.{Bytes, is_empty}

abbrev pub record_header_len : ℕ
record_header_len = 5

abbrev pub record_type_handshake : ℕ
record_type_handshake = 22

abbrev pub handshake_type_client_hello : ℕ
handshake_type_client_hello = 1

abbrev pub handshake_header_len : ℕ
handshake_header_len = 4

abbrev pub ext_type_server_name : ℕ
ext_type_server_name = 0

abbrev pub name_type_host_name : ℕ
name_type_host_name = 0

abbrev pub max_record_size : ℕ
max_record_size = 16384 + 2048

abbrev pub max_client_hello_size : ℕ
max_client_hello_size = 65536

-- The errors of the file; `read_header` and `read_payload` wrap those of the reader.
pub data HelloError : Type 0 where
  read_header read_payload not_handshake not_client_hello record_length : HelloError
  client_hello_too_big malformed_hello malformed_extension out_of_fuel : HelloError

pub data Result (A : Type 0) : Type 0 where
  ok : A → Result A
  err : HelloError → Result A

infixl 5 ◌>>=◌
abbrev pub ◌>>=◌ : {A B : Type 0} → Result A → (A → Result B) → Result B
ok a >>= f = f a
err e >>= f = err e

-- A read that failed ends in the given error.
abbrev pub or_fail : {A : Type 0} → HelloError → Option A → Result A
or_fail e (some a) = ok a
or_fail e none = err e

-- `io.ReadFull`: all of the bytes, or an error.
unfoldable pub read_full : ℕ → Bytes → Option (Bytes × Bytes)
read_full n s = if ltb (length s) n then none else some (take n s, drop n s)

-- `readRecord`: the payload, and the bytes behind it.
unfoldable pub read_record : Bytes → Result (Bytes × Bytes)
unfolding read_full
read_record r = do
  (hdr, r1) ← or_fail read_header (read_full record_header_len r)
  let rec_len = get_or hdr 3 0 * 256 + get_or hdr 4 0
  if not (get_or hdr 0 0 == record_type_handshake)
      then err not_handshake
      else if rec_len == 0 || ltb max_record_size rec_len
      then err record_length
      else or_fail read_payload (read_full rec_len r1)

-- The number of bytes that the handshake needs, from what is there of it: the second `if` in the
-- loop of `readClientHelloSNI`. `none` is the `-1` of the source.
unfoldable pub read_need : Option ℕ → Bytes → Result (Option ℕ)
read_need (some need) handshake = ok (some need)
read_need none handshake =
    let body_len =
      get_or handshake 1 0 * 65536 + get_or handshake 2 0 * 256 + get_or handshake 3 0 in
    if ltb (length handshake) handshake_header_len
    then ok none
    else if not (get_or handshake 0 0 == handshake_type_client_hello)
    then err not_client_hello
    else if ltb max_client_hello_size body_len
    then err client_hello_too_big
    else ok (some (handshake_header_len + body_len))

-- `need < 0 || len(handshake) < need`
abbrev pub is_incomplete : Option ℕ → Bytes → Bool
is_incomplete none handshake = true
is_incomplete (some need) handshake = ltb (length handshake) need

-- `handshake[handshakeHeaderLen:need]`
abbrev pub body_of : Option ℕ → Bytes → Bytes
body_of none handshake = []
body_of (some need) handshake = drop handshake_header_len (take need handshake)

module _ (c : Cryptobyte) where
  open c use {
    skip, read_uint8, read_uint16, read_uint8_length_prefixed, read_uint16_length_prefixed,
  }

  -- The loop of `sniFromServerNameExt`.
  unfoldable pub scan_names : ℕ → Bytes → Result Bytes
  scan_names zero names = err out_of_fuel
  scan_names (suc fuel) names = if is_empty names then ok [] else do
    (name_type, r1) ← or_fail malformed_extension (read_uint8 names)
    (name, r2) ← or_fail malformed_extension (read_uint16_length_prefixed r1)
    let rest = scan_names fuel r2
    if name_type == name_type_host_name then ok name else rest

  -- `sniFromServerNameExt`
  unfoldable pub sni_from_server_name_ext : Bytes → Result Bytes
  sni_from_server_name_ext ext_data = do
    (names, rest) ← or_fail malformed_extension (read_uint16_length_prefixed ext_data)
    scan_names (length names + 1) names

  -- The loop of `sniFromExtensions`.
  unfoldable pub scan_extensions : ℕ → Bytes → Result Bytes
  scan_extensions zero extensions = err out_of_fuel
  scan_extensions (suc fuel) extensions = if is_empty extensions then ok [] else do
    (ext_type, r1) ← or_fail malformed_extension (read_uint16 extensions)
    (ext_data, r2) ← or_fail malformed_extension (read_uint16_length_prefixed r1)
    let rest = scan_extensions fuel r2
    if ext_type == ext_type_server_name then sni_from_server_name_ext ext_data else rest

  -- `sniFromExtensions`
  unfoldable pub sni_from_extensions : Bytes → Result Bytes
  sni_from_extensions extensions = scan_extensions (length extensions + 1) extensions

  -- `parseClientHelloSNI`
  unfoldable pub parse_client_hello_sni : Bytes → Result Bytes
  parse_client_hello_sni body = do
    s1 ← or_fail malformed_hello (skip (2 + 32) body)
    (session_id, s2) ← or_fail malformed_hello (read_uint8_length_prefixed s1)
    (ciphers, s3) ← or_fail malformed_hello (read_uint16_length_prefixed s2)
    (compression, s4) ← or_fail malformed_hello (read_uint8_length_prefixed s3)
    if is_empty s4 then ok [] else do
      (extensions, rest) ← or_fail malformed_hello (read_uint16_length_prefixed s4)
      sni_from_extensions extensions

  -- The loop of `readClientHelloSNI`, and the parse behind it.
  unfoldable pub reassemble : ℕ → Bytes → Option ℕ → Bytes → Result Bytes
  reassemble zero handshake need r = err out_of_fuel
  reassemble (suc fuel) handshake need r =
      if not (is_incomplete need handshake)
      then parse_client_hello_sni (body_of need handshake)
      else do
        (payload, r') ← read_record r
        need' ← read_need need (handshake ++ payload)
        reassemble fuel (handshake ++ payload) need' r'

  -- `readClientHelloSNI`
  unfoldable pub read_client_hello_sni : Bytes → Result Bytes
  read_client_hello_sni r = reassemble (length r + 1) [] none r
