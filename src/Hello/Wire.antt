-- ===== src/Hello/Wire.antt =====
-- The wire format of a ClientHello, as RFC 8446 and RFC 6066 give it, and what the parser of a
-- handshake body reads from it.
use g0efilter.Prelude.{
  ℕ, zero, suc, ◌+◌, ◌*◌, ◌/◌, ◌%◌, ◌≤◌, ◌<◌, ◌≡◌, ◌∙◌, false, some, List, [], ◌∷◌, ◌++◌, arith,
  ◌==◌, length, length-append, All,
}
use g0efilter.Hello.{
  ok, scan_names, sni_from_server_name_ext, scan_extensions, sni_from_extensions,
  parse_client_hello_sni,
}
use g0efilter.Hello.Reader.{Cryptobyte}
use g0efilter.Text.{Bytes}

-- A vector with a length prefix of one byte, and of two, in front of a rest.
abbrev pub prefix8 : Bytes → Bytes → Bytes
prefix8 xs rest = length xs ∷ (xs ++ rest)

abbrev pub prefix16 : Bytes → Bytes → Bytes
prefix16 xs rest = (length xs / 256) ∷ (length xs % 256) ∷ (xs ++ rest)

-- Extensions with their types, in front of a rest.
abbrev pub encode_extensions : List (ℕ × Bytes) → Bytes → Bytes
encode_extensions [] rest = rest
encode_extensions ((t, d) ∷ es) rest =
    (t / 256) ∷ (t % 256) ∷ prefix16 d (encode_extensions es rest)

-- Entries of a server name list with their types, in front of a rest.
abbrev pub encode_names : List (ℕ × Bytes) → Bytes → Bytes
encode_names [] rest = rest
encode_names ((t, n) ∷ ns) rest = t ∷ prefix16 n (encode_names ns rest)

-- A ClientHello whose first server_name extension has `name` as its first host name. The parts
-- behind what the parser reads are any bytes.
pub record ClientHello : Type 0 where
  pub start : Bytes
  pub session_id : Bytes
  pub ciphers : Bytes
  pub compression : Bytes
  pub extensions_before : List (ℕ × Bytes)
  pub names_before : List (ℕ × Bytes)
  pub name : Bytes
  pub names_after : Bytes
  pub list_after : Bytes
  pub extensions_after : Bytes
  pub body_after : Bytes

abbrev pub name_list : ClientHello → Bytes
name_list h = encode_names h.names_before (0 ∷ prefix16 h.name h.names_after)

abbrev pub server_name : ClientHello → Bytes
server_name h = prefix16 (name_list h) h.list_after

abbrev pub extensions : ClientHello → Bytes
extensions h =
    encode_extensions h.extensions_before (0 ∷ 0 ∷ prefix16 (server_name h) h.extensions_after)

unfoldable pub encode_body : ClientHello → Bytes
encode_body h =
    h.start
    ++ prefix8 h.session_id
        (prefix16 h.ciphers (prefix8 h.compression (prefix16 (extensions h) h.body_after)))

-- A type that is not server_name, with data whose length fits its prefix.
abbrev pub IsOtherExtension : ℕ × Bytes → Type 0
IsOtherExtension e = (0 < e.0) × (e.0 < 65536) × (length e.1 < 65536)

abbrev pub IsOtherName : ℕ × Bytes → Type 0
IsOtherName e = (0 < e.0) × (e.0 < 256) × (length e.1 < 65536)

-- Every vector fits its length prefix, and no server_name extension or host name stands earlier.
pub record IsClientHello (h : ClientHello) : Type 0 where
  pub start_length : length h.start ≡ 34
  pub session_fits : length h.session_id < 256
  pub ciphers_fit : length h.ciphers < 65536
  pub compression_fits : length h.compression < 256
  pub others : All IsOtherExtension h.extensions_before
  pub other_names : All IsOtherName h.names_before
  pub name_fits : length h.name < 65536
  pub list_fits : length (name_list h) < 65536
  pub server_name_fits : length (server_name h) < 65536
  pub extensions_fit : length (extensions h) < 65536

length-encode_names :
    (ns : List (ℕ × Bytes)) (rest : Bytes) → length ns + length rest ≤ length (encode_names ns rest)
length-encode_names [] rest = omega arith
length-encode_names ((t, n) ∷ ns) rest =
    omega (arith, length-encode_names ns rest, length-append n (encode_names ns rest))

length-encode_extensions :
    (es : List (ℕ × Bytes)) (rest : Bytes)
    → length es + length rest ≤ length (encode_extensions es rest)
length-encode_extensions [] rest = omega arith
length-encode_extensions ((t, d) ∷ es) rest =
    omega (arith, length-encode_extensions es rest, length-append d (encode_extensions es rest))

module _ (c : Cryptobyte) where
  read_prefix16 :
      (xs rest : Bytes)
      → length xs < 65536
      → c.read_uint16_length_prefixed (prefix16 xs rest) ≡ some (xs, rest)
  read_prefix16 xs rest h =
      c.uint16_prefixed_read (length xs / 256) (length xs % 256) xs rest (omega arith) (omega arith)
        (omega arith)

  read_type16 :
      (t : ℕ) (rest : Bytes)
      → t < 65536
      → c.read_uint16 ((t / 256) ∷ (t % 256) ∷ rest) ≡ some (t, rest)
  read_type16 t rest h =
      let e : t / 256 * 256 + t % 256 ≡ t = omega arith in
      rw e at (c.uint16_read (t / 256) (t % 256) rest (omega arith) (omega arith))

  scan_names-host :
      (fuel : ℕ) (ns : List (ℕ × Bytes)) (name rest : Bytes)
      → length ns < fuel
      → All IsOtherName ns
      → length name < 65536
      → scan_names c fuel (encode_names ns (0 ∷ prefix16 name rest)) ≡ ok name
  unfolding scan_names
  scan_names-host zero ns name rest h o k = absurd (omega arith)
  scan_names-host (suc fuel) [] name rest h o k =
      rw (c.uint8_read 0 (prefix16 name rest) (omega arith), read_prefix16 name rest k)
  scan_names-host (suc fuel) ((t, n) ∷ ns) name rest h o k =
      let tail = encode_names ns (0 ∷ prefix16 name rest) in
      let other : (t == 0) ≡ false = ground arith in
      rw (c.uint8_read t (prefix16 n tail) o.0.1, read_prefix16 n tail o.0.2, other)
        (scan_names-host fuel ns name rest (omega arith) o.1 k)

  scan_extensions-sni :
      (fuel : ℕ) (es : List (ℕ × Bytes)) (d rest : Bytes)
      → length es < fuel
      → All IsOtherExtension es
      → length d < 65536
      → scan_extensions c fuel (encode_extensions es (0 ∷ 0 ∷ prefix16 d rest))
        ≡ sni_from_server_name_ext c d
  unfolding scan_extensions
  scan_extensions-sni zero es d rest h o k = absurd (omega arith)
  scan_extensions-sni (suc fuel) [] d rest h o k =
      rw (read_type16 0 (prefix16 d rest) (omega arith), read_prefix16 d rest k)
  scan_extensions-sni (suc fuel) ((t, x) ∷ es) d rest h o k =
      let tail = encode_extensions es (0 ∷ 0 ∷ prefix16 d rest) in
      let other : (t == 0) ≡ false = ground arith in
      rw (read_type16 t (prefix16 x tail) o.0.1, read_prefix16 x tail o.0.2, other)
        (scan_extensions-sni fuel es d rest (omega arith) o.1 k)

  sni_from_server_name-host :
      (h : ClientHello) → IsClientHello h → sni_from_server_name_ext c (server_name h) ≡ ok h.name
  unfolding sni_from_server_name_ext
  sni_from_server_name-host h w =
      let enough : length h.names_before < length (name_list h) + 1 =
        omega (arith, length-encode_names h.names_before (0 ∷ prefix16 h.name h.names_after)) in
      rw (read_prefix16 (name_list h) h.list_after w.list_fits) (
        scan_names-host (length (name_list h) + 1) h.names_before h.name h.names_after enough
          w.other_names w.name_fits)

  sni_from_extensions-host :
      (h : ClientHello) → IsClientHello h → sni_from_extensions c (extensions h) ≡ ok h.name
  unfolding sni_from_extensions
  sni_from_extensions-host h w =
      let enough : length h.extensions_before < length (extensions h) + 1 = omega (
        arith,
        length-encode_extensions h.extensions_before
            (0 ∷ 0 ∷ prefix16 (server_name h) h.extensions_after),
      ) in
      scan_extensions-sni (length (extensions h) + 1) h.extensions_before (server_name h)
        h.extensions_after enough w.others w.server_name_fits
      ∙ sni_from_server_name-host h w

  parse_parts :
      (start session_id ciphers compression exts after : Bytes)
      → length start ≡ 34
      → length session_id < 256
      → length ciphers < 65536
      → length compression < 256
      → length exts < 65536
      → parse_client_hello_sni c (
          start
          ++ prefix8 session_id (prefix16 ciphers (prefix8 compression (prefix16 exts after))))
        ≡ sni_from_extensions c exts
  unfolding parse_client_hello_sni
  parse_parts start session_id ciphers compression exts after h i j k l =
      let r1 = prefix8 session_id (prefix16 ciphers (prefix8 compression (prefix16 exts after))) in
      let skipped : c.skip 34 (start ++ r1) ≡ some r1 = rw h at (c.skip_read start r1) in
      rw (
        skipped,
        c.uint8_prefixed_read session_id
            (prefix16 ciphers (prefix8 compression (prefix16 exts after))) i,
        read_prefix16 ciphers (prefix8 compression (prefix16 exts after)) j,
        c.uint8_prefixed_read compression (prefix16 exts after) k,
        read_prefix16 exts after l,
      )

  -- The parser of a body finds the name of a well-formed ClientHello, whose vectors fit their length
  -- prefixes.
  pub parse-encode_body :
      (h : ClientHello) → IsClientHello h → parse_client_hello_sni c (encode_body h) ≡ ok h.name
  unfolding encode_body
  parse-encode_body h w =
      parse_parts h.start h.session_id h.ciphers h.compression (extensions h) h.body_after
        w.start_length w.session_fits w.ciphers_fit w.compression_fits w.extensions_fit
      ∙ sni_from_extensions-host h w
