-- ===== src/Hello/Total.antt =====
-- The fuel of each loop is enough: `out_of_fuel` is no result of `read_client_hello_sni`.
use g0efilter.Prelude.{
  ℕ, zero, suc, ◌+◌, ◌*◌, ◌<◌, ◌≡◌, refl, ◌≢◌, inl, inr, Option, none, some, [], ◌++◌, arith, ◌==◌,
  Bool-cases, length, get_or, take, drop, length-drop,
}
use g0efilter.Hello.{
  HelloError, name_type_host_name, ext_type_server_name, out_of_fuel, Result, ok, err, ◌>>=◌,
  or_fail, read_record, scan_names, sni_from_server_name_ext, scan_extensions, sni_from_extensions,
  parse_client_hello_sni, read_need, is_incomplete, body_of, reassemble, read_client_hello_sni,
}
use g0efilter.Hello.Reader.{Cryptobyte}
use g0efilter.Text.{Bytes, is_empty}

-- The result is no `out_of_fuel`.
abbrev Returns : {A : Type 0} → Result A → Type 0
Returns r = r ≢ err out_of_fuel

Returns-bind :
    {A B : Type 0} (m : Result A) (f : A → Result B)
    → Returns m
    → ((a : A) → m ≡ ok a → Returns (f a))
    → Returns (m >>= f)
Returns-bind (ok a) f h k = k a refl
Returns-bind (err e) f h k = λ q. h cc

or_fail-eq-ok :
    {A : Type 0} (e : HelloError) (o : Option A) (a : A) → or_fail e o ≡ ok a → o ≡ some a
or_fail-eq-ok e (some b) a h = cc
or_fail-eq-ok e none a h = cc

or_fail-Returns :
    {A : Type 0} (e : HelloError) (o : Option A) → e ≢ out_of_fuel → Returns (or_fail e o)
or_fail-Returns e (some b) h = λ q. cc
or_fail-Returns e none h = λ q. h (cc)

-- A payload is not empty, and the reader is shorter by it.
read_record-advances :
    (r : Bytes) (payload r' : Bytes) → read_record r ≡ ok (payload, r') → length r' < length r
unfolding read_record
read_record-advances r payload r' h = ground (
  arith,
  length-drop 5 r,
  length-drop (get_or (take 5 r) 3 0 * 256 + get_or (take 5 r) 4 0) (drop 5 r),
)

read_record-Returns : (r : Bytes) → Returns (read_record r)
unfolding read_record
read_record-Returns r = λ h. ground arith

read_need-Returns : (need : Option ℕ) (handshake : Bytes) → Returns (read_need need handshake)
unfolding read_need
read_need-Returns (some n) handshake = λ h. ground arith
read_need-Returns none handshake = λ h. ground arith

module _ (c : Cryptobyte) where
  scan_names-Returns :
      (fuel : ℕ) (names : Bytes) → length names < fuel → Returns (scan_names c fuel names)
  unfolding scan_names
  scan_names-Returns zero names h = absurd (omega arith)
  scan_names-Returns (suc fuel) names h = elim (Bool-cases (is_empty names)) [
    | inl done ↦ rw done (λ q. cc)
    | inr more ↦ rw more (
        Returns-bind _ _ (or_fail-Returns _ (c.read_uint8 names) (λ q. cc)) λ p e1.
          Returns-bind _ _ (or_fail-Returns _ (c.read_uint16_length_prefixed p.1) (λ q. cc)) λ t e2.
            let a = c.uint8_advances names p.0 p.1 (or_fail-eq-ok _ _ _ e1) in
            let b = c.uint16_prefixed_advances p.1 t.0 t.1 (or_fail-eq-ok _ _ _ e2) in
            elim (Bool-cases (p.0 == name_type_host_name)) [
              | inl host ↦ rw host (λ q. cc)
              | inr other ↦ rw other (scan_names-Returns fuel t.1 (omega arith))
            ])
  ]

  server_name-Returns : (ext_data : Bytes) → Returns (sni_from_server_name_ext c ext_data)
  unfolding sni_from_server_name_ext
  server_name-Returns ext_data =
      Returns-bind _ _ (or_fail-Returns _ (c.read_uint16_length_prefixed ext_data) (λ q. cc))
        λ p e. scan_names-Returns (length p.0 + 1) p.0 (omega arith)

  scan_extensions-Returns :
      (fuel : ℕ) (extensions : Bytes)
      → length extensions < fuel
      → Returns (scan_extensions c fuel extensions)
  unfolding scan_extensions
  scan_extensions-Returns zero extensions h = absurd (omega arith)
  scan_extensions-Returns (suc fuel) extensions h = elim (Bool-cases (is_empty extensions)) [
    | inl done ↦ rw done (λ q. cc)
    | inr more ↦ rw more (
        Returns-bind _ _ (or_fail-Returns _ (c.read_uint16 extensions) (λ q. cc)) λ p e1.
          Returns-bind _ _ (or_fail-Returns _ (c.read_uint16_length_prefixed p.1) (λ q. cc)) λ t e2.
            let a = c.uint16_advances extensions p.0 p.1 (or_fail-eq-ok _ _ _ e1) in
            let b = c.uint16_prefixed_advances p.1 t.0 t.1 (or_fail-eq-ok _ _ _ e2) in
            elim (Bool-cases (p.0 == ext_type_server_name)) [
              | inl found ↦ rw found (server_name-Returns t.0)
              | inr other ↦ rw other (scan_extensions-Returns fuel t.1 (omega arith))
            ])
  ]

  parse-Returns : (body : Bytes) → Returns (parse_client_hello_sni c body)
  unfolding parse_client_hello_sni sni_from_extensions
  parse-Returns body =
      Returns-bind _ _ (or_fail-Returns _ (c.skip (2 + 32) body) (λ q. cc)) λ s1 e1.
        Returns-bind _ _ (or_fail-Returns _ (c.read_uint8_length_prefixed s1) (λ q. cc)) λ p e2.
          Returns-bind _ _ (or_fail-Returns _ (c.read_uint16_length_prefixed p.1) (λ q. cc)) λ t e3.
            Returns-bind _ _ (or_fail-Returns _ (c.read_uint8_length_prefixed t.1) (λ q. cc))
              λ u e4. elim (Bool-cases (is_empty u.1)) [
                | inl done ↦ rw done (λ q. cc)
                | inr more ↦ rw more (
                    Returns-bind _ _
                      (or_fail-Returns _ (c.read_uint16_length_prefixed u.1) (λ q. cc))
                      λ x e5. scan_extensions-Returns (length x.0 + 1) x.0 (omega arith))
              ]

  reassemble-Returns :
      (fuel : ℕ) (handshake : Bytes) (need : Option ℕ) (r : Bytes)
      → length r < fuel
      → Returns (reassemble c fuel handshake need r)
  unfolding reassemble
  reassemble-Returns zero handshake need r h = absurd (omega arith)
  reassemble-Returns (suc fuel) handshake need r h =
      elim (Bool-cases (is_incomplete need handshake)) [
        | inr complete ↦ rw complete (parse-Returns (body_of need handshake))
        | inl more ↦ rw more (
            Returns-bind _ _ (read_record-Returns r) λ p e1.
              Returns-bind _ _ (read_need-Returns need (handshake ++ p.0)) λ need' e2.
                reassemble-Returns fuel (handshake ++ p.0) need' p.1
                  (omega (arith, read_record-advances r p.0 p.1 e1)))
      ]

  -- Whatever the reader gives, each of the three loops ends before its fuel does: the result is the
  -- name, or one of the errors of the source.
  pub read_client_hello_sni-returns : (r : Bytes) → read_client_hello_sni c r ≢ err out_of_fuel
  unfolding read_client_hello_sni
  read_client_hello_sni-returns r = reassemble-Returns (length r + 1) [] none r (omega arith)
