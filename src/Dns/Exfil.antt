-- ===== src/Dns/Exfil.antt =====
-- What the hardening checks let pass.
use g0efilter.Prelude.{
  ℕ, ◌+◌, ◌≤◌, ◌≡◌, refl, ◌∙◌, ◌≢◌, ◌↔◌, inl, inr, true, some, List, [], ◌∷◌, arith, leb,
  Option-cases, length, All, all, all_iff,
}
use g0efilter.Text.{Bytes, split}
use g0efilter.Dns.{
  Qtype, type_null, type_a, type_aaaa, type_other, Rr, a, aaaa, null, other, txt, Response, Network,
  check_exfil_query, is_null, total_length, txt_bytes, check_exfil_response,
}

-- The text bytes of one record.
abbrev pub payload : Rr → ℕ
payload (txt ss) = total_length ss
payload _ = 0

abbrev pub payloads : List Rr → ℕ
payloads [] = 0
payloads (r ∷ rs) = payload r + payloads rs

is_null_iff : (q : Qtype) → (is_null q ≡ true) ↔ (q ≡ type_null)
is_null_iff type_a = ground arith
is_null_iff type_aaaa = ground arith
is_null_iff type_null = ground arith
is_null_iff (type_other n) = ground arith

leb_iff : (m n : ℕ) → (leb m n ≡ true) ↔ (m ≤ n)
leb_iff m n = ground arith

-- A query passes the hardening check exactly when its type is not NULL, its name has at most 220
-- bytes and every label at most 56.
pub check_exfil_query_iff :
    (qname : Bytes) (qtype : Qtype)
    → (check_exfil_query qname qtype ≡ [])
      ↔ ((qtype ≢ type_null) × (length qname ≤ 220) × All (λ l. length l ≤ 56) (split b'.' qname))
unfolding check_exfil_query
check_exfil_query_iff qname qtype =
    let null_iff = is_null_iff qtype in
    let labels : (all (λ l. leb (length l) 56) (split b'.' qname) ≡ true)
        ↔ All (λ l. length l ≤ 56) (split b'.' qname) =
      all_iff _ _ (λ l. leb_iff (length l) 56) (split b'.' qname) in
    (
      λ h. (λ e. ground (arith, null_iff, h, e), ground (arith, h), labels.0 (ground (arith, h))),
      λ k. ground (arith, null_iff, labels, k.0, k.1, k.2),
    )

txt_bytes-some :
    (rs : List Rr) (n : ℕ) → All (λ r. r ≢ null) rs → txt_bytes rs n ≡ some (n + payloads rs)
unfolding txt_bytes
txt_bytes-some [] n h = ground arith
txt_bytes-some (a ip ttl ∷ rs) n h = ground (arith, txt_bytes-some rs n h.1)
txt_bytes-some (aaaa ip ttl ∷ rs) n h = ground (arith, txt_bytes-some rs n h.1)
txt_bytes-some (other ∷ rs) n h = ground (arith, txt_bytes-some rs n h.1)
txt_bytes-some (null ∷ rs) n h = absurd (h.0 refl)
txt_bytes-some (txt ss ∷ rs) n h = txt_bytes-some rs (n + total_length ss) h.1 ∙ ground arith

no_null : (rs : List Rr) (n m : ℕ) → txt_bytes rs n ≡ some m → All (λ r. r ≢ null) rs
unfolding txt_bytes
no_null [] n m h = tt
no_null (a ip ttl ∷ rs) n m h = (ground arith, no_null rs n m h)
no_null (aaaa ip ttl ∷ rs) n m h = (ground arith, no_null rs n m h)
no_null (other ∷ rs) n m h = (ground arith, no_null rs n m h)
no_null (null ∷ rs) n m h = absurd (ground arith)
no_null (txt ss ∷ rs) n m h = (ground arith, no_null rs (n + total_length ss) m h)

counted :
    (net : Network) (resp : Response)
    → check_exfil_response net resp ≡ []
    → (m : ℕ) × (txt_bytes resp.answer 0 ≡ some m)
unfolding check_exfil_response
counted net resp h = elim (Option-cases (txt_bytes resp.answer 0)) [
  | inl e ↦ absurd (ground (arith, h, e))
  | inr (m, e) ↦ (m, e)
]

-- An answer passes the hardening check exactly when the packed message has at most 4096 bytes, no
-- record of it is a NULL record and its TXT records hold at most 1024 bytes together.
pub check_exfil_response_iff :
    (net : Network) (resp : Response)
    → (check_exfil_response net resp ≡ []) ↔ (
        (net.message_length resp ≤ 4096)
        × All (λ r. r ≢ null) resp.answer
        × (payloads resp.answer ≤ 1024))
unfolding check_exfil_response
check_exfil_response_iff net resp = (
  λ h.
      let (m, found) = counted net resp h in
      let none_null = no_null resp.answer 0 m found in
      let count = txt_bytes-some resp.answer 0 none_null in
      (ground (arith, h), none_null, ground (arith, h, count)),
  λ k. let count = txt_bytes-some resp.answer 0 k.1 in ground (arith, count, k.0, k.2),
)
