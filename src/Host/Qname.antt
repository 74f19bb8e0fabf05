-- ===== src/Host/Qname.antt =====
-- `sanitizeDNSQname` is idempotent, and at least as liberal as `sanitizeHost`.
use g0efilter.Prelude.{
  ℕ, ◌≤◌, ◌≡◌, refl, sym, ap, ◌∙◌, ◌⊎◌, true, ◌||◌, some, List, [], ◌∷◌, arith, ◌==◌, length,
  length-map, All, all, all_of_All, All-mono,
}
use g0efilter.Host.{
  has_valid_length, is_valid_dns_char, is_valid_dns_qname_label, sanitize_dns_qname, sanitize_host,
}
use g0efilter.Host.Valid.{IsLdh, IsLabel, LabelsFit}
use g0efilter.Host.Sanitize.{IsHost-of_sanitize, parts_of_IsHost, chars_of_IsHost}
use g0efilter.Text.{Bytes, lower, to_lower}
use g0efilter.Text.Laws.{to_lower-to_lower}

length-lower : (s : Bytes) → length (to_lower s) ≡ length s
length-lower s = length-map s lower

-- The lower-cased name that is returned is accepted again, unchanged.
pub sanitize_dns_qname_idem :
    (s : Bytes) {t : Bytes} → sanitize_dns_qname s ≡ some t → sanitize_dns_qname t ≡ some t
unfolding sanitize_dns_qname
sanitize_dns_qname_idem s {t} h =
    let e : t ≡ to_lower s = ground arith in
    let twice : to_lower t ≡ t = ap to_lower e ∙ to_lower-to_lower s ∙ sym e in
    ground (arith, ap length e, length-lower s)

ldh_ok : (c : ℕ) → IsLdh c → (is_valid_dns_char c || c == b'_') ≡ true
unfolding is_valid_dns_char
ldh_ok c h = ground arith

label_ok : (l : Bytes) → IsLabel l → All IsLdh l → is_valid_dns_qname_label l ≡ true
unfolding is_valid_dns_qname_label
label_ok l h k = ground (arith, all_of_All _ l (All-mono IsLdh _ ldh_ok l k))

labels_ok :
    (ls : List Bytes) → LabelsFit ls → All (All IsLdh) ls → all is_valid_dns_qname_label ls ≡ true
labels_ok [] h k = refl
labels_ok (l ∷ []) h k = ground (arith, label_ok l h.0 k.0)
labels_ok (l ∷ m ∷ ls) h k = ground (arith, label_ok l h.0 k.0, labels_ok (m ∷ ls) h.1 k.1)

lower_of_char : (c : ℕ) → IsLdh c ⊎ (c ≡ b'.') → lower c ≡ c
unfolding lower
lower_of_char c h = ground arith

to_lower_of_chars : (s : Bytes) → All (λ c. IsLdh c ⊎ (c ≡ b'.')) s → to_lower s ≡ s
to_lower_of_chars [] h = refl
to_lower_of_chars (c ∷ s) h = cc (lower_of_char c h.0, to_lower_of_chars s h.1)

length_pos : (s : Bytes) → sanitize_host s ≡ some s → (1 ≤ length s) × (length s ≤ 253)
unfolding sanitize_host has_valid_length
length_pos s h = ground arith

-- A name that `sanitizeHost` accepts is a DNS query name for `sanitizeDNSQname`, unchanged.
pub sanitize_dns_qname_of_host :
    (s : Bytes) → sanitize_host s ≡ some s → sanitize_dns_qname s ≡ some s
unfolding sanitize_dns_qname
sanitize_dns_qname_of_host s h =
    let host = IsHost-of_sanitize s h in
    let same = to_lower_of_chars s (chars_of_IsHost s host) in
    let parts = parts_of_IsHost s host in
    ground (arith, length_pos s h, labels_ok host.labels host.fit host.alphabet)
