-- ===== src/Host.antt =====
-- internal/filter/validate.go: the checks on a host name taken from a Host header or an SNI
-- (`sanitizeHost`), and on a DNS query name (`sanitizeDNSQname`). A string result beside a
-- `bool` is an option. The byte tests agree with the source's loops over runes: a byte above 127
-- is part of a rune that no test accepts. Trace logging is left out.
pub mod Structure
pub mod Sanitize
pub mod Reason
pub mod Qname
pub mod Valid
use g0efilter.Prelude.{
  ℕ, ◌+◌, ◌-◌, Bool, true, false, not, ◌&&◌, ◌||◌, Option, none, some, List, [], ◌∷◌, ltb, leb,
  ◌==◌, if◌then◌else◌, length, get_or, all,
}
use g0efilter.Text.{
  Bytes, codes, within, has_prefix, has_suffix, contains, to_lower, split, is_empty,
}

abbrev pub max_host_length : ℕ
max_host_length = 253

abbrev pub max_label_length : ℕ
max_label_length = 63

abbrev pub min_valid_host_length : ℕ
min_valid_host_length = 1

abbrev pub unknown_value : Bytes
unknown_value = codes "unknown"

-- `isValidDNSChar`
unfoldable pub is_valid_dns_char : ℕ → Bool
is_valid_dns_char r = within b'a' b'z' r || within b'0' b'9' r || r == b'.' || r == b'-'

-- `isAllNumeric`
unfoldable pub is_all_numeric : Bytes → Bool
is_all_numeric s = if all (λ r. not (ltb r b'0' || ltb b'9' r)) s then ltb 0 (length s) else false

-- `isValidLabel`: the length, then `label[0]` and `label[len(label)-1]`.
unfoldable pub is_valid_label : Bytes → Bool
is_valid_label label =
    let label_len = length label in
    if ltb label_len 1 || ltb max_label_length label_len
    then false
    else if get_or label 0 0 == b'-' || get_or label (label_len - 1) 0 == b'-'
    then false
    else true

-- `isValidTLD`
unfoldable pub is_valid_tld : Bytes → Bool
is_valid_tld tld = if ltb (length tld) 2 then false else if is_all_numeric tld then false else true

-- The loop of `hasValidLabels` from index `idx` of `n` labels.
unfoldable pub check_labels : ℕ → ℕ → List Bytes → Bool
check_labels n idx [] = true
check_labels n idx (label ∷ ls) =
    if not (is_valid_label label)
    then false
    else if idx == n - 1 && not (is_valid_tld label)
    then false
    else check_labels n (idx + 1) ls

-- `hasValidLabels`
unfoldable pub has_valid_labels : Bytes → Bool
has_valid_labels host =
    let labels = split b'.' host in
    if ltb (length labels) 2 then false else check_labels (length labels) 0 labels

-- `hasValidLength`
unfoldable pub has_valid_length : Bytes → Bool
has_valid_length host = leb min_valid_host_length (length host) && leb (length host) max_host_length

-- `hasValidCharacters`
unfoldable pub has_valid_characters : Bytes → Bool
has_valid_characters host = all is_valid_dns_char host

-- `hasValidStructure`
unfoldable pub has_valid_structure : Bytes → Bool
has_valid_structure host =
    if has_prefix (codes ".") host || has_prefix (codes "-") host
    then false
    else if has_suffix (codes "-") host
    then false
    else if contains (codes "..") host
    then false
    else true

-- `sanitizeHost` and `sanitizeHostWithLogger`
unfoldable pub sanitize_host : Bytes → Option Bytes
sanitize_host host =
    if not (has_valid_length host)
    then none
    else if not (has_valid_characters host)
    then none
    else if not (has_valid_structure host)
    then none
    else if not (has_valid_labels host)
    then none
    else some host

-- `determineStructureFailureReason`
unfoldable pub determine_structure_failure_reason : Bytes → Bytes
determine_structure_failure_reason host =
    if has_prefix (codes ".") host
    then codes "starts_with_dot"
    else if has_prefix (codes "-") host
    then codes "starts_with_hyphen"
    else if has_suffix (codes "-") host
    then codes "ends_with_hyphen"
    else if contains (codes "..") host
    then codes "contains_double_dot"
    else unknown_value

-- `checkLabelValidity`; the flag is `isTLD`.
unfoldable pub check_label_validity : Bytes → Bool → Bytes
check_label_validity label is_tld =
    if not (is_valid_label label)
    then if ltb (length label) 1
      then codes "empty_label"
      else if ltb max_label_length (length label)
      then codes "label_too_long"
      else if get_or label 0 0 == b'-'
      then codes "label_starts_with_hyphen"
      else if get_or label (length label - 1) 0 == b'-'
      then codes "label_ends_with_hyphen"
      else codes "invalid_label"
    else if is_tld && not (is_valid_tld label)
    then if ltb (length label) 2 then codes "tld_too_short" else codes "tld_all_numeric"
    else []

-- The loop of `determineLabelFailureReason` from index `idx` of `n` labels.
unfoldable pub label_failure : ℕ → ℕ → List Bytes → Bytes
label_failure n idx [] = unknown_value
label_failure n idx (label ∷ ls) =
    let reason = check_label_validity label (idx == n - 1) in
    if not (is_empty reason) then reason else label_failure n (idx + 1) ls

-- `determineLabelFailureReason`
unfoldable pub determine_label_failure_reason : Bytes → Bytes
determine_label_failure_reason host =
    let labels = split b'.' host in
    if ltb (length labels) 2
    then codes "insufficient_labels"
    else label_failure (length labels) 0 labels

-- `isValidDNSQnameLabel`
unfoldable pub is_valid_dns_qname_label : Bytes → Bool
is_valid_dns_qname_label label =
    if ltb (length label) 1 || ltb max_label_length (length label)
    then false
    else if get_or label 0 0 == b'-' || get_or label (length label - 1) 0 == b'-'
    then false
    else all (λ r. is_valid_dns_char r || r == b'_') label

-- `sanitizeDNSQname`
unfoldable pub sanitize_dns_qname : Bytes → Option Bytes
sanitize_dns_qname qname =
    if ltb (length qname) min_valid_host_length || ltb max_host_length (length qname)
    then none
    else let lowered = to_lower qname in
      if all is_valid_dns_qname_label (split b'.' lowered) then some lowered else none
