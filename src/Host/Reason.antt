-- ===== src/Host/Reason.antt =====
-- The reasons that the log names for a refused host agree with the tests that refuse it.
use g0efilter.Prelude.{
  ℕ, ◌+◌, ◌-◌, ◌≡◌, ◌↔◌, Bool, true, false, not, ◌&&◌, ◌||◌, List, [], ◌∷◌, arith, ◌==◌, length,
}
use g0efilter.Host.{
  unknown_value, is_valid_label, is_valid_tld, check_labels, has_valid_labels, has_valid_structure,
  determine_structure_failure_reason, check_label_validity, label_failure,
  determine_label_failure_reason,
}
use g0efilter.Text.{Bytes, codes, equal, split, is_empty}

abbrev IsKnown : Bytes → Type 0
IsKnown r = equal r unknown_value ≡ false

structure_reason :
    (s : Bytes) → (has_valid_structure s ≡ false) ↔ IsKnown (determine_structure_failure_reason s)
unfolding has_valid_structure determine_structure_failure_reason
structure_reason s = ground arith

-- A label has a reason exactly when it is refused, and the fallback is never reached.
label_reason :
    (l : Bytes) (tld : Bool)
    → ((is_empty (check_label_validity l tld) ≡ true)
        ↔ ((is_valid_label l && (not tld || is_valid_tld l)) ≡ true))
      × (equal (check_label_validity l tld) (codes "invalid_label") ≡ false)
      × IsKnown (check_label_validity l tld)
unfolding check_label_validity is_valid_label
label_reason l tld = ground arith

labels_reason :
    (n idx : ℕ) (ls : List Bytes)
    → (check_labels n idx ls ≡ false) ↔ IsKnown (label_failure n idx ls)
unfolding check_labels label_failure
labels_reason n idx [] = ground arith
labels_reason n idx (l ∷ ls) =
    ground (arith, label_reason l (idx == n - 1), labels_reason n (idx + 1) ls)

-- For each of the two tests: a host fails it exactly when the reason function names a reason
-- other than "unknown".
pub failure_reasons_agree :
    (s : Bytes)
    → ((has_valid_structure s ≡ false)
        ↔ (equal (determine_structure_failure_reason s) unknown_value ≡ false))
      × ((has_valid_labels s ≡ false)
          ↔ (equal (determine_label_failure_reason s) unknown_value ≡ false))
unfolding has_valid_labels determine_label_failure_reason
failure_reasons_agree s =
    (structure_reason s, ground (arith, labels_reason (length (split b'.' s)) 0 (split b'.' s)))
