-- ===== src/Nftables/Ports.antt =====
-- internal/nftables/nftables.go: the ports that `parsePort` accepts, and the lists of `splitByFamily`.
use g0efilter.Prelude.{
  ℕ, ◌≤◌, ◌≡◌, refl, ◌≢◌, ◌⊎◌, inl, inr, Bool, true, false, ◌||◌, Option, none, some, List, [], ◌∷◌,
  map, arith, ltb, Bool-cases, Option-cases, filter,
}
use g0efilter.Nftables.{Family, v4, v6}
use g0efilter.Prelude.Int.{pos, negsuc}
use g0efilter.Text.{Bytes, trim_space}
use g0efilter.Text.Number.{atoi, itoa, atoi-itoa}
use g0efilter.Nftables.Apply.{
  PortName, invalid_port, port_out_of_range, ok, error, parse_port, Addresses, entry_family,
  split_by_family,
}

-- `parsePort` returns a port from 1 to 65535, which is the number that the trimmed text stands for, or an
-- error: that the text is no number, or that its number is out of that range.
pub parse_port-cases :
    (s : Bytes) (name : PortName)
    → ((port : ℕ) × (parse_port s name ≡ ok port)
        × (atoi (trim_space s) ≡ some (pos port))
        × (1 ≤ port)
        × (port ≤ 65535))
      ⊎ ((parse_port s name ≡ error (invalid_port name)) × (atoi (trim_space s) ≡ none))
      ⊎ ((parse_port s name ≡ error (port_out_of_range name))
          × ((port : ℕ) → 1 ≤ port → port ≤ 65535 → atoi (trim_space s) ≢ some (pos port)))
unfolding parse_port
parse_port-cases s name = elim (Option-cases (atoi (trim_space s))) [
  | inl e ↦ inr (inl (rw (e, parse_port) refl, e))
  | inr (negsuc n, e) ↦ inr (inr (rw (e, parse_port) refl, λ port lo hi k. ground (arith, e, k)))
  | inr (pos n, e) ↦ elim (Bool-cases (ltb n 1 || ltb 65535 n)) [
    | inl b ↦ inr (inr (ground (arith, e, b), λ port lo hi k. ground (arith, e, k, b)))
    | inr b ↦ inl (n, ground (arith, e, b), e, ground (arith, b), ground (arith, b))
  ]
]

-- The decimal text of a port is read back as that port.
pub parse_port-itoa :
    (port : ℕ) (name : PortName) → 1 ≤ port → port ≤ 65535 → parse_port (itoa port) name ≡ ok port
unfolding parse_port
parse_port-itoa port name lo hi = ground (arith, atoi-itoa port (omega arith))

-- Without entries that no family takes, the lists in their order.
abbrev is_v4 : Option Family → Bool
is_v4 (some v4) = true
is_v4 _ = false

abbrev is_v6 : Option Family → Bool
is_v6 (some v6) = true
is_v6 _ = false

-- The two lists are the trimmed entries of IPv4 and of IPv6, in their order; the others are dropped.
pub split_by_family_lem :
    (net : Addresses) (entries : List Bytes)
    → ((split_by_family net entries).0
        ≡ filter (λ e. is_v4 (entry_family net e)) (map trim_space entries))
      × ((split_by_family net entries).1
          ≡ filter (λ e. is_v6 (entry_family net e)) (map trim_space entries))
unfolding split_by_family
split_by_family_lem net [] = (refl, refl)
split_by_family_lem net (raw ∷ entries) = ground (arith, split_by_family_lem net entries)
