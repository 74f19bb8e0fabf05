-- ===== src/Nftables/Refreshed.antt =====
-- internal/nftables/resolved.go: what the resolved sets hold after a batch, and what that opens in
-- dns-strict mode. `run_element` is what nft documents, and the code relies on: `add element` fails on
-- a live element, `delete element` on one that is not there.
use g0efilter.Prelude.{
  ℕ, ◌/◌, ◌≤◌, ◌≡◌, refl, sym, ap, ◌∙◌, inl, inr, Bool, true, false, ◌&&◌, ◌||◌, Option, none, some,
  List, [], ◌∷◌, arith, if◌then◌else◌, Bool-cases, Option-cases,
}
use g0efilter.Nftables.{Family, v4, v6}
use g0efilter.Text.{Bytes, equal, trim_space}
use g0efilter.Text.Laws.{equal_refl}
use g0efilter.Nftables.Generate.{RulesetConfig, generate_ruleset}
use g0efilter.Nftables.Walks.{passes}
use g0efilter.Nftables.Egress.{generate_ruleset-filter}
use g0efilter.Nftables.Kernel.{Sets, Packet, run_hook, filter_hook, is_neighbour, is_family}
use g0efilter.Nftables.Policy.{
  is_strict, is_allowed, is_exempt, is_to_proxy, is_listed, is_permitted,
}
use g0efilter.Nftables.Apply.{Addresses}
use g0efilter.Nftables.Resolved.{
  second, clamp_ttl, ElementCommand, add_element, delete_element, resolved_element_args,
  ResolvedError, invalid_ip, add_resolved_element, add_resolved_ips,
}

-- The remaining timeout of every live element.
abbrev pub Live : Type 0
Live = Family → Bytes → Option ℕ

abbrev pub is_same_address : Family → Bytes → Family → Bytes → Bool
is_same_address f a g b = is_family f g && equal a b

abbrev write : Family → Bytes → Option ℕ → Live → Live
write f a o live g b = if is_same_address f a g b then o else live g b

abbrev pub is_live : Option ℕ → Bool
is_live none = false
is_live (some n) = true

unfoldable pub run_element : ElementCommand → Live → Bool × Live
run_element (add_element f a seconds) live =
    if is_live (live f a) then (false, live) else (true, write f a (some seconds) live)
run_element (delete_element f a) live =
    if is_live (live f a) then (true, write f a none live) else (false, live)

-- An address text names an address of the family.
abbrev pub names_address : Addresses → Family → Bytes → Bytes → Bool
names_address net f a ip = elim (net.parse_ip (trim_space ip)) [
  | none ↦ false
  | some (g, b) ↦ is_same_address g b f a
]

abbrev pub any_names : Addresses → Family → Bytes → List Bytes → Bool
any_names net f a [] = false
any_names net f a (ip ∷ ips) = names_address net f a ip || any_names net f a ips

abbrev pub invalid_ips : Addresses → List Bytes → List ResolvedError
invalid_ips net [] = []
invalid_ips net (ip ∷ ips) =
    let rest = invalid_ips net ips in
    elim (net.parse_ip (trim_space ip)) [ none ↦ invalid_ip ip ∷ rest | some fa ↦ rest ]

-- The timeout is from a minute to a day, whatever the time to live.
pub clamp_ttl-bounds : (ttl : ℕ) → (60 ≤ clamp_ttl ttl / second) × (clamp_ttl ttl / second ≤ 86400)
unfolding clamp_ttl
clamp_ttl-bounds ttl = (ground arith, ground arith)

is_same_address_refl : (f : Family) (a : Bytes) → is_same_address f a f a ≡ true
is_same_address_refl v4 a = equal_refl a
is_same_address_refl v6 a = equal_refl a

-- `add`, and after a failure `delete` and `add` once more.
abbrev added : Family → Bytes → ℕ → Live → Bool × Live
added f a seconds live =
    let first = run_element (add_element f a seconds) live in
    if first.0
    then first
    else run_element (add_element f a seconds) (run_element (delete_element f a) first.1).1

module _ (f : Family) (a : Bytes) (seconds : ℕ) (live : Live) where
  add_live : is_live (live f a) ≡ true → run_element (add_element f a seconds) live ≡ (false, live)
  unfolding run_element
  add_live e = rw e refl

  add_absent :
      is_live (live f a) ≡ false
      → run_element (add_element f a seconds) live ≡ (true, write f a (some seconds) live)
  unfolding run_element
  add_absent e = rw e refl

  delete_live :
      is_live (live f a) ≡ true
      → run_element (delete_element f a) live ≡ (true, write f a none live)
  unfolding run_element
  delete_live e = rw e refl

absent_after : (f : Family) (a : Bytes) (live : Live) → is_live (write f a none live f a) ≡ false
absent_after f a live = rw (is_same_address_refl f a) refl

twice_live :
    (f : Family) (a : Bytes) (seconds : ℕ) (live : Live) (g : Family) (b : Bytes)
    → write f a (some seconds) (write f a none live) g b
      ≡ (if is_same_address f a g b then some seconds else live g b)
twice_live f a seconds live g b = elim (Bool-cases (is_same_address f a g b)) [
  | inl e ↦ rw e refl
  | inr e ↦ rw e refl
]

added_lem :
    (f : Family) (a : Bytes) (seconds : ℕ) (live : Live)
    → ((added f a seconds live).0 ≡ true)
      × ((g : Family) (b : Bytes)
          → (added f a seconds live).1 g b
            ≡ (if is_same_address f a g b then some seconds else live g b))
added_lem f a seconds live = elim (Bool-cases (is_live (live f a))) [
  | inl e ↦
      let again = add_absent f a seconds (write f a none live) (absent_after f a live) in
      rw (add_live f a seconds live e, delete_live f a seconds live e, again)
        (refl, twice_live f a seconds live)
  | inr e ↦ rw (add_absent f a seconds live e) (refl, λ g b. refl)
]

module _ (net : Addresses) (ip : Bytes) (ttl : ℕ) (live : Live) where
  abbrev seconds_of : ℕ
  seconds_of = clamp_ttl ttl / second

  invalid_lem :
      net.parse_ip (trim_space ip) ≡ none
      → add_resolved_element run_element net ip ttl live ≡ (some (invalid_ip ip), live)
  unfolding add_resolved_element resolved_element_args
  invalid_lem e = rw (e, add_resolved_element) refl

  valid_lem :
      (f : Family) (a : Bytes)
      → net.parse_ip (trim_space ip) ≡ some (f, a)
      → add_resolved_element run_element net ip ttl live ≡ (none, (added f a seconds_of live).1)
  unfolding add_resolved_element resolved_element_args
  valid_lem f a e = rw (e, add_resolved_element) (ground (arith, (added_lem f a seconds_of live).0))

  invalid_ips-none :
      (ips : List Bytes)
      → net.parse_ip (trim_space ip) ≡ none
      → invalid_ips net (ip ∷ ips) ≡ invalid_ip ip ∷ invalid_ips net ips
  invalid_ips-none ips e = rw (e, invalid_ips) refl

  invalid_ips-some :
      (ips : List Bytes) {f : Family} {a : Bytes}
      → net.parse_ip (trim_space ip) ≡ some (f, a)
      → invalid_ips net (ip ∷ ips) ≡ invalid_ips net ips
  invalid_ips-some ips e = rw (e, invalid_ips) refl

  names_address-none :
      (g : Family) (b : Bytes)
      → net.parse_ip (trim_space ip) ≡ none
      → names_address net g b ip ≡ false
  names_address-none g b e = rw (e, names_address) refl

  names_address-some :
      (g : Family) (b : Bytes) {f : Family} {a : Bytes}
      → net.parse_ip (trim_space ip) ≡ some (f, a)
      → names_address net g b ip ≡ is_same_address f a g b
  names_address-some g b e = rw (e, names_address) refl

merge :
    (x n y : Bool) (s l l' : Option ℕ)
    → n ≡ y
    → l' ≡ (if y then s else l)
    → (if x then s else l') ≡ (if n || x then s else l)
merge true true y s l l' p q = refl
merge true false y s l l' p q = refl
merge false true true s l l' p q = q
merge false true false s l l' p q = absurd (ground (arith, p))
merge false false true s l l' p q = absurd (ground (arith, p))
merge false false false s l l' p q = q

pub add_resolved_ips-refreshes :
    (net : Addresses) (ips : List Bytes) (ttl : ℕ) (live : Live)
    → ((add_resolved_ips run_element net ips ttl live).0 ≡ invalid_ips net ips)
      × ((g : Family) (b : Bytes)
          → (add_resolved_ips run_element net ips ttl live).1 g b
            ≡ (if any_names net g b ips then some (clamp_ttl ttl / second) else live g b))
unfolding add_resolved_ips
add_resolved_ips-refreshes net [] ttl live = (refl, λ g b. refl)
add_resolved_ips-refreshes net (ip ∷ ips) ttl live =
    elim (Option-cases (net.parse_ip (trim_space ip))) [
      | inl e ↦
          let rest = add_resolved_ips-refreshes net ips ttl live in
          rw (invalid_lem net ip ttl live e, add_resolved_ips)
            (
              ap (λ errs. invalid_ip ip ∷ errs) rest.0
                  ∙ sym (invalid_ips-none net ip ttl live ips e),
              λ g b. ground (arith, rest.1 g b, names_address-none net ip ttl live g b e),
            )
      | inr ((f, a), e) ↦
          let seconds = clamp_ttl ttl / second in
          let rest = add_resolved_ips-refreshes net ips ttl (added f a seconds live).1 in
          let here = (added_lem f a seconds live).1 in
          rw (valid_lem net ip ttl live f a e, add_resolved_ips)
            (
              rest.0 ∙ sym (invalid_ips-some net ip ttl live ips e),
              λ g b.
                  rest.1 g b
                  ∙ merge (any_names net g b ips) (names_address net g b ip)
                      (is_same_address f a g b) (some seconds) (live g b)
                      ((added f a seconds live).1 g b) (names_address-some net ip ttl live g b e)
                      (here g b),
            )
    ]

-- The kernel's sets as they stand.
abbrev pub sets_with : (Bytes → Bytes → Bool) → Live → Sets
sets_with in_elements live = record {
  in_elements = in_elements;
  in_resolved = λ f a. is_live (live f a);
}

-- In dns-strict mode with default deny and without audit, after a batch on empty resolved sets: the filter
-- chain of the generated ruleset accepts a packet that is not on the allowlist, not exempt, not to the proxy and
-- not IPv6 neighbour discovery exactly when some text of the batch names its destination, and drops it
-- otherwise.
pub resolved-generate_ruleset :
    (net : Addresses) (ips : List Bytes) (ttl : ℕ) (in_elements : Bytes → Bytes → Bool)
    (cfg : RulesetConfig) (p : Packet)
    → cfg.default_allow ≡ false
    → cfg.audit ≡ false
    → is_strict cfg ≡ true
    → let live = (add_resolved_ips run_element net ips ttl (λ f a. none)).1 in
      let k = sets_with in_elements live in
      is_exempt k cfg p ≡ false
      → is_to_proxy k cfg p ≡ false
      → is_allowed k cfg p ≡ false
      → is_neighbour p.payload ≡ false
      → (run_hook k filter_hook (generate_ruleset cfg) p).1
        ≡ passes (any_names net p.family p.daddr ips)
unfolding is_permitted is_listed
resolved-generate_ruleset net ips ttl in_elements cfg p d u s x t a n =
    let live = (add_resolved_ips run_element net ips ttl (λ f a. none)).1 in
    let k = sets_with in_elements live in
    let e : (is_permitted k cfg p || cfg.audit) ≡ any_names net p.family p.daddr ips = ground (
      arith,
      d,
      u,
      s,
      x,
      t,
      a,
      n,
      (add_resolved_ips-refreshes net ips ttl (λ f b. none)).1 p.family p.daddr,
    ) in
    (generate_ruleset-filter k cfg p).0 ∙ ap passes e
