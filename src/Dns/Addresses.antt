-- ===== src/Dns/Addresses.antt =====
-- The addresses that `extractAnswerIPs` finds, and the TTL that it gives them.
use g0efilter.Prelude.{
  ℕ, ◌≤◌, ◌≡◌, refl, sym, ap, ◌∙◌, ◌⊎◌, inl, inr, Bool, true, false, Option, none, some, List, [],
  ◌∷◌, map, arith, ltb, if◌then◌else◌, Bool-cases, All, Any,
}
use mathlib.Core.Path.{subst}
use g0efilter.Text.{Bytes}
use g0efilter.Dns.{
  a, aaaa, null, other, txt, Rr, Response, Network, address_of, lower_ttl, collect_ips, or_zero,
  extract_answer_ips,
}

-- The addresses of the A and AAAA records of an answer with their TTLs.
unfoldable pub addresses : List Rr → List (Bytes × ℕ)
addresses [] = []
addresses (a (some ip) ttl ∷ rs) = (ip, ttl) ∷ addresses rs
addresses (aaaa (some ip) ttl ∷ rs) = (ip, ttl) ∷ addresses rs
addresses (a none ttl ∷ rs) = addresses rs
addresses (aaaa none ttl ∷ rs) = addresses rs
addresses (null ∷ rs) = addresses rs
addresses (other ∷ rs) = addresses rs
addresses (txt ss ∷ rs) = addresses rs

-- `minTTL` over a list of addresses.
abbrev lowest : Option ℕ → List (Bytes × ℕ) → Option ℕ
lowest least [] = least
lowest least (x ∷ xs) = lowest (lower_ttl least x.1) xs

ips_lem :
    (net : Network) (rs : List Rr) (least : Option ℕ)
    → (collect_ips net rs least).0 ≡ map (λ x. net.ip_string x.0) (addresses rs)
unfolding collect_ips addresses address_of
ips_lem net [] least = refl
ips_lem net (a none ttl ∷ rs) least = ips_lem net rs least
ips_lem net (aaaa none ttl ∷ rs) least = ips_lem net rs least
ips_lem net (a (some ip) ttl ∷ rs) least =
    ap (◌∷◌ (net.ip_string ip)) (ips_lem net rs (lower_ttl least ttl))
ips_lem net (aaaa (some ip) ttl ∷ rs) least =
    ap (◌∷◌ (net.ip_string ip)) (ips_lem net rs (lower_ttl least ttl))
ips_lem net (null ∷ rs) least = ips_lem net rs least
ips_lem net (other ∷ rs) least = ips_lem net rs least
ips_lem net (txt ss ∷ rs) least = ips_lem net rs least

lowest_lem :
    (net : Network) (rs : List Rr) (least : Option ℕ)
    → (collect_ips net rs least).1 ≡ lowest least (addresses rs)
unfolding collect_ips addresses address_of
lowest_lem net [] least = refl
lowest_lem net (a none ttl ∷ rs) least = lowest_lem net rs least
lowest_lem net (aaaa none ttl ∷ rs) least = lowest_lem net rs least
lowest_lem net (a (some ip) ttl ∷ rs) least = lowest_lem net rs (lower_ttl least ttl)
lowest_lem net (aaaa (some ip) ttl ∷ rs) least = lowest_lem net rs (lower_ttl least ttl)
lowest_lem net (null ∷ rs) least = lowest_lem net rs least
lowest_lem net (other ∷ rs) least = lowest_lem net rs least
lowest_lem net (txt ss ∷ rs) least = lowest_lem net rs least

-- The least TTL of some records, once `m` was the least so far.
abbrev IsLeastFrom : ℕ → List (Bytes × ℕ) → ℕ → Type 0
IsLeastFrom m xs k = (k ≤ m) × All (λ x. k ≤ x.1) xs × ((m ≡ k) ⊎ Any (λ x. x.1 ≡ k) xs)

least_step :
    (m ttl : ℕ) (ip : Bytes) (xs : List (Bytes × ℕ)) (k : ℕ)
    → IsLeastFrom (if ltb ttl m then ttl else m) xs k
    → IsLeastFrom m ((ip, ttl) ∷ xs) k
least_step m ttl ip xs k (below, all_below, from) = elim (Bool-cases (ltb ttl m)) [
  | inl less ↦ (
    ground (arith, below, less),
    (ground (arith, below, less), all_below),
    elim from [ inl here ↦ inr (inl (ground (arith, here, less))) | inr there ↦ inr (inr there) ],
  )
  | inr more ↦ (
    ground (arith, below, more),
    (ground (arith, below, more), all_below),
    elim from [ inl here ↦ inl (ground (arith, here, more)) | inr there ↦ inr (inr there) ],
  )
]

if_some : (t : Bool) (x y : ℕ) → (if t then some x else some y) ≡ some (if t then x else y)
if_some true x y = refl
if_some false x y = refl

least_lem :
    (m : ℕ) (xs : List (Bytes × ℕ)) → (k : ℕ) × (lowest (some m) xs ≡ some k) × IsLeastFrom m xs k
unfolding lower_ttl
least_lem m [] = (m, refl, (omega arith, tt, inl refl))
least_lem m ((ip, ttl) ∷ xs) =
    let (k, e, l) = least_lem (if ltb ttl m then ttl else m) xs in
    (k, ap (λ o. lowest o xs) (if_some (ltb ttl m) ttl m) ∙ e, least_step m ttl ip xs k l)

-- When an answer has A or AAAA records with an address, `extractAnswerIPs` returns the texts of all of them in their order,
-- and the TTL that it returns is the TTL of one of them and at most the TTL of each.
pub extract_answer_ips_lem :
    (net : Network) (resp : Response) (x : Bytes × ℕ) (xs : List (Bytes × ℕ))
    → addresses resp.answer ≡ x ∷ xs
    → ((extract_answer_ips net resp).0 ≡ map (λ y. net.ip_string y.0) (x ∷ xs))
      × All (λ y. (extract_answer_ips net resp).1 ≤ y.1) (x ∷ xs)
      × Any (λ y. y.1 ≡ (extract_answer_ips net resp).1) (x ∷ xs)
unfolding extract_answer_ips lower_ttl
extract_answer_ips_lem net resp x xs h =
    let (k, e, (below, least, from)) = least_lem x.1 xs in
    let ttl : (extract_answer_ips net resp).1 ≡ k =
      ap or_zero (lowest_lem net resp.answer none ∙ ap (lowest none) h ∙ e) in
    let texts : (extract_answer_ips net resp).0 ≡ map (λ y. net.ip_string y.0) (x ∷ xs) =
      ips_lem net resp.answer none ∙ ap (map (λ y. net.ip_string y.0)) h in
    (
      texts,
      subst (λ n. All (λ y. n ≤ y.1) (x ∷ xs)) (sym ttl) (below, least),
      subst (λ n. Any (λ y. y.1 ≡ n) (x ∷ xs)) (sym ttl) from,
    )
