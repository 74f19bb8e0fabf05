-- ===== src/Dns/Forward.antt =====
-- What the proxy takes from an upstream.
use g0efilter.Prelude.{
  ℕ, ◌+◌, ◌*◌, ◌<◌, ◌≤◌, length, ◌≡◌, refl, ◌⊎◌, inl, inr, true, false, none, some, List, [], ◌∷◌,
  arith, Bool-cases, Option-cases, Any,
}
use g0efilter.Text.{Bytes}
use g0efilter.Dns.{
  exchange_context, Protocol, Question, Response, udp, tcp, Network, ask_tcp, ask_upstream, forward,
}

-- An answer that came whole: not truncated on UDP, or whatever TCP gave for a truncated one.
abbrev pub IsWhole : Network → List Question → Bytes → Response → Type 0
IsWhole net request up r =
    ((n : ℕ) × (net.exchange n udp up request ≡ some r) × (r.truncated ≡ false))
    ⊎ ((n : ℕ) × (m : ℕ) × (cut : Response) × (net.exchange n udp up request ≡ some cut)
        × (cut.truncated ≡ true)
        × (m ≡ n + 1)
        × (net.exchange m tcp up request ≡ some r))

exchanged :
    (net : Network) (n : ℕ) (p : Protocol) (up : Bytes) (request : List Question) {r : Response}
    → exchange_context net n p up request ≡ some r
    → net.exchange n p up request ≡ some r
unfolding exchange_context
exchanged net n p up request h = elim (Bool-cases (net.expired n)) [
  | inl e ↦ absurd (ground (arith, h, e))
  | inr e ↦ ground (arith, h, e)
]

ask_tcp_sound :
    (net : Network) (request : List Question) (up : Bytes) (n : ℕ) (first r : Response)
    → exchange_context net n udp up request ≡ some first
    → (ask_tcp net request up (n + 1) first).0 ≡ some r
    → IsWhole net request up r
unfolding ask_tcp
ask_tcp_sound net request up n first r e h = elim (Bool-cases first.truncated) [
  | inl cut ↦ inr (
    n,
    n + 1,
    first,
    exchanged net n udp up request e,
    cut,
    refl,
    exchanged net (n + 1) tcp up request (ground (arith, h, cut)),
  )
  | inr whole ↦
      let same : first ≡ r = ground (arith, h, whole) in
      inl (n, rw (← same) (exchanged net n udp up request e), rw (← same) whole)
]

ask_upstream_sound :
    (net : Network) (request : List Question) (up : Bytes) (n : ℕ) (r : Response)
    → (ask_upstream net request up n).0 ≡ some r
    → IsWhole net request up r
unfolding ask_upstream
ask_upstream_sound net request up n r h =
    elim (Option-cases (exchange_context net n udp up request)) [
      | inl lost ↦ elim (Option-cases (exchange_context net (n + 1) udp up request)) [
        | inl again ↦ absurd (ground (arith, h, lost, again))
        | inr (first, e) ↦
            ask_tcp_sound net request up (n + 1) first r e (ground (arith, h, lost, e))
      ]
      | inr (first, e) ↦ ask_tcp_sound net request up n first r e (ground (arith, h, e))
    ]

-- An answer that is forwarded came from one of the upstreams: over UDP and not truncated, or over
-- TCP in the exchange after a truncated one over UDP with the same upstream.
pub forward_sound :
    (net : Network) (request : List Question) (ups : List Bytes) (n : ℕ) (r : Response)
    → forward net request ups n ≡ some r
    → Any (λ up. IsWhole net request up r) ups
unfolding forward
forward_sound net request [] n r h = absurd (ground arith)
forward_sound net request (up ∷ ups) n r h = elim (Option-cases (ask_upstream net request up n).0) [
  | inl next ↦
      inr (
        forward_sound net request ups (ask_upstream net request up n).1 r (ground (arith, h, next)))
  | inr (first, e) ↦
      let same : first ≡ r = ground (arith, h, e) in
      inl (ask_upstream_sound net request up n r (rw (← same) e))
]

-- An upstream that answers every exchange.
abbrev pub Answers : Network → List Question → Bytes → Type 0
Answers net request up =
    (n : ℕ) (p : Protocol) → (r : Response) × (net.exchange n p up request ≡ some r)

-- The deadline has not passed when this number of exchanges was made.
abbrev pub IsOpen : Network → ℕ → Type 0
IsOpen net m = (n : ℕ) → n < m → net.expired n ≡ false

answered :
    (net : Network) (request : List Question) (up : Bytes) (n : ℕ) (p : Protocol)
    → net.expired n ≡ false
    → Answers net request up
    → (r : Response) × (exchange_context net n p up request ≡ some r)
unfolding exchange_context
answered net request up n p o answers = let (r, e) = answers n p in (r, ground (arith, e, o))

ask_upstream-Answers :
    (net : Network) (request : List Question) (up : Bytes) (n : ℕ)
    → IsOpen net (n + 3)
    → Answers net request up
    → (r : Response) × ((ask_upstream net request up n).0 ≡ some r)
unfolding ask_upstream ask_tcp
ask_upstream-Answers net request up n o answers =
    let (first, e) = answered net request up n udp (o n (omega arith)) answers in
    let (second, f) = answered net request up (n + 1) tcp (o (n + 1) (omega arith)) answers in
    elim (Bool-cases first.truncated) [
      | inl cut ↦ (second, ground (arith, e, f, cut))
      | inr whole ↦ (first, ground (arith, e, whole))
    ]

ask_upstream-count :
    (net : Network) (request : List Question) (up : Bytes) (n : ℕ)
    → (ask_upstream net request up n).1 ≤ n + 3
unfolding ask_upstream ask_tcp
ask_upstream-count net request up n = ground arith

-- When some upstream of the list answers every exchange, and the deadline has not passed after three
-- exchanges for each upstream, `forward` returns an answer, whatever the upstreams before that one do.
pub forward_complete :
    (net : Network) (request : List Question) (ups : List Bytes) (n : ℕ)
    → Any (Answers net request) ups
    → IsOpen net (n + 3 * length ups)
    → (r : Response) × (forward net request ups n ≡ some r)
unfolding forward
forward_complete net request [] n h o = absurd h
forward_complete net request (up ∷ ups) n h o =
    let asked = ask_upstream net request up n in
    let count = ask_upstream-count net request up n in
    let later : asked.0 ≡ none
        → Answers net request up ⊎ Any (Answers net request) ups
        → Any (Answers net request) ups =
      λ lost. λ k. elim k [
        | inl answers ↦
            let (r, e) =
              ask_upstream-Answers net request up n (λ m l. o m (omega (arith, l))) answers in
            absurd (ground (arith, lost, e))
        | inr rest ↦ rest
      ] in
    elim (Option-cases asked.0) [
      | inr (first, e) ↦ (first, ground (arith, e))
      | inl next ↦
          let (r, e) =
            forward_complete net request ups asked.1 (later next h)
              (λ m l. o m (omega (arith, l, count))) in
          (r, ground (arith, next, e))
    ]
