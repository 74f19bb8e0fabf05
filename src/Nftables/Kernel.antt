-- ===== src/Nftables/Kernel.antt =====
-- What the kernel does with a ruleset, as the nftables manual documents it: the rules of a chain
-- are tried in order; a rule whose every test holds runs its statement; `log` goes on to the next
-- rule and a verdict ends the chain; `return` in a base chain, and the end of the chain, are its
-- policy. The nat hook of priority -100 comes before the filter hook, for the first packet of a
-- connection only, and `redirect` sends the packet to the loopback address and the port named.
use g0efilter.Prelude.{
  ℕ, Bool, true, false, not, ◌&&◌, Option, none, some, List, [], ◌∷◌, ◌==◌, if◌then◌else◌, all,
}
use g0efilter.Text.{Bytes, codes, equal, is_empty}
use g0efilter.Nftables.{
  Family, v4, v6, Transport, tcp, udp, SetName, allow_daddr, deny_daddr, resolved_allow, SetBlock,
  interval, timeout, Match, oif_lo, ct_established, marked, daddr_loopback, echo_request,
  neighbour_discovery, dport, daddr_in, Prefix, Verdict, accept, drop, return, redirect, Statement,
  log, verdict, Rule, rule, Chain, filter_output, nat_output, Table,
}

-- What the kernel finds in sets: an address in the elements of an interval set, written as text, and
-- in the timeout set of a family as it stands.
pub record Sets : Type 0 where
  pub in_elements : Bytes → Bytes → Bool
  pub in_resolved : Family → Bytes → Bool

pub data Payload : Type 0 where
  segment : Transport → ℕ → Payload
  echo neighbour other : Payload

-- A packet on its way out. The destination is the usual text of the address.
pub record Packet : Type 0 where
  pub family : Family
  pub to_lo : Bool
  pub established : Bool
  pub has_mark : Bool
  pub daddr : Bytes
  pub payload : Payload

abbrev pub loopback : Family → Bytes
loopback v4 = codes "127.0.0.1"
loopback v6 = codes "::1"

abbrev pub is_transport : Transport → Transport → Bool
is_transport tcp tcp = true
is_transport udp udp = true
is_transport _ _ = false

abbrev pub is_family : Family → Family → Bool
is_family v4 v4 = true
is_family v6 v6 = true
is_family _ _ = false

abbrev pub is_set : SetName → SetName → Bool
is_set allow_daddr allow_daddr = true
is_set deny_daddr deny_daddr = true
is_set resolved_allow resolved_allow = true
is_set _ _ = false

-- A segment of the transport to the port.
abbrev pub is_segment : Transport → ℕ → Payload → Bool
is_segment t port (segment u q) = is_transport t u && q == port
is_segment t port _ = false

abbrev pub is_echo : Payload → Bool
is_echo echo = true
is_echo _ = false

abbrev pub is_neighbour : Payload → Bool
is_neighbour neighbour = true
is_neighbour _ = false

-- An address is in a set: a set without an `elements` line is empty.
abbrev pub in_interval : Sets → Bytes → Bytes → Bool
in_interval k elements daddr = not (is_empty elements) && k.in_elements elements daddr

abbrev pub in_set : Sets → Family → Bytes → SetName → List SetBlock → Bool
in_set k family daddr name [] = false
in_set k family daddr name (interval other_name elements ∷ blocks) =
    let rest = in_set k family daddr name blocks in
    if is_set name other_name then in_interval k elements daddr else rest
in_set k family daddr name (timeout other_name ∷ blocks) =
    let rest = in_set k family daddr name blocks in
    if is_set name other_name then k.in_resolved family daddr else rest

abbrev pub holds : Sets → List SetBlock → Packet → Match → Bool
holds k sets p oif_lo = p.to_lo
holds k sets p ct_established = p.established
holds k sets p marked = p.has_mark
holds k sets p daddr_loopback = equal p.daddr (loopback p.family)
holds k sets p echo_request = is_echo p.payload
holds k sets p neighbour_discovery = is_neighbour p.payload
holds k sets p (dport t port) = is_segment t port p.payload
holds k sets p (daddr_in name) = in_set k p.family p.daddr name sets

-- The log lines of a chain, and the verdict that ended it.
abbrev pub run_statement : Statement → List Prefix × Option Verdict → List Prefix × Option Verdict
run_statement (log p) rest = (p ∷ rest.0, rest.1)
run_statement (verdict v) rest = ([], some v)

unfoldable pub walk : (Match → Bool) → List Rule → List Prefix × Option Verdict
walk test [] = ([], none)
walk test (rule ms s ∷ rules) =
    let rest = walk test rules in if all test ms then run_statement s rest else rest

-- Where a packet is when a chain has ended.
pub data Fate : Type 0 where
  passed dropped : Fate
  sent_to : ℕ → Fate

abbrev pub fate_of : Bool → Option Verdict → Fate
fate_of policy none = if policy then passed else dropped
fate_of policy (some accept) = passed
fate_of policy (some drop) = dropped
fate_of policy (some return) = if policy then passed else dropped
fate_of policy (some (redirect port)) = sent_to port

unfoldable pub run_table : Sets → Table → Packet → List Prefix × Fate
unfolding walk
run_table k t p = elim t.chain [
  | filter_output policy rules ↦
      let out = walk (holds k t.sets p) rules in (out.0, fate_of policy out.1)
  | nat_output rules ↦ let out = walk (holds k t.sets p) rules in (out.0, fate_of true out.1)
]

pub data Hook : Type 0 where
  filter_hook nat_hook : Hook

abbrev pub is_on : Hook → Chain → Bool
is_on filter_hook (filter_output policy rules) = true
is_on nat_hook (nat_output rules) = true
is_on _ _ = false

-- The chain of the packet's family on a hook: the rulesets have one each. A packet passes where there
-- is none.
unfoldable pub run_hook : Sets → Hook → List Table → Packet → List Prefix × Fate
unfolding run_table
run_hook k hook [] p = ([], passed)
run_hook k hook (t ∷ ts) p =
    let rest = run_hook k hook ts p in
    if is_family t.family p.family && is_on hook t.chain then run_table k t p else rest

-- The packet after `redirect`.
abbrev pub redirected_packet : Packet → ℕ → Packet
redirected_packet p port = record p {
  daddr = loopback p.family;
  payload = elim p.payload [
    | segment t q ↦ segment t port
    | echo ↦ echo
    | neighbour ↦ neighbour
    | other ↦ other
  ];
}

-- Where a packet ends: dropped, sent as it is, or at a local port.
unfoldable pub send : Sets → List Table → Packet → Fate
unfolding run_hook
send k tables p =
    let translated = if p.established then passed else (run_hook k nat_hook tables p).1 in
    elim translated [
      | passed ↦ (run_hook k filter_hook tables p).1
      | dropped ↦ dropped
      | sent_to port ↦ elim (run_hook k filter_hook tables (redirected_packet p port)).1 [
        | passed ↦ sent_to port
        | dropped ↦ dropped
        | sent_to q ↦ sent_to q
      ]
    ]
