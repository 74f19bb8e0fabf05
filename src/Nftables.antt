-- ===== src/Nftables.antt =====
-- internal/nftables: the syntax of the rulesets that the templates of nftables.go spell out. A line
-- of a template is a value of these types in place of its text; comments and priorities are left
-- out. `ip` and `ip6`, `icmp` and `icmpv6`, `127.0.0.1` and `::1`, and the suffixes `_v4` and `_v6`
-- go with the family of the table that a line stands in.
pub mod Filter
pub mod Nat
pub mod Generate
pub mod Kernel
pub mod Policy
pub mod Walks
pub mod Enforced
pub mod Translated
pub mod Audited
pub mod Egress
pub mod Script
pub mod Apply
pub mod Ports
pub mod Reload
pub mod Applied
pub mod Resolved
pub mod Refreshed
use g0efilter.Prelude.{ℕ, Bool, List}
use g0efilter.Text.{Bytes}

pub data Family : Type 0 where
  v4 v6 : Family

pub data Transport : Type 0 where
  tcp udp : Transport

-- `allow_daddr`, `deny_daddr` and `resolved_allow`
pub data SetName : Type 0 where
  allow_daddr deny_daddr resolved_allow : SetName

-- A named set: `flags interval` with the text of its elements, or `flags timeout`.
pub data SetBlock : Type 0 where
  interval : SetName → Bytes → SetBlock
  timeout : SetName → SetBlock

-- What a rule asks of a packet: `oifname "lo"`, `ct state established,related`, `meta mark 0x1`,
-- `daddr` loopback, `tcp dport` or `udp dport`, `daddr @set`, `type echo-request`, and the four types
-- of neighbour discovery.
pub data Match : Type 0 where
  oif_lo ct_established marked daddr_loopback echo_request neighbour_discovery : Match
  dport : Transport → ℕ → Match
  daddr_in : SetName → Match

pub data Prefix : Type 0 where
  allowed blocked audit redirected dns_redirected : Prefix

pub data Verdict : Type 0 where
  accept drop return : Verdict
  redirect : ℕ → Verdict

-- `log prefix "..." group 0`, or a verdict.
pub data Statement : Type 0 where
  log : Prefix → Statement
  verdict : Verdict → Statement

pub data Rule : Type 0 where
  rule : List Match → Statement → Rule

-- The chain of a table: on the filter hook with its policy, `true` for accept, or on the nat hook.
pub data Chain : Type 0 where
  filter_output : Bool → List Rule → Chain
  nat_output : List Rule → Chain

pub record Table : Type 0 where
  pub family : Family
  pub sets : List SetBlock
  pub chain : Chain
