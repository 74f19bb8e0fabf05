-- ===== src/Nftables/Policy.antt =====
-- The policy that a configuration stands for, in terms of the packet and the lists, with no rules.
use g0efilter.Prelude.{
  ℕ, Bool, true, false, not, ◌&&◌, ◌||◌, Option, none, some, List, if◌then◌else◌,
}
use g0efilter.Text.{Bytes, equal, to_lower}
use g0efilter.Nftables.{Family, v4, v6, tcp, udp}
use g0efilter.Nftables.Generate.{
  RulesetConfig, mode_dns, mode_dns_strict, or_placeholder, join_entries,
}
use g0efilter.Nftables.Kernel.{Sets, Packet, loopback, is_segment, is_neighbour, in_interval}

-- A mode that is neither `dns` nor `dns-strict`, in any letter case, is `https`.
abbrev pub is_dns : RulesetConfig → Bool
is_dns cfg = equal (to_lower cfg.mode) mode_dns

abbrev pub is_strict : RulesetConfig → Bool
is_strict cfg = equal (to_lower cfg.mode) mode_dns_strict

abbrev pub allow_entries : Family → RulesetConfig → List Bytes
allow_entries v4 cfg = cfg.allow_v4
allow_entries v6 cfg = cfg.allow_v6

abbrev pub deny_entries : Family → RulesetConfig → List Bytes
deny_entries v4 cfg = cfg.deny_v4
deny_entries v6 cfg = cfg.deny_v6

abbrev pub is_ipv6 : Family → Bool
is_ipv6 v4 = false
is_ipv6 v6 = true

module _ (k : Sets) (cfg : RulesetConfig) (p : Packet) where
  -- The destination is on the allowlist of its family, or is the placeholder.
  unfoldable pub is_allowed : Bool
  is_allowed =
      in_interval k (or_placeholder (loopback p.family) (allow_entries p.family cfg)) p.daddr

  unfoldable pub is_denied : Bool
  is_denied = in_interval k (join_entries (deny_entries p.family cfg)) p.daddr

  -- Loopback traffic, packets of known connections, and what the proxies themselves send.
  unfoldable pub is_exempt : Bool
  is_exempt = p.to_lo || p.established || p.has_mark

  abbrev pub at_loopback : Bool
  at_loopback = equal p.daddr (loopback p.family)

  -- To a port of the mode's proxies on the loopback address.
  unfoldable pub is_to_proxy : Bool
  is_to_proxy =
      at_loopback
      && (if is_dns cfg || is_strict cfg
          then is_segment udp cfg.dns_port p.payload || is_segment tcp cfg.dns_port p.payload
          else is_segment tcp cfg.http_port p.payload || is_segment tcp cfg.https_port p.payload)

  -- What the lists say of any other packet.
  unfoldable pub is_listed : Bool
  unfolding is_allowed is_denied
  is_listed =
      if cfg.default_allow
      then is_allowed || not is_denied
      else if is_strict cfg
      then is_allowed
        || k.in_resolved p.family p.daddr
        || (is_ipv6 p.family && is_neighbour p.payload)
      else if is_dns cfg
      then true
      else is_allowed

  unfoldable pub is_permitted : Bool
  unfolding is_exempt is_to_proxy is_listed
  is_permitted = is_exempt || is_to_proxy || is_listed

  -- In the nat chain of an https mode these are left alone.
  abbrev pub is_unproxied : Bool
  is_unproxied = p.has_mark || is_allowed || (cfg.default_allow && is_denied)

  -- To port 53, and not to the proxy or a resolver on the loopback address.
  abbrev pub is_query : Bool
  is_query = (is_segment udp 53 p.payload || is_segment tcp 53 p.payload) && not at_loopback

  -- The local port that a new connection is sent to; in the DNS modes the lists make no difference, so a
  -- query to an allowlisted address is sent to the proxy too.
  unfoldable pub proxy_port : Option ℕ
  unfolding is_allowed is_denied
  proxy_port =
      if is_dns cfg || is_strict cfg
      then (if p.has_mark || not is_query then none else some cfg.dns_port)
      else if is_unproxied
      then none
      else if is_segment tcp 80 p.payload
      then some cfg.http_port
      else if is_segment tcp 443 p.payload
      then some cfg.https_port
      else none
