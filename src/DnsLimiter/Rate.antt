-- ===== src/DnsLimiter/Rate.antt =====
-- internal/filter/dns_hardening.go: how many queries of one source pass. A source whose bucket is evicted
-- to make room starts again with a full burst, so the bound is for a limiter that has room.
use g0efilter.Prelude.{
  ℕ, ◌+◌, ◌-◌, ◌*◌, ◌≤◌, ◌&&◌, Option, none, some, List, [], ◌∷◌, if◌then◌else◌,
}
use g0efilter.DnsLimiter.{token, TokenBucket, DnsRateLimiter, allow}
use g0efilter.Text.{Bytes, equal}

-- How many of the calls with source `s` return true.
unfoldable pub passed : Bytes → DnsRateLimiter → List (ℕ × Bytes) → ℕ
passed s l [] = 0
passed s l ((now, source) ∷ es) =
    let (l', done) = allow l now source in
    (if equal source s && done then 1 else 0) + passed s l' es

-- The tokens, in units of 10^-9, that a source can spend from time `t0` up to time `t`.
abbrev credit : DnsRateLimiter → ℕ → ℕ → Option TokenBucket → ℕ
credit l t0 t (some b) = b.tokens + (t - b.last) * l.qps
credit l t0 t none = l.burst * token + (t - t0) * l.qps

-- The bucket, if there is one, was last used at `t0` or before.
abbrev IsPast : ℕ → Option TokenBucket → Type 0
IsPast t0 (some b) = b.last ≤ t0
IsPast t0 none = Unit
