-- ===== src/DnsLimiter.antt =====
-- internal/filter/dns_hardening.go: the per-source token buckets of the DNS proxy. Times are
-- nanoseconds of the monotonic clock, so a difference is never negative. Token counts, floats in
-- the source, are whole numbers of 10^-9 tokens: `seconds * qps` is then exact, and the rounding
-- of floats is not modelled. A method returns the new state beside its result.
pub mod Evict
pub mod Bounds
pub mod Rate
use g0efilter.Prelude.{
  ℕ, ◌+◌, ◌-◌, ◌*◌, Bool, true, false, not, ◌||◌, Option, none, some, List, [], ◌∷◌, ltb, leb,
  if◌then◌else◌, length,
}
use g0efilter.Assoc.{lookup, insert, remove, delete_where}
use g0efilter.Prelude.Int.{ℤ, pos, negsuc}
use g0efilter.Text.{Bytes, is_empty}

-- One token.
abbrev pub token : ℕ
token = 1_000_000_000

abbrev pub dns_rate_limit_qps : ℕ
dns_rate_limit_qps = 50

abbrev pub dns_rate_limit_burst : ℕ
dns_rate_limit_burst = 100

abbrev pub rate_limiter_max_sources : ℕ
rate_limiter_max_sources = 4096

-- A minute.
abbrev pub rate_limiter_idle_evict : ℕ
rate_limiter_idle_evict = 60_000_000_000

pub record TokenBucket : Type 0 where
  pub tokens : ℕ
  pub last : ℕ

abbrev pub Buckets : Type 0
Buckets = List (Bytes × TokenBucket)

pub record DnsRateLimiter : Type 0 where
  pub buckets : Buckets
  pub qps : ℕ
  pub burst : ℕ

-- A configured value, or the default if it is not above 0.
abbrev pub configured : ℤ → ℕ → ℕ
configured (pos n) default = if ltb 0 n then n else default
configured (negsuc n) default = default

unfoldable pub new_dns_rate_limiter : ℤ → ℤ → DnsRateLimiter
new_dns_rate_limiter qps burst = record {
  buckets = [];
  qps = configured qps dns_rate_limit_qps;
  burst = configured burst dns_rate_limit_burst;
}

-- `pruneLocked`
unfoldable pub prune : ℕ → Buckets → Buckets
prune now = delete_where (λ b. ltb rate_limiter_idle_evict (now - b.last))

-- The loop of `evictOldestLocked`, with `oldestSrc` and `oldestAt`.
unfoldable pub oldest : Bytes → ℕ → Buckets → Bytes
oldest oldest_src oldest_at [] = oldest_src
oldest oldest_src oldest_at ((src, b) ∷ m) =
    let older = is_empty oldest_src || ltb b.last oldest_at in
    oldest (if older then src else oldest_src) (if older then b.last else oldest_at) m

-- `evictOldestLocked`
unfoldable pub evict_oldest : Buckets → Buckets
evict_oldest m = let src = oldest [] 0 m in if not (is_empty src) then remove src m else m

-- The second guard on the size of the map.
unfoldable pub evict_if_full : Buckets → Buckets
evict_if_full m = if leb rate_limiter_max_sources (length m) then evict_oldest m else m

-- The two guards on the size of the map, in front of a new source.
unfoldable pub make_room : ℕ → Buckets → Buckets
make_room now m = evict_if_full (if leb rate_limiter_max_sources (length m) then prune now m else m)

-- The refill of one bucket.
unfoldable pub refill : ℕ → ℕ → ℕ → TokenBucket → TokenBucket
refill qps burst now b =
    let sum = b.tokens + (now - b.last) * qps in
    record { tokens = (if ltb (burst * token) sum then burst * token else sum); last = now }

-- The refill and the spending of one token.
unfoldable pub take_token : ℕ → ℕ → ℕ → TokenBucket → TokenBucket × Bool
unfolding refill
take_token qps burst now b =
    let b' = refill qps burst now b in
    if ltb b'.tokens token then (b', false) else (record b' { tokens = b'.tokens - token }, true)

-- The bucket of the source, a full one if it has none, and the map that it stands in or goes to.
unfoldable pub bucket_of : DnsRateLimiter → ℕ → Option TokenBucket → TokenBucket × Buckets
bucket_of l now (some b) = (b, l.buckets)
bucket_of l now none = (record { tokens = l.burst * token; last = now }, make_room now l.buckets)

-- `allow`
unfoldable pub allow : DnsRateLimiter → ℕ → Bytes → DnsRateLimiter × Bool
unfolding bucket_of
allow l now source =
    let (bucket, m) = bucket_of l now (lookup source l.buckets) in
    let (bucket', done) = take_token l.qps l.burst now bucket in
    (record l { buckets = insert source bucket' m }, done)
