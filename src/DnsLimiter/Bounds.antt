-- ===== src/DnsLimiter/Bounds.antt =====
-- The invariant of the limiter: a bounded map with distinct, named sources, and no bucket above
-- the burst or from the future.
use g0efilter.Prelude.{
  ℕ, ◌*◌, ◌≤◌, ◌≡◌, inl, inr, false, List, [], ◌∷◌, arith, Option-cases, length, All, All-mono,
}
use g0efilter.Assoc.{lookup, insert, IsMap}
use g0efilter.Assoc.Distinct.{
  IsMap-insert, IsMap-remove, IsMap-delete_where, keys-insert, keys-remove, keys-delete_where,
}
use g0efilter.Assoc.Laws.{
  length-insert_old, length-insert_le, All-insert, All-remove, All-delete_where,
}
use g0efilter.DnsLimiter.{
  token, rate_limiter_max_sources, TokenBucket, Buckets, DnsRateLimiter, make_room, take_token,
  bucket_of, allow, new_dns_rate_limiter,
}
use g0efilter.DnsLimiter.Evict.{Named, make_room_keeps, length-make_room}
use g0efilter.Prelude.Int.{ℤ}
use g0efilter.Text.{Bytes, is_empty}

-- The bucket holds at most `burst` tokens, and was last used at `now` or before.
abbrev pub Fits : ℕ → ℕ → TokenBucket → Type 0
Fits burst now b = (b.tokens ≤ burst * token) × (b.last ≤ now)

pub record IsValid (now : ℕ) (l : DnsRateLimiter) : Type 0 where
  pub distinct : IsMap l.buckets
  pub named : Named l.buckets
  pub bounded : length l.buckets ≤ rate_limiter_max_sources
  pub capped : All (λ (e : Bytes × TokenBucket). Fits l.burst now e.1) l.buckets

pub take_token-Fits :
    (qps burst now : ℕ) (b : TokenBucket) → Fits burst now (take_token qps burst now b).0
unfolding take_token
take_token-Fits qps burst now b = ground arith

Fits-mono :
    (burst t now : ℕ) (m : Buckets)
    → t ≤ now
    → All (λ e. Fits burst t e.1) m
    → All (λ e. Fits burst now e.1) m
Fits-mono burst t now m h = All-mono _ _ (λ e k. (k.0, omega arith)) m

-- The map that `allow` writes to: as valid as before, with room for the source.
bucket_of-IsValid :
    (now : ℕ) (l : DnsRateLimiter) (source : Bytes)
    → IsValid now l
    → IsValid now (record l { buckets = (bucket_of l now (lookup source l.buckets)).1 })
      × ((b : TokenBucket)
          → length (insert source b (bucket_of l now (lookup source l.buckets)).1)
            ≤ rate_limiter_max_sources)
unfolding bucket_of
bucket_of-IsValid now l source v = elim (Option-cases (lookup source l.buckets)) [
  | inl miss ↦
      rw (miss, bucket_of)
        (
          fresh,
          λ b. omega (
            arith,
            length-insert_le source b (make_room now l.buckets),
            length-make_room now l.buckets v.distinct v.named v.bounded,
          ),
        )
  | inr (b, hit) ↦
      rw (hit, bucket_of)
        (v, λ c. omega (arith, length-insert_old source c l.buckets b hit, v.bounded))
]
  where
    fresh : IsValid now (record l { buckets = make_room now l.buckets })
    fresh = record {
      distinct = make_room_keeps IsMap IsMap-remove IsMap-delete_where now l.buckets v.distinct;
      named = make_room_keeps Named (keys-remove _) (keys-delete_where _) now l.buckets v.named;
      bounded = omega (arith, length-make_room now l.buckets v.distinct v.named v.bounded);
      capped =
          make_room_keeps (All (λ e. Fits l.burst now e.1)) (All-remove (Fits l.burst now))
            (All-delete_where (Fits l.burst now)) now l.buckets v.capped;
    }

-- Every call keeps the invariant.
pub allow-IsValid :
    (t now : ℕ) (l : DnsRateLimiter) (source : Bytes)
    → t ≤ now
    → is_empty source ≡ false
    → IsValid t l
    → IsValid now (allow l now source).0
unfolding allow
allow-IsValid t now l source h named v =
    let w : IsValid now l = record {
      distinct = v.distinct;
      named = v.named;
      bounded = v.bounded;
      capped = Fits-mono l.burst t now l.buckets h v.capped;
    } in
    let (room, fits) = bucket_of-IsValid now l source w in
    let (b, m) = bucket_of l now (lookup source l.buckets) in
    let b' = (take_token l.qps l.burst now b).0 in
    record {
      distinct = IsMap-insert source b' m room.distinct;
      named = keys-insert _ source b' m named room.named;
      bounded = fits b';
      capped =
          All-insert (Fits l.burst now) source b' m (take_token-Fits l.qps l.burst now b)
            room.capped;
    }

new_dns_rate_limiter-IsValid :
    (qps burst : ℤ) (now : ℕ) → IsValid now (new_dns_rate_limiter qps burst)
unfolding new_dns_rate_limiter
new_dns_rate_limiter-IsValid qps burst now = record {
  distinct = tt;
  named = tt;
  bounded = omega arith;
  capped = tt;
}

-- The calls of `allow` in the order of their times.
abbrev pub InOrder : ℕ → List (ℕ × Bytes) → Type 0
InOrder t [] = Unit
InOrder t (e ∷ es) = (t ≤ e.0) × InOrder e.0 es

-- The state after some calls.
unfoldable pub after : DnsRateLimiter → List (ℕ × Bytes) → DnsRateLimiter
after l [] = l
after l ((now, source) ∷ es) = after (allow l now source).0 es

abbrev pub last_time : ℕ → List (ℕ × Bytes) → ℕ
last_time t [] = t
last_time t (e ∷ es) = last_time e.0 es

after-IsValid :
    (t : ℕ) (l : DnsRateLimiter) (es : List (ℕ × Bytes))
    → InOrder t es
    → All (λ e. is_empty e.1 ≡ false) es
    → IsValid t l
    → IsValid (last_time t es) (after l es)
unfolding after
after-IsValid t l [] o n v = v
after-IsValid t l ((now, source) ∷ es) o n v =
    after-IsValid now (allow l now source).0 es o.1 n.1 (allow-IsValid t now l source o.0 n.0 v)

-- From a new limiter, after any queries with named sources in the order of their times: at most
-- 4096 sources are kept, each once, and no bucket holds more than the burst.
pub limiter_stays_bounded :
    (qps burst : ℤ) (es : List (ℕ × Bytes))
    → InOrder 0 es
    → All (λ e. is_empty e.1 ≡ false) es
    → IsValid (last_time 0 es) (after (new_dns_rate_limiter qps burst) es)
limiter_stays_bounded qps burst es o n =
    after-IsValid 0 (new_dns_rate_limiter qps burst) es o n
      (new_dns_rate_limiter-IsValid qps burst 0)
