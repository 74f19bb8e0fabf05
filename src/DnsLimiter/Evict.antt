-- ===== src/DnsLimiter/Evict.antt =====
-- The entry that makes room is the one that was idle longest.
use g0efilter.Prelude.{
  ℕ, ◌+◌, ◌≤◌, ◌≡◌, refl, ◌≢◌, ◌⊎◌, inl, inr, Bool, false, none, some, [], ◌∷◌, arith, ltb, leb,
  Bool-cases, length, All, All-mono,
}
use mathlib.Core.Path.{subst}
use g0efilter.Assoc.{lookup, remove, delete_where, Fresh, IsMap}
use g0efilter.Assoc.Distinct.{
  lookup_of_Fresh, IsMap-remove, IsMap-delete_where, keys-remove, keys-delete_where,
}
use g0efilter.Assoc.Laws.{length-remove_lt, length-delete_where_le}
use g0efilter.DnsLimiter.{
  rate_limiter_max_sources, TokenBucket, Buckets, prune, oldest, evict_oldest, make_room,
  evict_if_full,
}
use g0efilter.Text.{Bytes, is_empty, equal}
use g0efilter.Text.Laws.{equal_iff, equal_refl}

-- No source is the empty text.
abbrev pub Named : Buckets → Type 0
Named m = All (λ (e : Bytes × TokenBucket). is_empty e.0 ≡ false) m

abbrev NotBefore : ℕ → Buckets → Type 0
NotBefore at m = All (λ (e : Bytes × TokenBucket). at ≤ e.1.last) m

NotBefore-mono : (a b : ℕ) (m : Buckets) → a ≤ b → NotBefore b m → NotBefore a m
NotBefore-mono a b m h = All-mono _ _ (λ e k. omega arith) m

-- The source has the oldest of all the buckets.
pub record IsOldest (src : Bytes) (m : Buckets) : Type 0 where
  pub bucket : TokenBucket
  pub found : lookup src m ≡ some bucket
  pub oldest_of_all : NotBefore bucket.last m

-- What the loop returns, from a source and a time that it holds already.
abbrev LoopResult : Bytes → ℕ → Bytes → Buckets → Type 0
LoopResult src at r m =
    ((r ≡ src) × NotBefore at m)
    ⊎ ((b : TokenBucket) × (lookup r m ≡ some b) × (b.last ≤ at) × NotBefore b.last m)

lookup_behind :
    (s r : Bytes) (b c : TokenBucket) (m : Buckets)
    → Fresh s m
    → lookup r m ≡ some c
    → lookup r ((s, b) ∷ m) ≡ some c
lookup_behind s r b c m f h = elim (Bool-cases (equal s r)) [
  | inl same ↦
      let e : s ≡ r = (equal_iff s r).0 same in
      let miss : lookup r m ≡ none = subst (λ k. lookup k m ≡ none) e (lookup_of_Fresh s m f) in
      absurd (ground arith)
  | inr other ↦ unfold lookup in ground arith
]

lookup_here : (s : Bytes) (b : TokenBucket) (m : Buckets) → lookup s ((s, b) ∷ m) ≡ some b
unfolding lookup
lookup_here s b m = rw (equal_refl s)

module _ (s r : Bytes) (b : TokenBucket) (m : Buckets) (f : Fresh s m) where
  -- The loop goes on from the entry in front of `m`.
  IsOldest-taken : LoopResult s b.last r m → IsOldest r ((s, b) ∷ m)
  IsOldest-taken (inl (e, a)) = record {
    bucket = b;
    found = rw e (lookup_here s b m);
    oldest_of_all = (omega arith, a);
  }
  IsOldest-taken (inr (c, found, le, a)) = record {
    bucket = c;
    found = lookup_behind s r b c m f found;
    oldest_of_all = (le, a);
  }

  LoopResult-taken :
      (src : Bytes) (at : ℕ)
      → b.last ≤ at
      → LoopResult s b.last r m
      → LoopResult src at r ((s, b) ∷ m)
  LoopResult-taken src at h (inl (e, a)) = inr (b, rw e (lookup_here s b m), h, (omega arith, a))
  LoopResult-taken src at h (inr (c, found, le, a)) =
      inr (c, lookup_behind s r b c m f found, omega arith, (le, a))

  LoopResult-kept :
      (src : Bytes) (at : ℕ)
      → at ≤ b.last
      → LoopResult src at r m
      → LoopResult src at r ((s, b) ∷ m)
  LoopResult-kept src at h (inl (e, a)) = inl (e, (h, a))
  LoopResult-kept src at h (inr (c, found, le, a)) =
      inr (c, lookup_behind s r b c m f found, le, (omega arith, a))

oldest-LoopResult :
    (src : Bytes) (at : ℕ) (m : Buckets)
    → IsMap m
    → Named m
    → is_empty src ≡ false
    → LoopResult src at (oldest src at m) m × (is_empty (oldest src at m) ≡ false)
unfolding oldest
oldest-LoopResult src at [] d n h = (inl (refl, tt), h)
oldest-LoopResult src at ((s, b) ∷ m) d n h = elim (Bool-cases (ltb b.last at)) [
  | inl older ↦
      rw (h, older)
        (let (k, named) = oldest-LoopResult s b.last m d.1 n.1 n.0 in
          (LoopResult-taken s _ b m d.0 src at (ground arith) k, named))
  | inr newer ↦
      rw (h, newer)
        (let (k, named) = oldest-LoopResult src at m d.1 n.1 h in
          (LoopResult-kept s _ b m d.0 src at (ground arith) k, named))
]

-- `evictOldestLocked` on a nonempty map with distinct, nonempty sources: it deletes one entry, the
-- one whose last query is oldest.
pub evict_oldest-IsOldest :
    (m : Buckets)
    → IsMap m
    → Named m
    → m ≢ []
    → (src : Bytes) × (evict_oldest m ≡ remove src m) × IsOldest src m
unfolding evict_oldest oldest
evict_oldest-IsOldest [] d n h = absurd (h refl)
evict_oldest-IsOldest ((s, b) ∷ m) d n h =
    let (k, named) = oldest-LoopResult s b.last m d.1 n.1 n.0 in
    (oldest s b.last m, rw named, IsOldest-taken s (oldest s b.last m) b m d.0 k)

length-prune : (now : ℕ) (m : Buckets) → length (prune now m) ≤ length m
unfolding prune
length-prune now m = length-delete_where_le _ m

-- A property of maps that deletions keep is kept by both guards.
module _ (P : Buckets → Type 0) (on_remove : (k : Bytes) (m : Buckets) → P m → P (remove k m))
    (on_delete : (p : TokenBucket → Bool) (m : Buckets) → P m → P (delete_where p m)) where
  pub prune_keeps : (now : ℕ) (m : Buckets) → P m → P (prune now m)
  unfolding prune
  prune_keeps now m h = on_delete _ m h

  evict_keeps : (m : Buckets) → P m → P (evict_oldest m)
  unfolding evict_oldest
  evict_keeps m h = elim (Bool-cases (is_empty (oldest [] 0 m))) [
    | inl none_found ↦ rw none_found h
    | inr found ↦ rw found (on_remove (oldest [] 0 m) m h)
  ]

  pub evict_if_full_keeps : (m : Buckets) → P m → P (evict_if_full m)
  unfolding evict_if_full
  evict_if_full_keeps m h = elim (Bool-cases (leb rate_limiter_max_sources (length m))) [
    | inl full ↦ rw full (evict_keeps m h)
    | inr room ↦ rw room h
  ]

  pub make_room_keeps : (now : ℕ) (m : Buckets) → P m → P (make_room now m)
  unfolding make_room
  make_room_keeps now m h = elim (Bool-cases (leb rate_limiter_max_sources (length m))) [
    | inl full ↦ rw full (evict_if_full_keeps (prune now m) (prune_keeps now m h))
    | inr room ↦ rw room (evict_if_full_keeps m h)
  ]

length-evict_if_full :
    (m : Buckets)
    → IsMap m
    → Named m
    → length m ≤ rate_limiter_max_sources
    → length (evict_if_full m) + 1 ≤ rate_limiter_max_sources
unfolding evict_if_full
length-evict_if_full [] d n h = omega arith
length-evict_if_full (e ∷ m) d n h =
    let (src, deleted, oldest_one) = evict_oldest-IsOldest (e ∷ m) d n (λ c. cc c) in
    ground (arith, deleted, length-remove_lt src (e ∷ m) oldest_one.bucket oldest_one.found)

-- After the two guards there is room for one more source.
pub length-make_room :
    (now : ℕ) (m : Buckets)
    → IsMap m
    → Named m
    → length m ≤ rate_limiter_max_sources
    → length (make_room now m) + 1 ≤ rate_limiter_max_sources
unfolding make_room
length-make_room now m d n h = elim (Bool-cases (leb rate_limiter_max_sources (length m))) [
  | inl full ↦ rw full (
      length-evict_if_full (prune now m) (prune_keeps IsMap IsMap-remove IsMap-delete_where now m d)
        (prune_keeps Named (keys-remove _) (keys-delete_where _) now m n)
        (omega (arith, length-prune now m)))
  | inr room ↦ rw room (length-evict_if_full m d n h)
]
