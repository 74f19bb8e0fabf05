-- ===== src/Tests/Logs.antt =====
-- The log store, the rate limiter of the DNS proxy.
use g0efilter.Prelude.{ℕ, ◌≤◌, ◌≡◌, refl, not, List, [], ◌∷◌, arith, length, take, filter}
use g0efilter.Prelude.Int.{pos}
use g0efilter.Text.{Bytes, codes, to_lower, trim_space}
use g0efilter.Store.{blank, MemStore, new_mem_store, insert, query, limit_of, should_skip_entry}
use g0efilter.Store.View.{view, IsValid, insert_refines}
use g0efilter.Store.Query.{query_refines, query_sorted, add, run, Falls}
use g0efilter.DnsLimiter.{Buckets, token, new_dns_rate_limiter}
use g0efilter.DnsLimiter.Bounds.{limiter_stays_bounded, InOrder, after, last_time}
use g0efilter.DnsLimiter.Bounds as Bounds

abbrev one_entry : MemStore
unfolding insert new_mem_store
one_entry = (insert (new_mem_store (pos 2)) blank).0

one_entry-IsValid : IsValid one_entry
unfolding one_entry new_mem_store insert
one_entry-IsValid = record {
  storage = refl;
  positive = omega arith;
  head_in = omega arith;
  count_in = omega arith;
}

insert_refines_example :
    view (insert one_entry blank).0 ≡ take 2 (record blank { id = 2 } ∷ view one_entry)
unfolding one_entry new_mem_store insert
insert_refines_example = insert_refines one_entry blank one_entry-IsValid

query_refines_example :
    query one_entry (codes "x") (pos 0) (pos 5)
    ≡ take 5 (
        filter
          (λ e. not (should_skip_entry e (to_lower (trim_space (codes "x"))) (pos 0)))
          (view one_entry))
query_refines_example = query_refines one_entry (codes "x") (pos 0) (pos 5) one_entry-IsValid

query_sorted_example :
    let s = run (new_mem_store (pos 2)) (add blank ∷ add blank ∷ add blank ∷ []) in
    Falls s.next_id (query s [] (pos 0) (pos 5))
    × (length (query s [] (pos 0) (pos 5)) ≤ limit_of (pos 5))
query_sorted_example =
    query_sorted (pos 2) (add blank ∷ add blank ∷ add blank ∷ []) [] (pos 0) (pos 5)

abbrev two_buckets : Buckets
two_buckets =
    (codes "10.0.0.1", record { tokens = token; last = 7 })
    ∷ (codes "10.0.0.2", record { tokens = token; last = 3 })
    ∷ []

abbrev queries : List (ℕ × Bytes)
queries = (1, codes "10.0.0.1") ∷ (5, codes "10.0.0.2") ∷ (9, codes "10.0.0.1") ∷ []

queries-InOrder : InOrder 0 queries
queries-InOrder = (omega arith, (omega arith, (omega arith, tt)))

limiter_stays_bounded_example :
    Bounds.IsValid (last_time 0 queries) (after (new_dns_rate_limiter (pos 0) (pos 2)) queries)
limiter_stays_bounded_example =
    limiter_stays_bounded (pos 0) (pos 2) queries queries-InOrder (refl, (refl, (refl, tt)))
