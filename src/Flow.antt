-- ===== src/Flow.antt =====
-- internal/actions/flow.go: the flow id, and the flows for which a synthetic event was logged. Times are
-- nanoseconds of a clock that does not go back. FNV-1a with 64 bits is that of the standard package
-- `hash/fnv`.
pub mod Recent
use g0efilter.Prelude.{
  ℕ, zero, suc, ◌+◌, ◌-◌, ◌*◌, ◌/◌, ◌%◌, ◌^◌, ◌≤◌, ◌<◌, ◌≡◌, refl, sym, ap, ◌∙◌, ◌≢◌, ◌↔◌, ◌⊎◌, inl,
  inr, Bool, true, false, not, ◌&&◌, ◌||◌, Option, none, some, List, [], ◌∷◌, ◌++◌, map, arith, ltb,
  leb, ◌==◌, if◌then◌else◌, ltb→lt, lt→ltb, leb→le, ==_iff, tests, Bool-cases, Option-cases, length,
  get_elem?, get_or, replicate, length-append, length-set, get_elem?-set_self, get_elem?-set_ne,
  take-append-drop, length-take, length-drop, length-replicate, length-map, All, Any, Has, all,
  all_iff, All-of_all, all_of_All, All-append, All-mono, dec_lt, ℕ_discrete, filter, take_whole,
  length-take_bound,
}
use g0efilter.Text.{Bytes, codes, equal, is_empty, within}
use g0efilter.Text.Number.{itoa}
use g0efilter.Assoc.{lookup, insert, delete_where}

-- `^` on two numbers of that many bits.
unfoldable pub xor : ℕ → ℕ → ℕ → ℕ
xor zero a b = 0
xor (suc bits) a b =
    let rest = xor bits (a / 2) (b / 2) in rest * 2 + (if a % 2 == b % 2 then 0 else 1)

abbrev pub fnv_offset : ℕ
fnv_offset = 14695981039346656037

abbrev pub fnv_prime : ℕ
fnv_prime = 1099511628211

-- `fnv.New64a()` with the bytes written, from the sum so far.
unfoldable pub fnv64a : ℕ → Bytes → ℕ
unfolding xor
fnv64a sum [] = sum
fnv64a sum (c ∷ s) = fnv64a ((xor 64 sum c * fnv_prime) % 2 ^ 64) s

abbrev hex_digit : ℕ → ℕ
hex_digit d = if ltb d 10 then b'0' + d else b'a' + (d - 10)

-- `strconv.FormatUint(n, 16)`; 64 bits are 16 digits at most.
unfoldable pub hex_digits : ℕ → ℕ → Bytes
hex_digits zero n = []
hex_digits (suc fuel) n =
    let rest = hex_digits fuel (n / 16) in
    if ltb n 16 then hex_digit n ∷ [] else rest ++ (hex_digit (n % 16) ∷ [])

-- `strings.ToUpper` on ASCII.
abbrev upper : ℕ → ℕ
upper c = if within b'a' b'z' c then c - 32 else c

abbrev pub to_upper : Bytes → Bytes
to_upper = map upper

-- The bytes that `FlowID` writes to the hash.
unfoldable pub flow_text : Bytes → ℕ → Bytes → ℕ → Bytes → Bytes
flow_text source_ip source_port destination_ip destination_port proto =
    source_ip
    ++ codes ":"
    ++ itoa source_port
    ++ codes "->"
    ++ destination_ip
    ++ codes ":"
    ++ itoa destination_port
    ++ codes "|"
    ++ to_upper proto

-- `FlowID`
unfoldable pub flow_id : Bytes → ℕ → Bytes → ℕ → Bytes → Bytes
unfolding hex_digits
flow_id source_ip source_port destination_ip destination_port proto =
    hex_digits 16
      (fnv64a fnv_offset (flow_text source_ip source_port destination_ip destination_port proto))

abbrev pub suppress_window : ℕ
suppress_window = 5 * 1000000000

abbrev pub prune_interval : ℕ
prune_interval = 64

-- `recentSynthetic`
pub record RecentSynthetic : Type 0 where
  pub m : List (Bytes × ℕ)
  pub writes : ℕ

-- The sweep that every 64th write makes.
unfoldable pub sweep : ℕ → RecentSynthetic → RecentSynthetic
sweep now s =
    if leb prune_interval s.writes
    then record { m = delete_where (λ v. ltb (v + suppress_window * 4) now) s.m; writes = 0 }
    else s

-- `MarkSynthetic`, at a time.
unfoldable pub mark_synthetic : ℕ → Bytes → RecentSynthetic → RecentSynthetic
mark_synthetic now flow s =
    if is_empty flow
    then s
    else sweep now (record { m = insert flow now s.m; writes = s.writes + 1 })

abbrev within_window : ℕ → Option ℕ → Bool
within_window now none = false
within_window now (some last_time) = leb (now - last_time) suppress_window

-- `IsSyntheticRecent`, at a time.
unfoldable pub is_synthetic_recent : ℕ → Bytes → RecentSynthetic → Bool
is_synthetic_recent now flow s =
    if is_empty flow then false else within_window now (lookup flow s.m)
