-- ===== src/Store.antt =====
-- internal/dashboard/store.go: the dashboard's circular log store (`memStore`), with the entry
-- type of internal/dashboard/server.go. Ids are unbounded. A method returns the new state beside
-- its result; the lock makes each of them one step.
pub mod View
pub mod Query
use g0efilter.Prelude.{
  ℕ, zero, suc, ◌+◌, ◌-◌, ◌%◌, Bool, true, false, not, ◌&&◌, ◌||◌, List, [], ◌∷◌, ◌++◌, ltb, leb,
  ◌==◌, if◌then◌else◌, length, set, get_or, replicate,
}
use g0efilter.Prelude.Int.{ℤ, pos, negsuc}
use g0efilter.Text.{Bytes, is_empty, contains, to_lower, trim_space}

-- `LogEntry`
pub record LogEntry : Type 0 where
  pub id : ℕ
  pub time : ℕ
  pub message : Bytes
  pub fields : Bytes
  pub remote_ip : Bytes
  pub action : Bytes
  pub source_ip : Bytes
  pub source_port : ℤ
  pub destination_ip : Bytes
  pub destination_port : ℤ
  pub protocol : Bytes
  pub policy_hit : Bytes
  pub payload_len : ℤ
  pub https : Bytes
  pub http_host : Bytes
  pub tenant_id : Bytes
  pub flow_id : Bytes
  pub hostname : Bytes
  pub src : Bytes
  pub dst : Bytes
  pub version : Bytes

-- The zero value of the struct.
abbrev pub blank : LogEntry
blank = record {
  id = 0;
  time = 0;
  message = [];
  fields = [];
  remote_ip = [];
  action = [];
  source_ip = [];
  source_port = pos 0;
  destination_ip = [];
  destination_port = pos 0;
  protocol = [];
  policy_hit = [];
  payload_len = pos 0;
  https = [];
  http_host = [];
  tenant_id = [];
  flow_id = [];
  hostname = [];
  src = [];
  dst = [];
  version = [];
}

pub record MemStore : Type 0 where
  pub buf : List LogEntry
  pub head : ℕ
  pub size : ℕ
  pub count : ℕ
  pub next_id : ℕ

-- `newMemStore`: a capacity below 1 is 1.
abbrev pub capacity : ℤ → ℕ
capacity (pos n) = if ltb n 1 then 1 else n
capacity (negsuc n) = 1

unfoldable pub new_mem_store : ℤ → MemStore
new_mem_store n = record {
  buf = replicate (capacity n) blank;
  head = 0;
  size = capacity n;
  count = 0;
  next_id = 1;
}

-- `Insert`: the id that the store gives is also written to the caller's entry, which is the second
-- result.
unfoldable pub insert : MemStore → LogEntry → MemStore × LogEntry × ℕ
insert s e =
    let id = s.next_id in
    let e' = record e { id = id } in
    (
      record s {
        buf = set s.buf s.head e';
        head = (s.head + 1) % s.size;
        count = (if ltb s.count s.size then s.count + 1 else s.count);
        next_id = id + 1;
      },
      e',
      id,
    )

-- `Clear`
unfoldable pub clear : MemStore → MemStore
clear s = record s { head = 0; count = 0; next_id = 1 }

-- The first test of `Query`.
abbrev pub max_limit : ℕ
max_limit = 5000

abbrev pub limit_of : ℤ → ℕ
limit_of (pos n) = if leb n 0 || ltb max_limit n then max_limit else n
limit_of (negsuc n) = max_limit

-- `sinceID > 0 && entry.ID <= sinceID`
abbrev pub is_seen : ℤ → ℕ → Bool
is_seen (pos since) id = ltb 0 since && leb id since
is_seen (negsuc n) id = false

-- `shouldSkipEntry`, with `strings.Join` of the two texts by a space written out.
unfoldable pub should_skip_entry : LogEntry → Bytes → ℤ → Bool
should_skip_entry entry q since_id =
    if is_seen since_id entry.id
    then true
    else if not (is_empty q)
    then not (contains q (to_lower (entry.message ++ (b' ' ∷ entry.fields))))
    else false

-- `prevIndex`
unfoldable pub prev_index : MemStore → ℕ → ℕ
prev_index s idx = if idx == 0 then s.size - 1 else idx - 1

-- The loop of `Query`: the first number is `s.count - seen`, the rounds that are left.
unfoldable pub scan : MemStore → (LogEntry → Bool) → ℕ → ℕ → ℕ → List LogEntry → List LogEntry
scan s skip limit zero idx out = out
scan s skip limit (suc left) idx out =
    let it = get_or s.buf idx blank in
    let rest =
      scan s skip limit left (prev_index s idx) (if skip it then out else out ++ (it ∷ [])) in
    if ltb (length out) limit then rest else out

-- `Query`. The test `s.count == 0` returns what the loop returns in no round.
unfoldable pub query : MemStore → Bytes → ℤ → ℤ → List LogEntry
unfolding scan prev_index
query s q since_id limit =
    let q' = to_lower (trim_space q) in
    let start = (s.head + s.size - 1) % s.size in
    if s.count == 0
    then []
    else scan s (λ it. should_skip_entry it q' since_id) (limit_of limit) s.count start []
