-- ===== src/Unblock.antt =====
-- internal/dashboard/unblock.go: the pending and completed unblock requests of the dashboard. The
-- lock makes each method one step; the time and the id that `generateID` draws are arguments.
pub mod Pending
pub mod Settled
use g0efilter.Prelude.{
  ℕ, ◌+◌, ◌-◌, Bool, true, false, ◌&&◌, ◌||◌, Option, none, some, List, [], ◌∷◌, ◌++◌, map, ltb,
  leb, if◌then◌else◌, length, drop, filter,
}
use g0efilter.Text.{Bytes, equal, is_empty, to_lower, trim_space}
use g0efilter.Assoc.{lookup, insert, remove}

-- `UnblockRequest`
pub record UnblockRequest : Type 0 where
  pub id : Bytes
  pub kind : Bytes
  pub value : Bytes
  pub target_hostname : Bytes
  pub created_at : ℕ

-- `CompletedUnblock`
pub record CompletedUnblock : Type 0 where
  pub kind : Bytes
  pub value : Bytes
  pub target_hostname : Bytes
  pub completed_at : ℕ

abbrev pub Requests : Type 0
Requests = List (Bytes × UnblockRequest)

-- `memUnblockStore`
pub record UnblockStore : Type 0 where
  pub requests : Requests
  pub completed : List CompletedUnblock
  pub max_pending : ℕ

abbrev pub max_completed : ℕ
max_completed = 100

-- `newUnblockStore`
unfoldable pub new_unblock_store : UnblockStore
new_unblock_store = record { requests = []; completed = []; max_pending = 1000 }

-- The test for a duplicate in `Add`.
abbrev pub is_same : Bytes → Bytes → Bytes → UnblockRequest → Bool
is_same kind value target req =
    equal req.kind kind && equal req.value value && equal req.target_hostname target

-- The loop of `Add` over the pending requests.
unfoldable pub find_duplicate : Bytes → Bytes → Bytes → Requests → Option Bytes
find_duplicate kind value target [] = none
find_duplicate kind value target (e ∷ m) =
    let rest = find_duplicate kind value target m in
    if is_same kind value target e.1 then some e.1.id else rest

abbrev pub new_request : ℕ → Bytes → Bytes → Bytes → Bytes → UnblockRequest
new_request now id kind value target = record {
  id = id;
  kind = kind;
  value = value;
  target_hostname = target;
  created_at = now;
}

-- `Add` once the target is normalized and no duplicate is pending.
unfoldable pub add_new : ℕ → Bytes → Bytes → Bytes → Bytes → UnblockStore → Bytes × UnblockStore
add_new now id kind value target s =
    if leb s.max_pending (length s.requests)
    then ([], s)
    else (id, record s { requests = insert id (new_request now id kind value target) s.requests })

-- `Add`: the id of the request, and the store.
unfoldable pub add : ℕ → Bytes → Bytes → Bytes → Bytes → UnblockStore → Bytes × UnblockStore
unfolding add_new
add now id kind value target_hostname s =
    let target = to_lower (trim_space target_hostname) in
    elim (find_duplicate kind value target s.requests) [
      | some pending ↦ (pending, s)
      | none ↦ add_new now id kind value target s
    ]

-- `GetPending`
unfoldable pub get_pending : UnblockStore → List UnblockRequest
get_pending s = map (λ e. e.1) s.requests

-- `GetPendingForHost`
unfoldable pub get_pending_for_host : Bytes → UnblockStore → List UnblockRequest
get_pending_for_host hostname s =
    let host = to_lower (trim_space hostname) in
    filter (λ r. is_empty r.target_hostname || equal r.target_hostname host)
      (map (λ e. e.1) s.requests)

-- The end of a list, of a bounded length.
abbrev pub keep_last : {A : Type 0} → ℕ → List A → List A
keep_last n xs = if ltb n (length xs) then drop (length xs - n) xs else xs

abbrev pub complete : ℕ → UnblockRequest → CompletedUnblock
complete now req = record {
  kind = req.kind;
  value = req.value;
  target_hostname = req.target_hostname;
  completed_at = now;
}

-- `Acknowledge`
unfoldable pub acknowledge : ℕ → Bytes → UnblockStore → Bool × UnblockStore
acknowledge now id s = elim (lookup id s.requests) [
  | none ↦ (false, s)
  | some req ↦ (
    true,
    record s {
      requests = remove id s.requests;
      completed = keep_last max_completed (s.completed ++ (complete now req ∷ []));
    },
  )
]

-- `GetCompleted`
unfoldable pub get_completed : UnblockStore → List CompletedUnblock
get_completed s = s.completed
