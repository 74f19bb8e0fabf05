-- ===== src/Tests/Unblock.antt =====
-- The unblock requests of the dashboard.
use g0efilter.Prelude.{◌≡◌, refl, true, false, none, some, [], ◌∷◌, Has}
use g0efilter.Text.{codes}
use g0efilter.Assoc.{lookup}
use g0efilter.Unblock.{
  UnblockRequest, UnblockStore, new_unblock_store, new_request, complete, acknowledge,
}
use g0efilter.Unblock.Pending as Pending
use g0efilter.Unblock.Pending.{adds, acknowledges, run, store_stays-IsValid}
use g0efilter.Unblock.Settled.{acknowledge-once}

store_stays-IsValid_example : Pending.IsValid (
    run new_unblock_store (
      adds 1 (codes "a1") (codes "domain") (codes "x.com") (codes "Web")
      ∷ acknowledges 2 (codes "a1")
      ∷ []))
store_stays-IsValid_example = store_stays-IsValid (
    adds 1 (codes "a1") (codes "domain") (codes "x.com") (codes "Web")
    ∷ acknowledges 2 (codes "a1")
    ∷ [])

abbrev request : UnblockRequest
request = new_request 1 (codes "a1") (codes "ip") (codes "10.0.0.1") []

abbrev one_pending : UnblockStore
one_pending = record { requests = (codes "a1", request) ∷ []; completed = []; max_pending = 1000 }

is_pending : lookup (codes "a1") one_pending.requests ≡ some request
unfolding lookup
is_pending = refl

acknowledge-once_example :
    ((acknowledge 5 (codes "a1") one_pending).0 ≡ true)
    × (lookup (codes "a1") (acknowledge 5 (codes "a1") one_pending).1.requests ≡ none)
    × Has (complete 5 request) (acknowledge 5 (codes "a1") one_pending).1.completed
    × (acknowledge 8 (codes "a1") (acknowledge 5 (codes "a1") one_pending).1
        ≡ (false, (acknowledge 5 (codes "a1") one_pending).1))
acknowledge-once_example = acknowledge-once 5 8 (codes "a1") one_pending request is_pending
