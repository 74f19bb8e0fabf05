-- ===== src/Tests/Streams.antt =====
-- The event streams of the dashboard.
use g0efilter.Prelude.{◌≡◌, ◌≤◌, some, List, [], ◌∷◌, length, arith, refl}
use g0efilter.Text.{codes}
use g0efilter.Broadcaster.{
  channel_size, Broadcaster, Call, add_client, remove_client, receive_from, send_message, add, run,
  waiting_in,
}
use g0efilter.Broadcaster.Streams.{queue_after, client_sees-queue_after}

abbrev one_client : Broadcaster
one_client = record { clients = (0, codes "old" ∷ []) ∷ []; next = 1 }

abbrev calls : List Call
calls =
    send_message (codes "a")
    ∷ add_client
    ∷ remove_client 0
    ∷ receive_from 1
    ∷ send_message (codes "b")
    ∷ []

client_sees-queue_after_example :
    (waiting_in 1 (run (add one_client).1 calls).clients ≡ some (queue_after 1 [] calls))
    × (length (queue_after 1 [] calls) ≤ channel_size)
unfolding add
client_sees-queue_after_example =
    client_sees-queue_after one_client calls (tt, (tt, ((λ e. ground (arith, e)), (tt, (tt, tt)))))

one_left : queue_after 1 [] calls ≡ codes "b" ∷ []
unfolding queue_after
one_left = refl
