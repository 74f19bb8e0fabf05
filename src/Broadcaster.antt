-- ===== src/Broadcaster.antt =====
-- internal/dashboard/broadcaster.go: the clients of the event stream. A channel is its number, and the
-- messages that wait in it are in the order of arrival; numbers are not used again. Log lines are left
-- out, except for the number of dropped messages.
pub mod Streams
use g0efilter.Prelude.{
  ℕ, ◌+◌, ◌≡◌, Bool, Option, none, some, List, [], ◌∷◌, ◌++◌, ltb, ◌==◌, if◌then◌else◌, length, map,
}
use g0efilter.Text.{Bytes}

-- The size of a channel.
abbrev pub channel_size : ℕ
channel_size = 64

-- A channel and what waits in it.
abbrev pub Client : Type 0
Client = ℕ × List Bytes

-- `broadcaster`, and the number of the next channel that `make` returns.
pub record Broadcaster : Type 0 where
  pub clients : List Client
  pub next : ℕ

-- `newBroadcaster`
abbrev pub new_broadcaster : Broadcaster
new_broadcaster = record { clients = []; next = 0 }

-- `Add`
unfoldable pub add : Broadcaster → ℕ × Broadcaster
add b = (b.next, record { clients = (b.next, []) ∷ b.clients; next = b.next + 1 })

unfoldable pub delete : ℕ → List Client → List Client
delete ch [] = []
delete ch (c ∷ cs) = let rest = delete ch cs in if c.0 == ch then rest else c ∷ rest

-- `Remove`
unfoldable pub remove : ℕ → Broadcaster → Broadcaster
unfolding delete
remove ch b = record b { clients = delete ch b.clients }

-- The `select` of `Send`.
unfoldable pub offer : Bytes → List Bytes → List Bytes
offer p waiting = if ltb (length waiting) channel_size then waiting ++ (p ∷ []) else waiting

unfoldable pub count_full : List Client → ℕ
count_full [] = 0
count_full (c ∷ cs) =
    let rest = count_full cs in if ltb (length c.1) channel_size then rest else rest + 1

-- `Send`: the number of dropped messages.
unfoldable pub send : Bytes → Broadcaster → ℕ × Broadcaster
unfolding offer count_full
send p b = (count_full b.clients, record b { clients = map (λ c. (c.0, offer p c.1)) b.clients })

-- The first message is taken.
unfoldable pub tail : List Bytes → List Bytes
tail [] = []
tail (m ∷ ms) = ms

-- A client receives from its channel, when something waits in it.
unfoldable pub receive : ℕ → Broadcaster → Broadcaster
unfolding tail
receive ch b = record b {
  clients = map (λ c. (c.0, (if c.0 == ch then tail c.1 else c.1))) b.clients;
}

-- The calls of the handlers, and what the clients do.
pub data Call : Type 0 where
  add_client : Call
  remove_client receive_from : ℕ → Call
  send_message : Bytes → Call

unfoldable pub step : Broadcaster → Call → Broadcaster
unfolding add remove send receive
step b add_client = (add b).1
step b (remove_client ch) = remove ch b
step b (receive_from ch) = receive ch b
step b (send_message p) = (send p b).1

unfoldable pub run : Broadcaster → List Call → Broadcaster
unfolding step
run b [] = b
run b (c ∷ calls) = run (step b c) calls

-- What waits in a channel, `none` when it is not registered.
unfoldable pub waiting_in : ℕ → List Client → Option (List Bytes)
waiting_in ch [] = none
waiting_in ch (c ∷ cs) = let rest = waiting_in ch cs in if c.0 == ch then some c.1 else rest
