-- ===== src/Broadcaster/Streams.antt =====
-- internal/dashboard/broadcaster.go: what one client sees of a run.
use g0efilter.Prelude.{
  ◌≢◌, inl, inr, Bool-cases, ==_iff, ◌<◌, ◌≤◌, refl, All, arith, ap, ◌∙◌, ℕ, ◌≡◌, Option, none,
  some, List, [], ◌∷◌, ◌==◌, if◌then◌else◌, length, length-append, map,
}
use g0efilter.Text.{Bytes}
use g0efilter.Broadcaster.{
  channel_size, Client, Broadcaster, Call, add_client, remove_client, receive_from, send_message,
  add, remove, send, receive, delete, offer, tail, step, run, waiting_in,
}

-- A queue of its own for one client, without the others.
unfoldable pub queue_after : ℕ → List Bytes → List Call → List Bytes
unfolding offer tail
queue_after ch q [] = q
queue_after ch q (add_client ∷ calls) = queue_after ch q calls
queue_after ch q (remove_client c ∷ calls) = queue_after ch q calls
queue_after ch q (receive_from c ∷ calls) = queue_after ch (if ch == c then tail q else q) calls
queue_after ch q (send_message p ∷ calls) = queue_after ch (offer p q) calls

-- A call that does not remove the client.
abbrev pub Keeps : ℕ → Call → Type 0
Keeps ch add_client = Unit
Keeps ch (remove_client c) = c ≢ ch
Keeps ch (receive_from c) = Unit
Keeps ch (send_message p) = Unit

abbrev on : Option (List Bytes) → (List Bytes → List Bytes) → Option (List Bytes)
on none f = none
on (some q) f = some (f q)

waiting_in-map :
    (ch : ℕ) (f : ℕ → List Bytes → List Bytes) (cs : List Client)
    → waiting_in ch (map (λ c. (c.0, f c.0 c.1)) cs) ≡ on (waiting_in ch cs) (f ch)
unfolding waiting_in
waiting_in-map ch f [] = refl
waiting_in-map ch f ((n, q) ∷ cs) = elim (Bool-cases (n == ch)) [
  | inl e ↦ rw (e, (==_iff n ch).0 e) refl
  | inr e ↦ rw e (waiting_in-map ch f cs)
]

waiting_in-delete :
    (ch c : ℕ) (cs : List Client) → c ≢ ch → waiting_in ch (delete c cs) ≡ waiting_in ch cs
unfolding waiting_in delete
waiting_in-delete ch c [] h = refl
waiting_in-delete ch c ((n, q) ∷ cs) h = grind (arith, waiting_in-delete ch c cs h)

waiting_in-fresh :
    (ch n : ℕ) (cs : List Client) → n ≢ ch → waiting_in ch ((n, []) ∷ cs) ≡ waiting_in ch cs
unfolding waiting_in
waiting_in-fresh ch n cs h = grind arith

-- The client is registered with this queue.
abbrev IsRegistered : ℕ → Broadcaster → List Bytes → Type 0
IsRegistered ch b q = (waiting_in ch b.clients ≡ some q) × (ch < b.next)

step-IsRegistered :
    (ch : ℕ) (b : Broadcaster) (q : List Bytes) (call : Call)
    → IsRegistered ch b q
    → Keeps ch call
    → IsRegistered ch (step b call) (queue_after ch q (call ∷ []))
unfolding step add remove send receive queue_after
step-IsRegistered ch b q add_client (e, l) k =
    (waiting_in-fresh ch b.next b.clients (λ p. ground (arith, p, l)) ∙ e, omega (arith, l))
step-IsRegistered ch b q (remove_client c) (e, l) k = (waiting_in-delete ch c b.clients k ∙ e, l)
step-IsRegistered ch b q (receive_from c) (e, l) k = (
  waiting_in-map ch (λ n r. if n == c then tail r else r) b.clients
      ∙ ap (λ o. on o (λ r. if ch == c then tail r else r)) e,
  l,
)
step-IsRegistered ch b q (send_message p) (e, l) k =
    (waiting_in-map ch (λ n r. offer p r) b.clients ∙ ap (λ o. on o (offer p)) e, l)

queue_after-cons :
    (ch : ℕ) (q : List Bytes) (call : Call) (calls : List Call)
    → queue_after ch q (call ∷ calls) ≡ queue_after ch (queue_after ch q (call ∷ [])) calls
unfolding queue_after
queue_after-cons ch q add_client calls = refl
queue_after-cons ch q (remove_client c) calls = refl
queue_after-cons ch q (receive_from c) calls = refl
queue_after-cons ch q (send_message p) calls = refl

run-IsRegistered :
    (ch : ℕ) (calls : List Call) (b : Broadcaster) (q : List Bytes)
    → IsRegistered ch b q
    → All (Keeps ch) calls
    → IsRegistered ch (run b calls) (queue_after ch q calls)
unfolding run queue_after
run-IsRegistered ch [] b q h k = h
run-IsRegistered ch (call ∷ calls) b q h k = rw (queue_after-cons ch q call calls) (
    run-IsRegistered ch calls (step b call) (queue_after ch q (call ∷ []))
      (step-IsRegistered ch b q call h k.0) k.1)

offer-bounded :
    (p : Bytes) (q : List Bytes) → length q ≤ channel_size → length (offer p q) ≤ channel_size
unfolding offer
offer-bounded p q h = ground (arith, h, length-append q (p ∷ []))

tail-bounded : (q : List Bytes) → length q ≤ channel_size → length (tail q) ≤ channel_size
unfolding tail
tail-bounded [] h = h
tail-bounded (m ∷ ms) h = omega (arith, h)

queue_after-bounded :
    (ch : ℕ) (calls : List Call) (q : List Bytes)
    → length q ≤ channel_size
    → length (queue_after ch q calls) ≤ channel_size
unfolding queue_after
queue_after-bounded ch [] q h = h
queue_after-bounded ch (add_client ∷ calls) q h = queue_after-bounded ch calls q h
queue_after-bounded ch (remove_client c ∷ calls) q h = queue_after-bounded ch calls q h
queue_after-bounded ch (receive_from c ∷ calls) q h =
    queue_after-bounded ch calls _
      (elim (Bool-cases (ch == c)) [ inl e ↦ rw e (tail-bounded q h) | inr e ↦ rw e h ])
queue_after-bounded ch (send_message p ∷ calls) q h =
    queue_after-bounded ch calls (offer p q) (offer-bounded p q h)

-- From its `Add` on, and as long as it is not removed, a client's channel holds what a queue of its own
-- would hold, with at most 64 messages: the messages sent, less those that found it full and those that
-- it received, whatever the other clients do.
pub client_sees-queue_after :
    (b : Broadcaster) (calls : List Call)
    → All (Keeps (add b).0) calls
    → (waiting_in (add b).0 (run (add b).1 calls).clients ≡ some (queue_after (add b).0 [] calls))
      × (length (queue_after (add b).0 [] calls) ≤ channel_size)
unfolding add waiting_in
client_sees-queue_after b calls k = (
  (run-IsRegistered (add b).0 calls (add b).1 [] (grind arith, omega arith) k).0,
  queue_after-bounded (add b).0 calls [] (omega arith),
)
