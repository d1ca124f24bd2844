-- ===== src/QueuedStream/Tasks/Progress.antt =====
-- protocol/queued_stream.py: no producer is left waiting by a consumer that runs.
use hypercorn.Prelude.{
  ℕ, zero, suc, ◌+◌, ◌≤◌, ◌<◌, ◌≡◌, refl, ap, inl, inr, ◌⊎◌, Bool, true, false, Option, none, some,
  [], ◌∷◌, arith, length, total, is_nil, if_both,
}
use hypercorn.QueuedStream.{QueuedEvent, QueuedStream, mark_closed}
use hypercorn.QueuedStream.Bounds.{Inv, PopOk, pop_next-PopOk}
use hypercorn.QueuedStream.Tasks.Invariant.{SystemInv, consume-SystemInv}
use hypercorn.QueuedStream.Tasks.{
  System, Consumer, idle, turning, handling, calling, returned, notify, turn, finish, step_consumer,
  consume,
}

-- `k` turns of the consumer with no other task between them.
pub consumes : ℕ → System → System
consumes zero y = y
consumes (suc k) y = consumes k (consume y)

abbrev pub is_returned : Consumer → Bool
is_returned returned = true
is_returned c = false

abbrev weight : QueuedEvent → ℕ
weight q = length q.callbacks + 3

abbrev pub ahead : Consumer → ℕ
ahead idle = 2
ahead turning = 1
ahead (handling q) = length q.callbacks + 3
ahead (calling q cs) = length cs + 2
ahead returned = 0

-- The turns that the consumer needs for what it has in hand and what is queued.
abbrev pub work : System → ℕ
work y = ahead y.consumer + total weight y.stream.queue

abbrev Advances : System → System → Type 0
Advances y z = (work z < work y) × (is_returned z.consumer ≡ false)

turn-Advances :
    (y : System) (r : Option (QueuedEvent × QueuedStream))
    → PopOk y.stream r
    → is_nil y.stream.queue ≡ false
    → y.consumer ≡ turning
    → Advances y (turn y r)
unfolding turn notify
turn-Advances y none o n e = cc (ap is_nil o)
turn-Advances y (some (q, s)) o n e = (omega (arith, ap ahead e, ap (total weight) o.2), refl)

finish-Advances :
    (y : System) (q : QueuedEvent) (closed : Bool)
    → is_nil y.stream.queue ≡ false
    → y.consumer ≡ calling q []
    → Advances y (finish y (record y.stream { closed = closed }))
unfolding finish
finish-Advances y q closed n e = ground (arith, n, ap ahead e)

step_consumer-Advances :
    (y : System) (c : Consumer)
    → Inv y.stream
    → is_nil y.stream.queue ≡ false
    → y.consumer ≡ c
    → is_returned c ≡ false
    → Advances y (step_consumer y c)
unfolding step_consumer mark_closed
step_consumer-Advances y idle v n e r = ground (arith, n, v.signalled, ap ahead e)
step_consumer-Advances y turning v n e r = turn-Advances y _ (pop_next-PopOk y.stream v) n e
step_consumer-Advances y (handling q) v n e r = (omega (arith, ap ahead e), refl)
step_consumer-Advances y (calling q (c ∷ cs)) v n e r = (omega (arith, ap ahead e), refl)
step_consumer-Advances y (calling q []) v n e r = finish-Advances y q _ n e
step_consumer-Advances y returned v n e r = cc

-- The consumer adds nobody to the producers that wait.
turn_none_waiting :
    (y : System) (r : Option (QueuedEvent × QueuedStream))
    → y.waiting ≡ []
    → (turn y r).waiting ≡ []
unfolding turn notify
turn_none_waiting y none e = e
turn_none_waiting y (some (q, s)) e = ground (arith, e)

step_consumer_none_waiting :
    (y : System) (c : Consumer) → y.waiting ≡ [] → (step_consumer y c).waiting ≡ []
unfolding step_consumer finish
step_consumer_none_waiting y idle e =
    if_both (λ (z : System). z.waiting ≡ []) y.stream.has_events e e
step_consumer_none_waiting y turning e = turn_none_waiting y _ e
step_consumer_none_waiting y (handling q) e = e
step_consumer_none_waiting y (calling q (c ∷ cs)) e = e
step_consumer_none_waiting y (calling q []) e = e
step_consumer_none_waiting y returned e = e

consumes_none_waiting : (k : ℕ) (y : System) → y.waiting ≡ [] → (consumes k y).waiting ≡ []
unfolding consumes consume
consumes_none_waiting zero y e = e
consumes_none_waiting (suc k) y e =
    consumes_none_waiting k (consume y) (step_consumer_none_waiting y y.consumer e)

ahead_pos : (c : Consumer) → is_returned c ≡ false → 0 < ahead c
ahead_pos c r = ground arith

consumes_wake :
    (k : ℕ) (y : System)
    → SystemInv y
    → work y ≤ k
    → (y.waiting ≡ []) ⊎ (is_returned y.consumer ≡ false)
    → (consumes k y).waiting ≡ []
unfolding consumes consume
consumes_wake k y v w (inl e) = consumes_none_waiting k y e
consumes_wake zero y v w (inr r) = absurd (omega (arith, ahead_pos y.consumer r))
consumes_wake (suc k) y v w (inr r) = elim v.served [
  | inl e ↦ consumes_none_waiting (suc k) y e
  | inr (n, l) ↦
      let (less, r') = step_consumer-Advances y y.consumer v.stream_inv n refl r in
      consumes_wake k (consume y) (consume-SystemInv y v) (omega (arith, less)) (inr r')
]

-- No wake-up is lost: in every state that keeps the invariant, if the consumer has not returned,
-- then its next `work y` turns, run alone, end the wait of every producer that is blocked on
-- `_has_space`. (A turn is one return of the stream's handler, of a callback, or of a wait.)
pub producers_woken :
    (y : System) → SystemInv y → is_returned y.consumer ≡ false → (consumes (work y) y).waiting ≡ []
producers_woken y v r = consumes_wake (work y) y v (omega arith) (inr r)
