-- ===== src/QueuedStream/Tasks/Limits.antt =====
-- protocol/queued_stream.py: the limits given to the queue hold at every suspension.
use hypercorn.Prelude.{
  ℕ, ◌≤◌, ◌≡◌, refl, ◌∙◌, ◌⊎◌, Option, none, some, [], ◌∷◌, ◌++◌, arith, length, is_nil, not,
  if_both,
}
use hypercorn.QueuedStream.{
  QueuedEvent, QueuedStream, Outcome, full, raised, create, init, mark_closed,
}
use hypercorn.QueuedStream.Merging.{sizes, create-WellFormed}
use hypercorn.QueuedStream.Bounds.{TurnOk, try_put-TurnOk, PopOk, pop_next-PopOk}
use hypercorn.QueuedStream.Tasks.Invariant.{
  SystemInv, start-SystemInv, Reach-SystemInv, woken_split, cleared-SystemInv,
}
use hypercorn.QueuedStream.Tasks.{
  System, Consumer, idle, turning, handling, calling, returned, start, settle, wait_for_space,
  submit, resume, notify, turn, finish, step_consumer, consume, Step, calls, resumes, consumes,
  Reach, here, next,
}

-- No step changes the limits.
abbrev SameLimits : System → System → Type 0
SameLimits y z =
    (z.stream.max_queue_size ≡ y.stream.max_queue_size)
    × (z.stream.max_queue_bytes ≡ y.stream.max_queue_bytes)

settle-SameLimits :
    (y : System) (q : QueuedEvent) (r : QueuedStream × Outcome)
    → TurnOk y.stream q r
    → SameLimits y (settle y q r)
unfolding settle wait_for_space
settle-SameLimits y q (s, Outcome.accepted) (i, n, a, b, h) = (a, b)
settle-SameLimits y q (s, full) (e, n, l) =
    if_both (SameLimits y) s.has_space (ground (arith, e), ground (arith, e))
      (ground (arith, e), ground (arith, e))
settle-SameLimits y q (s, raised) t = absurd t

turn-SameLimits :
    (y : System) (r : Option (QueuedEvent × QueuedStream))
    → PopOk y.stream r
    → SameLimits y (turn y r)
unfolding turn notify
turn-SameLimits y none o = (refl, refl)
turn-SameLimits y (some (q, s)) o = (o.4, o.5)

step_consumer-SameLimits :
    (y : System) (c : Consumer) → SystemInv y → SameLimits y (step_consumer y c)
unfolding step_consumer finish mark_closed
step_consumer-SameLimits y idle v =
    if_both (SameLimits y) y.stream.has_events (refl, refl) (refl, refl)
step_consumer-SameLimits y turning v = turn-SameLimits y _ (pop_next-PopOk y.stream v.stream_inv)
step_consumer-SameLimits y (handling q) v = (refl, refl)
step_consumer-SameLimits y (calling q (c ∷ cs)) v = (refl, refl)
step_consumer-SameLimits y (calling q []) v = (refl, refl)
step_consumer-SameLimits y returned v = (refl, refl)

Step-SameLimits : {y z : System} → Step y z → SystemInv y → SameLimits y z
unfolding submit resume consume
Step-SameLimits {y = y} (calls e c) v =
    settle-SameLimits y (create e c) _
      (try_put-TurnOk y.stream _ v.stream_inv (create-WellFormed e c))
Step-SameLimits {y = y} (resumes before after q e) v =
    let (w, o) = woken_split before after q v e in
    let cleared = cleared-SystemInv y (before ++ after) v o in
    settle-SameLimits _ q _ (try_put-TurnOk _ q cleared.stream_inv w)
Step-SameLimits {y = y} consumes v = step_consumer-SameLimits y y.consumer v

Reach-SameLimits : {y z : System} → SystemInv y → Reach y z → SameLimits y z
Reach-SameLimits v here = (refl, refl)
Reach-SameLimits v (next r st) =
    let (a, b) = Reach-SameLimits v r in
    let (c, d) = Step-SameLimits st (Reach-SystemInv v r) in (c ∙ a, d ∙ b)

-- From an empty queue, whatever the order in which the producers and the consumer run: at most
-- `size` events are queued, unless `size` is 0; at most `bytes` bytes are queued, unless `bytes`
-- is 0 or a single event is queued; the byte count is exact; `_has_events` is set exactly when the
-- queue has events; and no producer fails by a TypeError.
pub queue_within_limits :
    (size bytes : ℕ) {y : System}
    → Reach (start (init size bytes)) y
    → ((size ≡ 0) ⊎ (length y.stream.queue ≤ size))
      × ((bytes ≡ 0) ⊎ (y.stream.queued_bytes ≤ bytes) ⊎ (length y.stream.queue ≡ 1))
      × (y.stream.queued_bytes ≡ sizes y.stream.queue)
      × (y.stream.has_events ≡ not (is_nil y.stream.queue))
      × (y.failed ≡ [])
unfolding init
queue_within_limits size bytes r =
    let v = Reach-SystemInv (start-SystemInv size bytes) r in
    let (a, b) = Reach-SameLimits (start-SystemInv size bytes) r in
    (
      ground (arith, v.stream_inv.counted, a),
      ground (arith, v.stream_inv.bounded, b),
      v.stream_inv.sized,
      v.stream_inv.signalled,
      v.none_failed,
    )
