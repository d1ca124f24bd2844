-- ===== src/QueuedStream/Tasks.antt =====
-- protocol/queued_stream.py as tasks of one event loop: the producers that call `handle`, and the
-- one consumer `_handle`. A step runs a task from one suspension to the next. The ghost fields
-- `accepted`, `delivered` and `called` record what went in and what came out.
pub mod Invariant
pub mod Content
pub mod Progress
pub mod Limits
use hypercorn.Prelude.{
  ◌≡◌, Bool, true, false, ◌&&◌, Option, none, some, List, [], ◌∷◌, ◌++◌, is_nil, if◌then◌else◌,
}
use hypercorn.Events.{Event}
use hypercorn.QueuedStream.{
  QueuedEvent, QueuedStream, Callback, Outcome, full, raised, create, materialize, try_put,
  pop_next, mark_closed, init,
}
use hypercorn.QueuedStream

-- Where the consumer is suspended: at `_has_events.wait()`, at the test of `while self._queue`, in
-- the stream's handler, before a callback of an event, or returned.
pub data Consumer : Type 0 where
  idle : Consumer
  turning : Consumer
  handling : QueuedEvent → Consumer
  calling : QueuedEvent → List Callback → Consumer
  returned : Consumer

-- `waiting` are the producers blocked in `_has_space.wait()`; `woken` those whose wait is over and
-- that have not run since.
pub record System : Type 0 where
  pub stream : QueuedStream
  pub consumer : Consumer
  pub waiting : List QueuedEvent
  pub woken : List QueuedEvent
  pub failed : List QueuedEvent
  pub accepted : List QueuedEvent
  pub delivered : List Event
  pub called : List Callback

abbrev pub start : QueuedStream → System
start s = record {
  stream = s;
  consumer = idle;
  waiting = [];
  woken = [];
  failed = [];
  accepted = [];
  delivered = [];
  called = [];
}

-- `_has_space.wait()` returns at once when the event is set.
wait_for_space : System → QueuedEvent → System
wait_for_space y q =
    if y.stream.has_space
    then record y { woken = y.woken ++ q ∷ [] }
    else record y { waiting = y.waiting ++ q ∷ [] }

settle : System → QueuedEvent → QueuedStream × Outcome → System
settle y q (s, Outcome.accepted) = record y { stream = s; accepted = y.accepted ++ q ∷ [] }
settle y q (s, full) = wait_for_space (record y { stream = s }) q
settle y q (s, raised) = record y { stream = s; failed = y.failed ++ q ∷ [] }

-- A turn of the loop in `handle`, up to its return or its next wait.
unfoldable pub submit : System → QueuedEvent → System
unfolding settle wait_for_space
submit y q = settle y q (try_put y.stream q)

-- A producer that has waited goes on: `await self._has_space.clear()`, and the loop again.
unfoldable pub resume : System → List QueuedEvent → QueuedEvent → System
unfolding submit
resume y others q =
    submit (record y { woken = others; stream = record y.stream { has_space = false } }) q

-- asyncio's Event.set() ends the wait of every task that waits.
notify : System → QueuedEvent → QueuedStream → System
notify y q s = record y {
  stream = s;
  consumer = handling q;
  waiting = if s.has_space then [] else y.waiting;
  woken = if s.has_space then y.woken ++ y.waiting else y.woken;
  delivered = y.delivered ++ materialize q ∷ [];
}

turn : System → Option (QueuedEvent × QueuedStream) → System
unfolding notify
turn y none = record y { consumer = idle }
turn y (some (q, s)) = notify y q s

finish : System → QueuedStream → System
finish y s = record y {
  stream = s;
  consumer = if s.closed && is_nil s.queue then returned else turning;
}

step_consumer : System → Consumer → System
unfolding turn finish mark_closed pop_next
step_consumer y idle = if y.stream.has_events then record y { consumer = turning } else y
step_consumer y turning = turn y (pop_next y.stream)
step_consumer y (handling q) = record y { consumer = calling q q.callbacks }
step_consumer y (calling q (c ∷ cs)) = record y {
  consumer = calling q cs;
  called = y.called ++ c ∷ [];
}
step_consumer y (calling q []) = finish y (mark_closed y.stream q)
step_consumer y returned = y

-- The consumer runs to its next suspension; it stays where it is when it is blocked.
unfoldable pub consume : System → System
unfolding step_consumer
consume y = step_consumer y y.consumer

-- What the event loop may do next.
pub data Step (y : System) : System → Type 0 where
  calls : (e : Event) (c : Option Callback) → Step y (submit y (create e c))
  resumes :
      (before after : List QueuedEvent) (q : QueuedEvent)
      → y.woken ≡ before ++ q ∷ after
      → Step y (resume y (before ++ after) q)
  consumes : Step y (consume y)

pub data Reach (y : System) : System → Type 0 where
  here : Reach y y
  next : {z w : System} → Reach y z → Step z w → Reach y w
