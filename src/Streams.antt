-- ===== src/Streams.antt =====
-- What the protocols of protocol/h11.py and protocol/h2.py ask of a stream, HTTPStream or WSStream.
pub mod Actual
mod Tests
use hypercorn.Prelude.{ℕ, Bool, List}
use hypercorn.Events.{Event}
use hypercorn.Exec.{Result}

-- `handle` with an event: how it ended, the events it sent meanwhile, and the stream after it.
pub record Answer (T : Type 0) : Type 0 where
  pub result : Result {0} Unit
  pub sends : List Event
  pub stream : T

-- `close` is `handle` with a StreamClosed, which returns and sends nothing.
pub record Streams (T : Type 0) : Type 0 where
  pub new_http : ℕ → T
  pub new_websocket : ℕ → T
  pub handle : T → Event → Answer T
  pub close : T → T

-- The same of the QueuedStream that HTTP/2 puts before a stream: `put` is what its `handle` makes of
-- it, and `is_stuck` whether its `handle` waits for space for ever. The stream takes the event later,
-- and sends then.
pub record Queues (T : Type 0) : Type 0 where
  pub new_http : ℕ → T
  pub new_websocket : ℕ → T
  pub put : T → Event → T
  pub is_stuck : T → Event → Bool
