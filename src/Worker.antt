-- ===== src/Worker.antt =====
-- asyncio/worker_context.py: the limit of the requests of a worker.
mod Tests
pub mod Limit
use hypercorn.Prelude.{ℕ, ◌+◌, Bool, false, true, Option, none, some, ltb, if◌then◌else◌}

-- `terminate` is whether the event is set.
pub record WorkerContext : Type 0 where
  pub max_requests : Option ℕ
  pub requests : ℕ
  pub terminate : Bool

abbrev pub init : Option ℕ → WorkerContext
init max_requests = record { max_requests = max_requests; requests = 0; terminate = false }

abbrev pub mark_counted : Option ℕ → WorkerContext → WorkerContext
mark_counted none c = c
mark_counted (some max_requests) c =
    let requests = c.requests + 1 in
    record c {
      requests = requests;
      terminate = if ltb max_requests requests then true else c.terminate;
    }

unfoldable pub mark_request : WorkerContext → WorkerContext
mark_request c = mark_counted c.max_requests c
