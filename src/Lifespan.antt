-- ===== src/Lifespan.antt =====
-- asyncio/lifespan.py: the startup and the shutdown of an application.
pub mod Told
mod Tests
use hypercorn.Prelude.{
  Bool, true, false, Option, none, some, List, [], ◌∷◌, ◌++◌, is_nil, if◌then◌else◌,
}
use hypercorn.Asgi.{Text}

pub data Stage : Type 0 where
  startup_stage shutdown_stage : Stage

-- The exceptions that are told apart. A `base_error` is no Exception, as a KeyboardInterrupt.
pub data Raised : Type 0 where
  lifespan_failure : Stage → Text → Raised
  lifespan_timeout : Stage → Raised
  unexpected_message : Text → Raised
  cancelled app_error base_error : Raised

-- How a task ends in an exception: a group is given by its leaves.
pub data Failure : Type 0 where
  single : Raised → Failure
  group : List Raised → Failure

pub data Message : Type 0 where
  startup_complete shutdown_complete : Message
  startup_failed shutdown_failed : Text → Message
  unknown_message : Text → Message

pub data Request : Type 0 where
  lifespan_startup lifespan_shutdown : Request

pub data Log : Type 0 where
  continuing_without shutdown_without errored_after_shutdown : Log

-- An application, by what it does with the messages it gets and the exceptions its sends raise.
pub data App : Type 0 where
  finishes : Option Failure → App
  sends : Message → (Option Raised → App) → App
  receives : (Request → App) → App

-- `sent` remembers the messages of the application and is read by no method.
pub record Lifespan : Type 0 where
  pub startup : Bool
  pub shutdown : Bool
  pub supported : Bool
  pub app_queue : List Request
  pub logs : List Log
  pub sent : List Message

abbrev pub init : Lifespan
init = record {
  startup = false;
  shutdown = false;
  supported = true;
  app_queue = [];
  logs = [];
  sent = [];
}

abbrev pub set_events : Message → Lifespan → Lifespan
set_events startup_complete s = record s { startup = true }
set_events shutdown_complete s = record s { shutdown = true }
set_events (startup_failed m) s = record s { startup = true }
set_events (shutdown_failed m) s = record s { shutdown = true }
set_events (unknown_message m) s = s

abbrev pub send_raises : Message → Option Raised
send_raises startup_complete = none
send_raises shutdown_complete = none
send_raises (startup_failed m) = some (lifespan_failure startup_stage m)
send_raises (shutdown_failed m) = some (lifespan_failure shutdown_stage m)
send_raises (unknown_message m) = some (unexpected_message m)

unfoldable pub asgi_send : Message → Lifespan → Option Raised × Lifespan
asgi_send m s = let t = set_events m s in (send_raises m, record t { sent = t.sent ++ m ∷ [] })

-- LifespanFailureError and CancelledError.
abbrev pub is_let_through : Raised → Bool
is_let_through (lifespan_failure stage m) = true
is_let_through (lifespan_timeout stage) = false
is_let_through (unexpected_message m) = false
is_let_through cancelled = true
is_let_through app_error = false
is_let_through base_error = false

-- `error.subgroup`.
unfoldable pub subgroup : List Raised → List Raised
subgroup [] = []
subgroup (e ∷ es) = let rest = subgroup es in if is_let_through e then e ∷ rest else rest

abbrev pub reraise_single : Raised → Option Failure
reraise_single base_error = some (single base_error)
reraise_single e = if is_let_through e then some (single e) else none

-- What `handle_lifespan` raises of what the application raised.
unfoldable pub reraised : Failure → Option Failure
unfolding subgroup
reraised (single e) = reraise_single e
reraised (group es) = let found = subgroup es in if is_nil found then none else some (group found)

abbrev pub error_log : Lifespan → Log
error_log s =
    if s.startup
    then if s.shutdown then errored_after_shutdown else shutdown_without
    else continuing_without

abbrev pub drop_support : Lifespan → Lifespan
drop_support s = record s { supported = false; logs = s.logs ++ error_log s ∷ [] }

abbrev pub except_app : Option Failure → Lifespan → Lifespan
except_app none s = drop_support s
except_app (some e) s = s

-- The clauses `except` and `finally`.
unfoldable pub finish_app : Option Failure → Lifespan → Option Failure × Lifespan
unfolding reraised
finish_app none s = (none, record s { startup = true; shutdown = true })
finish_app (some e) s =
    let t = except_app (reraised e) s in (reraised e, record t { startup = true; shutdown = true })

-- Where the task of `handle_lifespan` stands: at a `receive` of the application with an empty queue,
-- or at its end, with what it raised, after the application ended so.
pub data Task : Type 0 where
  waiting : (Request → App) → Task
  ended : Option Failure → Option Failure → Task

unfoldable pub run : App → List Request → Lifespan → Task × Lifespan
unfolding finish_app asgi_send
run (finishes e) queue s =
    let (raised, t) = finish_app e s in (ended e raised, record t { app_queue = queue })
run (sends m go_on) queue s = let (e, t) = asgi_send m s in run (go_on e) queue t
run (receives go_on) [] s = (waiting go_on, record s { app_queue = [] })
run (receives go_on) (r ∷ queue) s = run (go_on r) queue s

unfoldable pub handle_lifespan : App → Lifespan → Task × Lifespan
unfolding run
handle_lifespan app s = run app s.app_queue s

-- `wait_for_startup` and `wait_for_shutdown` up to their wait: the message that the application
-- is sent, which a waiting application takes at once.
unfoldable pub ask : Request → Task × Lifespan → Task × Lifespan
unfolding run
ask r (waiting go_on, s) = if s.supported then run (go_on r) s.app_queue s else (waiting go_on, s)
ask r (ended e raised, s) =
    (ended e raised, if s.supported then record s { app_queue = s.app_queue ++ r ∷ [] } else s)

-- The end of the wait that follows: the event, or the time.
abbrev pub event_of : Stage → Lifespan → Bool
event_of startup_stage s = s.startup
event_of shutdown_stage s = s.shutdown

unfoldable pub wait_result : Stage → Lifespan → Option Raised
wait_result stage s = if event_of stage s then none else some (lifespan_timeout stage)

unfoldable pub ask_all : List Request → Task × Lifespan → Task × Lifespan
unfolding ask
ask_all [] t = t
ask_all (r ∷ rs) t = ask_all rs (ask r t)
