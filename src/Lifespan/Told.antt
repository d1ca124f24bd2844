-- ===== src/Lifespan/Told.antt =====
-- asyncio/lifespan.py: the events of a lifespan tell what the application has sent.
use hypercorn.Prelude.{
  ◌≡◌, refl, ap, ◌∙◌, Bool, true, false, ◌||◌, Option, none, some, List, [], ◌∷◌, ◌++◌,
  if◌then◌else◌, if_both, arith,
}
use hypercorn.Lifespan.{
  startup_stage, shutdown_stage, Failure, Message, startup_complete, shutdown_complete,
  startup_failed, shutdown_failed, unknown_message, Request, Log, continuing_without,
  shutdown_without, errored_after_shutdown, App, finishes, sends, receives, Lifespan, init,
  asgi_send, reraised, finish_app, Task, waiting, ended, run, handle_lifespan, ask, ask_all,
  error_log, except_app, wait_result,
}

-- A message that ends a stage, well or badly.
abbrev pub ends_startup : Message → Bool
ends_startup startup_complete = true
ends_startup (startup_failed m) = true
ends_startup shutdown_complete = false
ends_startup (shutdown_failed m) = false
ends_startup (unknown_message m) = false

abbrev pub ends_shutdown : Message → Bool
ends_shutdown startup_complete = false
ends_shutdown (startup_failed m) = false
ends_shutdown shutdown_complete = true
ends_shutdown (shutdown_failed m) = true
ends_shutdown (unknown_message m) = false

unfoldable pub any_sent : (Message → Bool) → List Message → Bool
any_sent p [] = false
any_sent p (m ∷ ms) = p m || any_sent p ms

any_sent-append :
    (p : Message → Bool) (ms : List Message) (m : Message)
    → any_sent p (ms ++ m ∷ []) ≡ (any_sent p ms || p m)
unfolding any_sent
any_sent-append p [] m = ground arith
any_sent-append p (n ∷ ms) m = ground (arith, any_sent-append p ms m)

-- While the application runs: nothing has been logged, and an event is set when its stage has been
-- ended.
pub record Runs (s : Lifespan) : Type 0 where
  pub startup : s.startup ≡ any_sent ends_startup s.sent
  pub shutdown : s.shutdown ≡ any_sent ends_shutdown s.sent
  pub supported : s.supported ≡ true
  pub logs : s.logs ≡ []

-- What is logged when support is dropped.
abbrev pub log_after : Bool → Bool → Log
log_after false shutdown = continuing_without
log_after true false = shutdown_without
log_after true true = errored_after_shutdown

abbrev pub Dropped : Lifespan → Type 0
Dropped s =
    (s.supported ≡ false)
    × (s.logs ≡ log_after (any_sent ends_startup s.sent) (any_sent ends_shutdown s.sent) ∷ [])

-- How the application and the task may end: support is kept, with no log, when the application
-- returns or its exception is raised again, and is dropped, with one log, otherwise.
abbrev pub EndsAs : Option Failure → Option Failure → Lifespan → Type 0
EndsAs none raised s = (raised ≡ none) × (s.supported ≡ true) × (s.logs ≡ [])
EndsAs (some e) none s = (reraised e ≡ none) × Dropped s
EndsAs (some e) (some f) s = (reraised e ≡ some f) × (s.supported ≡ true) × (s.logs ≡ [])

pub record Ended (e raised : Option Failure) (s : Lifespan) : Type 0 where
  pub startup : wait_result startup_stage s ≡ none
  pub shutdown : wait_result shutdown_stage s ≡ none
  pub ends : EndsAs e raised s

abbrev pub Told : Task × Lifespan → Type 0
Told (waiting go_on, s) = Runs s
Told (ended e raised, s) = Ended e raised s

ends_now :
    (p : Message → Bool) (ms : List Message) (m : Message)
    → p m ≡ true
    → true ≡ any_sent p (ms ++ m ∷ [])
unfolding any_sent
ends_now p ms m h = ground (arith, any_sent-append p ms m, h)

ends_not :
    {b : Bool} (p : Message → Bool) (ms : List Message) (m : Message)
    → p m ≡ false
    → b ≡ any_sent p ms
    → b ≡ any_sent p (ms ++ m ∷ [])
unfolding any_sent
ends_not p ms m h told = ground (arith, any_sent-append p ms m, h, told)

asgi_send-Runs : (m : Message) (s : Lifespan) → Runs s → Runs (asgi_send m s).1
unfolding asgi_send
asgi_send-Runs startup_complete s r = record {
  startup = ends_now ends_startup s.sent startup_complete refl;
  shutdown = ends_not ends_shutdown s.sent startup_complete refl r.shutdown;
  supported = r.supported;
  logs = r.logs;
}
asgi_send-Runs shutdown_complete s r = record {
  startup = ends_not ends_startup s.sent shutdown_complete refl r.startup;
  shutdown = ends_now ends_shutdown s.sent shutdown_complete refl;
  supported = r.supported;
  logs = r.logs;
}
asgi_send-Runs (startup_failed m) s r = record {
  startup = ends_now ends_startup s.sent (startup_failed m) refl;
  shutdown = ends_not ends_shutdown s.sent (startup_failed m) refl r.shutdown;
  supported = r.supported;
  logs = r.logs;
}
asgi_send-Runs (shutdown_failed m) s r = record {
  startup = ends_not ends_startup s.sent (shutdown_failed m) refl r.startup;
  shutdown = ends_now ends_shutdown s.sent (shutdown_failed m) refl;
  supported = r.supported;
  logs = r.logs;
}
asgi_send-Runs (unknown_message m) s r = record {
  startup = ends_not ends_startup s.sent (unknown_message m) refl r.startup;
  shutdown = ends_not ends_shutdown s.sent (unknown_message m) refl r.shutdown;
  supported = r.supported;
  logs = r.logs;
}

logged :
    (a b : Bool)
    → (if a then if b then errored_after_shutdown else shutdown_without else continuing_without)
      ≡ log_after a b
logged true true = refl
logged true false = refl
logged false b = refl

error_log_lem :
    (s : Lifespan)
    → Runs s
    → error_log s ≡ log_after (any_sent ends_startup s.sent) (any_sent ends_shutdown s.sent)
error_log_lem s r =
    logged s.startup s.shutdown
    ∙ ap (λ b. log_after b s.shutdown) r.startup
    ∙ ap (log_after (any_sent ends_startup s.sent)) r.shutdown

raised-EndsAs :
    (e : Failure) (raised : Option Failure) (queue : List Request) (s : Lifespan)
    → reraised e ≡ raised
    → Runs s
    → EndsAs
        (some e)
        raised
        (record (except_app raised s) { startup = true; shutdown = true; app_queue = queue })
raised-EndsAs e none queue s same r =
    (same, (refl, ap (λ l. l ++ error_log s ∷ []) r.logs ∙ ap (λ g. g ∷ []) (error_log_lem s r)))
raised-EndsAs e (some f) queue s same r = (same, r.supported, r.logs)

finish_app-Ended :
    (e : Option Failure) (queue : List Request) (s : Lifespan)
    → Runs s
    → let (raised, t) = finish_app e s in Ended e raised (record t { app_queue = queue })
unfolding finish_app wait_result
finish_app-Ended none queue s r = record {
  startup = refl;
  shutdown = refl;
  ends = (refl, r.supported, r.logs);
}
finish_app-Ended (some e) queue s r = record {
  startup = refl;
  shutdown = refl;
  ends = raised-EndsAs e (reraised e) queue s refl r;
}

run-Told : (app : App) (queue : List Request) (s : Lifespan) → Runs s → Told (run app queue s)
unfolding run
run-Told (finishes e) queue s r = finish_app-Ended e queue s r
run-Told (sends m go_on) queue s r =
    let (e, t) = asgi_send m s in run-Told (go_on e) queue t (asgi_send-Runs m s r)
run-Told (receives go_on) [] s r = record {
  startup = r.startup;
  shutdown = r.shutdown;
  supported = r.supported;
  logs = r.logs;
}
run-Told (receives go_on) (m ∷ queue) s r = run-Told (go_on m) queue s r

queued-Ended :
    (e raised : Option Failure) (m : Request) (s : Lifespan)
    → Ended e raised s
    → Ended e raised (record s { app_queue = s.app_queue ++ m ∷ [] })
unfolding wait_result
queued-Ended none raised m s d = record {
  startup = d.startup;
  shutdown = d.shutdown;
  ends = d.ends;
}
queued-Ended (some e) none m s d = record {
  startup = d.startup;
  shutdown = d.shutdown;
  ends = d.ends;
}
queued-Ended (some e) (some f) m s d = record {
  startup = d.startup;
  shutdown = d.shutdown;
  ends = d.ends;
}

ask-Told : (m : Request) (t : Task × Lifespan) → Told t → Told (ask m t)
unfolding ask
ask-Told m (waiting go_on, s) r = if_both Told s.supported (run-Told (go_on m) s.app_queue s r) r
ask-Told m (ended e raised, s) d =
    if_both (λ t. Ended e raised t) s.supported (queued-Ended e raised m s d) d

ask_all-Told : (ms : List Request) (t : Task × Lifespan) → Told t → Told (ask_all ms t)
unfolding ask_all
ask_all-Told [] t told = told
ask_all-Told (m ∷ ms) t told = ask_all-Told ms (ask m t) (ask-Told m t told)

-- Whatever the application does and is asked: while it runs, the event of a stage is set exactly
-- when it has sent that the stage is complete or has failed, and nothing is logged; once it has
-- ended, no wait for a stage times out, and an exception that is not raised again drops the support
-- and is logged once, by the stages that had been ended.
pub handle_lifespan-Told :
    (app : App) (asked : List Request) → Told (ask_all asked (handle_lifespan app init))
unfolding handle_lifespan any_sent
handle_lifespan-Told app asked = ask_all-Told asked (run app [] init) (
    run-Told app [] init
      (record { startup = refl; shutdown = refl; supported = refl; logs = refl }))
