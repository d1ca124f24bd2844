-- ===== src/H2/Tests.antt =====
-- Runs of protocol/h2.py on a small h2.
use hypercorn.Prelude.{ℕ, ◌≡◌, refl, true, false, Option, none, some, List, [], ◌∷◌, String}
use hypercorn.Prelude.Bytes.{Bytes, ascii}
use hypercorn.Events.{Event}
use hypercorn.Exec.{ok}
use hypercorn.Wire.{raw_data, shut, updated}
use hypercorn.H2Send.Scheduler.{lookup, store}
use hypercorn.H2.Small.{small, calls, queue_counting}
use hypercorn.H2.Tables.{find}
use hypercorn.H2.Protocol.{H2Config, Effect, sent, opened, gave, init, decimal, stream_send}
use hypercorn.H2.Reading.{handle}
use hypercorn.H2.Lifetime.{given, open_after, TableOk}
use hypercorn.H2.Registry.{Input, told, sends, serve, table_holds_open}
use hypercorn.H2.Closing.{closing_closes_all}

abbrev decode : Bytes → Option String
decode b = some "GET"

abbrev config : H2Config
config = record { response_headers = []; keep_alive_max_requests = 5 }

abbrev inputs : List (Input ℕ ℕ ℕ)
inputs = told (raw_data (3 ∷ [])) ∷ sends (Event.stream_closed 3) ∷ told (raw_data (5 ∷ [])) ∷ []

abbrev lives : List Effect → List Effect
lives [] = []
lives (opened i w ∷ es) = opened i w ∷ lives es
lives (gave i (Event.body j d) ∷ es) = gave i (Event.body j d) ∷ lives es
lives (gave i (Event.stream_closed j) ∷ es) = gave i (Event.stream_closed j) ∷ lives es
lives (sent w ∷ es) = sent w ∷ lives es
lives (e ∷ es) = lives es

inputs_served :
    lives (serve small calls queue_counting decode (init config 0 0 0) inputs).trace
    ≡ opened 3 false
      ∷ sent (updated false)
      ∷ gave 3 (Event.body 3 [])
      ∷ gave 3 (Event.stream_closed 3)
      ∷ sent (updated true)
      ∷ opened 5 false
      ∷ sent (updated false)
      ∷ gave 5 (Event.body 5 [])
      ∷ []
unfolding serve init handle stream_send lookup store
inputs_served = refl

status_written : decimal 201 200 ≡ ascii "200"
unfolding decimal
status_written = refl

table_holds_open_example :
    open_after 5
      (some false)
      (serve small calls queue_counting decode (init config 0 0 0) inputs).trace
    ≡ some (
        given (find 5 (serve small calls queue_counting decode (init config 0 0 0) inputs).streams))
table_holds_open_example = table_holds_open small calls queue_counting decode config 0 0 0 inputs 5

served-TableOk : TableOk (serve small calls queue_counting decode (init config 0 0 0) inputs)
served-TableOk = table_holds_open small calls queue_counting decode config 0 0 0 inputs

closing_closes_all_example :
    let (r, after) =
      handle small calls queue_counting decode shut
        (serve small calls queue_counting decode (init config 0 0 0) inputs) in
    (r ≡ ok tt)
    × (find 5 after.streams ≡ none)
    × (open_after 5 (some false) after.trace ≡ some false)
closing_closes_all_example =
    closing_closes_all small calls queue_counting decode (λ t i. refl)
      (serve small calls queue_counting decode (init config 0 0 0) inputs) 5 served-TableOk
