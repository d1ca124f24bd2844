-- ===== src/H11/Tests.antt =====
-- Runs of protocol/h11.py on a small h11.
use hypercorn.Prelude.{
  ◌≡◌, ◌≢◌, refl, ℕ, true, false, Option, some, List, [], ◌∷◌, ◌++◌, String, All,
}
use hypercorn.Prelude.Bytes.{Bytes, Headers, ascii}
use hypercorn.Events.{Event}
use hypercorn.Exec.{ok}
use hypercorn.Wire.{raw_data, shut, updated}
use hypercorn.H11.Upgrade.{wants_websocket, wants_h2c}
use hypercorn.H11.Connection.{passing}
use hypercorn.H11.Protocol.{H11Config, Effect, sent, opened, gave, init}
use hypercorn.H11.Reading.{goes_on, handle, resume}
use hypercorn.H11.Lifetime.{given, open_after}
use hypercorn.H11.OneByOne.{Input, told, acts, serve, streams_one_by_one}
use hypercorn.H11.Ending.{reading_ends}
use hypercorn.H11.PassThrough.{receives, asks, received, pass_all, kept, pass_all-received}
use hypercorn.H11.Upgrades.{IsBodiless, h2c_request_plain}
use hypercorn.H11.Toy.{toy, counting, asking, toy_states, toy_events}

abbrev config : H11Config
config = record { response_headers = []; keep_alive_max_requests = 1; pass_raw_headers = false }

abbrev decode : Bytes → Option String
decode b = some "GET"

abbrev websocket_headers : Headers
websocket_headers =
    (ascii "Upgrade", ascii "WebSocket") ∷ (ascii "Connection", ascii "keep-alive, Upgrade") ∷ []

abbrev h2c_headers : Headers
h2c_headers = (ascii "upgrade", ascii " H2C ") ∷ []

websocket_wanted : wants_websocket (asking websocket_headers) ≡ ok true
unfolding wants_websocket
websocket_wanted = refl

h2c_wanted : wants_h2c (asking h2c_headers) ≡ true
unfolding wants_h2c
h2c_wanted = refl

-- Two requests, of which the first has a body of one byte, each closed by its stream.
abbrev inputs : List (Input ℕ)
inputs =
    told (raw_data (1 ∷ 2 ∷ []))
    ∷ acts (λ n. n) (Event.stream_closed 1 ∷ [])
    ∷ told (raw_data (3 ∷ []))
    ∷ told shut
    ∷ []

abbrev opens : List Effect → List Effect
opens [] = []
opens (opened w ∷ es) = opened w ∷ opens es
opens (gave (Event.stream_closed i) ∷ es) = gave (Event.stream_closed i) ∷ opens es
opens (sent (updated idle) ∷ es) = sent (updated idle) ∷ opens es
opens (e ∷ es) = opens es

inputs_served :
    opens (serve (toy []) counting decode (init (toy []) config 0) inputs).trace
    ≡ sent (updated false)
      ∷ opened false
      ∷ gave (Event.stream_closed 1)
      ∷ sent (updated true)
      ∷ sent (updated false)
      ∷ opened false
      ∷ gave (Event.stream_closed 1)
      ∷ []
unfolding serve init handle resume
inputs_served = refl

streams_one_by_one_example :
    open_after (some false) (serve (toy []) counting decode (init (toy []) config 0) inputs).trace
    ≡ some (given (serve (toy []) counting decode (init (toy []) config 0) inputs).stream)
streams_one_by_one_example =
    streams_one_by_one (toy []) counting (toy_states []) decode config 0 inputs

reading_ends_example :
    ((handle (toy []) counting decode (raw_data (1 ∷ 2 ∷ [])) (init (toy []) config 0)).0
      ≢ ok goes_on)
    × ((resume (toy []) counting decode (init (toy []) config 0)).0 ≢ ok goes_on)
reading_ends_example =
    reading_ends (toy []) counting (toy_events []) decode (init (toy []) config 0)
      (raw_data (1 ∷ 2 ∷ []))

pass_all-received_example :
    let (out, after) =
      pass_all
        (toy [])
        (receives (7 ∷ []) ∷ asks ∷ receives (8 ∷ []) ∷ [])
        (passing (6 ∷ []) ([], true)) in
    out ++ kept after ≡ (6 ∷ []) ++ received (receives (7 ∷ []) ∷ asks ∷ receives (8 ∷ []) ∷ [])
pass_all-received_example =
    pass_all-received (toy []) (receives (7 ∷ []) ∷ asks ∷ receives (8 ∷ []) ∷ []) (6 ∷ [])
      ([], true)

h2c_request_plain_example :
    All IsBodiless (asking h2c_headers).headers × (wants_websocket (asking h2c_headers) ≡ ok false)
h2c_request_plain_example = h2c_request_plain (asking h2c_headers) h2c_wanted
