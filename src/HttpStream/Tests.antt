-- ===== src/HttpStream/Tests.antt =====
-- Runs of protocol/http_stream.py on a small request.
use hypercorn.Prelude.{◌≡◌, refl, inr, true, false, none, some, List, All, ◌⊎◌, [], ◌∷◌}
use hypercorn.Prelude.Bytes.{Headers, ascii, bytes_eq, lower}
use hypercorn.Events.{Event}
use hypercorn.Asgi.{Config, TextCalls, Scope, ResponseStart}
use hypercorn.HttpStream.{
  takes_all, Refuses, HttpStream, init, trailers_versions, handle_event, handle_request, partition,
  is_ascii, handle, request, response_start, response_body, response_trailers,
}
use hypercorn.Exec.{ok, err, attribute_error, local_protocol_error}
use hypercorn.HttpStream.Refused.{tried, refused_left_open}
use hypercorn.Utils.{str_in, valid_server_name, build_and_validate_headers, suppress_body}
use hypercorn.HttpStream.Sending.{
  accepts_trailers, app_send, dispatch, start_response, send_body, app_finished,
}
use hypercorn.HttpStream.Phases.{Phase, waiting, done, At, phase_after}
use hypercorn.HttpStream.Order.{
  IsLater, Input, receives, sends, serve, opened, response_in_order, finish_closes_stream,
}
use hypercorn.HttpStream.Finish.{receive_all}
use hypercorn.HttpStream.TrailersFirst.{trailers_first_breaks_order}

abbrev calls : TextCalls
calls = record { decode = λ b. some "localhost"; unquote = λ b. "/path" }

abbrev config : Config
config = record {
  server_names = "localhost" ∷ [];
  root_path = "";
  websocket_max_message_size = 10;
  websocket_ping_interval = none;
}

abbrev hosts : Headers
hosts = (ascii "host", ascii "localhost") ∷ []

abbrev fresh : HttpStream
fresh = opened takes_all calls config true 1 hosts "1.1" "GET" (ascii "/path?q") 0

-- A body of the client, then a response of which a part is sent.
abbrev inputs : List Input
inputs =
    receives (Event.body 1 (5 ∷ []))
    ∷ sends (response_start (record { status = 200; headers = []; trailers = false }))
    ∷ sends (response_body (6 ∷ []) true)
    ∷ []

abbrev partial : HttpStream
partial = serve takes_all calls fresh inputs

plain : (accepts_trailers hosts ≡ true) ⊎ (str_in "1.1" trailers_versions ≡ false)
unfolding str_in
plain = inr refl

later : All IsLater inputs
later = (refl, (tt, (tt, tt)))

partial_open : partial.is_closed ≡ false
unfolding serve handle handle_event handle_request init app_send dispatch start_response send_body
    is_ascii partition valid_server_name bytes_eq lower build_and_validate_headers suppress_body
partial_open = refl

response_in_order_example :
    (p : Phase) × At p
      (receive_all takes_all calls
        (app_finished takes_all partial).1
        (Event.stream_closed 1 ∷ [])).trace
response_in_order_example =
    response_in_order takes_all (λ es e. refl) calls config true 1 hosts "1.1" "GET"
      (ascii "/path?q") 0 plain inputs later (Event.stream_closed 1 ∷ []) (refl, tt)

finish_closes_stream_example : At done (app_finished takes_all partial).1.trace
finish_closes_stream_example =
    finish_closes_stream takes_all (λ es e. refl) calls config true 1 hosts "1.1" "GET"
      (ascii "/path?q") 0 plain inputs later partial_open

-- A request of HTTP/2, for which a trailers message comes first.
abbrev scope : Scope
scope = record {
  http_version = "2";
  method = "GET";
  scheme = "https";
  path = "/path";
  raw_path = ascii "/path";
  query_string = ascii "q";
  root_path = "";
  headers = hosts;
  state = 0;
  extensions = "http.response.trailers" ∷ "http.response.push" ∷ "http.response.early_hint" ∷ [];
  subprotocols = [];
}

abbrev second : HttpStream
second = opened takes_all calls config true 1 hosts "2" "GET" (ascii "/path?q") 0

second_scope : second.scope ≡ some scope
unfolding handle handle_event handle_request init is_ascii partition valid_server_name bytes_eq
    lower
second_scope = refl

second_new : (second.state ≡ request) × (second.response_of ≡ none) × At waiting second.trace
unfolding handle handle_event handle_request init is_ascii partition valid_server_name bytes_eq
    lower phase_after
second_new = (refl, refl, refl)

second_version : (str_in "2" trailers_versions ≡ true) × (accepts_trailers hosts ≡ false)
unfolding str_in accepts_trailers bytes_eq
second_version = (refl, refl)

trailers_first_breaks_order_example :
    ((app_send takes_all (response_trailers [] false) second).0 ≡ err attribute_error)
    × (phase_after (some waiting) (app_send takes_all (response_trailers [] false) second).1.trace
        ≡ none)
trailers_first_breaks_order_example =
    trailers_first_breaks_order takes_all second scope [] second_new.0 second_scope second_new.1
      second_version.0 second_version.1 second_new.2 refl

-- A protocol that refuses every response, as h11 does for the status 101.
abbrev refuses_responses : Refuses
refuses_responses es (Event.response i headers status) = some local_protocol_error
refuses_responses es e = none

abbrev switching : ResponseStart
switching = record { status = 101; headers = []; trailers = false }

second_open : second.is_closed ≡ false
unfolding handle handle_event handle_request init is_ascii partition valid_server_name bytes_eq
    lower
second_open = refl

no_headers : build_and_validate_headers [] ≡ ok []
unfolding build_and_validate_headers
no_headers = refl

refused_left_open_example :
    (app_send refuses_responses (response_start switching) second
      ≡ (err local_protocol_error, tried switching second))
    × (app_finished refuses_responses (tried switching second)
        ≡ (err local_protocol_error, tried switching second))
refused_left_open_example =
    refused_left_open refuses_responses local_protocol_error switching second scope []
      (λ headers status. refl) second_new.0 second_open second_scope no_headers
