-- ===== src/Wsgi/Tests.antt =====
-- Runs of app_wrappers.py on small inputs.
use hypercorn.Prelude.{◌≡◌, refl, true, false, none, some, List, [], ◌∷◌}
use hypercorn.Prelude.Bytes.{ascii}
use hypercorn.Exec.{ok, err, Exec, unexpected_message}
use hypercorn.Asgi.{Config, Scope}
use hypercorn.HttpStream.{HttpStream, init, request, takes_all}
use hypercorn.Wsgi.{
  Strings, Send, start, body, App, StartCall, yields, starts, Run, begin, start_response,
  split_status, iterate,
}
use hypercorn.Wsgi.Environ.{HttpScope, Environ, Value, path_info, lookup, add_headers}
use hypercorn.Wsgi.Service.{Incoming, http_request, handle_http, read_body}
use hypercorn.Wsgi.Order.{Answered, handle_http-Answered}
use hypercorn.Wsgi.OverHttp.{to_stream, empty_output_fails}
use hypercorn.Wsgi.Prefix.{PathOk, path_info-PathOk}
use hypercorn.Wsgi.Merging.{joined, values_of, add_headers-joined}
use hypercorn.Wsgi.Body.{ReadOk, sent_body, read_body-ReadOk}

-- Reads 200, and leaves the case of letters.
abbrev strings : Strings
strings = record { int = λ s. some 200; lower = λ s. s; upper = λ s. s }

-- A world that takes every message.
abbrev take_all : Send → Exec (Unit {0}) Unit
take_all m w = (ok tt, w)

abbrev starting : StartCall
starting = record { status = ascii "200 OK"; response_headers = []; exc_info = none }

-- An application that gives an empty output before it calls start_response.
abbrev app : Environ → App
app environ = record {
  calling = [];
  raised = none;
  iterating = yields [] ∷ starts starting false ∷ yields (ascii "hi") ∷ [];
  close = some (ok tt);
}

abbrev scope : HttpScope
scope = record {
  server = none;
  path = ascii "/app/x";
  root_path = some (ascii "/app");
  method = ascii "POST";
  query_string = [];
  http_version = ascii "1.1";
  scheme = none;
  client = none;
  headers = (ascii "accept", ascii "a") ∷ (ascii "accept", ascii "b") ∷ [];
}

abbrev incoming : List Incoming
incoming = http_request (some (1 ∷ [])) (some true) ∷ http_request (some (2 ∷ [])) none ∷ []

sent_messages :
    (handle_http strings take_all app 2 scope incoming (begin tt)).1.sends
    ≡ body [] true ∷ start (some 200) [] ∷ body (ascii "hi") true ∷ body [] false ∷ []
unfolding handle_http begin iterate start_response split_status
sent_messages = refl

refused_body :
    (handle_http strings take_all app 1 scope incoming (begin tt)).1.sends
    ≡ start (some 400) [] ∷ body [] false ∷ []
unfolding handle_http begin
refused_body = refl

handle_http-Answered_example :
    Answered (handle_http strings take_all app 2 scope incoming (begin tt))
handle_http-Answered_example = handle_http-Answered strings take_all app 2 scope incoming tt

path_info-PathOk_example :
    PathOk (ascii "/app") (ascii "/app/x") (path_info (ascii "/app") (ascii "/app/x"))
path_info-PathOk_example = path_info-PathOk (ascii "/app") (ascii "/app/x")

read_body-ReadOk_example : ReadOk 2 (sent_body incoming) (read_body 2 [] incoming)
read_body-ReadOk_example = read_body-ReadOk 2 incoming

abbrev accepted : Environ
accepted =
    (ascii "HTTP_accept", Value.text_value (ascii "a,b"))
    ∷ (ascii "HTTP_accept", Value.text_value (ascii "a"))
    ∷ []

accept_added : add_headers strings [] scope.headers ≡ ok accepted
unfolding add_headers
accept_added = refl

not_before : lookup (ascii "HTTP_accept") [] ≡ none
unfolding lookup
not_before = refl

add_headers-joined_example :
    lookup (ascii "HTTP_accept") accepted
    ≡ joined (values_of strings (ascii "HTTP_accept") scope.headers)
add_headers-joined_example =
    add_headers-joined strings (ascii "HTTP_accept") accepted [] scope.headers not_before
      accept_added

abbrev config : Config
config = record {
  server_names = [];
  root_path = "";
  websocket_max_message_size = 3;
  websocket_ping_interval = none;
}

abbrev stream_scope : Scope
stream_scope = record {
  http_version = "1.1";
  method = "GET";
  scheme = "http";
  path = "/";
  raw_path = ascii "/";
  query_string = [];
  root_path = "";
  headers = [];
  state = 0;
  extensions = [];
  subprotocols = [];
}

-- A stream that has its request.
abbrev stream : HttpStream
stream = record (init config false 1) { scope = some stream_scope; start_time = true }

stream_waits : stream.state ≡ request
unfolding init
stream_waits = refl

abbrev running : Run HttpStream
running = record {
  headers = [];
  response_started = true;
  headers_sent = false;
  status_code = some 200;
  closed = false;
  sends = [];
  world = stream;
}

empty_output_fails_example :
    (iterate strings (to_stream takes_all) (yields [] ∷ yields (ascii "hi") ∷ []) running).0
    ≡ err unexpected_message
empty_output_fails_example =
    empty_output_fails takes_all strings (yields (ascii "hi") ∷ []) running stream_scope
      stream_waits refl
