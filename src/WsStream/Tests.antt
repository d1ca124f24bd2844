-- ===== src/WsStream/Tests.antt =====
-- Runs of protocol/ws_stream.py on small inputs, with a wsproto whose data are messages as they are.
use hypercorn.Prelude.{
  ◌≡◌, refl, true, false, Option, none, some, List, [], ◌∷◌, ◌++◌, All, length, join,
}
use hypercorn.Prelude.Bytes.{Headers, ascii, bytes_eq, lower}
use hypercorn.Events.{Event}
use hypercorn.Exec.{ok, err, invalid_subprotocol, attribute_error}
use hypercorn.Utils.{valid_server_name}
use hypercorn.Asgi.{Config, TextCalls, Effect, put, websocket_connect, websocket_receive}
use hypercorn.HttpStream.{partition, is_ascii}
use hypercorn.WsStream.Wsproto.{Wsproto, WsEvent, bytes_message}
use hypercorn.WsStream.Handshake.{
  Handshake, blank, accept, offers, subprotocol_header, checked_headers, read_headers, is_valid,
}
use hypercorn.WsStream.Buffer.{create}
use hypercorn.WsStream.Assembly.{Arrives, bytes_kind, extend_all, fragments-Arrives}
use hypercorn.WsStream.Accepting.{AcceptOk, accept-AcceptOk}
use hypercorn.WsStream.Stream.{WsStream, init, handshaking, accept_message, app_send, app_finished}
use hypercorn.WsStream.Incoming.{handle}
use hypercorn.WsStream.Limits.{Input, receives, sends, serve, message_sizes}
use hypercorn.WsStream.Sizes.{Fits}
use hypercorn.WsStream.FailedAccept.{failed_accept_left_open}

abbrev next_of : List WsEvent → Option (WsEvent × List WsEvent)
next_of [] = none
next_of (e ∷ es) = some (e, es)

-- A connection is the list of the events that have not been taken.
abbrev plain : Wsproto (List WsEvent)
plain = record {
  split_comma_header = λ value. some (value ∷ []);
  accept_extensions = λ extensions. none;
  accept_token = λ key. key;
  new_connection = λ extensions. [];
  receive_data = λ c d. some (c ++ bytes_message d true ∷ []);
  next_event = next_of;
  events_left = length;
  send = λ c e. some (1 ∷ [], c);
  is_remote_closing = λ c. false;
}

abbrev calls : TextCalls
calls = record { decode = λ b. some "localhost"; unquote = λ b. "/chat" }

abbrev config : Config
config = record {
  server_names = [];
  root_path = "";
  websocket_max_message_size = 3;
  websocket_ping_interval = none;
}

-- A client that offers the subprotocol chat.
abbrev offering : Handshake
offering = record (blank "2") {
  subprotocols = some (ascii "chat" ∷ []);
  version = some (ascii "13");
}

offering_accepted :
    accept plain offering (some (ascii "chat")) []
    ≡ ok (200, (ascii "sec-websocket-protocol", ascii "chat") ∷ [], [])
unfolding accept subprotocol_header offers bytes_eq checked_headers
offering_accepted = refl

offering_refused : accept plain offering (some (ascii "mail")) [] ≡ err invalid_subprotocol
unfolding accept subprotocol_header offers bytes_eq checked_headers
offering_refused = refl

-- A header of the application tells the client of a subprotocol that it has not offered.
capitals_accepted :
    accept plain offering none ((ascii "Sec-WebSocket-Protocol", ascii "mail") ∷ [])
    ≡ ok (200, (ascii "Sec-WebSocket-Protocol", ascii "mail") ∷ [], [])
unfolding accept subprotocol_header bytes_eq checked_headers
capitals_accepted = refl

accept-AcceptOk_example :
    AcceptOk offering (some (ascii "chat")) [] (accept plain offering (some (ascii "chat")) [])
accept-AcceptOk_example = accept-AcceptOk plain offering (some (ascii "chat")) []

fragments-Arrives_example :
    Arrives 3 bytes_kind
      (join ((5 ∷ 6 ∷ []) ∷ (7 ∷ []) ∷ []))
      (extend_all bytes_kind ((5 ∷ 6 ∷ []) ∷ (7 ∷ []) ∷ []) (create 3))
fragments-Arrives_example = fragments-Arrives 3 bytes_kind (5 ∷ 6 ∷ []) ((7 ∷ []) ∷ [])

abbrev handshake_headers : Headers
handshake_headers =
    (ascii "sec-websocket-version", ascii "13")
    ∷ (ascii "sec-websocket-protocol", ascii "chat")
    ∷ []

-- A request, its acceptance, a message within the limit and one beyond it.
abbrev inputs : List Input
inputs =
    receives (Event.request 1 handshake_headers "2" "CONNECT" (ascii "/chat") 0)
    ∷ sends (accept_message (some (ascii "chat")) [])
    ∷ receives (Event.ws_data 1 (5 ∷ 6 ∷ []))
    ∷ receives (Event.ws_data 1 (5 ∷ 6 ∷ 7 ∷ 8 ∷ []))
    ∷ []

-- What the application is put.
abbrev puts : List Effect → List Effect
puts [] = []
puts (put m ∷ es) = put m ∷ puts es
puts (e ∷ es) = puts es

message_sizes_example : All (Fits 3) (serve plain calls (init config true 1) inputs).trace
message_sizes_example = message_sizes plain calls config true 1 inputs

-- A stream whose handshake is at hand.
abbrev asked : WsStream (List WsEvent)
asked = record (init config true 1) { handshake = some offering; start_time = true }

asked_new : (asked.is_closed ≡ false) × (asked.state ≡ handshaking) × (asked.connection ≡ none)
unfolding init
asked_new = (refl, refl, refl)

failed_accept_left_open_example :
    ((app_send plain (accept_message (some (ascii "mail")) []) asked).0 ≡ err invalid_subprotocol)
    × ((app_finished plain (app_send plain (accept_message (some (ascii "mail")) []) asked).1).0
        ≡ err attribute_error)
    × ((app_finished plain
          (app_send plain (accept_message (some (ascii "mail")) []) asked).1).1.trace
        ≡ asked.trace)
failed_accept_left_open_example =
    failed_accept_left_open plain asked offering (some (ascii "mail")) [] invalid_subprotocol
      asked_new.0 asked_new.1 refl asked_new.2 offering_refused

-- Only the first of the two messages arrives.
inputs_received :
    puts (serve plain calls (init config true 1) inputs).trace
    ≡ put websocket_connect ∷ put (websocket_receive (some (5 ∷ 6 ∷ [])) none) ∷ []
unfolding serve handle app_send init read_headers bytes_eq lower is_ascii partition
    valid_server_name is_valid
inputs_received = refl
