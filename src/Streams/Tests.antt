-- ===== src/Streams/Tests.antt =====
-- A run of the streams of a protocol.
use hypercorn.Prelude.{◌≡◌, true, false, none, some, []}
use hypercorn.Events.{Event}
use hypercorn.Exec.{ok}
use hypercorn.Asgi.{Config, TextCalls}
use hypercorn.HttpStream.{HttpStream, init, takes_all}
use hypercorn.WsStream.Wsproto.{Wsproto}
use hypercorn.Streams.Actual.{http, answer, close, closing_is_quiet}

-- A wsproto that finds nothing.
abbrev silent : Wsproto (Unit {0})
silent = record {
  split_comma_header = λ value. none;
  accept_extensions = λ extensions. none;
  accept_token = λ key. key;
  new_connection = λ extensions. tt;
  receive_data = λ c d. some c;
  next_event = λ c. none;
  events_left = λ c. 0;
  send = λ c e. none;
  is_remote_closing = λ c. false;
}

abbrev calls : TextCalls
calls = record { decode = λ b. some "localhost"; unquote = λ b. "/" }

abbrev config : Config
config = record {
  server_names = [];
  root_path = "";
  websocket_max_message_size = 3;
  websocket_ping_interval = none;
}

-- A stream whose application runs.
abbrev running : HttpStream
running = record (init config false 1) { app_put = true; start_time = true }

closing_is_quiet_example :
    let a = answer takes_all silent calls config false (http running) (Event.stream_closed 1) in
    (a.result ≡ ok tt)
    × (a.sends ≡ [])
    × (a.stream ≡ close takes_all silent calls config false (http running))
closing_is_quiet_example = closing_is_quiet takes_all silent calls config false (http running) 1
