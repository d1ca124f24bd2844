-- ===== src/H11/Protocol.antt =====
-- protocol/h11.py, H11Protocol: its state and what it sends. `stream_send` takes the events of the
-- stream. What the protocol does is appended to `trace`.
use hypercorn.Prelude.{
  ℕ, Bool, true, false, not, ◌&&◌, Option, none, some, List, [], ◌∷◌, ◌++◌, leb, if◌then◌else◌,
}
use hypercorn.Prelude.Bytes.{Bytes, Headers, ascii}
use hypercorn.Events.{Event, ConnectionState}
use hypercorn.Exec.{local_protocol_error, Exec, ◌>>◌, pure, raise}
use hypercorn.Wire.{WireEvent, raw_data, shut, updated}
use hypercorn.Streams.{Streams}
use hypercorn.H11.Package.{H11, Side, Sendable, idle, send_response, done, failed}
use hypercorn.H11.Connection.{Connection, parsing, send, start_next_cycle, our_state, their_state}

abbrev pub stream_id : ℕ
stream_id = 1

-- `response_headers` is config.response_headers("h11") with the date that it had.
pub record H11Config : Type 0 where
  pub response_headers : Headers
  pub keep_alive_max_requests : ℕ
  pub pass_raw_headers : Bool

-- What the protocol does: it sends an event to the server, makes a stream (a WebSocket or not),
-- gives it an event, or counts a request for the worker.
pub data Effect : Type 0 where
  sent : WireEvent → Effect
  opened : Bool → Effect
  gave : Event → Effect
  marked : Effect

-- `is_waiting`: the loop of `_handle_events` waits for `can_read`.
pub record H11Protocol (C T : Type 0) : Type 0 where
  pub config : H11Config
  pub can_read : Bool
  pub is_waiting : Bool
  pub connection : Connection C
  pub connection_state : ConnectionState
  pub keep_alive_requests : ℕ
  pub stream : Option T
  pub terminated : Bool
  pub trace : List Effect

unfoldable pub init : {C T : Type 0} → H11 C → H11Config → ConnectionState → H11Protocol C T
init h config connection_state = record {
  config = config;
  can_read = false;
  is_waiting = false;
  connection = parsing h.new;
  connection_state = connection_state;
  keep_alive_requests = 0;
  stream = none;
  terminated = false;
  trace = [];
}

abbrev pub close_header : Headers
close_header = (ascii "connection", ascii "close") ∷ []

abbrev pub empty_headers : Headers
empty_headers = (ascii "content-length", ascii "0") ∷ (ascii "connection", ascii "close") ∷ []

abbrev pub is_failed : Option Side → Bool
is_failed (some failed) = true
is_failed state = false

abbrev pub is_done : Option Side → Bool
is_done (some done) = true
is_done state = false

-- The client still expects a response.
abbrev pub may_respond : Option Side → Bool
may_respond (some idle) = true
may_respond (some send_response) = true
may_respond state = false

abbrev pub Run : Type 0 → Type 0 → Type 0
Run C T = Exec (H11Protocol C T) Unit

module _ {C T : Type 0} where
  abbrev pub emit : Effect → Run C T
  emit e s = pure tt (record s { trace = s.trace ++ e ∷ [] })

  abbrev pub set_can_read : Bool → Run C T
  set_can_read can s = pure tt (record s { can_read = can })

  abbrev pub set_connection : Connection C → Run C T
  set_connection connection s = pure tt (record s { connection = connection })

  abbrev pub set_stream : Option T → Run C T
  set_stream stream s = pure tt (record s { stream = stream })

module _ {C T : Type 0} (h : H11 C) (streams : Streams T) where
  -- A LocalProtocolError is passed over when the client has broken the protocol.
  abbrev pub transmit : Option Bytes → Run C T
  transmit (some d) s = emit (sent (raw_data d)) s
  transmit none s =
      if is_failed (their_state h s.connection) then pure tt s else raise local_protocol_error s

  unfoldable pub send_h11_event : Sendable → Run C T
  unfolding send
  send_h11_event e s =
      let (d, connection) = send h s.connection e in
      transmit d (record s { connection = connection })

  unfoldable pub send_error_response : ℕ → Run C T
  unfolding send_h11_event
  send_error_response status s =
      (do
        send_h11_event (Sendable.response status (empty_headers ++ s.config.response_headers))
        send_h11_event Sendable.end_of_message)
        s

  abbrev pub close_given : Option T → Run C T
  close_given none = pure tt
  close_given (some t) = do
    emit (gave (Event.stream_closed stream_id))
    set_stream (some (streams.close t))
    set_stream none

  unfoldable pub close_stream : Run C T
  close_stream s = close_given s.stream s

  abbrev pub restart : Option (Connection C) → Run C T
  restart none = emit (sent shut)
  restart (some connection) = do
    set_connection connection
    emit (sent (updated true))
    set_can_read true

  abbrev pub can_recycle : H11Protocol C T → Bool
  can_recycle s =
      not s.terminated && is_done (our_state h s.connection) && is_done (their_state h s.connection)

  abbrev pub recycle_or_close : Run C T
  recycle_or_close s =
      if can_recycle s
      then restart (start_next_cycle h s.connection) s
      else (do set_can_read true; emit (sent shut)) s

  unfoldable pub maybe_recycle : Run C T
  unfolding close_stream start_next_cycle
  maybe_recycle = do close_stream; recycle_or_close

  -- The headers that end the connection, from the limit of requests on.
  abbrev pub limit_headers : H11Protocol C T → Headers
  limit_headers s =
      if leb s.config.keep_alive_max_requests s.keep_alive_requests then close_header else []

  abbrev pub send_head : Headers → ℕ → Run C T
  send_head headers status s =
      let all_headers = headers ++ s.config.response_headers in
      if leb 200 status
      then send_h11_event (Sendable.response status (all_headers ++ limit_headers s)) s
      else send_h11_event (Sendable.informational status all_headers) s

  unfoldable pub stream_send : Event → Run C T
  unfolding send_h11_event maybe_recycle
  stream_send (Event.response i headers status) = send_head headers status
  stream_send (Event.informational_response i headers status) = pure tt
  stream_send (Event.body i d) = send_h11_event (Sendable.data_event d)
  stream_send (Event.end_body i) = send_h11_event Sendable.end_of_message
  stream_send (Event.ws_data i d) = emit (sent (raw_data d))
  stream_send (Event.end_data i) = pure tt
  stream_send (Event.stream_closed i) = maybe_recycle
  stream_send e = pure tt
