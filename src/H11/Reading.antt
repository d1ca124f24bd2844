-- ===== src/H11/Reading.antt =====
-- protocol/h11.py, H11Protocol: what it does with the client's data, `handle` and `_handle_events`.
-- A stream sends its events when its handler ends; the loop stops where it waits for `can_read`,
-- and `resume` goes on once that is set.
use hypercorn.Prelude.{
  ℕ, zero, suc, ◌+◌, Bool, true, false, ◌&&◌, Option, none, some, List, [], ◌∷◌, ◌++◌, String,
  if◌then◌else◌,
}
use hypercorn.Prelude.Bytes.{Bytes, Headers, ascii}
use hypercorn.Events.{Event}
use hypercorn.Exec.{
  Error, unicode_error, h2_protocol_assumed, h2c_protocol_required, Exec, ◌>>=◌, ◌>>◌, pure, raise,
  lift, or_raise,
}
use hypercorn.Wire.{WireEvent, shut, updated, raw_data}
use hypercorn.Streams.{Streams, Answer}
use hypercorn.H11.Package.{
  H11, Request, Sendable, Received, request, data_received, message_end, connection_closed,
  need_data, paused, remote_error,
}
use hypercorn.H11.Upgrade.{
  wants_websocket, wants_h2c, is_h2_preface, h2c_request, upper_method, Upgraded,
}
use hypercorn.H11.Connection.{
  receive_data, next_event, Next, parsed, passed, our_state, trailing_data, waits_for_100,
  pass_through, events_left,
}
use hypercorn.H11.Protocol.{
  H11Protocol, H11Config, Run, emit, sent, opened, gave, marked, set_connection, set_stream,
  stream_id, send_h11_event, send_error_response, close_stream, stream_send, may_respond,
}

-- How a turn of the loop, or the loop, ends.
pub data Ending : Type 0 where
  goes_on leaves waits : Ending

abbrev pub h2c_headers : Headers
h2c_headers = (ascii "connection", ascii "upgrade") ∷ (ascii "upgrade", ascii "h2c") ∷ []

abbrev pub h2_preface : Bytes
h2_preface = ascii "PRI * HTTP/2.0" ++ 13 ∷ 10 ∷ 13 ∷ 10 ∷ []

-- `decode` is bytes.decode(): `none` is the UnicodeDecodeError.
module _ {C T : Type 0} (h : H11 C) (streams : Streams T) (decode : Bytes → Option String) where
  unfoldable pub send_all : List Event → Run C T
  unfolding stream_send
  send_all [] = pure tt
  send_all (e ∷ es) = do stream_send h streams e; send_all es

  abbrev pub after_answer : Answer T → Run C T
  after_answer a = do set_stream (some a.stream); send_all a.sends; lift a.result

  -- `self.stream.handle(event)`.
  unfoldable pub give_to : Event → T → Run C T
  unfolding send_all
  give_to e t = do emit (gave e); after_answer (streams.handle t e)

  abbrev pub give : Event → Option T → Run C T
  give e none = pure tt
  give e (some t) = give_to e t

  abbrev pub open_stream : Bool → Run C T
  open_stream true s =
      (do
        emit (opened true)
        set_stream (some (streams.new_websocket stream_id))
        set_connection (pass_through h s.connection))
        s
  open_stream false s = (do emit (opened false); set_stream (some (streams.new_http stream_id))) s

  abbrev pub request_headers : H11Config → Request → Headers
  request_headers config r = if config.pass_raw_headers then r.raw_items else r.headers

  abbrev pub count_request : Run C T
  count_request = do
    λ s. pure tt (record s { keep_alive_requests = s.keep_alive_requests + 1 })
    emit marked

  -- The Request that the new stream is given, its texts decoded.
  abbrev pub give_decoded : Request → String → String → Run C T
  give_decoded r version method s =
      let headers = request_headers s.config r in
      give (Event.request stream_id headers version method r.target s.connection_state) s.stream s

  abbrev pub give_request : Request → Run C T
  give_request r = do
    version ← or_raise unicode_error (decode r.http_version)
    method_bytes ← lift (upper_method r.method)
    method ← or_raise unicode_error (decode method_bytes)
    give_decoded r version method

  unfoldable pub create_stream : Request → Run C T
  unfolding wants_websocket give_to upper_method
  create_stream r = do
    is_websocket ← lift (wants_websocket r)
    open_stream is_websocket
    give_request r
    count_request

  abbrev pub h2c_required : Bytes → Upgraded → Error
  h2c_required d (headers, settings) = h2c_protocol_required d headers settings

  unfoldable pub check_protocol : Request → Run C T
  unfolding wants_h2c send_h11_event is_h2_preface h2c_request
  check_protocol r s =
      if wants_h2c r
      then (do
        send_h11_event h streams
            (Sendable.informational 101 (s.config.response_headers ++ h2c_headers))
        λ t. raise (h2c_required (trailing_data h t.connection) (h2c_request r)) t)
          s
      else if is_h2_preface r
      then raise (h2_protocol_assumed (h2_preface ++ trailing_data h s.connection)) s
      else pure tt s

  abbrev pub then_goes_on : Run C T → Exec (H11Protocol C T) Ending
  then_goes_on run = do run; pure goes_on

  -- `elif self.stream is None: break`.
  abbrev pub give_or_leave : Event → Option T → Exec (H11Protocol C T) Ending
  give_or_leave e none = pure leaves
  give_or_leave e (some t) = then_goes_on (give_to e t)

  unfoldable pub take_request : Request → Run C T
  unfolding check_protocol create_stream
  take_request r = do emit (sent (updated false)); check_protocol r; create_stream r

  abbrev pub reject : ℕ → Run C T
  reject status s =
      (do
        if may_respond (our_state h s.connection)
            then send_error_response h streams status
            else pure tt
        emit (sent shut))
        s

  -- The chain of conditions on the event.
  unfoldable pub take_event : Received → Exec (H11Protocol C T) Ending
  unfolding take_request send_error_response give_to
  take_event (request r) s = then_goes_on (take_request r) s
  take_event (data_received d) s = give_or_leave (Event.body stream_id d) s.stream s
  take_event message_end s = give_or_leave (Event.end_body stream_id) s.stream s
  take_event connection_closed s = pure leaves s
  take_event need_data s = pure leaves s
  take_event paused s = pure waits (record s { can_read = false; is_waiting = true })
  take_event (remote_error status) s = (do reject status; pure leaves) s

  abbrev pub take_next : Next C → Exec (H11Protocol C T) Ending
  take_next (parsed e connection) s = take_event e (record s { connection = connection })
  take_next (passed d connection) s =
      give_or_leave (Event.ws_data stream_id d) s.stream (record s { connection = connection })

  abbrev pub answer_100 : Run C T
  answer_100 s =
      if waits_for_100 h s.connection
      then send_h11_event h streams (Sendable.informational 100 s.config.response_headers) s
      else pure tt s

  -- One turn of the loop.
  unfoldable pub turn : Exec (H11Protocol C T) Ending
  unfolding take_event send_h11_event next_event
  turn = do answer_100; λ s. take_next (next_event h s.connection) s

  abbrev pub after_turn : Exec (H11Protocol C T) Ending → Ending → Exec (H11Protocol C T) Ending
  after_turn again goes_on = again
  after_turn again leaves = pure leaves
  after_turn again waits = pure waits

  -- The loop, on fuel: `goes_on` is the result when the fuel is used up.
  unfoldable pub read_loop : ℕ → Exec (H11Protocol C T) Ending
  unfolding turn
  read_loop zero = pure goes_on
  read_loop (suc n) = do ending ← turn; after_turn (read_loop n) ending

  unfoldable pub handle_events : Exec (H11Protocol C T) Ending
  unfolding read_loop
  handle_events s = read_loop (suc (events_left h s.connection)) s

  unfoldable pub handle : WireEvent → Exec (H11Protocol C T) Ending
  unfolding handle_events receive_data close_stream
  handle (raw_data d) s = handle_events (record s { connection = receive_data h s.connection d })
  handle shut s = (do close_stream h streams; pure leaves) s
  handle (updated idle) s = pure leaves s

  -- The loop goes on after its wait.
  unfoldable pub resume : Exec (H11Protocol C T) Ending
  unfolding handle_events
  resume s =
      if s.is_waiting && s.can_read
      then handle_events (record s { is_waiting = false })
      else pure leaves s
