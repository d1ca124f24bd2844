-- ===== src/H2/Protocol.antt =====
-- protocol/h2.py, H2Protocol: its state, the streams that it makes and closes, and what it sends.
-- The connection is that of the sender, an H2SendScheduler. What the protocol does is appended to
-- `trace`, with the events that it hands to the queue of a stream. A method whose wait for space in a
-- queue never ends is left there, as `suspended`; where another wait stands, the model goes on.
use Prim.Native.Nat.{◌/◌, ◌%◌}
use hypercorn.Prelude.{
  ℕ, zero, suc, ◌+◌, Bool, true, false, ◌&&◌, Option, none, some, List, [], ◌∷◌, ◌++◌, String, ltb,
  is_nil, if◌then◌else◌,
}
use hypercorn.Prelude.Bytes.{Bytes, Headers, ascii, bytes_eq}
use hypercorn.Events.{Event, ConnectionState}
use hypercorn.Exec.{
  Error, key_error, protocol_error, runtime_error, name_error, unicode_error, suspended, Result, ok,
  err, Exec, ◌>>=◌, ◌>>◌, pure, raise, lift, or_raise,
}
use hypercorn.Utils.{filter_pseudo_headers, then_result}
use hypercorn.Wire.{WireEvent, raw_data, updated}
use hypercorn.Streams.{Queues}
use hypercorn.H11.Upgrade.{upper_method}
use hypercorn.H2Send.Scheduler.{H2Calls, Scheduler, close_stream as close_buffer}
use hypercorn.H2Send.Scheduler.Operations.{register_stream, buffer_data, end, send_trailers}
use hypercorn.H2.Package.{H2Package}
use hypercorn.H2.Tables.{find, assign, remove}

-- `response_headers` is config.response_headers("h2") with the date that it had.
pub record H2Config : Type 0 where
  pub response_headers : Headers
  pub keep_alive_max_requests : ℕ

-- What the protocol does: it sends an event to the server, makes a stream (a WebSocket or not),
-- puts an event into the queue of one, counts a request for the worker, or starts the sender.
pub data Effect : Type 0 where
  sent : WireEvent → Effect
  opened : ℕ → Bool → Effect
  gave : ℕ → Event → Effect
  marked : Effect
  spawned : Effect

pub record H2Protocol (C P T : Type 0) : Type 0 where
  pub config : H2Config
  pub closed : Bool
  pub terminated : Bool
  pub connection_state : ConnectionState
  pub keep_alive_requests : ℕ
  pub streams : List (ℕ × T)
  pub sender : Scheduler C P
  pub trace : List Effect

unfoldable pub init : {C P T : Type 0} → H2Config → ConnectionState → C → P → H2Protocol C P T
init config connection_state connection priority = record {
  config = config;
  closed = false;
  terminated = false;
  connection_state = connection_state;
  keep_alive_requests = 0;
  streams = [];
  sender = record {
    connection = connection;
    priority = priority;
    has_data = false;
    stream_buffers = [];
    sent = [];
    released = [];
  };
  trace = [];
}

abbrev pub Run : Type 0 → Type 0 → Type 0 → Type 0 → Type 0
Run C P T A = Exec (H2Protocol C P T) A

-- `b"%d" % n`, on fuel, of which `n + 1` is enough.
unfoldable pub decimal : ℕ → ℕ → Bytes
decimal zero n = []
decimal (suc fuel) n =
    let front = decimal fuel (n / 10) in
    if ltb n 10 then (48 + n) ∷ [] else front ++ (48 + n % 10) ∷ []

-- The variables of the loop in `_create_stream`, which are unbound until a header sets them.
pub record Asked : Type 0 where
  pub method : Option Bytes
  pub raw_path : Option Bytes

unfoldable pub asked_turn : Asked → Bytes → Bytes → Result {0} Asked
unfolding bytes_eq upper_method
asked_turn a name value =
    if bytes_eq name (ascii ":method")
    then then_result (upper_method value) (λ m. ok (record a { method = some m }))
    else if bytes_eq name (ascii ":path")
    then ok (record a { raw_path = some value })
    else ok a

unfoldable pub read_asked : Asked → Headers → Result {0} Asked
unfolding asked_turn
read_asked a [] = ok a
read_asked a ((name, value) ∷ rest) = then_result (asked_turn a name value) (λ b. read_asked b rest)

module _ {C P T : Type 0} where
  abbrev pub emit : Effect → Run C P T Unit
  emit e s = pure tt (record s { trace = s.trace ++ e ∷ [] })

  abbrev pub set_streams : List (ℕ × T) → Run C P T Unit
  set_streams streams s = pure tt (record s { streams = streams })

  -- A method of the sender.
  abbrev pub with_sender :
      {A : Type 0} → Result A × Scheduler C P → H2Protocol C P T → Result A × H2Protocol C P T
  with_sender (r, sender) s = (r, record s { sender = sender })

  abbrev pub on_sender : {A : Type 0} → Exec (Scheduler C P) A → Run C P T A
  on_sender m s = with_sender (m s.sender) s

  -- A call of the connection.
  abbrev pub set_connection : C → Run C P T Unit
  set_connection c s = pure tt (record s { sender = record s.sender { connection = c } })

  abbrev pub on_connection : (C → Option C) → Run C P T Unit
  on_connection f s = (do c ← or_raise protocol_error (f s.sender.connection); set_connection c) s

module _ {C P T : Type 0} (h2 : H2Package C P) (calls : H2Calls C P) (queues : Queues T)
    (decode : Bytes → Option String) where
  abbrev pub send_bytes : Bytes → Run C P T Unit
  send_bytes [] = pure tt
  send_bytes (b ∷ d) = emit (sent (raw_data (b ∷ d)))

  unfoldable pub flush : Run C P T Unit
  flush s =
      let (d, c) = h2.data_to_send s.sender.connection in (do set_connection c; send_bytes d) s

  -- The wait of `QueuedStream.handle`.
  abbrev pub wait_for_space : T → Event → Run C P T Unit
  wait_for_space t e s = if queues.is_stuck t e then raise suspended s else pure tt s

  abbrev pub put_found : ℕ → Event → Option T → Run C P T Unit
  put_found i e none s = raise key_error s
  put_found i e (some t) s =
      (do emit (gave i e); set_streams (assign i (queues.put t e) s.streams); wait_for_space t e) s

  -- `self.streams[i].handle(event)`.
  unfoldable pub put : ℕ → Event → Run C P T Unit
  unfolding find assign
  put i e s = put_found i e (find i s.streams) s

  abbrev pub close_found : ℕ → Option T → Run C P T Unit
  close_found i none s = pure tt s
  close_found i (some t) s =
      (do
        set_streams (remove i s.streams)
        emit (gave i (Event.stream_closed i))
        wait_for_space t (Event.stream_closed i))
        s

  unfoldable pub close_stream : ℕ → Run C P T Unit
  unfolding find remove close_buffer
  close_stream i s = (do close_found i (find i s.streams); on_sender (close_buffer calls i)) s

  abbrev pub new_stream : ℕ → Bool → T
  new_stream i true = queues.new_websocket i
  new_stream i false = queues.new_http i

  abbrev pub open_stream : ℕ → Bool → Run C P T Unit
  open_stream i is_connect s =
      (do
        emit (opened i is_connect)
        set_streams (assign i (new_stream i is_connect) s.streams)
        on_sender (register_stream calls i))
        s

  abbrev pub give_request : ℕ → Headers → Bytes → Option Bytes → Run C P T Unit
  give_request i headers method raw_path s =
      (do
        kept ← lift (filter_pseudo_headers headers)
        path ← or_raise name_error raw_path
        name ← or_raise unicode_error (decode method)
        put i (Event.request i kept "2" name path s.connection_state))
        s

  abbrev pub count_request : Run C P T Unit
  count_request s = pure tt (record s { keep_alive_requests = s.keep_alive_requests + 1 })

  unfoldable pub create_stream : ℕ → Headers → Run C P T Unit
  unfolding read_asked bytes_eq register_stream filter_pseudo_headers put
  create_stream i headers = do
    a ← lift (read_asked (record { method = none; raw_path = none }) headers)
    method ← or_raise name_error a.method
    open_stream i (bytes_eq method (ascii "CONNECT"))
    give_request i headers method a.raw_path
    count_request
    emit marked

  -- The stream that is pushed: its request has no body.
  abbrev pub open_pushed : ℕ → Headers → Run C P T Unit
  open_pushed i headers = do create_stream i headers; put i (Event.end_body i); count_request

  abbrev pub push_request : H2Protocol C P T → Bytes → Headers → Headers
  push_request s path headers =
      (ascii ":method", ascii "GET") ∷ (ascii ":path", path) ∷ headers ++ s.config.response_headers

  abbrev pub pushed : ℕ → Headers → Option C → Run C P T Unit
  pushed i headers none = pure tt
  pushed i headers (some c) = do set_connection c; flush; open_pushed i headers

  unfoldable pub create_server_push : ℕ → Bytes → Headers → Run C P T Unit
  unfolding create_stream put flush
  create_server_push i path headers s =
      (do
        j ← or_raise protocol_error (h2.next_stream_id s.sender.connection)
        pushed j (push_request s path headers)
            (h2.push_stream s.sender.connection i j (push_request s path headers)))
        s

  abbrev pub status_header : ℕ → Bytes × Bytes
  status_header status = (ascii ":status", decimal (suc status) status)

  abbrev pub send_head : ℕ → Headers → ℕ → Run C P T Unit
  send_head i headers status s =
      (do
        on_connection
            λ c. h2.send_headers c i (status_header status ∷ headers ++ s.config.response_headers)
        flush)
        s

  -- After the last stream of a worker that ends, the connection is closed.
  abbrev pub report_idle : Run C P T Unit
  report_idle s =
      (do
        if is_nil s.streams && s.terminated
            then (do on_connection h2.close_connection; flush)
            else pure tt
        emit (sent (updated (is_nil s.streams))))
        s

  -- The body of the `try`.
  unfoldable pub send_event : Event → Run C P T Unit
  unfolding decimal flush buffer_data end send_trailers close_stream create_server_push
  send_event (Event.response i headers status) = send_head i headers status
  send_event (Event.informational_response i headers status) = send_head i headers status
  send_event (Event.body i d) = on_sender (buffer_data calls i d) >>= λ should_pause. pure tt
  send_event (Event.ws_data i d) = on_sender (buffer_data calls i d) >>= λ should_pause. pure tt
  send_event (Event.end_body i) = on_sender (end calls i)
  send_event (Event.end_data i) = on_sender (end calls i)
  send_event (Event.trailers i headers) = on_sender (send_trailers calls i headers)
  send_event (Event.stream_closed i) = do close_stream i; report_idle
  send_event (Event.request i headers version method path state) = create_server_push i path headers

  -- BufferCompleteError, KeyError and ProtocolError are passed over.
  abbrev pub is_passed_over : Error → Bool
  is_passed_over runtime_error = true
  is_passed_over key_error = true
  is_passed_over protocol_error = true
  is_passed_over e = false

  abbrev pub except_closed : Result {0} Unit × H2Protocol C P T → Result {0} Unit × H2Protocol C P T
  except_closed (ok u, s) = (ok u, s)
  except_closed (err e, s) = (if is_passed_over e then ok tt else err e, s)

  unfoldable pub stream_send : Event → Run C P T Unit
  unfolding send_event
  stream_send e s = except_closed (send_event e s)
