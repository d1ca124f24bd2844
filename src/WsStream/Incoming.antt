-- ===== src/WsStream/Incoming.antt =====
-- protocol/ws_stream.py, WSStream.handle: the events of the protocol, and those that wsproto finds in
-- the data. The loop over `events()` runs on fuel, the bound `events_left`.
use hypercorn.Prelude.{
  ℕ, zero, suc, Bool, true, false, Option, none, some, [], ◌∷◌, String, if◌then◌else◌,
}
use hypercorn.Prelude.Bytes.{Bytes, Headers}
use hypercorn.Events.{Event, ConnectionState}
use hypercorn.Exec.{
  attribute_error, assertion_error, unicode_error, local_protocol_error, frame_too_large, Result,
  ok, err, Exec, ◌>>=◌, ◌>>◌, pure, raise, lift, or_raise,
}
use hypercorn.Utils.{valid_server_name}
use hypercorn.Asgi.{Text, TextCalls, Scope, websocket_connect, websocket_disconnect, spawned, put}
use hypercorn.HttpStream.{partition, is_ascii}
use hypercorn.WsStream.Wsproto.{
  Wsproto, WsEvent, text_message, bytes_message, ping, pong, close_connection,
}
use hypercorn.WsStream.Handshake.{Handshake, new_handshake, is_valid}
use hypercorn.WsStream.Buffer.{WebsocketBuffer, Fragment, text, bytes, extend, clear, to_message}
use hypercorn.WsStream.Stream.{
  WsStream, is_over, Run, emit, send, put_message, refuse, send_error_response, send_wsproto_event,
  normal_closure, abnormal_closure, message_too_big,
}

abbrev pub has_accepted : Option Handshake → Bool
has_accepted none = false
has_accepted (some h) = h.accepted

module _ {C : Type 0} (ws : Wsproto C) where
  -- What comes of a message's fragment: it is too large, it raises, or the message goes on or is
  -- finished. The flag says whether the loop over the events goes on.
  abbrev pub deliver : Bool → Exec (WsStream C) Bool
  deliver finished s =
      if finished
      then (do
        put_message (to_message s.buffer)
        λ t. pure true (record t { buffer = clear t.buffer }))
          s
      else pure true s

  abbrev pub after_extend : Bool → Result {0} Unit × WebsocketBuffer → Exec (WsStream C) Bool
  after_extend finished (ok u, b) s = deliver finished (record s { buffer = b })
  after_extend finished (err frame_too_large, b) s =
      (send_wsproto_event ws (close_connection message_too_big none) >>= λ u. pure false)
        (record s { buffer = b })
  after_extend finished (err e, b) s = raise e (record s { buffer = b })

  unfoldable pub take_fragment : Fragment → Bool → Exec (WsStream C) Bool
  unfolding send_wsproto_event to_message clear extend
  take_fragment f finished s = after_extend finished (extend f s.buffer) s

  abbrev pub remote_close : ℕ → Option Text → Exec (WsStream C) Bool
  remote_close code reason s =
      (do
        c ← or_raise attribute_error s.connection
        if ws.is_remote_closing c
            then (do send_wsproto_event ws (close_connection code reason); send Event.end_data)
            else pure tt
        send Event.stream_closed
        pure true)
        s

  -- The body of the loop in `_handle_events`.
  unfoldable pub handle_event : WsEvent → Exec (WsStream C) Bool
  unfolding take_fragment send_wsproto_event
  handle_event (text_message t finished) = take_fragment (text t) finished
  handle_event (bytes_message d finished) = take_fragment (bytes d) finished
  handle_event (ping payload) = do send_wsproto_event ws (pong payload); pure true
  handle_event (pong payload) = pure true
  handle_event (close_connection code reason) = remote_close code reason

  -- The loop. Its fuel bounds the events; `none` is the end of `events()`.
  abbrev pub turn : Run C → Option (WsEvent × C) → Run C
  turn rest none s = pure tt s
  turn rest (some (e, c)) s =
      (do goes_on ← handle_event e; if goes_on then rest else pure tt)
        (record s { connection = some c })

  unfoldable pub handle_events : ℕ → Run C
  unfolding handle_event
  handle_events zero s = pure tt s
  handle_events (suc fuel) s =
      (do c ← or_raise attribute_error s.connection; turn (handle_events fuel) (ws.next_event c)) s

  unfoldable pub handle_data : Bytes → Run C
  unfolding handle_events
  handle_data d s =
      (do
        c ← or_raise assertion_error s.connection
        e ← or_raise local_protocol_error (ws.receive_data c d)
        λ t. handle_events (ws.events_left e) (record t { connection = some e }))
        s

  abbrev pub scope_for :
      TextCalls → WsStream C → Handshake → Headers → String → Bytes → ConnectionState → Scope
  scope_for calls s h headers version raw_path state =
      let (path, query_string) = partition raw_path in
      record {
        http_version = version;
        method = "";
        scheme = s.scheme;
        path = calls.unquote path;
        raw_path = path;
        query_string = query_string;
        root_path = s.config.root_path;
        headers = headers;
        state = state;
        extensions = "websocket.http.response" ∷ [];
        subprotocols = elim h.subprotocols [ none ↦ [] | some ps ↦ ps ];
      }

  -- `spawn_app`, whose result is `app_put`, and the first message.
  abbrev pub spawn_app : Scope → Run C
  spawn_app scope = do
    emit (spawned scope)
    λ s. pure tt (record s { app_put = true })
    put_message websocket_connect

  abbrev pub admit : TextCalls → Handshake → Scope → Run C
  admit calls h scope s =
      (do
        served ← lift (valid_server_name calls.decode s.config.server_names scope.headers)
        if served
            then (do valid ← lift (is_valid h); if valid then spawn_app scope else refuse 400)
            else refuse 404)
        s

  unfoldable pub handle_request : TextCalls → Headers → String → Bytes → ConnectionState → Run C
  unfolding send_error_response
  handle_request calls headers version raw_path state s =
      (do
        h ← lift (new_handshake ws headers version)
        let scope = scope_for calls s h headers version raw_path state
        λ t.
            if is_ascii scope.raw_path
            then admit calls h scope (record t { handshake = some h; scope = some scope })
            else raise unicode_error (record t { handshake = some h }))
        (record s { start_time = true })

  -- A `StreamClosed` event.
  unfoldable pub handle_closed : Run C
  handle_closed s =
      let code = if is_over s.state then normal_closure else abnormal_closure in
      let shut : WsStream C = record s { is_closed = true } in
      if s.app_put then emit (put (websocket_disconnect code)) shut else pure tt shut

  -- `Body` and `Data`, before and after the handshake.
  unfoldable pub take_data : Bytes → Run C
  unfolding send_error_response handle_data
  take_data d s = if has_accepted s.handshake then handle_data d s else refuse 400 s

  unfoldable pub handle_open : TextCalls → Event → Run C
  unfolding handle_request handle_closed take_data
  handle_open calls (Event.request i hs v m p st) = handle_request calls hs v p st
  handle_open calls (Event.body i d) = take_data d
  handle_open calls (Event.ws_data i d) = take_data d
  handle_open calls (Event.stream_closed i) = handle_closed
  handle_open calls e = pure tt

  unfoldable pub handle : TextCalls → Event → Run C
  unfolding handle_open
  handle calls e s = if s.is_closed then pure tt s else handle_open calls e s
