-- ===== src/WsStream/Stream.antt =====
-- protocol/ws_stream.py, WSStream: `handle` takes the events of the protocol, `app_send` the
-- messages of the application. What the stream does is appended to `trace`. A handler runs to its
-- end before the next begins.
use hypercorn.Prelude.{
  ℕ, Bool, true, false, ◌&&◌, Option, none, some, List, [], ◌∷◌, ◌++◌, String, if◌then◌else◌,
}
use hypercorn.Prelude.Bytes.{Bytes, Headers}
use hypercorn.Events.{Event}
use hypercorn.Exec.{
  type_error, attribute_error, unexpected_message, Result, ok, err, Exec, ◌>>=◌, ◌>>◌, pure, raise,
  lift, or_raise,
}
use hypercorn.Utils.{build_and_validate_headers, suppress_body}
use hypercorn.Asgi.{Text, Config, Scope, ResponseStart, Receive, Effect, sent, put, logged, pinging}
use hypercorn.HttpStream.{error_headers, error_summary}
use hypercorn.WsStream.Wsproto.{
  Wsproto, WsEvent, text_message, bytes_message, ping, close_connection,
}
use hypercorn.WsStream.Handshake.{Handshake, accept}
use hypercorn.WsStream.Buffer.{WebsocketBuffer, create}

-- ASGIWebsocketState.
pub data AsgiWebsocketState : Type 0 where
  handshaking connected responding closed http_closed : AsgiWebsocketState

-- What an application sends. The text of a `send` is the error of reading it when it is missing or
-- no `str`.
pub data Message : Type 0 where
  accept_message : Option Text → Headers → Message
  response_start : ResponseStart → Message
  response_body : Bytes → Bool → Message
  send_message : Option Bytes → Result {0} Text → Message
  close_message : Option ℕ → Option Text → Message
  other_message : Message

-- wsproto.frame_protocol.CloseReason.
abbrev pub normal_closure : ℕ
normal_closure = 1000

abbrev pub abnormal_closure : ℕ
abnormal_closure = 1006

abbrev pub message_too_big : ℕ
message_too_big = 1009

abbrev pub internal_error : ℕ
internal_error = 1011

pub record WsStream (C : Type 0) : Type 0 where
  pub config : Config
  pub app_put : Bool
  pub buffer : WebsocketBuffer
  pub is_closed : Bool
  pub response_of : Option ResponseStart
  pub scope : Option Scope
  pub scheme : String
  pub start_time : Bool
  pub state : AsgiWebsocketState
  pub stream_id : ℕ
  pub connection : Option C
  pub handshake : Option Handshake
  pub trace : List Effect

unfoldable pub init : {C : Type 0} → Config → Bool → ℕ → WsStream C
unfolding create
init config ssl stream_id = record {
  config = config;
  app_put = false;
  buffer = create config.websocket_max_message_size;
  is_closed = false;
  response_of = none;
  scope = none;
  scheme = if ssl then "wss" else "ws";
  start_time = false;
  state = handshaking;
  stream_id = stream_id;
  connection = none;
  handshake = none;
  trace = [];
}

-- The property `idle`.
abbrev pub is_over : AsgiWebsocketState → Bool
is_over closed = true
is_over http_closed = true
is_over state = false

abbrev pub Run : Type 0 → Type 0
Run C = Exec (WsStream C) Unit

abbrev pub is_given : {A : Type 0} → Option A → Bool
is_given none = false
is_given (some a) = true

module _ {C : Type 0} where
  abbrev pub emit : Effect → Run C
  emit e s = pure tt (record s { trace = s.trace ++ e ∷ [] })

  abbrev pub send : (ℕ → Event) → Run C
  send e s = emit (sent (e s.stream_id)) s

  abbrev pub enter : AsgiWebsocketState → Run C
  enter state s = pure tt (record s { state = state })

  abbrev pub close : Run C
  close s = pure tt (record s { is_closed = true })

  abbrev pub log_access : ResponseStart → Run C
  log_access r s = if s.start_time then emit (logged (some r)) s else raise type_error s

  abbrev pub put_message : Receive → Run C
  put_message m s = if s.app_put then emit (put m) s else raise type_error s

  unfoldable pub send_error_response : ℕ → Run C
  send_error_response status = do
    send (λ i. Event.response i error_headers status)
    send Event.end_body
    λ s. (if is_given s.scope && s.start_time then log_access (error_summary status) else pure tt) s

  abbrev pub refuse : ℕ → Run C
  refuse status = do send_error_response status; close

  abbrev pub set_response : ResponseStart → Run C
  set_response r s = pure tt (record s { response_of = some r })

  abbrev pub begin_rejection : AsgiWebsocketState → ResponseStart → Run C
  begin_rejection handshaking r = do
    headers ← lift (build_and_validate_headers r.headers)
    send (λ i. Event.response i headers r.status)
    enter responding
  begin_rejection state r = pure tt

  -- `_send_rejection`.
  unfoldable pub send_rejection : Bytes → Bool → Run C
  send_rejection body more_body s =
      (do
        r ← or_raise attribute_error s.response_of
        begin_rejection s.state r
        if suppress_body "GET" r.status then pure tt else send (λ i. Event.body i body)
        if more_body then pure tt else (do enter http_closed; send Event.end_body; log_access r))
        s

module _ {C : Type 0} (ws : Wsproto C) where
  -- `_send_wsproto_event`: a LocalProtocolError is passed over.
  abbrev pub send_data : Option (Bytes × C) → Run C
  send_data none s = pure tt s
  send_data (some (d, c)) s = send (λ i. Event.ws_data i d) (record s { connection = some c })

  unfoldable pub send_wsproto_event : WsEvent → Run C
  send_wsproto_event e s = (do c ← or_raise attribute_error s.connection; send_data (ws.send c e)) s

  -- `_accept`.
  abbrev pub connect : Handshake → ℕ × Headers × C → Run C
  connect h (status, headers, c) = do
    λ s. pure tt (record s { connection = some c; handshake = some (record h { accepted = true }) })
    send (λ i. Event.response i headers status)
    log_access (error_summary status)
    λ s. (if is_given s.config.websocket_ping_interval then emit pinging else pure tt) s

  unfoldable pub accept_handshake : Option Text → Headers → Run C
  unfolding accept
  accept_handshake subprotocol headers s =
      (do
        enter connected
        h ← or_raise attribute_error s.handshake
        answer ← lift (accept ws h subprotocol headers)
        connect h answer)
        s

  -- The loop of `_send_pings`, up to its sleep.
  unfoldable pub send_ping : Run C
  unfolding send_wsproto_event
  send_ping s = if s.is_closed then pure tt s else send_wsproto_event (ping []) s

  abbrev pub outgoing : Option Bytes → Result {0} Text → Result {0} WsEvent
  outgoing (some d) text_field = ok (bytes_message d true)
  outgoing none (ok t) = ok (text_message t true)
  outgoing none (err e) = err e

  abbrev pub or_normal : Option ℕ → ℕ
  or_normal none = normal_closure
  or_normal (some code) = code

  -- The chain of conditions on the type of the message and the state.
  unfoldable pub dispatch : AsgiWebsocketState → Message → Run C
  unfolding accept_handshake send_rejection send_wsproto_event send_error_response
  dispatch handshaking (accept_message subprotocol headers) = accept_handshake subprotocol headers
  dispatch handshaking (response_start r) = set_response r
  dispatch handshaking (response_body body more) = send_rejection body more
  dispatch responding (response_body body more) = send_rejection body more
  dispatch connected (send_message d text_field) = do
    e ← lift (outgoing d text_field)
    send_wsproto_event e
  dispatch handshaking (close_message code reason) = do enter http_closed; send_error_response 403
  dispatch state (close_message code reason) = do
    enter closed
    send_wsproto_event (close_connection (or_normal code) reason)
    send Event.end_data
  dispatch state message = raise unexpected_message

  unfoldable pub app_send : Message → Run C
  unfolding dispatch
  app_send message s = if s.is_closed then pure tt s else dispatch s.state message s

  abbrev pub cleanup : AsgiWebsocketState → Run C
  cleanup handshaking = do send_error_response 500; log_access (error_summary 500)
  cleanup connected = send_wsproto_event (close_connection internal_error none)
  cleanup state = pure tt

  -- `app_send(None)`: the application has finished.
  unfoldable pub app_finished : Run C
  unfolding send_error_response send_wsproto_event
  app_finished s =
      if s.is_closed then pure tt s else (do cleanup s.state; send Event.stream_closed) s
