-- ===== src/WsStream/SizesSent.antt =====
-- protocol/ws_stream.py: no message larger than the limit reaches the application. Here the messages
-- of the application.
use hypercorn.Prelude.{ℕ, true, Option, none, some, List, [], if◌then◌else◌, if_both}
use hypercorn.Prelude.Bytes.{Bytes, Headers}
use hypercorn.Events.{Event}
use hypercorn.Exec.{Result, ◌>>=◌, ◌>>◌, pure, lift, or_raise, attribute_error}
use hypercorn.Asgi.{pinging}
use hypercorn.HttpStream.{error_summary}
use hypercorn.WsStream.Wsproto.{Wsproto, WsEvent, close_connection, ping}
use hypercorn.WsStream.Handshake.{Handshake, accept}
use hypercorn.WsStream.Stream.{
  WsStream, AsgiWebsocketState, handshaking, connected, responding, closed, http_closed, Run,
  is_given, emit, send, enter, log_access, send_error_response, Message, accept_message,
  response_start, response_body, send_message, close_message, send_data, send_wsproto_event,
  connect, accept_handshake, send_ping, outgoing, or_normal, dispatch, app_send, cleanup,
  app_finished, internal_error,
}
use hypercorn.WsStream.Sizes.{
  SizesOk, Keeps, then-Keeps, then_unit-Keeps, if-Keeps, or_raise-Keeps, emit-Keeps, send-Keeps,
  log_access-Keeps, send_error_response-Keeps, send_rejection-Keeps,
}

module _ {C : Type 0} (ws : Wsproto C) where
  abbrev start_pings : Run C
  start_pings s = (if is_given s.config.websocket_ping_interval then emit pinging else pure tt) s

  abbrev answer_to : Option (List ℕ) → Headers → Handshake → Run C
  answer_to subprotocol headers h = do
    answer ← lift (accept ws h subprotocol headers)
    connect ws h answer

module _ {C : Type 0} (ws : Wsproto C) {max : ℕ} where
  send_data-Keeps : (r : Option (Bytes × C)) → Keeps max (send_data ws r)
  send_data-Keeps none s o = o
  send_data-Keeps (some (d, c)) s o =
      send-Keeps (λ i. Event.ws_data i d) (record s { connection = some c }) o

  -- `_send_wsproto_event`.
  pub send_wsproto_event-Keeps : (e : WsEvent) → Keeps max (send_wsproto_event ws e)
  unfolding send_wsproto_event
  send_wsproto_event-Keeps e s =
      then-Keeps (or_raise attribute_error s.connection) (λ c. send_data ws (ws.send c e))
        (or_raise-Keeps attribute_error s.connection) (λ c. send_data-Keeps (ws.send c e)) s

  start_pings-Keeps : Keeps max (start_pings ws)
  start_pings-Keeps s =
      if-Keeps (is_given s.config.websocket_ping_interval) (emit pinging) (pure tt)
        (emit-Keeps pinging (λ max. tt)) (λ t o. o) s

  connect-Keeps : (h : Handshake) (answer : ℕ × Headers × C) → Keeps max (connect ws h answer)
  connect-Keeps h (status, headers, c) s o =
      let begin : Run C = send (λ i. Event.response i headers status) in
      then_unit-Keeps begin (log_access (error_summary status) >> (start_pings ws))
        (send-Keeps (λ i. Event.response i headers status))
        (then_unit-Keeps (log_access (error_summary status)) (start_pings ws)
          (log_access-Keeps (error_summary status)) start_pings-Keeps)
        (record s { connection = some c; handshake = some (record h { accepted = true }) }) o

  answer_to-Keeps :
      (subprotocol : Option (List ℕ)) (headers : Headers) (h : Handshake)
      → Keeps max ((answer_to ws) subprotocol headers h)
  answer_to-Keeps subprotocol headers h =
      then-Keeps (lift (accept ws h subprotocol headers)) (connect ws h) (λ s o. o)
        (connect-Keeps h)

  -- `_accept`.
  accept_handshake-Keeps :
      (subprotocol : Option (List ℕ)) (headers : Headers)
      → Keeps max (accept_handshake ws subprotocol headers)
  unfolding accept_handshake
  accept_handshake-Keeps subprotocol headers s =
      then-Keeps (or_raise attribute_error s.handshake) ((answer_to ws) subprotocol headers)
        (or_raise-Keeps attribute_error s.handshake) (answer_to-Keeps subprotocol headers)
        (record s { state = connected })

  pub send_ping-Keeps : Keeps max (send_ping ws)
  unfolding send_ping
  send_ping-Keeps s o =
      if_both (λ (z : Result (Unit {0}) × WsStream C). SizesOk max z.1) s.is_closed o
        (send_wsproto_event-Keeps (ping []) s o)

  close-Keeps :
      (code : Option ℕ) (reason : Option (List ℕ))
      → Keeps max (
          enter closed
          >> (send_wsproto_event ws (close_connection (or_normal ws code) reason)
              >> send Event.end_data))
  close-Keeps code reason =
      then_unit-Keeps (enter closed)
        (send_wsproto_event ws (close_connection (or_normal ws code) reason) >> send Event.end_data)
        (λ s o. o)
        (then_unit-Keeps (send_wsproto_event ws (close_connection (or_normal ws code) reason))
          (send Event.end_data) (send_wsproto_event-Keeps _) (send-Keeps Event.end_data))

  dispatch-Keeps : (state : AsgiWebsocketState) (m : Message) → Keeps max (dispatch ws state m)
  unfolding dispatch
  dispatch-Keeps handshaking (accept_message subprotocol headers) =
      accept_handshake-Keeps subprotocol headers
  dispatch-Keeps handshaking (response_start r) = λ s o. o
  dispatch-Keeps handshaking (response_body body more) = send_rejection-Keeps body more
  dispatch-Keeps responding (response_body body more) = send_rejection-Keeps body more
  dispatch-Keeps connected (send_message d text_field) =
      then-Keeps (lift (outgoing ws d text_field)) (send_wsproto_event ws) (λ s o. o)
        send_wsproto_event-Keeps
  dispatch-Keeps handshaking (close_message code reason) =
      λ s. send_error_response-Keeps 403 (record s { state = http_closed })
  dispatch-Keeps connected (close_message code reason) = close-Keeps code reason
  dispatch-Keeps responding (close_message code reason) = close-Keeps code reason
  dispatch-Keeps closed (close_message code reason) = close-Keeps code reason
  dispatch-Keeps http_closed (close_message code reason) = close-Keeps code reason
  dispatch-Keeps state m = λ s o. o

  pub app_send-Keeps : (m : Message) → Keeps max (app_send ws m)
  unfolding app_send
  app_send-Keeps m s o =
      if_both (λ (z : Result (Unit {0}) × WsStream C). SizesOk max z.1) s.is_closed o
        (dispatch-Keeps s.state m s o)

  cleanup-Keeps : (state : AsgiWebsocketState) → Keeps max (cleanup ws state)
  cleanup-Keeps handshaking =
      then_unit-Keeps (send_error_response 500) (log_access (error_summary 500))
        (send_error_response-Keeps 500) (log_access-Keeps (error_summary 500))
  cleanup-Keeps connected = send_wsproto_event-Keeps (close_connection internal_error none)
  cleanup-Keeps state = λ s o. o

  pub app_finished-Keeps : Keeps max (app_finished ws)
  unfolding app_finished
  app_finished-Keeps s o =
      if_both (λ (z : Result (Unit {0}) × WsStream C). SizesOk max z.1) s.is_closed o
        (then_unit-Keeps (cleanup ws s.state) (send Event.stream_closed) (cleanup-Keeps s.state)
          (send-Keeps Event.stream_closed) s o)
