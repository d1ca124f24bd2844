-- ===== src/WsStream/Limits.antt =====
-- protocol/ws_stream.py: the limit on messages over the whole life of a WebSocket.
use hypercorn.Prelude.{
  ℕ, refl, Bool, true, some, List, [], ◌∷◌, ◌++◌, String, if◌then◌else◌, if_both, All, arith,
}
use hypercorn.Prelude.Bytes.{Bytes, Headers}
use hypercorn.Events.{Event, ConnectionState}
use hypercorn.Exec.{Result, ◌>>=◌, raise, lift, unicode_error}
use hypercorn.Utils.{valid_server_name}
use hypercorn.Asgi.{Config, TextCalls, Scope, websocket_connect, websocket_disconnect, spawned, put}
use hypercorn.HttpStream.{is_ascii}
use hypercorn.WsStream.Wsproto.{Wsproto}
use hypercorn.WsStream.Handshake.{Handshake, new_handshake, is_valid}
use hypercorn.WsStream.Buffer.{create}
use hypercorn.WsStream.Stream.{
  WsStream, init, Run, refuse, Message, app_send, app_finished, send_ping, is_over, normal_closure,
  abnormal_closure,
}
use hypercorn.WsStream.Incoming.{
  has_accepted, scope_for, spawn_app, admit, handle_request, handle_closed, take_data, handle_open,
  handle,
}
use hypercorn.WsStream.Sizes.{SizesOk, Fits, Keeps, then-Keeps, if-Keeps, emit-Keeps, refuse-Keeps}
use hypercorn.WsStream.SizesSent.{app_send-Keeps, app_finished-Keeps, send_ping-Keeps}
use hypercorn.WsStream.SizesReceived.{handle_data-Keeps, put_message-Keeps}

-- What reaches a WebSocket: an event of the protocol, a message of the application or its end, or
-- the time for a ping.
pub data Input : Type 0 where
  receives : Event → Input
  sends : Message → Input
  finishes : Input
  pings : Input

module _ {C : Type 0} (ws : Wsproto C) where
  abbrev check : Handshake → Scope → Run C
  check h scope = do valid ← lift (is_valid h); if valid then spawn_app ws scope else refuse 400

  abbrev begin : TextCalls → Scope → Handshake → Run C
  begin calls scope h t =
      if is_ascii scope.raw_path
      then admit ws calls h scope (record t { handshake = some h; scope = some scope })
      else raise unicode_error (record t { handshake = some h })

  abbrev pub take_input : TextCalls → WsStream C → Input → WsStream C
  take_input calls s (receives e) = (handle ws calls e s).1
  take_input calls s (sends m) = (app_send ws m s).1
  take_input calls s finishes = (app_finished ws s).1
  take_input calls s pings = (send_ping ws s).1

  -- A stream that takes its inputs one after the other. An input that raises leaves its state.
  unfoldable pub serve : TextCalls → WsStream C → List Input → WsStream C
  serve calls s [] = s
  serve calls s (i ∷ is) = serve calls (take_input calls s i) is

module _ {C : Type 0} (ws : Wsproto C) {max : ℕ} where
  spawn_app-Keeps : (scope : Scope) → Keeps max (spawn_app ws scope)
  spawn_app-Keeps scope s o =
      put_message-Keeps ws websocket_connect
        (record s { app_put = true; trace = s.trace ++ spawned scope ∷ [] }) (omega arith)
        (emit-Keeps (spawned scope) (λ max. tt) s o)

  check-Keeps : (h : Handshake) (scope : Scope) → Keeps max ((check ws) h scope)
  check-Keeps h scope =
      then-Keeps (lift (is_valid h)) (λ valid. if valid then spawn_app ws scope else refuse 400)
        (λ s o. o)
        (λ valid.
          if-Keeps valid (spawn_app ws scope) (refuse 400) (spawn_app-Keeps scope)
            (refuse-Keeps 400))

  admit-Keeps :
      (calls : TextCalls) (h : Handshake) (scope : Scope) → Keeps max (admit ws calls h scope)
  admit-Keeps calls h scope s =
      then-Keeps (lift (valid_server_name calls.decode s.config.server_names scope.headers))
        (λ served. if served then (check ws) h scope else refuse 404) (λ t o. o)
        (λ served.
          if-Keeps served ((check ws) h scope) (refuse 404) (check-Keeps h scope)
            (refuse-Keeps 404))
        s

  begin-Keeps :
      (calls : TextCalls) (scope : Scope) (h : Handshake) → Keeps max ((begin ws) calls scope h)
  begin-Keeps calls scope h t o =
      if_both (λ (z : Result (Unit {0}) × WsStream C). SizesOk max z.1) (is_ascii scope.raw_path)
        (admit-Keeps calls h scope (record t { handshake = some h; scope = some scope }) o) o

  handle_request-Keeps :
      (calls : TextCalls) (headers : Headers) (version : String) (raw_path : Bytes)
      (state : ConnectionState)
      → Keeps max (handle_request ws calls headers version raw_path state)
  unfolding handle_request
  handle_request-Keeps calls headers version raw_path state s =
      then-Keeps (lift (new_handshake ws headers version))
        (λ h. (begin ws) calls (scope_for ws calls s h headers version raw_path state) h) (λ t o. o)
        (λ h. begin-Keeps calls (scope_for ws calls s h headers version raw_path state) h)
        (record s { start_time = true })

  handle_closed-Keeps : Keeps max (handle_closed ws)
  unfolding handle_closed
  handle_closed-Keeps s o =
      let code = if is_over s.state then normal_closure else abnormal_closure in
      let shut : WsStream C = record s { is_closed = true } in
      if_both (λ (z : Result (Unit {0}) × WsStream C). SizesOk max z.1) s.app_put
        (emit-Keeps (put (websocket_disconnect code)) (λ max. omega arith) shut o) o

  take_data-Keeps : (d : Bytes) → Keeps max (take_data ws d)
  unfolding take_data
  take_data-Keeps d s o =
      if_both (λ (z : Result (Unit {0}) × WsStream C). SizesOk max z.1) (has_accepted s.handshake)
        (handle_data-Keeps ws d s o) (refuse-Keeps 400 s o)

  handle_open-Keeps : (calls : TextCalls) (e : Event) → Keeps max (handle_open ws calls e)
  unfolding handle_open
  handle_open-Keeps calls (Event.request i hs v m p st) = handle_request-Keeps calls hs v p st
  handle_open-Keeps calls (Event.body i d) = take_data-Keeps d
  handle_open-Keeps calls (Event.ws_data i d) = take_data-Keeps d
  handle_open-Keeps calls (Event.stream_closed i) = handle_closed-Keeps
  handle_open-Keeps calls e = λ s o. o

  handle-Keeps : (calls : TextCalls) (e : Event) → Keeps max (handle ws calls e)
  unfolding handle
  handle-Keeps calls e s o =
      if_both (λ (z : Result (Unit {0}) × WsStream C). SizesOk max z.1) s.is_closed o
        (handle_open-Keeps calls e s o)

  take_input-SizesOk :
      (calls : TextCalls) (s : WsStream C) (i : Input)
      → SizesOk max s
      → SizesOk max ((take_input ws) calls s i)
  take_input-SizesOk calls s (receives e) o = handle-Keeps calls e s o
  take_input-SizesOk calls s (sends m) o = app_send-Keeps ws m s o
  take_input-SizesOk calls s finishes o = app_finished-Keeps ws s o
  take_input-SizesOk calls s pings o = send_ping-Keeps ws s o

  serve-SizesOk :
      (calls : TextCalls) (s : WsStream C) (is : List Input)
      → SizesOk max s
      → SizesOk max ((serve ws) calls s is)
  unfolding serve
  serve-SizesOk calls s [] o = o
  serve-SizesOk calls s (i ∷ is) o =
      serve-SizesOk calls ((take_input ws) calls s i) is (take_input-SizesOk calls s i o)

module _ {C : Type 0} (ws : Wsproto C) where
  -- Whatever reaches a WebSocket, and whatever wsproto finds in the data, no message that the
  -- application receives is longer than websocket_max_message_size.
  pub message_sizes :
      (calls : TextCalls) (config : Config) (ssl : Bool) (i : ℕ) (is : List Input)
      → All (Fits config.websocket_max_message_size) (serve ws calls (init config ssl i) is).trace
  unfolding init create
  message_sizes calls config ssl i is =
      (serve-SizesOk ws calls (init config ssl i) is (tt, refl, refl)).0
