-- ===== src/WsStream/SizesReceived.antt =====
-- protocol/ws_stream.py: no message larger than the limit reaches the application. Here the events of
-- the protocol and those that wsproto finds in the data.
use hypercorn.Prelude.{
  ℕ, zero, suc, ◌+◌, ◌≤◌, ◌≡◌, refl, sym, subst, Bool, true, false, Option, none, some, [], ◌∷◌,
  ◌++◌, length, length-append, ltb, if◌then◌else◌, if_both, All-append, arith, if_split,
}
use hypercorn.Prelude.Bytes.{Bytes}
use hypercorn.Events.{Event}
use hypercorn.Exec.{
  Result, ok, err, Exec, ◌>>=◌, ◌>>◌, pure, raise, or_raise, attribute_error, assertion_error,
  local_protocol_error, frame_too_large,
}
use hypercorn.Asgi.{Text, Receive, put}
use hypercorn.WsStream.Wsproto.{
  Wsproto, WsEvent, text_message, bytes_message, ping, pong, close_connection,
}
use hypercorn.WsStream.Buffer.{
  WebsocketBuffer, Value, string_io, bytes_io, Fragment, text, bytes, extend, clear, to_message,
}
use hypercorn.WsStream.Stream.{
  WsStream, Run, send, put_message, send_wsproto_event, message_too_big,
}
use hypercorn.WsStream.Incoming.{
  deliver, after_extend, take_fragment, remote_close, handle_event, turn, handle_events,
  handle_data,
}
use hypercorn.WsStream.Sizes.{
  SizesOk, continue-Keeps, Fits, message_length, value_length, Keeps, then-Keeps, then_unit-Keeps,
  if-Keeps, or_raise-Keeps, send-Keeps,
}
use hypercorn.WsStream.SizesSent.{send_wsproto_event-Keeps}

-- The buffer counts what it holds and keeps its limit, and a fragment that is taken fits.
abbrev Extended : ℕ → Result {0} Unit × WebsocketBuffer → Type 0
Extended max (ok u, b) =
    (value_length b.value ≡ b.length) × (b.max_length ≡ max) × (value_length b.value ≤ max)
Extended max (err e, b) = (value_length b.value ≡ b.length) × (b.max_length ≡ max)

longer-Extended :
    (b : WebsocketBuffer) (w : Value) (n : ℕ)
    → value_length (some w) ≡ b.length + n
    → Extended b.max_length (
        let longer : WebsocketBuffer = record b { value = some w; length = b.length + n } in
        if ltb b.max_length longer.length then raise frame_too_large longer else pure tt longer)
longer-Extended b w n e =
    if_split (Extended b.max_length) (ltb b.max_length (b.length + n)) (λ t. (e, refl))
      (λ f. (e, refl, ground (arith, e, f)))

extend-Extended :
    (f : Fragment) (b : WebsocketBuffer) (v : Option Value)
    → value_length v ≡ b.length
    → Extended b.max_length (extend f (record b { value = v }))
unfolding extend
extend-Extended (text d) b none o = longer-Extended b (string_io d) (length d) (omega (arith, o))
extend-Extended (bytes d) b none o = longer-Extended b (bytes_io d) (length d) (omega (arith, o))
extend-Extended (text d) b (some (string_io x)) o =
    longer-Extended b (string_io (x ++ d)) (length d) (omega (arith, o, length-append x d))
extend-Extended (bytes d) b (some (bytes_io x)) o =
    longer-Extended b (bytes_io (x ++ d)) (length d) (omega (arith, o, length-append x d))
extend-Extended (text d) b (some (bytes_io x)) o = (o, refl)
extend-Extended (bytes d) b (some (string_io x)) o = (o, refl)

message_length-to_message :
    (b : WebsocketBuffer) (v : Option Value)
    → message_length (to_message (record b { value = v })) ≡ value_length v
unfolding to_message
message_length-to_message b none = refl
message_length-to_message b (some (string_io d)) = refl
message_length-to_message b (some (bytes_io d)) = refl

module _ {C : Type 0} (ws : Wsproto C) where
  abbrev clear_after : Exec (WsStream C) Bool
  clear_after t = pure true (record t { buffer = clear t.buffer })

  abbrev answer_close : ℕ → Option Text → C → Exec (WsStream C) Bool
  answer_close code reason c = do
    if ws.is_remote_closing c
        then (do send_wsproto_event ws (close_connection code reason); send Event.end_data)
        else pure tt
    send Event.stream_closed
    pure true

  abbrev go_on : C → Run C
  go_on c t = handle_events ws (ws.events_left c) (record t { connection = some c })

module _ {C : Type 0} (ws : Wsproto C) {max : ℕ} where
  clear_after-Keeps : Keeps max (clear_after ws)
  unfolding clear
  clear_after-Keeps s o = (o.0, refl, o.2)

  pub put_message-Keeps :
      (m : Receive) (s : WsStream C)
      → message_length m ≤ max
      → SizesOk max s
      → SizesOk max (put_message m s).1
  put_message-Keeps m s f o =
      if_both (λ (z : Result (Unit {0}) × WsStream C). SizesOk max z.1) s.app_put
        (All-append (Fits max) s.trace (put m ∷ []) o.0 (f, tt), o.1, o.2) o

  deliver-Keeps :
      (finished : Bool) (s : WsStream C)
      → value_length s.buffer.value ≤ max
      → SizesOk max s
      → SizesOk max (deliver ws finished s).1
  deliver-Keeps finished s f o =
      if_both (λ (z : Result Bool × WsStream C). SizesOk max z.1) finished
        (continue-Keeps (put_message (to_message s.buffer) s) (λ u. (clear_after ws))
          (put_message-Keeps (to_message s.buffer) s
            (subst (λ n. n ≤ max) (sym (message_length-to_message s.buffer s.buffer.value)) f) o)
          (λ u. clear_after-Keeps))
        o

  after_extend-Keeps :
      (finished : Bool) (s : WsStream C) (z : Result {0} Unit × WebsocketBuffer)
      → SizesOk max s
      → Extended max z
      → SizesOk max (after_extend ws finished z s).1
  after_extend-Keeps finished s (ok u, b) o x =
      deliver-Keeps finished (record s { buffer = b }) x.2 (o.0, x.0, x.1)
  after_extend-Keeps finished s (err frame_too_large, b) o x =
      then-Keeps (send_wsproto_event ws (close_connection message_too_big none)) (λ u. pure false)
        (send_wsproto_event-Keeps ws _) (λ u t p. p) (record s { buffer = b }) (o.0, x.0, x.1)
  after_extend-Keeps finished s (err e, b) o x = (o.0, x.0, x.1)

  take_fragment-Keeps : (f : Fragment) (finished : Bool) → Keeps max (take_fragment ws f finished)
  unfolding take_fragment
  take_fragment-Keeps f finished s o = after_extend-Keeps finished s (extend f s.buffer) o (
      subst (λ max. Extended max (extend f s.buffer)) o.2
        (extend-Extended f s.buffer s.buffer.value o.1))

  answer_close-Keeps :
      (code : ℕ) (reason : Option Text) (c : C) → Keeps max ((answer_close ws) code reason c)
  answer_close-Keeps code reason c =
      let answer : Run C =
        send_wsproto_event ws (close_connection code reason) >> send Event.end_data in
      let first : Run C = if ws.is_remote_closing c then answer else pure tt in
      then_unit-Keeps first (send Event.stream_closed >> pure true)
        (if-Keeps (ws.is_remote_closing c) answer (pure tt)
          (then_unit-Keeps (send_wsproto_event ws (close_connection code reason))
            (send Event.end_data) (send_wsproto_event-Keeps ws _) (send-Keeps Event.end_data))
          (λ s o. o))
        (then_unit-Keeps (send Event.stream_closed) (pure true) (send-Keeps Event.stream_closed)
          (λ s o. o))

  remote_close-Keeps : (code : ℕ) (reason : Option Text) → Keeps max (remote_close ws code reason)
  remote_close-Keeps code reason s =
      then-Keeps (or_raise attribute_error s.connection) ((answer_close ws) code reason)
        (or_raise-Keeps attribute_error s.connection) (answer_close-Keeps code reason) s

  handle_event-Keeps : (e : WsEvent) → Keeps max (handle_event ws e)
  unfolding handle_event
  handle_event-Keeps (text_message t finished) = take_fragment-Keeps (text t) finished
  handle_event-Keeps (bytes_message d finished) = take_fragment-Keeps (bytes d) finished
  handle_event-Keeps (ping payload) =
      then-Keeps (send_wsproto_event ws (pong payload)) (λ u. pure true)
        (send_wsproto_event-Keeps ws (pong payload)) (λ u s o. o)
  handle_event-Keeps (pong payload) = λ s o. o
  handle_event-Keeps (close_connection code reason) = remote_close-Keeps code reason

  turn-Keeps :
      (rest : Run C) (next : Option (WsEvent × C)) → Keeps max rest → Keeps max (turn ws rest next)
  turn-Keeps rest none k s o = o
  turn-Keeps rest (some (e, c)) k s o =
      then-Keeps (handle_event ws e) (λ goes_on. if goes_on then rest else pure tt)
        (handle_event-Keeps e) (λ goes_on. if-Keeps goes_on rest (pure tt) k (λ t p. p))
        (record s { connection = some c }) o

  -- The loop of `_handle_events`.
  handle_events-Keeps : (fuel : ℕ) → Keeps max (handle_events ws fuel)
  unfolding handle_events
  handle_events-Keeps zero = λ s o. o
  handle_events-Keeps (suc fuel) = λ s.
      then-Keeps (or_raise attribute_error s.connection)
        (λ c. turn ws (handle_events ws fuel) (ws.next_event c))
        (or_raise-Keeps attribute_error s.connection)
        (λ c. turn-Keeps (handle_events ws fuel) (ws.next_event c) (handle_events-Keeps fuel)) s

  go_on-Keeps : (c : C) → Keeps max ((go_on ws) c)
  go_on-Keeps c t = handle_events-Keeps (ws.events_left c) (record t { connection = some c })

  pub handle_data-Keeps : (d : Bytes) → Keeps max (handle_data ws d)
  unfolding handle_data
  handle_data-Keeps d s =
      then-Keeps (or_raise assertion_error s.connection)
        (λ c. or_raise local_protocol_error (ws.receive_data c d) >>= (go_on ws))
        (or_raise-Keeps assertion_error s.connection)
        (λ c.
          then-Keeps (or_raise local_protocol_error (ws.receive_data c d)) (go_on ws)
            (or_raise-Keeps local_protocol_error (ws.receive_data c d)) go_on-Keeps)
        s
