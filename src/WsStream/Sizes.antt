-- ===== src/WsStream/Sizes.antt =====
-- protocol/ws_stream.py: no message larger than the limit reaches the application. Here the parts of
-- the handlers, each of which keeps it.
use hypercorn.Prelude.{
  ℕ, ◌≤◌, ◌≡◌, Bool, true, false, Option, none, some, [], ◌∷◌, length, All, All-append, ◌&&◌,
  if◌then◌else◌, if_both,
}
use hypercorn.Prelude.Bytes.{Bytes}
use hypercorn.Events.{Event}
use hypercorn.Exec.{
  Error, Result, ok, err, Exec, ◌>>=◌, ◌>>◌, continue, pure, or_raise, attribute_error,
}
use hypercorn.Utils.{build_and_validate_headers, suppress_body}
use hypercorn.Asgi.{Receive, websocket_receive, ResponseStart, Effect, sent, put, logged}
use hypercorn.HttpStream.{error_headers, error_summary}
use hypercorn.WsStream.Buffer.{Value, string_io, bytes_io}
use hypercorn.WsStream.Stream.{
  WsStream, AsgiWebsocketState, handshaking, responding, http_closed, Run, is_given, emit, send,
  enter, close, log_access, send_error_response, refuse, begin_rejection, send_rejection,
}

-- The characters or bytes of a message to the application.
abbrev pub message_length : Receive → ℕ
message_length (websocket_receive (some d) t) = length d
message_length (websocket_receive none (some t)) = length t
message_length m = 0

abbrev pub Fits : ℕ → Effect → Type 0
Fits max (put m) = message_length m ≤ max
Fits max e = Unit {0}

abbrev pub value_length : Option Value → ℕ
value_length none = 0
value_length (some (string_io d)) = length d
value_length (some (bytes_io d)) = length d

-- All messages so far fit, and the buffer counts what it holds.
abbrev pub SizesOk : {C : Type 0} → ℕ → WsStream C → Type 0
SizesOk max s =
    All (Fits max) s.trace
    × (value_length s.buffer.value ≡ s.buffer.length)
    × (s.buffer.max_length ≡ max)

-- A step after which the sizes are still right, whether it returns or raises.
abbrev pub Keeps : {C A : Type 0} → ℕ → Exec (WsStream C) A → Type 0
Keeps {C = C} max m = (s : WsStream C) → SizesOk max s → SizesOk max (m s).1

module _ {C : Type 0} where
  abbrev log_given : ResponseStart → Run C
  log_given r s = (if is_given s.scope && s.start_time then log_access r else pure tt) s

  abbrev end_rejection : ResponseStart → Run C
  end_rejection r = do enter http_closed; send Event.end_body; log_access r

  abbrev reject : Bytes → Bool → AsgiWebsocketState → ResponseStart → Run C
  reject body more state r = do
    begin_rejection state r
    if suppress_body "GET" r.status then pure tt else send (λ i. Event.body i body)
    if more then pure tt else end_rejection r

module _ {C : Type 0} {max : ℕ} where
  pub continue-Keeps :
      {A B : Type 0} (z : Result A × WsStream C) (f : A → Exec (WsStream C) B)
      → SizesOk max z.1
      → ((a : A) → Keeps max (f a))
      → SizesOk max (continue z f).1
  continue-Keeps (ok a, s) f o k = k a s o
  continue-Keeps (err e, s) f o k = o

  pub then-Keeps :
      {A B : Type 0} (m : Exec (WsStream C) A) (f : A → Exec (WsStream C) B)
      → Keeps max m
      → ((a : A) → Keeps max (f a))
      → Keeps max (m >>= f)
  then-Keeps m f k l s o = continue-Keeps (m s) f (k s o) l

  pub if-Keeps :
      {A : Type 0} (b : Bool) (m n : Exec (WsStream C) A)
      → Keeps max m
      → Keeps max n
      → Keeps max (if b then m else n)
  if-Keeps true m n k l = k
  if-Keeps false m n k l = l

  pub or_raise-Keeps : {A : Type 0} (e : Error) (o : Option A) → Keeps {C = C} max (or_raise e o)
  or_raise-Keeps e none s o = o
  or_raise-Keeps e (some a) s o = o

  pub emit-Keeps : (e : Effect) → ((max : ℕ) → Fits max e) → Keeps max (emit {C = C} e)
  emit-Keeps e f s o = (All-append (Fits max) s.trace (e ∷ []) o.0 (f max, tt), o.1, o.2)

  pub send-Keeps : (e : ℕ → Event) → Keeps max (send {C = C} e)
  send-Keeps e s = emit-Keeps (sent (e s.stream_id)) (λ max. tt) s

  pub then_unit-Keeps :
      {B : Type 0} (m : Run C) (k : Exec (WsStream C) B)
      → Keeps max m
      → Keeps max k
      → Keeps max (m >> k)
  then_unit-Keeps m k l r = then-Keeps m (λ u. k) l (λ u. r)

  pub log_access-Keeps : (r : ResponseStart) → Keeps max (log_access {C = C} r)
  log_access-Keeps r s o =
      if_both (λ (z : Result (Unit {0}) × WsStream C). SizesOk max z.1) s.start_time
        (emit-Keeps (logged (some r)) (λ max. tt) s o) o

  log_given-Keeps : (r : ResponseStart) → Keeps {C = C} max (log_given r)
  log_given-Keeps r s =
      if-Keeps (is_given s.scope && s.start_time) (log_access r) (pure tt) (log_access-Keeps r)
        (λ t o. o) s

  pub send_error_response-Keeps : (status : ℕ) → Keeps max (send_error_response {C = C} status)
  unfolding send_error_response
  send_error_response-Keeps status =
      let begin : Run C = send (λ i. Event.response i error_headers status) in
      then_unit-Keeps (begin >> send Event.end_body) (log_given (error_summary status))
        (then_unit-Keeps begin (send Event.end_body)
          (send-Keeps (λ i. Event.response i error_headers status)) (send-Keeps Event.end_body))
        (log_given-Keeps (error_summary status))

  pub refuse-Keeps : (status : ℕ) → Keeps max (refuse {C = C} status)
  refuse-Keeps status =
      then_unit-Keeps (send_error_response status) close (send_error_response-Keeps status)
        (λ s o. o)

  begin_rejection-Keeps :
      (state : AsgiWebsocketState) (r : ResponseStart) → Keeps max (begin_rejection {C = C} state r)
  begin_rejection-Keeps handshaking r s o =
      continue-Keeps (build_and_validate_headers r.headers, s)
        (λ headers. send (λ i. Event.response i headers r.status) >> enter responding) o
        (λ headers.
          then_unit-Keeps (send (λ i. Event.response i headers r.status)) (enter responding)
            (send-Keeps (λ i. Event.response i headers r.status)) (λ t u. u))
  begin_rejection-Keeps state r s o = o

  end_rejection-Keeps : (r : ResponseStart) → Keeps {C = C} max (end_rejection r)
  end_rejection-Keeps r =
      then_unit-Keeps (enter http_closed >> send Event.end_body) (log_access r)
        (λ s o. send-Keeps Event.end_body (record s { state = http_closed }) o) (log_access-Keeps r)

  reject-Keeps :
      (body : Bytes) (more : Bool) (state : AsgiWebsocketState) (r : ResponseStart)
      → Keeps {C = C} max (reject body more state r)
  reject-Keeps body more state r =
      let content : Run C =
        if suppress_body "GET" r.status then pure tt else send (λ i. Event.body i body) in
      let finish : Run C = if more then pure tt else end_rejection r in
      then_unit-Keeps (begin_rejection state r) (content >> finish) (begin_rejection-Keeps state r)
        (then_unit-Keeps content finish
          (if-Keeps (suppress_body "GET" r.status) (pure tt) (send (λ i. Event.body i body))
            (λ s o. o) (send-Keeps (λ i. Event.body i body)))
          (if-Keeps more (pure tt) (end_rejection r) (λ s o. o) (end_rejection-Keeps r)))

  -- `_send_rejection`.
  pub send_rejection-Keeps :
      (body : Bytes) (more : Bool) → Keeps max (send_rejection {C = C} body more)
  unfolding send_rejection
  send_rejection-Keeps body more s =
      then-Keeps (or_raise attribute_error s.response_of) (reject body more s.state)
        (or_raise-Keeps attribute_error s.response_of) (reject-Keeps body more s.state) s
