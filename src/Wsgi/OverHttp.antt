-- ===== src/Wsgi/OverHttp.antt =====
-- app_wrappers.py over protocol/http_stream.py: a WSGI application whose messages an HTTPStream takes.
use hypercorn.Prelude.{Bool, true, false, ◌≡◌, refl, Option, none, some, List, [], ◌∷◌}
use hypercorn.Prelude.Bytes.{Bytes}
use hypercorn.Exec.{
  Exec, Error, Result, ok, err, unexpected_message, type_error, ◌>>=◌, or_raise, continue,
}
use hypercorn.Asgi.{Scope}
use hypercorn.HttpStream.{
  HttpStream, Refuses, AsgiHttpState, Message, request, response, trailers, closed, response_start,
  response_body, other_message,
}
use hypercorn.HttpStream.Sending.{app_send, dispatch}
use hypercorn.Wsgi.{
  Strings, Send, start, body, websocket_close, Act, yields, Run, delivered, send_output, iterate,
}

-- The message that the stream gets. A stream knows no websocket.close, and a start has a status.
abbrev pub message_of : Send → Message
message_of (start (some status) headers) =
    response_start (record { status = status; headers = headers; trailers = false })
message_of (start none headers) = other_message
message_of (body d more) = response_body d more
message_of websocket_close = other_message

unfoldable pub to_stream : Refuses → Send → Exec HttpStream Unit
unfolding app_send
to_stream refuses m = app_send refuses (message_of m)

-- A body before the response, on a stream that has its request.
body_refused :
    (refuses : Refuses) (o : Option Scope) (state : AsgiHttpState) (w : HttpStream) (scope : Scope)
    (d : Bytes) (more : Bool)
    → o ≡ some scope
    → state ≡ request
    → ((or_raise type_error o >>= λ sc. dispatch refuses sc state (response_body d more)) w).0
      ≡ err unexpected_message
unfolding dispatch
body_refused refuses none state w scope d more has_scope is_request = absurd cc
body_refused refuses (some sc) request w scope d more has_scope is_request = refl
body_refused refuses (some sc) response w scope d more has_scope is_request = absurd cc
body_refused refuses (some sc) trailers w scope d more has_scope is_request = absurd cc
body_refused refuses (some sc) closed w scope d more has_scope is_request = absurd cc

module _ (refuses : Refuses) (strings : Strings) where
  not_delivered :
      (m : Send) (z : Result (Unit {0}) × HttpStream) (s : Run HttpStream)
      (k : Unit → Exec (Run HttpStream) Unit) (e : Error)
      → z.0 ≡ err e
      → (continue (delivered strings (to_stream refuses) m z s) k).0 ≡ err e
  not_delivered m (ok u, w) s k e raised = absurd cc
  not_delivered m (err d, w) s k e raised = raised

  -- An application whose first output is empty fails, though it may have called start_response: the
  -- empty output is sent before the response has started, and the stream, which has its request and
  -- waits for a response, raises UnexpectedMessageError.
  pub empty_output_fails :
      (acts : List Act) (s : Run HttpStream) (scope : Scope)
      → s.world.state ≡ request
      → s.world.scope ≡ some scope
      → (iterate strings (to_stream refuses) (yields [] ∷ acts) s).0 ≡ err unexpected_message
  unfolding iterate send_output to_stream app_send
  empty_output_fails acts s scope is_request has_scope =
      not_delivered (body [] true) (to_stream refuses (body [] true) s.world) s
        (λ u. iterate strings (to_stream refuses) acts) unexpected_message
        (body_refused refuses s.world.scope s.world.state s.world scope [] true has_scope
          is_request)
