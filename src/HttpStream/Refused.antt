-- ===== src/HttpStream/Refused.antt =====
-- protocol/http_stream.py: a response that the protocol refuses, as h11 does for the status 101 and,
-- once it has failed, for every other.
use hypercorn.Prelude.{ℕ, ◌≡◌, refl, ap, ◌∙◌, some, false, List}
use hypercorn.Prelude.Bytes.{Headers}
use hypercorn.Events.{Event}
use hypercorn.Exec.{Error, ok, err, continue, or_raise, type_error}
use hypercorn.Asgi.{Scope, ResponseStart, Effect}
use hypercorn.Utils.{build_and_validate_headers}
use hypercorn.HttpStream.{
  HttpStream, Refuses, request, response_start, send_error_response, error_headers,
}
use hypercorn.HttpStream.Sending.{app_send, app_finished, dispatch, start_response}

-- A protocol that refuses every response of the stream `i`, after what the stream has done.
abbrev pub RefusesAll : Refuses → Error → List Effect → ℕ → Type 0
RefusesAll refuses e es i =
    (headers : Headers) (status : ℕ) → refuses es (Event.response i headers status) ≡ some e

-- The stream that has tried to start a response.
abbrev pub tried : ResponseStart → HttpStream → HttpStream
tried r s = record s { response_of = some r }

start_refused :
    (refuses : Refuses) (e : Error) (r : ResponseStart) (s : HttpStream) (headers : Headers)
    → RefusesAll refuses e s.trace s.stream_id
    → build_and_validate_headers r.headers ≡ ok headers
    → start_response refuses r s ≡ (err e, tried r s)
unfolding start_response
start_refused refuses e r s headers refused valid = rw (valid, refused headers r.status) refl

finish_refused :
    (refuses : Refuses) (e : Error) (s : HttpStream)
    → RefusesAll refuses e s.trace s.stream_id
    → s.state ≡ request
    → s.is_closed ≡ false
    → app_finished refuses s ≡ (err e, s)
unfolding app_finished send_error_response
finish_refused refuses e s refused waits is_open =
    rw (is_open, waits, refused error_headers 500) refl

-- On a stream that waits for its response and whose protocol refuses every response, the start of a
-- response raises the exception of the protocol, and the end of the application raises it too: the
-- stream sends nothing, its StreamClosed included, and still waits for a response.
pub refused_left_open :
    (refuses : Refuses) (e : Error) (r : ResponseStart) (s : HttpStream) (scope : Scope)
    (headers : Headers)
    → RefusesAll refuses e s.trace s.stream_id
    → s.state ≡ request
    → s.is_closed ≡ false
    → s.scope ≡ some scope
    → build_and_validate_headers r.headers ≡ ok headers
    → (app_send refuses (response_start r) s ≡ (err e, tried r s))
      × (app_finished refuses (tried r s) ≡ (err e, tried r s))
unfolding app_send dispatch
refused_left_open refuses e r s scope headers refused waits is_open has_scope valid = (
  ap
        (λ o.
          continue (or_raise type_error o s) (λ sc. dispatch refuses sc s.state (response_start r)))
        has_scope
      ∙ ap (λ state. dispatch refuses scope state (response_start r) s) waits
      ∙ start_refused refuses e r s headers refused valid,
  finish_refused refuses e (tried r s) refused waits is_open,
)
