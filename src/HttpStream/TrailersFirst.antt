-- ===== src/HttpStream/TrailersFirst.antt =====
-- protocol/http_stream.py, app_send: a trailers message in place of a response.
use hypercorn.Prelude.{◌≡◌, refl, true, false, none, some}
use hypercorn.Prelude.Bytes.{Headers}
use hypercorn.Events.{Event}
use hypercorn.Exec.{attribute_error, err}
use hypercorn.Utils.{str_in}
use hypercorn.Asgi.{Scope, sent}
use hypercorn.HttpStream.{
  HttpStream, Refuses, request, response_trailers, send_closed, trailers_versions,
}
use hypercorn.HttpStream.Sending.{app_send, accepts_trailers, dispatch, send_trailers_only}
use hypercorn.HttpStream.Phases.{phase_after_emit, phase_after, waiting, At}

-- On a request whose version has trailers and that has no header `te: trailers`, a last trailers
-- message before the response breaks the order, where the protocol takes the end of the body: it ends a body that no response precedes, and
-- then raises an AttributeError.
pub trailers_first_breaks_order :
    (refuses : Refuses) (s : HttpStream) (scope : Scope) (hs : Headers)
    → s.state ≡ request
    → s.scope ≡ some scope
    → s.response_of ≡ none
    → str_in scope.http_version trailers_versions ≡ true
    → accepts_trailers scope.headers ≡ false
    → At waiting s.trace
    → refuses s.trace (Event.end_body s.stream_id) ≡ none
    → ((app_send refuses (response_trailers hs false) s).0 ≡ err attribute_error)
      × (phase_after (some waiting) (app_send refuses (response_trailers hs false) s).1.trace
          ≡ none)
unfolding app_send dispatch send_trailers_only send_closed
trailers_first_breaks_order refuses s scope hs st sc r v t w taken =
    rw (sc, st, v, t, r, taken)
      (
        refl,
        phase_after_emit (some waiting) (some waiting) s.trace (sent (Event.end_body s.stream_id))
            w,
      )
