-- ===== src/HttpStream/Steps.antt =====
-- protocol/http_stream.py: each helper of `app_send` keeps the order of events, whether it returns
-- or raises.
use hypercorn.Prelude.{
  ℕ, ◌≡◌, refl, subst, sym, ◌⊎◌, inl, inr, Bool, true, not, ◌&&◌, Option, none, some, List, [], ◌∷◌,
  ◌++◌, is_nil, if◌then◌else◌, if_both, Option-cases,
}
use hypercorn.Prelude.Bytes.{Bytes, Headers}
use hypercorn.Events.{Event}
use hypercorn.Exec.{continue, lift_keeps, lift_keeps_then, ◌>>◌, pure}
use hypercorn.Utils.{suppress_body, build_and_validate_headers}
use hypercorn.Asgi.{Scope, ResponseStart, Effect, sent, logged}
use hypercorn.HttpStream.{
  takes_all, error_headers, log_access, error_summary, send, HttpStream, request, response,
  trailers, closed, send_closed, send_error_response, Run,
}
use hypercorn.HttpStream.Sending.{
  flush_trailers, end_response, start_response, send_push, send_hint, send_body, accepts_trailers,
  send_trailers_only, send_trailers,
}
use hypercorn.HttpStream.Phases.{
  waiting, streaming, trailing, ended, done, At, IsStarted, Ordered, emit-At, quiet_emit, Ends,
}

pub log_access-Ends :
    (s : HttpStream) (r : Option ResponseStart) → Ordered s → Ends (log_access r s)
log_access-Ends s r o =
    if_both Ends s.start_time (quiet_emit s.state s.trace s.response_of (logged r) (λ p. refl) o) o

-- `_send_error_response`.
pub send_error_response-Ends :
    (s : HttpStream) (status : ℕ)
    → At waiting s.trace
    → Ends (send_error_response takes_all status s)
unfolding send_error_response
send_error_response-Ends s status w =
    let begun = sent (Event.response s.stream_id error_headers status) in
    let over = sent (Event.end_body s.stream_id) in
    let t : HttpStream = record s {
      state = closed;
      trace = (s.trace ++ begun ∷ []) ++ over ∷ [];
    } in
    log_access-Ends t (some (error_summary status)) (
      inl (
        emit-At streaming ended (s.trace ++ begun ∷ []) over refl
          (emit-At waiting streaming s.trace begun refl w)))

-- The end of the response, once it is logged.
after_log-Ends :
    (r : ResponseStart) (s : HttpStream)
    → At ended s.trace
    → s.state ≡ closed
    → Ends ((log_access (some r) >> send takes_all Event.stream_closed) s)
after_log-Ends r s a e =
    if_both (λ z. Ends (continue z (λ _. send takes_all Event.stream_closed))) s.start_time
      (rw e
        (inr (emit-At ended done _ _ refl (emit-At ended ended s.trace (logged (some r)) refl a))))
      (rw e (inl a))

-- `_send_closed`, once the response has started.
pub send_closed-Ends :
    (s : HttpStream)
    → At streaming s.trace ⊎ At trailing s.trace
    → IsStarted s.response_of
    → Ends (send_closed takes_all s)
unfolding send_closed
send_closed-Ends s w i = elim (Option-cases s.response_of) [
  | inl e ↦ absurd (subst IsStarted e i)
  | inr (r, e) ↦
      subst (λ z. Ends (send_closed takes_all (record s { response_of = z }))) (sym e)
        (after_log-Ends r _ (end_at s.trace w) refl)
]
  where
    end_at :
        (es : List Effect)
        → At streaming es ⊎ At trailing es
        → At ended (es ++ sent (Event.end_body s.stream_id) ∷ [])
    end_at es (inl a) = emit-At streaming ended es _ refl a
    end_at es (inr a) = emit-At trailing ended es _ refl a

-- http.response.start.
pub start_response-Ends :
    (s : HttpStream) (r : ResponseStart)
    → At waiting s.trace
    → s.state ≡ request
    → Ends (start_response takes_all r s)
unfolding start_response
start_response-Ends s r w e =
    lift_keeps Ordered (build_and_validate_headers r.headers) _ _ (rw e w)
      (λ headers _. (emit-At waiting streaming _ _ refl w, tt))

-- http.response.push.
pub send_push-Ends :
    (s : HttpStream) (scope : Scope) (path : Option Bytes) (headers : Headers)
    → Ordered s
    → Ends (send_push takes_all scope path headers s)
unfolding send_push
send_push-Ends s scope none headers o = o
send_push-Ends s scope (some path) headers o =
    lift_keeps Ordered (build_and_validate_headers headers) _ _ o
      (λ more _. quiet_emit s.state s.trace s.response_of _ (λ p. refl) o)

-- http.response.early_hint.
pub send_hint-Ends :
    (s : HttpStream) (links : List Bytes)
    → At waiting s.trace
    → s.state ≡ request
    → Ends (send_hint takes_all links s)
unfolding send_hint
send_hint-Ends s links w e = rw e (emit-At waiting waiting _ _ refl w)

-- The end of a body.
body_end-Ends :
    (s : HttpStream) (r : ResponseStart) (more : Bool)
    → At streaming s.trace
    → IsStarted s.response_of
    → s.state ≡ response
    → Ends ((if more then pure tt else end_response takes_all r) s)
body_end-Ends s r more a i e =
    if_both (λ (m : Run). Ends (m s)) more (rw e (a, i))
      (if_both (λ (m : Run). Ends (m s)) r.trailers (a, i) (send_closed-Ends s (inl a) i))

-- http.response.body.
pub send_body-Ends :
    (s : HttpStream) (scope : Scope) (body : Bytes) (more : Bool)
    → At streaming s.trace
    → IsStarted s.response_of
    → s.state ≡ response
    → Ends (send_body takes_all scope body more s)
unfolding send_body
send_body-Ends s scope body more a i e = elim (Option-cases s.response_of) [
  | inl n ↦ absurd (subst IsStarted n i)
  | inr (r, n) ↦
      subst (λ z. Ends (send_body takes_all scope body more (record s { response_of = z }))) (sym n)
        (if_both
          (λ (m : Run). Ends (
            (m >> (if more then pure tt else end_response takes_all r))
              (record s { response_of = some r })))
          (not (suppress_body scope.method r.status) && not (is_nil body))
          (body_end-Ends _ r more (emit-At streaming streaming _ _ refl a) tt e)
          (body_end-Ends _ r more a tt e))
]

trailers_begin-Ends :
    (s : HttpStream) (more : Bool)
    → At streaming s.trace
    → IsStarted s.response_of
    → s.state ≡ trailers
    → Ends ((if more then pure tt else send_closed takes_all) s)
trailers_begin-Ends s more a i e =
    if_both (λ (m : Run). Ends (m s)) more (rw e (a, i)) (send_closed-Ends s (inl a) i)

-- http.response.trailers before the response has started.
pub send_trailers_only-Ends :
    (s : HttpStream) (scope : Scope) (headers : Headers) (more : Bool)
    → At waiting s.trace
    → s.state ≡ request
    → accepts_trailers scope.headers ≡ true
    → Ends (send_trailers_only takes_all scope headers more s)
unfolding send_trailers_only
send_trailers_only-Ends s scope headers more w e t = rw t (
    lift_keeps_then Ordered (build_and_validate_headers headers) _ _ s (rw e w) λ hs _.
      trailers_begin-Ends _ more
        (emit-At waiting streaming s.trace (sent (Event.response s.stream_id hs 200)) refl w) tt
        refl)

-- The trailers, if there are any, and the end.
trailers_end-Ends :
    (s : HttpStream) (more : Bool)
    → At streaming s.trace
    → IsStarted s.response_of
    → s.state ≡ trailers
    → Ends ((if more then pure tt else (flush_trailers takes_all >> send_closed takes_all)) s)
trailers_end-Ends s more a i e =
    if_both (λ (m : Run). Ends (m s)) more (rw e (a, i))
      (if_both (λ (m : Run). Ends ((m >> send_closed takes_all) s)) (is_nil s.trailer_headers)
        (send_closed-Ends s (inl a) i)
        (send_closed-Ends _ (inr (emit-At streaming trailing _ _ refl a)) i))

-- http.response.trailers after the body.
pub send_trailers-Ends :
    (s : HttpStream) (scope : Scope) (headers : Headers) (more : Bool)
    → At streaming s.trace
    → IsStarted s.response_of
    → s.state ≡ trailers
    → Ends (send_trailers takes_all scope headers more s)
unfolding send_trailers
send_trailers-Ends s scope headers more a i e =
    if_both
      (λ (m : Run).
        Ends (
          (m >> (if more then pure tt else (flush_trailers takes_all >> send_closed takes_all))) s))
      (accepts_trailers scope.headers)
      (lift_keeps_then Ordered (build_and_validate_headers headers) _ _ s (rw e (a, i))
        (λ hs _. trailers_end-Ends _ more a i e))
      (trailers_end-Ends s more a i e)
