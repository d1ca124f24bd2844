-- ===== src/HttpStream/Inputs.antt =====
-- protocol/http_stream.py: every message and every event keeps the order of events.
use hypercorn.Prelude.{
  ℕ, ◌≡◌, refl, subst, sym, ◌⊎◌, inl, inr, Bool, true, false, ◌&&◌, Option, none, some, [], ◌∷◌,
  ◌++◌, String, if◌then◌else◌, if_both, Option-cases, arith,
}
use hypercorn.Prelude.Bytes.{Bytes, Headers}
use hypercorn.Events.{Event, ConnectionState}
use hypercorn.Exec.{
  Result, ok, err, continue, lift_keeps, unexpected_message, or_raise, ◌>>◌, raise,
}
use hypercorn.Utils.{valid_server_name, str_in}
use hypercorn.Asgi.{Receive, http_disconnect, TextCalls, Scope, spawned, put, logged}
use hypercorn.HttpStream.{
  takes_all, put_message, is_not_closed, is_given, scope_for, is_ascii, spawn_app, refuse, close,
  HttpStream, AsgiHttpState, request, response, trailers, Message, response_start, response_push,
  response_early_hint, response_body, response_trailers, handle, handle_event, handle_request,
  handle_closed, send_closed, send_error_response, Run, trailers_versions, push_versions,
  early_hints_versions,
}
use hypercorn.HttpStream.Sending.{
  send_push, send_hint, accepts_trailers, send_trailers_only, send_trailers, dispatch, app_send,
}
use hypercorn.HttpStream.Phases.{waiting, At, Tells, Ordered, emit-At, quiet_emit, Ends}
use hypercorn.HttpStream.Steps.{
  send_error_response-Ends, start_response-Ends, send_push-Ends, send_hint-Ends, send_body-Ends,
  send_trailers_only-Ends, send_trailers-Ends,
}

-- A request for which a trailers message may begin the response.
abbrev pub MayTrail : Scope → Type 0
MayTrail scope =
    (accepts_trailers scope.headers ≡ true) ⊎ (str_in scope.http_version trailers_versions ≡ false)

version_guard :
    (s : HttpStream) (b : Bool) (m : Run)
    → Ordered s
    → (b ≡ true → Ends (m s))
    → Ends ((if b then m else raise unexpected_message) s)
version_guard s true m o k = k refl
version_guard s false m o k = o

may_trail :
    (scope : Scope)
    → MayTrail scope
    → str_in scope.http_version trailers_versions ≡ true
    → accepts_trailers scope.headers ≡ true
may_trail scope (inl t) v = t
may_trail scope (inr f) v = cc

dispatch-Ends :
    (s : HttpStream) (scope : Scope) (state : AsgiHttpState) (m : Message)
    → MayTrail scope
    → s.state ≡ state
    → Tells state s.trace s.response_of
    → Ends (dispatch takes_all scope state m s)
unfolding dispatch
dispatch-Ends s scope request (response_start r) t e o = start_response-Ends s r o e
dispatch-Ends s scope state (response_push path headers) t e o =
    version_guard s (str_in scope.http_version push_versions)
      (send_push takes_all scope path headers) (rw e o)
      (λ _. send_push-Ends s scope path headers (rw e o))
dispatch-Ends s scope request (response_early_hint links) t e o =
    version_guard s (str_in scope.http_version early_hints_versions) (send_hint takes_all links)
      (rw e o) (λ _. send_hint-Ends s links o e)
dispatch-Ends s scope response (response_body body more) t e o =
    send_body-Ends s scope body more o.0 o.1 e
dispatch-Ends s scope request (response_trailers headers more) t e o =
    version_guard s (str_in scope.http_version trailers_versions)
      (send_trailers_only takes_all scope headers more) (rw e o)
      λ v. send_trailers_only-Ends s scope headers more o e (may_trail scope t v)
dispatch-Ends s scope trailers (response_trailers headers more) t e o =
    version_guard s (str_in scope.http_version trailers_versions)
      (send_trailers takes_all scope headers more) (rw e o)
      (λ _. send_trailers-Ends s scope headers more o.0 o.1 e)
dispatch-Ends s scope state m t e o = rw e o

-- The application is started with the scope of the request.
abbrev pub ScopeOk : Option Scope → Type 0
ScopeOk none = Unit {0}
ScopeOk (some scope) = MayTrail scope

-- The order of events, and a scope for which a trailers message may begin the response.
abbrev pub StreamInv : HttpStream → Type 0
StreamInv s = Ordered s × ScopeOk s.scope

-- `app_send` with a message, where a scope is set and it is a scope for which trailers may begin.
app_send-Ends :
    (s : HttpStream) (m : Message) (o : Option Scope)
    → ScopeOk o
    → s.scope ≡ o
    → Ordered s
    → Ends (app_send takes_all m s)
unfolding app_send
app_send-Ends s m none t e o = rw (e, or_raise) o
app_send-Ends s m (some scope) t e o =
    subst (λ z. Ends (app_send takes_all m (record s { scope = z }))) (sym e)
      (dispatch-Ends (record s { scope = some scope }) scope s.state m t refl o)

-- No message changes the scope.
send_closed_scope : (s : HttpStream) → (send_closed takes_all s).1.scope ≡ s.scope
unfolding send_closed
send_closed_scope s = ground arith

dispatch_scope :
    (s : HttpStream) (scope : Scope) (state : AsgiHttpState) (m : Message)
    → (dispatch takes_all scope state m s).1.scope ≡ s.scope
unfolding dispatch
dispatch_scope s scope request (response_start r) = ground arith
dispatch_scope s scope state (response_push path headers) = ground arith
dispatch_scope s scope request (response_early_hint links) = ground arith
dispatch_scope s scope response (response_body body more) = ground arith
dispatch_scope s scope request (response_trailers headers more) = ground arith
dispatch_scope s scope trailers (response_trailers headers more) = ground arith
dispatch_scope s scope state m = refl

app_send_scope : (s : HttpStream) (m : Message) → (app_send takes_all m s).1.scope ≡ s.scope
unfolding app_send
app_send_scope s m = elim (Option-cases s.scope) [
  | inl e ↦ ground (arith, e)
  | inr (scope, e) ↦ ground (arith, e, dispatch_scope s scope s.state m)
]

pub app_send-StreamInv :
    (s : HttpStream) (m : Message) → StreamInv s → StreamInv (app_send takes_all m s).1
app_send-StreamInv s m (o, t) =
    (app_send-Ends s m s.scope t refl o, subst ScopeOk (sym (app_send_scope s m)) t)

-- Messages to the application, the access log and the flag `closed` leave the order alone.
put_message-StreamInv : (s : HttpStream) (m : Receive) → StreamInv s → StreamInv (put_message m s).1
put_message-StreamInv s m (o, t) =
    if_both (λ (z : Result (Unit {0}) × HttpStream). StreamInv z.1) s.app_put
      (quiet_emit s.state s.trace s.response_of (put m) (λ p. refl) o, t) (o, t)

handle_closed-StreamInv : (s : HttpStream) → StreamInv s → StreamInv (handle_closed s).1
unfolding handle_closed
handle_closed-StreamInv s (o, t) =
    let shut : HttpStream = record s { is_closed = true } in
    let log : HttpStream = record s { is_closed = true; trace = s.trace ++ logged none ∷ [] } in
    if_both (λ (m : Run). StreamInv ((m >> put_message http_disconnect) shut).1)
      (is_not_closed s.state && (is_given s.scope && s.start_time))
      (put_message-StreamInv log http_disconnect
        (quiet_emit s.state s.trace s.response_of (logged none) (λ p. refl) o, t))
      (put_message-StreamInv shut http_disconnect (o, t))

abbrev pub is_request_event : Event → Bool
is_request_event (Event.request i hs v m p st) = true
is_request_event e = false

handle_event-StreamInv :
    (calls : TextCalls) (s : HttpStream) (e : Event)
    → is_request_event e ≡ false
    → StreamInv s
    → StreamInv (handle_event takes_all calls e s).1
unfolding handle_event
handle_event-StreamInv calls s (Event.request i hs v m p st) n o = cc
handle_event-StreamInv calls s (Event.body i d) n o = put_message-StreamInv s _ o
handle_event-StreamInv calls s (Event.end_body i) n o = put_message-StreamInv s _ o
handle_event-StreamInv calls s (Event.stream_closed i) n o = handle_closed-StreamInv s o
handle_event-StreamInv calls s e n o = o

pub handle-StreamInv :
    (calls : TextCalls) (s : HttpStream) (e : Event)
    → is_request_event e ≡ false
    → StreamInv s
    → StreamInv (handle takes_all calls e s).1
unfolding handle
handle-StreamInv calls s e n o =
    if_both (λ (z : Result (Unit {0}) × HttpStream). StreamInv z.1) s.is_closed o
      (handle_event-StreamInv calls s e n o)

send_error_response_scope :
    (s : HttpStream) (status : ℕ) → (send_error_response takes_all status s).1.scope ≡ s.scope
unfolding send_error_response
send_error_response_scope s status = ground arith

closing-StreamInv :
    (z : Result (Unit {0}) × HttpStream) → StreamInv z.1 → StreamInv (continue z (λ _. close)).1
closing-StreamInv (ok u, s) o = o
closing-StreamInv (err e, s) o = o

-- A refusal ends the response.
refuse-StreamInv :
    (s : HttpStream) (status : ℕ)
    → At waiting s.trace
    → ScopeOk s.scope
    → StreamInv (refuse takes_all status s).1
refuse-StreamInv s status w t = closing-StreamInv (send_error_response takes_all status s) (
  send_error_response-Ends s status w,
  subst ScopeOk (sym (send_error_response_scope s status)) t,
)

-- The request, on a new stream.
module _ (calls : TextCalls) (s : HttpStream) (headers : Headers) (version method : String)
    (raw_path : Bytes) (state : ConnectionState)
    (trail : (accepts_trailers headers ≡ true) ⊎ (str_in version trailers_versions ≡ false))
    (new : s.state ≡ request) (w : At waiting s.trace) (unset : s.scope ≡ none) where
  pub handle_request-StreamInv :
      StreamInv (handle_request takes_all calls headers version method raw_path state s).1
  unfolding handle_request
  handle_request-StreamInv =
      let scope : Scope = scope_for calls s headers version method raw_path state in
      let t : HttpStream = record s { start_time = true; scope = some scope } in
      if_both (λ (z : Result (Unit {0}) × HttpStream). StreamInv z.1) (is_ascii scope.raw_path)
        (lift_keeps StreamInv (valid_server_name calls.decode s.config.server_names headers)
          (λ valid. if valid then spawn_app scope else refuse takes_all 404) t (rw new w, trail)
          λ valid _.
            if_both (λ (m : Run). StreamInv (m t).1) valid
              (rw new (emit-At waiting waiting s.trace (spawned scope) refl w), trail)
              (refuse-StreamInv t 404 w trail))
        (rw new w, rw unset tt)
