-- ===== src/HttpStream/Kept.antt =====
-- protocol/http_stream.py: what no later step changes.
use hypercorn.Prelude.{◌≡◌, refl, ◌∙◌, inl, inr, true, Option-cases, if_both, arith}
use hypercorn.Events.{Event}
use hypercorn.Exec.{Result}
use hypercorn.Asgi.{TextCalls, Receive, Scope}
use hypercorn.HttpStream.{
  takes_all, HttpStream, AsgiHttpState, request, response, trailers, Message, response_start,
  response_push, response_early_hint, response_body, response_trailers, handle, handle_event,
  handle_request, handle_closed, put_message, send_error_response,
}
use hypercorn.HttpStream.Sending.{dispatch, app_send}

dispatch_start :
    (s : HttpStream) (scope : Scope) (state : AsgiHttpState) (m : Message)
    → (dispatch takes_all scope state m s).1.start_time ≡ s.start_time
unfolding dispatch
dispatch_start s scope request (response_start r) = ground arith
dispatch_start s scope state (response_push path headers) = ground arith
dispatch_start s scope request (response_early_hint links) = ground arith
dispatch_start s scope response (response_body body more) = ground arith
dispatch_start s scope request (response_trailers headers more) = ground arith
dispatch_start s scope trailers (response_trailers headers more) = ground arith
dispatch_start s scope state m = refl

pub app_send_start :
    (s : HttpStream) (m : Message) → (app_send takes_all m s).1.start_time ≡ s.start_time
unfolding app_send
app_send_start s m = elim (Option-cases s.scope) [
  | inl e ↦ ground (arith, e)
  | inr (scope, e) ↦ ground (arith, e, dispatch_start s scope s.state m)
]

put_message_start : (s : HttpStream) (m : Receive) → (put_message m s).1.start_time ≡ s.start_time
put_message_start s m = ground arith

handle_closed_start : (s : HttpStream) → (handle_closed s).1.start_time ≡ s.start_time
unfolding handle_closed
handle_closed_start s = ground arith

-- A request sets the time, whatever comes of it.
pub handle_request_start :
    (calls : TextCalls) (s : HttpStream) (headers : _) (version method : _) (raw_path : _)
    (state : _)
    → (handle_request takes_all calls headers version method raw_path state s).1.start_time ≡ true
unfolding handle_request send_error_response
handle_request_start calls s headers version method raw_path state = ground arith

handle_event_start :
    (calls : TextCalls) (s : HttpStream) (e : Event)
    → s.start_time ≡ true
    → (handle_event takes_all calls e s).1.start_time ≡ true
unfolding handle_event
handle_event_start calls s (Event.request i hs v m p st) started =
    handle_request_start calls s hs v m p st
handle_event_start calls s (Event.body i d) started = put_message_start s _ ∙ started
handle_event_start calls s (Event.end_body i) started = put_message_start s _ ∙ started
handle_event_start calls s (Event.stream_closed i) started = handle_closed_start s ∙ started
handle_event_start calls s e started = started

pub handle_start :
    (calls : TextCalls) (s : HttpStream) (e : Event)
    → s.start_time ≡ true
    → (handle takes_all calls e s).1.start_time ≡ true
unfolding handle
handle_start calls s e started =
    if_both (λ (z : Result (Unit {0}) × HttpStream). z.1.start_time ≡ true) s.is_closed started
      (handle_event_start calls s e started)
