-- ===== src/HttpStream/Finish.antt =====
-- protocol/http_stream.py, app_send(None): what the end of the application sends, and that the
-- events after it send nothing out of order.
use hypercorn.Prelude.{
  if◌then◌else◌, ◌&&◌, ◌≡◌, refl, subst, sym, inl, inr, true, false, none, some, List, [], ◌∷◌,
  ◌++◌, if_both, All,
}
use hypercorn.Events.{Event}
use hypercorn.Exec.{Result, ◌>>◌, pure}
use hypercorn.Asgi.{Receive, http_disconnect, TextCalls, sent, put, logged}
use hypercorn.HttpStream.{
  takes_all, Refuses, HttpStream, AsgiHttpState, request, response, trailers, closed, handle, Run,
  send, handle_event, handle_closed, put_message, send_error_response, error_headers, error_summary,
  is_not_closed, is_given,
}
use hypercorn.HttpStream.Sending.{app_finished, cleanup}
use hypercorn.HttpStream.Phases.{
  Phase, waiting, streaming, ended, done, At, Tells, Ordered, emit-At,
}
use hypercorn.HttpStream.Inputs.{is_request_event}

-- Events alone, as they come when the application has finished.
unfoldable pub receive_all : Refuses → TextCalls → HttpStream → List Event → HttpStream
receive_all refuses calls s [] = s
receive_all refuses calls s (e ∷ es) = receive_all refuses calls (handle refuses calls e s).1 es

put_message-At :
    (s : HttpStream) (m : Receive) (p : Phase) → At p s.trace → At p (put_message m s).1.trace
put_message-At s m p a =
    if_both (λ (z : Result (Unit {0}) × HttpStream). At p z.1.trace) s.app_put
      (emit-At p p s.trace (put m) refl a) a

handle_closed-At : (s : HttpStream) (p : Phase) → At p s.trace → At p (handle_closed s).1.trace
unfolding handle_closed
handle_closed-At s p a =
    let shut : HttpStream = record s { is_closed = true } in
    let log : HttpStream = record s { is_closed = true; trace = s.trace ++ logged none ∷ [] } in
    if_both (λ (m : Run). At p ((m >> put_message http_disconnect) shut).1.trace)
      (is_not_closed s.state && (is_given s.scope && s.start_time))
      (put_message-At log http_disconnect p (emit-At p p s.trace (logged none) refl a))
      (put_message-At shut http_disconnect p a)

handle_event-At :
    (calls : TextCalls) (s : HttpStream) (e : Event) (p : Phase)
    → is_request_event e ≡ false
    → At p s.trace
    → At p (handle_event takes_all calls e s).1.trace
unfolding handle_event
handle_event-At calls s (Event.request i hs v m q st) p n a = cc
handle_event-At calls s (Event.body i d) p n a = put_message-At s _ p a
handle_event-At calls s (Event.end_body i) p n a = put_message-At s _ p a
handle_event-At calls s (Event.stream_closed i) p n a = handle_closed-At s p a
handle_event-At calls s e p n a = a

pub receive_all-At :
    (calls : TextCalls) (s : HttpStream) (es : List Event) (p : Phase)
    → All (λ e. is_request_event e ≡ false) es
    → At p s.trace
    → At p (receive_all takes_all calls s es).trace
unfolding receive_all handle
receive_all-At calls s [] p n a = a
receive_all-At calls s (e ∷ es) p n a =
    receive_all-At calls (handle takes_all calls e s).1 es p n.1 (
      if_both (λ (z : Result (Unit {0}) × HttpStream). At p z.1.trace) s.is_closed a
        (handle_event-At calls s e p n.0 a))

-- The error response of an application that sent none, and the closing of the stream.
close_unanswered :
    (s : HttpStream)
    → At waiting s.trace
    → s.start_time ≡ true
    → At done ((send_error_response takes_all 500 >> send takes_all Event.stream_closed) s).1.trace
unfolding send_error_response
close_unanswered s w started =
    let begun = sent (Event.response s.stream_id error_headers 500) in
    let over = sent (Event.end_body s.stream_id) in
    let log = logged (some (error_summary 500)) in
    let a : At ended ((s.trace ++ begun ∷ []) ++ over ∷ []) =
      emit-At streaming ended (s.trace ++ begun ∷ []) over refl
        (emit-At waiting streaming s.trace begun refl w) in
    let b : At ended (((s.trace ++ begun ∷ []) ++ over ∷ []) ++ log ∷ []) =
      emit-At ended ended ((s.trace ++ begun ∷ []) ++ over ∷ []) log refl a in
    subst
      (λ z.
        At done
          ((send_error_response takes_all 500 >> send takes_all Event.stream_closed)
            (record s { start_time = z })).1.trace)
      (sym started)
      (emit-At ended done (((s.trace ++ begun ∷ []) ++ over ∷ []) ++ log ∷ [])
        (sent (Event.stream_closed s.stream_id)) refl b)

finish_open :
    (s : HttpStream) (state : AsgiHttpState)
    → s.start_time ≡ true
    → Tells state s.trace s.response_of
    → At done ((cleanup takes_all state >> send takes_all Event.stream_closed) s).1.trace
finish_open s request started t = close_unanswered s t started
finish_open s response started t = emit-At streaming done s.trace _ refl t.0
finish_open s trailers started t = emit-At streaming done s.trace _ refl t.0
finish_open s closed started (inl t) = emit-At ended done s.trace _ refl t
finish_open s closed started (inr t) = emit-At done done s.trace _ refl t

-- The end of the application finds the order kept.
ordered_phase :
    (state : AsgiHttpState) (s : HttpStream)
    → Tells state s.trace s.response_of
    → (p : Phase) × At p s.trace
ordered_phase request s t = (waiting, t)
ordered_phase response s t = (streaming, t.0)
ordered_phase trailers s t = (streaming, t.0)
ordered_phase closed s (inl t) = (ended, t)
ordered_phase closed s (inr t) = (done, t)

pub app_finished_phase :
    (s : HttpStream)
    → s.start_time ≡ true
    → Ordered s
    → (p : Phase) × At p (app_finished takes_all s).1.trace
unfolding app_finished
app_finished_phase s started o =
    if_both (λ (z : Result (Unit {0}) × HttpStream). (p : Phase) × At p z.1.trace) s.is_closed
      (ordered_phase s.state s o) (done, finish_open s s.state started o)

pub app_finished_done :
    (s : HttpStream)
    → s.start_time ≡ true
    → Ordered s
    → s.is_closed ≡ false
    → At done (app_finished takes_all s).1.trace
unfolding app_finished
app_finished_done s started o not_closed =
    subst
      (λ b.
        At done
          ((if b
            then pure tt s
            else (do cleanup takes_all s.state; send takes_all Event.stream_closed) s)).1.trace)
      (sym not_closed) (finish_open s s.state started o)
