-- ===== src/HttpStream/Order.antt =====
-- protocol/http_stream.py: the order of the events over the whole life of a stream.
use mathlib.Core.Path.{fun_ext}
use hypercorn.Prelude.{
  ℕ, ◌≡◌, refl, sym, subst, none, ◌∙◌, ◌⊎◌, Bool, true, false, List, [], ◌∷◌, String, All,
}
use hypercorn.Prelude.Bytes.{Bytes, Headers}
use hypercorn.Events.{Event, ConnectionState}
use hypercorn.Utils.{str_in}
use hypercorn.HttpStream.Kept.{app_send_start, handle_start, handle_request_start}
use hypercorn.Asgi.{Config, TextCalls, Effect}
use hypercorn.HttpStream.{
  HttpStream, Refuses, takes_all, Message, init, handle, handle_event, trailers_versions,
}
use hypercorn.HttpStream.Sending.{app_send, app_finished, accepts_trailers}
use hypercorn.HttpStream.Phases.{phase_after, Phase, done, At}
use hypercorn.HttpStream.Finish.{receive_all, receive_all-At, app_finished_phase, app_finished_done}
use hypercorn.HttpStream.Inputs.{
  StreamInv, app_send-StreamInv, handle-StreamInv, handle_request-StreamInv, is_request_event,
}

-- What reaches a stream: an event of the protocol, or a message of the application.
pub data Input : Type 0 where
  receives : Event → Input
  sends : Message → Input

abbrev pub take_input : Refuses → TextCalls → HttpStream → Input → HttpStream
take_input refuses calls s (receives e) = (handle refuses calls e s).1
take_input refuses calls s (sends m) = (app_send refuses m s).1

-- A stream that takes its inputs one after the other. An input that raises leaves its state.
unfoldable pub serve : Refuses → TextCalls → HttpStream → List Input → HttpStream
serve refuses calls s [] = s
serve refuses calls s (i ∷ is) = serve refuses calls (take_input refuses calls s i) is

-- A protocol gives a stream its request once, when it makes the stream.
abbrev pub IsLater : Input → Type 0
IsLater (receives e) = is_request_event e ≡ false
IsLater (sends m) = Unit {0}

take_input-StreamInv :
    (calls : TextCalls) (s : HttpStream) (i : Input)
    → IsLater i
    → StreamInv s
    → StreamInv (take_input takes_all calls s i)
take_input-StreamInv calls s (receives e) l v = handle-StreamInv calls s e l v
take_input-StreamInv calls s (sends m) l v = app_send-StreamInv s m v

serve-StreamInv :
    (calls : TextCalls) (s : HttpStream) (is : List Input)
    → All IsLater is
    → StreamInv s
    → StreamInv (serve takes_all calls s is)
unfolding serve
serve-StreamInv calls s [] l v = v
serve-StreamInv calls s (i ∷ is) l v =
    serve-StreamInv calls (take_input takes_all calls s i) is l.1
      (take_input-StreamInv calls s i l.0 v)

take_input_start :
    (calls : TextCalls) (s : HttpStream) (i : Input)
    → s.start_time ≡ true
    → (take_input takes_all calls s i).start_time ≡ true
take_input_start calls s (receives e) started = handle_start calls s e started
take_input_start calls s (sends m) started = app_send_start s m ∙ started

serve_start :
    (calls : TextCalls) (s : HttpStream) (is : List Input)
    → s.start_time ≡ true
    → (serve takes_all calls s is).start_time ≡ true
unfolding serve
serve_start calls s [] started = started
serve_start calls s (i ∷ is) started =
    serve_start calls (take_input takes_all calls s i) is (take_input_start calls s i started)

-- A new stream that is given its request.
abbrev pub opened :
    Refuses
    → TextCalls
    → Config
    → Bool
    → ℕ
    → Headers
    → String
    → String
    → Bytes
    → ConnectionState
    → HttpStream
opened refuses calls config ssl i headers version method raw_path state =
    (handle refuses calls (Event.request i headers version method raw_path state)
      (init config ssl i)).1

module _ (calls : TextCalls) (config : Config) (ssl : Bool) (i : ℕ) (headers : Headers)
    (version method : String) (raw_path : Bytes) (state : ConnectionState)
    (trail : (accepts_trailers headers ≡ true) ⊎ (str_in version trailers_versions ≡ false))
    (is : List Input) (later : All IsLater is) where
  served-StreamInv : StreamInv (
      serve takes_all calls
        (opened takes_all calls config ssl i headers version method raw_path state)
        is)
  unfolding handle handle_event init phase_after
  served-StreamInv =
      serve-StreamInv calls
        (opened takes_all calls config ssl i headers version method raw_path state) is later
        (handle_request-StreamInv calls (init config ssl i) headers version method raw_path state
          trail refl refl refl)

  served_start :
      (serve takes_all calls
        (opened takes_all calls config ssl i headers version method raw_path state)
        is).start_time
      ≡ true
  unfolding handle handle_event init
  served_start =
      serve_start calls (opened takes_all calls config ssl i headers version method raw_path state)
        is (handle_request_start calls (init config ssl i) headers version method raw_path state)

  taken_in_order :
      (es : List Event)
      → All (λ e. is_request_event e ≡ false) es
      → (p : Phase) × At p
          (receive_all takes_all calls
            (app_finished takes_all (
              serve takes_all calls
                (opened takes_all calls config ssl i headers version method raw_path state)
                is)).1
            es).trace
  taken_in_order es n =
      let (p, a) =
        app_finished_phase
          (serve takes_all calls
            (opened takes_all calls config ssl i headers version method raw_path state) is)
          served_start served-StreamInv.0 in
      (p, receive_all-At calls _ es p n a)

  taken_closes :
      (serve takes_all calls
          (opened takes_all calls config ssl i headers version method raw_path state)
          is).is_closed
        ≡ false
      → At done
          (app_finished takes_all (
            serve takes_all calls
              (opened takes_all calls config ssl i headers version method raw_path state)
              is)).1.trace
  taken_closes not_closed =
      app_finished_done
        (serve takes_all calls
          (opened takes_all calls config ssl i headers version method raw_path state) is)
        served_start served-StreamInv.0 not_closed

module _ (refuses : Refuses) (takes : (es : List Effect) (e : Event) → refuses es e ≡ none)
    (calls : TextCalls) (config : Config) (ssl : Bool) (i : ℕ) (headers : Headers)
    (version method : String) (raw_path : Bytes) (state : ConnectionState)
    (trail : (accepts_trailers headers ≡ true) ⊎ (str_in version trailers_versions ≡ false))
    (is : List Input) (later : All IsLater is) where
  all_taken : takes_all ≡ refuses
  all_taken = fun_ext λ es. fun_ext λ e. sym (takes es e)

  abbrev served : Refuses → HttpStream
  served f = serve f calls (opened f calls config ssl i headers version method raw_path state) is

  -- With a protocol whose `send` raises nothing: from its request on, whatever a stream is sent by
  -- its protocol and by its application, also when messages of the application raise, and whatever
  -- comes after the application has finished, the events it sends are in the order that a protocol
  -- may rely on: informational responses, one response, its body, its trailers, its end, its
  -- closing. The request has a header `te: trailers` or its version has no trailers.
  pub response_in_order :
      (es : List Event)
      → All (λ e. is_request_event e ≡ false) es
      → (p : Phase) × At p
          (receive_all refuses calls
            (app_finished refuses (
              serve refuses calls
                (opened refuses calls config ssl i headers version method raw_path state)
                is)).1
            es).trace
  response_in_order es n =
      subst (λ f. (p : Phase) × At p (receive_all f calls (app_finished f (served f)).1 es).trace)
        all_taken
        (taken_in_order calls config ssl i headers version method raw_path state trail is later es
          n)

  -- With a protocol whose `send` raises nothing: when the application finishes on a stream that is
  -- not closed, the protocol has been sent a response and the closing of the stream, whatever the
  -- application sent, also if it sent nothing or a message of it raised. The request has a header
  -- `te: trailers` or its version has no trailers.
  pub finish_closes_stream :
      (serve refuses calls
          (opened refuses calls config ssl i headers version method raw_path state)
          is).is_closed
        ≡ false
      → At done
          (app_finished refuses (
            serve refuses calls
              (opened refuses calls config ssl i headers version method raw_path state)
              is)).1.trace
  finish_closes_stream =
      subst (λ f. (served f).is_closed ≡ false → At done (app_finished f (served f)).1.trace)
        all_taken
        (taken_closes calls config ssl i headers version method raw_path state trail is later)
