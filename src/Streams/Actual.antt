-- ===== src/Streams/Actual.antt =====
-- protocol/http_stream.py and protocol/ws_stream.py as the streams of a protocol: the models of
-- HTTPStream and WSStream fill the interface of Streams.
use hypercorn.Prelude.{
  ℕ, ◌≡◌, refl, sym, ap, ◌∙◌, Bool, true, ◌&&◌, none, List, [], ◌∷◌, ◌++◌, length, drop,
  drop-append_length, append-nil, append_assoc, if_both, if◌then◌else◌,
}
use hypercorn.Events.{Event}
use hypercorn.Exec.{Result, ok, Exec, continue, pure}
use hypercorn.Asgi.{
  Config, TextCalls, Effect, sent, spawned, put, logged, pinging, http_disconnect,
  websocket_disconnect,
}
use hypercorn.HttpStream.{
  HttpStream, Refuses, is_not_closed, is_given, put_message, emit, init as http_init,
  handle as http_handle, handle_event, handle_closed,
}
use hypercorn.WsStream.Wsproto.{Wsproto}
use hypercorn.WsStream.Stream.{WsStream, init as ws_init, is_over, normal_closure, abnormal_closure}
use hypercorn.WsStream.Incoming.{
  handle as ws_handle, handle_open, handle_closed as ws_handle_closed,
}
use hypercorn.Streams.{Answer, Streams}

pub data Stream (C : Type 0) : Type 0 where
  http : HttpStream → Stream C
  websocket : WsStream C → Stream C

-- The events that a stream has sent to its protocol.
unfoldable pub sent_events : List Effect → List Event
sent_events [] = []
sent_events (sent e ∷ es) = e ∷ sent_events es
sent_events (spawned scope ∷ es) = sent_events es
sent_events (put m ∷ es) = sent_events es
sent_events (logged r ∷ es) = sent_events es
sent_events (pinging ∷ es) = sent_events es

module _ {C : Type 0} (refuses : Refuses) (ws : Wsproto C) (calls : TextCalls) (config : Config)
    (ssl : Bool) where
  -- What was sent since `before`.
  abbrev pub new_events : List Effect → List Effect → List Event
  new_events before after = sent_events (drop (length before) after)

  abbrev pub http_answer : List Effect → Result {0} Unit × HttpStream → Answer (Stream C)
  http_answer before (r, s) = record {
    result = r;
    sends = new_events before s.trace;
    stream = http s;
  }

  abbrev pub websocket_answer : List Effect → Result {0} Unit × WsStream C → Answer (Stream C)
  websocket_answer before (r, s) = record {
    result = r;
    sends = new_events before s.trace;
    stream = websocket s;
  }

  unfoldable pub answer : Stream C → Event → Answer (Stream C)
  unfolding http_handle ws_handle sent_events
  answer (http s) e = http_answer s.trace (http_handle refuses calls e s)
  answer (websocket s) e = websocket_answer s.trace (ws_handle ws calls e s)

  -- The number of the stream does not matter: `handle` reads none of a StreamClosed.
  unfoldable pub close : Stream C → Stream C
  unfolding answer
  close s = (answer s (Event.stream_closed 0)).stream

  unfoldable pub streams : Streams (Stream C)
  unfolding http_init ws_init answer close
  streams = record {
    new_http = λ i. http (http_init config ssl i);
    new_websocket = λ i. websocket (ws_init config ssl i);
    handle = answer;
    close = close;
  }

-- What follows `before` in `after` sends nothing.
abbrev Quietly : List Effect → List Effect → Type 0
Quietly before after = (es : List Effect) × (after ≡ before ++ es) × (sent_events es ≡ [])

sent_events-append :
    (ds es : List Effect) → sent_events ds ≡ [] → sent_events es ≡ [] → sent_events (ds ++ es) ≡ []
unfolding sent_events
sent_events-append [] es d e = e
sent_events-append (sent f ∷ ds) es d e = absurd cc
sent_events-append (spawned scope ∷ ds) es d e = sent_events-append ds es d e
sent_events-append (put m ∷ ds) es d e = sent_events-append ds es d e
sent_events-append (logged r ∷ ds) es d e = sent_events-append ds es d e
sent_events-append (pinging ∷ ds) es d e = sent_events-append ds es d e

emit-Quietly :
    (before after : List Effect) (e : Effect)
    → sent_events (e ∷ []) ≡ []
    → Quietly before after
    → Quietly before (after ++ e ∷ [])
emit-Quietly before after e quiet (es, follows, none_sent) = (
  es ++ e ∷ [],
  ap (λ l. l ++ e ∷ []) follows ∙ append_assoc before es (e ∷ []),
  sent_events-append es (e ∷ []) none_sent quiet,
)

nothing-Quietly : (before : List Effect) → Quietly before before
unfolding sent_events
nothing-Quietly before = ([], sym (append-nil before), refl)

module _ {C : Type 0} (refuses : Refuses) (ws : Wsproto C) (calls : TextCalls) where
  abbrev HttpQuiet : List Effect → Result {0} Unit × HttpStream → Type 0
  HttpQuiet before (r, s) = (r ≡ ok tt) × Quietly before s.trace

  abbrev WsQuiet : List Effect → Result {0} Unit × WsStream C → Type 0
  WsQuiet before (r, s) = (r ≡ ok tt) × Quietly before s.trace

  disconnect-Quietly :
      (before : List Effect) (s : HttpStream)
      → Quietly before s.trace
      → HttpQuiet before (put_message http_disconnect s)
  unfolding sent_events
  disconnect-Quietly before s q =
      if_both (HttpQuiet before) s.app_put
        (refl, emit-Quietly before s.trace (put http_disconnect) refl q) (refl, q)

  http_closed-Quietly : (s : HttpStream) → HttpQuiet s.trace (handle_closed s)
  unfolding handle_closed sent_events
  http_closed-Quietly s =
      let shut : HttpStream = record s { is_closed = true } in
      if_both
        (λ (m : Exec HttpStream Unit).
          HttpQuiet s.trace (continue (m shut) (λ u. put_message http_disconnect)))
        (is_not_closed s.state && (is_given s.scope && s.start_time)) {x = emit (logged none)}
        {y = pure tt}
        (disconnect-Quietly s.trace (record shut { trace = s.trace ++ logged none ∷ [] })
          (emit-Quietly s.trace s.trace (logged none) refl (nothing-Quietly s.trace)))
        (disconnect-Quietly s.trace shut (nothing-Quietly s.trace))

  http-Quietly :
      (s : HttpStream) (i : ℕ)
      → HttpQuiet s.trace (http_handle refuses calls (Event.stream_closed i) s)
  unfolding http_handle handle_event
  http-Quietly s i =
      if_both (HttpQuiet s.trace) s.is_closed (refl, nothing-Quietly s.trace)
        (http_closed-Quietly s)

  ws-Quietly :
      (s : WsStream C) (i : ℕ) → WsQuiet s.trace (ws_handle ws calls (Event.stream_closed i) s)
  unfolding ws_handle handle_open ws_handle_closed sent_events
  ws-Quietly s i =
      let code = if is_over s.state then normal_closure else abnormal_closure in
      if_both (WsQuiet s.trace) s.is_closed (refl, nothing-Quietly s.trace)
        (if_both (WsQuiet s.trace) s.app_put
          (
            refl,
            emit-Quietly s.trace s.trace (put (websocket_disconnect code)) refl
                (nothing-Quietly s.trace),
          )
          (refl, nothing-Quietly s.trace))

module _ {C : Type 0} (refuses : Refuses) (ws : Wsproto C) (calls : TextCalls) (config : Config)
    (ssl : Bool) where
  nothing_new :
      (before after : List Effect)
      → Quietly before after
      → new_events refuses ws calls config ssl before after ≡ []
  nothing_new before after (es, follows, none_sent) =
      ap (λ l. sent_events (drop (length before) l)) follows
      ∙ ap sent_events (drop-append_length before es)
      ∙ none_sent

  -- A stream, of either kind and in any state, takes a StreamClosed without an exception and
  -- without an event to its protocol, and becomes what `close` says: what a protocol relies on.
  pub closing_is_quiet :
      (s : Stream C) (i : ℕ)
      → let a = answer refuses ws calls config ssl s (Event.stream_closed i) in
        (a.result ≡ ok tt) × (a.sends ≡ []) × (a.stream ≡ close refuses ws calls config ssl s)
  unfolding answer close http_handle ws_handle handle_event handle_open
  closing_is_quiet (http s) i =
      let (returns, quiet) = http-Quietly refuses ws calls s i in
      (
        returns,
        nothing_new s.trace (http_handle refuses calls (Event.stream_closed i) s).1.trace quiet,
        refl,
      )
  closing_is_quiet (websocket s) i =
      let (returns, quiet) = ws-Quietly refuses ws calls s i in
      (
        returns,
        nothing_new s.trace (ws_handle ws calls (Event.stream_closed i) s).1.trace quiet,
        refl,
      )
