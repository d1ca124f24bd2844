-- ===== src/H2/Turns.antt =====
-- protocol/h2.py: what the client sends keeps the table of streams and the trace in agreement.
use hypercorn.Prelude.{
  ℕ, ◌≡◌, refl, true, false, Option, none, some, List, [], ◌∷◌, String, ltb, if_both,
}
use hypercorn.Prelude.Bytes.{Bytes, Headers}
use hypercorn.Events.{Event}
use hypercorn.Exec.{Result, ◌>>◌}
use hypercorn.Exec.Leads.{Keeps, seq-Keeps}
use hypercorn.Wire.{WireEvent, raw_data, shut, updated}
use hypercorn.Streams.{Queues}
use hypercorn.H2Send.Scheduler.{H2Calls, set_has_data}
use hypercorn.H2Send.Scheduler.Operations.{window_updated as window_updated_to}
use hypercorn.H2.Package.{
  H2Package, H2Event, request_received, data_received, stream_ended, stream_reset, window_updated,
  priority_updated, settings_changed, connection_terminated, other_event,
}
use hypercorn.H2.Tables.{find, keys}
use hypercorn.H2.Protocol.{
  H2Protocol, sent, spawned, emit, on_sender, set_connection, on_connection, flush, put,
  close_stream, create_stream,
}
use hypercorn.H2.Reading.{
  reprioritise, put_if_open, accept_request, close_after_limit, take_event, take_events,
  take_received, close_all, set_closed, handle, acknowledge, begin_connection, begin_request,
  initiate,
}
use hypercorn.H2.Lifetime.{TableOk, stays_open}
use hypercorn.H2.Steps.{
  emit-TableOk, on_sender-TableOk, on_connection-TableOk, flush-TableOk, put-TableOk,
  close_stream-TableOk, create_stream-TableOk,
}

module _ {C P T : Type 0} (h2 : H2Package C P) (calls : H2Calls C P) (queues : Queues T)
    (decode : Bytes → Option String) where
  put_if_open-TableOk :
      (i : ℕ) (e : Event) (o : Option T) (stays : stays_open e ≡ true)
      → Keeps TableOk (put_if_open h2 calls queues decode i e o)
  put_if_open-TableOk i e none stays s k = k
  put_if_open-TableOk i e (some t) stays s k = put-TableOk h2 calls queues decode i e stays s k

  accept_request-TableOk :
      (i : ℕ) (headers : Headers) → Keeps TableOk (accept_request h2 calls queues decode i headers)
  accept_request-TableOk i headers s =
      let create = create_stream h2 calls queues decode i headers in
      if_both (λ (z : Result (Unit {0}) × H2Protocol C P T). TableOk s → TableOk z.1) s.terminated
        (seq-Keeps TableOk (on_connection (λ c. h2.reset_stream c i))
          (on_connection h2.refuse_streams) (on_connection-TableOk (λ c. h2.reset_stream c i))
          (on_connection-TableOk h2.refuse_streams) s)
        (seq-Keeps TableOk create (emit (sent (updated false)))
          (create_stream-TableOk h2 calls queues decode i headers)
          (emit-TableOk (sent (updated false)) (λ j b. refl)) s)

  close_after_limit-TableOk : Keeps TableOk (close_after_limit h2 calls queues decode)
  close_after_limit-TableOk s k =
      if_both (λ (z : Result (Unit {0}) × H2Protocol C P T). TableOk z.1)
        (ltb s.config.keep_alive_max_requests s.keep_alive_requests)
        (on_connection-TableOk h2.close_connection s k) k

  take_event-TableOk : (e : H2Event) → Keeps TableOk (take_event h2 calls queues decode e)
  unfolding take_event
  take_event-TableOk (request_received i headers) s k =
      seq-Keeps TableOk (accept_request h2 calls queues decode i headers)
        (close_after_limit h2 calls queues decode) (accept_request-TableOk i headers)
        close_after_limit-TableOk s k
  take_event-TableOk (data_received i d length) s k =
      put_if_open-TableOk i (Event.body i d) (find i s.streams) refl s k
  take_event-TableOk (stream_ended i) s k =
      put_if_open-TableOk i (Event.end_body i) (find i s.streams) refl s k
  take_event-TableOk (stream_reset i) s k =
      seq-Keeps TableOk (close_stream h2 calls queues decode i)
        (on_sender (window_updated_to calls (some i)))
        (close_stream-TableOk h2 calls queues decode i)
        (on_sender-TableOk (window_updated_to calls (some i))) s k
  take_event-TableOk (window_updated i) s k =
      on_sender-TableOk (window_updated_to calls (some i)) s k
  take_event-TableOk (priority_updated p) s k =
      on_sender-TableOk (reprioritise h2 calls queues decode p) s k
  take_event-TableOk (settings_changed initial_window) s k =
      if_both (λ (z : Result (Unit {0}) × H2Protocol C P T). TableOk z.1) initial_window
        (on_sender-TableOk (window_updated_to calls none) s k) k
  take_event-TableOk connection_terminated s k = emit-TableOk (sent shut) (λ j b. refl) s k
  take_event-TableOk other_event s k = k

  take_events-TableOk : (es : List H2Event) → Keeps TableOk (take_events h2 calls queues decode es)
  unfolding take_events
  take_events-TableOk [] s k = k
  take_events-TableOk (e ∷ es) s k =
      seq-Keeps TableOk (take_event h2 calls queues decode e)
        (take_events h2 calls queues decode es) (take_event-TableOk e) (take_events-TableOk es) s k

  take_received-TableOk :
      (o : Option (List H2Event)) → Keeps TableOk (take_received h2 calls queues decode o)
  take_received-TableOk none s k =
      seq-Keeps TableOk (flush h2 calls queues decode) (emit (sent shut))
        (flush-TableOk h2 calls queues decode) (emit-TableOk (sent shut) (λ j b. refl)) s k
  take_received-TableOk (some es) s k =
      seq-Keeps TableOk (take_events h2 calls queues decode es) (flush h2 calls queues decode)
        (take_events-TableOk es) (flush-TableOk h2 calls queues decode) s k

  close_all-TableOk : (is : List ℕ) → Keeps TableOk (close_all h2 calls queues decode is)
  unfolding close_all
  close_all-TableOk [] s k = k
  close_all-TableOk (i ∷ is) s k =
      seq-Keeps TableOk (close_stream h2 calls queues decode i)
        (close_all h2 calls queues decode is) (close_stream-TableOk h2 calls queues decode i)
        (close_all-TableOk is) s k

  pub handle-TableOk : (w : WireEvent) → Keeps TableOk (handle h2 calls queues decode w)
  unfolding handle
  handle-TableOk (raw_data d) s k =
      let (events, c) = h2.receive_data s.sender.connection d in
      take_received-TableOk events (set_connection c s).1 k
  handle-TableOk shut s k =
      let close = close_all h2 calls queues decode (keys s.streams) in
      seq-Keeps TableOk (set_closed h2 calls queues decode >> close)
        (on_sender (set_has_data calls))
        (seq-Keeps TableOk (set_closed h2 calls queues decode) close (λ t m. m)
          (close_all-TableOk (keys s.streams)))
        (on_sender-TableOk (set_has_data calls)) s k
  handle-TableOk (updated idle) s k = k

  pub acknowledge-TableOk :
      (length i : ℕ) → Keeps TableOk (acknowledge h2 calls queues decode length i)
  unfolding acknowledge
  acknowledge-TableOk length i =
      seq-Keeps TableOk (on_connection (λ c. h2.acknowledge c length i))
        (flush h2 calls queues decode) (on_connection-TableOk (λ c. h2.acknowledge c length i))
        (flush-TableOk h2 calls queues decode)

  begin_connection-TableOk :
      (settings : Option Bytes) → Keeps TableOk (begin_connection h2 calls queues decode settings)
  begin_connection-TableOk none s k = k
  begin_connection-TableOk (some settings) s k =
      on_connection-TableOk (λ c. h2.initiate_upgrade c settings) s k

  begin_request-TableOk :
      (headers : Option Headers) → Keeps TableOk (begin_request h2 calls queues decode headers)
  begin_request-TableOk none s k = k
  begin_request-TableOk (some headers) s k =
      seq-Keeps TableOk (create_stream h2 calls queues decode 1 headers)
        (put h2 calls queues decode 1 (Event.end_body 1))
        (create_stream-TableOk h2 calls queues decode 1 headers)
        (put-TableOk h2 calls queues decode 1 (Event.end_body 1) refl) s k

  pub initiate-TableOk :
      (headers : Option Headers) (settings : Option Bytes)
      → Keeps TableOk (initiate h2 calls queues decode headers settings)
  unfolding initiate
  initiate-TableOk headers settings =
      let begin = begin_connection h2 calls queues decode settings in
      let flushing = flush h2 calls queues decode in
      let request = begin_request h2 calls queues decode headers in
      seq-Keeps TableOk begin (flushing >> (request >> emit spawned))
        (begin_connection-TableOk settings)
        (seq-Keeps TableOk flushing (request >> emit spawned) (flush-TableOk h2 calls queues decode)
          (seq-Keeps TableOk request (emit spawned) (begin_request-TableOk headers)
            (emit-TableOk spawned (λ j b. refl))))
