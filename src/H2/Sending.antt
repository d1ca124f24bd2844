-- ===== src/H2/Sending.antt =====
-- protocol/h2.py: what a stream sends keeps the table of streams and the trace in agreement.
use hypercorn.Prelude.{ℕ, refl, Option, none, some, ◌∷◌, ◌++◌, String, ◌&&◌, is_nil, if◌then◌else◌}
use hypercorn.Prelude.Bytes.{Bytes, Headers}
use hypercorn.Events.{Event}
use hypercorn.Exec.{protocol_error, Result, ok, err, ◌>>◌, pure, or_raise}
use hypercorn.Exec.Leads.{Keeps, then-Keeps, seq-Keeps, if-Keeps, or_raise-Keeps}
use hypercorn.Wire.{updated}
use hypercorn.Streams.{Queues}
use hypercorn.H2Send.Scheduler.{H2Calls}
use hypercorn.H2Send.Scheduler.Operations.{buffer_data, end, send_trailers}
use hypercorn.H2.Package.{H2Package}
use hypercorn.H2.Protocol.{
  H2Protocol, Run, sent, emit, on_sender, set_connection, on_connection, flush, put, close_stream,
  count_request, create_stream, open_pushed, push_request, pushed, create_server_push, send_head,
  status_header, report_idle, send_event, except_closed, stream_send,
}
use hypercorn.H2.Lifetime.{TableOk}
use hypercorn.H2.Steps.{
  emit-TableOk, on_sender-TableOk, on_connection-TableOk, flush-TableOk, put-TableOk,
  close_stream-TableOk, create_stream-TableOk,
}

module _ {C P T : Type 0} (h2 : H2Package C P) (calls : H2Calls C P) (queues : Queues T)
    (decode : Bytes → Option String) where
  open_pushed-TableOk :
      (i : ℕ) (headers : Headers) → Keeps TableOk (open_pushed h2 calls queues decode i headers)
  open_pushed-TableOk i headers =
      let create = create_stream h2 calls queues decode i headers in
      let finish = put h2 calls queues decode i (Event.end_body i) in
      seq-Keeps TableOk create (finish >> count_request h2 calls queues decode)
        (create_stream-TableOk h2 calls queues decode i headers)
        (seq-Keeps TableOk finish (count_request h2 calls queues decode)
          (put-TableOk h2 calls queues decode i (Event.end_body i) refl) (λ s k. k))

  pushed-TableOk :
      (i : ℕ) (headers : Headers) (o : Option C)
      → Keeps TableOk (pushed h2 calls queues decode i headers o)
  pushed-TableOk i headers none s k = k
  pushed-TableOk i headers (some c) s k =
      seq-Keeps TableOk (set_connection c >> flush h2 calls queues decode)
        (open_pushed h2 calls queues decode i headers)
        (seq-Keeps TableOk (set_connection c) (flush h2 calls queues decode) (λ t m. m)
          (flush-TableOk h2 calls queues decode))
        (open_pushed-TableOk i headers) s k

  create_server_push-TableOk :
      (i : ℕ) (path : Bytes) (headers : Headers)
      → Keeps TableOk (create_server_push h2 calls queues decode i path headers)
  unfolding create_server_push
  create_server_push-TableOk i path headers s =
      let request = push_request h2 calls queues decode s path headers in
      then-Keeps TableOk (or_raise protocol_error (h2.next_stream_id s.sender.connection))
        (λ j.
          pushed h2 calls queues decode j request (h2.push_stream s.sender.connection i j request))
        (or_raise-Keeps TableOk protocol_error (h2.next_stream_id s.sender.connection))
        (λ j. pushed-TableOk j request (h2.push_stream s.sender.connection i j request)) s

  send_head-TableOk :
      (i : ℕ) (headers : Headers) (status : ℕ)
      → Keeps TableOk (send_head h2 calls queues decode i headers status)
  send_head-TableOk i headers status s =
      let head : C → Option C = λ c.
        h2.send_headers c i
          (status_header h2 calls queues decode status ∷ headers ++ s.config.response_headers) in
      seq-Keeps TableOk (on_connection head) (flush h2 calls queues decode)
        (on_connection-TableOk head) (flush-TableOk h2 calls queues decode) s

  report_idle-TableOk : Keeps TableOk (report_idle h2 calls queues decode)
  report_idle-TableOk s =
      let finish : Run C P T Unit =
        on_connection h2.close_connection >> flush h2 calls queues decode in
      seq-Keeps TableOk (if is_nil s.streams && s.terminated then finish else pure tt)
        (emit (sent (updated (is_nil s.streams))))
        (if-Keeps TableOk (is_nil s.streams && s.terminated) finish (pure tt)
          (seq-Keeps TableOk (on_connection h2.close_connection) (flush h2 calls queues decode)
            (on_connection-TableOk h2.close_connection) (flush-TableOk h2 calls queues decode))
          (λ t k. k))
        (emit-TableOk (sent (updated (is_nil s.streams))) (λ i b. refl)) s

  send_event-TableOk : (e : Event) → Keeps TableOk (send_event h2 calls queues decode e)
  unfolding send_event
  send_event-TableOk (Event.response i headers status) s k = send_head-TableOk i headers status s k
  send_event-TableOk (Event.informational_response i headers status) s k =
      send_head-TableOk i headers status s k
  send_event-TableOk (Event.body i d) s k =
      then-Keeps TableOk (on_sender (buffer_data calls i d)) (λ pause. pure tt)
        (on_sender-TableOk (buffer_data calls i d)) (λ pause t m. m) s k
  send_event-TableOk (Event.ws_data i d) s k =
      then-Keeps TableOk (on_sender (buffer_data calls i d)) (λ pause. pure tt)
        (on_sender-TableOk (buffer_data calls i d)) (λ pause t m. m) s k
  send_event-TableOk (Event.end_body i) s k = on_sender-TableOk (end calls i) s k
  send_event-TableOk (Event.end_data i) s k = on_sender-TableOk (end calls i) s k
  send_event-TableOk (Event.trailers i headers) s k =
      on_sender-TableOk (send_trailers calls i headers) s k
  send_event-TableOk (Event.stream_closed i) s k =
      seq-Keeps TableOk (close_stream h2 calls queues decode i) (report_idle h2 calls queues decode)
        (close_stream-TableOk h2 calls queues decode i) report_idle-TableOk s k
  send_event-TableOk (Event.request i headers version method path state) s k =
      create_server_push-TableOk i path headers s k

  except_closed-TableOk :
      (z : Result (Unit {0}) × H2Protocol C P T)
      → TableOk z.1
      → TableOk (except_closed h2 calls queues decode z).1
  except_closed-TableOk (ok u, s) k = k
  except_closed-TableOk (err e, s) k = k

  pub stream_send-TableOk : (e : Event) → Keeps TableOk (stream_send h2 calls queues decode e)
  unfolding stream_send
  stream_send-TableOk e s k =
      except_closed-TableOk (send_event h2 calls queues decode e s) (send_event-TableOk e s k)
