-- ===== src/H11/Sending.antt =====
-- protocol/h11.py: what the stream sends, and the end of a stream.
use hypercorn.Prelude.{
  ℕ, ◌≡◌, refl, sym, ap, ◌∙◌, true, false, Option, none, some, ◌++◌, if_both, leb, arith,
}
use hypercorn.Prelude.Bytes.{Headers}
use hypercorn.Events.{Event}
use hypercorn.Exec.{Result}
use hypercorn.Exec.Leads.{Leads, Keeps, then-Leads}
use hypercorn.Wire.{raw_data, shut, updated}
use hypercorn.Streams.{Streams}
use hypercorn.H11.Package.{H11, Sendable}
use hypercorn.H11.Laws.{StateLaws}
use hypercorn.H11.Connection.{Connection, start_next_cycle}
use hypercorn.H11.Protocol.{
  H11Protocol, sent, gave, emit, set_can_read, set_connection, send_h11_event, close_stream,
  close_given, maybe_recycle, recycle_or_close, restart, can_recycle, send_head, limit_headers,
  stream_send, stream_id,
}
use hypercorn.H11.Lifetime.{
  given, open_after, open_after_emit, observe, Quiet, LifeOk, Quiet-LifeOk, IsQuiet, sent-IsQuiet,
}
use hypercorn.H11.QuietSteps.{emit-Keeps, send_h11_event-Keeps}

-- No stream is open, and the trace tells so.
pub record NoneOpen {C T : Type 0} (s : H11Protocol C T) : Type 0 where
  pub told : open_after (some false) s.trace ≡ some false
  pub none_open : given s.stream ≡ false

module _ {C T : Type 0} (h : H11 C) where
  pub NoneOpen-LifeOk : (s : H11Protocol C T) → NoneOpen s → LifeOk h s
  NoneOpen-LifeOk s n = record {
    told = n.told ∙ ap some (sym n.none_open);
    busy = λ is_open. ground (arith, n.none_open);
  }

  pub Quiet-NoneOpen : (s t : H11Protocol C T) → Quiet h s t → NoneOpen s → NoneOpen t
  Quiet-NoneOpen s t q n = record {
    told = q.told ∙ n.told;
    none_open = ap given q.stream ∙ n.none_open;
  }

module _ {C T : Type 0} (h : H11 C) (streams : Streams T) (laws : StateLaws h) where
  emit-NoneOpen : (e : _) → IsQuiet e → Keeps {A = Unit {0}} (NoneOpen {C = C} {T = T}) (emit e)
  emit-NoneOpen = emit-Keeps h streams laws NoneOpen (Quiet-NoneOpen h) (λ s n. (false, n.told))

  close_given-NoneOpen :
      (o : Option T) (s : H11Protocol C T)
      → s.stream ≡ o
      → LifeOk h s
      → NoneOpen (close_given h streams o s).1
  close_given-NoneOpen none s e l = record {
    told = l.told ∙ ap (λ o. some (given o)) e;
    none_open = ap given e;
  }
  close_given-NoneOpen (some t) s e l = record {
    told =
        open_after_emit (some false) s.trace (gave (Event.stream_closed stream_id))
        ∙ ap (λ o. observe o (gave (Event.stream_closed stream_id)))
            (l.told ∙ ap (λ o. some (given o)) e);
    none_open = refl;
  }

  pub close_stream-NoneOpen : Leads (LifeOk h) NoneOpen (close_stream h streams)
  unfolding close_stream
  close_stream-NoneOpen s l = close_given-NoneOpen s.stream s refl l

  restart-NoneOpen : (o : Option (Connection C)) → Keeps NoneOpen (restart h streams o)
  restart-NoneOpen none s n = emit-NoneOpen (sent shut) (sent-IsQuiet shut) s n
  restart-NoneOpen (some connection) s n =
      let t = (set_connection connection s).1 in
      let n' =
        emit-NoneOpen (sent (updated true)) (sent-IsQuiet (updated true)) t
          (record { told = n.told; none_open = n.none_open }) in
      record { told = n'.told; none_open = n'.none_open }

  recycle_or_close-NoneOpen : Keeps NoneOpen (recycle_or_close h streams)
  recycle_or_close-NoneOpen s n =
      if_both (λ (z : Result (Unit {0}) × H11Protocol C T). NoneOpen z.1) (can_recycle h streams s)
        (restart-NoneOpen (start_next_cycle h s.connection) s n)
        (emit-NoneOpen (sent shut) (sent-IsQuiet shut) (set_can_read true s).1
          (record { told = n.told; none_open = n.none_open }))

  maybe_recycle-LifeOk : Keeps (LifeOk h) (maybe_recycle h streams)
  unfolding maybe_recycle
  maybe_recycle-LifeOk s l = NoneOpen-LifeOk h (maybe_recycle h streams s).1 (
      then-Leads (LifeOk h) NoneOpen NoneOpen (close_stream h streams)
        (λ u. recycle_or_close h streams) (λ t n. n) close_stream-NoneOpen
        (λ u. recycle_or_close-NoneOpen) s l)

  pub emit-LifeOk : (e : _) → IsQuiet e → Keeps {A = Unit {0}} (LifeOk {T = T} h) (emit e)
  emit-LifeOk =
      emit-Keeps h streams laws (LifeOk h) (Quiet-LifeOk h) (λ s l. (given s.stream, l.told))

  pub send_h11_event-LifeOk : (e : Sendable) → Keeps (LifeOk h) (send_h11_event h streams e)
  send_h11_event-LifeOk =
      send_h11_event-Keeps h streams laws (LifeOk h) (Quiet-LifeOk h)
        (λ s l. (given s.stream, l.told))

  send_head-LifeOk :
      (headers : Headers) (status : ℕ) → Keeps (LifeOk h) (send_head h streams headers status)
  send_head-LifeOk headers status s l =
      let all_headers = headers ++ s.config.response_headers in
      if_both (λ (z : Result (Unit {0}) × H11Protocol C T). LifeOk h z.1) (leb 200 status)
        (send_h11_event-LifeOk (Sendable.response status (all_headers ++ limit_headers h streams s))
          s l)
        (send_h11_event-LifeOk (Sendable.informational status all_headers) s l)

  pub stream_send-LifeOk : (e : Event) → Keeps (LifeOk h) (stream_send h streams e)
  unfolding stream_send
  stream_send-LifeOk (Event.response i headers status) s l = send_head-LifeOk headers status s l
  stream_send-LifeOk (Event.informational_response i headers status) s l = l
  stream_send-LifeOk (Event.body i d) s l = send_h11_event-LifeOk (Sendable.data_event d) s l
  stream_send-LifeOk (Event.end_body i) s l = send_h11_event-LifeOk Sendable.end_of_message s l
  stream_send-LifeOk (Event.ws_data i d) s l =
      emit-LifeOk (sent (raw_data d)) (sent-IsQuiet (raw_data d)) s l
  stream_send-LifeOk (Event.end_data i) s l = l
  stream_send-LifeOk (Event.stream_closed i) s l = maybe_recycle-LifeOk s l
  stream_send-LifeOk e s l = l
