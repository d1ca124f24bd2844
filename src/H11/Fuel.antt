-- ===== src/H11/Fuel.antt =====
-- protocol/h11.py: nothing that the protocol or its stream sends makes more events of h11.
use hypercorn.Prelude.{
  ℕ, ◌≤◌, ◌≡◌, refl, Option, none, some, [], ◌∷◌, ◌++◌, if_both, leb, Option-cases, inl, inr, arith,
}
use hypercorn.Prelude.Bytes.{Bytes, Headers}
use hypercorn.Events.{Event}
use hypercorn.Exec.{Result}
use hypercorn.Exec.Leads.{Keeps, seq-Keeps}
use hypercorn.Streams.{Streams}
use hypercorn.H11.Package.{H11, Sendable}
use hypercorn.H11.Laws.{EventLaws}
use hypercorn.H11.Connection.{
  Connection, parsing, passing, send, start_next_cycle, events_left, their_state,
}
use hypercorn.H11.Protocol.{
  H11Protocol, transmit, send_h11_event, send_error_response, empty_headers, is_failed,
  close_stream, close_given, maybe_recycle, recycle_or_close, restart, can_recycle, send_head,
  limit_headers, stream_send,
}

abbrev pub Within : {C T : Type 0} → H11 C → ℕ → H11Protocol C T → Type 0
Within h n s = events_left h s.connection ≤ n

module _ {C T : Type 0} (h : H11 C) (streams : Streams T) (laws : EventLaws h) (n : ℕ) where
  send_within : (c : Connection C) (e : Sendable) → events_left h (send h c e).1 ≤ events_left h c
  unfolding send
  send_within (parsing c) e = omega (arith, laws.send_fewer c e)
  send_within (passing [] c) e = omega arith
  send_within (passing (b ∷ buffer) c) e = omega arith

  transmit-Within : (d : Option Bytes) → Keeps (Within h n) (transmit h streams d)
  transmit-Within (some d) s p = p
  transmit-Within none s p =
      if_both (λ (z : Result (Unit {0}) × H11Protocol C T). Within h n z.1)
        (is_failed (their_state h s.connection)) p p

  pub send_h11_event-Within : (e : Sendable) → Keeps (Within h n) (send_h11_event h streams e)
  unfolding send_h11_event
  send_h11_event-Within e s p =
      transmit-Within (send h s.connection e).0
        (record s { connection = (send h s.connection e).1 })
        (omega (arith, send_within s.connection e))

  pub send_error_response-Within :
      (status : ℕ) → Keeps (Within h n) (send_error_response h streams status)
  unfolding send_error_response
  send_error_response-Within status s =
      let head = Sendable.response status (empty_headers ++ s.config.response_headers) in
      seq-Keeps (Within h n) (send_h11_event h streams head)
        (send_h11_event h streams Sendable.end_of_message) (send_h11_event-Within head)
        (send_h11_event-Within Sendable.end_of_message) s

  close_given-Within : (o : Option T) → Keeps (Within h n) (close_given h streams o)
  close_given-Within none s p = p
  close_given-Within (some t) s p = p

  pub close_stream-Within : Keeps (Within h n) (close_stream h streams)
  unfolding close_stream
  close_stream-Within s = close_given-Within s.stream s

  cycle_within :
      (c d : Connection C) → start_next_cycle h c ≡ some d → events_left h d ≤ events_left h c
  unfolding start_next_cycle
  cycle_within (parsing c) d e = elim (Option-cases (h.start_next_cycle c)) [
    | inl none_left ↦ ground (arith, none_left)
    | inr (c', next) ↦ ground (arith, laws.cycle_fewer c c' next)
  ]
  cycle_within (passing buffer c) d e = ground arith

  restart-Within :
      (c : Connection C) (o : Option (Connection C)) (s : H11Protocol C T)
      → start_next_cycle h c ≡ o
      → events_left h c ≤ n
      → Within h n s
      → Within h n (restart h streams o s).1
  restart-Within c none s e p q = q
  restart-Within c (some d) s e p q = omega (arith, cycle_within c d e)

  recycle_or_close-Within : Keeps (Within h n) (recycle_or_close h streams)
  unfolding start_next_cycle
  recycle_or_close-Within s p =
      if_both (λ (z : Result (Unit {0}) × H11Protocol C T). Within h n z.1)
        (can_recycle h streams s)
        (restart-Within s.connection (start_next_cycle h s.connection) s refl p p) p

  maybe_recycle-Within : Keeps (Within h n) (maybe_recycle h streams)
  unfolding maybe_recycle
  maybe_recycle-Within =
      seq-Keeps (Within h n) (close_stream h streams) (recycle_or_close h streams)
        close_stream-Within recycle_or_close-Within

  send_head-Within :
      (headers : Headers) (status : ℕ) → Keeps (Within h n) (send_head h streams headers status)
  send_head-Within headers status s l =
      let all_headers = headers ++ s.config.response_headers in
      if_both (λ (z : Result (Unit {0}) × H11Protocol C T). Within h n z.1) (leb 200 status)
        (send_h11_event-Within (Sendable.response status (all_headers ++ limit_headers h streams s))
          s l)
        (send_h11_event-Within (Sendable.informational status all_headers) s l)

  pub stream_send-Within : (e : Event) → Keeps (Within h n) (stream_send h streams e)
  unfolding stream_send
  stream_send-Within (Event.response i headers status) s l = send_head-Within headers status s l
  stream_send-Within (Event.body i d) s l = send_h11_event-Within (Sendable.data_event d) s l
  stream_send-Within (Event.end_body i) s l = send_h11_event-Within Sendable.end_of_message s l
  stream_send-Within (Event.stream_closed i) s l = maybe_recycle-Within s l
  stream_send-Within e s l = l
