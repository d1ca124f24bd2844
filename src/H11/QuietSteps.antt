-- ===== src/H11/QuietSteps.antt =====
-- protocol/h11.py: sending to the client, which leaves the stream as it is.
use hypercorn.Prelude.{
  ◌≡◌, refl, Bool, false, Option, none, some, ◌++◌, if_both, ℕ, String, if◌then◌else◌,
}
use hypercorn.Prelude.Bytes.{Bytes}
use hypercorn.Exec.{Result, pure}
use hypercorn.Exec.Leads.{Keeps, seq-Keeps, if-Keeps}
use hypercorn.Wire.{raw_data, shut}
use hypercorn.Streams.{Streams}
use hypercorn.H11.Package.{H11, Sendable}
use hypercorn.H11.Laws.{StateLaws}
use hypercorn.H11.Connection.{
  Connection, parsing, passing, send, their_state, our_state, waits_for_100,
}
use hypercorn.H11.Protocol.{
  H11Protocol, Effect, sent, emit, transmit, send_h11_event, send_error_response, empty_headers,
  is_failed, may_respond, Run,
}
use hypercorn.H11.Reading.{answer_100, reject}
use hypercorn.H11.Lifetime.{Busy, Quiet, IsQuiet, sent-IsQuiet, emit-Quiet, open_after}

module _ {C : Type 0} (h : H11 C) (laws : StateLaws h) where
  pub send-Busy : (c : Connection C) (e : Sendable) → Busy h c → Busy h (send h c e).1
  unfolding send
  send-Busy (parsing c) e b = laws.send_busy c e b
  send-Busy (passing buffer c) e b = tt

-- A property of the protocol that quiet steps keep.
module _ {C T : Type 0} (h : H11 C) (streams : Streams T) (laws : StateLaws h)
    (P : H11Protocol C T → Type 0) (quiet : (s t : H11Protocol C T) → Quiet h s t → P s → P t)
    (tells : (s : H11Protocol C T)
      → P s
      → (b : Bool) × (open_after (some false) s.trace ≡ some b)) where
  pub emit-Keeps : (e : Effect) → IsQuiet e → Keeps {A = Unit {0}} P (emit e)
  emit-Keeps e q s p =
      let (b, told) = tells s p in quiet s (emit e s).1 (emit-Quiet h e s q b told) p

  transmit-Keeps : (d : Option Bytes) → Keeps P (transmit h streams d)
  transmit-Keeps (some d) s p = emit-Keeps (sent (raw_data d)) (sent-IsQuiet (raw_data d)) s p
  transmit-Keeps none s p =
      if_both (λ (z : Result (Unit {0}) × H11Protocol C T). P z.1)
        (is_failed (their_state h s.connection)) p p

  pub send_h11_event-Keeps : (e : Sendable) → Keeps P (send_h11_event h streams e)
  unfolding send_h11_event
  send_h11_event-Keeps e s p =
      let t : H11Protocol C T = record s { connection = (send h s.connection e).1 } in
      transmit-Keeps (send h s.connection e).0 t (
        quiet s t (record { told = refl; stream = refl; busy = send-Busy h laws s.connection e }) p)

  send_error_response-Keeps : (status : ℕ) → Keeps P (send_error_response h streams status)
  unfolding send_error_response
  send_error_response-Keeps status s =
      let head = Sendable.response status (empty_headers ++ s.config.response_headers) in
      seq-Keeps P (send_h11_event h streams head) (send_h11_event h streams Sendable.end_of_message)
        (send_h11_event-Keeps head) (send_h11_event-Keeps Sendable.end_of_message) s

  pub answer_100-Keeps : (decode : Bytes → Option String) → Keeps P (answer_100 h streams decode)
  answer_100-Keeps decode s p =
      let event = Sendable.informational 100 s.config.response_headers in
      if_both (λ (z : Result (Unit {0}) × H11Protocol C T). P z.1) (waits_for_100 h s.connection)
        (send_h11_event-Keeps event s p) p

  pub reject-Keeps :
      (decode : Bytes → Option String) (status : ℕ) → Keeps P (reject h streams decode status)
  reject-Keeps decode status s =
      let answer : Run C T =
        if may_respond (our_state h s.connection)
        then send_error_response h streams status
        else pure tt in
      seq-Keeps P answer (emit (sent shut))
        (if-Keeps P (may_respond (our_state h s.connection)) (send_error_response h streams status)
          (pure tt) (send_error_response-Keeps status) (λ t p. p))
        (emit-Keeps (sent shut) (sent-IsQuiet shut)) s
