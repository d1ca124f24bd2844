-- ===== src/H11/Using.antt =====
-- protocol/h11.py: `_handle_events` ends. Each turn that goes on uses an event up.
use hypercorn.Prelude.{
  ℕ, suc, ◌≤◌, ◌≡◌, refl, ap, Bool, true, false, Option, none, some, List, [], ◌∷◌, ◌++◌, String,
  if_both, arith,
}
use hypercorn.Prelude.Bytes.{Bytes}
use hypercorn.Events.{Event}
use hypercorn.Exec.{Result, ok, err, ◌>>◌, pure, raise, lift, continue}
use hypercorn.Exec.Leads.{Keeps, then-Keeps, seq-Keeps}
use hypercorn.Wire.{updated}
use hypercorn.Streams.{Streams}
use hypercorn.H11.Package.{
  H11, Request, Sendable, Received, request, data_received, message_end, connection_closed,
  need_data, paused, remote_error,
}
use hypercorn.H11.Laws.{EventLaws, is_consumed}
use hypercorn.H11.Upgrade.{wants_websocket, wants_h2c, is_h2_preface, h2c_request}
use hypercorn.H11.Connection.{
  Connection, parsing, passing, next_event, pass_through, events_left, trailing_data,
}
use hypercorn.H11.Requests.{give_request-Keeps}
use hypercorn.H11.Fuel.{Within, send_h11_event-Within, stream_send-Within}
use hypercorn.H11.Protocol.{
  H11Protocol, Run, sent, gave, emit, send_h11_event, stream_send, stream_id,
}
use hypercorn.H11.Reading.{
  Ending, goes_on, leaves, waits, send_all, give_to, give, open_stream, give_request, count_request,
  create_stream, check_protocol, h2c_headers, h2c_required, take_request, take_event, take_next,
  reject, give_or_leave,
}

-- A turn that goes on leaves at most `n` events.
abbrev pub Uses : {C T : Type 0} → H11 C → ℕ → Result Ending × H11Protocol C T → Type 0
Uses h n (ok goes_on, s) = Within h n s
Uses h n (ok leaves, s) = Unit {0}
Uses h n (ok waits, s) = Unit {0}
Uses h n (err e, s) = Unit {0}

module _ {C T : Type 0} (h : H11 C) (streams : Streams T) (laws : EventLaws h)
    (decode : Bytes → Option String) (n : ℕ) where
  send_all-Within : (es : List Event) → Keeps (Within h n) (send_all h streams decode es)
  unfolding send_all
  send_all-Within [] s l = l
  send_all-Within (e ∷ es) s l =
      seq-Keeps (Within h n) (stream_send h streams e) (send_all h streams decode es)
        (stream_send-Within h streams laws n e) (send_all-Within es) s l

  give_to-Within : (e : Event) (t : T) → Keeps (Within h n) (give_to h streams decode e t)
  unfolding give_to
  give_to-Within e t s l =
      let a = streams.handle t e in
      seq-Keeps (Within h n) (send_all h streams decode a.sends) (lift a.result)
        (send_all-Within a.sends) (λ v m. m)
        (record s { trace = s.trace ++ gave e ∷ []; stream = some a.stream }) l

  give-Within : (e : Event) (o : Option T) → Keeps (Within h n) (give h streams decode e o)
  give-Within e none s l = l
  give-Within e (some t) s l = give_to-Within e t s l

  pass_within : (c : Connection C) → events_left h (pass_through h c) ≤ events_left h c
  pass_within (parsing c) = one_buffer (h.trailing_data c)
    where
      one_buffer : (b : Bytes) → events_left h (passing b c) ≤ suc (suc (h.events_left c))
      one_buffer [] = omega arith
      one_buffer (x ∷ b) = omega arith
  pass_within (passing buffer c) = omega arith

  open_stream-Within : (w : Bool) → Keeps (Within h n) (open_stream h streams decode w)
  open_stream-Within true s l = omega (arith, pass_within s.connection)
  open_stream-Within false s l = l

  give_request-Within : (r : Request) → Keeps (Within h n) (give_request h streams decode r)
  give_request-Within r =
      give_request-Keeps h streams decode (Within h n) r
        (λ version method s l. give-Within _ s.stream s l)

  create_stream-Within : (r : Request) → Keeps (Within h n) (create_stream h streams decode r)
  unfolding create_stream
  create_stream-Within r =
      let rest : Run C T = give_request h streams decode r >> count_request h streams decode in
      then-Keeps (Within h n) (lift (wants_websocket r))
        (λ w. open_stream h streams decode w >> rest) (λ s l. l)
        (λ w. seq-Keeps (Within h n) (open_stream h streams decode w) rest (open_stream-Within w) (
          seq-Keeps (Within h n) (give_request h streams decode r) (count_request h streams decode)
            (give_request-Within r) (λ s l. l)))

  check_protocol-Within : (r : Request) → Keeps (Within h n) (check_protocol h streams decode r)
  unfolding check_protocol
  check_protocol-Within r s l =
      let event = Sendable.informational 101 (s.config.response_headers ++ h2c_headers) in
      let refuse : Run C T = λ t.
        raise (h2c_required h streams decode (trailing_data h t.connection) (h2c_request r)) t in
      if_both (λ (z : Result (Unit {0}) × H11Protocol C T). Within h n z.1) (wants_h2c r)
        (seq-Keeps (Within h n) (send_h11_event h streams event) refuse
          (send_h11_event-Within h streams laws n event) (λ t g. g) s l)
        (if_both (λ (z : Result (Unit {0}) × H11Protocol C T). Within h n z.1) (is_h2_preface r) l
          l)

  take_request-Within : (r : Request) → Keeps (Within h n) (take_request h streams decode r)
  unfolding take_request
  take_request-Within r =
      let busy_again : Run C T = emit (sent (updated false)) in
      seq-Keeps (Within h n) (busy_again >> check_protocol h streams decode r)
        (create_stream h streams decode r)
        (seq-Keeps (Within h n) busy_again (check_protocol h streams decode r) (λ s l. l)
          (check_protocol-Within r))
        (create_stream-Within r)

  goes_on-Uses :
      (z : Result (Unit {0}) × H11Protocol C T)
      → Within h n z.1
      → Uses h n (continue z (λ u. pure goes_on))
  goes_on-Uses (ok u, s) l = l
  goes_on-Uses (err e, s) l = tt

  give_or_leave-Uses :
      (e : Event) (o : Option T) (s : H11Protocol C T)
      → Within h n s
      → Uses h n (give_or_leave h streams decode e o s)
  give_or_leave-Uses e none s l = tt
  give_or_leave-Uses e (some t) s l =
      goes_on-Uses (give_to h streams decode e t s) (give_to-Within e t s l)

  leaves-Uses : (z : Result (Unit {0}) × H11Protocol C T) → Uses h n (continue z (λ u. pure leaves))
  leaves-Uses (ok u, s) = tt
  leaves-Uses (err e, s) = tt

  take_parsed-Uses :
      (s : H11Protocol C T) (c : C) (e : Received)
      → (h.next_event c).0 ≡ e
      → events_left h (parsing c) ≤ suc n
      → Uses h n
          (take_event h streams decode e (record s { connection = parsing (h.next_event c).1 }))
  unfolding take_event
  take_parsed-Uses s c (request r) is l =
      let t : H11Protocol C T = record s { connection = parsing (h.next_event c).1 } in
      goes_on-Uses (take_request h streams decode r t)
        (take_request-Within r t (omega (arith, laws.next_fewer c (ap is_consumed is))))
  take_parsed-Uses s c (data_received d) is l =
      give_or_leave-Uses (Event.body stream_id d) s.stream _
        (omega (arith, laws.next_fewer c (ap is_consumed is)))
  take_parsed-Uses s c message_end is l =
      give_or_leave-Uses (Event.end_body stream_id) s.stream _
        (omega (arith, laws.next_fewer c (ap is_consumed is)))
  take_parsed-Uses s c connection_closed is l = tt
  take_parsed-Uses s c need_data is l = tt
  take_parsed-Uses s c paused is l = tt
  take_parsed-Uses s c (remote_error status) is l =
      leaves-Uses
        (reject h streams decode status (record s { connection = parsing (h.next_event c).1 }))

  pub next-Uses :
      (c : Connection C) (s : H11Protocol C T)
      → events_left h c ≤ suc n
      → Uses h n (take_next h streams decode (next_event h c) s)
  unfolding next_event take_event
  next-Uses (parsing c) s l = take_parsed-Uses s c (h.next_event c).0 refl l
  next-Uses (passing [] c) s l = tt
  next-Uses (passing (b ∷ buffer) c) s l =
      give_or_leave-Uses (Event.ws_data stream_id (b ∷ buffer)) s.stream _ (omega arith)
