-- ===== src/H11/Ending.antt =====
-- protocol/h11.py: the loop of `_handle_events` ends.
use hypercorn.Prelude.{ℕ, zero, suc, ◌≤◌, ◌≢◌, [], ◌∷◌, false, Option, String, if_both, ◌&&◌, arith}
use hypercorn.Prelude.Bytes.{Bytes}
use hypercorn.Exec.{Result, ok, err, continue, pure}
use hypercorn.Wire.{WireEvent, raw_data, shut, updated}
use hypercorn.Streams.{Streams}
use hypercorn.H11.Package.{H11, Sendable}
use hypercorn.H11.Laws.{EventLaws}
use hypercorn.H11.Connection.{
  Connection, parsing, passing, next_event, events_left, receive_data, waits_for_100,
}
use hypercorn.H11.Protocol.{H11Protocol, close_stream}
use hypercorn.H11.Reading.{
  Ending, goes_on, leaves, waits, take_next, answer_100, turn, after_turn, read_loop, handle_events,
  take_event, handle, resume,
}
use hypercorn.H11.Fuel.{Within, send_h11_event-Within}
use hypercorn.H11.Using.{Uses, next-Uses}

module _ {C T : Type 0} (h : H11 C) (streams : Streams T) (laws : EventLaws h)
    (decode : Bytes → Option String) where
  answer_100-Within :
      (n : ℕ) (s : H11Protocol C T) → Within h n s → Within h n (answer_100 h streams decode s).1
  answer_100-Within n s l =
      let event = Sendable.informational 100 s.config.response_headers in
      if_both (λ (z : Result (Unit {0}) × H11Protocol C T). Within h n z.1)
        (waits_for_100 h s.connection) (send_h11_event-Within h streams laws n event s l) l

  answered-Uses :
      (n : ℕ) (z : Result (Unit {0}) × H11Protocol C T)
      → Within h (suc n) z.1
      → Uses h n (continue z (λ u s. take_next h streams decode (next_event h s.connection) s))
  answered-Uses n (ok u, s) l = next-Uses h streams laws decode n s.connection s l
  answered-Uses n (err e, s) l = tt

  turn-Uses :
      (n : ℕ) (s : H11Protocol C T) → Within h (suc n) s → Uses h n (turn h streams decode s)
  unfolding turn
  turn-Uses n s l = answered-Uses n (answer_100 h streams decode s) (answer_100-Within (suc n) s l)

  turned_ends :
      (n : ℕ) (z : Result Ending × H11Protocol C T)
      → Uses h n z
      → ((s : H11Protocol C T)
          → Within h n s
          → (read_loop h streams decode (suc n) s).0 ≢ ok goes_on)
      → (continue z (after_turn h streams decode (read_loop h streams decode (suc n)))).0
        ≢ ok goes_on
  turned_ends n (ok goes_on, s) u k = k s u
  turned_ends n (ok leaves, s) u k = λ e. cc
  turned_ends n (ok waits, s) u k = λ e. cc
  turned_ends n (err e, s) u k = λ d. cc

  -- With no event left the loop is left.
  empty_ends :
      (c : Connection C) (s : H11Protocol C T)
      → events_left h c ≤ 0
      → (continue
          (take_next h streams decode (next_event h c) s)
          (after_turn h streams decode (pure goes_on))).0
        ≢ ok goes_on
  unfolding next_event take_event
  empty_ends (parsing c) s l = absurd (omega arith)
  empty_ends (passing [] c) s l = λ e. cc
  empty_ends (passing (b ∷ buffer) c) s l = absurd (omega arith)

  answered_ends :
      (z : Result (Unit {0}) × H11Protocol C T)
      → Within h 0 z.1
      → (continue
          (continue z (λ u s. take_next h streams decode (next_event h s.connection) s))
          (after_turn h streams decode (pure goes_on))).0
        ≢ ok goes_on
  answered_ends (ok u, s) l = empty_ends s.connection s l
  answered_ends (err e, s) l = λ d. cc

  read_loop_ends :
      (n : ℕ) (s : H11Protocol C T)
      → Within h n s
      → (read_loop h streams decode (suc n) s).0 ≢ ok goes_on
  unfolding read_loop turn
  read_loop_ends zero s l = answered_ends (answer_100 h streams decode s) (answer_100-Within 0 s l)
  read_loop_ends (suc n) s l =
      turned_ends n (turn h streams decode s) (turn-Uses n s l) (read_loop_ends n)

  leaves_ends :
      (z : Result (Unit {0}) × H11Protocol C T) → (continue z (λ u. pure leaves)).0 ≢ ok goes_on
  leaves_ends (ok u, s) = λ e. cc
  leaves_ends (err e, s) = λ d. cc

  handle_events_ends : (s : H11Protocol C T) → (handle_events h streams decode s).0 ≢ ok goes_on
  unfolding handle_events
  handle_events_ends s = read_loop_ends (events_left h s.connection) s (omega arith)

  handle_ends : (s : H11Protocol C T) (w : WireEvent) → (handle h streams decode w s).0 ≢ ok goes_on
  unfolding handle
  handle_ends s (raw_data d) =
      handle_events_ends (record s { connection = receive_data h s.connection d })
  handle_ends s shut = leaves_ends (close_stream h streams s)
  handle_ends s (updated idle) = λ e. cc

  resume_ends : (s : H11Protocol C T) → (resume h streams decode s).0 ≢ ok goes_on
  unfolding resume
  resume_ends s =
      if_both (λ (z : Result Ending × H11Protocol C T). z.0 ≢ ok goes_on)
        (s.is_waiting && s.can_read) (handle_events_ends (record s { is_waiting = false }))
        (λ e. cc)

  -- The loop of a connection ends, whatever the client sends and whatever the stream does: with
  -- the fuel of `handle_events`, neither the data of the client nor the end of a wait leaves the loop
  -- unfinished. The bytes that have arrived give finitely many events of h11.
  pub reading_ends :
      (s : H11Protocol C T) (w : WireEvent)
      → ((handle h streams decode w s).0 ≢ ok goes_on)
        × ((resume h streams decode s).0 ≢ ok goes_on)
  reading_ends s w = (handle_ends s w, resume_ends s)
