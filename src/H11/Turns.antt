-- ===== src/H11/Turns.antt =====
-- protocol/h11.py: the turns of `_handle_events`, as far as the life of the streams goes.
use hypercorn.Prelude.{
  ℕ, zero, suc, ◌≡◌, refl, ap, subst, ◌∙◌, Bool, true, false, Option, none, some, [], ◌∷◌, ◌&&◌,
  String, if_both,
}
use hypercorn.Prelude.Bytes.{Bytes}
use hypercorn.Events.{Event}
use hypercorn.Exec.{Result, Exec, pure}
use hypercorn.Exec.Leads.{Keeps, continue-Leads, then-Keeps, seq-Keeps}
use hypercorn.Wire.{WireEvent, raw_data, shut, updated}
use hypercorn.Streams.{Streams}
use hypercorn.H11.Package.{
  H11, Received, request, data_received, message_end, connection_closed, need_data, paused,
  remote_error,
}
use hypercorn.H11.Laws.{StateLaws}
use hypercorn.H11.Connection.{Connection, parsing, passing, next_event, receive_data, events_left}
use hypercorn.H11.Protocol.{H11Protocol, Run, stream_id, close_stream}
use hypercorn.H11.Reading.{
  Ending, goes_on, leaves, waits, give_to, take_request, take_event, take_next, answer_100, reject,
  turn, after_turn, read_loop, handle_events, handle, resume, give_or_leave, then_goes_on,
}
use hypercorn.H11.Lifetime.{given, Busy, LifeOk, Quiet-LifeOk}
use hypercorn.H11.QuietSteps.{answer_100-Keeps, reject-Keeps}
use hypercorn.H11.Sending.{close_stream-NoneOpen, NoneOpen-LifeOk}
use hypercorn.H11.Streaming.{take_request-LifeOk, give_to-LifeOk, IsContent}

module _ {C T : Type 0} (h : H11 C) (streams : Streams T) (laws : StateLaws h)
    (decode : Bytes → Option String) where
  then_goes_on-LifeOk :
      (m : Run C T) (s : H11Protocol C T)
      → LifeOk h (m s).1
      → LifeOk h (then_goes_on h streams decode m s).1
  then_goes_on-LifeOk m s l =
      continue-Leads (LifeOk h) (LifeOk h) (m s) (λ u. pure goes_on) (λ t k. k) l (λ u t k. k)

  give_or_leave-LifeOk :
      (e : Event) (o : Option T) (s : H11Protocol C T)
      → IsContent e
      → s.stream ≡ o
      → LifeOk h s
      → LifeOk h (give_or_leave h streams decode e o s).1
  give_or_leave-LifeOk e none s c at l = l
  give_or_leave-LifeOk e (some t) s c at l =
      then_goes_on-LifeOk (give_to h streams decode e t) s
        (give_to-LifeOk h streams laws decode e t s c at l)

  -- A client that is idle has no stream open.
  none_open_of_idle : (b : Bool) → ¬ (b ≡ true) → b ≡ false
  none_open_of_idle true n = absurd (n refl)
  none_open_of_idle false n = refl

  reject-LifeOk : (status : ℕ) → Keeps (LifeOk h) (reject h streams decode status)
  reject-LifeOk status =
      reject-Keeps h streams laws (LifeOk h) (Quiet-LifeOk h) (λ t k. (given t.stream, k.told))
        decode status

  -- An event of h11, with the connection that it leaves.
  take_parsed-LifeOk :
      (s : H11Protocol C T) (c : C) (e : Received)
      → s.connection ≡ parsing c
      → (h.next_event c).0 ≡ e
      → LifeOk h s
      → LifeOk h (record s { connection = parsing (h.next_event c).1 })
      → LifeOk h
          (take_event h streams decode e (record s { connection = parsing (h.next_event c).1 })).1
  unfolding take_event
  take_parsed-LifeOk s c (request r) at is l m =
      let none_open : given s.stream ≡ false =
        none_open_of_idle (given s.stream)
          (λ is_open. subst (Busy h) at (l.busy is_open) (laws.request_idle c r is)) in
      let t : H11Protocol C T = record s { connection = parsing (h.next_event c).1 } in
      then_goes_on-LifeOk (take_request h streams decode r) t (
        take_request-LifeOk h streams laws decode r t (record {
          told = l.told ∙ ap some none_open;
          none_open = none_open;
          busy = laws.request_busy c r is;
        }))
  take_parsed-LifeOk s c (data_received d) at is l m =
      give_or_leave-LifeOk (Event.body stream_id d) s.stream _ refl refl m
  take_parsed-LifeOk s c message_end at is l m =
      give_or_leave-LifeOk (Event.end_body stream_id) s.stream _ refl refl m
  take_parsed-LifeOk s c connection_closed at is l m = m
  take_parsed-LifeOk s c need_data at is l m = m
  take_parsed-LifeOk s c paused at is l m = record { told = m.told; busy = m.busy }
  take_parsed-LifeOk s c (remote_error status) at is l m =
      seq-Keeps (LifeOk h) (reject h streams decode status) (pure leaves) (reject-LifeOk status)
        (λ t k. k) _ m

  next-LifeOk :
      (c : Connection C) (s : H11Protocol C T)
      → s.connection ≡ c
      → LifeOk h s
      → LifeOk h (take_next h streams decode (next_event h c) s).1
  unfolding next_event take_event
  next-LifeOk (parsing c) s at l = take_parsed-LifeOk s c (h.next_event c).0 at refl l (record {
    told = l.told;
    busy = λ is_open. laws.next_busy c (subst (Busy h) at (l.busy is_open));
  })
  next-LifeOk (passing [] c) s at l = record { told = l.told; busy = λ is_open. tt }
  next-LifeOk (passing (b ∷ buffer) c) s at l =
      give_or_leave-LifeOk (Event.ws_data stream_id (b ∷ buffer)) s.stream _ refl refl
        (record { told = l.told; busy = λ is_open. tt })

  turn-LifeOk : Keeps (LifeOk h) (turn h streams decode)
  unfolding turn
  turn-LifeOk =
      then-Keeps (LifeOk h) (answer_100 h streams decode)
        (λ u s. take_next h streams decode (next_event h s.connection) s)
        (answer_100-Keeps h streams laws (LifeOk h) (Quiet-LifeOk h)
          (λ t k. (given t.stream, k.told)) decode)
        (λ u s l. next-LifeOk s.connection s refl l)

  after_turn-LifeOk :
      (again : Exec (H11Protocol C T) Ending) (ending : Ending)
      → Keeps (LifeOk h) again
      → Keeps (LifeOk h) (after_turn h streams decode again ending)
  after_turn-LifeOk again goes_on k s l = k s l
  after_turn-LifeOk again leaves k s l = l
  after_turn-LifeOk again waits k s l = l

  read_loop-LifeOk : (n : ℕ) → Keeps (LifeOk h) (read_loop h streams decode n)
  unfolding read_loop
  read_loop-LifeOk zero s l = l
  read_loop-LifeOk (suc n) s l =
      then-Keeps (LifeOk h) (turn h streams decode)
        (after_turn h streams decode (read_loop h streams decode n)) turn-LifeOk
        (λ ending. after_turn-LifeOk (read_loop h streams decode n) ending (read_loop-LifeOk n)) s l

  handle_events-LifeOk : Keeps (LifeOk h) (handle_events h streams decode)
  unfolding handle_events
  handle_events-LifeOk s = read_loop-LifeOk (suc (events_left h s.connection)) s

  receive-Busy : (c : Connection C) (d : Bytes) → Busy h c → Busy h (receive_data h c d)
  unfolding receive_data
  receive-Busy (parsing c) d b = laws.receive_busy c d b
  receive-Busy (passing buffer c) d b = tt

  pub handle-LifeOk : (w : WireEvent) → Keeps (LifeOk h) (handle h streams decode w)
  unfolding handle
  handle-LifeOk (raw_data d) s l =
      handle_events-LifeOk (record s { connection = receive_data h s.connection d })
        (record { told = l.told; busy = λ is_open. receive-Busy s.connection d (l.busy is_open) })
  handle-LifeOk shut s l =
      seq-Keeps (LifeOk h) (close_stream h streams) (pure leaves)
        (λ s l.
          NoneOpen-LifeOk h (close_stream h streams s).1 (close_stream-NoneOpen h streams laws s l))
        (λ s l. l) s l
  handle-LifeOk (updated idle) s l = l

  pub resume-LifeOk : Keeps (LifeOk h) (resume h streams decode)
  unfolding resume
  resume-LifeOk s l =
      if_both (λ (z : Result Ending × H11Protocol C T). LifeOk h z.1) (s.is_waiting && s.can_read)
        (handle_events-LifeOk (record s { is_waiting = false })
          (record { told = l.told; busy = l.busy }))
        l
