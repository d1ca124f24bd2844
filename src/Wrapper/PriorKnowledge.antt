-- ===== src/Wrapper/PriorKnowledge.antt =====
-- protocol/__init__.py and protocol/h11.py: a client that speaks HTTP/2 from the first byte.
use hypercorn.Prelude.{
  ◌≡◌, refl, sym, ap, subst, ℕ, if_split, if◌then◌else◌, arith, Bool, true, false, Option, none,
  some, List, [], ◌∷◌, ◌++◌, String, suc,
}
use hypercorn.Prelude.Bytes.{Bytes}
use hypercorn.Events.{ConnectionState}
use hypercorn.Exec.{Error, h2_protocol_assumed, Result, ok, err, Exec, ◌>>◌, continue, pure}
use hypercorn.Wire.{raw_data, updated}
use hypercorn.Streams.{Streams, Queues}
use hypercorn.H11.Package.{H11, Request, Received, request}
use hypercorn.H11.Upgrade.{wants_h2c, is_h2_preface}
use hypercorn.H11.Connection.{
  Connection, parsing, receive_data, next_event, trailing_data, events_left,
}
use hypercorn.H11.Protocol.{H11Protocol, H11Config, init, emit, sent, Effect}
use hypercorn.H11.Reading.{
  take_next, after_turn, handle, handle_events, read_loop, turn, take_event, take_request,
  check_protocol, create_stream, goes_on, h2_preface,
}
use hypercorn.H2Send.Scheduler.{H2Calls}
use hypercorn.H2.Package.{H2Package}
use hypercorn.H2.Reading.{initiate as h2_initiate, handle as h2_handle}
use hypercorn.Wrapper.{
  Protocol, http1, http2, Configs, initiate as wrapper_initiate, handle as wrapper_handle,
}

err_injective : {A : Type 0} {d e : Error} (z : Result A) → z ≡ err d → z ≡ err e → d ≡ e
err_injective z at raised = cc

module _ {C T : Type 0} (h : H11 C) (streams : Streams T) (decode : Bytes → Option String)
    (r : Request) (no_h2c : wants_h2c r ≡ false) (preface : is_h2_preface r ≡ true) where
  -- The exception with which a connection is given to HTTP/2, and what has been done before it.
  abbrev Assumes : {A : Type 0} → Connection C → List Effect → Result A × H11Protocol C T → Type 0
  Assumes c es z =
      (z.0 ≡ err (h2_protocol_assumed (h2_preface ++ trailing_data h c))) × (z.1.trace ≡ es)

  err_through :
      {A B : Type 0} (c : Connection C) (es : List Effect) (z : Result A × H11Protocol C T)
      (f : A → Exec (H11Protocol C T) B)
      → Assumes c es z
      → Assumes c es (continue z f)
  err_through c es (ok a, s) f raised = absurd cc
  err_through c es (err d, s) f (raised, done) = (ap err (err_injective (err d) refl raised), done)

  -- The server is told that the connection is in use.
  abbrev in_use : List Effect → List Effect
  in_use es = es ++ sent (updated false) ∷ []

  check_raises :
      (s : H11Protocol C T) → Assumes s.connection s.trace (check_protocol h streams decode r s)
  unfolding check_protocol
  check_raises s =
      if_split (Assumes s.connection s.trace) (wants_h2c r)
        (λ e. absurd (ground (arith, e, no_h2c)))
        (λ e.
          if_split (Assumes s.connection s.trace) (is_h2_preface r) (λ e. (refl, refl))
            (λ e. absurd (ground (arith, e, preface))))

  take_request_raises :
      (s : H11Protocol C T)
      → Assumes s.connection (in_use s.trace) (take_request h streams decode r s)
  unfolding take_request
  take_request_raises s =
      err_through s.connection (in_use s.trace) (check_protocol h streams decode r _)
        (λ u. create_stream h streams decode r) (check_raises (emit (sent (updated false)) s).1)

  take_event_raises :
      (e : Received) (s : H11Protocol C T)
      → e ≡ request r
      → Assumes s.connection (in_use s.trace) (take_event h streams decode e s)
  unfolding take_event
  take_event_raises e s is =
      subst (λ e. Assumes s.connection (in_use s.trace) (take_event h streams decode e s)) (sym is)
        (err_through s.connection (in_use s.trace) (take_request h streams decode r s)
          (λ u. pure goes_on) (take_request_raises s))

  answered :
      (p : H11Protocol C T) (waits : Bool) (z : Result (Unit {0}) × H11Protocol C T)
      → waits ≡ false
      → (if waits then z else (ok tt, p)) ≡ (ok tt, p)
  answered p true z e = absurd cc
  answered p false z e = refl

  read_raises :
      (s : H11Protocol C T) (c : C) (n : ℕ)
      → h.waits_for_100 c ≡ false
      → (h.next_event c).0 ≡ request r
      → Assumes
          (parsing (h.next_event c).1)
          (in_use s.trace)
          (read_loop h streams decode (suc n) (record s { connection = parsing c }))
  unfolding read_loop turn next_event
  read_raises s c n waits is =
      let t : H11Protocol C T = record s { connection = parsing c } in
      err_through (parsing (h.next_event c).1) (in_use s.trace) (turn h streams decode t)
        (after_turn h streams decode (read_loop h streams decode n))
        (subst
          (λ z.
            Assumes (parsing (h.next_event c).1) (in_use s.trace)
              (continue z (λ u s. take_next h streams decode (next_event h s.connection) s)))
          (sym (answered t (h.waits_for_100 c) _ waits))
          (take_event_raises (h.next_event c).0
            (record s { connection = parsing (h.next_event c).1 }) is))

  -- Data that h11 reads as the preface of HTTP/2, on a new connection.
  pub handle_raises :
      (config : H11Config) (state : ConnectionState) (d : Bytes)
      → h.waits_for_100 (h.receive_data h.new d) ≡ false
      → (h.next_event (h.receive_data h.new d)).0 ≡ request r
      → Assumes
          (parsing (h.next_event (h.receive_data h.new d)).1)
          (in_use [])
          (handle h streams decode (raw_data d) (init h config state))
  unfolding handle handle_events receive_data init
  handle_raises config state d waits is =
      read_raises (init h config state) (h.receive_data h.new d)
        (events_left h (parsing (h.receive_data h.new d))) waits is

module _ {C D P T U : Type 0} (h11 : H11 C) (streams : Streams T) (h2 : H2Package D P)
    (calls : H2Calls D P) (queues : Queues U) (decode : Bytes → Option String) (connection : D)
    (tree : P) (configs : Configs) (state : ConnectionState) where
  -- What is left of a protocol when that of before is forgotten.
  abbrev pub now : Result (Unit {0}) × Protocol C D P T U → Result (Unit {0}) × Protocol C D P T U
  now (r, http1 p) = (r, http1 p)
  now (r, http2 before p) = (r, http2 none p)

  -- What the protocol of HTTP/1.1 has done, which is that of before if it has been given up.
  abbrev pub done_before : Protocol C D P T U → List Effect
  done_before (http1 p) = p.trace
  done_before (http2 none q) = []
  done_before (http2 (some p) q) = p.trace
