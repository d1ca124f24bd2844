-- ===== src/H11/Streaming.antt =====
-- protocol/h11.py: reading from the client, as far as the life of the streams goes.
use hypercorn.Prelude.{
  ◌≡◌, refl, ap, ◌∙◌, Bool, true, false, Option, none, some, List, [], ◌∷◌, ◌++◌, String, if_both,
}
use hypercorn.Prelude.Bytes.{Bytes}
use hypercorn.Events.{Event}
use hypercorn.Exec.{Result, ◌>>◌, raise, lift}
use hypercorn.Exec.Leads.{Leads, Keeps, then-Leads, seq-Keeps}
use hypercorn.Wire.{updated}
use hypercorn.Streams.{Streams}
use hypercorn.H11.Package.{H11, Request, Sendable}
use hypercorn.H11.Laws.{StateLaws}
use hypercorn.H11.Upgrade.{wants_websocket, wants_h2c, is_h2_preface, h2c_request}
use hypercorn.H11.Connection.{Connection, parsing, passing, pass_through, trailing_data}
use hypercorn.H11.Protocol.{
  H11Protocol, Run, sent, opened, gave, marked, emit, send_h11_event, stream_send,
}
use hypercorn.H11.Reading.{
  send_all, give_to, give, open_stream, give_request, count_request, create_stream, check_protocol,
  h2c_headers, h2c_required, take_request,
}
use hypercorn.H11.Lifetime.{
  given, open_after, open_after_emit, observe, Busy, LifeOk, FreshOk, fresh-LifeOk, Quiet-FreshOk,
  sent-IsQuiet, marked-IsQuiet,
}
use hypercorn.H11.QuietSteps.{emit-Keeps, send_h11_event-Keeps}
use hypercorn.H11.Requests.{give_request-Keeps}
use hypercorn.H11.Sending.{stream_send-LifeOk}

-- An event that does not end the stream.
abbrev pub IsContent : Event → Type 0
IsContent e = observe (some true) (gave e) ≡ some true

module _ {C T : Type 0} (h : H11 C) (streams : Streams T) (laws : StateLaws h)
    (decode : Bytes → Option String) where
  pub send_all-LifeOk : (es : List Event) → Keeps (LifeOk h) (send_all h streams decode es)
  unfolding send_all
  send_all-LifeOk [] s l = l
  send_all-LifeOk (e ∷ es) s l =
      seq-Keeps (LifeOk h) (stream_send h streams e) (send_all h streams decode es)
        (stream_send-LifeOk h streams laws e) (send_all-LifeOk es) s l

  -- An open stream is given an event that does not end it.
  pub give_to-LifeOk :
      (e : Event) (t : T) (s : H11Protocol C T)
      → IsContent e
      → s.stream ≡ some t
      → LifeOk h s
      → LifeOk h (give_to h streams decode e t s).1
  unfolding give_to
  give_to-LifeOk e t s c at l =
      let a = streams.handle t e in
      let u : H11Protocol C T = record s {
        trace = s.trace ++ gave e ∷ [];
        stream = some a.stream;
      } in
      seq-Keeps (LifeOk h) (send_all h streams decode a.sends) (lift a.result)
        (send_all-LifeOk a.sends) (λ v m. m) u
        (record {
          told =
              open_after_emit (some false) s.trace (gave e)
              ∙ ap (λ o. observe o (gave e)) (l.told ∙ ap (λ o. some (given o)) at)
              ∙ c;
          busy = λ is_open. l.busy (ap given at);
        })

  give-LifeOk :
      (e : Event) (o : Option T) (s : H11Protocol C T)
      → IsContent e
      → s.stream ≡ o
      → LifeOk h s
      → LifeOk h (give h streams decode e o s).1
  give-LifeOk e none s c at l = l
  give-LifeOk e (some t) s c at l = give_to-LifeOk e t s c at l

  pass_through-Busy : (c : Connection C) → Busy h (pass_through h c)
  pass_through-Busy (parsing c) = tt
  pass_through-Busy (passing buffer c) = tt

  open_told :
      (w : Bool) (s : H11Protocol C T)
      → FreshOk h s
      → open_after (some false) (s.trace ++ opened w ∷ []) ≡ some true
  open_told w s f =
      open_after_emit (some false) s.trace (opened w) ∙ ap (λ o. observe o (opened w)) f.told

  open_stream-LifeOk : (w : Bool) → Leads (FreshOk h) (LifeOk h) (open_stream h streams decode w)
  open_stream-LifeOk true s f = record {
    told = open_told true s f;
    busy = λ is_open. pass_through-Busy s.connection;
  }
  open_stream-LifeOk false s f = record { told = open_told false s f; busy = λ is_open. f.busy }

  give_request-LifeOk : (r : Request) → Keeps (LifeOk h) (give_request h streams decode r)
  give_request-LifeOk r =
      give_request-Keeps h streams decode (LifeOk h) r
        (λ version method s l. give-LifeOk _ s.stream s refl refl l)

  count_request-LifeOk : Keeps (LifeOk h) (count_request h streams decode)
  count_request-LifeOk s l = record {
    told =
        open_after_emit (some false) s.trace marked
        ∙ ap (λ o. observe o marked) l.told
        ∙ marked-IsQuiet (given s.stream);
    busy = l.busy;
  }

  create_stream-LifeOk :
      (r : Request) → Leads (FreshOk h) (LifeOk h) (create_stream h streams decode r)
  unfolding create_stream
  create_stream-LifeOk r =
      let rest : Run C T = give_request h streams decode r >> count_request h streams decode in
      then-Leads (FreshOk h) (FreshOk h) (LifeOk h) (lift (wants_websocket r))
        (λ w. open_stream h streams decode w >> rest) (fresh-LifeOk h) (λ s f. f)
        (λ w.
          then-Leads (FreshOk h) (LifeOk h) (LifeOk h) (open_stream h streams decode w) (λ u. rest)
            (λ s l. l) (open_stream-LifeOk w)
            (λ u.
              seq-Keeps (LifeOk h) (give_request h streams decode r)
                (count_request h streams decode) (give_request-LifeOk r) count_request-LifeOk))

  check_protocol-FreshOk : (r : Request) → Keeps (FreshOk h) (check_protocol h streams decode r)
  unfolding check_protocol
  check_protocol-FreshOk r s f =
      let event = Sendable.informational 101 (s.config.response_headers ++ h2c_headers) in
      let refuse : Run C T = λ t.
        raise (h2c_required h streams decode (trailing_data h t.connection) (h2c_request r)) t in
      if_both (λ (z : Result (Unit {0}) × H11Protocol C T). FreshOk h z.1) (wants_h2c r)
        (seq-Keeps (FreshOk h) (send_h11_event h streams event) refuse
          (send_h11_event-Keeps h streams laws (FreshOk h) (Quiet-FreshOk h)
            (λ t g. (false, g.told)) event)
          (λ t g. g) s f)
        (if_both (λ (z : Result (Unit {0}) × H11Protocol C T). FreshOk h z.1) (is_h2_preface r) f f)

  -- A request that is read while no stream is open.
  pub take_request-LifeOk :
      (r : Request) → Leads (FreshOk h) (LifeOk h) (take_request h streams decode r)
  unfolding take_request
  take_request-LifeOk r =
      let busy_again : Run C T = emit (sent (updated false)) in
      then-Leads (FreshOk h) (FreshOk h) (LifeOk h)
        (busy_again >> check_protocol h streams decode r) (λ u. create_stream h streams decode r)
        (fresh-LifeOk h)
        (seq-Keeps (FreshOk h) busy_again (check_protocol h streams decode r)
          (emit-Keeps h streams laws (FreshOk h) (Quiet-FreshOk h) (λ t g. (false, g.told))
            (sent (updated false)) (sent-IsQuiet (updated false)))
          (check_protocol-FreshOk r))
        (λ u. create_stream-LifeOk r)
