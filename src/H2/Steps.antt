-- ===== src/H2/Steps.antt =====
-- protocol/h2.py: the steps of a protocol keep its table of streams and its trace in agreement.
use hypercorn.Prelude.{
  ℕ, ◌≡◌, refl, sym, ap, ◌∙◌, Bool, true, false, Option, none, some, [], ◌∷◌, String, ◌++◌, if_both,
}
use hypercorn.Prelude.Bytes.{Bytes, Headers, ascii, bytes_eq}
use hypercorn.Events.{Event}
use hypercorn.Exec.{
  Result, protocol_error, name_error, unicode_error, Exec, ◌>>=◌, ◌>>◌, lift, or_raise,
}
use hypercorn.Exec.Leads.{Keeps, then-Keeps, seq-Keeps, or_raise-Keeps}
use hypercorn.Utils.{filter_pseudo_headers}
use hypercorn.Wire.{raw_data}
use hypercorn.Streams.{Queues}
use hypercorn.H2Send.Scheduler.{H2Calls, Scheduler, close_stream as close_buffer}
use hypercorn.H2.Package.{H2Package}
use hypercorn.H2.Tables.{
  find, assign, remove, find-assign_self, find-assign_ne, find-remove_self, find-remove_ne,
}
use hypercorn.H2.Protocol.{
  H2Protocol, Run, Effect, sent, opened, gave, marked, emit, on_sender, set_connection,
  on_connection, send_bytes, flush, put_found, put, close_found, wait_for_space, close_stream,
  new_stream, open_stream, give_request, count_request, create_stream, read_asked,
}
use hypercorn.H2.Lifetime.{
  given, TableOk, observe, open_after_emit, table_after, opened_quiet, gave_quiet, opened_at,
  gave_at, stays_open,
}

-- An effect that is about no stream.
abbrev pub IsQuiet : Effect → Type 0
IsQuiet e = (i : ℕ) (b : Bool) → observe i (some b) e ≡ some b

module _ {C P T : Type 0} where
  pub emit-TableOk : (e : Effect) → IsQuiet e → Keeps TableOk (emit {C = C} {P = P} {T = T} e)
  emit-TableOk e q s k i =
      open_after_emit i (some false) s.trace e
      ∙ ap (λ o. observe i o e) (k i)
      ∙ q i (given (find i s.streams))

  pub on_sender-TableOk :
      {A : Type 0} (m : Exec (Scheduler C P) A) → Keeps TableOk (on_sender {T = T} m)
  on_sender-TableOk m s k = k

  pub on_connection-TableOk : (f : C → Option C) → Keeps TableOk (on_connection {P = P} {T = T} f)
  on_connection-TableOk f s =
      then-Keeps TableOk (or_raise protocol_error (f s.sender.connection)) set_connection
        (or_raise-Keeps TableOk protocol_error (f s.sender.connection)) (λ c t k. k) s

module _ {C P T : Type 0} (h2 : H2Package C P) (calls : H2Calls C P) (queues : Queues T)
    (decode : Bytes → Option String) where
  send_bytes-TableOk : (d : Bytes) → Keeps TableOk (send_bytes h2 calls queues decode d)
  send_bytes-TableOk [] s k = k
  send_bytes-TableOk (b ∷ d) s k = emit-TableOk (sent (raw_data (b ∷ d))) (λ i c. refl) s k

  pub flush-TableOk : Keeps TableOk (flush h2 calls queues decode)
  unfolding flush
  flush-TableOk s =
      let (d, c) = h2.data_to_send s.sender.connection in
      seq-Keeps TableOk (set_connection c) (send_bytes h2 calls queues decode d) (λ t k. k)
        (send_bytes-TableOk d) s

  waits-TableOk : (t : T) (e : Event) → Keeps TableOk (wait_for_space h2 calls queues decode t e)
  waits-TableOk t e s k =
      if_both (λ (z : Result (Unit {0}) × H2Protocol C P T). TableOk z.1) (queues.is_stuck t e) k k

  -- An event that leaves the stream open.
  put_found-TableOk :
      (i : ℕ) (e : Event) (o : Option T) (s : H2Protocol C P T)
      → stays_open e ≡ true
      → find i s.streams ≡ o
      → TableOk s
      → TableOk (put_found h2 calls queues decode i e o s).1
  put_found-TableOk i e none s stays at k = k
  put_found-TableOk i e (some t) s stays at k =
      let changed = assign i (queues.put t e) s.streams in
      waits-TableOk t e (record s { trace = s.trace ++ gave i e ∷ []; streams = changed })
        (table_after s.trace (gave i e) s.streams i changed k
          (ap (λ o. observe i (some (given o)) (gave i e)) at
            ∙ gave_at i e
            ∙ ap some stays
            ∙ ap (λ o. some (given o)) (sym (find-assign_self i (queues.put t e) s.streams)))
          (λ j ne. find-assign_ne i j (queues.put t e) s.streams ne)
          (λ j b ne. gave_quiet j i e b ne))

  pub put-TableOk :
      (i : ℕ) (e : Event) → stays_open e ≡ true → Keeps TableOk (put h2 calls queues decode i e)
  unfolding put
  put-TableOk i e stays s k = put_found-TableOk i e (find i s.streams) s stays refl k

  close_found-TableOk :
      (i : ℕ) (o : Option T) (s : H2Protocol C P T)
      → find i s.streams ≡ o
      → TableOk s
      → TableOk (close_found h2 calls queues decode i o s).1
  close_found-TableOk i none s at k = k
  close_found-TableOk i (some t) s at k =
      let e = Event.stream_closed i in
      waits-TableOk t e
        (record s { trace = s.trace ++ gave i e ∷ []; streams = remove i s.streams })
        (table_after s.trace (gave i e) s.streams i (remove i s.streams) k
          (ap (λ o. observe i (some (given o)) (gave i e)) at
            ∙ gave_at i e
            ∙ ap (λ o. some (given o)) (sym (find-remove_self i s.streams)))
          (λ j ne. find-remove_ne i j s.streams ne) (λ j b ne. gave_quiet j i e b ne))

  pub close_stream-TableOk : (i : ℕ) → Keeps TableOk (close_stream h2 calls queues decode i)
  unfolding close_stream
  close_stream-TableOk i s =
      seq-Keeps TableOk (λ t. close_found h2 calls queues decode i (find i t.streams) t)
        (on_sender (close_buffer calls i))
        (λ t k. close_found-TableOk i (find i t.streams) t refl k)
        (on_sender-TableOk (close_buffer calls i)) s

  open_stream-TableOk : (i : ℕ) (w : Bool) → Keeps TableOk (open_stream h2 calls queues decode i w)
  open_stream-TableOk i w s k =
      let t = new_stream h2 calls queues decode i w in
      table_after s.trace (opened i w) s.streams i (assign i t s.streams) k
        (opened_at i w (given (find i s.streams))
          ∙ ap (λ o. some (given o)) (sym (find-assign_self i t s.streams)))
        (λ j ne. find-assign_ne i j t s.streams ne) (λ j b ne. opened_quiet j i w b ne)

  give_request-TableOk :
      (i : ℕ) (headers : Headers) (method : Bytes) (raw_path : Option Bytes)
      → Keeps TableOk (give_request h2 calls queues decode i headers method raw_path)
  give_request-TableOk i headers method raw_path s =
      let request : Headers → Bytes → String → Run C P T Unit = λ kept path name.
        put h2 calls queues decode i (Event.request i kept "2" name path s.connection_state) in
      let named : Headers → Bytes → Run C P T Unit =
        λ kept path. or_raise unicode_error (decode method) >>= request kept path in
      let found : Headers → Run C P T Unit = λ kept. or_raise name_error raw_path >>= named kept in
      then-Keeps TableOk (lift (filter_pseudo_headers headers)) found (λ t k. k)
        (λ kept.
          then-Keeps TableOk (or_raise name_error raw_path) (named kept)
            (or_raise-Keeps TableOk name_error raw_path)
            (λ path.
              then-Keeps TableOk (or_raise unicode_error (decode method)) (request kept path)
                (or_raise-Keeps TableOk unicode_error (decode method))
                (λ name. put-TableOk i _ refl)))
        s

  pub create_stream-TableOk :
      (i : ℕ) (headers : Headers) → Keeps TableOk (create_stream h2 calls queues decode i headers)
  unfolding create_stream
  create_stream-TableOk i headers =
      let count : Run C P T Unit = count_request h2 calls queues decode >> emit marked in
      let fill : Bytes → Option Bytes → Run C P T Unit =
        λ method path. give_request h2 calls queues decode i headers method path >> count in
      let make : Bytes → Option Bytes → Run C P T Unit = λ method path.
        open_stream h2 calls queues decode i (bytes_eq method (ascii "CONNECT"))
        >> fill method path in
      then-Keeps TableOk (lift (read_asked (record { method = none; raw_path = none }) headers))
        (λ a. or_raise name_error a.method >>= λ method. make method a.raw_path) (λ s k. k)
        (λ a.
          then-Keeps TableOk (or_raise name_error a.method) (λ method. make method a.raw_path)
            (or_raise-Keeps TableOk name_error a.method)
            (λ method.
              seq-Keeps TableOk
                (open_stream h2 calls queues decode i (bytes_eq method (ascii "CONNECT")))
                (fill method a.raw_path) (open_stream-TableOk i _)
                (seq-Keeps TableOk (give_request h2 calls queues decode i headers method a.raw_path)
                  count (give_request-TableOk i headers method a.raw_path)
                  (seq-Keeps TableOk (count_request h2 calls queues decode) (emit marked) (λ s k. k)
                    (emit-TableOk marked (λ j b. refl))))))
