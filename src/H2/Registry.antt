-- ===== src/H2/Registry.antt =====
-- protocol/h2.py: the streams of a connection over its whole life.
use hypercorn.Prelude.{
  ℕ, ◌≡◌, refl, sym, ap, ◌∙◌, true, false, Option, some, List, [], ◌∷◌, String, arith,
}
use hypercorn.Prelude.Bytes.{Bytes, Headers}
use hypercorn.Events.{Event, ConnectionState}
use hypercorn.Exec.{Exec}
use hypercorn.Wire.{WireEvent}
use hypercorn.Streams.{Queues}
use hypercorn.H2Send.Scheduler.{H2Calls, Scheduler}
use hypercorn.H2.Package.{H2Package}
use hypercorn.H2.Tables.{find}
use hypercorn.H2.Protocol.{H2Protocol, H2Config, init, on_sender, flush, stream_send}
use hypercorn.H2.Reading.{handle, acknowledge, initiate}
use hypercorn.H2.Lifetime.{given, open_after, TableOk}
use hypercorn.H2.Steps.{on_sender-TableOk, flush-TableOk}
use hypercorn.H2.Sending.{stream_send-TableOk}
use hypercorn.H2.Turns.{handle-TableOk, acknowledge-TableOk, initiate-TableOk}

-- What reaches a protocol: its start, an event of the server, an event that a stream sends, data
-- that a stream has taken, a queue that moves on, a step of the sender or its flush, or the worker's
-- end.
pub data Input (C P T : Type 0) : Type 0 where
  begins : Option Headers → Option Bytes → Input C P T
  told : WireEvent → Input C P T
  sends : Event → Input C P T
  takes : ℕ → ℕ → Input C P T
  moves : (ℕ → T → T) → Input C P T
  works : Exec (Scheduler C P) Unit → Input C P T
  flushes : Input C P T
  terminates : Input C P T

unfoldable pub moved : {T : Type 0} → (ℕ → T → T) → List (ℕ × T) → List (ℕ × T)
moved f [] = []
moved f ((i, t) ∷ rest) = (i, f i t) ∷ moved f rest

pub given-moved :
    {T : Type 0} (f : ℕ → T → T) (i : ℕ) (s : List (ℕ × T))
    → given (find i (moved f s)) ≡ given (find i s)
unfolding find moved
given-moved f i [] = refl
given-moved f i ((j, t) ∷ rest) = ground (arith, given-moved f i rest)

module _ {C P T : Type 0} (h2 : H2Package C P) (calls : H2Calls C P) (queues : Queues T)
    (decode : Bytes → Option String) where
  abbrev pub take_input : H2Protocol C P T → Input C P T → H2Protocol C P T
  take_input s (begins headers settings) = (initiate h2 calls queues decode headers settings s).1
  take_input s (told w) = (handle h2 calls queues decode w s).1
  take_input s (sends e) = (stream_send h2 calls queues decode e s).1
  take_input s (takes length i) = (acknowledge h2 calls queues decode length i s).1
  take_input s (moves f) = record s { streams = moved f s.streams }
  take_input s (works m) = (on_sender m s).1
  take_input s flushes = (flush h2 calls queues decode s).1
  take_input s terminates = record s { terminated = true }

  -- A protocol that takes its inputs one after the other. An input that raises leaves its state.
  unfoldable pub serve : H2Protocol C P T → List (Input C P T) → H2Protocol C P T
  serve s [] = s
  serve s (i ∷ is) = serve (take_input s i) is

  take_input-TableOk :
      (s : H2Protocol C P T) (i : Input C P T) → TableOk s → TableOk (take_input s i)
  take_input-TableOk s (begins headers settings) k =
      initiate-TableOk h2 calls queues decode headers settings s k
  take_input-TableOk s (told w) k = handle-TableOk h2 calls queues decode w s k
  take_input-TableOk s (sends e) k = stream_send-TableOk h2 calls queues decode e s k
  take_input-TableOk s (takes length i) k = acknowledge-TableOk h2 calls queues decode length i s k
  take_input-TableOk s (moves f) k = λ i. k i ∙ ap some (sym (given-moved f i s.streams))
  take_input-TableOk s (works m) k = on_sender-TableOk m s k
  take_input-TableOk s flushes k = flush-TableOk h2 calls queues decode s k
  take_input-TableOk s terminates k = k

  serve-TableOk :
      (s : H2Protocol C P T) (is : List (Input C P T)) → TableOk s → TableOk (serve s is)
  unfolding serve
  serve-TableOk s [] k = k
  serve-TableOk s (i ∷ is) k = serve-TableOk (take_input s i) is (take_input-TableOk s i k)

  -- Whatever reaches a connection of HTTP/2, whatever h2 finds in the data, and whatever its streams
  -- and its sender do, also when a step raises: a stream is given events only from its making to
  -- its StreamClosed, which it is given at most once, and the table holds exactly the streams that
  -- are open.
  pub table_holds_open :
      (config : H2Config) (state : ConnectionState) (c : C) (p : P) (is : List (Input C P T))
      (i : ℕ)
      → let s = serve (init config state c p) is in
        open_after i (some false) s.trace ≡ some (given (find i s.streams))
  unfolding init open_after find
  table_holds_open config state c p is = serve-TableOk (init config state c p) is (λ i. refl)
