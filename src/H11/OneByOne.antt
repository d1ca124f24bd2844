-- ===== src/H11/OneByOne.antt =====
-- protocol/h11.py: the streams of a connection over its whole life.
use mathlib.Core.Option.{map as option_map}
use hypercorn.Prelude.{
  ◌≡◌, refl, sym, ap, ◌∙◌, arith, true, false, Option, none, some, List, [], ◌∷◌, String,
}
use hypercorn.Prelude.Bytes.{Bytes}
use hypercorn.Events.{Event, ConnectionState}
use hypercorn.Wire.{WireEvent}
use hypercorn.Streams.{Streams}
use hypercorn.H11.Package.{H11}
use hypercorn.H11.Laws.{StateLaws}
use hypercorn.H11.Protocol.{H11Protocol, H11Config, init}
use hypercorn.H11.Reading.{send_all, handle, resume}
use hypercorn.H11.Lifetime.{given, open_after, LifeOk}
use hypercorn.H11.Streaming.{send_all-LifeOk}
use hypercorn.H11.Turns.{handle-LifeOk, resume-LifeOk}

-- What reaches a protocol: an event of the server, an act of the stream, which changes and sends
-- events when its application does something, the turn of the waiting loop, or the worker's end.
pub data Input (T : Type 0) : Type 0 where
  told : WireEvent → Input T
  acts : (T → T) → List Event → Input T
  resumes : Input T
  terminates : Input T

abbrev pub changed : {C T : Type 0} → (T → T) → H11Protocol C T → H11Protocol C T
changed f s = record s { stream = option_map f s.stream }

module _ {C T : Type 0} (h : H11 C) (streams : Streams T) (decode : Bytes → Option String) where
  abbrev pub take_input : H11Protocol C T → Input T → H11Protocol C T
  take_input s (told w) = (handle h streams decode w s).1
  take_input s (acts f es) = (send_all h streams decode es (changed f s)).1
  take_input s resumes = (resume h streams decode s).1
  take_input s terminates = record s { terminated = true }

  -- A protocol that takes its inputs one after the other. An input that raises leaves its state.
  unfoldable pub serve : H11Protocol C T → List (Input T) → H11Protocol C T
  serve s [] = s
  serve s (i ∷ is) = serve (take_input s i) is

pub given-map : {T : Type 0} (f : T → T) (o : Option T) → given (option_map f o) ≡ given o
given-map f none = refl
given-map f (some t) = refl

module _ {C T : Type 0} (h : H11 C) (streams : Streams T) (laws : StateLaws h)
    (decode : Bytes → Option String) where
  changed-LifeOk : (f : T → T) (s : H11Protocol C T) → LifeOk h s → LifeOk h (changed f s)
  changed-LifeOk f s l = record {
    told = l.told ∙ ap some (sym (given-map f s.stream));
    busy = λ is_open. l.busy (sym (given-map f s.stream) ∙ is_open);
  }

  take_input-LifeOk :
      (s : H11Protocol C T) (i : Input T) → LifeOk h s → LifeOk h (take_input h streams decode s i)
  take_input-LifeOk s (told w) l = handle-LifeOk h streams laws decode w s l
  take_input-LifeOk s (acts f es) l =
      send_all-LifeOk h streams laws decode es (changed f s) (changed-LifeOk f s l)
  take_input-LifeOk s resumes l = resume-LifeOk h streams laws decode s l
  take_input-LifeOk s terminates l = record { told = l.told; busy = l.busy }

  serve-LifeOk :
      (s : H11Protocol C T) (is : List (Input T))
      → LifeOk h s
      → LifeOk h (serve h streams decode s is)
  unfolding serve
  serve-LifeOk s [] l = l
  serve-LifeOk s (i ∷ is) l =
      serve-LifeOk (take_input h streams decode s i) is (take_input-LifeOk s i l)

  init-LifeOk :
      (config : H11Config) (state : ConnectionState) → LifeOk {T = T} h (init h config state)
  unfolding init open_after
  init-LifeOk config state = record { told = refl; busy = λ is_open. absurd (ground arith) }

  -- Whatever reaches a connection of HTTP/1.1, and whatever its streams do, also when a step raises:
  -- a stream is made only when none is open, only an open stream is given events, the last of them
  -- is StreamClosed, and the trace tells whether a stream is open. The state of the client's side in
  -- h11 is the documented one.
  pub streams_one_by_one :
      (config : H11Config) (state : ConnectionState) (is : List (Input T))
      → let s = serve h streams decode (init h config state) is in
        open_after (some false) s.trace ≡ some (given s.stream)
  streams_one_by_one config state is =
      (serve-LifeOk (init h config state) is (init-LifeOk config state)).told
