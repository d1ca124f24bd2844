-- ===== src/Wrapper.antt =====
-- protocol/__init__.py, ProtocolWrapper: the protocol of a connection, and its change to HTTP/2.
pub mod PriorKnowledge
mod Tests
use text.Mathlib.Text.{◌==◌ as str_eq}
use hypercorn.Prelude.{Bool, true, false, Option, none, some, [], ◌∷◌, String, if◌then◌else◌}
use hypercorn.Prelude.Bytes.{Bytes, Headers}
use hypercorn.Events.{ConnectionState}
use hypercorn.Exec.{
  Error, h2_protocol_assumed, h2c_protocol_required, Result, ok, err, Exec, ◌>>=◌, ◌>>◌, pure,
  continue,
}
use hypercorn.Wire.{WireEvent, raw_data}
use hypercorn.Streams.{Streams, Queues}
use hypercorn.H11.Package.{H11}
use hypercorn.H11.Protocol.{H11Protocol, H11Config, init as h11_init}
use hypercorn.H11.Reading.{Ending, handle as h11_handle, resume as h11_resume}
use hypercorn.H2Send.Scheduler.{H2Calls}
use hypercorn.H2.Package.{H2Package}
use hypercorn.H2.Protocol.{H2Protocol, H2Config, init as h2_init}
use hypercorn.H2.Reading.{initiate as h2_initiate, handle as h2_handle}

-- `http2` keeps the protocol that it has taken over from, if there was one.
pub data Protocol (C D P T U : Type 0) : Type 0 where
  http1 : H11Protocol C T → Protocol C D P T U
  http2 : Option (H11Protocol C T) → H2Protocol D P U → Protocol C D P T U

pub record Configs : Type 0 where
  pub h11 : H11Config
  pub h2 : H2Config

-- The packages, the streams, and a new connection and tree of priorities.
module _ {C D P T U : Type 0} (h11 : H11 C) (streams : Streams T) (h2 : H2Package D P)
    (calls : H2Calls D P) (queues : Queues U) (decode : Bytes → Option String) (connection : D)
    (tree : P) (configs : Configs) (state : ConnectionState) where
  abbrev pub Run : Type 0
  Run = Exec (Protocol C D P T U) Unit

  abbrev pub create_h2 : H2Protocol D P U
  create_h2 = h2_init configs.h2 state connection tree

  abbrev pub is_h2 : Option String → Bool
  is_h2 none = false
  is_h2 (some alpn_protocol) = str_eq alpn_protocol "h2"

  unfoldable pub create : Option String → Protocol C D P T U
  unfolding h2_init h11_init
  create alpn_protocol =
      if is_h2 alpn_protocol then http2 none create_h2 else http1 (h11_init h11 configs.h11 state)

  -- A step of a protocol of HTTP/2.
  abbrev pub in_h2 :
      Option (H11Protocol C T)
      → Result {0} Unit × H2Protocol D P U
      → Result {0} Unit × Protocol C D P T U
  in_h2 before (r, p) = (r, http2 before p)

  abbrev pub pass_on : Bytes → Exec (H2Protocol D P U) Unit
  pass_on [] = pure tt
  pass_on (b ∷ d) = h2_handle h2 calls queues decode (raw_data (b ∷ d))

  -- The two exceptions by which HTTP/1.1 gives the connection to HTTP/2.
  abbrev pub change : Error → H11Protocol C T → Result {0} Unit × Protocol C D P T U
  change (h2_protocol_assumed d) p =
      in_h2 (some p) ((do h2_initiate h2 calls queues decode none none; pass_on d) create_h2)
  change (h2c_protocol_required d headers settings) p =
      in_h2 (some p) (
        (do h2_initiate h2 calls queues decode (some headers) (some settings); pass_on d) create_h2)
  change e p = (err e, http1 p)

  abbrev pub after_h11 : Result {0} Ending × H11Protocol C T → Result {0} Unit × Protocol C D P T U
  after_h11 (ok ending, p) = (ok tt, http1 p)
  after_h11 (err e, p) = change e p

  unfoldable pub initiate : Run
  unfolding h2_initiate
  initiate (http1 p) = (ok tt, http1 p)
  initiate (http2 before p) = in_h2 before (h2_initiate h2 calls queues decode none none p)

  unfoldable pub handle : WireEvent → Run
  unfolding h2_initiate h2_handle h11_handle h2_init
  handle w (http1 p) = after_h11 (h11_handle h11 streams decode w p)
  handle w (http2 before p) = in_h2 before (h2_handle h2 calls queues decode w p)

  -- The rest of `handle` where the loop of HTTP/1.1 has waited.
  unfoldable pub resume : Run
  unfolding h2_initiate h2_handle h11_resume h2_init
  resume (http1 p) = after_h11 (h11_resume h11 streams decode p)
  resume (http2 before p) = (ok tt, http2 before p)
