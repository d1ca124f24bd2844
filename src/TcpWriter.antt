-- ===== src/TcpWriter.antt =====
-- asyncio/tcp_writer.py: the writer of a connection, that drains at a high-water mark. The lock makes
-- each method run alone. The stream writer of asyncio is a parameter.
pub mod HighWater
mod Tests
use hypercorn.Prelude.{
  ℕ, ◌+◌, ◌*◌, Bool, true, false, Option, none, some, List, [], length, is_nil, ltb, leb,
  if◌then◌else◌,
}
use hypercorn.Prelude.Bytes.{Bytes}
use hypercorn.Exec.{Error, runtime_error, Result, ok, err, Exec, ◌>>=◌, ◌>>◌, continue, pure, raise}

abbrev pub high_water_mark : ℕ
high_water_mark = 64 * 1024

-- `write` and `drain` of asyncio.StreamWriter, either of which may raise.
pub record Calls (W : Type 0) : Type 0 where
  pub write : W → Bytes → Result {0} W
  pub drain : W → Result {0} W

pub record BufferedWriter (W : Type 0) : Type 0 where
  pub buffered_bytes : ℕ
  pub closed : Bool
  pub error : Option Error
  pub high_water : ℕ
  pub writer : W

unfoldable pub init : {W : Type 0} → W → ℕ → BufferedWriter W
init w high_water = record {
  buffered_bytes = 0;
  closed = false;
  error = none;
  high_water = high_water;
  writer = w;
}

module _ {W : Type 0} (calls : Calls W) where
  abbrev pub raise_error : Option Error → Exec (BufferedWriter W) Unit
  raise_error none = pure tt
  raise_error (some e) = raise e

  -- `_raise_if_failed` and `_raise_if_unavailable`.
  abbrev pub raise_if_failed : Exec (BufferedWriter W) Unit
  raise_if_failed s = raise_error s.error s

  abbrev pub raise_if_unavailable : Exec (BufferedWriter W) Unit
  raise_if_unavailable = do
    raise_if_failed
    λ s. if s.closed then raise runtime_error s else pure tt s

  -- `self._error = error; raise`.
  abbrev pub fail : Error → Exec (BufferedWriter W) Unit
  fail e s = raise e (record s { error = some e })

  abbrev pub drained : Result {0} W → Exec (BufferedWriter W) Unit
  drained (err e) s = fail e s
  drained (ok w) s = pure tt (record s { writer = w; buffered_bytes = 0 })

  -- `_drain`, with the `except` of its callers.
  abbrev pub drain_writer : Exec (BufferedWriter W) Unit
  drain_writer s = drained (calls.drain s.writer) s

  abbrev pub written : Bytes → Result {0} W → Exec (BufferedWriter W) Unit
  written d (err e) s = fail e s
  written d (ok w) s =
      let t : BufferedWriter W = record s {
        writer = w;
        buffered_bytes = s.buffered_bytes + length d;
      } in
      if leb t.high_water t.buffered_bytes then drain_writer t else pure tt t

  unfoldable pub send : Bytes → Exec (BufferedWriter W) Unit
  send d s =
      if is_nil d
      then pure tt s
      else (do raise_if_unavailable; λ t. written d (calls.write t.writer d) t) s

  abbrev pub drain_pending : Exec (BufferedWriter W) Unit
  drain_pending s = if ltb 0 s.buffered_bytes then drain_writer s else pure tt s

  unfoldable pub drain : Exec (BufferedWriter W) Unit
  drain = do raise_if_failed; drain_pending

  unfoldable pub stop : Exec (BufferedWriter W) Unit
  stop s =
      if s.closed
      then raise_if_failed s
      else (do raise_if_failed; drain_pending) (record s { closed = true })
