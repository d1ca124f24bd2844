-- ===== src/H2Send/Scheduler.antt =====
-- protocol/h2_send.py, H2SendScheduler: which stream sends next, and what it sends. The packages h2
-- and priority are the record `H2Calls`; what is given to the connection is appended to `sent`.
-- Between its suspensions a method runs alone, so that the buffer of a stream does not change while
-- `_send_data` holds it.
pub mod Tables
pub mod Turn
pub mod Sends
pub mod Operations
pub mod Batches
use hypercorn.Prelude.{
  ℕ, zero, suc, min, Bool, true, false, ◌&&◌, ◌||◌, Option, none, some, List, [], ◌∷◌, ◌++◌, ◌==◌,
  is_nil, if◌then◌else◌,
}
use hypercorn.Prelude.Bytes.{Bytes, Headers}
use hypercorn.Exec.{
  Error, key_error, protocol_error, index_error, runtime_error, Result, ok, err, Exec, ◌>>=◌, ◌>>◌,
  continue, pure, raise, or_raise,
}
use hypercorn.H2Send.Buffer.{
  StreamBuffer, empty, push, pop, complete, set_complete, set_trailers, close, finish,
}

abbrev pub max_batched_sends : ℕ
max_batched_sends = 16

-- A flow-control window; it may be overdrawn.
pub data Window : Type 0 where
  available overdrawn : ℕ → Window

-- A call that is `none` raises: for h2 a StreamClosedError, another ProtocolError or a KeyError, for
-- priority a MissingStreamError or, where it says so, a DeadlockError or a DuplicateStreamError.
pub record H2Calls (C P : Type 0) : Type 0 where
  pub local_flow_control_window : C → ℕ → Option Window
  pub max_outbound_frame_size : C → ℕ
  pub send_data : C → ℕ → Bytes → Option C
  pub end_stream : C → ℕ → Option C
  pub send_headers : C → ℕ → Headers → Option C
  pub next_stream : P → Option (ℕ × P)
  pub insert_stream : P → ℕ → Option P
  pub remove_stream : P → ℕ → Option P
  pub block : P → ℕ → Option P
  pub unblock : P → ℕ → Option P

pub data Frame : Type 0 where
  data_frame : ℕ → Bytes → Frame
  end_frame : ℕ → Frame
  trailers_frame : ℕ → Headers → Frame

abbrev pub Table : Type 0
Table = List (ℕ × StreamBuffer)

-- `dict.get`, assignment and `del`.
unfoldable pub lookup : ℕ → Table → Option StreamBuffer
lookup i [] = none
lookup i ((j, b) ∷ rest) = if i == j then some b else lookup i rest

unfoldable pub store : ℕ → StreamBuffer → Table → Table
store i b [] = (i, b) ∷ []
store i b ((j, c) ∷ rest) = if i == j then (i, b) ∷ rest else (j, c) ∷ store i b rest

unfoldable pub delete : ℕ → Table → Table
delete i [] = []
delete i ((j, c) ∷ rest) = if i == j then delete i rest else (j, c) ∷ delete i rest

-- `released` are the buffers that were closed out of the table, as those that wait on them see them.
pub record Scheduler (C P : Type 0) : Type 0 where
  pub connection : C
  pub priority : P
  pub has_data : Bool
  pub stream_buffers : Table
  pub sent : List Frame
  pub released : List StreamBuffer

abbrev pub Run : Type 0 → Type 0 → Type 0 → Type 0
Run C P A = Exec (Scheduler C P) A

-- `max(0, min(window, size))`.
abbrev pub chunk_size : Window → ℕ → ℕ
chunk_size (available n) size = min n size
chunk_size (overdrawn n) size = 0

-- The exceptions that `_send_data` catches.
abbrev pub is_caught : Error → Bool
is_caught key_error = true
is_caught protocol_error = true
is_caught e = false

-- The outcome of `_send_data`: `needs_flush`, and the buffer that is finished.
abbrev pub Sent : Type 0
Sent = Bool × Option StreamBuffer

module _ {C P : Type 0} (h2 : H2Calls C P) where
  abbrev pub keep_buffer : ℕ → StreamBuffer → Run C P Unit
  keep_buffer i b s = pure tt (record s { stream_buffers = store i b s.stream_buffers })

  abbrev pub connect : Option C → Frame → Run C P Unit
  connect none f s = raise protocol_error s
  connect (some c) f s = pure tt (record s { connection = c; sent = s.sent ++ f ∷ [] })

  abbrev pub prioritise : Option P → Run C P Unit
  prioritise none s = raise key_error s
  prioritise (some p) s = pure tt (record s { priority = p })

  abbrev pub set_has_data : Run C P Unit
  set_has_data s = pure tt (record s { has_data = true })

  -- `if data: send_data … else: block`.
  abbrev pub send_or_block : ℕ → Bytes → Run C P Bool
  send_or_block i [] s = (prioritise (h2.block s.priority i) >> pure false) s
  send_or_block i (c ∷ d) s =
      (connect (h2.send_data s.connection i (c ∷ d)) (data_frame i (c ∷ d)) >> pure true) s

  abbrev pub send_end : ℕ → Option Headers → Run C P Unit
  send_end i none s = connect (h2.end_stream s.connection i) (end_frame i) s
  send_end i (some hs) s = connect (h2.send_headers s.connection i hs) (trailers_frame i hs) s

  abbrev pub forget : ℕ → Run C P Unit
  forget i s = pure tt (record s { stream_buffers = delete i s.stream_buffers })

  abbrev pub leave_tree : ℕ → Run C P Unit
  leave_tree i s = prioritise (h2.remove_stream s.priority i) s

  -- The end of the stream, once its buffer is complete.
  abbrev pub finish_if_complete : ℕ → StreamBuffer → Bool → Run C P Sent
  finish_if_complete i b needs_flush =
      if complete b
      then (do send_end i b.trailers; forget i; leave_tree i; pure (true, some b))
      else pure (needs_flush, none)

  abbrev pub use_popped : ℕ → Option (Bytes × StreamBuffer) → Run C P Sent
  use_popped i none = raise index_error
  use_popped i (some (d, b)) = do
    keep_buffer i b
    needs_flush ← send_or_block i d
    finish_if_complete i b needs_flush

  -- The body of the `try`.
  unfoldable pub attempt : ℕ → StreamBuffer → Run C P Sent
  unfolding complete
  attempt i b s =
      (do
        window ← or_raise protocol_error (h2.local_flow_control_window s.connection i)
        use_popped i (pop b (chunk_size window (h2.max_outbound_frame_size s.connection))))
        s

  abbrev pub drop_from_tree : Option P → Run C P Unit
  drop_from_tree none s = pure tt s
  drop_from_tree (some p) s = pure tt (record s { priority = p })

  abbrev pub close_found : ℕ → Option StreamBuffer → Run C P Unit
  close_found i none s = pure tt s
  close_found i (some b) s =
      (drop_from_tree (h2.remove_stream s.priority i) >> set_has_data) (record s {
        stream_buffers = delete i s.stream_buffers;
        released = s.released ++ close b ∷ [];
      })

  unfoldable pub close_stream : ℕ → Run C P Unit
  close_stream i s = close_found i (lookup i s.stream_buffers) s

  abbrev pub except_close : ℕ → Result {0} Sent × Scheduler C P → Result {0} Sent × Scheduler C P
  except_close i (ok a, s) = (ok a, s)
  except_close i (err e, s) =
      if is_caught e then (close_stream i >> pure (false, none)) s else (err e, s)

  -- `_send_data`.
  abbrev pub send_found : ℕ → Option StreamBuffer → Run C P Sent
  send_found i none s = pure (false, none) s
  send_found i (some b) s = except_close i (attempt i b s)

  unfoldable pub send_data : ℕ → Run C P Sent
  unfolding attempt close_stream
  send_data i s = send_found i (lookup i s.stream_buffers) s
