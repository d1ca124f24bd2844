-- ===== src/H2Send/Scheduler/Operations.antt =====
-- protocol/h2_send.py, H2SendScheduler: the methods that streams and the connection call, up to
-- their waits, and the batch of turns.
use hypercorn.Prelude.{ℕ, zero, suc, Bool, ◌||◌, Option, none, some, List, [], ◌∷◌, ◌++◌}
use hypercorn.Prelude.Bytes.{Bytes, Headers}
use hypercorn.Exec.{key_error, runtime_error, ◌>>=◌, ◌>>◌, pure, raise, or_raise}
use hypercorn.H2Send.Buffer.{StreamBuffer, empty, push, set_complete, set_trailers}
use hypercorn.H2Send.Scheduler.{
  H2Calls, Table, lookup, store, Sent, Run, keep_buffer, prioritise, set_has_data, send_data,
}

module _ {C P : Type 0} (h2 : H2Calls C P) where
  -- A stream that the tree does not know yet is blocked; the others raise a DuplicateStreamError.
  abbrev pub block_new : ℕ → Option P → Run C P Unit
  block_new i none s = pure tt s
  block_new i (some p) s = prioritise h2 (h2.block p i) (record s { priority = p })

  unfoldable pub register_stream : ℕ → Run C P Unit
  unfolding empty
  register_stream i s =
      block_new i (h2.insert_stream s.priority i)
        (record s { stream_buffers = store i empty s.stream_buffers })

  abbrev pub unblock_stream : ℕ → Run C P Unit
  unblock_stream i s = prioritise h2 (h2.unblock s.priority i) s

  abbrev pub pushed : ℕ → Option (StreamBuffer × Bool) → Run C P Bool
  pushed i none = raise runtime_error
  pushed i (some (b, should_pause)) = do
    keep_buffer h2 i b
    unblock_stream i
    set_has_data h2
    pure should_pause

  -- `buffer`, whose result says whether the writer waits for space. `push` raises a
  -- BufferCompleteError.
  unfoldable pub buffer_data : ℕ → Bytes → Run C P Bool
  unfolding push
  buffer_data i d s = (do b ← or_raise key_error (lookup i s.stream_buffers); pushed i (push b d)) s

  abbrev pub mark : ℕ → (StreamBuffer → StreamBuffer) → Run C P Unit
  mark i f s =
      (do
        b ← or_raise key_error (lookup i s.stream_buffers)
        keep_buffer h2 i (f b)
        unblock_stream i
        set_has_data h2)
        s

  -- `end` and `trailers`, up to the wait for `_finished`.
  unfoldable pub end : ℕ → Run C P Unit
  unfolding set_complete
  end i = mark i set_complete

  unfoldable pub send_trailers : ℕ → Headers → Run C P Unit
  unfolding set_trailers
  send_trailers i hs = mark i (λ b. set_trailers b hs)

  unfoldable pub unblock_all : Table → Run C P Unit
  unblock_all [] = pure tt
  unblock_all ((i, b) ∷ rest) = do unblock_stream i; unblock_all rest

  abbrev pub unblock_known : ℕ → Option StreamBuffer → Run C P Unit
  unblock_known i none = pure tt
  unblock_known i (some b) = unblock_stream i

  abbrev pub unblock_updated : Option ℕ → Run C P Unit
  unblock_updated none s = unblock_all s.stream_buffers s
  unblock_updated (some zero) s = unblock_all s.stream_buffers s
  unblock_updated (some (suc i)) s = unblock_known (suc i) (lookup (suc i) s.stream_buffers) s

  unfoldable pub window_updated : Option ℕ → Run C P Unit
  unfolding unblock_all
  window_updated i = do unblock_updated i; set_has_data h2

  -- What the batch has gathered: whether to flush, and the buffers that are finished.
  abbrev pub Batch : Type 0
  Batch = Bool × List StreamBuffer

  abbrev pub gathered : Batch → Sent → Batch
  gathered (needs_flush, finished) (more, none) = (needs_flush || more, finished)
  gathered (needs_flush, finished) (more, some b) = (needs_flush || more, finished ++ b ∷ [])

  abbrev pub next_turn : (Batch → ℕ → Run C P Batch) → Batch → Option (ℕ × P) → Run C P Batch
  next_turn rest batch none s = pure batch s
  next_turn rest batch (some (i, p)) s = rest batch i (record s { priority = p })

  -- The loop `while sends < MAX_BATCHED_SENDS`, by the sends that are left.
  unfoldable pub send_turns : ℕ → Batch → ℕ → Run C P Batch
  unfolding send_data
  send_turns zero batch i = pure batch
  send_turns (suc sends) batch i = do
    sent ← send_data h2 i
    λ s. next_turn (send_turns sends) (gathered batch sent) (h2.next_stream s.priority) s
