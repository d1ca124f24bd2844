-- ===== src/H2Send/Scheduler/Sends.antt =====
-- protocol/h2_send.py, _send_data: one turn of a stream sends its first bytes and always returns.
use hypercorn.Prelude.{
  min, ℕ, ◌≡◌, refl, ap, sym, Bool, true, false, Option, none, some, [], ◌∷◌, ◌++◌, length,
  length-take, take-append-drop, if_split, arith, append-nil,
}
use hypercorn.Prelude.Bytes.{Bytes, Headers}
use hypercorn.Exec.{Result, ok, err, protocol_error, ◌>>=◌, ◌>>◌, pure, or_raise}
use hypercorn.H2Send.Buffer.{StreamBuffer, pop, complete, close}
use hypercorn.H2Send.Buffer.Contents.{contents, BufferInv}
use hypercorn.H2Send.Buffer.Pop.{PopOk, pop-PopOk}
use hypercorn.H2Send.Scheduler.{
  H2Calls, Window, available, overdrawn, chunk_size, data_frame, Scheduler, lookup, store, delete,
  Sent, attempt, use_popped, send_end, finish_if_complete, forget, leave_tree, close_stream,
  close_found, prioritise, connect, drop_from_tree, set_has_data, except_close, send_data, Run,
}
use hypercorn.H2Send.Scheduler.Tables.{lookup-store, lookup-store_other, frames_for, end_for}
use hypercorn.H2Send.Scheduler.Turn.{
  allowed, TurnOk, Attempted, Returned, delete-SendOk, nothing-TurnOk, MidOk, mid-SendOk, mid_turn,
  end-SendOk,
}

module _ {C P : Type 0} (h2 : H2Calls C P) where
  abbrev removed : Scheduler C P → ℕ → StreamBuffer → Scheduler C P
  removed s i c = record s {
    stream_buffers = delete i s.stream_buffers;
    released = s.released ++ close c ∷ [];
  }

  abbrev gave_up : Run C P Sent
  gave_up = pure (false, none)

  drop_from_tree-Returned :
      (i size : ℕ) (b c : StreamBuffer) (s s' : Scheduler C P) (p : Option P)
      → TurnOk i size b s s'
      → Returned i size b s (((drop_from_tree h2 p >> set_has_data h2) >> gave_up) (removed s' i c))
  drop_from_tree-Returned i size b c s s' none v =
      delete-SendOk i size b s s' (record (removed s' i c) { has_data = true }) v refl refl
  drop_from_tree-Returned i size b c s s' (some p) v =
      delete-SendOk i size b s s' (record (removed s' i c) { has_data = true; priority = p }) v refl
        refl

  -- Closing the stream keeps what was sent.
  close-Returned :
      (i size : ℕ) (b : StreamBuffer) (s s' : Scheduler C P) (o : Option StreamBuffer)
      → TurnOk i size b s s'
      → lookup i s'.stream_buffers ≡ o
      → Returned i size b s ((close_found h2 i o >> gave_up) s')
  close-Returned i size b s s' none v e = record { turn = v; kept = rw e tt }
  close-Returned i size b s s' (some c) v e =
      drop_from_tree-Returned i size b c s s' (h2.remove_stream s'.priority i) v

  except_close-Returned :
      (i size : ℕ) (b : StreamBuffer) (s : Scheduler C P) (z : Result {0} Sent × Scheduler C P)
      → Attempted i size b s z
      → Returned i size b s (except_close h2 i z)
  unfolding close_stream
  except_close-Returned i size b s (ok a, s') v = v
  except_close-Returned i size b s (err e, s') v =
      rw v.0 (close-Returned i size b s s' (lookup i s'.stream_buffers) v.1 refl)

  abbrev as_finished : StreamBuffer → Run C P Sent
  as_finished b = pure (true, some b)

  -- The end of a complete stream: it is sent, and the stream leaves the table and the tree.
  leave-Attempted :
      (i size : ℕ) (b b' : StreamBuffer) (d : Bytes) (s t : Scheduler C P) (hs : Option Headers)
      (c : C) (p : Option P)
      → MidOk i size b b' d s t
      → complete b' ≡ true
      → b'.trailers ≡ hs
      → Attempted i size b s (
          (prioritise h2 p >> as_finished b') (record t {
            connection = c;
            sent = t.sent ++ end_for i hs ∷ [];
            stream_buffers = delete i t.stream_buffers;
          }))
  leave-Attempted i size b b' d s t hs c none v full same =
      (refl, (end-SendOk i size b b' d s t _ hs v full same refl refl).turn)
  leave-Attempted i size b b' d s t hs c (some p) v full same =
      end-SendOk i size b b' d s t _ hs v full same refl refl

  end_with-Attempted :
      (i size : ℕ) (b b' : StreamBuffer) (d : Bytes) (s t : Scheduler C P) (hs : Option Headers)
      (o : Option C)
      → MidOk i size b b' d s t
      → complete b' ≡ true
      → b'.trailers ≡ hs
      → Attempted i size b s
          ((connect h2 o (end_for i hs) >> (forget h2 i >> (leave_tree h2 i >> as_finished b'))) t)
  end_with-Attempted i size b b' d s t hs none v full same = (refl, mid_turn i size b b' d s t v)
  end_with-Attempted i size b b' d s t hs (some c) v full same =
      leave-Attempted i size b b' d s t hs c (h2.remove_stream t.priority i) v full same

  end_by-Attempted :
      (i size : ℕ) (b b' : StreamBuffer) (d : Bytes) (s t : Scheduler C P) (hs : Option Headers)
      → MidOk i size b b' d s t
      → complete b' ≡ true
      → b'.trailers ≡ hs
      → Attempted i size b s
          ((send_end h2 i hs >> (forget h2 i >> (leave_tree h2 i >> as_finished b'))) t)
  end_by-Attempted i size b b' d s t none v full same =
      end_with-Attempted i size b b' d s t none (h2.end_stream t.connection i) v full same
  end_by-Attempted i size b b' d s t (some hs) v full same =
      end_with-Attempted i size b b' d s t (some hs) (h2.send_headers t.connection i hs) v full same

  finish-Attempted :
      (i size : ℕ) (b b' : StreamBuffer) (d : Bytes) (s t : Scheduler C P) (needs_flush : Bool)
      → MidOk i size b b' d s t
      → Attempted i size b s (finish_if_complete h2 i b' needs_flush t)
  finish-Attempted i size b b' d s t needs_flush v =
      if_split (λ (m : Run C P Sent). Attempted i size b s (m t)) (complete b')
        (λ e. end_by-Attempted i size b b' d s t b'.trailers v e refl)
        (λ e. mid-SendOk i size b b' d s t v e)

  -- The state once the buffer is popped and the data is handed over.
  abbrev stored : ℕ → StreamBuffer → Scheduler C P → Scheduler C P
  stored i b s = record s { stream_buffers = store i b s.stream_buffers }

  popped-MidOk :
      (i size : ℕ) (b b' : StreamBuffer) (d : Bytes) (s t : Scheduler C P)
      → PopOk b size (some (d, b'))
      → t.sent ≡ s.sent ++ frames_for i d
      → t.stream_buffers ≡ store i b' s.stream_buffers
      → MidOk i size b b' d s t
  popped-MidOk i size b b' d s t (cut, left, w, x, y, z, r, q) sent kept = record {
    appended = sent;
    split = rw (cut, left) (take-append-drop size (contents b));
    within = omega (arith, ap length cut, length-take size (contents b));
    exact = cut;
    same_trailers = r;
    same_complete = z;
    well = w;
    here = rw kept (lookup-store i b' s.stream_buffers);
    others = λ j n. rw kept (lookup-store_other i j b' s.stream_buffers n);
  }

  -- No data: the stream is blocked in the tree.
  block-Attempted :
      (i size : ℕ) (b b' : StreamBuffer) (s : Scheduler C P) (p : Option P)
      → PopOk b size (some ([], b'))
      → Attempted i size b s
          (((prioritise h2 p >> pure false) >>= finish_if_complete h2 i b') (stored i b' s))
  block-Attempted i size b b' s none k = (
    refl,
    mid_turn i size b b' [] s (stored i b' s)
        (popped-MidOk i size b b' [] s (stored i b' s) k (sym (append-nil s.sent)) refl),
  )
  block-Attempted i size b b' s (some p) k =
      let t : Scheduler C P = record (stored i b' s) { priority = p } in
      finish-Attempted i size b b' [] s t false
        (popped-MidOk i size b b' [] s t k (sym (append-nil s.sent)) refl)

  -- Data: it is given to the connection.
  data-Attempted :
      (i size x : ℕ) (b b' : StreamBuffer) (d : Bytes) (s : Scheduler C P) (o : Option C)
      → PopOk b size (some (x ∷ d, b'))
      → Attempted i size b s (
          ((connect h2 o (data_frame i (x ∷ d)) >> pure true) >>= finish_if_complete h2 i b')
            (stored i b' s))
  data-Attempted i size x b b' d s none k = (
    refl,
    nothing-TurnOk i size b s (stored i b' s) refl
        (λ j n. lookup-store_other i j b' s.stream_buffers n),
  )
  data-Attempted i size x b b' d s (some c) k =
      let t : Scheduler C P = record (stored i b' s) {
        connection = c;
        sent = s.sent ++ data_frame i (x ∷ d) ∷ [];
      } in
      finish-Attempted i size b b' (x ∷ d) s t true
        (popped-MidOk i size b b' (x ∷ d) s t k refl refl)

  pop-Attempted :
      (i size : ℕ) (b : StreamBuffer) (s : Scheduler C P) (r : Option (Bytes × StreamBuffer))
      → PopOk b size r
      → Attempted i size b s (use_popped h2 i r s)
  pop-Attempted i size b s none k = absurd k
  pop-Attempted i size b s (some ([], b')) k =
      block-Attempted i size b b' s (h2.block s.priority i) k
  pop-Attempted i size b s (some (x ∷ d, b')) k =
      data-Attempted i size x b b' d s (h2.send_data s.connection i (x ∷ d)) k

  window-Attempted :
      (i : ℕ) (b : StreamBuffer) (s : Scheduler C P) (w : Option Window)
      → BufferInv b
      → Attempted i (allowed w (h2.max_outbound_frame_size s.connection)) b s (
          (or_raise protocol_error w >>= λ window.
          use_popped h2 i (pop b (chunk_size window (h2.max_outbound_frame_size s.connection))))
            s)
  window-Attempted i b s none v = (refl, nothing-TurnOk i 0 b s s refl (λ j n. refl))
  window-Attempted i b s (some (available n)) v =
      let size = min n (h2.max_outbound_frame_size s.connection) in
      pop-Attempted i size b s (pop b size) (pop-PopOk b size v)
  window-Attempted i b s (some (overdrawn n)) v = pop-Attempted i 0 b s (pop b 0) (pop-PopOk b 0 v)

  pub send_data-Returned :
      (i : ℕ) (b : StreamBuffer) (s : Scheduler C P)
      → lookup i s.stream_buffers ≡ some b
      → BufferInv b
      → Returned i
          (allowed
            (h2.local_flow_control_window s.connection i)
            (h2.max_outbound_frame_size s.connection))
          b
          s
          (send_data h2 i s)
  unfolding send_data attempt
  send_data-Returned i b s e v = rw e (
      except_close-Returned i _ b s (attempt h2 i b s)
        (window-Attempted i b s (h2.local_flow_control_window s.connection i) v))
