-- ===== src/H2Send/Scheduler/Turn.antt =====
-- protocol/h2_send.py, _send_data: what one turn of a stream does, as a relation of its states.
use hypercorn.Prelude.{
  min, ℕ, ◌≤◌, ◌≡◌, refl, ap, sym, ◌∙◌, Bool, true, false, Option, none, some, List, [], ◌∷◌, ◌++◌,
  length, take, ◌==◌, arith, append_assoc, append-nil, length_zero,
}
use hypercorn.Prelude.Bytes.{Bytes, Headers}
use hypercorn.Exec.{Result, ok, err}
use hypercorn.H2Send.Buffer.{StreamBuffer, complete}
use hypercorn.H2Send.Buffer.Contents.{contents, BufferInv}
use hypercorn.H2Send.Scheduler.{
  Window, available, overdrawn, Frame, Scheduler, lookup, delete, Sent, is_caught,
}
use hypercorn.H2Send.Scheduler.Tables.{
  all_of, all_of-frames_for, all_of-end, lookup-delete, lookup-delete_other, bytes_of, has_end,
  frames_for, end_for, bytes_of-frames_for, bytes_of-end, bytes_of_other, has_end-frames_for,
}

-- A stream that is still in the table has sent the first `size` bytes of its buffer, or all where
-- there are fewer, and not its end; its buffer holds `rest` and still waits for something.
abbrev pub Remains : ℕ → StreamBuffer → Bool → Bytes → Bytes → Option StreamBuffer → Type 0
Remains size b is_ended bytes rest none = Unit {0}
Remains size b is_ended bytes rest (some b') =
    (is_ended ≡ false)
    × (contents b' ≡ rest)
    × BufferInv b'
    × (bytes ≡ take size (contents b))
    × (complete b' ≡ false)

-- The bytes that the connection allows in one frame; none when it knows no window.
abbrev pub allowed : Option Window → ℕ → ℕ
allowed none size = 0
allowed (some (available n)) size = min n size
allowed (some (overdrawn n)) size = 0

-- A turn of stream `i`: it sends `frames`, whose bytes come first in the buffer and are within the
-- window and the frame size; `rest` is behind them. The end is sent only when the buffer is complete
-- and nothing is behind, with the trailers where there are some, and after all the bytes. No frame is
-- one of another stream, and the buffers of the others are left alone.
pub record TurnOk {C P : Type 0} (i size : ℕ) (b : StreamBuffer) (s s' : Scheduler C P)
    : Type 0 where
  pub frames : List Frame
  pub rest : Bytes
  pub appended : s'.sent ≡ s.sent ++ frames
  pub split : bytes_of i frames ++ rest ≡ contents b
  pub within : length (bytes_of i frames) ≤ size
  pub at_end :
      has_end i frames ≡ true
      → (rest ≡ [])
        × (b.is_complete ≡ true)
        × (frames ≡ frames_for i (contents b) ++ end_for i b.trailers ∷ [])
  pub only : all_of i frames ≡ true
  pub others :
      (j : ℕ)
      → (j == i) ≡ false
      → (lookup j s'.stream_buffers ≡ lookup j s.stream_buffers) × (bytes_of j frames ≡ [])

-- And the buffer that is still in the table holds `rest`.
pub record SendOk {C P : Type 0} (i size : ℕ) (b : StreamBuffer) (s s' : Scheduler C P)
    : Type 0 where
  pub turn : TurnOk i size b s s'
  pub kept :
      Remains size b
        (has_end i turn.frames)
        (bytes_of i turn.frames)
        turn.rest
        (lookup i s'.stream_buffers)

-- What the body of the `try` gives: it returns, or raises what is caught.
abbrev pub Attempted :
    {C P : Type 0} → ℕ → ℕ → StreamBuffer → Scheduler C P → Result {0} Sent × Scheduler C P → Type 0
Attempted i size b s (ok a, s') = SendOk i size b s s'
Attempted i size b s (err e, s') = (is_caught e ≡ true) × TurnOk i size b s s'

-- What `_send_data` gives: it returns.
abbrev pub Returned :
    {C P : Type 0} → ℕ → ℕ → StreamBuffer → Scheduler C P → Result {0} Sent × Scheduler C P → Type 0
Returned i size b s (ok a, s') = SendOk i size b s s'
Returned i size b s (err e, s') = ⊥

-- A state that sent the same, and from which the stream is gone.
pub delete-SendOk :
    {C P : Type 0} (i size : ℕ) (b : StreamBuffer) (s s' t : Scheduler C P)
    → TurnOk i size b s s'
    → t.sent ≡ s'.sent
    → t.stream_buffers ≡ delete i s'.stream_buffers
    → SendOk i size b s t
delete-SendOk i size b s s' t v same gone = record {
  turn = record {
    frames = v.frames;
    rest = v.rest;
    appended = same ∙ v.appended;
    split = v.split;
    within = v.within;
    at_end = v.at_end;
    only = v.only;
    others = λ j n. (
      rw gone (lookup-delete_other i j s'.stream_buffers n) ∙ (v.others j n).0,
      (v.others j n).1,
    );
  };
  kept = rw (gone, lookup-delete i s'.stream_buffers) tt;
}

-- A turn that sends nothing.
pub nothing-TurnOk :
    {C P : Type 0} (i size : ℕ) (b : StreamBuffer) (s t : Scheduler C P)
    → t.sent ≡ s.sent
    → ((j : ℕ) → (j == i) ≡ false → lookup j t.stream_buffers ≡ lookup j s.stream_buffers)
    → TurnOk i size b s t
unfolding bytes_of has_end all_of
nothing-TurnOk i size b s t same others = record {
  frames = [];
  rest = contents b;
  appended = same ∙ sym (append-nil s.sent);
  split = refl;
  within = omega arith;
  at_end = λ e. ground (arith, e);
  only = refl;
  others = λ j n. (others j n, refl);
}

-- Between the data and the end: the buffer is in the table, with what was popped gone.
pub record MidOk {C P : Type 0} (i size : ℕ) (b b' : StreamBuffer) (d : Bytes) (s t : Scheduler C P)
    : Type 0 where
  pub appended : t.sent ≡ s.sent ++ frames_for i d
  pub split : d ++ contents b' ≡ contents b
  pub within : length d ≤ size
  pub exact : d ≡ take size (contents b)
  pub same_trailers : b'.trailers ≡ b.trailers
  pub same_complete : b'.is_complete ≡ b.is_complete
  pub well : BufferInv b'
  pub here : lookup i t.stream_buffers ≡ some b'
  pub others : (j : ℕ) → (j == i) ≡ false → lookup j t.stream_buffers ≡ lookup j s.stream_buffers

pub no_end : (i : ℕ) (d : Bytes) → has_end i (frames_for i d) ≡ true → ⊥
no_end i d e = ground (arith, e, has_end-frames_for i d)

abbrev pub mid_turn :
    {C P : Type 0} (i size : ℕ) (b b' : StreamBuffer) (d : Bytes) (s t : Scheduler C P)
    → MidOk i size b b' d s t
    → TurnOk i size b s t
mid_turn i size b b' d s t v = record {
  frames = frames_for i d;
  rest = contents b';
  appended = v.appended;
  split = rw (bytes_of-frames_for i d) v.split;
  within = rw (bytes_of-frames_for i d) v.within;
  at_end = λ e. absurd (no_end i d e);
  only = all_of-frames_for i d;
  others = λ j n. (v.others j n, bytes_of_other i j d n);
}

pub mid-SendOk :
    {C P : Type 0} (i size : ℕ) (b b' : StreamBuffer) (d : Bytes) (s t : Scheduler C P)
    → MidOk i size b b' d s t
    → complete b' ≡ false
    → SendOk i size b s t
mid-SendOk i size b b' d s t v more = record {
  turn = mid_turn i size b b' d s t v;
  kept = rw v.here (has_end-frames_for i d, refl, v.well, bytes_of-frames_for i d ∙ v.exact, more);
}

-- A state that has sent the end too, and from which the stream is gone.
pub end-SendOk :
    {C P : Type 0} (i size : ℕ) (b b' : StreamBuffer) (d : Bytes) (s t u : Scheduler C P)
    (hs : Option Headers)
    → MidOk i size b b' d s t
    → complete b' ≡ true
    → b'.trailers ≡ hs
    → u.sent ≡ t.sent ++ end_for i hs ∷ []
    → u.stream_buffers ≡ delete i t.stream_buffers
    → SendOk i size b s u
unfolding complete
end-SendOk i size b b' d s t u hs v full same sent gone = record {
  turn = record {
    frames = frames_for i d ++ end_for i hs ∷ [];
    rest = contents b';
    appended =
        sent
        ∙ ap (λ z. z ++ end_for i hs ∷ []) v.appended
        ∙ append_assoc s.sent (frames_for i d) (end_for i hs ∷ []);
    split = rw (bytes_of-end i i d hs, bytes_of-frames_for i d) v.split;
    within = rw (bytes_of-end i i d hs, bytes_of-frames_for i d) v.within;
    at_end = λ e. (
      length_zero (contents b') (ground (arith, full, v.well.sized)),
      ground (arith, full, v.same_complete),
      ap (λ z. frames_for i z ++ end_for i hs ∷ [])
            (sym (append-nil d)
              ∙ ap (λ z. d ++ z)
                  (sym (length_zero (contents b') (ground (arith, full, v.well.sized))))
              ∙ v.split)
          ∙ ap (λ z. frames_for i (contents b) ++ end_for i z ∷ []) (sym same ∙ v.same_trailers),
    );
    only = all_of-end i d hs;
    others = λ j n. (
      rw gone (lookup-delete_other i j t.stream_buffers n) ∙ v.others j n,
      bytes_of-end i j d hs ∙ bytes_of_other i j d n,
    );
  };
  kept = rw (gone, lookup-delete i t.stream_buffers) tt;
}
