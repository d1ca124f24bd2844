-- ===== src/H2Send/Scheduler/Batches.antt =====
-- protocol/h2_send.py, _send_ready_batch: the turns of a batch all return.
use hypercorn.Prelude.{
  ℕ, zero, suc, ◌≡◌, sym, subst, ◌∙◌, inl, inr, Bool, Option, none, some, ◌==◌, ==→eq, Bool-cases,
  Option-cases,
}
use hypercorn.Prelude.Bytes.{Bytes}
use hypercorn.Exec.{Result, ok, err, continue}
use hypercorn.H2Send.Buffer.{StreamBuffer}
use hypercorn.H2Send.Buffer.Contents.{BufferInv}
use hypercorn.H2Send.Scheduler.{H2Calls, Scheduler, Sent, Run, lookup, send_data}
use hypercorn.H2Send.Scheduler.Operations.{Batch, gathered, next_turn, send_turns}
use hypercorn.H2Send.Scheduler.Turn.{Remains, SendOk, Returned}
use hypercorn.H2Send.Scheduler.Sends.{send_data-Returned}

-- Every buffer of the table keeps its invariant.
abbrev pub TableOk : {C P : Type 0} → Scheduler C P → Type 0
TableOk s = (j : ℕ) (b : StreamBuffer) → lookup j s.stream_buffers ≡ some b → BufferInv b

-- A step that returns, with the invariants kept.
abbrev pub ReturnsOk : {C P A : Type 0} → Result {0} A × Scheduler C P → Type 0
ReturnsOk (ok a, s) = TableOk s
ReturnsOk (err e, s) = ⊥

abbrev pub BufferOk : Option StreamBuffer → Type 0
BufferOk none = Unit {0}
BufferOk (some b) = BufferInv b

remains-BufferInv :
    (size : ℕ) (c : StreamBuffer) (is_ended : Bool) (bytes rest : Bytes) (o : Option StreamBuffer)
    (b : StreamBuffer)
    → Remains size c is_ended bytes rest o
    → o ≡ some b
    → BufferInv b
remains-BufferInv size c is_ended bytes rest none b k e = cc
remains-BufferInv size c is_ended bytes rest (some d) b k e = subst BufferOk e k.2

SendOk-TableOk :
    {C P : Type 0} (i size : ℕ) (b : StreamBuffer) (s s' : Scheduler C P)
    → SendOk i size b s s'
    → TableOk s
    → TableOk s'
SendOk-TableOk i size b s s' v t j c e = elim (Bool-cases (j == i)) [
  | inl q ↦
      remains-BufferInv size b _ _ _ (lookup i s'.stream_buffers) c v.kept
        (subst (λ k. lookup k s'.stream_buffers ≡ some c) (==→eq j i q) e)
  | inr n ↦ t j c (sym (v.turn.others j n).0 ∙ e)
]

Returned-ReturnsOk :
    {C P : Type 0} (i size : ℕ) (b : StreamBuffer) (s : Scheduler C P)
    (z : Result {0} Sent × Scheduler C P)
    → Returned i size b s z
    → TableOk s
    → ReturnsOk z
Returned-ReturnsOk i size b s (ok a, s') v t = SendOk-TableOk i size b s s' v t
Returned-ReturnsOk i size b s (err e, s') v t = v

module _ {C P : Type 0} (h2 : H2Calls C P) where
  missing-ReturnsOk :
      (i : ℕ) (s : Scheduler C P)
      → TableOk s
      → lookup i s.stream_buffers ≡ none
      → ReturnsOk (send_data h2 i s)
  unfolding send_data
  missing-ReturnsOk i s t e = rw e t

  send_data-ReturnsOk : (i : ℕ) (s : Scheduler C P) → TableOk s → ReturnsOk (send_data h2 i s)
  send_data-ReturnsOk i s t = elim (Option-cases (lookup i s.stream_buffers)) [
    | inl e ↦ missing-ReturnsOk i s t e
    | inr (b, e) ↦
        Returned-ReturnsOk i _ b s (send_data h2 i s) (send_data-Returned h2 i b s e (t i b e)) t
  ]

  next_turn-ReturnsOk :
      (rest : Batch h2 → ℕ → Run C P (Batch h2)) (batch : Batch h2) (n : Option (ℕ × P))
      (s : Scheduler C P)
      → ((b : Batch h2) (i : ℕ) (u : Scheduler C P) → TableOk u → ReturnsOk (rest b i u))
      → TableOk s
      → ReturnsOk (next_turn h2 rest batch n s)
  next_turn-ReturnsOk rest batch none s k t = t
  next_turn-ReturnsOk rest batch (some (i, p)) s k t = k batch i (record s { priority = p }) t

  after_send-ReturnsOk :
      (sends : ℕ) (batch : Batch h2) (z : Result {0} Sent × Scheduler C P)
      → ReturnsOk z
      → ((b : Batch h2) (i : ℕ) (u : Scheduler C P)
          → TableOk u
          → ReturnsOk (send_turns h2 sends b i u))
      → ReturnsOk (
          continue z (λ sent s.
            next_turn h2
              (send_turns h2 sends)
              (gathered h2 batch sent)
              (h2.next_stream s.priority)
              s))
  after_send-ReturnsOk sends batch (ok sent, s) t k =
      next_turn-ReturnsOk (send_turns h2 sends) (gathered h2 batch sent) (h2.next_stream s.priority)
        s k t
  after_send-ReturnsOk sends batch (err e, s) t k = absurd t

  -- However many turns a batch has, and whatever h2 and priority raise, no turn raises: with the
  -- invariants of the buffers in the table the batch returns, and keeps them.
  pub send_turns-ReturnsOk :
      (sends : ℕ) (batch : Batch h2) (i : ℕ) (s : Scheduler C P)
      → TableOk s
      → ReturnsOk (send_turns h2 sends batch i s)
  unfolding send_turns
  send_turns-ReturnsOk zero batch i s t = t
  send_turns-ReturnsOk (suc sends) batch i s t =
      after_send-ReturnsOk sends batch (send_data h2 i s) (send_data-ReturnsOk i s t)
        (send_turns-ReturnsOk sends)
