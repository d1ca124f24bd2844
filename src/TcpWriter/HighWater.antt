-- ===== src/TcpWriter/HighWater.antt =====
-- asyncio/tcp_writer.py: what has been written and not drained stays below the high-water mark, and
-- a failure stays.
use hypercorn.Prelude.{
  ◌⊎◌, ℕ, ◌+◌, ◌<◌, ◌≡◌, refl, Bool, true, false, none, some, [], ◌∷◌, length, is_nil, ltb, leb,
  if◌then◌else◌, if_both, if_split, arith, inl, inr,
}
use hypercorn.Prelude.Bytes.{Bytes}
use hypercorn.Exec.{Error, runtime_error, Result, ok, err, Exec, continue}
use hypercorn.TcpWriter.{Calls, BufferedWriter, drained, written, send, drain_pending, drain, stop}

pub data Call : Type 0 where
  sends : Bytes → Call
  drains stops : Call

abbrev pub is_empty_write : Call → Bool
is_empty_write (sends d) = is_nil d
is_empty_write c = false

-- What a call on a writer that has not failed gives. It returns with less than the mark not drained,
-- and with nothing after `drain`; or it raises an error that is kept; or, on a stopped writer, it
-- raises a BufferedWriterClosedError.
abbrev pub CallOk : {W : Type 0} → Call → Bool → ℕ → Result {0} Unit × BufferedWriter W → Type 0
CallOk drains was_closed mark (ok u, s) =
    (s.error ≡ none) × (s.high_water ≡ mark) × (s.buffered_bytes ≡ 0)
CallOk c was_closed mark (ok u, s) =
    (s.error ≡ none) × (s.high_water ≡ mark) × (s.buffered_bytes < mark)
CallOk c was_closed mark (err e, s) =
    (s.error ≡ some e) ⊎ ((e ≡ runtime_error) × (was_closed ≡ true))

module _ {W : Type 0} (calls : Calls W) where
  abbrev pub run : Call → Exec (BufferedWriter W) Unit
  run (sends d) = send calls d
  run drains = drain calls
  run stops = stop calls

  drained-CallOk :
      (c : Call) (was_closed : Bool) (r : Result {0} W) (s : BufferedWriter W)
      → s.error ≡ none
      → 0 < s.high_water
      → CallOk c was_closed s.high_water (drained calls r s)
  drained-CallOk c was_closed (err e) s n h = inl refl
  drained-CallOk (sends d) was_closed (ok w) s n h = (n, refl, h)
  drained-CallOk drains was_closed (ok w) s n h = (n, refl, refl)
  drained-CallOk stops was_closed (ok w) s n h = (n, refl, h)

  written-CallOk :
      (d e : Bytes) (was_closed : Bool) (r : Result {0} W) (s : BufferedWriter W)
      → s.error ≡ none
      → 0 < s.high_water
      → CallOk (sends e) was_closed s.high_water (written calls d r s)
  written-CallOk d e was_closed (err x) s n h = inl refl
  written-CallOk d e was_closed (ok w) s n h =
      let t : BufferedWriter W = record s {
        writer = w;
        buffered_bytes = s.buffered_bytes + length d;
      } in
      if_split (CallOk (sends e) was_closed s.high_water)
        (leb s.high_water (s.buffered_bytes + length d))
        (λ q. drained-CallOk (sends e) was_closed (calls.drain w) t n h)
        (λ q. (n, refl, ground (arith, q)))

  pending-CallOk :
      (c : Call) (was_closed : Bool) (s : BufferedWriter W)
      → s.error ≡ none
      → s.buffered_bytes < s.high_water
      → CallOk c was_closed s.high_water (drain_pending calls s)
  pending-CallOk c was_closed s n l =
      if_split (CallOk c was_closed s.high_water) (ltb 0 s.buffered_bytes)
        (λ q. drained-CallOk c was_closed (calls.drain s.writer) s n (omega (arith, l)))
        (λ q. nothing c (ground (arith, q)))
    where
      nothing : (k : Call) → s.buffered_bytes ≡ 0 → CallOk k was_closed s.high_water (ok tt, s)
      nothing (sends d) z = (n, refl, l)
      nothing drains z = (n, refl, z)
      nothing stops z = (n, refl, l)

  -- A writer that has not failed, and holds less than its high-water mark: after any call that
  -- returns the same holds, and after `drain` nothing is held. A call that raises has met a failure
  -- of the stream writer, which is kept as the error, or the writer was stopped.
  pub run-CallOk :
      (c : Call) (s : BufferedWriter W)
      → s.error ≡ none
      → s.buffered_bytes < s.high_water
      → CallOk c s.closed s.high_water (run c s)
  unfolding send drain stop
  run-CallOk (sends d) s n l =
      if_both (CallOk (sends d) s.closed s.high_water) (is_nil d) (n, refl, l)
        (rw n (
          let t : BufferedWriter W = record s { error = none } in
          if_split
            (λ (z : Result (Unit {0}) × BufferedWriter W).
              CallOk (sends d) s.closed s.high_water
                (continue z (λ u t. written calls d (calls.write t.writer d) t)))
            s.closed (λ q. inr (refl, q))
            (λ q. written-CallOk d d s.closed (calls.write s.writer d) t refl (omega (arith, l)))))
  run-CallOk drains s n l = rw n (pending-CallOk drains s.closed (record s { error = none }) refl l)
  run-CallOk stops s n l =
      if_both (CallOk stops s.closed s.high_water) s.closed (rw n (refl, refl, l))
        (rw n (pending-CallOk stops s.closed (record s { closed = true; error = none }) refl l))

  -- A writer that has failed raises the same error at every call but the write of no bytes, and
  -- keeps it.
  pub failed_run :
      (c : Call) (s : BufferedWriter W) (e : Error)
      → s.error ≡ some e
      → ((run c s).1.error ≡ some e) × ((run c s).0 ≡ (if is_empty_write c then ok tt else err e))
  unfolding send drain stop
  failed_run (sends []) s e f = (f, refl)
  failed_run (sends (x ∷ d)) s e f = rw f (refl, refl)
  failed_run drains s e f = rw f (refl, refl)
  failed_run stops s e f = rw f (
      if_both (λ (z : Result (Unit {0}) × BufferedWriter W). (z.1.error ≡ some e) × (z.0 ≡ err e))
        s.closed (refl, refl) (refl, refl))
