-- ===== src/TcpWriter/Tests.antt =====
-- Runs of asyncio/tcp_writer.py with a stream writer that counts what it is given.
use hypercorn.Prelude.{
  ℕ, ◌+◌, ◌≡◌, refl, false, none, some, [], ◌∷◌, length, arith, ltb, if◌then◌else◌,
}
use hypercorn.Exec.{ok, err, value_error}
use hypercorn.TcpWriter.{Calls, BufferedWriter, init, send}
use hypercorn.TcpWriter.HighWater.{
  sends, drains, CallOk, run, run-CallOk, failed_run, is_empty_write,
}

-- The writer fails when it is given a tenth byte.
abbrev counting : Calls ℕ
counting = record {
  write = λ n d. if ltb (n + length d) 10 then ok (n + length d) else err value_error;
  drain = λ n. ok n;
}

abbrev holding : BufferedWriter ℕ
holding = record (init 0 4) { buffered_bytes = 3 }

holding_drains : (send counting (5 ∷ []) holding).1.buffered_bytes ≡ 0
unfolding send init
holding_drains = refl

holding_open : holding.error ≡ none
unfolding init
holding_open = refl

run-CallOk_example : CallOk (sends (5 ∷ [])) false 4 (run counting (sends (5 ∷ [])) holding)
unfolding init
run-CallOk_example = run-CallOk counting (sends (5 ∷ [])) holding holding_open (omega arith)

abbrev failed : BufferedWriter ℕ
failed = record (init 0 4) { error = some value_error }

failed_run_example :
    ((run counting drains failed).1.error ≡ some value_error)
    × ((run counting drains failed).0 ≡ (if is_empty_write drains then ok tt else err value_error))
failed_run_example = failed_run counting drains failed value_error refl
