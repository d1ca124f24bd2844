-- ===== src/Worker/Limit.antt =====
-- asyncio/worker_context.py: when a worker is told to terminate.
use hypercorn.Prelude.{
  ℕ, zero, suc, ◌+◌, ◌≡◌, refl, ap, ◌∙◌, Bool, true, false, Option, none, some, ltb, if◌then◌else◌,
  arith,
}
use hypercorn.Worker.{WorkerContext, init, mark_request}

unfoldable pub marked : ℕ → Option ℕ → WorkerContext
marked zero max_requests = init max_requests
marked (suc n) max_requests = mark_request (marked n max_requests)

abbrev pub is_past : Option ℕ → ℕ → Bool
is_past none n = false
is_past (some max_requests) n = ltb max_requests n

last_mark : (m n : ℕ) → (if ltb m (n + 1) then true else ltb m n) ≡ ltb m (suc n)
last_mark m n = ground arith

plus_one : (n : ℕ) → n + 1 ≡ suc n
plus_one n = omega arith

nothing_past : (m : ℕ) → false ≡ ltb m 0
nothing_past m = ground arith

marked-unlimited : (n : ℕ) → marked n none ≡ init none
unfolding marked mark_request
marked-unlimited zero = refl
marked-unlimited (suc n) = ap mark_request (marked-unlimited n)

abbrev counted : ℕ → ℕ → Bool → WorkerContext
counted m n terminate = record { max_requests = some m; requests = n; terminate = terminate }

marked-counted : (m n : ℕ) → marked n (some m) ≡ counted m n (ltb m n)
unfolding marked mark_request
marked-counted m zero = ap (counted m 0) (nothing_past m)
marked-counted m (suc n) =
    ap mark_request (marked-counted m n)
    ∙ ap (counted m (n + 1)) (last_mark m n)
    ∙ ap (λ r. counted m r (ltb m (suc n))) (plus_one n)

-- After any number of requests, the worker has been told to terminate exactly when there is a
-- limit and more requests than the limit have been marked: not yet at the request that reaches the
-- limit, but at the one after it.
pub marked-is_past :
    (max_requests : Option ℕ) (n : ℕ) → (marked n max_requests).terminate ≡ is_past max_requests n
unfolding marked
marked-is_past none n = ap (λ c. c.terminate) (marked-unlimited n)
marked-is_past (some m) n = ap (λ c. c.terminate) (marked-counted m n)
