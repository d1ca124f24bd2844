-- ===== src/Wsgi/Body.antt =====
-- app_wrappers.py: the body of a request within its limit.
use hypercorn.Prelude.{
  ℕ, ◌≤◌, ◌<◌, ◌≡◌, refl, ap, subst, Bool, true, false, List, [], ◌∷◌, ◌++◌, append_assoc,
  append-nil, if_split, length, length-append, ltb, ltb→lt, if◌then◌else◌, arith,
}
use hypercorn.Prelude.Bytes.{Bytes}
use hypercorn.Wsgi.Service.{
  Incoming, Reading, complete, too_large, awaits, read_body, or_empty, or_false, http_request,
  http_disconnect,
}

-- What a client sends of a body: all of it, a part before it disconnects, or a part so far.
pub data Sent : Type 0 where
  whole cut_short unfinished : Bytes → Sent

abbrev pub prepend : Bytes → Sent → Sent
prepend d (whole b) = whole (d ++ b)
prepend d (cut_short b) = cut_short (d ++ b)
prepend d (unfinished b) = unfinished (d ++ b)

-- A body goes on to the first http.request that has no more of it.
unfoldable pub sent_body : List Incoming → Sent
sent_body [] = unfinished []
sent_body (http_request body_key more_body ∷ ms) =
    let rest = sent_body ms in
    prepend (or_empty body_key) (if or_false more_body then rest else whole [])
sent_body (http_disconnect ∷ ms) = cut_short []

abbrev pub Within : ℕ → Bytes → Reading → Type 0
Within max b (complete c) = (b ≡ c) × (length c ≤ max)
Within max b too_large = max < length b
Within max b awaits = ⊥

abbrev pub Awaited : ℕ → Bytes → Reading → Type 0
Awaited max b (complete c) = ⊥
Awaited max b too_large = max < length b
Awaited max b awaits = length b ≤ max

-- The loop returns a body that is within the limit, whole or cut short, refuses what is longer, and
-- waits where a body within the limit has not ended.
abbrev pub ReadOk : ℕ → Sent → Reading → Type 0
ReadOk max (whole b) = Within max b
ReadOk max (cut_short b) = Within max b
ReadOk max (unfinished b) = Awaited max b

longer-ReadOk :
    (max : ℕ) (longer : Bytes) (o : Sent)
    → max < length longer
    → ReadOk max (prepend longer o) too_large
longer-ReadOk max longer (whole b) l = omega (arith, length-append longer b)
longer-ReadOk max longer (cut_short b) l = omega (arith, length-append longer b)
longer-ReadOk max longer (unfinished b) l = omega (arith, length-append longer b)

prepend-prepend : (a b : Bytes) (o : Sent) → prepend (a ++ b) o ≡ prepend a (prepend b o)
prepend-prepend a b (whole c) = ap whole (append_assoc a b c)
prepend-prepend a b (cut_short c) = ap cut_short (append_assoc a b c)
prepend-prepend a b (unfinished c) = ap unfinished (append_assoc a b c)

prepend_nothing : (o : Sent) → prepend [] o ≡ o
prepend_nothing (whole b) = refl
prepend_nothing (cut_short b) = refl
prepend_nothing (unfinished b) = refl

-- One turn of the loop: whether the limit is passed, and whether more is to come.
turn-ReadOk :
    (max : ℕ) (over more : Bool) (longer : Bytes) (o : Sent) (rest : Reading)
    → (over ≡ true → max < length longer)
    → (over ≡ false → length longer ≤ max)
    → (over ≡ false → ReadOk max (prepend longer o) rest)
    → ReadOk max
        (prepend longer (if more then o else whole []))
        (if over then too_large else if more then rest else complete longer)
turn-ReadOk max true more longer o rest passed within read =
    longer-ReadOk max longer (if more then o else whole []) (passed refl)
turn-ReadOk max false true longer o rest passed within read = read refl
turn-ReadOk max false false longer o rest passed within read = (append-nil longer, within refl)

not_ltb : (a b : ℕ) → ltb a b ≡ false → b ≤ a
not_ltb a b e = ground arith

-- A disconnection adds nothing to what was within the limit.
disconnected-ReadOk :
    (max : ℕ) (received : Bytes)
    → length received ≤ max
    → ReadOk max
        (cut_short (received ++ []))
        (if ltb max (length (received ++ [])) then too_large else complete (received ++ []))
disconnected-ReadOk max received within =
    if_split (Within max (received ++ [])) (ltb max (length (received ++ [])))
      (λ over. ltb→lt max (length (received ++ [])) over)
      (λ fits. (refl, not_ltb max (length (received ++ [])) fits))

read_body-ReadOk_from :
    (max : ℕ) (received : Bytes) (ms : List Incoming)
    → length received ≤ max
    → ReadOk max (prepend received (sent_body ms)) (read_body max received ms)
unfolding read_body sent_body
read_body-ReadOk_from max received [] within = rw (append-nil received) within
read_body-ReadOk_from max received (http_disconnect ∷ ms) within =
    disconnected-ReadOk max received within
read_body-ReadOk_from max received (http_request d more ∷ ms) within =
    let longer = received ++ or_empty d in
    let remaining = if or_false more then sent_body ms else whole [] in
    subst (λ o. ReadOk max o (read_body max received (http_request d more ∷ ms)))
      (prepend-prepend received (or_empty d) remaining)
      (turn-ReadOk max (ltb max (length longer)) (or_false more) longer (sent_body ms)
        (read_body max longer ms) (ltb→lt max (length longer)) (not_ltb max (length longer))
        (λ fits. read_body-ReadOk_from max longer ms (not_ltb max (length longer) fits)))

-- Read with a limit, what a client sends of a body is returned in full where it is within the limit
-- and has ended, also where the client has disconnected in the middle of it; it is refused only where
-- it is longer than the limit, and more is awaited only where it has neither ended nor passed the
-- limit.
pub read_body-ReadOk :
    (max : ℕ) (ms : List Incoming) → ReadOk max (sent_body ms) (read_body max [] ms)
read_body-ReadOk max ms =
    subst (λ o. ReadOk max o (read_body max [] ms)) (prepend_nothing (sent_body ms))
      (read_body-ReadOk_from max [] ms (omega arith))
