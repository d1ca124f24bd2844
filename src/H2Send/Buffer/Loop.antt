-- ===== src/H2Send/Buffer/Loop.antt =====
-- protocol/h2_send.py, StreamBuffer.pop: the loop ends, and cuts its parts off the front.
use hypercorn.Prelude.{
  ==→eq, ℕ, zero, suc, ◌+◌, ◌-◌, ◌≤◌, ◌<◌, ◌≡◌, refl, ap, sym, ◌∙◌, subst, Option, none, some, List,
  [], ◌∷◌, ◌++◌, append-nil, append_assoc, arith, length, length-append, length-drop, length-take,
  drop, drop-append, drop-drop, take-append-drop, drop-append_length, join, join-append, All,
  if_both, if_split, ◌==◌, min,
}
use hypercorn.Prelude.Bytes.{Bytes}
use hypercorn.H2Send.Buffer.{
  StreamBuffer, slice, advanced, turn_with, pop_turn, pop_loop, after_turn, Loop,
}
use hypercorn.H2Send.Buffer.Contents.{contents, NonEmpty, IsHeaded, BufferInv}

-- What the loop leaves alone.
abbrev pub SameFlags : StreamBuffer → StreamBuffer → Type 0
SameFlags b b' =
    (b'.is_complete ≡ b.is_complete)
    × (b'.trailers ≡ b.trailers)
    × (b'.is_empty ≡ b.is_empty)
    × (b'.paused ≡ b.paused)
    × (b'.finished ≡ b.finished)

SameFlags-trans : (a b c : StreamBuffer) → SameFlags a b → SameFlags b c → SameFlags a c
SameFlags-trans a b c (p, q, r, s, t) (p', q', r', s', t') =
    (p' ∙ p, q' ∙ q, r' ∙ r, s' ∙ s, t' ∙ t)

advanced-SameFlags :
    (b : StreamBuffer) (c : Bytes) (rest : List Bytes) (offset : ℕ)
    → SameFlags b (advanced b c rest offset)
advanced-SameFlags b c rest offset =
    if_both (SameFlags b) (offset == length c) (refl, refl, refl, refl, refl)
      (refl, refl, refl, refl, refl)

-- A turn cuts a part off the front: one byte at least, and no more than what remains.
abbrev TurnOk : StreamBuffer → ℕ → Option (Bytes × ℕ × StreamBuffer) → Type 0
TurnOk b remaining none = ⊥
TurnOk b remaining (some (part, remaining', b')) =
    (contents b ≡ part ++ contents b')
    × (0 < length part)
    × (length part + remaining' ≡ remaining)
    × BufferInv b'
    × SameFlags b b'

split_at :
    (c rest : Bytes) (h n : ℕ)
    → h + n ≤ length c
    → drop h (c ++ rest) ≡ slice c h n ++ drop (h + n) (c ++ rest)
split_at c rest h n l =
    let inside : n ≤ length (drop h c) = omega (arith, length-drop h c) in
    rw (
      ← drop-drop h n (c ++ rest),
      drop-append h c rest (omega arith),
      drop-append n (drop h c) rest inside,
      ← append_assoc (slice c h n) (drop n (drop h c)) rest,
      take-append-drop n (drop h c),
    )

advanced-contents :
    (b : StreamBuffer) (c : Bytes) (rest : List Bytes) (offset : ℕ)
    → contents (advanced b c rest offset) ≡ drop offset (c ++ join rest)
advanced-contents b c rest offset =
    if_split (λ z. contents z ≡ drop offset (c ++ join rest)) (offset == length c)
      (λ e. rw (==→eq offset (length c) e) (sym (drop-append_length c (join rest)))) (λ e. refl)

IsHeaded-zero : (cs : List Bytes) → All NonEmpty cs → IsHeaded cs 0
IsHeaded-zero [] a = refl
IsHeaded-zero (c ∷ cs) a = a

advanced-BufferInv :
    (b : StreamBuffer) (c : Bytes) (rest : List Bytes) (offset : ℕ)
    → offset ≤ length c
    → All NonEmpty rest
    → b.size ≡ length (drop offset (c ++ join rest))
    → BufferInv (advanced b c rest offset)
advanced-BufferInv b c rest offset l a s =
    if_split BufferInv (offset == length c)
      (λ e. record {
        sized =
            s
            ∙ ap (λ k. length (drop k (c ++ join rest))) (==→eq offset (length c) e)
            ∙ ap length (drop-append_length c (join rest));
        headed = IsHeaded-zero rest a;
      })
      (λ e. record { sized = s; headed = (ground (arith, e, l), a) })

turn_with-TurnOk :
    (b : StreamBuffer) (remaining : ℕ) (cs : List Bytes)
    → BufferInv b
    → b.chunks ≡ cs
    → 0 < remaining
    → remaining ≤ b.size
    → TurnOk b remaining (turn_with b remaining cs)
unfolding turn_with
turn_with-TurnOk b remaining [] v e p l = absurd (
    omega (
      arith,
      v.sized,
      ap (λ z. length (drop b.head_offset (join z))) e,
      length-drop {A = ℕ} b.head_offset [],
    ))
turn_with-TurnOk b remaining (c ∷ cs) v e p l =
    let (h, a) = subst (λ z. IsHeaded z b.head_offset) e v.headed in
    let n : ℕ = min (length c - b.head_offset) remaining in
    let inside : b.head_offset + n ≤ length c = omega arith in
    let all = ap (λ z. drop b.head_offset (join z)) e in
    let cut = split_at c (join cs) b.head_offset n inside in
    let size : length (slice c b.head_offset n) ≡ n =
      omega (arith, length-take n (drop b.head_offset c), length-drop b.head_offset c) in
    let left : StreamBuffer = record b { size = b.size - n } in
    (
      all
          ∙ cut
          ∙ ap (◌++◌ (slice c b.head_offset n))
              (sym (advanced-contents left c cs (b.head_offset + n))),
      omega (arith, size),
      omega (arith, size),
      advanced-BufferInv left c cs (b.head_offset + n) inside a (
          omega (
            arith,
            v.sized,
            ap length all,
            ap length cut,
            length-append (slice c b.head_offset n) (drop (b.head_offset + n) (c ++ join cs)),
            size,
          )),
      advanced-SameFlags left c cs (b.head_offset + n),
    )

pop_turn-TurnOk :
    (b : StreamBuffer) (remaining : ℕ)
    → BufferInv b
    → 0 < remaining
    → remaining ≤ b.size
    → TurnOk b remaining (pop_turn b remaining)
unfolding pop_turn
pop_turn-TurnOk b remaining v p l = turn_with-TurnOk b remaining b.chunks v refl p l

-- The loop returns parts that join to the first `remaining` bytes.
abbrev pub LoopOk : StreamBuffer → ℕ → List Bytes → Option (List Bytes × StreamBuffer) → Type 0
LoopOk b remaining parts none = ⊥
LoopOk b remaining parts (some (parts', b')) =
    (cut : Bytes) × (join parts' ≡ join parts ++ cut)
    × (contents b ≡ cut ++ contents b')
    × (length cut ≡ remaining)
    × BufferInv b'
    × SameFlags b b'

LoopOk-behind :
    (b b' : StreamBuffer) (remaining remaining' : ℕ) (parts : List Bytes) (part : Bytes)
    (r : Option (List Bytes × StreamBuffer))
    → contents b ≡ part ++ contents b'
    → length part + remaining' ≡ remaining
    → SameFlags b b'
    → LoopOk b' remaining' (parts ++ part ∷ []) r
    → LoopOk b remaining parts r
LoopOk-behind b b' remaining remaining' parts part none e l g o = o
LoopOk-behind b b' remaining remaining' parts part (some (parts', z)) e l g (cut, j, c, n, v, f) = (
  part ++ cut,
  j ∙ rw (join-append parts (part ∷ []), append-nil part) (append_assoc (join parts) part cut),
  e ∙ rw c (sym (append_assoc part cut (contents z))),
  omega (arith, length-append part cut),
  v,
  SameFlags-trans b b' z g f,
)

LoopOk-done :
    (b : StreamBuffer) (remaining : ℕ) (parts : List Bytes)
    → BufferInv b
    → remaining ≡ 0
    → LoopOk b remaining parts (some (parts, b))
LoopOk-done b remaining parts v e =
    ([], sym (append-nil (join parts)), refl, sym e, v, (refl, refl, refl, refl, refl))

after_turn-LoopOk :
    (loop : Loop) (fuel : ℕ) (b : StreamBuffer) (remaining : ℕ) (parts : List Bytes)
    (r : Option (Bytes × ℕ × StreamBuffer))
    → ((c : StreamBuffer) (n : ℕ) (ps : List Bytes)
        → BufferInv c
        → n ≤ c.size
        → n ≤ fuel
        → LoopOk c n ps (loop c n ps))
    → BufferInv b
    → remaining ≤ b.size
    → remaining ≤ suc fuel
    → TurnOk b remaining r
    → LoopOk b remaining parts (after_turn loop parts r)
after_turn-LoopOk loop fuel b remaining parts none ih v l f t = t
after_turn-LoopOk loop fuel b remaining parts (some (part, n, b')) ih v l f (e, p, s, w, g) =
    LoopOk-behind b b' remaining n parts part _ e s g (
      ih b' n (parts ++ part ∷ []) w
        (omega (arith, v.sized, w.sized, ap length e, length-append part (contents b')))
        (omega arith))

pub pop_loop-LoopOk :
    (fuel : ℕ) (b : StreamBuffer) (remaining : ℕ) (parts : List Bytes)
    → BufferInv b
    → remaining ≤ b.size
    → remaining ≤ fuel
    → LoopOk b remaining parts (pop_loop fuel b remaining parts)
unfolding pop_loop
pop_loop-LoopOk zero b remaining parts v l f =
    if_split (LoopOk b remaining parts) (remaining == 0)
      (λ e. LoopOk-done b remaining parts v (==→eq remaining 0 e))
      (λ e. absurd (ground (arith, e, f)))
pop_loop-LoopOk (suc fuel) b remaining parts v l f =
    if_split (LoopOk b remaining parts) (remaining == 0)
      (λ e. LoopOk-done b remaining parts v (==→eq remaining 0 e))
      λ e.
        after_turn-LoopOk (pop_loop fuel) fuel b remaining parts (pop_turn b remaining)
          (pop_loop-LoopOk fuel) v l f (pop_turn-TurnOk b remaining v (ground (arith, e)) l)
