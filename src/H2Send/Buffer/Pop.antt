-- ===== src/H2Send/Buffer/Pop.antt =====
-- protocol/h2_send.py, StreamBuffer.pop: the loop ends, takes the first bytes and leaves the others.
use hypercorn.Prelude.{
  take_prefix, ◌&&◌, ==→eq, ℕ, ◌<◌, ◌≡◌, refl, ap, sym, ◌∙◌, ◌||◌, Option, none, some, List, [],
  arith, length, take, drop, if_split, ltb, leb, ◌==◌, min,
}
use hypercorn.Prelude.Bytes.{Bytes}
use hypercorn.H2Send.Buffer.{StreamBuffer, popped, pop, buffer_low_water}
use hypercorn.H2Send.Buffer.Loop.{LoopOk, pop_loop-LoopOk}
use hypercorn.H2Send.Buffer.Contents.{contents, BufferInv}

-- What `pop` gives from a buffer that keeps the invariant.
abbrev pub PopOk : StreamBuffer → ℕ → Option (Bytes × StreamBuffer) → Type 0
PopOk b n none = ⊥
PopOk b n (some (bytes, b')) =
    (bytes ≡ take n (contents b))
    × (contents b' ≡ drop n (contents b))
    × BufferInv b'
    × (b'.is_empty ≡ b.is_empty || length (contents b') == 0)
    × (b'.paused
        ≡ b.paused || (ltb 0 (length bytes) && leb (length (contents b')) buffer_low_water))
    × (b'.is_complete ≡ b.is_complete)
    × (b'.trailers ≡ b.trailers)
    × (b'.finished ≡ b.finished)

popped-PopOk :
    (b : StreamBuffer) (n : ℕ) (r : Option (List Bytes × StreamBuffer))
    → BufferInv b
    → 0 < min b.size n
    → LoopOk b (min b.size n) [] r
    → PopOk b n (popped r)
popped-PopOk b n none v p o = o
popped-PopOk b n (some (parts, z)) v p (cut, j, c, k, w, (f, g, h, i, l)) =
    let (t, d) = take_prefix cut (contents z) n (omega (arith, v.sized, ap length c)) in
    (
      j ∙ sym (ap (take n) c ∙ t),
      sym (ap (drop n) c ∙ d),
      record { sized = w.sized; headed = w.headed },
      ground (arith, h, w.sized),
      ground (arith, i, w.sized, k, ap length j),
      f,
      g,
      l,
    )

nothing_popped :
    (b : StreamBuffer) (n : ℕ)
    → BufferInv b
    → min b.size n ≡ 0
    → PopOk b n (some ([], record b { is_empty = b.is_empty || b.size == 0 }))
nothing_popped b n v e =
    let (t, d) = take_prefix [] (contents b) n (omega (arith, v.sized)) in
    (
      sym t,
      sym d,
      record { sized = v.sized; headed = v.headed },
      ground (arith, v.sized),
      ground arith,
      refl,
      refl,
      refl,
    )

-- From a buffer that keeps the invariant `pop` always returns, with the first `max_length` bytes,
-- or all if there are fewer, and leaves the others in order. It sets `_is_empty` when nothing is
-- left, and `_paused` when it took something and at most the low-water mark is left; `complete`,
-- the trailers and `_finished` stay as they were.
pub pop-PopOk : (b : StreamBuffer) (n : ℕ) → BufferInv b → PopOk b n (pop b n)
unfolding pop
pop-PopOk b n v =
    if_split (PopOk b n) (min b.size n == 0) (λ e. nothing_popped b n v (==→eq (min b.size n) 0 e))
      λ e.
        popped-PopOk b n _ v (ground (arith, e))
          (pop_loop-LoopOk (min b.size n) b (min b.size n) [] v (omega arith) (omega arith))
