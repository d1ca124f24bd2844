-- ===== src/H2Send/Buffer/Contents.antt =====
-- protocol/h2_send.py: the chunks of a StreamBuffer as one run of bytes.
use hypercorn.Prelude.{
  ℕ, ◌≤◌, ◌<◌, ◌≡◌, refl, ap, inl, inr, Bool, true, false, Option, none, some, List, [], ◌∷◌, ◌++◌,
  append-nil, arith, length, length-append, drop, drop-append, join, join-append, All, All-append,
  Bool-cases, if_split, ltb, leb, length_zero,
}
use hypercorn.Prelude.Bytes.{Bytes}
use hypercorn.H2Send.Buffer.{StreamBuffer, empty, push, with_chunk, close, buffer_high_water}

-- The bytes that are still to be sent.
abbrev pub contents : StreamBuffer → Bytes
contents b = drop b.head_offset (join b.chunks)

abbrev pub NonEmpty : Bytes → Type 0
NonEmpty c = 0 < length c

-- The offset stands inside the first chunk, and no chunk is empty.
abbrev pub IsHeaded : List Bytes → ℕ → Type 0
IsHeaded [] h = h ≡ 0
IsHeaded (c ∷ cs) h = (h < length c) × All NonEmpty cs

pub record BufferInv (b : StreamBuffer) : Type 0 where
  pub sized : b.size ≡ length (contents b)
  pub headed : IsHeaded b.chunks b.head_offset

pub empty-BufferInv : BufferInv empty
unfolding empty
empty-BufferInv = record { sized = refl; headed = refl }

close-BufferInv : (b : StreamBuffer) → BufferInv (close b)
unfolding close
close-BufferInv b = record { sized = refl; headed = refl }

IsHeaded-le : (cs : List Bytes) (h : ℕ) → IsHeaded cs h → h ≤ length (join cs)
IsHeaded-le [] h i = omega arith
IsHeaded-le (c ∷ cs) h i = omega (arith, length-append c (join cs))

IsHeaded-append :
    (cs : List Bytes) (h : ℕ) (d : Bytes) → IsHeaded cs h → NonEmpty d → IsHeaded (cs ++ d ∷ []) h
IsHeaded-append [] h d i n = (omega arith, tt)
IsHeaded-append (c ∷ cs) h d i n = (i.0, All-append NonEmpty cs (d ∷ []) i.1 (n, tt))

drop-join :
    (cs : List Bytes) (h : ℕ) (d : Bytes)
    → IsHeaded cs h
    → drop h (join (cs ++ d ∷ [])) ≡ drop h (join cs) ++ d
drop-join cs h d i =
    rw (join-append cs (d ∷ []), append-nil d) (drop-append h (join cs) d (IsHeaded-le cs h i))

with_chunk-contents :
    (b : StreamBuffer) (d : Bytes) → BufferInv b → contents (with_chunk b d) ≡ contents b ++ d
unfolding with_chunk
with_chunk-contents b d v = elim (Bool-cases (ltb 0 (length d))) [
  | inl e ↦ rw e (drop-join b.chunks b.head_offset d v.headed)
  | inr e ↦ rw (e, length_zero d (ground (arith, e)), append-nil (contents b))
]

with_chunk-BufferInv : (b : StreamBuffer) (d : Bytes) → BufferInv b → BufferInv (with_chunk b d)
unfolding with_chunk
with_chunk-BufferInv b d v = elim (Bool-cases (ltb 0 (length d))) [
  | inl e ↦ rw e (record {
    sized = omega (
      arith,
      v.sized,
      ap length (drop-join b.chunks b.head_offset d v.headed),
      length-append (contents b) d,
    );
    headed = IsHeaded-append b.chunks b.head_offset d v.headed (ground (arith, e));
  })
  | inr e ↦ rw e v
]

-- What a write gives.
abbrev pub PushOk : StreamBuffer → Bytes → Option (StreamBuffer × Bool) → Type 0
PushOk b d none = b.is_complete ≡ true
PushOk b d (some (b', pause)) =
    (b.is_complete ≡ false)
    × (contents b' ≡ contents b ++ d)
    × (pause ≡ leb buffer_high_water (length (contents b')))
    × (b'.is_empty ≡ false)
    × BufferInv b'

-- From a buffer that keeps the invariant, a write adds its bytes at the end, keeps the invariant,
-- clears `_is_empty`, and asks its writer to pause exactly from the high-water mark on. It is
-- refused exactly when the buffer is complete.
pub push-PushOk : (b : StreamBuffer) (d : Bytes) → BufferInv b → PushOk b d (push b d)
unfolding push
push-PushOk b d v =
    let w = with_chunk-BufferInv b d v in
    if_split (PushOk b d) b.is_complete (λ e. e)
      λ e. (
        e,
        with_chunk-contents b d v,
        ap (leb buffer_high_water) w.sized,
        refl,
        record { sized = w.sized; headed = w.headed },
      )
