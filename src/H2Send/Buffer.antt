-- ===== src/H2Send/Buffer.antt =====
-- protocol/h2_send.py, StreamBuffer: the bytes of one stream that wait for the flow-control window.
-- The three events are the flags `is_empty`, `paused` and `finished`.
pub mod Contents
pub mod Loop
pub mod Pop
use hypercorn.Prelude.{
  ℕ, zero, suc, ◌+◌, ◌-◌, ◌*◌, ◌^◌, min, Bool, true, false, ◌&&◌, ◌||◌, Option, none, some, List,
  [], ◌∷◌, ◌++◌, length, take, drop, join, ltb, leb, ◌==◌, if◌then◌else◌,
}
use hypercorn.Prelude.Bytes.{Bytes, Headers}

abbrev pub buffer_high_water : ℕ
buffer_high_water = 2 * 2 ^ 14

-- BUFFER_HIGH_WATER / 2.
abbrev pub buffer_low_water : ℕ
buffer_low_water = 2 ^ 14

pub record StreamBuffer : Type 0 where
  pub chunks : List Bytes
  pub head_offset : ℕ
  pub size : ℕ
  pub is_complete : Bool
  pub trailers : Option Headers
  pub is_empty : Bool
  pub paused : Bool
  pub finished : Bool

unfoldable pub empty : StreamBuffer
empty = record {
  chunks = [];
  head_offset = 0;
  size = 0;
  is_complete = false;
  trailers = none;
  is_empty = false;
  paused = false;
  finished = false;
}

unfoldable pub finish : StreamBuffer → StreamBuffer
finish b = record b { finished = true }

unfoldable pub set_complete : StreamBuffer → StreamBuffer
set_complete b = record b { is_complete = true }

unfoldable pub set_trailers : StreamBuffer → Headers → StreamBuffer
set_trailers b headers = record b { trailers = some headers; is_complete = true }

unfoldable pub close : StreamBuffer → StreamBuffer
close b = record b {
  is_complete = true;
  chunks = [];
  head_offset = 0;
  size = 0;
  trailers = none;
  is_empty = true;
  paused = true;
  finished = true;
}

-- The property `complete`.
unfoldable pub complete : StreamBuffer → Bool
complete b = b.is_complete && b.size == 0

unfoldable pub with_chunk : StreamBuffer → Bytes → StreamBuffer
with_chunk b chunk =
    if ltb 0 (length chunk)
    then record b { chunks = b.chunks ++ chunk ∷ []; size = b.size + length chunk }
    else b

-- `none` is the BufferCompleteError. The result says whether the writer has to pause.
unfoldable pub push : StreamBuffer → Bytes → Option (StreamBuffer × Bool)
push b chunk =
    if b.is_complete
    then none
    else let b' = record (with_chunk b chunk) { is_empty = false } in
      some (b', leb buffer_high_water b'.size)

-- `chunk[start : start + n]`.
abbrev pub slice : Bytes → ℕ → ℕ → Bytes
slice chunk start n = take n (drop start chunk)

-- The end of a turn of the loop in `pop`: the head chunk goes when it is used up.
abbrev pub advanced : StreamBuffer → Bytes → List Bytes → ℕ → StreamBuffer
advanced b chunk rest offset =
    if offset == length chunk
    then record b { chunks = rest; head_offset = 0 }
    else record b { chunks = chunk ∷ rest; head_offset = offset }

-- A turn of the loop: the part that it cuts off, what remains to be cut, and the buffer. `none` is
-- the IndexError of an empty deque.
turn_with : StreamBuffer → ℕ → List Bytes → Option (Bytes × ℕ × StreamBuffer)
turn_with b remaining [] = none
turn_with b remaining (chunk ∷ rest) =
    let n = min (length chunk - b.head_offset) remaining in
    some (
      slice chunk b.head_offset n,
      remaining - n,
      advanced (record b { size = b.size - n }) chunk rest (b.head_offset + n),
    )

unfoldable pub pop_turn : StreamBuffer → ℕ → Option (Bytes × ℕ × StreamBuffer)
unfolding turn_with
pop_turn b remaining = turn_with b remaining b.chunks

abbrev pub Loop : Type 0
Loop = StreamBuffer → ℕ → List Bytes → Option (List Bytes × StreamBuffer)

-- A turn, and the loop again.
abbrev pub after_turn :
    Loop → List Bytes → Option (Bytes × ℕ × StreamBuffer) → Option (List Bytes × StreamBuffer)
after_turn loop parts none = none
after_turn loop parts (some (part, remaining, b)) = loop b remaining (parts ++ part ∷ [])

-- `while remaining > 0`. Each turn cuts off a byte at least, so `remaining` turns are enough.
-- `none` is the IndexError, or the end of the fuel.
unfoldable pub pop_loop : ℕ → Loop
pop_loop zero b remaining parts = if remaining == 0 then some (parts, b) else none
pop_loop (suc fuel) b remaining parts =
    let rest = after_turn (pop_loop fuel) parts (pop_turn b remaining) in
    if remaining == 0 then some (parts, b) else rest

-- The events that `pop` sets at its end.
abbrev pub signal_space : StreamBuffer → StreamBuffer
signal_space b = record b {
  paused = b.paused || leb b.size buffer_low_water;
  is_empty = b.is_empty || b.size == 0;
}

abbrev pub popped : Option (List Bytes × StreamBuffer) → Option (Bytes × StreamBuffer)
popped none = none
popped (some (parts, b)) = some (join parts, signal_space b)

unfoldable pub pop : StreamBuffer → ℕ → Option (Bytes × StreamBuffer)
unfolding pop_loop pop_turn
pop b max_length =
    let n = min b.size max_length in
    if n == 0
    then some ([], record b { is_empty = b.is_empty || b.size == 0 })
    else popped (pop_loop n b n [])
