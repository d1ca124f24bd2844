-- ===== src/H2Send/Tests.antt =====
-- Runs of the stream buffer and the scheduler of protocol/h2_send.py on small inputs.
use hypercorn.Prelude.{◌≡◌, refl, false, true, none, some, arith, [], ◌∷◌}
use hypercorn.H2Send.Buffer.{StreamBuffer, push, pop, pop_turn, pop_loop}
use hypercorn.H2Send.Buffer.Contents.{BufferInv, PushOk, push-PushOk}
use hypercorn.H2Send.Buffer.Pop.{PopOk, pop-PopOk}
use hypercorn.Prelude.{ℕ, Bool, Option, List, ◌++◌, subst, ◌==◌, if◌then◌else◌}
use hypercorn.H2Send.Buffer.{set_complete}
use hypercorn.H2Send.Scheduler.{
  H2Calls, Scheduler, available, data_frame, end_frame, lookup, store, send_data,
}
use hypercorn.H2Send.Scheduler.Operations.{send_turns}
use hypercorn.H2Send.Scheduler.Batches.{TableOk, ReturnsOk, BufferOk, send_turns-ReturnsOk}

-- Five bytes in two chunks, of which the first is sent.
abbrev filled : StreamBuffer
filled = record {
  chunks = (5 ∷ 6 ∷ 7 ∷ []) ∷ (8 ∷ 9 ∷ []) ∷ [];
  head_offset = 1;
  size = 4;
  is_complete = false;
  trailers = none;
  is_empty = false;
  paused = false;
  finished = false;
}

filled-BufferInv : BufferInv filled
filled-BufferInv = record { sized = refl; headed = (omega arith, (omega arith, tt)) }

-- A pop that ends inside the second chunk.
filled-pop :
    pop filled 3
    ≡ some (
      6 ∷ 7 ∷ 8 ∷ [],
      record filled { chunks = (8 ∷ 9 ∷ []) ∷ []; head_offset = 1; size = 1; paused = true },
    )
unfolding pop pop_turn pop_loop
filled-pop = refl

push-PushOk_example : PushOk filled (1 ∷ []) (push filled (1 ∷ []))
push-PushOk_example = push-PushOk filled (1 ∷ []) filled-BufferInv

pop-PopOk_example : PopOk filled 3 (pop filled 3)
pop-PopOk_example = pop-PopOk filled 3 filled-BufferInv

abbrev next_of : List ℕ → Option (ℕ × List ℕ)
next_of [] = none
next_of (i ∷ is) = some (i, is)

-- A connection with a window of three bytes, and a tree that is the list of the streams to come.
abbrev plain : H2Calls ℕ (List ℕ)
plain = record {
  local_flow_control_window = λ c i. some (available 3);
  max_outbound_frame_size = λ c. 16;
  send_data = λ c i d. some c;
  end_stream = λ c i. some c;
  send_headers = λ c i hs. some c;
  next_stream = next_of;
  insert_stream = λ p i. some (p ++ i ∷ []);
  remove_stream = λ p i. some p;
  block = λ p i. some p;
  unblock = λ p i. some (p ++ i ∷ []);
}

abbrev scheduler : Scheduler ℕ (List ℕ)
scheduler = record {
  connection = 0;
  priority = 1 ∷ [];
  has_data = false;
  stream_buffers = (1, set_complete filled) ∷ [];
  sent = [];
  released = [];
}

-- The first turn sends three bytes and the second the last one and the end.
scheduler_sends :
    (send_turns plain 16 (false, []) 1 scheduler).1.sent
    ≡ data_frame 1 (6 ∷ 7 ∷ 8 ∷ []) ∷ data_frame 1 (9 ∷ []) ∷ end_frame 1 ∷ []
unfolding send_turns send_data set_complete lookup pop store
scheduler_sends = refl

scheduler-TableOk : TableOk scheduler
unfolding set_complete lookup
scheduler-TableOk j b e = only (j == 1) e
  where
    only :
        (found : Bool)
        → (if found then some (record filled { is_complete = true }) else none) ≡ some b
        → BufferInv b
    only true e =
        subst BufferOk e (record { sized = refl; headed = (omega arith, (omega arith, tt)) })
    only false e = cc

send_turns-ReturnsOk_example : ReturnsOk (send_turns plain 16 (false, []) 1 scheduler)
send_turns-ReturnsOk_example =
    send_turns-ReturnsOk plain 16 (false, []) 1 scheduler scheduler-TableOk
