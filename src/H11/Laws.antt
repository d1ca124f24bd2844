-- ===== src/H11/Laws.antt =====
-- What protocol/h11.py relies on of the package h11.
use hypercorn.Prelude.{◌≤◌, ◌<◌, ◌≡◌, ◌≢◌, Bool, true, false, some}
use hypercorn.Prelude.Bytes.{Bytes}
use hypercorn.H11.Package.{
  H11, Request, Received, request, data_received, message_end, Sendable, idle,
}

-- A client's side is idle until a request is read, and only `start_next_cycle` makes it idle again:
-- the state machine that the documentation of h11 describes.
pub record StateLaws {C : Type 0} (h : H11 C) : Type 0 where
  pub request_idle : (c : C) (r : Request) → (h.next_event c).0 ≡ request r → h.their_state c ≡ idle
  pub request_busy :
      (c : C) (r : Request)
      → (h.next_event c).0 ≡ request r
      → h.their_state (h.next_event c).1 ≢ idle
  pub next_busy : (c : C) → h.their_state c ≢ idle → h.their_state (h.next_event c).1 ≢ idle
  pub receive_busy :
      (c : C) (d : Bytes) → h.their_state c ≢ idle → h.their_state (h.receive_data c d) ≢ idle
  pub send_busy :
      (c : C) (e : Sendable) → h.their_state c ≢ idle → h.their_state (h.send c e).1 ≢ idle

-- The events after which `_handle_events` calls `next_event` again.
abbrev pub is_consumed : Received → Bool
is_consumed (request r) = true
is_consumed (data_received d) = true
is_consumed message_end = true
is_consumed e = false

-- The bytes that have arrived give finitely many events, whatever is sent meanwhile.
pub record EventLaws {C : Type 0} (h : H11 C) : Type 0 where
  pub next_fewer :
      (c : C)
      → is_consumed (h.next_event c).0 ≡ true
      → h.events_left (h.next_event c).1 < h.events_left c
  pub send_fewer : (c : C) (e : Sendable) → h.events_left (h.send c e).1 ≤ h.events_left c
  pub cycle_fewer : (c c' : C) → h.start_next_cycle c ≡ some c' → h.events_left c' ≤ h.events_left c
