-- ===== src/H11/Connection.antt =====
-- protocol/h11.py: the connection of a protocol, an h11 connection or, once a WebSocket is asked
-- for, an H11WSConnection, which passes the data through.
use hypercorn.Prelude.{ℕ, Bool, false, Option, none, some, [], ◌∷◌, ◌++◌, suc}
use hypercorn.Prelude.Bytes.{Bytes}
use hypercorn.H11.Package.{H11, Side, Sendable, Received, need_data}

pub data Connection (C : Type 0) : Type 0 where
  parsing : C → Connection C
  passing : Bytes → C → Connection C

-- H11WSConnection.next_event: all that is buffered, at once.
pub data Next (C : Type 0) : Type 0 where
  parsed : Received → Connection C → Next C
  passed : Bytes → Connection C → Next C

module _ {C : Type 0} (h : H11 C) where
  unfoldable pub receive_data : Connection C → Bytes → Connection C
  receive_data (parsing c) d = parsing (h.receive_data c d)
  receive_data (passing buffer c) d = passing (buffer ++ d) c

  unfoldable pub next_event : Connection C → Next C
  next_event (parsing c) = let (e, c') = h.next_event c in parsed e (parsing c')
  next_event (passing [] c) = parsed need_data (passing [] c)
  next_event (passing (b ∷ buffer) c) = passed (b ∷ buffer) (passing [] c)

  unfoldable pub send : Connection C → Sendable → Option Bytes × Connection C
  send (parsing c) e = let (d, c') = h.send c e in (d, parsing c')
  send (passing buffer c) e = let (d, c') = h.send c e in (d, passing buffer c')

  abbrev pub next_cycle : Option C → Option (Connection C)
  next_cycle none = none
  next_cycle (some c) = some (parsing c)

  unfoldable pub start_next_cycle : Connection C → Option (Connection C)
  start_next_cycle (parsing c) = next_cycle (h.start_next_cycle c)
  start_next_cycle (passing buffer c) = some (passing buffer c)

  -- Both are None for an H11WSConnection.
  abbrev pub our_state : Connection C → Option Side
  our_state (parsing c) = some (h.our_state c)
  our_state (passing buffer c) = none

  abbrev pub their_state : Connection C → Option Side
  their_state (parsing c) = some (h.their_state c)
  their_state (passing buffer c) = none

  abbrev pub trailing_data : Connection C → Bytes
  trailing_data (parsing c) = h.trailing_data c
  trailing_data (passing buffer c) = []

  abbrev pub waits_for_100 : Connection C → Bool
  waits_for_100 (parsing c) = h.waits_for_100 c
  waits_for_100 (passing buffer c) = false

  -- H11WSConnection(connection): the bytes that h11 has not read come first.
  abbrev pub pass_through : Connection C → Connection C
  pass_through (parsing c) = passing (h.trailing_data c) c
  pass_through (passing buffer c) = passing [] c

  -- A bound on the events that `next_event` gives without more data.
  abbrev pub events_left : Connection C → ℕ
  events_left (parsing c) = suc (suc (h.events_left c))
  events_left (passing [] c) = 0
  events_left (passing (b ∷ buffer) c) = 1
