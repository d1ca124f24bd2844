-- ===== src/H2/Package.antt =====
-- The calls that protocol/h2.py makes of the packages h2 and priority. A connection is a value of
-- the type `C`, a tree of priorities one of the type `P`; their calls return them changed.
use hypercorn.Prelude.{ℕ, Bool, Option, List}
use hypercorn.Prelude.Bytes.{Bytes, Headers}

-- A PriorityUpdated event: the stream, what it depends on, its weight, and whether it alone does.
pub record Priority : Type 0 where
  pub stream : ℕ
  pub depends_on : Option ℕ
  pub weight : ℕ
  pub exclusive : Bool

-- The events of h2 that the code tells apart. `data_received` has the length that flow control
-- counts; `settings_changed` says whether the initial window is among the settings.
pub data H2Event : Type 0 where
  request_received : ℕ → Headers → H2Event
  data_received : ℕ → Bytes → ℕ → H2Event
  stream_ended : ℕ → H2Event
  stream_reset : ℕ → H2Event
  window_updated : ℕ → H2Event
  priority_updated : Priority → H2Event
  settings_changed : Bool → H2Event
  connection_terminated : H2Event
  other_event : H2Event

-- A call that is `none` raises a ProtocolError. `refuse_streams` is update_settings with no
-- concurrent streams. `reprioritize` is `none` on a MissingStreamError, `insert_priority` on an
-- exception.
pub record H2Package (C P : Type 0) : Type 0 where
  pub initiate_connection : C → C
  pub initiate_upgrade : C → Bytes → Option C
  pub receive_data : C → Bytes → Option (List H2Event) × C
  pub send_headers : C → ℕ → Headers → Option C
  pub close_connection : C → Option C
  pub reset_stream : C → ℕ → Option C
  pub refuse_streams : C → Option C
  pub data_to_send : C → Bytes × C
  pub next_stream_id : C → Option ℕ
  pub push_stream : C → ℕ → ℕ → Headers → Option C
  pub acknowledge : C → ℕ → ℕ → Option C
  pub reprioritize : P → Priority → Option P
  pub insert_priority : P → Priority → Option P
