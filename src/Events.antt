-- ===== src/Events.antt =====
-- protocol/events.py: the events that pass between a protocol and its streams.
use hypercorn.Prelude.{ℕ, String}
use hypercorn.Prelude.Bytes.{Bytes, Headers}

-- The connection's state dictionary: the program copies it and never reads it, so it is a name.
abbrev pub ConnectionState : Type 0
ConnectionState = ℕ

-- The class `Data` is `ws_data`. The first argument of each is the stream id.
pub data Event : Type 0 where
  request : ℕ → Headers → String → String → Bytes → ConnectionState → Event
  body : ℕ → Bytes → Event
  end_body : ℕ → Event
  trailers : ℕ → Headers → Event
  ws_data : ℕ → Bytes → Event
  end_data : ℕ → Event
  response : ℕ → Headers → ℕ → Event
  informational_response : ℕ → Headers → ℕ → Event
  stream_closed : ℕ → Event

unfoldable pub stream_id : Event → ℕ
stream_id (request i hs v m p st) = i
stream_id (body i d) = i
stream_id (end_body i) = i
stream_id (trailers i hs) = i
stream_id (ws_data i d) = i
stream_id (end_data i) = i
stream_id (response i hs c) = i
stream_id (informational_response i hs c) = i
stream_id (stream_closed i) = i
