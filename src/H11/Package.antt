-- ===== src/H11/Package.antt =====
-- The calls that protocol/h11.py makes of the package h11. A connection is a value of the type `C`;
-- its calls return it changed.
use hypercorn.Prelude.{ℕ, Bool, Option}
use hypercorn.Prelude.Bytes.{Bytes, Headers}

-- The states of a side of the connection that the code compares with, and the others.
pub data Side : Type 0 where
  idle send_response done failed other_side : Side

-- h11.Request. `raw_items` are the headers with their names as they were sent.
pub record Request : Type 0 where
  pub method : Bytes
  pub target : Bytes
  pub http_version : Bytes
  pub headers : Headers
  pub raw_items : Headers

-- What is sent: h11.Response, InformationalResponse, Data and EndOfMessage.
pub data Sendable : Type 0 where
  response : ℕ → Headers → Sendable
  informational : ℕ → Headers → Sendable
  data_event : Bytes → Sendable
  end_of_message : Sendable

-- What `next_event` gives; `remote_error` is the RemoteProtocolError with its error_status_hint.
pub data Received : Type 0 where
  request : Request → Received
  data_received : Bytes → Received
  message_end : Received
  connection_closed need_data paused : Received
  remote_error : ℕ → Received

-- `send` is `none` on a LocalProtocolError, which changes the connection too; `start_next_cycle` is
-- `none` on one. `events_left` bounds the events that the bytes at hand can still give.
pub record H11 (C : Type 0) : Type 0 where
  pub new : C
  pub receive_data : C → Bytes → C
  pub next_event : C → Received × C
  pub events_left : C → ℕ
  pub send : C → Sendable → Option Bytes × C
  pub start_next_cycle : C → Option C
  pub our_state : C → Side
  pub their_state : C → Side
  pub trailing_data : C → Bytes
  pub waits_for_100 : C → Bool
