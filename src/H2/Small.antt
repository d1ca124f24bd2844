-- ===== src/H2/Small.antt =====
-- A small h2 for the runs.
use hypercorn.Prelude.{ℕ, suc, Option, none, some, List, [], ◌∷◌, false}
use hypercorn.Prelude.Bytes.{Bytes, Headers, ascii}
use hypercorn.Streams.{Queues}
use hypercorn.H2Send.Scheduler.{H2Calls, available}
use hypercorn.H2.Package.{H2Package, H2Event, request_received, data_received}

abbrev request_headers : Headers
request_headers =
    (ascii ":method", ascii "get")
    ∷ (ascii ":path", ascii "/")
    ∷ (ascii ":authority", ascii "h")
    ∷ []

-- A byte is a request with that stream id, and some data.
abbrev events_of : Bytes → Option (List H2Event)
events_of [] = none
events_of (b ∷ d) = some (request_received b request_headers ∷ data_received b d 1 ∷ [])

abbrev pub small : H2Package ℕ ℕ
small = record {
  initiate_connection = λ c. c;
  initiate_upgrade = λ c settings. some c;
  receive_data = λ c d. (events_of d, c);
  send_headers = λ c i headers. some c;
  close_connection = λ c. some c;
  reset_stream = λ c i. some c;
  refuse_streams = λ c. some c;
  data_to_send = λ c. ([], c);
  next_stream_id = λ c. none;
  push_stream = λ c i j headers. some c;
  acknowledge = λ c length i. some c;
  reprioritize = λ p priority. some p;
  insert_priority = λ p priority. some p;
}

abbrev pub calls : H2Calls ℕ ℕ
calls = record {
  local_flow_control_window = λ c i. some (available 10);
  max_outbound_frame_size = λ c. 10;
  send_data = λ c i d. some c;
  end_stream = λ c i. some c;
  send_headers = λ c i headers. some c;
  next_stream = λ p. none;
  insert_stream = λ p i. some p;
  remove_stream = λ p i. some p;
  block = λ p i. some p;
  unblock = λ p i. some p;
}

abbrev pub queue_counting : Queues ℕ
queue_counting = record {
  new_http = λ i. 0;
  new_websocket = λ i. 0;
  put = λ n e. suc n;
  is_stuck = λ n e. false;
}
