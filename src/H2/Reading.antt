-- ===== src/H2/Reading.antt =====
-- protocol/h2.py, H2Protocol: `initiate`, `handle` and what it does with the events of h2.
use hypercorn.Prelude.{
  ℕ, true, false, Option, none, some, List, [], ◌∷◌, String, ltb, if◌then◌else◌,
}
use hypercorn.Prelude.Bytes.{Bytes, Headers}
use hypercorn.Events.{Event}
use hypercorn.Exec.{Exec, ◌>>◌, pure}
use hypercorn.Wire.{WireEvent, raw_data, shut, updated}
use hypercorn.Streams.{Queues}
use hypercorn.H2Send.Scheduler.{H2Calls, Scheduler, set_has_data, prioritise}
use hypercorn.H2Send.Scheduler.Operations.{window_updated as window_updated_to}
use hypercorn.H2.Package.{
  H2Package, H2Event, Priority, request_received, data_received, stream_ended, stream_reset,
  window_updated, priority_updated, settings_changed, connection_terminated, other_event,
}
use hypercorn.H2.Tables.{find, keys}
use hypercorn.H2.Protocol.{
  Run, emit, sent, spawned, on_sender, on_connection, set_connection, flush, put, close_stream,
  create_stream,
}

module _ {C P T : Type 0} (h2 : H2Package C P) (calls : H2Calls C P) (queues : Queues T)
    (decode : Bytes → Option String) where
  -- H2SendScheduler.priority_updated: a stream that the tree does not know is put into it, blocked.
  abbrev pub prioritised : Priority → Option P → Exec (Scheduler C P) Unit
  prioritised p none s =
      (do
        prioritise calls (h2.insert_priority s.priority p)
        λ t. prioritise calls (calls.block t.priority p.stream) t
        set_has_data calls)
        s
  prioritised p (some tree) s = (do prioritise calls (some tree); set_has_data calls) s

  unfoldable pub reprioritise : Priority → Exec (Scheduler C P) Unit
  reprioritise p s = prioritised p (h2.reprioritize s.priority p) s

  -- `except KeyError: pass` around the queue of a stream, which raises none.
  abbrev pub put_if_open : ℕ → Event → Option T → Run C P T Unit
  put_if_open i e none = pure tt
  put_if_open i e (some t) = put h2 calls queues decode i e

  abbrev pub accept_request : ℕ → Headers → Run C P T Unit
  accept_request i headers s =
      if s.terminated
      then (do on_connection (λ c. h2.reset_stream c i); on_connection h2.refuse_streams) s
      else (do create_stream h2 calls queues decode i headers; emit (sent (updated false))) s

  abbrev pub close_after_limit : Run C P T Unit
  close_after_limit s =
      if ltb s.config.keep_alive_max_requests s.keep_alive_requests
      then on_connection h2.close_connection s
      else pure tt s

  -- The chain of conditions on an event. The callback that acknowledges data is `acknowledge`.
  unfoldable pub take_event : H2Event → Run C P T Unit
  unfolding create_stream put find close_stream window_updated_to reprioritise
  take_event (request_received i headers) s = (do accept_request i headers; close_after_limit) s
  take_event (data_received i d length) s = put_if_open i (Event.body i d) (find i s.streams) s
  take_event (stream_ended i) s = put_if_open i (Event.end_body i) (find i s.streams) s
  take_event (stream_reset i) s =
      (do close_stream h2 calls queues decode i; on_sender (window_updated_to calls (some i))) s
  take_event (window_updated i) s = on_sender (window_updated_to calls (some i)) s
  take_event (priority_updated p) s = on_sender (reprioritise p) s
  take_event (settings_changed initial_window) s =
      if initial_window then on_sender (window_updated_to calls none) s else pure tt s
  take_event connection_terminated s = emit (sent shut) s
  take_event other_event s = pure tt s

  unfoldable pub take_events : List H2Event → Run C P T Unit
  unfolding take_event
  take_events [] = pure tt
  take_events (e ∷ es) = do take_event e; take_events es

  abbrev pub take_received : Option (List H2Event) → Run C P T Unit
  take_received none = do flush h2 calls queues decode; emit (sent shut)
  take_received (some es) = do take_events es; flush h2 calls queues decode

  unfoldable pub close_all : List ℕ → Run C P T Unit
  unfolding close_stream
  close_all [] = pure tt
  close_all (i ∷ is) = do close_stream h2 calls queues decode i; close_all is

  abbrev pub set_closed : Run C P T Unit
  set_closed s = pure tt (record s { closed = true })

  unfoldable pub handle : WireEvent → Run C P T Unit
  unfolding take_events flush close_all keys
  handle (raw_data d) s =
      let (events, c) = h2.receive_data s.sender.connection d in
      (do set_connection c; take_received events) s
  handle shut s = (do set_closed; close_all (keys s.streams); on_sender (set_has_data calls)) s
  handle (updated idle) s = pure tt s

  -- `_acknowledge_data`, which a stream calls once it has taken the data.
  unfoldable pub acknowledge : ℕ → ℕ → Run C P T Unit
  unfolding flush
  acknowledge length i = do
    on_connection (λ c. h2.acknowledge c length i)
    flush h2 calls queues decode

  abbrev pub begin_connection : Option Bytes → Run C P T Unit
  begin_connection none s = set_connection (h2.initiate_connection s.sender.connection) s
  begin_connection (some settings) s = on_connection (λ c. h2.initiate_upgrade c settings) s

  -- The request of an upgrade is stream 1; its body is empty.
  abbrev pub begin_request : Option Headers → Run C P T Unit
  begin_request none = pure tt
  begin_request (some headers) = do
    create_stream h2 calls queues decode 1 headers
    put h2 calls queues decode 1 (Event.end_body 1)

  unfoldable pub initiate : Option Headers → Option Bytes → Run C P T Unit
  unfolding flush create_stream put
  initiate headers settings = do
    begin_connection settings
    flush h2 calls queues decode
    begin_request headers
    emit spawned
