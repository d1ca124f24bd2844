-- ===== src/Lib.antt =====
-- Hypercorn: an ASGI server. A connection's protocol (hypercorn/protocol/h11.py, h2.py, h3.py) turns
-- bytes into events and hands them to a stream per request (http_stream.py, ws_stream.py), which
-- starts the application, gives it messages, and turns its messages into events that the protocol
-- sends. Between protocol and stream stands a bounded queue (queued_stream.py); between the streams
-- of HTTP/2 and the socket stand the buffers of h2_send.py.
--
-- Which file models which part:
--   Prelude, Prelude/*: Boolean tests and lists on the native numbers, bytes and header lists.
--   Exec, Exec/*: methods that change an object and may raise; what was done before a raise stays
--     done. Exec/Leads is about steps and invariants of such methods.
--   Events: hypercorn/protocol/events.py.
--   Asgi: the scopes and messages of hypercorn/typing.py that the streams use, the fields of
--     hypercorn/config.py that they read, and the effects that a stream has.
--   QueuedStream, QueuedStream/*: hypercorn/protocol/queued_stream.py. `create`, `append`,
--     `materialize`, `merge_queued_events` are the methods of _QueuedEvent; `try_put` is one turn of
--     the loop in `handle`, `pop_next` and `mark_closed` are the body of `_handle`.
--     QueuedStream/Tasks cuts the tasks at their suspensions and lets an event loop interleave them:
--     `submit` and `resume` are producers, `consume` is `_handle`, `Reach` any interleaving.
--     Setting an event wakes every task that waits. The await of an `Event.set` does not suspend, as
--     in asyncio.
--   H2Send, H2Send/*: hypercorn/protocol/h2_send.py, StreamBuffer. The three events are flags.
--     The loop of `pop` runs on fuel: the bytes to be cut, of which each turn cuts one at least.
--   Utils, Utils/*: hypercorn/utils.py, the header checks and valid_server_name.
--   HttpStream, HttpStream/*: hypercorn/protocol/http_stream.py. `handle` takes events, `app_send` and
--     `app_finished` the messages of the application (`app_finished` is `app_send(None)`), and what
--     the stream does is appended to its `trace`. HttpStream/Phases is the order that a protocol may
--     rely on. A handler runs to its end before the next begins. What `self.send` raises is a
--     parameter, `Refuses`; HttpStream/Refused is about a response that the protocol refuses.
--   H11, H11/*: hypercorn/protocol/h11.py, over the package h11 (H11/Package, with what is relied on
--     of it in H11/Laws) and over the streams (Streams). H11/Connection is H11WSConnection and the
--     choice between it and h11, H11/Upgrade reads the headers, H11/Protocol is the state of
--     H11Protocol and what it sends, H11/Reading its handlers. A stream sends its events when its
--     handler ends. The loop of `_handle_events` runs on fuel, one more than a bound on the events
--     that the bytes at hand can give; its wait for `can_read` ends the run, and `resume` goes on.
--     Lifetime, QuietSteps, Sending, Requests, Streaming, Turns and OneByOne follow the streams of a
--     connection; Fuel, Using and Ending count the events; PassThrough and Upgrades are about the
--     data of a WebSocket and the headers. Wire is hypercorn/events.py.
--   H2Send/Scheduler, H2Send/Scheduler/*: the class H2SendScheduler of hypercorn/protocol/h2_send.py.
--     The packages h2 and priority are the record H2Calls, in which a call that raises is `none`.
--     `send_data` is `_send_data`; its failures close the stream, as the `except` does. `send_turns`
--     is the loop of `_send_ready_batch`, by the sends that are left of MAX_BATCHED_SENDS.
--   H2, H2/*: hypercorn/protocol/h2.py, over the package h2 (H2/Package), over the queues of the
--     streams (Streams) and over the model of H2SendScheduler, whose connection is the protocol's.
--     H2/Protocol makes and closes streams and sends (`stream_send`), H2/Reading is `initiate`,
--     `handle` and the events of h2. Lifetime, Steps, Sending, Turns, Registry and Closing are about
--     the table of streams. A wait for space in the queue of a stream may never end, which leaves the
--     method there, as `suspended`; one that ends, and a wait of the sender, is gone through at once.
--   Wrapper, Wrapper/*: hypercorn/protocol/__init__.py, ProtocolWrapper, over the models of both
--     protocols.
--   TcpWriter: hypercorn/asyncio/tcp_writer.py, BufferedWriter, each method alone under its lock. The
--     stream writer of asyncio is the record Calls. A cancellation is left out.
--   WsStream, WsStream/*: hypercorn/protocol/ws_stream.py. WsStream/Handshake and WsStream/Buffer are
--     Handshake and WebsocketBuffer; WsStream/Stream sends (`app_send`, `app_finished`, `send_ping`),
--     WsStream/Incoming receives (`handle`). The package wsproto is a parameter, the record of
--     WsStream/Wsproto, with a connection as a value that its calls change. The loop over `events()`
--     runs on fuel, `events_left`, a bound of the package on the events that are to come. A text is a
--     list of code points; tokens are ASCII, on which `lower` and `encode` act as on bytes. Where the
--     text of an error cannot be decoded, the model still raises that error.
--   Wsgi, Wsgi/*: hypercorn/app_wrappers.py, WSGIWrapper. `run_app` runs an application, which is any
--     list of acts: calls of start_response, outputs, an exception; what `send` does to the world is a
--     parameter. Wsgi/Environ is `_build_environ`, Wsgi/Service is `handle_http` and `__call__` on the
--     messages that come. Phases, Outputs and Order are about the order of the messages, Body, Prefix
--     and Merging about the body and the environment; OverHttp puts an HTTPStream below. `int`,
--     `str.lower` and `str.upper` are parameters.
--   Streams, Streams/Actual: what H11Protocol and H2Protocol ask of a stream, an interface that the
--     protocols take as a parameter, and the models of HTTPStream and WSStream in its place.
--   Lifespan, Lifespan/Told: hypercorn/asyncio/lifespan.py. The application is a tree of its sends
--     and receives; `run` goes on until it ends or waits for a message, and `ask` is what
--     `wait_for_startup` and `wait_for_shutdown` send it. The queue is taken to have space.
--   Middleware/ProxyFix, Middleware/ProxyFix/*: hypercorn/middleware/proxy_fix.py, the choice of the
--     trusted value and the scope that the application is given.
--   Middleware/Dispatcher, Middleware/Dispatcher/*: hypercorn/middleware/dispatcher.py.
--     `dispatch` is the loop of `__call__` over the mounts; `init` and `send` are the flags of
--     `_handle_lifespan` and the `send` that the mounts are given, the same in both dispatchers; the
--     queues and tasks are not modelled. Mounting is about a WSGI application behind a mount.
--   Worker, Worker/Limit: hypercorn/asyncio/worker_context.py, the count of the requests.
--
-- Numbers are natural numbers, as Python's integers have no width. Bytes are lists of numbers.
-- `bytes.decode` and `urllib.parse.unquote` are parameters (Asgi.TextCalls). Times, addresses and the
-- text of log lines are left out: a log call raises the TypeError of a missing start time, and is an
-- effect otherwise.
--
-- Not modelled: HTTP/3 (hypercorn/protocol/h3.py, h3_send.py, quic.py); the task that runs the batches
-- of H2SendScheduler with its flush and its waits; the variants of trio; middleware/http_to_https.py;
-- sockets, TLS, signals, the command line, configuration files, statsd and log output, which are input
-- and output; and the packages h11, h2, priority, wsproto and aioquic.
pub mod Prelude
pub mod Exec
pub mod Events
pub mod Asgi
pub mod Utils
pub mod QueuedStream
pub mod H2Send
pub mod HttpStream
pub mod H11
pub mod H2
pub mod Lifespan
pub mod Middleware
pub mod Streams
pub mod TcpWriter
pub mod Wire
pub mod Worker
pub mod Wrapper
pub mod WsStream
pub mod Wsgi
