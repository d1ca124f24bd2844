-- ===== src/Asgi.antt =====
-- typing.py: the ASGI messages and scopes that streams exchange with an application, and what a
-- stream does to the world around it.
use hypercorn.Prelude.{ℕ, Bool, Option, List, String}
use hypercorn.Prelude.Bytes.{Bytes, Headers}
use hypercorn.Events.{Event, ConnectionState}

-- A `str` as its code points, where its characters matter.
abbrev pub Text : Type 0
Text = List ℕ

pub record Config : Type 0 where
  pub server_names : List String
  pub root_path : String
  pub websocket_max_message_size : ℕ
  pub websocket_ping_interval : Option ℕ

-- Library calls on text: bytes.decode() (`none` is the UnicodeDecodeError) and
-- urllib.parse.unquote on an ASCII text.
pub record TextCalls : Type 0 where
  pub decode : Bytes → Option String
  pub unquote : Bytes → String

-- The keys that differ between requests; `subprotocols` is of a WebSocket scope alone.
pub record Scope : Type 0 where
  pub http_version : String
  pub method : String
  pub scheme : String
  pub path : String
  pub raw_path : Bytes
  pub query_string : Bytes
  pub root_path : String
  pub headers : Headers
  pub state : ConnectionState
  pub extensions : List String
  pub subprotocols : List Text

-- http.response.start and websocket.http.response.start, with its optional key `trailers`.
pub record ResponseStart : Type 0 where
  pub status : ℕ
  pub headers : Headers
  pub trailers : Bool

-- What an application receives.
pub data Receive : Type 0 where
  http_request : Bytes → Bool → Receive
  http_disconnect : Receive
  websocket_connect : Receive
  websocket_receive : Option Bytes → Option Text → Receive
  websocket_disconnect : ℕ → Receive

-- What a stream does: it sends an event to its protocol, starts the application, puts a message
-- to it, writes to the access log, or starts the task that sends pings.
pub data Effect : Type 0 where
  sent : Event → Effect
  spawned : Scope → Effect
  put : Receive → Effect
  logged : Option ResponseStart → Effect
  pinging : Effect
