-- ===== src/HttpStream.antt =====
-- protocol/http_stream.py: a request and its response. `handle` takes the events of the protocol,
-- `app_send` the messages of the application. What the stream does is appended to `trace`.
-- A handler runs to its end before the next begins.
pub mod Sending
pub mod Phases
pub mod Steps
pub mod Kept
pub mod Inputs
pub mod Finish
pub mod Order
pub mod TrailersFirst
pub mod Refused
mod Tests
use text.Mathlib.Text.{◌==◌ as str_eq}
use hypercorn.Prelude.{
  ℕ, Bool, true, false, not, ◌&&◌, ◌||◌, Option, none, some, List, [], ◌∷◌, ◌++◌, map, String, ltb,
  ◌==◌, is_nil, if◌then◌else◌,
}
use hypercorn.Prelude.Bytes.{Bytes, Headers, ascii, bytes_eq, strip}
use hypercorn.Events.{Event, ConnectionState}
use hypercorn.Exec.{
  Error, type_error, unicode_error, attribute_error, unexpected_message, Exec, ◌>>=◌, ◌>>◌, pure,
  raise, lift, or_raise, modify, continue,
}
use hypercorn.Utils.{build_and_validate_headers, suppress_body, valid_server_name, str_in}
use hypercorn.Asgi.{
  Config, TextCalls, Scope, ResponseStart, Receive, http_request, http_disconnect, Effect, sent,
  spawned, put, logged,
}

abbrev pub trailers_versions : List String
trailers_versions = "2" ∷ "3" ∷ []

abbrev pub push_versions : List String
push_versions = "2" ∷ "3" ∷ []

abbrev pub early_hints_versions : List String
early_hints_versions = "2" ∷ "3" ∷ []

-- ASGIHTTPState.
pub data AsgiHttpState : Type 0 where
  request response trailers closed : AsgiHttpState

-- What an application sends. The path of a push is `none` when it is no `str`.
pub data Message : Type 0 where
  response_start : ResponseStart → Message
  response_push : Option Bytes → Headers → Message
  response_early_hint : List Bytes → Message
  response_body : Bytes → Bool → Message
  response_trailers : Headers → Bool → Message
  other_message : Message

pub record HttpStream : Type 0 where
  pub config : Config
  pub app_put : Bool
  pub is_closed : Bool
  pub response_of : Option ResponseStart
  pub scope : Option Scope
  pub scheme : String
  pub start_time : Bool
  pub state : AsgiHttpState
  pub stream_id : ℕ
  pub trailer_headers : Headers
  pub trace : List Effect

unfoldable pub init : Config → Bool → ℕ → HttpStream
init config ssl stream_id = record {
  config = config;
  app_put = false;
  is_closed = false;
  response_of = none;
  scope = none;
  scheme = if ssl then "https" else "http";
  start_time = false;
  state = request;
  stream_id = stream_id;
  trailer_headers = [];
  trace = [];
}

abbrev pub Run : Type 0
Run = Exec HttpStream Unit

abbrev pub emit : Effect → Run
emit e s = pure tt (record s { trace = s.trace ++ e ∷ [] })

-- What `self.send`, the protocol's `stream_send`, raises of an event, after all that the stream has
-- done; `none` where it returns. An exception of it leaves the stream as it was.
abbrev pub Refuses : Type 0
Refuses = List Effect → Event → Option Error

abbrev pub takes_all : Refuses
takes_all es e = none

abbrev pub emit_or_raise : Option Error → Effect → Run
emit_or_raise none e = emit e
emit_or_raise (some error) e = raise error

abbrev pub send : Refuses → (ℕ → Event) → Run
send refuses e s = emit_or_raise (refuses s.trace (e s.stream_id)) (sent (e s.stream_id)) s

abbrev pub enter : AsgiHttpState → Run
enter state s = pure tt (record s { state = state })

abbrev pub close : Run
close s = pure tt (record s { is_closed = true })

-- `config.log.access`, with the time since `start_time`.
abbrev pub log_access : Option ResponseStart → Run
log_access r s = if s.start_time then emit (logged r) s else raise type_error s

abbrev pub error_summary : ℕ → ResponseStart
error_summary status = record { status = status; headers = []; trailers = false }

abbrev pub error_headers : Headers
error_headers = (ascii "content-length", ascii "0") ∷ (ascii "connection", ascii "close") ∷ []

unfoldable pub send_error_response : Refuses → ℕ → Run
send_error_response refuses status = do
  send refuses (λ i. Event.response i error_headers status)
  send refuses Event.end_body
  enter closed
  log_access (some (error_summary status))

-- `self.response` is an attribute that is missing until a response has started.
unfoldable pub send_closed : Refuses → Run
send_closed refuses = do
  send refuses Event.end_body
  enter closed
  λ s. (do r ← or_raise attribute_error s.response_of; log_access (some r)) s
  send refuses Event.stream_closed

-- raw_path.partition(b"?"), without the separator.
unfoldable pub partition : Bytes → Bytes × Bytes
partition [] = ([], [])
partition (c ∷ rest) =
    let (path, query) = partition rest in if c == b'?' then ([], rest) else (c ∷ path, query)

unfoldable pub is_ascii : Bytes → Bool
is_ascii [] = true
is_ascii (c ∷ rest) = ltb c 128 && is_ascii rest

abbrev pub extensions_for : String → List String
extensions_for version =
    (if str_in version trailers_versions then "http.response.trailers" ∷ [] else [])
    ++ (if str_in version push_versions then "http.response.push" ∷ [] else [])
    ++ (if str_in version early_hints_versions then "http.response.early_hint" ∷ [] else [])

abbrev pub scope_for :
    TextCalls → HttpStream → Headers → String → String → Bytes → ConnectionState → Scope
scope_for calls s headers version method raw_path state =
    let (path, query_string) = partition raw_path in
    record {
      http_version = version;
      method = method;
      scheme = s.scheme;
      path = calls.unquote path;
      raw_path = path;
      query_string = query_string;
      root_path = s.config.root_path;
      headers = headers;
      state = state;
      extensions = extensions_for version;
      subprotocols = [];
    }

-- `spawn_app`, whose result is `app_put`.
abbrev pub spawn_app : Scope → Run
spawn_app scope = do emit (spawned scope); λ s. pure tt (record s { app_put = true })

abbrev pub refuse : Refuses → ℕ → Run
refuse refuses status = do send_error_response refuses status; close

unfoldable pub handle_request :
    Refuses → TextCalls → Headers → String → String → Bytes → ConnectionState → Run
unfolding send_error_response
handle_request refuses calls headers version method raw_path state s =
    let scope = scope_for calls s headers version method raw_path state in
    let started : HttpStream = record s { start_time = true } in
    if is_ascii scope.raw_path
    then (do
      valid ← lift (valid_server_name calls.decode s.config.server_names headers)
      if valid then spawn_app scope else refuse refuses 404)
        (record started { scope = some scope })
    else raise unicode_error started

-- `if self.app_put is not None: await self.app_put(…)`.
abbrev pub put_message : Receive → Run
put_message m s = if s.app_put then emit (put m) s else pure tt s

abbrev pub is_not_closed : AsgiHttpState → Bool
is_not_closed closed = false
is_not_closed state = true

abbrev pub is_given : Option Scope → Bool
is_given none = false
is_given (some scope) = true

-- A `StreamClosed` event: a response that has not ended is logged without one.
unfoldable pub handle_closed : Run
handle_closed s =
    (do
      close
      if is_not_closed s.state && (is_given s.scope && s.start_time)
          then emit (logged none)
          else pure tt
      put_message http_disconnect)
      s

unfoldable pub handle_event : Refuses → TextCalls → Event → Run
unfolding handle_request handle_closed
handle_event refuses calls (Event.request i hs v m p st) = handle_request refuses calls hs v m p st
handle_event refuses calls (Event.body i d) = put_message (http_request d true)
handle_event refuses calls (Event.end_body i) = put_message (http_request [] false)
handle_event refuses calls (Event.stream_closed i) = handle_closed
handle_event refuses calls e = pure tt

unfoldable pub handle : Refuses → TextCalls → Event → Run
unfolding handle_event
handle refuses calls e s = if s.is_closed then pure tt s else handle_event refuses calls e s
