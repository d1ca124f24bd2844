-- ===== src/Wsgi/Service.antt =====
-- app_wrappers.py: WSGIWrapper, from the scope to the last message.
use hypercorn.Prelude.{
  ℕ, Bool, false, Option, none, some, List, [], ◌∷◌, ◌++◌, length, ltb, if◌then◌else◌,
}
use hypercorn.Prelude.Bytes.{Bytes}
use hypercorn.Exec.{invalid_path, unknown_scope, Result, ok, err, Exec, ◌>>◌, pure, raise}
use hypercorn.Wsgi.{Strings, Send, start, body, websocket_close, App, Run, send, run_app}
use hypercorn.Wsgi.Environ.{HttpScope, Environ, build_environ}

-- A message that is received: http.request, with its keys `body` and `more_body` where it has them,
-- or http.disconnect, which has neither.
pub data Incoming : Type 0 where
  http_request : Option Bytes → Option Bool → Incoming
  http_disconnect : Incoming

-- The body of a request: all of it, more than the limit, or still to come.
pub data Reading : Type 0 where
  complete : Bytes → Reading
  too_large awaits : Reading

abbrev pub or_empty : Option Bytes → Bytes
or_empty none = []
or_empty (some b) = b

abbrev pub or_false : Option Bool → Bool
or_false none = false
or_false (some b) = b

-- `message.get("body", b"")`.
abbrev pub body_of : Incoming → Bytes
body_of (http_request body_key more_body) = or_empty body_key
body_of http_disconnect = []

-- `message.get("more_body")`, as a condition.
abbrev pub has_more : Incoming → Bool
has_more (http_request body_key more_body) = or_false more_body
has_more http_disconnect = false

-- The loop that receives the body, on the messages that come.
unfoldable pub read_body : ℕ → Bytes → List Incoming → Reading
read_body max_body_size received [] = awaits
read_body max_body_size received (m ∷ ms) =
    let longer = received ++ body_of m in
    let rest = read_body max_body_size longer ms in
    if ltb max_body_size (length longer)
    then too_large
    else if has_more m
    then rest
    else complete longer

pub data Served : Type 0 where
  served waits : Served

-- scope["type"], with the scope of a request.
pub data ScopeType : Type 0 where
  http : HttpScope → ScopeType
  websocket lifespan unknown : ScopeType

module _ {W : Type 0} (strings : Strings) (deliver : Send → Exec W Unit) (app : Environ → App) where
  abbrev pub send_message : Send → Exec (Run W) Unit
  send_message = send strings deliver

  -- The application is run in a thread, which hands each message to the event loop and waits.
  abbrev pub respond : Result {0} Environ → Exec (Run W) Unit
  respond (ok environ) = run_app strings deliver (app environ)
  respond (err invalid_path) = send_message (start (some 404) [])
  respond (err e) = raise e

  abbrev pub then_served : Exec (Run W) Unit → Exec (Run W) Served
  then_served m = do m; pure served

  abbrev pub answer : HttpScope → Reading → Exec (Run W) Served
  answer scope (complete b) =
      then_served (do respond (build_environ strings scope b); send_message (body [] false))
  answer scope too_large =
      then_served (do send_message (start (some 400) []); send_message (body [] false))
  answer scope awaits = pure waits

  unfoldable pub handle_http : ℕ → HttpScope → List Incoming → Exec (Run W) Served
  unfolding build_environ run_app read_body
  handle_http max_body_size scope incoming = answer scope (read_body max_body_size [] incoming)

  unfoldable pub call : ℕ → ScopeType → List Incoming → Exec (Run W) Served
  unfolding handle_http
  call max_body_size (http scope) incoming = handle_http max_body_size scope incoming
  call max_body_size websocket incoming = then_served (send_message websocket_close)
  call max_body_size lifespan incoming = pure served
  call max_body_size unknown incoming = raise unknown_scope
