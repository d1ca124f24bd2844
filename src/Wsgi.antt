-- ===== src/Wsgi.antt =====
-- app_wrappers.py: WSGIWrapper.run_app, an application of WSGI and the messages of ASGI it becomes.
pub mod Phases
pub mod Outputs
pub mod Order
pub mod Environ
pub mod Service
pub mod OverHttp
pub mod Merging
pub mod Body
pub mod Prefix
mod Tests
use hypercorn.Prelude.{
  ℕ, Bool, true, false, not, ◌&&◌, Option, none, some, List, [], ◌∷◌, ◌++◌, ltb, ◌==◌, is_nil,
  if◌then◌else◌,
}
use hypercorn.Prelude.Bytes.{Bytes, Headers}
use hypercorn.Exec.{
  Error, value_error, unicode_error, runtime_error, Result, ok, err, Exec, ◌>>=◌, ◌>>◌, pure, raise,
  lift, or_raise, continue,
}
use hypercorn.Utils.{then_result}
use hypercorn.Asgi.{Text}

-- Library calls on text: `int`, `str.lower` and `str.upper`.
pub record Strings : Type 0 where
  pub int : Text → Option ℕ
  pub lower : Text → Text
  pub upper : Text → Text

-- http.response.start, http.response.body and websocket.close, as the wrapper sends them. A status
-- that is None is `none`.
pub data Send : Type 0 where
  start : Option ℕ → Headers → Send
  body : Bytes → Bool → Send
  websocket_close : Send

-- A call of start_response. Of `exc_info` the exception alone.
pub record StartCall : Type 0 where
  pub status : Text
  pub response_headers : List (Text × Text)
  pub exc_info : Option Error

-- What an application does: it calls start_response, and passes over what that raises or not, its
-- iterator gives an output, or it raises.
pub data Act : Type 0 where
  starts : StartCall → Bool → Act
  yields : Bytes → Act
  fails : Error → Act

-- A run of an application: the calls of start_response before it returns, with the exception it
-- ends by, then what the iterator does, and how its `close` ends if it has one.
pub record App : Type 0 where
  pub calling : List (StartCall × Bool)
  pub raised : Option Error
  pub iterating : List Act
  pub close : Option (Result {0} Unit)

-- The variables of `run_app`, the messages that `send` has taken without an exception, and the
-- world `W` that `send` changes.
pub record Run (W : Type 0) : Type 0 where
  pub headers : Headers
  pub response_started : Bool
  pub headers_sent : Bool
  pub status_code : Option ℕ
  pub closed : Bool
  pub sends : List Send
  pub world : W

unfoldable pub begin : {W : Type 0} → W → Run W
begin world = record {
  headers = [];
  response_started = false;
  headers_sent = false;
  status_code = none;
  closed = false;
  sends = [];
  world = world;
}

-- `raw, _ = status.split(" ", 1)`: a ValueError without a space.
unfoldable pub split_status : Text → Result {0} Text
split_status [] = err value_error
split_status (c ∷ s) =
    let rest = split_status s in if c == 32 then ok [] else then_result rest (λ raw. ok (c ∷ raw))

-- `.encode("latin-1")`.
unfoldable pub latin1 : Text → Result {0} Bytes
latin1 [] = ok []
latin1 (c ∷ s) =
    let rest = latin1 s in
    if ltb c 256 then then_result rest (λ b. ok (c ∷ b)) else err unicode_error

abbrev pub is_given : {A : Type 0} → Option A → Bool
is_given none = false
is_given (some a) = true

module _ (strings : Strings) where
  unfoldable pub encode_headers : List (Text × Text) → Result {0} Headers
  unfolding latin1
  encode_headers [] = ok []
  encode_headers ((name, value) ∷ rest) =
      let others = encode_headers rest in
      then_result (latin1 (strings.lower name))
        λ n. then_result (latin1 value) (λ v. then_result others (λ hs. ok ((n, v) ∷ hs)))

module _ {W : Type 0} (strings : Strings) (deliver : Send → Exec W Unit) where
  -- A second call needs exc_info; with it the exception is raised again once headers were sent.
  abbrev pub may_start : Option Error → Exec (Run W) Unit
  may_start none s = if s.response_started then raise runtime_error s else pure tt s
  may_start (some e) s = if s.headers_sent then raise e s else pure tt s

  unfoldable pub start_response : StartCall → Exec (Run W) Unit
  unfolding split_status encode_headers
  start_response call = do
    may_start call.exc_info
    raw ← lift (split_status call.status)
    code ← or_raise value_error (strings.int raw)
    λ s. pure tt (record s { status_code = some code })
    headers ← lift (encode_headers strings call.response_headers)
    λ s. pure tt (record s { headers = headers; response_started = true })

  abbrev pub delivered : Send → Result {0} Unit × W → Run W → Result {0} Unit × Run W
  delivered m (ok u, w) s = (ok u, record s { sends = s.sends ++ m ∷ []; world = w })
  delivered m (err e, w) s = (err e, record s { world = w })

  abbrev pub send : Send → Exec (Run W) Unit
  send m s = delivered m (deliver m s.world) s

  -- The check before the headers go out.
  abbrev pub send_start : Exec (Run W) Unit
  send_start s =
      if s.response_started then send (start s.status_code s.headers) s else raise runtime_error s

  abbrev pub set_headers_sent : Exec (Run W) Unit
  set_headers_sent s = pure tt (record s { headers_sent = true })

  abbrev pub start_before : Bytes → Exec (Run W) Unit
  start_before output s =
      if not (is_nil output) && not s.headers_sent
      then (do send_start; set_headers_sent) s
      else pure tt s

  -- The body of the loop over the outputs.
  unfoldable pub send_output : Bytes → Exec (Run W) Unit
  send_output output = do start_before output; send (body output true)

  abbrev pub pass_over : Bool → Exec (Run W) Unit → Exec (Run W) Unit
  pass_over true call s = pure tt (call s).1
  pass_over false call s = call s

  unfoldable pub call_app : List (StartCall × Bool) → Exec (Run W) Unit
  unfolding start_response
  call_app [] = pure tt
  call_app ((call, passes) ∷ rest) = do pass_over passes (start_response call); call_app rest

  unfoldable pub iterate : List Act → Exec (Run W) Unit
  unfolding start_response send_output
  iterate [] = pure tt
  iterate (starts call passes ∷ acts) = do pass_over passes (start_response call); iterate acts
  iterate (yields output ∷ acts) = do send_output output; iterate acts
  iterate (fails e ∷ acts) = raise e

  abbrev pub start_after : Exec (Run W) Unit
  start_after s = if s.headers_sent then pure tt s else send_start s

  abbrev pub raise_if : Option Error → Exec (Run W) Unit
  raise_if none = pure tt
  raise_if (some e) = raise e

  -- `finally: response_body.close()`: what it raises takes the place of what was raised.
  abbrev pub close_body :
      Option (Result {0} Unit) → Result {0} Unit × Run W → Result {0} Unit × Run W
  close_body none z = z
  close_body (some (ok u)) (r, s) = (r, record s { closed = true })
  close_body (some (err e)) (r, s) = (err e, record s { closed = true })

  unfoldable pub serve_body : App → Exec (Run W) Unit
  unfolding iterate
  serve_body app s = close_body app.close ((do iterate app.iterating; start_after) s)

  unfoldable pub run_app : App → Exec (Run W) Unit
  unfolding call_app serve_body
  run_app app = do call_app app.calling; raise_if app.raised; serve_body app
