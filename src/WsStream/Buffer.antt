-- ===== src/WsStream/Buffer.antt =====
-- protocol/ws_stream.py, WebsocketBuffer: the fragments of a message.
use hypercorn.Prelude.{ℕ, ◌+◌, Option, none, some, [], ◌++◌, length, ltb, if◌then◌else◌}
use hypercorn.Prelude.Bytes.{Bytes}
use hypercorn.Exec.{Exec, Result, err, pure, raise, type_error, frame_too_large}
use hypercorn.Asgi.{Text, Receive, websocket_receive}

-- StringIO and BytesIO, by what has been written.
pub data Value : Type 0 where
  string_io : Text → Value
  bytes_io : Bytes → Value

-- The data of a TextMessage or of a BytesMessage.
pub data Fragment : Type 0 where
  text : Text → Fragment
  bytes : Bytes → Fragment

pub record WebsocketBuffer : Type 0 where
  pub value : Option Value
  pub length : ℕ
  pub max_length : ℕ

unfoldable pub create : ℕ → WebsocketBuffer
create max_length = record { value = none; length = 0; max_length = max_length }

abbrev pub new_value : Fragment → Value
new_value (text d) = string_io []
new_value (bytes d) = bytes_io []

abbrev pub value_or_new : Option Value → Fragment → Value
value_or_new none f = new_value f
value_or_new (some v) f = v

-- `self.value.write`: the value and the number of characters written, or `none` for the TypeError
-- of data of the other kind.
abbrev pub write : Value → Fragment → Option (Value × ℕ)
write (string_io v) (text d) = some (string_io (v ++ d), length d)
write (bytes_io v) (bytes d) = some (bytes_io (v ++ d), length d)
write v f = none

-- The value is made before the write, which may raise, and the length counts a fragment that is
-- found too large.
written : WebsocketBuffer → Value → Option (Value × ℕ) → Result {0} Unit × WebsocketBuffer
written b v none = (err type_error, record b { value = some v })
written b v (some (w, n)) =
    let longer : WebsocketBuffer = record b { value = some w; length = b.length + n } in
    if ltb b.max_length longer.length then raise frame_too_large longer else pure tt longer

unfoldable pub extend : Fragment → Exec WebsocketBuffer Unit
unfolding written
extend f b = let v = value_or_new b.value f in written b v (write v f)

unfoldable pub clear : WebsocketBuffer → WebsocketBuffer
clear b = record b { value = none; length = 0 }

unfoldable pub to_message : WebsocketBuffer → Receive
to_message b = elim b.value [
  | none ↦ websocket_receive none none
  | some v ↦ elim v [
    | string_io d ↦ websocket_receive none (some d)
    | bytes_io d ↦ websocket_receive (some d) none
  ]
]
