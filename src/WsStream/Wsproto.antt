-- ===== src/WsStream/Wsproto.antt =====
-- The calls that protocol/ws_stream.py makes of the package wsproto. A connection is a value of the
-- type `C`; its calls return it changed.
use hypercorn.Prelude.{ℕ, Bool, Option, List}
use hypercorn.Prelude.Bytes.{Bytes}
use hypercorn.Asgi.{Text}

-- wsproto.events. The flag is `message_finished`.
pub data WsEvent : Type 0 where
  text_message : Text → Bool → WsEvent
  bytes_message : Bytes → Bool → WsEvent
  ping : Bytes → WsEvent
  pong : Bytes → WsEvent
  close_connection : ℕ → Option Text → WsEvent

-- `split_comma_header` splits and decodes ASCII, with `none` for the UnicodeDecodeError, so that a
-- part is a text of characters below 128. `accept_extensions` is `server_extensions_handshake` with
-- PerMessageDeflate, and `new_connection` a server's connection with what it has negotiated. `send`
-- is `none` on a LocalProtocolError. `next_event` takes the next event of `events()`, of which
-- there are at most `events_left`.
pub record Wsproto (C : Type 0) : Type 0 where
  pub split_comma_header : Bytes → Option (List Text)
  pub accept_extensions : List Text → Option Bytes
  pub accept_token : Bytes → Bytes
  pub new_connection : Option (List Text) → C
  pub receive_data : C → Bytes → Option C
  pub next_event : C → Option (WsEvent × C)
  pub events_left : C → ℕ
  pub send : C → WsEvent → Option (Bytes × C)
  pub is_remote_closing : C → Bool
