-- ===== src/WsStream/FailedAccept.antt =====
-- protocol/ws_stream.py, _accept: an acceptance that is refused.
use hypercorn.Prelude.{◌≡◌, refl, false, Option, none, some}
use hypercorn.Prelude.Bytes.{Headers}
use hypercorn.Exec.{Error, err, attribute_error}
use hypercorn.Asgi.{Text}
use hypercorn.WsStream.Wsproto.{Wsproto}
use hypercorn.WsStream.Handshake.{Handshake, accept}
use hypercorn.WsStream.Stream.{
  WsStream, handshaking, accept_message, app_send, app_finished, dispatch, accept_handshake,
  send_wsproto_event,
}

-- When the application accepts with a subprotocol that is not offered, or with a header that is
-- refused, the error is raised with the stream in the state CONNECTED and without a connection. The
-- end of the application then raises an AttributeError, and nothing is sent: no response, and no
-- StreamClosed.
pub failed_accept_left_open :
    {C : Type 0} (ws : Wsproto C) (s : WsStream C) (h : Handshake) (p : Option Text) (hs : Headers)
    (e : Error)
    → s.is_closed ≡ false
    → s.state ≡ handshaking
    → s.handshake ≡ some h
    → s.connection ≡ none
    → accept ws h p hs ≡ err e
    → ((app_send ws (accept_message p hs) s).0 ≡ err e)
      × ((app_finished ws (app_send ws (accept_message p hs) s).1).0 ≡ err attribute_error)
      × ((app_finished ws (app_send ws (accept_message p hs) s).1).1.trace ≡ s.trace)
unfolding app_send dispatch accept_handshake app_finished send_wsproto_event
failed_accept_left_open ws s h p hs e not_closed state given unset refused =
    rw (not_closed, state, given, unset, refused) (refl, refl, refl)
