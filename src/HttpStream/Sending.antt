-- ===== src/HttpStream/Sending.antt =====
-- protocol/http_stream.py, app_send: the messages of the application, by their type and the state.
use hypercorn.Prelude.{
  Bool, true, false, not, ◌&&◌, Option, some, List, [], ◌∷◌, ◌++◌, map, is_nil, if◌then◌else◌,
}
use hypercorn.Prelude.Bytes.{Bytes, Headers, ascii, bytes_eq, strip}
use hypercorn.Events.{Event}
use hypercorn.Exec.{
  type_error, attribute_error, unexpected_message, ◌>>=◌, ◌>>◌, pure, raise, lift, or_raise,
}
use hypercorn.Utils.{build_and_validate_headers, suppress_body, str_in}
use hypercorn.Asgi.{Scope, ResponseStart}
use hypercorn.HttpStream.{
  Refuses, Message, response_start, response_push, response_early_hint, response_body,
  response_trailers, AsgiHttpState, request, response, trailers, Run, send, enter, send_closed,
  send_error_response, trailers_versions, push_versions, early_hints_versions,
}

abbrev pub set_response : ResponseStart → Run
set_response r s = pure tt (record s { response_of = some r })

-- http.response.start.
unfoldable pub start_response : Refuses → ResponseStart → Run
start_response refuses r = do
  set_response r
  headers ← lift (build_and_validate_headers r.headers)
  send refuses (λ i. Event.response i headers r.status)
  enter response

-- The `:authority` headers of a push, from the request's `host`.
unfoldable pub authorities : Headers → Headers
authorities [] = []
authorities ((name, value) ∷ rest) =
    if bytes_eq name (ascii "host")
    then (ascii ":authority", value) ∷ authorities rest
    else authorities rest

-- http.response.push.
unfoldable pub send_push : Refuses → Scope → Option Bytes → Headers → Run
unfolding authorities
send_push refuses scope path headers = do
  raw_path ← or_raise type_error path
  more ← lift (build_and_validate_headers headers)
  send refuses (λ i.
      Event.request i ((ascii ":scheme", ascii scope.scheme) ∷ (authorities scope.headers ++ more))
        scope.http_version "GET" raw_path scope.state)

-- http.response.early_hint.
unfoldable pub send_hint : Refuses → List Bytes → Run
send_hint refuses links =
    send refuses
      (λ i. Event.informational_response i (map (λ link. (ascii "link", strip link)) links) 103)

abbrev pub end_response : Refuses → ResponseStart → Run
end_response refuses r = if r.trailers then enter trailers else send_closed refuses

-- http.response.body.
unfoldable pub send_body : Refuses → Scope → Bytes → Bool → Run
unfolding send_closed
send_body refuses scope body more_body s =
    (do
      r ← or_raise attribute_error s.response_of
      if not (suppress_body scope.method r.status) && not (is_nil body)
          then send refuses (λ i. Event.body i body)
          else pure tt
      if more_body then pure tt else end_response refuses r)
      s

-- The request has a header `te` with the value `trailers`.
unfoldable pub accepts_trailers : Headers → Bool
accepts_trailers [] = false
accepts_trailers ((name, value) ∷ rest) =
    if bytes_eq name (ascii "te") && bytes_eq value (ascii "trailers")
    then true
    else accepts_trailers rest

abbrev pub trailers_start : Refuses → Headers → Run
trailers_start refuses headers = do
  hs ← lift (build_and_validate_headers headers)
  set_response (record { status = 200; headers = hs; trailers = false })
  send refuses (λ i. Event.response i hs 200)
  enter trailers

-- http.response.trailers before the response has started.
unfoldable pub send_trailers_only : Refuses → Scope → Headers → Bool → Run
unfolding send_closed
send_trailers_only refuses scope headers more_trailers = do
  if accepts_trailers scope.headers then trailers_start refuses headers else pure tt
  if more_trailers then pure tt else send_closed refuses

abbrev pub keep_trailers : Headers → Run
keep_trailers headers s =
    (do
      hs ← lift (build_and_validate_headers headers)
      λ t. pure tt (record t { trailer_headers = t.trailer_headers ++ hs }))
      s

abbrev pub flush_trailers : Refuses → Run
flush_trailers refuses s =
    (if is_nil s.trailer_headers
        then pure tt
        else send refuses (λ i. Event.trailers i s.trailer_headers))
      s

-- http.response.trailers after the body.
unfoldable pub send_trailers : Refuses → Scope → Headers → Bool → Run
unfolding send_closed
send_trailers refuses scope headers more_trailers = do
  if accepts_trailers scope.headers then keep_trailers headers else pure tt
  if more_trailers then pure tt else (do flush_trailers refuses; send_closed refuses)

-- The chain of conditions on the type of the message, the version of the request and the state.
unfoldable pub dispatch : Refuses → Scope → AsgiHttpState → Message → Run
unfolding start_response send_push send_hint send_body send_trailers_only send_trailers
dispatch refuses scope request (response_start r) = start_response refuses r
dispatch refuses scope state (response_push path headers) =
    if str_in scope.http_version push_versions
    then send_push refuses scope path headers
    else raise unexpected_message
dispatch refuses scope request (response_early_hint links) =
    if str_in scope.http_version early_hints_versions
    then send_hint refuses links
    else raise unexpected_message
dispatch refuses scope response (response_body body more) = send_body refuses scope body more
dispatch refuses scope request (response_trailers headers more) =
    if str_in scope.http_version trailers_versions
    then send_trailers_only refuses scope headers more
    else raise unexpected_message
dispatch refuses scope trailers (response_trailers headers more) =
    if str_in scope.http_version trailers_versions
    then send_trailers refuses scope headers more
    else raise unexpected_message
dispatch refuses scope state message = raise unexpected_message

-- `app_send` with a message. The application is started after `self.scope` is set, so the case of
-- no scope is not reached; the model answers it by the TypeError of the subscript.
unfoldable pub app_send : Refuses → Message → Run
unfolding dispatch
app_send refuses message s =
    (do scope ← or_raise type_error s.scope; dispatch refuses scope s.state message) s

abbrev pub cleanup : Refuses → AsgiHttpState → Run
cleanup refuses request = send_error_response refuses 500
cleanup refuses state = pure tt

-- `app_send(None)`: the application has finished.
unfoldable pub app_finished : Refuses → Run
unfolding send_error_response
app_finished refuses s =
    if s.is_closed
    then pure tt s
    else (do cleanup refuses s.state; send refuses Event.stream_closed) s
