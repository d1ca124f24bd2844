-- ===== src/Wsgi/Order.antt =====
-- app_wrappers.py: the order of the messages that a WSGI application becomes.
use hypercorn.Prelude.{
  ℕ, ◌≡◌, refl, ap, ◌∙◌, true, false, Option, none, some, List, [], if_split, arith,
}
use hypercorn.Exec.{Error, invalid_path, Result, ok, err, Exec, ◌>>◌, pure, continue}
use hypercorn.Wsgi.{
  Strings, Send, start, body, App, Run, begin, send, delivered, call_app, iterate, start_after,
  raise_if, close_body, serve_body, run_app, is_given,
}
use hypercorn.Wsgi.Environ.{Environ, HttpScope, build_environ}
use hypercorn.Wsgi.Service.{
  Incoming, Reading, complete, too_large, awaits, read_body, Served, served, waits, respond, answer,
  handle_http,
}
use hypercorn.Wsgi.Phases.{
  Phase, waiting, streaming, ended, observe, phase_after, phase_after_send, phase_of, RunOk,
}
use hypercorn.Wsgi.Outputs.{delivered_start, call_app-RunOk, iterate-RunOk}

abbrev pub At : {W : Type 0} → Phase → Run W → Type 0
At p s = phase_after (some waiting) s.sends ≡ some p

abbrev pub InOrder : {W : Type 0} → Run W → Type 0
InOrder s = (p : Phase) × At p s

-- In order, and in the phase `p` where the run returns.
abbrev pub Reaches : {W : Type 0} → Phase → Result (Unit {0}) × Run W → Type 0
Reaches p (ok u, s) = At p s
Reaches p (err e, s) = InOrder s

module _ {W : Type 0} (strings : Strings) (deliver : Send → Exec W Unit) where
  delivered-Reaches :
      (m : Send) (p q : Phase) (z : Result (Unit {0}) × W) (s : Run W)
      → observe (some p) m ≡ some q
      → At p s
      → Reaches q (delivered strings deliver m z s)
  delivered-Reaches m p q (ok u, w) s o a =
      phase_after_send (some waiting) s.sends m ∙ ap (λ r. observe r m) a ∙ o
  delivered-Reaches m p q (err e, w) s o a = (p, a)

  send-Reaches :
      (m : Send) (p q : Phase) (s : Run W)
      → observe (some p) m ≡ some q
      → At p s
      → Reaches q (send strings deliver m s)
  send-Reaches m p q s = delivered-Reaches m p q (deliver m s.world) s

  delivered_start-Reaches :
      (z : Result (Unit {0}) × W) (s : Run W)
      → s.headers_sent ≡ false
      → is_given s.status_code ≡ true
      → RunOk s
      → Reaches streaming (delivered strings deliver (start s.status_code s.headers) z s)
  delivered_start-Reaches (ok u, w) s f g r = delivered_start strings deliver (ok u, w) s f g r
  delivered_start-Reaches (err e, w) s f g r = (phase_of s.headers_sent, r.ordered)

  start_after-Reaches : (s : Run W) → RunOk s → Reaches streaming (start_after strings deliver s)
  start_after-Reaches s r =
      if_split (Reaches streaming) s.headers_sent
        (λ is_sent. r.ordered ∙ ap (λ b. some (phase_of b)) is_sent)
        (λ not_sent.
          if_split (Reaches streaming) s.response_started
            (λ is_started.
              delivered_start-Reaches (deliver (start s.status_code s.headers) s.world) s not_sent
                (r.has_status is_started) r)
            (λ not_started. (phase_of s.headers_sent, r.ordered)))

  iterated-Reaches :
      (z : Result (Unit {0}) × Run W)
      → RunOk z.1
      → Reaches streaming (continue z (λ u. start_after strings deliver))
  iterated-Reaches (ok u, s) r = start_after-Reaches s r
  iterated-Reaches (err e, s) r = (phase_of s.headers_sent, r.ordered)

  close_body-Reaches :
      (o : Option (Result (Unit {0}))) (z : Result (Unit {0}) × Run W)
      → Reaches streaming z
      → Reaches streaming (close_body strings deliver o z)
  close_body-Reaches none z a = a
  close_body-Reaches (some (ok u)) (ok v, s) a = a
  close_body-Reaches (some (ok u)) (err e, s) a = a
  close_body-Reaches (some (err e)) (ok v, s) a = (streaming, a)
  close_body-Reaches (some (err e)) (err d, s) a = a

  serve_body-Reaches :
      (app : App) (s : Run W) → RunOk s → Reaches streaming (serve_body strings deliver app s)
  unfolding serve_body
  serve_body-Reaches app s r = close_body-Reaches app.close _ (
      iterated-Reaches (iterate strings deliver app.iterating s)
        (iterate-RunOk strings deliver app.iterating s r))

  raise_if-Reaches :
      (o : Option Error) (app : App) (s : Run W)
      → RunOk s
      → Reaches streaming
          (continue (raise_if strings deliver o s) (λ u. serve_body strings deliver app))
  raise_if-Reaches none app s r = serve_body-Reaches app s r
  raise_if-Reaches (some e) app s r = (phase_of s.headers_sent, r.ordered)

  called-Reaches :
      (app : App) (z : Result (Unit {0}) × Run W)
      → RunOk z.1
      → Reaches streaming
          (continue z (λ u. raise_if strings deliver app.raised >> serve_body strings deliver app))
  called-Reaches app (ok u, s) r = raise_if-Reaches app.raised app s r
  called-Reaches app (err e, s) r = (phase_of s.headers_sent, r.ordered)

  run_app-Reaches :
      (app : App) (s : Run W) → RunOk s → Reaches streaming (run_app strings deliver app s)
  unfolding run_app
  run_app-Reaches app s r =
      called-Reaches app (call_app strings deliver app.calling s)
        (call_app-RunOk strings deliver app.calling s r)

-- What a request ends with: nothing is sent while its body is awaited, a served request has got all
-- its messages, and one whose application or whose `send` raised has got some of them.
abbrev pub Answered : {W : Type 0} → Result Served × Run W → Type 0
Answered (ok served, s) = At ended s
Answered (ok waits, s) = s.sends ≡ []
Answered (err e, s) = InOrder s

module _ {W : Type 0} (strings : Strings) (deliver : Send → Exec W Unit) (app : Environ → App) where
  last-Answered :
      (z : Result (Unit {0}) × Run W)
      → Reaches streaming z
      → Answered
          (continue (continue z (λ u. send strings deliver (body [] false))) (λ u. pure served))
  last-Answered (ok u, s) a =
      served-Answered _ (send-Reaches strings deliver (body [] false) streaming ended s refl a)
    where
      served-Answered :
          (z : Result (Unit {0}) × Run W)
          → Reaches ended z
          → Answered (continue z (λ u. pure served))
      served-Answered (ok u, s) a = a
      served-Answered (err e, s) a = a
  last-Answered (err e, s) a = a

  respond-Reaches :
      (r : Result Environ) (s : Run W)
      → RunOk s
      → At waiting s
      → Reaches streaming (respond strings deliver app r s)
  respond-Reaches (ok environ) s r a = run_app-Reaches strings deliver (app environ) s r
  respond-Reaches (err invalid_path) s r a =
      send-Reaches strings deliver (start (some 404) []) waiting streaming s refl a
  respond-Reaches (err e) s r a = (waiting, a)

  answer-Answered :
      (scope : HttpScope) (reading : Reading) (s : Run W)
      → RunOk s
      → s.sends ≡ []
      → At waiting s
      → Answered (answer strings deliver app scope reading s)
  answer-Answered scope (complete b) s r n a =
      last-Answered (respond strings deliver app (build_environ strings scope b) s)
        (respond-Reaches (build_environ strings scope b) s r a)
  answer-Answered scope too_large s r n a =
      last-Answered (send strings deliver (start (some 400) []) s)
        (send-Reaches strings deliver (start (some 400) []) waiting streaming s refl a)
  answer-Answered scope awaits s r n a = n

  -- A request of a WSGI application, whatever the application does and whether or not it or `send`
  -- raises, becomes messages in order: empty outputs at most before the one start of the response,
  -- which has a status, then its outputs, then the end; all of them where the request is served, none
  -- while its body is awaited.
  pub handle_http-Answered :
      (max_body_size : ℕ) (scope : HttpScope) (incoming : List Incoming) (world : W)
      → Answered (handle_http strings deliver app max_body_size scope incoming (begin world))
  unfolding handle_http begin phase_after
  handle_http-Answered max_body_size scope incoming world =
      answer-Answered scope (read_body max_body_size [] incoming) (begin world)
        (record { ordered = refl; has_status = λ is_started. absurd (ground (arith, is_started)) })
        refl refl
