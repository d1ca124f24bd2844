-- ===== src/Wsgi/Phases.antt =====
-- app_wrappers.py: the order of the messages that a WSGI application becomes.
use hypercorn.Prelude.{
  ℕ, ◌≡◌, refl, ap, ◌∙◌, Bool, true, false, Option, none, some, List, [], ◌∷◌, ◌++◌, if_both,
}
use hypercorn.Prelude.Bytes.{Headers}
use hypercorn.Exec.{Error, value_error, Result, ok, err, Exec, ◌>>=◌, ◌>>◌, pure, lift, or_raise}
use hypercorn.Exec.Leads.{Leads, Keeps, then-Leads, then-Keeps, seq-Keeps, or_raise-Keeps}
use hypercorn.Wsgi.{
  Strings, Send, start, body, StartCall, Run, split_status, encode_headers, may_start,
  start_response, send, delivered, is_given,
}

-- Before the response, from its start on, and after its last message.
pub data Phase : Type 0 where
  waiting streaming ended : Phase

-- One start, with a status, stands before every output that is not empty, and the end after it.
abbrev pub advance : Phase → Send → Option Phase
advance waiting (start (some status) headers) = some streaming
advance waiting (body [] true) = some waiting
advance streaming (body output true) = some streaming
advance streaming (body [] false) = some ended
advance p m = none

abbrev pub observe : Option Phase → Send → Option Phase
observe none m = none
observe (some p) m = advance p m

unfoldable pub phase_after : Option Phase → List Send → Option Phase
phase_after p [] = p
phase_after p (m ∷ ms) = phase_after (observe p m) ms

pub phase_after_send :
    (p : Option Phase) (ms : List Send) (m : Send)
    → phase_after p (ms ++ m ∷ []) ≡ observe (phase_after p ms) m
unfolding phase_after
phase_after_send p [] m = refl
phase_after_send p (d ∷ ms) m = phase_after_send (observe p d) ms m

abbrev pub phase_of : Bool → Phase
phase_of true = streaming
phase_of false = waiting

-- The messages are in order, the variables tell how far they are, and a response that has been
-- started has a status.
pub record RunOk {W : Type 0} (s : Run W) : Type 0 where
  pub ordered : phase_after (some waiting) s.sends ≡ some (phase_of s.headers_sent)
  pub has_status : s.response_started ≡ true → is_given s.status_code ≡ true

-- The same where a status is there.
pub record StatusOk {W : Type 0} (s : Run W) : Type 0 where
  pub ordered : phase_after (some waiting) s.sends ≡ some (phase_of s.headers_sent)
  pub has_status : is_given s.status_code ≡ true

abbrev set_status : {W : Type 0} → ℕ → Exec (Run W) Unit
set_status code s = pure tt (record s { status_code = some code })

StatusOk-RunOk : {W : Type 0} (s : Run W) → StatusOk s → RunOk s
StatusOk-RunOk s r = record { ordered = r.ordered; has_status = λ is_started. r.has_status }

set_status-StatusOk : {W : Type 0} (code : ℕ) → Leads (RunOk {W = W}) StatusOk (set_status code)
set_status-StatusOk code s r = record { ordered = r.ordered; has_status = refl }

module _ {W : Type 0} (strings : Strings) (deliver : Send → Exec W Unit) where
  may_start-RunOk : (o : Option Error) → Keeps (RunOk {W = W}) (may_start strings deliver o)
  may_start-RunOk none s r =
      if_both (λ (z : Result (Unit {0}) × Run W). RunOk z.1) s.response_started r r
  may_start-RunOk (some e) s r =
      if_both (λ (z : Result (Unit {0}) × Run W). RunOk z.1) s.headers_sent r r

  pub start_response-RunOk : (call : StartCall) → Keeps RunOk (start_response strings deliver call)
  unfolding start_response
  start_response-RunOk call =
      let finish : Headers → Exec (Run W) Unit =
        λ headers s. pure tt (record s { headers = headers; response_started = true }) in
      let encode : Exec (Run W) Unit =
        lift (encode_headers strings call.response_headers) >>= finish in
      let with_status : ℕ → Exec (Run W) Unit = λ code. set_status code >> encode in
      let read : _ → Exec (Run W) Unit =
        λ raw. or_raise value_error (strings.int raw) >>= with_status in
      seq-Keeps RunOk (may_start strings deliver call.exc_info)
        (lift (split_status call.status) >>= read) (may_start-RunOk call.exc_info)
        (then-Keeps RunOk (lift (split_status call.status)) read (λ s r. r)
          (λ raw.
            then-Leads RunOk RunOk RunOk (or_raise value_error (strings.int raw)) with_status
              (λ s r. r) (or_raise-Keeps RunOk value_error (strings.int raw))
              (λ code.
                then-Leads RunOk StatusOk RunOk (set_status code) (λ u. encode) StatusOk-RunOk
                  (set_status-StatusOk code)
                  (λ u.
                    then-Leads StatusOk StatusOk RunOk
                      (lift (encode_headers strings call.response_headers)) finish StatusOk-RunOk
                      (λ s r. r)
                      (λ headers s r. record {
                        ordered = r.ordered;
                        has_status = λ is_started. r.has_status;
                      })))))

  pub delivered-RunOk :
      (m : Send) (z : Result (Unit {0}) × W) (s : Run W)
      → observe (some (phase_of s.headers_sent)) m ≡ some (phase_of s.headers_sent)
      → RunOk s
      → RunOk (delivered strings deliver m z s).1
  delivered-RunOk m (ok u, w) s a r = record {
    ordered = phase_after_send (some waiting) s.sends m ∙ ap (λ p. observe p m) r.ordered ∙ a;
    has_status = r.has_status;
  }
  delivered-RunOk m (err e, w) s a r = record { ordered = r.ordered; has_status = r.has_status }

  pub send-RunOk :
      (m : Send) (s : Run W)
      → observe (some (phase_of s.headers_sent)) m ≡ some (phase_of s.headers_sent)
      → RunOk s
      → RunOk (send strings deliver m s).1
  send-RunOk m s = delivered-RunOk m (deliver m s.world) s
