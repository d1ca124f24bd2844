-- ===== src/Wsgi/Outputs.antt =====
-- app_wrappers.py: the outputs of an application, and the start before them.
use hypercorn.Prelude.{
  ℕ, ◌≡◌, refl, ap, ◌∙◌, Bool, true, false, not, ◌&&◌, Option, none, some, List, [], ◌∷◌, ◌++◌,
  is_nil, if_split, arith,
}
use hypercorn.Prelude.Bytes.{Bytes, Headers}
use hypercorn.Exec.{Result, ok, err, Exec, continue}
use hypercorn.Exec.Leads.{Keeps, seq-Keeps}
use hypercorn.Wsgi.{
  Strings, Send, start, body, StartCall, Act, starts, yields, fails, Run, start_response, send,
  set_headers_sent, start_before, delivered, send_output, pass_over, call_app, iterate, is_given,
}
use hypercorn.Wsgi.Phases.{
  waiting, streaming, observe, phase_after, phase_after_send, phase_of, RunOk, start_response-RunOk,
  send-RunOk,
}

module _ {W : Type 0} (strings : Strings) (deliver : Send → Exec W Unit) where
  observe-start :
      (o : Option ℕ) (headers : Headers)
      → is_given o ≡ true
      → observe (some waiting) (start o headers) ≡ some streaming
  observe-start none headers g = absurd (ground arith)
  observe-start (some status) headers g = refl

  -- What stands after the check before an output: the output may follow, or an exception does.
  abbrev AllowsOutput : Bytes → Result (Unit {0}) × Run W → Type 0
  AllowsOutput output (ok u, s) =
      RunOk s
      × (observe (some (phase_of s.headers_sent)) (body output true)
          ≡ some (phase_of s.headers_sent))
  AllowsOutput output (err e, s) = RunOk s

  may_output :
      (output : Bytes) (sent : Bool)
      → (not (is_nil output) && not sent) ≡ false
      → observe (some (phase_of sent)) (body output true) ≡ some (phase_of sent)
  may_output [] true e = refl
  may_output [] false e = refl
  may_output (b ∷ bs) true e = refl
  may_output (b ∷ bs) false e = absurd (ground arith)

  must_start :
      (output : Bytes) (sent : Bool) → (not (is_nil output) && not sent) ≡ true → sent ≡ false
  must_start [] sent e = absurd (ground arith)
  must_start (b ∷ bs) true e = absurd (ground arith)
  must_start (b ∷ bs) false e = refl

  pub delivered_start :
      (z : Result (Unit {0}) × W) (s : Run W)
      → s.headers_sent ≡ false
      → is_given s.status_code ≡ true
      → RunOk s
      → phase_after (some waiting) (s.sends ++ start s.status_code s.headers ∷ []) ≡ some streaming
  delivered_start z s f g r =
      phase_after_send (some waiting) s.sends (start s.status_code s.headers)
      ∙ ap (λ p. observe p (start s.status_code s.headers))
          (r.ordered ∙ ap (λ b. some (phase_of b)) f)
      ∙ observe-start s.status_code s.headers g

  started-AllowsOutput :
      (output : Bytes) (z : Result (Unit {0}) × W) (s : Run W)
      → s.headers_sent ≡ false
      → is_given s.status_code ≡ true
      → RunOk s
      → AllowsOutput output (
          continue
            (delivered strings deliver (start s.status_code s.headers) z s)
            (λ u. set_headers_sent strings deliver))
  started-AllowsOutput output (ok u, w) s f g r =
      (record { ordered = delivered_start (ok u, w) s f g r; has_status = r.has_status }, refl)
  started-AllowsOutput output (err e, w) s f g r = record {
    ordered = r.ordered;
    has_status = r.has_status;
  }

  start_before-AllowsOutput :
      (output : Bytes) (s : Run W)
      → RunOk s
      → AllowsOutput output (start_before strings deliver output s)
  start_before-AllowsOutput output s r =
      if_split (AllowsOutput output) (not (is_nil output) && not s.headers_sent)
        (λ must.
          if_split
            (λ (z : Result (Unit {0}) × Run W).
              AllowsOutput output (continue z (λ u. set_headers_sent strings deliver)))
            s.response_started
            (λ is_started.
              started-AllowsOutput output (deliver (start s.status_code s.headers) s.world) s
                (must_start output s.headers_sent must) (r.has_status is_started) r)
            (λ not_started. r))
        (λ may. (r, may_output output s.headers_sent may))

  output-RunOk :
      (output : Bytes) (z : Result (Unit {0}) × Run W)
      → AllowsOutput output z
      → RunOk (continue z (λ u. send strings deliver (body output true))).1
  output-RunOk output (ok u, s) (r, a) = send-RunOk strings deliver (body output true) s a r
  output-RunOk output (err e, s) r = r

  send_output-RunOk : (output : Bytes) → Keeps RunOk (send_output strings deliver output)
  unfolding send_output
  send_output-RunOk output s r =
      output-RunOk output (start_before strings deliver output s)
        (start_before-AllowsOutput output s r)

  pass_over-RunOk :
      (passes : Bool) (m : Exec (Run W) Unit)
      → Keeps RunOk m
      → Keeps RunOk (pass_over strings deliver passes m)
  pass_over-RunOk true m k s r = k s r
  pass_over-RunOk false m k s r = k s r

  pub call_app-RunOk :
      (calls : List (StartCall × Bool)) → Keeps RunOk (call_app strings deliver calls)
  unfolding call_app
  call_app-RunOk [] s r = r
  call_app-RunOk ((call, passes) ∷ rest) s r =
      let m = start_response strings deliver call in
      seq-Keeps RunOk (pass_over strings deliver passes m) (call_app strings deliver rest)
        (pass_over-RunOk passes m (start_response-RunOk strings deliver call)) (call_app-RunOk rest)
        s r

  pub iterate-RunOk : (acts : List Act) → Keeps RunOk (iterate strings deliver acts)
  unfolding iterate
  iterate-RunOk [] s r = r
  iterate-RunOk (starts call passes ∷ acts) s r =
      let m = start_response strings deliver call in
      seq-Keeps RunOk (pass_over strings deliver passes m) (iterate strings deliver acts)
        (pass_over-RunOk passes m (start_response-RunOk strings deliver call)) (iterate-RunOk acts)
        s r
  iterate-RunOk (yields output ∷ acts) s r =
      seq-Keeps RunOk (send_output strings deliver output) (iterate strings deliver acts)
        (send_output-RunOk output) (iterate-RunOk acts) s r
  iterate-RunOk (fails e ∷ acts) s r = r
