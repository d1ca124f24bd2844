-- ===== src/Middleware/Dispatcher/Completions.antt =====
-- middleware/dispatcher.py: the flags of a lifespan against the messages that the mounts have sent.
use hypercorn.Prelude.{◌≡◌, refl, sym, ap, ◌∙◌, true, ◌&&◌, List, [], ◌∷◌, arith}
use hypercorn.Asgi.{Text}
use hypercorn.Middleware.Dispatcher.{
  Message, startup_complete, shutdown_complete, other_message, Dispatcher, none_complete, init,
  all_set, send,
}
use hypercorn.Middleware.Dispatcher.Lifespan.{has_sent, Tells, send_all, send_all-Tells}
use hypercorn.Middleware.Dispatcher.Marks.{
  mount_sent, all_sent, keys, is_key, are_distinct, are_from, marks, keys-set_flag, marks_none,
  marks_other, marks-set_flag,
}

-- What keeps: the keys of both dicts are the paths of the mounts.
record Keyed (ps : List Text) (s : Dispatcher) : Type 0 where
  startup : keys s.startups ≡ ps
  shutdown : keys s.shutdowns ≡ ps

at_keys :
    (path : Text) (ps qs : List Text) → qs ≡ ps → is_key path ps ≡ true → is_key path qs ≡ true
at_keys path ps qs same known = ap (is_key path) same ∙ known

send-Keyed :
    (ps : List Text) (path : Text) (m : Message) (s : Dispatcher)
    → is_key path ps ≡ true
    → Keyed ps s
    → Keyed ps (send path m s)
unfolding send
send-Keyed ps path startup_complete s known k = record {
  startup =
      keys-set_flag path s.startups (at_keys path ps (keys s.startups) k.startup known) ∙ k.startup;
  shutdown = k.shutdown;
}
send-Keyed ps path shutdown_complete s known k = record {
  startup = k.startup;
  shutdown =
      keys-set_flag path s.shutdowns (at_keys path ps (keys s.shutdowns) k.shutdown known)
      ∙ k.shutdown;
}
send-Keyed ps path other_message s known k = k

module _ (ps : List Text) (apart : are_distinct ps ≡ true) where
  send-startups :
      (path : Text) (n : Message) (rest : List (Text × Message)) (s : Dispatcher)
      → is_key path ps ≡ true
      → Keyed ps s
      → marks startup_complete rest (send path n s).startups
        ≡ marks startup_complete ((path, n) ∷ rest) s.startups
  unfolding send
  send-startups path startup_complete rest s known k =
      marks-set_flag startup_complete path rest s.startups refl
        (at_keys path ps (keys s.startups) k.startup known) (ap are_distinct k.startup ∙ apart)
  send-startups path shutdown_complete rest s known k =
      sym (marks_other startup_complete shutdown_complete path rest s.startups refl)
  send-startups path other_message rest s known k =
      sym (marks_other startup_complete other_message path rest s.startups refl)

  send-shutdowns :
      (path : Text) (n : Message) (rest : List (Text × Message)) (s : Dispatcher)
      → is_key path ps ≡ true
      → Keyed ps s
      → marks shutdown_complete rest (send path n s).shutdowns
        ≡ marks shutdown_complete ((path, n) ∷ rest) s.shutdowns
  unfolding send
  send-shutdowns path shutdown_complete rest s known k =
      marks-set_flag shutdown_complete path rest s.shutdowns refl
        (at_keys path ps (keys s.shutdowns) k.shutdown known) (ap are_distinct k.shutdown ∙ apart)
  send-shutdowns path startup_complete rest s known k =
      sym (marks_other shutdown_complete startup_complete path rest s.shutdowns refl)
  send-shutdowns path other_message rest s known k =
      sym (marks_other shutdown_complete other_message path rest s.shutdowns refl)

  send_all-startups :
      (messages : List (Text × Message)) (s : Dispatcher)
      → are_from ps messages ≡ true
      → Keyed ps s
      → (send_all messages s).startups ≡ marks startup_complete messages s.startups
  unfolding send_all are_from
  send_all-startups [] s from k = sym (marks_none startup_complete s.startups)
  send_all-startups ((path, n) ∷ rest) s from k =
      let known : is_key path ps ≡ true = ground (arith, from) in
      send_all-startups rest (send path n s) (ground (arith, from)) (send-Keyed ps path n s known k)
      ∙ send-startups path n rest s known k

  send_all-shutdowns :
      (messages : List (Text × Message)) (s : Dispatcher)
      → are_from ps messages ≡ true
      → Keyed ps s
      → (send_all messages s).shutdowns ≡ marks shutdown_complete messages s.shutdowns
  unfolding send_all are_from
  send_all-shutdowns [] s from k = sym (marks_none shutdown_complete s.shutdowns)
  send_all-shutdowns ((path, n) ∷ rest) s from k =
      let known : is_key path ps ≡ true = ground (arith, from) in
      send_all-shutdowns rest (send path n s) (ground (arith, from))
        (send-Keyed ps path n s known k)
      ∙ send-shutdowns path n rest s known k

keys-none_complete :
    {A : Type 0} (mounts : List (Text × A)) → keys (none_complete mounts) ≡ keys mounts
unfolding keys none_complete
keys-none_complete [] = refl
keys-none_complete ((p, a) ∷ rest) = ap (λ l. p ∷ l) (keys-none_complete rest)

all_set-marks :
    {A : Type 0} (m : Message) (messages : List (Text × Message)) (mounts : List (Text × A))
    → all_set (marks m messages (none_complete mounts)) ≡ all_sent m mounts messages
unfolding all_set marks none_complete all_sent
all_set-marks m messages [] = refl
all_set-marks m messages ((p, a) ∷ rest) =
    ap (λ b. mount_sent m p messages && b) (all_set-marks m messages rest)

-- The completions that have been passed on are those of all mounts.
pub record PassedOn {A : Type 0} (mounts : List (Text × A)) (messages : List (Text × Message))
    (s : Dispatcher) : Type 0 where
  pub startup : has_sent startup_complete s.sent ≡ all_sent startup_complete mounts messages
  pub shutdown : has_sent shutdown_complete s.sent ≡ all_sent shutdown_complete mounts messages

init-Tells :
    {A : Type 0} (mount : Text × A) (mounts : List (Text × A)) → Tells (init (mount ∷ mounts))
unfolding init none_complete all_set has_sent
init-Tells (path, app) mounts = record { startup = refl; shutdown = refl }

-- Of at least one mount, at distinct paths, whose applications send messages in any order: the
-- completion of the startup has been passed on exactly when every mount has sent that its startup is
-- complete, and that of the shutdown exactly when every mount has sent that its shutdown is.
pub send_all-PassedOn :
    {A : Type 0} (mount : Text × A) (mounts : List (Text × A)) (messages : List (Text × Message))
    → are_distinct (keys (mount ∷ mounts)) ≡ true
    → are_from (keys (mount ∷ mounts)) messages ≡ true
    → PassedOn (mount ∷ mounts) messages (send_all messages (init (mount ∷ mounts)))
unfolding init
send_all-PassedOn mount mounts messages apart from =
    let all = mount ∷ mounts in
    let ps = keys all in
    let known : Keyed ps (init all) = record {
      startup = keys-none_complete all;
      shutdown = keys-none_complete all;
    } in
    let told = send_all-Tells messages (init all) (init-Tells mount mounts) in
    record {
      startup =
          told.startup
          ∙ ap all_set (send_all-startups ps apart messages (init all) from known)
          ∙ all_set-marks startup_complete messages all;
      shutdown =
          told.shutdown
          ∙ ap all_set (send_all-shutdowns ps apart messages (init all) from known)
          ∙ all_set-marks shutdown_complete messages all;
    }
