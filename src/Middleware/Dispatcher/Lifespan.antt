-- ===== src/Middleware/Dispatcher/Lifespan.antt =====
-- middleware/dispatcher.py: when the startup and the shutdown of all mounts are passed on.
use hypercorn.Prelude.{
  ◌≡◌, refl, sym, ap, ◌∙◌, Bool, true, false, ◌||◌, List, [], ◌∷◌, ◌++◌, if_split, if◌then◌else◌,
  arith, Bool-cases, inl, inr,
}
use hypercorn.Asgi.{Text}
use hypercorn.Middleware.Dispatcher.{
  Message, startup_complete, shutdown_complete, other_message, Flags, Dispatcher, set_flag, all_set,
  if_all, send,
}

abbrev pub same_message : Message → Message → Bool
same_message startup_complete startup_complete = true
same_message shutdown_complete shutdown_complete = true
same_message other_message other_message = true
same_message m n = false

unfoldable pub has_sent : Message → List Message → Bool
has_sent m [] = false
has_sent m (n ∷ ns) = same_message m n || has_sent m ns

has_sent-append :
    (m n : Message) (ms : List Message)
    → has_sent m (ms ++ n ∷ []) ≡ (has_sent m ms || same_message m n)
unfolding has_sent
has_sent-append m n [] = ground arith
has_sent-append m n (x ∷ ms) = ground (arith, has_sent-append m n ms)

-- A flag that is set stays set.
all_set-set_flag :
    (path : Text) (flags : Flags) → all_set flags ≡ true → all_set (set_flag path flags) ≡ true
unfolding all_set set_flag
all_set-set_flag path [] h = refl
all_set-set_flag path ((p, b) ∷ rest) h = ground (arith, all_set-set_flag path rest)

-- What has been passed on tells whether all flags are set.
pub record Tells (s : Dispatcher) : Type 0 where
  pub startup : has_sent startup_complete s.sent ≡ all_set s.startups
  pub shutdown : has_sent shutdown_complete s.sent ≡ all_set s.shutdowns

or_true : (b : Bool) → (b || true) ≡ true
or_true true = refl
or_true false = refl

or_false : (b : Bool) → (b || false) ≡ b
or_false true = refl
or_false false = refl

passed_on :
    (m : Message) (path : Text) (flags : Flags) (messages : List Message)
    → same_message m m ≡ true
    → has_sent m messages ≡ all_set flags
    → has_sent m (if_all (set_flag path flags) m messages) ≡ all_set (set_flag path flags)
passed_on m path flags messages self told = elim (Bool-cases (all_set (set_flag path flags))) [
  | inl all ↦
      ap (λ b. has_sent m (if b then messages ++ m ∷ [] else messages)) all
      ∙ has_sent-append m m messages
      ∙ ap (λ b. has_sent m messages || b) self
      ∙ or_true (has_sent m messages)
      ∙ sym all
  | inr some_left ↦
      ap (λ b. has_sent m (if b then messages ++ m ∷ [] else messages)) some_left
      ∙ told
      ∙ still_left path flags some_left
      ∙ sym some_left
]
  where
    still_left :
        (path : Text) (flags : Flags)
        → all_set (set_flag path flags) ≡ false
        → all_set flags ≡ false
    still_left path flags some_left = elim (Bool-cases (all_set flags)) [
      | inl all ↦ absurd (ground (arith, all_set-set_flag path flags all, some_left))
      | inr left ↦ left
    ]

not_passed_on :
    (m n : Message) (flags : Flags) (messages : List Message)
    → same_message m n ≡ false
    → has_sent m (if_all flags n messages) ≡ has_sent m messages
not_passed_on m n flags messages differ =
    if_split (λ l. has_sent m l ≡ has_sent m messages) (all_set flags)
      (λ all.
        has_sent-append m n messages
        ∙ ap (λ b. has_sent m messages || b) differ
        ∙ or_false (has_sent m messages))
      (λ some_left. refl)

send-Tells : (path : Text) (m : Message) (s : Dispatcher) → Tells s → Tells (send path m s)
unfolding send
send-Tells path startup_complete s t = record {
  startup = passed_on startup_complete path s.startups s.sent refl t.startup;
  shutdown =
      not_passed_on shutdown_complete startup_complete (set_flag path s.startups) s.sent refl
      ∙ t.shutdown;
}
send-Tells path shutdown_complete s t = record {
  startup =
      not_passed_on startup_complete shutdown_complete (set_flag path s.shutdowns) s.sent refl
      ∙ t.startup;
  shutdown = passed_on shutdown_complete path s.shutdowns s.sent refl t.shutdown;
}
send-Tells path other_message s t = t

unfoldable pub send_all : List (Text × Message) → Dispatcher → Dispatcher
send_all [] s = s
send_all ((path, m) ∷ rest) s = send_all rest (send path m s)

pub send_all-Tells :
    (messages : List (Text × Message)) (s : Dispatcher) → Tells s → Tells (send_all messages s)
unfolding send_all
send_all-Tells [] s t = t
send_all-Tells ((path, m) ∷ rest) s t = send_all-Tells rest (send path m s) (send-Tells path m s t)
