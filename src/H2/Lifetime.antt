-- ===== src/H2/Lifetime.antt =====
-- protocol/h2.py: which streams are open, in the table and seen from what the protocol does.
use hypercorn.Prelude.{
  ℕ, ◌≡◌, ◌≢◌, refl, sym, ap, subst, ◌∙◌, Bool, true, false, Option, none, some, List, [], ◌∷◌,
  ◌++◌, ◌==◌, ==→eq, Bool-cases, inl, inr, if◌then◌else◌, arith,
}
use hypercorn.Events.{Event}
use hypercorn.H2.Tables.{find}
use hypercorn.H2.Protocol.{H2Protocol, Effect, sent, opened, gave, marked, spawned}

abbrev pub given : {T : Type 0} → Option T → Bool
given none = false
given (some t) = true

-- A stream that is given an event must be open.
abbrev pub while_open : Bool → Option Bool → Option Bool
while_open true after = after
while_open false after = none

-- Whether a stream is open after it is given an event.
abbrev pub stays_open : Event → Bool
stays_open (Event.stream_closed j) = false
stays_open e = true

-- Whether the stream `i` is open: it is once it has been made, until it is given StreamClosed; one
-- that is not open is given nothing.
abbrev pub observe : ℕ → Option Bool → Effect → Option Bool
observe i none e = none
observe i (some b) (opened j w) = if i == j then some true else some b
observe i (some b) (gave j e) = if i == j then while_open b (some (stays_open e)) else some b
observe i (some b) (sent w) = some b
observe i (some b) marked = some b
observe i (some b) spawned = some b

unfoldable pub open_after : ℕ → Option Bool → List Effect → Option Bool
open_after i o [] = o
open_after i o (e ∷ es) = open_after i (observe i o e) es

pub open_after_emit :
    (i : ℕ) (o : Option Bool) (es : List Effect) (e : Effect)
    → open_after i o (es ++ e ∷ []) ≡ observe i (open_after i o es) e
unfolding open_after
open_after_emit i o [] e = refl
open_after_emit i o (d ∷ es) e = open_after_emit i (observe i o d) es e

-- The trace is in order for every stream, and the table holds those that are open.
abbrev pub TableOk : {C P T : Type 0} → H2Protocol C P T → Type 0
TableOk s = (i : ℕ) → open_after i (some false) s.trace ≡ some (given (find i s.streams))

module _ {T : Type 0} (before : List Effect) (e : Effect) (streams : List (ℕ × T)) where
  -- What an effect does to the one stream that it is about, and to the others.
  pub table_after :
      (j : ℕ) (changed : List (ℕ × T))
      → ((i : ℕ) → open_after i (some false) before ≡ some (given (find i streams)))
      → observe j (some (given (find j streams))) e ≡ some (given (find j changed))
      → ((i : ℕ) → j ≢ i → find i changed ≡ find i streams)
      → ((i : ℕ) (b : Bool) → j ≢ i → observe i (some b) e ≡ some b)
      → (i : ℕ) → open_after i (some false) (before ++ e ∷ []) ≡ some (given (find i changed))
  table_after j changed ok at others quiet i = elim (Bool-cases (j == i)) [
    | inl same ↦
        subst (λ k. open_after k (some false) (before ++ e ∷ []) ≡ some (given (find k changed)))
          (==→eq j i same)
          (open_after_emit j (some false) before e ∙ ap (λ o. observe j o e) (ok j) ∙ at)
    | inr apart ↦
        open_after_emit i (some false) before e
        ∙ ap (λ o. observe i o e) (ok i)
        ∙ quiet i (given (find i streams)) (λ same. ground (arith, same, apart))
        ∙ ap (λ o. some (given o)) (sym (others i (λ same. ground (arith, same, apart))))
  ]

pub opened_quiet : (i j : ℕ) (w b : Bool) → j ≢ i → observe i (some b) (opened j w) ≡ some b
opened_quiet i j w b ne = ground (arith, ne)

pub gave_quiet : (i j : ℕ) (e : Event) (b : Bool) → j ≢ i → observe i (some b) (gave j e) ≡ some b
gave_quiet i j e b ne = ground (arith, ne)

pub opened_at : (j : ℕ) (w b : Bool) → observe j (some b) (opened j w) ≡ some true
opened_at j w b = ground arith

pub gave_at : (j : ℕ) (e : Event) → observe j (some true) (gave j e) ≡ some (stays_open e)
gave_at j e = ground arith
