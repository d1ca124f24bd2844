-- ===== src/H11/Lifetime.antt =====
-- protocol/h11.py: the life of the streams of a connection, one after the other.
use hypercorn.Prelude.{
  ◌≡◌, ◌≢◌, refl, sym, ap, ◌∙◌, Bool, true, false, Option, none, some, List, [], ◌∷◌, ◌++◌,
}
use hypercorn.Events.{Event}
use hypercorn.Wire.{WireEvent}
use hypercorn.H11.Package.{H11, idle}
use hypercorn.H11.Connection.{Connection, parsing, passing}
use hypercorn.H11.Protocol.{H11Protocol, Effect, sent, opened, gave, marked, emit}

abbrev pub given : {T : Type 0} → Option T → Bool
given none = false
given (some t) = true

-- Whether a stream is open, seen from what the protocol does: a stream is made only while none is
-- open, only an open stream is given events, and StreamClosed is its last.
abbrev pub observe : Option Bool → Effect → Option Bool
observe none e = none
observe (some false) (opened w) = some true
observe (some true) (opened w) = none
observe (some true) (gave (Event.stream_closed i)) = some false
observe (some true) (gave e) = some true
observe (some false) (gave e) = none
observe (some b) e = some b

unfoldable pub open_after : Option Bool → List Effect → Option Bool
open_after o [] = o
open_after o (e ∷ es) = open_after (observe o e) es

pub open_after_emit :
    (o : Option Bool) (es : List Effect) (e : Effect)
    → open_after o (es ++ e ∷ []) ≡ observe (open_after o es) e
unfolding open_after
open_after_emit o [] e = refl
open_after_emit o (d ∷ es) e = open_after_emit (observe o d) es e

-- The client's side is not idle: a request has been read.
abbrev pub Busy : {C : Type 0} → H11 C → Connection C → Type 0
Busy h (parsing c) = h.their_state c ≢ idle
Busy h (passing buffer c) = Unit {0}

-- The trace is in order and tells whether a stream is open; while one is, the client is not idle.
pub record LifeOk {C T : Type 0} (h : H11 C) (s : H11Protocol C T) : Type 0 where
  pub told : open_after (some false) s.trace ≡ some (given s.stream)
  pub busy : given s.stream ≡ true → Busy h s.connection

-- The same where no stream is open and a request has been read.
pub record FreshOk {C T : Type 0} (h : H11 C) (s : H11Protocol C T) : Type 0 where
  pub told : open_after (some false) s.trace ≡ some false
  pub none_open : given s.stream ≡ false
  pub busy : Busy h s.connection

-- An effect that opens and gives nothing.
abbrev pub IsQuiet : Effect → Type 0
IsQuiet e = (b : Bool) → observe (some b) e ≡ some b

pub sent-IsQuiet : (w : WireEvent) → IsQuiet (sent w)
sent-IsQuiet w true = refl
sent-IsQuiet w false = refl

pub marked-IsQuiet : IsQuiet marked
marked-IsQuiet true = refl
marked-IsQuiet false = refl

-- What a step that opens and gives nothing does not change.
pub record Quiet {C T : Type 0} (h : H11 C) (s t : H11Protocol C T) : Type 0 where
  pub told : open_after (some false) t.trace ≡ open_after (some false) s.trace
  pub stream : t.stream ≡ s.stream
  pub busy : Busy h s.connection → Busy h t.connection

module _ {C T : Type 0} (h : H11 C) where
  pub fresh-LifeOk : (s : H11Protocol C T) → FreshOk h s → LifeOk h s
  fresh-LifeOk s f = record { told = f.told ∙ ap some (sym f.none_open); busy = λ is_open. f.busy }

  pub Quiet-LifeOk : (s t : H11Protocol C T) → Quiet h s t → LifeOk h s → LifeOk h t
  Quiet-LifeOk s t q l = record {
    told = q.told ∙ l.told ∙ ap (λ o. some (given o)) (sym q.stream);
    busy = λ is_open. q.busy (l.busy (ap given (sym q.stream) ∙ is_open));
  }

  pub Quiet-FreshOk : (s t : H11Protocol C T) → Quiet h s t → FreshOk h s → FreshOk h t
  Quiet-FreshOk s t q f = record {
    told = q.told ∙ f.told;
    none_open = ap given q.stream ∙ f.none_open;
    busy = q.busy f.busy;
  }

  pub emit-Quiet :
      (e : Effect) (s : H11Protocol C T)
      → IsQuiet e
      → (b : Bool) → open_after (some false) s.trace ≡ some b
      → Quiet h s (emit e s).1
  emit-Quiet e s q b told = record {
    told = open_after_emit (some false) s.trace e ∙ ap (λ o. observe o e) told ∙ q b ∙ sym told;
    stream = refl;
    busy = λ b. b;
  }
