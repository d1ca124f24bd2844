-- ===== src/HttpStream/Phases.antt =====
-- protocol/http_stream.py: the order of events that a protocol may rely on, and what the
-- state of a stream tells of it.
use hypercorn.Prelude.{◌≡◌, ap, ◌∙◌, ◌⊎◌, inl, inr, Option, none, some, List, [], ◌∷◌, ◌++◌}
use hypercorn.Events.{Event}
use hypercorn.Exec.{Result}
use hypercorn.Asgi.{ResponseStart, Effect, sent}
use hypercorn.HttpStream.{HttpStream, AsgiHttpState, request, response, trailers, closed}

-- How far a response has got, seen from the protocol.
pub data Phase : Type 0 where
  waiting streaming trailing ended done : Phase

-- The order that a protocol may rely on: informational responses come before the response, then
-- come its body, its trailers and its end, each at most once and in this order. A stream may close
-- once the response has started; a push may come at any time.
abbrev pub advance : Phase → Event → Option Phase
advance p (Event.request i hs v m q st) = some p
advance waiting (Event.informational_response i hs c) = some waiting
advance waiting (Event.response i hs c) = some streaming
advance streaming (Event.body i d) = some streaming
advance streaming (Event.trailers i hs) = some trailing
advance streaming (Event.end_body i) = some ended
advance trailing (Event.end_body i) = some ended
advance streaming (Event.stream_closed i) = some done
advance ended (Event.stream_closed i) = some done
advance done (Event.stream_closed i) = some done
advance p e = none

abbrev pub observe : Option Phase → Effect → Option Phase
observe none e = none
observe (some p) (sent e) = advance p e
observe (some p) e = some p

-- The phase after a trace, or `none` if some event came out of order.
unfoldable pub phase_after : Option Phase → List Effect → Option Phase
phase_after p [] = p
phase_after p (e ∷ es) = phase_after (observe p e) es

pub phase_after_emit :
    (p q : Option Phase) (es : List Effect) (e : Effect)
    → phase_after p es ≡ q
    → phase_after p (es ++ e ∷ []) ≡ observe q e
unfolding phase_after
phase_after_emit p q [] e h = ap (λ r. observe r e) h
phase_after_emit p q (d ∷ es) e h = phase_after_emit (observe p d) q es e h

abbrev pub At : Phase → List Effect → Type 0
At p es = phase_after (some waiting) es ≡ some p

abbrev pub IsStarted : Option ResponseStart → Type 0
IsStarted none = ⊥
IsStarted (some r) = Unit {0}

-- The state of the stream tells the phase.
abbrev pub Tells : AsgiHttpState → List Effect → Option ResponseStart → Type 0
Tells request es r = At waiting es
Tells response es r = At streaming es × IsStarted r
Tells trailers es r = At streaming es × IsStarted r
Tells closed es r = At ended es ⊎ At done es

abbrev pub Ordered : HttpStream → Type 0
Ordered s = Tells s.state s.trace s.response_of

-- An event that the phase allows.
pub emit-At :
    (p q : Phase) (es : List Effect) (e : Effect)
    → observe (some p) e ≡ some q
    → At p es
    → At q (es ++ e ∷ [])
emit-At p q es e o h = phase_after_emit (some waiting) (some p) es e h ∙ o

-- Effects that send nothing, and pushes, are allowed in every phase.
pub quiet_emit :
    (state : AsgiHttpState) (es : List Effect) (r : Option ResponseStart) (e : Effect)
    → ((p : Phase) → observe (some p) e ≡ some p)
    → Tells state es r
    → Tells state (es ++ e ∷ []) r
quiet_emit request es r e q t = emit-At waiting waiting es e (q waiting) t
quiet_emit response es r e q t = (emit-At streaming streaming es e (q streaming) t.0, t.1)
quiet_emit trailers es r e q t = (emit-At streaming streaming es e (q streaming) t.0, t.1)
quiet_emit closed es r e q (inl t) = inl (emit-At ended ended es e (q ended) t)
quiet_emit closed es r e q (inr t) = inr (emit-At done done es e (q done) t)

-- Where a step ends, whether it returns or raises.
abbrev pub Ends : Result (Unit {0}) × HttpStream → Type 0
Ends z = Ordered z.1
