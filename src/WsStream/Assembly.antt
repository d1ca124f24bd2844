-- ===== src/WsStream/Assembly.antt =====
-- protocol/ws_stream.py, WebsocketBuffer: the fragments of a message come out as one message.
use hypercorn.Prelude.{
  ℕ, ◌≤◌, ◌<◌, ◌≡◌, refl, inl, inr, none, some, List, [], ◌∷◌, ◌++◌, length, length-append,
  append_assoc, append-nil, join, ltb, if◌then◌else◌, arith, Bool-cases, ltb→lt, subst,
}
use hypercorn.Prelude.Bytes.{Bytes}
use hypercorn.Exec.{Exec, Result, ok, err, pure, frame_too_large, ◌>>◌, continue}
use hypercorn.Asgi.{Receive, websocket_receive}
use hypercorn.WsStream.Buffer.{
  WebsocketBuffer, Value, string_io, bytes_io, Fragment, text, bytes, create, extend, clear,
  to_message,
}

-- The two kinds of message: what its fragments are, how a buffer keeps it, what the application
-- receives.
pub data Kind : Type 0 where
  text_kind bytes_kind : Kind

abbrev pub fragment : Kind → Bytes → Fragment
fragment text_kind d = text d
fragment bytes_kind d = bytes d

abbrev pub kept : Kind → Bytes → Value
kept text_kind d = string_io d
kept bytes_kind d = bytes_io d

abbrev pub received : Kind → Bytes → Receive
received text_kind d = websocket_receive none (some d)
received bytes_kind d = websocket_receive (some d) none

-- The fragments of a message, up to the first that is too large.
unfoldable pub extend_all : Kind → List Bytes → Exec WebsocketBuffer Unit
extend_all k [] = pure tt
extend_all k (d ∷ ds) = extend (fragment k d) >> extend_all k ds

abbrev pub holding : ℕ → Kind → Bytes → WebsocketBuffer
holding max k d = record { value = some (kept k d); length = length d; max_length = max }

extend-holding :
    (max : ℕ) (k : Kind) (held d : Bytes)
    → extend (fragment k d) (holding max k held) ≡ (
      if ltb max (length (held ++ d)) then err frame_too_large else ok tt,
      holding max k (held ++ d),
    )
unfolding extend
extend-holding max text_kind held d = ground (arith, length-append held d)
extend-holding max bytes_kind held d = ground (arith, length-append held d)

extend_empty :
    (max : ℕ) (k : Kind) (d : Bytes)
    → extend (fragment k d) (create max)
      ≡ (if ltb max (length d) then err frame_too_large else ok tt, holding max k d)
unfolding extend create
extend_empty max text_kind d = ground arith
extend_empty max bytes_kind d = ground arith

-- How a message arrives: either whole, within the limit, and then the buffer is ready for the next
-- one, or not at all, and then it is too large.
abbrev pub Arrives : ℕ → Kind → Bytes → Result {0} Unit × WebsocketBuffer → Type 0
Arrives max k whole (ok u, b) =
    (to_message b ≡ received k whole) × (length whole ≤ max) × (clear b ≡ create max)
Arrives max k whole (err e, b) = (e ≡ frame_too_large) × (max < length whole)

holding-Arrives :
    (max : ℕ) (k : Kind) (held : Bytes)
    → length held ≤ max
    → Arrives max k held (ok tt, holding max k held)
unfolding to_message clear create
holding-Arrives max text_kind held l = (refl, l, refl)
holding-Arrives max bytes_kind held l = (refl, l, refl)

-- A fragment that was too large ends it, since what follows only adds.
too_large :
    (max : ℕ) (k : Kind) (held rest : Bytes) (z : Result {0} Unit × WebsocketBuffer)
    (f : Unit {0} → Exec WebsocketBuffer Unit)
    → z ≡ (if ltb max (length held) then err frame_too_large else ok tt, holding max k held)
    → (length held ≤ max → Arrives max k (held ++ rest) (f tt (holding max k held)))
    → Arrives max k (held ++ rest) (continue z f)
too_large max k held rest z f e go = elim (Bool-cases (ltb max (length held))) [
  | inl t ↦ rw (e, t) (refl, omega (arith, length-append held rest, ltb→lt max (length held) t))
  | inr t ↦ rw (e, t) (go (ground (arith, t)))
]

extend_all-holding :
    (max : ℕ) (k : Kind) (ds : List Bytes) (held : Bytes)
    → length held ≤ max
    → Arrives max k (held ++ join ds) (extend_all k ds (holding max k held))
unfolding extend_all
extend_all-holding max k [] held l = rw (append-nil held) (holding-Arrives max k held l)
extend_all-holding max k (d ∷ ds) held l =
    subst (λ w. Arrives max k w (extend_all k (d ∷ ds) (holding max k held)))
      (append_assoc held d (join ds))
      (too_large max k (held ++ d) (join ds) _ (λ u. extend_all k ds) (extend-holding max k held d)
        (extend_all-holding max k ds (held ++ d)))

-- The fragments of one message, written to an empty buffer, come out as one message with their
-- bytes, or characters, in order, when they are within the limit; the buffer is then ready for the
-- next message. When they are not, a FrameTooLargeError is raised. No other error occurs.
pub fragments-Arrives :
    (max : ℕ) (k : Kind) (d : Bytes) (ds : List Bytes)
    → Arrives max k (join (d ∷ ds)) (extend_all k (d ∷ ds) (create max))
unfolding extend_all
fragments-Arrives max k d ds =
    too_large max k d (join ds) _ (λ u. extend_all k ds) (extend_empty max k d)
      (extend_all-holding max k ds d)
