-- ===== src/WsStream/Accepting.antt =====
-- protocol/ws_stream.py, Handshake.accept: when it accepts, and what the client is told.
use text.Mathlib.Text.{◌==◌ as str_eq}
use hypercorn.Prelude.{
  ℕ, ◌≡◌, refl, inl, inr, ◌⊎◌, Bool, true, false, ◌||◌, Option, none, some, List, [], ◌∷◌, ◌++◌,
  append-nil, String, is_nil, if◌then◌else◌, if_both, arith, Bool-cases,
}
use hypercorn.Prelude.Bytes.{Bytes, Headers, ascii, bytes_eq, lower}
use hypercorn.Exec.{Result, ok, err, invalid_subprotocol, invalid_header}
use hypercorn.Asgi.{Text}
use hypercorn.WsStream.Wsproto.{Wsproto}
use hypercorn.WsStream.Handshake.{
  Handshake, offers, subprotocol_header, starts_with_colon, checked_headers, extension_header,
  upgrade_headers, accepts, key_header, accept,
}

abbrev pub protocol_name : Bytes
protocol_name = ascii "sec-websocket-protocol"

-- The values of the headers of a name, in any case of its letters, as a client reads them.
pub values_of : Bytes → Headers → List Bytes
values_of name [] = []
values_of name ((n, v) ∷ rest) =
    if bytes_eq name (lower n) then v ∷ values_of name rest else values_of name rest

values_of-append :
    (name : Bytes) (hs ks : Headers)
    → values_of name (hs ++ ks) ≡ values_of name hs ++ values_of name ks
unfolding values_of
values_of-append name [] ks = refl
values_of-append name ((n, v) ∷ rest) ks = ground (arith, values_of-append name rest ks)

-- A subprotocol that the application may choose: none, or one that the client offers.
abbrev pub is_offered : Option (List Text) → Option Text → Bool
is_offered offered none = true
is_offered none (some p) = false
is_offered (some ps) (some p) = offers ps p

-- A header that the application must not send: a subprotocol, or a pseudo header.
pub has_refused : Headers → Bool
has_refused [] = false
has_refused ((name, value) ∷ rest) =
    bytes_eq protocol_name name || starts_with_colon name || has_refused rest

abbrev pub chosen_values : Option Text → List Bytes
chosen_values none = []
chosen_values (some p) = p ∷ []

-- An accepted handshake has an offered subprotocol, has no refused header, tells the client of the
-- subprotocol and of those that the application names in its headers, and switches protocols exactly
-- on HTTP/1.1. A refusal has its reason.
abbrev pub AcceptOk :
    {C : Type 0} → Handshake → Option Text → Headers → Result (ℕ × Headers × C) → Type 0
AcceptOk h p more (ok (status, headers, c)) =
    (is_offered h.subprotocols p ≡ true)
    × (has_refused more ≡ false)
    × (values_of protocol_name headers ≡ chosen_values p ++ values_of protocol_name more)
    × (status ≡ (if str_eq h.http_version "1.1" then 101 else 200))
AcceptOk h p more (err e) =
    ((e ≡ invalid_subprotocol) × (is_offered h.subprotocols p ≡ false))
    ⊎ ((e ≡ invalid_header) × (has_refused more ≡ true))

-- What `checked_headers` gives, by whether a header is refused.
checked_headers_lem :
    (hs : Headers) → checked_headers hs ≡ (if has_refused hs then err invalid_header else ok hs)
unfolding checked_headers has_refused
checked_headers_lem [] = refl
checked_headers_lem ((name, value) ∷ rest) = ground (arith, checked_headers_lem rest)

abbrev pub chosen_header : Option Text → Headers
chosen_header none = []
chosen_header (some p) = (protocol_name, p) ∷ []

subprotocol_header_lem :
    (offered : Option (List Text)) (p : Option Text)
    → subprotocol_header offered p
      ≡ (if is_offered offered p then ok (chosen_header p) else err invalid_subprotocol)
unfolding subprotocol_header
subprotocol_header_lem offered none = refl
subprotocol_header_lem none (some p) = refl
subprotocol_header_lem (some ps) (some p) = refl

chosen_header_values :
    (p : Option Text) → values_of protocol_name (chosen_header p) ≡ chosen_values p
unfolding values_of bytes_eq lower
chosen_header_values none = refl
chosen_header_values (some p) = refl

-- The headers between the subprotocol and those of the application tell of no subprotocol.
extension_header_values : (x : Option Bytes) → values_of protocol_name (extension_header x) ≡ []
unfolding values_of bytes_eq lower
extension_header_values none = refl
extension_header_values (some a) =
    if_both (λ z. values_of protocol_name z ≡ []) (is_nil a) refl refl

upgrade_headers_values : (version : String) → values_of protocol_name (upgrade_headers version) ≡ []
unfolding values_of bytes_eq lower
upgrade_headers_values version =
    if_both (λ z. values_of protocol_name z ≡ []) (str_eq version "1.1") refl refl

module _ {C : Type 0} (ws : Wsproto C) where
  key_header_values : (k : Option Bytes) → values_of protocol_name (key_header ws k) ≡ []
  unfolding values_of bytes_eq lower
  key_header_values none = refl
  key_header_values (some k) = refl

  answer_values :
      (h : Handshake) (p : Option Text) (more : Headers)
      → values_of protocol_name (
          chosen_header p
          ++ extension_header (accepts ws h)
          ++ key_header ws h.key
          ++ upgrade_headers h.http_version
          ++ more)
        ≡ chosen_values p ++ values_of protocol_name more
  answer_values h p more = simp (
    values_of-append,
    chosen_header_values p,
    extension_header_values (accepts ws h),
    key_header_values h.key,
    upgrade_headers_values h.http_version,
    append-nil,
  )

  -- A handshake is accepted exactly when the chosen subprotocol, if there is one, is offered by the
  -- client, and no header of the application is a pseudo header or has the name
  -- sec-websocket-protocol in lower case. The answer then tells the client of the chosen
  -- subprotocol, and after it of those that headers of the application give in a name with capitals,
  -- with status 101 on HTTP/1.1 and 200 else. A refusal raises the error of its reason.
  pub accept-AcceptOk :
      (h : Handshake) (p : Option Text) (more : Headers) → AcceptOk h p more (accept ws h p more)
  unfolding accept
  accept-AcceptOk h p more =
      rw (subprotocol_header_lem h.subprotocols p, checked_headers_lem more)
        (elim (Bool-cases (is_offered h.subprotocols p)) [
          | inr o ↦ rw o (inl (refl, o))
          | inl o ↦ elim (Bool-cases (has_refused more)) [
            | inl r ↦ rw (o, r) (inr (refl, r))
            | inr r ↦ rw (o, r) (o, r, answer_values h p more, refl)
          ]
        ])
