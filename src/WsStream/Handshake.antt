-- ===== src/WsStream/Handshake.antt =====
-- protocol/ws_stream.py, Handshake: what a client asks for and what it is answered.
use Prim.Native.Char.{code}
use text.Mathlib.Text.{◌==◌ as str_eq}
use hypercorn.Prelude.{
  ℕ, Bool, true, false, not, ◌&&◌, ◌||◌, Option, none, some, List, [], ◌∷◌, ◌++◌, String, is_nil,
  ltb, ◌==◌, if◌then◌else◌,
}
use hypercorn.Prelude.Bytes.{Bytes, Headers, ascii, bytes_eq, lower}
use hypercorn.Exec.{
  Result, ok, err, unicode_error, attribute_error, invalid_subprotocol, invalid_header,
}
use hypercorn.Utils.{then_result}
use hypercorn.Asgi.{Text}
use hypercorn.WsStream.Wsproto.{Wsproto}

pub record Handshake : Type 0 where
  pub accepted : Bool
  pub http_version : String
  pub connection_tokens : Option (List Text)
  pub extensions : Option (List Text)
  pub key : Option Bytes
  pub subprotocols : Option (List Text)
  pub upgrade : Option Bytes
  pub version : Option Bytes

abbrev pub blank : String → Handshake
blank http_version = record {
  accepted = false;
  http_version = http_version;
  connection_tokens = none;
  extensions = none;
  key = none;
  subprotocols = none;
  upgrade = none;
  version = none;
}

-- `wsproto.handshake.WEBSOCKET_VERSION`.
abbrev pub websocket_version : Bytes
websocket_version = ascii "13"

-- `<` on `str`.
unfoldable pub str_lt : String → String → Bool
str_lt String.[] String.[] = false
str_lt String.[] (String.◌∷◌ d t) = true
str_lt (String.◌∷◌ c s) String.[] = false
str_lt (String.◌∷◌ c s) (String.◌∷◌ d t) = ltb (code c) (code d) || (code c == code d && str_lt s t)

-- `any(token.lower() == "upgrade" for token in tokens)`; tokens are ASCII.
unfoldable pub has_upgrade : List Text → Bool
has_upgrade [] = false
has_upgrade (token ∷ tokens) = bytes_eq (lower token) (ascii "upgrade") || has_upgrade tokens

abbrev pub asks_upgrade : Option (List Text) → Bool
asks_upgrade none = false
asks_upgrade (some tokens) = has_upgrade tokens

abbrev pub is_set : Option Bytes → Bool
is_set none = false
is_set (some b) = true

abbrev pub is_version : Option Bytes → Bool
is_version none = false
is_version (some v) = bytes_eq v websocket_version

-- `self.upgrade.lower() != b"websocket"`, an AttributeError where there is no such header.
abbrev pub upgrades_to_websocket : Option Bytes → Result Bool
upgrades_to_websocket none = err attribute_error
upgrades_to_websocket (some value) = ok (bytes_eq (lower value) (ascii "websocket"))

unfoldable pub is_valid : Handshake → Result Bool
unfolding str_lt has_upgrade
is_valid h =
    if str_lt h.http_version "1.1"
    then ok false
    else if str_eq h.http_version "1.1"
    then if not (is_set h.key)
      then ok false
      else if not (asks_upgrade h.connection_tokens)
      then ok false
      else then_result (upgrades_to_websocket h.upgrade)
          (λ b. ok (if b then is_version h.version else false))
    else ok (is_version h.version)

-- `subprotocol in self.subprotocols`.
unfoldable pub offers : List Text → Text → Bool
offers [] p = false
offers (q ∷ qs) p = bytes_eq p q || offers qs p

-- The header of the chosen subprotocol.
unfoldable pub subprotocol_header : Option (List Text) → Option Text → Result Headers
unfolding offers
subprotocol_header offered none = ok []
subprotocol_header none (some p) = err invalid_subprotocol
subprotocol_header (some ps) (some p) =
    if offers ps p then ok ((ascii "sec-websocket-protocol", p) ∷ []) else err invalid_subprotocol

abbrev pub starts_with_colon : Bytes → Bool
starts_with_colon [] = false
starts_with_colon (c ∷ name) = c == b':'

-- The headers of the application, of which some names are refused.
unfoldable pub checked_headers : Headers → Result Headers
checked_headers [] = ok []
checked_headers ((name, value) ∷ rest) =
    let others = checked_headers rest in
    if bytes_eq (ascii "sec-websocket-protocol") name || starts_with_colon name
    then err invalid_header
    else then_result others (λ hs. ok ((name, value) ∷ hs))

-- `if accepts:`, a value that is neither None nor empty.
abbrev pub extension_header : Option Bytes → Headers
extension_header none = []
extension_header (some accepts) =
    if is_nil accepts then [] else (ascii "sec-websocket-extensions", accepts) ∷ []

abbrev pub status_for : String → ℕ
status_for version = if str_eq version "1.1" then 101 else 200

abbrev pub upgrade_headers : String → Headers
upgrade_headers version =
    if str_eq version "1.1"
    then (ascii "upgrade", ascii "WebSocket") ∷ (ascii "connection", ascii "Upgrade") ∷ []
    else []

module _ {C : Type 0} (ws : Wsproto C) where
  abbrev pub split : Bytes → Result (List Text)
  split value = elim (ws.split_comma_header value) [ none ↦ err unicode_error | some ts ↦ ok ts ]

  -- The body of the loop in `__init__`, with the name in lower case.
  unfoldable pub read_header : Handshake → Bytes → Bytes → Result Handshake
  read_header h name value =
      if bytes_eq name (ascii "connection")
      then then_result (split value) (λ ts. ok (record h { connection_tokens = some ts }))
      else if bytes_eq name (ascii "sec-websocket-extensions")
      then then_result (split value) (λ ts. ok (record h { extensions = some ts }))
      else if bytes_eq name (ascii "sec-websocket-key")
      then ok (record h { key = some value })
      else if bytes_eq name (ascii "sec-websocket-protocol")
      then then_result (split value) (λ ts. ok (record h { subprotocols = some ts }))
      else if bytes_eq name (ascii "sec-websocket-version")
      then ok (record h { version = some value })
      else if bytes_eq name (ascii "upgrade")
      then ok (record h { upgrade = some value })
      else ok h

  unfoldable pub read_headers : Handshake → Headers → Result Handshake
  unfolding read_header
  read_headers h [] = ok h
  read_headers h ((name, value) ∷ rest) =
      then_result (read_header h (lower name) value) (λ g. read_headers g rest)

  abbrev pub new_handshake : Headers → String → Result Handshake
  new_handshake headers http_version = read_headers (blank http_version) headers

  abbrev pub accepts : Handshake → Option Bytes
  accepts h = elim h.extensions [ none ↦ none | some es ↦ ws.accept_extensions es ]

  abbrev pub key_header : Option Bytes → Headers
  key_header none = []
  key_header (some key) = (ascii "sec-websocket-accept", ws.accept_token key) ∷ []

  -- The status, the headers of the answer and the connection. `accepted` is set by the caller.
  unfoldable pub accept : Handshake → Option Text → Headers → Result (ℕ × Headers × C)
  unfolding subprotocol_header checked_headers
  accept h subprotocol additional =
      then_result (subprotocol_header h.subprotocols subprotocol) λ chosen.
        then_result (checked_headers additional) λ more. ok (
          status_for h.http_version,
          chosen
              ++ extension_header (accepts h)
              ++ key_header h.key
              ++ upgrade_headers h.http_version
              ++ more,
          ws.new_connection h.extensions,
        )
