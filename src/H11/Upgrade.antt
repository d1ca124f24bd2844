-- ===== src/H11/Upgrade.antt =====
-- protocol/h11.py: what the headers of a request ask for, a WebSocket or HTTP/2.
use hypercorn.Prelude.{
  ℕ, ◌+◌, ◌-◌, Bool, true, false, not, ◌&&◌, ◌||◌, List, [], ◌∷◌, ◌++◌, map, reverse, leb, ◌==◌,
  if◌then◌else◌,
}
use hypercorn.Prelude.Bytes.{Bytes, Headers, ascii, bytes_eq, lower}
use hypercorn.Exec.{Result, ok, err, unicode_error}
use hypercorn.HttpStream.{is_ascii}
use hypercorn.H11.Package.{Request}

-- The characters up to 255 that `str.strip` removes.
unfoldable pub is_blank : ℕ → Bool
is_blank c = (leb 9 c && leb c 13) || (leb 28 c && leb c 32) || c == 133 || c == 160

unfoldable pub strip_left : Bytes → Bytes
unfolding is_blank
strip_left [] = []
strip_left (c ∷ s) = if is_blank c then strip_left s else c ∷ s

-- `.decode("latin1").strip()`.
unfoldable pub latin1_strip : Bytes → Bytes
unfolding strip_left
latin1_strip s = reverse (strip_left (reverse (strip_left s)))

-- `str.lower` on a character up to 255.
abbrev pub lower_char : ℕ → ℕ
lower_char c =
    if (leb 65 c && leb c 90) || (leb 192 c && leb c 222 && not (c == 215)) then c + 32 else c

unfoldable pub latin1_lower : Bytes → Bytes
latin1_lower = map lower_char

abbrev pub in_front : ℕ → List Bytes → List Bytes
in_front c [] = (c ∷ []) ∷ []
in_front c (t ∷ ts) = (c ∷ t) ∷ ts

-- `.split(",")`.
unfoldable pub split_commas : Bytes → List Bytes
split_commas [] = [] ∷ []
split_commas (c ∷ s) = let rest = split_commas s in if c == 44 then [] ∷ rest else in_front c rest

-- `any(token.strip() == "upgrade" for token in connection_tokens)`.
unfoldable pub any_upgrade : List Bytes → Bool
unfolding bytes_eq latin1_strip
any_upgrade [] = false
any_upgrade (t ∷ ts) = bytes_eq (latin1_strip t) (ascii "upgrade") || any_upgrade ts

-- The variables of the loop in `_create_stream`.
pub record Asked : Type 0 where
  pub upgrade_value : Bytes
  pub connection_value : Bytes

unfoldable pub asked_turn : Asked → Bytes → Bytes → Asked
unfolding bytes_eq latin1_strip latin1_lower
asked_turn a name value =
    let sanitised_name = latin1_lower (latin1_strip name) in
    if bytes_eq sanitised_name (ascii "upgrade")
    then record a { upgrade_value = latin1_strip value }
    else if bytes_eq sanitised_name (ascii "connection")
    then record a { connection_value = latin1_strip value }
    else a

unfoldable pub read_asked : Asked → Headers → Asked
unfolding asked_turn
read_asked a [] = a
read_asked a ((name, value) ∷ rest) = read_asked (asked_turn a name value) rest

-- `method.decode("ascii").upper()`, still as its characters.
abbrev pub upper_char : ℕ → ℕ
upper_char c = if leb 97 c && leb c 122 then c - 32 else c

unfoldable pub upper_method : Bytes → Result {0} Bytes
unfolding is_ascii
upper_method method = if is_ascii method then ok (map upper_char method) else err unicode_error

abbrev pub is_get : Result {0} Bytes → Result {0} Bool
is_get (ok method) = ok (bytes_eq method (ascii "GET"))
is_get (err e) = err e

-- The condition of `_create_stream`: the method is decoded only when the headers ask for it.
unfoldable pub wants_websocket : Request → Result {0} Bool
unfolding read_asked any_upgrade split_commas latin1_lower upper_method bytes_eq
wants_websocket r =
    let a = read_asked (record { upgrade_value = []; connection_value = [] }) r.headers in
    if any_upgrade (split_commas (latin1_lower a.connection_value))
      && bytes_eq (latin1_lower a.upgrade_value) (ascii "websocket")
    then is_get (upper_method r.method)
    else ok false

-- The variables of the loop in `_check_protocol`.
pub record Offered : Type 0 where
  pub upgrade_value : Bytes
  pub has_body : Bool

unfoldable pub offered_turn : Offered → Bytes → Bytes → Offered
unfolding bytes_eq latin1_strip latin1_lower
offered_turn o name value =
    let sanitised_name = latin1_lower (latin1_strip name) in
    if bytes_eq sanitised_name (ascii "upgrade")
    then record o { upgrade_value = latin1_strip value }
    else if bytes_eq sanitised_name (ascii "content-length")
        || bytes_eq sanitised_name (ascii "transfer-encoding")
    then record o { has_body = true }
    else o

unfoldable pub read_offered : Offered → Headers → Offered
unfolding offered_turn
read_offered o [] = o
read_offered o ((name, value) ∷ rest) = read_offered (offered_turn o name value) rest

unfoldable pub wants_h2c : Request → Bool
unfolding read_offered latin1_lower bytes_eq
wants_h2c r =
    let o = read_offered (record { upgrade_value = []; has_body = false }) r.headers in
    bytes_eq (latin1_lower o.upgrade_value) (ascii "h2c") && not o.has_body

-- The preface of HTTP/2 reads as a request of HTTP/1.1.
unfoldable pub is_h2_preface : Request → Bool
unfolding bytes_eq
is_h2_preface r =
    bytes_eq r.method (ascii "PRI")
    && bytes_eq r.target (ascii "*")
    && bytes_eq r.http_version (ascii "2.0")

-- The loop of H2CProtocolRequiredError: the settings and the headers of the request to come.
abbrev pub Upgraded : Type 0
Upgraded = Headers × Bytes

unfoldable pub h2c_turn : Upgraded → Bytes → Bytes → Upgraded
unfolding bytes_eq lower
h2c_turn (headers, settings) name value =
    if bytes_eq (lower name) (ascii "http2-settings")
    then (headers ++ (name, value) ∷ [], value)
    else if bytes_eq (lower name) (ascii "host")
    then (headers ++ (ascii ":authority", value) ∷ (name, value) ∷ [], settings)
    else (headers ++ (name, value) ∷ [], settings)

unfoldable pub h2c_loop : Upgraded → Headers → Upgraded
unfolding h2c_turn
h2c_loop u [] = u
h2c_loop u ((name, value) ∷ rest) = h2c_loop (h2c_turn u name value) rest

unfoldable pub h2c_request : Request → Upgraded
unfolding h2c_loop
h2c_request r =
    h2c_loop ((ascii ":method", r.method) ∷ (ascii ":path", r.target) ∷ [], []) r.headers
