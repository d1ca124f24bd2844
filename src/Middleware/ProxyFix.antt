-- ===== src/Middleware/ProxyFix.antt =====
-- middleware/proxy_fix.py: which of the values that proxies have added is believed, and the scope
-- that the application is given.
pub mod Trust
pub mod Scopes
mod Tests
use mathlib.Core.List.{reverse}
use hypercorn.Prelude.{
  ℕ, zero, suc, ◌+◌, ◌-◌, Bool, true, false, ◌&&◌, ◌||◌, Option, none, some, List, [], ◌∷◌, ◌++◌,
  map, length, drop, leb, ◌==◌, not, if◌then◌else◌,
}
use hypercorn.Prelude.Bytes.{Bytes, Headers, bytes_eq, lower, ascii}
use hypercorn.Exec.{Result, ok}
use hypercorn.Utils.{then_result}
use hypercorn.Asgi.{Text}
use hypercorn.Wsgi.Environ.{starts_with, utf8_latin1}

-- `header_value.split(b",")`.
abbrev pub before_comma : List Bytes → ℕ → List Bytes
before_comma [] c = (c ∷ []) ∷ []
before_comma (p ∷ ps) c = (c ∷ p) ∷ ps

unfoldable pub split_comma : Bytes → List Bytes
split_comma [] = [] ∷ []
split_comma (c ∷ s) = if c == b',' then [] ∷ split_comma s else before_comma (split_comma s) c

-- What str.strip() removes of the characters below 256.
abbrev pub is_white : ℕ → Bool
is_white c = (leb 9 c && leb c 13) || (leb 28 c && leb c 32) || c == 133 || c == 160

unfoldable pub lstrip_text : Text → Text
lstrip_text [] = []
lstrip_text (c ∷ s) = if is_white c then lstrip_text s else c ∷ s

-- `value.decode("latin1").strip()`: latin1 keeps the codes.
unfoldable pub strip_text : Bytes → Text
unfolding lstrip_text
strip_text s = reverse (lstrip_text (reverse (lstrip_text s)))

-- The values of all headers of a name, in order.
unfoldable pub values_for : Bytes → Headers → List Text
unfolding split_comma strip_text
values_for name [] = []
values_for name ((n, v) ∷ rest) =
    if bytes_eq (lower n) name
    then map strip_text (split_comma v) ++ values_for name rest
    else values_for name rest

abbrev pub first : List Text → Option Text
first [] = none
first (v ∷ vs) = some v

-- `_get_trusted_value`: `values[-trusted_hops]` where there are so many.
unfoldable pub get_trusted_value : Bytes → Headers → ℕ → Option Text
unfolding values_for
get_trusted_value name headers trusted_hops =
    let values = values_for name headers in
    if trusted_hops == 0
    then none
    else if leb trusted_hops (length values)
    then first (drop (length values - trusted_hops) values)
    else none

pub data Mode : Type 0 where
  legacy modern : Mode

-- The variables `client`, `scheme` and `host`.
pub record Believed : Type 0 where
  pub client : Option Text
  pub scheme : Option Text
  pub host : Option Text

-- `value.split(";")`.
unfoldable pub split_semicolon : Text → List Text
split_semicolon [] = [] ∷ []
split_semicolon (c ∷ s) =
    let rest = split_semicolon s in if c == b';' then [] ∷ rest else before_comma rest c

unfoldable pub believe_part : Text → Believed → Believed
unfolding strip_text starts_with
believe_part part b =
    if starts_with (ascii "for=") part
    then record b { client = some (strip_text (drop 4 part)) }
    else if starts_with (ascii "host=") part
    then record b { host = some (strip_text (drop 5 part)) }
    else if starts_with (ascii "proto=") part
    then record b { scheme = some (strip_text (drop 6 part)) }
    else b

unfoldable pub believe_parts : List Text → Believed → Believed
unfolding believe_part
believe_parts [] b = b
believe_parts (part ∷ parts) b = believe_parts parts (believe_part part b)

abbrev pub nothing_believed : Believed
nothing_believed = record { client = none; scheme = none; host = none }

unfoldable pub believe_legacy : Headers → ℕ → Believed
unfolding get_trusted_value
believe_legacy headers trusted_hops = record {
  client = get_trusted_value (ascii "x-forwarded-for") headers trusted_hops;
  scheme = get_trusted_value (ascii "x-forwarded-proto") headers trusted_hops;
  host = get_trusted_value (ascii "x-forwarded-host") headers trusted_hops;
}

-- The parts of a Forwarded value, or the other headers where there is no such value.
abbrev pub believe_forwarded : Option Text → Headers → ℕ → Believed
believe_forwarded (some value) headers trusted_hops =
    believe_parts (split_semicolon value) nothing_believed
believe_forwarded none headers trusted_hops = believe_legacy headers trusted_hops

unfoldable pub believed : Mode → Headers → ℕ → Believed
unfolding believe_parts split_semicolon believe_legacy
believed legacy headers trusted_hops = believe_legacy headers trusted_hops
believed modern headers trusted_hops =
    believe_forwarded (get_trusted_value (ascii "forwarded") headers trusted_hops) headers
      trusted_hops

-- The keys of an HTTP or WebSocket scope that are changed.
pub record Scope : Type 0 where
  pub client : Option (Text × ℕ)
  pub scheme : Text
  pub headers : Headers

unfoldable pub without_host : Headers → Headers
unfolding bytes_eq lower
without_host [] = []
without_host ((name, value) ∷ rest) =
    let others = without_host rest in
    if bytes_eq (lower name) (ascii "host") then others else (name, value) ∷ others

abbrev pub set_client : Option Text → Scope → Scope
set_client none s = s
set_client (some client) s = record s { client = some (client, 0) }

abbrev pub set_scheme : Option Text → Scope → Scope
set_scheme none s = s
set_scheme (some scheme) s = record s { scheme = scheme }

-- `host.encode()` is the UTF-8 of the text.
unfoldable pub set_host : Option Text → Scope → Result {0} Scope
unfolding without_host utf8_latin1
set_host none s = ok s
set_host (some host) s =
    then_result (utf8_latin1 host)
      λ bytes. ok (record s { headers = without_host s.headers ++ (ascii "host", bytes) ∷ [] })

unfoldable pub rewrite : Believed → Scope → Result {0} Scope
unfolding set_host
rewrite b s = set_host b.host (set_scheme b.scheme (set_client b.client s))

-- The scope that the application is given for an HTTP or WebSocket scope.
unfoldable pub fixed_scope : Mode → ℕ → Scope → Result {0} Scope
unfolding believed rewrite
fixed_scope mode trusted_hops s = rewrite (believed mode s.headers trusted_hops) s
