-- ===== src/Wsgi/Environ.antt =====
-- app_wrappers.py: _build_environ.
use Prim.Native.Nat.{◌/◌, ◌%◌}
use hypercorn.Prelude.{
  ℕ, ◌+◌, Bool, true, false, ◌&&◌, Option, none, some, List, [], ◌∷◌, ◌++◌, ltb, leb, ◌==◌, is_nil,
  length, drop, map, if◌then◌else◌,
}
use hypercorn.Prelude.Bytes.{Bytes, Headers, ascii, bytes_eq}
use hypercorn.Exec.{Result, ok, err, unicode_error, invalid_path, type_error}
use hypercorn.Utils.{then_result}
use hypercorn.HttpStream.{is_ascii}
use hypercorn.Asgi.{Text}
use hypercorn.Wsgi.{Strings}

-- A value of the dictionary. `opaque` is sys.stdout.
pub data Value : Type 0 where
  text_value : Text → Value
  number : Option ℕ → Value
  version : ℕ → ℕ → Value
  input : Bytes → Value
  flag : Bool → Value
  opaque : Value

-- A dictionary, the last value of a key in front.
abbrev pub Environ : Type 0
Environ = List (Text × Value)

unfoldable pub lookup : Text → Environ → Option Value
unfolding bytes_eq
lookup key [] = none
lookup key ((k, v) ∷ rest) = if bytes_eq key k then some v else lookup key rest

-- The keys of the scope that are read. A missing `root_path` is the empty text, a missing scheme
-- http, a missing server localhost.
pub record HttpScope : Type 0 where
  pub server : Option (Text × Option ℕ)
  pub path : Text
  pub root_path : Option Text
  pub method : Text
  pub query_string : Bytes
  pub http_version : Text
  pub scheme : Option Text
  pub client : Option Text
  pub headers : Headers

-- `path.startswith(prefix)`.
unfoldable pub starts_with : Text → Text → Bool
starts_with [] path = true
starts_with (c ∷ prefix) [] = false
starts_with (c ∷ prefix) (d ∷ path) = c == d && starts_with prefix path

abbrev pub or_else : {A : Type 0} → Option A → A → A
or_else none d = d
or_else (some a) d = a

-- The path below `script_name`.
unfoldable pub path_info : Text → Text → Result {0} Text
unfolding starts_with
path_info script_name path =
    if starts_with script_name path
    then (let below = drop (length script_name) path in
        ok (if is_nil below then b'/' ∷ [] else below))
    else err invalid_path

-- A continuation byte of UTF-8: the six bits of `c` above the place `d`.
abbrev pub tail_byte : ℕ → ℕ → ℕ
tail_byte c d = 128 + (c / d) % 64

-- `.encode("utf8")` of a character; a surrogate is a UnicodeEncodeError.
abbrev pub utf8_char : ℕ → Result {0} Bytes
utf8_char c =
    if ltb c 128
    then ok (c ∷ [])
    else if ltb c 2048
    then ok ((192 + c / 64) ∷ tail_byte c 1 ∷ [])
    else if leb 55296 c && ltb c 57344
    then err unicode_error
    else if ltb c 65536
    then ok ((224 + c / 4096) ∷ tail_byte c 64 ∷ tail_byte c 1 ∷ [])
    else ok ((240 + c / 262144) ∷ tail_byte c 4096 ∷ tail_byte c 64 ∷ tail_byte c 1 ∷ [])

-- `.encode("utf8").decode("latin1")`.
unfoldable pub utf8_latin1 : Text → Result {0} Text
utf8_latin1 [] = ok []
utf8_latin1 (c ∷ s) =
    let rest = utf8_latin1 s in
    then_result (utf8_char c) (λ b. then_result rest (λ bs. ok (b ++ bs)))

abbrev pub dash_to_underscore : ℕ → ℕ
dash_to_underscore c = if c == b'-' then b'_' else c

module _ (strings : Strings) where
  unfoldable pub corrected_name : Bytes → Text
  unfolding bytes_eq
  corrected_name name =
      if bytes_eq name (ascii "content-length")
      then ascii "CONTENT_LENGTH"
      else if bytes_eq name (ascii "content-type")
      then ascii "CONTENT_TYPE"
      else ascii "HTTP_" ++ map dash_to_underscore (strings.upper name)

-- `environ[name] + "," + value`.
abbrev pub merged : Option Value → Text → Result {0} Value
merged none value = ok (text_value value)
merged (some (text_value before)) value = ok (text_value (before ++ b',' ∷ value))
merged (some other) value = err type_error

module _ (strings : Strings) where
  unfoldable pub add_header : Environ → Bytes → Bytes → Result {0} Environ
  unfolding corrected_name lookup
  add_header environ name value =
      let key = corrected_name strings name in
      then_result (merged (lookup key environ) value) (λ v. ok ((key, v) ∷ environ))

  unfoldable pub add_headers : Environ → Headers → Result {0} Environ
  unfolding add_header
  add_headers environ [] = ok environ
  add_headers environ ((name, value) ∷ rest) =
      then_result (add_header environ name value) (λ e. add_headers e rest)

  abbrev pub remote_address : Option Text → Environ
  remote_address none = []
  remote_address (some host) = (ascii "REMOTE_ADDR", text_value host) ∷ []

  abbrev pub ascii_text : Bytes → Result {0} Text
  ascii_text b = if is_ascii b then ok b else err unicode_error

  -- The dictionary before the client and the headers.
  abbrev pub base_environ : HttpScope → Bytes → Text → Text → Text → Environ
  base_environ scope body script_name path query_string =
      let (host, port) = or_else scope.server (ascii "localhost", some 80) in
      (ascii "REQUEST_METHOD", text_value scope.method)
      ∷ (ascii "SCRIPT_NAME", text_value script_name)
      ∷ (ascii "PATH_INFO", text_value path)
      ∷ (ascii "QUERY_STRING", text_value query_string)
      ∷ (ascii "SERVER_NAME", text_value host)
      ∷ (ascii "SERVER_PORT", number port)
      ∷ (ascii "SERVER_PROTOCOL", text_value (ascii "HTTP/" ++ scope.http_version))
      ∷ (ascii "wsgi.version", version 1 0)
      ∷ (ascii "wsgi.url_scheme", text_value (or_else scope.scheme (ascii "http")))
      ∷ (ascii "wsgi.input", input body)
      ∷ (ascii "wsgi.errors", opaque)
      ∷ (ascii "wsgi.multithread", flag true)
      ∷ (ascii "wsgi.multiprocess", flag true)
      ∷ (ascii "wsgi.run_once", flag false)
      ∷ []

  unfoldable pub build_environ : HttpScope → Bytes → Result {0} Environ
  unfolding path_info utf8_latin1 is_ascii add_headers
  build_environ scope body =
      let script_name = or_else scope.root_path [] in
      then_result (path_info script_name scope.path) λ path.
        then_result (utf8_latin1 script_name) λ script. then_result (utf8_latin1 path) λ info.
          then_result (ascii_text scope.query_string) λ query.
            add_headers (remote_address scope.client ++ base_environ scope body script info query)
              scope.headers
