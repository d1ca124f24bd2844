-- ===== src/Utils.antt =====
-- utils.py: the header checks that the protocols and the streams share.
pub mod Filtering
mod Tests
use text.Mathlib.Text.{◌==◌ as str_eq}
use hypercorn.Prelude.{
  ℕ, ◌+◌, ◌≡◌, Bool, true, false, ◌&&◌, ◌||◌, Option, none, some, List, [], ◌∷◌, ◌++◌, String, ltb,
  leb, ◌==◌, is_nil, if◌then◌else◌,
}
use hypercorn.Prelude.Bytes.{Bytes, Headers, ascii, bytes_eq, lower, strip}
use hypercorn.Exec.{Error, index_error, value_error, unicode_error, Result, ok, err}

abbrev pub is_in : ℕ → List ℕ → Bool
is_in n [] = false
is_in n (m ∷ ms) = n == m || is_in n ms

unfoldable pub suppress_body : String → ℕ → Bool
suppress_body method status_code =
    str_eq method "HEAD"
    || (leb 100 status_code && ltb status_code 200)
    || is_in status_code (204 ∷ 304 ∷ [])

-- `name[0] == b":"[0]`, which raises an IndexError on an empty name.
unfoldable pub is_pseudo : Bytes → Result Bool
is_pseudo [] = err index_error
is_pseudo (c ∷ name) = ok (c == b':')

abbrev pub then_result {ℓ κ} : {A : Type ℓ} {B : Type κ} → Result A → (A → Result B) → Result B
then_result (ok a) f = f a
then_result (err e) f = err e

unfoldable pub build_and_validate_headers : Headers → Result Headers
unfolding is_pseudo
build_and_validate_headers [] = ok []
build_and_validate_headers ((name, value) ∷ rest) =
    let others = build_and_validate_headers rest in
    then_result (is_pseudo name) λ pseudo.
      if pseudo
      then err value_error
      else then_result others (λ hs. ok ((strip name, strip value) ∷ hs))

-- The variables of the loop in `filter_pseudo_headers`, without the placeholder.
pub record Filtered : Type 0 where
  pub authority : Option Bytes
  pub host : Bytes
  pub kept : Headers

abbrev pub keep_header : Filtered → Bytes → Bytes → Bool → Filtered
keep_header f name value true = f
keep_header f name value false = record f { kept = f.kept ++ (name, value) ∷ [] }

unfoldable pub filter_turn : Filtered → Bytes → Bytes → Result Filtered
unfolding is_pseudo
filter_turn f name value =
    if bytes_eq name (ascii ":authority")
    then ok (record f { authority = some value })
    else if bytes_eq name (ascii "host")
    then ok (record f { host = value })
    else then_result (is_pseudo name) (λ pseudo. ok (keep_header f name value pseudo))

unfoldable pub filter_loop : Filtered → Headers → Result Filtered
filter_loop f [] = ok f
filter_loop f ((name, value) ∷ rest) =
    then_result (filter_turn f name value) (λ g. filter_loop g rest)

abbrev pub or_host : Option Bytes → Bytes → Bytes
or_host none host = host
or_host (some authority) host = authority

abbrev pub with_host : Filtered → Headers
with_host f = (ascii "host", or_host f.authority f.host) ∷ f.kept

unfoldable pub filter_pseudo_headers : Headers → Result Headers
unfolding filter_loop filter_turn
filter_pseudo_headers headers =
    then_result (filter_loop (record { authority = none; host = []; kept = [] }) headers)
      (λ f. ok (with_host f))

-- The value of the first Host header.
unfoldable pub host_value : Headers → Option Bytes
host_value [] = none
host_value ((name, value) ∷ rest) =
    if bytes_eq (lower name) (ascii "host") then some value else host_value rest

abbrev pub decode_host : (Bytes → Option String) → Option Bytes → Result String
decode_host decode none = ok ""
decode_host decode (some value) = elim (decode value) [ none ↦ err unicode_error | some s ↦ ok s ]

unfoldable pub str_in : String → List String → Bool
str_in s [] = false
str_in s (t ∷ ts) = str_eq s t || str_in s ts

-- `decode` is bytes.decode(): `none` is the UnicodeDecodeError.
unfoldable pub valid_server_name : (Bytes → Option String) → List String → Headers → Result Bool
unfolding host_value str_in
valid_server_name decode server_names headers =
    if is_nil server_names
    then ok true
    else then_result (decode_host decode (host_value headers))
        (λ host. ok (str_in host server_names))
