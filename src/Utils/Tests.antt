-- ===== src/Utils/Tests.antt =====
-- Runs of the header checks of utils.py on small inputs.
use hypercorn.Prelude.{◌≡◌, refl, false, none, some, [], ◌∷◌, All}
use hypercorn.Prelude.Bytes.{Headers, ascii, bytes_eq, strip}
use hypercorn.Exec.{ok}
use hypercorn.Utils.{
  filter_pseudo_headers, filter_loop, filter_turn, build_and_validate_headers, or_host, is_pseudo,
}
use hypercorn.Utils.Filtering.{
  AllNamed, NoPseudo, stripped, regular, last_value, is_special, or_empty,
  filter_pseudo_headers_lem, build_and_validate_headers_total, build_and_validate_headers_sound,
}

-- The headers of a request of HTTP/2.
abbrev incoming : Headers
incoming =
    (ascii ":method", ascii "GET")
    ∷ (ascii ":authority", ascii "a.org")
    ∷ (ascii "host", ascii "b.org")
    ∷ (ascii "te", ascii "trailers")
    ∷ []

incoming_filtered :
    filter_pseudo_headers incoming
    ≡ ok ((ascii "host", ascii "a.org") ∷ (ascii "te", ascii "trailers") ∷ [])
unfolding filter_pseudo_headers filter_loop filter_turn is_pseudo bytes_eq
incoming_filtered = refl

filter_pseudo_headers_lem_example :
    (filter_pseudo_headers incoming
      ≡ ok (
          (
            ascii "host",
            or_host
                (last_value (ascii ":authority") incoming none)
                (or_empty (last_value (ascii "host") incoming (some []))),
          )
          ∷ regular incoming))
    × All (λ h. is_special h.0 ≡ false) (regular incoming)
filter_pseudo_headers_lem_example =
    filter_pseudo_headers_lem incoming (refl, (refl, (refl, (refl, tt))))

-- The headers of an application.
abbrev outgoing : Headers
outgoing = (ascii "server ", ascii " x") ∷ (ascii "age", ascii "1") ∷ []

outgoing_checked :
    build_and_validate_headers outgoing
    ≡ ok ((ascii "server", ascii "x") ∷ (ascii "age", ascii "1") ∷ [])
unfolding build_and_validate_headers is_pseudo strip
outgoing_checked = refl

build_and_validate_headers_total_example :
    build_and_validate_headers outgoing ≡ ok (stripped outgoing)
build_and_validate_headers_total_example =
    build_and_validate_headers_total outgoing (refl, (refl, tt)) (refl, (refl, tt))

build_and_validate_headers_sound_example :
    ((ascii "server", ascii "x") ∷ (ascii "age", ascii "1") ∷ [] ≡ stripped outgoing)
    × AllNamed outgoing
    × NoPseudo outgoing
build_and_validate_headers_sound_example =
    build_and_validate_headers_sound outgoing
      ((ascii "server", ascii "x") ∷ (ascii "age", ascii "1") ∷ []) outgoing_checked
