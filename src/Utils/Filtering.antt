-- ===== src/Utils/Filtering.antt =====
-- utils.py, filter_pseudo_headers and build_and_validate_headers against what they are for: no
-- pseudo header passes, and the others keep their order.
use hypercorn.Prelude.{
  ◌≡◌, refl, ap, ◌∙◌, Bool, true, false, ◌||◌, Option, none, some, [], ◌∷◌, ◌++◌, append-nil,
  append_assoc, arith, All, ◌==◌, if◌then◌else◌, if_split,
}
use hypercorn.Prelude.Bytes.{Bytes, Headers, ascii, bytes_eq, bytes_eq→eq, strip}
use hypercorn.Exec.{value_error, Result, ok, err}
use hypercorn.Utils.{
  is_pseudo, then_result, Filtered, filter_turn, filter_loop, or_host, filter_pseudo_headers,
  build_and_validate_headers,
}

-- A name that begins with a colon.
abbrev pub begins_with_colon : Bytes → Bool
begins_with_colon [] = false
begins_with_colon (c ∷ name) = c == b':'

-- The names that the filter takes out: the pseudo headers and `host`.
abbrev pub is_special : Bytes → Bool
is_special name =
    bytes_eq name (ascii ":authority") || bytes_eq name (ascii "host") || begins_with_colon name

-- The headers whose name is not special, in order.
pub regular : Headers → Headers
regular [] = []
regular ((name, value) ∷ rest) =
    if is_special name then regular rest else (name, value) ∷ regular rest

-- The value of the last header of a name, or `d` if there is none.
pub last_value : Bytes → Headers → Option Bytes → Option Bytes
last_value name [] d = d
last_value name ((n, v) ∷ rest) d = last_value name rest (if bytes_eq n name then some v else d)

-- The filter, by what it is for.
abbrev pub named : Bytes → Bool
named [] = false
named (c ∷ name) = true

abbrev pub AllNamed : Headers → Type 0
AllNamed = All (λ h. named h.0 ≡ true)

abbrev pub or_empty : Option Bytes → Bytes
or_empty none = []
or_empty (some v) = v

-- What a turn of the loop leaves, for a header with a name.
turned : Filtered → Bytes → Bytes → Filtered
turned f name value = record {
  authority = if bytes_eq name (ascii ":authority") then some value else f.authority;
  host = if bytes_eq name (ascii "host") then value else f.host;
  kept = if is_special name then f.kept else f.kept ++ (name, value) ∷ [];
}

authority_not_host :
    (name : Bytes)
    → bytes_eq name (ascii ":authority") ≡ true
    → bytes_eq name (ascii "host") ≡ false
unfolding bytes_eq
authority_not_host name e = rw (bytes_eq→eq name (ascii ":authority") e)

filter_turn_lem :
    (f : Filtered) (name value : Bytes)
    → named name ≡ true
    → filter_turn f name value ≡ ok (turned f name value)
unfolding filter_turn is_pseudo turned
filter_turn_lem f [] value a = cc
filter_turn_lem f (c ∷ name) value a = ground (arith, authority_not_host (c ∷ name))

filter_loop_lem :
    (f : Filtered) (hs : Headers)
    → AllNamed hs
    → filter_loop f hs
      ≡ ok (record {
        authority = last_value (ascii ":authority") hs f.authority;
        host = or_empty (last_value (ascii "host") hs (some f.host));
        kept = f.kept ++ regular hs;
      })
unfolding filter_loop regular last_value turned
filter_loop_lem f [] a = rw (append-nil f.kept)
filter_loop_lem f ((name, value) ∷ rest) a =
    rw (filter_turn_lem f name value a.0, filter_loop_lem (turned f name value) rest a.1)
      (ground (arith, append_assoc f.kept ((name, value) ∷ []) (regular rest)))

regular_not_special : (hs : Headers) → All (λ h. is_special h.0 ≡ false) (regular hs)
unfolding regular
regular_not_special [] = tt
regular_not_special ((name, value) ∷ rest) =
    if_split (All (λ h. is_special h.0 ≡ false)) (is_special name) (λ e. regular_not_special rest)
      (λ e. (e, regular_not_special rest))

-- On headers that all have a name: the result is one `host` header followed by the headers whose
-- name is not `host`, `:authority` or another name that begins with a colon, in their order. The
-- value of `host` is that of the last `:authority`, else that of the last `host`, else empty.
pub filter_pseudo_headers_lem :
    (headers : Headers)
    → AllNamed headers
    → (filter_pseudo_headers headers
        ≡ ok (
            (
              ascii "host",
              or_host
                  (last_value (ascii ":authority") headers none)
                  (or_empty (last_value (ascii "host") headers (some []))),
            )
            ∷ regular headers))
      × All (λ h. is_special h.0 ≡ false) (regular headers)
unfolding filter_pseudo_headers
filter_pseudo_headers_lem headers a =
    (rw (filter_loop_lem _ headers a), regular_not_special headers)

-- Each header with its name and value stripped.
pub stripped : Headers → Headers
stripped [] = []
stripped ((name, value) ∷ rest) = (strip name, strip value) ∷ stripped rest

abbrev pub NoPseudo : Headers → Type 0
NoPseudo = All (λ h. begins_with_colon h.0 ≡ false)

-- Headers of an application that all have a name without a colon in front are accepted: the result
-- is the same headers in the same order, with names and values stripped.
pub build_and_validate_headers_total :
    (headers : Headers)
    → AllNamed headers
    → NoPseudo headers
    → build_and_validate_headers headers ≡ ok (stripped headers)
unfolding build_and_validate_headers stripped is_pseudo
build_and_validate_headers_total [] a n = refl
build_and_validate_headers_total (([], value) ∷ rest) a n = cc (a.0)
build_and_validate_headers_total ((c ∷ name, value) ∷ rest) a n =
    rw (n.0, build_and_validate_headers_total rest a.1 n.1)

accepted_inversion :
    (pseudo : Bool) (r : Result Headers) (h : Bytes × Bytes) (hs : Headers)
    → (if pseudo then err value_error else then_result r (λ t. ok (h ∷ t))) ≡ ok hs
    → (t : Headers) × (pseudo ≡ false) × (r ≡ ok t) × (hs ≡ h ∷ t)
accepted_inversion true r h hs e = cc
accepted_inversion false (ok t) h hs e = (t, refl, refl, ground (arith, e))
accepted_inversion false (err x) h hs e = cc

-- When the check of an application's headers succeeds, then no name was empty or began with a
-- colon, and the result is the same headers in the same order, with names and values stripped.
pub build_and_validate_headers_sound :
    (headers hs : Headers)
    → build_and_validate_headers headers ≡ ok hs
    → (hs ≡ stripped headers) × AllNamed headers × NoPseudo headers
unfolding build_and_validate_headers is_pseudo stripped
build_and_validate_headers_sound [] hs e = (ground (arith, e), tt, tt)
build_and_validate_headers_sound (([], value) ∷ rest) hs e = cc
build_and_validate_headers_sound ((c ∷ name, value) ∷ rest) hs e =
    let (t, p, r, d) = accepted_inversion (c == b':') _ (strip (c ∷ name), strip value) hs e in
    let (s, a, n) = build_and_validate_headers_sound rest t r in
    (d ∙ ap (◌∷◌ (strip (c ∷ name), strip value)) s, (refl, a), (p, n))
