-- ===== src/H11/Upgrades.antt =====
-- protocol/h11.py: what a request can be upgraded to.
use hypercorn.Prelude.{
  ◌≡◌, refl, sym, ap, subst, ◌∙◌, Bool, true, false, not, ◌&&◌, ◌||◌, [], ◌∷◌, All, if_split,
  if◌then◌else◌, arith,
}
use hypercorn.Prelude.Bytes.{Bytes, Headers, ascii, bytes_eq, bytes_eq→eq}
use hypercorn.Exec.{ok}
use hypercorn.H11.Package.{Request}
use hypercorn.H11.Upgrade.{
  Asked, asked_turn, read_asked, Offered, offered_turn, read_offered, latin1_strip, latin1_lower,
  any_upgrade, split_commas, upper_method, is_get, wants_websocket, wants_h2c,
}

-- Both loops over the headers find the same Upgrade header.
asked_turn-offered_turn :
    (a : Asked) (o : Offered) (name value : Bytes)
    → a.upgrade_value ≡ o.upgrade_value
    → (asked_turn a name value).upgrade_value ≡ (offered_turn o name value).upgrade_value
unfolding asked_turn offered_turn
asked_turn-offered_turn a o name value e = ground arith

read_asked-read_offered :
    (a : Asked) (o : Offered) (headers : Headers)
    → a.upgrade_value ≡ o.upgrade_value
    → (read_asked a headers).upgrade_value ≡ (read_offered o headers).upgrade_value
unfolding read_asked read_offered
read_asked-read_offered a o [] e = e
read_asked-read_offered a o ((name, value) ∷ rest) e =
    read_asked-read_offered (asked_turn a name value) (offered_turn o name value) rest
      (asked_turn-offered_turn a o name value e)

-- A name, sanitised, that says that a body follows.
abbrev pub names_body : Bytes → Bool
names_body sanitised_name =
    bytes_eq sanitised_name (ascii "content-length")
    || bytes_eq sanitised_name (ascii "transfer-encoding")

abbrev pub IsBodiless : Bytes × Bytes → Type 0
IsBodiless (name, value) = names_body (latin1_lower (latin1_strip name)) ≡ false

upgrade_bodiless : (name : Bytes) → bytes_eq name (ascii "upgrade") ≡ true → names_body name ≡ false
unfolding bytes_eq
upgrade_bodiless name e =
    subst (λ n. names_body n ≡ false) (sym (bytes_eq→eq name (ascii "upgrade") e)) refl

offered_turn_body :
    (o : Offered) (name value : Bytes)
    → (offered_turn o name value).has_body ≡ false
    → (o.has_body ≡ false) × IsBodiless (name, value)
unfolding offered_turn
offered_turn_body o name value =
    let n = latin1_lower (latin1_strip name) in
    if_split (λ (z : Offered). z.has_body ≡ false → (o.has_body ≡ false) × (names_body n ≡ false))
      (bytes_eq n (ascii "upgrade")) (λ is_upgrade e. (e, upgrade_bodiless n is_upgrade))
      (λ other.
        if_split
          (λ (z : Offered). z.has_body ≡ false → (o.has_body ≡ false) × (names_body n ≡ false))
          (names_body n) (λ has_body e. absurd (ground (arith, e)))
          (λ none_named e. (e, none_named)))

read_offered_body :
    (o : Offered) (headers : Headers)
    → (read_offered o headers).has_body ≡ false
    → (o.has_body ≡ false) × All IsBodiless headers
unfolding read_offered
read_offered_body o [] e = (e, tt)
read_offered_body o ((name, value) ∷ rest) e =
    let (turned, others) = read_offered_body (offered_turn o name value) rest e in
    let (before, bodiless) = offered_turn_body o name value turned in (before, (bodiless, others))

-- An upgrade to HTTP/2 is made only of a request that has no body.
pub h2c-IsBodiless : (r : Request) → wants_h2c r ≡ true → All IsBodiless r.headers
unfolding wants_h2c
h2c-IsBodiless r w =
    (read_offered_body (record { upgrade_value = []; has_body = false }) r.headers
      (ground (arith, w))).1

h2c_not_websocket :
    (value : Bytes)
    → bytes_eq value (ascii "h2c") ≡ true
    → bytes_eq value (ascii "websocket") ≡ false
unfolding bytes_eq
h2c_not_websocket value e =
    subst (λ v. bytes_eq v (ascii "websocket") ≡ false) (sym (bytes_eq→eq value (ascii "h2c") e))
      refl

both_true : (a b : Bool) → (a && b) ≡ true → (a ≡ true) × (b ≡ true)
both_true true b e = (refl, e)
both_true false b e = absurd (ground arith)

if_second_false {ℓ} :
    {A : Type ℓ} (a b : Bool) (x y : A) → b ≡ false → (if a && b then x else y) ≡ y
if_second_false true b x y e = ap (λ c. if c then x else y) e
if_second_false false b x y e = refl

h2c_asks_no_websocket : (r : Request) → wants_h2c r ≡ true → wants_websocket r ≡ ok false
unfolding wants_h2c wants_websocket
h2c_asks_no_websocket r w =
    let a = read_asked (record { upgrade_value = []; connection_value = [] }) r.headers in
    let o = read_offered (record { upgrade_value = []; has_body = false }) r.headers in
    let same : a.upgrade_value ≡ o.upgrade_value = read_asked-read_offered _ _ r.headers refl in
    if_second_false (any_upgrade (split_commas (latin1_lower a.connection_value)))
      (bytes_eq (latin1_lower a.upgrade_value) (ascii "websocket")) (is_get (upper_method r.method))
      (ok false)
      (h2c_not_websocket (latin1_lower a.upgrade_value) (
        ap (λ v. bytes_eq (latin1_lower v) (ascii "h2c")) same
        ∙ (both_true _ (not o.has_body) w).0))

-- A request that asks for an upgrade to HTTP/2 has no header that announces a body, and does not
-- ask for a WebSocket.
pub h2c_request_plain :
    (r : Request) → wants_h2c r ≡ true → All IsBodiless r.headers × (wants_websocket r ≡ ok false)
h2c_request_plain r w = (h2c-IsBodiless r w, h2c_asks_no_websocket r w)
