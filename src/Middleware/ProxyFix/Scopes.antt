-- ===== src/Middleware/ProxyFix/Scopes.antt =====
-- middleware/proxy_fix.py: the scope that the application is given.
use hypercorn.Prelude.{
  ℕ, suc, ◌-◌, ◌≤◌, ◌<◌, ◌≡◌, refl, sym, ap, ◌∙◌, Option, none, some, List, [], ◌∷◌, ◌++◌, length,
  drop, arith, leb, ◌==◌, zero, if_split,
}
use hypercorn.Prelude.Bytes.{Bytes, Headers, ascii}
use hypercorn.Asgi.{Text}
use hypercorn.Middleware.ProxyFix.{
  values_for, first, get_trusted_value, Mode, legacy, modern, believe_legacy, believe_forwarded,
  believed, Scope, rewrite, nothing_believed, fixed_scope,
}
use hypercorn.Middleware.ProxyFix.Trust.{get_trusted_value-append}

first-drop : (n : ℕ) (l : List Text) → n < length l → first (drop n l) ≡ none → ⊥
first-drop n [] h e = absurd (omega (arith, h))
first-drop zero (x ∷ l) h e = absurd cc
first-drop (suc n) (x ∷ l) h e = first-drop n l (omega (arith, h)) e

-- The trusted proxies have added a value for each of them.
abbrev pub Adds : Headers → ℕ → Bytes → Type 0
Adds added trusted_hops name = trusted_hops ≤ length (values_for name added)

-- What the trusted proxies add in each mode.
abbrev pub AddsFor : Mode → Headers → ℕ → Type 0
AddsFor legacy added k =
    Adds added k (ascii "x-forwarded-for")
    × Adds added k (ascii "x-forwarded-proto")
    × Adds added k (ascii "x-forwarded-host")
AddsFor modern added k = Adds added k (ascii "forwarded")

-- A value is missing where there are enough of them only when no proxy is trusted.
missing :
    (name : Bytes) (added : Headers) (k : ℕ)
    → Adds added k name
    → get_trusted_value name added k ≡ none
    → k ≡ 0
unfolding get_trusted_value
missing name added k enough =
    let values = values_for name added in
    if_split (λ o. o ≡ none → k ≡ 0) (k == 0) (λ no_hops e. ground (arith, no_hops))
      (λ hops.
        if_split (λ o. o ≡ none → k ≡ 0) (leb k (length values))
          (λ many e.
            absurd (first-drop (length values - k) values (ground (arith, enough, hops)) e))
          (λ few e. absurd (ground (arith, enough, few))))

-- With no proxy trusted nothing is believed.
none_trusted : (headers : Headers) → believe_legacy headers 0 ≡ nothing_believed
unfolding believe_legacy get_trusted_value
none_trusted headers = refl

legacy-append :
    (sent added : Headers) (k : ℕ)
    → AddsFor legacy added k
    → believe_legacy (sent ++ added) k ≡ believe_legacy added k
unfolding believe_legacy
legacy-append sent added k (client, scheme, host) = rw (
  get_trusted_value-append (ascii "x-forwarded-for") sent added k client,
  get_trusted_value-append (ascii "x-forwarded-proto") sent added k scheme,
  get_trusted_value-append (ascii "x-forwarded-host") sent added k host,
)

modern-append :
    (sent added : Headers) (k : ℕ)
    → AddsFor modern added k
    → (value : Option Text) → get_trusted_value (ascii "forwarded") added k ≡ value
    → believe_forwarded value (sent ++ added) k ≡ believe_forwarded value added k
modern-append sent added k enough (some value) found = refl
modern-append sent added k enough none found =
    let untrusted = missing (ascii "forwarded") added k enough found in
    ap (believe_legacy (sent ++ added)) untrusted
    ∙ none_trusted (sent ++ added)
    ∙ sym (none_trusted added)
    ∙ ap (believe_legacy added) (sym untrusted)

believed-append :
    (mode : Mode) (sent added : Headers) (k : ℕ)
    → AddsFor mode added k
    → believed mode (sent ++ added) k ≡ believed mode added k
unfolding believed
believed-append legacy sent added k enough = legacy-append sent added k enough
believed-append modern sent added k enough =
    ap (λ v. believe_forwarded v (sent ++ added) k)
      (get_trusted_value-append (ascii "forwarded") sent added k enough)
    ∙ modern-append sent added k enough (get_trusted_value (ascii "forwarded") added k) refl

-- When the trusted proxies have added the headers of the mode behind those of the client, each a
-- value for every trusted hop, the client, the scheme and the host of the scope that the application
-- is given are rewritten by what the proxies have added alone, whatever the client has sent.
pub fixed_scope-append :
    (mode : Mode) (sent added : Headers) (trusted_hops : ℕ) (s : Scope)
    → AddsFor mode added trusted_hops
    → fixed_scope mode trusted_hops (record s { headers = sent ++ added })
      ≡ rewrite (believed mode added trusted_hops) (record s { headers = sent ++ added })
unfolding fixed_scope
fixed_scope-append mode sent added k s enough =
    ap (λ b. rewrite b (record s { headers = sent ++ added }))
      (believed-append mode sent added k enough)
