-- ===== src/Middleware/ProxyFix/Tests.antt =====
-- Runs of middleware/proxy_fix.py on small headers.
use hypercorn.Prelude.{◌≤◌, ◌≡◌, refl, none, some, [], ◌∷◌, ◌++◌, length, arith}
use hypercorn.Prelude.Bytes.{Headers, ascii, bytes_eq, lower}
use hypercorn.Exec.{ok}
use hypercorn.Wsgi.Environ.{utf8_latin1}
use hypercorn.Middleware.ProxyFix.{
  values_for, get_trusted_value, legacy, Scope, believed, rewrite, set_host, without_host,
  fixed_scope, split_comma, strip_text, lstrip_text,
}
use hypercorn.Middleware.ProxyFix.Scopes.{AddsFor, fixed_scope-append}
use hypercorn.Middleware.ProxyFix.Trust.{get_trusted_value-append}

-- A client sends a header of its own, and two proxies add their values.
abbrev forged : Headers
forged = (ascii "x-forwarded-for", ascii "10.0.0.1") ∷ []

abbrev added : Headers
added = (ascii "X-Forwarded-For", ascii "1.2.3.4, 5.6.7.8") ∷ []

added_values : values_for (ascii "x-forwarded-for") added ≡ ascii "1.2.3.4" ∷ ascii "5.6.7.8" ∷ []
unfolding values_for bytes_eq lower
added_values = refl

added_enough : 2 ≤ length (values_for (ascii "x-forwarded-for") added)
added_enough = rw added_values (omega arith)

forged_ignored :
    get_trusted_value (ascii "x-forwarded-for") (forged ++ added) 2 ≡ some (ascii "1.2.3.4")
unfolding get_trusted_value bytes_eq lower
forged_ignored = refl

get_trusted_value-append_example :
    get_trusted_value (ascii "x-forwarded-for") (forged ++ added) 2
    ≡ get_trusted_value (ascii "x-forwarded-for") added 2
get_trusted_value-append_example =
    get_trusted_value-append (ascii "x-forwarded-for") forged added 2 added_enough

abbrev all_added : Headers
all_added =
    (ascii "X-Forwarded-For", ascii "5.6.7.8")
    ∷ (ascii "X-Forwarded-Proto", ascii "https")
    ∷ (ascii "X-Forwarded-Host", ascii "example.org")
    ∷ []

abbrev plain_scope : Scope
plain_scope = record { client = none; scheme = ascii "http"; headers = [] }

all_enough : AddsFor legacy all_added 1
unfolding values_for bytes_eq lower split_comma strip_text lstrip_text
all_enough = (omega arith, omega arith, omega arith)

fixed_scope-append_example :
    fixed_scope legacy 1 (record plain_scope { headers = forged ++ all_added })
    ≡ rewrite (believed legacy all_added 1) (record plain_scope { headers = forged ++ all_added })
fixed_scope-append_example = fixed_scope-append legacy forged all_added 1 plain_scope all_enough

-- The host of the client is gone.
host_replaced :
    rewrite
      (record { client = none; scheme = none; host = some (ascii "a") })
      (record plain_scope { headers = (ascii "Host", ascii "b") ∷ [] })
    ≡ ok (record plain_scope { headers = (ascii "host", ascii "a") ∷ [] })
unfolding rewrite set_host without_host bytes_eq lower utf8_latin1
host_replaced = refl
