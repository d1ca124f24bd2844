-- ===== src/Middleware/ProxyFix/Trust.antt =====
-- middleware/proxy_fix.py: what a client sends itself is not believed.
use hypercorn.Prelude.{
  ℕ, suc, ◌-◌, ◌≤◌, ◌≡◌, refl, List, [], ◌∷◌, ◌++◌, length, length-append, append_assoc, drop, map,
  arith,
}
use hypercorn.Prelude.Bytes.{Bytes, Headers}
use hypercorn.Asgi.{Text}
use hypercorn.Middleware.ProxyFix.{values_for, get_trusted_value, split_comma, strip_text}

values_for-append :
    (name : Bytes) (hs ks : Headers)
    → values_for name (hs ++ ks) ≡ values_for name hs ++ values_for name ks
unfolding values_for
values_for-append name [] ks = refl
values_for-append name ((n, v) ∷ rest) ks = ground (
  arith,
  values_for-append name rest ks,
  append_assoc (map strip_text (split_comma v)) (values_for name rest) (values_for name ks),
)

suc_minus :
    (k : ℕ) (a b : List Text) → k ≤ length b → suc (length (a ++ b)) - k ≡ suc (length (a ++ b) - k)
suc_minus k a b l = omega (arith, l, length-append a b)

-- The last `k` values do not change when values come before them.
drop_last :
    (k : ℕ) (a b : List Text)
    → k ≤ length b
    → drop (length (a ++ b) - k) (a ++ b) ≡ drop (length b - k) b
drop_last k [] b l = refl
drop_last k (x ∷ a) b l = rw (suc_minus k a b l) (drop_last k a b l)

-- The trusted proxies add their values behind those of the client. When they have added at least as
-- many as are trusted, the result is theirs, whatever headers the client has sent before.
pub get_trusted_value-append :
    (name : Bytes) (sent added : Headers) (trusted_hops : ℕ)
    → trusted_hops ≤ length (values_for name added)
    → get_trusted_value name (sent ++ added) trusted_hops
      ≡ get_trusted_value name added trusted_hops
unfolding get_trusted_value
get_trusted_value-append name sent added k l =
    rw
      (
        values_for-append name sent added,
        drop_last k (values_for name sent) (values_for name added) l,
      )
      (ground (arith, l, length-append (values_for name sent) (values_for name added)))
