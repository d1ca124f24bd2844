-- ===== src/Exec.antt =====
-- Methods that change an object and may raise. What was done before a raise stays done, so the
-- state comes back beside the error too.
pub mod Leads
use hypercorn.Prelude.{◌≡◌, refl, Option, none, some}
use hypercorn.Prelude.Bytes.{Bytes, Headers}

-- The Python exceptions that the modelled code raises. `suspended` is none of them: it ends a method
-- that waits for ever. The last two carry what the next protocol is
-- given: the bytes that are left, and the headers and the settings of the request.
pub data Error : Type 0 where
  index_error value_error type_error key_error attribute_error unicode_error : Error
  unexpected_message invalid_subprotocol invalid_header frame_too_large assertion_error : Error
  invalid_path runtime_error local_protocol_error protocol_error unknown_scope : Error
  name_error : Error
  suspended : Error
  h2_protocol_assumed : Bytes → Error
  h2c_protocol_required : Bytes → Headers → Bytes → Error

pub data Result {ℓ} (A : Type ℓ) : Type ℓ where
  ok : A → Result A
  err : Error → Result A

abbrev pub Exec {ℓ} : Type ℓ → Type ℓ → Type ℓ
Exec S A = S → Result A × S

module _ {ℓ} {S A B : Type ℓ} where
  abbrev pub continue : Result A × S → (A → Exec S B) → Result B × S
  continue (ok a, s) f = f a s
  continue (err e, s) f = (err e, s)

  infixl 5 ◌>>=◌
  abbrev pub ◌>>=◌ : Exec S A → (A → Exec S B) → Exec S B
  ◌>>=◌ m f s = continue (m s) f

module _ {S B : Type 0} where
  infixl 5 ◌>>◌
  abbrev pub ◌>>◌ : Exec S Unit → Exec S B → Exec S B
  m >> k = m >>= λ _. k

module _ {S A : Type 0} where
  abbrev pub pure : A → Exec S A
  pure a s = (ok a, s)

  abbrev pub raise : Error → Exec S A
  raise e s = (err e, s)

  abbrev pub lift : Result A → Exec S A
  lift r s = (r, s)

  -- An attribute that may be missing, or a value that may be None.
  abbrev pub or_raise : Error → Option A → Exec S A
  or_raise e none = raise e
  or_raise e (some a) = pure a

abbrev pub modify : {S : Type 0} → (S → S) → Exec S Unit
modify f s = (ok tt, f s)

-- A step that may raise and changes nothing: what holds before it holds if it raises, and what
-- follows may use its result.
pub lift_keeps {ℓ} :
    {S A B : Type 0} (P : S → Type ℓ) (r : Result A) (f : A → Exec S B) (s : S)
    → P s
    → ((a : A) → r ≡ ok a → P (f a s).1)
    → P ((lift r >>= f) s).1
lift_keeps P (ok a) f s p k = k a refl
lift_keeps P (err e) f s p k = p

-- The same where another step stands behind.
pub lift_keeps_then {ℓ} :
    {S A B C : Type 0} (P : S → Type ℓ) (r : Result A) (f : A → Exec S B) (g : B → Exec S C) (s : S)
    → P s
    → ((a : A) → r ≡ ok a → P ((f a >>= g) s).1)
    → P (((lift r >>= f) >>= g) s).1
lift_keeps_then P (ok a) f g s p k = k a refl
lift_keeps_then P (err e) f g s p k = p
