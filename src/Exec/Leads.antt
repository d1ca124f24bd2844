-- ===== src/Exec/Leads.antt =====
-- What a step leads to from a state with some property, whether it returns or raises, and the rules
-- by which the steps of a method compose.
use hypercorn.Prelude.{Bool, true, false, Option, none, some, if◌then◌else◌}
use hypercorn.Exec.{Error, Result, ok, err, Exec, ◌>>=◌, ◌>>◌, continue, or_raise}

abbrev pub Leads {ℓ} : {S A : Type 0} → (S → Type ℓ) → (S → Type ℓ) → Exec S A → Type ℓ
Leads {S = S} P Q m = (s : S) → P s → Q (m s).1

module _ {ℓ} {S A B : Type 0} where
  pub continue-Leads :
      (Q R : S → Type ℓ) (z : Result A × S) (f : A → Exec S B)
      → ((s : S) → Q s → R s)
      → Q z.1
      → ((a : A) → Leads Q R (f a))
      → R (continue z f).1
  continue-Leads Q R (ok a, s) f weaker q k = k a s q
  continue-Leads Q R (err e, s) f weaker q k = weaker s q

  -- Where the second step may be left out, what holds between the steps is enough at the end.
  pub then-Leads :
      (P Q R : S → Type ℓ) (m : Exec S A) (f : A → Exec S B)
      → ((s : S) → Q s → R s)
      → Leads P Q m
      → ((a : A) → Leads Q R (f a))
      → Leads P R (m >>= f)
  then-Leads P Q R m f weaker k l s p = continue-Leads Q R (m s) f weaker (k s p) l

abbrev pub Keeps {ℓ} : {S A : Type 0} → (S → Type ℓ) → Exec S A → Type ℓ
Keeps P m = Leads P P m

module _ {ℓ} {S A : Type 0} where
  pub then-Keeps :
      {B : Type 0} (P : S → Type ℓ) (m : Exec S A) (f : A → Exec S B)
      → Keeps P m
      → ((a : A) → Keeps P (f a))
      → Keeps P (m >>= f)
  then-Keeps P m f k l = then-Leads P P P m f (λ s p. p) k l

  pub seq-Keeps :
      (P : S → Type ℓ) (m : Exec S Unit) (n : Exec S A) → Keeps P m → Keeps P n → Keeps P (m >> n)
  seq-Keeps P m n k l = then-Leads P P P m (λ u. n) (λ s p. p) k (λ u. l)

  pub if-Keeps :
      (P : S → Type ℓ) (b : Bool) (m n : Exec S A)
      → Keeps P m
      → Keeps P n
      → Keeps P (if b then m else n)
  if-Keeps P true m n k l = k
  if-Keeps P false m n k l = l

  pub or_raise-Keeps : (P : S → Type ℓ) (e : Error) (o : Option A) → Keeps {A = A} P (or_raise e o)
  or_raise-Keeps P e none s p = p
  or_raise-Keeps P e (some a) s p = p
