-- ===== src/Wsgi/Merging.antt =====
-- app_wrappers.py: the headers of a request in the environment.
use hypercorn.Prelude.{
  ◌≡◌, refl, sym, ap, subst, ◌∙◌, Bool, true, false, Option, none, some, List, [], ◌∷◌, ◌++◌,
  append_assoc, append-nil, if◌then◌else◌,
}
use hypercorn.Prelude.Bytes.{Headers, bytes_eq, bytes_eq→eq}
use hypercorn.Exec.{Result, ok, err}
use hypercorn.Utils.{then_result}
use hypercorn.Asgi.{Text}
use hypercorn.Wsgi.{Strings}
use hypercorn.Wsgi.Environ.{
  Value, text_value, Environ, lookup, corrected_name, merged, add_header, add_headers,
}

-- The values after the first, each after a comma.
abbrev pub with_commas : List Text → Text
with_commas [] = []
with_commas (v ∷ vs) = (b',' ∷ v) ++ with_commas vs

-- The values of a key as one, or none.
abbrev pub joined : List Text → Option Value
joined [] = none
joined (v ∷ vs) = some (text_value (v ++ with_commas vs))

module _ (strings : Strings) where
  -- The values of the headers that become the key, in order.
  unfoldable pub values_of : Text → Headers → List Text
  unfolding bytes_eq corrected_name
  values_of key [] = []
  values_of key ((name, value) ∷ rest) =
      let others = values_of key rest in
      if bytes_eq key (corrected_name strings name) then value ∷ others else others

-- What becomes of the value of a key. A value that is no text is not merged.
abbrev After : Option Value → List Text → Option Value → Type 0
After none vs o = o ≡ joined vs
After (some (text_value t)) vs o = o ≡ some (text_value (t ++ with_commas vs))
After (some v) vs o = Unit {0}

nothing-After : (o : Option Value) → After o [] o
nothing-After none = refl
nothing-After (some (text_value t)) = ap (λ u. some (text_value u)) (sym (append-nil t))
nothing-After (some v) = tt

ok_injective : {A : Type 0} {a b : A} → ok a ≡ ok b → a ≡ b
ok_injective e = cc

merged-After :
    (o after : Option Value) (v : Value) (value : Text) (vs : List Text)
    → merged o value ≡ ok v
    → After (some v) vs after
    → After o (value ∷ vs) after
merged-After none after v value vs m a =
    subst (λ w. After (some w) vs after) (sym (ok_injective m)) a
merged-After (some (text_value t)) after v value vs m a =
    subst (λ w. After (some w) vs after) (sym (ok_injective m)) a
    ∙ ap (λ u. some (text_value u)) (append_assoc t (b',' ∷ value) (with_commas vs))
merged-After (some v) after w value vs m a = tt

header-After :
    (same : Bool) (o after : Option Value) (v : Value) (value : Text) (vs : List Text)
    → (same ≡ true → merged o value ≡ ok v)
    → After (if same then some v else o) vs after
    → After o (if same then value ∷ vs else vs) after
header-After true o after v value vs m a = merged-After o after v value vs (m refl) a
header-After false o after v value vs m a = a

module _ (strings : Strings) (key : Text) (result : Environ) where
  added-After :
      (environ : Environ) (k : Text) (m : Result Value) (value : Text) (rest : Headers)
      → merged (lookup k environ) value ≡ m
      → then_result (then_result m (λ v. ok ((k, v) ∷ environ))) (λ e. add_headers strings e rest)
        ≡ ok result
      → ((e : Environ)
          → add_headers strings e rest ≡ ok result
          → After (lookup key e) (values_of strings key rest) (lookup key result))
      → After
          (lookup key environ)
          (if bytes_eq key k
            then value ∷ values_of strings key rest
            else values_of strings key rest)
          (lookup key result)
  unfolding lookup
  added-After environ k (err e) value rest is_merged added others = absurd cc
  added-After environ k (ok v) value rest is_merged added others =
      header-After (bytes_eq key k) (lookup key environ) (lookup key result) v value
        (values_of strings key rest)
        (λ same. ap (λ n. merged (lookup n environ) value) (bytes_eq→eq key k same) ∙ is_merged)
        (others ((k, v) ∷ environ) added)

  add_headers-After :
      (environ : Environ) (headers : Headers)
      → add_headers strings environ headers ≡ ok result
      → After (lookup key environ) (values_of strings key headers) (lookup key result)
  unfolding add_headers values_of add_header
  add_headers-After environ [] e =
      subst (λ r. After (lookup key environ) [] (lookup key r)) (ok_injective e)
        (nothing-After (lookup key environ))
  add_headers-After environ ((name, value) ∷ rest) e =
      let k = corrected_name strings name in
      added-After environ k (merged (lookup k environ) value) value rest refl e
        (λ f. add_headers-After f rest)

  -- A key that the environment has not got before the headers are added has after them the values
  -- of the headers that become it, in order and joined by commas, and is missing when there is none.
  pub add_headers-joined :
      (environ : Environ) (headers : Headers)
      → lookup key environ ≡ none
      → add_headers strings environ headers ≡ ok result
      → lookup key result ≡ joined (values_of strings key headers)
  add_headers-joined environ headers missing e =
      subst (λ o. After o (values_of strings key headers) (lookup key result)) missing
        (add_headers-After environ headers e)
