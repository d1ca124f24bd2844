-- ===== src/H2/Tables.antt =====
-- A dictionary from stream ids, as an association list.
use hypercorn.Prelude.{
  ℕ, ◌≡◌, ◌≢◌, refl, Option, none, some, List, [], ◌∷◌, ◌==◌, if◌then◌else◌, arith,
}

module _ {T : Type 0} where
  unfoldable pub find : ℕ → List (ℕ × T) → Option T
  find i [] = none
  find i ((j, t) ∷ rest) = if i == j then some t else find i rest

  -- `streams[i] = t`.
  unfoldable pub assign : ℕ → T → List (ℕ × T) → List (ℕ × T)
  assign i t [] = (i, t) ∷ []
  assign i t ((j, u) ∷ rest) = if i == j then (i, t) ∷ rest else (j, u) ∷ assign i t rest

  -- `streams.pop(i)`.
  unfoldable pub remove : ℕ → List (ℕ × T) → List (ℕ × T)
  remove i [] = []
  remove i ((j, u) ∷ rest) = if i == j then remove i rest else (j, u) ∷ remove i rest

  unfoldable pub keys : List (ℕ × T) → List ℕ
  keys [] = []
  keys ((j, u) ∷ rest) = j ∷ keys rest

  pub find-assign_self : (i : ℕ) (t : T) (s : List (ℕ × T)) → find i (assign i t s) ≡ some t
  unfolding find assign
  find-assign_self i t [] = ground arith
  find-assign_self i t ((j, u) ∷ rest) = ground (arith, find-assign_self i t rest)

  pub find-assign_ne :
      (i k : ℕ) (t : T) (s : List (ℕ × T)) → i ≢ k → find k (assign i t s) ≡ find k s
  unfolding find assign
  find-assign_ne i k t [] ne = ground (arith, ne)
  find-assign_ne i k t ((j, u) ∷ rest) ne = ground (arith, ne, find-assign_ne i k t rest ne)

  pub find-remove_self : (i : ℕ) (s : List (ℕ × T)) → find i (remove i s) ≡ none
  unfolding find remove
  find-remove_self i [] = refl
  find-remove_self i ((j, u) ∷ rest) = ground (arith, find-remove_self i rest)

  pub find-remove_ne : (i k : ℕ) (s : List (ℕ × T)) → i ≢ k → find k (remove i s) ≡ find k s
  unfolding find remove
  find-remove_ne i k [] ne = refl
  find-remove_ne i k ((j, u) ∷ rest) ne = ground (arith, ne, find-remove_ne i k rest ne)
