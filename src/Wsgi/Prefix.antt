-- ===== src/Wsgi/Prefix.antt =====
-- app_wrappers.py: the path of a request below the root path of the application.
use hypercorn.Prelude.{
  ◌≡◌, ◌≢◌, refl, sym, ◌∙◌, ◌⊎◌, inl, inr, true, [], ◌∷◌, ◌++◌, length, drop, is_nil, append-nil,
  if_split, if◌then◌else◌, arith,
}
use hypercorn.Exec.{invalid_path, Result, ok, err}
use hypercorn.Asgi.{Text}
use hypercorn.Wsgi.Environ.{starts_with, path_info}

pub starts_with-append : (prefix rest : Text) → starts_with prefix (prefix ++ rest) ≡ true
unfolding starts_with
starts_with-append [] rest = refl
starts_with-append (c ∷ prefix) rest = ground (arith, starts_with-append prefix rest)

pub starts_with-drop :
    (prefix path : Text)
    → starts_with prefix path ≡ true
    → prefix ++ drop (length prefix) path ≡ path
unfolding starts_with
starts_with-drop [] path e = refl
starts_with-drop (c ∷ prefix) [] e = absurd (ground arith)
starts_with-drop (c ∷ prefix) (d ∷ path) e = ground (arith, starts_with-drop prefix path)

abbrev pub slash : Text
slash = b'/' ∷ []

-- Root path and path info make the path, but for the root itself, whose path info is a slash. Only a
-- path that does not begin with the root path is refused.
abbrev pub PathOk : Text → Text → Result Text → Type 0
PathOk root path (ok info) = (root ++ info ≡ path) ⊎ ((root ≡ path) × (info ≡ slash))
PathOk root path (err e) = (e ≡ invalid_path) × ((rest : Text) → path ≢ root ++ rest)

below_root :
    (root path below : Text)
    → root ++ below ≡ path
    → PathOk root path (ok (if is_nil below then slash else below))
below_root root path [] e = inr (sym (append-nil root) ∙ e, refl)
below_root root path (c ∷ below) e = inl e

-- The path info of a request, after the root path, is its path again, but for the root itself, where
-- it is a slash; the request is refused with InvalidPathError exactly when its path does not begin
-- with the root path.
pub path_info-PathOk : (root path : Text) → PathOk root path (path_info root path)
unfolding path_info
path_info-PathOk root path =
    if_split (PathOk root path) (starts_with root path)
      (λ e. below_root root path (drop (length root) path) (starts_with-drop root path e))
      (λ e. (refl, λ rest at. ground (arith, e, at, starts_with-append root rest)))
