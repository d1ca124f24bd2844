-- ===== src/Middleware/Dispatcher/Mounting.antt =====
-- middleware/dispatcher.py and app_wrappers.py: a WSGI application behind a mount.
use hypercorn.Prelude.{
  ◌≡◌, refl, sym, ap, subst, ◌∙◌, ◌⊎◌, inl, inr, true, [], ◌∷◌, ◌++◌, length, drop, is_nil,
  append-nil, append_assoc, drop-append_length, if_split, if◌then◌else◌,
}
use hypercorn.Prelude.Bytes.{bytes_eq, bytes_eq→eq}
use hypercorn.Exec.{Result, ok, err, invalid_path}
use hypercorn.Asgi.{Text}
use hypercorn.Wsgi.Environ.{starts_with, path_info}
use hypercorn.Wsgi.Prefix.{starts_with-append, starts_with-drop}
use hypercorn.Middleware.Dispatcher.{slash, rstrip_slash, path_matches}

-- A path info that begins with a slash and, after the root path, makes the path, or the slash that
-- stands for the root itself.
abbrev pub IsBelow : Text → Text → Result Text → Type 0
IsBelow root path (ok (c ∷ below)) =
    (c ≡ b'/') × ((root ++ c ∷ below ≡ path) ⊎ ((root ≡ path) × (below ≡ [])))
IsBelow root path (ok []) = ⊥
IsBelow root path (err e) = ⊥

path_info-append :
    (root rest : Text) → path_info root (root ++ rest) ≡ ok (if is_nil rest then slash else rest)
unfolding path_info
path_info-append root rest =
    ap
      (λ b.
        if b
        then ok
            (let below = drop (length root) (root ++ rest) in if is_nil below then slash else below)
        else err invalid_path)
      (starts_with-append root rest)
    ∙ ap (λ below. ok (if is_nil below then slash else below)) (drop-append_length root rest)

root-IsBelow : (root : Text) → IsBelow root root (path_info root root)
root-IsBelow root =
    subst (λ p. IsBelow root root (path_info root p)) (append-nil root)
      (subst (IsBelow root root) (sym (path_info-append root [])) (refl, inr (refl, refl)))

slashed-IsBelow :
    (root rest : Text) → IsBelow root (root ++ b'/' ∷ rest) (path_info root (root ++ b'/' ∷ rest))
slashed-IsBelow root rest =
    subst (IsBelow root (root ++ b'/' ∷ rest)) (sym (path_info-append root (b'/' ∷ rest)))
      (refl, inl refl)

-- A mount that ends in no slash is not the slash.
not_slash : (mount : Text) → rstrip_slash mount ≡ mount → bytes_eq mount slash ≡ true → ⊥
unfolding rstrip_slash
not_slash mount no_slash is_slash =
    let stripped : rstrip_slash slash ≡ slash =
      subst (λ m. rstrip_slash m ≡ m) (bytes_eq→eq mount slash is_slash) no_slash in
    absurd cc

prefix-IsBelow :
    (mount path : Text)
    → starts_with (mount ++ slash) path ≡ true
    → IsBelow mount path (path_info mount path)
prefix-IsBelow mount path starts =
    let rest = drop (length (mount ++ slash)) path in
    subst (λ p. IsBelow mount p (path_info mount p))
      (sym (append_assoc mount slash rest) ∙ starts_with-drop (mount ++ slash) path starts)
      (slashed-IsBelow mount rest)

-- A WSGI application that is mounted at a path that does not end in a slash, and has no root path
-- before it, is given, with every request that is dispatched to it, a path info that begins with a
-- slash and, after the mount, is the path again (or the slash where the path is the mount).
pub mounted-IsBelow :
    (mount path : Text)
    → rstrip_slash mount ≡ mount
    → path_matches path mount ≡ true
    → IsBelow mount path (path_info mount path)
unfolding path_matches
mounted-IsBelow mount path no_slash =
    if_split (λ b. b ≡ true → IsBelow mount path (path_info mount path)) (bytes_eq path mount)
      (λ same matches.
        subst (λ p. IsBelow mount p (path_info mount p)) (sym (bytes_eq→eq path mount same))
          (root-IsBelow mount))
      (λ other.
        if_split (λ b. b ≡ true → IsBelow mount path (path_info mount path)) (bytes_eq mount slash)
          (λ is_slash matches. absurd (not_slash mount no_slash is_slash))
          (λ no_root matches.
            prefix-IsBelow mount path
              (subst (λ m. starts_with (m ++ slash) path ≡ true) no_slash matches)))
