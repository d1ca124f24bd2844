-- ===== src/Middleware/Dispatcher/Tests.antt =====
-- Runs of a mounted application and of the lifespan of two mounts.
use hypercorn.Prelude.{◌≡◌, refl, true, List, [], ◌∷◌}
use hypercorn.Prelude.Bytes.{bytes_eq, ascii}
use hypercorn.Exec.{ok}
use hypercorn.Wsgi.Environ.{starts_with, path_info}
use hypercorn.Middleware.Dispatcher.{
  Message, startup_complete, init, drop_slashes, rstrip_slash, path_matches,
}
use hypercorn.Middleware.Dispatcher.Mounting.{IsBelow, mounted-IsBelow}
use hypercorn.Middleware.Dispatcher.Lifespan.{send_all}
use hypercorn.Middleware.Dispatcher.Marks.{keys, is_key, are_distinct, are_from}
use hypercorn.Middleware.Dispatcher.Completions.{PassedOn, send_all-PassedOn}
use hypercorn.Asgi.{Text}

no_slash : rstrip_slash (ascii "/app") ≡ ascii "/app"
unfolding rstrip_slash drop_slashes
no_slash = refl

matches : path_matches (ascii "/app/x") (ascii "/app") ≡ true
unfolding path_matches bytes_eq starts_with rstrip_slash drop_slashes
matches = refl

mounted-IsBelow_example :
    IsBelow (ascii "/app") (ascii "/app/x") (path_info (ascii "/app") (ascii "/app/x"))
mounted-IsBelow_example = mounted-IsBelow (ascii "/app") (ascii "/app/x") no_slash matches

abbrev both : List (Text × Message)
both = (ascii "/a", startup_complete) ∷ (ascii "/b", startup_complete) ∷ []

both_distinct : are_distinct (keys ((ascii "/a", tt) ∷ (ascii "/b", tt) ∷ [])) ≡ true
unfolding are_distinct keys is_key bytes_eq
both_distinct = refl

both_from : are_from (keys ((ascii "/a", tt) ∷ (ascii "/b", tt) ∷ [])) both ≡ true
unfolding are_from keys is_key bytes_eq
both_from = refl

send_all-PassedOn_example :
    PassedOn
      ((ascii "/a", tt) ∷ (ascii "/b", tt) ∷ [])
      both
      (send_all both (init ((ascii "/a", tt) ∷ (ascii "/b", tt) ∷ [])))
send_all-PassedOn_example =
    send_all-PassedOn (ascii "/a", tt) ((ascii "/b", tt) ∷ []) both both_distinct both_from

-- Behind a mount that ends in a slash, the path info of a WSGI application has lost its slash.
slash_mount : path_info (ascii "/") (ascii "/x") ≡ ok (ascii "x")
unfolding path_info starts_with
slash_mount = refl
