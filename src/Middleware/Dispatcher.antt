-- ===== src/Middleware/Dispatcher.antt =====
-- middleware/dispatcher.py: the mount that a request is given to, and the lifespan messages of the
-- mounts. The dispatchers of asyncio and trio share all of it but their queues.
pub mod Mounting
pub mod Lifespan
pub mod Marks
pub mod Completions
mod Tests
use hypercorn.Prelude.{
  ℕ, Bool, true, false, ◌&&◌, ◌||◌, List, [], ◌∷◌, ◌++◌, reverse, ◌==◌, if◌then◌else◌,
}
use hypercorn.Prelude.Bytes.{bytes_eq}
use hypercorn.Asgi.{Text}
use hypercorn.Wsgi.Environ.{starts_with}

abbrev pub slash : Text
slash = b'/' ∷ []

unfoldable pub drop_slashes : Text → Text
drop_slashes [] = []
drop_slashes (c ∷ s) = let rest = drop_slashes s in if c == b'/' then rest else c ∷ s

-- `.rstrip("/")`.
unfoldable pub rstrip_slash : Text → Text
unfolding drop_slashes
rstrip_slash s = reverse (drop_slashes (reverse s))

unfoldable pub path_matches : Text → Text → Bool
unfolding bytes_eq rstrip_slash starts_with
path_matches path mount_path =
    if bytes_eq path mount_path
    then true
    else if bytes_eq mount_path slash
    then starts_with slash path
    else starts_with (rstrip_slash mount_path ++ slash) path

-- What becomes of a request: an application with its new root path, or the response 404.
pub data Outcome (A : Type 0) : Type 0 where
  given_to : A → Text → Outcome A
  not_found : Outcome A

-- The loop over the mounts.
unfoldable pub dispatch : {A : Type 0} → Text → Text → List (Text × A) → Outcome A
unfolding path_matches
dispatch root_path path [] = not_found
dispatch root_path path ((mount_path, app) ∷ rest) =
    let others = dispatch root_path path rest in
    if path_matches path mount_path then given_to app (root_path ++ mount_path) else others

-- The lifespan messages that are told apart, and the others.
pub data Message : Type 0 where
  startup_complete shutdown_complete other_message : Message

abbrev pub Flags : Type 0
Flags = List (Text × Bool)

-- The attributes of a lifespan, and the messages passed on.
pub record Dispatcher : Type 0 where
  pub startups : Flags
  pub shutdowns : Flags
  pub sent : List Message

unfoldable pub none_complete : {A : Type 0} → List (Text × A) → Flags
none_complete [] = []
none_complete ((path, app) ∷ rest) = (path, false) ∷ none_complete rest

unfoldable pub init : {A : Type 0} → List (Text × A) → Dispatcher
unfolding none_complete
init mounts = record {
  startups = none_complete mounts;
  shutdowns = none_complete mounts;
  sent = [];
}

-- `flags[path] = True`.
unfoldable pub set_flag : Text → Flags → Flags
unfolding bytes_eq
set_flag path [] = (path, true) ∷ []
set_flag path ((p, b) ∷ rest) =
    let others = set_flag path rest in if bytes_eq path p then (p, true) ∷ rest else (p, b) ∷ others

-- `all(flags.values())`.
unfoldable pub all_set : Flags → Bool
all_set [] = true
all_set ((p, b) ∷ rest) = b && all_set rest

abbrev pub if_all : Flags → Message → List Message → List Message
if_all flags m messages = if all_set flags then messages ++ m ∷ [] else messages

unfoldable pub send : Text → Message → Dispatcher → Dispatcher
unfolding set_flag all_set
send path startup_complete s =
    let flags = set_flag path s.startups in
    record s { startups = flags; sent = if_all flags startup_complete s.sent }
send path shutdown_complete s =
    let flags = set_flag path s.shutdowns in
    record s { shutdowns = flags; sent = if_all flags shutdown_complete s.sent }
send path other_message s = s
