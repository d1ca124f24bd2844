-- ===== src/Middleware/Dispatcher/Marks.antt =====
-- middleware/dispatcher.py: what the mounts have sent, and the flags that it sets.
use hypercorn.Prelude.{
  ◌≡◌, refl, sym, ap, subst, ◌∙◌, Bool, true, false, not, ◌&&◌, ◌||◌, List, [], ◌∷◌, if_split,
  arith,
}
use hypercorn.Prelude.Bytes.{bytes_eq, bytes_eq→eq}
use hypercorn.Asgi.{Text}
use hypercorn.Middleware.Dispatcher.{Message, Flags, set_flag}
use hypercorn.Middleware.Dispatcher.Lifespan.{same_message}

-- A mount has sent a message, and every mount has.
unfoldable pub mount_sent : Message → Text → List (Text × Message) → Bool
mount_sent m path [] = false
mount_sent m path ((p, n) ∷ rest) = (bytes_eq p path && same_message n m) || mount_sent m path rest

unfoldable pub all_sent : {A : Type 0} → Message → List (Text × A) → List (Text × Message) → Bool
unfolding mount_sent
all_sent m [] messages = true
all_sent m ((path, app) ∷ rest) messages = mount_sent m path messages && all_sent m rest messages

-- The keys of a dict.
unfoldable pub keys : {A : Type 0} → List (Text × A) → List Text
keys [] = []
keys ((p, a) ∷ rest) = p ∷ keys rest

unfoldable pub is_key : Text → List Text → Bool
is_key path [] = false
is_key path (p ∷ ps) = bytes_eq path p || is_key path ps

unfoldable pub are_distinct : List Text → Bool
unfolding is_key
are_distinct [] = true
are_distinct (p ∷ ps) = not (is_key p ps) && are_distinct ps

-- Every message is sent by one of the mounts.
unfoldable pub are_from : List Text → List (Text × Message) → Bool
unfolding is_key
are_from ps [] = true
are_from ps ((path, m) ∷ rest) = is_key path ps && are_from ps rest

-- The flags that the messages set.
unfoldable pub marks : Message → List (Text × Message) → Flags → Flags
unfolding mount_sent
marks m messages [] = []
marks m messages ((p, b) ∷ rest) = (p, b || mount_sent m p messages) ∷ marks m messages rest

pub keys-set_flag :
    (path : Text) (flags : Flags)
    → is_key path (keys flags) ≡ true
    → keys (set_flag path flags) ≡ keys flags
unfolding keys is_key set_flag
keys-set_flag path [] known = absurd cc
keys-set_flag path ((p, b) ∷ rest) known =
    if_split (λ (l : Flags). keys l ≡ p ∷ keys rest) (bytes_eq path p) (λ same. refl)
      (λ other. ap (λ l. p ∷ l) (keys-set_flag path rest (ground (arith, known, other))))

pub marks_none : (m : Message) (flags : Flags) → marks m [] flags ≡ flags
unfolding marks mount_sent
marks_none m [] = refl
marks_none m ((p, true) ∷ rest) = ap (λ l. (p, true) ∷ l) (marks_none m rest)
marks_none m ((p, false) ∷ rest) = ap (λ l. (p, false) ∷ l) (marks_none m rest)

-- A message of another kind, or of no mount here, sets none.
no_mark :
    (m n : Message) (path p : Text) (rest : List (Text × Message))
    → (bytes_eq path p && same_message n m) ≡ false
    → mount_sent m p ((path, n) ∷ rest) ≡ mount_sent m p rest
unfolding mount_sent
no_mark m n path p rest none_set = ap (λ b. b || mount_sent m p rest) none_set

and_false : (b : Bool) → (b && false) ≡ false
and_false true = refl
and_false false = refl

pub marks_other :
    (m n : Message) (path : Text) (rest : List (Text × Message)) (flags : Flags)
    → same_message n m ≡ false
    → marks m ((path, n) ∷ rest) flags ≡ marks m rest flags
unfolding marks
marks_other m n path rest [] differ = refl
marks_other m n path rest ((p, b) ∷ flags) differ =
    ap (λ c. (p, b || c) ∷ marks m ((path, n) ∷ rest) flags)
      (no_mark m n path p rest
        (ap (λ c. bytes_eq path p && c) differ ∙ and_false (bytes_eq path p)))
    ∙ ap (λ l. (p, b || mount_sent m p rest) ∷ l) (marks_other m n path rest flags differ)

marks_absent :
    (m n : Message) (path : Text) (rest : List (Text × Message)) (flags : Flags)
    → is_key path (keys flags) ≡ false
    → marks m ((path, n) ∷ rest) flags ≡ marks m rest flags
unfolding marks keys is_key
marks_absent m n path rest [] absent = refl
marks_absent m n path rest ((p, b) ∷ flags) absent =
    ap (λ c. (p, b || c) ∷ marks m ((path, n) ∷ rest) flags)
      (no_mark m n path p rest (ground (arith, absent)))
    ∙ ap (λ l. (p, b || mount_sent m p rest) ∷ l)
        (marks_absent m n path rest flags (ground (arith, absent)))

mark_here :
    (m : Message) (path p : Text) (b : Bool) (rest : List (Text × Message))
    → bytes_eq path p ≡ true
    → same_message m m ≡ true
    → (b || mount_sent m p ((path, m) ∷ rest)) ≡ true
unfolding mount_sent
mark_here m path p b rest same self = ground (arith, same, self)

mark_elsewhere :
    (m : Message) (path p : Text) (rest : List (Text × Message))
    → bytes_eq path p ≡ false
    → mount_sent m p ((path, m) ∷ rest) ≡ mount_sent m p rest
mark_elsewhere m path p rest other = no_mark m m path p rest (ap (λ c. c && same_message m m) other)

-- `flags[path] = True` is the mark of a message of `path`.
pub marks-set_flag :
    (m : Message) (path : Text) (rest : List (Text × Message)) (flags : Flags)
    → same_message m m ≡ true
    → is_key path (keys flags) ≡ true
    → are_distinct (keys flags) ≡ true
    → marks m rest (set_flag path flags) ≡ marks m ((path, m) ∷ rest) flags
unfolding marks keys is_key are_distinct set_flag
marks-set_flag m path rest [] self known apart = absurd cc
marks-set_flag m path rest ((p, b) ∷ flags) self known apart =
    if_split (λ (l : Flags). marks m rest l ≡ marks m ((path, m) ∷ rest) ((p, b) ∷ flags))
      (bytes_eq path p)
      (λ same.
        ap (λ c. (p, c) ∷ marks m rest flags) (sym (mark_here m path p b rest same self))
        ∙ ap (λ l. (p, b || mount_sent m p ((path, m) ∷ rest)) ∷ l)
            (sym (
              marks_absent m m path rest flags (
                subst (λ q. is_key q (keys flags) ≡ false) (sym (bytes_eq→eq path p same))
                  (ground (arith, apart))))))
      (λ other.
        ap (λ c. (p, b || c) ∷ marks m rest (set_flag path flags))
          (sym (mark_elsewhere m path p rest other))
        ∙ ap (λ l. (p, b || mount_sent m p ((path, m) ∷ rest)) ∷ l)
            (marks-set_flag m path rest flags self (ground (arith, known, other))
              (ground (arith, apart))))
