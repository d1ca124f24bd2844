-- ===== src/QueuedStream/Gather.antt =====
-- protocol/queued_stream.py: merging and queueing neither lose, reorder nor invent data.
use hypercorn.Prelude.{
  ◌+◌, ◌&&◌, ◌≡◌, refl, sym, ap, ◌∙◌, inl, inr, true, some, List, [], ◌∷◌, ◌++◌, map, map-append,
  append-nil, append_assoc, arith, join, join-append, Bool-cases, Option-cases, ℕ, if_both,
}
use hypercorn.Prelude.Bytes.{Bytes}
use hypercorn.Events.{Event, body, ws_data}
use hypercorn.QueuedStream.{
  QueuedEvent, QueuedStream, Outcome, accepted, full, raised, append, materialize, rebuilt, joined,
  same_kind, Merge, merged, unmerged, type_error, merge_queued_events, merge_last, of_append, alone,
  behind, put_merged, try_put, merging, has_byte_space, has_count_space,
}

-- An event as the stream sees it: a `Body` or a `Data` is its bytes.
pub data Token : Type 0 where
  body_byte : ℕ → Token
  ws_byte : ℕ → Token
  whole : Event → Token

abbrev pub byte_token : Event → ℕ → Token
byte_token (body i d) = body_byte
byte_token e = ws_byte

abbrev pub view : Event → List Token
view (body i d) = map body_byte d
view (ws_data i d) = map ws_byte d
view e = whole e ∷ []

unfoldable pub tokens : QueuedEvent → List Token
tokens q = view (materialize q)

joined-join : (ds : List Bytes) → joined ds ≡ join ds
joined-join [] = refl
joined-join (d ∷ []) = sym (append-nil d)
joined-join (d ∷ e ∷ ds) = refl

view-rebuilt : (e : Event) (d : Bytes) → view (rebuilt e d) ≡ map (byte_token e) d
view-rebuilt (body i _) d = refl
view-rebuilt e d = refl

tokens-chunks :
    (q : QueuedEvent) (ds : List Bytes)
    → q.chunks ≡ some ds
    → tokens q ≡ map (byte_token q.event) (join ds)
unfolding tokens materialize
tokens-chunks q ds e =
    rw (e, materialize)
      (ap view (ap (rebuilt q.event) (joined-join ds)) ∙ view-rebuilt q.event (join ds))

unfoldable pub gather {ℓ} : {B : Type ℓ} → (QueuedEvent → List B) → List QueuedEvent → List B
gather f [] = []
gather f (q ∷ qs) = f q ++ gather f qs

pub gather-append {ℓ} :
    {B : Type ℓ} (f : QueuedEvent → List B) (xs ys : List QueuedEvent)
    → gather f (xs ++ ys) ≡ gather f xs ++ gather f ys
unfolding gather
gather-append f [] ys = refl
gather-append f (x ∷ xs) ys = rw (gather-append f xs ys, append_assoc (f x))

abbrev Joins {ℓ} :
    {B : Type ℓ} → (QueuedEvent → List B) → QueuedEvent → QueuedEvent → Merge QueuedEvent → Type ℓ
Joins f q other (merged r) = f r ≡ f q ++ f other
Joins f q other unmerged = Unit
Joins f q other type_error = Unit

-- What a merge of two events concatenates.
abbrev pub IsContent {ℓ} : {B : Type ℓ} → (QueuedEvent → List B) → Type ℓ
IsContent f = (q other : QueuedEvent) → Joins f q other (merge_queued_events q other)

append-callbacks :
    (q other : QueuedEvent) → Joins (λ r. r.callbacks) q other (of_append (append q other))
unfolding append
append-callbacks q other = ground arith

pub callbacks-IsContent : IsContent (λ r. r.callbacks)
unfolding merge_queued_events
callbacks-IsContent q other =
    if_both (Joins (λ r. r.callbacks) q other) (same_kind q.event other.event)
      (append-callbacks q other) tt

same_token : (e d : Event) → same_kind e d ≡ true → byte_token e ≡ byte_token d
same_token e d h = ground arith

append-some :
    (q other : QueuedEvent) (mine theirs : List Bytes)
    → q.chunks ≡ some mine
    → other.chunks ≡ some theirs
    → append q other
      ≡ some (record q {
        chunks = some (mine ++ theirs);
        callbacks = q.callbacks ++ other.callbacks;
        byte_size = q.byte_size + other.byte_size;
      })
unfolding append
append-some q other mine theirs e d = ground arith

append-tokens :
    (q other : QueuedEvent)
    → same_kind q.event other.event ≡ true
    → Joins tokens q other (of_append (append q other))
unfolding append
append-tokens q other h = elim (Option-cases q.chunks) [
  | inl e ↦ ground (arith, e)
  | inr (mine, e) ↦ elim (Option-cases other.chunks) [
    | inl d ↦ ground (arith, e, d)
    | inr (theirs, d) ↦
        let r : QueuedEvent = record q {
          chunks = some (mine ++ theirs);
          callbacks = q.callbacks ++ other.callbacks;
          byte_size = q.byte_size + other.byte_size;
        } in
        rw (
          append-some q other mine theirs e d,
          tokens-chunks r (mine ++ theirs) refl,
          tokens-chunks q mine e,
          tokens-chunks other theirs d,
          join-append mine theirs,
          map-append (byte_token q.event) (join mine) (join theirs),
          same_token q.event other.event h,
        )
  ]
]

pub tokens-IsContent : IsContent tokens
unfolding merge_queued_events
tokens-IsContent q other = elim (Bool-cases (same_kind q.event other.event)) [
  | inl e ↦ rw e (append-tokens q other e)
  | inr e ↦ rw e tt
]

module _ {ℓ} {B : Type ℓ} (f : QueuedEvent → List B) (law : IsContent f) where
  abbrev Merges : List QueuedEvent → QueuedEvent → Merge (List QueuedEvent) → Type ℓ
  Merges xs q (merged ys) = gather f ys ≡ gather f xs ++ f q
  Merges xs q unmerged = Unit
  Merges xs q type_error = Unit

  alone-Merges :
      (x q : QueuedEvent) (m : Merge QueuedEvent) → Joins f x q m → Merges (x ∷ []) q (alone m)
  unfolding gather
  alone-Merges x q (merged y) j = rw (append-nil (f y), append-nil (f x)) j
  alone-Merges x q unmerged j = tt
  alone-Merges x q type_error j = tt

  behind-Merges :
      (x q : QueuedEvent) (xs : List QueuedEvent) (m : Merge (List QueuedEvent))
      → Merges xs q m
      → Merges (x ∷ xs) q (behind x m)
  unfolding gather
  behind-Merges x q xs (merged ys) m = rw (m, append_assoc (f x))
  behind-Merges x q xs unmerged m = tt
  behind-Merges x q xs type_error m = tt

  merge_last-Merges : (xs : List QueuedEvent) (q : QueuedEvent) → Merges xs q (merge_last xs q)
  unfolding merge_last
  merge_last-Merges [] q = tt
  merge_last-Merges (x ∷ []) q = alone-Merges x q _ (law x q)
  merge_last-Merges (x ∷ y ∷ rest) q =
      behind-Merges x q (y ∷ rest) _ (merge_last-Merges (y ∷ rest) q)

  -- An accepted event adds its content at the end, merged or not; any other turn changes nothing.
  abbrev pub Takes : QueuedStream → QueuedEvent → QueuedStream × Outcome → Type ℓ
  Takes s q (t, accepted) = gather f t.queue ≡ gather f s.queue ++ f q
  Takes s q (t, full) = gather f t.queue ≡ gather f s.queue
  Takes s q (t, raised) = gather f t.queue ≡ gather f s.queue

  put_merged-Takes :
      (s : QueuedStream) (q : QueuedEvent) (m : Merge (List QueuedEvent))
      → Merges s.queue q m
      → Takes s q (put_merged s q m)
  unfolding put_merged gather
  put_merged-Takes s q (merged ys) m = m
  put_merged-Takes s q unmerged m =
      if_both (Takes s q) (has_count_space s && has_byte_space s q)
        (gather-append f s.queue (q ∷ []) ∙ ap (◌++◌ (gather f s.queue)) (append-nil (f q))) refl
  put_merged-Takes s q type_error m = refl

  pub try_put-Takes : (s : QueuedStream) (q : QueuedEvent) → Takes s q (try_put s q)
  unfolding try_put
  try_put-Takes s q =
      put_merged-Takes s q (merging s q)
        (if_both (Merges s.queue q) (has_byte_space s q) (merge_last-Merges s.queue q) tt)
