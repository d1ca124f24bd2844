-- ===== src/QueuedStream/Merging.antt =====
-- protocol/queued_stream.py: the shape of a queued event, and what a merge with the last event of
-- the queue does to the byte count.
use hypercorn.Prelude.{
  ℕ, ◌+◌, ◌≡◌, refl, inl, inr, Bool, true, false, Option, none, some, List, [], ◌∷◌, arith, length,
  total, total-append, All, is_nil, Bool-cases,
}
use hypercorn.Prelude.Bytes.{Bytes}
use hypercorn.Events.{Event, request, body, ws_data}
use hypercorn.QueuedStream.{
  QueuedEvent, Callback, create, append, merge_last, Merge, merged, unmerged, type_error,
  merge_queued_events, same_kind, of_append, alone, behind,
}

abbrev pub carries : Event → Bool
carries (body i d) = true
carries (ws_data i d) = true
carries e = false

abbrev pub Shape : Bool → Option (List Bytes) → ℕ → Type 0
Shape true (some ds) n = total length ds ≡ n
Shape false none n = n ≡ 0
Shape _ _ n = ⊥

-- Events with data have chunks of the recorded size, and the others have none.
abbrev pub WellFormed : QueuedEvent → Type 0
WellFormed q = Shape (carries q.event) q.chunks q.byte_size

pub create-WellFormed : (e : Event) (c : Option Callback) → WellFormed (create e c)
unfolding create
create-WellFormed (body i d) c = omega arith
create-WellFormed (ws_data i d) c = omega arith
create-WellFormed (request i hs v m p st) c = refl
create-WellFormed e c = refl

abbrev pub sizes : List QueuedEvent → ℕ
sizes = total (λ q. q.byte_size)

abbrev Appended : QueuedEvent → QueuedEvent → Merge QueuedEvent → Type 0
Appended q other (merged r) = (r.byte_size ≡ q.byte_size + other.byte_size) × WellFormed r
Appended q other unmerged = Unit {0}
Appended q other type_error = ⊥

Shape-some :
    (o : Option (List Bytes)) (n : ℕ)
    → Shape true o n
    → (ds : List Bytes) × (o ≡ some ds) × (total length ds ≡ n)
Shape-some (some ds) n h = (ds, refl, h)
Shape-some none n h = absurd h

append-Shape :
    (q other : QueuedEvent)
    → carries q.event ≡ true
    → Shape true q.chunks q.byte_size
    → Shape true other.chunks other.byte_size
    → Appended q other (of_append (append q other))
unfolding append
append-Shape q other k h i =
    let (ds, e, t) = Shape-some q.chunks q.byte_size h in
    let (ds', e', t') = Shape-some other.chunks other.byte_size i in
    ground (arith, e, e', t, t', k, total-append {A = Bytes} length ds ds')

merge_kinds :
    (q other : QueuedEvent)
    → same_kind q.event other.event ≡ true
    → (carries q.event ≡ true) × (carries other.event ≡ true)
merge_kinds q other h = ground arith

merge-Appended :
    (q other : QueuedEvent)
    → WellFormed q
    → WellFormed other
    → Appended q other (merge_queued_events q other)
unfolding merge_queued_events
merge-Appended q other f g = elim (Bool-cases (same_kind q.event other.event)) [
  | inl e ↦
      let (mine, theirs) = merge_kinds q other e in
      rw e (append-Shape q other mine (rw mine at f) (rw theirs at g))
  | inr e ↦ rw e tt
]

-- A merge adds the bytes to the last event, and the number of events stays.
abbrev pub Merging : List QueuedEvent → QueuedEvent → Merge (List QueuedEvent) → Type 0
Merging xs q (merged ys) =
    (sizes ys ≡ sizes xs + q.byte_size)
    × All WellFormed ys
    × (length ys ≡ length xs)
    × (is_nil ys ≡ is_nil xs)
Merging xs q unmerged = Unit {0}
Merging xs q type_error = ⊥

alone-Merging :
    (x q : QueuedEvent) (m : Merge QueuedEvent) → Appended x q m → Merging (x ∷ []) q (alone m)
alone-Merging x q (merged y) a = (omega arith, (a.1, tt), refl, refl)
alone-Merging x q unmerged a = tt
alone-Merging x q type_error a = a

behind-Merging :
    (x q : QueuedEvent) (xs : List QueuedEvent) (m : Merge (List QueuedEvent))
    → WellFormed x
    → Merging xs q m
    → Merging (x ∷ xs) q (behind x m)
behind-Merging x q xs (merged ys) w m = (omega arith, (w, m.1), omega arith, refl)
behind-Merging x q xs unmerged w m = tt
behind-Merging x q xs type_error w m = m

pub merge_last-Merging :
    (xs : List QueuedEvent) (q : QueuedEvent)
    → All WellFormed xs
    → WellFormed q
    → Merging xs q (merge_last xs q)
unfolding merge_last
merge_last-Merging [] q ws w = tt
merge_last-Merging (x ∷ []) q ws w = alone-Merging x q _ (merge-Appended x q ws.0 w)
merge_last-Merging (x ∷ y ∷ rest) q ws w =
    behind-Merging x q (y ∷ rest) _ ws.0 (merge_last-Merging (y ∷ rest) q ws.1 w)

pub merge_last_empty :
    (xs : List QueuedEvent) (q : QueuedEvent) → is_nil xs ≡ true → merge_last xs q ≡ unmerged
unfolding merge_last
merge_last_empty [] q h = refl
merge_last_empty (x ∷ xs) q h = cc
