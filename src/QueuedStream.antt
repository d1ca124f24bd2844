-- ===== src/QueuedStream.antt =====
-- protocol/queued_stream.py: the bounded queue between a connection's reader and a stream. The
-- methods are cut at their awaits on `_has_space`, `_has_events`, the stream and the callbacks,
-- which are the places where asyncio changes task; `QueuedStream.Tasks` puts the pieces together.
pub mod Merging
pub mod Bounds
pub mod Gather
pub mod Tasks
mod Tests
use hypercorn.Prelude.{
  ℕ, ◌+◌, ◌-◌, Bool, true, false, not, ◌&&◌, ◌||◌, Option, none, some, List, [], ◌∷◌, ◌++◌, length,
  join, is_nil, ltb, leb, ◌==◌, if◌then◌else◌,
}
use hypercorn.Prelude.Bytes.{Bytes}
use hypercorn.Events.{
  Event, request, body, end_body, trailers, ws_data, end_data, response, informational_response,
  stream_closed, stream_id,
}

-- A callback is the name of a closure; the queue only keeps and calls it.
abbrev pub Callback : Type 0
Callback = ℕ

pub record QueuedEvent : Type 0 where
  pub event : Event
  pub callbacks : List Callback
  pub chunks : Option (List Bytes)
  pub byte_size : ℕ

abbrev pub callback_list : Option Callback → List Callback
callback_list none = []
callback_list (some c) = c ∷ []

abbrev pub carrying : Event → List Callback → Bytes → QueuedEvent
carrying e cs d = record { event = e; callbacks = cs; chunks = some (d ∷ []); byte_size = length d }

abbrev pub plain : Event → List Callback → QueuedEvent
plain e cs = record { event = e; callbacks = cs; chunks = none; byte_size = 0 }

unfoldable pub create : Event → Option Callback → QueuedEvent
create (body i d) c = carrying (body i d) (callback_list c) d
create (ws_data i d) c = carrying (ws_data i d) (callback_list c) d
create e c = plain e (callback_list c)

-- `none` is the TypeError.
unfoldable pub append : QueuedEvent → QueuedEvent → Option QueuedEvent
append q other = elim q.chunks [
  | none ↦ none
  | some mine ↦ elim other.chunks [
    | none ↦ none
    | some theirs ↦ some (record q {
      chunks = some (mine ++ theirs);
      callbacks = q.callbacks ++ other.callbacks;
      byte_size = q.byte_size + other.byte_size;
    })
  ]
]

abbrev pub joined : List Bytes → Bytes
joined (d ∷ []) = d
joined ds = join ds

abbrev pub rebuilt : Event → Bytes → Event
rebuilt (body i d) bytes = body i bytes
rebuilt e bytes = ws_data (stream_id e) bytes

unfoldable pub materialize : QueuedEvent → Event
unfolding stream_id
materialize q = elim q.chunks [ none ↦ q.event | some ds ↦ rebuilt q.event (joined ds) ]

-- Both are `Body`, or both are `Data`.
abbrev pub same_kind : Event → Event → Bool
same_kind (body i d) (body j e) = true
same_kind (ws_data i d) (ws_data j e) = true
same_kind _ _ = false

-- What `_merge_queued_events` does to its first argument, or its `False`.
pub data Merge {ℓ} (A : Type ℓ) : Type ℓ where
  merged : A → Merge A
  unmerged : Merge A
  type_error : Merge A

abbrev pub of_append : Option QueuedEvent → Merge QueuedEvent
of_append none = type_error
of_append (some q) = merged q

unfoldable pub merge_queued_events : QueuedEvent → QueuedEvent → Merge QueuedEvent
unfolding append
merge_queued_events first second =
    if same_kind first.event second.event then of_append (append first second) else unmerged

abbrev pub behind {ℓ} : {A : Type ℓ} → A → Merge (List A) → Merge (List A)
behind x (merged xs) = merged (x ∷ xs)
behind x unmerged = unmerged
behind x type_error = type_error

abbrev pub alone {ℓ} : {A : Type ℓ} → Merge A → Merge (List A)
alone (merged x) = merged (x ∷ [])
alone unmerged = unmerged
alone type_error = type_error

-- `if self._queue: … _merge_queued_events(self._queue[-1], queued_event)`.
unfoldable pub merge_last : List QueuedEvent → QueuedEvent → Merge (List QueuedEvent)
unfolding merge_queued_events
merge_last [] q = unmerged
merge_last (x ∷ []) q = alone (merge_queued_events x q)
merge_last (x ∷ y ∷ rest) q = behind x (merge_last (y ∷ rest) q)

pub record QueuedStream : Type 0 where
  pub closed : Bool
  pub has_events : Bool
  pub has_space : Bool
  pub queued_bytes : ℕ
  pub max_queue_bytes : ℕ
  pub max_queue_size : ℕ
  pub queue : List QueuedEvent

unfoldable pub init : ℕ → ℕ → QueuedStream
init max_queue_size max_queue_bytes = record {
  closed = false;
  has_events = false;
  has_space = false;
  queued_bytes = 0;
  max_queue_bytes = max_queue_bytes;
  max_queue_size = max_queue_size;
  queue = [];
}

abbrev pub has_count_space : QueuedStream → Bool
has_count_space s = s.max_queue_size == 0 || ltb (length s.queue) s.max_queue_size

abbrev pub has_byte_space : QueuedStream → QueuedEvent → Bool
has_byte_space s q =
    s.max_queue_bytes == 0
    || is_nil s.queue && s.queued_bytes == 0
    || leb (s.queued_bytes + q.byte_size) s.max_queue_bytes

-- How one turn of the loop in `handle` ends: it returns, goes to wait for space, or raises.
pub data Outcome : Type 0 where
  accepted full raised : Outcome

abbrev pub merging : QueuedStream → QueuedEvent → Merge (List QueuedEvent)
merging s q = if has_byte_space s q then merge_last s.queue q else unmerged

put_merged : QueuedStream → QueuedEvent → Merge (List QueuedEvent) → QueuedStream × Outcome
put_merged s q (merged queue) = (
  record s { queue = queue; queued_bytes = s.queued_bytes + q.byte_size; has_events = true },
  accepted,
)
put_merged s q unmerged =
    if has_count_space s && has_byte_space s q
    then (
      record s {
        queue = s.queue ++ q ∷ [];
        queued_bytes = s.queued_bytes + q.byte_size;
        has_events = true;
      },
      accepted,
    )
    else (s, full)
put_merged s q type_error = (s, raised)

-- One turn of the `while True` in `handle`.
unfoldable pub try_put : QueuedStream → QueuedEvent → QueuedStream × Outcome
unfolding put_merged merge_last
try_put s q = put_merged s q (merging s q)

-- `_has_space` is set when a limit leaves room for one more.
abbrev pub frees_space : QueuedStream → Bool
frees_space s =
    (ltb 0 s.max_queue_size && ltb (length s.queue) s.max_queue_size)
    || (ltb 0 s.max_queue_bytes && ltb s.queued_bytes s.max_queue_bytes)

after_pop : QueuedStream → QueuedStream
after_pop s = record s {
  has_space = s.has_space || frees_space s;
  has_events = s.has_events && not (is_nil s.queue);
}

pop_from : QueuedStream → List QueuedEvent → Option (QueuedEvent × QueuedStream)
unfolding after_pop
pop_from s [] = none
pop_from s (q ∷ rest) =
    some (q, after_pop (record s { queue = rest; queued_bytes = s.queued_bytes - q.byte_size }))

-- The loop `while self._queue` in `_handle`, up to the call of the stream.
unfoldable pub pop_next : QueuedStream → Option (QueuedEvent × QueuedStream)
unfolding pop_from
pop_next s = pop_from s s.queue

abbrev pub is_stream_closed : Event → Bool
is_stream_closed (stream_closed i) = true
is_stream_closed e = false

-- The end of the loop's body, once the stream and the callbacks are done.
unfoldable pub mark_closed : QueuedStream → QueuedEvent → QueuedStream
mark_closed s q = record s { closed = s.closed || is_stream_closed q.event }
