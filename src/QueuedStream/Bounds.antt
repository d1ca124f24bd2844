-- ===== src/QueuedStream/Bounds.antt =====
-- protocol/queued_stream.py: the byte and event counts of the queue, its limits and its signal,
-- through every operation on it.
use hypercorn.Prelude.{
  ℕ, ◌+◌, ◌-◌, ◌≤◌, ◌≡◌, refl, ap, ◌∙◌, subst, ◌⊎◌, inl, inr, ◌≢◌, true, false, not, ◌&&◌, ◌||◌,
  Option, none, some, List, [], ◌∷◌, ◌++◌, arith, length, length-append, total-append, All,
  All-append, is_nil, is_nil-append, is_nil→nil, length_zero, Bool-cases,
}
use hypercorn.QueuedStream.{
  QueuedEvent, QueuedStream, Outcome, accepted, full, raised, Merge, merged, unmerged, type_error,
  put_merged, try_put, pop_from, pop_next, after_pop, init, frees_space, has_byte_space,
  has_count_space,
}
use hypercorn.QueuedStream.Merging.{
  WellFormed, sizes, Merging, merge_last-Merging, merge_last_empty,
}

-- What the loop of `handle` and the consumer may rely on.
pub record Inv (s : QueuedStream) : Type 0 where
  pub sized : s.queued_bytes ≡ sizes s.queue
  pub formed : All WellFormed s.queue
  pub counted : (s.max_queue_size ≡ 0) ⊎ (length s.queue ≤ s.max_queue_size)
  pub bounded :
      (s.max_queue_bytes ≡ 0) ⊎ (s.queued_bytes ≤ s.max_queue_bytes) ⊎ (length s.queue ≡ 1)
  pub signalled : s.has_events ≡ not (is_nil s.queue)

pub init-Inv : (size bytes : ℕ) → Inv (init size bytes)
unfolding init
init-Inv size bytes = record {
  sized = refl;
  formed = tt;
  counted = inr (omega arith);
  bounded = inr (inl (omega arith));
  signalled = refl;
}

-- A turn either keeps the invariant and is accepted, or leaves the stream as it is, and the queue
-- is then not empty and has a limit. It never raises.
abbrev pub TurnOk : QueuedStream → QueuedEvent → QueuedStream × Outcome → Type 0
TurnOk s q (t, accepted) =
    Inv t
    × (is_nil t.queue ≡ false)
    × (t.max_queue_size ≡ s.max_queue_size)
    × (t.max_queue_bytes ≡ s.max_queue_bytes)
    × (t.has_space ≡ s.has_space)
TurnOk s q (t, full) =
    (t ≡ s) × (is_nil s.queue ≡ false) × ((s.max_queue_size ≢ 0) ⊎ (s.max_queue_bytes ≢ 0))
TurnOk s q (t, raised) = ⊥

put_merged-TurnOk :
    (s : QueuedStream) (q : QueuedEvent) (ys : List QueuedEvent)
    → Inv s
    → is_nil s.queue ≡ false
    → has_byte_space s q ≡ true
    → Merging s.queue q (merged ys)
    → TurnOk s q (put_merged s q (merged ys))
unfolding put_merged
put_merged-TurnOk s q ys v n b (t, f, l, e) = (
  record {
    sized = omega (arith, v.sized);
    formed = f;
    counted = ground (arith, v.counted);
    bounded = ground (arith, v.bounded);
    signalled = rw (e, n);
  },
  e ∙ n,
  refl,
  refl,
  refl,
)

put_behind-TurnOk :
    (s : QueuedStream) (q : QueuedEvent)
    → Inv s
    → WellFormed q
    → has_count_space s ≡ true
    → has_byte_space s q ≡ true
    → Inv (record s {
      queue = s.queue ++ q ∷ [];
      queued_bytes = s.queued_bytes + q.byte_size;
      has_events = true;
    })
put_behind-TurnOk s q v w c b = record {
  sized = omega (arith, v.sized, total-append (λ (x : QueuedEvent). x.byte_size) s.queue (q ∷ []));
  formed = All-append WellFormed s.queue (q ∷ []) v.formed (w, tt);
  counted = ground (arith, v.counted, length-append s.queue (q ∷ []));
  bounded = ground (
    arith,
    v.bounded,
    length-append s.queue (q ∷ []),
    λ (h : is_nil s.queue ≡ true). ap length (is_nil→nil s.queue h),
  );
  signalled = rw (is_nil-append s.queue q);
}

full_not_empty :
    (s : QueuedStream) (q : QueuedEvent)
    → Inv s
    → has_count_space s && has_byte_space s q ≡ false
    → is_nil s.queue ≡ false
full_not_empty s q v e = elim (Bool-cases (is_nil s.queue)) [
  | inl h ↦
      let empty = is_nil→nil s.queue h in
      ground (arith, e, v.sized, ap length empty, ap sizes empty, h)
  | inr h ↦ h
]

full_has_limit :
    (s : QueuedStream) (q : QueuedEvent)
    → has_count_space s && has_byte_space s q ≡ false
    → (s.max_queue_size ≢ 0) ⊎ (s.max_queue_bytes ≢ 0)
full_has_limit s q e = ground arith

put_unmerged-TurnOk :
    (s : QueuedStream) (q : QueuedEvent)
    → Inv s
    → WellFormed q
    → TurnOk s q (put_merged s q unmerged)
unfolding put_merged
put_unmerged-TurnOk s q v w = elim (Bool-cases (has_count_space s && has_byte_space s q)) [
  | inl e ↦ rw e (
    put_behind-TurnOk s q v w (ground (arith, e)) (ground (arith, e)),
    is_nil-append s.queue q,
    refl,
    refl,
    refl,
  )
  | inr e ↦ rw e (refl, full_not_empty s q v e, full_has_limit s q e)
]

put-TurnOk :
    (s : QueuedStream) (q : QueuedEvent) (m : Merge (List QueuedEvent))
    → Inv s
    → WellFormed q
    → is_nil s.queue ≡ false
    → has_byte_space s q ≡ true
    → Merging s.queue q m
    → TurnOk s q (put_merged s q m)
put-TurnOk s q (merged ys) v w n b m = put_merged-TurnOk s q ys v n b m
put-TurnOk s q unmerged v w n b m = put_unmerged-TurnOk s q v w
put-TurnOk s q type_error v w n b m = absurd m

-- A turn of the loop in `handle` on a well-formed queue: it accepts the event and keeps every
-- limit, or reports that there is no room and then the queue has events and a limit.
pub try_put-TurnOk :
    (s : QueuedStream) (q : QueuedEvent) → Inv s → WellFormed q → TurnOk s q (try_put s q)
unfolding try_put
try_put-TurnOk s q v w = elim (Bool-cases (has_byte_space s q)) [
  | inr e ↦ rw e (put_unmerged-TurnOk s q v w)
  | inl e ↦ elim (Bool-cases (is_nil s.queue)) [
    | inl n ↦ rw (e, merge_last_empty s.queue q n) (put_unmerged-TurnOk s q v w)
    | inr n ↦ rw e (put-TurnOk s q _ v w n e (merge_last-Merging s.queue q v.formed w))
  ]
]

-- What the consumer takes, and what it leaves.
abbrev pub PopOk : QueuedStream → Option (QueuedEvent × QueuedStream) → Type 0
PopOk s none = s.queue ≡ []
PopOk s (some (q, t)) =
    Inv t
    × WellFormed q
    × (s.queue ≡ q ∷ t.queue)
    × (t.queued_bytes + q.byte_size ≡ s.queued_bytes)
    × (t.max_queue_size ≡ s.max_queue_size)
    × (t.max_queue_bytes ≡ s.max_queue_bytes)
    × (t.has_space ≡ s.has_space || frees_space t)

after_pop-PopOk :
    (s : QueuedStream) (q : QueuedEvent) (rest : List QueuedEvent)
    → Inv s
    → s.queue ≡ q ∷ rest
    → PopOk s (
        some
          (q, after_pop (record s { queue = rest; queued_bytes = s.queued_bytes - q.byte_size })))
unfolding after_pop
after_pop-PopOk s q rest v e =
    let formed = subst (All WellFormed) e v.formed in
    let summed = ap sizes e in
    let counted = ap length e in
    (
      record {
        sized = omega (arith, v.sized, summed);
        formed = formed.1;
        counted = ground (arith, v.counted, counted);
        bounded = ground (
          arith,
          v.bounded,
          v.sized,
          summed,
          counted,
          λ (h : length rest ≡ 0). ap sizes (length_zero rest h),
        );
        signalled = ground (arith, v.signalled, ap is_nil e);
      },
      formed.0,
      e,
      omega (arith, v.sized, summed),
      refl,
      refl,
      refl,
    )

pop_from-PopOk :
    (s : QueuedStream) (xs : List QueuedEvent) → Inv s → s.queue ≡ xs → PopOk s (pop_from s xs)
unfolding pop_from
pop_from-PopOk s [] v e = e
pop_from-PopOk s (q ∷ rest) v e = after_pop-PopOk s q rest v e

pub pop_next-PopOk : (s : QueuedStream) → Inv s → PopOk s (pop_next s)
unfolding pop_next
pop_next-PopOk s v = pop_from-PopOk s s.queue v refl
