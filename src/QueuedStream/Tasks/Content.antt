-- ===== src/QueuedStream/Tasks/Content.antt =====
-- protocol/queued_stream.py: what the stream receives, and which callbacks run, against what was
-- accepted into the queue.
use hypercorn.Prelude.{
  ◌≡◌, refl, ap, Option, none, some, List, [], ◌∷◌, ◌++◌, append-nil, append_assoc, is_nil, ℕ, ◌||◌,
  ◌&&◌, if_both,
}
use hypercorn.Events.{Event}
use hypercorn.QueuedStream.{
  QueuedEvent, QueuedStream, Callback, Outcome, full, raised, init, mark_closed, is_stream_closed,
}
use hypercorn.QueuedStream.Bounds.{Inv, PopOk, pop_next-PopOk}
use hypercorn.QueuedStream.Gather.{
  Token, view, tokens, gather, gather-append, callbacks-IsContent, tokens-IsContent, Takes,
  try_put-Takes,
}
use hypercorn.QueuedStream.Tasks.Invariant.{SystemInv, start-SystemInv, Reach-SystemInv}
use hypercorn.QueuedStream.Tasks.{
  System, Consumer, idle, turning, handling, calling, returned, start, settle, wait_for_space,
  submit, resume, notify, turn, finish, step_consumer, consume, Step, calls, resumes, consumes,
  Reach, here, next,
}

-- The data handed to the stream so far.
pub views : List Event → List Token
views [] = []
views (e ∷ es) = view e ++ views es

views-append : (es ds : List Event) → views (es ++ ds) ≡ views es ++ views ds
unfolding views
views-append [] ds = refl
views-append (e ∷ es) ds = rw (views-append es ds, append_assoc (view e))

-- The callbacks of the event that the consumer has in hand and has not made yet.
abbrev pub pending : Consumer → List Callback
pending (handling q) = q.callbacks
pending (calling q cs) = cs
pending c = []

abbrev pub callbacks_of : QueuedEvent → List Callback
callbacks_of q = q.callbacks

pub record Balanced (y : System) : Type 0 where
  pub data_in : gather tokens y.accepted ≡ views y.delivered ++ gather tokens y.stream.queue
  pub calls_in :
      gather callbacks_of y.accepted
      ≡ y.called ++ pending y.consumer ++ gather callbacks_of y.stream.queue

gather_snoc {ℓ} :
    {B : Type ℓ} (f : QueuedEvent → List B) (acc : List QueuedEvent) (q : QueuedEvent)
    (out queue queue' : List B)
    → gather f acc ≡ out ++ queue
    → queue' ≡ queue ++ f q
    → gather f (acc ++ q ∷ []) ≡ out ++ queue'
unfolding gather
gather_snoc f acc q out queue queue' e d =
    rw (gather-append f acc (q ∷ []), append-nil (f q), e, d) (append_assoc out queue (f q))

settle-Balanced :
    (y : System) (q : QueuedEvent) (r : QueuedStream × Outcome)
    → Balanced y
    → Takes tokens tokens-IsContent y.stream q r
    → Takes callbacks_of callbacks-IsContent y.stream q r
    → Balanced (settle y q r)
unfolding settle wait_for_space
settle-Balanced y q (s, Outcome.accepted) b d c = record {
  data_in = gather_snoc tokens y.accepted q _ _ _ b.data_in d;
  calls_in = gather_snoc callbacks_of y.accepted q _ _ _ b.calls_in c;
}
settle-Balanced y q (s, full) b d c =
    if_both Balanced s.has_space (record { data_in = rw d b.data_in; calls_in = rw c b.calls_in })
      (record { data_in = rw d b.data_in; calls_in = rw c b.calls_in })
settle-Balanced y q (s, raised) b d c = record {
  data_in = rw d b.data_in;
  calls_in = rw c b.calls_in;
}

submit-Balanced : (y : System) (q : QueuedEvent) → Balanced y → Balanced (submit y q)
unfolding submit
submit-Balanced y q b =
    settle-Balanced y q _ b (try_put-Takes tokens tokens-IsContent y.stream q)
      (try_put-Takes callbacks_of callbacks-IsContent y.stream q)

resume-Balanced :
    (y : System) (others : List QueuedEvent) (q : QueuedEvent)
    → Balanced y
    → Balanced (resume y others q)
unfolding resume
resume-Balanced y others q b =
    submit-Balanced _ q (record { data_in = b.data_in; calls_in = b.calls_in })

notify-Balanced :
    (y : System) (q : QueuedEvent) (s : QueuedStream)
    → Balanced y
    → pending y.consumer ≡ []
    → y.stream.queue ≡ q ∷ s.queue
    → Balanced (notify y q s)
unfolding notify gather tokens views
notify-Balanced y q s b p e = record {
  data_in = rw (b.data_in, e) (simp (views-append, views, append-nil, append_assoc));
  calls_in = rw (b.calls_in, p, e) (simp (append-nil, append_assoc));
}

turn-Balanced :
    (y : System) (r : Option (QueuedEvent × QueuedStream))
    → Balanced y
    → pending y.consumer ≡ []
    → PopOk y.stream r
    → Balanced (turn y r)
unfolding turn
turn-Balanced y none b p o = record { data_in = b.data_in; calls_in = rw p at b.calls_in }
turn-Balanced y (some (q, s)) b p o = notify-Balanced y q s b p o.2

step_consumer-Balanced :
    (y : System) (c : Consumer)
    → Inv y.stream
    → Balanced y
    → y.consumer ≡ c
    → Balanced (step_consumer y c)
unfolding step_consumer finish mark_closed
step_consumer-Balanced y idle v b e =
    if_both Balanced y.stream.has_events
      (record { data_in = b.data_in; calls_in = rw e at b.calls_in }) b
step_consumer-Balanced y turning v b e =
    turn-Balanced y _ b (ap pending e) (pop_next-PopOk y.stream v)
step_consumer-Balanced y (handling q) v b e = record {
  data_in = b.data_in;
  calls_in = rw e at b.calls_in;
}
step_consumer-Balanced y (calling q (c ∷ cs)) v b e = record {
  data_in = b.data_in;
  calls_in = rw (b.calls_in, ap pending e) (simp append_assoc);
}
step_consumer-Balanced y (calling q []) v b e = record {
  data_in = b.data_in;
  calls_in =
      let same = rw e at b.calls_in in
      if_both
        (λ c.
          gather callbacks_of y.accepted
          ≡ y.called ++ pending c ++ gather callbacks_of y.stream.queue)
        ((y.stream.closed || is_stream_closed q.event) && is_nil y.stream.queue) same same;
}
step_consumer-Balanced y returned v b e = b

Step-Balanced : {y z : System} → Step y z → SystemInv y → Balanced y → Balanced z
unfolding consume
Step-Balanced {y = y} (calls e c) v b = submit-Balanced y _ b
Step-Balanced {y = y} (resumes before after q e) v b = resume-Balanced y _ q b
Step-Balanced {y = y} consumes v b = step_consumer-Balanced y y.consumer v.stream_inv b refl

Reach-Balanced : {y z : System} → SystemInv y → Balanced y → Reach y z → Balanced z
Reach-Balanced v b here = b
Reach-Balanced v b (next r st) = Step-Balanced st (Reach-SystemInv v r) (Reach-Balanced v b r)

start-Balanced : (size bytes : ℕ) → Balanced (start (init size bytes))
unfolding init gather views
start-Balanced size bytes = record { data_in = refl; calls_in = refl }

-- From an empty queue, whatever its limits and whatever the order in which the producers and the
-- consumer run: the bytes and other events handed to the stream, followed by those still queued,
-- are those of the accepted events in the order of acceptance. None is lost, doubled or reordered
-- by the merging of adjacent `Body` or `Data` events.
pub delivery_in_order :
    (size bytes : ℕ) {y : System}
    → Reach (start (init size bytes)) y
    → gather tokens y.accepted ≡ views y.delivered ++ gather tokens y.stream.queue
delivery_in_order size bytes r =
    (Reach-Balanced (start-SystemInv size bytes) (start-Balanced size bytes) r).data_in

-- From an empty queue, whatever its limits and whatever the order in which the producers and the
-- consumer run, each callback of an accepted event runs once and in order: those that have run,
-- those of the event in hand that have not, and those queued are together the callbacks of the
-- accepted events.
pub callbacks_once :
    (size bytes : ℕ) {y : System}
    → Reach (start (init size bytes)) y
    → gather callbacks_of y.accepted
      ≡ y.called ++ pending y.consumer ++ gather callbacks_of y.stream.queue
callbacks_once size bytes r =
    (Reach-Balanced (start-SystemInv size bytes) (start-Balanced size bytes) r).calls_in
