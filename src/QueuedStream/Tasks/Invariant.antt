-- ===== src/QueuedStream/Tasks/Invariant.antt =====
-- protocol/queued_stream.py: what holds of the queue and its tasks at every suspension.
use hypercorn.Prelude.{
  ℕ, ◌≡◌, refl, ap, subst, ◌⊎◌, inl, inr, ◌≢◌, Bool, true, false, Option, none, some, List, [], ◌∷◌,
  ◌++◌, arith, All, All-append, All-middle, is_nil, is_nil→nil, Bool-cases, if_both, length, sym,
}
use hypercorn.QueuedStream.{
  QueuedEvent, QueuedStream, Callback, Outcome, full, raised, create, mark_closed, frees_space,
  init,
}
use hypercorn.QueuedStream.Merging.{WellFormed, sizes, create-WellFormed}
use hypercorn.QueuedStream.Bounds.{Inv, init-Inv, TurnOk, try_put-TurnOk, PopOk, pop_next-PopOk}
use hypercorn.QueuedStream.Tasks.{
  System, Consumer, idle, turning, handling, calling, returned, start, settle, wait_for_space,
  submit, resume, notify, turn, finish, step_consumer, consume, Step, calls, resumes, consumes,
  Reach, here, next,
}

abbrev pub IsLimited : QueuedStream → Type 0
IsLimited s = (s.max_queue_size ≢ 0) ⊎ (s.max_queue_bytes ≢ 0)

-- A producer waits only while the queue has events, so the consumer will wake it.
abbrev pub IsServed : System → Type 0
IsServed y = (y.waiting ≡ []) ⊎ ((is_nil y.stream.queue ≡ false) × IsLimited y.stream)

pub record SystemInv (y : System) : Type 0 where
  pub stream_inv : Inv y.stream
  pub waiting_formed : All WellFormed y.waiting
  pub woken_formed : All WellFormed y.woken
  pub none_failed : y.failed ≡ []
  pub served : IsServed y

module _ (y : System) (q : QueuedEvent) (v : SystemInv y) (w : WellFormed q)
    (n : is_nil y.stream.queue ≡ false) (l : IsLimited y.stream) where
  wait_for_space-SystemInv : SystemInv (wait_for_space y q)
  unfolding wait_for_space
  wait_for_space-SystemInv =
      if_both SystemInv y.stream.has_space
        (record {
          stream_inv = v.stream_inv;
          waiting_formed = v.waiting_formed;
          woken_formed = All-append WellFormed y.woken (q ∷ []) v.woken_formed (w, tt);
          none_failed = v.none_failed;
          served = v.served;
        })
        (record {
          stream_inv = v.stream_inv;
          waiting_formed = All-append WellFormed y.waiting (q ∷ []) v.waiting_formed (w, tt);
          woken_formed = v.woken_formed;
          none_failed = v.none_failed;
          served = inr (n, l);
        })

served_with :
    (y : System) (s : QueuedStream)
    → IsServed y
    → is_nil s.queue ≡ false
    → s.max_queue_size ≡ y.stream.max_queue_size
    → s.max_queue_bytes ≡ y.stream.max_queue_bytes
    → IsServed (record y { stream = s })
served_with y s (inl e) n a b = inl e
served_with y s (inr (m, l)) n a b = inr (n, ground (arith, l, a, b))

settle-SystemInv :
    (y : System) (q : QueuedEvent) (r : QueuedStream × Outcome)
    → SystemInv y
    → WellFormed q
    → TurnOk y.stream q r
    → SystemInv (settle y q r)
unfolding settle
settle-SystemInv y q (s, Outcome.accepted) v w (i, n, a, b, h) = record {
  stream_inv = i;
  waiting_formed = v.waiting_formed;
  woken_formed = v.woken_formed;
  none_failed = v.none_failed;
  served = served_with y s v.served n a b;
}
settle-SystemInv y q (s, full) v w (e, n, l) =
    subst (λ z. SystemInv (wait_for_space (record y { stream = z }) q)) (sym e)
      (wait_for_space-SystemInv y q v w n l)
settle-SystemInv y q (s, raised) v w t = absurd t

submit-SystemInv :
    (y : System) (q : QueuedEvent) → SystemInv y → WellFormed q → SystemInv (submit y q)
unfolding submit
submit-SystemInv y q v w = settle-SystemInv y q _ v w (try_put-TurnOk y.stream q v.stream_inv w)

pub cleared-SystemInv :
    (y : System) (others : List QueuedEvent)
    → SystemInv y
    → All WellFormed others
    → SystemInv (record y { woken = others; stream = record y.stream { has_space = false } })
cleared-SystemInv y others v o = record {
  stream_inv = record {
    sized = v.stream_inv.sized;
    formed = v.stream_inv.formed;
    counted = v.stream_inv.counted;
    bounded = v.stream_inv.bounded;
    signalled = v.stream_inv.signalled;
  };
  waiting_formed = v.waiting_formed;
  woken_formed = o;
  none_failed = v.none_failed;
  served = v.served;
}

-- A producer that waits has a limit, and an empty queue is below every limit.
frees_space_empty : (s : QueuedStream) → Inv s → s.queue ≡ [] → IsLimited s → frees_space s ≡ true
frees_space_empty s v e l = ground (arith, v.sized, ap length e, ap sizes e, l)

notify_served :
    (y : System) (q : QueuedEvent) (s : QueuedStream)
    → IsServed y
    → PopOk y.stream (some (q, s))
    → IsServed (notify y q s)
unfolding notify
notify_served y q s (inl e) p = inl (ground (arith, e))
notify_served y q s (inr (_, l)) (i, w, e, b, m, n, h) = elim (Bool-cases (is_nil s.queue)) [
  | inl empty ↦
      let room = frees_space_empty s i (is_nil→nil s.queue empty) (ground (arith, l, m, n)) in
      inl (ground (arith, h, room))
  | inr more ↦ inr (more, ground (arith, l, m, n))
]

notify-SystemInv :
    (y : System) (q : QueuedEvent) (s : QueuedStream)
    → SystemInv y
    → PopOk y.stream (some (q, s))
    → SystemInv (notify y q s)
unfolding notify
notify-SystemInv y q s v (i, w, e, b, m, n, h) = record {
  stream_inv = i;
  waiting_formed = if_both (All WellFormed) s.has_space tt v.waiting_formed;
  woken_formed =
      if_both (All WellFormed) s.has_space
        (All-append WellFormed _ _ v.woken_formed v.waiting_formed) v.woken_formed;
  none_failed = v.none_failed;
  served = notify_served y q s v.served (i, w, e, b, m, n, h);
}

-- The place of the consumer, the callbacks that it has made and the flag `_closed` are free.
moved-SystemInv :
    (y : System) (c : Consumer) (cs : List Callback) (closed : Bool)
    → SystemInv y
    → SystemInv
        (record y { consumer = c; called = cs; stream = record y.stream { closed = closed } })
moved-SystemInv y c cs closed v = record {
  stream_inv = record {
    sized = v.stream_inv.sized;
    formed = v.stream_inv.formed;
    counted = v.stream_inv.counted;
    bounded = v.stream_inv.bounded;
    signalled = v.stream_inv.signalled;
  };
  waiting_formed = v.waiting_formed;
  woken_formed = v.woken_formed;
  none_failed = v.none_failed;
  served = v.served;
}

turn-SystemInv :
    (y : System) (r : Option (QueuedEvent × QueuedStream))
    → SystemInv y
    → PopOk y.stream r
    → SystemInv (turn y r)
unfolding turn
turn-SystemInv y none v p = moved-SystemInv y idle y.called y.stream.closed v
turn-SystemInv y (some (q, s)) v p = notify-SystemInv y q s v p

step_consumer-SystemInv : (y : System) (c : Consumer) → SystemInv y → SystemInv (step_consumer y c)
unfolding step_consumer finish mark_closed
step_consumer-SystemInv y idle v =
    if_both SystemInv y.stream.has_events (moved-SystemInv y turning y.called y.stream.closed v) v
step_consumer-SystemInv y turning v = turn-SystemInv y _ v (pop_next-PopOk y.stream v.stream_inv)
step_consumer-SystemInv y (handling q) v = moved-SystemInv y _ y.called y.stream.closed v
step_consumer-SystemInv y (calling q (c ∷ cs)) v = moved-SystemInv y _ _ y.stream.closed v
step_consumer-SystemInv y (calling q []) v = moved-SystemInv y _ y.called _ v
step_consumer-SystemInv y returned v = v

pub consume-SystemInv : (y : System) → SystemInv y → SystemInv (consume y)
unfolding consume
consume-SystemInv y v = step_consumer-SystemInv y y.consumer v

-- The producer that goes on, and the others that are awake.
pub woken_split :
    {y : System} (before after : List QueuedEvent) (q : QueuedEvent)
    → SystemInv y
    → y.woken ≡ before ++ q ∷ after
    → WellFormed q × All WellFormed (before ++ after)
woken_split before after q v e =
    All-middle WellFormed before after q (subst (All WellFormed) e v.woken_formed)

pub Step-SystemInv : {y z : System} → Step y z → SystemInv y → SystemInv z
unfolding resume
Step-SystemInv {y = y} (calls e c) v = submit-SystemInv y (create e c) v (create-WellFormed e c)
Step-SystemInv {y = y} (resumes before after q e) v =
    let (w, o) = woken_split before after q v e in
    submit-SystemInv _ q (cleared-SystemInv y (before ++ after) v o) w
Step-SystemInv {y = y} consumes v = consume-SystemInv y v

pub start-SystemInv : (size bytes : ℕ) → SystemInv (start (init size bytes))
unfolding init
start-SystemInv size bytes = record {
  stream_inv = init-Inv size bytes;
  waiting_formed = tt;
  woken_formed = tt;
  none_failed = refl;
  served = inl refl;
}

pub Reach-SystemInv : {y z : System} → SystemInv y → Reach y z → SystemInv z
Reach-SystemInv v here = v
Reach-SystemInv v (next r st) = Step-SystemInv st (Reach-SystemInv v r)
