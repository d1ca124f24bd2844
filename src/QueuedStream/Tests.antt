-- ===== src/QueuedStream/Tests.antt =====
-- Runs of the queue of protocol/queued_stream.py on small inputs.
use hypercorn.Prelude.{ℕ, ◌≤◌, ◌≡◌, refl, ◌⊎◌, not, none, some, [], ◌∷◌, ◌++◌, length, is_nil}
use hypercorn.Events.{body, end_body, stream_id}
use hypercorn.QueuedStream.{create, try_put, pop_next, init, append, materialize}
use hypercorn.QueuedStream.Merging.{sizes}
use hypercorn.QueuedStream.Gather.{gather, tokens}
use hypercorn.QueuedStream.Tasks.{
  System, start, submit, resume, consume, calls, resumes, consumes, Reach, here, next,
}
use hypercorn.QueuedStream.Tasks.Invariant.{start-SystemInv, Reach-SystemInv}
use hypercorn.QueuedStream.Tasks.Content.{
  views, pending, callbacks_of, delivery_in_order, callbacks_once,
}
use hypercorn.QueuedStream.Tasks.Progress
use hypercorn.QueuedStream.Tasks.Progress.{producers_woken, work}
use hypercorn.QueuedStream.Tasks.Limits.{queue_within_limits}

abbrev limit : ℕ
limit = 1

-- Two bodies, of which the second is merged into the first, and an end that has to wait.
abbrev fed : System
fed =
    submit
      (submit (submit (start (init limit 10)) (create (body 1 (5 ∷ 6 ∷ [])) (some 7)))
        (create (body 1 (8 ∷ [])) (some 9)))
      (create (end_body 1) none)

abbrev fed-Reach : Reach (start (init limit 10)) fed
fed-Reach =
    next
      (next (next here (calls (body 1 (5 ∷ 6 ∷ [])) (some 7))) (calls (body 1 (8 ∷ [])) (some 9)))
      (calls (end_body 1) none)

-- The consumer has taken the merged body, and the end is awake and in the queue.
abbrev served : System
served = resume (consume (consume fed)) [] (create (end_body 1) none)

fed_waits : fed.waiting ≡ create (end_body 1) none ∷ []
unfolding submit try_put create append init
fed_waits = refl

fed_queue :
    fed.stream.queue
    ≡ record {
      event = body 1 (5 ∷ 6 ∷ []);
      callbacks = 7 ∷ 9 ∷ [];
      chunks = some ((5 ∷ 6 ∷ []) ∷ (8 ∷ []) ∷ []);
      byte_size = 3;
    }
      ∷ []
unfolding submit try_put create append init
fed_queue = refl

abbrev served-Reach : Reach (start (init limit 10)) served
unfolding submit try_put create append init consume pop_next
served-Reach =
    next (next (next fed-Reach consumes) consumes) (resumes [] [] (create (end_body 1) none) refl)

served_delivers : served.delivered ≡ body 1 (5 ∷ 6 ∷ 8 ∷ []) ∷ []
unfolding submit try_put create append init consume pop_next resume materialize stream_id
served_delivers = refl

delivery_in_order_example :
    gather tokens served.accepted ≡ views served.delivered ++ gather tokens served.stream.queue
delivery_in_order_example = delivery_in_order limit 10 served-Reach

callbacks_once_example :
    gather callbacks_of served.accepted
    ≡ served.called ++ pending served.consumer ++ gather callbacks_of served.stream.queue
callbacks_once_example = callbacks_once limit 10 served-Reach

queue_within_limits_example :
    ((limit ≡ 0) ⊎ (length fed.stream.queue ≤ limit))
    × ((◌≡◌ {A = ℕ} 10 0) ⊎ (fed.stream.queued_bytes ≤ 10) ⊎ (length fed.stream.queue ≡ 1))
    × (fed.stream.queued_bytes ≡ sizes fed.stream.queue)
    × (fed.stream.has_events ≡ not (is_nil fed.stream.queue))
    × (fed.failed ≡ [])
queue_within_limits_example = queue_within_limits limit 10 fed-Reach

producers_woken_example : (Progress.consumes (work fed) fed).waiting ≡ []
unfolding submit try_put create append init
producers_woken_example =
    producers_woken fed (Reach-SystemInv (start-SystemInv limit 10) fed-Reach) refl
