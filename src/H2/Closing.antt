-- ===== src/H2/Closing.antt =====
-- protocol/h2.py: the end of a connection.
use hypercorn.Prelude.{
  ℕ, ◌≡◌, refl, sym, ap, subst, ◌∙◌, ◌⊎◌, inl, inr, Bool, true, false, ◌||◌, Option, none, some,
  List, [], ◌∷◌, String, ◌==◌, ==→eq, Bool-cases, arith,
}
use hypercorn.Prelude.Bytes.{Bytes}
use hypercorn.Events.{Event}
use hypercorn.Exec.{Result, ok, err, continue}
use hypercorn.Wire.{shut}
use hypercorn.Streams.{Queues}
use hypercorn.H2Send.Scheduler.{
  H2Calls, Scheduler, drop_from_tree, close_found as close_found_buffer,
  close_stream as close_buffer, lookup, set_has_data,
}
use hypercorn.H2Send.Buffer.{StreamBuffer}
use hypercorn.H2.Package.{H2Package}
use hypercorn.H2.Tables.{find, remove, keys, find-remove_self, find-remove_ne}
use hypercorn.H2.Protocol.{H2Protocol, on_sender, close_found, close_stream}
use hypercorn.H2.Reading.{close_all, handle}
use hypercorn.H2.Lifetime.{given, open_after, TableOk}
use hypercorn.H2.Turns.{handle-TableOk}

-- `id in ids`.
unfoldable pub among : ℕ → List ℕ → Bool
among i [] = false
among i (j ∷ js) = i == j || among i js

find-keys : {T : Type 0} (i : ℕ) (s : List (ℕ × T)) → (find i s ≡ none) ⊎ (among i (keys s) ≡ true)
unfolding find keys among
find-keys i [] = inl refl
find-keys i ((j, t) ∷ rest) = ground (arith, find-keys i rest)

-- A step that returns, after which the stream `i` is not in the table.
pub record Lacks {C P T : Type 0} (i : ℕ) (z : Result (Unit {0}) × H2Protocol C P T) : Type 0 where
  pub returns : z.0 ≡ ok tt
  pub missing : find i z.1.streams ≡ none

module _ {C P T : Type 0} (h2 : H2Package C P) (calls : H2Calls C P) (queues : Queues T)
    (decode : Bytes → Option String)
    (free : (t : T) (i : ℕ) → queues.is_stuck t (Event.stream_closed i) ≡ false) where
  dropped_returns :
      (o : Option P) (s : Scheduler C P)
      → (continue (drop_from_tree calls o s) (λ u. set_has_data calls)).0 ≡ ok tt
  dropped_returns none s = refl
  dropped_returns (some p) s = refl

  closed_returns :
      (i : ℕ) (o : Option StreamBuffer) (s : Scheduler C P)
      → (close_found_buffer calls i o s).0 ≡ ok tt
  closed_returns i none s = refl
  closed_returns i (some b) s = dropped_returns (calls.remove_stream s.priority i) _

  find-remove_missing :
      (i j : ℕ) (streams : List (ℕ × T)) → find j streams ≡ none → find j (remove i streams) ≡ none
  find-remove_missing i j streams h = elim (Bool-cases (i == j)) [
    | inl same ↦
        subst (λ k. find k (remove i streams) ≡ none) (==→eq i j same) (find-remove_self i streams)
    | inr apart ↦ find-remove_ne i j streams (λ same. ground (arith, same, apart)) ∙ h
  ]

  -- The close of a stream returns; the stream is missing after it, as are those that were.
  close_found-Lacks :
      (i j : ℕ) (o : Option T) (s : H2Protocol C P T)
      → find i s.streams ≡ o
      → ((i ≡ j) ⊎ (find j s.streams ≡ none))
      → Lacks j (
          continue
            (close_found h2 calls queues decode i o s)
            (λ u. on_sender (close_buffer calls i)))
  unfolding close_buffer
  close_found-Lacks i j none s at (inl same) = record {
    returns = closed_returns i (lookup i s.sender.stream_buffers) s.sender;
    missing = subst (λ k. find k s.streams ≡ none) same at;
  }
  close_found-Lacks i j none s at (inr absent) = record {
    returns = closed_returns i (lookup i s.sender.stream_buffers) s.sender;
    missing = absent;
  }
  close_found-Lacks i j (some t) s at (inl same) = rw (free t i) (record {
    returns = closed_returns i (lookup i s.sender.stream_buffers) s.sender;
    missing = subst (λ k. find k (remove i s.streams) ≡ none) same (find-remove_self i s.streams);
  })
  close_found-Lacks i j (some t) s at (inr absent) = rw (free t i) (record {
    returns = closed_returns i (lookup i s.sender.stream_buffers) s.sender;
    missing = find-remove_missing i j s.streams absent;
  })

  close_stream-Lacks :
      (i j : ℕ) (s : H2Protocol C P T)
      → ((i ≡ j) ⊎ (find j s.streams ≡ none))
      → Lacks j (close_stream h2 calls queues decode i s)
  unfolding close_stream
  close_stream-Lacks i j s h = close_found-Lacks i j (find i s.streams) s refl h

  then-Lacks :
      (is : List ℕ) (j : ℕ) (z : Result (Unit {0}) × H2Protocol C P T)
      → z.0 ≡ ok tt
      → Lacks j (close_all h2 calls queues decode is z.1)
      → Lacks j (continue z (λ u. close_all h2 calls queues decode is))
  then-Lacks is j (ok u, s) r l = l
  then-Lacks is j (err e, s) r l = absurd cc

  -- Of a stream that is missing, or is still to be closed.
  close_all-Lacks :
      (is : List ℕ) (j : ℕ) (s : H2Protocol C P T)
      → ((find j s.streams ≡ none) ⊎ (among j is ≡ true))
      → Lacks j (close_all h2 calls queues decode is s)
  unfolding close_all among
  close_all-Lacks [] j s (inl absent) = record { returns = refl; missing = absent }
  close_all-Lacks [] j s (inr listed) = absurd cc
  close_all-Lacks (i ∷ is) j s h =
      let z = close_stream h2 calls queues decode i s in
      let rest = close_all-Lacks is j z.1 in
      then-Lacks is j z (close_stream-Lacks i i s (inl refl)).returns (elim h [
        | inl absent ↦ rest (inl (close_stream-Lacks i j s (inr absent)).missing)
        | inr listed ↦ elim (Bool-cases (j == i)) [
          | inl same ↦ rest (inl (close_stream-Lacks i j s (inl (sym (==→eq j i same)))).missing)
          | inr apart ↦ rest (inr (ap (λ b. b || among j is) (sym apart) ∙ listed))
        ]
      ])

  woken-Lacks :
      (j : ℕ) (z : Result (Unit {0}) × H2Protocol C P T)
      → Lacks j z
      → Lacks j (continue z (λ u. on_sender (set_has_data calls)))
  woken-Lacks j (ok u, s) l = record { returns = refl; missing = l.missing }
  woken-Lacks j (err e, s) l = l

  handle_shut-Lacks :
      (s : H2Protocol C P T) (j : ℕ) → Lacks j (handle h2 calls queues decode shut s)
  unfolding handle
  handle_shut-Lacks s j =
      let t : H2Protocol C P T = record s { closed = true } in
      woken-Lacks j (close_all h2 calls queues decode (keys s.streams) t)
        (close_all-Lacks (keys s.streams) j t (find-keys j s.streams))

  -- When the connection closes, and no queue keeps a StreamClosed waiting for space for ever: the
  -- handler returns, the table is empty, and the StreamClosed of every stream that was open has been
  -- handed to its queue.
  pub closing_closes_all :
      (s : H2Protocol C P T) (j : ℕ)
      → TableOk s
      → let (r, after) = handle h2 calls queues decode shut s in
        (r ≡ ok tt)
        × (find j after.streams ≡ none)
        × (open_after j (some false) after.trace ≡ some false)
  closing_closes_all s j k =
      let l = handle_shut-Lacks s j in
      (
        l.returns,
        l.missing,
        handle-TableOk h2 calls queues decode shut s k j ∙ ap (λ o. some (given o)) l.missing,
      )
