-- ===== src/H11/PassThrough.antt =====
-- protocol/h11.py, H11WSConnection: the data that passes through.
use hypercorn.Prelude.{◌≡◌, sym, ap, ◌∙◌, List, [], ◌∷◌, ◌++◌, append_assoc, append-nil}
use hypercorn.Prelude.Bytes.{Bytes}
use hypercorn.H11.Package.{H11}
use hypercorn.H11.Connection.{
  Connection, parsing, passing, receive_data, next_event, Next, parsed, passed,
}

-- What is done with a connection: it is given data, or asked for its next event.
pub data Call : Type 0 where
  receives : Bytes → Call
  asks : Call

abbrev pub received : List Call → Bytes
received [] = []
received (receives d ∷ calls) = d ++ received calls
received (asks ∷ calls) = received calls

-- The bytes that an event carries, and the connection that it leaves.
abbrev pub taken : {C : Type 0} → Next C → Bytes × Connection C
taken (parsed e c) = ([], c)
taken (passed d c) = (d, c)

abbrev pub with_bytes : {C : Type 0} → Bytes → Bytes × Connection C → Bytes × Connection C
with_bytes d (es, c) = (d ++ es, c)

-- The bytes that have not been taken.
abbrev pub kept : {C : Type 0} → Connection C → Bytes
kept (parsing c) = []
kept (passing buffer c) = buffer

module _ {C : Type 0} (h : H11 C) where
  -- The bytes that come out of a connection, and what becomes of it.
  unfoldable pub pass_all : List Call → Connection C → Bytes × Connection C
  unfolding receive_data next_event
  pass_all [] c = ([], c)
  pass_all (receives d ∷ calls) c = pass_all calls (receive_data h c d)
  pass_all (asks ∷ calls) c =
      let (d, c') = taken (next_event h c) in with_bytes d (pass_all calls c')

  -- What has come out of an H11WSConnection, then what it still keeps, is what it began with, then
  -- what it was given: no byte is lost, repeated or moved, however the calls interleave.
  pub pass_all-received :
      (calls : List Call) (buffer : Bytes) (c : C)
      → let (out, after) = pass_all calls (passing buffer c) in
        out ++ kept after ≡ buffer ++ received calls
  unfolding pass_all receive_data next_event
  pass_all-received [] buffer c = sym (append-nil buffer)
  pass_all-received (receives d ∷ calls) buffer c =
      pass_all-received calls (buffer ++ d) c ∙ append_assoc buffer d (received calls)
  pass_all-received (asks ∷ calls) [] c = pass_all-received calls [] c
  pass_all-received (asks ∷ calls) (b ∷ buffer) c =
      append_assoc (b ∷ buffer) _ _ ∙ ap (◌++◌ (b ∷ buffer)) (pass_all-received calls [] c)
