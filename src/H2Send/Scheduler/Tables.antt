-- ===== src/H2Send/Scheduler/Tables.antt =====
-- protocol/h2_send.py: the table of buffers, and the frames of one stream.
use hypercorn.Prelude.{
  ℕ, ◌≡◌, refl, Bool, true, false, ◌&&◌, ◌||◌, Option, none, some, List, [], ◌∷◌, ◌++◌, ◌==◌,
  if◌then◌else◌, arith, append-nil,
}
use hypercorn.Prelude.Bytes.{Bytes, Headers}
use hypercorn.H2Send.Buffer.{StreamBuffer}
use hypercorn.H2Send.Scheduler.{
  Table, lookup, store, delete, Frame, data_frame, end_frame, trailers_frame,
}

pub lookup-store : (i : ℕ) (b : StreamBuffer) (t : Table) → lookup i (store i b t) ≡ some b
unfolding lookup store
lookup-store i b [] = ground arith
lookup-store i b ((j, c) ∷ rest) = ground (arith, lookup-store i b rest)

pub lookup-store_other :
    (i j : ℕ) (b : StreamBuffer) (t : Table)
    → (j == i) ≡ false
    → lookup j (store i b t) ≡ lookup j t
unfolding lookup store
lookup-store_other i j b [] n = ground (arith, n)
lookup-store_other i j b ((k, c) ∷ rest) n = ground (arith, n, lookup-store_other i j b rest n)

pub lookup-delete : (i : ℕ) (t : Table) → lookup i (delete i t) ≡ none
unfolding lookup delete
lookup-delete i [] = refl
lookup-delete i ((j, c) ∷ rest) = ground (arith, lookup-delete i rest)

pub lookup-delete_other :
    (i j : ℕ) (t : Table) → (j == i) ≡ false → lookup j (delete i t) ≡ lookup j t
unfolding lookup delete
lookup-delete_other i j [] n = refl
lookup-delete_other i j ((k, c) ∷ rest) n = ground (arith, n, lookup-delete_other i j rest n)

-- The bytes of a stream in what was sent, and whether its end was sent.
unfoldable pub bytes_of : ℕ → List Frame → Bytes
bytes_of i [] = []
bytes_of i (data_frame j d ∷ fs) = if i == j then d ++ bytes_of i fs else bytes_of i fs
bytes_of i (f ∷ fs) = bytes_of i fs

unfoldable pub has_end : ℕ → List Frame → Bool
has_end i [] = false
has_end i (data_frame j d ∷ fs) = has_end i fs
has_end i (end_frame j ∷ fs) = i == j || has_end i fs
has_end i (trailers_frame j hs ∷ fs) = i == j || has_end i fs

-- Every frame is one of the stream.
unfoldable pub all_of : ℕ → List Frame → Bool
all_of i [] = true
all_of i (data_frame j d ∷ fs) = i == j && all_of i fs
all_of i (end_frame j ∷ fs) = i == j && all_of i fs
all_of i (trailers_frame j hs ∷ fs) = i == j && all_of i fs

-- The frames of a piece of data: none when it is empty.
abbrev pub frames_for : ℕ → Bytes → List Frame
frames_for i [] = []
frames_for i (c ∷ d) = data_frame i (c ∷ d) ∷ []

abbrev pub end_for : ℕ → Option Headers → Frame
end_for i none = end_frame i
end_for i (some hs) = trailers_frame i hs

pub bytes_of-frames_for : (i : ℕ) (d : Bytes) → bytes_of i (frames_for i d) ≡ d
unfolding bytes_of
bytes_of-frames_for i [] = refl
bytes_of-frames_for i (c ∷ d) = ground (arith, append-nil d)

pub bytes_of-end :
    (i j : ℕ) (d : Bytes) (hs : Option Headers)
    → bytes_of j (frames_for i d ++ end_for i hs ∷ []) ≡ bytes_of j (frames_for i d)
unfolding bytes_of
bytes_of-end i j [] none = refl
bytes_of-end i j [] (some hs) = refl
bytes_of-end i j (c ∷ d) none = refl
bytes_of-end i j (c ∷ d) (some hs) = refl

pub bytes_of_other : (i j : ℕ) (d : Bytes) → (j == i) ≡ false → bytes_of j (frames_for i d) ≡ []
unfolding bytes_of
bytes_of_other i j [] n = refl
bytes_of_other i j (c ∷ d) n = rw n refl

pub has_end-frames_for : (i : ℕ) (d : Bytes) → has_end i (frames_for i d) ≡ false
unfolding has_end
has_end-frames_for i [] = refl
has_end-frames_for i (c ∷ d) = refl

pub all_of-frames_for : (i : ℕ) (d : Bytes) → all_of i (frames_for i d) ≡ true
unfolding all_of
all_of-frames_for i [] = refl
all_of-frames_for i (c ∷ d) = ground arith

pub all_of-end :
    (i : ℕ) (d : Bytes) (hs : Option Headers)
    → all_of i (frames_for i d ++ end_for i hs ∷ []) ≡ true
unfolding all_of
all_of-end i [] none = ground arith
all_of-end i [] (some hs) = ground arith
all_of-end i (c ∷ d) none = ground arith
all_of-end i (c ∷ d) (some hs) = ground arith
