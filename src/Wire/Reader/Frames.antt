-- ===== src/Wire/Reader/Frames.antt =====
-- The reader thread of python/vedadb/wire/vbp/multiplexer.py on a connection that never idles
-- within a frame.
use vedadb_driver.Base.{
  ℕ, zero, suc, ◌-◌, ◌<◌, ◌≡◌, refl, ap, ◌∙◌, List, [], ◌∷◌, ◌++◌, map, Option, none, some, leb,
  ltb, if◌then◌else◌, Bool, true, false, length, take, drop, All, Result, ok, err, arith, inl, inr,
  Bool-cases,
}
use vedadb_driver.Wire.Stream.{Stream, flat, IsLive, read_exact}
use vedadb_driver.Wire.Stream
use vedadb_driver.Wire.Frame.{
  Frame, FrameError, check_header, read_body, read_opflags, read_payload, read_header, read_frame,
}
use vedadb_driver.Wire.Frame.Decode.{IsFrame, encoding}
use vedadb_driver.Wire.Frame.RoundTrip.{sent-encoding, read_frame-write_frame}
use vedadb_driver.Wire.Reader.{
  bytes, Socket, Read, got, eof, Round, dispatch, sock_loop, sock_read, round_body, round_opflags,
  round_payload, round_header, round, read_loop, read_loop-round,
}

-- The same bytes in the same pieces, with no timeout between them.
abbrev pub busy : Stream → Socket
busy = map bytes

abbrev lift : Option (List ℕ) × Stream → Read × Socket
lift r = (elim r.0 [ none ↦ eof | some b ↦ got b ], busy r.1)

same_step :
    (b : Bool) (s : Stream) (r : Read × Socket) (q : Option (List ℕ) × Stream)
    → r ≡ lift q
    → (if b then (eof, busy s) else r) ≡ lift (if b then (none, s) else q)
same_step true s r q e = refl
same_step false s r q e = e

sock_loop-busy :
    (fuel r : ℕ) (acc : List ℕ) (s : Stream)
    → sock_loop fuel r acc (busy s) ≡ lift (Stream.read_loop fuel r acc s)
unfolding sock_loop Stream.read_loop
sock_loop-busy fuel zero acc s = refl
sock_loop-busy zero (suc r) acc s = refl
sock_loop-busy (suc fuel) (suc r) acc [] = refl
sock_loop-busy (suc fuel) (suc r) acc (c ∷ s) = elim (Bool-cases (leb (length c) (suc r))) [
  | inl p ↦ rw p (same_step _ s _ _ (sock_loop-busy fuel (suc r - length c) (acc ++ c) s))
  | inr p ↦ rw p (
      same_step _ (drop (suc r) c ∷ s) _ _ (
        sock_loop-busy fuel (suc r - length (take (suc r) c)) (acc ++ take (suc r) c)
          (drop (suc r) c ∷ s)))
]

sock_read-busy : (n : ℕ) (s : Stream) → sock_read n (busy s) ≡ lift (read_exact n s)
unfolding sock_read read_exact
sock_read-busy n s = sock_loop-busy n n [] s

-- Where a stage of `read_frame` returns a frame, the same stage of the loop dispatches it and
-- leaves the same bytes.
abbrev Same : Result FrameError Frame × Stream → Frame → Round × Socket → Type 0
Same r f q = r.0 ≡ ok f → q ≡ (dispatch f, busy r.1)

body-Same :
    (seq : ℕ) (opflags : List ℕ) (r : Option (List ℕ) × Stream) (f : Frame)
    → Same (read_body seq opflags r) f (round_body seq opflags (lift r))
unfolding read_body round_body
body-Same seq opflags (none, s) f h = cc
body-Same seq opflags (some b, s) f h = ap (λ g. (dispatch g, busy s)) (ground arith)

opflags-Same :
    (seq p : ℕ) (r : Option (List ℕ) × Stream) (f : Frame)
    → Same (read_opflags seq p r) f (round_opflags seq p (lift r))
unfolding read_opflags round_opflags
opflags-Same seq p (none, s) f h = cc
opflags-Same seq p (some b, s) f h = elim (Bool-cases (ltb 0 (p - 2))) [
  | inl e ↦ rw (e, sock_read-busy) (body-Same seq b (read_exact (p - 2) s) f (rw e at h))
  | inr e ↦ rw e (body-Same seq b (some [], s) f (rw e at h))
]

payload-Same :
    (hdr : List ℕ) (c : Result FrameError ℕ) (s : Stream) (f : Frame)
    → Same (read_payload hdr c s) f (round_payload hdr c (busy s))
unfolding read_payload round_payload
payload-Same hdr (err e) s f h = cc
payload-Same hdr (ok p) s f h = rw sock_read-busy (opflags-Same _ p (read_exact 2 s) f h)

header-Same :
    (r : Option (List ℕ) × Stream) (f : Frame) → Same (read_header r) f (round_header (lift r))
unfolding read_header round_header
header-Same (none, s) f h = cc
header-Same (some hdr, s) f h = payload-Same hdr (check_header hdr) s f h

-- On a connection that does not idle, a round of the reader thread dispatches the frame that
-- `read_frame` returns.
pub round-Same : (s : Stream) (f : Frame) → Same (read_frame s) f (round (busy s))
unfolding round read_frame
round-Same s f h = rw sock_read-busy (header-Same (read_exact 8 s) f h)

-- The bytes of frames sent one after another.
abbrev pub encodings : List Frame → List ℕ
encodings [] = []
encodings (f ∷ fs) = encoding f ++ encodings fs

read_loop_end : (k : ℕ) → read_loop (suc k) [] ≡ []
unfolding read_loop round
read_loop_end k = refl

-- The reader thread dispatches exactly the frames that were sent, in order, however the bytes
-- arrive, and then meets the end of the connection; one round for each frame and one more are
-- enough.
pub read_loop-encodings :
    (rounds : ℕ) (fs : List Frame) (s : Stream)
    → length fs < rounds
    → All IsFrame fs
    → IsLive s
    → flat s ≡ encodings fs
    → read_loop rounds (busy s) ≡ fs
unfolding read_loop
read_loop-encodings zero fs s n h l e = absurd (omega arith)
read_loop-encodings (suc k) [] [] n h l e = read_loop_end k
read_loop-encodings (suc k) [] ([] ∷ s) n h l e = absurd (omega (arith, l.0))
read_loop-encodings (suc k) [] ((b ∷ c) ∷ s) n h l e = cc
read_loop-encodings (suc k) (f ∷ fs) s n h l e =
    let (a, left, live) =
      read_frame-write_frame f (encoding f) (encodings fs) s h.0 l (sent-encoding f h.0) e in
    read_loop-round k (busy s) (round-Same s f a)
    ∙ ap (λ t. f ∷ t) (read_loop-encodings k fs (read_frame s).1 (omega arith) h.1 live left)
