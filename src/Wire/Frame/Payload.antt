-- ===== src/Wire/Frame/Payload.antt =====
-- The part of `read_frame` of python/vedadb/wire/vbp/frame.py behind the header, against
-- `read_frame_bytes`.
use vedadb_driver.Base.{
  ℕ, zero, suc, ◌+◌, ◌-◌, ◌≤◌, ◌<◌, ◌≡◌, refl, ap, sym, ◌∙◌, inl, inr, Option, none, some, List, [],
  ◌∷◌, ◌⊎◌, ◌>>=◌, append_assoc, drop-append_ge, ◌++◌, arith, ltb, length, length-append, take,
  drop, Result, ok, err, Result-cases, if◌then◌else◌,
}
use native.Mathlib.Decide.{dec_lt}
use vedadb_driver.Base.Int.{ℤ, pos}
use vedadb_driver.Wire.Stream.{Stream, read_exact, flat, IsLive}
use vedadb_driver.Wire.Stream.Exact.{Reads, read_exact-Reads, read_exact_short}
use vedadb_driver.Wire.Frame.{
  Frame, FrameError, bad_magic, frame_too_short, frame_too_large, out_of_range, incomplete,
  connection_closed, make_frame, byte_at, read_body, read_opflags,
}

-- What `read_frame` returns and leaves where `read_frame_bytes` gives an answer on the bytes that
-- the stream holds: a buffer that is too short is a connection that closes.
abbrev pub Agrees :
    List ℕ → Result FrameError (Frame × ℕ) → Result FrameError Frame × Stream → Type 0
Agrees bytes (ok (f, n)) r = (r.0 ≡ ok f) × (flat r.1 ≡ drop n bytes) × IsLive r.1
Agrees bytes (err incomplete) r = r.0 ≡ err connection_closed
Agrees bytes (err bad_magic) r = r.0 ≡ err bad_magic
Agrees bytes (err frame_too_short) r = r.0 ≡ err frame_too_short
Agrees bytes (err frame_too_large) r = r.0 ≡ err frame_too_large
Agrees bytes (err connection_closed) r = r.0 ≡ err connection_closed
Agrees bytes (err out_of_range) r = r.0 ≡ err out_of_range

-- The answer to a read, whatever the stream looks like.
record Answers (r : Result FrameError Frame × Stream) (e : Result FrameError Frame) (rest : List ℕ)
    : Type 0 where
  answer : r.0 ≡ e
  left : flat r.1 ≡ rest
  live : IsLive r.1

Answers-eq :
    {r : Result FrameError Frame × Stream} {e : Result FrameError Frame} {rest rest' : List ℕ}
    → Answers r e rest
    → rest ≡ rest'
    → Answers r e rest'
Answers-eq h p = record { answer = h.answer; left = h.left ∙ p; live = h.live }

make_frame_cases :
    (seq op flags : ℤ) (body : List ℕ)
    → (make_frame seq op flags body ≡ err out_of_range)
      ⊎ ((f : Frame) × (make_frame seq op flags body ≡ ok f))
unfolding make_frame
make_frame_cases seq op flags body = elim (Result-cases (make_frame seq op flags body)) [
  | inl (f, e) ↦ inr (f, e)
  | inr (x, e) ↦ inl (ground arith)
]

-- An answer is the one of `read_frame_bytes` if the bytes left are those behind the frame.
Answers→Agrees :
    (seq op flags : ℤ) (body bytes : List ℕ) (n : ℕ) {r : Result FrameError Frame × Stream}
    → Answers r (make_frame seq op flags body) (drop n bytes)
    → Agrees bytes (make_frame seq op flags body >>= λ f. ok (f, n)) r
Answers→Agrees seq op flags body bytes n h = elim (make_frame_cases seq op flags body) [
  | inl e ↦ rw e (h.answer ∙ e)
  | inr (f, e) ↦ rw e (h.answer ∙ e, h.left, h.live)
]

read_body_some :
    (seq : ℕ) (opflags : List ℕ) (r : Option (List ℕ) × Stream) {bytes rest : List ℕ}
    → Reads r bytes rest
    → Answers
        (read_body seq opflags r)
        (make_frame (pos seq) (pos (byte_at opflags 0)) (pos (byte_at opflags 1)) bytes)
        rest
unfolding read_body
read_body_some seq opflags (none, s) h = cc (h.bytes_read)
read_body_some seq opflags (some b, s) h = record {
  answer = cc (h.bytes_read);
  left = h.left;
  live = h.live;
}

read_body-none :
    (seq : ℕ) (opflags : List ℕ) (r : Option (List ℕ) × Stream)
    → r.0 ≡ none
    → (read_body seq opflags r).0 ≡ err connection_closed
unfolding read_body
read_body-none seq opflags (none, s) h = refl
read_body-none seq opflags (some b, s) h = cc

-- The read of the body, which is skipped where there is none.
abbrev body_read : ℕ → Stream → Option (List ℕ) × Stream
body_read k s = if ltb 0 k then read_exact k s else (some [], s)

body_read-suc : (k : ℕ) (s : Stream) → body_read (suc k) s ≡ read_exact (suc k) s
body_read-suc k s = ground arith

body_read-Reads :
    (k : ℕ) (s : Stream)
    → IsLive s
    → k ≤ length (flat s)
    → Reads (body_read k s) (take k (flat s)) (drop k (flat s))
body_read-Reads zero s l h = record { bytes_read = refl; left = refl; live = l }
body_read-Reads (suc k) s l h = rw (body_read-suc k s) (read_exact-Reads (suc k) s l h)

body_read_short : (k : ℕ) (s : Stream) → IsLive s → length (flat s) < k → (body_read k s).0 ≡ none
body_read_short zero s l h = absurd (omega arith)
body_read_short (suc k) s l h = rw (body_read-suc k s) (read_exact_short (suc k) s l h)

read_opflags-none :
    (seq p : ℕ) (r : Option (List ℕ) × Stream)
    → r.0 ≡ none
    → (read_opflags seq p r).0 ≡ err connection_closed
unfolding read_opflags
read_opflags-none seq p (none, s) h = refl
read_opflags-none seq p (some b, s) h = cc

read_opflags_some :
    (seq p op flags : ℕ) (rest : List ℕ) (r : Option (List ℕ) × Stream)
    → Reads r (op ∷ flags ∷ []) rest
    → read_opflags seq p r ≡ read_body seq (op ∷ flags ∷ []) (body_read (p - 2) r.1)
unfolding read_opflags
read_opflags_some seq p op flags rest (none, s) h = cc (h.bytes_read)
read_opflags_some seq p op flags rest (some b, s) h = cc (h.bytes_read)

-- Both readers behind a header whose tests passed with the payload length `p`.
unfoldable pub parsed_payload : ℕ → ℕ → List ℕ → Result FrameError (Frame × ℕ)
parsed_payload seq p rest =
    if ltb (8 + length rest) (8 + p)
    then err incomplete
    else make_frame (pos seq) (pos (byte_at rest 0)) (pos (byte_at rest 1))
        (take (p - 2) (drop 2 rest))
      >>= λ f. ok (f, 8 + p)

parsed_payload_short :
    (seq p : ℕ) (rest : List ℕ) → length rest < p → parsed_payload seq p rest ≡ err incomplete
unfolding parsed_payload
parsed_payload_short seq p rest h = ground arith

parsed_payload_whole :
    (seq p op flags : ℕ) (rest : List ℕ)
    → p ≤ 2 + length rest
    → parsed_payload seq p (op ∷ flags ∷ rest)
      ≡ (make_frame (pos seq) (pos op) (pos flags) (take (p - 2) rest) >>= λ f. ok (f, 8 + p))
unfolding parsed_payload byte_at
parsed_payload_whole seq p op flags rest h = ground arith

drop_front :
    (p op flags : ℕ) (front rest : List ℕ)
    → length front ≡ 8
    → 2 ≤ p
    → drop (p - 2) rest ≡ drop (8 + p) (front ++ (op ∷ flags ∷ rest))
drop_front p op flags front rest e h =
    ap (λ k. drop k rest) (omega (arith, length-append front (op ∷ flags ∷ [])))
    ∙ sym (
        drop-append_ge (8 + p) (front ++ (op ∷ flags ∷ [])) rest
          (omega (arith, length-append front (op ∷ flags ∷ []))))
    ∙ ap (drop (8 + p)) (append_assoc front (op ∷ flags ∷ []) rest)

opflags-Agrees :
    (seq p op flags : ℕ) (front rest : List ℕ) (r : Option (List ℕ) × Stream)
    → length front ≡ 8
    → 2 ≤ p
    → Reads r (op ∷ flags ∷ []) rest
    → Agrees
        (front ++ (op ∷ flags ∷ rest))
        (parsed_payload seq p (op ∷ flags ∷ rest))
        (read_opflags seq p r)
unfolding byte_at
opflags-Agrees seq p op flags front rest r e h reads =
    rw (read_opflags_some seq p op flags rest r reads) (elim (dec_lt (2 + length rest) p) [
      | yes short ↦ rw (parsed_payload_short seq p (op ∷ flags ∷ rest) (omega arith)) (
          read_body-none seq _ _
            (body_read_short (p - 2) r.1 reads.live (rw reads.left (omega arith))))
      | no fits ↦ rw (parsed_payload_whole seq p op flags rest (omega arith)) (
          Answers→Agrees (pos seq) (pos op) (pos flags) (take (p - 2) rest) _ (8 + p) (
            Answers-eq
              (read_body_some seq (op ∷ flags ∷ []) _ (
                rw reads.left at
                  (body_read-Reads (p - 2) r.1 reads.live (rw reads.left (omega arith)))))
              (drop_front p op flags front rest e h)))
    ])

pub payload-Agrees :
    (seq p : ℕ) (front rest : List ℕ) (s : Stream)
    → length front ≡ 8
    → 2 ≤ p
    → flat s ≡ rest
    → IsLive s
    → Agrees (front ++ rest) (parsed_payload seq p rest) (read_opflags seq p (read_exact 2 s))
payload-Agrees seq p front [] s e h eq l =
    rw (parsed_payload_short seq p [] (omega arith))
      (read_opflags-none seq p _ (read_exact_short 2 s l (rw eq (omega arith))))
payload-Agrees seq p front (x ∷ []) s e h eq l =
    rw (parsed_payload_short seq p (x ∷ []) (omega arith))
      (read_opflags-none seq p _ (read_exact_short 2 s l (rw eq (omega arith))))
payload-Agrees seq p front (op ∷ flags ∷ rest) s e h eq l =
    opflags-Agrees seq p op flags front rest (read_exact 2 s) e h
      (rw eq at (read_exact-Reads 2 s l (rw eq (omega arith))))
