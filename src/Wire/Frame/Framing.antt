-- ===== src/Wire/Frame/Framing.antt =====
-- `read_frame` of python/vedadb/wire/vbp/frame.py against `read_frame_bytes`.
use vedadb_driver.Base.{
  ℕ, ◌≤◌, ◌<◌, ◌≡◌, refl, ap, ◌∙◌, Option, none, some, List, [], ◌∷◌, ◌≢◌, ◌>>=◌, ◌++◌, arith,
  length, Result, ok, err,
}
use vedadb_driver.Wire.Stream.{Stream, read_exact, flat, IsLive}
use vedadb_driver.Wire.Stream.Exact.{Reads, read_exact-Reads, read_exact_short}
use vedadb_driver.Wire.Frame.{
  Frame, FrameError, bad_magic, incomplete, connection_closed, read_frame_bytes, check_header,
  byte_at, read_payload, read_header, read_frame,
}
use vedadb_driver.Wire.Frame.Payload.{Agrees, parsed_payload, payload-Agrees}

err-Agrees :
    (bytes : List ℕ) (e : FrameError) (r : Result FrameError Frame × Stream)
    → e ≢ incomplete
    → r.0 ≡ err e
    → Agrees bytes (err e) r
err-Agrees bytes incomplete r ne h = absurd (ne refl)
err-Agrees bytes bad_magic r ne h = h
err-Agrees bytes _ r ne h = h

check_header-ok : (hdr : List ℕ) (p : ℕ) → check_header hdr ≡ ok p → 2 ≤ p
unfolding check_header
check_header-ok hdr p h = ground arith

check_header-ne-incomplete : (hdr : List ℕ) → check_header hdr ≢ err incomplete
unfolding check_header
check_header-ne-incomplete hdr h = ground arith

header-Agrees :
    (front rest : List ℕ) (seq : ℕ) (s : Stream) (c : Result FrameError ℕ)
    → check_header front ≡ c
    → length front ≡ 8
    → byte_at front 7 ≡ seq
    → flat s ≡ rest
    → IsLive s
    → Agrees (front ++ rest) (c >>= λ p. parsed_payload seq p rest) (read_payload front c s)
unfolding read_payload
header-Agrees front rest seq s (err e) h len b eq l =
    err-Agrees (front ++ rest) e (err e, s) (λ i. check_header-ne-incomplete front (h ∙ ap err i))
      refl
header-Agrees front rest seq s (ok p) h len b eq l =
    rw b (payload-Agrees seq p front rest s len (check_header-ok front p h) eq l)

read_header_some :
    (r : Option (List ℕ) × Stream) {hdr rest : List ℕ}
    → Reads r hdr rest
    → read_header r ≡ read_payload hdr (check_header hdr) r.1
unfolding read_header
read_header_some (none, s) h = cc (h.bytes_read)
read_header_some (some b, s) h = cc (h.bytes_read)

read_header-none :
    (r : Option (List ℕ) × Stream) → r.0 ≡ none → (read_header r).0 ≡ err connection_closed
unfolding read_header
read_header-none (none, s) h = refl
read_header-none (some b, s) h = cc

read_frame_short :
    (s : Stream) → IsLive s → length (flat s) < 8 → (read_frame s).0 ≡ err connection_closed
unfolding read_frame
read_frame_short s l h = read_header-none _ (read_exact_short 8 s l h)

read_frame_bytes_short :
    (bytes : List ℕ) → length bytes < 8 → read_frame_bytes bytes ≡ err incomplete
unfolding read_frame_bytes
read_frame_bytes_short bytes h = ground arith

read_frame_bytes_header :
    (m0 m1 m2 a b c d seq : ℕ) (rest : List ℕ)
    → read_frame_bytes (m0 ∷ m1 ∷ m2 ∷ a ∷ b ∷ c ∷ d ∷ seq ∷ rest)
      ≡ (check_header (m0 ∷ m1 ∷ m2 ∷ a ∷ b ∷ c ∷ d ∷ seq ∷ []) >>= λ p. parsed_payload seq p rest)
unfolding read_frame_bytes parsed_payload
read_frame_bytes_header m0 m1 m2 a b c d seq rest = ground arith

read_frame-Agrees_at :
    (bytes : List ℕ) (s : Stream)
    → flat s ≡ bytes
    → IsLive s
    → Agrees bytes (read_frame_bytes bytes) (read_frame s)
unfolding read_frame byte_at
read_frame-Agrees_at (m0 ∷ m1 ∷ m2 ∷ a ∷ b ∷ c ∷ d ∷ seq ∷ rest) s eq l =
    let hdr : List ℕ = m0 ∷ m1 ∷ m2 ∷ a ∷ b ∷ c ∷ d ∷ seq ∷ [] in
    let reads : Reads (read_exact 8 s) hdr rest =
      rw eq at (read_exact-Reads 8 s l (rw eq (omega arith))) in
    rw (read_frame_bytes_header m0 m1 m2 a b c d seq rest, read_header_some _ reads)
      (header-Agrees hdr rest seq _ _ refl refl refl reads.left reads.live)
read_frame-Agrees_at bytes s eq l =
    rw (read_frame_bytes_short bytes (omega arith)) (read_frame_short s l (rw eq (omega arith)))

-- However a live stream cuts its bytes into pieces, `read_frame` returns the frame that
-- `read_frame_bytes` finds in them and leaves the bytes behind it, raises the same error, or raises
-- VBPConnectionClosed where the bytes end too early.
pub read_frame-Agrees :
    (s : Stream) → IsLive s → Agrees (flat s) (read_frame_bytes (flat s)) (read_frame s)
read_frame-Agrees s l = read_frame-Agrees_at (flat s) s refl l
