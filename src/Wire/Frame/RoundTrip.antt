-- ===== src/Wire/Frame/RoundTrip.antt =====
-- Writing a frame and reading it back: `frame_bytes`, `write_frame`, `read_frame_bytes` and
-- `read_frame` of python/vedadb/wire/vbp/frame.py.
use vedadb_driver.Base.{
  ℕ, ◌+◌, ◌≤◌, ◌<◌, ◌≡◌, ◌↔◌, refl, ap, sym, ◌∙◌, true, false, ◌&&◌, List, [], ◌∷◌, ◌++◌, arith,
  length, length-append, drop, drop-append, Result, ok, err, ◌>>=◌,
}
use vedadb_driver.Base.Int.{ℤ, pos, within}
use vedadb_driver.Base.Bytes.{le_bytes, le_value, le_value-le_bytes, length-le_bytes}
use vedadb_driver.Wire.Stream.{Stream, flat, IsLive}
use vedadb_driver.Wire.Frame.{
  max_frame_len, Frame, FrameError, frame_too_large, out_of_range, incomplete, read_frame_bytes,
  read_frame, write_frame, frame_bytes,
}
use vedadb_driver.Wire.Frame.Decode.{
  IsFrame, encoding, write_frame-encoding, read_frame_bytes-encoding,
}
use vedadb_driver.Wire.Frame.Payload.{Agrees}
use vedadb_driver.Wire.Frame.Framing.{read_frame-Agrees}

abbrev pub sent : Frame → Result FrameError (List ℕ)
sent f = frame_bytes (pos f.seq) (pos f.op) (pos f.flags) f.body

pub sent-encoding : (f : Frame) → IsFrame f → sent f ≡ ok (encoding f)
unfolding frame_bytes
sent-encoding f h = write_frame-encoding [] f h

-- The bytes of a frame, whatever bytes follow them, are read back as that frame, and exactly they
-- are consumed.
read_frame_bytes-frame_bytes :
    (f : Frame) (rest : List ℕ)
    → IsFrame f
    → (sent f >>= λ bytes. read_frame_bytes (bytes ++ rest)) ≡ ok (f, 10 + length f.body)
read_frame_bytes-frame_bytes f rest h = rw (sent-encoding f h) (read_frame_bytes-encoding f rest h)

length-encoding : (f : Frame) → length (encoding f) ≡ 10 + length f.body
length-encoding f = omega (
  arith,
  length-append (le_bytes 4 (2 + length f.body)) (f.seq ∷ f.op ∷ f.flags ∷ f.body),
  length-le_bytes 4 (2 + length f.body),
)

-- A frame written behind others on a stream is read by `read_frame` from any live stream that
-- starts with its bytes, and the bytes behind it are left.
pub read_frame-write_frame :
    (f : Frame) (bytes rest : List ℕ) (s : Stream)
    → IsFrame f
    → IsLive s
    → sent f ≡ ok bytes
    → flat s ≡ bytes ++ rest
    → ((read_frame s).0 ≡ ok f) × (flat (read_frame s).1 ≡ rest) × IsLive (read_frame s).1
read_frame-write_frame f bytes rest s h l e eq =
    let eb : encoding f ≡ bytes = cc (sent-encoding f h, e) in
    let whole : flat s ≡ encoding f ++ rest = eq ∙ ap (λ b. b ++ rest) (sym eb) in
    let agrees : Agrees (encoding f ++ rest) (ok (f, 10 + length f.body)) (read_frame s) =
      rw (whole, read_frame_bytes-encoding f rest h) at (read_frame-Agrees s l) in
    (
      agrees.0,
      agrees.1
          ∙ (ap (λ k. drop k (encoding f ++ rest)) (sym (length-encoding f))
              ∙ drop-append (encoding f) rest),
      agrees.2,
    )

-- `write_frame` raises ValueError exactly if a field is no byte, and VBPFrameTooLarge exactly if all
-- three are bytes and the payload is longer than MAX_FRAME_LEN.
write_frame-err :
    (out : List ℕ) (seq op flags : ℤ) (body : List ℕ)
    → let bytes = within 0 0xff seq && (within 0 0xff op && within 0 0xff flags) in
      let r = write_frame out seq op flags body in
      ((r ≡ err out_of_range) ↔ (bytes ≡ false))
      × ((r ≡ err frame_too_large) ↔ ((bytes ≡ true) × (max_frame_len < 2 + length body)))
unfolding write_frame
write_frame-err out seq op flags body = ground arith

header_parts :
    (f : Frame) (p0 p1 p2 p3 p4 p5 p6 : ℕ) (rest : List ℕ)
    → IsFrame f
    → encoding f ≡ p0 ∷ p1 ∷ p2 ∷ p3 ∷ p4 ∷ p5 ∷ p6 ∷ rest
    → (p0 ≡ 0x56)
      × (p1 ≡ 0x44)
      × (p2 ≡ 0x42)
      × (le_value (p3 ∷ p4 ∷ p5 ∷ p6 ∷ []) ≡ 2 + length f.body)
      × (length rest ≡ 3 + length f.body)
unfolding le_bytes le_value
header_parts f p0 p1 p2 p3 p4 p5 p6 rest h e =
    ground (arith, le_value-le_bytes 4 (2 + length f.body) (omega (arith, h.fits)))

-- A header whose tests pass, and too few bytes behind it.
read_frame_bytes_cut :
    (p3 p4 p5 p6 : ℕ) (rest : List ℕ)
    → let n = le_value (p3 ∷ p4 ∷ p5 ∷ p6 ∷ []) in
      2 ≤ n
      → n ≤ max_frame_len
      → length rest < 1 + n
      → read_frame_bytes (0x56 ∷ 0x44 ∷ 0x42 ∷ p3 ∷ p4 ∷ p5 ∷ p6 ∷ rest) ≡ err incomplete
unfolding read_frame_bytes
read_frame_bytes_cut p3 p4 p5 p6 rest lo hi h = ground arith

-- On every proper prefix of the bytes of a frame `read_frame_bytes` asks for more.
read_frame_bytes-prefix :
    (f : Frame) (front back : List ℕ) (x : ℕ)
    → IsFrame f
    → sent f ≡ ok (front ++ (x ∷ back))
    → read_frame_bytes front ≡ err incomplete
unfolding read_frame_bytes
read_frame_bytes-prefix f (p0 ∷ p1 ∷ p2 ∷ p3 ∷ p4 ∷ p5 ∷ p6 ∷ front) back x h e =
    let (e0, e1, e2, en, el) =
      header_parts f p0 p1 p2 p3 p4 p5 p6 (front ++ (x ∷ back)) h (cc (sent-encoding f h, e)) in
    rw (e0, e1, e2)
      (read_frame_bytes_cut p3 p4 p5 p6 front (omega (arith, en)) (omega (arith, en, h.fits))
        (omega (arith, en, el, length-append front (x ∷ back))))
read_frame_bytes-prefix f front back x h e = refl
