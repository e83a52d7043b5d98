-- ===== src/Wire/Frame.antt =====
-- python/vedadb/wire/vbp/frame.py: frames of the binary protocol. Bytes are numbers below 256, an
-- exception is a value of `FrameError`, and the texts of the messages are left out.
pub mod Decode
pub mod RoundTrip
pub mod Payload
pub mod Framing
mod Examples
use vedadb_driver.Base.{
  ℕ, zero, suc, ◌+◌, ◌-◌, ◌*◌, ◌%◌, Bool, true, false, not, ◌&&◌, Option, none, some, List, [], ◌∷◌,
  ◌++◌, ltb, leb, ◌==◌, if◌then◌else◌, length, take, drop, Result, ok, err, ◌>>=◌,
}
use vedadb_driver.Base.Int.{ℤ, pos, negsuc}
use vedadb_driver.Base.Bytes.{le_bytes, le_value}
use vedadb_driver.Wire.Stream.{Stream, read_exact}

abbrev pub magic : List ℕ
magic = 0x56 ∷ 0x44 ∷ 0x42 ∷ []

abbrev pub magic_len : ℕ
magic_len = 3

abbrev pub len_len : ℕ
len_len = 4

abbrev pub seq_len : ℕ
seq_len = 1

abbrev pub hdr_len : ℕ
hdr_len = magic_len + len_len + seq_len

abbrev pub op_len : ℕ
op_len = 1

abbrev pub flags_len : ℕ
flags_len = 1

abbrev pub opflags_len : ℕ
opflags_len = op_len + flags_len

abbrev pub max_frame_len : ℕ
max_frame_len = 64 * 1024 * 1024

-- `out_of_range` and `incomplete` are the two uses of `ValueError`.
pub data FrameError : Type 0 where
  bad_magic frame_too_short frame_too_large connection_closed out_of_range incomplete : FrameError

pub record Frame : Type 0 where
  pub seq : ℕ
  pub op : ℕ
  pub flags : ℕ
  pub body : List ℕ

-- `if not 0 <= v <= 0xFF: raise ValueError`
unfoldable pub check_u8 : ℤ → Result FrameError ℕ
check_u8 (pos n) = if leb n 0xff then ok n else err out_of_range
check_u8 (negsuc n) = err out_of_range

-- `Frame.__init__`
unfoldable pub make_frame : ℤ → ℤ → ℤ → List ℕ → Result FrameError Frame
unfolding check_u8
make_frame seq op flags body = do
  s ← check_u8 seq
  o ← check_u8 op
  f ← check_u8 flags
  ok (record { seq = s; op = o; flags = f; body = body })

-- The bytes written to `stream` before come first. A raise happens before the first write.
unfoldable pub write_frame : List ℕ → ℤ → ℤ → ℤ → List ℕ → Result FrameError (List ℕ)
unfolding check_u8
write_frame stream seq op flags body = do
  s ← check_u8 seq
  o ← check_u8 op
  f ← check_u8 flags
  if ltb max_frame_len (opflags_len + length body)
      then err frame_too_large
      else ok (
          stream
          ++ (magic
              ++ (le_bytes len_len (opflags_len + length body)
                  ++ ((s % 256) ∷ (o % 256) ∷ (f % 256) ∷ body))))

unfoldable pub frame_bytes : ℤ → ℤ → ℤ → List ℕ → Result FrameError (List ℕ)
unfolding write_frame
frame_bytes seq op flags body = write_frame [] seq op flags body

-- `a == b` on bytes.
unfoldable pub bytes_eq : List ℕ → List ℕ → Bool
bytes_eq [] [] = true
bytes_eq (a ∷ xs) (b ∷ ys) = (a == b) && bytes_eq xs ys
bytes_eq _ _ = false

-- `data[i]`; the callers have checked that `i` is in range.
unfoldable pub byte_at : List ℕ → ℕ → ℕ
byte_at [] i = 0
byte_at (b ∷ bs) zero = b
byte_at (b ∷ bs) (suc i) = byte_at bs i

-- What both readers take from the eight bytes of the header: the payload length.
unfoldable pub payload_len_of : List ℕ → ℕ
payload_len_of hdr = le_value (take len_len (drop magic_len hdr))

-- The tests of the header, in the order of the source.
unfoldable pub check_header : List ℕ → Result FrameError ℕ
unfolding bytes_eq payload_len_of
check_header hdr =
    if not (bytes_eq (take magic_len hdr) magic)
    then err bad_magic
    else if ltb (payload_len_of hdr) opflags_len
    then err frame_too_short
    else if ltb max_frame_len (payload_len_of hdr)
    then err frame_too_large
    else ok (payload_len_of hdr)

unfoldable pub read_frame_bytes : List ℕ → Result FrameError (Frame × ℕ)
unfolding check_header make_frame byte_at
read_frame_bytes data' = if ltb (length data') hdr_len then err incomplete else do
  payload_len ← check_header data'
  if ltb (length data') (hdr_len + payload_len) then err incomplete else do
    frame ←
        make_frame (pos (byte_at data' (magic_len + len_len))) (pos (byte_at data' hdr_len))
          (pos (byte_at data' (hdr_len + 1)))
          (take (payload_len - opflags_len) (drop (hdr_len + opflags_len) data'))
    ok (frame, hdr_len + payload_len)

-- `read_frame` after the header: what `_read_exact` answers for op and flags, and for the body.
unfoldable pub read_body : ℕ → List ℕ → Option (List ℕ) × Stream → Result FrameError Frame × Stream
unfolding make_frame byte_at
read_body seq opflags (none, s) = (err connection_closed, s)
read_body seq opflags (some body, s) =
    (make_frame (pos seq) (pos (byte_at opflags 0)) (pos (byte_at opflags 1)) body, s)

unfoldable pub read_opflags : ℕ → ℕ → Option (List ℕ) × Stream → Result FrameError Frame × Stream
unfolding read_body read_exact
read_opflags seq payload_len (none, s) = (err connection_closed, s)
read_opflags seq payload_len (some opflags, s) = read_body seq opflags (
    if ltb 0 (payload_len - opflags_len)
    then read_exact (payload_len - opflags_len) s
    else (some [], s))

unfoldable pub read_payload :
    List ℕ → Result FrameError ℕ → Stream → Result FrameError Frame × Stream
unfolding read_opflags read_exact
read_payload hdr (err e) s = (err e, s)
read_payload hdr (ok payload_len) s =
    read_opflags (byte_at hdr (magic_len + len_len)) payload_len (read_exact opflags_len s)

unfoldable pub read_header : Option (List ℕ) × Stream → Result FrameError Frame × Stream
unfolding read_payload check_header
read_header (none, s) = (err connection_closed, s)
read_header (some hdr, s) = read_payload hdr (check_header hdr) s

unfoldable pub read_frame : Stream → Result FrameError Frame × Stream
unfolding read_header read_exact
read_frame s = read_header (read_exact hdr_len s)
