-- ===== src/Wire/Reader/Examples.antt =====
-- The reader thread of python/vedadb/wire/vbp/multiplexer.py at concrete values.
use vedadb_driver.Base.{◌≡◌, refl, [], ◌∷◌, arith}
use vedadb_driver.Base.Bytes.{le_bytes}
use vedadb_driver.Wire.Stream.{Stream, flat}
use vedadb_driver.Wire.Frame.{Frame}
use vedadb_driver.Wire.Frame.Decode.{IsFrame}
use vedadb_driver.Wire.Reader.{read_loop}
use vedadb_driver.Wire.Reader.Frames.{busy, encodings, read_loop-encodings}

abbrev pong : Frame
pong = record { seq = 3; op = 0x17; flags = 0; body = [] }

abbrev row : Frame
row = record { seq = 4; op = 0x0a; flags = 0; body = 1 ∷ 2 ∷ 3 ∷ 4 ∷ 5 ∷ 6 ∷ [] }

pong-IsFrame : IsFrame pong
pong-IsFrame = record {
  seq_byte = omega arith;
  op_byte = omega arith;
  flags_byte = omega arith;
  body_bytes = tt;
  fits = omega arith;
}

row-IsFrame : IsFrame row
row-IsFrame = record {
  seq_byte = omega arith;
  op_byte = omega arith;
  flags_byte = omega arith;
  body_bytes =
      (omega arith, (omega arith, (omega arith, (omega arith, (omega arith, (omega arith, tt))))));
  fits = omega arith;
}

-- The bytes of both, cut within the second header.
abbrev cut : Stream
cut =
    (0x56 ∷ 0x44 ∷ 0x42 ∷ 2 ∷ 0 ∷ 0 ∷ 0 ∷ 3 ∷ 0x17 ∷ 0 ∷ 0x56 ∷ 0x44 ∷ [])
    ∷ (0x42 ∷ 8 ∷ 0 ∷ 0 ∷ 0 ∷ 4 ∷ 0x0a ∷ 0 ∷ 1 ∷ 2 ∷ 3 ∷ 4 ∷ 5 ∷ 6 ∷ [])
    ∷ []

cut_bytes : flat cut ≡ encodings (pong ∷ row ∷ [])
unfolding le_bytes
cut_bytes = refl

read_loop-encodings_example : read_loop 3 (busy cut) ≡ pong ∷ row ∷ []
read_loop-encodings_example =
    read_loop-encodings 3 (pong ∷ row ∷ []) cut (omega arith) (pong-IsFrame, (row-IsFrame, tt))
      (omega arith, (omega arith, tt)) cut_bytes
