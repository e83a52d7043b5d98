-- ===== src/Wire/Frame/Examples.antt =====
-- Frames of python/vedadb/wire/vbp/frame.py at concrete values.
use vedadb_driver.Base.{ℕ, ◌≡◌, refl, List, [], ◌∷◌, ◌++◌, ◌+◌, arith, length, drop, ok}
use vedadb_driver.Base.Bytes.{IsBytes, le_bytes, le_value}
use vedadb_driver.Wire.Stream.{Stream, flat, IsLive}
use vedadb_driver.Wire.Frame.{Frame, read_frame_bytes, read_frame}
use vedadb_driver.Wire.Frame.Decode.{IsFrame, encoding, read_frame_bytes-ok}
use vedadb_driver.Wire.Frame.Payload.{Agrees}
use vedadb_driver.Wire.Frame.Framing.{read_frame-Agrees}
use vedadb_driver.Wire.Frame.RoundTrip.{sent, sent-encoding, read_frame-write_frame}

-- A frame with number 7, opcode 0x10 and two bytes.
abbrev query : Frame
query = record { seq = 7; op = 0x10; flags = 0; body = 65 ∷ 66 ∷ [] }

query-IsFrame : IsFrame query
query-IsFrame = record {
  seq_byte = omega arith;
  op_byte = omega arith;
  flags_byte = omega arith;
  body_bytes = (omega arith, (omega arith, tt));
  fits = omega arith;
}

abbrev query_bytes : List ℕ
query_bytes = 0x56 ∷ 0x44 ∷ 0x42 ∷ 4 ∷ 0 ∷ 0 ∷ 0 ∷ 7 ∷ 0x10 ∷ 0 ∷ 65 ∷ 66 ∷ []

sent-query : sent query ≡ ok query_bytes
unfolding le_bytes
sent-query = sent-encoding query query-IsFrame

-- The frame in three pieces, with two more bytes behind it.
abbrev pieces : Stream
pieces =
    (0x56 ∷ 0x44 ∷ []) ∷ (0x42 ∷ 4 ∷ 0 ∷ 0 ∷ 0 ∷ 7 ∷ 0x10 ∷ []) ∷ (0 ∷ 65 ∷ 66 ∷ 1 ∷ 2 ∷ []) ∷ []

pieces-IsLive : IsLive pieces
pieces-IsLive = (omega arith, (omega arith, (omega arith, tt)))

read_query : read_frame_bytes (query_bytes ++ 1 ∷ 2 ∷ []) ≡ ok (query, 12)
unfolding read_frame_bytes le_value
read_query = refl

read_frame-write_frame_example :
    ((read_frame pieces).0 ≡ ok query)
    × (flat (read_frame pieces).1 ≡ 1 ∷ 2 ∷ [])
    × IsLive (read_frame pieces).1
read_frame-write_frame_example =
    read_frame-write_frame query query_bytes (1 ∷ 2 ∷ []) pieces query-IsFrame pieces-IsLive
      sent-query refl

read_frame-Agrees_example :
    Agrees
      (query_bytes ++ 1 ∷ 2 ∷ [])
      (read_frame_bytes (query_bytes ++ 1 ∷ 2 ∷ []))
      (read_frame pieces)
read_frame-Agrees_example = read_frame-Agrees pieces pieces-IsLive

query_bytes-IsBytes : IsBytes (query_bytes ++ 1 ∷ 2 ∷ [])
query_bytes-IsBytes = grind arith

read_frame_bytes-ok_example :
    IsFrame query
    × (12 ≡ 10 + length query.body)
    × (query_bytes ++ 1 ∷ 2 ∷ [] ≡ encoding query ++ drop 12 (query_bytes ++ 1 ∷ 2 ∷ []))
read_frame_bytes-ok_example =
    read_frame_bytes-ok (query_bytes ++ 1 ∷ 2 ∷ []) query 12 query_bytes-IsBytes read_query
