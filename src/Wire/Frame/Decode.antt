-- ===== src/Wire/Frame/Decode.antt =====
-- `write_frame` and `read_frame_bytes` of python/vedadb/wire/vbp/frame.py.
use vedadb_driver.Base.{
  ℕ, ◌+◌, ◌-◌, ◌≤◌, ◌≡◌, ap, ◌∙◌, List, [], ◌∷◌, ◌++◌, arith, length, length-append, take, drop,
  take-append, length-take, All-take, take-append-drop, drop-append_ge, ok, ◌%◌, ◌/◌,
}
use vedadb_driver.Base.Int.{pos}
use vedadb_driver.Base.Bytes.{
  IsByte, IsBytes, le_bytes, le_value, le_value-le_bytes, le_bytes-le_value,
}
use vedadb_driver.Wire.Frame.{magic, max_frame_len, Frame, write_frame, read_frame_bytes}

-- A frame as `Frame.__init__` accepts it, small enough to be sent.
pub record IsFrame (f : Frame) : Type 0 where
  pub seq_byte : IsByte f.seq
  pub op_byte : IsByte f.op
  pub flags_byte : IsByte f.flags
  pub body_bytes : IsBytes f.body
  pub fits : 2 + length f.body ≤ max_frame_len

-- The wire format of the module's docstring.
abbrev pub encoding : Frame → List ℕ
encoding f = magic ++ (le_bytes 4 (2 + length f.body) ++ (f.seq ∷ f.op ∷ f.flags ∷ f.body))

pub write_frame-encoding :
    (out : List ℕ) (f : Frame)
    → IsFrame f
    → write_frame out (pos f.seq) (pos f.op) (pos f.flags) f.body ≡ ok (out ++ encoding f)
unfolding write_frame
write_frame-encoding out f h = ground arith

-- A header of which every test passes, and enough bytes behind it.
read_frame_bytes_parts :
    (a b c d seq op flags : ℕ) (rest : List ℕ)
    → let n = le_value (a ∷ b ∷ c ∷ d ∷ []) in
      2 ≤ n
      → n ≤ max_frame_len
      → n ≤ 2 + length rest
      → IsByte seq
      → IsByte op
      → IsByte flags
      → read_frame_bytes (0x56 ∷ 0x44 ∷ 0x42 ∷ a ∷ b ∷ c ∷ d ∷ seq ∷ op ∷ flags ∷ rest)
        ≡ ok (record { seq = seq; op = op; flags = flags; body = take (n - 2) rest }, 8 + n)
unfolding read_frame_bytes
read_frame_bytes_parts a b c d seq op flags rest h1 h2 h3 hs ho hf = ground arith

pub read_frame_bytes-encoding :
    (f : Frame) (rest : List ℕ)
    → IsFrame f
    → read_frame_bytes (encoding f ++ rest) ≡ ok (f, 10 + length f.body)
unfolding le_bytes
read_frame_bytes-encoding f rest h =
    let n = 2 + length f.body in
    ground (
      arith,
      read_frame_bytes_parts (n % 256) (n / 256 % 256) (n / 256 / 256 % 256)
          (n / 256 / 256 / 256 % 256) f.seq f.op f.flags (f.body ++ rest),
      le_value-le_bytes 4 n (omega (arith, h.fits)),
      length-append f.body rest,
      take-append f.body rest,
    )

-- What a success says of the ten bytes in front.
ok_parts :
    (m0 m1 m2 a b c d seq op flags : ℕ) (rest : List ℕ) (f : Frame) (n : ℕ)
    → read_frame_bytes (m0 ∷ m1 ∷ m2 ∷ a ∷ b ∷ c ∷ d ∷ seq ∷ op ∷ flags ∷ rest) ≡ ok (f, n)
    → let v = le_value (a ∷ b ∷ c ∷ d ∷ []) in
      (m0 ≡ 0x56)
      × (m1 ≡ 0x44)
      × (m2 ≡ 0x42)
      × (2 ≤ v)
      × (v ≤ max_frame_len)
      × (v ≤ 2 + length rest)
      × (n ≡ 8 + v)
      × (f ≡ record { seq = seq; op = op; flags = flags; body = take (v - 2) rest })
unfolding read_frame_bytes
ok_parts m0 m1 m2 a b c d seq op flags rest f n h = ground arith

payload_of_four :
    (a b c d : ℕ)
    → IsBytes (a ∷ b ∷ c ∷ d ∷ [])
    → le_bytes 4 (le_value (a ∷ b ∷ c ∷ d ∷ [])) ≡ a ∷ b ∷ c ∷ d ∷ []
payload_of_four a b c d h = le_bytes-le_value (a ∷ b ∷ c ∷ d ∷ []) h

drop_front :
    (m0 m1 m2 a b c d seq op flags v : ℕ) (rest : List ℕ)
    → 2 ≤ v
    → drop (8 + v) (m0 ∷ m1 ∷ m2 ∷ a ∷ b ∷ c ∷ d ∷ seq ∷ op ∷ flags ∷ rest) ≡ drop (v - 2) rest
drop_front m0 m1 m2 a b c d seq op flags v rest h =
    drop-append_ge (8 + v) (m0 ∷ m1 ∷ m2 ∷ a ∷ b ∷ c ∷ d ∷ seq ∷ op ∷ flags ∷ []) rest (omega arith)
    ∙ ap (λ k. drop k rest) (omega arith)

-- Ten bytes at least are needed for a success.
ok_long :
    (bytes : List ℕ) (f : Frame) (n : ℕ) → read_frame_bytes bytes ≡ ok (f, n) → 10 ≤ length bytes
unfolding read_frame_bytes
ok_long bytes f n h = ground arith

-- A success returns a frame that can be sent, and its encoding is what was read: the decoder
-- accepts nothing but encodings.
pub read_frame_bytes-ok :
    (bytes : List ℕ) (f : Frame) (n : ℕ)
    → IsBytes bytes
    → read_frame_bytes bytes ≡ ok (f, n)
    → IsFrame f × (n ≡ 10 + length f.body) × (bytes ≡ encoding f ++ drop n bytes)
read_frame_bytes-ok (m0 ∷ m1 ∷ m2 ∷ a ∷ b ∷ c ∷ d ∷ seq ∷ op ∷ flags ∷ rest) f n hb h =
    let (e0, e1, e2, lo, hi, room, en, ef) = ok_parts m0 m1 m2 a b c d seq op flags rest f n h in
    let v = le_value (a ∷ b ∷ c ∷ d ∷ []) in
    let tail7 = hb.1.1.1.1.1.1.1 in
    let four : IsBytes (a ∷ b ∷ c ∷ d ∷ []) =
      (hb.1.1.1.0, (hb.1.1.1.1.0, (hb.1.1.1.1.1.0, (hb.1.1.1.1.1.1.0, tt)))) in
    let el : 2 + length (take (v - 2) rest) ≡ v = omega (arith, length-take (v - 2) rest) in
    rw (ef, en)
      (
        record {
          seq_byte = tail7.0;
          op_byte = tail7.1.0;
          flags_byte = tail7.1.1.0;
          body_bytes = All-take _ (v - 2) rest tail7.1.1.1;
          fits = rw el hi;
        },
        omega (arith, el),
        rw (
          e0,
          e1,
          e2,
          el,
          payload_of_four a b c d four,
          drop_front 0x56 0x44 0x42 a b c d seq op flags v rest lo,
          take-append-drop (v - 2) rest,
        ),
      )
read_frame_bytes-ok bytes f n hb h = absurd (omega (arith, ok_long _ f n h))
