-- ===== src/Wire/Messages.antt =====
-- The bodies of messages, as the modules under python/vedadb/wire/vbp write them to and read them from
-- an io.BytesIO, and the body of an ERROR frame. A buffer that is read is the list of the bytes left.
pub mod RoundTrip
use vedadb_driver.Base.{
  ℕ, zero, suc, ◌-◌, ◌^◌, Bool, true, Option, none, some, List, [], ◌∷◌, ◌++◌, ltb, ◌==◌,
  if◌then◌else◌, length, take, drop, Result, ok, err, ◌>>=◌,
}
use vedadb_driver.Base.Bytes.{le_bytes, le_value}
use vedadb_driver.Base.Utf8
use vedadb_driver.Wire.Frame.{Frame}
use vedadb_driver.Wire.Opcodes.{op_error, codes}
use vedadb_driver.Wire.Types.Texts.{ascii}

-- struct.error, UnicodeError, and the IndexError of `buf.read(1)[0]`.
pub data MessageError : Type 0 where
  struct_error unicode_error index_error : MessageError

abbrev pub Read : Type 0 → Type 0
Read A = Result MessageError (A × List ℕ)

-- struct.pack of an unsigned integer of `k` bytes.
unfoldable pub pack : ℕ → ℕ → Result MessageError (List ℕ)
pack k n = if ltb n (256 ^ k) then ok (le_bytes k n) else err struct_error

-- struct.unpack(..., buf.read(k)): `read` gives fewer bytes at the end.
unfoldable pub unpack : ℕ → List ℕ → Read ℕ
unpack k buf =
    if length (take k buf) == k then ok (le_value (take k buf), drop k buf) else err struct_error

abbrev pub or_unicode_error : {A : Type 0} → Option A → Result MessageError A
or_unicode_error none = err unicode_error
or_unicode_error (some a) = ok a

-- buf.read(1)[0]
abbrev pub read_byte : List ℕ → Read ℕ
read_byte [] = err index_error
read_byte (b ∷ bs) = ok (b, bs)

-- buf.read(n).decode("utf-8")
unfoldable pub read_utf8 : ℕ → List ℕ → Read (List ℕ)
read_utf8 n buf = do s ← or_unicode_error (Utf8.decode (take n buf)); ok (s, drop n buf)

-- A length of four bytes, and a text of as many bytes.
unfoldable pub read_text : List ℕ → Read (List ℕ)
read_text buf = do (n, rest) ← unpack 4 buf; read_utf8 n rest

-- The number of the characters, not of the bytes, and the bytes.
unfoldable pub write_text : List ℕ → Result MessageError (List ℕ)
write_text s = do n ← pack 4 (length s); bs ← or_unicode_error (Utf8.encode s); ok (n ++ bs)

unfoldable pub ljust : ℕ → ℕ → List ℕ → List ℕ
ljust zero fill bs = bs
ljust (suc n) fill [] = fill ∷ ljust n fill []
ljust (suc n) fill (b ∷ bs) = b ∷ ljust n fill bs

-- sqlstate.encode("ascii")[:5].ljust(5, b"0")
abbrev pub five : List ℕ → List ℕ
five s = ljust 5 48 (take 5 s)

-- `_err_frame`
unfoldable pub err_frame : ℕ → List ℕ → List ℕ → Result MessageError Frame
err_frame seq sqlstate message = do
  s ← or_unicode_error (ascii sqlstate)
  m ← write_text message
  ok (record {
    seq = seq;
    op = op_error;
    flags = 0;
    body = five s ++ (m ++ (le_bytes 4 0 ++ (le_bytes 4 0 ++ le_bytes 4 0)));
  })

pub record ErrorFields : Type 0 where
  pub sqlstate : List ℕ
  pub message : List ℕ
  pub detail : List ℕ
  pub hint : List ℕ

unfoldable read_error_fields : List ℕ → Result MessageError ErrorFields
read_error_fields body = do
  s ← or_unicode_error (ascii (take 5 body))
  (m, rest) ← read_text (drop 5 body)
  (d, rest') ← read_text rest
  (h, rest'') ← read_text rest'
  ok (record { sqlstate = s; message = m; detail = d; hint = h })

abbrev or_malformed : Result MessageError ErrorFields → ErrorFields
or_malformed (ok f) = f
or_malformed (err e) = record {
  sqlstate = codes "0A000";
  message = codes "malformed ERROR frame";
  detail = [];
  hint = [];
}

unfoldable pub parse_error_frame : Frame → ErrorFields
unfolding read_error_fields
parse_error_frame f = or_malformed (read_error_fields f.body)
