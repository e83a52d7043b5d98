-- ===== src/Wire/Client.antt =====
-- python/vedadb/wire/vbp/__init__.py: the messages of a connection, and the results that it makes of the
-- answers. `other` decodes a cell of a type that is neither BOOL nor INT4 nor TEXT.
pub mod Replies
pub mod Answers
pub mod Connect
mod Examples
use vedadb_driver.Base.{
  ℕ, zero, suc, ◌+◌, ◌/◌, ◌%◌, ◌^◌, Bool, true, false, not, Option, none, some, String, List, [],
  ◌∷◌, ◌++◌, ◌==◌, if◌then◌else◌, length, take, drop, Result, ok, err, ◌>>=◌,
}
use vedadb_driver.Base.Int.{ℤ}
use vedadb_driver.Base.Bytes.{le_bytes, le_value, of_word}
use vedadb_driver.Base.Utf8
use vedadb_driver.Wire.Frame.{Frame}
use vedadb_driver.Wire.Opcodes
use vedadb_driver.Wire.Opcodes.TypeIds
use vedadb_driver.Wire.Types.{TypeError, encode_int4, encode_bool}
use vedadb_driver.Wire.Types.Texts.{encode_text, encode_bytea}
use vedadb_driver.Wire.Messages.{
  MessageError, Read, pack, unpack, or_unicode_error, read_byte, read_utf8, read_text, write_text,
  ErrorFields, parse_error_frame,
}

pub data Cell (V : Type 0) : Type 0 where
  bool : Bool → Cell V
  int4 : ℤ → Cell V
  text : List ℕ → Cell V
  other_cell : V → Cell V

pub record VbpResult (V : Type 0) : Type 0 where
  pub columns : List (List ℕ)
  pub column_types : List ℕ
  pub rows : List (List (Cell V))
  pub command_tag : List ℕ
  pub rows_affected : ℕ

-- An answer that cannot be read, or an ERROR frame.
pub data ReplyError : Type 0 where
  unreadable : MessageError → ReplyError
  vbp_error : ErrorFields → ReplyError

-- The loop over the columns of a DATA_CHUNK.
unfoldable pub read_columns : ℕ → List ℕ → Read (List (List ℕ) × List ℕ)
read_columns zero buf = ok (([], []), buf)
read_columns (suc n) buf = do
  (name, b1) ← read_text buf
  (tid, b2) ← unpack 2 b1
  ((names, tids), b3) ← read_columns n b2
  ok ((name ∷ names, tid ∷ tids), b3)

-- `_type_fixed_size`
abbrev type_fixed_size : ℕ → ℕ
type_fixed_size tid = if tid == TypeIds.t_bool then 1 else if tid == TypeIds.t_int4 then 4 else 4

abbrev skip_bitmap : ℕ → List ℕ → List ℕ
skip_bitmap zero buf = buf
skip_bitmap (suc n) buf = drop (suc n) buf

module _ {V : Type 0} (decode_other : ℕ → List ℕ → V) where
  unfoldable pub read_cell : ℕ → List ℕ → Read (Cell V)
  read_cell tid buf =
      if tid == TypeIds.t_bool
      then (do (b, rest) ← read_byte buf; ok (bool (not (b == 0)), rest))
      else if tid == TypeIds.t_int4
      then (do (n, rest) ← unpack 4 buf; ok (int4 (of_word 4 n), rest))
      else if tid == TypeIds.t_text
      then (do (s, rest) ← read_text buf; ok (text s, rest))
      else ok (
        other_cell (decode_other tid (take (type_fixed_size tid) buf)),
        drop (type_fixed_size tid) buf,
      )

  unfoldable pub read_row : List ℕ → List ℕ → Read (List (Cell V))
  read_row [] buf = ok ([], buf)
  read_row (tid ∷ tids) buf = do
    (cell, b1) ← read_cell tid buf
    (cells, b2) ← read_row tids b1
    ok (cell ∷ cells, b2)

  unfoldable pub read_rows : List ℕ → ℕ → List ℕ → Read (List (List (Cell V)))
  read_rows tids zero buf = ok ([], buf)
  read_rows tids (suc n) buf = do
    (row, b1) ← read_row tids buf
    (rows, b2) ← read_rows tids n b1
    ok (row ∷ rows, b2)

  unfoldable pub decode_data_chunk :
      List ℕ → Result MessageError (List (List ℕ) × (List ℕ × List (List (Cell V))))
  decode_data_chunk body = do
    (chunk_id, b1) ← unpack 4 body
    (row_count, b2) ← unpack 4 b1
    (col_count, b3) ← unpack 2 b2
    ((names, tids), b4) ← read_columns col_count b3
    (bitmap, b5) ← read_byte b4
    (rows, b6) ← read_rows tids row_count (skip_bitmap bitmap b5)
    ok (names, (tids, rows))

unfoldable pub decode_rows_finished : List ℕ → Result MessageError (ℕ × List ℕ)
decode_rows_finished body = do
  (rows_affected, b1) ← unpack 8 body
  (tag, b2) ← read_text b1
  ok (rows_affected, tag)

-- A positional parameter of a statement. Of a float the eight bytes are given, of an object of another
-- class its text.
pub data Param : Type 0 where
  null : Param
  of_bool : Bool → Param
  of_int : ℤ → Param
  of_float : List ℕ → Param
  of_bytes : List ℕ → Param
  of_str : List ℕ → Param
  of_object : List ℕ → Param

pub data BuildError : Type 0 where
  of_type : TypeError → BuildError
  of_message : MessageError → BuildError

abbrev typed : {A : Type 0} → Result TypeError A → Result BuildError A
typed (ok a) = ok a
typed (err e) = err (of_type e)

abbrev pub message : {A : Type 0} → Result MessageError A → Result BuildError A
message (ok a) = ok a
message (err e) = err (of_message e)

-- The type and the length of a parameter before its value.
unfoldable pub param_block : ℕ → List ℕ → Result BuildError (List ℕ)
param_block tid val = do
  t ← message (pack 2 tid)
  n ← message (pack 4 (length val))
  ok (t ++ (n ++ val))

unfoldable pub encode_param : Param → Result BuildError (List ℕ)
encode_param null = param_block TypeIds.t_int4 (1 ∷ [])
encode_param (of_bool b) = param_block TypeIds.t_bool (encode_bool b)
encode_param (of_int v) = do val ← typed (encode_int4 v); param_block TypeIds.t_int4 val
encode_param (of_float bs) = param_block TypeIds.t_float8 bs
encode_param (of_bytes bs) = do val ← typed (encode_bytea bs); param_block TypeIds.t_bytea val
encode_param (of_str s) = do val ← typed (encode_text s); param_block TypeIds.t_text val
encode_param (of_object s) = do val ← typed (encode_text s); param_block TypeIds.t_text val

unfoldable pub encode_params : List Param → Result BuildError (List ℕ)
encode_params [] = ok []
encode_params (p ∷ ps) = do one ← encode_param p; rest ← encode_params ps; ok (one ++ rest)

-- The number of the parameters and their blocks.
unfoldable pub params_part : List Param → Result BuildError (List ℕ)
params_part [] = message (pack 2 0)
params_part (p ∷ ps) = do
  blocks ← encode_params (p ∷ ps)
  n ← message (pack 2 (length (p ∷ ps)))
  ok (n ++ blocks)

unfoldable pub build_query : List ℕ → List Param → Result BuildError (List ℕ)
build_query sql params = do
  bs ← message (or_unicode_error (Utf8.encode sql))
  n ← message (pack 4 (length bs))
  ps ← params_part params
  ok (le_bytes 4 0 ++ (n ++ (bs ++ ps)))

-- `_build_hello`, of the fields `user` and `db`.
unfoldable pub build_hello : List ℕ → List ℕ → Result MessageError (List ℕ)
build_hello user db = do
  u ← write_text user
  d ← write_text db
  ok (le_bytes 2 1 ++ (le_bytes 2 0 ++ (u ++ (d ++ (0 ∷ u)))))
