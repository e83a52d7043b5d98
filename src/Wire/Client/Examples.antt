-- ===== src/Wire/Client/Examples.antt =====
-- Messages and their answers.
use vedadb_driver.Base.{
  false, ℕ, ◌%◌, ◌^◌, ◌≡◌, refl, true, none, List, [], ◌∷◌, ◌++◌, arith, ok, err, ◌>>=◌,
  if◌then◌else◌,
}
use vedadb_driver.Base.Int.{pos}
use vedadb_driver.Base.Bytes.{le_bytes, le_value, to_word, of_word}
use vedadb_driver.Base.Utf8
use vedadb_driver.Wire.Frame.{Frame}
use vedadb_driver.Wire.Opcodes.{codes, op_data_chunk, op_server_ready, op_auth_ok}
use vedadb_driver.Wire.Types.{encode_int4, write_i32, pack_int}
use vedadb_driver.Wire.Messages.{
  unpack, read_utf8, read_text, pack, write_text, err_frame, parse_error_frame, five,
}
use vedadb_driver.Wire.Messages.RoundTrip.{parse_error_frame-err_frame}
use vedadb_driver.Wire.Handlers.{
  Strings, frame_of, is_select_one, rstrip, handle_client_hello, server_ready_body, auth_ok_body,
  assert_all_mandatory_handlers_registered, handlers,
}
use vedadb_driver.Wire.Client.{
  int4, VbpResult, decode_data_chunk, read_columns, read_cell, read_row, read_rows, unreadable,
  of_int, params_part, encode_params, encode_param, param_block, build_hello,
}
use vedadb_driver.Wire.Client.Replies.{
  of_reply, new_result, parse_replies, parse_from, parse_reply, execute, ping,
}
use vedadb_driver.Base.Dict.{get}
use vedadb_driver.Wire.Messages.{struct_error, unicode_error}
use vedadb_driver.Wire.Auth.{Crypto}
use vedadb_driver.Wire.Auth.Handshake.{scram_sha_256}
use vedadb_driver.Wire.Client.Connect.{Connection, connect, connect_served}
use vedadb_driver.Wire.Client.Answers.{
  serve, execute_served, ping_served, hello_served, chunk_replaces,
}

-- Texts that are in upper case and stripped as they are.
abbrev plain : Strings
plain = record { strip = λ s. s; upper = λ s. s; str = λ n. n ∷ [] }

abbrev no_value : ℕ → List ℕ → ℕ
no_value tid bs = 0

abbrev select_one_sql : List ℕ
select_one_sql = codes "SELECT 1;"

parse_error_frame-err_frame_example :
    (err_frame 0 (codes "42601") (codes "no table") >>= λ f. ok (parse_error_frame f))
    ≡ ok (record {
      sqlstate = five (codes "42601");
      message = codes "no table";
      detail = [];
      hint = [];
    })
parse_error_frame-err_frame_example =
    parse_error_frame-err_frame 0 (codes "42601") (codes "no table") refl refl (omega arith)

execute_served_example :
    execute (serve plain) no_value true select_one_sql (of_int (pos 7) ∷ []) ≡ (
      if is_select_one plain select_one_sql
      then err (of_reply (unreadable struct_error))
      else ok new_result)
unfolding Utf8.encode Utf8.encode_char params_part encode_params encode_param param_block pack
    encode_int4 write_i32 pack_int le_bytes to_word
execute_served_example =
    execute_served no_value plain select_one_sql select_one_sql (of_int (pos 7) ∷ [])
      (1 ∷ 0 ∷ 23 ∷ 0 ∷ 4 ∷ 0 ∷ 0 ∷ 0 ∷ 7 ∷ 0 ∷ 0 ∷ 0 ∷ []) refl (omega arith) refl

select_one_sql-is_select_one : is_select_one plain select_one_sql ≡ true
unfolding is_select_one rstrip
select_one_sql-is_select_one = refl

ping_echoes : ping (serve plain) true 12345 ≡ ok (12345 % 2 ^ 64)
ping_echoes = ping_served plain 12345

hello_read :
    (build_hello (codes "admin") (codes "main") >>= handle_client_hello plain)
    ≡ ok (
        frame_of op_server_ready server_ready_body
        ∷ frame_of op_auth_ok (auth_ok_body 0xc0ffee)
        ∷ [])
hello_read = hello_served plain (codes "admin") (codes "main") refl refl (omega arith) (omega arith)

-- A user whose name has a character of two bytes: the database is read from the wrong place.
hello_misread :
    (build_hello (codes "é") (codes "main") >>= handle_client_hello plain) ≡ err unicode_error
unfolding build_hello handle_client_hello write_text unpack read_text read_utf8 pack Utf8.encode
    Utf8.encode_char Utf8.decode le_bytes le_value
hello_misread = refl

-- A chunk with one column "n" of type INT4 and one row.
abbrev chunk : ℕ → Frame
chunk v =
    frame_of op_data_chunk (
      1 ∷ 0 ∷ 0 ∷ 0 ∷ 1 ∷ 0 ∷ 0 ∷ 0 ∷ 1 ∷ 0 ∷ 1 ∷ 0 ∷ 0 ∷ 0 ∷ 110 ∷ 23 ∷ 0 ∷ 0 ∷ v ∷ 0 ∷ 0 ∷ 0 ∷ [])

abbrev result_of : ℕ → VbpResult ℕ
result_of v = record new_result {
  columns = (110 ∷ []) ∷ [];
  column_types = 23 ∷ [];
  rows = (int4 (pos v) ∷ []) ∷ [];
}

second_chunk : parse_replies no_value ((chunk 1 ∷ []) ++ (chunk 2 ∷ [])) ≡ ok (result_of 2)
unfolding parse_replies parse_from parse_reply decode_data_chunk read_columns read_rows read_row
    read_cell unpack read_text read_utf8 le_value of_word Utf8.decode
second_chunk =
    chunk_replaces no_value (chunk 1 ∷ []) (chunk 2) (result_of 1) ((110 ∷ []) ∷ []) (23 ∷ [])
      ((int4 (pos 2) ∷ []) ∷ []) refl refl refl

all_registered : assert_all_mandatory_handlers_registered plain ≡ none
unfolding assert_all_mandatory_handlers_registered handlers get
all_registered = refl

-- Hash functions that are not called.
abbrev no_crypto : Crypto
no_crypto = record {
  hmac = λ key msg. [];
  sha256 = λ msg. [];
  hi = λ pw salt n. none;
  b64encode = λ bs. [];
  b64decode = λ s. none;
  int = λ s. none;
  str = λ n. [];
  strip = λ s. s;
}

abbrev admin : Connection
admin = record {
  user = codes "admin";
  password = codes "secret";
  db = codes "main";
  mechanism = scram_sha_256;
  connected = false;
  session_token = 0;
}

connect_served_example :
    connect no_crypto (codes "nonce") none (λ n op body. serve plain op body) admin
    ≡ ok (record admin { connected = true; session_token = 0 })
connect_served_example =
    connect_served no_crypto (codes "nonce") plain admin refl refl refl (omega arith) (omega arith)
