-- ===== src/Wire/Opcodes.antt =====
-- python/vedadb/wire/vbp/opcodes.py: the numbers of the protocol and their names. A name is the list
-- of its code points.
pub mod Names
pub mod TypeIds
pub use TypeIds.*
use Prim.Native.Char.{code}
use Prim.Native.String
use vedadb_driver.Base.{
  ℕ, zero, suc, ◌+◌, ◌-◌, ◌/◌, ◌%◌, ◌&&◌, ◌==◌, String, Option, none, some, List, [], ◌∷◌, ◌++◌,
  ltb, if◌then◌else◌,
}
use vedadb_driver.Base.Dict.{Dict, get, nat_eq}

abbrev pub op_client_hello : ℕ
op_client_hello = 0x01

abbrev pub op_server_ready : ℕ
op_server_ready = 0x02

abbrev pub op_auth_challenge : ℕ
op_auth_challenge = 0x03

abbrev pub op_auth_response : ℕ
op_auth_response = 0x04

abbrev pub op_auth_ok : ℕ
op_auth_ok = 0x05

abbrev pub op_query : ℕ
op_query = 0x06

abbrev pub op_ext_query : ℕ
op_ext_query = 0x07

abbrev pub op_parse : ℕ
op_parse = 0x08

abbrev pub op_bind : ℕ
op_bind = 0x09

abbrev pub op_data_chunk : ℕ
op_data_chunk = 0x0a

abbrev pub op_rows_finished : ℕ
op_rows_finished = 0x0b

abbrev pub op_command_complete : ℕ
op_command_complete = 0x0c

abbrev pub op_error : ℕ
op_error = 0x0d

abbrev pub op_begin : ℕ
op_begin = 0x0e

abbrev pub op_commit : ℕ
op_commit = 0x0f

abbrev pub op_rollback : ℕ
op_rollback = 0x10

abbrev pub op_copy_in : ℕ
op_copy_in = 0x11

abbrev pub op_copy_done : ℕ
op_copy_done = 0x12

abbrev pub op_copy_fail : ℕ
op_copy_fail = 0x13

abbrev pub op_cancel_query : ℕ
op_cancel_query = 0x14

abbrev pub op_ping : ℕ
op_ping = 0x16

abbrev pub op_pong : ℕ
op_pong = 0x17

abbrev pub op_close : ℕ
op_close = 0x18

abbrev pub op_stream_chunk : ℕ
op_stream_chunk = 0x19

abbrev pub op_stream_end : ℕ
op_stream_end = 0x1a

abbrev pub op_server_push : ℕ
op_server_push = 0x1b

abbrev pub op_reserved_range_lo : ℕ
op_reserved_range_lo = 0x15

abbrev pub op_reserved_range_hi : ℕ
op_reserved_range_hi = 0x1f

abbrev pub mandatory_opcodes : List ℕ
mandatory_opcodes =
    op_client_hello ∷ op_server_ready ∷ op_auth_challenge ∷ op_auth_response ∷ op_auth_ok ∷ op_query
    ∷ op_ext_query ∷ op_parse ∷ op_bind ∷ op_data_chunk ∷ op_rows_finished ∷ op_command_complete
    ∷ op_error ∷ op_begin ∷ op_commit ∷ op_rollback ∷ op_copy_in ∷ op_copy_done ∷ op_copy_fail
    ∷ op_cancel_query ∷ op_ping ∷ op_pong ∷ op_close ∷ []

abbrev pub opcode_names : Dict ℕ String
opcode_names =
    (op_client_hello, "CLIENT_HELLO")
    ∷ (op_server_ready, "SERVER_READY")
    ∷ (op_auth_challenge, "AUTH_CHALLENGE")
    ∷ (op_auth_response, "AUTH_RESPONSE")
    ∷ (op_auth_ok, "AUTH_OK")
    ∷ (op_query, "QUERY")
    ∷ (op_ext_query, "EXT_QUERY")
    ∷ (op_parse, "PARSE")
    ∷ (op_bind, "BIND")
    ∷ (op_data_chunk, "DATA_CHUNK")
    ∷ (op_rows_finished, "ROWS_FINISHED")
    ∷ (op_command_complete, "COMMAND_COMPLETE")
    ∷ (op_error, "ERROR")
    ∷ (op_begin, "BEGIN")
    ∷ (op_commit, "COMMIT")
    ∷ (op_rollback, "ROLLBACK")
    ∷ (op_copy_in, "COPY_IN")
    ∷ (op_copy_done, "COPY_DONE")
    ∷ (op_copy_fail, "COPY_FAIL")
    ∷ (op_cancel_query, "CANCEL_QUERY")
    ∷ (op_ping, "PING")
    ∷ (op_pong, "PONG")
    ∷ (op_close, "CLOSE")
    ∷ (op_stream_chunk, "STREAM_CHUNK")
    ∷ (op_stream_end, "STREAM_END")
    ∷ (op_server_push, "SERVER_PUSH")
    ∷ []

abbrev pub codes : String → List ℕ
codes String.[] = []
codes (String.◌∷◌ c s) = code c ∷ codes s

hex_digit : ℕ → ℕ
hex_digit n = if ltb n 10 then b'0' + n else b'a' + (n - 10)

-- The hexadecimal digits of `n` in front of `acc`, at least `width` of them; `n` digits of fuel are
-- enough.
hex_loop : ℕ → ℕ → ℕ → List ℕ → List ℕ
unfolding hex_digit
hex_loop zero width n acc = acc
hex_loop (suc fuel) width n acc =
    let more = hex_loop fuel (width - 1) (n / 16) (hex_digit (n % 16) ∷ acc) in
    if (n == 0) && (width == 0) then acc else more

-- `f"{n:02x}"` for width 2 and `f"{n:04x}"` for width 4.
unfoldable pub hex : ℕ → ℕ → List ℕ
unfolding hex_loop
hex width n = hex_loop (n + width) width n []

name_or : List ℕ → Option String → List ℕ
name_or unknown none = unknown
name_or unknown (some s) = codes s

unfoldable pub opcode_name : ℕ → List ℕ
unfolding name_or hex get
opcode_name op = name_or (codes "OP_0x" ++ hex 2 op) (get op opcode_names)

unfoldable pub type_id_name : ℕ → List ℕ
unfolding name_or hex get
type_id_name tid = name_or (codes "T_UNKNOWN_0x" ++ hex 4 tid) (get tid type_id_names)
