-- ===== src/Wire/Handlers.antt =====
-- python/vedadb/wire/vbp/handlers.py: the answers to the messages of a client. The methods of texts
-- and the digits of a number are arguments.
use vedadb_driver.Base.{
  ℕ, Option, none, some, String, List, [], ◌∷◌, ◌++◌, Bool, true, false, not, ◌==◌, if◌then◌else◌,
  take, Result, ok, err, ◌>>=◌,
}
use vedadb_driver.Base.Int.{ℤ}
use vedadb_driver.Base.Bytes.{le_bytes, to_word}
use vedadb_driver.Base.Dict.{Dict, get, nat_eq}
use vedadb_driver.Wire.Frame.{Frame}
use vedadb_driver.Wire.Opcodes
use vedadb_driver.Wire.Opcodes.{codes, opcode_name}
use vedadb_driver.Wire.Messages.{
  MessageError, pack, unpack, read_byte, read_text, write_text, err_frame,
}

pub record Strings : Type 0 where
  pub strip : List ℕ → List ℕ
  pub upper : List ℕ → List ℕ
  pub str : ℕ → List ℕ

abbrev pub sqlstate_feature_not_supported : List ℕ
sqlstate_feature_not_supported = codes "0A000"

abbrev pub sqlstate_syntax_error : List ℕ
sqlstate_syntax_error = codes "42601"

-- The multiplexer that a handler gets is not used by any.
abbrev pub Handler : Type 0
Handler = List ℕ → Result MessageError (List Frame)

abbrev pub one : Result MessageError Frame → Result MessageError (List Frame)
one (ok f) = ok (f ∷ [])
one (err e) = err e

abbrev pub frame_of : ℕ → List ℕ → Frame
frame_of op body = record { seq = 0; op = op; flags = 0; body = body }

unfoldable pub stub : ℕ → Result MessageError Frame
stub op =
    err_frame 0 sqlstate_feature_not_supported
      (codes "vbp v1 driver: opcode " ++ (opcode_name op ++ codes " not implemented (v2)"))

-- A message that only a server may send.
abbrev refuse : String → Handler
refuse message body = one (err_frame 0 sqlstate_syntax_error (codes message))

unfoldable pub command_complete : ℕ → Frame
command_complete status = frame_of Opcodes.op_command_complete (status ∷ [])

-- struct.pack("<i", value), for a value that fits.
unfoldable pub data_chunk_int : ℤ → Frame
data_chunk_int value = frame_of Opcodes.op_data_chunk (
    le_bytes 4 1
    ++ (le_bytes 4 1 ++ (le_bytes 2 1 ++ (le_bytes 2 23 ++ (0 ∷ le_bytes 4 (to_word 4 value))))))

unfoldable pub rows_finished : ℕ → List ℕ → Result MessageError Frame
rows_finished rows_affected tag = do
  n ← pack 8 rows_affected
  t ← write_text tag
  ok (frame_of Opcodes.op_rows_finished (n ++ (t ++ le_bytes 4 0)))

unfoldable pub zeros : ℕ → List ℕ
zeros Prim.Native.Nat.zero = []
zeros (Prim.Native.Nat.suc n) = 0 ∷ zeros n

unfoldable pub server_ready_body : List ℕ
server_ready_body = le_bytes 4 0x000a0000 ++ (le_bytes 4 0x1f ++ (0 ∷ (le_bytes 4 16 ++ zeros 16)))

-- struct.pack("<QQI", token, 0xFFFFFFFFFFFFFFFF, 0)
unfoldable pub auth_ok_body : ℕ → List ℕ
auth_ok_body token = le_bytes 8 token ++ (le_bytes 8 0xffffffffffffffff ++ le_bytes 4 0)

abbrev greeted : Strings → ℕ → Result MessageError (List Frame)
greeted text proto =
    if not (proto == 1)
    then one (
        err_frame 0 sqlstate_feature_not_supported
          (codes "unsupported protocol version " ++ text.str proto))
    else ok (
        frame_of Opcodes.op_server_ready server_ready_body
        ∷ frame_of Opcodes.op_auth_ok (auth_ok_body 0xc0ffee)
        ∷ [])

unfoldable pub handle_client_hello : Strings → Handler
handle_client_hello text body = do
  (proto, b1) ← unpack 2 body
  (flags, b2) ← unpack 2 b1
  (username, b3) ← read_text b2
  (database, b4) ← read_text b3
  (actor_kind, b5) ← read_byte b4
  (actor_id, b6) ← read_text b5
  greeted text proto

-- text.rstrip(";")
unfoldable pub rstrip : List ℕ → List ℕ
rstrip [] = []
rstrip (c ∷ cs) = stripped c (rstrip cs)
  where
    stripped : ℕ → List ℕ → List ℕ
    stripped c [] = if c == 59 then [] else c ∷ []
    stripped c (d ∷ ds) = c ∷ d ∷ ds

abbrev pub same_text : List ℕ → List ℕ → Bool
same_text [] [] = true
same_text (a ∷ xs) (b ∷ ys) = let rest = same_text xs ys in if a == b then rest else false
same_text _ _ = false

unfoldable pub is_select_one : Strings → List ℕ → Bool
is_select_one text s = same_text (rstrip (text.upper (text.strip s))) (codes "SELECT 1")

unfoldable pub select_one : Result MessageError (List Frame)
select_one = do
  f ← rows_finished 1 (codes "SELECT 1")
  ok (data_chunk_int (ℤ.pos 1) ∷ f ∷ command_complete 0 ∷ [])

unfoldable pub handle_query : Strings → Handler
handle_query text body = do
  (qid, b1) ← unpack 4 body
  (s, b2) ← read_text b1
  if is_select_one text s then select_one else ok (command_complete 0 ∷ [])

-- `handle_parse`, and all the others that complete a command without looking at it.
abbrev complete : ℕ → Handler
complete status body = ok (command_complete status ∷ [])

abbrev handle_auth_response : Handler
handle_auth_response body = ok (frame_of Opcodes.op_auth_ok (auth_ok_body 0xabcd) ∷ [])

-- PING: the first eight bytes come back.
unfoldable pub handle_ping : Handler
handle_ping body = ok (frame_of Opcodes.op_pong (take 8 body) ∷ [])

abbrev pub nothing : Handler
nothing body = ok []

unfoldable pub handlers : Strings → Dict ℕ Handler
handlers text =
    (Opcodes.op_client_hello, handle_client_hello text)
    ∷ (Opcodes.op_server_ready, refuse "SERVER_READY is server-to-client")
    ∷ (Opcodes.op_auth_challenge, refuse "AUTH_CHALLENGE is server-to-client")
    ∷ (Opcodes.op_auth_response, handle_auth_response)
    ∷ (Opcodes.op_auth_ok, nothing)
    ∷ (Opcodes.op_query, handle_query text)
    ∷ (Opcodes.op_ext_query, λ body. one (stub Opcodes.op_ext_query))
    ∷ (Opcodes.op_parse, complete 0)
    ∷ (Opcodes.op_bind, complete 0)
    ∷ (Opcodes.op_data_chunk, refuse "DATA_CHUNK is server-to-client")
    ∷ (Opcodes.op_rows_finished, refuse "ROWS_FINISHED is server-to-client")
    ∷ (Opcodes.op_command_complete, refuse "COMMAND_COMPLETE is server-to-client")
    ∷ (Opcodes.op_error, refuse "ERROR is server-to-client")
    ∷ (Opcodes.op_begin, complete 1)
    ∷ (Opcodes.op_commit, complete 0)
    ∷ (Opcodes.op_rollback, complete 0)
    ∷ (Opcodes.op_copy_in, λ body. one (stub Opcodes.op_copy_in))
    ∷ (Opcodes.op_copy_done, complete 0)
    ∷ (Opcodes.op_copy_fail, complete 0)
    ∷ (Opcodes.op_cancel_query, complete 0)
    ∷ (Opcodes.op_ping, handle_ping)
    ∷ (Opcodes.op_pong, refuse "PONG is server-to-client")
    ∷ (Opcodes.op_close, nothing)
    ∷ []

abbrev missing_one : ℕ → Option Handler → List ℕ → List ℕ
missing_one op none rest = op ∷ rest
missing_one op (some h) rest = rest

-- [op for op in MANDATORY_OPCODES if op not in HANDLERS]
abbrev without_handler : Strings → List ℕ → List ℕ
without_handler text [] = []
without_handler text (op ∷ ops) = missing_one op (get op (handlers text)) (without_handler text ops)

pub data RuntimeError : Type 0 where
  missing_handlers : List ℕ → RuntimeError

abbrev raise_if_any : List ℕ → Option RuntimeError
raise_if_any [] = none
raise_if_any (op ∷ ops) = some (missing_handlers (op ∷ ops))

-- The exception that is raised, if any.
unfoldable pub assert_all_mandatory_handlers_registered : Strings → Option RuntimeError
assert_all_mandatory_handlers_registered text =
    raise_if_any (without_handler text Opcodes.mandatory_opcodes)
