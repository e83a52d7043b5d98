-- ===== src/Wire/Client/Replies.antt =====
-- What a connection makes of the answers, execute and ping, of python/vedadb/wire/vbp/__init__.py.
use vedadb_driver.Base.{
  ℕ, ◌%◌, ◌^◌, Bool, not, List, [], ◌∷◌, ◌==◌, if◌then◌else◌, take, Result, ok, err, ◌>>=◌,
}
use vedadb_driver.Base.Bytes.{le_bytes}
use vedadb_driver.Wire.Frame.{Frame}
use vedadb_driver.Wire.Opcodes
use vedadb_driver.Wire.Messages.{MessageError, unpack, parse_error_frame}
use vedadb_driver.Wire.Client.{
  Cell, VbpResult, ReplyError, unreadable, vbp_error, decode_data_chunk, decode_rows_finished,
  Param, BuildError, build_query,
}

module _ {V : Type 0} where
  abbrev pub new_result : VbpResult V
  new_result = record {
    columns = [];
    column_types = [];
    rows = [];
    command_tag = [];
    rows_affected = 0;
  }

  abbrev with_chunk :
      VbpResult V
      → Result MessageError (List (List ℕ) × (List ℕ × List (List (Cell V))))
      → Result ReplyError (VbpResult V)
  with_chunk r (ok (cols, (types, rows))) =
      ok (record r { columns = cols; column_types = types; rows = rows })
  with_chunk r (err e) = err (unreadable e)

  abbrev with_finished :
      VbpResult V → Result MessageError (ℕ × List ℕ) → Result ReplyError (VbpResult V)
  with_finished r (ok (n, tag)) = ok (record r { rows_affected = n; command_tag = tag })
  with_finished r (err e) = err (unreadable e)

  -- A round of the loop of `_parse_replies`.
  unfoldable pub parse_reply :
      (ℕ → List ℕ → V) → VbpResult V → Frame → Result ReplyError (VbpResult V)
  parse_reply other r f =
      if f.op == Opcodes.op_data_chunk
      then with_chunk r (decode_data_chunk other f.body)
      else if f.op == Opcodes.op_rows_finished
      then with_finished r (decode_rows_finished f.body)
      else if f.op == Opcodes.op_command_complete
      then ok r
      else if f.op == 0x0d
      then err (vbp_error (parse_error_frame f))
      else ok r

  unfoldable pub parse_from :
      (ℕ → List ℕ → V) → VbpResult V → List Frame → Result ReplyError (VbpResult V)
  parse_from other r [] = ok r
  parse_from other r (f ∷ fs) = do r' ← parse_reply other r f; parse_from other r' fs

  unfoldable pub parse_replies : (ℕ → List ℕ → V) → List Frame → Result ReplyError (VbpResult V)
  parse_replies other replies = parse_from other new_result replies

-- The exceptions of the methods of a connection.
pub data ClientError (E : Type 0) : Type 0 where
  not_connected : ClientError E
  no_server_ready : ClientError E
  building : BuildError → ClientError E
  of_mux : E → ClientError E
  of_reply : ReplyError → ClientError E
  expected_pong : ClientError E

-- An object that is connected or not; `call` sends a message and gives the frames of the answer.
module _ {V E : Type 0} (call : ℕ → List ℕ → Result E (List Frame)) where
  abbrev pub answered :
      (ℕ → List ℕ → V) → Result E (List Frame) → Result (ClientError E) (VbpResult V)
  answered other (err e) = err (of_mux e)
  answered other (ok fs) = of_replies (parse_replies other fs)
    where
      of_replies : Result ReplyError (VbpResult V) → Result (ClientError E) (VbpResult V)
      of_replies (ok r) = ok r
      of_replies (err e) = err (of_reply e)

  abbrev pub sent :
      (ℕ → List ℕ → V) → Result BuildError (List ℕ) → Result (ClientError E) (VbpResult V)
  sent other (err e) = err (building e)
  sent other (ok body) = answered other (call Opcodes.op_query body)

  unfoldable pub execute :
      (ℕ → List ℕ → V) → Bool → List ℕ → List Param → Result (ClientError E) (VbpResult V)
  execute other connected sql params =
      if not connected then err not_connected else sent other (build_query sql params)

module _ {E : Type 0} (call : ℕ → List ℕ → Result E (List Frame)) where
  abbrev pub nonce_of : Result MessageError (ℕ × List ℕ) → Result (ClientError E) ℕ
  nonce_of (ok (n, rest)) = ok n
  nonce_of (err e) = err (of_reply (unreadable e))

  abbrev pub ponged : Result E (List Frame) → Result (ClientError E) ℕ
  ponged (err e) = err (of_mux e)
  ponged (ok []) = err expected_pong
  ponged (ok (f ∷ fs)) =
      if not (f.op == 0x17) then err expected_pong else nonce_of (unpack 8 (take 8 f.body))

  -- `now` is int(time.time() * 1_000_000).
  unfoldable pub ping : Bool → ℕ → Result (ClientError E) ℕ
  ping connected now =
      if not connected
      then err not_connected
      else ponged (call Opcodes.op_ping (le_bytes 8 (now % 2 ^ 64)))
