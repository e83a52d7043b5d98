-- ===== src/Wire/Auth/Handshake.antt =====
-- The replies to the messages, and perform_handshake, of python/vedadb/wire/vbp/auth.py.
use vedadb_driver.Base.{
  ℕ, ◌==◌, not, List, [], ◌∷◌, ◌++◌, if◌then◌else◌, Result, ok, err, ◌>>=◌, take,
}
use vedadb_driver.Base.Dict.{codes_eq}
use vedadb_driver.Base.Utf8
use vedadb_driver.Wire.Frame.{Frame}
use vedadb_driver.Wire.Opcodes
use vedadb_driver.Wire.Opcodes.{codes}
use vedadb_driver.Wire.Messages.{unpack, parse_error_frame}
use vedadb_driver.Wire.Auth.{
  Crypto, AuthError, rejected, of_mux, ScramClient, HandshakeResult, or_unicode, or_unreadable,
  utf8, plain_client_first, new, client_first, gs2_header, client_final_message, no_challenge,
  wrong_reply, empty_reply, no_auth_ok, unsupported_mechanism,
}

-- The exception for an ERROR frame has the message in the place of the SQL state.
abbrev rejected_by : {E A : Type 0} → Frame → Result (AuthError E) A
rejected_by f = err (rejected (parse_error_frame f).message (parse_error_frame f).sqlstate)

unfoldable pub read_auth_ok : {E : Type 0} → List ℕ → Result (AuthError E) HandshakeResult
read_auth_ok body = do
  (token, b1) ← or_unreadable (unpack 8 body)
  (expires, b2) ← or_unreadable (unpack 8 b1)
  (n, b3) ← or_unreadable (unpack 4 b2)
  ok (record { session_token = token; expires_at = expires; server_final = take n b3 })

-- The loop of `_parse_auth_ok`.
unfoldable pub find_auth_ok : {E : Type 0} → List Frame → Result (AuthError E) HandshakeResult
find_auth_ok [] = err no_auth_ok
find_auth_ok (f ∷ fs) =
    if f.op == Opcodes.op_auth_ok
    then read_auth_ok f.body
    else if f.op == 0x0d
    then rejected_by f
    else find_auth_ok fs

unfoldable pub parse_auth_ok : {E : Type 0} → List Frame → Result (AuthError E) HandshakeResult
parse_auth_ok [] = err empty_reply
parse_auth_ok (f ∷ fs) = find_auth_ok (f ∷ fs)

-- The loop over the replies to the last message.
unfoldable pub last_replies :
    {E : Type 0} → List Frame → List Frame → Result (AuthError E) HandshakeResult
last_replies all [] = parse_auth_ok all
last_replies all (f ∷ fs) =
    if f.op == Opcodes.op_auth_ok
    then parse_auth_ok all
    else if f.op == 0x0d
    then rejected_by f
    else last_replies all fs

pub data Mechanism : Type 0 where
  none_mech plain scram_sha_256 unknown : Mechanism

-- `call` sends the body of the n-th AUTH_RESPONSE and gives the frames of the answer.
module _ {E : Type 0} (k : Crypto) (call : ℕ → List ℕ → Result E (List Frame)) where
  abbrev replied : Result E (List Frame) → Result (AuthError E) (List Frame)
  replied (ok fs) = ok fs
  replied (err e) = err (of_mux e)

  unfoldable pub after_challenge : ScramClient → Frame → Result (AuthError E) HandshakeResult
  after_challenge c ch = do
    msg ← or_unicode (Utf8.decode ch.body)
    (final, c') ← client_final_message k c msg
    bs ← utf8 final
    fs ← replied (call 1 bs)
    last_replies fs fs

  unfoldable pub challenged : ScramClient → List Frame → Result (AuthError E) HandshakeResult
  challenged c [] = err no_challenge
  challenged c (ch ∷ fs) =
      if ch.op == Opcodes.op_auth_ok
      then parse_auth_ok (ch ∷ fs)
      else if not (ch.op == Opcodes.op_auth_challenge)
      then err wrong_reply
      else after_challenge c ch

  unfoldable pub perform_handshake :
      Mechanism → List ℕ → List ℕ → List ℕ → Result (AuthError E) HandshakeResult
  perform_handshake none_mech username password nonce =
      ok (record { session_token = 0; expires_at = 0; server_final = [] })
  perform_handshake plain username password nonce = do
    body ← plain_client_first username password
    fs ← replied (call 0 body)
    parse_auth_ok fs
  perform_handshake scram_sha_256 username password nonce = do
    c ← new username password nonce
    bs ← utf8 (gs2_header ++ client_first c)
    fs ← replied (call 0 bs)
    challenged c fs
  perform_handshake unknown username password nonce = err unsupported_mechanism
