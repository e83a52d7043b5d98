-- ===== src/Wire/Client/Answers.antt =====
-- The client of python/vedadb/wire/vbp/__init__.py against the handlers of
-- python/vedadb/wire/vbp/handlers.py.
use vedadb_driver.Base.{
  ℕ, ◌%◌, ◌^◌, ◌<◌, ◌≡◌, ◌≢◌, refl, sym, ap, ◌∙◌, Bool, true, false, Option, none, some, List, [],
  ◌∷◌, ◌++◌, append-nil, append_assoc, arith, if◌then◌else◌, length, take, take_all, Result, ok,
  err, ◌>>=◌,
}
use native.Mathlib.Nat.{mod-lt}
use vedadb_driver.Base.Dict.{get, nat_eq}
use vedadb_driver.Base.Bytes.{le_bytes, le_value, to_word, length-le_bytes}
use vedadb_driver.Base.Utf8
use vedadb_driver.Wire.Frame.{Frame}
use vedadb_driver.Wire.Opcodes
use vedadb_driver.Wire.Types.Texts.{all_ascii}
use vedadb_driver.Wire.Messages.{
  MessageError, struct_error, pack, unpack, read_utf8, read_text, write_text,
}
use vedadb_driver.Wire.Messages.RoundTrip.{
  pack-ok, unpack-append, read_text-append, encode-ascii, write_text-ascii,
}
use vedadb_driver.Wire.Handlers.{
  Strings, Handler, frame_of, handlers, handle_query, handle_ping, handle_client_hello,
  is_select_one, select_one, rows_finished, data_chunk_int, command_complete, server_ready_body,
  auth_ok_body,
}
use vedadb_driver.Wire.Client.{
  Cell, VbpResult, unreadable, read_columns, decode_data_chunk, Param, params_part, build_query,
  build_hello,
}
use vedadb_driver.Wire.Client.Replies.{
  new_result, parse_reply, parse_from, parse_replies, of_reply, answered, sent, execute, nonce_of,
  ponged, ping,
}

abbrev handled : Option Handler → List ℕ → Result MessageError (List Frame)
handled none body = ok []
handled (some h) body = h body

-- A server that answers with the handlers.
unfoldable pub serve : Strings → ℕ → List ℕ → Result MessageError (List Frame)
serve text op body = handled (get op (handlers text)) body

serve-query :
    (text : Strings) (body : List ℕ) → serve text Opcodes.op_query body ≡ handle_query text body
unfolding serve handlers get
serve-query text body = refl

serve-ping : (text : Strings) (body : List ℕ) → serve text Opcodes.op_ping body ≡ handle_ping body
unfolding serve handlers get
serve-ping text body = refl

build_query-ok :
    (sql bs : List ℕ) (params : List Param) (ps : List ℕ)
    → Utf8.encode sql ≡ some bs
    → length bs < 2 ^ 32
    → params_part params ≡ ok ps
    → build_query sql params ≡ ok (le_bytes 4 0 ++ (le_bytes 4 (length bs) ++ (bs ++ ps)))
unfolding build_query
build_query-ok sql bs params ps e h p = rw (e, pack-ok 4 (length bs) h, p)

-- The handler reads the statement that the client wrote, whatever its parameters.
handle_query-build :
    (text : Strings) (sql bs ps : List ℕ)
    → Utf8.encode sql ≡ some bs
    → length bs < 2 ^ 32
    → handle_query text (le_bytes 4 0 ++ (le_bytes 4 (length bs) ++ (bs ++ ps)))
      ≡ (if is_select_one text sql then select_one else ok (command_complete 0 ∷ []))
unfolding handle_query
handle_query-build text sql bs ps e h = rw (
  unpack-append 4 0 (le_bytes 4 (length bs) ++ (bs ++ ps)) (omega arith),
  read_text-append sql bs ps e h,
)

module _ {V : Type 0} (decode_other : ℕ → List ℕ → V) (text : Strings) where
  answered-select_one :
      answered (serve text) decode_other select_one ≡ err (of_reply (unreadable struct_error))
  unfolding select_one rows_finished parse_replies parse_from parse_reply data_chunk_int
      decode_data_chunk unpack pack read_columns read_text read_utf8 write_text Utf8.encode
      Utf8.decode le_bytes le_value to_word
  answered-select_one = refl

  answered_complete :
      answered (serve text) decode_other (ok (command_complete 0 ∷ [])) ≡ ok new_result
  unfolding parse_replies parse_from parse_reply command_complete
  answered_complete = refl

  -- With the handlers as server, a statement that UTF-8 encodes to less than 2^32 bytes gets an empty
  -- result, whatever its parameters; only SELECT 1, the one statement that the handlers answer with a
  -- row, raises struct.error, since the handler's DATA_CHUNK lacks the name of its column.
  pub execute_served :
      (sql bs : List ℕ) (params : List Param) (ps : List ℕ)
      → Utf8.encode sql ≡ some bs
      → length bs < 2 ^ 32
      → params_part params ≡ ok ps
      → execute (serve text) decode_other true sql params ≡ (
          if is_select_one text sql
          then err (of_reply (unreadable struct_error))
          else ok new_result)
  unfolding execute
  execute_served sql bs params ps e h p =
      ap (sent (serve text) decode_other) (build_query-ok sql bs params ps e h p)
      ∙ (ap (answered (serve text) decode_other)
            (serve-query text _ ∙ handle_query-build text sql bs ps e h)
          ∙ by_statement (is_select_one text sql))
    where
      by_statement :
          (b : Bool)
          → answered
              (serve text)
              decode_other
              (if b then select_one else ok (command_complete 0 ∷ []))
            ≡ (if b then err (of_reply (unreadable struct_error)) else ok new_result)
      by_statement true = answered-select_one
      by_statement false = answered_complete

unpack-exact : (k n : ℕ) → n < 256 ^ k → unpack k (le_bytes k n) ≡ ok (n, [])
unpack-exact k n h = ap (unpack k) (sym (append-nil (le_bytes k n))) ∙ unpack-append k n [] h

read_text-exact :
    (s bs : List ℕ)
    → Utf8.encode s ≡ some bs
    → length bs < 2 ^ 32
    → read_text (le_bytes 4 (length bs) ++ bs) ≡ ok (s, [])
read_text-exact s bs e h =
    ap (λ b. read_text (le_bytes 4 (length bs) ++ b)) (sym (append-nil bs))
    ∙ read_text-append s bs [] e h

ponged-ping :
    (text : Strings) (n : ℕ) → n < 2 ^ 64 → ponged (serve text) (handle_ping (le_bytes 8 n)) ≡ ok n
unfolding handle_ping
ponged-ping text n h =
    let t : take 8 (le_bytes 8 n) ≡ le_bytes 8 n =
      take_all 8 (le_bytes 8 n) (omega (arith, length-le_bytes 8 n)) in
    ap (λ bs. nonce_of (serve text) (unpack 8 (take 8 bs))) t
    ∙ (ap (λ bs. nonce_of (serve text) (unpack 8 bs)) t
        ∙ ap (nonce_of (serve text)) (unpack-exact 8 n h))

-- With the handlers as server, `ping` returns the nonce that it sent, the time in microseconds modulo
-- 2^64.
pub ping_served : (text : Strings) (now : ℕ) → ping (serve text) true now ≡ ok (now % 2 ^ 64)
unfolding ping
ping_served text now =
    ap (ponged (serve text)) (serve-ping text (le_bytes 8 (now % 2 ^ 64)))
    ∙ ponged-ping text (now % 2 ^ 64) (mod-lt now (omega arith))

-- A client's greeting with a user and a database in ASCII, of less than 2^32 characters, is read by the
-- handler, which is then ready and takes the client as authenticated.
pub hello_served :
    (text : Strings) (user db : List ℕ)
    → all_ascii user ≡ true
    → all_ascii db ≡ true
    → length user < 2 ^ 32
    → length db < 2 ^ 32
    → (build_hello user db >>= handle_client_hello text)
      ≡ ok (
          frame_of Opcodes.op_server_ready server_ready_body
          ∷ frame_of Opcodes.op_auth_ok (auth_ok_body 0xc0ffee)
          ∷ [])
unfolding build_hello handle_client_hello
hello_served text user db a b h k =
    let u = le_bytes 4 (length user) ++ user in
    let d = le_bytes 4 (length db) ++ db in
    rw (
      write_text-ascii user a h,
      write_text-ascii db b k,
      unpack-append 2 1 (le_bytes 2 0 ++ (u ++ (d ++ (0 ∷ u)))) (omega arith),
      unpack-append 2 0 (u ++ (d ++ (0 ∷ u))) (omega arith),
      append_assoc (le_bytes 4 (length user)) user (d ++ (0 ∷ u)),
      read_text-append user user (d ++ (0 ∷ u)) (encode-ascii user a) h,
      append_assoc (le_bytes 4 (length db)) db (0 ∷ u),
      read_text-append db db (0 ∷ u) (encode-ascii db b) k,
      read_text-exact user user (encode-ascii user a) h,
    )

ok_inj : {E A : Type 0} {x y : A} → ◌≡◌ {A = Result E A} (ok x) (ok y) → x ≡ y
ok_inj h = cc

after :
    {E A B : Type 0} (x : Result E A) (f g : A → Result E B) (t u : Result E B)
    → ((a : A) → f a ≡ t → g a ≡ u)
    → ((e : E) → err e ≢ t)
    → (x >>= f) ≡ t
    → (x >>= g) ≡ u
after (ok a) f g t u k n h = k a h
after (err e) f g t u k n h = absurd (n e h)

parse_from-append :
    {V : Type 0} (decode_other : ℕ → List ℕ → V) (r r' : VbpResult V) (fs gs : List Frame)
    → parse_from decode_other r fs ≡ ok r'
    → parse_from decode_other r (fs ++ gs) ≡ parse_from decode_other r' gs
unfolding parse_from
parse_from-append d r r' [] gs e = ap (λ x. parse_from d x gs) (ok_inj e)
parse_from-append d r r' (f ∷ fs) gs e =
    after (parse_reply d r f) (λ y. parse_from d y fs) (λ y. parse_from d y (fs ++ gs)) (ok r')
      (parse_from d r' gs) (λ y h. parse_from-append d y r' fs gs h) (λ z h. cc) e

one_chunk :
    {V : Type 0} (decode_other : ℕ → List ℕ → V) (f : Frame) (r : VbpResult V)
    (cols : List (List ℕ)) (types : List ℕ) (rows : List (List (Cell V)))
    → f.op ≡ Opcodes.op_data_chunk
    → decode_data_chunk decode_other f.body ≡ ok (cols, (types, rows))
    → parse_from decode_other r (f ∷ [])
      ≡ ok (record r { columns = cols; column_types = types; rows = rows })
unfolding parse_from parse_reply
one_chunk d f r cols types rows o h = rw (o, h)

-- Of a result that comes in several DATA_CHUNK frames the rows of the last are left: a further chunk
-- replaces the columns, their types and the rows of what was read before.
pub chunk_replaces :
    {V : Type 0} (decode_other : ℕ → List ℕ → V) (fs : List Frame) (f : Frame) (r : VbpResult V)
    (cols : List (List ℕ)) (types : List ℕ) (rows : List (List (Cell V)))
    → parse_replies decode_other fs ≡ ok r
    → f.op ≡ Opcodes.op_data_chunk
    → decode_data_chunk decode_other f.body ≡ ok (cols, (types, rows))
    → parse_replies decode_other (fs ++ (f ∷ []))
      ≡ ok (record r { columns = cols; column_types = types; rows = rows })
unfolding parse_replies parse_reply
chunk_replaces d fs f r cols types rows e o h =
    parse_from-append d new_result r fs (f ∷ []) e ∙ one_chunk d f r cols types rows o h
