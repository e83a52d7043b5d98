-- ===== src/Wire/Client/Connect.antt =====
-- `connect` of python/vedadb/wire/vbp/__init__.py: the greeting, and the authentication if the server has
-- not done without. `call` sends the n-th message of the connection; `opened` is the exception of the
-- socket, if any.
use vedadb_driver.Base.{
  ℕ, suc, ◌^◌, ◌<◌, ◌≡◌, refl, ap, ◌∙◌, Bool, true, false, not, ◌&&◌, Option, none, some, List, [],
  ◌∷◌, ◌==◌, if◌then◌else◌, length, Result, ok, err, ◌>>=◌,
}
use vedadb_driver.Base.Dict.{get}
use vedadb_driver.Wire.Frame.{Frame}
use vedadb_driver.Wire.Opcodes
use vedadb_driver.Wire.Types.Texts.{all_ascii}
use vedadb_driver.Wire.Messages.{MessageError, ErrorFields, parse_error_frame}
use vedadb_driver.Wire.Auth.{Crypto, AuthError}
use vedadb_driver.Wire.Auth.Handshake.{Mechanism, none_mech, perform_handshake}
use vedadb_driver.Wire.Handlers.{
  Strings, frame_of, handlers, server_ready_body, auth_ok_body, handle_client_hello,
}
use vedadb_driver.Wire.Client.{build_hello}
use vedadb_driver.Wire.Client.Answers.{serve, hello_served}

pub data ConnectError (E : Type 0) : Type 0 where
  no_server_ready : ConnectError E
  of_socket : E → ConnectError E
  of_mux : E → ConnectError E
  unwritable : MessageError → ConnectError E
  vbp_error : ErrorFields → ConnectError E
  of_auth : AuthError E → ConnectError E

pub record Connection : Type 0 where
  pub user : List ℕ
  pub password : List ℕ
  pub db : List ℕ
  pub mechanism : Mechanism
  pub connected : Bool
  pub session_token : ℕ

-- The loop over the replies: whether one of them was AUTH_OK.
unfoldable pub saw_auth_ok : {E : Type 0} → Bool → List Frame → Result (ConnectError E) Bool
saw_auth_ok saw [] = ok saw
saw_auth_ok saw (f ∷ fs) =
    if f.op == Opcodes.op_auth_ok
    then saw_auth_ok true fs
    else if f.op == 0x0d
    then err (vbp_error (parse_error_frame f))
    else saw_auth_ok saw fs

abbrev is_none_mech : Mechanism → Bool
is_none_mech none_mech = true
is_none_mech _ = false

abbrev socket : {E : Type 0} → Option E → Result (ConnectError E) Bool
socket none = ok true
socket (some e) = err (of_socket e)

abbrev replies : {E A : Type 0} → Result E A → Result (ConnectError E) A
replies (ok a) = ok a
replies (err e) = err (of_mux e)

abbrev written : {E A : Type 0} → Result MessageError A → Result (ConnectError E) A
written (ok a) = ok a
written (err e) = err (unwritable e)

abbrev authenticated : {E A : Type 0} → Result (AuthError E) A → Result (ConnectError E) A
authenticated (ok a) = ok a
authenticated (err e) = err (of_auth e)

module _ {E : Type 0} (k : Crypto) (nonce : List ℕ) (opened : Option E)
    (call : ℕ → ℕ → List ℕ → Result E (List Frame)) where
  -- Without AUTH_OK a user authenticates; with it the session has the token 0.
  unfoldable pub greeted : Connection → Bool → Result (ConnectError E) Connection
  greeted c saw =
      if not saw && (not (is_none_mech c.mechanism) && not (length c.user == 0))
      then (do
        hr ← authenticated (
            perform_handshake k (λ n body. call (suc n) Opcodes.op_auth_response body) c.mechanism
              c.user c.password nonce)
        ok (record c { connected = true; session_token = hr.session_token }))
      else if saw
      then ok (record c { connected = true; session_token = 0 })
      else ok (record c { connected = true })

  unfoldable pub after_hello : Connection → List Frame → Result (ConnectError E) Connection
  after_hello c [] = err no_server_ready
  after_hello c (f ∷ fs) = do saw ← saw_auth_ok false (f ∷ fs); greeted c saw

  unfoldable pub connect : Connection → Result (ConnectError E) Connection
  connect c = if c.connected then ok c else (do
    sock ← socket opened
    body ← written (build_hello c.user c.db)
    fs ← replies (call 0 Opcodes.op_client_hello body)
    after_hello c fs)

bind-ok :
    {E A B : Type 0} (m : Result E A) (f : A → Result E B) (b : B)
    → (m >>= f) ≡ ok b
    → (a : A) × ((m ≡ ok a) × (f a ≡ ok b))
bind-ok (ok a) f b e = (a, (refl, e))
bind-ok (err x) f b e = cc

serve-hello :
    (text : Strings) (body : List ℕ)
    → serve text Opcodes.op_client_hello body ≡ handle_client_hello text body
unfolding serve handlers get
serve-hello text body = refl

hello_frames : List Frame
hello_frames =
    frame_of Opcodes.op_server_ready server_ready_body
    ∷ frame_of Opcodes.op_auth_ok (auth_ok_body 0xc0ffee)
    ∷ []

after_hello-frames :
    {E : Type 0} (k : Crypto) (nonce : List ℕ) (opened : Option E)
    (call : ℕ → ℕ → List ℕ → Result E (List Frame)) (c : Connection)
    → after_hello k nonce opened call c hello_frames
      ≡ ok (record c { connected = true; session_token = 0 })
unfolding after_hello saw_auth_ok greeted hello_frames
after_hello-frames k nonce opened call c = refl

not_connected :
    {A : Type 0} (x : A) {y z : A} (b : Bool) → b ≡ false → y ≡ z → (if b then x else y) ≡ z
not_connected x true n e = cc
not_connected x false n e = e

-- With the handlers as server a connection is made for every user and database in ASCII, of less than
-- 2^32 characters, without authentication whatever the mechanism, and its session has the token 0, not
-- the one that the server sends with AUTH_OK.
pub connect_served :
    (k : Crypto) (nonce : List ℕ) (text : Strings) (c : Connection)
    → c.connected ≡ false
    → all_ascii c.user ≡ true
    → all_ascii c.db ≡ true
    → length c.user < 2 ^ 32
    → length c.db < 2 ^ 32
    → connect k nonce none (λ n op body. serve text op body) c
      ≡ ok (record c { connected = true; session_token = 0 })
unfolding connect hello_frames
connect_served k nonce text c n a b h l =
    let call : ℕ → ℕ → List ℕ → Result MessageError (List Frame) =
      λ n op body. serve text op body in
    let hello =
      bind-ok (build_hello c.user c.db) (handle_client_hello text) _
        (hello_served text c.user c.db a b h l) in
    let body = hello.0 in
    let reply : serve text Opcodes.op_client_hello body ≡ ok hello_frames =
      serve-hello text body ∙ hello.1.1 in
    not_connected (ok c) c.connected n (
      ap
        (λ m. written m >>= λ bs.
          replies (call 0 Opcodes.op_client_hello bs) >>= λ fs. after_hello k nonce none call c fs)
        hello.1.0
      ∙ (ap (λ m. replies m >>= λ fs. after_hello k nonce none call c fs) reply
          ∙ after_hello-frames k nonce none call c))
