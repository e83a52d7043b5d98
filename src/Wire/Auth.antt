-- ===== src/Wire/Auth.antt =====
-- python/vedadb/wire/vbp/auth.py: authentication with PLAIN and SCRAM-SHA-256. Texts are lists of code
-- points. The hash functions, base64, int and str of Python are arguments, as is the connection.
pub mod Handshake
pub mod Names
pub mod Exchange
mod Examples
use vedadb_driver.Base.{
  ℕ, zero, suc, ◌==◌, ◌≡◌, refl, ◌↔◌, Bool, true, false, not, ◌&&◌, ◌||◌, Option, none, some,
  String, List, [], ◌∷◌, ◌++◌, if◌then◌else◌, Result, ok, err, ◌>>=◌, length, take, drop, arith,
}
use vedadb_driver.Base.Int.{ℤ}
use vedadb_driver.Base.Bytes.{xor}
use vedadb_driver.Base.Dict.{same_codes, codes_eq, Eq, Dict, get, put}
use vedadb_driver.Base.Utf8
use vedadb_driver.Wire.Frame.{Frame}
use vedadb_driver.Wire.Opcodes
use vedadb_driver.Wire.Opcodes.{codes}
use vedadb_driver.Wire.Messages.{MessageError, unpack, read_utf8, ErrorFields, parse_error_frame}

-- `hi` is PBKDF2, which raises ValueError for less than one iteration; b64decode and int raise on a text
-- that they do not read.
pub record Crypto : Type 0 where
  pub hmac : List ℕ → List ℕ → List ℕ
  pub sha256 : List ℕ → List ℕ
  pub hi : List ℕ → List ℕ → ℤ → Option (List ℕ)
  pub b64encode : List ℕ → List ℕ
  pub b64decode : List ℕ → Option (List ℕ)
  pub int : List ℕ → Option ℤ
  pub str : ℤ → List ℕ
  pub strip : List ℕ → List ℕ

-- The uses of VBPAuthError, the last with the two arguments that it is given, and then other exceptions.
pub data AuthError (E : Type 0) : Type 0 where
  malformed_server_first invalid_count empty_username nonce_mismatch : AuthError E
  before_client_final no_signature needs_salt signature_mismatch : AuthError E
  no_challenge wrong_reply empty_reply no_auth_ok unsupported_mechanism : AuthError E
  rejected : List ℕ → List ℕ → AuthError E
  value_error : AuthError E
  unreadable : MessageError → AuthError E
  of_mux : E → AuthError E

pub record ScramClient : Type 0 where
  pub username : List ℕ
  pub password : List ℕ
  pub client_nonce : List ℕ
  pub combined_nonce : Option (List ℕ)
  pub auth_message : Option (List ℕ)
  pub client_proof : Option (List ℕ)
  pub server_signature : Option (List ℕ)
  pub salt_b64 : Option (List ℕ)
  pub iters : Option ℤ

pub record HandshakeResult : Type 0 where
  pub session_token : ℕ
  pub expires_at : ℕ
  pub server_final : List ℕ

abbrev pub or_unicode : {E A : Type 0} → Option A → Result (AuthError E) A
or_unicode none = err (unreadable MessageError.unicode_error)
or_unicode (some a) = ok a

abbrev or_value_error : {E A : Type 0} → Option A → Result (AuthError E) A
or_value_error none = err value_error
or_value_error (some a) = ok a

abbrev pub or_unreadable : {E A : Type 0} → Result MessageError A → Result (AuthError E) A
or_unreadable (ok a) = ok a
or_unreadable (err e) = err (unreadable e)

-- s.encode("utf-8")
abbrev pub utf8 : {E : Type 0} → List ℕ → Result (AuthError E) (List ℕ)
utf8 s = or_unicode (Utf8.encode s)

unfoldable pub plain_client_first : {E : Type 0} → List ℕ → List ℕ → Result (AuthError E) (List ℕ)
plain_client_first username password = do
  u ← utf8 username
  p ← utf8 password
  ok ((0 ∷ u) ++ ((0 ∷ []) ++ p))

-- `_xor`
unfoldable pub xor_bytes : List ℕ → List ℕ → List ℕ
xor_bytes [] bs = []
xor_bytes (a ∷ xs) [] = []
xor_bytes (a ∷ xs) (b ∷ bs) = xor 8 a b ∷ xor_bytes xs bs

-- s.split(","), the part before the first comma apart.
unfoldable pub split_comma : List ℕ → List ℕ × List (List ℕ)
split_comma [] = ([], [])
split_comma (c ∷ cs) =
    let rest = split_comma cs in if c == 44 then ([], rest.0 ∷ rest.1) else (c ∷ rest.0, rest.1)

-- part.split("=", 1), if there is a "=" in it.
unfoldable pub split_equals : List ℕ → Option (List ℕ × List ℕ)
split_equals [] = none
split_equals (c ∷ cs) = if c == 61 then some ([], cs) else longer c (split_equals cs)
  where
    longer : ℕ → Option (List ℕ × List ℕ) → Option (List ℕ × List ℕ)
    longer c none = none
    longer c (some (k, v)) = some (c ∷ k, v)

abbrev put_part : Option (List ℕ × List ℕ) → Dict (List ℕ) (List ℕ) → Dict (List ℕ) (List ℕ)
put_part none out = out
put_part (some (k, v)) out = put k v out

unfoldable pub put_parts : List (List ℕ) → Dict (List ℕ) (List ℕ) → Dict (List ℕ) (List ℕ)
put_parts [] out = out
put_parts (p ∷ ps) out = put_parts ps (put_part (split_equals p) out)

pub record ServerFirst : Type 0 where
  pub nonce : List ℕ
  pub salt : List ℕ
  pub count : ℤ

abbrev pub counted : {E : Type 0} → List ℕ → List ℕ → Option ℤ → Result (AuthError E) ServerFirst
counted r s none = err invalid_count
counted r s (some n) = ok (record { nonce = r; salt = s; count = n })

-- The values of the keys r, s and i.
abbrev first_of :
    {E : Type 0}
    → Crypto
    → Option (List ℕ)
    → Option (List ℕ)
    → Option (List ℕ)
    → Result (AuthError E) ServerFirst
first_of k (some r) (some s) (some i) = counted r s (k.int i)
first_of k _ _ _ = err malformed_server_first

unfoldable pub parse_server_first :
    {E : Type 0} → Crypto → List ℕ → Result (AuthError E) ServerFirst
parse_server_first k s =
    let parts = split_comma s in
    let out = put_parts (parts.0 ∷ parts.1) [] in
    first_of k (get (codes "r") out) (get (codes "s") out) (get (codes "i") out)

-- `_saslname`: an equals sign and a comma are written with their number.
unfoldable pub saslname : List ℕ → List ℕ
saslname [] = []
saslname (c ∷ cs) =
    let rest = saslname cs in
    if c == 61 then 61 ∷ 51 ∷ 68 ∷ rest else if c == 44 then 61 ∷ 50 ∷ 67 ∷ rest else c ∷ rest

unfoldable pub starts_with : List ℕ → List ℕ → Bool
starts_with [] s = true
starts_with (c ∷ cs) [] = false
starts_with (c ∷ cs) (d ∷ ds) = (c == d) && starts_with cs ds

-- `__init__`, with the nonce that it draws.
unfoldable pub new : {E : Type 0} → List ℕ → List ℕ → List ℕ → Result (AuthError E) ScramClient
new [] password nonce = err empty_username
new (c ∷ cs) password nonce = ok (record {
  username = c ∷ cs;
  password = password;
  client_nonce = nonce;
  combined_nonce = none;
  auth_message = none;
  client_proof = none;
  server_signature = none;
  salt_b64 = none;
  iters = none;
})

unfoldable pub client_first : ScramClient → List ℕ
client_first c = codes "n=" ++ (saslname c.username ++ (codes ",r=" ++ c.client_nonce))

abbrev pub gs2_header : List ℕ
gs2_header = codes "n,,"

-- c=..., r=... of the last message.
unfoldable pub without_proof : Crypto → List ℕ → List ℕ → List ℕ
without_proof k first_bytes combined =
    codes "c=" ++ (k.b64encode (gs2_header ++ (44 ∷ first_bytes)) ++ (codes ",r=" ++ combined))

unfoldable pub server_first : List ℕ → List ℕ → List ℕ → List ℕ
server_first combined salt count =
    codes "r=" ++ (combined ++ (codes ",s=" ++ (salt ++ (codes ",i=" ++ count))))

unfoldable pub with_commas : List ℕ → List ℕ → List ℕ → List ℕ
with_commas a b c = a ++ (44 ∷ (b ++ (44 ∷ c)))

unfoldable pub client_key : Crypto → List ℕ → List ℕ
client_key k salted = k.hmac salted (codes "Client Key")

unfoldable pub proof_of : Crypto → List ℕ → List ℕ → List ℕ
proof_of k salted auth_message =
    let key = client_key k salted in xor_bytes key (k.hmac (k.sha256 key) auth_message)

-- The message and the client afterwards; after an exception the exchange is over.
unfoldable pub client_final_message :
    {E : Type 0} → Crypto → ScramClient → List ℕ → Result (AuthError E) (List ℕ × ScramClient)
client_final_message k c server_first_msg = do
  parsed ← parse_server_first k server_first_msg
  combined ←
      (if not (starts_with c.client_nonce parsed.nonce)
        then err nonce_mismatch
        else ok parsed.nonce)
  first ← utf8 (client_first c)
  let final = without_proof k first combined
  recon ← utf8 (server_first combined parsed.salt (k.str parsed.count))
  last ← utf8 final
  let auth = with_commas first recon last
  salt ← or_value_error (k.b64decode parsed.salt)
  pw ← utf8 c.password
  salted ← or_value_error (k.hi pw salt parsed.count)
  let proof = proof_of k salted auth
  ok (
    final ++ (codes ",p=" ++ k.b64encode proof),
    record c {
      combined_nonce = some combined;
      auth_message = some auth;
      client_proof = some proof;
    },
  )

abbrev pub is_some : {A : Type 0} → Option A → Bool
is_some none = false
is_some (some a) = true

abbrev or_needs_salt : {E A : Type 0} → Option A → Result (AuthError E) A
or_needs_salt none = err needs_salt
or_needs_salt (some a) = ok a

abbrev or_before_final : {E A : Type 0} → Option A → Result (AuthError E) A
or_before_final none = err before_client_final
or_before_final (some a) = ok a

unfoldable pub verify_server_final :
    {E : Type 0} → Crypto → ScramClient → List ℕ → Result (AuthError E) ScramClient
verify_server_final k c msg = do
  proof ← or_before_final c.client_proof
  auth ← or_before_final c.auth_message
  body ← (if not (starts_with (codes "v=") msg) then err no_signature else ok (drop 2 msg))
  sig ← or_value_error (k.b64decode (k.strip body))
  salt_text ← or_needs_salt c.salt_b64
  n ← or_needs_salt c.iters
  salt ← or_value_error (k.b64decode salt_text)
  pw ← utf8 c.password
  salted ← or_value_error (k.hi pw salt n)
  if not (same_codes sig (k.hmac (k.hmac salted (codes "Server Key")) auth))
      then err signature_mismatch
      else ok (record c { server_signature = some sig })
