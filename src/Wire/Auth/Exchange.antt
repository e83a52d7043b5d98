-- ===== src/Wire/Auth/Exchange.antt =====
-- The exchange of messages with SCRAM-SHA-256 of python/vedadb/wire/vbp/auth.py.
use vedadb_driver.Base.{
  ℕ, ◌^◌, ◌<◌, ◌≡◌, refl, sym, ap, ◌∙◌, true, false, none, some, List, [], ◌∷◌, ◌++◌, arith, length,
  Result, ok, err, ◌>>=◌, take_all, drop,
}
use vedadb_driver.Base.Int.{ℤ}
use vedadb_driver.Base.Bytes.{IsBytes, xor-xor, le_bytes}
use vedadb_driver.Base.Utf8
use vedadb_driver.Wire.Frame.{Frame}
use vedadb_driver.Wire.Opcodes
use vedadb_driver.Wire.Opcodes.{codes}
use vedadb_driver.Wire.Messages.RoundTrip.{unpack-append}
use vedadb_driver.Wire.Auth.{
  AuthError, Crypto, ScramClient, needs_salt, xor_bytes, starts_with, new, client_first, gs2_header,
  without_proof, server_first, with_commas, client_key, proof_of, client_final_message,
  verify_server_final,
}
use vedadb_driver.Wire.Auth.Handshake.{
  read_auth_ok, find_auth_ok, parse_auth_ok, last_replies, after_challenge, challenged,
  perform_handshake, scram_sha_256,
}
use vedadb_driver.Wire.Auth.Names.{no_comma, parse_server_first-ok}

-- A digest of HMAC has 32 bytes.
pub record IsDigest (k : Crypto) : Type 0 where
  pub bytes : (key msg : List ℕ) → IsBytes (k.hmac key msg)
  pub size : (key msg : List ℕ) → length (k.hmac key msg) ≡ 32

-- What a server answers to a client's first message, and what it is in bytes.
pub record Exchange (k : Crypto) (c : ScramClient) : Type 0 where
  pub combined : List ℕ
  pub salt : List ℕ
  pub count : ℤ
  pub first_bytes : List ℕ
  pub server_bytes : List ℕ
  pub final_bytes : List ℕ
  pub password_bytes : List ℕ
  pub salt_bytes : List ℕ
  pub salted : List ℕ
  pub combined_plain : no_comma combined ≡ true
  pub salt_plain : no_comma salt ≡ true
  pub count_plain : no_comma (k.str count) ≡ true
  pub count_read : k.int (k.str count) ≡ some count
  pub first_encoded : Utf8.encode (client_first c) ≡ some first_bytes
  pub server_encoded : Utf8.encode (server_first combined salt (k.str count)) ≡ some server_bytes
  pub final_encoded : Utf8.encode (without_proof k first_bytes combined) ≡ some final_bytes
  pub password_encoded : Utf8.encode c.password ≡ some password_bytes
  pub salt_decoded : k.b64decode salt ≡ some salt_bytes
  pub salted_is : k.hi password_bytes salt_bytes count ≡ some salted

module _ {k : Crypto} {c : ScramClient} (x : Exchange k c) where
  -- The server's first message, the message that both sides sign, and the client's proof.
  abbrev pub challenge : List ℕ
  challenge = server_first x.combined x.salt (k.str x.count)

  abbrev pub signed : List ℕ
  signed = with_commas x.first_bytes x.server_bytes x.final_bytes

  abbrev pub proof : List ℕ
  proof = proof_of k x.salted signed

  abbrev pub final : List ℕ
  final = without_proof k x.first_bytes x.combined ++ (codes ",p=" ++ k.b64encode proof)

  abbrev pub client_after : ScramClient
  client_after = record c {
    combined_nonce = some x.combined;
    auth_message = some signed;
    client_proof = some proof;
  }

  client_final_message-final :
      {E : Type 0}
      → starts_with c.client_nonce x.combined ≡ true
      → client_final_message {E = E} k c challenge ≡ ok (final, client_after)
  unfolding client_final_message
  client_final_message-final h = rw (
    parse_server_first-ok k x.combined x.salt (k.str x.count) x.combined_plain x.salt_plain
        x.count_plain,
    x.count_read,
    h,
    x.first_encoded,
    x.server_encoded,
    x.final_encoded,
    x.salt_decoded,
    x.password_encoded,
    x.salted_is,
  )

xor_bytes-xor_bytes :
    (xs bs : List ℕ) → IsBytes xs → length xs ≡ length bs → xor_bytes (xor_bytes xs bs) bs ≡ xs
unfolding xor_bytes
xor_bytes-xor_bytes [] bs a e = refl
xor_bytes-xor_bytes (x ∷ xs) [] a e = absurd (omega (arith, e))
xor_bytes-xor_bytes (x ∷ xs) (b ∷ bs) a e =
    ap (λ y. y ∷ xor_bytes (xor_bytes xs bs) bs) (xor-xor 8 x b a.0)
    ∙ ap (λ ys. x ∷ ys) (xor_bytes-xor_bytes xs bs a.1 (omega (arith, e)))

-- To a server's first message whose nonce starts with the client's the client answers with a proof from
-- which a server that has only the stored key, the hash of the client's key, gets the client's key:
-- the proof and the signature of the exchange under the stored key, taken together by xor, have that
-- hash. The texts of the exchange can be encoded and decoded, and a digest has 32 bytes.
pub client_final_message-proves :
    {E : Type 0} (k : Crypto) (c : ScramClient) (x : Exchange k c)
    → IsDigest k
    → starts_with c.client_nonce x.combined ≡ true
    → let stored = k.sha256 (client_key k x.salted) in
      (client_final_message {E = E} k c (challenge x) ≡ ok (final x, client_after x))
      × (k.sha256 (xor_bytes (proof x) (k.hmac stored (signed x))) ≡ stored)
unfolding proof_of client_key
client_final_message-proves k c x d h =
    let key = client_key k x.salted in
    (
      client_final_message-final x h,
      ap k.sha256 (
          xor_bytes-xor_bytes key (k.hmac (k.sha256 key) (signed x))
            (d.bytes x.salted (codes "Client Key"))
            (d.size x.salted (codes "Client Key") ∙ sym (d.size (k.sha256 key) (signed x)))),
    )

-- A nonce of the server that does not start with the client's ends the exchange.
client_final_message-mismatch :
    {E : Type 0} (k : Crypto) (c : ScramClient) (x : Exchange k c)
    → starts_with c.client_nonce x.combined ≡ false
    → client_final_message {E = E} k c (challenge x) ≡ err AuthError.nonce_mismatch
unfolding client_final_message
client_final_message-mismatch k c x h = rw (
  parse_server_first-ok k x.combined x.salt (k.str x.count) x.combined_plain x.salt_plain
      x.count_plain,
  x.count_read,
  h,
)

-- The documented use of SCRAMClient fails: verify_server_final on the client that made the last message
-- raises for every signature of the server, the right one included, if nothing has set the salt.
verify_server_final-raises :
    {E : Type 0} (k : Crypto) (c : ScramClient) (x : Exchange k c) (msg sig : List ℕ)
    → starts_with c.client_nonce x.combined ≡ true
    → c.salt_b64 ≡ none
    → starts_with (codes "v=") msg ≡ true
    → k.b64decode (k.strip (drop 2 msg)) ≡ some sig
    → (client_final_message {E = E} k c (challenge x) >>= λ r. verify_server_final k r.1 msg)
      ≡ err needs_salt
unfolding verify_server_final
verify_server_final-raises k c x msg sig h n v b =
    ap (λ m. m >>= λ r. verify_server_final k r.1 msg) (client_final_message-final x h)
    ∙ rw (v, b, n)

parse_auth_ok-body :
    {E : Type 0} (f : Frame) (fs : List Frame) (token expires : ℕ) (server_final : List ℕ)
    → f.op ≡ Opcodes.op_auth_ok
    → f.body
      ≡ le_bytes 8 token
        ++ (le_bytes 8 expires ++ (le_bytes 4 (length server_final) ++ server_final))
    → token < 2 ^ 64
    → expires < 2 ^ 64
    → length server_final < 2 ^ 32
    → parse_auth_ok {E = E} (f ∷ fs)
      ≡ ok (record { session_token = token; expires_at = expires; server_final = server_final })
unfolding parse_auth_ok find_auth_ok read_auth_ok
parse_auth_ok-body f fs token expires s o b h i j = rw (
  o,
  b,
  unpack-append 8 token (le_bytes 8 expires ++ (le_bytes 4 (length s) ++ s)) h,
  unpack-append 8 expires (le_bytes 4 (length s) ++ s) i,
  unpack-append 4 (length s) s j,
  take_all (length s) s (omega arith),
)

last_replies-parse :
    {E : Type 0} (f : Frame) (all fs : List Frame)
    → f.op ≡ Opcodes.op_auth_ok
    → last_replies {E = E} all (f ∷ fs) ≡ parse_auth_ok all
unfolding last_replies
last_replies-parse f all fs a = rw a

-- perform_handshake with SCRAM-SHA-256 does not look at the server's signature: a server that answers
-- the first message with a challenge and the last, whatever stands in it, with AUTH_OK is taken as
-- authentic, with the token, the time and the final message of that answer, whatever they are.
pub handshake_unverified :
    {E : Type 0} (k : Crypto) (call : ℕ → List ℕ → Result E (List Frame))
    (username password nonce : List ℕ) (c : ScramClient) (x : Exchange k c) (bs last : List ℕ)
    (ch f : Frame) (fs gs : List Frame) (token expires : ℕ) (server_final : List ℕ)
    → new {E = E} username password nonce ≡ ok c
    → Utf8.encode (gs2_header ++ client_first c) ≡ some bs
    → starts_with c.client_nonce x.combined ≡ true
    → Utf8.encode (final x) ≡ some last
    → call 0 bs ≡ ok (ch ∷ fs)
    → ch.op ≡ Opcodes.op_auth_challenge
    → Utf8.decode ch.body ≡ some (challenge x)
    → call 1 last ≡ ok (f ∷ gs)
    → f.op ≡ Opcodes.op_auth_ok
    → f.body
      ≡ le_bytes 8 token
        ++ (le_bytes 8 expires ++ (le_bytes 4 (length server_final) ++ server_final))
    → token < 2 ^ 64
    → expires < 2 ^ 64
    → length server_final < 2 ^ 32
    → perform_handshake k call scram_sha_256 username password nonce
      ≡ ok (record { session_token = token; expires_at = expires; server_final = server_final })
unfolding perform_handshake challenged after_challenge
handshake_unverified k call u p nonce c x bs last ch f fs gs token expires s n e h l q o d r a b i j
      m =
    rw (n, e, q, o, d, client_final_message-final x h, l, r)
      (last_replies-parse f (f ∷ gs) gs a ∙ parse_auth_ok-body f gs token expires s a b i j m)
