-- ===== src/Wire/Auth/Examples.antt =====
-- An exchange with a digest that only cuts and fills up.
use vedadb_driver.Base.{
  ℕ, zero, suc, ◌%◌, ◌≡◌, refl, ap, Option, some, none, List, [], ◌∷◌, ◌++◌, arith, length, Result,
  ok,
}
use native.Mathlib.Nat.{mod-lt}
use vedadb_driver.Base.Int.{ℤ, pos, negsuc}
use vedadb_driver.Base.Bytes.{IsBytes, le_bytes, xor}
use vedadb_driver.Base.Utf8
use vedadb_driver.Wire.Frame.{Frame}
use vedadb_driver.Wire.Handlers.{frame_of}
use vedadb_driver.Wire.Opcodes
use vedadb_driver.Wire.Opcodes.{codes}
use vedadb_driver.Wire.Auth.{
  Crypto, ScramClient, new, client_first, saslname, split_comma, server_first, without_proof,
  with_commas, gs2_header, client_key, xor_bytes, client_final_message, starts_with, proof_of,
}
use vedadb_driver.Wire.Auth.Handshake.{perform_handshake, scram_sha_256}
use vedadb_driver.Wire.Auth.Names.{client_first-reads, read_name}
use vedadb_driver.Wire.Auth.Exchange.{
  IsDigest, Exchange, challenge, signed, proof, final, client_after, client_final_message-proves,
  handshake_unverified,
}

fit : ℕ → List ℕ → List ℕ
fit zero bs = []
fit (suc n) [] = 0 ∷ fit n []
fit (suc n) (b ∷ bs) = (b % 256) ∷ fit n bs

length-fit : (n : ℕ) (bs : List ℕ) → length (fit n bs) ≡ n
unfolding fit
length-fit zero bs = refl
length-fit (suc n) [] = ap suc (length-fit n [])
length-fit (suc n) (b ∷ bs) = ap suc (length-fit n bs)

fit-IsBytes : (n : ℕ) (bs : List ℕ) → IsBytes (fit n bs)
unfolding fit
fit-IsBytes zero bs = tt
fit-IsBytes (suc n) [] = (omega arith, fit-IsBytes n [])
fit-IsBytes (suc n) (b ∷ bs) = (mod-lt b (omega arith), fit-IsBytes n bs)

ones : ℕ → List ℕ
ones zero = []
ones (suc n) = 49 ∷ ones n

str : ℤ → List ℕ
unfolding ones
str (pos n) = ones n
str (negsuc n) = []

abbrev toy : Crypto
toy = record {
  hmac = λ key msg. fit 32 (msg ++ key);
  sha256 = fit 32;
  hi = λ pw salt n. some (fit 32 (salt ++ pw));
  b64encode = λ bs. bs;
  b64decode = λ s. some s;
  int = λ s. some (pos (length s));
  str = str;
  strip = λ s. s;
}

toy-IsDigest : IsDigest toy
toy-IsDigest = record {
  bytes = λ key msg. fit-IsBytes 32 (msg ++ key);
  size = λ key msg. length-fit 32 (msg ++ key);
}

abbrev user : ScramClient
user = record {
  username = codes "a,b=c";
  password = codes "secret";
  client_nonce = codes "xy";
  combined_nonce = none;
  auth_message = none;
  client_proof = none;
  server_signature = none;
  salt_b64 = none;
  iters = none;
}

abbrev exchange : Exchange toy user
unfolding Utf8.encode Utf8.encode_char client_first saslname server_first without_proof str ones
exchange = record {
  combined = codes "xyz";
  salt = codes "salt";
  count = pos 3;
  first_bytes = client_first user;
  server_bytes = server_first (codes "xyz") (codes "salt") (str (pos 3));
  final_bytes = without_proof toy (client_first user) (codes "xyz");
  password_bytes = codes "secret";
  salt_bytes = codes "salt";
  salted = fit 32 (codes "salt" ++ codes "secret");
  combined_plain = refl;
  salt_plain = refl;
  count_plain = refl;
  count_read = refl;
  first_encoded = refl;
  server_encoded = refl;
  final_encoded = refl;
  password_encoded = refl;
  salt_decoded = refl;
  salted_is = refl;
}

client_first-reads_example :
    (split_comma (client_first user)
      ≡ (codes "n=" ++ saslname user.username, (codes "r=" ++ user.client_nonce) ∷ []))
    × (read_name (saslname user.username) ≡ user.username)
client_first-reads_example = client_first-reads user refl

client_final_message-proves_example :
    (client_final_message {E = ℕ} toy user (challenge exchange)
      ≡ ok (final exchange, client_after exchange))
    × (toy.sha256 (
          xor_bytes
            (proof exchange)
            (toy.hmac (toy.sha256 (client_key toy exchange.salted)) (signed exchange)))
        ≡ toy.sha256 (client_key toy exchange.salted))
unfolding starts_with exchange
client_final_message-proves_example =
    client_final_message-proves {E = ℕ} toy user exchange toy-IsDigest refl

-- A server that knows nothing of the user.
abbrev impostor : ℕ → List ℕ → Result ℕ (List Frame)
impostor zero body = ok (frame_of Opcodes.op_auth_challenge (challenge exchange) ∷ [])
impostor (suc n) body = ok (
    frame_of Opcodes.op_auth_ok
      (le_bytes 8 7 ++ (le_bytes 8 0 ++ (le_bytes 4 (length (codes "v=x")) ++ codes "v=x")))
    ∷ [])

abbrev or_nothing : Option (List ℕ) → List ℕ
or_nothing none = []
or_nothing (some bs) = bs

handshake_unverified_example :
    perform_handshake toy impostor scram_sha_256 (codes "a,b=c") (codes "secret") (codes "xy")
    ≡ ok (record { session_token = 7; expires_at = 0; server_final = codes "v=x" })
unfolding exchange starts_with new Utf8.encode Utf8.encode_char Utf8.decode client_first saslname
    server_first without_proof str ones proof_of client_key with_commas xor_bytes xor fit
handshake_unverified_example =
    handshake_unverified toy impostor (codes "a,b=c") (codes "secret") (codes "xy") user exchange
      (gs2_header ++ client_first user) (or_nothing (Utf8.encode (final exchange)))
      (frame_of Opcodes.op_auth_challenge (challenge exchange))
      (frame_of Opcodes.op_auth_ok
        (le_bytes 8 7 ++ (le_bytes 8 0 ++ (le_bytes 4 (length (codes "v=x")) ++ codes "v=x"))))
      [] [] 7 0 (codes "v=x") refl refl refl refl refl refl refl refl refl refl (omega arith)
      (omega arith) (omega arith)
