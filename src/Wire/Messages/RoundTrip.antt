-- ===== src/Wire/Messages/RoundTrip.antt =====
-- What is written to the body of a message is read back from it.
use vedadb_driver.Base.{
  ℕ, ◌^◌, ◌<◌, ◌≡◌, refl, sym, ap, ◌∙◌, true, some, List, [], ◌∷◌, ◌++◌, arith, length, take, drop,
  take-append, drop-append, append_assoc, ok, ◌>>=◌,
}
use vedadb_driver.Base.Bytes.{le_bytes, length-le_bytes, le_value-le_bytes}
use vedadb_driver.Base.Utf8
use vedadb_driver.Wire.Types.Texts.{all_ascii, ascii-true}
use vedadb_driver.Wire.Messages.{
  pack, unpack, read_utf8, read_text, write_text, ljust, five, err_frame, read_error_fields,
  parse_error_frame,
}

pub pack-ok : (k n : ℕ) → n < 256 ^ k → pack k n ≡ ok (le_bytes k n)
unfolding pack
pack-ok k n h = ground (arith, h)

take-exact : (n : ℕ) (bs rest : List ℕ) → length bs ≡ n → take n (bs ++ rest) ≡ bs
take-exact n bs rest e = ap (λ k. take k (bs ++ rest)) (sym e) ∙ take-append bs rest

drop-exact : (n : ℕ) (bs rest : List ℕ) → length bs ≡ n → drop n (bs ++ rest) ≡ rest
drop-exact n bs rest e = ap (λ k. drop k (bs ++ rest)) (sym e) ∙ drop-append bs rest

pub unpack-append :
    (k n : ℕ) (rest : List ℕ) → n < 256 ^ k → unpack k (le_bytes k n ++ rest) ≡ ok (n, rest)
unfolding unpack
unpack-append k n rest h =
    rw
      (
        take-exact k (le_bytes k n) rest (length-le_bytes k n),
        drop-exact k (le_bytes k n) rest (length-le_bytes k n),
        le_value-le_bytes k n h,
        length-le_bytes k n,
      )
      (ground arith)

-- A text behind the number of its bytes.
pub read_text-append :
    (s bs rest : List ℕ)
    → Utf8.encode s ≡ some bs
    → length bs < 2 ^ 32
    → read_text (le_bytes 4 (length bs) ++ (bs ++ rest)) ≡ ok (s, rest)
unfolding read_text read_utf8
read_text-append s bs rest e h = rw (
  unpack-append 4 (length bs) (bs ++ rest) h,
  take-append bs rest,
  drop-append bs rest,
  Utf8.decode-encode s bs e,
)

-- ASCII is its own UTF-8.
pub encode-ascii : (s : List ℕ) → all_ascii s ≡ true → Utf8.encode s ≡ some s
unfolding Utf8.encode Utf8.encode_char
encode-ascii [] a = refl
encode-ascii (c ∷ s) a = ground (arith, a, encode-ascii s)

pub write_text-ascii :
    (s : List ℕ)
    → all_ascii s ≡ true
    → length s < 2 ^ 32
    → write_text s ≡ ok (le_bytes 4 (length s) ++ s)
unfolding write_text
write_text-ascii s a h = rw (pack-ok 4 (length s) h, encode-ascii s a)

length-five : (s : List ℕ) → length (five s) ≡ 5
unfolding ljust
length-five [] = refl
length-five (a ∷ []) = refl
length-five (a ∷ b ∷ []) = refl
length-five (a ∷ b ∷ c ∷ []) = refl
length-five (a ∷ b ∷ c ∷ d ∷ []) = refl
length-five (a ∷ b ∷ c ∷ d ∷ e ∷ s) = refl

five-ascii : (s : List ℕ) → all_ascii s ≡ true → all_ascii (five s) ≡ true
unfolding ljust
five-ascii [] h = refl
five-ascii (a ∷ []) h = ground (arith, h)
five-ascii (a ∷ b ∷ []) h = ground (arith, h)
five-ascii (a ∷ b ∷ c ∷ []) h = ground (arith, h)
five-ascii (a ∷ b ∷ c ∷ d ∷ []) h = ground (arith, h)
five-ascii (a ∷ b ∷ c ∷ d ∷ e ∷ s) h = ground (arith, h)

-- An ERROR frame with an SQL state and a message in ASCII, the message of less than 2^32 characters, is
-- read back with the state cut or filled up with zeros to five characters, the message, and an
-- empty detail and hint.
pub parse_error_frame-err_frame :
    (seq : ℕ) (sqlstate message : List ℕ)
    → all_ascii sqlstate ≡ true
    → all_ascii message ≡ true
    → length message < 2 ^ 32
    → (err_frame seq sqlstate message >>= λ f. ok (parse_error_frame f))
      ≡ ok (record { sqlstate = five sqlstate; message = message; detail = []; hint = [] })
unfolding err_frame parse_error_frame read_error_fields Utf8.encode
parse_error_frame-err_frame seq s m a b h =
    let zeros : List ℕ = le_bytes 4 0 ++ (le_bytes 4 0 ++ le_bytes 4 0) in
    rw (
      ascii-true s a,
      write_text-ascii m b h,
      take-exact 5 (five s) ((le_bytes 4 (length m) ++ m) ++ zeros) (length-five s),
      drop-exact 5 (five s) ((le_bytes 4 (length m) ++ m) ++ zeros) (length-five s),
      ascii-true (five s) (five-ascii s a),
      append_assoc (le_bytes 4 (length m)) m zeros,
      read_text-append m m zeros (encode-ascii m b) h,
      read_text-append [] [] (le_bytes 4 0 ++ le_bytes 4 0) refl (omega arith),
      read_text-append [] [] (le_bytes 4 0) refl (omega arith),
    )
