-- ===== src/Wire/Types/Texts.antt =====
-- Texts and byte strings of python/vedadb/wire/vbp/types.py. A text is the list of its code points.
use vedadb_driver.Base.{
  ℕ, ◌^◌, ◌<◌, ◌≡◌, refl, Bool, true, false, ◌&&◌, inl, inr, List, [], ◌∷◌, ◌++◌, append_assoc,
  Option, none, some, arith, ltb, if◌then◌else◌, length, Bool-cases, Result, ok, err, ◌>>=◌,
}
use vedadb_driver.Base.Bytes.{le_bytes}
use vedadb_driver.Base.Utf8
use vedadb_driver.Wire.Types.{
  TypeError, out_of_range, unicode_error, Decoded, lp, write_u32, read_u32, read_exact,
}
use vedadb_driver.Wire.Types.Ints.{through, read_exact-append}
use vedadb_driver.Wire.Types.Arrays.{write_u32-ok, read_u32-append}

-- str.encode("ascii") and bytes.decode("ascii")
abbrev pub all_ascii : List ℕ → Bool
all_ascii [] = true
all_ascii (c ∷ cs) = ltb c 0x80 && all_ascii cs

unfoldable pub ascii : List ℕ → Option (List ℕ)
ascii cs = if all_ascii cs then some cs else none

abbrev or_unicode_error {ℓ} : {A : Type ℓ} → Option A → Result TypeError A
or_unicode_error none = err unicode_error
or_unicode_error (some a) = ok a

unfoldable pub encode_bytea : List ℕ → Result TypeError (List ℕ)
unfolding lp
encode_bytea value = lp value

unfoldable pub decode_bytea : List ℕ → Decoded (List ℕ)
unfolding read_u32 read_exact
decode_bytea buf = do (n, rest) ← read_u32 buf; read_exact n rest

unfoldable pub encode_text : List ℕ → Result TypeError (List ℕ)
unfolding lp Utf8.encode
encode_text value = do bs ← or_unicode_error (Utf8.encode value); lp bs

unfoldable pub decode_text : List ℕ → Decoded (List ℕ)
unfolding read_u32 read_exact Utf8.decode
decode_text buf = do
  (n, rest) ← read_u32 buf
  (bs, rest') ← read_exact n rest
  value ← or_unicode_error (Utf8.decode bs)
  ok (value, rest')

unfoldable pub encode_varchar : List ℕ → Result TypeError (List ℕ)
unfolding lp Utf8.encode
encode_varchar value = do bs ← or_unicode_error (Utf8.encode value); lp bs

unfoldable pub decode_varchar : List ℕ → Decoded (List ℕ)
unfolding decode_text
decode_varchar buf = decode_text buf

unfoldable pub encode_tsvector : List ℕ → Result TypeError (List ℕ)
unfolding lp Utf8.encode
encode_tsvector value = do bs ← or_unicode_error (Utf8.encode value); lp bs

unfoldable pub decode_tsvector : List ℕ → Decoded (List ℕ)
unfolding read_u32 read_exact Utf8.decode
decode_tsvector buf = do
  (n, rest) ← read_u32 buf
  (bs, rest') ← read_exact n rest
  value ← or_unicode_error (Utf8.decode bs)
  ok (value, rest')

-- `encode_numeric`, on the text of the value.
unfoldable pub encode_numeric : List ℕ → Result TypeError (List ℕ)
unfolding lp ascii
encode_numeric value = do bs ← or_unicode_error (ascii value); lp bs

unfoldable pub decode_numeric : List ℕ → Decoded (List ℕ)
unfolding read_u32 read_exact ascii
decode_numeric buf = do
  (n, rest) ← read_u32 buf
  (bs, rest') ← read_exact n rest
  value ← or_unicode_error (ascii bs)
  ok (value, rest')

decode_bytea-lp :
    (bs rest : List ℕ)
    → length bs < 2 ^ 32
    → read_u32 ((le_bytes 4 (length bs) ++ bs) ++ rest) ≡ ok (length bs, bs ++ rest)
decode_bytea-lp bs rest h =
    rw (append_assoc (le_bytes 4 (length bs)) bs rest) (read_u32-append (length bs) (bs ++ rest) h)

pub lp-ok : (bs : List ℕ) → length bs < 2 ^ 32 → lp bs ≡ ok (le_bytes 4 (length bs) ++ bs)
unfolding lp
lp-ok bs h = rw (write_u32-ok (length bs) h)

pub lp-err : (bs : List ℕ) → ltb (length bs) (2 ^ 32) ≡ false → lp bs ≡ err out_of_range
unfolding lp write_u32
lp-err bs h = ground arith

-- A byte string of less than 2^32 bytes is read back with the bytes behind it left; a longer one is
-- refused with VBPTypeError.
decode-encode_bytea :
    (value rest : List ℕ)
    → through encode_bytea decode_bytea value rest
      ≡ (if ltb (length value) (2 ^ 32) then ok (value, rest) else err out_of_range)
unfolding encode_bytea decode_bytea
decode-encode_bytea value rest = elim (Bool-cases (ltb (length value) (2 ^ 32))) [
  | inl h ↦ rw (
    h,
    lp-ok value (ground arith),
    decode_bytea-lp value rest (ground arith),
    read_exact-append (length value) value rest refl,
  )
  | inr h ↦ rw (h, lp-err value h)
]

text_back :
    (value bs rest : List ℕ)
    → Utf8.encode value ≡ some bs
    → through encode_text decode_text value rest
      ≡ (if ltb (length bs) (2 ^ 32) then ok (value, rest) else err out_of_range)
unfolding encode_text decode_text
text_back value bs rest e = elim (Bool-cases (ltb (length bs) (2 ^ 32))) [
  | inl h ↦ rw (
    h,
    e,
    lp-ok bs (ground arith),
    decode_bytea-lp bs rest (ground arith),
    read_exact-append (length bs) bs rest refl,
    Utf8.decode-encode value bs e,
  )
  | inr h ↦ rw (h, e, lp-err bs h)
]

-- Texts of type TEXT, VARCHAR and TSVECTOR. One that UTF-8 encodes to `bs` is read back with the
-- bytes behind it left if `bs` has less than 2^32 bytes, and refused with VBPTypeError otherwise.
pub decode-encode_text :
    (value bs rest : List ℕ)
    → Utf8.encode value ≡ some bs
    → (through encode_text decode_text value rest
        ≡ (if ltb (length bs) (2 ^ 32) then ok (value, rest) else err out_of_range))
      × (through encode_varchar decode_varchar value rest
          ≡ (if ltb (length bs) (2 ^ 32) then ok (value, rest) else err out_of_range))
      × (through encode_tsvector decode_tsvector value rest
          ≡ (if ltb (length bs) (2 ^ 32) then ok (value, rest) else err out_of_range))
unfolding encode_text decode_text encode_varchar decode_varchar encode_tsvector decode_tsvector
decode-encode_text value bs rest e =
    (text_back value bs rest e, text_back value bs rest e, text_back value bs rest e)

pub ascii-true : (cs : List ℕ) → all_ascii cs ≡ true → ascii cs ≡ some cs
unfolding ascii
ascii-true cs h = ground arith

-- A number's text of less than 2^32 characters is read back with the bytes behind it left if it is
-- ASCII, and refused with UnicodeError if it is not.
decode-encode_numeric :
    (value rest : List ℕ)
    → length value < 2 ^ 32
    → through encode_numeric decode_numeric value rest
      ≡ (if all_ascii value then ok (value, rest) else err unicode_error)
unfolding encode_numeric decode_numeric
decode-encode_numeric value rest h = elim (Bool-cases (all_ascii value)) [
  | inl a ↦ rw (
    a,
    lp-ok value h,
    decode_bytea-lp value rest h,
    read_exact-append (length value) value rest refl,
    ascii-true value a,
  )
  | inr a ↦ rw a
]
