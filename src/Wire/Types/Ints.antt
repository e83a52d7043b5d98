-- ===== src/Wire/Types/Ints.antt =====
-- Integers of python/vedadb/wire/vbp/types.py, written and read back.
use vedadb_driver.Base.{
  ℕ, ◌-◌, ◌/◌, ◌^◌, ◌<◌, ◌≡◌, ap, sym, ◌∙◌, true, false, inl, inr, List, ◌++◌, arith, if◌then◌else◌,
  length, take, drop, take-append, drop-append, Bool-cases, Result, ok, err, ◌>>=◌,
}
use vedadb_driver.Base.Int.{ℤ, within}
use vedadb_driver.Base.Bytes.{
  le_bytes, to_word, length-le_bytes, le_value-le_bytes, of_word-lt, of_word-to_word,
}
use vedadb_driver.Wire.Types.{
  TypeError, out_of_range, Decoded, read_exact, read_int, encode_int2, encode_int4, encode_int8,
  decode_int2, decode_int4, decode_int8,
}

-- An integer that a signed type of `k` bytes can hold.
abbrev pub Fits : ℕ → ℤ → Type 0
Fits k v = within (256 ^ k / 2) (256 ^ k / 2 - 1) v ≡ true

pub read_exact-append :
    (n : ℕ) (bs rest : List ℕ) → length bs ≡ n → read_exact n (bs ++ rest) ≡ ok (bs, rest)
unfolding read_exact
read_exact-append n bs rest e =
    let t : take n (bs ++ rest) ≡ bs =
      ap (λ k. take k (bs ++ rest)) (sym e) ∙ take-append bs rest in
    let d : drop n (bs ++ rest) ≡ rest =
      ap (λ k. drop k (bs ++ rest)) (sym e) ∙ drop-append bs rest in
    ground (arith, t, d)

-- A packed integer of `k` bytes is read back.
pub read_int-append :
    (k : ℕ) (v : ℤ) (rest : List ℕ)
    → 0 < k
    → Fits k v
    → read_int k (le_bytes k (to_word k v) ++ rest) ≡ ok (v, rest)
unfolding read_int
read_int-append k v rest h f = rw (
  read_exact-append k (le_bytes k (to_word k v)) rest (length-le_bytes k _),
  le_value-le_bytes k _ (of_word-lt k v h f),
  of_word-to_word k v h f,
)

module _ (v : ℤ) where
  pub encode_int2-ok : Fits 2 v → encode_int2 v ≡ ok (le_bytes 2 (to_word 2 v))
  unfolding encode_int2
  encode_int2-ok h = ground arith

  pub encode_int2-err :
      within (256 ^ 2 / 2) (256 ^ 2 / 2 - 1) v ≡ false → encode_int2 v ≡ err out_of_range
  unfolding encode_int2
  encode_int2-err h = ground arith

  pub encode_int4-ok : Fits 4 v → encode_int4 v ≡ ok (le_bytes 4 (to_word 4 v))
  unfolding encode_int4
  encode_int4-ok h = ground arith

  pub encode_int4-err :
      within (256 ^ 4 / 2) (256 ^ 4 / 2 - 1) v ≡ false → encode_int4 v ≡ err out_of_range
  unfolding encode_int4
  encode_int4-err h = ground arith

  pub encode_int8-ok : Fits 8 v → encode_int8 v ≡ ok (le_bytes 8 (to_word 8 v))
  unfolding encode_int8
  encode_int8-ok h = ground arith

  pub encode_int8-err :
      within (256 ^ 8 / 2) (256 ^ 8 / 2 - 1) v ≡ false → encode_int8 v ≡ err out_of_range
  unfolding encode_int8
  encode_int8-err h = ground arith

-- Encoding a value and decoding the bytes with others behind them.
abbrev pub through {ℓ} :
    {A : Type ℓ} → (A → Result TypeError (List ℕ)) → (List ℕ → Decoded A) → A → List ℕ → Decoded A
through enc dec v rest = enc v >>= λ bs. dec (bs ++ rest)

module _ (v : ℤ) (rest : List ℕ) where
  through_int2 :
      through encode_int2 decode_int2 v rest
      ≡ (if within (256 ^ 2 / 2) (256 ^ 2 / 2 - 1) v then ok (v, rest) else err out_of_range)
  unfolding decode_int2
  through_int2 = elim (Bool-cases (within (256 ^ 2 / 2) (256 ^ 2 / 2 - 1) v)) [
    | inl h ↦ rw (encode_int2-ok v h, h) (read_int-append 2 v rest (omega arith) h)
    | inr h ↦ rw (encode_int2-err v h, h)
  ]

  through_int4 :
      through encode_int4 decode_int4 v rest
      ≡ (if within (256 ^ 4 / 2) (256 ^ 4 / 2 - 1) v then ok (v, rest) else err out_of_range)
  unfolding decode_int4
  through_int4 = elim (Bool-cases (within (256 ^ 4 / 2) (256 ^ 4 / 2 - 1) v)) [
    | inl h ↦ rw (encode_int4-ok v h, h) (read_int-append 4 v rest (omega arith) h)
    | inr h ↦ rw (encode_int4-err v h, h)
  ]

  through_int8 :
      through encode_int8 decode_int8 v rest
      ≡ (if within (256 ^ 8 / 2) (256 ^ 8 / 2 - 1) v then ok (v, rest) else err out_of_range)
  unfolding decode_int8
  through_int8 = elim (Bool-cases (within (256 ^ 8 / 2) (256 ^ 8 / 2 - 1) v)) [
    | inl h ↦ rw (encode_int8-ok v h, h) (read_int-append 8 v rest (omega arith) h)
    | inr h ↦ rw (encode_int8-err v h, h)
  ]

  -- Integers of two, four and eight bytes: one that fits is encoded, and decoding its bytes
  -- returns it and leaves the bytes behind it; one that does not fit is refused with VBPTypeError.
  decode-encode_int :
      (through encode_int2 decode_int2 v rest
        ≡ (if within 0x8000 0x7fff v then ok (v, rest) else err out_of_range))
      × (through encode_int4 decode_int4 v rest
          ≡ (if within 0x80000000 0x7fffffff v then ok (v, rest) else err out_of_range))
      × (through encode_int8 decode_int8 v rest
          ≡ (if within (2 ^ 63) (2 ^ 63 - 1) v then ok (v, rest) else err out_of_range))
  decode-encode_int = (through_int2, through_int4, through_int8)
