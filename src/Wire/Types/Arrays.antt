-- ===== src/Wire/Types/Arrays.antt =====
-- Arrays and points of python/vedadb/wire/vbp/types.py, written and read back.
use vedadb_driver.Base.{
  ℕ, ◌^◌, ◌<◌, ◌≡◌, refl, ap, sym, ◌∙◌, Bool, true, false, ◌&&◌, inl, inr, List, [], ◌∷◌, ◌++◌,
  append_assoc, append-nil, arith, if◌then◌else◌, length, length-append, take, drop, take-append,
  drop-append, All, Bool-cases, ok, err,
}
use vedadb_driver.Base.Int.{ℤ, pos, within}
use vedadb_driver.Base.Bytes.{
  le_bytes, le_value, to_word, of_word, length-le_bytes, le_value-le_bytes, of_word-lt,
  of_word-to_word,
}
use vedadb_driver.Wire.Types.{
  out_of_range, struct_error, write_u32, read_i32, read_u32, encode_elems, encode_array,
  decode_elems, decode_array, encode_geo_point, decode_geo_point,
}
use vedadb_driver.Wire.Types.Ints.{
  Fits, read_exact-append, read_int-append, through, encode_int4-ok, encode_int4-err,
}

pub write_u32-ok : (n : ℕ) → n < 2 ^ 32 → write_u32 [] (pos n) ≡ ok (le_bytes 4 n)
unfolding write_u32 to_word
write_u32-ok n h = ground arith

pub read_u32-append :
    (n : ℕ) (rest : List ℕ) → n < 2 ^ 32 → read_u32 (le_bytes 4 n ++ rest) ≡ ok (n, rest)
unfolding read_u32
read_u32-append n rest h =
    rw (read_exact-append 4 (le_bytes 4 n) rest (length-le_bytes 4 n), le_value-le_bytes 4 n h)

read_i32-append :
    (v : ℤ) (rest : List ℕ) → Fits 4 v → read_i32 (le_bytes 4 (to_word 4 v) ++ rest) ≡ ok (v, rest)
unfolding read_i32
read_i32-append v rest h = read_int-append 4 v rest (omega arith) h

-- The bytes of the elements.
abbrev elems : List ℤ → List ℕ
elems [] = []
elems (v ∷ vs) = le_bytes 4 (to_word 4 v) ++ elems vs

encode_elems-ok :
    (out : List ℕ) (vs : List ℤ) → All (Fits 4) vs → encode_elems out vs ≡ ok (out ++ elems vs)
unfolding encode_elems
encode_elems-ok out [] h = rw append-nil
encode_elems-ok out (v ∷ vs) h = rw (encode_int4-ok v h.0) (
    encode_elems-ok (out ++ le_bytes 4 (to_word 4 v)) vs h.1
    ∙ ap ok (append_assoc out (le_bytes 4 (to_word 4 v)) (elems vs)))

decode_elems-elems :
    (vs : List ℤ) (rest : List ℕ)
    → All (Fits 4) vs
    → decode_elems (length vs) (elems vs ++ rest) ≡ ok (vs, rest)
unfolding decode_elems
decode_elems-elems [] rest h = refl
decode_elems-elems (v ∷ vs) rest h = rw (
  append_assoc (le_bytes 4 (to_word 4 v)) (elems vs) rest,
  read_i32-append v (elems vs ++ rest) h.0,
  decode_elems-elems vs rest h.1,
)

abbrev pub every_fits : List ℤ → Bool
every_fits [] = true
every_fits (v ∷ vs) = within 0x80000000 0x7fffffff v && every_fits vs

every_fits-All : (vs : List ℤ) → every_fits vs ≡ true → All (Fits 4) vs
every_fits-All [] h = tt
every_fits-All (v ∷ vs) h = (ground arith, every_fits-All vs (ground arith))

encode_elems-err :
    (out : List ℕ) (vs : List ℤ) → every_fits vs ≡ false → encode_elems out vs ≡ err out_of_range
unfolding encode_elems
encode_elems-err out [] h = cc
encode_elems-err out (v ∷ vs) h = elim (Bool-cases (within 0x80000000 0x7fffffff v)) [
  | inl f ↦
      rw (encode_int4-ok v f) (encode_elems-err (out ++ le_bytes 4 (to_word 4 v)) vs (ground arith))
  | inr f ↦ rw (encode_int4-err v f)
]

-- An array of integers that all fit four bytes is read back with the bytes behind it left; if one
-- does not fit, the array is refused with VBPTypeError.
decode-encode_array :
    (vs : List ℤ) (rest : List ℕ)
    → length vs < 2 ^ 32
    → through encode_array decode_array vs rest
      ≡ (if every_fits vs then ok (vs, rest) else err out_of_range)
unfolding encode_array decode_array
decode-encode_array vs rest h = elim (Bool-cases (every_fits vs)) [
  | inl f ↦ rw (
    f,
    write_u32-ok (length vs) h,
    encode_elems-ok (le_bytes 4 (length vs)) vs (every_fits-All vs f),
    append_assoc (le_bytes 4 (length vs)) (elems vs) rest,
    read_u32-append (length vs) (elems vs ++ rest) h,
    decode_elems-elems vs rest (every_fits-All vs f),
  )
  | inr f ↦ rw (f, write_u32-ok (length vs) h, encode_elems-err (le_bytes 4 (length vs)) vs f)
]

decode_geo_point-append :
    (a b : List ℕ) (rest : List ℕ)
    → length a ≡ 4
    → length b ≡ 4
    → decode_geo_point ((a ++ b) ++ rest)
      ≡ ok ((of_word 4 (le_value a), of_word 4 (le_value b)), rest)
unfolding decode_geo_point
decode_geo_point-append a b rest ea eb =
    let t : take 4 (a ++ b) ≡ a = ap (λ k. take k (a ++ b)) (sym ea) ∙ take-append a b in
    let d : drop 4 (a ++ b) ≡ b = ap (λ k. drop k (a ++ b)) (sym ea) ∙ drop-append a b in
    rw (read_exact-append 8 (a ++ b) rest (omega (arith, length-append a b)), t, d)

word_back : (v : ℤ) → Fits 4 v → of_word 4 (le_value (le_bytes 4 (to_word 4 v))) ≡ v
word_back v h =
    rw (le_value-le_bytes 4 _ (of_word-lt 4 v (omega arith) h), of_word-to_word 4 v (omega arith) h)

-- A point given by two integers is read back if both fit four bytes; otherwise `struct.error`
-- escapes.
decode-encode_geo_point :
    (lat lon : ℤ) (rest : List ℕ)
    → through encode_geo_point decode_geo_point (lat, lon) rest ≡ (
        if within 0x80000000 0x7fffffff lat && within 0x80000000 0x7fffffff lon
        then ok ((lat, lon), rest)
        else err struct_error)
unfolding encode_geo_point
decode-encode_geo_point lat lon rest = elim (Bool-cases (within 0x80000000 0x7fffffff lat)) [
  | inl f ↦ elim (Bool-cases (within 0x80000000 0x7fffffff lon)) [
    | inl g ↦ rw (
      f,
      g,
      decode_geo_point-append (le_bytes 4 (to_word 4 lat)) (le_bytes 4 (to_word 4 lon)) rest
          (length-le_bytes 4 _) (length-le_bytes 4 _),
      word_back lat f,
      word_back lon g,
    )
    | inr g ↦ rw (f, g)
  ]
  | inr f ↦ rw f
]
