-- ===== src/Wire/Types.antt =====
-- python/vedadb/wire/vbp/types.py: the binary form of column values. A buffer that is read is the
-- list of the bytes left in it.
pub mod Ints
pub mod Arrays
pub mod Texts
pub mod Times
mod Examples
use vedadb_driver.Base.{
  ℕ, zero, suc, ◌+◌, ◌-◌, ◌*◌, ◌/◌, ◌%◌, ◌^◌, Bool, true, false, not, List, [], ◌∷◌, ◌++◌, ltb, leb,
  ◌==◌, if◌then◌else◌, length, take, drop, Result, ok, err, ◌>>=◌,
}
use vedadb_driver.Base.Int.{ℤ, pos, negsuc, within}
use vedadb_driver.Base.Bytes.{le_bytes, le_value, to_word, of_word}

-- `out_of_range` and `truncated` are the uses of VBPTypeError, the others exceptions of the standard
-- library: struct.error, UnicodeError, and ValueError or OverflowError of `datetime`.
pub data TypeError : Type 0 where
  out_of_range truncated struct_error unicode_error value_error : TypeError

abbrev pub Decoded {ℓ} : Type ℓ → Type ℓ
Decoded A = Result TypeError (A × List ℕ)

-- `struct.pack` of a signed and of an unsigned integer of `k` bytes.
unfoldable pub pack_int : ℕ → ℤ → Result TypeError (List ℕ)
pack_int k v =
    if within (256 ^ k / 2) (256 ^ k / 2 - 1) v
    then ok (le_bytes k (to_word k v))
    else err struct_error

unfoldable pub pack_uint : ℕ → ℤ → Result TypeError (List ℕ)
pack_uint k v = if within 0 (256 ^ k - 1) v then ok (le_bytes k (to_word k v)) else err struct_error

appended : List ℕ → Result TypeError (List ℕ) → Result TypeError (List ℕ)
appended buf (ok bs) = ok (buf ++ bs)
appended buf (err e) = err e

unfoldable pub write_u8 : List ℕ → ℤ → Result TypeError (List ℕ)
unfolding pack_uint appended
write_u8 buf v = if not (within 0 0xff v) then err out_of_range else appended buf (pack_uint 1 v)

unfoldable pub write_u16 : List ℕ → ℤ → Result TypeError (List ℕ)
unfolding pack_uint appended
write_u16 buf v = if not (within 0 0xffff v) then err out_of_range else appended buf (pack_uint 2 v)

unfoldable pub write_u32 : List ℕ → ℤ → Result TypeError (List ℕ)
unfolding pack_uint appended
write_u32 buf v =
    if not (within 0 0xffffffff v) then err out_of_range else appended buf (pack_uint 4 v)

unfoldable pub write_i16 : List ℕ → ℤ → Result TypeError (List ℕ)
unfolding pack_int appended
write_i16 buf v =
    if not (within 0x8000 0x7fff v) then err out_of_range else appended buf (pack_int 2 v)

unfoldable pub write_i32 : List ℕ → ℤ → Result TypeError (List ℕ)
unfolding pack_int appended
write_i32 buf v =
    if not (within 0x80000000 0x7fffffff v) then err out_of_range else appended buf (pack_int 4 v)

unfoldable pub write_i64 : List ℕ → ℤ → Result TypeError (List ℕ)
unfolding pack_int appended
write_i64 buf v =
    if not (within (2 ^ 63) (2 ^ 63 - 1) v) then err out_of_range else appended buf (pack_int 8 v)

unfoldable pub write_bytes_lp : List ℕ → List ℕ → Result TypeError (List ℕ)
unfolding write_u32
write_bytes_lp buf payload =
    if ltb 0xffffffff (length payload)
    then err out_of_range
    else do out ← write_u32 buf (pos (length payload)); ok (out ++ payload)

unfoldable pub read_exact : ℕ → List ℕ → Decoded (List ℕ)
read_exact n buf =
    if not (length (take n buf) == n) then err truncated else ok (take n buf, drop n buf)

unfoldable pub read_uint : ℕ → List ℕ → Decoded ℕ
unfolding read_exact
read_uint k buf = do (bs, rest) ← read_exact k buf; ok (le_value bs, rest)

unfoldable pub read_int : ℕ → List ℕ → Decoded ℤ
unfolding read_exact
read_int k buf = do (bs, rest) ← read_exact k buf; ok (of_word k (le_value bs), rest)

unfoldable pub read_u8 : List ℕ → Decoded ℕ
unfolding read_uint
read_u8 buf = read_uint 1 buf

unfoldable pub read_u16 : List ℕ → Decoded ℕ
unfolding read_uint
read_u16 buf = read_uint 2 buf

unfoldable pub read_u32 : List ℕ → Decoded ℕ
unfolding read_uint
read_u32 buf = read_uint 4 buf

unfoldable pub read_i16 : List ℕ → Decoded ℤ
unfolding read_int
read_i16 buf = read_int 2 buf

unfoldable pub read_i32 : List ℕ → Decoded ℤ
unfolding read_int
read_i32 buf = read_int 4 buf

unfoldable pub read_i64 : List ℕ → Decoded ℤ
unfolding read_int
read_i64 buf = read_int 8 buf

unfoldable pub read_bytes_lp : List ℕ → Decoded (List ℕ)
unfolding read_u32 read_exact
read_bytes_lp buf = do
  (n, rest) ← read_u32 buf
  if n == 0xffffffff then ok ([], rest) else read_exact n rest

-- `_lp`
unfoldable pub lp : List ℕ → Result TypeError (List ℕ)
unfolding write_u32
lp payload = do out ← write_u32 [] (pos (length payload)); ok (out ++ payload)

unfoldable pub encode_bool : Bool → List ℕ
encode_bool value = (if value then 1 else 0) ∷ []

unfoldable pub decode_bool : List ℕ → Decoded Bool
unfolding read_u8
decode_bool buf = do (v, rest) ← read_u8 buf; ok (not (v == 0), rest)

unfoldable pub encode_int2 : ℤ → Result TypeError (List ℕ)
unfolding write_i16
encode_int2 value = write_i16 [] value

unfoldable pub encode_int4 : ℤ → Result TypeError (List ℕ)
unfolding write_i32
encode_int4 value = write_i32 [] value

unfoldable pub encode_int8 : ℤ → Result TypeError (List ℕ)
unfolding write_i64
encode_int8 value = write_i64 [] value

unfoldable pub decode_int2 : List ℕ → Decoded ℤ
unfolding read_i16
decode_int2 buf = read_i16 buf

unfoldable pub decode_int4 : List ℕ → Decoded ℤ
unfolding read_i32
decode_int4 buf = read_i32 buf

unfoldable pub decode_int8 : List ℕ → Decoded ℤ
unfolding read_i64
decode_int8 buf = read_i64 buf

encode_elems : List ℕ → List ℤ → Result TypeError (List ℕ)
unfolding encode_int4
encode_elems out [] = ok out
encode_elems out (v ∷ vs) = do bs ← encode_int4 v; encode_elems (out ++ bs) vs

-- `encode_array` on a list of integers.
unfoldable pub encode_array : List ℤ → Result TypeError (List ℕ)
unfolding write_u32 encode_elems
encode_array vs = do out ← write_u32 [] (pos (length vs)); encode_elems out vs

decode_elems : ℕ → List ℕ → Decoded (List ℤ)
unfolding read_i32
decode_elems zero buf = ok ([], buf)
decode_elems (suc n) buf = do
  (v, rest) ← read_i32 buf
  (vs, rest') ← decode_elems n rest
  ok (v ∷ vs, rest')

unfoldable pub decode_array : List ℕ → Decoded (List ℤ)
unfolding read_u32 decode_elems
decode_array buf = do (n, rest) ← read_u32 buf; decode_elems n rest

-- `encode_geo_point` on integers: a pair, or the keys `lat_e7` and `lon_e7`.
unfoldable pub encode_geo_point : ℤ × ℤ → Result TypeError (List ℕ)
unfolding pack_int
encode_geo_point (lat_e7, lon_e7) = do a ← pack_int 4 lat_e7; b ← pack_int 4 lon_e7; ok (a ++ b)

unfoldable pub decode_geo_point : List ℕ → Decoded (ℤ × ℤ)
unfolding read_exact
decode_geo_point buf = do
  (bs, rest) ← read_exact 8 buf
  ok ((of_word 4 (le_value (take 4 bs)), of_word 4 (le_value (drop 4 bs))), rest)
