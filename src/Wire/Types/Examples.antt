-- ===== src/Wire/Types/Examples.antt =====
-- Values of python/vedadb/wire/vbp/types.py at concrete values.
use vedadb_driver.Base.{ℕ, ◌≡◌, refl, List, [], ◌∷◌, some, ok}
use vedadb_driver.Base.Utf8
use vedadb_driver.Wire.Types.Ints.{through}
use vedadb_driver.Wire.Types.Texts.{
  encode_text, decode_text, encode_varchar, decode_varchar, encode_tsvector, decode_tsvector,
  decode-encode_text,
}

-- A letter, one with an accent, a sign of three bytes and one of four.
abbrev word : List ℕ
word = 65 ∷ 0xe9 ∷ 0x20ac ∷ 0x1f600 ∷ []

abbrev word_bytes : List ℕ
word_bytes = 65 ∷ 0xc3 ∷ 0xa9 ∷ 0xe2 ∷ 0x82 ∷ 0xac ∷ 0xf0 ∷ 0x9f ∷ 0x98 ∷ 0x80 ∷ []

word-utf8 : Utf8.encode word ≡ some word_bytes
unfolding Utf8.encode
word-utf8 = refl

decode-encode_text_example :
    (through encode_text decode_text word (9 ∷ []) ≡ ok (word, 9 ∷ []))
    × (through encode_varchar decode_varchar word (9 ∷ []) ≡ ok (word, 9 ∷ []))
    × (through encode_tsvector decode_tsvector word (9 ∷ []) ≡ ok (word, 9 ∷ []))
decode-encode_text_example = decode-encode_text word word_bytes (9 ∷ []) word-utf8
