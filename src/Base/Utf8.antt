-- ===== src/Base/Utf8.antt =====
-- The standard library's strict UTF-8 codec. A text is the list of its code points.
use Prim.Native.Nat.{ℕ, zero, suc, ◌+◌, ◌-◌, ◌*◌, ◌/◌, ◌%◌}
use mathlib.Core.Path.{◌≡◌, refl, ap, ◌∙◌}
use mathlib.Core.Bool.{◌&&◌}
use mathlib.Core.Option.{Option, none, some}
use mathlib.Core.List.{List, [], ◌∷◌, ◌++◌}
use native.Mathlib.Omega.{arith}
use vedadb_driver.Base.Tests.{ltb, leb, ◌==◌, if◌then◌else◌}

-- The bytes of a code point; a surrogate has none.
unfoldable pub encode_char : ℕ → Option (List ℕ)
encode_char c =
    if ltb c 0x80
    then some (c ∷ [])
    else if ltb c 0x800
    then some ((0xc0 + c / 64) ∷ (0x80 + c % 64) ∷ [])
    else if leb 0xd800 c && leb c 0xdfff
    then none
    else if ltb c 0x10000
    then some ((0xe0 + c / 4096) ∷ (0x80 + c / 64 % 64) ∷ (0x80 + c % 64) ∷ [])
    else if ltb c 0x110000
    then some
        ((0xf0 + c / 262144) ∷ (0x80 + c / 4096 % 64) ∷ (0x80 + c / 64 % 64) ∷ (0x80 + c % 64) ∷ [])
    else none

abbrev joined : Option (List ℕ) → Option (List ℕ) → Option (List ℕ)
joined none rest = none
joined (some bs) none = none
joined (some bs) (some rest) = some (bs ++ rest)

unfoldable pub encode : List ℕ → Option (List ℕ)
unfolding encode_char
encode [] = some []
encode (c ∷ cs) = joined (encode_char c) (encode cs)

-- Continuation bytes that are still needed, the bits read, and the range of the next byte.
pub record State : Type 0 where
  pub need : ℕ
  pub acc : ℕ
  pub lo : ℕ
  pub hi : ℕ

abbrev pub start : State
start = record { need = 0; acc = 0; lo = 0; hi = 0 }

pub data Next : Type 0 where
  fail : Next
  more : State → Next
  char : ℕ → Next

first_byte : ℕ → Next
first_byte b =
    if ltb b 0x80
    then char b
    else if ltb b 0xc2
    then fail
    else if ltb b 0xe0
    then more (record { need = 1; acc = b - 0xc0; lo = 0x80; hi = 0xbf })
    else if ltb b 0xf0
    then more (record {
      need = 2;
      acc = b - 0xe0;
      lo = if b == 0xe0 then 0xa0 else 0x80;
      hi = if b == 0xed then 0x9f else 0xbf;
    })
    else if ltb b 0xf5
    then more (record {
      need = 3;
      acc = b - 0xf0;
      lo = if b == 0xf0 then 0x90 else 0x80;
      hi = if b == 0xf4 then 0x8f else 0xbf;
    })
    else fail

next_byte : ℕ → State → ℕ → Next
unfolding first_byte
next_byte zero st b = first_byte b
next_byte (suc n) st b =
    if leb st.lo b && leb b st.hi
    then if n == 0
      then char (st.acc * 64 + (b - 0x80))
      else more (record { need = n; acc = st.acc * 64 + (b - 0x80); lo = 0x80; hi = 0xbf })
    else fail

abbrev with_char : ℕ → Option (List ℕ) → Option (List ℕ)
with_char c none = none
with_char c (some cs) = some (c ∷ cs)

decode_from : State → List ℕ → Option (List ℕ)
decode_from st [] = if st.need == 0 then some [] else none
decode_from st (b ∷ bs) = elim (next_byte st.need st b) [
  | fail ↦ none
  | more st' ↦ decode_from st' bs
  | char c ↦ with_char c (decode_from start bs)
]

unfoldable pub decode : List ℕ → Option (List ℕ)
unfolding decode_from next_byte
decode bs = decode_from start bs

-- The bytes of a code point are decoded to it.
decode-encode_char :
    (c : ℕ) (bs rest : List ℕ)
    → encode_char c ≡ some bs
    → decode_from start (bs ++ rest) ≡ with_char c (decode_from start rest)
unfolding encode_char next_byte decode_from
decode-encode_char c bs rest h = ground arith

joined-some :
    (o rest : Option (List ℕ)) {bs : List ℕ}
    → joined o rest ≡ some bs
    → (b : List ℕ) × (r : List ℕ) × (o ≡ some b) × (rest ≡ some r) × (b ++ r ≡ bs)
joined-some none rest e = cc
joined-some (some b) none e = cc
joined-some (some b) (some r) e = (b, r, refl, refl, cc)

-- What a text is encoded to is decoded to that text.
pub decode-encode : (cs bs : List ℕ) → encode cs ≡ some bs → decode bs ≡ some cs
unfolding encode decode
decode-encode [] bs h = cc
decode-encode (c ∷ cs) bs h =
    let (b, r, eb, er, e) = joined-some (encode_char c) (encode cs) h in
    rw (← e) (decode-encode_char c b r eb ∙ ap (with_char c) (decode-encode cs r er))
