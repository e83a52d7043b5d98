-- ===== src/Wire/Types/Times.antt =====
-- Dates, times, timestamps and intervals of python/vedadb/wire/vbp/types.py. A date is its number of
-- days from 1970-01-01, a timestamp and an interval a number of microseconds: the standard library's
-- `datetime` does the arithmetic.
use vedadb_driver.Base.{
  ℕ, ◌+◌, ◌-◌, ◌*◌, ◌/◌, ◌%◌, ◌^◌, ◌≤◌, ◌<◌, ◌≡◌, refl, ap, sym, ◌∙◌, Bool, true, false, ◌&&◌, inl,
  inr, List, ◌++◌, arith, ltb, if◌then◌else◌, length, length-append, take, take-append, Bool-cases,
  Result, ok, err, ◌>>=◌,
}
use vedadb_driver.Base.Int.{ℤ, pos, negsuc, within}
use vedadb_driver.Base.Bytes.{
  le_bytes, le_value, to_word, of_word, length-le_bytes, le_value-le_bytes, of_word-lt,
  of_word-to_word,
}
use vedadb_driver.Wire.Types.{
  TypeError, struct_error, value_error, Decoded, pack_int, read_exact, read_i32, read_i64,
}
use vedadb_driver.Wire.Types.Ints.{Fits, through, read_exact-append, read_int-append}

-- `encode_date` of a date or of an integer.
unfoldable pub encode_date : ℤ → Result TypeError (List ℕ)
unfolding pack_int
encode_date days = pack_int 4 days

-- The dates from 0001-01-01 to 9999-12-31; the sum is an OverflowError for others.
unfoldable pub decode_date : List ℕ → Decoded ℤ
unfolding read_i32
decode_date buf = do
  (days, rest) ← read_i32 buf
  if within 719162 2932896 days then ok (days, rest) else err value_error

unfoldable pub encode_timestamp : ℤ → Result TypeError (List ℕ)
unfolding pack_int
encode_timestamp micros = pack_int 8 micros

-- The microseconds from 0001-01-01T00:00:00 to the end of 9999-12-31.
unfoldable pub decode_timestamp : List ℕ → Decoded ℤ
unfolding read_i64
decode_timestamp buf = do
  (micros, rest) ← read_i64 buf
  if within 62135596800000000 253402300799999999 micros then ok (micros, rest) else err value_error

pub record Time : Type 0 where
  pub hour : ℕ
  pub minute : ℕ
  pub second : ℕ
  pub microsecond : ℕ

abbrev pub is_time : Time → Bool
is_time t = ltb t.hour 24 && (ltb t.minute 60 && (ltb t.second 60 && ltb t.microsecond 1000000))

-- `time(h, m, s, us)`
unfoldable pub make_time : ℤ → ℕ → ℕ → ℕ → Result TypeError Time
make_time (negsuc h) m s us = err value_error
make_time (pos h) m s us =
    let t : Time = record { hour = h; minute = m; second = s; microsecond = us } in
    if is_time t then ok t else err value_error

-- divmod(v, d) for d > 0.
unfoldable pub divmod : ℤ → ℕ → ℤ × ℕ
divmod (pos n) d = (pos (n / d), n % d)
divmod (negsuc n) d = (negsuc (n / d), d - 1 - n % d)

-- `encode_time` of a `time`, and of an integer.
abbrev pub micros_of : Time → ℕ
micros_of t = t.hour * 3600000000 + t.minute * 60000000 + t.second * 1000000 + t.microsecond

unfoldable pub encode_time : Time → Result TypeError (List ℕ)
unfolding pack_int
encode_time t = pack_int 8 (pos (micros_of t))

unfoldable pub encode_time_int : ℤ → Result TypeError (List ℕ)
unfolding pack_int
encode_time_int micros = pack_int 8 micros

unfoldable pub time_of : ℤ → Result TypeError Time
unfolding make_time divmod
time_of micros =
    let (s, us) = divmod micros 1000000 in
    let (s', sec) = divmod s 60 in let (h, m) = divmod s' 60 in make_time h m sec us

unfoldable pub decode_time : List ℕ → Decoded Time
unfolding read_i64 time_of
decode_time buf = do (micros, rest) ← read_i64 buf; t ← time_of micros; ok (t, rest)

-- An integer, or a `timedelta` of so many microseconds.
pub data Interval : Type 0 where
  number duration : ℤ → Interval

-- The number that is written. `float_micros` is `int(value.total_seconds() * 1_000_000)` of a
-- `timedelta` of so many microseconds: it is computed with floats and may differ from them.
abbrev pub interval_micros : (ℤ → ℤ) → Interval → ℤ
interval_micros float_micros (number n) = n
interval_micros float_micros (duration n) = float_micros n

unfoldable pub encode_interval : (ℤ → ℤ) → Interval → Result TypeError (List ℕ)
unfolding pack_int
encode_interval float_micros value = do
  let micros = interval_micros float_micros value
  a ← pack_int 8 micros
  b ← pack_int 4 (pos 0)
  c ← pack_int 4 (pos 0)
  ok (a ++ (b ++ c))

unfoldable pub decode_interval : List ℕ → Decoded ℤ
unfolding read_exact
decode_interval buf = do (bs, rest) ← read_exact 16 buf; ok (of_word 8 (le_value (take 8 bs)), rest)

pack_int-ok : (k : ℕ) (v : ℤ) → Fits k v → pack_int k v ≡ ok (le_bytes k (to_word k v))
unfolding pack_int
pack_int-ok k v h = rw h

pack_int-err :
    (k : ℕ) (v : ℤ)
    → within (256 ^ k / 2) (256 ^ k / 2 - 1) v ≡ false
    → pack_int k v ≡ err struct_error
unfolding pack_int
pack_int-err k v h = rw h

-- A date is read back if it is one of the years 1 to 9999; any other number of days that fits four
-- bytes is encoded and then not decoded, and one that does not fit is struct.error.
decode-encode_date :
    (days : ℤ) (rest : List ℕ)
    → through encode_date decode_date days rest ≡ (
        if within 0x80000000 0x7fffffff days
        then if within 719162 2932896 days then ok (days, rest) else err value_error
        else err struct_error)
unfolding encode_date decode_date
decode-encode_date days rest = elim (Bool-cases (within 0x80000000 0x7fffffff days)) [
  | inl h ↦ rw (pack_int-ok 4 days h, h, read_int-append 4 days rest (omega arith) h)
  | inr h ↦ rw (pack_int-err 4 days h, h)
]

-- The same for timestamps, in eight bytes.
decode-encode_timestamp :
    (micros : ℤ) (rest : List ℕ)
    → through encode_timestamp decode_timestamp micros rest ≡ (
        if within (2 ^ 63) (2 ^ 63 - 1) micros
        then if within 62135596800000000 253402300799999999 micros
          then ok (micros, rest)
          else err value_error
        else err struct_error)
unfolding encode_timestamp decode_timestamp
decode-encode_timestamp micros rest = elim (Bool-cases (within (2 ^ 63) (2 ^ 63 - 1) micros)) [
  | inl h ↦ rw (pack_int-ok 8 micros h, h, read_int-append 8 micros rest (omega arith) h)
  | inr h ↦ rw (pack_int-err 8 micros h, h)
]

-- The parts of a time of day out of its microseconds.
parts :
    (h m s us x : ℕ)
    → m < 60
    → s < 60
    → us < 1000000
    → x ≡ h * 3600000000 + m * 60000000 + s * 1000000 + us
    → (x / 1000000 / 60 / 60 ≡ h)
      × (x / 1000000 / 60 % 60 ≡ m)
      × (x / 1000000 % 60 ≡ s)
      × (x % 1000000 ≡ us)
parts h m s us x lm ls lu e =
    let e1 : x / 1000000 ≡ h * 3600 + m * 60 + s = omega arith in
    let e2 : x % 1000000 ≡ us = omega arith in rw e1 (omega arith, omega arith, omega arith, e2)

time_of-micros_of : (t : Time) → is_time t ≡ true → time_of (pos (micros_of t)) ≡ ok t
unfolding time_of make_time divmod
time_of-micros_of t h =
    let (eh, em, es, eu) =
      parts t.hour t.minute t.second t.microsecond (micros_of t) (ground (arith, h))
        (ground (arith, h)) (ground (arith, h)) refl in
    rw (eh, em, es, eu, h)

-- A time of day is read back.
decode-encode_time :
    (t : Time) (rest : List ℕ)
    → is_time t ≡ true
    → through encode_time decode_time t rest ≡ ok (t, rest)
unfolding encode_time decode_time
decode-encode_time t rest h =
    let v : ℤ = pos (micros_of t) in
    let f : Fits 8 v = ground (arith, h) in
    rw (pack_int-ok 8 v f, read_int-append 8 v rest (omega arith) f, time_of-micros_of t h)

time_of_early : (n : ℕ) → time_of (negsuc n) ≡ err value_error
unfolding time_of make_time divmod
time_of_early n = refl

time_of_late : (n : ℕ) → 86400000000 ≤ n → time_of (pos n) ≡ err value_error
unfolding time_of make_time divmod
time_of_late n h = let late : ltb (n / 1000000 / 60 / 60) 24 ≡ false = ground arith in rw late

-- The time of day so many microseconds after midnight.
abbrev pub clock : ℤ → Time
clock (negsuc n) = record { hour = 0; minute = 0; second = 0; microsecond = 0 }
clock (pos n) = record {
  hour = n / 3600000000;
  minute = n / 60000000 % 60;
  second = n / 1000000 % 60;
  microsecond = n % 1000000;
}

time_of_inside :
    (micros : ℤ) → within 0 86399999999 micros ≡ true → time_of micros ≡ ok (clock micros)
unfolding time_of make_time divmod
time_of_inside (negsuc n) h = absurd (ground (arith, h))
time_of_inside (pos n) h =
    let hours : n / 1000000 / 60 / 60 ≡ n / 3600000000 = omega arith in
    let minutes : n / 1000000 / 60 ≡ n / 60000000 = omega arith in
    let early : n / 3600000000 < 24 = ground (arith, h) in rw (hours, minutes) (ground arith)

time_of_outside :
    (micros : ℤ) → within 0 86399999999 micros ≡ false → time_of micros ≡ err value_error
time_of_outside (pos n) h = time_of_late n (ground (arith, h))
time_of_outside (negsuc n) h = time_of_early n

-- A number of microseconds that is sent as a time is decoded to the time of day so long after
-- midnight if it is not negative and less than a day; otherwise ValueError escapes the decoder.
decode-encode_time_int :
    (micros : ℤ) (rest : List ℕ)
    → Fits 8 micros
    → (encode_time_int micros >>= λ bs. decode_time (bs ++ rest))
      ≡ (if within 0 86399999999 micros then ok (clock micros, rest) else err value_error)
unfolding encode_time_int decode_time
decode-encode_time_int micros rest h = elim (Bool-cases (within 0 86399999999 micros)) [
  | inl d ↦ rw (
    pack_int-ok 8 micros h,
    read_int-append 8 micros rest (omega arith) h,
    d,
    time_of_inside micros d,
  )
  | inr d ↦ rw (
    pack_int-ok 8 micros h,
    read_int-append 8 micros rest (omega arith) h,
    d,
    time_of_outside micros d,
  )
]

-- An interval's days and months are skipped when it is read: whatever they are, only the
-- microseconds are returned.
decode_interval_skips :
    (micros days months : ℤ) (rest : List ℕ)
    → Fits 8 micros
    → decode_interval (
        (le_bytes 8 (to_word 8 micros)
          ++ (le_bytes 4 (to_word 4 days) ++ le_bytes 4 (to_word 4 months)))
        ++ rest)
      ≡ ok (micros, rest)
unfolding decode_interval
decode_interval_skips micros days months rest h =
    let a = le_bytes 8 (to_word 8 micros) in
    let b = le_bytes 4 (to_word 4 days) in
    let c = le_bytes 4 (to_word 4 months) in
    let n : length (a ++ (b ++ c)) ≡ 16 = omega (
      arith,
      length-append a (b ++ c),
      length-append b c,
      length-le_bytes 8 (to_word 8 micros),
      length-le_bytes 4 (to_word 4 days),
      length-le_bytes 4 (to_word 4 months),
    ) in
    let t : take 8 (a ++ (b ++ c)) ≡ a =
      ap (λ k. take k (a ++ (b ++ c))) (sym (length-le_bytes 8 (to_word 8 micros)))
      ∙ take-append a (b ++ c) in
    rw (
      read_exact-append 16 (a ++ (b ++ c)) rest n,
      t,
      le_value-le_bytes 8 (to_word 8 micros) (of_word-lt 8 micros (omega arith) h),
      of_word-to_word 8 micros (omega arith) h,
    )

-- The microseconds of an interval that are written are read back if they fit eight bytes, and any
-- others are struct.error.
pub decode-encode_interval :
    (float_micros : ℤ → ℤ) (value : Interval) (rest : List ℕ)
    → let micros = interval_micros float_micros value in
      (encode_interval float_micros value >>= λ buf. decode_interval (buf ++ rest))
      ≡ (if within (2 ^ 63) (2 ^ 63 - 1) micros then ok (micros, rest) else err struct_error)
unfolding encode_interval
decode-encode_interval float_micros value rest =
    let micros = interval_micros float_micros value in
    elim (Bool-cases (within (2 ^ 63) (2 ^ 63 - 1) micros)) [
      | inl h ↦ rw (pack_int-ok 8 micros h, h) (decode_interval_skips micros (pos 0) (pos 0) rest h)
      | inr h ↦ rw (pack_int-err 8 micros h, h)
    ]
