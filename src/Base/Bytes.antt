-- ===== src/Base/Bytes.antt =====
-- Bytes, and little-endian numbers as the standard library's `struct` packs them.
use Prim.Native.Nat.{ℕ, zero, suc, ◌+◌, ◌-◌, ◌*◌, ◌/◌, ◌%◌, ◌^◌, ◌<◌}
use mathlib.Core.Path.{◌≡◌, refl, ap, ap₂, ◌∙◌}
use mathlib.Core.Bool.{true}
use mathlib.Core.List.{List, [], ◌∷◌}
use native.Mathlib.Omega.{arith}
use native.Mathlib.Nat.{pow-suc}
use vedadb_driver.Base.Tests.{ltb, if◌then◌else◌}
use vedadb_driver.Base.Lists.{length, All}
use vedadb_driver.Base.Int.{ℤ, pos, negsuc, within}

abbrev pub IsByte : ℕ → Type 0
IsByte b = b < 256

abbrev pub IsBytes : List ℕ → Type 0
IsBytes = All IsByte

-- `k` bytes of `n`, lowest first: `struct.pack("<H")`, `"<I"` and `"<Q"` for k = 2, 4, 8.
unfoldable pub le_bytes : ℕ → ℕ → List ℕ
le_bytes zero n = []
le_bytes (suc k) n = (n % 256) ∷ le_bytes k (n / 256)

-- `struct.unpack` of the same formats.
unfoldable pub le_value : List ℕ → ℕ
le_value [] = 0
le_value (b ∷ bs) = b + 256 * le_value bs

-- A signed integer as its two's complement pattern of `k` bytes, and back.
unfoldable pub to_word : ℕ → ℤ → ℕ
to_word k (pos n) = n
to_word k (negsuc n) = 256 ^ k - suc n

unfoldable pub of_word : ℕ → ℕ → ℤ
of_word k w = if ltb (2 * w) (256 ^ k) then pos w else negsuc (256 ^ k - suc w)

pub length-le_bytes : (k n : ℕ) → length (le_bytes k n) ≡ k
unfolding le_bytes
length-le_bytes zero n = refl
length-le_bytes (suc k) n = ap suc (length-le_bytes k (n / 256))

pub le_bytes-IsBytes : (k n : ℕ) → IsBytes (le_bytes k n)
unfolding le_bytes
le_bytes-IsBytes zero n = tt
le_bytes-IsBytes (suc k) n = (omega arith, le_bytes-IsBytes k (n / 256))

pow_pos : (k : ℕ) → 0 < 256 ^ k
pow_pos zero = omega arith
pow_pos (suc k) = omega (arith, pow-suc 256 k, pow_pos k)

pub le_value-le_bytes : (k n : ℕ) → n < 256 ^ k → le_value (le_bytes k n) ≡ n
unfolding le_bytes le_value
le_value-le_bytes zero n h = omega arith
le_value-le_bytes (suc k) n h =
    omega (arith, le_value-le_bytes k (n / 256) (omega (arith, pow-suc 256 k)))

pub le_value-lt : (bs : List ℕ) → IsBytes bs → le_value bs < 256 ^ length bs
unfolding le_value
le_value-lt [] h = omega arith
le_value-lt (b ∷ bs) h = omega (arith, h.0, le_value-lt bs h.1, pow-suc 256 (length bs))

pub le_bytes-le_value : (bs : List ℕ) → IsBytes bs → le_bytes (length bs) (le_value bs) ≡ bs
unfolding le_bytes le_value
le_bytes-le_value [] h = refl
le_bytes-le_value (b ∷ bs) h =
    ap₂ (λ x xs. x ∷ xs) (omega (arith, h.0)) (rw low (le_bytes-le_value bs h.1))
  where
    low : (b + 256 * le_value bs) / 256 ≡ le_value bs
    low = omega (arith, h.0)

pub of_word-lt :
    (k : ℕ) (z : ℤ)
    → 0 < k
    → within (256 ^ k / 2) (256 ^ k / 2 - 1) z ≡ true
    → to_word k z < 256 ^ k
unfolding to_word
of_word-lt zero z h w = absurd (omega arith)
of_word-lt (suc k) (pos n) h w = ground (arith, pow-suc 256 k, pow_pos k)
of_word-lt (suc k) (negsuc n) h w = ground (arith, pow-suc 256 k, pow_pos k)

pub of_word-to_word :
    (k : ℕ) (z : ℤ)
    → 0 < k
    → within (256 ^ k / 2) (256 ^ k / 2 - 1) z ≡ true
    → of_word k (to_word k z) ≡ z
unfolding to_word of_word
of_word-to_word zero z h w = absurd (omega arith)
of_word-to_word (suc k) (pos n) h w = ground (arith, pow-suc 256 k, pow_pos k)
of_word-to_word (suc k) (negsuc n) h w = ground (arith, pow-suc 256 k, pow_pos k)

-- a ^ b for numbers below 2 ^ k.
unfoldable pub xor : ℕ → ℕ → ℕ → ℕ
xor zero a b = 0
xor (suc k) a b = (a % 2 + b % 2) % 2 + 2 * xor k (a / 2) (b / 2)

pub xor-xor : (k a b : ℕ) → a < 2 ^ k → xor k (xor k a b) b ≡ a
unfolding xor
xor-xor zero a b h = omega (arith, h)
xor-xor (suc k) a b h =
    let x = xor k (a / 2) (b / 2) in
    let e : ((a % 2 + b % 2) % 2 + 2 * x) / 2 ≡ x = omega arith in
    let l : a / 2 < 2 ^ k = omega (arith, h) in
    let r : xor k (((a % 2 + b % 2) % 2 + 2 * x) / 2) (b / 2) ≡ a / 2 =
      ap (λ y. xor k y (b / 2)) e ∙ xor-xor k (a / 2) (b / 2) l in
    ap (λ y. (((a % 2 + b % 2) % 2 + 2 * x) % 2 + b % 2) % 2 + 2 * y) r ∙ omega arith
