-- ===== src/Wire/Stream.antt =====
-- A binary input stream of the standard library, and `_read_exact` of
-- python/vedadb/wire/vbp/frame.py over it. The stream is the list of the pieces in which its bytes
-- arrive: `read(n)` hands over at most `n` bytes of the first piece. No piece, or an empty one, is
-- the end of the stream.
pub mod Exact
use vedadb_driver.Base.{
  ℕ, zero, suc, ◌-◌, ◌<◌, Bool, true, false, Option, none, some, List, [], ◌∷◌, ◌++◌, leb, length,
  take, drop, All, if◌then◌else◌,
}

abbrev pub Stream : Type 0
Stream = List (List ℕ)

-- `stream.read(n)` for n > 0.
unfoldable pub read : ℕ → Stream → List ℕ × Stream
read n [] = ([], [])
read n (c ∷ cs) = if leb (length c) n then (c, cs) else (take n c, drop n c ∷ cs)

unfoldable pub is_empty : List ℕ → Bool
is_empty [] = true
is_empty (b ∷ bs) = false

-- The `while remaining > 0` loop, `acc` the chunks joined so far. Each round that goes on takes a
-- byte, so `remaining` rounds are enough.
unfoldable pub read_loop : ℕ → ℕ → List ℕ → Stream → Option (List ℕ) × Stream
unfolding read is_empty
read_loop fuel zero acc s = (some acc, s)
read_loop zero (suc r) acc s = (none, s)
read_loop (suc fuel) (suc r) acc s =
    let (chunk, s') = read (suc r) s in
    let more = read_loop fuel (suc r - length chunk) (acc ++ chunk) s' in
    if is_empty chunk then (none, s') else more

unfoldable pub read_exact : ℕ → Stream → Option (List ℕ) × Stream
unfolding read_loop
read_exact n s = read_loop n n [] s

-- The bytes that a stream still holds.
abbrev pub flat : Stream → List ℕ
flat [] = []
flat (c ∷ cs) = c ++ flat cs

-- The peer sends no empty piece: an empty one is the end of the stream.
abbrev pub IsLive : Stream → Type 0
IsLive = All (λ (c : List ℕ). 0 < length c)
