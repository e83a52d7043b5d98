-- ===== src/Wire/Stream/Exact.antt =====
-- `_read_exact` of python/vedadb/wire/vbp/frame.py: what it returns however the bytes arrive.
use vedadb_driver.Base.{
  ℕ, zero, suc, ◌-◌, ◌≤◌, ◌<◌, ◌≡◌, refl, false, inl, inr, Option, none, some, List, [], ◌∷◌, ◌++◌,
  arith, leb, leb→le, Bool-cases, length, length-append, length-take, take, drop, take-append_ge,
  drop-append_ge, take-append_le, drop-append_le, append_assoc, append-nil, length-drop, ap, ◌∙◌,
}
use vedadb_driver.Wire.Stream.{Stream, read_loop, read_exact, flat, IsLive}

-- `n` bytes were read: they are the first ones, and the rest stays in a live stream.
pub record Reads (r : Option (List ℕ) × Stream) (bytes rest : List ℕ) : Type 0 where
  pub bytes_read : r.0 ≡ some bytes
  pub left : flat r.1 ≡ rest
  pub live : IsLive r.1

Reads-eq :
    {r : Option (List ℕ) × Stream} {bytes bytes' rest rest' : List ℕ}
    → Reads r bytes rest
    → bytes ≡ bytes'
    → rest ≡ rest'
    → Reads r bytes' rest'
Reads-eq h p q = record { bytes_read = h.bytes_read ∙ ap some p; left = h.left ∙ q; live = h.live }

no_more :
    (r : ℕ) (c : List ℕ)
    → leb (suc (length c)) (suc r) ≡ false
    → suc r - suc (length (take r c)) ≡ 0
no_more r c p = ground (arith, length-take r c)

pub read_loop-Reads :
    (fuel r : ℕ) (acc : List ℕ) (s : Stream)
    → r ≤ fuel
    → IsLive s
    → r ≤ length (flat s)
    → Reads (read_loop fuel r acc s) (acc ++ take r (flat s)) (drop r (flat s))
unfolding read_loop
read_loop-Reads fuel zero acc s h l e = record { bytes_read = rw append-nil; left = refl; live = l }
read_loop-Reads zero (suc r) acc s h l e = absurd (omega arith)
read_loop-Reads (suc fuel) (suc r) acc [] h l e = absurd (omega arith)
read_loop-Reads (suc fuel) (suc r) acc ([] ∷ cs) h l e = absurd (omega (arith, l.0))
read_loop-Reads (suc fuel) (suc r) acc ((b ∷ c) ∷ cs) h l e =
    elim (Bool-cases (leb (suc (length c)) (suc r))) [
      | inl p ↦
          rw
            (
              p,
              take-append_ge r c (flat cs) (ground arith),
              drop-append_ge r c (flat cs) (ground arith),
            )
            (Reads-eq
              (read_loop-Reads fuel (suc r - suc (length c)) (acc ++ b ∷ c) cs (omega arith) l.1
                (omega (arith, leb→le _ _ p, length-append c (flat cs))))
              (append_assoc acc (b ∷ c) _
                ∙ ap (λ m. acc ++ b ∷ (c ++ take m (flat cs))) (omega arith))
              (ap (λ m. drop m (flat cs)) (omega arith)))
      | inr p ↦
          rw
            (
              p,
              no_more r c p,
              take-append_le r c (flat cs) (ground arith),
              drop-append_le r c (flat cs) (ground arith),
            )
            (record {
              bytes_read = refl;
              left = refl;
              live = (ground (arith, length-drop r c), l.1);
            })
    ]

pub read_loop_short :
    (fuel r : ℕ) (acc : List ℕ) (s : Stream)
    → r ≤ fuel
    → IsLive s
    → length (flat s) < r
    → (read_loop fuel r acc s).0 ≡ none
unfolding read_loop
read_loop_short fuel zero acc s h l e = absurd (omega arith)
read_loop_short zero (suc r) acc s h l e = absurd (omega arith)
read_loop_short (suc fuel) (suc r) acc [] h l e = refl
read_loop_short (suc fuel) (suc r) acc ([] ∷ cs) h l e = absurd (omega (arith, l.0))
read_loop_short (suc fuel) (suc r) acc ((b ∷ c) ∷ cs) h l e =
    elim (Bool-cases (leb (suc (length c)) (suc r))) [
      | inl p ↦ rw p (
          read_loop_short fuel (suc r - suc (length c)) (acc ++ b ∷ c) cs (omega arith) l.1
            (omega (arith, length-append c (flat cs))))
      | inr p ↦ absurd (ground (arith, length-append c (flat cs)))
    ]

-- However a live stream cuts its bytes into pieces, `_read_exact` returns the next `n` of them and
-- leaves the others.
pub read_exact-Reads :
    (n : ℕ) (s : Stream)
    → IsLive s
    → n ≤ length (flat s)
    → Reads (read_exact n s) (take n (flat s)) (drop n (flat s))
unfolding read_exact
read_exact-Reads n s l e = read_loop-Reads n n [] s (omega arith) l e

pub read_exact_short :
    (n : ℕ) (s : Stream) → IsLive s → length (flat s) < n → (read_exact n s).0 ≡ none
unfolding read_exact
read_exact_short n s l e = read_loop_short n n [] s (omega arith) l e
