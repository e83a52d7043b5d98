-- ===== src/Base/Sets.antt =====
-- Python's sets, and lists seen as collections of different elements. A set is a list in which the
-- order does not count.
use Prim.Native.Nat.{◌+◌, ◌≤◌}
use mathlib.Core.Path.{◌≡◌, refl}
use mathlib.Core.Bool.{Bool, true, false, not, ◌&&◌, ◌||◌}
use mathlib.Core.List.{List, [], ◌∷◌, ◌++◌}
use native.Mathlib.Omega.{arith}
use vedadb_driver.Base.Tests.{if◌then◌else◌}
use vedadb_driver.Base.Lists.{length}
use vedadb_driver.Base.Dict.{Eq}

module _ {ℓ} {K : Type ℓ} ⦃e : Eq K⦄ where
  -- k in s
  unfoldable pub has : K → List K → Bool
  has k [] = false
  has k (j ∷ js) = e.beq j k || has k js

  -- s.add(k)
  unfoldable pub add : K → List K → List K
  unfolding has
  add k ks = if has k ks then ks else k ∷ ks

  -- s.discard(k)
  unfoldable pub discard : K → List K → List K
  discard k [] = []
  discard k (j ∷ js) = let rest = discard k js in if e.beq j k then rest else j ∷ rest

  -- No element stands twice.
  abbrev pub Unique : List K → Type 0
  Unique [] = Unit {0}
  Unique (k ∷ ks) = (has k ks ≡ false) × Unique ks

  pub has-add : (j k : K) (ks : List K) → has j (add k ks) ≡ (e.beq k j || has j ks)
  unfolding has add
  has-add j k ks = ground (arith, e.beq_iff k j)

  pub has-discard : (j k : K) (ks : List K) → has j (discard k ks) ≡ (not (e.beq k j) && has j ks)
  unfolding has discard
  has-discard j k [] = ground arith
  has-discard j k (i ∷ ks) =
      ground (arith, e.beq_iff k j, e.beq_iff i j, e.beq_iff i k, has-discard j k ks)

  pub has-append : (j : K) (xs ys : List K) → has j (xs ++ ys) ≡ (has j xs || has j ys)
  unfolding has
  has-append j [] ys = ground arith
  has-append j (x ∷ xs) ys = ground (arith, has-append j xs ys)

  pub discard-Unique : (k : K) (ks : List K) → Unique ks → Unique (discard k ks)
  unfolding discard
  discard-Unique k [] u = tt
  discard-Unique k (j ∷ ks) u = ground (arith, has-discard j k ks, discard-Unique k ks u.1)

  pub append_last-Unique :
      (k : K) (ks : List K) → Unique ks → has k ks ≡ false → Unique (ks ++ (k ∷ []))
  unfolding has
  append_last-Unique k [] u h = (refl, tt)
  append_last-Unique k (j ∷ ks) u h = (
    ground (arith, has-append j ks (k ∷ []), e.beq_iff j k, e.beq_iff k j),
    append_last-Unique k ks u.1 (ground arith),
  )

  pub length-add : (k : K) (ks : List K) → length (add k ks) ≤ length ks + 1
  unfolding add
  length-add k ks = ground arith

  pub length-discard : (k : K) (ks : List K) → length (discard k ks) ≤ length ks
  unfolding discard
  length-discard k [] = omega arith
  length-discard k (j ∷ ks) = ground (arith, length-discard k ks)

  pub length-discard-has :
      (k : K) (ks : List K) → has k ks ≡ true → length (discard k ks) + 1 ≤ length ks
  unfolding has discard
  length-discard-has k [] h = cc
  length-discard-has k (j ∷ ks) h = ground (arith, length-discard k ks, length-discard-has k ks)
