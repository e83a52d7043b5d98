-- ===== src/Base/Dict.antt =====
-- Python's `dict`, in order of insertion: an assignment to a key that is there keeps its place.
use Prim.Native.Nat.{ℕ, suc, ◌≤◌}
use Prim.Native.String.{String}
use mathlib.Core.Path.{◌≡◌, refl, ◌∙◌}
use mathlib.Core.Logic.{◌↔◌, ◌≢◌, inl, inr}
use mathlib.Core.Bool.{Bool, true, false, ◌&&◌}
use mathlib.Core.Option.{Option, none, some}
use mathlib.Core.List.{List, [], ◌∷◌, ◌++◌}
use native.Mathlib.Omega.{arith}
use text.Mathlib.Text.{◌==◌ as str_eq}
use text.Mathlib.TextEquality.{eq_iff}
use vedadb_driver.Base.Tests.{◌==◌, ==_iff, Bool-cases, if◌then◌else◌}
use vedadb_driver.Base.Lists.{length}

-- A decidable equality of keys.
pub record Eq {ℓ} (K : Type ℓ) : Type ℓ where
  pub beq : K → K → Bool
  pub beq_iff : (a b : K) → (beq a b ≡ true) ↔ (a ≡ b)

instance abbrev pub nat_eq : Eq ℕ
nat_eq = record { beq = ◌==◌; beq_iff = ==_iff }

instance abbrev pub string_eq : Eq String
string_eq = record { beq = str_eq; beq_iff = eq_iff }

-- The code points of texts.
abbrev pub same_codes : List ℕ → List ℕ → Bool
same_codes [] [] = true
same_codes [] (b ∷ bs) = false
same_codes (a ∷ xs) [] = false
same_codes (a ∷ xs) (b ∷ bs) = (a == b) && same_codes xs bs

pub same_codes_iff : (s t : List ℕ) → (same_codes s t ≡ true) ↔ (s ≡ t)
same_codes_iff [] [] = (λ h. refl, λ h. refl)
same_codes_iff [] (b ∷ bs) = (λ h. cc, λ h. cc)
same_codes_iff (a ∷ xs) [] = (λ h. cc, λ h. cc)
same_codes_iff (a ∷ xs) (b ∷ bs) = ground (arith, same_codes_iff xs bs)

instance abbrev pub codes_eq : Eq (List ℕ)
codes_eq = record { beq = same_codes; beq_iff = same_codes_iff }

abbrev pub Dict {ℓ κ} : Type ℓ → Type κ → Type (ℓ ⊔ κ)
Dict K V = List (K × V)

module _ {ℓ} {K : Type ℓ} ⦃e : Eq K⦄ where
  pub beq_refl : (k : K) → e.beq k k ≡ true
  beq_refl k = (e.beq_iff k k).1 refl

  pub beq_ne : (k j : K) → k ≢ j → e.beq k j ≡ false
  beq_ne k j h = elim (Bool-cases (e.beq k j)) [
    | inl p ↦ absurd (h ((e.beq_iff k j).0 p))
    | inr p ↦ p
  ]

module _ {ℓ κ} {K : Type ℓ} {V : Type κ} ⦃e : Eq K⦄ where
  -- d.get(k)
  unfoldable pub get : K → Dict K V → Option V
  get k [] = none
  get k ((j, v) ∷ d) = if e.beq j k then some v else get k d

  -- d[k] = v
  unfoldable pub put : K → V → Dict K V → Dict K V
  put k v [] = (k, v) ∷ []
  put k v ((j, w) ∷ d) = if e.beq j k then (j, v) ∷ d else (j, w) ∷ put k v d

  -- d.pop(k, None)
  unfoldable pub remove : K → Dict K V → Dict K V
  remove k [] = []
  remove k ((j, v) ∷ d) = let rest = remove k d in if e.beq j k then rest else (j, v) ∷ rest

  pub get-put :
      (k j : K) (v : V) (d : Dict K V) → get j (put k v d) ≡ (if e.beq k j then some v else get j d)
  unfolding get put
  get-put k j v [] = refl
  get-put k j v ((i, w) ∷ d) =
      ground (arith, e.beq_iff k j, e.beq_iff i k, e.beq_iff i j, get-put k j v d)

  pub get-remove :
      (k j : K) (d : Dict K V) → get j (remove k d) ≡ (if e.beq k j then none else get j d)
  unfolding get remove
  get-remove k j [] = ground arith
  get-remove k j ((i, w) ∷ d) =
      ground (arith, e.beq_iff k j, e.beq_iff i k, e.beq_iff i j, get-remove k j d)

  -- No key stands twice.
  abbrev pub Distinct : Dict K V → Type (ℓ ⊔ κ)
  Distinct [] = Unit
  Distinct ((j, v) ∷ d) = (get j d ≡ none) × Distinct d

  pub put-Distinct : (k : K) (v : V) (d : Dict K V) → Distinct d → Distinct (put k v d)
  unfolding get put
  put-Distinct k v [] h = (refl, tt)
  put-Distinct k v ((j, w) ∷ d) h = elim (Bool-cases (e.beq j k)) [
    | inl p ↦ rw p (h.0, h.1)
    | inr p ↦ rw p (
      get-put k j v d ∙ rw (beq_ne k j (λ q. (ground (arith, p, e.beq_iff j k, q)))) h.0,
      put-Distinct k v d h.1,
    )
  ]

  pub remove-Distinct : (k : K) (d : Dict K V) → Distinct d → Distinct (remove k d)
  unfolding get remove
  remove-Distinct k [] h = tt
  remove-Distinct k ((j, w) ∷ d) h = elim (Bool-cases (e.beq j k)) [
    | inl p ↦ rw p (remove-Distinct k d h.1)
    | inr p ↦ rw p (
      get-remove k j d ∙ rw (beq_ne k j (λ q. (ground (arith, p, e.beq_iff j k, q)))) h.0,
      remove-Distinct k d h.1,
    )
  ]

  pub length-put : (k : K) (v : V) (d : Dict K V) → length (put k v d) ≤ suc (length d)
  unfolding put
  length-put k v [] = omega arith
  length-put k v ((j, w) ∷ d) = ground (arith, length-put k v d)

  pub length-remove : (k : K) (d : Dict K V) → length (remove k d) ≤ length d
  unfolding remove
  length-remove k [] = omega arith
  length-remove k ((j, w) ∷ d) = ground (arith, length-remove k d)

  -- A key that is there makes room for one entry when it leaves.
  pub length-remove_lt :
      (k : K) (v : V) (d : Dict K V) → get k d ≡ some v → suc (length (remove k d)) ≤ length d
  unfolding get remove
  length-remove_lt k v [] h = cc
  length-remove_lt k v ((j, w) ∷ d) h = elim (Bool-cases (e.beq j k)) [
    | inl p ↦ rw p (omega (arith, length-remove k d))
    | inr p ↦ rw p (omega (arith, length-remove_lt k v d (ground (arith, p, h))))
  ]

  pub get-append_last :
      (k j : K) (v : V) (d : Dict K V)
      → get k d ≡ none
      → get j (d ++ ((k, v) ∷ [])) ≡ (if e.beq k j then some v else get j d)
  unfolding get
  get-append_last k j v [] h = refl
  get-append_last k j v ((i, w) ∷ d) h =
      ground (arith, e.beq_iff k j, e.beq_iff i k, e.beq_iff i j, get-append_last k j v d)

  pub append_last-Distinct :
      (k : K) (v : V) (d : Dict K V) → get k d ≡ none → Distinct d → Distinct (d ++ ((k, v) ∷ []))
  unfolding get
  append_last-Distinct k v [] h D = (refl, tt)
  append_last-Distinct k v ((i, w) ∷ d) h D = (
    ground (arith, e.beq_iff i k, e.beq_iff k i, D.0, h, get-append_last k i v d),
    append_last-Distinct k v d (ground (arith, h)) D.1,
  )
