-- ===== src/Wire/Opcodes/Names.antt =====
-- Names of opcodes and type ids: `opcode_name` and `type_id_name` of
-- python/vedadb/wire/vbp/opcodes.py.
use vedadb_driver.Base.{
  ℕ, zero, suc, ◌<◌, ◌≡◌, refl, Bool, true, false, ◌&&◌, List, [], ◌∷◌, arith, ◌==◌, ==_iff, ap,
  sym, ◌∙◌, if◌then◌else◌,
}
use vedadb_driver.Wire.Opcodes.{opcode_name}

abbrev eq_list : List ℕ → List ℕ → Bool
eq_list [] [] = true
eq_list (x ∷ xs) (y ∷ ys) = (x == y) && eq_list xs ys
eq_list _ _ = false

eq_list_refl : (xs : List ℕ) → eq_list xs xs ≡ true
eq_list_refl [] = refl
eq_list_refl (x ∷ xs) = ground (arith, eq_list_refl xs)

-- The first number below `n` whose name is `name`, counted from `n` down; `n` if there is none.
named : (ℕ → List ℕ) → ℕ → List ℕ → ℕ
named f zero name = 0
named f (suc n) name = let rest = named f n name in if eq_list (f n) name then n else rest

-- The test holds of every number that is smaller than the bound.
passes : (ℕ → Bool) → ℕ → Bool
passes test zero = true
passes test (suc bound) = passes test bound && test bound

passes-true :
    (test : ℕ → Bool) (bound : ℕ) {op : ℕ} → op < bound → passes test bound ≡ true → test op ≡ true
unfolding passes
passes-true test zero lt h = absurd (omega arith)
passes-true test (suc bound) {op} lt h = ground (arith, passes-true test bound {op = op})

opcode_table : passes (λ op. named opcode_name 256 (opcode_name op) == op) 256 ≡ true
unfolding passes named opcode_name
opcode_table = refl

-- A name finds its opcode again.
opcode_found : (op : ℕ) → op < 256 → named opcode_name 256 (opcode_name op) ≡ op
opcode_found op h = (==_iff _ op).0 (passes-true _ 256 h opcode_table)

-- Two opcodes, known or not, that have the same name are the same opcode.
opcode_name-injective : (a b : ℕ) → a < 256 → b < 256 → opcode_name a ≡ opcode_name b → a ≡ b
opcode_name-injective a b ha hb e =
    sym (opcode_found a ha) ∙ ap (named opcode_name 256) e ∙ opcode_found b hb
