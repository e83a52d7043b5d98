-- ===== src/Query.antt =====
-- python/vedadb/query_builder.py, and the literals of python/vedadb/protocol.py that it writes: a
-- builder collects the parts of a statement and prints them. A text is the list of its code points.
pub mod Literals
pub mod Builder
pub mod Chains
pub mod Statements
mod Examples
use vedadb_driver.Base.{
  ℕ, zero, suc, ◌+◌, Bool, true, false, not, ◌&&◌, ◌||◌, Option, none, some, List, [], ◌∷◌, ◌++◌,
  map, ltb, leb, ◌==◌, if◌then◌else◌, length, Result, ok, err, ◌>>=◌,
}

-- The digits of a number, what str.upper makes of a text, and of a floating-point number: its integer
-- value or its repr, or the exception of int() where it is not finite.
pub data FloatText : Type 0 where
  digits : List ℕ → FloatText
  infinite : FloatText

pub record Python (F : Type 0) : Type 0 where
  pub decimal : ℕ → List ℕ
  pub upper : List ℕ → List ℕ
  pub float_text : F → FloatText

mutual
  -- A value: a negative integer has its absolute value, a list and a tuple are the same.
  pub data Value (F : Type 0) : Type 0 where
    null : Value F
    bool : Bool → Value F
    int negative : ℕ → Value F
    float : F → Value F
    text : List ℕ → Value F
    list : Values F → Value F
    unsupported : Value F

  pub data Values (F : Type 0) : Type 0 where
    no_values : Values F
    and_value : Value F → Values F → Values F

-- VedaDBValidationError, and ValueError or OverflowError of a number that is not finite.
pub data QueryError : Type 0 where
  validation_error number_error : QueryError

-- value.replace("'", "''")
unfoldable pub doubled : List ℕ → List ℕ
doubled [] = []
doubled (c ∷ cs) = if c == 39 then 39 ∷ 39 ∷ doubled cs else c ∷ doubled cs

unfoldable pub quoted : List ℕ → List ℕ
unfolding doubled
quoted cs = 39 ∷ (doubled cs ++ (39 ∷ []))

-- text.strip("'"), by its ends.
unfoldable pub strip_left : List ℕ → List ℕ
strip_left [] = []
strip_left (c ∷ cs) = let rest = strip_left cs in if c == 39 then rest else c ∷ cs

unfoldable pub strip_right : List ℕ → List ℕ
strip_right [] = []
strip_right (c ∷ cs) =
    let rest = strip_right cs in if leb (length rest) 0 && (c == 39) then [] else c ∷ rest

abbrev of_float : FloatText → Result QueryError (List ℕ)
of_float (digits ds) = ok ds
of_float infinite = err number_error

-- An element of a list: a text loses its quotes.
unfoldable pub element_of :
    {F : Type 0} → Value F → Result QueryError (List ℕ) → Result QueryError (List ℕ)
unfolding quoted strip_left strip_right
element_of (text cs) r = ok (strip_right (strip_left (quoted cs)))
element_of v r = r

module _ {F : Type 0} (py : Python F) where
  unfoldable mutual
    unfolding quoted element_of

    pub sql_literal : Value F → Result QueryError (List ℕ)
    sql_literal null = ok (78 ∷ 85 ∷ 76 ∷ 76 ∷ [])
    sql_literal (bool true) = ok (84 ∷ 82 ∷ 85 ∷ 69 ∷ [])
    sql_literal (bool false) = ok (70 ∷ 65 ∷ 76 ∷ 83 ∷ 69 ∷ [])
    sql_literal (int n) = ok (py.decimal n)
    sql_literal (negative n) = ok (45 ∷ py.decimal n)
    sql_literal (float x) = of_float (py.float_text x)
    sql_literal (text cs) = ok (quoted cs)
    sql_literal (list vs) = (elements vs) >>= (λ es. ok (91 ∷ (es ++ (93 ∷ []))))
    sql_literal unsupported = err validation_error

    pub elements : Values F → Result QueryError (List ℕ)
    elements no_values = ok []
    elements (and_value v no_values) = element_of v (sql_literal v)
    elements (and_value v (and_value w vs)) =
        (element_of v (sql_literal v))
        >>= (λ e. ((elements (and_value w vs)) >>= (λ es. ok (e ++ (44 ∷ es)))))
