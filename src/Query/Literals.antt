-- ===== src/Query/Literals.antt =====
-- The literals of python/vedadb/protocol.py, as an SQL reader takes them.
use vedadb_driver.Base.{
  ℕ, ◌≡◌, refl, ap, sym, ◌∙◌, false, not, Option, none, some, List, [], ◌∷◌, ◌++◌, ◌==◌,
  if◌then◌else◌, if_cases, append_assoc, All-append, Result, ok, ◌>>=◌, All, arith,
}
use vedadb_driver.Query.{
  Python, text, list, no_values, and_value, QueryError, doubled, quoted, strip_left, strip_right,
  element_of, sql_literal,
}

abbrev add_char : ℕ → Option (List ℕ × List ℕ) → Option (List ℕ × List ℕ)
add_char c none = none
add_char c (some (cs, rest)) = some (c ∷ cs, rest)

-- What stands in a string literal of SQL behind its first quote, and what follows it: a quote ends it,
-- two quotes are one.
abbrev pub read_string : List ℕ → Option (List ℕ × List ℕ)
read_string [] = none
read_string (c ∷ []) = if c == 39 then some ([], []) else none
read_string (c ∷ d ∷ ds) =
    let next = read_string (d ∷ ds) in
    let behind = read_string ds in
    if not (c == 39)
    then add_char c next
    else if d == 39
    then add_char 39 behind
    else some ([], d ∷ ds)

-- A text that does not go on with a quote.
abbrev pub NoQuote : List ℕ → Type 0
NoQuote [] = Unit
NoQuote (c ∷ cs) = (c == 39) ≡ false

read_char :
    (c : ℕ) (cs : List ℕ) → (c == 39) ≡ false → read_string (c ∷ cs) ≡ add_char c (read_string cs)
read_char c [] h = ground (arith, h)
read_char c (d ∷ ds) h = rw h refl

read-doubled :
    (cs rest : List ℕ) → NoQuote rest → read_string (doubled cs ++ (39 ∷ rest)) ≡ some (cs, rest)
unfolding doubled
read-doubled [] [] h = refl
read-doubled [] (c ∷ rest) h = ground (arith, h)
read-doubled (c ∷ cs) rest h =
    let rec = read-doubled cs rest h in
    if_cases (λ l. read_string (l ++ (39 ∷ rest)) ≡ some (c ∷ cs, rest)) (c == 39)
      (λ e. ap (add_char 39) rec ∙ ap (λ x. some (x ∷ cs, rest)) {y = c} (ground (arith, e)))
      (λ e. read_char c (doubled cs ++ (39 ∷ rest)) e ∙ ap (add_char c) rec)

-- A literal from its first quote on.
abbrev pub read_literal : List ℕ → Option (List ℕ × List ℕ)
read_literal [] = none
read_literal (c ∷ cs) = if c == 39 then read_string cs else none

-- A reader of string literals reads back every text from its literal, and stops at the literal's end,
-- if what follows does not begin with a quote: no text can leave its quotes.
pub read-sql_literal :
    {F : Type 0} (py : Python F) (cs rest l : List ℕ)
    → NoQuote rest
    → sql_literal py (text cs) ≡ ok l
    → read_literal (l ++ rest) ≡ some (cs, rest)
unfolding sql_literal quoted
read-sql_literal py cs rest l h e =
    let same : quoted cs ≡ l = ground (arith, e) in
    rw⁻¹ same (ap read_string (append_assoc (doubled cs) (39 ∷ []) rest) ∙ read-doubled cs rest h)

-- No character is a quote.
abbrev pub Plain : List ℕ → Type 0
Plain cs = All (λ c. (c == 39) ≡ false) cs

doubled-Plain : (cs : List ℕ) → Plain cs → doubled cs ≡ cs
unfolding doubled
doubled-Plain [] h = refl
doubled-Plain (c ∷ cs) h = ground (arith, h.0, doubled-Plain cs h.1)

strip_right-Plain : (cs : List ℕ) → Plain cs → strip_right (cs ++ (39 ∷ [])) ≡ cs
unfolding strip_right
strip_right-Plain [] h = refl
strip_right-Plain (c ∷ cs) h = ground (arith, h.0, strip_right-Plain cs h.1)

element_of-Plain :
    (F : Type 0) (cs : List ℕ) (r : Result QueryError (List ℕ))
    → Plain cs
    → element_of {F = F} (text cs) r ≡ ok cs
unfolding element_of quoted strip_left
element_of-Plain F [] r h = unfold doubled strip_right in refl
element_of-Plain F (c ∷ cs) r h =
    let l = c ∷ cs in
    ap (λ t. ok (strip_right (strip_left (39 ∷ (t ++ (39 ∷ [])))))) (doubled-Plain l h)
    ∙ (ap (λ b. ok (strip_right (if b then strip_left (cs ++ (39 ∷ [])) else l ++ (39 ∷ [])))) h.0
        ∙ ap ok (strip_right-Plain l h))

-- The texts in a list are printed without quotes: a list of two texts and the list of one text that
-- has a comma between them have one literal.
list_merges :
    {F : Type 0} (py : Python F) (cs ds : List ℕ)
    → Plain cs
    → Plain ds
    → sql_literal py (list (and_value (text cs) (and_value (text ds) no_values)))
      ≡ sql_literal py (list (and_value (text (cs ++ (44 ∷ ds))) no_values))
unfolding sql_literal
list_merges {F = F} py cs ds h k =
    let whole = All-append (λ c. (c == 39) ≡ false) cs (44 ∷ ds) h (refl, k) in
    ap (λ r. two r (element_of {F = F} (text ds) (ok (quoted ds))))
      (element_of-Plain F cs (ok (quoted cs)) h)
    ∙ (ap (λ r. two (ok cs) r) (element_of-Plain F ds (ok (quoted ds)) k)
        ∙ sym
            (ap boxed (element_of-Plain F (cs ++ (44 ∷ ds)) (ok (quoted (cs ++ (44 ∷ ds)))) whole)))
  where
    boxed : Result QueryError (List ℕ) → Result QueryError (List ℕ)
    boxed r = r >>= (λ es. ok (91 ∷ (es ++ (93 ∷ []))))

    two : Result QueryError (List ℕ) → Result QueryError (List ℕ) → Result QueryError (List ℕ)
    two r q = boxed (r >>= (λ e. (q >>= (λ es. ok (e ++ (44 ∷ es))))))
