-- ===== src/Query/Builder.antt =====
-- The builder of python/vedadb/query_builder.py: its parts, the methods that add to them, and the
-- statements that they print.
use Prim.Native.String.{String}
use Prim.Native.Char.{code}
use vedadb_driver.Base.{
  ℕ, Bool, true, false, ◌&&◌, ◌||◌, Option, none, some, List, [], ◌∷◌, ◌++◌, leb, ◌==◌,
  if◌then◌else◌, length, Result, ok, err,
}
use vedadb_driver.Base.Int.{ℤ, pos, negsuc}
use vedadb_driver.Query.{
  Python, Value, text, list, Values, no_values, and_value, QueryError, validation_error,
}

-- The code points of a word.
abbrev pub word : String → List ℕ
word String.[] = []
word (String.◌∷◌ c s) = code c ∷ word s

abbrev pub same_text : List ℕ → List ℕ → Bool
same_text [] [] = true
same_text [] (d ∷ ds) = false
same_text (c ∷ cs) [] = false
same_text (c ∷ cs) (d ∷ ds) = (c == d) && same_text cs ds

abbrev pub is_one_of : List ℕ → List (List ℕ) → Bool
is_one_of t [] = false
is_one_of t (u ∷ us) = same_text t u || is_one_of t us

abbrev pub is_letter : ℕ → Bool
is_letter c = (leb 97 c && leb c 122) || ((leb 65 c && leb c 90) || (c == 95))

-- [a-zA-Z0-9_]*$, where the end may be a line feed.
unfoldable pub is_rest : List ℕ → Bool
is_rest [] = true
is_rest (c ∷ cs) =
    ((is_letter c || (leb 48 c && leb c 57)) && is_rest cs) || ((c == 10) && leb (length cs) 0)

-- _RE_IDENTIFIER
unfoldable pub is_identifier : List ℕ → Bool
unfolding is_rest
is_identifier [] = false
is_identifier (c ∷ cs) = is_letter c && is_rest cs

abbrev pub valid_ops : List (List ℕ)
valid_ops =
    word "="
    ∷ word "!="
    ∷ word "<>"
    ∷ word "<"
    ∷ word ">"
    ∷ word "<="
    ∷ word ">="
    ∷ word "LIKE"
    ∷ word "NOT LIKE"
    ∷ word "ILIKE"
    ∷ word "NOT ILIKE"
    ∷ word "IN"
    ∷ word "NOT IN"
    ∷ word "IS"
    ∷ word "IS NOT"
    ∷ word "BETWEEN"
    ∷ word "NOT BETWEEN"
    ∷ []

pub record Where (F : Type 0) : Type 0 where
  pub logic : List ℕ
  pub column : List ℕ
  pub op : List ℕ
  pub value : Value F

pub record QueryBuilder (F : Type 0) : Type 0 where
  pub table_name : Option (List ℕ)
  pub columns : List (List ℕ)
  pub wheres : List (Where F)
  pub joins : List (List ℕ)
  pub groups : List (List ℕ)
  pub havings : List (Where F)
  pub orders : List (List ℕ × List ℕ)
  pub limit_val : Option ℕ
  pub offset_val : Option ℕ
  pub distinct_flag : Bool
  pub for_update_flag : Bool

abbrev pub Built : Type 0 → Type 0
Built F = Result QueryError (QueryBuilder F)

abbrev pub check : {A : Type 0} → Bool → A → Result QueryError A
check b x = if b then ok x else err validation_error

abbrev pub all_identifiers : List (List ℕ) → Bool
all_identifiers [] = true
all_identifiers (c ∷ cs) = is_identifier c && all_identifiers cs

-- The columns of a SELECT: each an identifier or "*".
abbrev pub all_columns : List (List ℕ) → Bool
all_columns [] = true
all_columns (c ∷ cs) = (same_text c (42 ∷ []) || is_identifier c) && all_columns cs

module _ {F : Type 0} where
  -- `__init__`
  abbrev pub new : QueryBuilder F
  new = record {
    table_name = none;
    columns = (42 ∷ []) ∷ [];
    wheres = [];
    joins = [];
    groups = [];
    havings = [];
    orders = [];
    limit_val = none;
    offset_val = none;
    distinct_flag = false;
    for_update_flag = false;
  }

  unfoldable pub table : List ℕ → QueryBuilder F → Built F
  unfolding is_identifier
  table name q = check (is_identifier name) (record q { table_name = some name })

  unfoldable pub select : List (List ℕ) → QueryBuilder F → Built F
  unfolding is_identifier
  select [] q = ok q
  select (c ∷ cs) q = check (all_columns (c ∷ cs)) (record q { columns = c ∷ cs })

  unfoldable pub distinct : QueryBuilder F → QueryBuilder F
  distinct q = record q { distinct_flag = true }

  unfoldable pub add_where :
      Python F → List ℕ → List ℕ → List ℕ → Value F → QueryBuilder F → Built F
  unfolding is_identifier
  add_where py logic column op value q =
      check (is_identifier column && is_one_of (py.upper op) valid_ops) (record q {
        wheres =
            q.wheres
            ++ (record { logic = logic; column = column; op = py.upper op; value = value } ∷ []);
      })

  -- `where` and `and_where`, and `or_where`.
  unfoldable pub and_where : Python F → List ℕ → List ℕ → Value F → QueryBuilder F → Built F
  unfolding add_where
  and_where py column op value q = add_where py (word "AND") column op value q

  unfoldable pub or_where : Python F → List ℕ → List ℕ → Value F → QueryBuilder F → Built F
  unfolding add_where
  or_where py column op value q = add_where py (word "OR") column op value q

  -- The conditions with an operator of their own.
  unfoldable pub where_op : List ℕ → List ℕ → Value F → QueryBuilder F → Built F
  unfolding is_identifier
  where_op op column value q = check (is_identifier column) (record q {
    wheres =
        q.wheres ++ (record { logic = word "AND"; column = column; op = op; value = value } ∷ []);
  })

  unfoldable pub where_in : List ℕ → Values F → QueryBuilder F → Built F
  unfolding where_op
  where_in column values q = where_op (word "IN") column (list values) q

  unfoldable pub where_null : List ℕ → QueryBuilder F → Built F
  unfolding where_op
  where_null column q = where_op (word "IS") column (text (word "NULL")) q

  unfoldable pub where_not_null : List ℕ → QueryBuilder F → Built F
  unfolding where_op
  where_not_null column q = where_op (word "IS NOT") column (text (word "NULL")) q

  unfoldable pub where_between : List ℕ → Value F → Value F → QueryBuilder F → Built F
  unfolding where_op
  where_between column low high q =
      where_op (word "BETWEEN") column (list (and_value low (and_value high no_values))) q

  unfoldable pub join : Python F → List ℕ → List ℕ → List ℕ → QueryBuilder F → Built F
  unfolding is_identifier
  join py name on join_type q =
      let kind = py.upper join_type in
      check
        (is_identifier name
          && is_one_of kind
              (word "INNER" ∷ word "LEFT" ∷ word "RIGHT" ∷ word "FULL" ∷ word "CROSS" ∷ []))
        (record q {
          joins = q.joins ++ ((kind ++ (word " JOIN " ++ (name ++ (word " ON " ++ on)))) ∷ []);
        })

  unfoldable pub group_by : List (List ℕ) → QueryBuilder F → Built F
  unfolding is_identifier
  group_by columns q = check (all_identifiers columns) (record q { groups = q.groups ++ columns })

  unfoldable pub having : Python F → List ℕ → List ℕ → Value F → QueryBuilder F → Built F
  unfolding is_identifier
  having py column op value q =
      check (is_identifier column && is_one_of (py.upper op) valid_ops) (record q {
        havings =
            q.havings
            ++ (record { logic = word "AND"; column = column; op = py.upper op; value = value }
                ∷ []);
      })

  unfoldable pub order_by : Python F → List ℕ → List ℕ → QueryBuilder F → Built F
  unfolding is_identifier
  order_by py column direction q =
      check (is_identifier column && is_one_of (py.upper direction) (word "ASC" ∷ word "DESC" ∷ []))
        (record q { orders = q.orders ++ ((column, py.upper direction) ∷ []) })

  unfoldable pub limit : ℤ → QueryBuilder F → Built F
  limit (pos n) q = ok (record q { limit_val = some n })
  limit (negsuc n) q = err validation_error

  unfoldable pub offset : ℤ → QueryBuilder F → Built F
  offset (pos n) q = ok (record q { offset_val = some n })
  offset (negsuc n) q = err validation_error

  unfoldable pub for_update : QueryBuilder F → QueryBuilder F
  for_update q = record q { for_update_flag = true }

  unfoldable pub reset_select_state : QueryBuilder F → QueryBuilder F
  reset_select_state q = record q {
    columns = word "*" ∷ [];
    orders = [];
    limit_val = none;
    offset_val = none;
    distinct_flag = false;
    for_update_flag = false;
  }

  -- `clone`, which leaves out the flag of FOR UPDATE.
  unfoldable pub clone : QueryBuilder F → QueryBuilder F
  clone q = record q { for_update_flag = false }
