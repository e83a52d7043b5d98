-- ===== src/Query/Examples.antt =====
-- Literals of python/vedadb/protocol.py at concrete values.
use vedadb_driver.Base.{ℕ, ◌≡◌, refl, some, List, [], ◌∷◌, ◌++◌, ok, ◌+◌}
use vedadb_driver.Query.{Python, int, digits, text, sql_literal, quoted, doubled}
use vedadb_driver.Query.Builder.{
  QueryBuilder, new, word, is_identifier, is_rest, table, join, and_where, add_where, order_by,
  limit,
}
use vedadb_driver.Base.Int.{pos}
use vedadb_driver.Query.Chains.{
  Call, table_call, join_call, where_call, order_call, limit_call, call, chain, IsValid,
  chain-IsValid,
}
use vedadb_driver.Query.Literals.{read_literal, read-sql_literal}

abbrev python : Python ℕ
python = record {
  decimal = λ n. (48 + n) ∷ [];
  upper = λ t. t;
  float_text = λ x. digits ((48 + x) ∷ []);
}

-- a'b and its literal.
abbrev name : List ℕ
name = 97 ∷ 39 ∷ 98 ∷ []

abbrev literal : List ℕ
literal = 39 ∷ 97 ∷ 39 ∷ 39 ∷ 98 ∷ 39 ∷ []

name-literal : sql_literal python (text name) ≡ ok literal
unfolding sql_literal quoted doubled
name-literal = refl

read-sql_literal_example : read_literal (literal ++ (59 ∷ [])) ≡ some (name, 59 ∷ [])
read-sql_literal_example = read-sql_literal python name (59 ∷ []) literal refl name-literal

-- table("users").join("posts", "a = b", "LEFT").where("age", ">", 8).order_by("name").limit(9)
abbrev calls : List (Call ℕ)
calls =
    table_call (word "users")
    ∷ join_call (word "posts") (word "a = b") (word "LEFT")
    ∷ where_call (word "age") (word ">") (int 8)
    ∷ order_call (word "name") (word "ASC")
    ∷ limit_call (pos 9)
    ∷ []

made : (q : QueryBuilder ℕ) × (chain python calls new ≡ ok q)
unfolding chain call table join and_where add_where order_by limit is_identifier is_rest
made = (_, refl)

chain-IsValid_example : IsValid made.0
chain-IsValid_example = chain-IsValid python calls made.0 made.1
