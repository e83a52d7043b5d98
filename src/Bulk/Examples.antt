-- ===== src/Bulk/Examples.antt =====
-- Rows in batches of two, and a pipeline whose second statement fails.
use vedadb_driver.Base.{
  ℕ, ◌+◌, ◌≡◌, refl, Option, none, List, [], ◌∷◌, ◌++◌, arith, ok, err, Result,
}
use vedadb_driver.Base.Dict.{get}
use vedadb_driver.Query.{Python, infinite, int, sql_literal}
use vedadb_driver.Query.Builder.{word}
use vedadb_driver.Query.Statements.{joined}
use vedadb_driver.Bulk.{
  Row, BulkInserter, columns_of, values_of, value_rows, build_insert_sql, add_many, add, flush,
}
use vedadb_driver.Bulk.Batches.{Batched, add_many-Batched}
use vedadb_driver.Bulk.Pipeline.{
  PipelineOp, BatchOp, Raw, failure, answer, query_error, run, query, delete_from, parse_raws,
}

abbrev py : Python ℕ
py = record { decimal = λ n. (48 + n) ∷ []; upper = λ s. s; float_text = λ x. infinite }

abbrev row : ℕ → Row ℕ
row n = (word "id", int n) ∷ []

abbrev users : BulkInserter ℕ
users = record {
  table = word "users";
  batch_size = 2;
  buffer = [];
  total_inserted = 0;
  total_batches = 0;
}

-- The server keeps the statements.
abbrev keep : List ℕ → List (List ℕ) → List (List ℕ) × Option ℕ
keep sql log = (log ++ (sql ∷ []), none)

abbrev three : List (Row ℕ)
three = row 1 ∷ row 2 ∷ row 3 ∷ []

add_many-Batched_example : Batched py keep users [] three (add_many py keep three users [])
unfolding sql_literal
add_many-Batched_example =
    add_many-Batched py keep three users [] (λ sql s. refl) tt
      (((_, refl), tt), (((_, refl), tt), (((_, refl), tt), tt))) (omega arith)

one_batch :
    ((add_many py keep three users []).0).1 ≡ (word "INSERT INTO users (id) VALUES (1), (2);" ∷ [])
unfolding add_many add flush build_insert_sql value_rows values_of columns_of joined sql_literal get
one_batch = refl

abbrev failing : List BatchOp → ℕ → ℕ × Result ℕ (List (Raw ℕ))
failing ops n = (1, ok (answer 5 ∷ failure (word "no table") ∷ []))

abbrev two_statements : List (PipelineOp ℕ)
two_statements = delete_from (word "a") (word "x = 1") (delete_from (word "b") (word "y = 1") [])

-- The operations are still there, although the server has executed the first.
kept_after_failure :
    run (λ p. []) failing two_statements 0
    ≡ ((two_statements, 1), err (query_error (word "no table")))
unfolding run parse_raws delete_from query
kept_after_failure = refl
