-- ===== src/Bulk/Pipeline.antt =====
-- The class Pipeline of python/vedadb/bulk.py. The client's batch and json.dumps are arguments.
use vedadb_driver.Base.{
  ℕ, not, Option, none, some, List, [], ◌∷◌, ◌++◌, map, ◌==◌, if◌then◌else◌, length, Result, ok,
  err, ◌>>=◌,
}
use vedadb_driver.Query.{Python, QueryError, sql_literal}
use vedadb_driver.Query.Builder.{word}
use vedadb_driver.Query.Statements.{joined}
use vedadb_driver.Bulk.{Row, columns_of}

pub record PipelineOp (P : Type 0) : Type 0 where
  pub sql : List ℕ
  pub params : List P

-- An operation of the batch: the text of the query, and its parameters if it has any.
pub record BatchOp : Type 0 where
  pub query : List ℕ
  pub params : Option (List (List ℕ))

-- An answer: a dictionary with an error, another dictionary, or something else.
pub data Raw (R : Type 0) : Type 0 where
  failure : List ℕ → Raw R
  answer : R → Raw R
  message : List ℕ → Raw R

pub data PipelineError (E : Type 0) : Type 0 where
  query_error : List ℕ → PipelineError E
  of_client : E → PipelineError E
  value_error index_error : PipelineError E

-- A result with the fields of the answer, or with a message alone.
pub data Parsed (R : Type 0) : Type 0 where
  fields : R → Parsed R
  text : List ℕ → Parsed R

unfoldable pub query : {P : Type 0} → List ℕ → List P → List (PipelineOp P) → List (PipelineOp P)
query sql params ops = ops ++ (record { sql = sql; params = params } ∷ [])

module _ {F : Type 0} (py : Python F) where
  abbrev literals_of : Row F → Result QueryError (List (List ℕ))
  literals_of [] = ok []
  literals_of ((c, v) ∷ row) = do l ← sql_literal py v; ls ← literals_of row; ok (l ∷ ls)

  unfoldable pub insert_into :
      {P : Type 0} → List ℕ → Row F → List (PipelineOp P) → Result QueryError (List (PipelineOp P))
  insert_into table row ops = do
    values ← literals_of row
    ok (
        query
          (word "INSERT INTO "
            ++ (table
                ++ (word " ("
                    ++ (joined (word ", ") (columns_of row)
                        ++ (word ") VALUES (" ++ (joined (word ", ") values ++ word ");"))))))
          [] ops)

  abbrev pub assignments : Row F → Result QueryError (List (List ℕ))
  assignments [] = ok []
  assignments ((c, v) ∷ row) = do
    l ← sql_literal py v
    ls ← assignments row
    ok ((c ++ (word " = " ++ l)) ∷ ls)

  unfoldable pub update :
      {P : Type 0}
      → List ℕ
      → Row F
      → List ℕ
      → List (PipelineOp P)
      → Result QueryError (List (PipelineOp P))
  update table row condition ops = do
    sets ← assignments row
    ok (
        query
          (word "UPDATE "
            ++ (table
                ++ (word " SET "
                    ++ (joined (word ", ") sets ++ (word " WHERE " ++ (condition ++ word ";"))))))
          [] ops)

unfoldable pub delete_from :
    {P : Type 0} → List ℕ → List ℕ → List (PipelineOp P) → List (PipelineOp P)
delete_from table condition ops =
    query (word "DELETE FROM " ++ (table ++ (word " WHERE " ++ (condition ++ word ";")))) [] ops

abbrev params_of : {P : Type 0} → (P → List ℕ) → List P → Option (List (List ℕ))
params_of dumps [] = none
params_of dumps (p ∷ ps) = some (map dumps (p ∷ ps))

abbrev batch_op : {P : Type 0} → (P → List ℕ) → PipelineOp P → BatchOp
batch_op dumps op = record { query = op.sql; params = params_of dumps op.params }

-- The loop over the answers.
unfoldable pub parse_raws :
    {R E : Type 0} → List (Raw R) → Result (PipelineError E) (List (Parsed R))
parse_raws [] = ok []
parse_raws (failure m ∷ raws) = err (query_error m)
parse_raws (answer r ∷ raws) = do rest ← parse_raws raws; ok (fields r ∷ rest)
parse_raws (message m ∷ raws) = do rest ← parse_raws raws; ok (text m ∷ rest)

module _ {P R S E : Type 0} (dumps : P → List ℕ)
    (batch : List BatchOp → S → S × Result E (List (Raw R))) where
  -- The operations and the client after a run, and its results.
  abbrev cleared :
      List (PipelineOp P)
      → S
      → Result (PipelineError E) (List (Parsed R))
      → (List (PipelineOp P) × S) × Result (PipelineError E) (List (Parsed R))
  cleared ops s (ok rs) = (([], s), ok rs)
  cleared ops s (err e) = ((ops, s), err e)

  abbrev pub answered :
      List (PipelineOp P)
      → S × Result E (List (Raw R))
      → (List (PipelineOp P) × S) × Result (PipelineError E) (List (Parsed R))
  answered ops (s, ok raws) = cleared ops s (parse_raws raws)
  answered ops (s, err e) = ((ops, s), err (of_client e))

  unfoldable pub run :
      List (PipelineOp P)
      → S
      → (List (PipelineOp P) × S) × Result (PipelineError E) (List (Parsed R))
  run [] s = (([], s), ok [])
  run (op ∷ ops) s = answered (op ∷ ops) (batch (map (batch_op dumps) (op ∷ ops)) s)

  abbrev first_result :
      Result (PipelineError E) (List (Parsed R)) → Result (PipelineError E) (Parsed R)
  first_result (ok (r ∷ rs)) = ok r
  first_result (ok []) = err index_error
  first_result (err e) = err e

  unfoldable pub run_one :
      List (PipelineOp P) → S → (List (PipelineOp P) × S) × Result (PipelineError E) (Parsed R)
  run_one ops s =
      if not (length ops == 1)
      then ((ops, s), err value_error)
      else (let r = run ops s in (r.0, first_result r.1))
