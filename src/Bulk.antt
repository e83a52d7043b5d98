-- ===== src/Bulk.antt =====
-- python/vedadb/bulk.py: rows that are inserted in batches, and a pipeline of statements. The server is a
-- state that a statement changes; `S` is its type.
pub mod Batches
pub mod Pipeline
mod Examples
use vedadb_driver.Base.{
  ℕ, zero, suc, ◌+◌, Bool, true, false, not, Option, none, some, List, [], ◌∷◌, ◌++◌, map, leb, ltb,
  ◌==◌, if◌then◌else◌, length, Result, ok, err, ◌>>=◌,
}
use vedadb_driver.Base.Dict.{Dict, get, codes_eq}
use vedadb_driver.Query.{Python, Value, null, QueryError, sql_literal}
use vedadb_driver.Query.Builder.{word, is_identifier}
use vedadb_driver.Query.Statements.{joined}

abbrev pub Row : Type 0 → Type 0
Row F = Dict (List ℕ) (Value F)

pub record BulkInserter (F : Type 0) : Type 0 where
  pub table : List ℕ
  pub batch_size : ℕ
  pub buffer : List (Row F)
  pub total_inserted : ℕ
  pub total_batches : ℕ

-- VedaDBValidationError, an exception of a literal, and one of the server.
pub data BulkError (E : Type 0) : Type 0 where
  validation_error : BulkError E
  of_literal : QueryError → BulkError E
  of_server : E → BulkError E

-- `__init__`
unfoldable pub new : {E F : Type 0} → List ℕ → ℕ → Result (BulkError E) (BulkInserter F)
new table batch_size =
    if not (is_identifier table)
    then err validation_error
    else if ltb batch_size 1
    then err validation_error
    else ok (record {
      table = table;
      batch_size = batch_size;
      buffer = [];
      total_inserted = 0;
      total_batches = 0;
    })

unfoldable pub columns_of : {F : Type 0} → Row F → List (List ℕ)
columns_of [] = []
columns_of ((c, v) ∷ row) = c ∷ columns_of row

abbrev pub or_null : {F : Type 0} → Option (Value F) → Value F
or_null none = null
or_null (some v) = v

module _ {F : Type 0} (py : Python F) where
  -- [sql_literal(row.get(c)) for c in columns]
  unfoldable pub values_of : List (List ℕ) → Row F → Result QueryError (List (List ℕ))
  values_of [] row = ok []
  values_of (c ∷ cs) row = do
    l ← sql_literal py (or_null (get c row))
    ls ← values_of cs row
    ok (l ∷ ls)

  unfoldable pub value_rows : List (List ℕ) → List (Row F) → Result QueryError (List (List ℕ))
  value_rows cols [] = ok []
  value_rows cols (row ∷ rows) = do
    ls ← values_of cols row
    rest ← value_rows cols rows
    ok ((40 ∷ (joined (word ", ") ls ++ (41 ∷ []))) ∷ rest)

  -- The columns are those of the first row.
  unfoldable pub build_insert_sql : List ℕ → List (Row F) → Result QueryError (List ℕ)
  build_insert_sql table [] = ok []
  build_insert_sql table (row ∷ rows) = do
    values ← value_rows (columns_of row) (row ∷ rows)
    ok (
        word "INSERT INTO "
        ++ (table
            ++ (word " ("
                ++ (joined (word ", ") (columns_of row)
                    ++ (word ") VALUES " ++ (joined (word ", ") values ++ word ";"))))))

-- What a call leaves, of the inserter and of the server, and the number of rows or the exception.
abbrev pub Outcome : Type 0 → Type 0 → Type 0 → Type 0 → Type 0
Outcome F S E A = (BulkInserter F × S) × Result (BulkError E) A

module _ {F S E : Type 0} where
  abbrev pub executed : BulkInserter F → S × Option E → Outcome F S E ℕ
  executed b (s, some e) = ((b, s), err (of_server e))
  executed b (s, none) = (
    (
      record b {
        buffer = [];
        total_inserted = b.total_inserted + length b.buffer;
        total_batches = b.total_batches + 1;
      },
      s,
    ),
    ok (length b.buffer),
  )

  -- The exception of an `add` ends the loop.
  abbrev pub and_then : Outcome F S E ℕ → (BulkInserter F → S → Outcome F S E ℕ) → Outcome F S E ℕ
  and_then (bs, ok n) rest = rest bs.0 bs.1
  and_then (bs, err e) rest = (bs, err e)

module _ {F S E : Type 0} (py : Python F) (execute : List ℕ → S → S × Option E) where
  abbrev pub flush_sql : BulkInserter F → S → Result QueryError (List ℕ) → Outcome F S E ℕ
  flush_sql b s (err e) = ((b, s), err (of_literal e))
  flush_sql b s (ok sql) = executed b (execute sql s)

  unfoldable pub flush : BulkInserter F → S → Outcome F S E ℕ
  flush b s =
      if length b.buffer == 0
      then ((b, s), ok 0)
      else flush_sql b s (build_insert_sql py b.table b.buffer)

  -- `add`, which returns the inserter itself.
  unfoldable pub add : Row F → BulkInserter F → S → Outcome F S E ℕ
  add row b s =
      let b' : BulkInserter F = record b { buffer = b.buffer ++ (row ∷ []) } in
      if leb b.batch_size (length b'.buffer) then flush b' s else ((b', s), ok 0)

  unfoldable pub add_many : List (Row F) → BulkInserter F → S → Outcome F S E ℕ
  add_many [] b s = ((b, s), ok 0)
  add_many (row ∷ rows) b s = and_then (add row b s) (add_many rows)
