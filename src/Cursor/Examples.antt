-- ===== src/Cursor/Examples.antt =====
-- Cursors of python/vedadb/cursor.py at concrete values, on statements in capital letters and numbers
-- of one digit.
use vedadb_driver.Base.{
  ℕ, ◌+◌, ◌-◌, ◌≡◌, ap, Option, some, List, [], ◌∷◌, map, arith, String, ok, take, drop,
}
use vedadb_driver.Base.Dict.{string_eq}
use vedadb_driver.Cursor.{
  Python, now, Client, contains, rstrip, with_limit, windowed, starts_with, with_offset, make_row,
  new,
}
use vedadb_driver.Cursor.Fetch.{finished, fetchall, fetchall_async}
use vedadb_driver.Cursor.Whole.{fetchall_whole}
use vedadb_driver.Cursor.Async.{coroutines, fetchall_async-fetchall}

abbrev python : Python
python = record { upper = λ t. t; decimal = λ n. (48 + n) ∷ [] }

-- "SELECT x" and "SELECT x OFFSET 3;"
abbrev select : List ℕ
select = 83 ∷ 69 ∷ 76 ∷ 69 ∷ 67 ∷ 84 ∷ 32 ∷ 88 ∷ []

abbrev columns : Option (List String)
columns = some ("x" ∷ [])

abbrev table : List (List ℕ)
table = (10 ∷ []) ∷ (11 ∷ []) ∷ (12 ∷ []) ∷ (13 ∷ []) ∷ (14 ∷ []) ∷ []

-- The digit in front of the semicolon.
abbrev digit : List ℕ → ℕ
digit [] = 0
digit (c ∷ []) = 0
digit (c ∷ d ∷ []) = c - 48
digit (c ∷ d ∷ e ∷ t) = digit (d ∷ e ∷ t)

-- A server that answers windows of two rows.
abbrev server : Client ℕ ℕ
server k text = ok (now (record { columns = columns; rows = take 2 (drop (digit text) table) }))

server-serves :
    (k o : ℕ)
    → server k (windowed python select 2 o)
      ≡ ok (now (record { columns = columns; rows = take 2 (drop o table) }))
unfolding windowed rstrip with_limit with_offset contains starts_with
server-serves k o =
    ap (λ n. ok (now (record { columns = columns; rows = take 2 (drop n table) }))) {y = o}
      (omega arith)

fetchall_whole_example :
    let (rows, ending, c) = fetchall python server 6 (new select 2) in
    (rows ≡ map (make_row columns) table) × (ending ≡ finished) × (c.total_yielded ≡ 5)
fetchall_whole_example =
    fetchall_whole python server select 2 2 columns table (omega arith) server-serves 6
      (omega arith)

fetchall_async-fetchall_example :
    fetchall_async python (coroutines server) 6 (new select 2)
    ≡ fetchall python server 6 (new select 2)
fetchall_async-fetchall_example =
    fetchall_async-fetchall python server 6 (new select 2) (λ k text. tt)
