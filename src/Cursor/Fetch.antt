-- ===== src/Cursor/Fetch.antt =====
-- The iterations and the fetch methods of python/vedadb/cursor.py.
use vedadb_driver.Base.{
  ℕ, zero, suc, Bool, true, false, Option, none, some, List, [], ◌∷◌, if◌then◌else◌, Result, ok,
  err,
}
use vedadb_driver.Base.Dict.{nat_eq, string_eq}
use vedadb_driver.Cursor.{
  Python, Row, Returned, Client, CursorError, of_client, Cursor, windowed, store, take_row, now,
  later, attribute_error, index_error,
}

-- What `next` does: a row, StopIteration or another exception.
pub data Next (V E : Type 0) : Type 0 where
  yielded : Row V → Next V E
  stopped : Next V E
  raised : CursorError E → Next V E

abbrev pub Fetched : Type 0 → Type 0 → Type 0
Fetched V E = Result (CursorError E) Bool × Cursor V

-- How the rest of an iteration came to its end; `unfinished` if it has not.
pub data Ending (E : Type 0) : Type 0 where
  finished unfinished : Ending E
  failed : CursorError E → Ending E

module _ {V E : Type 0} where
  abbrev pub of_store : Bool × Cursor V → Fetched V E
  of_store (b, c) = (ok b, c)

  -- The client's result in `_fetch_batch`, and in `_fetch_batch_async`, which waits for a coroutine.
  abbrev pub sync_result : Result E (Returned V) → Cursor V → Fetched V E
  sync_result (err e) c = (err (of_client e), c)
  sync_result (ok (now a)) c = of_store (store a c)
  sync_result (ok (later a)) c = (err attribute_error, c)

  abbrev pub async_result : Result E (Returned V) → Cursor V → Fetched V E
  async_result (err e) c = (err (of_client e), c)
  async_result (ok (now a)) c = of_store (store a c)
  async_result (ok (later a)) c = of_store (store a c)

  unfoldable pub fetch_batch : Python → Client V E → Cursor V → Fetched V E
  unfolding windowed store
  fetch_batch py client c =
      if c.closed
      then (ok false, c)
      else sync_result (client c.calls (windowed py c.sql c.batch_size c.offset))
          (record c { calls = suc c.calls })

  unfoldable pub fetch_batch_async : Python → Client V E → Cursor V → Fetched V E
  unfolding windowed store
  fetch_batch_async py client c =
      if c.closed
      then (ok false, c)
      else async_result (client c.calls (windowed py c.sql c.batch_size c.offset))
          (record c { calls = suc c.calls })

  abbrev first_row : Option (Row V) × Cursor V → Next V E × Cursor V
  first_row (some r, c) = (yielded r, c)
  first_row (none, c) = (raised index_error, c)

  abbrev pub after_fetch : Fetched V E → Next V E × Cursor V
  after_fetch (err e, c) = (raised e, c)
  after_fetch (ok false, c) = (stopped, c)
  after_fetch (ok true, c) = first_row (take_row c)

  abbrev pub or_fetch : (Cursor V → Fetched V E) → Option (Row V) × Cursor V → Next V E × Cursor V
  or_fetch fetch (some r, c) = (yielded r, c)
  or_fetch fetch (none, c) = after_fetch (fetch c)

  -- `__next__`
  unfoldable pub next : Python → Client V E → Cursor V → Next V E × Cursor V
  unfolding take_row fetch_batch
  next py client c =
      if c.closed then (stopped, c) else or_fetch (fetch_batch py client) (take_row c)

  -- `__anext__`
  unfoldable pub next_async : Python → Client V E → Cursor V → Next V E × Cursor V
  unfolding take_row fetch_batch_async
  next_async py client c =
      if c.closed then (stopped, c) else or_fetch (fetch_batch_async py client) (take_row c)

  abbrev row_or_none : Next V E × Cursor V → Result (CursorError E) (Option (Row V)) × Cursor V
  row_or_none (yielded r, c) = (ok (some r), c)
  row_or_none (stopped, c) = (ok none, c)
  row_or_none (raised e, c) = (err e, c)

  unfoldable pub fetchone :
      Python → Client V E → Cursor V → Result (CursorError E) (Option (Row V)) × Cursor V
  unfolding next
  fetchone py client c = row_or_none (next py client c)

  -- A `for` loop over a cursor, up to a number of rows: the rows, how it ended and the cursor.
  abbrev pub looped :
      (Cursor V → List (Row V) × Ending E × Cursor V)
      → Next V E × Cursor V
      → List (Row V) × Ending E × Cursor V
  looped rest (yielded r, c) = let (rs, e, d) = rest c in (r ∷ rs, e, d)
  looped rest (stopped, c) = ([], finished, c)
  looped rest (raised x, c) = ([], failed x, c)

  unfoldable pub loop :
      (Cursor V → Next V E × Cursor V) → ℕ → Cursor V → List (Row V) × Ending E × Cursor V
  loop step zero c = ([], unfinished, c)
  loop step (suc fuel) c = looped (λ d. loop step fuel d) (step c)

  -- `fetchall`, within `fuel` calls of `next`.
  unfoldable pub fetchall : Python → Client V E → ℕ → Cursor V → List (Row V) × Ending E × Cursor V
  unfolding next loop
  fetchall py client fuel c = loop (next py client) fuel c

  unfoldable pub fetchall_async :
      Python → Client V E → ℕ → Cursor V → List (Row V) × Ending E × Cursor V
  unfolding next_async loop
  fetchall_async py client fuel c = loop (next_async py client) fuel c

  -- `fetchmany`
  unfoldable pub fetchmany :
      Python → Client V E → Option ℕ → Cursor V → List (Row V) × Ending E × Cursor V
  unfolding next loop
  fetchmany py client none c = loop (next py client) c.batch_size c
  fetchmany py client (some zero) c = loop (next py client) c.batch_size c
  fetchmany py client (some (suc size)) c = loop (next py client) (suc size) c
