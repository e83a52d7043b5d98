-- ===== src/Cursor/Async.antt =====
-- The two ways to iterate over a cursor of python/vedadb/cursor.py.
use mathlib.Core.Path.{fun_ext}
use vedadb_driver.Base.{ℕ, suc, ◌≡◌, refl, ap, false, List, if◌then◌else◌, Result, ok, err}
use vedadb_driver.Cursor.{Python, Returned, now, later, Client, Cursor, windowed, take_row}
use vedadb_driver.Cursor.Fetch.{
  fetch_batch, fetch_batch_async, next, next_async, loop, fetchall, fetchall_async, sync_result,
  async_result, or_fetch, stopped,
}

module _ {V E : Type 0} where
  -- A result in the hand of the one is that of a coroutine for the other.
  abbrev pub in_coroutine : Result E (Returned V) → Result E (Returned V)
  in_coroutine (err e) = err e
  in_coroutine (ok (now a)) = ok (later a)
  in_coroutine (ok (later a)) = ok (later a)

  abbrev pub coroutines : Client V E → Client V E
  coroutines client k text = in_coroutine (client k text)

  -- A client that returns no coroutines.
  abbrev pub IsSync : Result E (Returned V) → Type 0
  IsSync (ok (later a)) = ⊥
  IsSync _ = Unit

  result-same :
      (r : Result E (Returned V)) (c : Cursor V)
      → IsSync r
      → async_result (in_coroutine r) c ≡ sync_result r c
  result-same (err e) c h = refl
  result-same (ok (now a)) c h = refl
  result-same (ok (later a)) c h = absurd h

  fetch_batch-same :
      (py : Python) (client : Client V E) (c : Cursor V)
      → ((k : ℕ) (text : List ℕ) → IsSync (client k text))
      → fetch_batch_async py (coroutines client) c ≡ fetch_batch py client c
  unfolding fetch_batch fetch_batch_async
  fetch_batch-same py client c h =
      let c' : Cursor V = record c { calls = suc c.calls } in
      let text = windowed py c.sql c.batch_size c.offset in
      ap (λ r. if c.closed then (ok false, c) else r)
        (result-same (client c.calls text) c' (h c.calls text))

  next-same :
      (py : Python) (client : Client V E) (c : Cursor V)
      → ((k : ℕ) (text : List ℕ) → IsSync (client k text))
      → next_async py (coroutines client) c ≡ next py client c
  unfolding next next_async
  next-same py client c h =
      ap (λ f. if c.closed then (stopped, c) else or_fetch f (take_row c))
        (fun_ext (λ d. fetch_batch-same py client d h))

  -- A client whose `query` returns results and one whose `query` returns coroutines of the same results
  -- give the same rows, the same end and the same cursor, by `fetchall` and by `fetchall_async`.
  pub fetchall_async-fetchall :
      (py : Python) (client : Client V E) (fuel : ℕ) (c : Cursor V)
      → ((k : ℕ) (text : List ℕ) → IsSync (client k text))
      → fetchall_async py (coroutines client) fuel c ≡ fetchall py client fuel c
  unfolding fetchall fetchall_async
  fetchall_async-fetchall py client fuel c h =
      ap (λ f. loop f fuel c) (fun_ext (λ d. next-same py client d h))
