-- ===== src/Cursor/Windows.antt =====
-- The statements of python/vedadb/cursor.py that have a window of their own.
use vedadb_driver.Base.{
  ℕ, zero, suc, ◌≡◌, refl, ap, sym, ◌∙◌, true, false, not, inl, inr, Option, List, [], ◌∷◌, ◌++◌,
  if◌then◌else◌, String, ok, length,
}
use vedadb_driver.Cursor.{
  Python, Row, now, Client, Cursor, contains, rstrip, offset_word, with_limit, with_offset,
  windowed, new,
}
use vedadb_driver.Cursor.Fetch.{yielded, unfinished, next, loop, fetchall}
use vedadb_driver.Cursor.Iterate.{get_elem?-cases, next_buffered, next_window}

with_offset_there :
    (py : Python) (text : List ℕ) (offset : ℕ)
    → contains offset_word (py.upper text) ≡ true
    → with_offset py text offset ≡ text
unfolding with_offset
with_offset_there py text offset h =
    ap (λ b. if not b then text ++ (32 ∷ (offset_word ++ py.decimal offset)) else text) h

-- A statement that has the word OFFSET gets none of the cursor.
windowed_fixed :
    (py : Python) (sql : List ℕ) (batch o o' : ℕ)
    → contains offset_word (py.upper (with_limit py (rstrip sql) batch)) ≡ true
    → windowed py sql batch o ≡ windowed py sql batch o'
unfolding windowed
windowed_fixed py sql batch o o' h =
    ap (λ t. t ++ (59 ∷ []))
      (with_offset_there py (with_limit py (rstrip sql) batch) o h
        ∙ sym (with_offset_there py (with_limit py (rstrip sql) batch) o' h))

record Open {V : Type 0} (sql : List ℕ) (batch : ℕ) (c : Cursor V) : Type 0 where
  same_sql : c.sql ≡ sql
  same_batch : c.batch_size ≡ batch
  is_open : c.closed ≡ false

module _ {V E : Type 0} (py : Python) (client : Client V E) (sql : List ℕ) (batch : ℕ)
    (columns : Option (List String)) (v : List V) (vs : List (List V))
    (offset_there : contains offset_word (py.upper (with_limit py (rstrip sql) batch)) ≡ true)
    (answers : (k : ℕ)
      → client k (windowed py sql batch 0)
        ≡ ok (now (record { columns = columns; rows = v ∷ vs }))) where
  answered :
      (c : Cursor V)
      → Open sql batch c
      → client c.calls (windowed py c.sql c.batch_size c.offset)
        ≡ ok (now (record { columns = columns; rows = v ∷ vs }))
  answered c h =
      ap (λ t. client c.calls (windowed py t c.batch_size c.offset)) h.same_sql
      ∙ (ap (λ n. client c.calls (windowed py sql n c.offset)) h.same_batch
          ∙ (ap (client c.calls) (windowed_fixed py sql batch c.offset 0 offset_there)
              ∙ answers c.calls))

  next_yields :
      (c : Cursor V)
      → Open sql batch c
      → (r : Row V) × (d : Cursor V) × (next py client c ≡ (yielded r, d)) × Open sql batch d
  next_yields c h = elim (get_elem?-cases c.buffer c.buffer_idx) [
    | inl (e, _) ↦ (
      _,
      _,
      next_window py client c columns v vs h.is_open e (answered c h),
      record { same_sql = h.same_sql; same_batch = h.same_batch; is_open = h.is_open },
    )
    | inr (r, e, _) ↦ (
      r,
      _,
      next_buffered py client c r h.is_open e,
      record { same_sql = h.same_sql; same_batch = h.same_batch; is_open = h.is_open },
    )
  ]

  loop_goes_on :
      (fuel : ℕ) (c : Cursor V)
      → Open sql batch c
      → let (rows, ending, d) = loop (next py client) fuel c in
        (ending ≡ unfinished) × (length rows ≡ fuel)
  unfolding loop
  loop_goes_on zero c h = (refl, refl)
  loop_goes_on (suc fuel) c h =
      let (r, d, e, k) = next_yields c h in let (u, n) = loop_goes_on fuel d k in rw e (u, ap suc n)

  -- The cursor of a statement that has the word OFFSET, and whose only window has rows, never comes to
  -- its end: every call of `next` returns a row.
  fetchall_endless :
      (fuel : ℕ)
      → let (rows, ending, c) = fetchall py client fuel (new sql batch) in
        (ending ≡ unfinished) × (length rows ≡ fuel)
  unfolding fetchall new
  fetchall_endless fuel =
      loop_goes_on fuel (new sql batch)
        (record { same_sql = refl; same_batch = refl; is_open = refl })
