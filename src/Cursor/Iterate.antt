-- ===== src/Cursor/Iterate.antt =====
-- Iterating over a cursor of python/vedadb/cursor.py whose windows the server answers.
use Prim.Native.Nat.{min}
use vedadb_driver.Base.{
  drop-nil, drop-drop, ℕ, zero, suc, if◌then◌else◌, ◌+◌, ◌<◌, ◌≡◌, ◌⊎◌, refl, ap, ◌∙◌, true, false,
  inl, inr, Option, none, some, List, [], ◌∷◌, ◌++◌, map, arith, String, ok, length, get_elem?,
  take, drop, length-take,
}
use vedadb_driver.Cursor.{
  Python, Row, Answer, now, Client, Cursor, windowed, make_row, store, took, take_row,
}
use vedadb_driver.Cursor.Fetch.{
  yielded, stopped, fetch_batch, next, sync_result, or_fetch, after_fetch, of_store,
}

module _ {A : Type 0} where
  pub get_elem?-cases :
      (xs : List A) (i : ℕ)
      → ((get_elem? xs i ≡ none) × (drop i xs ≡ []))
        ⊎ ((x : A) × (get_elem? xs i ≡ some x) × (drop i xs ≡ x ∷ drop (suc i) xs))
  get_elem?-cases [] zero = inl (refl, refl)
  get_elem?-cases [] (suc i) = inl (refl, refl)
  get_elem?-cases (x ∷ xs) zero = inr (x, refl, refl)
  get_elem?-cases (x ∷ xs) (suc i) = get_elem?-cases xs i

  drop-min : (m : ℕ) (xs : List A) → drop (min m (length xs)) xs ≡ drop m xs
  drop-min zero xs = ap (λ k. drop k xs) {y = 0} (omega arith)
  drop-min (suc m) [] = drop-nil (min (suc m) 0)
  drop-min (suc m) (x ∷ xs) =
      ap (λ k. drop k (x ∷ xs)) {y = suc (min m (length xs))} (omega arith) ∙ drop-min m xs

  -- The elements behind a window that starts at `n`.
  pub drop_window :
      (m n : ℕ) (xs : List A) → drop (n + length (take m (drop n xs))) xs ≡ drop m (drop n xs)
  drop_window m n xs =
      drop-drop (length (take m (drop n xs))) n xs
      ∙ (ap (λ k. drop k (drop n xs)) (length-take m (drop n xs)) ∙ drop-min m (drop n xs))

pub map-append :
    {A B : Type 0} (f : A → B) (xs ys : List A) → map f (xs ++ ys) ≡ map f xs ++ map f ys
map-append f [] ys = refl
map-append f (x ∷ xs) ys = ap (λ t. f x ∷ t) (map-append f xs ys)

module _ {V : Type 0} where
  take_row-some :
      (c : Cursor V) (r : Row V)
      → get_elem? c.buffer c.buffer_idx ≡ some r
      → take_row c
        ≡ (some r, record c { buffer_idx = suc c.buffer_idx; total_yielded = suc c.total_yielded })
  unfolding take_row
  take_row-some c r e = ap (took c) e

  take_row-none : (c : Cursor V) → get_elem? c.buffer c.buffer_idx ≡ none → take_row c ≡ (none, c)
  unfolding take_row
  take_row-none c e = ap (took c) e

  pub store_rows :
      (a : Answer V) (c : Cursor V)
      → 0 < length a.rows
      → store a c ≡ (
        true,
        record c {
          columns = a.columns;
          buffer = map (make_row a.columns) a.rows;
          buffer_idx = 0;
          offset = c.offset + length a.rows;
        },
      )
  unfolding store
  store_rows a c l = ground (arith, l)

module _ {V E : Type 0} where
  next_open :
      (py : Python) (client : Client V E) (c : Cursor V)
      → c.closed ≡ false
      → next py client c ≡ or_fetch (fetch_batch py client) (take_row c)
  unfolding next
  next_open py client c o =
      ap (λ b. if b then (stopped, c) else or_fetch (fetch_batch py client) (take_row c)) o

  pub next_buffered :
      (py : Python) (client : Client V E) (c : Cursor V) (r : Row V)
      → c.closed ≡ false
      → get_elem? c.buffer c.buffer_idx ≡ some r
      → next py client c ≡ (
        yielded r,
        record c { buffer_idx = suc c.buffer_idx; total_yielded = suc c.total_yielded },
      )
  next_buffered py client c r o e =
      next_open py client c o ∙ ap (or_fetch (fetch_batch py client)) (take_row-some c r e)

  fetch_batch_now :
      (py : Python) (client : Client V E) (c : Cursor V) (a : Answer V)
      → c.closed ≡ false
      → client c.calls (windowed py c.sql c.batch_size c.offset) ≡ ok (now a)
      → fetch_batch py client c ≡ of_store (store a (record c { calls = suc c.calls }))
  unfolding fetch_batch
  fetch_batch_now py client c a o s =
      let c' : Cursor V = record c { calls = suc c.calls } in
      ap
        (λ b.
          if b
          then (ok false, c)
          else sync_result (client c.calls (windowed py c.sql c.batch_size c.offset)) c')
        o
      ∙ ap (λ r. sync_result r c') s

  -- An answer to the next window.
  pub next_fetched :
      (py : Python) (client : Client V E) (c : Cursor V) (a : Answer V)
      → c.closed ≡ false
      → get_elem? c.buffer c.buffer_idx ≡ none
      → client c.calls (windowed py c.sql c.batch_size c.offset) ≡ ok (now a)
      → next py client c ≡ after_fetch (of_store (store a (record c { calls = suc c.calls })))
  next_fetched py client c a o e s =
      next_open py client c o
      ∙ (ap (or_fetch (fetch_batch py client)) (take_row-none c e)
          ∙ ap after_fetch (fetch_batch_now py client c a o s))

  -- A new window with rows.
  pub next_window :
      (py : Python) (client : Client V E) (c : Cursor V) (columns : Option (List String))
      (v : List V) (vs : List (List V))
      → c.closed ≡ false
      → get_elem? c.buffer c.buffer_idx ≡ none
      → client c.calls (windowed py c.sql c.batch_size c.offset)
        ≡ ok (now (record { columns = columns; rows = v ∷ vs }))
      → next py client c ≡ (
        yielded (make_row columns v),
        record c {
          columns = columns;
          buffer = map (make_row columns) (v ∷ vs);
          buffer_idx = 1;
          offset = c.offset + length (v ∷ vs);
          total_yielded = suc c.total_yielded;
          calls = suc c.calls;
        },
      )
  next_window py client c columns v vs o e s =
      next_fetched py client c (record { columns = columns; rows = v ∷ vs }) o e s
      ∙ (ap (λ r. after_fetch (of_store r))
            (store_rows (record { columns = columns; rows = v ∷ vs })
              (record c { calls = suc c.calls }) (omega arith))
          ∙ unfold take_row in refl)
