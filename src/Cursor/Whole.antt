-- ===== src/Cursor/Whole.antt =====
-- `fetchall` of python/vedadb/cursor.py on a server that answers each window from the same rows.
use vedadb_driver.Base.{
  ℕ, zero, suc, ◌+◌, ◌<◌, ◌≡◌, refl, ap, sym, ◌∙◌, false, inl, inr, Option, none, some, List, [],
  ◌∷◌, ◌++◌, map, arith, String, ok, length, get_elem?, take, drop, take-append-drop,
}
use vedadb_driver.Cursor.{Python, Row, now, Client, Cursor, windowed, make_row, new, store}
use vedadb_driver.Cursor.Fetch.{
  Next, yielded, stopped, Ending, finished, next, loop, fetchall, looped,
}
use vedadb_driver.Cursor.Iterate.{
  get_elem?-cases, drop_window, map-append, next_buffered, next_fetched, next_window,
}

-- The rows that a cursor has still to hand out, of the rows `all` of its statement.
record Ahead {V : Type 0} (sql : List ℕ) (batch : ℕ) (columns : Option (List String))
    (all : List (List V)) (c : Cursor V) (rs : List (Row V)) : Type 0 where
  same_sql : c.sql ≡ sql
  same_batch : c.batch_size ≡ batch
  is_open : c.closed ≡ false
  ahead : drop c.buffer_idx c.buffer ++ map (make_row columns) (drop c.offset all) ≡ rs

take_none : {A : Type 0} (n : ℕ) (xs : List A) → 0 < n → take n xs ≡ [] → xs ≡ []
take_none zero xs l e = absurd (omega (arith, l))
take_none (suc n) [] l e = refl
take_none (suc n) (x ∷ xs) l e = absurd (ground (arith, e))

-- The rows behind those that a window has.
split_rows :
    {V : Type 0} (window offset : ℕ) (columns : Option (List String)) (all ws : List (List V))
    → take window (drop offset all) ≡ ws
    → map (make_row columns) (drop offset all)
      ≡ map (make_row columns) ws ++ map (make_row columns) (drop (offset + length ws) all)
split_rows window offset columns all ws w =
    ap (map (make_row columns)) (sym (take-append-drop window (drop offset all)))
    ∙ (map-append (make_row columns) (take window (drop offset all)) (drop window (drop offset all))
        ∙ (ap
              (λ t.
                map (make_row columns) (take window (drop offset all)) ++ map (make_row columns) t)
              (sym (drop_window window offset all))
            ∙ ap
                (λ t.
                  map (make_row columns) t ++ map (make_row columns) (drop (offset + length t) all))
                w))

module _ {V E : Type 0} (py : Python) (client : Client V E) (sql : List ℕ) (batch window : ℕ)
    (columns : Option (List String)) (all : List (List V)) (pos : 0 < window)
    (serves : (k o : ℕ)
      → client k (windowed py sql batch o)
        ≡ ok (now (record { columns = columns; rows = take window (drop o all) }))) where
  -- What `next` does.
  abbrev Nexts : List (Row V) → ℕ → Next V E × Cursor V → Type 0
  Nexts [] n (s, c) = (s ≡ stopped) × (c.total_yielded ≡ n)
  Nexts (r ∷ rs) n (s, c) =
      (s ≡ yielded r) × Ahead sql batch columns all c rs × (c.total_yielded ≡ suc n)

  buffered :
      (c : Cursor V) (rs : List (Row V)) (r : Row V)
      → Ahead sql batch columns all c rs
      → get_elem? c.buffer c.buffer_idx ≡ some r
      → drop c.buffer_idx c.buffer ≡ r ∷ drop (suc c.buffer_idx) c.buffer
      → Nexts rs c.total_yielded (next py client c)
  buffered c [] r h e d = absurd (
      ground (
        arith,
        ap (λ t. length (t ++ map (make_row columns) (drop c.offset all))) d,
        ap length h.ahead,
      ))
  buffered c (x ∷ rs) r h e d =
      let eq : r ∷ (drop (suc c.buffer_idx) c.buffer ++ map (make_row columns) (drop c.offset all))
          ≡ x ∷ rs =
        ap (λ t. t ++ map (make_row columns) (drop c.offset all)) (sym d) ∙ h.ahead in
      rw (next_buffered py client c r h.is_open e) (
        ground (arith, eq),
        record {
          same_sql = h.same_sql;
          same_batch = h.same_batch;
          is_open = h.is_open;
          ahead = ground (arith, eq);
        },
        refl,
      )

  -- The buffer is used up.
  empty_buffer :
      (c : Cursor V) (rs : List (Row V)) (ws : List (List V))
      → Ahead sql batch columns all c rs
      → get_elem? c.buffer c.buffer_idx ≡ none
      → drop c.buffer_idx c.buffer ≡ []
      → take window (drop c.offset all) ≡ ws
      → client c.calls (windowed py c.sql c.batch_size c.offset)
        ≡ ok (now (record { columns = columns; rows = ws }))
      → Nexts rs c.total_yielded (next py client c)
  empty_buffer c [] [] h e d w s =
      rw (next_fetched py client c (record { columns = columns; rows = [] }) h.is_open e s)
        (unfold store in (refl, refl))
  empty_buffer c (r ∷ rs) [] h e d w s =
      let gone : map (make_row columns) (drop c.offset all) ≡ [] =
        ap (map (make_row columns)) (take_none window (drop c.offset all) pos w) in
      absurd (
        ground (
          arith,
          ap (λ t. t ++ map (make_row columns) (drop c.offset all)) (sym d) ∙ h.ahead,
          gone,
        ))
  empty_buffer c rs (v ∷ ws) h e d w s =
      let mk = make_row columns in
      let rest = map mk (drop (c.offset + length (v ∷ ws)) all) in
      let eq : mk v ∷ (map mk ws ++ rest) ≡ rs =
        sym (split_rows window c.offset columns all (v ∷ ws) w)
        ∙ (ap (λ t. t ++ map mk (drop c.offset all)) (sym d) ∙ h.ahead) in
      rw (next_window py client c columns v ws h.is_open e s) (more rs eq)
    where
      more :
          (rs' : List (Row V))
          → make_row columns v
              ∷ (map (make_row columns) ws
                  ++ map (make_row columns) (drop (c.offset + length (v ∷ ws)) all))
            ≡ rs'
          → Nexts rs' c.total_yielded (
            yielded (make_row columns v),
            record c {
              columns = columns;
              buffer = map (make_row columns) (v ∷ ws);
              buffer_idx = 1;
              offset = c.offset + length (v ∷ ws);
              total_yielded = suc c.total_yielded;
              calls = suc c.calls;
            },
          )
      more [] eq = absurd (ground (arith, eq))
      more (r ∷ rs') eq = (
        ground (arith, eq),
        record {
          same_sql = h.same_sql;
          same_batch = h.same_batch;
          is_open = h.is_open;
          ahead = ground (arith, eq);
        },
        refl,
      )

  next-Nexts :
      (c : Cursor V) (rs : List (Row V))
      → Ahead sql batch columns all c rs
      → Nexts rs c.total_yielded (next py client c)
  next-Nexts c rs h = elim (get_elem?-cases c.buffer c.buffer_idx) [
    | inl (e, d) ↦ empty_buffer c rs (take window (drop c.offset all)) h e d refl (
        ap (λ t. client c.calls (windowed py t c.batch_size c.offset)) h.same_sql
        ∙ (ap (λ n. client c.calls (windowed py sql n c.offset)) h.same_batch
            ∙ serves c.calls c.offset))
    | inr (r, e, d) ↦ buffered c rs r h e d
  ]

  -- A loop that is given enough calls.
  abbrev Loops : List (Row V) → ℕ → List (Row V) × Ending E × Cursor V → Type 0
  Loops rs n (got, ending, c) = (got ≡ rs) × (ending ≡ finished) × (c.total_yielded ≡ n + length rs)

  loop_rest :
      (fuel : ℕ) (c : Cursor V) (rs : List (Row V))
      → length rs < fuel
      → Ahead sql batch columns all c rs
      → Loops rs c.total_yielded (loop (next py client) fuel c)
  unfolding loop
  loop_rest zero c rs l h = absurd (omega (arith, l))
  loop_rest (suc fuel) c rs l h = step (next py client c) rs l (next-Nexts c rs h) (loop_rest fuel)
    where
      step :
          (r : Next V E × Cursor V) (rs' : List (Row V))
          → length rs' < suc fuel
          → Nexts rs' c.total_yielded r
          → ((d : Cursor V) (xs : List (Row V))
              → length xs < fuel
              → Ahead sql batch columns all d xs
              → Loops xs d.total_yielded (loop (next py client) fuel d))
          → Loops rs' c.total_yielded (looped (λ d. loop (next py client) fuel d) r)
      step (s, d) [] k (e, t) rec = rw e (refl, refl, omega (arith, t))
      step (s, d) (x ∷ xs) k (e, a, t) rec =
          let (g, f, n) = rec d xs (omega (arith, k)) a in
          rw e (ap (λ ys. x ∷ ys) g, f, omega (arith, n, t))

  length-map : (f : List V → Row V) (xs : List (List V)) → length (map f xs) ≡ length xs
  length-map f [] = refl
  length-map f (x ∷ xs) = ap suc (length-map f xs)

  -- On a server that answers the statement of a window with offset o by its next rows from the o-th
  -- on, one at least where there are any, `fetchall` of a new cursor returns all rows in their order
  -- and counts them; one call of `next` more than there are rows is enough.
  pub fetchall_whole :
      (fuel : ℕ)
      → length all < fuel
      → let (rows, ending, c) = fetchall py client fuel (new sql batch) in
        (rows ≡ map (make_row columns) all) × (ending ≡ finished) × (c.total_yielded ≡ length all)
  unfolding fetchall new
  fetchall_whole fuel l =
      let (g, f, n) =
        loop_rest fuel (new sql batch) (map (make_row columns) all)
          (omega (arith, l, length-map (make_row columns) all))
          (record { same_sql = refl; same_batch = refl; is_open = refl; ahead = refl }) in
      (g, f, omega (arith, n, length-map (make_row columns) all))
