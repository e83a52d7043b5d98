-- ===== src/Bulk/Batches.antt =====
-- How python/vedadb/bulk.py cuts the rows that are added into batches.
use vedadb_driver.Base.{
  ℕ, ◌+◌, ◌<◌, ◌≡◌, refl, sym, ap, ◌∙◌, false, Option, none, some, List, [], ◌∷◌, ◌++◌, map,
  append_assoc, append-nil, arith, All, All-append, leb, ◌==◌, if_cases, length, length-append,
  Result, ok, err,
}
use vedadb_driver.Base.Dict.{get, codes_eq, same_codes}
use vedadb_driver.Query.{Python, Value, null, QueryError, sql_literal}
use vedadb_driver.Query.Builder.{word}
use vedadb_driver.Query.Statements.{joined}
use vedadb_driver.Bulk.{
  Row, BulkInserter, columns_of, or_null, values_of, value_rows, build_insert_sql, Outcome,
  executed, flush, add, and_then, add_many,
}
use mathlib.Core.Path.{subst}

abbrev pub concat : {A : Type 0} → List (List A) → List A
concat [] = []
concat (xs ∷ xss) = xs ++ concat xss

abbrev pub sql_of : Result QueryError (List ℕ) → List ℕ
sql_of (ok sql) = sql
sql_of (err e) = []

columns_of-names : {F : Type 0} (row : Row F) → columns_of row ≡ map (λ x. x.0) row
unfolding columns_of
columns_of-names [] = refl
columns_of-names ((c, v) ∷ row) = ap (λ cs. c ∷ cs) (columns_of-names row)

-- The texts one after the other, with ", " between them.
abbrev pub listed : List (List ℕ) → List ℕ
listed [] = []
listed (x ∷ []) = x
listed (x ∷ y ∷ ys) = x ++ (44 ∷ 32 ∷ listed (y ∷ ys))

joined-listed : (xs : List (List ℕ)) → joined (word ", ") xs ≡ listed xs
unfolding joined
joined-listed [] = refl
joined-listed (x ∷ []) = refl
joined-listed (x ∷ y ∷ ys) = ap (λ l. x ++ (44 ∷ 32 ∷ l)) (joined-listed (y ∷ ys))

module _ {F : Type 0} (py : Python F) where
  -- The value has a literal.
  abbrev pub Printable : Value F → Type 0
  Printable v = (l : List ℕ) × (sql_literal py v ≡ ok l)

  abbrev pub IsPrintable : Row F → Type 0
  IsPrintable row = All (λ (x : List ℕ × Value F). Printable x.1) row

  null-Printable : Printable null
  unfolding sql_literal
  null-Printable = (_, refl)

  get-Printable : (c : List ℕ) (row : Row F) → IsPrintable row → Printable (or_null (get c row))
  unfolding get
  get-Printable c [] a = null-Printable
  get-Printable c ((d, v) ∷ row) a =
      if_cases (λ o. Printable (or_null o)) (same_codes d c) (λ h. a.0)
        (λ h. get-Printable c row a.1)

  -- The literal of a value that has one.
  abbrev pub literal : Value F → List ℕ
  literal v = sql_of (sql_literal py v)

  literal-ok : (v : Value F) → Printable v → sql_literal py v ≡ ok (literal v)
  literal-ok v p = rw p.1

  -- "(v, w)": the literals of a row, in the order of the columns; NULL where the row has no value.
  abbrev pub row_text : List (List ℕ) → Row F → List ℕ
  row_text cs row = 40 ∷ (listed (map (λ c. literal (or_null (get c row))) cs) ++ (41 ∷ []))

  abbrev pub names_of : Row F → List (List ℕ)
  names_of row = map (λ x. x.0) row

  -- INSERT INTO table (columns of the first row) VALUES (each row), (...);
  abbrev pub insert_text : List ℕ → List (Row F) → List ℕ
  insert_text table [] = []
  insert_text table (row ∷ rows) =
      word "INSERT INTO "
      ++ (table
          ++ (word " ("
              ++ (listed (names_of row)
                  ++ (word ") VALUES "
                      ++ (listed (map (row_text (names_of row)) (row ∷ rows)) ++ word ";")))))

  values_of-ok :
      (cs : List (List ℕ)) (row : Row F)
      → IsPrintable row
      → values_of py cs row ≡ ok (map (λ c. literal (or_null (get c row))) cs)
  unfolding values_of
  values_of-ok [] row a = refl
  values_of-ok (c ∷ cs) row a =
      rw (literal-ok (or_null (get c row)) (get-Printable c row a), values_of-ok cs row a)

  value_rows-ok :
      (cs : List (List ℕ)) (rows : List (Row F))
      → All IsPrintable rows
      → value_rows py cs rows ≡ ok (map (row_text cs) rows)
  unfolding value_rows
  value_rows-ok cs [] a = refl
  value_rows-ok cs (row ∷ rows) a = rw (
    values_of-ok cs row a.0,
    value_rows-ok cs rows a.1,
    joined-listed (map (λ c. literal (or_null (get c row))) cs),
  )

  build_insert_sql-ok :
      (table : List ℕ) (rows : List (Row F))
      → All IsPrintable rows
      → build_insert_sql py table rows ≡ ok (insert_text table rows)
  unfolding build_insert_sql
  build_insert_sql-ok table [] a = refl
  build_insert_sql-ok table (row ∷ rows) a = rw (
    columns_of-names row,
    value_rows-ok (names_of row) (row ∷ rows) a,
    joined-listed (names_of row),
    joined-listed (map (row_text (names_of row)) (row ∷ rows)),
  )

module _ {F S E : Type 0} (py : Python F) (execute : List ℕ → S → S × Option E) where
  -- The server after one INSERT statement for each batch, of the columns of the batch's first row.
  unfoldable pub sent : List ℕ → List (List (Row F)) → S → S
  sent table [] s = s
  sent table (rows ∷ batches) s = sent table batches (execute (insert_text py table rows) s).0

  -- From `b` and `s` the rows are sent in full batches, in order, and the rest is in the buffer.
  pub record Batched (b : BulkInserter F) (s : S) (rows : List (Row F)) (o : Outcome F S E ℕ)
      : Type 0 where
    pub batches : List (List (Row F))
    pub all_rows : concat batches ++ o.0.0.buffer ≡ b.buffer ++ rows
    pub full : All (λ (x : List (Row F)). length x ≡ b.batch_size) batches
    pub rest : length o.0.0.buffer < b.batch_size
    pub server : o.0.1 ≡ sent b.table batches s
    pub inserted : o.0.0.total_inserted ≡ b.total_inserted + length (concat batches)
    pub counted : o.0.0.total_batches ≡ b.total_batches + length batches
    pub result : (n : ℕ) × (o.1 ≡ ok n)

module _ {F S E : Type 0} (py : Python F) (execute : List ℕ → S → S × Option E) where
  abbrev emptied : BulkInserter F → BulkInserter F
  emptied b = record b {
    buffer = [];
    total_inserted = b.total_inserted + length b.buffer;
    total_batches = b.total_batches + 1;
  }

  executed-none :
      (b : BulkInserter F) (x : S × Option E)
      → x.1 ≡ none
      → executed b x ≡ ((emptied b, x.0), ok (length b.buffer))
  executed-none b (s, none) h = refl
  executed-none b (s, some e) h = cc

  flush-full :
      (b : BulkInserter F) (s : S)
      → ((sql : List ℕ) (s : S) → (execute sql s).1 ≡ none)
      → All (IsPrintable py) b.buffer
      → 0 < length b.buffer
      → flush py execute b s
        ≡ ((emptied b, (execute (insert_text py b.table b.buffer) s).0), ok (length b.buffer))
  unfolding flush
  flush-full b s up a l =
      let q = build_insert_sql-ok py b.table b.buffer a in
      let e : (length b.buffer == 0) ≡ false = ground (arith, l) in
      let sql = insert_text py b.table b.buffer in
      rw (e, q) (executed-none b (execute sql s) (up sql s))

  -- A row that does not fill the buffer, and one that does.
  short-Batched :
      (b : BulkInserter F) (s : S) (row : Row F) (rows : List (Row F)) (o : Outcome F S E ℕ)
      → Batched py execute (record b { buffer = b.buffer ++ (row ∷ []) }) s rows o
      → Batched py execute b s (row ∷ rows) o
  short-Batched b s row rows o x = record {
    batches = x.batches;
    all_rows = x.all_rows ∙ append_assoc b.buffer (row ∷ []) rows;
    full = x.full;
    rest = x.rest;
    server = x.server;
    inserted = x.inserted;
    counted = x.counted;
    result = x.result;
  }

  full-Batched :
      (b : BulkInserter F) (s : S) (rows : List (Row F)) (o : Outcome F S E ℕ)
      → length b.buffer ≡ b.batch_size
      → Batched py execute (emptied b) (execute (insert_text py b.table b.buffer) s).0 rows o
      → Batched py execute b s rows o
  unfolding sent
  full-Batched b s rows o e x = record {
    batches = b.buffer ∷ x.batches;
    all_rows =
        append_assoc b.buffer (concat x.batches) o.0.0.buffer ∙ ap (λ r. b.buffer ++ r) x.all_rows;
    full = (e, x.full);
    rest = x.rest;
    server = x.server;
    inserted = omega (arith, x.inserted, length-append b.buffer (concat x.batches));
    counted = omega (arith, x.counted);
    result = x.result;
  }

  -- From an inserter whose buffer is not full, the rows of the buffer and those added are sent in their
  -- order, in batches of exactly batch_size: the server gets, for each full batch in turn, one INSERT
  -- statement with the literals of all its rows in the columns of its first row, and no other
  -- statement; what is left is in the buffer and less than a batch; and the totals count what was sent. The values of the rows have literals,
  -- and the server accepts every statement.
  pub add_many-Batched :
      (rows : List (Row F)) (b : BulkInserter F) (s : S)
      → ((sql : List ℕ) (s : S) → (execute sql s).1 ≡ none)
      → All (IsPrintable py) b.buffer
      → All (IsPrintable py) rows
      → length b.buffer < b.batch_size
      → Batched py execute b s rows (add_many py execute rows b s)
  unfolding add_many add sent
  add_many-Batched [] b s up a ps l = record {
    batches = [];
    all_rows = sym (append-nil b.buffer);
    full = tt;
    rest = l;
    server = refl;
    inserted = omega arith;
    counted = omega arith;
    result = (0, refl);
  }
  add_many-Batched (row ∷ rows) b s up a ps l =
      let b' : BulkInserter F = record b { buffer = b.buffer ++ (row ∷ []) } in
      let a' : All (IsPrintable py) b'.buffer =
        All-append (IsPrintable py) b.buffer (row ∷ []) a (ps.0, tt) in
      let n : length b'.buffer ≡ length b.buffer + 1 = length-append b.buffer (row ∷ []) in
      if_cases
        (λ (o : Outcome F S E ℕ).
          Batched py execute b s (row ∷ rows) (and_then o (add_many py execute rows)))
        (leb b.batch_size (length b'.buffer))
        (λ h.
          let size : length b'.buffer ≡ b.batch_size = ground (arith, h, l, n) in
          short-Batched b s row rows _ (
            subst
              (λ (o : Outcome F S E ℕ).
                Batched py execute b' s rows (and_then o (add_many py execute rows)))
              (sym (flush-full b' s up a' (omega (arith, n))))
              (full-Batched b' s rows _ size (
                add_many-Batched rows (emptied b') (execute (insert_text py b.table b'.buffer) s).0
                  up tt ps.1 (omega (arith, l))))))
        (λ h.
          short-Batched b s row rows _ (add_many-Batched rows b' s up a' ps.1 (ground (arith, h))))
