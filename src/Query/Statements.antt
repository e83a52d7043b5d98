-- ===== src/Query/Statements.antt =====
-- The statements of python/vedadb/query_builder.py: SELECT and its variants, INSERT, UPDATE and DELETE.
use vedadb_driver.Base.{
  ℕ, Bool, false, not, ◌&&◌, Option, none, some, List, [], ◌∷◌, ◌++◌, map, leb, if◌then◌else◌,
  length, Result, ok, err, ◌>>=◌,
}
use vedadb_driver.Query.{
  Python, Value, text, list, Values, no_values, and_value, QueryError, validation_error,
  sql_literal,
}
use vedadb_driver.Query.Builder.{
  word, same_text, is_one_of, is_identifier, all_identifiers, Where, QueryBuilder, check,
}

-- separator.join(parts)
unfoldable pub joined : List ℕ → List (List ℕ) → List ℕ
joined separator [] = []
joined separator (p ∷ []) = p
joined separator (p ∷ q ∷ ps) = p ++ (separator ++ joined separator (q ∷ ps))

module _ {F : Type 0} (py : Python F) where
  -- ", ".join(sql_literal(v) for v in values)
  unfoldable pub literals : Values F → Result QueryError (List (List ℕ))
  unfolding sql_literal
  literals no_values = ok []
  literals (and_value v vs) = (sql_literal py v) >>= (λ l. ((literals vs) >>= (λ ls. ok (l ∷ ls))))

  -- What a condition compares with, where its operator is one of IN, IS and BETWEEN.
  abbrev in_values : Value F → Option (Values F)
  in_values (list vs) = some vs
  in_values _ = none

  abbrev is_null_text : Value F → Bool
  is_null_text (text t) = same_text t (word "NULL")
  is_null_text _ = false

  abbrev pair_of : Value F → Option (Value F × Value F)
  pair_of (list (and_value v (and_value w no_values))) = some (v, w)
  pair_of _ = none

  abbrev plain : Where F → Result QueryError (List ℕ)
  plain w = (sql_literal py w.value) >>= (λ l. ok (w.column ++ (32 ∷ (w.op ++ (32 ∷ l)))))

  abbrev between : Where F → Option (Value F × Value F) → Result QueryError (List ℕ)
  between w none = plain w
  between w (some (low, high)) = (sql_literal py low) >>= (λ l.
      ((sql_literal py high)
        >>= (λ h. ok (w.column ++ (word " BETWEEN " ++ (l ++ (word " AND " ++ h)))))))

  abbrev inside : Where F → Option (Values F) → Result QueryError (List ℕ)
  inside w none = plain w
  inside w (some vs) = (literals vs) >>= (λ ls.
      ok (w.column ++ (32 ∷ (w.op ++ (word " (" ++ (joined (word ", ") ls ++ word ")"))))))

  -- A condition without its prefix.
  unfoldable pub condition : Where F → Result QueryError (List ℕ)
  unfolding literals joined sql_literal
  condition w =
      if is_one_of w.op (word "IN" ∷ word "NOT IN" ∷ [])
      then inside w (in_values w.value)
      else if is_one_of w.op (word "IS" ∷ word "IS NOT" ∷ []) && is_null_text w.value
      then ok (w.column ++ (32 ∷ (w.op ++ word " NULL")))
      else if same_text w.op (word "BETWEEN")
      then between w (pair_of w.value)
      else plain w

  -- The conditions behind the first one.
  unfoldable pub conditions :
      (Where F → Result QueryError (List ℕ)) → List (Where F) → Result QueryError (List ℕ)
  conditions print [] = ok []
  conditions print (w ∷ ws) =
      (print w)
      >>= (λ c. ((conditions print ws) >>= (λ cs. ok (32 ∷ (w.logic ++ (32 ∷ (c ++ cs)))))))

  abbrev clause :
      List ℕ → (Where F → Result QueryError (List ℕ)) → List (Where F) → Result QueryError (List ℕ)
  clause keyword print [] = ok keyword
  clause keyword print (w ∷ ws) =
      (print w) >>= (λ c. ((conditions print ws) >>= (λ cs. ok (keyword ++ (c ++ cs)))))

  unfoldable pub build_where : List (Where F) → Result QueryError (List ℕ)
  unfolding condition conditions
  build_where ws = clause (word "WHERE ") condition ws

  unfoldable pub build_having : List (Where F) → Result QueryError (List ℕ)
  unfolding conditions sql_literal
  build_having ws = clause (word "HAVING ") plain ws

  -- A clause that is left out where it has no conditions.
  abbrev optional : List (Where F) → Result QueryError (List ℕ) → Result QueryError (List (List ℕ))
  optional [] r = ok []
  optional (w ∷ ws) r = r >>= (λ t. ok (t ∷ []))

  abbrev when : Bool → List (List ℕ) → List (List ℕ)
  when b parts = if b then parts else []

  abbrev numbered : List ℕ → Option ℕ → List (List ℕ)
  numbered keyword none = []
  numbered keyword (some n) = (keyword ++ py.decimal n) ∷ []

  abbrev ordered : List ℕ × List ℕ → List ℕ
  ordered (column, direction) = column ++ (32 ∷ direction)

  -- The parts of a SELECT from a table, with its WHERE and its HAVING.
  abbrev select_parts : List ℕ → QueryBuilder F → List (List ℕ) → List (List ℕ) → List (List ℕ)
  select_parts name q wheres havings =
      (word "SELECT" ∷ when q.distinct_flag (word "DISTINCT" ∷ []))
      ++ ((joined (word ", ") q.columns ∷ word "FROM" ∷ name ∷ q.joins)
          ++ (wheres
              ++ (when (not (leb (length q.groups) 0))
                    (word "GROUP BY" ∷ joined (word ", ") q.groups ∷ [])
                  ++ (havings
                      ++ (when (not (leb (length q.orders) 0))
                            (word "ORDER BY" ∷ joined (word ", ") (map ordered q.orders) ∷ [])
                          ++ (numbered (word "LIMIT ") q.limit_val
                              ++ (numbered (word "OFFSET ") q.offset_val
                                  ++ when q.for_update_flag (word "FOR UPDATE" ∷ []))))))))

  abbrev select_from : Option (List ℕ) → QueryBuilder F → Result QueryError (List ℕ)
  select_from none q = err validation_error
  select_from (some name) q = (optional q.wheres (build_where q.wheres)) >>= (λ ws.
      ((optional q.havings (build_having q.havings))
        >>= (λ hs. ok (joined (word " ") (select_parts name q ws hs) ++ word ";"))))

  unfoldable pub to_sql : QueryBuilder F → Result QueryError (List ℕ)
  unfolding build_where build_having joined
  to_sql q = select_from q.table_name q

  -- The builder where `to_sql` returns and where it raises.
  abbrev restored :
      QueryBuilder F
      → QueryBuilder F
      → Result QueryError (List ℕ)
      → Result QueryError (List ℕ) × QueryBuilder F
  restored q p (ok sql) = (ok sql, q)
  restored q p (err e) = (err e, p)

  -- The statement of `count`, and the builder after it.
  unfoldable pub count : QueryBuilder F → Result QueryError (List ℕ) × QueryBuilder F
  unfolding to_sql
  count q =
      let p : QueryBuilder F = record q { columns = word "COUNT(*)" ∷ [] } in
      restored q p (to_sql p)

  unfoldable pub exists : QueryBuilder F → Result QueryError (List ℕ) × QueryBuilder F
  unfolding to_sql
  exists q =
      let p : QueryBuilder F = record q { columns = word "1" ∷ []; limit_val = some 1 } in
      restored q p (to_sql p)

  unfoldable pub set_clauses : List (List ℕ × Value F) → Result QueryError (List (List ℕ))
  unfolding sql_literal
  set_clauses [] = ok []
  set_clauses ((c, v) ∷ d) =
      (sql_literal py v) >>= (λ l. ((set_clauses d) >>= (λ ls. ok ((c ++ (word " = " ++ l)) ∷ ls))))

  unfoldable pub value_literals : List (List ℕ × Value F) → Result QueryError (List (List ℕ))
  unfolding sql_literal
  value_literals [] = ok []
  value_literals ((c, v) ∷ d) =
      (sql_literal py v) >>= (λ l. ((value_literals d) >>= (λ ls. ok (l ∷ ls))))

  abbrev names : List (List ℕ × Value F) → List (List ℕ)
  names d = map (λ x. x.0) d

  abbrev insert_into : Option (List ℕ) → List (List ℕ × Value F) → Result QueryError (List ℕ)
  insert_into none d = err validation_error
  insert_into (some t) [] = err validation_error
  insert_into (some t) (x ∷ d) =
      (check (all_identifiers (names (x ∷ d))) (names (x ∷ d))) >>= (λ cs.
        ((value_literals (x ∷ d)) >>= (λ vs. ok (
          word "INSERT INTO "
          ++ (t
              ++ (word " ("
                  ++ (joined (word ", ") cs
                      ++ (word ") VALUES (" ++ (joined (word ", ") vs ++ word ");")))))))))

  -- The statement of `insert`.
  unfoldable pub insert : List (List ℕ × Value F) → QueryBuilder F → Result QueryError (List ℕ)
  unfolding joined value_literals is_identifier
  insert d q = insert_into q.table_name d

  abbrev with_where :
      List (Where F) → List ℕ → Result QueryError (List ℕ) → Result QueryError (List ℕ)
  with_where [] sql r = ok (sql ++ word ";")
  with_where (w ∷ ws) sql r = r >>= (λ t. ok (sql ++ (32 ∷ (t ++ word ";"))))

  abbrev update_of :
      Option (List ℕ) → List (List ℕ × Value F) → QueryBuilder F → Result QueryError (List ℕ)
  update_of none d q = err validation_error
  update_of (some t) [] q = err validation_error
  update_of (some t) (x ∷ d) q = (check (all_identifiers (names (x ∷ d))) t) >>= (λ _.
      ((set_clauses (x ∷ d)) >>= (λ ls.
        (with_where q.wheres (word "UPDATE " ++ (t ++ (word " SET " ++ joined (word ", ") ls)))
          (build_where q.wheres)))))

  -- The statement of `update`.
  unfoldable pub update : List (List ℕ × Value F) → QueryBuilder F → Result QueryError (List ℕ)
  unfolding joined set_clauses build_where is_identifier
  update d q = update_of q.table_name d q

  abbrev delete_from : Option (List ℕ) → QueryBuilder F → Result QueryError (List ℕ)
  delete_from none q = err validation_error
  delete_from (some t) q = with_where q.wheres (word "DELETE FROM " ++ t) (build_where q.wheres)

  -- The statement of `delete`.
  unfoldable pub delete : QueryBuilder F → Result QueryError (List ℕ)
  unfolding build_where
  delete q = delete_from q.table_name q
