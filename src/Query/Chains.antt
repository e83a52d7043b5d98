-- ===== src/Query/Chains.antt =====
-- Chains of calls on a builder of python/vedadb/query_builder.py.
use mathlib.Core.Path.{subst}
use vedadb_driver.Base.{
  ℕ, ◌≡◌, refl, true, ◌&&◌, Option, none, some, List, [], ◌∷◌, ◌++◌, if_cases, All, All-append, ok,
  err, ◌>>=◌, arith,
}
use vedadb_driver.Base.Int.{ℤ, pos, negsuc}
use vedadb_driver.Query.{Python, Value, Values}
use vedadb_driver.Query.Builder.{
  word, is_one_of, is_identifier, valid_ops, Where, QueryBuilder, Built, all_identifiers,
  all_columns, new, table, select, distinct, add_where, and_where, or_where, where_op, where_in,
  where_null, where_not_null, where_between, join, group_by, having, order_by, limit, offset,
  for_update,
}

-- A call of a method that adds to a builder.
pub data Call (F : Type 0) : Type 0 where
  table_call : List ℕ → Call F
  select_call group_call : List (List ℕ) → Call F
  distinct_call for_update_call : Call F
  where_call or_call having_call : List ℕ → List ℕ → Value F → Call F
  in_call : List ℕ → Values F → Call F
  null_call not_null_call : List ℕ → Call F
  between_call : List ℕ → Value F → Value F → Call F
  join_call : List ℕ → List ℕ → List ℕ → Call F
  order_call : List ℕ → List ℕ → Call F
  limit_call offset_call : ℤ → Call F

abbrev ValidTable : Option (List ℕ) → Type 0
ValidTable none = Unit
ValidTable (some t) = is_identifier t ≡ true

abbrev ValidWhere : {F : Type 0} → Where F → Type 0
ValidWhere w = (is_identifier w.column ≡ true) × (is_one_of w.op valid_ops ≡ true)

abbrev ValidOrder : List ℕ × List ℕ → Type 0
ValidOrder (column, direction) =
    (is_identifier column ≡ true) × (is_one_of direction (word "ASC" ∷ word "DESC" ∷ []) ≡ true)

abbrev join_types : List (List ℕ)
join_types = word "INNER" ∷ word "LEFT" ∷ word "RIGHT" ∷ word "FULL" ∷ word "CROSS" ∷ []

-- The text is a known type, " JOIN ", an identifier, " ON " and a condition, which is free text.
abbrev ValidJoin : List ℕ → Type 0
ValidJoin text =
    (kind : List ℕ) × (name : List ℕ) × (on : List ℕ) × (text
      ≡ kind ++ (word " JOIN " ++ (name ++ (word " ON " ++ on))))
    × (is_identifier name ≡ true)
    × (is_one_of kind join_types ≡ true)

-- The names are identifiers, those of joined tables included, but not what a join's condition has, and
-- every operator, type of join and direction is known.
pub record IsValid {F : Type 0} (q : QueryBuilder F) : Type 0 where
  pub table_valid : ValidTable q.table_name
  pub columns_valid : all_columns q.columns ≡ true
  pub wheres_valid : All ValidWhere q.wheres
  pub joins_valid : All ValidJoin q.joins
  pub groups_valid : all_identifiers q.groups ≡ true
  pub havings_valid : All ValidWhere q.havings
  pub orders_valid : All ValidOrder q.orders

abbrev Keeps : {F : Type 0} → Built F → Type 0
Keeps (ok q) = IsValid q
Keeps (err e) = Unit

all_identifiers-append :
    (xs ys : List (List ℕ))
    → all_identifiers xs ≡ true
    → all_identifiers ys ≡ true
    → all_identifiers (xs ++ ys) ≡ true
all_identifiers-append [] ys h k = k
all_identifiers-append (x ∷ xs) ys h k =
    ground (arith, h, all_identifiers-append xs ys (ground (arith, h)) k)

module _ {F : Type 0} where
  unfoldable pub call : Python F → Call F → QueryBuilder F → Built F
  unfolding table select distinct and_where or_where having where_in where_null where_not_null
      where_between join group_by order_by limit offset for_update
  call py (table_call t) q = table t q
  call py (select_call cs) q = select cs q
  call py (group_call cs) q = group_by cs q
  call py distinct_call q = ok (distinct q)
  call py for_update_call q = ok (for_update q)
  call py (where_call c op v) q = and_where py c op v q
  call py (or_call c op v) q = or_where py c op v q
  call py (having_call c op v) q = having py c op v q
  call py (in_call c vs) q = where_in c vs q
  call py (null_call c) q = where_null c q
  call py (not_null_call c) q = where_not_null c q
  call py (between_call c low high) q = where_between c low high q
  call py (join_call t on kind) q = join py t on kind q
  call py (order_call c direction) q = order_by py c direction q
  call py (limit_call n) q = limit n q
  call py (offset_call n) q = offset n q

  unfoldable pub chain : Python F → List (Call F) → QueryBuilder F → Built F
  unfolding call
  chain py [] q = ok q
  chain py (c ∷ cs) q = (call py c q) >>= (λ r. chain py cs r)

  add_where-Keeps :
      (py : Python F) (logic column op : List ℕ) (value : Value F) (q : QueryBuilder F)
      → IsValid q
      → Keeps (add_where py logic column op value q)
  unfolding add_where
  add_where-Keeps py logic column op value q v =
      if_cases Keeps (is_identifier column && is_one_of (py.upper op) valid_ops)
        (λ h. record {
          table_valid = v.table_valid;
          columns_valid = v.columns_valid;
          wheres_valid =
              All-append ValidWhere q.wheres _ v.wheres_valid
                ((ground (arith, h), ground (arith, h)), tt);
          joins_valid = v.joins_valid;
          groups_valid = v.groups_valid;
          havings_valid = v.havings_valid;
          orders_valid = v.orders_valid;
        })
        (λ _. tt)

  where_op-Keeps :
      (op column : List ℕ) (value : Value F) (q : QueryBuilder F)
      → is_one_of op valid_ops ≡ true
      → IsValid q
      → Keeps (where_op op column value q)
  unfolding where_op
  where_op-Keeps op column value q known v =
      if_cases Keeps (is_identifier column)
        (λ h. record {
          table_valid = v.table_valid;
          columns_valid = v.columns_valid;
          wheres_valid = All-append ValidWhere q.wheres _ v.wheres_valid ((h, known), tt);
          joins_valid = v.joins_valid;
          groups_valid = v.groups_valid;
          havings_valid = v.havings_valid;
          orders_valid = v.orders_valid;
        })
        (λ _. tt)

  same-Keeps :
      (q r : QueryBuilder F)
      → r.table_name ≡ q.table_name
      → r.columns ≡ q.columns
      → r.wheres ≡ q.wheres
      → All ValidJoin r.joins
      → r.groups ≡ q.groups
      → r.havings ≡ q.havings
      → r.orders ≡ q.orders
      → IsValid q
      → IsValid r
  same-Keeps q r a b c j d e f v = record {
    table_valid = rw a v.table_valid;
    columns_valid = rw b v.columns_valid;
    wheres_valid = rw c v.wheres_valid;
    joins_valid = j;
    groups_valid = rw d v.groups_valid;
    havings_valid = rw e v.havings_valid;
    orders_valid = rw f v.orders_valid;
  }

  call-Keeps : (py : Python F) (c : Call F) (q : QueryBuilder F) → IsValid q → Keeps (call py c q)
  unfolding call table select distinct and_where or_where having where_in where_null where_not_null
      where_between join group_by order_by limit offset for_update
  call-Keeps py (table_call t) q v =
      if_cases Keeps (is_identifier t)
        (λ h. record {
          table_valid = h;
          columns_valid = v.columns_valid;
          wheres_valid = v.wheres_valid;
          joins_valid = v.joins_valid;
          groups_valid = v.groups_valid;
          havings_valid = v.havings_valid;
          orders_valid = v.orders_valid;
        })
        (λ _. tt)
  call-Keeps py (select_call []) q v = v
  call-Keeps py (select_call (c ∷ cs)) q v =
      if_cases Keeps (all_columns (c ∷ cs))
        (λ h. record {
          table_valid = v.table_valid;
          columns_valid = h;
          wheres_valid = v.wheres_valid;
          joins_valid = v.joins_valid;
          groups_valid = v.groups_valid;
          havings_valid = v.havings_valid;
          orders_valid = v.orders_valid;
        })
        (λ _. tt)
  call-Keeps py (group_call cs) q v =
      if_cases Keeps (all_identifiers cs)
        (λ h. record {
          table_valid = v.table_valid;
          columns_valid = v.columns_valid;
          wheres_valid = v.wheres_valid;
          joins_valid = v.joins_valid;
          groups_valid = all_identifiers-append q.groups cs v.groups_valid h;
          havings_valid = v.havings_valid;
          orders_valid = v.orders_valid;
        })
        (λ _. tt)
  call-Keeps py distinct_call q v = same-Keeps q _ refl refl refl v.joins_valid refl refl refl v
  call-Keeps py for_update_call q v = same-Keeps q _ refl refl refl v.joins_valid refl refl refl v
  call-Keeps py (where_call c op w) q v = add_where-Keeps py (word "AND") c op w q v
  call-Keeps py (or_call c op w) q v = add_where-Keeps py (word "OR") c op w q v
  call-Keeps py (having_call c op w) q v =
      if_cases Keeps (is_identifier c && is_one_of (py.upper op) valid_ops)
        (λ h. record {
          table_valid = v.table_valid;
          columns_valid = v.columns_valid;
          wheres_valid = v.wheres_valid;
          joins_valid = v.joins_valid;
          groups_valid = v.groups_valid;
          havings_valid =
              All-append ValidWhere q.havings _ v.havings_valid
                ((ground (arith, h), ground (arith, h)), tt);
          orders_valid = v.orders_valid;
        })
        (λ _. tt)
  call-Keeps py (in_call c vs) q v = where_op-Keeps (word "IN") c _ q refl v
  call-Keeps py (null_call c) q v = where_op-Keeps (word "IS") c _ q refl v
  call-Keeps py (not_null_call c) q v = where_op-Keeps (word "IS NOT") c _ q refl v
  call-Keeps py (between_call c low high) q v = where_op-Keeps (word "BETWEEN") c _ q refl v
  call-Keeps py (join_call t on kind) q v =
      if_cases Keeps
        (is_identifier t
          && is_one_of (py.upper kind)
              (word "INNER" ∷ word "LEFT" ∷ word "RIGHT" ∷ word "FULL" ∷ word "CROSS" ∷ []))
        (λ h.
          same-Keeps q _ refl refl refl
            (All-append ValidJoin q.joins _ v.joins_valid
              ((py.upper kind, t, on, refl, ground (arith, h), ground (arith, h)), tt))
            refl refl refl v)
        (λ _. tt)
  call-Keeps py (order_call c direction) q v =
      if_cases Keeps
        (is_identifier c && is_one_of (py.upper direction) (word "ASC" ∷ word "DESC" ∷ []))
        (λ h. record {
          table_valid = v.table_valid;
          columns_valid = v.columns_valid;
          wheres_valid = v.wheres_valid;
          joins_valid = v.joins_valid;
          groups_valid = v.groups_valid;
          havings_valid = v.havings_valid;
          orders_valid =
              All-append ValidOrder q.orders _ v.orders_valid
                ((ground (arith, h), ground (arith, h)), tt);
        })
        (λ _. tt)
  call-Keeps py (limit_call (pos n)) q v =
      same-Keeps q _ refl refl refl v.joins_valid refl refl refl v
  call-Keeps py (limit_call (negsuc n)) q v = tt
  call-Keeps py (offset_call (pos n)) q v =
      same-Keeps q _ refl refl refl v.joins_valid refl refl refl v
  call-Keeps py (offset_call (negsuc n)) q v = tt

  chain-Keeps :
      (py : Python F) (cs : List (Call F)) (q : QueryBuilder F) → IsValid q → Keeps (chain py cs q)
  unfolding chain
  chain-Keeps py [] q v = v
  chain-Keeps py (c ∷ cs) q v =
      after (call py c q) (call-Keeps py c q v) (λ r w. chain-Keeps py cs r w)
    where
      after :
          (r : Built F)
          → Keeps r
          → ((p : QueryBuilder F) → IsValid p → Keeps (chain py cs p))
          → Keeps (r >>= (λ p. chain py cs p))
      after (err e) k rec = tt
      after (ok p) k rec = rec p k

  -- Whatever chain of calls makes a builder, if none raises: the table, the columns, the columns of the
  -- conditions, of the groups and of the order, and the tables of the joins are identifiers (a column
  -- to select may also be "*"), and the operators, the types of the joins, each of which is printed as
  -- its type, JOIN, the table, ON and the given condition, and the directions are known ones.
  pub chain-IsValid :
      (py : Python F) (cs : List (Call F)) (q : QueryBuilder F) → chain py cs new ≡ ok q → IsValid q
  chain-IsValid py cs q e = subst Keeps e (
      chain-Keeps py cs new (record {
        table_valid = tt;
        columns_valid = refl;
        wheres_valid = tt;
        joins_valid = tt;
        groups_valid = refl;
        havings_valid = tt;
        orders_valid = tt;
      }))
