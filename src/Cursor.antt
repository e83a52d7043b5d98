-- ===== src/Cursor.antt =====
-- python/vedadb/cursor.py: rows of a result, and the cursor that asks for them in windows. A text is
-- the list of its code points; the values of a row and the exceptions of the client are arguments.
pub mod Fetch
pub mod Rows
pub mod Iterate
pub mod Whole
pub mod Windows
pub mod Async
mod Examples
use vedadb_driver.Base.{
  ℕ, zero, suc, ◌+◌, ◌-◌, Bool, true, false, not, ◌&&◌, ◌||◌, Option, none, some, List, [], ◌∷◌,
  ◌++◌, map, ltb, leb, ◌==◌, if◌then◌else◌, length, get_elem?, String, Result, ok, err,
}
use vedadb_driver.Base.Dict.{Eq, nat_eq, string_eq, Dict, get, put}

-- `str.upper` and the decimal digits of a number.
pub record Python : Type 0 where
  pub upper : List ℕ → List ℕ
  pub decimal : ℕ → List ℕ

-- Row
pub record Row (V : Type 0) : Type 0 where
  pub values : List V
  pub columns : List String
  pub col_map : Dict String ℕ

-- What a client returns, where no result and a result without rows are the same: a result with its
-- columns and rows, now or of a coroutine.
pub record Answer (V : Type 0) : Type 0 where
  pub columns : Option (List String)
  pub rows : List (List V)

pub data Returned (V : Type 0) : Type 0 where
  now later : Answer V → Returned V

-- The n-th call of `query`.
abbrev pub Client : Type 0 → Type 0 → Type 0
Client V E = ℕ → List ℕ → Result E (Returned V)

pub data CursorError (E : Type 0) : Type 0 where
  of_client : E → CursorError E
  attribute_error index_error : CursorError E

-- `calls` is the number of queries so far.
pub record Cursor (V : Type 0) : Type 0 where
  pub sql : List ℕ
  pub batch_size : ℕ
  pub offset : ℕ
  pub buffer : List (Row V)
  pub buffer_idx : ℕ
  pub columns : Option (List String)
  pub closed : Bool
  pub total_yielded : ℕ
  pub calls : ℕ

unfoldable pub starts_with : List ℕ → List ℕ → Bool
starts_with [] text = true
starts_with (c ∷ cs) [] = false
starts_with (c ∷ cs) (d ∷ ds) = (c == d) && starts_with cs ds

-- pattern in text
unfoldable pub contains : List ℕ → List ℕ → Bool
unfolding starts_with
contains pattern [] = starts_with pattern []
contains pattern (c ∷ cs) = starts_with pattern (c ∷ cs) || contains pattern cs

-- text.rstrip(";\n ")
unfoldable pub rstrip : List ℕ → List ℕ
rstrip [] = []
rstrip (c ∷ cs) =
    let rest = rstrip cs in
    if leb (length rest) 0 && ((c == 59) || ((c == 10) || (c == 32))) then [] else c ∷ rest

-- "LIMIT " and "OFFSET ".
abbrev pub limit_word : List ℕ
limit_word = 76 ∷ 73 ∷ 77 ∷ 73 ∷ 84 ∷ 32 ∷ []

abbrev pub offset_word : List ℕ
offset_word = 79 ∷ 70 ∷ 70 ∷ 83 ∷ 69 ∷ 84 ∷ 32 ∷ []

unfoldable pub with_limit : Python → List ℕ → ℕ → List ℕ
unfolding contains
with_limit py text batch =
    if not (contains limit_word (py.upper text))
    then text ++ (32 ∷ (limit_word ++ py.decimal batch))
    else text

unfoldable pub with_offset : Python → List ℕ → ℕ → List ℕ
unfolding contains
with_offset py text offset =
    if not (contains offset_word (py.upper text))
    then text ++ (32 ∷ (offset_word ++ py.decimal offset))
    else text

-- The statement of a window.
unfoldable pub windowed : Python → List ℕ → ℕ → ℕ → List ℕ
unfolding rstrip with_limit with_offset
windowed py sql batch offset = with_offset py (with_limit py (rstrip sql) batch) offset ++ (59 ∷ [])

abbrev pub or_none : Option (List String) → List String
or_none none = []
or_none (some cs) = cs

unfoldable pub numbered : ℕ → List String → Dict String ℕ → Dict String ℕ
unfolding put
numbered i [] d = d
numbered i (c ∷ cs) d = numbered (suc i) cs (put c i d)

-- `Row.__init__`
unfoldable pub make_row : {V : Type 0} → Option (List String) → List V → Row V
unfolding numbered
make_row columns values = record {
  values = values;
  columns = or_none columns;
  col_map = numbered 0 (or_none columns) [];
}

module _ {V : Type 0} where
  abbrev pub at_index : List V → Option ℕ → Option V
  at_index values none = none
  at_index values (some i) = get_elem? values i

  -- `Row.get` without a default.
  unfoldable pub row_get : String → Row V → Option V
  unfolding get
  row_get key r = at_index r.values (get key r.col_map)

  -- `Row.to_dict`, from the i-th column on.
  abbrev pub put_some : String → Option V → Dict String V → Dict String V
  put_some c none d = d
  put_some c (some v) d = put c v d

  unfoldable pub paired : ℕ → List String → List V → Dict String V → Dict String V
  unfolding put
  paired i [] values d = d
  paired i (c ∷ cs) values d = paired (suc i) cs values (put_some c (get_elem? values i) d)

  unfoldable pub to_dict : Row V → Dict String V
  unfolding paired
  to_dict r = paired 0 r.columns r.values []

  -- `__init__`
  unfoldable pub new : List ℕ → ℕ → Cursor V
  new sql batch = record {
    sql = sql;
    batch_size = batch;
    offset = 0;
    buffer = [];
    buffer_idx = 0;
    columns = none;
    closed = false;
    total_yielded = 0;
    calls = 0;
  }

  unfoldable pub close : Cursor V → Cursor V
  close c = record c { closed = true; buffer = [] }

  -- The end of `_fetch_batch`: whether there are rows, and the cursor with them.
  unfoldable pub store : Answer V → Cursor V → Bool × Cursor V
  unfolding make_row
  store a c = if leb (length a.rows) 0 then (false, c) else (
    true,
    record c {
      columns = a.columns;
      buffer = map (make_row a.columns) a.rows;
      buffer_idx = 0;
      offset = c.offset + length a.rows;
    },
  )

  abbrev pub took : Cursor V → Option (Row V) → Option (Row V) × Cursor V
  took c none = (none, c)
  took c (some r) =
      (some r, record c { buffer_idx = suc c.buffer_idx; total_yielded = suc c.total_yielded })

  -- The row at the cursor's place in the buffer, where there is one.
  unfoldable pub take_row : Cursor V → Option (Row V) × Cursor V
  take_row c = took c (get_elem? c.buffer c.buffer_idx)
