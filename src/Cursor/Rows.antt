-- ===== src/Cursor/Rows.antt =====
-- The rows of python/vedadb/cursor.py as dictionaries.
use vedadb_driver.Base.{
  ℕ, zero, suc, ◌+◌, ◌≤◌, ◌<◌, ◌≡◌, refl, ap, ◌∙◌, Option, some, List, [], ◌∷◌, arith, String,
  length, get_elem?,
}
use vedadb_driver.Base.Dict.{string_eq, Dict, get, put, get-put}
use vedadb_driver.Cursor.{make_row, or_none, numbered, row_get, at_index, paired, put_some, to_dict}

get_elem?-below :
    {V : Type 0} (xs : List V) (i : ℕ) → i < length xs → (v : V) × (get_elem? xs i ≡ some v)
get_elem?-below [] i l = absurd (omega (arith, l))
get_elem?-below (x ∷ xs) zero l = (x, refl)
get_elem?-below (x ∷ xs) (suc i) l = get_elem?-below xs i (omega (arith, l))

module _ {V : Type 0} where
  put-agrees :
      (c k : String) (i : ℕ) (v : V) (values : List V) (index : Dict String ℕ) (d : Dict String V)
      → get_elem? values i ≡ some v
      → get k d ≡ at_index values (get k index)
      → get k (put c v d) ≡ at_index values (get k (put c i index))
  put-agrees c k i v values index d e h = ground (arith, get-put c k v d, get-put c k i index, e, h)

  paired-numbered :
      (i : ℕ) (cs : List String) (values : List V) (index : Dict String ℕ) (d : Dict String V)
      → i + length cs ≤ length values
      → ((k : String) → get k d ≡ at_index values (get k index))
      → (k : String) → get k (paired i cs values d) ≡ at_index values (get k (numbered i cs index))
  unfolding paired numbered
  paired-numbered i [] values index d l h k = h k
  paired-numbered i (c ∷ cs) values index d l h k =
      let (v, e) = get_elem?-below values i (omega (arith, l)) in
      ap (λ r. get k (paired (suc i) cs values (put_some c r d))) e
      ∙ paired-numbered (suc i) cs values (put c i index) (put c v d) (omega (arith, l))
          (λ j. put-agrees c j i v values index d e (h j)) k

  -- In a row with a value for each column, `to_dict` has what `get` returns, for every key, also where
  -- several columns have one name.
  to_dict-row_get :
      (columns : Option (List String)) (values : List V) (key : String)
      → length (or_none columns) ≤ length values
      → let r = make_row columns values in get key (to_dict r) ≡ row_get key r
  unfolding to_dict row_get make_row
  to_dict-row_get columns values key l =
      paired-numbered 0 (or_none columns) values [] [] (omega (arith, l)) (λ k. unfold get in refl)
        key
