-- ===== src/Cache/Index.antt =====
-- The table index of python/vedadb/cache.py: what entering and removing a key does to it.
use vedadb_driver.Base.{
  ◌≡◌, refl, not, ◌&&◌, ◌||◌, String, List, [], ◌∷◌, Option, none, some, arith, Bool-cases,
  if◌then◌else◌, inl, inr,
}
use vedadb_driver.Base.Dict.{string_eq, get, put, remove, get-put, get-remove}
use vedadb_driver.Cache.{
  has, add, discard, TableIndex, keys_of, index_entry, shrunk, unindexed, unindex_entry,
}

pub has-add : (j k : String) (ks : List String) → has j (add k ks) ≡ (string_eq.beq k j || has j ks)
unfolding has add
has-add j k ks = ground (arith, string_eq.beq_iff k j)

pub has-discard :
    (j k : String) (ks : List String) → has j (discard k ks) ≡ (not (string_eq.beq k j) && has j ks)
unfolding has discard
has-discard j k [] = ground arith
has-discard j k (i ∷ ks) =
    ground (
      arith,
      string_eq.beq_iff k j,
      string_eq.beq_iff i j,
      string_eq.beq_iff i k,
      has-discard j k ks,
    )

keys_of-put :
    (t u : String) (ks : List String) (ix : TableIndex)
    → keys_of u (put t ks ix) ≡ (if string_eq.beq t u then ks else keys_of u ix)
unfolding keys_of
keys_of-put t u ks ix = elim (Bool-cases (string_eq.beq t u)) [
  | inl h ↦ rw (get-put t u ks ix, h)
  | inr h ↦ rw (get-put t u ks ix, h)
]

keys_of-remove :
    (t u : String) (ix : TableIndex)
    → keys_of u (remove t ix) ≡ (if string_eq.beq t u then [] else keys_of u ix)
unfolding keys_of
keys_of-remove t u ix = elim (Bool-cases (string_eq.beq t u)) [
  | inl h ↦ rw (get-remove t u ix, h)
  | inr h ↦ rw (get-remove t u ix, h)
]

-- A key is under a table after it was entered under the tables `ts` if it was before, or if it is
-- the key and the table is one of them.
pub has-index_entry :
    (j u key : String) (ts : List String) (ix : TableIndex)
    → has j (keys_of u (index_entry key ts ix))
      ≡ (has j (keys_of u ix) || (string_eq.beq key j && has u ts))
unfolding index_entry has
has-index_entry j u key [] ix = ground arith
has-index_entry j u key (t ∷ ts) ix = ground (
  arith,
  has-index_entry j u key ts (put t (add key (keys_of t ix)) ix),
  keys_of-put t u (add key (keys_of t ix)) ix,
  has-add j key (keys_of t ix),
  string_eq.beq_iff t u,
  string_eq.beq_iff key j,
)

has-shrunk :
    (j u t : String) (ks : List String) (ix : TableIndex)
    → has j (keys_of u (shrunk t ks ix))
      ≡ (if string_eq.beq t u then has j ks else has j (keys_of u ix))
unfolding has
has-shrunk j u t [] ix = ground (arith, keys_of-remove t u ix)
has-shrunk j u t (k ∷ ks) ix = ground (arith, keys_of-put t u (k ∷ ks) ix)

has-unindexed :
    (j u key t : String) (ix : TableIndex) (o : Option (List String))
    → get t ix ≡ o
    → has j (keys_of u (unindexed key t ix o))
      ≡ (has j (keys_of u ix) && not (string_eq.beq key j && string_eq.beq t u))
unfolding keys_of has
has-unindexed j u key t ix none e = ground (arith, string_eq.beq_iff t u)
has-unindexed j u key t ix (some ks) e =
    ground
      (arith, has-shrunk j u t (discard key ks) ix, has-discard j key ks, string_eq.beq_iff t u)

-- A key is under a table after a key was removed from the tables `ts` if it was before, and it is
-- not the removed key or the table is none of them.
pub has-unindex_entry :
    (j u key : String) (ts : List String) (ix : TableIndex)
    → has j (keys_of u (unindex_entry key ts ix))
      ≡ (has j (keys_of u ix) && not (string_eq.beq key j && has u ts))
unfolding unindex_entry has
has-unindex_entry j u key [] ix = ground arith
has-unindex_entry j u key (t ∷ ts) ix = ground (
  arith,
  has-unindex_entry j u key ts (unindexed key t ix (get t ix)),
  has-unindexed j u key t ix (get t ix) refl,
)
