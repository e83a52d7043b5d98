-- ===== src/Cache.antt =====
-- python/vedadb/cache.py: the LRU cache of query results with a time to live and an index by table.
-- A key is the hexadecimal digest that `_make_key` computes with hashlib; a set is a list without
-- order; times are ticks of `time.monotonic`, and a time to live that is not positive is 0.
pub mod Index
pub mod Invariant
pub mod Lookup
pub mod Recency
mod Examples
use vedadb_driver.Base.{
  ℕ, zero, suc, ◌+◌, ◌-◌, Bool, true, false, not, ◌&&◌, ◌||◌, String, List, [], ◌∷◌, ◌++◌, Option,
  none, some, ltb, leb, ◌==◌, if◌then◌else◌, length, Result, ok, err,
}
use vedadb_driver.Base.Dict.{Eq, string_eq, Dict, get, put, remove}

-- The errors of a call: ValueError of the constructor, KeyError of a miss that nothing can fetch, and
-- whatever `fetch_fn` raises.
pub data CacheError : Type 0 where
  value_error key_error fetch_error : CacheError

-- `key in s`, s.add(key) and s.discard(key) of a set.
unfoldable pub has : String → List String → Bool
has k [] = false
has k (j ∷ js) = string_eq.beq j k || has k js

unfoldable pub add : String → List String → List String
unfolding has
add k ks = if has k ks then ks else k ∷ ks

unfoldable pub discard : String → List String → List String
discard k [] = []
discard k (j ∷ js) = let rest = discard k js in if string_eq.beq j k then rest else j ∷ rest

-- `_table_index`
abbrev pub TableIndex : Type 0
TableIndex = Dict String (List String)

abbrev or_empty : Option (List String) → List String
or_empty none = []
or_empty (some ks) = ks

-- The keys indexed under a table.
unfoldable pub keys_of : String → TableIndex → List String
unfolding get
keys_of table ix = or_empty (get table ix)

unfoldable pub index_entry : String → List String → TableIndex → TableIndex
unfolding put keys_of add
index_entry key [] ix = ix
index_entry key (t ∷ ts) ix = index_entry key ts (put t (add key (keys_of t ix)) ix)

-- A table whose set becomes empty is deleted.
abbrev shrunk : String → List String → TableIndex → TableIndex
shrunk t [] ix = remove t ix
shrunk t (k ∷ ks) ix = put t (k ∷ ks) ix

abbrev unindexed : String → String → TableIndex → Option (List String) → TableIndex
unindexed key t ix none = ix
unindexed key t ix (some ks) = shrunk t (discard key ks) ix

unfoldable pub unindex_entry : String → List String → TableIndex → TableIndex
unfolding get put remove discard
unindex_entry key [] ix = ix
unindex_entry key (t ∷ ts) ix = unindex_entry key ts (unindexed key t ix (get t ix))

pub record Entry (R : Type 0) : Type 0 where
  pub result : R
  pub created_at : ℕ
  pub tables : List String

-- `cache` is the OrderedDict, the least recently used entry first.
pub record QueryCache (R : Type 0) : Type 0 where
  pub max_size : ℕ
  pub ttl : ℕ
  pub cache : Dict String (Entry R)
  pub table_index : TableIndex
  pub hits : ℕ
  pub misses : ℕ
  pub evictions : ℕ
  pub invalidations : ℕ

module _ {R : Type 0} where
  unfoldable pub new : ℕ → ℕ → Result CacheError (QueryCache R)
  new max_size ttl =
      if ltb max_size 1
      then err value_error
      else ok (record {
        max_size = max_size;
        ttl = ttl;
        cache = [];
        table_index = [];
        hits = 0;
        misses = 0;
        evictions = 0;
        invalidations = 0;
      })

  abbrev remove_found : String → QueryCache R → Option (Entry R) → QueryCache R
  remove_found key c none = c
  remove_found key c (some entry) = record c {
    cache = remove key c.cache;
    table_index = unindex_entry key entry.tables c.table_index;
  }

  unfoldable pub remove_entry : String → QueryCache R → QueryCache R
  unfolding get remove unindex_entry
  remove_entry key c = remove_found key c (get key c.cache)

  -- The loop of `set`: entries leave at the front while the cache is full.
  unfoldable pub evict :
      ℕ → Dict String (Entry R) → TableIndex → ℕ → Dict String (Entry R) × TableIndex × ℕ
  unfolding unindex_entry
  evict max_size [] ix evictions = ([], ix, evictions)
  evict max_size ((k, e) ∷ d) ix evictions =
      let rest = evict max_size d (unindex_entry k e.tables ix) (suc evictions) in
      if leb max_size (suc (length d)) then rest else ((k, e) ∷ d, ix, evictions)

  unfoldable pub set : String → R → List String → ℕ → QueryCache R → QueryCache R
  unfolding evict put index_entry
  set key result tables now c =
      let (d, ix, evictions) = evict c.max_size c.cache c.table_index c.evictions in
      record c {
        cache = put key (record { result = result; created_at = now; tables = tables }) d;
        table_index = index_entry key tables ix;
        evictions = evictions;
      }

  unfoldable pub move_to_end : String → Entry R → Dict String (Entry R) → Dict String (Entry R)
  unfolding remove
  move_to_end key entry d = remove key d ++ ((key, entry) ∷ [])

  abbrev pub is_fresh : QueryCache R → Entry R → ℕ → Bool
  is_fresh c entry now = leb c.ttl 0 || ltb (now - entry.created_at) c.ttl

  abbrev miss : QueryCache R → Option R × QueryCache R
  miss c = (none, record c { misses = suc c.misses })

  lookup_found : String → ℕ → QueryCache R → Option (Entry R) → Option R × QueryCache R
  unfolding move_to_end remove_entry
  lookup_found key now c none = miss c
  lookup_found key now c (some entry) =
      if is_fresh c entry now
      then (
        some entry.result,
        record c { cache = move_to_end key entry c.cache; hits = suc c.hits },
      )
      else miss (remove_entry key c)

  -- The part of `get` under the lock.
  unfoldable pub lookup : String → ℕ → QueryCache R → Option R × QueryCache R
  unfolding get lookup_found
  lookup key now c = lookup_found key now c (get key c.cache)

  -- The rest of `get`, at a later time: `fetch` is what `fetch_fn` gives, if there is one.
  unfoldable pub fetched :
      String
      → List String
      → ℕ
      → Option (Result CacheError R)
      → Option R × QueryCache R
      → Result CacheError R × QueryCache R
  unfolding set
  fetched key tables later fetch (some r, c) = (ok r, c)
  fetched key tables later none (none, c) = (err key_error, c)
  fetched key tables later (some (err e)) (none, c) = (err e, c)
  fetched key tables later (some (ok r)) (none, c) = (ok r, set key r tables later c)

  unfoldable pub get_result :
      String
      → List String
      → ℕ
      → ℕ
      → Option (Result CacheError R)
      → QueryCache R
      → Result CacheError R × QueryCache R
  unfolding lookup fetched
  get_result key tables now later fetch c = fetched key tables later fetch (lookup key now c)

  unfoldable pub remove_all : List String → QueryCache R → QueryCache R
  unfolding remove_entry
  remove_all [] c = c
  remove_all (k ∷ ks) c = remove_all ks (remove_entry k c)

  unfoldable pub invalidate : Option String → QueryCache R → ℕ × QueryCache R
  unfolding keys_of remove_all
  invalidate none c = (
    length c.cache,
    record c { cache = []; table_index = []; invalidations = c.invalidations + length c.cache },
  )
  invalidate (some table) c =
      let ks = keys_of table c.table_index in
      let c' = remove_all ks c in
      (length ks, record c' { invalidations = c'.invalidations + length ks })

  unfoldable pub size : QueryCache R → ℕ
  size c = length c.cache

-- One call of the cache, at a time.
pub data Event (R : Type 0) : Type 0 where
  looked_up : String → ℕ → Event R
  stored : String → R → List String → ℕ → Event R
  invalidated : Option String → Event R

module _ {R : Type 0} where
  unfoldable pub step : QueryCache R → Event R → QueryCache R
  unfolding lookup set invalidate
  step c (looked_up key now) = (lookup key now c).1
  step c (stored key r tables now) = set key r tables now c
  step c (invalidated table) = (invalidate table c).1

  unfoldable pub run : QueryCache R → List (Event R) → QueryCache R
  unfolding step
  run c [] = c
  run c (e ∷ es) = run (step c e) es
