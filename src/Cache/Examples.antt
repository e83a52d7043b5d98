-- ===== src/Cache/Examples.antt =====
-- The cache of python/vedadb/cache.py at concrete values.
use vedadb_driver.Base.{ℕ, ◌≡◌, ◌≤◌, refl, true, List, [], ◌∷◌, none, some, arith, length, ok}
use vedadb_driver.Base.Dict.{string_eq, get, Distinct}
use vedadb_driver.Cache.{
  has, keys_of, Entry, QueryCache, new, set, lookup, invalidate, Event, stored, invalidated,
  looked_up, run,
}
use vedadb_driver.Cache.Invariant.{IsValid, IsIndexed, run-IsIndexed}
use vedadb_driver.Cache.Lookup.{lookup-set, invalidate_complete}
use vedadb_driver.Cache.Recency.{stores, recent-kept}

-- A cache of two entries, at most ten ticks old.
abbrev empty : QueryCache ℕ
empty = record {
  max_size = 2;
  ttl = 10;
  cache = [];
  table_index = [];
  hits = 0;
  misses = 0;
  evictions = 0;
  invalidations = 0;
}

-- The cache with the result 1 of a query on the table "users".
abbrev one_entry : Entry ℕ
one_entry = record { result = 1; created_at = 0; tables = "users" ∷ [] }

abbrev one : QueryCache ℕ
one = record empty { cache = ("a", one_entry) ∷ []; table_index = ("users", "a" ∷ []) ∷ [] }

abbrev events : List (Event ℕ)
events =
    stored "a" 1 ("users" ∷ []) 0
    ∷ stored "b" 2 ("users" ∷ "items" ∷ []) 1
    ∷ looked_up "a" 2
    ∷ stored "c" 3 [] 3
    ∷ invalidated (some "users")
    ∷ []

new_two : new 2 10 ≡ ok empty
unfolding new
new_two = refl

one-there : get "a" one.cache ≡ some one_entry
unfolding get
one-there = refl

one-indexed : has "users" one_entry.tables ≡ true
unfolding has
one-indexed = refl

one-hit : (lookup "a" 3 one).0 ≡ some 1
unfolding lookup get
one-hit = refl

one-IsValid : IsValid 2 one
unfolding get has keys_of
one-IsValid = (
  (omega arith, refl),
  omega arith,
  (refl, tt),
  λ k t e g m. ground (arith, g, m, string_eq.beq_iff "a" k, string_eq.beq_iff "users" t),
)

run-IsIndexed_example :
    (length (run empty events).cache ≤ 2)
    × Distinct (run empty events).cache
    × IsIndexed (run empty events).cache (run empty events).table_index
run-IsIndexed_example = run-IsIndexed 2 10 empty events new_two

lookup-set_example : (lookup "a" 9 (set "a" 7 ("users" ∷ []) 4 one)).0 ≡ some 7
lookup-set_example = lookup-set "a" 7 ("users" ∷ []) 4 9 one

invalidate_complete_example : get "a" (invalidate (some "users") one).1.cache ≡ none
invalidate_complete_example =
    invalidate_complete 2 "users" "a" one_entry one one-IsValid one-there one-indexed

recent-kept_example :
    get "a" (run (lookup "a" 3 one).1 (stores (("b", 2, [], 4) ∷ []))).cache ≡ get "a" one.cache
recent-kept_example =
    recent-kept "a" 3 one 1 (("b", 2, [], 4) ∷ []) one-hit (refl, tt) (omega arith)
