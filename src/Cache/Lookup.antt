-- ===== src/Cache/Lookup.antt =====
-- Results of python/vedadb/cache.py: what a lookup returns after `set`, after the time to live and
-- after `invalidate`.
use vedadb_driver.Base.{
  ℕ, ◌-◌, ◌≡◌, refl, ◌∙◌, true, false, ◌||◌, String, List, [], ◌∷◌, Option, none, some, arith,
  Bool-cases, if◌then◌else◌, inl, inr, length, ltb, leb, Result, ok, err,
}
use vedadb_driver.Base.Dict.{string_eq, get, get-put, get-remove, beq_refl}
use vedadb_driver.Cache.{
  has, keys_of, Entry, QueryCache, CacheError, remove_found, remove_entry, evict, set, is_fresh,
  lookup_found, lookup, remove_all, invalidate, fetched, get_result, key_error,
}
use vedadb_driver.Cache.Invariant.{IsValid}

module _ {R : Type 0} where
  get-set :
      (key : String) (r : R) (ts : List String) (now : ℕ) (c : QueryCache R)
      → get key (set key r ts now c).cache
        ≡ some (record { result = r; created_at = now; tables = ts })
  unfolding set
  get-set key r ts now c =
      let left = evict c.max_size c.cache c.table_index c.evictions in
      let e : Entry R = record { result = r; created_at = now; tables = ts } in
      get-put key key e left.0 ∙ rw (beq_refl key)

  lookup_found_hit :
      (key : String) (now : ℕ) (c : QueryCache R) (e : Entry R)
      → get key c.cache ≡ some e
      → is_fresh c e now ≡ true
      → (lookup key now c).0 ≡ some e.result
  unfolding lookup lookup_found
  lookup_found_hit key now c e g f = rw (g, f)

  lookup_found_expired :
      (key : String) (now : ℕ) (c : QueryCache R) (e : Entry R)
      → get key c.cache ≡ some e
      → is_fresh c e now ≡ false
      → (lookup key now c).0 ≡ none
  unfolding lookup lookup_found
  lookup_found_expired key now c e g f = rw (g, f)

  is_fresh-set :
      (key : String) (r : R) (ts : List String) (now later : ℕ) (c : QueryCache R) (e : Entry R)
      → is_fresh (set key r ts now c) e later ≡ is_fresh c e later
  unfolding set
  is_fresh-set key r ts now later c e = refl

  -- What was stored at a time is found at a later one if the cache has no time to live or less than
  -- that has passed, and is not found otherwise.
  pub lookup-set :
      (key : String) (r : R) (ts : List String) (now later : ℕ) (c : QueryCache R)
      → (lookup key later (set key r ts now c)).0
        ≡ (if leb c.ttl 0 || ltb (later - now) c.ttl then some r else none)
  lookup-set key r ts now later c =
      let e : Entry R = record { result = r; created_at = now; tables = ts } in
      let c' = set key r ts now c in
      elim (Bool-cases (is_fresh c e later)) [
        | inl f ↦ rw f (
            lookup_found_hit key later c' e (get-set key r ts now c)
              (is_fresh-set key r ts now later c e ∙ f))
        | inr f ↦ rw f (
            lookup_found_expired key later c' e (get-set key r ts now c)
              (is_fresh-set key r ts now later c e ∙ f))
      ]

  remove_found-get :
      (key j : String) (c : QueryCache R) (o : Option (Entry R))
      → get key c.cache ≡ o
      → get j (remove_found key c o).cache ≡ (if string_eq.beq key j then none else get j c.cache)
  remove_found-get key j c none g = ground (arith, string_eq.beq_iff key j, g)
  remove_found-get key j c (some e) g = get-remove key j c.cache

  get-remove_entry :
      (key j : String) (c : QueryCache R)
      → get j (remove_entry key c).cache ≡ (if string_eq.beq key j then none else get j c.cache)
  unfolding remove_entry
  get-remove_entry key j c = remove_found-get key j c (get key c.cache) refl

  get-remove_all :
      (j : String) (ks : List String) (c : QueryCache R)
      → get j (remove_all ks c).cache ≡ (if has j ks then none else get j c.cache)
  unfolding remove_all has
  get-remove_all j [] c = refl
  get-remove_all j (k ∷ ks) c =
      ground (arith, get-remove_all j ks (remove_entry k c), get-remove_entry k j c)

  -- Invalidating a table takes away the entries of the keys that stand in its index and no other, and
  -- returns the number of these keys.
  get-invalidate :
      (table j : String) (c : QueryCache R)
      → (get j (invalidate (some table) c).1.cache
          ≡ (if has j (keys_of table c.table_index) then none else get j c.cache))
        × ((invalidate (some table) c).0 ≡ length (keys_of table c.table_index))
  unfolding invalidate
  get-invalidate table j c = (get-remove_all j (keys_of table c.table_index) c, refl)

  -- In a valid cache an entry that depends on a table is gone after the table was invalidated.
  pub invalidate_complete :
      (m : ℕ) (table j : String) (e : Entry R) (c : QueryCache R)
      → IsValid m c
      → get j c.cache ≡ some e
      → has table e.tables ≡ true
      → get j (invalidate (some table) c).1.cache ≡ none
  invalidate_complete m table j e c (p, l, D, h) g t =
      (get-invalidate table j c).0 ∙ rw (h j table e g t)

  lookup-set_now :
      (key : String) (r : R) (ts : List String) (now : ℕ) (c : QueryCache R)
      → (lookup key now (set key r ts now c)).0 ≡ some r
  lookup-set_now key r ts now c = ground (arith, lookup-set key r ts now now c)

  fetched_miss :
      (key : String) (ts : List String) (later : ℕ) (r : R) (q : Option R × QueryCache R)
      → q.0 ≡ none
      → ((fetched key ts later (some (ok r)) q).0 ≡ ok r)
        × ((lookup key later (fetched key ts later (some (ok r)) q).1).0 ≡ some r)
        × ((fetched key ts later none q).0 ≡ err key_error)
  unfolding fetched
  fetched_miss key ts later r (none, c) h = (refl, lookup-set_now key r ts later c, refl)
  fetched_miss key ts later r (some s, c) h = cc

  fetched_hit :
      (key : String) (ts : List String) (later : ℕ) (s : R) (fetch : Option (Result CacheError R))
      (q : Option R × QueryCache R)
      → q.0 ≡ some s
      → fetched key ts later fetch q ≡ (ok s, q.1)
  unfolding fetched
  fetched_hit key ts later s fetch (none, c) h = cc
  fetched_hit key ts later s fetch (some s', c) h = cc

  -- A call of `get` whose lookup finds nothing returns what `fetch_fn` returns and stores it, so that
  -- a lookup at once finds it; it is KeyError without a `fetch_fn`.
  get_result_miss :
      (key : String) (ts : List String) (now later : ℕ) (c : QueryCache R) (r : R)
      → (lookup key now c).0 ≡ none
      → ((get_result key ts now later (some (ok r)) c).0 ≡ ok r)
        × ((lookup key later (get_result key ts now later (some (ok r)) c).1).0 ≡ some r)
        × ((get_result key ts now later none c).0 ≡ err key_error)
  unfolding get_result
  get_result_miss key ts now later c r h = fetched_miss key ts later r (lookup key now c) h

  -- A call of `get` whose lookup finds a result returns it whatever `fetch_fn` would do, and stores
  -- nothing.
  get_result_hit :
      (key : String) (ts : List String) (now later : ℕ) (c : QueryCache R) (s : R)
      (fetch : Option (Result CacheError R))
      → (lookup key now c).0 ≡ some s
      → get_result key ts now later fetch c ≡ (ok s, (lookup key now c).1)
  unfolding get_result
  get_result_hit key ts now later c s fetch h =
      fetched_hit key ts later s fetch (lookup key now c) h
