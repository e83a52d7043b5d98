-- ===== src/Cache/Recency.antt =====
-- The order in which python/vedadb/cache.py evicts: an entry that was just read is the last to go.
use vedadb_driver.Base.{
  ℕ, suc, ◌+◌, ◌<◌, ◌≤◌, ◌≡◌, refl, sym, ◌∙◌, false, String, List, [], ◌∷◌, ◌++◌, Option, none,
  some, arith, Bool-cases, if◌then◌else◌, inl, inr, length, All,
}
use vedadb_driver.Base.Dict.{
  string_eq, Dict, get, put, remove, get-put, get-remove, beq_refl, length-put,
}
use vedadb_driver.Cache.{
  TableIndex, Entry, QueryCache, unindex_entry, evict, set, is_fresh, move_to_end, lookup_found,
  lookup, Event, stored, step, run,
}
use vedadb_driver.Cache.Invariant.{get-move_to_end}

module _ {R : Type 0} where
  -- The number of entries that are evicted only after that of `k`.
  behind : String → Dict String (Entry R) → ℕ
  behind k [] = 0
  behind k ((j, e) ∷ d) = if string_eq.beq j k then length d else behind k d

  evict-keeps :
      (m : ℕ) (k : String) (e : Entry R) (d : Dict String (Entry R)) (ix : TableIndex) (n : ℕ)
      → get k d ≡ some e
      → suc (suc (behind k d)) ≤ m
      → (get k (evict m d ix n).0 ≡ some e) × (behind k (evict m d ix n).0 ≡ behind k d)
  unfolding behind evict get
  evict-keeps m k e [] ix n g h = cc
  evict-keeps m k e ((j, v) ∷ d) ix n g h = elim (Bool-cases (string_eq.beq j k)) [
    | inl p ↦ ground (arith, p, g, h)
    | inr p ↦
        let later = evict-keeps m k e d (unindex_entry j v.tables ix) (suc n) in
        ground (arith, p, g, h, later)
  ]

  behind-put :
      (j k : String) (v : Entry R) (d : Dict String (Entry R))
      → string_eq.beq j k ≡ false
      → behind k (put j v d) ≤ suc (behind k d)
  unfolding behind put
  behind-put j k v [] h = ground (arith, h)
  behind-put j k v ((i, w) ∷ d) h = ground (
    arith,
    h,
    behind-put j k v d h,
    length-put j v d,
    string_eq.beq_iff i j,
    string_eq.beq_iff i k,
    string_eq.beq_iff j k,
  )

  behind-append :
      (k : String) (e : Entry R) (d : Dict String (Entry R))
      → get k d ≡ none
      → behind k (d ++ ((k, e) ∷ [])) ≡ 0
  unfolding behind get
  behind-append k e [] h = rw (beq_refl k)
  behind-append k e ((i, w) ∷ d) h = ground (arith, h, behind-append k e d)

  set-keeps :
      (j k : String) (r : R) (ts : List String) (now : ℕ) (e : Entry R) (c : QueryCache R)
      → string_eq.beq j k ≡ false
      → get k c.cache ≡ some e
      → suc (suc (behind k c.cache)) ≤ c.max_size
      → (get k (set j r ts now c).cache ≡ some e)
        × (behind k (set j r ts now c).cache ≤ suc (behind k c.cache))
        × ((set j r ts now c).max_size ≡ c.max_size)
  unfolding set
  set-keeps j k r ts now e c n g h =
      let left = evict c.max_size c.cache c.table_index c.evictions in
      let v : Entry R = record { result = r; created_at = now; tables = ts } in
      let (g', b) = evict-keeps c.max_size k e c.cache c.table_index c.evictions g h in
      (get-put j k v left.0 ∙ rw n g', omega (arith, b, behind-put j k v left.0 n), refl)

  -- Calls of `set`, each with its key, result, tables and time.
  abbrev pub stores : List (String × R × List String × ℕ) → List (Event R)
  stores [] = []
  stores ((key, r, ts, now) ∷ es) = stored key r ts now ∷ stores es

  abbrev pub IsOther : String → String × R × List String × ℕ → Type 0
  IsOther k (key, r, ts, now) = string_eq.beq key k ≡ false

  stores-keep :
      (k : String) (e : Entry R) (es : List (String × R × List String × ℕ)) (c : QueryCache R)
      → All (IsOther k) es
      → get k c.cache ≡ some e
      → suc (length es) + behind k c.cache ≤ c.max_size
      → get k (run c (stores es)).cache ≡ some e
  unfolding run step
  stores-keep k e [] c others g h = g
  stores-keep k e ((j, r, ts, now) ∷ es) c others g h =
      let (g', b, m) = set-keeps j k r ts now e c others.0 g (omega (arith, h)) in
      stores-keep k e es (set j r ts now c) others.1 g' (omega (arith, b, m, h))

  hit-behind :
      (k : String) (now : ℕ) (c : QueryCache R) (r : R) (o : Option (Entry R))
      → get k c.cache ≡ o
      → (lookup_found k now c o).0 ≡ some r
      → (get k (lookup_found k now c o).1.cache ≡ o)
        × (behind k (lookup_found k now c o).1.cache ≡ 0)
        × ((lookup_found k now c o).1.max_size ≡ c.max_size)
        × ((e : Entry R) × (o ≡ some e))
  unfolding lookup_found move_to_end
  hit-behind k now c r none g h = cc
  hit-behind k now c r (some e) g h = elim (Bool-cases (is_fresh c e now)) [
    | inl f ↦ rw f (
      get-move_to_end k k e c.cache g ∙ g,
      behind-append k e (remove k c.cache) (get-remove k k c.cache ∙ rw (beq_refl k)),
      refl,
      (e, refl),
    )
    | inr f ↦ ground (arith, h, f)
  ]

  -- An entry that a lookup found is still in the cache, as it was, after fewer calls of `set` with
  -- other keys than the cache has places.
  pub recent-kept :
      (k : String) (now : ℕ) (c : QueryCache R) (r : R) (es : List (String × R × List String × ℕ))
      → (lookup k now c).0 ≡ some r
      → All (IsOther k) es
      → length es < c.max_size
      → get k (run (lookup k now c).1 (stores es)).cache ≡ get k c.cache
  unfolding lookup
  recent-kept k now c r es h others few =
      let (g, b, m, (e, there)) = hit-behind k now c r (get k c.cache) refl h in
      stores-keep k e es (lookup k now c).1 others (g ∙ there) (omega (arith, b, m, few))
      ∙ sym there
