-- ===== src/Cache/Invariant.antt =====
-- The invariant of python/vedadb/cache.py: the bound on the size, and an index that names every entry
-- under each of its tables.
use vedadb_driver.Base.{
  ℕ, suc, ◌<◌, ◌≤◌, ◌≡◌, refl, sym, ◌∙◌, true, String, List, [], ◌∷◌, Option, none, some, arith,
  Bool-cases, inl, inr, length, length-append, leb, ok,
}
use vedadb_driver.Base.Dict.{
  string_eq, Dict, get, remove, get-put, get-remove, beq_refl, Distinct, put-Distinct,
  remove-Distinct, length-put, length-remove, length-remove_lt, get-append_last,
  append_last-Distinct,
}
use vedadb_driver.Cache.{
  has, TableIndex, keys_of, unindex_entry, Entry, QueryCache, new, remove_found, remove_entry,
  evict, set, move_to_end, is_fresh, lookup_found, lookup, remove_all, invalidate, Event, looked_up,
  stored, invalidated, step, run,
}
use vedadb_driver.Cache.Index.{has-index_entry, has-unindex_entry}

module _ {R : Type 0} where
  -- Every entry stands in the index under each of its tables.
  abbrev pub IsIndexed : Dict String (Entry R) → TableIndex → Type 0
  IsIndexed d ix =
      (k t : String) (e : Entry R)
      → get k d ≡ some e
      → has t e.tables ≡ true
      → has k (keys_of t ix) ≡ true

  abbrev pub IsValid : ℕ → QueryCache R → Type 0
  IsValid m c =
      ((0 < m) × (c.max_size ≡ m))
      × (length c.cache ≤ m)
      × Distinct c.cache
      × IsIndexed c.cache c.table_index

  remove-IsIndexed :
      (key : String) (ts : List String) (d : Dict String (Entry R)) (ix : TableIndex)
      → IsIndexed d ix
      → IsIndexed (remove key d) (unindex_entry key ts ix)
  remove-IsIndexed key ts d ix h k t e g m =
      ground (arith, get-remove key k d, has-unindex_entry k t key ts ix, h k t e, g, m)

  remove_found-IsValid :
      {m : ℕ} (key : String) (c : QueryCache R) (o : Option (Entry R))
      → IsValid m c
      → IsValid m (remove_found key c o)
  remove_found-IsValid key c none v = v
  remove_found-IsValid key c (some e) (p, l, D, h) = (
    p,
    omega (arith, l, length-remove key c.cache),
    remove-Distinct key c.cache D,
    remove-IsIndexed key e.tables c.cache c.table_index h,
  )

  pub remove_entry-IsValid :
      {m : ℕ} (key : String) (c : QueryCache R) → IsValid m c → IsValid m (remove_entry key c)
  unfolding remove_entry
  remove_entry-IsValid key c v = remove_found-IsValid key c (get key c.cache) v

  tail-IsIndexed :
      (k : String) (e : Entry R) (d : Dict String (Entry R)) (ix : TableIndex)
      → get k d ≡ none
      → IsIndexed ((k, e) ∷ d) ix
      → IsIndexed d (unindex_entry k e.tables ix)
  unfolding get
  tail-IsIndexed k e d ix n h j t e' g m =
      ground (arith, string_eq.beq_iff k j, has-unindex_entry j t k e.tables ix, h j t e', g, m, n)

  -- What the loop of `set` leaves.
  abbrev Evicted : ℕ → Dict String (Entry R) → Dict String (Entry R) × TableIndex × ℕ → Type 0
  Evicted max_size d (d', ix', n') =
      (0 < max_size → length d' < max_size)
      × Distinct d'
      × IsIndexed d' ix'
      × ((k : String) (e : Entry R) → get k d' ≡ some e → get k d ≡ some e)

  pub evict-Evicted :
      (max_size : ℕ) (d : Dict String (Entry R)) (ix : TableIndex) (n : ℕ)
      → Distinct d
      → IsIndexed d ix
      → Evicted max_size d (evict max_size d ix n)
  unfolding evict get
  evict-Evicted max_size [] ix n D h = (λ p. p, tt, h, λ k e g. g)
  evict-Evicted max_size ((k, e) ∷ d) ix n D h =
      let (few, D', h', sub) =
        evict-Evicted max_size d (unindex_entry k e.tables ix) (suc n) D.1
          (tail-IsIndexed k e d ix D.0 h) in
      elim (Bool-cases (leb max_size (suc (length d)))) [
        | inl full ↦
            rw full (few, D', h', λ j e' g. ground (arith, string_eq.beq_iff k j, D.0, sub j e' g))
        | inr room ↦ rw room (λ p. ground (arith, room), D, h, λ j e' g. g)
      ]

  set-IsValid :
      {m : ℕ} (key : String) (r : R) (ts : List String) (now : ℕ) (c : QueryCache R)
      → IsValid m c
      → IsValid m (set key r ts now c)
  unfolding set
  set-IsValid key r ts now c (p, l, D, h) =
      let left = evict c.max_size c.cache c.table_index c.evictions in
      let d = left.0 in
      let ix = left.1 in
      let e : Entry R = record { result = r; created_at = now; tables = ts } in
      let (room, D', h', _) = evict-Evicted c.max_size c.cache c.table_index c.evictions D h in
      (
        p,
        omega (arith, p, room (omega (arith, p)), length-put key e d),
        put-Distinct key e d D',
        λ k t e' g m.
            ground (arith, get-put key k e d, has-index_entry k t key ts ix, h' k t e', g, m),
      )

  -- An entry that moves to the end keeps its place in the index.
  pub get-move_to_end :
      (key j : String) (e : Entry R) (d : Dict String (Entry R))
      → get key d ≡ some e
      → get j (move_to_end key e d) ≡ get j d
  unfolding move_to_end
  get-move_to_end key j e d g = ground (
    arith,
    get-append_last key j e (remove key d),
    get-remove key key d,
    get-remove key j d,
    beq_refl key,
    string_eq.beq_iff key j,
    g,
  )

  move_to_end-Distinct :
      (key : String) (e : Entry R) (d : Dict String (Entry R))
      → Distinct d
      → Distinct (move_to_end key e d)
  unfolding move_to_end
  move_to_end-Distinct key e d D =
      append_last-Distinct key e (remove key d) (get-remove key key d ∙ rw (beq_refl key))
        (remove-Distinct key d D)

  length-move_to_end :
      (key : String) (e : Entry R) (d : Dict String (Entry R))
      → get key d ≡ some e
      → length (move_to_end key e d) ≤ length d
  unfolding move_to_end
  length-move_to_end key e d g =
      omega (arith, length-append (remove key d) ((key, e) ∷ []), length-remove_lt key e d g)

  lookup_found-IsValid :
      {m : ℕ} (key : String) (now : ℕ) (c : QueryCache R)
      → IsValid m c
      → (o : Option (Entry R)) → get key c.cache ≡ o
      → IsValid m (lookup_found key now c o).1
  unfolding lookup_found
  lookup_found-IsValid key now c v none g = v
  lookup_found-IsValid key now c (p, l, D, h) (some e) g = elim (Bool-cases (is_fresh c e now)) [
    | inl f ↦ rw f (
      p,
      omega (arith, l, length-move_to_end key e c.cache g),
      move_to_end-Distinct key e c.cache D,
      λ k t e' g' m. h k t e' (sym (get-move_to_end key k e c.cache g) ∙ g') m,
    )
    | inr f ↦ rw f (remove_entry-IsValid key c (p, l, D, h))
  ]

  lookup-IsValid :
      {m : ℕ} (key : String) (now : ℕ) (c : QueryCache R)
      → IsValid m c
      → IsValid m (lookup key now c).1
  unfolding lookup lookup_found
  lookup-IsValid key now c v = lookup_found-IsValid key now c v (get key c.cache) refl

  remove_all-IsValid :
      {m : ℕ} (ks : List String) (c : QueryCache R) → IsValid m c → IsValid m (remove_all ks c)
  unfolding remove_all
  remove_all-IsValid [] c v = v
  remove_all-IsValid (k ∷ ks) c v =
      remove_all-IsValid ks (remove_entry k c) (remove_entry-IsValid k c v)

  invalidate-IsValid :
      {m : ℕ} (table : Option String) (c : QueryCache R)
      → IsValid m c
      → IsValid m (invalidate table c).1
  unfolding invalidate get
  invalidate-IsValid none c (p, l, D, h) = (p, omega arith, tt, λ k t e g m. cc)
  invalidate-IsValid (some table) c v = remove_all-IsValid (keys_of table c.table_index) c v

  step-IsValid : {m : ℕ} (c : QueryCache R) (e : Event R) → IsValid m c → IsValid m (step c e)
  unfolding step
  step-IsValid c (looked_up key now) v = lookup-IsValid key now c v
  step-IsValid c (stored key r ts now) v = set-IsValid key r ts now c v
  step-IsValid c (invalidated table) v = invalidate-IsValid table c v

  run-IsValid_from :
      {m : ℕ} (c : QueryCache R) (es : List (Event R)) → IsValid m c → IsValid m (run c es)
  unfolding run
  run-IsValid_from c [] v = v
  run-IsValid_from c (e ∷ es) v = run-IsValid_from (step c e) es (step-IsValid c e v)

  new-IsValid : (max_size ttl : ℕ) (c : QueryCache R) → new max_size ttl ≡ ok c → IsValid max_size c
  unfolding new get
  new-IsValid max_size ttl c h =
      let none_there : c.cache ≡ [] = ground (arith, h) in
      (
        ground (arith, h),
        rw none_there (omega arith),
        rw none_there tt,
        rw none_there (λ k t e g m. cc),
      )

  -- Whatever calls are made on a new cache, it never holds more than `max_size` entries, no key
  -- stands twice in it, and every entry stands in the index under each of its tables.
  pub run-IsIndexed :
      (max_size ttl : ℕ) (c : QueryCache R) (es : List (Event R))
      → new max_size ttl ≡ ok c
      → (length (run c es).cache ≤ max_size)
        × Distinct (run c es).cache
        × IsIndexed (run c es).cache (run c es).table_index
  run-IsIndexed max_size ttl c es h =
      let (_, few, distinct, indexed) = run-IsValid_from c es (new-IsValid max_size ttl c h) in
      (few, distinct, indexed)
