-- ===== src/Migrations/Sorting.antt =====
-- The migrations of python/vedadb/migrations.py in the order of their versions, as `__init__` sorts them.
use vedadb_driver.Base.{ℕ, suc, ◌≤◌, ◌≢◌, List, [], ◌∷◌, arith, All, leb, if_cases}
use vedadb_driver.Migrations.{Migration, insert_by, sorted, versions}
use vedadb_driver.Migrations.Applied.{Ascending}

-- No version twice.
abbrev pub Unique : List ℕ → Type 0
Unique [] = Unit {0}
Unique (v ∷ vs) = All (λ w. w ≢ v) vs × Unique vs

above-weaken : (v u : ℕ) (vs : List ℕ) → v ≤ u → All (λ w. suc u ≤ w) vs → All (λ w. suc v ≤ w) vs
above-weaken v u [] l a = tt
above-weaken v u (w ∷ vs) l a = (omega (arith, l, a.0), above-weaken v u vs l a.1)

-- The last list is the middle one with the element put in somewhere.
pub data Into {A : Type 0} (x : A) : List A → List A → Type 0 where
  here : (ys : List A) → Into x ys (x ∷ ys)
  there : (y : A) {ys zs : List A} → Into x ys zs → Into x (y ∷ ys) (y ∷ zs)

-- The same elements in another order.
pub data Permutes {A : Type 0} : List A → List A → Type 0 where
  none_left : Permutes [] []
  put_in : {x : A} {xs ys zs : List A} → Permutes xs ys → Into x ys zs → Permutes (x ∷ xs) zs

module _ {D E : Type 0} where
  insert_by-Into : (m : Migration D E) (ms : List (Migration D E)) → Into m ms (insert_by m ms)
  unfolding insert_by
  insert_by-Into m [] = here []
  insert_by-Into m (n ∷ ns) =
      if_cases (Into m (n ∷ ns)) (leb m.version n.version) (λ h. here (n ∷ ns))
        (λ h. there n (insert_by-Into m ns))

  pub sorted-Permutes : (ms : List (Migration D E)) → Permutes ms (sorted ms)
  unfolding sorted
  sorted-Permutes [] = none_left
  sorted-Permutes (m ∷ ms) = put_in (sorted-Permutes ms) (insert_by-Into m (sorted ms))

  insert_by-All :
      (P : ℕ → Type 0) (m : Migration D E) (ms : List (Migration D E))
      → P m.version
      → All P (versions ms)
      → All P (versions (insert_by m ms))
  unfolding insert_by versions
  insert_by-All P m [] l a = (l, tt)
  insert_by-All P m (n ∷ ns) l a =
      if_cases (λ (ms : List (Migration D E)). All P (versions ms)) (leb m.version n.version)
        (λ h. (l, a)) (λ h. (a.0, insert_by-All P m ns l a.1))

  insert_by-Ascending :
      (m : Migration D E) (ms : List (Migration D E))
      → All (λ w. w ≢ m.version) (versions ms)
      → Ascending (versions ms)
      → Ascending (versions (insert_by m ms))
  unfolding insert_by versions
  insert_by-Ascending m [] n a = (tt, tt)
  insert_by-Ascending m (k ∷ ks) n a =
      if_cases (λ (ms : List (Migration D E)). Ascending (versions ms)) (leb m.version k.version)
        (λ h.
          let l : suc m.version ≤ k.version = ground (arith, h, n.0) in
          ((l, above-weaken m.version k.version (versions ks) (omega (arith, l)) a.0), a))
        (λ h. (
          insert_by-All (λ w. suc k.version ≤ w) m ks (ground (arith, h, n.0)) a.0,
          insert_by-Ascending m ks n.1 a.1,
        ))

  sorted-All :
      (P : ℕ → Type 0) (ms : List (Migration D E))
      → All P (versions ms)
      → All P (versions (sorted ms))
  unfolding sorted versions
  sorted-All P [] a = tt
  sorted-All P (m ∷ ms) a = insert_by-All P m (sorted ms) a.0 (sorted-All P ms a.1)

  pub sorted-Ascending :
      (ms : List (Migration D E)) → Unique (versions ms) → Ascending (versions (sorted ms))
  unfolding sorted versions
  sorted-Ascending [] u = tt
  sorted-Ascending (m ∷ ms) u =
      insert_by-Ascending m (sorted ms) (sorted-All (λ w. w ≢ m.version) ms u.0)
        (sorted-Ascending ms u.1)

  insert_by-each :
      (P : Migration D E → Type 0) (m : Migration D E) (ms : List (Migration D E))
      → P m
      → All P ms
      → All P (insert_by m ms)
  unfolding insert_by
  insert_by-each P m [] l a = (l, tt)
  insert_by-each P m (n ∷ ns) l a =
      if_cases (All P) (leb m.version n.version) (λ h. (l, a))
        (λ h. (a.0, insert_by-each P m ns l a.1))

  pub sorted-each :
      (P : Migration D E → Type 0) (ms : List (Migration D E)) → All P ms → All P (sorted ms)
  unfolding sorted
  sorted-each P [] a = tt
  sorted-each P (m ∷ ms) a = insert_by-each P m (sorted ms) a.0 (sorted-each P ms a.1)
