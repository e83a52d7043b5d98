-- ===== src/Migrations/Rollback.antt =====
-- The order in which `rollback` and `rollback_to` of python/vedadb/migrations.py revert.
use vedadb_driver.Base.{
  ℕ, suc, ◌≤◌, ◌≡◌, refl, sym, ◌∙◌, append_assoc, append-nil, Option, none, some, List, [], ◌∷◌,
  ◌++◌, All, ok, err, take, drop, take-append-drop, All-take,
}
use vedadb_driver.Migrations.{
  MigrationRecord, Migration, Database, Outcome, reversed_onto, reversed, find_migration, returned,
  and_then, downgraded, revert, get_applied_migrations, rollback_loop, rollback,
}
use vedadb_driver.Migrations.Effects.{undone_all, Leaves-ok, rollback_loop-Leaves}
use mathlib.Core.Path.{subst}

-- From the highest version to the lowest.
abbrev pub Descending : List MigrationRecord → Type 0
Descending [] = Unit {0}
Descending (r ∷ rs) = All (λ k. suc k.version ≤ r.version) rs × Descending rs

abbrev Ascending : List MigrationRecord → Type 0
Ascending [] = Unit {0}
Ascending (r ∷ rs) = All (λ k. suc r.version ≤ k.version) rs × Ascending rs

-- Each of the first is less than each of the others.
abbrev pub Before : List MigrationRecord → List MigrationRecord → Type 0
Before xs ys = All (λ r. All (λ k. suc r.version ≤ k.version) ys) xs

onto-Ascending :
    (acc rs : List MigrationRecord)
    → Ascending acc
    → Descending rs
    → All (λ k. All (λ r. suc k.version ≤ r.version) acc) rs
    → Ascending (reversed_onto acc rs)
unfolding reversed_onto
onto-Ascending acc [] a d b = a
onto-Ascending acc (r ∷ rs) a d b = onto-Ascending (r ∷ acc) rs (b.0, a) d.1 (both rs d.0 b.1)
  where
    both :
        (ks : List MigrationRecord)
        → All (λ k. suc k.version ≤ r.version) ks
        → All (λ k. All (λ r. suc k.version ≤ r.version) acc) ks
        → All (λ k. All (λ r. suc k.version ≤ r.version) (r ∷ acc)) ks
    both [] p q = tt
    both (k ∷ ks) p q = ((p.0, q.0), both ks p.1 q.1)

no_bounds :
    (rs : List MigrationRecord)
    → All (λ k. All (λ (r : MigrationRecord). suc k.version ≤ r.version) []) rs
no_bounds [] = tt
no_bounds (r ∷ rs) = (tt, no_bounds rs)

All-right :
    (P : MigrationRecord → Type 0) (xs ys : List MigrationRecord) → All P (xs ++ ys) → All P ys
All-right P [] ys a = a
All-right P (x ∷ xs) ys a = All-right P xs ys a.1

split-Before : (xs ys : List MigrationRecord) → Ascending (xs ++ ys) → Before xs ys
split-Before [] ys a = tt
split-Before (x ∷ xs) ys a =
    (All-right (λ k. suc x.version ≤ k.version) xs ys a.0, split-Before xs ys a.1)

onto-All :
    (P : MigrationRecord → Type 0) (acc rs : List MigrationRecord)
    → All P acc
    → All P rs
    → All P (reversed_onto acc rs)
unfolding reversed_onto
onto-All P acc [] a b = a
onto-All P acc (r ∷ rs) a b = onto-All P (r ∷ acc) rs (b.0, a) b.1

-- The list from its end.
abbrev pub lowest_first : List MigrationRecord → List MigrationRecord
lowest_first [] = []
lowest_first (r ∷ rs) = lowest_first rs ++ (r ∷ [])

reversed_onto-lowest_first :
    (acc rs : List MigrationRecord) → reversed_onto acc rs ≡ lowest_first rs ++ acc
unfolding reversed_onto
reversed_onto-lowest_first acc [] = refl
reversed_onto-lowest_first acc (r ∷ rs) =
    reversed_onto-lowest_first (r ∷ acc) rs ∙ sym (append_assoc (lowest_first rs) (r ∷ []) acc)

reversed-lowest_first : (rs : List MigrationRecord) → reversed rs ≡ lowest_first rs
reversed-lowest_first rs = reversed_onto-lowest_first [] rs ∙ append-nil (lowest_first rs)

module _ {D E : Type 0} ⦃db : Database D E⦄ where
  -- The migration is known, and its downgrade does not raise.
  abbrev pub Reverts : List (Migration D E) → MigrationRecord → Type 0
  Reverts ms r =
      (m : Migration D E) × (find_migration r.version ms ≡ some m)
      × ((d : D) → (m.downgrade d).1 ≡ none)

  and_then-returns :
      (r : MigrationRecord) (rs : List MigrationRecord) (x : D × Option E) (rest : D → Outcome D E)
      → x.1 ≡ none
      → ((d : D) → (rest d).1 ≡ ok rs)
      → (and_then r x rest).1 ≡ ok (r ∷ rs)
  and_then-returns r rs (d, some e) rest n h = cc
  and_then-returns r rs (d, none) rest n h = returned-ok (rest d) (h d)
    where
      returned-ok : (o : Outcome D E) → o.1 ≡ ok rs → (returned r o).1 ≡ ok (r ∷ rs)
      returned-ok (d, ok ks) e = cc
      returned-ok (d, err x) e = cc

  downgraded-returns :
      (r : MigrationRecord) (rs : List MigrationRecord) (x : D × Option E) (rest : D → Outcome D E)
      → ((d : D) → (db.delete r.version d).1 ≡ none)
      → x.1 ≡ none
      → ((d : D) → (rest d).1 ≡ ok rs)
      → (downgraded r x rest).1 ≡ ok (r ∷ rs)
  downgraded-returns r rs (d, some e) rest del n h = cc
  downgraded-returns r rs (d, none) rest del n h =
      and_then-returns r rs (db.delete r.version d) rest (del d) h

  loop-returns :
      (ms : List (Migration D E)) (rs : List MigrationRecord)
      → ((v : ℕ) (d : D) → (db.delete v d).1 ≡ none)
      → All (Reverts ms) rs
      → (d : D) → (rollback_loop ms rs d).1 ≡ ok rs
  unfolding rollback_loop
  loop-returns ms [] del a d = refl
  loop-returns ms (r ∷ rs) del a d =
      let m = a.0.0 in
      subst (λ o. (revert o r d (rollback_loop ms rs)).1 ≡ ok (r ∷ rs)) (sym a.0.1)
        (downgraded-returns r rs (m.downgrade d) (rollback_loop ms rs) (del r.version) (a.0.2 d)
          (loop-returns ms rs del a.1))

  -- With the table in descending order of versions, as its query asks, `rollback` reverts and returns
  -- the records of the lowest versions, from the lowest on: each is below all those that stay. It
  -- leaves the database as their downgrades do, each followed by the deletion of its record. The
  -- migrations are known, and neither a downgrade nor a statement that deletes a record raises.
  pub rollback_lowest :
      (ms : List (Migration D E)) (steps : ℕ) (d : D) (rs : List MigrationRecord)
      → db.select_migrations d ≡ ok rs
      → Descending rs
      → ((v : ℕ) (d : D) → (db.delete v d).1 ≡ none)
      → All (Reverts ms) rs
      → ((rollback steps ms d).1 ≡ ok (take steps (lowest_first rs)))
        × Before (take steps (lowest_first rs)) (drop steps (lowest_first rs))
        × ((rollback steps ms d).0 ≡ undone_all ms (take steps (lowest_first rs)) d)
  unfolding rollback get_applied_migrations
  rollback_lowest ms steps d rs e desc del a =
      let q = reversed-lowest_first rs in
      let asc : Ascending (lowest_first rs) =
        subst Ascending q (onto-Ascending [] rs tt desc (no_bounds rs)) in
      let chosen = take steps (lowest_first rs) in
      let known : All (Reverts ms) (lowest_first rs) =
        subst (All (Reverts ms)) q (onto-All (Reverts ms) [] rs tt a) in
      let returns : (rollback_loop ms chosen d).1 ≡ ok chosen =
        loop-returns ms chosen del (All-take (Reverts ms) steps (lowest_first rs) known) d in
      (
        rw (e, q) returns,
        split-Before chosen (drop steps (lowest_first rs))
            (subst Ascending (sym (take-append-drop steps (lowest_first rs))) asc),
        rw (e, q)
            (Leaves-ok _ (rollback_loop ms chosen d) chosen returns
              (rollback_loop-Leaves ms chosen d)),
      )
