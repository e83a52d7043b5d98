-- ===== src/Migrations/Dependencies.antt =====
-- Dependencies on migrations of the same call of migrate, of python/vedadb/migrations.py.
use vedadb_driver.Base.{
  ℕ, ◌≡◌, sym, ◌∙◌, true, false, Option, none, some, List, [], ◌∷◌, ◌++◌, arith, if_cases, ok, err,
}
use vedadb_driver.Base.Dict.{nat_eq}
use vedadb_driver.Base.Sets.{has}
use vedadb_driver.Migrations.{
  MigrationRecord, Migration, Database, Outcome, missing, and_then, returned, upgraded, record_of,
  apply, migrate_loop, migrate_from, migrate,
}
use vedadb_driver.Migrations.Applied.{Tracking}
use mathlib.Core.Path.{subst}
use vedadb_driver.Migrations.Runs.{true_is_not, get_applied_versions-rows, already}

module _ {D E : Type 0} ⦃db : Database D E⦄ where
  -- An exception that is raised in a round leaves the loop.
  abbrev pub IsErr : Outcome D E → Type 0
  IsErr (d, ok rs) = ⊥
  IsErr (d, err e) = Unit {0}

  returned-IsErr : (r : MigrationRecord) (o : Outcome D E) → IsErr o → IsErr (returned r o)
  returned-IsErr r (d, ok rs) h = absurd h
  returned-IsErr r (d, err e) h = tt

  and_then-IsErr :
      (r : MigrationRecord) (x : D × Option E) (rest : D → Outcome D E)
      → ((d : D) → IsErr (rest d))
      → IsErr (and_then r x rest)
  and_then-IsErr r (d, none) rest h = returned-IsErr r (rest d) (h d)
  and_then-IsErr r (d, some e) rest h = tt

  upgraded-IsErr :
      (m : Migration D E) (x : D × Option E) (rest : D → Outcome D E)
      → ((d : D) → IsErr (rest d))
      → IsErr (upgraded m x rest)
  upgraded-IsErr m (d, none) rest h =
      and_then-IsErr (record_of m (db.time d)) (db.insert (record_of m (db.time d)) d) rest h
  upgraded-IsErr m (d, some e) rest h = tt

  apply-IsErr :
      (dep : Option ℕ) (m : Migration D E) (d : D) (rest : D → Outcome D E)
      → ((d : D) → IsErr (rest d))
      → IsErr (apply dep m d rest)
  apply-IsErr none m d rest h = upgraded-IsErr m (m.upgrade d) rest h
  apply-IsErr (some dep) m d rest h = tt

  missing-IsErr :
      (applied deps : List ℕ) (dep : ℕ) (m : Migration D E) (d : D) (rest : D → Outcome D E)
      → has dep deps ≡ true
      → has dep applied ≡ false
      → IsErr (apply (missing deps applied) m d rest)
  unfolding has missing
  missing-IsErr applied [] dep m d rest i n = cc
  missing-IsErr applied (v ∷ vs) dep m d rest i n =
      if_cases (λ x. IsErr (apply x m d rest)) (has v applied)
        (λ h. missing-IsErr applied vs dep m d rest (ground (arith, h, i, n)) n) (λ h. tt)

  loop-IsErr :
      (applied : List ℕ) (before : List (Migration D E)) (m : Migration D E)
      (after : List (Migration D E)) (d : D) (dep : ℕ)
      → has m.version applied ≡ false
      → has dep m.dependencies ≡ true
      → has dep applied ≡ false
      → IsErr (migrate_loop applied none (before ++ (m ∷ after)) d)
  unfolding migrate_loop
  loop-IsErr applied [] m after d dep p i n =
      if_cases IsErr (has m.version applied) (λ h. absurd (true_is_not (sym h ∙ p)))
        (λ h. missing-IsErr applied m.dependencies dep m d (migrate_loop applied none after) i n)
  loop-IsErr applied (k ∷ ks) m after d dep p i n =
      let rest = migrate_loop applied none (ks ++ (m ∷ after)) in
      if_cases IsErr (has k.version applied) (λ h. loop-IsErr applied ks m after d dep p i n)
        (λ h.
          apply-IsErr (missing k.dependencies applied) k d rest
            (λ d'. loop-IsErr applied ks m after d' dep p i n))

  -- A call of `migrate` without a target raises if a migration that is not applied has a dependency that
  -- the table did not have before the call, also where that dependency comes before it in the same call.
  pub migrate_same_run :
      (t : Tracking D E) (before : List (Migration D E)) (m : Migration D E)
      (after : List (Migration D E)) (d : D) (dep : ℕ)
      → has m.version (already t d) ≡ false
      → has dep m.dependencies ≡ true
      → has dep (already t d) ≡ false
      → IsErr (migrate none (before ++ (m ∷ after)) d)
  unfolding migrate
  migrate_same_run t before m after d dep p i n =
      subst (λ r. IsErr (migrate_from r none (before ++ (m ∷ after)) d))
        (sym (get_applied_versions-rows t d)) (loop-IsErr (already t d) before m after d dep p i n)
