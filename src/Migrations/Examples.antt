-- ===== src/Migrations/Examples.antt =====
-- Runs of the migrations on a database that has its tracking table and a list of the changes made.
use vedadb_driver.Base.{
  ℕ, ◌≡◌, refl, Bool, true, false, Option, none, some, String, List, [], ◌∷◌, ◌++◌, arith, ◌==◌,
  if◌then◌else◌, ok, take, drop,
}
use vedadb_driver.Base.Dict.{nat_eq}
use vedadb_driver.Base.Sets.{has}
use vedadb_driver.Migrations.{
  MigrationRecord, Migration, Database, versions, sorted, find_migration, insert_by, migrate,
  migrate_loop, rollback, rollback_to, rollback_loop, get_applied_migrations, later_than,
  difference, sorted_versions, max_or_zero, reversed, reversed_onto, missing, to_set,
  get_applied_versions,
}
use vedadb_driver.Migrations.Inspect.{status, is_at_latest}
use vedadb_driver.Migrations.Applied.{Tracking, record_versions, due, Ascending}
use vedadb_driver.Migrations.Effects.{upgraded_all, due_migrations, undone_all}
use vedadb_driver.Migrations.Sorting.{Permutes}
use vedadb_driver.Migrations.Runs.{Applies, already, migrate-Applies, migrate_again}
use vedadb_driver.Migrations.Dependencies.{IsErr, migrate_same_run}
use vedadb_driver.Migrations.Rollback.{Before, lowest_first, rollback_lowest}

abbrev Table : Type 0
Table = List MigrationRecord

without : ℕ → Table → Table
without v [] = []
without v (r ∷ rs) = let rest = without v rs in if r.version == v then rest else r ∷ rest

-- The table, and the changes to the schema: true for an upgrade, false for a downgrade.
abbrev Store : Type 0
Store = Table × List (Bool × String)

abbrev insert_into : MigrationRecord → Store → Store × Option String
insert_into r d =
    if has r.version (record_versions d.0)
    then (d, some "UNIQUE")
    else ((d.0 ++ (r ∷ []), d.1), none)

instance abbrev table_db : Database Store String
table_db = record {
  create_table = λ d. (d, none);
  select_versions = λ d. ok (record_versions d.0);
  select_migrations = λ d. ok (reversed d.0);
  insert = insert_into;
  delete = λ v d. ((without v d.0, d.1), none);
  is_query_error = λ e. true;
  time = λ d. 7;
}

insert_into-rows :
    (r : MigrationRecord) (d : Store)
    → has r.version (record_versions d.0) ≡ false
    → ((insert_into r d).1 ≡ none) × ((insert_into r d).0.0 ≡ d.0 ++ (r ∷ []))
insert_into-rows r d h = (rw h, rw h)

abbrev tracking : Tracking Store String
tracking = record {
  rows = λ d. d.0;
  select_versions-rows = λ d. refl;
  insert-rows = insert_into-rows;
}

abbrev step : ℕ → String → List ℕ → Migration Store String
step v n deps = record {
  version = v;
  name = n;
  dependencies = deps;
  upgrade = λ d. ((d.0, d.1 ++ ((true, n) ∷ [])), none);
  downgrade = λ d. ((d.0, d.1 ++ ((false, n) ∷ [])), none);
}

abbrev row : ℕ → String → MigrationRecord
row v n = record { version = v; name = n; applied_at = 7; checksum = "" }

abbrev users : Store
users = (row 1 "users" ∷ [], [])

-- Given in another order than that of their versions.
abbrev steps : List (Migration Store String)
steps = step 3 "email" (1 ∷ []) ∷ step 1 "users" [] ∷ step 2 "posts" (1 ∷ []) ∷ []

migrate-Applies_example :
    Applies tracking users.0
      (due (already tracking users) none (versions (sorted steps)))
      (migrate none (sorted steps) users)
    × ((migrate none (sorted steps) users).0
        ≡ upgraded_all (due_migrations (already tracking users) none (sorted steps)) users)
    × Permutes steps (sorted steps)
    × Ascending (versions (sorted steps))
unfolding versions missing to_set
migrate-Applies_example =
    migrate-Applies tracking none steps users ((λ h. cc, (λ h. cc, tt)), ((λ h. cc, tt), (tt, tt)))
      (λ d. refl, (λ d. refl, (λ d. refl, tt)))
      ((refl, λ d. refl), ((refl, λ d. refl), ((refl, λ d. refl), tt)))

migrate_again_example :
    (migrate none (sorted steps) (migrate none (sorted steps) users).0
      ≡ ((migrate none (sorted steps) users).0, ok []))
    × (is_at_latest (sorted steps) (migrate none (sorted steps) users).0 ≡ ok true)
unfolding versions missing to_set
migrate_again_example =
    migrate_again tracking steps users ((λ h. cc, (λ h. cc, tt)), ((λ h. cc, tt), (tt, tt)))
      (λ d. refl, (λ d. refl, (λ d. refl, tt)))
      ((refl, λ d. refl), ((refl, λ d. refl), ((refl, λ d. refl), tt)))

-- The first of the two creates what the second needs.
migrate_same_run_example :
    IsErr (migrate none (step 1 "users" [] ∷ step 2 "posts" (1 ∷ []) ∷ []) ([], []))
unfolding has to_set
migrate_same_run_example =
    migrate_same_run tracking (step 1 "users" [] ∷ []) (step 2 "posts" (1 ∷ [])) [] ([], []) 1 refl
      refl refl

abbrev applied_three : Store
applied_three = (row 1 "users" ∷ row 2 "posts" ∷ row 3 "email" ∷ [], [])

rollback_lowest_example :
    ((rollback 1 steps applied_three).1 ≡ ok (take 1 (lowest_first (reversed applied_three.0))))
    × Before
        (take 1 (lowest_first (reversed applied_three.0)))
        (drop 1 (lowest_first (reversed applied_three.0)))
    × ((rollback 1 steps applied_three).0
        ≡ undone_all steps (take 1 (lowest_first (reversed applied_three.0))) applied_three)
unfolding reversed_onto find_migration
rollback_lowest_example =
    rollback_lowest steps 1 applied_three (reversed applied_three.0) refl
      ((omega arith, (omega arith, tt)), ((omega arith, tt), (tt, tt))) (λ v d. refl)
      (
        (step 3 "email" (1 ∷ []), refl, λ d. refl),
        ((step 2 "posts" (1 ∷ []), refl, λ d. refl), ((step 1 "users" [], refl, λ d. refl), tt)),
      )

-- It is the first migration that goes.
rollback_one :
    (rollback 1 steps applied_three).0 ≡ (row 2 "posts" ∷ row 3 "email" ∷ [], (false, "users") ∷ [])
unfolding rollback rollback_loop get_applied_migrations reversed_onto find_migration without
rollback_one = refl

rollback_to_two : (rollback_to 1 steps applied_three).1 ≡ ok (row 2 "posts" ∷ row 3 "email" ∷ [])
unfolding rollback_to rollback_loop get_applied_migrations reversed_onto later_than find_migration
rollback_to_two = refl

status-users :
    status steps users
    ≡ ok (record {
      current_version = 1;
      applied_count = 1;
      pending_count = 2;
      pending = 2 ∷ 3 ∷ [];
      applied = 1 ∷ [];
    })
unfolding status get_applied_versions sorted_versions difference versions to_set max_or_zero
status-users = refl

-- The two migrations that are due, in order: each is upgraded, and then recorded.
migrate_two :
    (migrate none (sorted steps) users).0
    ≡ (row 1 "users" ∷ row 2 "posts" ∷ row 3 "email" ∷ [], (true, "posts") ∷ (true, "email") ∷ [])
unfolding migrate migrate_loop get_applied_versions sorted insert_by missing to_set has
migrate_two = refl
