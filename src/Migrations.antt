-- ===== src/Migrations.antt =====
-- python/vedadb/migrations.py: schema migrations that are applied once, in the order of their versions.
-- The database is a state that the client's calls change; a call returns the state after it and the
-- exception that it raises, if any. The SQL statements on the tracking table are operations of it.
pub mod Dependencies
pub mod Inspect
pub mod Applied
pub mod Effects
pub mod Sorting
pub mod Runs
pub mod Rollback
mod Examples
use vedadb_driver.Base.{
  ℕ, Bool, true, false, Option, none, some, String, List, [], ◌∷◌, map, not, leb, ltb, ◌==◌,
  if◌then◌else◌, Result, ok, err, length, take,
}
use vedadb_driver.Base.Dict.{nat_eq}
use vedadb_driver.Base.Sets.{has, add}

pub record MigrationRecord : Type 0 where
  pub version : ℕ
  pub name : String
  pub applied_at : ℕ
  pub checksum : String

pub record Migration (D E : Type 0) : Type 0 where
  pub version : ℕ
  pub name : String
  pub dependencies : List ℕ
  pub upgrade : D → D × Option E
  pub downgrade : D → D × Option E

-- What the runner does with the database: its statements on the tracking table, the clock, and the
-- test for a VedaDBQueryError.
pub record Database (D E : Type 0) : Type 0 where
  pub create_table : D → D × Option E
  pub select_versions : D → Result E (List ℕ)
  pub select_migrations : D → Result E (List MigrationRecord)
  pub insert : MigrationRecord → D → D × Option E
  pub delete : ℕ → D → D × Option E
  pub is_query_error : E → Bool
  pub time : D → ℕ

pub data MigrationError (E : Type 0) : Type 0 where
  of_db : E → MigrationError E
  validation_error : ℕ → ℕ → MigrationError E

-- What a call leaves and what it returns or raises.
abbrev pub Outcome : Type 0 → Type 0 → Type 0
Outcome D E = D × Result (MigrationError E) (List MigrationRecord)

pub record Status : Type 0 where
  pub current_version : ℕ
  pub applied_count : ℕ
  pub pending_count : ℕ
  pub pending : List ℕ
  pub applied : List ℕ

-- set(...)
unfoldable pub to_set : List ℕ → List ℕ
unfolding add
to_set [] = []
to_set (v ∷ vs) = add v (to_set vs)

unfoldable insert_sorted : ℕ → List ℕ → List ℕ
insert_sorted v [] = v ∷ []
insert_sorted v (w ∷ ws) = let rest = insert_sorted v ws in if leb v w then v ∷ w ∷ ws else w ∷ rest

unfoldable pub sorted_versions : List ℕ → List ℕ
unfolding insert_sorted
sorted_versions [] = []
sorted_versions (v ∷ vs) = insert_sorted v (sorted_versions vs)

-- all_versions - applied_versions
unfoldable pub difference : List ℕ → List ℕ → List ℕ
unfolding has
difference [] applied = []
difference (v ∷ vs) applied =
    let rest = difference vs applied in if has v applied then rest else v ∷ rest

abbrev pub max_from : ℕ → List ℕ → ℕ
max_from v [] = v
max_from v (w ∷ ws) = max_from (if ltb v w then w else v) ws

-- max(applied_versions) if applied_versions else 0
unfoldable pub max_or_zero : List ℕ → ℕ
max_or_zero [] = 0
max_or_zero (v ∷ vs) = max_from v vs

-- `target_version is not None and version > target_version`
abbrev pub is_past : Option ℕ → ℕ → Bool
is_past none v = false
is_past (some t) v = ltb t v

-- list(reversed(applied))
unfoldable pub reversed_onto : List MigrationRecord → List MigrationRecord → List MigrationRecord
reversed_onto acc [] = acc
reversed_onto acc (r ∷ rs) = reversed_onto (r ∷ acc) rs

abbrev pub reversed : List MigrationRecord → List MigrationRecord
reversed rs = reversed_onto [] rs

-- [r for r in rs if r.version > target_version]
unfoldable pub later_than : ℕ → List MigrationRecord → List MigrationRecord
later_than t [] = []
later_than t (r ∷ rs) = let rest = later_than t rs in if ltb t r.version then r ∷ rest else rest

-- The first dependency that is not applied.
unfoldable pub missing : List ℕ → List ℕ → Option ℕ
unfolding has
missing [] applied = none
missing (dep ∷ deps) applied =
    let rest = missing deps applied in if has dep applied then rest else some dep

-- The result of a SELECT, empty where a VedaDBQueryError is raised.
abbrev pub or_empty : {E A : Type 0} → (E → Bool) → Result E (List A) → Result E (List A)
or_empty is_query_error (ok xs) = ok xs
or_empty is_query_error (err e) = if is_query_error e then ok [] else err e

abbrev to_set_of : {E : Type 0} → Result E (List ℕ) → Result E (List ℕ)
to_set_of (ok vs) = ok (to_set vs)
to_set_of (err e) = err e

module _ {D E : Type 0} where
  -- sorted(migrations, key=lambda m: m.version)
  unfoldable pub insert_by : Migration D E → List (Migration D E) → List (Migration D E)
  insert_by m [] = m ∷ []
  insert_by m (n ∷ ns) =
      let rest = insert_by m ns in if leb m.version n.version then m ∷ n ∷ ns else n ∷ rest

  unfoldable pub sorted : List (Migration D E) → List (Migration D E)
  unfolding insert_by
  sorted [] = []
  sorted (m ∷ ms) = insert_by m (sorted ms)

  unfoldable pub find_migration : ℕ → List (Migration D E) → Option (Migration D E)
  find_migration v [] = none
  find_migration v (m ∷ ms) = if m.version == v then some m else find_migration v ms

  unfoldable pub versions : List (Migration D E) → List ℕ
  versions [] = []
  versions (m ∷ ms) = m.version ∷ versions ms

  unfoldable pub not_applied : List ℕ → List (Migration D E) → List (Migration D E)
  unfolding has
  not_applied applied [] = []
  not_applied applied (m ∷ ms) =
      let rest = not_applied applied ms in if has m.version applied then rest else m ∷ rest

  abbrev pub returned : MigrationRecord → Outcome D E → Outcome D E
  returned r (d, ok rs) = (d, ok (r ∷ rs))
  returned r (d, err e) = (d, err e)

  -- The last statement of a round of a loop: an exception leaves the loop, else the record is one of
  -- those returned, and the loop goes on.
  abbrev pub and_then : MigrationRecord → D × Option E → (D → Outcome D E) → Outcome D E
  and_then r (d, none) rest = returned r (rest d)
  and_then r (d, some e) rest = (d, err (of_db e))

module _ {D E : Type 0} ⦃db : Database D E⦄ where
  unfoldable pub get_applied_versions : D → Result E (List ℕ)
  unfolding to_set
  get_applied_versions d = to_set_of (or_empty db.is_query_error (db.select_versions d))

  unfoldable pub get_applied_migrations : D → Result E (List MigrationRecord)
  get_applied_migrations d = or_empty db.is_query_error (db.select_migrations d)

  abbrev unless_query_error : D × Option E → D × Option E
  unless_query_error (d, none) = (d, none)
  unless_query_error (d, some e) = if db.is_query_error e then (d, none) else (d, some e)

  unfoldable pub ensure_migration_table : D → D × Option E
  ensure_migration_table d = unless_query_error (db.create_table d)

  -- `__init__`: the runner's migrations, and what it does to the database.
  unfoldable pub new : List (Migration D E) → Bool → D → List (Migration D E) × (D × Option E)
  unfolding sorted ensure_migration_table
  new ms auto_create d = (sorted ms, if auto_create then ensure_migration_table d else (d, none))

  abbrev pub record_of : Migration D E → ℕ → MigrationRecord
  record_of m now = record { version = m.version; name = m.name; applied_at = now; checksum = "" }

  abbrev record_migration : Migration D E → MigrationRecord → D → (D → Outcome D E) → Outcome D E
  record_migration m r d rest = and_then r (db.insert r d) rest

  abbrev pub upgraded : Migration D E → D × Option E → (D → Outcome D E) → Outcome D E
  upgraded m (d, none) rest = record_migration m (record_of m (db.time d)) d rest
  upgraded m (d, some e) rest = (d, err (of_db e))

  abbrev pub apply : Option ℕ → Migration D E → D → (D → Outcome D E) → Outcome D E
  apply (some dep) m d rest = (d, err (validation_error m.version dep))
  apply none m d rest = upgraded m (m.upgrade d) rest

  -- The loop of `migrate`: `applied` is what was applied before the first round.
  unfoldable pub migrate_loop : List ℕ → Option ℕ → List (Migration D E) → D → Outcome D E
  unfolding has missing
  migrate_loop applied target [] d = (d, ok [])
  migrate_loop applied target (m ∷ ms) d =
      let rest = migrate_loop applied target ms in
      if has m.version applied
      then rest d
      else if is_past target m.version
      then (d, ok [])
      else apply (missing m.dependencies applied) m d rest

  abbrev pub migrate_from : Result E (List ℕ) → Option ℕ → List (Migration D E) → D → Outcome D E
  migrate_from (ok applied) target ms d = migrate_loop applied target ms d
  migrate_from (err e) target ms d = (d, err (of_db e))

  unfoldable pub migrate : Option ℕ → List (Migration D E) → D → Outcome D E
  unfolding get_applied_versions migrate_loop
  migrate target ms d = migrate_from (get_applied_versions d) target ms d

  abbrev pub downgraded : MigrationRecord → D × Option E → (D → Outcome D E) → Outcome D E
  downgraded r (d, none) rest = and_then r (db.delete r.version d) rest
  downgraded r (d, some e) rest = (d, err (of_db e))

  abbrev pub revert : Option (Migration D E) → MigrationRecord → D → (D → Outcome D E) → Outcome D E
  revert none r d rest = rest d
  revert (some m) r d rest = downgraded r (m.downgrade d) rest

  unfoldable pub rollback_loop : List (Migration D E) → List MigrationRecord → D → Outcome D E
  unfolding find_migration
  rollback_loop ms [] d = (d, ok [])
  rollback_loop ms (r ∷ rs) d =
      let rest = rollback_loop ms rs in revert (find_migration r.version ms) r d rest

  abbrev rollback_from :
      (List MigrationRecord → List MigrationRecord)
      → List (Migration D E)
      → Result E (List MigrationRecord)
      → D
      → Outcome D E
  rollback_from choose ms (ok applied) d = rollback_loop ms (choose (reversed applied)) d
  rollback_from choose ms (err e) d = (d, err (of_db e))

  unfoldable pub rollback : ℕ → List (Migration D E) → D → Outcome D E
  unfolding rollback_loop get_applied_migrations reversed_onto
  rollback steps ms d = rollback_from (take steps) ms (get_applied_migrations d) d

  unfoldable pub rollback_to : ℕ → List (Migration D E) → D → Outcome D E
  unfolding rollback_loop get_applied_migrations later_than reversed_onto
  rollback_to target ms d = rollback_from (later_than target) ms (get_applied_migrations d) d
