-- ===== src/Migrations/Effects.antt =====
-- What `migrate` and `rollback` of python/vedadb/migrations.py leave of the database.
use vedadb_driver.Base.{
  ℕ, suc, ◌≤◌, ◌≡◌, refl, sym, ap, true, false, Option, none, some, List, [], ◌∷◌, arith, All, ◌==◌,
  if◌then◌else◌, if_cases, Bool-cases, inl, inr, not, ok, err,
}
use vedadb_driver.Base.Dict.{nat_eq}
use vedadb_driver.Base.Sets.{has}
use vedadb_driver.Migrations.{
  MigrationRecord, Migration, Database, Outcome, is_past, missing, versions, returned, and_then,
  upgraded, apply, migrate_loop, find_migration, downgraded, revert, rollback_loop,
}
use vedadb_driver.Migrations.Applied.{is_due, Ascending, past-within, and-false}
use mathlib.Core.Path.{subst}

module _ {D E : Type 0} ⦃db : Database D E⦄ where
  -- The upgrades of the migrations in order, each followed by the INSERT of its record, with the time
  -- after the upgrade.
  unfoldable pub upgraded_all : List (Migration D E) → D → D
  upgraded_all [] d = d
  upgraded_all (m ∷ ms) d =
      let d' = (m.upgrade d).0 in
      upgraded_all ms
        (db.insert
          (record { version = m.version; name = m.name; applied_at = db.time d'; checksum = "" })
          d').0

  -- The migrations that are to be applied.
  unfoldable pub due_migrations : List ℕ → Option ℕ → List (Migration D E) → List (Migration D E)
  unfolding is_due
  due_migrations applied target [] = []
  due_migrations applied target (m ∷ ms) =
      let rest = due_migrations applied target ms in
      if is_due applied target m.version then m ∷ rest else rest

  -- The downgrade of the first migration of the version, and the DELETE of its record.
  unfoldable pub undone : List (Migration D E) → ℕ → D → D
  undone [] v d = d
  undone (m ∷ ms) v d = if m.version == v then (db.delete v (m.downgrade d).0).0 else undone ms v d

  unfoldable pub undone_all : List (Migration D E) → List MigrationRecord → D → D
  unfolding undone
  undone_all ms [] d = d
  undone_all ms (r ∷ rs) d = undone_all ms rs (undone ms r.version d)

  -- A call that returns leaves the database so.
  abbrev pub Leaves : D → Outcome D E → Type 0
  Leaves d (d', ok rs) = d' ≡ d
  Leaves d (d', err e) = Unit {0}

  pub Leaves-ok :
      (d : D) (o : Outcome D E) (rs : List MigrationRecord) → o.1 ≡ ok rs → Leaves d o → o.0 ≡ d
  Leaves-ok d (d', ok ks) rs e l = l
  Leaves-ok d (d', err x) rs e l = cc

  and_then-Leaves :
      (d : D) (r : MigrationRecord) (x : D × Option E) (rest : D → Outcome D E)
      → Leaves d (rest x.0)
      → Leaves d (and_then r x rest)
  and_then-Leaves d r (d', some e) rest l = tt
  and_then-Leaves d r (d', none) rest l = cases (rest d') l
    where
      cases : (o : Outcome D E) → Leaves d o → Leaves d (returned r o)
      cases (_, ok rs) k = k
      cases (_, err e) k = tt

  upgraded-Leaves :
      (d : D) (m : Migration D E) (x : D × Option E) (rest : D → Outcome D E)
      → Leaves d (
          rest
            (db.insert
              (record {
                version = m.version;
                name = m.name;
                applied_at = db.time x.0;
                checksum = "";
              })
              x.0).0)
      → Leaves d (upgraded m x rest)
  upgraded-Leaves d m (d', some e) rest l = tt
  upgraded-Leaves d m (d', none) rest l = and_then-Leaves d _ (db.insert _ d') rest l

  apply-Leaves :
      (d : D) (dep : Option ℕ) (m : Migration D E) (d' : D) (rest : D → Outcome D E)
      → Leaves d (
          rest
            (db.insert
              (record {
                version = m.version;
                name = m.name;
                applied_at = db.time (m.upgrade d').0;
                checksum = "";
              })
              (m.upgrade d').0).0)
      → Leaves d (apply dep m d' rest)
  apply-Leaves d (some dep) m d' rest l = tt
  apply-Leaves d none m d' rest l = upgraded-Leaves d m (m.upgrade d') rest l

  due_migrations-past :
      (applied : List ℕ) (target : Option ℕ) (v : ℕ) (ms : List (Migration D E))
      → is_past target v ≡ true
      → All (λ w. suc v ≤ w) (versions ms)
      → due_migrations applied target ms ≡ []
  unfolding due_migrations is_due versions
  due_migrations-past applied target v [] p a = refl
  due_migrations-past applied none v (m ∷ ms) p a = cc
  due_migrations-past applied (some t) v (m ∷ ms) p a =
      ground (arith, p, a.0, due_migrations-past applied (some t) v ms p a.1)

  due_migrations-stop :
      (applied : List ℕ) (target : Option ℕ) (m : Migration D E) (ms : List (Migration D E))
      → is_past target m.version ≡ true
      → All (λ w. suc m.version ≤ w) (versions ms)
      → due_migrations applied target (m ∷ ms) ≡ []
  unfolding due_migrations is_due
  due_migrations-stop applied target m ms p a =
      rw (past-within target m.version, p, and-false (not (has m.version applied)))
        (due_migrations-past applied target m.version ms p a)

  due_migrations-skip :
      (applied : List ℕ) (target : Option ℕ) (m : Migration D E) (ms : List (Migration D E))
      → has m.version applied ≡ true
      → due_migrations applied target (m ∷ ms) ≡ due_migrations applied target ms
  unfolding due_migrations is_due
  due_migrations-skip applied target m ms h = rw h

  due_migrations-take :
      (applied : List ℕ) (target : Option ℕ) (m : Migration D E) (ms : List (Migration D E))
      → has m.version applied ≡ false
      → is_past target m.version ≡ false
      → due_migrations applied target (m ∷ ms) ≡ m ∷ due_migrations applied target ms
  unfolding due_migrations is_due
  due_migrations-take applied target m ms h p = rw (h, past-within target m.version, p)

  pub loop-Leaves :
      (applied : List ℕ) (target : Option ℕ) (ms : List (Migration D E)) (d : D)
      → Ascending (versions ms)
      → Leaves
          (upgraded_all (due_migrations applied target ms) d)
          (migrate_loop applied target ms d)
  unfolding migrate_loop upgraded_all versions
  loop-Leaves applied target [] d asc = unfold due_migrations in refl
  loop-Leaves applied target (m ∷ ms) d asc =
      let all = due_migrations applied target (m ∷ ms) in
      let rest = migrate_loop applied target ms in
      if_cases (Leaves (upgraded_all all d)) (has m.version applied)
        (λ h.
          subst (λ ks. Leaves (upgraded_all ks d) (rest d))
            (sym (due_migrations-skip applied target m ms h))
            (loop-Leaves applied target ms d asc.1))
        (λ h.
          if_cases (Leaves (upgraded_all all d)) (is_past target m.version)
            (λ p.
              ap (λ ks. upgraded_all ks d) (sym (due_migrations-stop applied target m ms p asc.0)))
            (λ p.
              subst
                (λ ks. Leaves (upgraded_all ks d) (apply (missing m.dependencies applied) m d rest))
                (sym (due_migrations-take applied target m ms h p))
                (apply-Leaves _ (missing m.dependencies applied) m d rest
                  (loop-Leaves applied target ms _ asc.1))))

  downgraded-Leaves :
      (d : D) (r : MigrationRecord) (x : D × Option E) (rest : D → Outcome D E)
      → Leaves d (rest (db.delete r.version x.0).0)
      → Leaves d (downgraded r x rest)
  downgraded-Leaves d r (d', some e) rest l = tt
  downgraded-Leaves d r (d', none) rest l = and_then-Leaves d r (db.delete r.version d') rest l

  revert-Leaves :
      (after : D → D) (r : MigrationRecord) (rest : D → Outcome D E)
      → ((d : D) → Leaves (after d) (rest d))
      → (ms : List (Migration D E)) (d : D)
      → Leaves (after (undone ms r.version d)) (revert (find_migration r.version ms) r d rest)
  unfolding undone find_migration
  revert-Leaves after r rest l [] d = l d
  revert-Leaves after r rest l (m ∷ ms) d = elim (Bool-cases (m.version == r.version)) [
    | inl p ↦ rw p (downgraded-Leaves _ r (m.downgrade d) rest (l _))
    | inr p ↦ rw p (revert-Leaves after r rest l ms d)
  ]

  pub rollback_loop-Leaves :
      (ms : List (Migration D E)) (rs : List MigrationRecord) (d : D)
      → Leaves (undone_all ms rs d) (rollback_loop ms rs d)
  unfolding rollback_loop undone_all
  rollback_loop-Leaves ms [] d = refl
  rollback_loop-Leaves ms (r ∷ rs) d =
      revert-Leaves (undone_all ms rs) r (rollback_loop ms rs) (rollback_loop-Leaves ms rs) ms d
