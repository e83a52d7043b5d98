-- ===== src/Migrations/Runs.antt =====
-- Whole calls of `migrate` of python/vedadb/migrations.py, on the migrations as `__init__` sorts them.
use vedadb_driver.Base.{
  ℕ, ◌≡◌, refl, sym, ap, ◌∙◌, Bool, true, false, ◌||◌, Option, none, List, [], ◌∷◌, ◌++◌, arith,
  All, inl, inr, Bool-cases, ok, err,
}
use vedadb_driver.Base.Dict.{nat_eq}
use vedadb_driver.Base.Sets.{has, has-append}
use vedadb_driver.Migrations.{
  MigrationRecord, Migration, Database, Outcome, to_set, sorted, versions, not_applied,
  get_applied_versions, migrate_loop, migrate_from, migrate,
}
use vedadb_driver.Migrations.Inspect.{pending, is_at_latest}
use vedadb_driver.Migrations.Applied.{
  Tracking, record_versions, record_versions-append, due, Ascending, has-to_set, Quiet, Succeeds,
  Recorded, loop-Recorded, due-skip, due-take, has-head, has-later,
}
use vedadb_driver.Migrations.Effects.{upgraded_all, due_migrations, Leaves, Leaves-ok, loop-Leaves}
use vedadb_driver.Migrations.Sorting.{
  Unique, Permutes, sorted-Permutes, sorted-Ascending, sorted-each,
}
use mathlib.Core.Path.{subst}

-- What was applied, and what is due, is everything.
due_covers :
    (P : ℕ → Type 0) (applied vs : List ℕ)
    → ((v : ℕ) → has v applied ≡ true → P v)
    → ((v : ℕ) → has v (due applied none vs) ≡ true → P v)
    → All P vs
due_covers P applied [] g h = tt
due_covers P applied (v ∷ vs) g h = elim (Bool-cases (has v applied)) [
  | inl p ↦ (
    g v p,
    due_covers P applied vs g (λ w i. h w (ap (has w) (due-skip applied none v vs p) ∙ i)),
  )
  | inr p ↦
      let e : due applied none (v ∷ vs) ≡ v ∷ due applied none vs =
        due-take applied none v vs p refl in
      (
        h v (ap (has v) e ∙ has-head v (due applied none vs)),
        due_covers P applied vs g
            (λ w i. h w (ap (has w) e ∙ has-later v w (due applied none vs) i)),
      )
]

or_left : (a b : Bool) → a ≡ true → (a || b) ≡ true
or_left a b h = ground arith

or_right : (a b : Bool) → b ≡ true → (a || b) ≡ true
or_right a b h = ground arith

pub true_is_not : true ≡ false → ⊥
true_is_not h = cc

module _ {D E : Type 0} ⦃db : Database D E⦄ where
  pub get_applied_versions-rows :
      (t : Tracking D E) (d : D)
      → get_applied_versions {E = E} d ≡ ok (to_set (record_versions (t.rows d)))
  unfolding get_applied_versions
  get_applied_versions-rows t d = rw (t.select_versions-rows d)

  abbrev pub already : Tracking D E → D → List ℕ
  already t d = to_set (record_versions (t.rows d))

  migrate-Recorded :
      (t : Tracking D E) (target : Option ℕ) (ms : List (Migration D E)) (d : D)
      → Unique (versions ms)
      → All (Quiet t) ms
      → Recorded t
          (All (Succeeds (already t d)) (sorted ms))
          (t.rows d)
          (due (already t d) target (versions (sorted ms)))
          (migrate target (sorted ms) d)
  unfolding migrate
  migrate-Recorded t target ms d u q =
      subst
        (λ r.
          Recorded t (All (Succeeds (already t d)) (sorted ms)) (t.rows d)
            (due (already t d) target (versions (sorted ms))) (migrate_from r target (sorted ms) d))
        (sym (get_applied_versions-rows t d))
        (loop-Recorded t (already t d) target (sorted ms) d (sorted-each (Quiet t) ms q)
          (sorted-Ascending ms u) (λ v n i. sym (has-to_set v (record_versions (t.rows d))) ∙ n))

  -- The call returned these records, and they are now at the end of the table.
  abbrev pub Applies : Tracking D E → List MigrationRecord → List ℕ → Outcome D E → Type 0
  Applies t before vs (d, r) =
      (rs : List MigrationRecord) × (r ≡ ok rs)
      × (t.rows d ≡ before ++ rs)
      × (record_versions rs ≡ vs)

  Recorded-Applies :
      (t : Tracking D E) (S : Type 0) (before : List MigrationRecord) (vs : List ℕ)
      (o : Outcome D E)
      → S
      → Recorded t S before vs o
      → Applies t before vs o
  Recorded-Applies t S before vs (d, ok rs) s (p, q) = (rs, refl, p, q)
  Recorded-Applies t S before vs (d, err e) s (rs, ws, p, q, k) = absurd (k s)

  -- The database after a call that returned.
  migrate-Leaves :
      (t : Tracking D E) (target : Option ℕ) (ms : List (Migration D E)) (d : D)
      → Unique (versions ms)
      → Leaves
          (upgraded_all (due_migrations (already t d) target (sorted ms)) d)
          (migrate target (sorted ms) d)
  unfolding migrate
  migrate-Leaves t target ms d u =
      subst
        (λ r.
          Leaves (upgraded_all (due_migrations (already t d) target (sorted ms)) d)
            (migrate_from r target (sorted ms) d))
        (sym (get_applied_versions-rows t d))
        (loop-Leaves (already t d) target (sorted ms) d (sorted-Ascending ms u))

  -- The call applies the migrations that are due, those not applied before and not past the target, in
  -- the order of their versions, in which the list of all migrations was put: it leaves the database as their upgrades do, each followed by the
  -- insertion of a record of its version, its name and the time. It returns the records, which are
  -- then at the end of the table. This is so if no version stands twice, each migration's dependencies
  -- were applied before the call, no upgrade raises, and none touches the tracking table.
  pub migrate-Applies :
      (t : Tracking D E) (target : Option ℕ) (ms : List (Migration D E)) (d : D)
      → Unique (versions ms)
      → All (Quiet t) ms
      → All (Succeeds (already t d)) ms
      → Applies t
          (t.rows d)
          (due (already t d) target (versions (sorted ms)))
          (migrate target (sorted ms) d)
        × ((migrate target (sorted ms) d).0
            ≡ upgraded_all (due_migrations (already t d) target (sorted ms)) d)
        × Permutes ms (sorted ms)
        × Ascending (versions (sorted ms))
  migrate-Applies t target ms d u q s =
      let applies =
        Recorded-Applies t (All (Succeeds (already t d)) (sorted ms)) (t.rows d)
          (due (already t d) target (versions (sorted ms))) (migrate target (sorted ms) d)
          (sorted-each (Succeeds (already t d)) ms s) (migrate-Recorded t target ms d u q) in
      (
        applies,
        Leaves-ok _ (migrate target (sorted ms) d) applies.0 applies.1
            (migrate-Leaves t target ms d u),
        sorted-Permutes ms,
        sorted-Ascending ms u,
      )

  -- Nothing is left to apply.
  loop_done :
      (applied : List ℕ) (ms : List (Migration D E)) (d : D)
      → All (λ v. has v applied ≡ true) (versions ms)
      → (migrate_loop applied none ms d ≡ (d, ok [])) × (not_applied applied ms ≡ [])
  unfolding migrate_loop not_applied versions
  loop_done applied [] d a = (refl, refl)
  loop_done applied (m ∷ ms) d a = rw (a.0) (loop_done applied ms d a.1)

  Applies-done :
      (t : Tracking D E) (ms : List (Migration D E)) (d : D) (o : Outcome D E)
      → Applies t (t.rows d) (due (already t d) none (versions ms)) o
      → (migrate none ms o.0 ≡ (o.0, ok [])) × (is_at_latest ms o.0 ≡ ok true)
  unfolding migrate is_at_latest pending
  Applies-done t ms d (d', r) (rs, e, p, q) =
      let has_now : (v : ℕ)
          → has v (already t d')
            ≡ (has v (record_versions (t.rows d)) || has v (record_versions rs)) =
        λ v.
          has-to_set v (record_versions (t.rows d'))
          ∙ (ap (λ xs. has v (record_versions xs)) p
              ∙ (ap (has v) (record_versions-append (t.rows d) rs)
                  ∙ has-append v (record_versions (t.rows d)) (record_versions rs))) in
      let done = loop_done (already t d') ms d' (
        due_covers (λ v. has v (already t d') ≡ true) (already t d) (versions ms)
          (λ v h.
            has_now v
            ∙ or_left (has v (record_versions (t.rows d))) (has v (record_versions rs))
                (sym (has-to_set v (record_versions (t.rows d))) ∙ h))
          (λ v h.
            has_now v
            ∙ or_right (has v (record_versions (t.rows d))) (has v (record_versions rs))
                (ap (has v) q ∙ h))) in
      (rw (get_applied_versions-rows t d') done.0, rw (get_applied_versions-rows t d', done.1))

  -- After such a call without a target the runner is at the latest version: a second call applies
  -- nothing, returns no record and leaves the database as it is.
  pub migrate_again :
      (t : Tracking D E) (ms : List (Migration D E)) (d : D)
      → Unique (versions ms)
      → All (Quiet t) ms
      → All (Succeeds (already t d)) ms
      → (migrate none (sorted ms) (migrate none (sorted ms) d).0
          ≡ ((migrate none (sorted ms) d).0, ok []))
        × (is_at_latest (sorted ms) (migrate none (sorted ms) d).0 ≡ ok true)
  migrate_again t ms d u q s =
      Applies-done t (sorted ms) d (migrate none (sorted ms) d)
        (migrate-Applies t none ms d u q s).0
