-- ===== src/Migrations/Inspect.antt =====
-- pending, is_at_latest and status of python/vedadb/migrations.py.
use vedadb_driver.Base.{ℕ, Bool, List, ◌==◌, Result, ok, err, length}
use vedadb_driver.Base.Dict.{nat_eq}
use vedadb_driver.Migrations.{
  Migration, Database, Status, to_set, sorted_versions, difference, max_or_zero, versions,
  not_applied, get_applied_versions,
}

module _ {D E : Type 0} ⦃db : Database D E⦄ where
  abbrev pending_of : List (Migration D E) → Result E (List ℕ) → Result E (List (Migration D E))
  pending_of ms (ok applied) = ok (not_applied applied ms)
  pending_of ms (err e) = err e

  unfoldable pub pending : List (Migration D E) → D → Result E (List (Migration D E))
  unfolding get_applied_versions not_applied
  pending ms d = pending_of ms (get_applied_versions d)

  abbrev is_none : Result E (List (Migration D E)) → Result E Bool
  is_none (ok ms) = ok (length ms == 0)
  is_none (err e) = err e

  unfoldable pub is_at_latest : List (Migration D E) → D → Result E Bool
  unfolding pending
  is_at_latest ms d = is_none (pending ms d)

  abbrev status_of : List (Migration D E) → Result E (List ℕ) → Result E Status
  status_of ms (err e) = err e
  status_of ms (ok applied) =
      let left : List ℕ = sorted_versions (difference (to_set (versions ms)) applied) in
      ok (record {
        current_version = max_or_zero applied;
        applied_count = length applied;
        pending_count = length left;
        pending = left;
        applied = sorted_versions applied;
      })

  unfoldable pub status : List (Migration D E) → D → Result E Status
  unfolding get_applied_versions sorted_versions difference versions to_set max_or_zero
  status ms d = status_of ms (get_applied_versions d)
