-- ===== src/Health/Examples.antt =====
-- Checks of a connection that fails and comes back.
use vedadb_driver.Base.{ℕ, ◌≡◌, refl, Bool, true, false, List, [], ◌∷◌, Result, ok, err}
use vedadb_driver.Health.{
  Settings, new, check, succeeded, failed, append_max, min_ping_ms, max_ping_ms,
}
use vedadb_driver.Health.Outcomes.{after, outcomes, Describes, after-Describes}

abbrev settings : Settings
settings = record { failure_threshold = 2; history_size = 2 }

-- The last check first: two failures after three successes.
abbrev checks : List (Result ℕ Bool × ℕ)
checks = (err 0, 9) ∷ (ok false, 9) ∷ (ok true, 3) ∷ (ok true, 4) ∷ (ok true, 5) ∷ []

after-Describes_example : Describes settings (outcomes checks) (after settings checks)
after-Describes_example = after-Describes settings checks

two_failures : (after settings checks).is_healthy ≡ false
unfolding after new check succeeded failed append_max
two_failures = refl

two_kept : (after settings checks).history ≡ (4 ∷ 3 ∷ [])
unfolding after new check succeeded failed append_max
two_kept = refl

least : min_ping_ms (4 ∷ 3 ∷ []) ≡ 3
unfolding min_ping_ms
least = refl

most : max_ping_ms (4 ∷ 3 ∷ []) ≡ 4
unfolding max_ping_ms
most = refl
