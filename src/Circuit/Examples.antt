-- ===== src/Circuit/Examples.antt =====
-- The circuit breaker of python/vedadb/circuit.py at concrete values.
use vedadb_driver.Base.{◌≡◌, refl, [], ◌∷◌, arith}
use vedadb_driver.Circuit.{CircuitBreaker, opened, Settings, before, success, failure, new, run}
use vedadb_driver.Circuit.Invariant.{IsValid, seen, run-IsValid}
use vedadb_driver.Circuit.Trips.{opened_rejects}

-- Three failures open it, ten ticks later it probes, and two successes close it.
abbrev settings : Settings
settings = record {
  failure_threshold = 3;
  recovery_timeout = 10;
  half_open_max_calls = 3;
  success_threshold = 2;
}

abbrev tripped : CircuitBreaker
tripped = record new { state = opened; failure_count = 3; last_failure_time = 5 }

run-IsValid_example :
    IsValid settings
      (seen settings (failure 1 ∷ before 2 ∷ failure 3 ∷ failure 4 ∷ before 20 ∷ []))
      (run settings new (failure 1 ∷ before 2 ∷ failure 3 ∷ failure 4 ∷ before 20 ∷ []))
run-IsValid_example =
    run-IsValid settings (omega arith) (omega arith)
      (failure 1 ∷ before 2 ∷ failure 3 ∷ failure 4 ∷ before 20 ∷ [])

opened_rejects_example :
    let cb = run settings tripped (before 6 ∷ success ∷ failure 7 ∷ before 14 ∷ []) in
    (cb.state ≡ opened) × (cb.total_calls ≡ 2) × (cb.total_rejected ≡ 2)
opened_rejects_example =
    opened_rejects settings 5 tripped (before 6 ∷ success ∷ failure 7 ∷ before 14 ∷ []) refl
      (omega arith)
      ((omega arith, omega arith), (tt, (omega arith, ((omega arith, omega arith), tt))))
