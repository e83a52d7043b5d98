-- ===== src/Retry/Examples.antt =====
-- Retries of python/vedadb/retry.py at concrete values.
use vedadb_driver.Base.{ℕ, zero, suc, ◌≡◌, ◌<◌, refl, true, false, arith}
use vedadb_driver.Retry.{Outcome, returned, raised, value, RetryPolicy, execute}
use vedadb_driver.Retry.Attempts.{retries_from, execute-retries}

-- Three retries without jitter; the error 1 is retried.
abbrev policy : RetryPolicy ℕ
policy = record {
  max_retries = 3;
  base_delay = 100;
  max_delay = 150;
  jitter = false;
  retryable = λ x. (elim x [ zero ↦ false | suc _ ↦ true ]);
  is_non_retryable = λ x. false;
  uniform = λ attempt d. d;
}

-- Two errors, and then a result.
abbrev flaky : ℕ → Outcome ℕ ℕ
flaky zero = raised 1
flaky (suc zero) = raised 1
flaky (suc (suc n)) = returned 42

flaky-Fails : (j : ℕ) → j < 2 → (x : ℕ) × (flaky j ≡ raised x) × (policy.retryable x ≡ true)
flaky-Fails zero h = (1, refl, refl)
flaky-Fails (suc zero) h = (1, refl, refl)
flaky-Fails (suc (suc j)) h = absurd (omega arith)

execute-retries_example :
    execute policy flaky
    ≡ record { answer = value 42; calls = 3; retries = retries_from policy flaky 0 2 }
execute-retries_example =
    execute-retries policy flaky 2 (omega arith) flaky-Fails (λ x e r. absurd (ground (arith, e)))
