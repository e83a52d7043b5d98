-- ===== src/Retry/Async.antt =====
-- `execute_async` of python/vedadb/retry.py, which awaits what a call gives if it is a coroutine.
use vedadb_driver.Base.{ℕ, zero, suc, ◌≡◌, refl, ap, Option, none, some, leb, if◌then◌else◌}
use mathlib.Core.Path.{fun_ext}
use vedadb_driver.Retry.{
  Outcome, returned, raised, value, non_retryable, wrapped, Execution, RetryPolicy, compute_delay,
  exceeded, stopped, retried, attempts, execute,
}

-- A call raises or gives a value at once, or it gives a coroutine, and that is awaited.
pub data Call (A X : Type 0) : Type 0 where
  at_once : Outcome A X → Call A X
  coroutine : Outcome A X → Call A X

abbrev pub awaited : {A X : Type 0} → Call A X → Outcome A X
awaited (at_once o) = o
awaited (coroutine o) = o

module _ {A X : Type 0} where
  unfoldable pub attempts_async : RetryPolicy X → (ℕ → Call A X) → ℕ → ℕ → Option X → Execution A X
  unfolding compute_delay
  attempts_async p fn zero attempt last = exceeded p last attempt
  attempts_async p fn (suc left) attempt last = elim (awaited (fn attempt)) [
    | returned a ↦ stopped (value a) (suc attempt)
    | raised x ↦
        let rest = attempts_async p fn left (suc attempt) (some x) in
        if p.retryable x
        then if leb p.max_retries attempt
          then exceeded p (some x) (suc attempt)
          else retried (attempt, compute_delay p attempt) rest
        else if p.is_non_retryable x
        then stopped (non_retryable x) (suc attempt)
        else stopped (wrapped x) (suc attempt)
  ]

  unfoldable pub execute_async : RetryPolicy X → (ℕ → Call A X) → Execution A X
  unfolding attempts_async
  execute_async p fn = attempts_async p fn (suc p.max_retries) 0 none

  attempts_async-attempts :
      (p : RetryPolicy X) (fn : ℕ → Call A X) (left attempt : ℕ) (last : Option X)
      → attempts_async p fn left attempt last ≡ attempts p (λ n. awaited (fn n)) left attempt last
  unfolding attempts_async attempts
  attempts_async-attempts p fn zero attempt last = refl
  attempts_async-attempts p fn (suc left) attempt last =
      let round : (X → Execution A X) → Execution A X = λ rest. elim (awaited (fn attempt)) [
        | returned a ↦ stopped (value a) (suc attempt)
        | raised x ↦
            if p.retryable x
            then if leb p.max_retries attempt
              then exceeded p (some x) (suc attempt)
              else retried (attempt, compute_delay p attempt) (rest x)
            else if p.is_non_retryable x
            then stopped (non_retryable x) (suc attempt)
            else stopped (wrapped x) (suc attempt)
      ] in
      ap round (fun_ext (λ x. attempts_async-attempts p fn left (suc attempt) (some x)))

  -- It does what `execute` does with the awaited calls: the same answer, calls and retries.
  pub execute_async-execute :
      (p : RetryPolicy X) (fn : ℕ → Call A X) → execute_async p fn ≡ execute p (λ n. awaited (fn n))
  unfolding execute_async execute
  execute_async-execute p fn = attempts_async-attempts p fn (suc p.max_retries) 0 none
