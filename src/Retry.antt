-- ===== src/Retry.antt =====
-- python/vedadb/retry.py: calling a function again after an error, with growing delays. Delays are
-- whole numbers of a unit of time: doubling and the minimum are exact on the source's floats too.
pub mod Attempts
pub mod Async
mod Examples
use vedadb_driver.Base.{
  ℕ, zero, suc, ◌+◌, ◌*◌, ◌^◌, ◌≤◌, ◌≡◌, Bool, true, false, List, [], ◌∷◌, Option, none, some, leb,
  if◌then◌else◌,
}
use Prim.Native.Nat.{min}

-- What a call of `fn` does.
pub data Outcome (A X : Type 0) : Type 0 where
  returned : A → Outcome A X
  raised : X → Outcome A X

-- What `execute` does: it returns, lets a NonRetryableError pass, wraps another exception in one, or
-- raises MaxRetriesExceeded with the number of attempts and the last error.
pub data Answer (A X : Type 0) : Type 0 where
  value : A → Answer A X
  non_retryable : X → Answer A X
  wrapped : X → Answer A X
  max_retries_exceeded : ℕ → Option X → Answer A X

-- The answer with what was done for it: the calls of `fn`, and for each retry the attempt and the
-- delay, as `on_retry` gets them before the pause.
pub record Execution (A X : Type 0) : Type 0 where
  pub answer : Answer A X
  pub calls : ℕ
  pub retries : List (ℕ × ℕ)

-- A policy: `retryable` tests for `retryable_exceptions`, `uniform` is random.uniform(0, ·) for the
-- delay of an attempt, which depends on the attempt as each draw is a new one.
pub record RetryPolicy (X : Type 0) : Type 0 where
  pub max_retries : ℕ
  pub base_delay : ℕ
  pub max_delay : ℕ
  pub jitter : Bool
  pub retryable : X → Bool
  pub is_non_retryable : X → Bool
  pub uniform : ℕ → ℕ → ℕ

unfoldable pub compute_delay : {X : Type 0} → RetryPolicy X → ℕ → ℕ
compute_delay p attempt =
    let delay = min (p.base_delay * 2 ^ attempt) p.max_delay in
    if p.jitter then p.uniform attempt delay else delay

unfoldable pub is_retryable : {X : Type 0} → RetryPolicy X → X → Bool
is_retryable p x = p.retryable x

module _ {A X : Type 0} where
  abbrev pub exceeded : RetryPolicy X → Option X → ℕ → Execution A X
  exceeded p last calls = record {
    answer = max_retries_exceeded (suc p.max_retries) last;
    calls = calls;
    retries = [];
  }

  abbrev pub stopped : Answer A X → ℕ → Execution A X
  stopped a calls = record { answer = a; calls = calls; retries = [] }

  abbrev pub retried : ℕ × ℕ → Execution A X → Execution A X
  retried r ex = record ex { retries = r ∷ ex.retries }

  -- The loop over the attempts that are left; `attempt` of them were made.
  unfoldable pub attempts : RetryPolicy X → (ℕ → Outcome A X) → ℕ → ℕ → Option X → Execution A X
  unfolding compute_delay
  attempts p fn zero attempt last = exceeded p last attempt
  attempts p fn (suc left) attempt last = elim (fn attempt) [
    | returned a ↦ stopped (value a) (suc attempt)
    | raised x ↦
        let rest = attempts p fn left (suc attempt) (some x) in
        if p.retryable x
        then if leb p.max_retries attempt
          then exceeded p (some x) (suc attempt)
          else retried (attempt, compute_delay p attempt) rest
        else if p.is_non_retryable x
        then stopped (non_retryable x) (suc attempt)
        else stopped (wrapped x) (suc attempt)
  ]

  unfoldable pub execute : RetryPolicy X → (ℕ → Outcome A X) → Execution A X
  unfolding attempts
  execute p fn = attempts p fn (suc p.max_retries) 0 none
