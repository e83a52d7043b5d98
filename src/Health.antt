-- ===== src/Health.antt =====
-- python/vedadb/health.py: checks of a connection by pings. Times are milliseconds, as whole numbers.
pub mod Outcomes
mod Examples
use vedadb_driver.Base.{
  ℕ, zero, suc, ◌+◌, Bool, true, false, Option, none, some, List, [], ◌∷◌, ◌++◌, ltb, leb,
  if◌then◌else◌, Result, ok, err, length, drop, ◌-◌,
}

pub record Settings : Type 0 where
  pub failure_threshold : ℕ
  pub history_size : ℕ

pub record HealthChecker : Type 0 where
  pub is_healthy : Bool
  pub consecutive_failures : ℕ
  pub total_checks : ℕ
  pub total_failures : ℕ
  pub last_ping_ms : ℕ
  pub history : List ℕ

unfoldable pub new : HealthChecker
new = record {
  is_healthy = false;
  consecutive_failures = 0;
  total_checks = 0;
  total_failures = 0;
  last_ping_ms = 0;
  history = [];
}

-- deque(maxlen=n).append(x)
unfoldable pub append_max : ℕ → ℕ → List ℕ → List ℕ
append_max n x xs = drop (length (xs ++ (x ∷ [])) - n) (xs ++ (x ∷ []))

unfoldable pub succeeded : Settings → ℕ → HealthChecker → HealthChecker
succeeded s elapsed h = record h {
  last_ping_ms = elapsed;
  history = append_max s.history_size elapsed h.history;
  consecutive_failures = 0;
  is_healthy = true;
}

unfoldable pub failed : Settings → HealthChecker → HealthChecker
failed s h = record h {
  consecutive_failures = h.consecutive_failures + 1;
  total_failures = h.total_failures + 1;
  is_healthy =
      (if leb s.failure_threshold (h.consecutive_failures + 1) then false else h.is_healthy);
}

-- The answer of a ping, true or false or an exception, and how long it took.
abbrev pub checked :
    {E : Type 0} → Settings → Result E Bool → ℕ → HealthChecker → Bool × HealthChecker
checked s (ok true) elapsed h = (true, succeeded s elapsed h)
checked s (ok false) elapsed h = (false, failed s h)
checked s (err e) elapsed h = (false, failed s h)

unfoldable pub check :
    {E : Type 0} → Settings → Result E Bool → ℕ → HealthChecker → Bool × HealthChecker
check s answer elapsed h = checked s answer elapsed (record h { total_checks = h.total_checks + 1 })

-- The answer of a ping that is awaited for a limited time.
pub data Awaited (E : Type 0) : Type 0 where
  returned : Bool → Awaited E
  timed_out : Awaited E
  raised : E → Awaited E

abbrev checked_async :
    {E : Type 0} → Settings → Awaited E → ℕ → HealthChecker → Bool × HealthChecker
checked_async s (returned true) elapsed h = (true, succeeded s elapsed h)
checked_async s (returned false) elapsed h = (false, failed s h)
checked_async s timed_out elapsed h = (false, failed s h)
checked_async s (raised e) elapsed h = (false, failed s h)

unfoldable pub check_async :
    {E : Type 0} → Settings → Awaited E → ℕ → HealthChecker → Bool × HealthChecker
check_async s answer elapsed h =
    checked_async s answer elapsed (record h { total_checks = h.total_checks + 1 })

abbrev min_from : ℕ → List ℕ → ℕ
min_from m [] = m
min_from m (x ∷ xs) = min_from (if ltb x m then x else m) xs

abbrev max_from : ℕ → List ℕ → ℕ
max_from m [] = m
max_from m (x ∷ xs) = max_from (if ltb m x then x else m) xs

unfoldable pub min_ping_ms : List ℕ → ℕ
min_ping_ms [] = 0
min_ping_ms (x ∷ xs) = min_from x xs

unfoldable pub max_ping_ms : List ℕ → ℕ
max_ping_ms [] = 0
max_ping_ms (x ∷ xs) = max_from x xs
