-- ===== src/Circuit.antt =====
-- python/vedadb/circuit.py: the circuit breaker. Each method holds the lock, so a run of several
-- threads is a list of method calls in the order in which they get it. A time is a number of clock
-- ticks, and `now` is what `time.monotonic()` returns; the clock does not go back.
pub mod Invariant
pub mod Trips
pub mod Stuck
mod Examples
use vedadb_driver.Base.{
  ℕ, ◌+◌, ◌-◌, Bool, true, false, List, [], ◌∷◌, leb, if◌then◌else◌, Result, ok, err, Option, none,
  some,
}

pub data CircuitState : Type 0 where
  closed opened half_open : CircuitState

-- CircuitOpenError with its `retry_after`.
pub record CircuitOpenError : Type 0 where
  pub retry_after : Option ℕ

-- The settings of `__init__`; `name` only occurs in messages.
pub record Settings : Type 0 where
  pub failure_threshold : ℕ
  pub recovery_timeout : ℕ
  pub half_open_max_calls : ℕ
  pub success_threshold : ℕ

pub record CircuitBreaker : Type 0 where
  pub state : CircuitState
  pub failure_count : ℕ
  pub success_count : ℕ
  pub half_open_calls : ℕ
  pub last_failure_time : ℕ
  pub total_calls : ℕ
  pub total_failures : ℕ
  pub total_successes : ℕ
  pub total_rejected : ℕ

-- `__init__`
abbrev pub new : CircuitBreaker
new = record {
  state = closed;
  failure_count = 0;
  success_count = 0;
  half_open_calls = 0;
  last_failure_time = 0;
  total_calls = 0;
  total_failures = 0;
  total_successes = 0;
  total_rejected = 0;
}

abbrev pub is_closed : CircuitBreaker → Bool
is_closed cb = elim cb.state [ closed ↦ true | _ ↦ false ]

abbrev pub is_open : CircuitBreaker → Bool
is_open cb = elim cb.state [ opened ↦ true | _ ↦ false ]

reject : Option ℕ → CircuitBreaker → Result CircuitOpenError (Unit {0}) × CircuitBreaker
reject retry_after cb = (
  err (record { retry_after = retry_after }),
  record cb { total_rejected = cb.total_rejected + 1 },
)

-- The half-open part of `_before_call`.
probe : Settings → CircuitBreaker → Result CircuitOpenError (Unit {0}) × CircuitBreaker
unfolding reject
probe c cb =
    if leb c.half_open_max_calls cb.half_open_calls
    then reject none cb
    else (ok tt, record cb { half_open_calls = cb.half_open_calls + 1 })

before_call_in :
    CircuitState
    → Settings
    → ℕ
    → CircuitBreaker
    → Result CircuitOpenError (Unit {0}) × CircuitBreaker
unfolding probe reject
before_call_in closed c now cb = (ok tt, cb)
before_call_in opened c now cb =
    if leb c.recovery_timeout (now - cb.last_failure_time)
    then probe c (record cb { state = half_open; half_open_calls = 0; success_count = 0 })
    else reject (some (c.recovery_timeout - (now - cb.last_failure_time))) cb
before_call_in half_open c now cb = probe c cb

-- `_before_call`
unfoldable pub before_call :
    Settings → ℕ → CircuitBreaker → Result CircuitOpenError (Unit {0}) × CircuitBreaker
unfolding before_call_in
before_call c now cb =
    before_call_in cb.state c now (record cb { total_calls = cb.total_calls + 1 })

on_success_in : CircuitState → Settings → CircuitBreaker → CircuitBreaker
on_success_in half_open c cb =
    let cb' : CircuitBreaker = record cb { success_count = cb.success_count + 1 } in
    if leb c.success_threshold cb'.success_count
    then record cb' { state = closed; half_open_calls = 0; success_count = 0 }
    else cb'
on_success_in _ c cb = cb

-- `_on_success`
unfoldable pub on_success : Settings → CircuitBreaker → CircuitBreaker
unfolding on_success_in
on_success c cb =
    on_success_in cb.state c
      (record cb { total_successes = cb.total_successes + 1; failure_count = 0 })

on_failure_in : CircuitState → Settings → CircuitBreaker → CircuitBreaker
on_failure_in closed c cb =
    if leb c.failure_threshold cb.failure_count then record cb { state = opened } else cb
on_failure_in half_open c cb = record cb { state = opened }
on_failure_in opened c cb = cb

-- `_on_failure`
unfoldable pub on_failure : Settings → ℕ → CircuitBreaker → CircuitBreaker
unfolding on_failure_in
on_failure c now cb = on_failure_in cb.state c (record cb {
  total_failures = cb.total_failures + 1;
  failure_count = cb.failure_count + 1;
  last_failure_time = now;
})

-- `reset`, and `force_closed`, which calls it.
unfoldable pub reset : CircuitBreaker → CircuitBreaker
reset cb = record cb { state = closed; failure_count = 0; success_count = 0; half_open_calls = 0 }

unfoldable pub force_open : ℕ → CircuitBreaker → CircuitBreaker
force_open now cb = record cb { state = opened; last_failure_time = now }

-- `call`: the function's outcome is `ok` or an exception, and `now` and `later` are the times
-- before and after it.
call_admitted :
    {A E : Type 0}
    → Settings
    → ℕ
    → Result E A
    → Result CircuitOpenError (Unit {0}) × CircuitBreaker
    → Result (Option E) A × CircuitBreaker
unfolding on_success on_failure
call_admitted c later r (err e, cb) = (err none, cb)
call_admitted c later (ok a) (ok _, cb) = (ok a, on_success c cb)
call_admitted c later (err e) (ok _, cb) = (err (some e), on_failure c later cb)

-- An error `none` is CircuitOpenError, `some e` the function's own.
unfoldable pub call :
    {A E : Type 0}
    → Settings
    → ℕ
    → ℕ
    → Result E A
    → CircuitBreaker
    → Result (Option E) A × CircuitBreaker
unfolding call_admitted before_call
call c now later r cb = call_admitted c later r (before_call c now cb)

-- The method calls of a run. A context manager and `call` are a `before`, and later a `success` or
-- a `failure` if that was admitted.
pub data Event : Type 0 where
  before : ℕ → Event
  success reset_now : Event
  failure open_now : ℕ → Event

unfoldable pub step : Settings → CircuitBreaker → Event → CircuitBreaker
unfolding before_call on_success on_failure reset force_open
step c cb (before now) = (before_call c now cb).1
step c cb success = on_success c cb
step c cb (failure now) = on_failure c now cb
step c cb reset_now = reset cb
step c cb (open_now now) = force_open now cb

unfoldable pub run : Settings → CircuitBreaker → List Event → CircuitBreaker
run c cb [] = cb
run c cb (e ∷ es) = run c (step c cb e) es
