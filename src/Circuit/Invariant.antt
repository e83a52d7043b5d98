-- ===== src/Circuit/Invariant.antt =====
-- What holds of the circuit breaker of python/vedadb/circuit.py in every run, compared with what the
-- threads see: their calls, which of these were admitted, and the state property.
use vedadb_driver.Base.{
  ℕ, suc, ◌≤◌, ◌<◌, ◌≡◌, Bool, true, false, List, [], ◌∷◌, arith, if◌then◌else◌, Result, ok, err,
}
use vedadb_driver.Circuit.{
  CircuitState, CircuitBreaker, CircuitOpenError, closed, half_open, Settings, Event, before,
  success, failure, reset_now, open_now, before_call, new, step, run,
}

-- Counted from the calls and their answers alone: the calls, those rejected, the failures since the last
-- success or reset, and, since the breaker last became half-open, the calls admitted while it was so
-- and the successes that came while it was so.
pub record Seen : Type 0 where
  pub calls : ℕ
  pub rejected : ℕ
  pub failures : ℕ
  pub probes : ℕ
  pub successes : ℕ

abbrev nothing_seen : Seen
nothing_seen = record { calls = 0; rejected = 0; failures = 0; probes = 0; successes = 0 }

abbrev is_half_open : CircuitState → Bool
is_half_open half_open = true
is_half_open _ = false

-- A call that was answered, with the states before and after it.
abbrev see_answer : CircuitState → CircuitState → Result CircuitOpenError (Unit {0}) → Seen → Seen
see_answer s t (err e) g =
    let kept = is_half_open s in
    record g {
      calls = suc g.calls;
      rejected = suc g.rejected;
      probes = if kept then g.probes else 0;
      successes = if kept then g.successes else 0;
    }
see_answer s t (ok _) g =
    let kept = is_half_open s in
    record g {
      calls = suc g.calls;
      probes = if is_half_open t then suc (if kept then g.probes else 0) else 0;
      successes = if kept then g.successes else 0;
    }

abbrev see : Settings → CircuitBreaker → Event → Seen → Seen
see c cb (before now) g =
    see_answer cb.state (step c cb (before now)).state (before_call c now cb).0 g
see c cb success g = record g {
  failures = 0;
  successes = if is_half_open cb.state then suc g.successes else g.successes;
}
see c cb (failure now) g = record g { failures = suc g.failures }
see c cb reset_now g = record g { failures = 0 }
see c cb (open_now now) g = g

unfoldable pub seen_from : Settings → CircuitBreaker → List Event → Seen → Seen
unfolding step before_call
seen_from c cb [] g = g
seen_from c cb (e ∷ es) g = seen_from c (step c cb e) es (see c cb e g)

unfoldable pub seen : Settings → List Event → Seen
unfolding seen_from
seen c es = seen_from c new es nothing_seen

pub record IsValid (c : Settings) (g : Seen) (cb : CircuitBreaker) : Type 0 where
  pub below_threshold : cb.state ≡ closed → g.failures < c.failure_threshold
  pub probes_capped : cb.state ≡ half_open → g.probes ≤ c.half_open_max_calls
  pub successes_capped : cb.state ≡ half_open → g.successes < c.success_threshold
  pub failures_counted : cb.failure_count ≡ g.failures
  pub probes_counted : cb.state ≡ half_open → cb.half_open_calls ≡ g.probes
  pub successes_counted : cb.state ≡ half_open → cb.success_count ≡ g.successes
  pub calls_counted : cb.total_calls ≡ g.calls
  pub rejected_counted : cb.total_rejected ≡ g.rejected

module _ (c : Settings) (pos_failures : 0 < c.failure_threshold)
    (pos_successes : 0 < c.success_threshold) where
  step-IsValid :
      (cb : CircuitBreaker) (e : Event) (g : Seen)
      → IsValid c g cb
      → IsValid c (see c cb e g) (step c cb e)
  unfolding step before_call
  step-IsValid cb e g v = ground arith

  run-IsValid_from :
      (cb : CircuitBreaker) (es : List Event) (g : Seen)
      → IsValid c g cb
      → IsValid c (seen_from c cb es g) (run c cb es)
  unfolding run seen_from
  run-IsValid_from cb [] g v = v
  run-IsValid_from cb (e ∷ es) g v =
      run-IsValid_from (step c cb e) es (see c cb e g) (step-IsValid cb e g v)

  new-IsValid : IsValid c nothing_seen new
  new-IsValid = ground arith

  -- In every run of a new breaker whose two thresholds are not 0, however the calls of the threads
  -- interleave: while it is closed, fewer failures than the threshold have come since the last success
  -- or reset; while it is half-open, it has admitted no more calls than allowed since it became so, and
  -- fewer successes than close it have come; and its counters of these failures, of these calls and
  -- successes while it is half-open, of all calls and of those rejected are what the threads saw.
  pub run-IsValid : (es : List Event) → IsValid c (seen c es) (run c new es)
  unfolding seen
  run-IsValid es = run-IsValid_from new es nothing_seen new-IsValid
