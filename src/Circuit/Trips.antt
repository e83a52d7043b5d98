-- ===== src/Circuit/Trips.antt =====
-- When the circuit breaker of python/vedadb/circuit.py opens, rejects and closes.
use vedadb_driver.Base.{
  ℕ, suc, ◌+◌, ◌≤◌, ◌<◌, ◌≡◌, List, [], ◌∷◌, map, All, length, arith, leb, if◌then◌else◌, inl, inr,
  Bool-cases,
}
use vedadb_driver.Circuit.{
  CircuitBreaker, closed, opened, Settings, Event, before, success, reset_now, failure, open_now,
  step, run,
}

module _ (c : Settings) where
  opened_failures :
      (cb : CircuitBreaker) (times : List ℕ)
      → cb.state ≡ opened
      → (run c cb (map failure times)).state ≡ opened
  unfolding run
  opened_failures cb [] h = h
  opened_failures cb (t ∷ times) h =
      opened_failures (step c cb (failure t)) times (unfold step in ground arith)

  step_failure :
      (cb : CircuitBreaker) (t : ℕ)
      → cb.state ≡ closed
      → let cb' = step c cb (failure t) in
        (cb'.state ≡ (if leb c.failure_threshold (cb.failure_count + 1) then opened else closed))
        × (cb'.failure_count ≡ cb.failure_count + 1)
  unfolding step
  step_failure cb t h = ground arith

  -- A closed breaker short of its threshold opens with exactly the failure that reaches the
  -- threshold, whenever the failures happen.
  failures_trip :
      (cb : CircuitBreaker) (times : List ℕ)
      → cb.state ≡ closed
      → cb.failure_count < c.failure_threshold
      → (run c cb (map failure times)).state
        ≡ (if leb c.failure_threshold (cb.failure_count + length times) then opened else closed)
  unfolding run
  failures_trip cb [] h lt = ground arith
  failures_trip cb (t ∷ times) h lt =
      elim (Bool-cases (leb c.failure_threshold (cb.failure_count + 1))) [
        | inl e ↦ ground (arith, step_failure cb t, opened_failures (step c cb (failure t)) times)
        | inr e ↦ ground (arith, step_failure cb t, failures_trip (step c cb (failure t)) times)
      ]

  -- An event that comes while a breaker that opened at time `t` may not yet probe: a call before
  -- the timeout, or the late outcome of an earlier call.
  abbrev pub IsEarly : ℕ → Event → Type 0
  IsEarly t (before now) = (t ≤ now) × (now < t + c.recovery_timeout)
  IsEarly t success = Unit
  IsEarly t (failure now) = t ≤ now
  IsEarly t (open_now now) = t ≤ now
  IsEarly t reset_now = ⊥

  abbrev pub calls : List Event → ℕ
  calls [] = 0
  calls (before now ∷ es) = suc (calls es)
  calls (_ ∷ es) = calls es

  calls_cons : (e : Event) (es : List Event) → calls (e ∷ es) ≡ calls (e ∷ []) + calls es
  calls_cons (before now) es = omega arith
  calls_cons _ es = omega arith

  early_step :
      (t : ℕ) (cb : CircuitBreaker) (e : Event)
      → cb.state ≡ opened
      → t ≤ cb.last_failure_time
      → IsEarly t e
      → let cb' = step c cb e in
        (cb'.state ≡ opened)
        × (t ≤ cb'.last_failure_time)
        × (cb'.total_calls ≡ cb.total_calls + calls (e ∷ []))
        × (cb'.total_rejected ≡ cb.total_rejected + calls (e ∷ []))
  unfolding step
  early_step t cb (before now) h l a = ground arith
  early_step t cb reset_now h l a = absurd a
  early_step t cb _ h l a = ground arith

  -- An open breaker stays open and rejects every call until the timeout since its last failure is
  -- over, whatever late outcomes arrive meanwhile.
  pub opened_rejects :
      (t : ℕ) (cb : CircuitBreaker) (es : List Event)
      → cb.state ≡ opened
      → t ≤ cb.last_failure_time
      → All (IsEarly t) es
      → let cb' = run c cb es in
        (cb'.state ≡ opened)
        × (cb'.total_calls ≡ cb.total_calls + calls es)
        × (cb'.total_rejected ≡ cb.total_rejected + calls es)
  unfolding run
  opened_rejects t cb [] h l a = (h, omega arith, omega arith)
  opened_rejects t cb (e ∷ es) h l a = ground (
    arith,
    early_step t cb e h l a.0,
    calls_cons e es,
    opened_rejects t (step c cb e) es (early_step t cb e h l a.0).0 (early_step t cb e h l a.0).1
        a.1,
  )
