-- ===== src/Circuit/Stuck.antt =====
-- The half-open state of the circuit breaker of python/vedadb/circuit.py.
use vedadb_driver.Base.{ℕ, suc, ◌+◌, ◌≤◌, ◌<◌, ◌≡◌, refl, ap, List, [], ◌∷◌, map, length, arith}
use vedadb_driver.Circuit.{
  CircuitBreaker, closed, opened, half_open, Settings, Event, before, success, step, run,
}

-- One call after another, each admitted and then successful, at the given times.
abbrev pub probes : List ℕ → List Event
probes [] = []
probes (t ∷ times) = before t ∷ success ∷ probes times

module _ (c : Settings) where
  exhausted_step :
      (cb : CircuitBreaker) (t : ℕ)
      → cb.state ≡ half_open
      → c.half_open_max_calls ≤ cb.half_open_calls
      → let cb' = step c cb (before t) in
        (cb'.state ≡ half_open)
        × (cb'.half_open_calls ≡ cb.half_open_calls)
        × (cb'.total_rejected ≡ cb.total_rejected + 1)
  unfolding step
  exhausted_step cb t h l = ground arith

  -- A half-open breaker that has admitted as many probes as are allowed rejects all further calls,
  -- at any time, and stays half-open: no timeout leads out of this state.
  exhausted_rejects :
      (cb : CircuitBreaker) (times : List ℕ)
      → cb.state ≡ half_open
      → c.half_open_max_calls ≤ cb.half_open_calls
      → let cb' = run c cb (map before times) in
        (cb'.state ≡ half_open)
        × (cb'.half_open_calls ≡ cb.half_open_calls)
        × (cb'.total_rejected ≡ cb.total_rejected + length times)
  unfolding run
  exhausted_rejects cb [] h l = (h, refl, omega arith)
  exhausted_rejects cb (t ∷ times) h l =
      ground (arith, exhausted_step cb t, exhausted_rejects (step c cb (before t)) times)

  -- Sequential probes that all succeed: as many as are allowed and fall short of the threshold.
  probe_step :
      (cb : CircuitBreaker) (t : ℕ)
      → cb.state ≡ half_open
      → cb.half_open_calls < c.half_open_max_calls
      → let cb' = step c (step c cb (before t)) success in
        (cb'.failure_count ≡ 0)
        × (cb.success_count + 1 < c.success_threshold
            → (cb'.state ≡ half_open)
              × (cb'.half_open_calls ≡ cb.half_open_calls + 1)
              × (cb'.success_count ≡ cb.success_count + 1))
        × (c.success_threshold ≤ cb.success_count + 1 → cb'.state ≡ closed)
  unfolding step
  probe_step cb t h l = (ground arith, (λ k. ground arith), (λ k. ground arith))

  probes-run :
      (cb : CircuitBreaker) (times : List ℕ)
      → cb.state ≡ half_open
      → cb.half_open_calls + length times ≤ c.half_open_max_calls
      → cb.success_count + length times < c.success_threshold
      → let cb' = run c cb (probes times) in
        (cb'.state ≡ half_open)
        × (cb'.half_open_calls ≡ cb.half_open_calls + length times)
        × (cb'.success_count ≡ cb.success_count + length times)
  unfolding run
  probes-run cb [] h l k = (h, omega arith, omega arith)
  probes-run cb (t ∷ times) h l k =
      let (_, stays, _) = probe_step cb t h (omega arith) in
      let (h', calls, successes) = stays (omega arith) in
      let (a, b, d) =
        probes-run (step c (step c cb (before t)) success) times h' (omega (arith, calls))
          (omega (arith, successes)) in
      (a, omega (arith, b, calls), omega (arith, d, successes))

  probes_close :
      (cb : CircuitBreaker) (t : ℕ) (times : List ℕ)
      → cb.state ≡ half_open
      → cb.half_open_calls + suc (length times) ≤ c.half_open_max_calls
      → cb.success_count + suc (length times) ≡ c.success_threshold
      → let cb' = run c cb (probes (t ∷ times)) in (cb'.state ≡ closed) × (cb'.failure_count ≡ 0)
  unfolding run
  probes_close cb t [] h l k =
      let (none_failed, _, closes) = probe_step cb t h (omega arith) in
      (closes (omega arith), none_failed)
  probes_close cb t (u ∷ times) h l k =
      let (_, stays, _) = probe_step cb t h (omega arith) in
      let (h', calls, successes) = stays (omega arith) in
      probes_close (step c (step c cb (before t)) success) u times h' (omega (arith, calls))
        (omega (arith, successes))

  -- The first call after the timeout finds the breaker as if it were half-open with no probe made.
  abbrev probing : CircuitBreaker → CircuitBreaker
  probing cb = record cb { state = half_open; half_open_calls = 0; success_count = 0 }

  first_probe :
      (cb : CircuitBreaker) (t : ℕ)
      → cb.state ≡ opened
      → cb.last_failure_time + c.recovery_timeout ≤ t
      → step c cb (before t) ≡ step c (probing cb) (before t)
  unfolding step
  first_probe cb t h l = ground arith

  run_first :
      (cb : CircuitBreaker) (t : ℕ) (times : List ℕ)
      → cb.state ≡ opened
      → cb.last_failure_time + c.recovery_timeout ≤ t
      → run c cb (probes (t ∷ times)) ≡ run c (probing cb) (probes (t ∷ times))
  unfolding run
  run_first cb t times h l =
      ap (λ b. run c (step c b success) (probes times)) (first_probe cb t h l)

  -- From the open state, once the timeout since the last failure is over, as many successful calls
  -- as the success threshold asks for close the breaker and forget its failures, if that many
  -- probes are allowed.
  probes_recover :
      (cb : CircuitBreaker) (t : ℕ) (times : List ℕ)
      → cb.state ≡ opened
      → cb.last_failure_time + c.recovery_timeout ≤ t
      → suc (length times) ≡ c.success_threshold
      → c.success_threshold ≤ c.half_open_max_calls
      → let cb' = run c cb (probes (t ∷ times)) in (cb'.state ≡ closed) × (cb'.failure_count ≡ 0)
  probes_recover cb t times h l n k =
      rw (run_first cb t times h l)
        (probes_close (probing cb) t times refl (omega arith) (omega arith))

  -- Where fewer probes are allowed than successes are needed, the breaker never closes again by
  -- itself: after the allowed probes, all of them successful, it stays half-open and rejects every
  -- later call, however late.
  probes_stuck :
      (cb : CircuitBreaker) (t : ℕ) (times later : List ℕ)
      → cb.state ≡ opened
      → cb.last_failure_time + c.recovery_timeout ≤ t
      → suc (length times) ≡ c.half_open_max_calls
      → c.half_open_max_calls < c.success_threshold
      → let tried = run c cb (probes (t ∷ times)) in
        let cb' = run c tried (map before later) in
        (cb'.state ≡ half_open) × (cb'.total_rejected ≡ tried.total_rejected + length later)
  probes_stuck cb t times later h l n k =
      let (a, b, _) = probes-run (probing cb) (t ∷ times) refl (omega arith) (omega arith) in
      let e = run_first cb t times h l in
      let tried = run c cb (probes (t ∷ times)) in
      let (s, _, r) = exhausted_rejects tried later (rw e a) (rw e (omega (arith, b))) in (s, r)
