-- ===== src/Health/Outcomes.antt =====
-- What the state of a HealthChecker of python/vedadb/health.py says of the checks so far.
use vedadb_driver.Base.{
  ℕ, suc, ◌+◌, ◌≡◌, refl, sym, ap, ◌∙◌, Option, none, some, Bool, true, false, ◌&&◌, ◌||◌, List, [],
  ◌∷◌, ◌++◌, arith, leb, ltb, ◌==◌, if◌then◌else◌, Result, ok, err, length, drop, ◌-◌, drop-nil,
  drop-drop, drop-append_le, length-drop, length-append,
}
use vedadb_driver.Health.{
  Awaited, returned, timed_out, raised, check_async, Settings, HealthChecker, new, append_max,
  succeeded, failed, check,
}

-- Checks one after the other, the last one first: a ping that answered after so long, or one that failed.
pub data Outcome : Type 0 where
  alive : ℕ → Outcome
  dead : Outcome

abbrev pub outcome : {E : Type 0} → Result E Bool → ℕ → Outcome
outcome (ok true) elapsed = alive elapsed
outcome (ok false) elapsed = dead
outcome (err e) elapsed = dead

abbrev pub outcomes : {E : Type 0} → List (Result E Bool × ℕ) → List Outcome
outcomes [] = []
outcomes ((a, t) ∷ cs) = outcome a t ∷ outcomes cs

unfoldable pub after : {E : Type 0} → Settings → List (Result E Bool × ℕ) → HealthChecker
after s [] = new
after s ((a, t) ∷ cs) = (check s a t (after s cs)).1

-- The failures since the last success, and all of them.
abbrev pub failures_in_row : List Outcome → ℕ
failures_in_row (dead ∷ os) = suc (failures_in_row os)
failures_in_row _ = 0

abbrev pub failures : List Outcome → ℕ
failures [] = 0
failures (dead ∷ os) = suc (failures os)
failures (alive t ∷ os) = failures os

abbrev pub ever_alive : List Outcome → Bool
ever_alive [] = false
ever_alive (dead ∷ os) = ever_alive os
ever_alive (alive t ∷ os) = true

-- How long the successful ones took, the oldest first.
abbrev pub latencies : List Outcome → List ℕ
latencies [] = []
latencies (dead ∷ os) = latencies os
latencies (alive t ∷ os) = latencies os ++ (t ∷ [])

abbrev pub latest : List Outcome → ℕ
latest [] = 0
latest (dead ∷ os) = latest os
latest (alive t ∷ os) = t

-- The last n of a list.
abbrev pub last_of : ℕ → List ℕ → List ℕ
last_of n xs = drop (length xs - n) xs

-- The state is the one that the outcomes of the checks describe.
pub record Describes (s : Settings) (os : List Outcome) (h : HealthChecker) : Type 0 where
  pub checks : h.total_checks ≡ length os
  pub all_failures : h.total_failures ≡ failures os
  pub in_row : h.consecutive_failures ≡ failures_in_row os
  pub healthy :
      h.is_healthy
      ≡ (ever_alive os && (failures_in_row os == 0 || ltb (failures_in_row os) s.failure_threshold))
  pub last : h.last_ping_ms ≡ latest os
  pub kept : h.history ≡ last_of s.history_size (latencies os)

append_max-last_of :
    (n t : ℕ) (xs : List ℕ) → append_max n t (last_of n xs) ≡ last_of n (xs ++ (t ∷ []))
unfolding append_max
append_max-last_of n t xs =
    let k = length xs - n in
    let zs = xs ++ (t ∷ []) in
    let e : drop k xs ++ (t ∷ []) ≡ drop k zs = sym (drop-append_le k xs (t ∷ []) (omega arith)) in
    ap (λ ys. drop (length ys - n) ys) e
    ∙ (sym (drop-drop (length (drop k zs) - n) k zs)
        ∙ ap (λ i. drop i zs) (omega (arith, length-drop k zs, length-append xs (t ∷ []))))

healthy_after :
    (threshold : ℕ) (os : List Outcome) (h : HealthChecker)
    → h.consecutive_failures ≡ failures_in_row os
    → h.is_healthy
      ≡ (ever_alive os && (failures_in_row os == 0 || ltb (failures_in_row os) threshold))
    → (if leb threshold (h.consecutive_failures + 1) then false else h.is_healthy) ≡ (
        ever_alive os
        && (suc (failures_in_row os) == 0 || ltb (suc (failures_in_row os)) threshold))
healthy_after threshold os h e i = ground (arith, e, i)

check-Describes :
    {E : Type 0} (s : Settings) (a : Result E Bool) (t : ℕ) (os : List Outcome) (h : HealthChecker)
    → Describes s os h
    → Describes s (outcome a t ∷ os) (check s a t h).1
unfolding check succeeded failed
check-Describes s (ok true) t os h d = record {
  checks = omega (arith, d.checks);
  all_failures = d.all_failures;
  in_row = refl;
  healthy = refl;
  last = refl;
  kept =
      ap (append_max s.history_size t) d.kept ∙ append_max-last_of s.history_size t (latencies os);
}
check-Describes s (ok false) t os h d = record {
  checks = omega (arith, d.checks);
  all_failures = omega (arith, d.all_failures);
  in_row = omega (arith, d.in_row);
  healthy = healthy_after s.failure_threshold os h d.in_row d.healthy;
  last = d.last;
  kept = d.kept;
}
check-Describes s (err e) t os h d = record {
  checks = omega (arith, d.checks);
  all_failures = omega (arith, d.all_failures);
  in_row = omega (arith, d.in_row);
  healthy = healthy_after s.failure_threshold os h d.in_row d.healthy;
  last = d.last;
  kept = d.kept;
}

-- After any checks, with pings that answer true or false or raise, the checker is what their outcomes
-- say: the counts are those of all checks, of the failures, and of the failures since the last
-- success; it is healthy if there was a success and fewer failures since than the threshold; the
-- history has the latencies of the last successes, as many as it is made for.
pub after-Describes :
    {E : Type 0} (s : Settings) (cs : List (Result E Bool × ℕ))
    → Describes s (outcomes cs) (after s cs)
unfolding after new
after-Describes s [] = record {
  checks = refl;
  all_failures = refl;
  in_row = refl;
  healthy = refl;
  last = refl;
  kept = sym (drop-nil (0 - s.history_size));
}
after-Describes s ((a, t) ∷ cs) =
    check-Describes s a t (outcomes cs) (after s cs) (after-Describes s cs)

-- An awaited answer as an answer of a check that waits for ever: a timeout is an exception.
abbrev pub answer_of : {E : Type 0} → Awaited E → Result (Option E) Bool
answer_of (returned b) = ok b
answer_of timed_out = err none
answer_of (raised e) = err (some e)

-- The asynchronous check does what the synchronous one does, with a timeout for an exception.
pub check_async-check :
    {E : Type 0} (s : Settings) (a : Awaited E) (t : ℕ) (h : HealthChecker)
    → check_async s a t h ≡ check s (answer_of a) t h
unfolding check check_async
check_async-check s (returned true) t h = refl
check_async-check s (returned false) t h = refl
check_async-check s timed_out t h = refl
check_async-check s (raised e) t h = refl
