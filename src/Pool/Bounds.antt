-- ===== src/Pool/Bounds.antt =====
-- How many connections the pool of python/vedadb/pool.py has, and its count of overflow connections.
use Prim.Native.Nat.{min}
use vedadb_driver.Base.{
  ℕ, zero, suc, ◌+◌, ◌≤◌, ◌≡◌, refl, ap, true, false, ◌||◌, List, [], ◌∷◌, ◌++◌, leb, length,
  length-append, arith, if_cases, All, ==_iff,
}
use vedadb_driver.Base.Dict.{nat_eq}
use vedadb_driver.Base.Sets.{has, discard, has-add, has-discard, length-discard-has}
use vedadb_driver.Pool.{
  Settings, Pool, World, is_expired, create_connection, prewarm, new, housekeep, health_checks,
  empty_pool,
}
use vedadb_driver.Pool.Calls.{
  Turn, got, wait, attempt, checkin, take_idle, new_turn, overflow_turn, close,
}
use vedadb_driver.Pool.Attempt.{Turns, attempt-Turns}
use vedadb_driver.Pool.System.{
  System, Event, attempted, given_back, housekept, checked, closed_now, hold, step, run,
}
use vedadb_driver.Pool.Shrinks.{Shrinks, shut_all-Same, housekeep-Shrinks, health_checks-Shrinks}
use vedadb_driver.Pool.Ownership.{IsOwned, step-IsOwned, start, new-IsOwned}

-- The pool is not closed.
abbrev pub IsOpen : Event → Type 0
IsOpen closed_now = ⊥
IsOpen _ = Unit {0}

pub record IsBounded (s : Settings) (y : System) : Type 0 where
  pub total : length y.pool.checked_out + length y.pool.pool ≤ s.max_size + y.pool.overflow
  pub overflow_bounded : y.pool.overflow ≤ s.max_overflow
  pub held_out : (c : ℕ) → has c y.held ≡ true → has c y.pool.checked_out ≡ true

Shrinks-IsBounded :
    (s : Settings) (y : System) (q : Pool)
    → Shrinks y.pool q
    → IsBounded s y
    → IsBounded s (record y { pool = q })
Shrinks-IsBounded s y q h v = record {
  total = omega (arith, v.total, h.part.short, ap length h.out, h.same_overflow);
  overflow_bounded = omega (arith, h.same_overflow, v.overflow_bounded);
  held_out = λ c k. ground (arith, h.out, v.held_out c k);
}

hold-IsBounded :
    (s : Settings) (y : System) (t : Turn) (q : Pool)
    → Turns s y.pool (t, q)
    → IsBounded s y
    → IsBounded s (record { pool = q; held = hold t y.held })
unfolding has
hold-IsBounded s y (got c) q h v = record {
  total = ground (arith, h.room, h.spent, v.total);
  overflow_bounded = ground (arith, h.kept, v.overflow_bounded);
  held_out = λ j k. ground (arith, k, h.out, has-add j c y.pool.checked_out, v.held_out j);
}
hold-IsBounded s y t q h v = record {
  total = ground (arith, h.room, h.spent, v.total);
  overflow_bounded = ground (arith, h.kept, v.overflow_bounded);
  held_out = λ j k. ground (arith, k, h.out, v.held_out j);
}

checkin-IsBounded :
    (w : World) (s : Settings) (c : ℕ) (y : System)
    → has c y.held ≡ true
    → IsBounded s y
    → IsBounded s (record { pool = checkin w s c y.pool; held = discard c y.held })
unfolding checkin
checkin-IsBounded w s c y m v =
    let p = y.pool in
    let out = discard c p.checked_out in
    let fewer = length-discard-has c p.checked_out (v.held_out c m) in
    let gone : has c out ≡ false = ground (arith, has-discard c c p.checked_out, ==_iff c c) in
    let kept : (j : ℕ) → has j (discard c y.held) ≡ true → has j out ≡ true = λ j k.
      ground (arith, k, has-discard j c y.held, has-discard j c p.checked_out, v.held_out j) in
    let still = λ (q : Pool). IsBounded s (record { pool = q; held = discard c y.held }) in
    if_cases still (is_expired s w.now (p.conns c) || (p.conns c).invalid)
      (λ _.
        if_cases still (has c out) (λ k. absurd (ground (arith, k, gone)))
          (λ _. record {
            total = omega (arith, v.total, fewer);
            overflow_bounded = v.overflow_bounded;
            held_out = kept;
          }))
      (λ _. record {
        total = omega (arith, v.total, fewer, length-append p.pool (c ∷ []));
        overflow_bounded = v.overflow_bounded;
        held_out = kept;
      })

step-IsBounded :
    (s : Settings) (y : System) (e : Event)
    → IsOpen e
    → IsOwned y
    → IsBounded s y
    → IsBounded s (step s y e)
unfolding step
step-IsBounded s y (attempted w) o u v =
    let r = attempt w s y.pool in
    hold-IsBounded s y r.0 r.1 (attempt-Turns w s y.pool u.idle_unique) v
step-IsBounded s y (given_back w c) o u v =
    if_cases (IsBounded s) (has c y.held) (λ m. checkin-IsBounded w s c y m v) (λ _. v)
step-IsBounded s y (housekept w) o u v =
    Shrinks-IsBounded s y (housekeep w s y.pool) (housekeep-Shrinks w s y.pool) v
step-IsBounded s y (checked w) o u v =
    Shrinks-IsBounded s y (health_checks w y.pool) (health_checks-Shrinks w y.pool) v
step-IsBounded s y closed_now o u v = absurd o

run-IsBounded_from :
    (s : Settings) (y : System) (es : List Event)
    → All IsOpen es
    → IsOwned y
    → IsBounded s y
    → IsBounded s (run s y es)
unfolding run
run-IsBounded_from s y [] o u v = v
run-IsBounded_from s y (e ∷ es) o u v =
    run-IsBounded_from s (step s y e) es o.1 (step-IsOwned s y e u) (step-IsBounded s y e o.0 u v)

one_more :
    (w : World) (p : Pool) (s : Settings)
    → length p.pool ≤ s.max_size
    → leb s.max_size (length p.pool) ≡ false
    → length (p.pool ++ (p.next_conn ∷ [])) ≤ s.max_size
one_more w p s l room = ground (arith, length-append p.pool (p.next_conn ∷ []))

prewarm-IsBounded :
    (w : World) (s : Settings) (count : ℕ) (p : Pool)
    → p.checked_out ≡ []
    → length p.pool ≤ s.max_size
    → p.overflow ≤ s.max_overflow
    → IsBounded s (start (prewarm w s count p))
unfolding prewarm has
prewarm-IsBounded w s zero p e l v = record {
  total = ground (arith, e, l);
  overflow_bounded = v;
  held_out = λ c k. cc;
}
prewarm-IsBounded w s (suc count) p e l v =
    let p' = create_connection w p in
    let q : Pool = record p' { pool = p'.pool ++ (p.next_conn ∷ []) } in
    let stop : IsBounded s (start p) = record {
      total = ground (arith, e, l);
      overflow_bounded = v;
      held_out = λ c k. cc;
    } in
    if_cases (λ r. IsBounded s (start r)) (leb s.max_size (length p.pool)) (λ _. stop)
      (λ room.
        if_cases (λ r. IsBounded s (start r)) w.connects
          (λ _. prewarm-IsBounded w s count q e (one_more w p s l room) v) (λ _. stop))

-- While a pool is open it never has more than max_size + max_overflow connections, idle and checked
-- out together, and never counts more than max_overflow overflow connections.
pub run-IsBounded :
    (w : World) (s : Settings) (es : List Event)
    → All IsOpen es
    → let p = (run s (start (new w s)) es).pool in
      (length p.checked_out + length p.pool ≤ s.max_size + s.max_overflow)
      × (p.overflow ≤ s.max_overflow)
unfolding new
run-IsBounded w s es o =
    let y = start (new w s) in
    let fine =
      prewarm-IsBounded w s (min 2 s.max_size) empty_pool refl (omega arith) (omega arith) in
    let v = run-IsBounded_from s y es o (new-IsOwned w s) fine in
    (omega (arith, v.total, v.overflow_bounded), v.overflow_bounded)

close-overflow : (p : Pool) → p.overflow ≤ (close p).overflow
unfolding close
close-overflow p = omega (
  arith,
  (shut_all-Same (p.pool ++ p.checked_out)
      (record p { closed = true; pool = []; checked_out = [] })).same_overflow,
)

checkin-overflow :
    (w : World) (s : Settings) (c : ℕ) (p : Pool) → (checkin w s c p).overflow ≡ p.overflow
unfolding checkin
checkin-overflow w s c p =
    let out = discard c p.checked_out in
    let gone : has c out ≡ false = ground (arith, has-discard c c p.checked_out, ==_iff c c) in
    let same = λ (q : Pool). q.overflow ≡ p.overflow in
    if_cases same (is_expired s w.now (p.conns c) || (p.conns c).invalid)
      (λ _. if_cases same (has c out) (λ k. absurd (ground (arith, k, gone))) (λ _. refl))
      (λ _. refl)

step-overflow :
    (s : Settings) (y : System) (e : Event)
    → IsOwned y
    → y.pool.overflow ≤ (step s y e).pool.overflow
unfolding step
step-overflow s y (attempted w) u = (attempt-Turns w s y.pool u.idle_unique).spent
step-overflow s y (given_back w c) u =
    if_cases (λ (z : System). y.pool.overflow ≤ z.pool.overflow) (has c y.held)
      (λ _. omega (arith, checkin-overflow w s c y.pool)) (λ _. omega arith)
step-overflow s y (housekept w) u = omega (arith, (housekeep-Shrinks w s y.pool).same_overflow)
step-overflow s y (checked w) u = omega (arith, (health_checks-Shrinks w y.pool).same_overflow)
step-overflow s y closed_now u = close-overflow y.pool

run-overflow :
    (s : Settings) (y : System) (es : List Event)
    → IsOwned y
    → y.pool.overflow ≤ (run s y es).pool.overflow
unfolding run
run-overflow s y [] u = omega arith
run-overflow s y (e ∷ es) u =
    omega (arith, step-overflow s y e u, run-overflow s (step s y e) es (step-IsOwned s y e u))

attempt_waits :
    (w : World) (s : Settings) (p : Pool)
    → p.pool ≡ []
    → s.max_size ≤ length p.checked_out
    → s.max_overflow ≤ p.overflow
    → (attempt w s p).0 ≡ wait
unfolding attempt take_idle new_turn overflow_turn
attempt_waits w s p e full used = rw e (ground arith)

-- Once max_overflow overflow connections were handed out, no further one ever is, whatever happens
-- in between, and even if all of them were returned: a turn that finds no idle connection and
-- max_size connections checked out waits.
overflow_used_up :
    (w : World) (s : Settings) (y : System) (es : List Event)
    → IsOwned y
    → s.max_overflow ≤ y.pool.overflow
    → (run s y es).pool.pool ≡ []
    → s.max_size ≤ length (run s y es).pool.checked_out
    → (attempt w s (run s y es).pool).0 ≡ wait
overflow_used_up w s y es u used e full =
    attempt_waits w s (run s y es).pool e full (omega (arith, used, run-overflow s y es u))
