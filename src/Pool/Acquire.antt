-- ===== src/Pool/Acquire.antt =====
-- `acquire` of python/vedadb/pool.py: the order in which idle connections are handed out, and a wait
-- in which the pool is closed.
use vedadb_driver.Base.{
  ℕ, suc, ◌+◌, ◌<◌, ◌≡◌, refl, ap, ◌∙◌, true, false, Option, none, some, List, [], ◌∷◌, ◌++◌,
  length, arith, All, if_cases,
}
use vedadb_driver.Base.Dict.{nat_eq}
use vedadb_driver.Base.Sets.{add}
use vedadb_driver.Pool.{Settings, Pool, World, check_conn, shut_conn, shut_all}
use vedadb_driver.Pool.Calls.{
  close, Turn, got, wait, take_idle, new_turn, checked_new, after_idle, attempt, connection, Wait,
  turns, acquire,
}
use vedadb_driver.Pool.Shrinks.{Same, shut_all-Same}

-- The idle connections before the first one that answers are dead.
record Finds (c : ℕ) (rest dead : List ℕ) (p : Pool) (r : Option ℕ × Pool) : Type 0 where
  found : r.0 ≡ some c
  left : r.1.pool ≡ rest
  out : r.1.checked_out ≡ add c p.checked_out
  failures : r.1.failed_health ≡ p.failed_health + length dead

take_idle-Finds :
    (w : World) (dead : List ℕ) (c : ℕ) (rest : List ℕ) (p : Pool)
    → All (λ (d : ℕ). w.alive d ≡ false) dead
    → w.alive c ≡ true
    → Finds c rest dead p (take_idle w (dead ++ (c ∷ rest)) p)
unfolding take_idle
take_idle-Finds w [] c rest p d a =
    if_cases (Finds c rest [] p) (w.alive c)
      (λ _. record { found = refl; left = refl; out = refl; failures = omega arith })
      (λ h. absurd (ground (arith, h, a)))
take_idle-Finds w (x ∷ dead) c rest p d a =
    let p' = check_conn w x p in
    let q = shut_conn x (record p' { failed_health = suc p'.failed_health }) in
    let k = take_idle-Finds w dead c rest q d.1 a in
    if_cases (Finds c rest (x ∷ dead) p) (w.alive x) (λ h. absurd (ground (arith, h, d.0)))
      (λ _. record {
        found = k.found;
        left = k.left;
        out = k.out;
        failures = omega (arith, k.failures);
      })

took_idle :
    (w : World) (cs dead rest : List ℕ) (c : ℕ) (p : Pool)
    → cs ≡ dead ++ (c ∷ rest)
    → All (λ (d : ℕ). w.alive d ≡ false) dead
    → w.alive c ≡ true
    → Finds c rest dead p (take_idle w cs p)
took_idle w cs dead rest c p e d a = rw e (take_idle-Finds w dead c rest p d a)

got_idle :
    (w : World) (s : Settings) (c : ℕ) (r : Option ℕ × Pool)
    → r.0 ≡ some c
    → after_idle w s r ≡ (got c, r.1)
unfolding after_idle
got_idle w s c (some d, q) e = cc
got_idle w s c (none, q) e = cc

-- A turn of `acquire` hands out the first idle connection that answers. Those in front of it are
-- taken out and counted as failed checks, those behind it stay, and it counts as checked out.
attempt_first :
    (w : World) (s : Settings) (dead rest : List ℕ) (c : ℕ) (p : Pool)
    → p.pool ≡ dead ++ (c ∷ rest)
    → All (λ (d : ℕ). w.alive d ≡ false) dead
    → w.alive c ≡ true
    → let (t, q) = attempt w s p in
      (t ≡ got c)
      × (q.pool ≡ rest)
      × (q.checked_out ≡ add c p.checked_out)
      × (q.failed_health ≡ p.failed_health + length dead)
unfolding attempt
attempt_first w s dead rest c p e d a =
    let k = took_idle w p.pool dead rest c p e d a in
    rw (got_idle w s c (take_idle w p.pool p) k.found) (refl, k.left, k.out, k.failures)

turns_after :
    (s : Settings) (w : World) (deadline ended : ℕ) (ts : List Wait) (others : Pool → Pool)
    (p : Pool)
    → ended < deadline
    → turns s deadline ((ended, others, w) ∷ ts) (wait, p)
      ≡ turns s deadline ts (attempt w s (others p))
unfolding turns
turns_after s w deadline ended ts others p l = ground arith

turns_got :
    (s : Settings) (deadline : ℕ) (ts : List Wait) (c : ℕ) (p : Pool)
    → turns s deadline ts (got c, p) ≡ (connection c, p)
unfolding turns
turns_got s deadline [] c p = refl
turns_got s deadline (t ∷ ts) c p = refl

turns_of :
    (s : Settings) (deadline : ℕ) (ts : List Wait) (c : ℕ) (r : Turn × Pool)
    → r.0 ≡ got c
    → turns s deadline ts r ≡ (connection c, r.1)
turns_of s deadline ts c (t, q) e = rw e (turns_got s deadline ts c q)

new_turn_got :
    (w : World) (s : Settings) (p : Pool)
    → length p.checked_out + length p.pool < s.max_size
    → w.connects ≡ true
    → w.alive p.next_conn ≡ true
    → ((new_turn w s p).0 ≡ got p.next_conn) × ((new_turn w s p).1.closed ≡ p.closed)
unfolding new_turn checked_new
new_turn_got w s p room k a = ground arith

no_idle :
    (w : World) (s : Settings) (cs : List ℕ) (p : Pool)
    → cs ≡ []
    → after_idle w s (take_idle w cs p) ≡ new_turn w s (record p { pool = [] })
unfolding after_idle take_idle
no_idle w s cs p e = rw (e, take_idle, after_idle) refl

attempt_new :
    (w : World) (s : Settings) (p : Pool)
    → p.pool ≡ []
    → p.checked_out ≡ []
    → 0 < s.max_size
    → w.connects ≡ true
    → w.alive p.next_conn ≡ true
    → ((attempt w s p).0 ≡ got p.next_conn) × ((attempt w s p).1.closed ≡ p.closed)
unfolding attempt
attempt_new w s p e o pos k a =
    rw (no_idle w s p.pool p e)
      (new_turn_got w s (record p { pool = [] }) (omega (arith, pos, ap length o)) k a)

shut_all-closed : (cs : List ℕ) (p : Pool) → (shut_all cs p).closed ≡ p.closed
unfolding shut_all
shut_all-closed [] p = refl
shut_all-closed (c ∷ cs) p = shut_all-closed cs (shut_conn c p)

closed_after : (p : Pool) → (close p).closed ≡ true
unfolding close
closed_after p =
    shut_all-closed (p.pool ++ p.checked_out)
      (record p { closed = true; pool = []; checked_out = [] })

close-Same : (p : Pool) → Same (record p { closed = true; pool = []; checked_out = [] }) (close p)
unfolding close
close-Same p = shut_all-Same (p.pool ++ p.checked_out) _

acquire_open :
    (s : Settings) (w : World) (deadline : ℕ) (ts : List Wait) (p : Pool)
    → p.closed ≡ false
    → acquire s w deadline ts p
      ≡ turns s deadline ts (attempt w s (record p { total_requests = suc p.total_requests }))
unfolding acquire
acquire_open s w deadline ts p o = rw o refl

-- A thread that waits in `acquire` when the pool is closed does not learn of it: at its next turn it
-- makes a new connection and returns it out of the closed pool.
acquire_reopens :
    (s : Settings) (w w' : World) (deadline ended : ℕ) (ts : List Wait) (p q : Pool)
    → p.closed ≡ false
    → attempt w s (record p { total_requests = suc p.total_requests }) ≡ (wait, q)
    → ended < deadline
    → 0 < s.max_size
    → w'.connects ≡ true
    → w'.alive q.next_conn ≡ true
    → let (a, r) = acquire s w deadline ((ended, close, w') ∷ ts) p in
      (a ≡ connection q.next_conn) × (r.closed ≡ true)
acquire_reopens s w w' deadline ended ts p q o e l pos k a =
    let m = close-Same q in
    let (g, c) = attempt_new w' s (close q) m.same_pool m.out pos k (rw m.next a) in
    let r = attempt w' s (close q) in
    rw
      (
        acquire_open s w deadline ((ended, close, w') ∷ ts) p o,
        e,
        turns_after s w' deadline ended ts close q l,
        turns_of s deadline ts (close q).next_conn r g,
      )
      (ap connection m.next, c ∙ closed_after q)
