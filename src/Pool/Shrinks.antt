-- ===== src/Pool/Shrinks.antt =====
-- Housekeeping, health checks and closing in python/vedadb/pool.py only take connections out of the
-- idle ones.
use vedadb_driver.Base.{
  ℕ, ◌≤◌, ◌≡◌, refl, ◌∙◌, Bool, true, false, List, [], ◌∷◌, length, arith, if_cases,
}
use vedadb_driver.Base.Dict.{nat_eq}
use vedadb_driver.Base.Sets.{has, Unique}
use vedadb_driver.Pool.{
  Conn, Settings, Pool, World, is_expired, shut_conn, shut_all, check_conn, live_of, expired_of,
  housekeep, check_all, tally, health_checks,
}

-- Some of the elements of a list, in their order.
pub record Part (xs ys : List ℕ) : Type 0 where
  pub unique : Unique ys → Unique xs
  pub sub : (j : ℕ) → has j xs ≡ true → has j ys ≡ true
  pub short : length xs ≤ length ys

Part-none : (ys : List ℕ) → Part [] ys
unfolding has
Part-none ys = record { unique = λ u. tt; sub = λ j h. cc; short = omega arith }

Part-drop : (c : ℕ) (xs ys : List ℕ) → Part xs ys → Part xs (c ∷ ys)
unfolding has
Part-drop c xs ys h = record {
  unique = λ u. h.unique u.1;
  sub = λ j k. ground (arith, h.sub j k);
  short = omega (arith, h.short);
}

Part-keep : (c : ℕ) (xs ys : List ℕ) → Part xs ys → Part (c ∷ xs) (c ∷ ys)
unfolding has
Part-keep c xs ys h = record {
  unique = λ u. (ground (arith, u.0, h.sub c), h.unique u.1);
  sub = λ j k. ground (arith, h.sub j, k);
  short = omega (arith, h.short);
}

live_of-Part :
    (s : Settings) (now : ℕ) (conns : ℕ → Conn) (cs : List ℕ) → Part (live_of s now conns cs) cs
live_of-Part s now conns [] = Part-none []
live_of-Part s now conns (c ∷ cs) =
    let rest = live_of-Part s now conns cs in
    if_cases (λ xs. Part xs (c ∷ cs)) (is_expired s now (conns c))
      (λ h. Part-drop c (live_of s now conns cs) cs rest)
      (λ h. Part-keep c (live_of s now conns cs) cs rest)

-- An operation that only takes away idle connections.
pub record Shrinks (p q : Pool) : Type 0 where
  pub part : Part q.pool p.pool
  pub out : q.checked_out ≡ p.checked_out
  pub next : q.next_conn ≡ p.next_conn
  pub same_overflow : q.overflow ≡ p.overflow

-- Closing connections changes none of the lists.
pub record Same (p q : Pool) : Type 0 where
  pub same_pool : q.pool ≡ p.pool
  pub out : q.checked_out ≡ p.checked_out
  pub next : q.next_conn ≡ p.next_conn
  pub same_overflow : q.overflow ≡ p.overflow

pub shut_all-Same : (cs : List ℕ) (p : Pool) → Same p (shut_all cs p)
unfolding shut_all
shut_all-Same [] p = record { same_pool = refl; out = refl; next = refl; same_overflow = refl }
shut_all-Same (c ∷ cs) p =
    let h = shut_all-Same cs (shut_conn c p) in
    record { same_pool = h.same_pool; out = h.out; next = h.next; same_overflow = h.same_overflow }

Same→Shrinks : {p q r : Pool} → Shrinks p q → Same q r → Shrinks p r
Same→Shrinks {p} h k = record {
  part = rw k.same_pool h.part;
  out = k.out ∙ h.out;
  next = k.next ∙ h.next;
  same_overflow = k.same_overflow ∙ h.same_overflow;
}

pub housekeep-Shrinks : (w : World) (s : Settings) (p : Pool) → Shrinks p (housekeep w s p)
unfolding housekeep
housekeep-Shrinks w s p =
    let q : Pool = record p { pool = live_of s w.now p.conns p.pool } in
    let h : Shrinks p q = record {
      part = live_of-Part s w.now p.conns p.pool;
      out = refl;
      next = refl;
      same_overflow = refl;
    } in
    Same→Shrinks h (shut_all-Same (expired_of s w.now p.conns p.pool) q)

-- What `_run_health_checks` finds.
record Checks (cs : List ℕ) (p : Pool) (r : List ℕ × List ℕ × Pool) : Type 0 where
  part : Part r.0 cs
  out : r.2.checked_out ≡ p.checked_out
  next : r.2.next_conn ≡ p.next_conn
  same_overflow : r.2.overflow ≡ p.overflow

tally-Same : (b : Bool) (p : Pool) → Same p (tally b p)
unfolding tally
tally-Same true p = record { same_pool = refl; out = refl; next = refl; same_overflow = refl }
tally-Same false p = record { same_pool = refl; out = refl; next = refl; same_overflow = refl }

check_all-Checks : (w : World) (cs : List ℕ) (p : Pool) → Checks cs p (check_all w cs p)
unfolding check_all
check_all-Checks w [] p = record {
  part = Part-none [];
  out = refl;
  next = refl;
  same_overflow = refl;
}
check_all-Checks w (c ∷ cs) p =
    let p' = check_conn w c p in
    let m = tally-Same (w.alive c) p' in
    let k = check_all-Checks w cs (tally (w.alive c) p') in
    let r = check_all w cs (tally (w.alive c) p') in
    if_cases (Checks (c ∷ cs) p) (w.alive c)
      (λ h. record {
        part = Part-keep c r.0 cs k.part;
        out = k.out ∙ m.out;
        next = k.next ∙ m.next;
        same_overflow = k.same_overflow ∙ m.same_overflow;
      })
      (λ h. record {
        part = Part-drop c r.0 cs k.part;
        out = k.out ∙ m.out;
        next = k.next ∙ m.next;
        same_overflow = k.same_overflow ∙ m.same_overflow;
      })

pub health_checks-Shrinks : (w : World) (p : Pool) → Shrinks p (health_checks w p)
unfolding health_checks
health_checks-Shrinks w p =
    let r = check_all w p.pool p in
    let k = check_all-Checks w p.pool p in
    let q : Pool = record r.2 { pool = r.0; last_health_check = w.now } in
    let h : Shrinks p q = record {
      part = k.part;
      out = k.out;
      next = k.next;
      same_overflow = k.same_overflow;
    } in
    Same→Shrinks h (shut_all-Same r.1 q)
