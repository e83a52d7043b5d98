-- ===== src/Pool/Ownership.antt =====
-- Who has a connection of python/vedadb/pool.py: the pool, or one PooledConnection that is not closed.
use Prim.Native.Nat.{min}
use vedadb_driver.Base.{
  ℕ, zero, suc, ◌<◌, ◌≡◌, refl, true, false, ◌||◌, List, [], ◌∷◌, ◌++◌, leb, ◌==◌, length, arith,
  Bool-cases, if_cases, ==_iff,
}
use vedadb_driver.Base.Dict.{nat_eq}
use vedadb_driver.Base.Sets.{
  has, discard, Unique, has-add, has-discard, has-append, discard-Unique, append_last-Unique,
}
use vedadb_driver.Pool.{
  Settings, Pool, World, is_expired, create_connection, prewarm, new, housekeep, health_checks,
  empty_pool,
}
use vedadb_driver.Pool.Calls.{Turn, got, attempt, checkin, close}
use vedadb_driver.Pool.Attempt.{Turns, attempt-Turns}
use vedadb_driver.Pool.System.{
  System, Event, attempted, given_back, housekept, checked, closed_now, hold, step, run,
}
use vedadb_driver.Pool.Shrinks.{Shrinks, shut_all-Same, housekeep-Shrinks, health_checks-Shrinks}

has-one : (j c : ℕ) → has j (c ∷ []) ≡ (c == j)
unfolding has
has-one j c = ground arith

-- Nobody shares a connection: the idle ones are different, the held ones are different, no idle one
-- is held, and new ones will be different from all of them.
pub record IsOwned (y : System) : Type 0 where
  pub idle_unique : Unique y.pool.pool
  pub held_unique : Unique y.held
  pub apart : (c : ℕ) → has c y.pool.pool ≡ true → has c y.held ≡ false
  pub idle_below : (c : ℕ) → has c y.pool.pool ≡ true → c < y.pool.next_conn
  pub held_below : (c : ℕ) → has c y.held ≡ true → c < y.pool.next_conn
  pub out_held : (c : ℕ) → has c y.pool.checked_out ≡ true → has c y.held ≡ true

Shrinks-IsOwned :
    (y : System) (q : Pool) → Shrinks y.pool q → IsOwned y → IsOwned (record y { pool = q })
Shrinks-IsOwned y q h v = record {
  idle_unique = h.part.unique v.idle_unique;
  held_unique = v.held_unique;
  apart = λ c k. v.apart c (h.part.sub c k);
  idle_below = λ c k. omega (arith, h.next, v.idle_below c (h.part.sub c k));
  held_below = λ c k. omega (arith, h.next, v.held_below c k);
  out_held = λ c k. v.out_held c (ground (arith, h.out, k));
}

-- The connection that a turn hands out is nobody's.
hold-IsOwned :
    (s : Settings) (y : System) (t : Turn) (q : Pool)
    → Turns s y.pool (t, q)
    → IsOwned y
    → IsOwned (record { pool = q; held = hold t y.held })
unfolding has
hold-IsOwned s y (got c) q h v =
    let free : has c y.held ≡ false =
      ground (arith, h.source c refl, v.apart c, v.held_below c, Bool-cases (has c y.held)) in
    record {
      idle_unique = h.idle_unique;
      held_unique = (free, v.held_unique);
      apart = λ j k. ground (arith, k, h.not_idle c refl, ==_iff c j, v.apart j (h.was_idle j k));
      idle_below = λ j k. omega (arith, h.next, v.idle_below j (h.was_idle j k));
      held_below = λ j k.
          ground (arith, k, h.source c refl, v.idle_below c, v.held_below j, h.next, ==_iff c j);
      out_held = λ j k. ground (arith, k, h.out, has-add j c y.pool.checked_out, v.out_held j);
    }
hold-IsOwned s y t q h v = record {
  idle_unique = h.idle_unique;
  held_unique = v.held_unique;
  apart = λ j k. v.apart j (h.was_idle j k);
  idle_below = λ j k. omega (arith, h.next, v.idle_below j (h.was_idle j k));
  held_below = λ j k. omega (arith, h.next, v.held_below j k);
  out_held = λ j k. v.out_held j (ground (arith, h.out, k));
}

checkin-IsOwned :
    (w : World) (s : Settings) (c : ℕ) (y : System)
    → has c y.held ≡ true
    → IsOwned y
    → IsOwned (record { pool = checkin w s c y.pool; held = discard c y.held })
unfolding checkin
checkin-IsOwned w s c y m v =
    let p = y.pool in
    let out = discard c p.checked_out in
    let idle = λ (q : Pool). IsOwned (record { pool = q; held = discard c y.held }) in
    if_cases idle (is_expired s w.now (p.conns c) || (p.conns c).invalid)
      (λ _. if_cases idle (has c out) (λ _. gone refl refl refl) (λ _. gone refl refl refl))
      (λ _. back)
  where
    held_back : (j : ℕ) → has j (discard c y.held) ≡ true → has j y.held ≡ true
    held_back j k = ground (arith, k, has-discard j c y.held)

    out_back :
        (j : ℕ) → has j (discard c y.pool.checked_out) ≡ true → has j (discard c y.held) ≡ true
    out_back j k =
        ground (arith, k, has-discard j c y.held, has-discard j c y.pool.checked_out, v.out_held j)

    -- The connection is closed.
    gone :
        {q : Pool}
        → q.pool ≡ y.pool.pool
        → q.next_conn ≡ y.pool.next_conn
        → q.checked_out ≡ discard c y.pool.checked_out
        → IsOwned (record { pool = q; held = discard c y.held })
    gone e n o = record {
      idle_unique = rw e v.idle_unique;
      held_unique = discard-Unique c y.held v.held_unique;
      apart = λ j k. ground (arith, has-discard j c y.held, v.apart j, e, k);
      idle_below = λ j k. omega (arith, n, v.idle_below j (ground (arith, e, k)));
      held_below = λ j k. omega (arith, n, v.held_below j (held_back j k));
      out_held = λ j k. out_back j (ground (arith, o, k));
    }

    -- The connection is idle again.
    back : IsOwned (record {
      pool = record y.pool {
        checked_out = discard c y.pool.checked_out;
        pool = y.pool.pool ++ (c ∷ []);
      };
      held = discard c y.held;
    })
    back = record {
      idle_unique =
          append_last-Unique c y.pool.pool v.idle_unique
            (ground (arith, m, v.apart c, Bool-cases (has c y.pool.pool)));
      held_unique = discard-Unique c y.held v.held_unique;
      apart = λ j k. ground (
        arith,
        k,
        has-append j y.pool.pool (c ∷ []),
        has-one j c,
        has-discard j c y.held,
        v.apart j,
        Bool-cases (has j y.pool.pool),
      );
      idle_below = λ j k. ground (
        arith,
        k,
        has-append j y.pool.pool (c ∷ []),
        has-one j c,
        ==_iff c j,
        v.idle_below j,
        v.held_below c m,
      );
      held_below = λ j k. v.held_below j (held_back j k);
      out_held = out_back;
    }

close-IsOwned : (y : System) → IsOwned y → IsOwned (record y { pool = close y.pool })
unfolding close has
close-IsOwned y v =
    let q : Pool = record y.pool { closed = true; pool = []; checked_out = [] } in
    let m = shut_all-Same (y.pool.pool ++ y.pool.checked_out) q in
    record {
      idle_unique = rw m.same_pool tt;
      held_unique = v.held_unique;
      apart = λ c k. ground (arith, m.same_pool, k);
      idle_below = λ c k. ground (arith, m.same_pool, k);
      held_below = λ c k. omega (arith, m.next, v.held_below c k);
      out_held = λ c k. ground (arith, m.out, k);
    }

pub step-IsOwned : (s : Settings) (y : System) (e : Event) → IsOwned y → IsOwned (step s y e)
unfolding step
step-IsOwned s y (attempted w) v =
    let r = attempt w s y.pool in
    hold-IsOwned s y r.0 r.1 (attempt-Turns w s y.pool v.idle_unique) v
step-IsOwned s y (given_back w c) v =
    if_cases IsOwned (has c y.held) (λ m. checkin-IsOwned w s c y m v) (λ _. v)
step-IsOwned s y (housekept w) v =
    Shrinks-IsOwned y (housekeep w s y.pool) (housekeep-Shrinks w s y.pool) v
step-IsOwned s y (checked w) v =
    Shrinks-IsOwned y (health_checks w y.pool) (health_checks-Shrinks w y.pool) v
step-IsOwned s y closed_now v = close-IsOwned y v

pub run-IsOwned_from :
    (s : Settings) (y : System) (es : List Event) → IsOwned y → IsOwned (run s y es)
unfolding run
run-IsOwned_from s y [] v = v
run-IsOwned_from s y (e ∷ es) v = run-IsOwned_from s (step s y e) es (step-IsOwned s y e v)

abbrev pub start : Pool → System
start p = record { pool = p; held = [] }

created-IsOwned :
    (w : World) (p : Pool)
    → IsOwned (start p)
    → let p' = create_connection w p in
      IsOwned (start (record p' { pool = p'.pool ++ (p.next_conn ∷ []) }))
unfolding create_connection
created-IsOwned w p v = record {
  idle_unique =
      append_last-Unique p.next_conn p.pool v.idle_unique
        (ground (arith, v.idle_below p.next_conn, Bool-cases (has p.next_conn p.pool)));
  held_unique = tt;
  apart = λ c k. unfold has in refl;
  idle_below = λ c k. ground (
    arith,
    k,
    has-append c p.pool (p.next_conn ∷ []),
    has-one c p.next_conn,
    ==_iff p.next_conn c,
    v.idle_below c,
    Bool-cases (has c p.pool),
  );
  held_below = λ c k. unfold has in cc;
  out_held = λ c k. v.out_held c k;
}

prewarm-IsOwned :
    (w : World) (s : Settings) (count : ℕ) (p : Pool)
    → IsOwned (start p)
    → IsOwned (start (prewarm w s count p))
unfolding prewarm
prewarm-IsOwned w s zero p v = v
prewarm-IsOwned w s (suc count) p v =
    let p' = create_connection w p in
    let q : Pool = record p' { pool = p'.pool ++ (p.next_conn ∷ []) } in
    if_cases (λ r. IsOwned (start r)) (leb s.max_size (length p.pool)) (λ _. v)
      (λ _.
        if_cases (λ r. IsOwned (start r)) w.connects
          (λ _. prewarm-IsOwned w s count q (created-IsOwned w p v)) (λ _. v))

pub new-IsOwned : (w : World) (s : Settings) → IsOwned (start (new w s))
unfolding new has
new-IsOwned w s = prewarm-IsOwned w s (min 2 s.max_size) empty_pool (record {
  idle_unique = tt;
  held_unique = tt;
  apart = λ c k. cc;
  idle_below = λ c k. cc;
  held_below = λ c k. cc;
  out_held = λ c k. cc;
})
