-- ===== src/Pool/Attempt.antt =====
-- One turn of `acquire` of python/vedadb/pool.py: which connection it hands out, and what it leaves.
use vedadb_driver.Base.{
  ℕ, suc, ◌+◌, ◌≤◌, ◌<◌, ◌≡◌, ◌⊎◌, refl, ap, ◌∙◌, Bool, true, false, not, inl, inr, Option, none,
  some, List, [], ◌∷◌, ltb, if◌then◌else◌, length, arith, if_cases,
}
use vedadb_driver.Base.Dict.{nat_eq}
use vedadb_driver.Base.Sets.{has, add, Unique, length-add}
use vedadb_driver.Pool.{Settings, Pool, World, check_conn, shut_conn}
use vedadb_driver.Pool.Calls.{
  Turn, got, take_idle, checked_new, overflow_turn, new_turn, after_idle, attempt,
}

-- What the inner loop does with the idle connections `cs`.
abbrev TakesIdle : List ℕ → Pool → Option ℕ × Pool → Type 0
TakesIdle cs p (none, q) =
    (q.pool ≡ [])
    × (q.checked_out ≡ p.checked_out)
    × (q.next_conn ≡ p.next_conn)
    × (q.overflow ≡ p.overflow)
TakesIdle cs p (some c, q) =
    (has c cs ≡ true)
    × (has c q.pool ≡ false)
    × Unique q.pool
    × ((j : ℕ) → has j q.pool ≡ true → has j cs ≡ true)
    × (length q.pool + 1 ≤ length cs)
    × (q.checked_out ≡ add c p.checked_out)
    × (q.next_conn ≡ p.next_conn)
    × (q.overflow ≡ p.overflow)

TakesIdle-later :
    (c : ℕ) (cs : List ℕ) (p q : Pool) (r : Option ℕ × Pool)
    → q.checked_out ≡ p.checked_out
    → q.next_conn ≡ p.next_conn
    → q.overflow ≡ p.overflow
    → TakesIdle cs q r
    → TakesIdle (c ∷ cs) p r
unfolding has
TakesIdle-later c cs p q (none, r) eo en ev (a, b, d, e) = (a, b ∙ eo, d ∙ en, e ∙ ev)
TakesIdle-later c cs p q (some k, r) eo en ev (a, b, u, sub, l, o, d, e) = (
  ground (arith, a),
  b,
  u,
  λ j h. ground (arith, sub j h),
  omega (arith, l),
  rw (← eo) o,
  d ∙ en,
  e ∙ ev,
)

take_idle-TakesIdle :
    (w : World) (cs : List ℕ) (p : Pool) → Unique cs → TakesIdle cs p (take_idle w cs p)
unfolding take_idle has
take_idle-TakesIdle w [] p u = (refl, refl, refl, refl)
take_idle-TakesIdle w (c ∷ cs) p u =
    let p' = check_conn w c p in
    let q = shut_conn c (record p' { failed_health = suc p'.failed_health }) in
    if_cases (TakesIdle (c ∷ cs) p) (w.alive c)
      (λ h. (ground arith, u.0, u.1, λ j k. ground (arith, k), omega arith, refl, refl, refl))
      (λ h.
        TakesIdle-later c cs p q (take_idle w cs q) refl refl refl (take_idle-TakesIdle w cs q u.1))

-- What a new connection leaves.
record MakesOne (p : Pool) (r : Bool × Pool) : Type 0 where
  same_pool : r.1.pool ≡ p.pool
  next : r.1.next_conn ≡ suc p.next_conn
  same_overflow : r.1.overflow ≡ p.overflow
  out : r.1.checked_out ≡ (if r.0 then add p.next_conn p.checked_out else p.checked_out)

checked_new-MakesOne : (w : World) (p : Pool) → MakesOne p (checked_new w p)
unfolding checked_new
checked_new-MakesOne w p =
    if_cases (MakesOne p) (w.alive p.next_conn)
      (λ h. record { same_pool = refl; next = refl; same_overflow = refl; out = refl })
      (λ h. record { same_pool = refl; next = refl; same_overflow = refl; out = refl })

-- A turn that found no idle connection.
abbrev pub taken : Turn → List ℕ → List ℕ
taken (got c) out = add c out
taken _ out = out

record Makes (s : Settings) (p : Pool) (r : Turn × Pool) : Type 0 where
  same_pool : r.1.pool ≡ p.pool
  out : r.1.checked_out ≡ taken r.0 p.checked_out
  next : p.next_conn ≤ r.1.next_conn
  made : (c : ℕ) → r.0 ≡ got c → (p.next_conn ≤ c) × (c < r.1.next_conn)
  spent : p.overflow ≤ r.1.overflow
  kept : r.1.overflow ≤ s.max_overflow ⊎ (r.1.overflow ≡ p.overflow)
  room :
      (c : ℕ)
      → r.0 ≡ got c
      → (length p.checked_out + length p.pool < s.max_size) ⊎ (r.1.overflow ≡ p.overflow + 1)

overflow_turn-Makes : (w : World) (s : Settings) (p : Pool) → Makes s p (overflow_turn w s p)
unfolding overflow_turn
overflow_turn-Makes w s p =
    let p' : Pool = record p { overflow = suc p.overflow } in
    let m = checked_new-MakesOne w p' in
    if_cases (Makes s p) (ltb p.overflow s.max_overflow)
      (λ h.
        if_cases (Makes s p) (not w.connects) (λ n. ground (arith, h, n))
          (λ n.
            if_cases (Makes s p) (checked_new w p').0
              (λ f. ground (arith, h, f, m.same_pool, m.next, m.same_overflow, m.out))
              (λ f. ground (arith, h, f, m.same_pool, m.next, m.same_overflow, m.out))))
      (λ h. ground (arith, h))

Makes-later :
    {s : Settings} {p : Pool} {b : Bool × Pool} {r : Turn × Pool}
    → b.1.checked_out ≡ p.checked_out
    → MakesOne p b
    → Makes s b.1 r
    → Makes s p r
Makes-later {s} {p} {b} {r} o m k = record {
  same_pool = k.same_pool ∙ m.same_pool;
  out = rw (← o) k.out;
  next = omega (arith, k.next, m.next);
  made = λ c g. let (lo, hi) = k.made c g in (omega (arith, lo, m.next), hi);
  spent = omega (arith, k.spent, m.same_overflow);
  kept = ground (arith, k.kept, m.same_overflow);
  room = λ c g. ground (arith, k.room c g, o, m.same_pool, m.same_overflow);
}

new_turn-Makes : (w : World) (s : Settings) (p : Pool) → Makes s p (new_turn w s p)
unfolding new_turn
new_turn-Makes w s p =
    let m = checked_new-MakesOne w p in
    if_cases (Makes s p) (ltb (length p.checked_out + length p.pool) s.max_size)
      (λ h.
        if_cases (Makes s p) (not w.connects) (λ n. ground (arith, h, n))
          (λ n.
            if_cases (Makes s p) (checked_new w p).0
              (λ f. ground (arith, h, f, m.same_pool, m.next, m.same_overflow, m.out))
              (λ f.
                Makes-later (ground (arith, f, m.out)) m
                  (overflow_turn-Makes w s (checked_new w p).1))))
      (λ h. overflow_turn-Makes w s p)

-- A turn of `acquire`: it hands out an idle connection, or else one that did not exist before, and
-- hands out no connection that it leaves idle.
pub record Turns (s : Settings) (p : Pool) (r : Turn × Pool) : Type 0 where
  pub idle_unique : Unique r.1.pool
  pub was_idle : (j : ℕ) → has j r.1.pool ≡ true → has j p.pool ≡ true
  pub out : r.1.checked_out ≡ taken r.0 p.checked_out
  pub next : p.next_conn ≤ r.1.next_conn
  pub source :
      (c : ℕ) → r.0 ≡ got c → (has c p.pool ≡ true) ⊎ ((p.next_conn ≤ c) × (c < r.1.next_conn))
  pub not_idle : (c : ℕ) → r.0 ≡ got c → has c r.1.pool ≡ false
  pub spent : p.overflow ≤ r.1.overflow
  pub kept : r.1.overflow ≤ s.max_overflow ⊎ (r.1.overflow ≡ p.overflow)
  pub room :
      (length r.1.checked_out + length r.1.pool ≤ length p.checked_out + length p.pool)
      ⊎ ((length r.1.checked_out + length r.1.pool ≤ s.max_size)
          ⊎ (length r.1.checked_out + length r.1.pool + p.overflow
              ≤ length p.checked_out + length p.pool + r.1.overflow))

Makes→Turns :
    (s : Settings) (p q : Pool) (r : Turn × Pool)
    → TakesIdle p.pool p (none, q)
    → Makes s q r
    → Turns s p r
unfolding has
Makes→Turns s p q (t, r) (e, o, n, v) k = record {
  idle_unique = rw (k.same_pool, e) tt;
  was_idle = λ j h. ground (arith, k.same_pool, e, h);
  out = rw (← o) k.out;
  next = omega (arith, k.next, n);
  source = λ c g. let (lo, hi) = k.made c g in inr (omega (arith, lo, n), hi);
  not_idle = λ c g. rw (k.same_pool, e) refl;
  spent = omega (arith, k.spent, v);
  kept = ground (arith, k.kept, v);
  room = room_of t refl;
}
  where
    room_of :
        (u : Turn)
        → t ≡ u
        → (length r.checked_out + length r.pool ≤ length p.checked_out + length p.pool)
          ⊎ ((length r.checked_out + length r.pool ≤ s.max_size)
              ⊎ (length r.checked_out + length r.pool + p.overflow
                  ≤ length p.checked_out + length p.pool + r.overflow))
    room_of (got c) g =
        ground (arith, k.room c g, k.same_pool, k.out, g, e, o, v, length-add c p.checked_out)
    room_of u g = ground (arith, k.same_pool, k.out, g, e, o)

after_idle-Turns :
    (w : World) (s : Settings) (p : Pool) (r : Option ℕ × Pool)
    → TakesIdle p.pool p r
    → Turns s p (after_idle w s r)
unfolding after_idle
after_idle-Turns w s p (some c, q) (a, b, u, sub, l, o, n, v) = record {
  idle_unique = u;
  was_idle = sub;
  out = o;
  next = omega (arith, n);
  source = λ k g. ground (arith, a, g);
  not_idle = λ k g. ground (arith, b, g);
  spent = omega (arith, v);
  kept = inr v;
  room = inl (omega (arith, l, ap length o, length-add c p.checked_out));
}
after_idle-Turns w s p (none, q) h = Makes→Turns s p q (new_turn w s q) h (new_turn-Makes w s q)

pub attempt-Turns :
    (w : World) (s : Settings) (p : Pool) → Unique p.pool → Turns s p (attempt w s p)
unfolding attempt
attempt-Turns w s p u =
    after_idle-Turns w s p (take_idle w p.pool p) (take_idle-TakesIdle w p.pool p u)
