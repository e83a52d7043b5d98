-- ===== src/Pool/Calls.antt =====
-- The calls of a pool's clients, acquire, _checkin, close and the statistics, of python/vedadb/pool.py.
use vedadb_driver.Base.{
  ℕ, suc, ◌+◌, ◌-◌, Bool, true, false, not, ◌||◌, Option, none, some, List, [], ◌∷◌, ◌++◌, ltb, leb,
  if◌then◌else◌, length,
}
use vedadb_driver.Base.Dict.{nat_eq}
use vedadb_driver.Base.Sets.{has, add, discard}
use vedadb_driver.Pool.{
  Settings, Pool, World, is_expired, check_conn, shut_conn, shut_all, create_connection,
  health_checks,
}

-- What a turn of `acquire` comes to: a connection, a wait, or an exception of `Protocol(...)`.
pub data Turn : Type 0 where
  got : ℕ → Turn
  wait raised : Turn

-- The inner loop: idle connections that do not answer are closed.
unfoldable pub take_idle : World → List ℕ → Pool → Option ℕ × Pool
unfolding check_conn shut_conn add
take_idle w [] p = (none, record p { pool = [] })
take_idle w (c ∷ cs) p =
    let p' = check_conn w c p in
    let rest = take_idle w cs (shut_conn c (record p' { failed_health = suc p'.failed_health })) in
    if w.alive c
    then (some c, record p' { pool = cs; checked_out = add c p'.checked_out })
    else rest

-- A new connection that is checked out if it answers.
unfoldable pub checked_new : World → Pool → Bool × Pool
unfolding create_connection check_conn shut_conn add
checked_new w p =
    let c = p.next_conn in
    let p' = check_conn w c (create_connection w p) in
    if w.alive c
    then (true, record p' { checked_out = add c p'.checked_out })
    else (false, shut_conn c (record p' { failed_health = suc p'.failed_health }))

unfoldable pub overflow_turn : World → Settings → Pool → Turn × Pool
overflow_turn w s p =
    let p' : Pool = record p { overflow = suc p.overflow } in
    let (fine, q) = checked_new w p' in
    if ltb p.overflow s.max_overflow
    then if not w.connects
      then (raised, p')
      else if fine
      then (got p.next_conn, q)
      else (wait, record q { overflow = q.overflow - 1 })
    else (wait, p)

unfoldable pub new_turn : World → Settings → Pool → Turn × Pool
new_turn w s p =
    let (fine, q) = checked_new w p in
    if ltb (length p.checked_out + length p.pool) s.max_size
    then if not w.connects
      then (raised, p)
      else if fine
      then (got p.next_conn, q)
      else overflow_turn w s q
    else overflow_turn w s p

unfoldable pub after_idle : World → Settings → Option ℕ × Pool → Turn × Pool
after_idle w s (some c, p) = (got c, p)
after_idle w s (none, p) = new_turn w s p

-- One turn of the `while True` loop of `acquire`.
unfoldable pub attempt : World → Settings → Pool → Turn × Pool
unfolding after_idle
attempt w s p = after_idle w s (take_idle w p.pool p)

-- What `acquire` comes to; `blocked` if it still waits when the turns given to it are over.
pub data Acquired : Type 0 where
  connection : ℕ → Acquired
  pool_error exhausted protocol_error blocked : Acquired

-- A wait of `acquire`: when its turn was over, what the other threads do, and the next turn's world.
abbrev pub Wait : Type 0
Wait = ℕ × (Pool → Pool) × World

-- The `while True` loop, from what a turn came to.
unfoldable pub turns : Settings → ℕ → List Wait → Turn × Pool → Acquired × Pool
unfolding attempt
turns s deadline ts (got c, p) = (connection c, p)
turns s deadline ts (raised, p) = (protocol_error, p)
turns s deadline [] (wait, p) = (blocked, p)
turns s deadline ((ended, others, w) ∷ ts) (wait, p) =
    let rest = turns s deadline ts (attempt w s (others p)) in
    if leb deadline ended then (exhausted, p) else rest

-- `acquire` with its deadline, which starts at `w`.
unfoldable pub acquire : Settings → World → ℕ → List Wait → Pool → Acquired × Pool
unfolding turns attempt
acquire s w deadline ts p =
    if p.closed
    then (pool_error, p)
    else turns s deadline ts (attempt w s (record p { total_requests = suc p.total_requests }))

-- `_checkin`
unfoldable pub checkin : World → Settings → ℕ → Pool → Pool
unfolding discard has shut_conn is_expired
checkin w s c p =
    let out = discard c p.checked_out in
    let p' : Pool = record p { checked_out = out } in
    if is_expired s w.now (p.conns c) || (p.conns c).invalid
    then (let q = shut_conn c p' in if has c out then record q { overflow = q.overflow - 1 } else q)
    else record p' { pool = p.pool ++ (c ∷ []) }

-- `close`
unfoldable pub close : Pool → Pool
unfolding shut_all
close p =
    shut_all (p.pool ++ p.checked_out) (record p { closed = true; pool = []; checked_out = [] })

pub record Stats : Type 0 where
  pub size : ℕ
  pub checked_in : ℕ
  pub out : ℕ
  pub created : ℕ
  pub requests : ℕ
  pub failed_checks : ℕ

unfoldable pub stats : Pool → Stats
stats p = record {
  size = length p.pool + length p.checked_out;
  checked_in = length p.pool;
  out = length p.checked_out;
  created = p.total_created;
  requests = p.total_requests;
  failed_checks = p.failed_health;
}

unfoldable pub run_health_checks : World → Pool → ℕ × Pool
unfolding health_checks
run_health_checks w p = let q = health_checks w p in (q.dead_removed - p.dead_removed, q)
