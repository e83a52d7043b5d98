-- ===== src/Pool.antt =====
-- python/vedadb/pool.py: the pool of connections. A connection is the number of its object in the
-- heap `conns`; what the network does is an argument of each operation. Each `with self._condition`
-- block is one function, and `acquire` is its turns under the lock with waits between them.
pub mod Calls
pub mod Attempt
pub mod System
pub mod Shrinks
pub mod Ownership
pub mod Bounds
pub mod Acquire
mod Examples
use Prim.Native.Nat.{min}
use vedadb_driver.Base.{
  ℕ, zero, suc, ◌+◌, ◌-◌, Bool, true, false, not, ◌&&◌, ◌||◌, Option, none, some, List, [], ◌∷◌,
  ◌++◌, ltb, leb, ◌==◌, if◌then◌else◌, length,
}
use vedadb_driver.Base.Dict.{nat_eq}
use vedadb_driver.Base.Sets.{has, add, discard}

-- `_PoolConnection`; `shut` says that its protocol was closed. Times are clock ticks.
pub record Conn : Type 0 where
  pub created_at : ℕ
  pub last_used : ℕ
  pub use_count : ℕ
  pub last_health_check : ℕ
  pub invalid : Bool
  pub shut : Bool

pub record Settings : Type 0 where
  pub max_size : ℕ
  pub max_overflow : ℕ
  pub max_lifetime : ℕ
  pub max_idle_time : ℕ

-- `pool` has the idle connections, the one that is handed out next first.
pub record Pool : Type 0 where
  pub conns : ℕ → Conn
  pub next_conn : ℕ
  pub pool : List ℕ
  pub checked_out : List ℕ
  pub overflow : ℕ
  pub closed : Bool
  pub total_created : ℕ
  pub total_requests : ℕ
  pub failed_health : ℕ
  pub dead_removed : ℕ
  pub last_health_check : ℕ

-- The time, the connections whose ping is answered, and whether `Protocol(...)` returns.
pub record World : Type 0 where
  pub now : ℕ
  pub alive : ℕ → Bool
  pub connects : Bool

abbrev pub update : ℕ → Conn → (ℕ → Conn) → ℕ → Conn
update c v conns d = if c == d then v else conns d

unfoldable pub is_expired : Settings → ℕ → Conn → Bool
is_expired s now c =
    (ltb 0 s.max_lifetime && ltb s.max_lifetime (now - c.created_at))
    || ((ltb 0 s.max_idle_time && ltb s.max_idle_time (now - c.last_used)) || c.invalid)

unfoldable pub mark_invalid : Conn → Conn
mark_invalid c = record c { invalid = true }

unfoldable pub touch : ℕ → Conn → Conn
touch now c = record c { last_used = now; use_count = c.use_count + 1 }

unfoldable pub close_conn : Conn → Conn
close_conn c = record c { invalid = true; shut = true }

-- `health_check`, by whether the ping is answered.
unfoldable pub health_check : World → ℕ → Conn → Conn
health_check w c v =
    if w.alive c then record v { last_health_check = w.now } else record v { invalid = true }

unfoldable pub check_conn : World → ℕ → Pool → Pool
unfolding health_check
check_conn w c p = record p { conns = update c (health_check w c (p.conns c)) p.conns }

unfoldable pub shut_conn : ℕ → Pool → Pool
unfolding close_conn
shut_conn c p = record p { conns = update c (close_conn (p.conns c)) p.conns }

unfoldable pub shut_all : List ℕ → Pool → Pool
unfolding shut_conn
shut_all [] p = p
shut_all (c ∷ cs) p = shut_all cs (shut_conn c p)

abbrev fresh : ℕ → Conn
fresh now = record {
  created_at = now;
  last_used = now;
  use_count = 0;
  last_health_check = 0;
  invalid = false;
  shut = false;
}

-- `_create_connection` where the protocol's constructor returns; the connection is `p.next_conn`.
unfoldable pub create_connection : World → Pool → Pool
create_connection w p = record p {
  conns = update p.next_conn (fresh w.now) p.conns;
  next_conn = suc p.next_conn;
  total_created = suc p.total_created;
}

abbrev empty_pool : Pool
empty_pool = record {
  conns = λ c. fresh 0;
  next_conn = 0;
  pool = [];
  checked_out = [];
  overflow = 0;
  closed = false;
  total_created = 0;
  total_requests = 0;
  failed_health = 0;
  dead_removed = 0;
  last_health_check = 0;
}

unfoldable pub prewarm : World → Settings → ℕ → Pool → Pool
unfolding create_connection
prewarm w s zero p = p
prewarm w s (suc count) p =
    let p' = create_connection w p in
    let rest = prewarm w s count (record p' { pool = p'.pool ++ (p.next_conn ∷ []) }) in
    if leb s.max_size (length p.pool) then p else if w.connects then rest else p

-- `__init__`
unfoldable pub new : World → Settings → Pool
unfolding prewarm
new w s = prewarm w s (min 2 s.max_size) empty_pool

abbrev expired_of : Settings → ℕ → (ℕ → Conn) → List ℕ → List ℕ
expired_of s now conns [] = []
expired_of s now conns (c ∷ cs) =
    if is_expired s now (conns c) then c ∷ expired_of s now conns cs else expired_of s now conns cs

abbrev live_of : Settings → ℕ → (ℕ → Conn) → List ℕ → List ℕ
live_of s now conns [] = []
live_of s now conns (c ∷ cs) =
    if is_expired s now (conns c) then live_of s now conns cs else c ∷ live_of s now conns cs

-- A round of `_housekeeping_loop`.
unfoldable pub housekeep : World → Settings → Pool → Pool
unfolding shut_all
housekeep w s p =
    shut_all (expired_of s w.now p.conns p.pool)
      (record p { pool = live_of s w.now p.conns p.pool })

-- A connection that is dead is counted twice.
unfoldable pub tally : Bool → Pool → Pool
tally true p = p
tally false p = record p { failed_health = suc p.failed_health; dead_removed = suc p.dead_removed }

-- The loop of `_run_health_checks`: the connections that are alive, and those that are dead.
unfoldable pub check_all : World → List ℕ → Pool → List ℕ × List ℕ × Pool
unfolding tally check_conn
check_all w [] p = ([], [], p)
check_all w (c ∷ cs) p =
    let (alive, dead, q) = check_all w cs (tally (w.alive c) (check_conn w c p)) in
    if w.alive c then (c ∷ alive, dead, q) else (alive, c ∷ dead, q)

-- `_run_health_checks`
unfoldable pub health_checks : World → Pool → Pool
unfolding check_all shut_all
health_checks w p =
    let (alive, dead, q) = check_all w p.pool p in
    shut_all dead (record q { pool = alive; last_health_check = w.now })
