-- ===== src/Pool/System.antt =====
-- The pool of python/vedadb/pool.py and those that have its connections: a run is the order in which
-- the threads get the lock.
use vedadb_driver.Base.{ℕ, List, [], ◌∷◌, if◌then◌else◌}
use vedadb_driver.Base.Dict.{nat_eq}
use vedadb_driver.Base.Sets.{has, discard}
use vedadb_driver.Pool.{Settings, Pool, World, housekeep, health_checks}
use vedadb_driver.Pool.Calls.{Turn, got, attempt, checkin, close}

-- The pool, and the connections of the PooledConnections that are not closed.
pub record System : Type 0 where
  pub pool : Pool
  pub held : List ℕ

pub data Event : Type 0 where
  attempted housekept checked : World → Event
  given_back : World → ℕ → Event
  closed_now : Event

abbrev pub hold : Turn → List ℕ → List ℕ
hold (got c) held = c ∷ held
hold _ held = held

-- `PooledConnection.close`. Its test of `_returned` is outside the lock; here the test and `_checkin` are
-- one step, so the threads do not close the same connection at the same time.
unfoldable pub give_back : World → Settings → ℕ → System → System
unfolding checkin has discard
give_back w s c y =
    if has c y.held then record { pool = checkin w s c y.pool; held = discard c y.held } else y

unfoldable pub step : Settings → System → Event → System
unfolding attempt give_back housekeep health_checks close
step s y (attempted w) =
    let (t, q) = attempt w s y.pool in record { pool = q; held = hold t y.held }
step s y (given_back w c) = give_back w s c y
step s y (housekept w) = record y { pool = housekeep w s y.pool }
step s y (checked w) = record y { pool = health_checks w y.pool }
step s y closed_now = record y { pool = close y.pool }

unfoldable pub run : Settings → System → List Event → System
unfolding step
run s y [] = y
run s y (e ∷ es) = run s (step s y e) es
