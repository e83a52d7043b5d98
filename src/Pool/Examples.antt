-- ===== src/Pool/Examples.antt =====
-- The pool of python/vedadb/pool.py at concrete values.
use vedadb_driver.Base.{◌≤◌, ◌+◌, true, List, [], ◌∷◌, length, ◌==◌, not}
use vedadb_driver.Base.Dict.{nat_eq}
use vedadb_driver.Pool.{Settings, World, new}
use vedadb_driver.Pool.System.{Event, attempted, given_back, checked, run}
use vedadb_driver.Pool.Ownership.{start}
use vedadb_driver.Pool.Bounds.{run-IsBounded}

abbrev settings : Settings
settings = record { max_size = 2; max_overflow = 1; max_lifetime = 3600; max_idle_time = 600 }

abbrev world : World
world = record { now = 0; alive = λ c. true; connects = true }

-- The connection 0 does not answer.
abbrev later : World
later = record { now = 5; alive = λ c. not (c == 0); connects = true }

abbrev events : List Event
events =
    attempted world
    ∷ attempted world
    ∷ attempted later
    ∷ given_back later 1
    ∷ checked later
    ∷ attempted later
    ∷ []

run-IsBounded_example :
    let p = (run settings (start (new world settings)) events).pool in
    (length p.checked_out + length p.pool ≤ 3) × (p.overflow ≤ 1)
run-IsBounded_example = run-IsBounded world settings events (tt, (tt, (tt, (tt, (tt, (tt, tt))))))
