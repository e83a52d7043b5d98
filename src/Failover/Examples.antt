-- ===== src/Failover/Examples.antt =====
-- A client of python/vedadb/failover.py with two nodes; the first does not answer.
use vedadb_driver.Base.{ℕ, ◌≡◌, refl, true, some, List, [], ◌∷◌, ◌==◌, if◌then◌else◌, ok, err}
use vedadb_driver.Base.Dict.{nat_eq, get}
use vedadb_driver.Failover.{FailoverNode, Settings, FailoverClient, Network, new, make_nodes}
use vedadb_driver.Failover.Sound.{Call, queried, checked, run}

abbrev settings : Settings
settings = record { failure_threshold = 3; recovery_interval = 30; auto_failback = true }

abbrev network : Network ℕ ℕ
network = record {
  query = λ k i. if i == 0 then err 7 else ok 42;
  elapsed = λ k. 1;
  ping = λ k i. if i == 0 then err 7 else ok true;
  now = λ k. k;
}

made : (c : FailoverClient) × (new 0 2 ≡ ok c)
unfolding new make_nodes
made = (_, refl)

-- The first node fails a query and two pings; the second node answers.
abbrev calls : List Call
calls = queried ∷ checked ∷ checked ∷ queried ∷ []

after : (n : FailoverNode) × (get 0 (run settings network calls made.0).nodes ≡ some n)
unfolding run made
after = (_, refl)
