-- ===== src/Failover/Tally.antt =====
-- The counts of failures of python/vedadb/failover.py, compared with what the nodes answered in a run.
use vedadb_driver.Base.{ℕ, ◌≡◌}
use vedadb_driver.Base.Dict.{nat_eq, Dict}
use vedadb_driver.Failover.{FailoverNode, Settings}
use vedadb_driver.Failover.States.{IsCounted}
use vedadb_driver.Failover.Outcomes.{Outcomes, in_row}

-- The node counts its failures in a row, and its state is one that they allow.
abbrev pub IsTallied : Settings → Outcomes → ℕ → FailoverNode → Type 0
IsTallied s os i n = (n.consecutive_failures ≡ in_row i os) × IsCounted s n.state (in_row i os)
