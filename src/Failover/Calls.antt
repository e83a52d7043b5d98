-- ===== src/Failover/Calls.antt =====
-- query and the health checks of python/vedadb/failover.py.
use vedadb_driver.Base.{ℕ, suc, ◌+◌, Option, none, some, [], ◌∷◌, if◌then◌else◌, Result, ok, err}
use vedadb_driver.Base.Dict.{nat_eq, Dict}
use vedadb_driver.Failover.{
  FailoverNode, Settings, FailoverClient, FailoverError, connection_error, of_node, Network,
  is_healthy, get_current_node, failover, change, on_success, fail, on_failure, timed, answer_ping,
  pinged,
}

module _ {E R : Type 0} where
  abbrev pub of_client : Result E R → Result (FailoverError E) R
  of_client (ok r) = ok r
  of_client (err e) = err (of_node e)

  -- The second try of `query`.
  abbrev pub try_next :
      Network E R → Option ℕ × FailoverClient → Result (FailoverError E) R × FailoverClient
  try_next net (none, c) = (err connection_error, c)
  try_next net (some j, c) = (of_client (net.query c.calls j), record c { calls = suc c.calls })

  abbrev pub answered :
      Settings
      → Network E R
      → ℕ
      → Result E R
      → FailoverClient
      → Result (FailoverError E) R × FailoverClient
  answered s net i (ok r) c = (
    ok r,
    on_success s i (change (timed (net.elapsed c.calls)) i (record c { calls = suc c.calls })),
  )
  answered s net i (err e) c =
      try_next net
        (failover (on_failure s (net.now (suc c.calls)) i (record c { calls = suc c.calls })))

  abbrev pub sent :
      Settings
      → Network E R
      → Option ℕ × FailoverClient
      → Result (FailoverError E) R × FailoverClient
  sent s net (none, c) = (err connection_error, c)
  sent s net (some i, c) = answered s net i (net.query c.calls i) c

  unfoldable pub query :
      Settings → Network E R → FailoverClient → Result (FailoverError E) R × FailoverClient
  unfolding get_current_node failover on_failure on_success change timed
  query s net c = sent s net (get_current_node s (net.now c.calls) c)

  unfoldable pub check_each :
      Settings → Network E R → Dict ℕ FailoverNode → FailoverClient → FailoverClient
  unfolding change answer_ping fail
  check_each s net [] c = c
  check_each s net ((i, n) ∷ ns) c =
      check_each s net ns
        (pinged s (net.now (suc c.calls)) i (net.ping c.calls i) (record c { calls = suc c.calls }))

  unfoldable pub check_all_nodes : Settings → Network E R → FailoverClient → FailoverClient
  unfolding check_each
  check_all_nodes s net c = check_each s net c.nodes c

unfoldable pub healthy_node_count : Dict ℕ FailoverNode → ℕ
healthy_node_count [] = 0
healthy_node_count ((i, n) ∷ ns) = (if is_healthy n.state then 1 else 0) + healthy_node_count ns
