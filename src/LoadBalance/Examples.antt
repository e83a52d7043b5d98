-- ===== src/LoadBalance/Examples.antt =====
-- The balancer of python/vedadb/load_balance.py at concrete values, with natural numbers in place of
-- floating-point ones.
use vedadb_driver.Base.{
  ℕ, ◌+◌, ◌*◌, ◌/◌, ◌≡◌, refl, true, false, List, [], ◌∷◌, ◌++◌, map, ltb, ◌==◌, arith, String, ok,
  take, drop, length, ◌%◌,
}
use vedadb_driver.Base.Dict.{nat_eq, string_eq, get, Distinct}
use vedadb_driver.Base.Sets.{has}
use vedadb_driver.LoadBalance.{
  Float, Node, LoadBalancer, Draw, Strategy, round_robin, healthy_nodes, get_node,
}
use vedadb_driver.LoadBalance.Nodes.{new}
use vedadb_driver.LoadBalance.Choice.{Gets, get_node-Gets}
use vedadb_driver.LoadBalance.Rotation.{addresses, get_node_rotates}
use vedadb_driver.LoadBalance.Members.{IsCounted}
use vedadb_driver.LoadBalance.Counts.{
  Event, taken, gave_back, gave_up, removed, added, run, run-IsCounted,
}

instance abbrev numbers : Float ℕ
numbers = record {
  nought = 0;
  infinite = 1000000;
  less = ltb;
  same = ◌==◌;
  ratio = λ a w. a / w;
  plus = ◌+◌;
  smoothed = λ x y. (3 * x + 7 * y) / 10;
}

abbrev hosts : List String
hosts = "db1:7480" ∷ "db2:7480" ∷ []

abbrev busy : Node ℕ
busy = record {
  address = "db1:7480";
  weight = 1;
  active_connections = 4;
  healthy = true;
  last_used = 0;
  total_requests = 9;
  failure_count = 0;
  response_time_ms = 20;
}

abbrev idle : Node ℕ
idle = record busy { address = "db2:7480"; active_connections = 1 }

abbrev down : Node ℕ
down = record busy { address = "db3:7480"; active_connections = 0; healthy = false }

abbrev with_strategy : Strategy → LoadBalancer ℕ
with_strategy s = record {
  strategy = s;
  nodes = (0, busy) ∷ (1, idle) ∷ (2, down) ∷ [];
  node_map = ("db1:7480", 0) ∷ ("db2:7480", 1) ∷ ("db3:7480", 2) ∷ [];
  rr_index = 1;
  next = 3;
}

abbrev draw : Draw ℕ
draw = record { now = 5; choice = λ n. 0; uniform = λ n. 0 }

with_strategy-Distinct : (s : Strategy) → Distinct (with_strategy s).nodes
unfolding get
with_strategy-Distinct s = (refl, (refl, (refl, tt)))

get_node-Gets_example :
    Gets draw (with_strategy round_robin) (get_node draw (with_strategy round_robin))
get_node-Gets_example =
    get_node-Gets draw (with_strategy round_robin) (with_strategy-Distinct round_robin)

healthy-names :
    map (λ (x : ℕ × Node ℕ). (x.1).address) (healthy_nodes (with_strategy round_robin)) ≡ hosts
unfolding healthy_nodes
healthy-names = refl

get_node_rotates_example :
    let r = 1 % length hosts in
    addresses (draw ∷ draw ∷ []) (with_strategy round_robin) ≡ drop r hosts ++ take r hosts
get_node_rotates_example =
    get_node_rotates (draw ∷ draw ∷ []) (with_strategy round_robin) hosts refl
      (with_strategy-Distinct round_robin) healthy-names (omega arith) refl

made : (b : LoadBalancer ℕ) × (new hosts "round_robin" [] 0 ≡ ok b)
unfolding new
made = (_, refl)

abbrev calls : List (Event ℕ)
calls =
    taken draw
    ∷ taken draw
    ∷ gave_back "db1:7480"
    ∷ added "db3:7480" 2 7
    ∷ removed "db1:7480"
    ∷ gave_up "db2:7480"
    ∷ []

run-IsCounted_example :
    let y = run (record { balancer = made.0; held = [] }) calls in
    IsCounted y.balancer.nodes y.balancer.node_map y.balancer.next y.held
run-IsCounted_example =
    run-IsCounted hosts "round_robin" [] 0 made.0 calls (unfold has in (refl, (refl, tt))) made.1
