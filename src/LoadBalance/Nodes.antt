-- ===== src/LoadBalance/Nodes.antt =====
-- Adding and removing nodes, of python/vedadb/load_balance.py.
use vedadb_driver.Base.{
  ℕ, suc, ◌+◌, Bool, true, false, not, ◌&&◌, ◌||◌, Option, none, some, List, [], ◌∷◌, ◌++◌, ◌==◌,
  if◌then◌else◌, length, String, Result, ok, err,
}
use vedadb_driver.Base.Dict.{nat_eq, string_eq, Dict, get, put, remove}
use vedadb_driver.LoadBalance.{
  Float, Node, Strategy, strategy_named, LoadBalancer, BalanceError, weight_of, make_node,
  healthy_nodes, value_error,
}

module _ {F : Type 0} ⦃o : Float F⦄ where
  -- A new node at the end of the list; an address that is there gets it in the map.
  unfoldable pub append_node : String → ℕ → ℕ → LoadBalancer F → LoadBalancer F
  unfolding put make_node
  append_node address weight now b = record b {
    nodes = b.nodes ++ ((b.next, make_node address weight now) ∷ []);
    node_map = put address b.next b.node_map;
    next = suc b.next;
  }

  abbrev pub unless_known : Option ℕ → LoadBalancer F → LoadBalancer F → LoadBalancer F
  unless_known (some i) b c = b
  unless_known none b c = c

  unfoldable pub add_node : String → ℕ → ℕ → LoadBalancer F → LoadBalancer F
  unfolding append_node get
  add_node address weight now b =
      unless_known (get address b.node_map) b (append_node address weight now b)

  -- The comparison of the data class.
  unfoldable pub node_eq : Node F → Node F → Bool
  node_eq m n =
      string_eq.beq m.address n.address
      && (m.weight == n.weight)
      && (m.active_connections == n.active_connections)
      && bool_eq m.healthy n.healthy
      && (m.last_used == n.last_used)
      && (m.total_requests == n.total_requests)
      && (m.failure_count == n.failure_count)
      && o.same m.response_time_ms n.response_time_ms
    where
      bool_eq : Bool → Bool → Bool
      bool_eq true b = b
      bool_eq false b = not b

  -- `self._nodes.remove(node)`: the first node that is this one, or equal to it.
  unfoldable pub remove_first : ℕ → Node F → Dict ℕ (Node F) → Dict ℕ (Node F)
  unfolding node_eq
  remove_first i n [] = []
  remove_first i n ((j, m) ∷ ns) =
      let rest = remove_first i n ns in if (j == i) || node_eq m n then ns else (j, m) ∷ rest

  abbrev removed_at : LoadBalancer F → ℕ → Option (Node F) → LoadBalancer F
  removed_at b i none = b
  removed_at b i (some n) = record b { nodes = remove_first i n b.nodes }

  abbrev pub removed : String → LoadBalancer F → Option ℕ → LoadBalancer F
  removed address b none = b
  removed address b (some i) =
      removed_at (record b { node_map = remove address b.node_map }) i (get i b.nodes)

  unfoldable pub remove_node : String → LoadBalancer F → LoadBalancer F
  unfolding remove_first remove get
  remove_node address b = removed address b (get address b.node_map)

  unfoldable pub append_all : Dict String ℕ → ℕ → List String → LoadBalancer F → LoadBalancer F
  unfolding append_node get
  append_all weights now [] b = b
  append_all weights now (a ∷ others) b =
      append_all weights now others (append_node a (weight_of weights a) now b)

  abbrev pub empty_balancer : Strategy → LoadBalancer F
  empty_balancer s = record { strategy = s; nodes = []; node_map = []; rr_index = 0; next = 0 }

  unfoldable pub built :
      Dict String ℕ → ℕ → List String → Option Strategy → Result BalanceError (LoadBalancer F)
  unfolding append_all
  built weights now names none = err value_error
  built weights now names (some s) = ok (append_all weights now names (empty_balancer s))

  -- `__init__`
  unfoldable pub new :
      List String → String → Dict String ℕ → ℕ → Result BalanceError (LoadBalancer F)
  unfolding built
  new [] strategy weights now = err value_error
  new (a ∷ others) strategy weights now = built weights now (a ∷ others) (strategy_named strategy)

  unfoldable pub healthy_node_count : LoadBalancer F → ℕ
  unfolding healthy_nodes
  healthy_node_count b = length (healthy_nodes b)

  unfoldable pub sum_of : (Node F → ℕ) → Dict ℕ (Node F) → ℕ
  sum_of f [] = 0
  sum_of f ((i, n) ∷ ns) = f n + sum_of f ns

  unfoldable pub total_active_connections : LoadBalancer F → ℕ
  unfolding sum_of
  total_active_connections b = sum_of (λ n. n.active_connections) b.nodes
