-- ===== src/LoadBalance.antt =====
-- python/vedadb/load_balance.py: the choice of a node for a connection. A node is the number of its
-- object; `nodes` has the objects in the order of the list, and `node_map` their numbers. Each method
-- that takes the lock is one function. Times are clock ticks, weights are not negative, and the
-- arithmetic of floating-point numbers is an argument.
pub mod Nodes
pub mod Choice
pub mod Least
pub mod Rotation
pub mod Counts
pub mod Members
pub mod Removal
pub mod Failures
mod Examples
use vedadb_driver.Base.{
  ℕ, zero, suc, ◌+◌, ◌-◌, ◌%◌, Bool, true, false, not, ◌&&◌, ◌||◌, Option, none, some, List, [],
  ◌∷◌, ◌++◌, ltb, leb, ◌==◌, if◌then◌else◌, length, String, Result, ok, err,
}
use vedadb_driver.Base.Dict.{Eq, nat_eq, string_eq, Dict, get, put, remove}

-- What the code uses of floating-point numbers; `smoothed x y` is 0.3 * x + 0.7 * y.
pub record Float (F : Type 0) : Type 0 where
  pub nought : F
  pub infinite : F
  pub less : F → F → Bool
  pub same : F → F → Bool
  pub ratio : ℕ → ℕ → F
  pub plus : F → ℕ → F
  pub smoothed : F → F → F

pub record Node (F : Type 0) : Type 0 where
  pub address : String
  pub weight : ℕ
  pub active_connections : ℕ
  pub healthy : Bool
  pub last_used : ℕ
  pub total_requests : ℕ
  pub failure_count : ℕ
  pub response_time_ms : F

pub data Strategy : Type 0 where
  round_robin least_connections random weighted fastest_response : Strategy

-- STRATEGIES
abbrev pub strategy_named : String → Option Strategy
strategy_named name =
    if string_eq.beq name "round_robin"
    then some round_robin
    else if string_eq.beq name "least_connections"
    then some least_connections
    else if string_eq.beq name "random"
    then some random
    else if string_eq.beq name "weighted"
    then some weighted
    else if string_eq.beq name "fastest_response"
    then some fastest_response
    else none

pub record LoadBalancer (F : Type 0) : Type 0 where
  pub strategy : Strategy
  pub nodes : Dict ℕ (Node F)
  pub node_map : Dict String ℕ
  pub rr_index : ℕ
  pub next : ℕ

-- The time, the place that random.choice takes in a list, and the number of random.uniform.
pub record Draw (F : Type 0) : Type 0 where
  pub now : ℕ
  pub choice : ℕ → ℕ
  pub uniform : ℕ → F

pub data BalanceError : Type 0 where
  value_error runtime_error : BalanceError

-- The elements for which a test holds.
abbrev pub filter {ℓ} : {A : Type ℓ} → (A → Bool) → List A → List A
filter p [] = []
filter p (x ∷ xs) = let rest = filter p xs in if p x then x ∷ rest else rest

-- xs[i], where x is xs[0].
abbrev pub at {ℓ} : {A : Type ℓ} → A → List A → ℕ → A
at x xs zero = x
at x [] (suc i) = x
at x (y ∷ ys) (suc i) = at y ys i

-- The index of the next round robin, for a number of healthy nodes.
abbrev pub next_rr : Strategy → ℕ → ℕ → ℕ
next_rr round_robin rr count = (rr + 1) % count
next_rr _ rr count = rr

abbrev weight_of : Dict String ℕ → String → ℕ
weight_of weights address = elim (get address weights) [ none ↦ 1 | some w ↦ w ]

module _ {F : Type 0} ⦃o : Float F⦄ where
  unfoldable pub make_node : String → ℕ → ℕ → Node F
  make_node address weight now = record {
    address = address;
    weight = weight;
    active_connections = 0;
    healthy = true;
    last_used = now;
    total_requests = 0;
    failure_count = 0;
    response_time_ms = o.nought;
  }

  unfoldable pub load_score : Node F → F
  load_score n =
      if not n.healthy
      then o.infinite
      else if ltb 0 n.weight
      then o.ratio n.active_connections n.weight
      else o.infinite

  -- `response_time_ms or float("inf")`
  unfoldable pub response_score : Node F → F
  response_score n = if o.same n.response_time_ms o.nought then o.infinite else n.response_time_ms

  -- min(nodes, key=score), from the best node so far.
  unfoldable pub min_by : (Node F → F) → ℕ × Node F → List (ℕ × Node F) → ℕ × Node F
  min_by score best [] = best
  min_by score best (x ∷ xs) =
      min_by score (if o.less (score x.1) (score best.1) then x else best) xs

  unfoldable pub total_weight : List (ℕ × Node F) → ℕ
  total_weight [] = 0
  total_weight ((i, n) ∷ ns) = (if n.healthy then n.weight else 0) + total_weight ns

  -- The loop of `_weighted_select`.
  unfoldable pub weigh : F → F → ℕ × Node F → List (ℕ × Node F) → ℕ × Node F
  weigh r cumulative last [] = last
  weigh r cumulative last (x ∷ xs) =
      let reached = o.plus cumulative x.1.weight in
      let skipped = weigh r cumulative x xs in
      let rest = weigh r reached x xs in
      if not x.1.healthy then skipped else if not (o.less reached r) then x else rest

  unfoldable pub weighted_select : Draw F → ℕ × Node F → List (ℕ × Node F) → ℕ × Node F
  unfolding total_weight weigh
  weighted_select d x xs =
      let total = total_weight (x ∷ xs) in
      if leb total 0 then x else weigh (d.uniform total) o.nought x (x ∷ xs)

  -- The branches of `get_node`, on the healthy nodes.
  unfoldable pub choose : Strategy → Draw F → ℕ → ℕ × Node F → List (ℕ × Node F) → ℕ × Node F
  unfolding min_by weighted_select load_score response_score
  choose round_robin d rr x xs = at x xs (rr % suc (length xs))
  choose least_connections d rr x xs = min_by load_score x xs
  choose random d rr x xs = at x xs (d.choice (suc (length xs)))
  choose weighted d rr x xs = weighted_select d x xs
  choose fastest_response d rr x xs = min_by response_score x xs

  unfoldable pub used : ℕ → Node F → Node F
  used now n = record n {
    active_connections = suc n.active_connections;
    total_requests = suc n.total_requests;
    last_used = now;
  }

  unfoldable pub healthy_nodes : LoadBalancer F → List (ℕ × Node F)
  healthy_nodes b = filter (λ x. (x.1).healthy) b.nodes

  -- `get_node` on the healthy nodes.
  unfoldable pub get_node_of :
      Draw F → LoadBalancer F → List (ℕ × Node F) → Result BalanceError (String × LoadBalancer F)
  unfolding choose used put
  get_node_of d b [] = err runtime_error
  get_node_of d b (x ∷ xs) =
      let c = choose b.strategy d b.rr_index x xs in
      ok (
        c.1.address,
        record b {
          nodes = put c.0 (used d.now c.1) b.nodes;
          rr_index = next_rr b.strategy b.rr_index (suc (length xs));
        },
      )

  unfoldable pub get_node : Draw F → LoadBalancer F → Result BalanceError (String × LoadBalancer F)
  unfolding get_node_of healthy_nodes
  get_node d b = get_node_of d b (healthy_nodes b)

  abbrev adjust_at : (Node F → Node F) → LoadBalancer F → ℕ → Option (Node F) → LoadBalancer F
  adjust_at f b i none = b
  adjust_at f b i (some n) = record b { nodes = put i (f n) b.nodes }

  abbrev adjust_found : (Node F → Node F) → LoadBalancer F → Option ℕ → LoadBalancer F
  adjust_found f b none = b
  adjust_found f b (some i) = adjust_at f b i (get i b.nodes)

  -- `node = self._node_map.get(address)`, and an assignment to its fields.
  unfoldable pub adjust : (Node F → Node F) → String → LoadBalancer F → LoadBalancer F
  unfolding get put
  adjust f address b = adjust_found f b (get address b.node_map)

  unfoldable pub released : Node F → Node F
  released n = record n { active_connections = n.active_connections - 1 }

  unfoldable pub release_node : String → LoadBalancer F → LoadBalancer F
  unfolding adjust released
  release_node address b = adjust released address b

  unfoldable pub timed : F → Node F → Node F
  timed elapsed n = record n {
    response_time_ms =
        if o.same n.response_time_ms o.nought
        then elapsed
        else o.smoothed elapsed n.response_time_ms;
  }

  unfoldable pub report_response_time : String → F → LoadBalancer F → LoadBalancer F
  unfolding adjust timed
  report_response_time address elapsed b = adjust (timed elapsed) address b

  unfoldable pub failed : Node F → Node F
  failed n = record n {
    failure_count = suc n.failure_count;
    active_connections = n.active_connections - 1;
    healthy = if leb 3 (suc n.failure_count) then false else n.healthy;
  }

  unfoldable pub report_failure : String → LoadBalancer F → LoadBalancer F
  unfolding adjust failed
  report_failure address b = adjust failed address b

  unfoldable pub succeeded : Node F → Node F
  succeeded n = record n { failure_count = 0; healthy = true }

  unfoldable pub report_success : String → LoadBalancer F → LoadBalancer F
  unfolding adjust succeeded
  report_success address b = adjust succeeded address b

  unfoldable pub with_health : Bool → Node F → Node F
  with_health h n = record n { healthy = h }

  unfoldable pub set_node_health : String → Bool → LoadBalancer F → LoadBalancer F
  unfolding adjust with_health
  set_node_health address h b = adjust (with_health h) address b
