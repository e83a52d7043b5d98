-- ===== src/Failover.antt =====
-- python/vedadb/failover.py: queries that go to the first node that is fit. A node is its place in the
-- list that the client was made with; what the nodes' clients answer is an argument. Times are clock
-- ticks; the methods run one after the other.
pub mod Calls
pub mod Routing
pub mod States
pub mod Sound
pub mod Outcomes
pub mod Tally
pub mod Failback
mod Examples
use vedadb_driver.Base.{
  ℕ, zero, suc, ◌+◌, ◌-◌, Bool, true, false, not, ◌&&◌, ◌||◌, Option, none, some, List, [], ◌∷◌,
  ltb, leb, ◌==◌, if◌then◌else◌, Result, ok, err,
}
use vedadb_driver.Base.Dict.{Eq, nat_eq, Dict, get, put}

pub data NodeState : Type 0 where
  healthy unhealthy degraded : NodeState

pub record FailoverNode : Type 0 where
  pub state : NodeState
  pub priority : ℕ
  pub last_check : ℕ
  pub consecutive_failures : ℕ
  pub total_requests : ℕ
  pub response_time_ms : ℕ

pub record Settings : Type 0 where
  pub failure_threshold : ℕ
  pub recovery_interval : ℕ
  pub auto_failback : Bool

-- `calls` is the number of queries and pings so far.
pub record FailoverClient : Type 0 where
  pub nodes : Dict ℕ FailoverNode
  pub current_idx : ℕ
  pub calls : ℕ

-- The exceptions of `query`: VedaDBConnectionError, and those of a node's client.
pub data FailoverError (E : Type 0) : Type 0 where
  connection_error : FailoverError E
  of_node : E → FailoverError E

-- What the nodes' clients do at the n-th call: their result of a query and how long it took, their
-- answer to a ping or an exception, and the time afterwards.
pub record Network (E R : Type 0) : Type 0 where
  pub query : ℕ → ℕ → Result E R
  pub elapsed : ℕ → ℕ
  pub ping : ℕ → ℕ → Result E Bool
  pub now : ℕ → ℕ

unfoldable pub make_nodes : ℕ → ℕ → ℕ → Dict ℕ FailoverNode
make_nodes now i zero = []
make_nodes now i (suc count) =
    (
      i,
      record {
        state = healthy;
        priority = i;
        last_check = now;
        consecutive_failures = 0;
        total_requests = 0;
        response_time_ms = 0;
      },
    )
    ∷ make_nodes now (suc i) count

pub data ValueError : Type 0 where
  no_nodes : ValueError

-- `__init__`, of the number of nodes.
unfoldable pub new : ℕ → ℕ → Result ValueError FailoverClient
unfolding make_nodes
new now zero = err no_nodes
new now (suc count) =
    ok (record { nodes = make_nodes now 0 (suc count); current_idx = 0; calls = 0 })

-- sorted(self._nodes, key=lambda n: n.priority)
unfoldable pub insert : ℕ → FailoverNode → Dict ℕ FailoverNode → Dict ℕ FailoverNode
insert i n [] = (i, n) ∷ []
insert i n ((j, m) ∷ ns) =
    let rest = insert i n ns in
    if leb n.priority m.priority then (i, n) ∷ (j, m) ∷ ns else (j, m) ∷ rest

unfoldable pub sorted : Dict ℕ FailoverNode → Dict ℕ FailoverNode
unfolding insert
sorted [] = []
sorted ((i, n) ∷ ns) = insert i n (sorted ns)

-- `node.state in (NodeState.HEALTHY, NodeState.DEGRADED)`
abbrev pub is_fit : NodeState → Bool
is_fit unhealthy = false
is_fit _ = true

abbrev pub is_healthy : NodeState → Bool
is_healthy healthy = true
is_healthy _ = false

-- The first node that is fit.
unfoldable pub first_fit : Dict ℕ FailoverNode → Option ℕ
first_fit [] = none
first_fit ((i, n) ∷ ns) = if is_fit n.state then some i else first_fit ns

-- The first node that is due for a probe.
unfoldable pub first_due : Settings → ℕ → Dict ℕ FailoverNode → Option (ℕ × FailoverNode)
first_due s now [] = none
first_due s now ((i, n) ∷ ns) =
    if not (is_fit n.state) && leb s.recovery_interval (now - n.last_check)
    then some (i, n)
    else first_due s now ns

abbrev pub probe : Option (ℕ × FailoverNode) → FailoverClient → Option ℕ × FailoverClient
probe none c = (none, c)
probe (some (i, n)) c = (some i, record c { nodes = put i (record n { state = degraded }) c.nodes })

abbrev pub or_probe :
    Option ℕ → Option (ℕ × FailoverNode) → FailoverClient → Option ℕ × FailoverClient
or_probe (some i) due c = (some i, c)
or_probe none due c = probe due c

unfoldable pub get_current_node : Settings → ℕ → FailoverClient → Option ℕ × FailoverClient
unfolding first_fit first_due sorted put
get_current_node s now c =
    or_probe (first_fit (sorted c.nodes)) (first_due s now (sorted c.nodes)) c

abbrev pub moved : Option ℕ → FailoverClient → Option ℕ × FailoverClient
moved none c = (none, c)
moved (some i) c = (some i, record c { current_idx = i })

unfoldable pub failover : FailoverClient → Option ℕ × FailoverClient
unfolding first_fit sorted
failover c = moved (first_fit (sorted c.nodes)) c

-- A change of the fields of one node.
abbrev pub change_found :
    (FailoverNode → FailoverNode) → ℕ → Option FailoverNode → FailoverClient → FailoverClient
change_found f i none c = c
change_found f i (some n) c = record c { nodes = put i (f n) c.nodes }

unfoldable pub change : (FailoverNode → FailoverNode) → ℕ → FailoverClient → FailoverClient
unfolding get put
change f i c = change_found f i (get i c.nodes) c

abbrev pub recovered : NodeState → NodeState
recovered degraded = healthy
recovered state = state

unfoldable pub succeed : FailoverNode → FailoverNode
succeed n = record n { consecutive_failures = 0; state = recovered n.state }

-- min(self._nodes, key=lambda n: n.priority)
unfoldable pub least : ℕ × FailoverNode → Dict ℕ FailoverNode → ℕ × FailoverNode
least best [] = best
least best (x ∷ xs) = least (if ltb (x.1).priority (best.1).priority then x else best) xs

abbrev pub failed_back : ℕ → Dict ℕ FailoverNode → FailoverClient → FailoverClient
failed_back i [] c = c
failed_back i (x ∷ xs) c =
    let p = least x xs in
    if is_healthy (p.1).state && not (p.0 == i) then record c { current_idx = p.0 } else c

abbrev pub has_lower_rank : Option FailoverNode → Bool
has_lower_rank none = false
has_lower_rank (some n) = ltb 0 n.priority

unfoldable pub on_success : Settings → ℕ → FailoverClient → FailoverClient
unfolding change succeed least get
on_success s i c =
    let c' = change succeed i c in
    if s.auto_failback && has_lower_rank (get i c'.nodes) then failed_back i c'.nodes c' else c'

-- A failure more, and the state that follows from it.
abbrev pub counted_failure : Settings → FailoverNode → FailoverNode
counted_failure s n = record n {
  consecutive_failures = suc n.consecutive_failures;
  state = if leb s.failure_threshold (suc n.consecutive_failures) then unhealthy else n.state;
}

unfoldable pub fail : Settings → ℕ → FailoverNode → FailoverNode
fail s now n = record (counted_failure s n) { last_check = now }

unfoldable pub on_failure : Settings → ℕ → ℕ → FailoverClient → FailoverClient
unfolding change fail
on_failure s now i c = change (fail s now) i c

unfoldable pub timed : ℕ → FailoverNode → FailoverNode
timed elapsed n = record n { total_requests = suc n.total_requests; response_time_ms = elapsed }

-- A ping that is answered.
abbrev pub revived : NodeState → NodeState
revived unhealthy = degraded
revived state = state

unfoldable pub answer_ping : ℕ → FailoverNode → FailoverNode
answer_ping now n = record n { last_check = now; state = revived n.state; consecutive_failures = 0 }

abbrev pub pinged :
    {E : Type 0} → Settings → ℕ → ℕ → Result E Bool → FailoverClient → FailoverClient
pinged s now i (ok true) c = change (answer_ping now) i c
pinged s now i (ok false) c = change (fail s now) i c
pinged s now i (err e) c = change (fail s now) i c
