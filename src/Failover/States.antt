-- ===== src/Failover/States.antt =====
-- The states of the nodes of python/vedadb/failover.py, over queries and rounds of health checks.
use mathlib.Core.Path.{subst}
use vedadb_driver.Base.{
  ℕ, suc, ◌≤◌, ◌<◌, ◌≡◌, ◌⊎◌, refl, ap, sym, ◌∙◌, Bool, true, false, inl, inr, leb, ◌==◌, Option,
  none, some, [], ◌∷◌, if_cases, Bool-cases, Result, ok, err, arith,
}
use vedadb_driver.Base.Dict.{nat_eq, Dict, get, put, Distinct, get-put, put-Distinct}
use vedadb_driver.Failover.{
  FailoverNode, NodeState, healthy, unhealthy, degraded, Settings, FailoverClient, Network, insert,
  sorted, is_fit, first_fit, first_due, get_current_node, or_probe, probe, change, change_found,
  recovered, revived, succeed, fail, answer_ping, pinged,
}
use vedadb_driver.Failover.Calls.{check_each}
use vedadb_driver.Failover.Routing.{get-sorted, get-insert}

-- A node is out only after as many failures in a row as the threshold, and healthy only after fewer.
abbrev pub IsCounted : Settings → NodeState → ℕ → Type 0
IsCounted s healthy failures = failures < s.failure_threshold
IsCounted s unhealthy failures = s.failure_threshold ≤ failures
IsCounted s degraded failures = Unit

pub record IsSound (s : Settings) (ns : Dict ℕ FailoverNode) : Type 0 where
  pub distinct : Distinct ns
  pub counted :
      (i : ℕ) (n : FailoverNode) → get i ns ≡ some n → IsCounted s n.state n.consecutive_failures

pub put-IsSound :
    (s : Settings) (i : ℕ) (m : FailoverNode) (ns : Dict ℕ FailoverNode)
    → IsSound s ns
    → IsCounted s m.state m.consecutive_failures
    → IsSound s (put i m ns)
put-IsSound s i m ns v h = record {
  distinct = put-Distinct i m ns v.distinct;
  counted = λ j n g. cases j n g (Bool-cases (i == j));
}
  where
    cases :
        (j : ℕ) (n : FailoverNode)
        → get j (put i m ns) ≡ some n
        → ((i == j) ≡ true) ⊎ ((i == j) ≡ false)
        → IsCounted s n.state n.consecutive_failures
    cases j n g (inl p) =
        let e : m ≡ n = ground (arith, get-put i j m ns, p, g) in
        subst (λ x. IsCounted s x.state x.consecutive_failures) e h
    cases j n g (inr p) = v.counted j n (ground (arith, get-put i j m ns, p, g))

pub change-IsSound :
    (s : Settings) (f : FailoverNode → FailoverNode) (i : ℕ) (c : FailoverClient)
    → ((n : FailoverNode)
        → get i c.nodes ≡ some n
        → IsCounted s n.state n.consecutive_failures
        → IsCounted s (f n).state (f n).consecutive_failures)
    → IsSound s c.nodes
    → IsSound s (change f i c).nodes
unfolding change
change-IsSound s f i c h v = cases (get i c.nodes) refl
  where
    cases : (r : Option FailoverNode) → get i c.nodes ≡ r → IsSound s (change_found f i r c).nodes
    cases none e = v
    cases (some n) e = put-IsSound s i (f n) c.nodes v (h n e (v.counted i n e))

pub fail-IsCounted :
    (s : Settings) (now : ℕ) (n : FailoverNode)
    → IsCounted s n.state n.consecutive_failures
    → IsCounted s (fail s now n).state (fail s now n).consecutive_failures
unfolding fail
fail-IsCounted s now n h =
    if_cases (λ t. IsCounted s t (suc n.consecutive_failures))
      (leb s.failure_threshold (suc n.consecutive_failures)) (λ e. ground (arith, e))
      (λ e. cases n.state refl h (ground (arith, e)))
  where
    cases :
        (t : NodeState)
        → n.state ≡ t
        → IsCounted s t n.consecutive_failures
        → suc n.consecutive_failures < s.failure_threshold
        → IsCounted s t (suc n.consecutive_failures)
    cases healthy q k l = l
    cases unhealthy q k l = absurd (omega (arith, k, l))
    cases degraded q k l = tt

pub succeed-IsCounted :
    (s : Settings) (n : FailoverNode)
    → 0 < s.failure_threshold
    → is_fit n.state ≡ true
    → IsCounted s (succeed n).state (succeed n).consecutive_failures
unfolding succeed
succeed-IsCounted s n pos f = cases n.state f
  where
    cases : (t : NodeState) → is_fit t ≡ true → IsCounted s (recovered t) 0
    cases healthy e = pos
    cases degraded e = pos
    cases unhealthy e = absurd (ground (arith, e))

answer_ping-IsCounted :
    (s : Settings) (now : ℕ) (n : FailoverNode)
    → 0 < s.failure_threshold
    → IsCounted s (answer_ping now n).state (answer_ping now n).consecutive_failures
unfolding answer_ping
answer_ping-IsCounted s now n pos = cases n.state
  where
    cases : (t : NodeState) → IsCounted s (revived t) 0
    cases healthy = pos
    cases degraded = tt
    cases unhealthy = tt

pinged-IsSound :
    {E : Type 0} (s : Settings) (now i : ℕ) (r : Result E Bool) (c : FailoverClient)
    → 0 < s.failure_threshold
    → IsSound s c.nodes
    → IsSound s (pinged s now i r c).nodes
pinged-IsSound s now i (ok true) c pos v =
    change-IsSound s (answer_ping now) i c (λ n g h. answer_ping-IsCounted s now n pos) v
pinged-IsSound s now i (ok false) c pos v =
    change-IsSound s (fail s now) i c (λ n g h. fail-IsCounted s now n h) v
pinged-IsSound s now i (err e) c pos v =
    change-IsSound s (fail s now) i c (λ n g h. fail-IsCounted s now n h) v

pub check_each-IsSound :
    {E R : Type 0} (s : Settings) (net : Network E R) (ns : Dict ℕ FailoverNode)
    (c : FailoverClient)
    → 0 < s.failure_threshold
    → IsSound s c.nodes
    → IsSound s (check_each s net ns c).nodes
unfolding check_each
check_each-IsSound s net [] c pos v = v
check_each-IsSound s net ((i, n) ∷ ns) c pos v = check_each-IsSound s net ns _ pos (
    pinged-IsSound s (net.now (suc c.calls)) i (net.ping c.calls i)
      (record c { calls = suc c.calls }) pos v)

insert-Distinct :
    (i : ℕ) (n : FailoverNode) (ns : Dict ℕ FailoverNode)
    → get i ns ≡ none
    → Distinct ns
    → Distinct (insert i n ns)
unfolding get insert
insert-Distinct i n [] h d = (refl, tt)
insert-Distinct i n ((j, m) ∷ ns) h d =
    if_cases Distinct (leb n.priority m.priority) (λ _. (h, (d.0, d.1)))
      (λ _. (
        ground (arith, get-insert i j n ns, h, d.0),
        insert-Distinct i n ns (ground (arith, h)) d.1,
      ))

pub sorted-Distinct : (ns : Dict ℕ FailoverNode) → Distinct ns → Distinct (sorted ns)
unfolding sorted
sorted-Distinct [] d = tt
sorted-Distinct ((i, n) ∷ ns) d =
    insert-Distinct i n (sorted ns) (get-sorted i ns d.1 ∙ d.0) (sorted-Distinct ns d.1)

-- The node of a number is fit, if there is one.
abbrev pub Fit : ℕ → Dict ℕ FailoverNode → Type 0
Fit i ns = (n : FailoverNode) → get i ns ≡ some n → is_fit n.state ≡ true

first_fit-there : (i : ℕ) (ns : Dict ℕ FailoverNode) → first_fit ns ≡ some i → get i ns ≡ none → ⊥
unfolding first_fit get
first_fit-there i [] e h = ground (arith, e)
first_fit-there i ((j, m) ∷ ns) e h = ground (arith, e, h, first_fit-there i ns)

first_fit-Fit : (i : ℕ) (ns : Dict ℕ FailoverNode) → Distinct ns → first_fit ns ≡ some i → Fit i ns
unfolding first_fit get
first_fit-Fit i [] d e n g = absurd (ground (arith, g))
first_fit-Fit i ((j, m) ∷ ns) d e n g =
    cases (λ p q. first_fit-Fit i ns d.1 p n q) (Bool-cases (is_fit m.state)) (Bool-cases (j == i))
  where
    cases :
        (first_fit ns ≡ some i → get i ns ≡ some n → is_fit n.state ≡ true)
        → (is_fit m.state ≡ true) ⊎ (is_fit m.state ≡ false)
        → ((j == i) ≡ true) ⊎ ((j == i) ≡ false)
        → is_fit n.state ≡ true
    cases rec (inl p) (inl q) =
        let same : m ≡ n = ground (arith, g, q) in ap (λ x. is_fit x.state) (sym same) ∙ p
    cases rec (inl p) (inr q) = absurd (ground (arith, e, p, q))
    cases rec (inr p) (inl q) =
        absurd (first_fit-there i ns (ground (arith, e, p)) (ground (arith, d.0, q)))
    cases rec (inr p) (inr q) = rec (ground (arith, e, p)) (ground (arith, g, q))

-- What `_get_current_node` leaves: states that fit the failures, and a node that may be asked.
abbrev pub Chooses : Settings → Option ℕ × FailoverClient → Type 0
Chooses s (none, c) = IsSound s c.nodes
Chooses s (some i, c) = IsSound s c.nodes × Fit i c.nodes

probe-Chooses :
    (s : Settings) (c : FailoverClient) (due : Option (ℕ × FailoverNode))
    → IsSound s c.nodes
    → Chooses s (probe due c)
probe-Chooses s c none v = v
probe-Chooses s c (some (i, n)) v =
    let m : FailoverNode = record n { state = degraded } in
    (
      put-IsSound s i m c.nodes v tt,
      λ k g. degraded_fit k (ground (arith, get-put i i m c.nodes, g)),
    )
  where
    degraded_fit : (k : FailoverNode) → record n { state = degraded } ≡ k → is_fit k.state ≡ true
    degraded_fit k e = ap (λ x. is_fit x.state) (sym e)

or_probe-Chooses :
    (s : Settings) (c : FailoverClient) (r : Option ℕ) (due : Option (ℕ × FailoverNode))
    → ((i : ℕ) → r ≡ some i → Fit i c.nodes)
    → IsSound s c.nodes
    → Chooses s (or_probe r due c)
or_probe-Chooses s c none due f v = probe-Chooses s c due v
or_probe-Chooses s c (some i) due f v = (v, f i refl)

pub get_current_node-Chooses :
    (s : Settings) (now : ℕ) (c : FailoverClient)
    → IsSound s c.nodes
    → Chooses s (get_current_node s now c)
unfolding get_current_node
get_current_node-Chooses s now c v =
    or_probe-Chooses s c (first_fit (sorted c.nodes)) (first_due s now (sorted c.nodes))
      (λ i e n g.
        first_fit-Fit i (sorted c.nodes) (sorted-Distinct c.nodes v.distinct) e n
          (get-sorted i c.nodes v.distinct ∙ g))
      v
