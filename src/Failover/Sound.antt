-- ===== src/Failover/Sound.antt =====
-- Runs of python/vedadb/failover.py: queries and rounds of health checks, one after the other.
use mathlib.Core.Path.{subst}
use vedadb_driver.Base.{
  ℕ, zero, suc, ◌<◌, ◌≡◌, ◌⊎◌, refl, ap, sym, ◌∙◌, true, false, inl, inr, ◌==◌, Option, none, some,
  List, [], ◌∷◌, if◌then◌else◌, Bool-cases, Result, ok, err, arith,
}
use vedadb_driver.Base.Dict.{nat_eq, get, get-put}
use vedadb_driver.Failover.{
  FailoverNode, healthy, Settings, FailoverClient, Network, is_fit, sorted, first_fit, failover,
  moved, change, change_found, succeed, on_success, on_failure, fail, timed, make_nodes,
}
use vedadb_driver.Failover.Calls.{check_all_nodes, query, sent, answered, try_next}
use vedadb_driver.Failover.Failback.{on_success-change}
use vedadb_driver.Failover.States.{
  IsCounted, IsSound, change-IsSound, fail-IsCounted, succeed-IsCounted, check_each-IsSound, Fit,
  Chooses, get_current_node-Chooses,
}

change-Fit :
    (f : FailoverNode → FailoverNode) (i : ℕ) (c : FailoverClient)
    → ((n : FailoverNode) → (f n).state ≡ n.state)
    → Fit i c.nodes
    → Fit i (change f i c).nodes
unfolding change
change-Fit f i c keeps h = cases (get i c.nodes) refl
  where
    cases : (r : Option FailoverNode) → get i c.nodes ≡ r → Fit i (change_found f i r c).nodes
    cases none e n g = h n g
    cases (some m) e n g =
        let same : f m ≡ n = ground (arith, get-put i i (f m) c.nodes, g) in
        ap (λ x. is_fit x.state) (sym same) ∙ (ap is_fit (keeps m) ∙ h m e)

module _ {E R : Type 0} (s : Settings) (net : Network E R) where
  success-IsSound :
      (i : ℕ) (c : FailoverClient)
      → 0 < s.failure_threshold
      → IsSound s c.nodes
      → Fit i c.nodes
      → IsSound s (on_success s i c).nodes
  success-IsSound i c pos v f =
      rw ((on_success-change s i c).same_nodes)
        (change-IsSound s succeed i c (λ n g h. succeed-IsCounted s n pos (f n g)) v)

  pub moved-nodes : (r : Option ℕ) (c : FailoverClient) → (moved r c).1.nodes ≡ c.nodes
  moved-nodes none c = refl
  moved-nodes (some i) c = refl

  pub try_next-nodes : (r : Option ℕ × FailoverClient) → (try_next net r).1.nodes ≡ r.1.nodes
  try_next-nodes (none, c) = refl
  try_next-nodes (some i, c) = refl

  answered-IsSound :
      (i : ℕ) (r : Result E R) (c : FailoverClient)
      → 0 < s.failure_threshold
      → IsSound s c.nodes
      → Fit i c.nodes
      → IsSound s (answered s net i r c).1.nodes
  unfolding failover on_failure
  answered-IsSound i (ok r) c pos v f =
      let c' : FailoverClient = record c { calls = suc c.calls } in
      let t = timed (net.elapsed c.calls) in
      success-IsSound i (change t i c') pos (change-IsSound s t i c' (λ n g h. unfold timed in h) v)
        (change-Fit t i c' (λ n. unfold timed in refl) f)
  answered-IsSound i (err e) c pos v f =
      let c' : FailoverClient = record c { calls = suc c.calls } in
      let d = change (fail s (net.now (suc c.calls))) i c' in
      rw
        (
          try_next-nodes (moved (first_fit (sorted d.nodes)) d),
          moved-nodes (first_fit (sorted d.nodes)) d,
        )
        (change-IsSound s (fail s (net.now (suc c.calls))) i c'
          (λ n g h. fail-IsCounted s (net.now (suc c.calls)) n h) v)

  sent-IsSound :
      (r : Option ℕ × FailoverClient)
      → 0 < s.failure_threshold
      → Chooses s r
      → IsSound s (sent s net r).1.nodes
  sent-IsSound (none, c) pos v = v
  sent-IsSound (some i, c) pos (v, f) = answered-IsSound i (net.query c.calls i) c pos v f

  pub query-IsSound :
      (c : FailoverClient)
      → 0 < s.failure_threshold
      → IsSound s c.nodes
      → IsSound s (query s net c).1.nodes
  unfolding query
  query-IsSound c pos v = sent-IsSound _ pos (get_current_node-Chooses s (net.now c.calls) c v)

-- A call of a client.
pub data Call : Type 0 where
  queried checked : Call

unfoldable pub run :
    {E R : Type 0} → Settings → Network E R → List Call → FailoverClient → FailoverClient
unfolding query check_all_nodes
run s net [] c = c
run s net (queried ∷ cs) c = run s net cs (query s net c).1
run s net (checked ∷ cs) c = run s net cs (check_all_nodes s net c)

pub run-IsSound_from :
    {E R : Type 0} (s : Settings) (net : Network E R) (cs : List Call) (c : FailoverClient)
    → 0 < s.failure_threshold
    → IsSound s c.nodes
    → IsSound s (run s net cs c).nodes
unfolding run check_all_nodes
run-IsSound_from s net [] c pos v = v
run-IsSound_from s net (queried ∷ cs) c pos v =
    run-IsSound_from s net cs _ pos (query-IsSound s net c pos v)
run-IsSound_from s net (checked ∷ cs) c pos v =
    run-IsSound_from s net cs _ pos (check_each-IsSound s net c.nodes c pos v)

made-below : (now i j count : ℕ) → j < i → get j (make_nodes now i count) ≡ none
unfolding make_nodes get
made-below now i j zero l = refl
made-below now i j (suc count) l = ground (arith, l, made-below now (suc i) j count)

pub made-IsSound :
    (s : Settings) (now i count : ℕ) → 0 < s.failure_threshold → IsSound s (make_nodes now i count)
unfolding make_nodes get
made-IsSound s now i zero pos = record {
  distinct = tt;
  counted = λ j n g. absurd (ground (arith, g));
}
made-IsSound s now i (suc count) pos =
    let rest = made-IsSound s now (suc i) count pos in
    record {
      distinct = (made-below now (suc i) i count (omega arith), rest.distinct);
      counted = λ j n g. cases j n g (rest.counted j n) (Bool-cases (i == j));
    }
  where
    first : FailoverNode
    first = record {
      state = healthy;
      priority = i;
      last_check = now;
      consecutive_failures = 0;
      total_requests = 0;
      response_time_ms = 0;
    }

    cases :
        (j : ℕ) (n : FailoverNode)
        → (if i == j then some first else get j (make_nodes now (suc i) count)) ≡ some n
        → (get j (make_nodes now (suc i) count) ≡ some n
            → IsCounted s n.state n.consecutive_failures)
        → ((i == j) ≡ true) ⊎ ((i == j) ≡ false)
        → IsCounted s n.state n.consecutive_failures
    cases j n g rec (inl p) =
        let same : first ≡ n = ground (arith, g, p) in
        subst (λ x. IsCounted s x.state x.consecutive_failures) same pos
    cases j n g rec (inr p) = rec (ground (arith, g, p))
