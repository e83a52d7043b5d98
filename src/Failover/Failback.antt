-- ===== src/Failover/Failback.antt =====
-- The setting auto_failback and the current index of python/vedadb/failover.py, which nothing reads.
use mathlib.Core.Path.{subst}
use vedadb_driver.Base.{
  ℕ, zero, suc, ◌≡◌, refl, ap, sym, ◌∙◌, Bool, not, ◌&&◌, ◌==◌, Option, none, some, List, [], ◌∷◌,
  if_cases, Result, ok, err,
}
use vedadb_driver.Base.Dict.{nat_eq, Dict, get}
use vedadb_driver.Failover.{
  FailoverNode, Settings, FailoverClient, Network, FailoverError, first_fit, first_due, sorted,
  get_current_node, or_probe, failover, moved, change, change_found, succeed, on_success,
  failed_back, has_lower_rank, on_failure, fail, timed, least, is_healthy,
}
use vedadb_driver.Failover.Calls.{query, sent, answered, try_next}

-- Clients that differ in the current index at most.
pub record SameNodes (c d : FailoverClient) : Type 0 where
  pub same_nodes : c.nodes ≡ d.nodes
  pub same_calls : c.calls ≡ d.calls

same_client : (c d : FailoverClient) → SameNodes c d → record c { current_idx = d.current_idx } ≡ d
same_client c d h = rw (h.same_nodes, h.same_calls) refl

-- A property of a client and of the same one with another index is one of clients with the same nodes.
of_index :
    (P : FailoverClient → FailoverClient → Type 0) (c d : FailoverClient)
    → SameNodes c d
    → ((k : ℕ) → P c (record c { current_idx = k }))
    → P c d
of_index P c d h f = subst (P c) (same_client c d h) (f d.current_idx)

-- The same result, and clients with the same nodes.
abbrev Same : {X : Type 0} → X × FailoverClient → X × FailoverClient → Type 0
Same r q = (r.0 ≡ q.0) × SameNodes r.1 q.1

SameNodes-trans : (b c d : FailoverClient) → SameNodes b c → SameNodes c d → SameNodes b d
SameNodes-trans b c d h k = record {
  same_nodes = h.same_nodes ∙ k.same_nodes;
  same_calls = h.same_calls ∙ k.same_calls;
}

SameNodes-sym : (c d : FailoverClient) → SameNodes c d → SameNodes d c
SameNodes-sym c d h = record { same_nodes = sym h.same_nodes; same_calls = sym h.same_calls }

change_found-SameNodes :
    (f : FailoverNode → FailoverNode) (i k : ℕ) (c : FailoverClient) (r : Option FailoverNode)
    → SameNodes (change_found f i r c) (change_found f i r (record c { current_idx = k }))
change_found-SameNodes f i k c none = record { same_nodes = refl; same_calls = refl }
change_found-SameNodes f i k c (some n) = record { same_nodes = refl; same_calls = refl }

change-SameNodes :
    (f : FailoverNode → FailoverNode) (i : ℕ) (c d : FailoverClient)
    → SameNodes c d
    → SameNodes (change f i c) (change f i d)
unfolding change
change-SameNodes f i c d h =
    of_index (λ x y. SameNodes (change f i x) (change f i y)) c d h
      (λ k. change_found-SameNodes f i k c (get i c.nodes))

failed_back-SameNodes :
    (i : ℕ) (ns : Dict ℕ FailoverNode) (c : FailoverClient) → SameNodes (failed_back i ns c) c
failed_back-SameNodes i [] c = record { same_nodes = refl; same_calls = refl }
failed_back-SameNodes i (x ∷ xs) c =
    let p = least x xs in
    if_cases (λ d. SameNodes d c) (is_healthy (p.1).state && not (p.0 == i))
      (λ _. record { same_nodes = refl; same_calls = refl })
      (λ _. record { same_nodes = refl; same_calls = refl })

pub on_success-change :
    (s : Settings) (i : ℕ) (c : FailoverClient) → SameNodes (on_success s i c) (change succeed i c)
unfolding on_success
on_success-change s i c =
    let c' = change succeed i c in
    if_cases (λ d. SameNodes d c') (s.auto_failback && has_lower_rank (get i c'.nodes))
      (λ _. failed_back-SameNodes i c'.nodes c')
      (λ _. record { same_nodes = refl; same_calls = refl })

moved-Same :
    (r : Option ℕ) (c : FailoverClient) (k : ℕ)
    → Same (moved r c) (moved r (record c { current_idx = k }))
moved-Same none c k = (refl, record { same_nodes = refl; same_calls = refl })
moved-Same (some i) c k = (refl, record { same_nodes = refl; same_calls = refl })

failover-Same : (c d : FailoverClient) → SameNodes c d → Same (failover c) (failover d)
unfolding failover
failover-Same c d h =
    of_index (λ x y. Same (failover x) (failover y)) c d h
      (moved-Same (first_fit (sorted c.nodes)) c)

or_probe-Same :
    (r : Option ℕ) (q : Option (ℕ × FailoverNode)) (c : FailoverClient) (k : ℕ)
    → Same (or_probe r q c) (or_probe r q (record c { current_idx = k }))
or_probe-Same (some i) q c k = (refl, record { same_nodes = refl; same_calls = refl })
or_probe-Same none none c k = (refl, record { same_nodes = refl; same_calls = refl })
or_probe-Same none (some (i, n)) c k = (refl, record { same_nodes = refl; same_calls = refl })

module _ (s : Settings) (b : Bool) where
  abbrev other : Settings
  other = record s { auto_failback = b }

  first_due-other :
      (now : ℕ) (ns : Dict ℕ FailoverNode) → first_due s now ns ≡ first_due other now ns
  unfolding first_due
  first_due-other now [] = refl
  first_due-other now ((i, n) ∷ ns) = rw (first_due-other now ns) refl

  get_current_node-Same :
      (now : ℕ) (c d : FailoverClient)
      → SameNodes c d
      → Same (get_current_node s now c) (get_current_node other now d)
  unfolding get_current_node
  get_current_node-Same now c d h =
      of_index (λ x y. Same (get_current_node s now x) (get_current_node other now y)) c d h
        (λ k.
          rw (← (first_due-other now (sorted c.nodes)))
            (or_probe-Same (first_fit (sorted c.nodes)) (first_due s now (sorted c.nodes)) c k))

  on_success-Same :
      (i : ℕ) (c d : FailoverClient)
      → SameNodes c d
      → SameNodes (on_success s i c) (on_success other i d)
  on_success-Same i c d h = SameNodes-trans _ _ _ (on_success-change s i c) (
      SameNodes-trans _ _ _ (change-SameNodes succeed i c d h)
        (SameNodes-sym _ _ (on_success-change other i d)))

  module _ {E R : Type 0} (net : Network E R) where
    counted :
        (c d : FailoverClient)
        → SameNodes c d
        → SameNodes (record c { calls = suc c.calls }) (record d { calls = suc d.calls })
    counted c d h = record { same_nodes = h.same_nodes; same_calls = ap suc h.same_calls }

    try_next-Same :
        (r q : Option ℕ × FailoverClient) → Same r q → Same (try_next net r) (try_next net q)
    try_next-Same (o, c) (o', d) (e, h) =
        of_index (λ x y. Same (try_next net (o, x)) (try_next net (o', y))) c d h
          (λ k. rw (← e) (cases o c k))
      where
        cases :
            (o : Option ℕ) (c : FailoverClient) (k : ℕ)
            → Same (try_next net (o, c)) (try_next net (o, record c { current_idx = k }))
        cases none c k = (refl, record { same_nodes = refl; same_calls = refl })
        cases (some j) c k = (refl, record { same_nodes = refl; same_calls = refl })

    answered-Same :
        (i : ℕ) (r : Result E R) (c : FailoverClient) (k : ℕ)
        → Same (answered s net i r c) (answered other net i r (record c { current_idx = k }))
    unfolding on_failure
    answered-Same i (ok r) c k =
        let d : FailoverClient = record c { current_idx = k } in
        let h : SameNodes c d = record { same_nodes = refl; same_calls = refl } in
        (
          refl,
          on_success-Same i _ _
              (change-SameNodes (timed (net.elapsed c.calls)) i _ _ (counted c d h)),
        )
    answered-Same i (err e) c k =
        let d : FailoverClient = record c { current_idx = k } in
        let h : SameNodes c d = record { same_nodes = refl; same_calls = refl } in
        try_next-Same _ _ (
          failover-Same _ _
            (change-SameNodes (fail s (net.now (suc c.calls))) i _ _ (counted c d h)))

    sent-Same :
        (r q : Option ℕ × FailoverClient) → Same r q → Same (sent s net r) (sent other net q)
    sent-Same (o, c) (o', d) (e, h) =
        of_index (λ x y. Same (sent s net (o, x)) (sent other net (o', y))) c d h
          (λ k. rw (← e) (cases o c k))
      where
        cases :
            (o : Option ℕ) (c : FailoverClient) (k : ℕ)
            → Same (sent s net (o, c)) (sent other net (o, record c { current_idx = k }))
        cases none c k = (refl, record { same_nodes = refl; same_calls = refl })
        cases (some i) c k = answered-Same i (net.query c.calls i) c k

    query-Same : (c d : FailoverClient) → SameNodes c d → Same (query s net c) (query other net d)
    unfolding query
    query-Same c d h = sent-Same _ _ (
        of_index
          (λ x y.
            Same (get_current_node s (net.now x.calls) x)
              (get_current_node other (net.now y.calls) y))
          c d h
          (λ k.
            get_current_node-Same (net.now c.calls) c (record c { current_idx = k })
              (record { same_nodes = refl; same_calls = refl })))

-- The results of so many queries, one after the other.
unfoldable pub results :
    {E R : Type 0} → Settings → Network E R → ℕ → FailoverClient → List (Result (FailoverError E) R)
unfolding query
results s net zero c = []
results s net (suc n) c = let (r, d) = query s net c in r ∷ results s net n d

results-Same :
    {E R : Type 0} (s : Settings) (b : Bool) (net : Network E R) (n : ℕ) (c d : FailoverClient)
    → SameNodes c d
    → results s net n c ≡ results (record s { auto_failback = b }) net n d
unfolding results
results-Same s b net zero c d h = refl
results-Same s b net (suc n) c d h =
    let (e, k) = query-Same s b net c d h in rw (e, results-Same s b net n _ _ k) refl

-- Neither auto_failback nor the current index has an effect: with any two values of them all queries
-- have the same results.
auto_failback_unused :
    {E R : Type 0} (s : Settings) (b : Bool) (net : Network E R) (n : ℕ) (c : FailoverClient)
    (k : ℕ)
    → results s net n c
      ≡ results (record s { auto_failback = b }) net n (record c { current_idx = k })
auto_failback_unused s b net n c k =
    results-Same s b net n c (record c { current_idx = k })
      (record { same_nodes = refl; same_calls = refl })
