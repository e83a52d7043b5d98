-- ===== src/Failover/Routing.antt =====
-- The node that `query` of python/vedadb/failover.py tries after a failure.
use vedadb_driver.Base.{
  ℕ, suc, ◌<◌, ◌≡◌, ◌≢◌, refl, ap, sym, ◌∙◌, ◌==◌, none, some, [], ◌∷◌, if◌then◌else◌, if_cases,
  ==_iff, err, arith,
}
use vedadb_driver.Base.Dict.{nat_eq, Dict, get, put, Distinct}
use vedadb_driver.Failover.{
  FailoverNode, Settings, FailoverClient, Network, insert, sorted, is_fit, first_fit,
  get_current_node, failover, change, on_failure, fail,
}
use vedadb_driver.Failover.Calls.{query, answered, of_client}

pub get-insert :
    (i k : ℕ) (n : FailoverNode) (ns : Dict ℕ FailoverNode)
    → get i ns ≡ none
    → get k (insert i n ns) ≡ (if i == k then some n else get k ns)
unfolding get insert
get-insert i k n [] h = refl
get-insert i k n ((j, m) ∷ ns) h = ground (arith, h, get-insert i k n ns)

pub get-sorted : (k : ℕ) (ns : Dict ℕ FailoverNode) → Distinct ns → get k (sorted ns) ≡ get k ns
unfolding get sorted
get-sorted k [] d = refl
get-sorted k ((i, n) ∷ ns) d =
    get-insert i k n (sorted ns) (get-sorted i ns d.1 ∙ d.0)
    ∙ ap (λ r. if i == k then some n else r) (get-sorted k ns d.1)

first_fit-put :
    (i : ℕ) (n m : FailoverNode) (ns : Dict ℕ FailoverNode)
    → get i ns ≡ some n
    → is_fit m.state ≡ is_fit n.state
    → first_fit (put i m ns) ≡ first_fit ns
unfolding get put first_fit
first_fit-put i n m [] g e = absurd (ground (arith, g))
first_fit-put i n m ((j, k) ∷ ns) g e = ground (arith, g, e, first_fit-put i n m ns)

put-insert :
    (i j : ℕ) (n m x : FailoverNode) (ns : Dict ℕ FailoverNode)
    → j ≢ i
    → get i ns ≡ some n
    → m.priority ≡ n.priority
    → put i m (insert j x ns) ≡ insert j x (put i m ns)
unfolding get put insert
put-insert i j n m x [] a g e = absurd (ground (arith, g))
put-insert i j n m x ((k, y) ∷ ns) a g e = ground (arith, a, g, e, put-insert i j n m x ns)

put-insert_same :
    (i : ℕ) (n m : FailoverNode) (ns : Dict ℕ FailoverNode)
    → get i ns ≡ none
    → m.priority ≡ n.priority
    → put i m (insert i n ns) ≡ insert i m ns
unfolding get put insert
put-insert_same i n m [] g e = ground arith
put-insert_same i n m ((k, y) ∷ ns) g e = ground (arith, g, e, put-insert_same i n m ns)

sorted-put :
    (i : ℕ) (n m : FailoverNode) (ns : Dict ℕ FailoverNode)
    → Distinct ns
    → get i ns ≡ some n
    → m.priority ≡ n.priority
    → sorted (put i m ns) ≡ put i m (sorted ns)
unfolding get put sorted
sorted-put i n m [] d g e = absurd (ground (arith, g))
sorted-put i n m ((j, x) ∷ ns) d g e =
    if_cases (λ l. sorted l ≡ put i m (insert j x (sorted ns))) (j == i)
      (λ p. sym (
        ap (λ t. put t m (insert j x (sorted ns))) (sym ((==_iff j i).0 p))
        ∙ put-insert_same j x m (sorted ns) (get-sorted j ns d.1 ∙ d.0) (ground (arith, p, g, e))))
      (λ p.
        ap (insert j x) (sorted-put i n m ns d.1 (ground (arith, p, g)) e)
        ∙ sym (
            put-insert i j n m x (sorted ns) (ground (arith, p))
              (get-sorted i ns d.1 ∙ ground (arith, p, g)) e))

-- A node that failed is still the first one that is fit, if it is not out yet.
pub first_fit_kept :
    (i : ℕ) (n m : FailoverNode) (ns : Dict ℕ FailoverNode)
    → Distinct ns
    → get i ns ≡ some n
    → m.priority ≡ n.priority
    → is_fit m.state ≡ is_fit n.state
    → first_fit (sorted (put i m ns)) ≡ first_fit (sorted ns)
first_fit_kept i n m ns d g e f =
    ap first_fit (sorted-put i n m ns d g e)
    ∙ first_fit-put i n m (sorted ns) (get-sorted i ns d ∙ g) f

module _ {E R : Type 0} where
  -- The node of an error.
  failed_again :
      (s : Settings) (net : Network E R) (c : FailoverClient) (i : ℕ) (n : FailoverNode) (e : E)
      → Distinct c.nodes
      → get i c.nodes ≡ some n
      → first_fit (sorted c.nodes) ≡ some i
      → suc n.consecutive_failures < s.failure_threshold
      → (answered s net i (err e) c).0 ≡ of_client (net.query (suc c.calls) i)
  unfolding failover on_failure change fail
  failed_again s net c i n e d g f l =
      let m = fail s (net.now (suc c.calls)) n in
      let same : first_fit (sorted (put i m c.nodes)) ≡ some i =
        first_fit_kept i n m c.nodes d g refl (ground (arith, l)) ∙ f in
      rw (g, same) refl

  -- Where the failure leaves the node below the threshold, `query` tries the node that failed once
  -- more, whatever other nodes there are, and its second failure is the one of the call.
  query_again :
      (s : Settings) (net : Network E R) (c : FailoverClient) (i : ℕ) (n : FailoverNode) (e : E)
      → Distinct c.nodes
      → get i c.nodes ≡ some n
      → first_fit (sorted c.nodes) ≡ some i
      → suc n.consecutive_failures < s.failure_threshold
      → net.query c.calls i ≡ err e
      → (query s net c).0 ≡ of_client (net.query (suc c.calls) i)
  unfolding query get_current_node
  query_again s net c i n e d g f l q = rw (f, q) (failed_again s net c i n e d g f l)
