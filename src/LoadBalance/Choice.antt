-- ===== src/LoadBalance/Choice.antt =====
-- `get_node` of python/vedadb/load_balance.py: which node it takes.
use vedadb_driver.Base.{
  ℕ, zero, suc, ◌%◌, ◌≡◌, refl, Bool, true, not, none, some, List, [], ◌∷◌, leb, if◌then◌else◌,
  length, arith, All, if_cases, String, Result, ok, err,
}
use vedadb_driver.Base.Dict.{nat_eq, string_eq, Dict, get, put, Distinct}
use vedadb_driver.LoadBalance.{
  Float, Node, Strategy, round_robin, least_connections, random, weighted, fastest_response,
  LoadBalancer, Draw, BalanceError, runtime_error, filter, at, load_score, response_score, min_by,
  total_weight, weigh, weighted_select, choose, used, healthy_nodes, get_node_of, get_node,
}

pub at-All :
    {A : Type 0} (P : A → Type 0) (x : A) (xs : List A) (i : ℕ) → P x → All P xs → P (at x xs i)
at-All P x xs zero p h = p
at-All P x [] (suc i) p h = p
at-All P x (y ∷ ys) (suc i) p h = at-All P y ys i h.0 h.1

filter-All :
    {A : Type 0} (Q : A → Type 0) (p : A → Bool) (xs : List A)
    → All Q xs
    → All (λ x. Q x × (p x ≡ true)) (filter p xs)
filter-All Q p [] h = tt
filter-All Q p (x ∷ xs) h =
    let rest = filter-All Q p xs h.1 in
    if_cases (All (λ y. Q y × (p y ≡ true))) (p x) (λ e. ((h.0, e), rest)) (λ e. rest)

module _ {F : Type 0} ⦃o : Float F⦄ where
  -- A node that is in the list under its number.
  abbrev pub Listed : Dict ℕ (Node F) → ℕ × Node F → Type 0
  Listed ns x = get x.0 ns ≡ some x.1

  Listed-later :
      (i : ℕ) (n : Node F) (ns : Dict ℕ (Node F)) (xs : List (ℕ × Node F))
      → get i ns ≡ none
      → All (Listed ns) xs
      → All (Listed ((i, n) ∷ ns)) xs
  unfolding get
  Listed-later i n ns [] h a = tt
  Listed-later i n ns ((j, m) ∷ xs) h a = (ground (arith, h, a.0), Listed-later i n ns xs h a.1)

  All-Listed : (ns : Dict ℕ (Node F)) → Distinct ns → All (Listed ns) ns
  unfolding get
  All-Listed [] d = tt
  All-Listed ((i, n) ∷ ns) d = (ground arith, Listed-later i n ns ns d.0 (All-Listed ns d.1))

  pub min_by-All :
      (P : ℕ × Node F → Type 0) (score : Node F → F) (x : ℕ × Node F) (xs : List (ℕ × Node F))
      → P x
      → All P xs
      → P (min_by score x xs)
  unfolding min_by
  min_by-All P score x [] p h = p
  min_by-All P score x (y ∷ ys) p h =
      min_by-All P score (if o.less (score y.1) (score x.1) then y else x) ys
        (if_cases P (o.less (score y.1) (score x.1)) (λ _. h.0) (λ _. p)) h.1

  weigh-All :
      (P : ℕ × Node F → Type 0) (r cumulative : F) (x : ℕ × Node F) (xs : List (ℕ × Node F))
      → P x
      → All P xs
      → P (weigh r cumulative x xs)
  unfolding weigh
  weigh-All P r c x [] p h = p
  weigh-All P r c x (y ∷ ys) p h =
      if_cases P (not (y.1).healthy) (λ _. weigh-All P r c y ys h.0 h.1)
        (λ _.
          if_cases P (not (o.less (o.plus c (y.1).weight) r)) (λ _. h.0)
            (λ _. weigh-All P r (o.plus c (y.1).weight) y ys h.0 h.1))

  choose-All :
      (P : ℕ × Node F → Type 0) (s : Strategy) (d : Draw F) (rr : ℕ) (x : ℕ × Node F)
      (xs : List (ℕ × Node F))
      → P x
      → All P xs
      → P (choose s d rr x xs)
  unfolding choose weighted_select
  choose-All P round_robin d rr x xs p h = at-All P x xs (rr % suc (length xs)) p h
  choose-All P least_connections d rr x xs p h = min_by-All P load_score x xs p h
  choose-All P random d rr x xs p h = at-All P x xs (d.choice (suc (length xs))) p h
  choose-All P weighted d rr x xs p h =
      if_cases P (leb (total_weight (x ∷ xs)) 0) (λ _. p)
        (λ _. weigh-All P (d.uniform (total_weight (x ∷ xs))) o.nought x (x ∷ xs) p (p, h))
  choose-All P fastest_response d rr x xs p h = min_by-All P response_score x xs p h

  pub healthy_nodes-Listed :
      (b : LoadBalancer F)
      → Distinct b.nodes
      → All (λ x. Listed b.nodes x × ((x.1).healthy ≡ true)) (healthy_nodes b)
  unfolding healthy_nodes
  healthy_nodes-Listed b u = filter-All _ (λ x. (x.1).healthy) b.nodes (All-Listed b.nodes u)

  -- A call of `get_node` that took the node of number `i`.
  pub record Takes (d : Draw F) (b : LoadBalancer F) (address : String) (c : LoadBalancer F)
      : Type 0 where
    pub number : ℕ
    pub node : Node F
    pub listed : get number b.nodes ≡ some node
    pub fine : node.healthy ≡ true
    pub named : address ≡ node.address
    pub stored : c.nodes ≡ put number (used d.now node) b.nodes
    pub same_map : c.node_map ≡ b.node_map
    pub same_next : c.next ≡ b.next
    pub same_strategy : c.strategy ≡ b.strategy

  -- What `get_node` comes to: an exception, where no node is healthy, or the address of a healthy
  -- node, which counts the call.
  abbrev pub Gets : Draw F → LoadBalancer F → Result BalanceError (String × LoadBalancer F) → Type 0
  Gets d b (err e) = (e ≡ runtime_error) × (healthy_nodes b ≡ [])
  Gets d b (ok (a, c)) = Takes d b a c

  get_node_of-Gets :
      (d : Draw F) (b : LoadBalancer F) (xs : List (ℕ × Node F))
      → healthy_nodes b ≡ xs
      → All (λ x. Listed b.nodes x × ((x.1).healthy ≡ true)) xs
      → Gets d b (get_node_of d b xs)
  unfolding get_node_of
  get_node_of-Gets d b [] e h = (refl, e)
  get_node_of-Gets d b (x ∷ xs) e h =
      let c = choose b.strategy d b.rr_index x xs in
      let (l, f) = choose-All _ b.strategy d b.rr_index x xs h.0 h.1 in
      record {
        number = c.0;
        node = c.1;
        listed = l;
        fine = f;
        named = refl;
        stored = refl;
        same_map = refl;
        same_next = refl;
        same_strategy = refl;
      }

  -- Whatever the strategy and the random numbers, `get_node` returns the address of a healthy node of
  -- the list and counts the call in this node alone; it raises RuntimeError exactly if no node is
  -- healthy.
  pub get_node-Gets : (d : Draw F) (b : LoadBalancer F) → Distinct b.nodes → Gets d b (get_node d b)
  unfolding get_node
  get_node-Gets d b u = get_node_of-Gets d b (healthy_nodes b) refl (healthy_nodes-Listed b u)
