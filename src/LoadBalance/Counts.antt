-- ===== src/LoadBalance/Counts.antt =====
-- The balancer of python/vedadb/load_balance.py and its clients, in any order of their calls.
use vedadb_driver.Base.{
  ℕ, ◌-◌, ◌<◌, ◌≡◌, refl, ap, ◌∙◌, Bool, false, Option, none, some, List, [], ◌∷◌, ltb, ◌==◌,
  if◌then◌else◌, arith, if_cases, String, Result, ok, err,
}
use vedadb_driver.Base.Dict.{nat_eq, string_eq, Dict, get, get-put}
use vedadb_driver.Base.Sets.{has, Unique}
use vedadb_driver.LoadBalance.{
  Float, Node, LoadBalancer, Draw, BalanceError, Strategy, strategy_named, weight_of, used,
  released, failed, timed, succeeded, with_health, get_node, release_node, report_failure,
  report_success, adjust, report_response_time, set_node_health,
}
use vedadb_driver.LoadBalance.Nodes.{
  add_node, unless_known, append_node, remove_node, append_all, empty_balancer, built, new,
}
use vedadb_driver.LoadBalance.Choice.{Gets, get_node-Gets}
use vedadb_driver.LoadBalance.Members.{
  count, drop_one, count-drop_one, IsCounted, put-IsCounted, adjust-IsCounted,
  append_node-IsCounted,
}
use vedadb_driver.LoadBalance.Removal.{remove_node-IsCounted}

-- A balancer, and the addresses of the connections that its clients have.
pub record System (F : Type 0) : Type 0 where
  pub balancer : LoadBalancer F
  pub held : List String

-- A client gives a connection back by `release_node` or by `report_failure`.
pub data Event (F : Type 0) : Type 0 where
  taken : Draw F → Event F
  gave_back gave_up succeeded_at removed : String → Event F
  timed_at : String → F → Event F
  health_set : String → Bool → Event F
  added : String → ℕ → ℕ → Event F

module _ {F : Type 0} ⦃o : Float F⦄ where
  abbrev take_result : System F → Result BalanceError (String × LoadBalancer F) → System F
  take_result y (err e) = y
  take_result y (ok (a, c)) = record { balancer = c; held = a ∷ y.held }

  unfoldable pub step : System F → Event F → System F
  unfolding get_node release_node report_failure report_success report_response_time set_node_health
      add_node remove_node count drop_one
  step y (taken d) = take_result y (get_node d y.balancer)
  step y (gave_back a) =
      if ltb 0 (count a y.held)
      then record { balancer = release_node a y.balancer; held = drop_one a y.held }
      else y
  step y (gave_up a) =
      if ltb 0 (count a y.held)
      then record { balancer = report_failure a y.balancer; held = drop_one a y.held }
      else y
  step y (succeeded_at a) = record y { balancer = report_success a y.balancer }
  step y (removed a) =
      if count a y.held == 0 then record y { balancer = remove_node a y.balancer } else y
  step y (timed_at a x) = record y { balancer = report_response_time a x y.balancer }
  step y (health_set a h) = record y { balancer = set_node_health a h y.balancer }
  step y (added a w now) = record y { balancer = add_node a w now y.balancer }

  unfoldable pub run : System F → List (Event F) → System F
  unfolding step
  run y [] = y
  run y (e ∷ es) = run (step y e) es

  abbrev pub Fine : System F → Type 0
  Fine y = IsCounted y.balancer.nodes y.balancer.node_map y.balancer.next y.held

  take-Fine :
      (d : Draw F) (y : System F) (r : Result BalanceError (String × LoadBalancer F))
      → Gets d y.balancer r
      → Fine y
      → Fine (take_result y r)
  unfolding count used
  take-Fine d y (err e) g v = v
  take-Fine d y (ok (a, c)) g v =
      rw (g.stored, g.same_map, g.same_next)
        (put-IsCounted g.number g.node (used d.now g.node) y.balancer.nodes y.balancer.node_map
          y.balancer.next y.held (a ∷ y.held) v g.listed refl
          (ground (
            arith,
            v.counted g.number g.node g.listed,
            g.named,
            string_eq.beq_iff a g.node.address,
          ))
          (λ x ne. ground (arith, ne, g.named, string_eq.beq_iff a x)))

  -- An assignment that keeps the address and the count.
  keep-Fine :
      (f : Node F → Node F) (a : String) (y : System F)
      → ((n : Node F) → (f n).address ≡ n.address)
      → ((n : Node F) → (f n).active_connections ≡ n.active_connections)
      → Fine y
      → Fine (record y { balancer = adjust f a y.balancer })
  keep-Fine f a y e c v =
      adjust-IsCounted f a y.balancer y.held y.held v e (λ n h. c n ∙ h) (λ x ne. refl) (λ h. refl)

  -- One connection fewer.
  fewer-Fine :
      (f : Node F → Node F) (a : String) (y : System F)
      → ((n : Node F) → (f n).address ≡ n.address)
      → ((n : Node F) → (f n).active_connections ≡ n.active_connections - 1)
      → 0 < count a y.held
      → Fine y
      → Fine (record { balancer = adjust f a y.balancer; held = drop_one a y.held })
  fewer-Fine f a y e c pos v =
      adjust-IsCounted f a y.balancer y.held (drop_one a y.held) v e
        (λ n h. ground (arith, c n, h, count-drop_one a a y.held, string_eq.beq_iff a a))
        (λ x ne. ground (arith, ne, count-drop_one a x y.held, string_eq.beq_iff a x))
        (λ h. absurd (omega (arith, pos, v.held_known a h)))

  add_node-Fine :
      (a : String) (w now : ℕ) (y : System F)
      → Fine y
      → Fine (record y { balancer = add_node a w now y.balancer })
  unfolding add_node
  add_node-Fine a w now y v = cases (get a y.balancer.node_map) refl
    where
      cases :
          (r : Option ℕ)
          → get a y.balancer.node_map ≡ r
          → Fine
              (record y { balancer = unless_known r y.balancer (append_node a w now y.balancer) })
      cases (some i) h = v
      cases none h = append_node-IsCounted a w now y.balancer y.held h v

  step-Fine : (y : System F) (e : Event F) → Fine y → Fine (step y e)
  unfolding step release_node report_failure report_success report_response_time set_node_health
      released failed succeeded timed with_health
  step-Fine y (taken d) v =
      take-Fine d y (get_node d y.balancer) (get_node-Gets d y.balancer v.distinct) v
  step-Fine y (gave_back a) v =
      if_cases Fine (ltb 0 (count a y.held))
        (λ h. fewer-Fine released a y (λ n. refl) (λ n. refl) (ground (arith, h)) v) (λ h. v)
  step-Fine y (gave_up a) v =
      if_cases Fine (ltb 0 (count a y.held))
        (λ h. fewer-Fine failed a y (λ n. refl) (λ n. refl) (ground (arith, h)) v) (λ h. v)
  step-Fine y (succeeded_at a) v = keep-Fine succeeded a y (λ n. refl) (λ n. refl) v
  step-Fine y (removed a) v =
      if_cases Fine (count a y.held == 0)
        (λ h. (remove_node-IsCounted a y.balancer y.held (ground (arith, h)) v).0) (λ h. v)
  step-Fine y (timed_at a x) v = keep-Fine (timed x) a y (λ n. refl) (λ n. refl) v
  step-Fine y (health_set a h) v = keep-Fine (with_health h) a y (λ n. refl) (λ n. refl) v
  step-Fine y (added a w now) v = add_node-Fine a w now y v

  run-Fine : (y : System F) (es : List (Event F)) → Fine y → Fine (run y es)
  unfolding run
  run-Fine y [] v = v
  run-Fine y (e ∷ es) v = run-Fine (step y e) es (step-Fine y e v)

  append_node-known :
      (a c : String) (w now : ℕ) (b : LoadBalancer F)
      → string_eq.beq a c ≡ false
      → get c b.node_map ≡ none
      → get c (append_node a w now b).node_map ≡ none
  unfolding append_node
  append_node-known a c w now b ne h = ground (arith, get-put a c b.next b.node_map, ne, h)

  abbrev pub Absent : LoadBalancer F → List String → Type 0
  Absent b [] = Unit
  Absent b (a ∷ rest) = (get a b.node_map ≡ none) × Absent b rest

  append_node-Absent :
      (a : String) (w now : ℕ) (b : LoadBalancer F) (rest : List String)
      → has a rest ≡ false
      → Absent b rest
      → Absent (append_node a w now b) rest
  unfolding has
  append_node-Absent a w now b [] h k = tt
  append_node-Absent a w now b (c ∷ rest) h k = (
    append_node-known a c w now b (ground (arith, h, string_eq.beq_iff a c, string_eq.beq_iff c a))
        k.0,
    append_node-Absent a w now b rest (ground (arith, h)) k.1,
  )

  append_all-Fine :
      (weights : Dict String ℕ) (now : ℕ) (names : List String) (b : LoadBalancer F)
      → Unique names
      → Absent b names
      → IsCounted b.nodes b.node_map b.next []
      → let c = append_all weights now names b in IsCounted c.nodes c.node_map c.next []
  unfolding append_all
  append_all-Fine weights now [] b u k v = v
  append_all-Fine weights now (a ∷ names) b u k v =
      let w = weight_of weights a in
      append_all-Fine weights now names (append_node a w now b) u.1
        (append_node-Absent a w now b names u.0 k.1) (append_node-IsCounted a w now b [] k.0 v)

  empty-Absent : (b : LoadBalancer F) (names : List String) → b.node_map ≡ [] → Absent b names
  unfolding get
  empty-Absent b [] e = tt
  empty-Absent b (a ∷ names) e = (ap (get a) e, empty-Absent b names e)

  empty-Fine :
      (s : Strategy)
      → let c : LoadBalancer F = empty_balancer s in IsCounted c.nodes c.node_map c.next []
  unfolding get count
  empty-Fine s = record {
    distinct = tt;
    below = λ i n h. absurd (ground (arith, h));
    mapped = λ a i h. absurd (ground (arith, h));
    indexed = λ i n h. absurd (ground (arith, h));
    counted = λ i n h. absurd (ground (arith, h));
    held_known = λ a h. refl;
  }

  built-Fine :
      (weights : Dict String ℕ) (now : ℕ) (names : List String) (r : Option Strategy)
      (b : LoadBalancer F)
      → Unique names
      → built weights now names r ≡ ok b
      → IsCounted b.nodes b.node_map b.next []
  unfolding built
  built-Fine weights now names none b u e = absurd (ground (arith, e))
  built-Fine weights now names (some s) b u e =
      let c : LoadBalancer F = empty_balancer s in
      let same : append_all weights now names c ≡ b = ground (arith, e) in
      rw⁻¹ same (append_all-Fine weights now names c u (empty-Absent c names refl) (empty-Fine s))

  -- In every order of calls on a balancer whose addresses differ from the start, where a connection is
  -- given back once and a node is removed only while no connection to it is held: the map has exactly
  -- the nodes of the list under their addresses, and a node's count is the number of its connections
  -- that clients hold.
  pub run-IsCounted :
      (names : List String) (strategy : String) (weights : Dict String ℕ) (now : ℕ)
      (b : LoadBalancer F) (es : List (Event F))
      → Unique names
      → new names strategy weights now ≡ ok b
      → let y = run (record { balancer = b; held = [] }) es in
        IsCounted y.balancer.nodes y.balancer.node_map y.balancer.next y.held
  unfolding new
  run-IsCounted [] strategy weights now b es u e = absurd (ground (arith, e))
  run-IsCounted (a ∷ names) strategy weights now b es u e =
      run-Fine (record { balancer = b; held = [] }) es
        (built-Fine weights now (a ∷ names) (strategy_named strategy) b u e)
