-- ===== src/RwSplit/Loads.antt =====
-- The loads that python/vedadb/rw_split.py counts for its replicas.
use vedadb_driver.Base.{
  ℕ, ◌+◌, ◌≡◌, refl, sym, ◌∙◌, not, ◌&&◌, ◌||◌, Option, none, some, List, [], ◌∷◌, arith, ltb, ◌==◌,
  if_cases, Result, ok, err,
}
use vedadb_driver.Base.Dict.{nat_eq, Dict, get, put}
use mathlib.Core.Path.{subst}
use vedadb_driver.RwSplit.Routing.{node}
use vedadb_driver.RwSplit.{
  Characters, is_read, is_write, is_transaction, least_loaded, RwSplitClient, Node, primary,
  replica, RouteError, healthy_of, load_of, least, nth_replica, pick, picked, pick_healthy,
  pick_replica, routed, route,
}

abbrev pub total : Dict ℕ ℕ → ℕ
total [] = 0
total ((i, n) ∷ load) = n + total load

-- The statements of a run, each with what random.choice draws for it, and the nodes they go to.
unfoldable pub routes :
    Characters → List (List ℕ × ℕ) → RwSplitClient → List (Result RouteError Node) × RwSplitClient
unfolding route
routes re [] c = ([], c)
routes re ((sql, draw) ∷ qs) c =
    let one = route re sql draw c in let rest = routes re qs one.1 in (one.0 ∷ rest.0, rest.1)

-- 1 for a replica, and for the exception of a replica that is not there.
abbrev pub weight : Result RouteError Node → ℕ
weight (ok primary) = 0
weight (ok (replica i)) = 1
weight (err e) = 1

abbrev pub to_replicas : List (Result RouteError Node) → ℕ
to_replicas [] = 0
to_replicas (r ∷ rs) = weight r + to_replicas rs

total-put : (i : ℕ) (load : Dict ℕ ℕ) → total (put i (load_of load i + 1) load) ≡ total load + 1
unfolding load_of get put
total-put i [] = refl
total-put i ((j, n) ∷ load) = ground (arith, total-put i load)

-- The strategy is kept, and the loads grow by the weight.
Grows : RwSplitClient → ℕ → RwSplitClient → Type 0
Grows c n c' = (c'.strategy ≡ c.strategy) × (total c'.replica_load ≡ total c.replica_load + n)

module _ (c : RwSplitClient) (s : c.strategy ≡ least_loaded) where
  unchanged : Grows c 0 c
  unfolding Grows
  unchanged = (refl, omega arith)

  routed-Grows :
      (o : Result RouteError (Option ℕ) × RwSplitClient)
      → Grows c (weight (node o.0)) o.1
      → Grows c (weight (routed o).0) (routed o).1
  routed-Grows (err e, c') g = g
  routed-Grows (ok (some i), c') g = g
  routed-Grows (ok none, c') g =
      if_cases (λ (o : Result RouteError Node × RwSplitClient). Grows c (weight o.0) o.1)
        c'.fallback_to_primary (λ h. g) (λ h. g)

  nth-weight : (n i : ℕ) → weight (node (nth_replica n i)) ≡ 1
  unfolding nth_replica
  nth-weight n i = if_cases (λ r. weight (node r) ≡ 1) (ltb i n) (λ h. refl) (λ h. refl)

  pick_healthy-Grows :
      (hs : List ℕ) (draw : ℕ)
      → Grows c (weight (node (pick_healthy hs draw c).0)) (pick_healthy hs draw c).1
  unfolding Grows
  pick_healthy-Grows [] draw = unchanged
  pick_healthy-Grows (h ∷ hs) draw =
      let i = least c.replica_load h hs in
      let c' : RwSplitClient = record c {
        replica_load = put i (load_of c.replica_load i + 1) c.replica_load;
      } in
      subst
        (λ t.
          Grows c (weight (node (picked (pick h hs t draw c)).0)) (picked (pick h hs t draw c)).1)
        (sym s)
        (subst (λ n. Grows c n c') (sym (nth-weight c.count i)) (refl, total-put i c.replica_load))

  pick_replica-Grows :
      (draw : ℕ) → Grows c (weight (node (pick_replica draw c).0)) (pick_replica draw c).1
  unfolding pick_replica
  pick_replica-Grows draw =
      if_cases
        (λ (o : Result RouteError (Option ℕ) × RwSplitClient). Grows c (weight (node o.0)) o.1)
        (c.count == 0) (λ h. unchanged) (λ h. pick_healthy-Grows (healthy_of c.replica_health) draw)

  route-Grows :
      (re : Characters) (sql : List ℕ) (draw : ℕ)
      → Grows c (weight (route re sql draw c).0) (route re sql draw c).1
  unfolding route
  route-Grows re sql draw =
      let Q : Result RouteError Node × RwSplitClient → Type 0 = λ o. Grows c (weight o.0) o.1 in
      if_cases Q (is_transaction re sql || is_write re sql) (λ h. unchanged)
        (λ h.
          if_cases Q (is_read re sql && not (c.count == 0))
            (λ r. routed-Grows (pick_replica draw c) (pick_replica-Grows draw)) (λ r. unchanged))

-- With least_loaded the loads of the replicas sum up to all the statements ever sent to one, whether
-- they still run or have ended: no call lowers a load.
pub loads_never_fall :
    (re : Characters) (qs : List (List ℕ × ℕ)) (c : RwSplitClient)
    → c.strategy ≡ least_loaded
    → total ((routes re qs c).1).replica_load
      ≡ total c.replica_load + to_replicas (routes re qs c).0
unfolding Grows routes
loads_never_fall re [] c s = omega arith
loads_never_fall re ((sql, draw) ∷ qs) c s =
    let c' = (route re sql draw c).1 in
    let g = route-Grows c s re sql draw in omega (arith, g.1, loads_never_fall re qs c' (g.0 ∙ s))
