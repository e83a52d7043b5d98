-- ===== src/LoadBalance/Least.antt =====
-- The strategy least_connections of python/vedadb/load_balance.py.
use vedadb_driver.Base.{
  ℕ, ◌≡◌, true, false, List, [], ◌∷◌, arith, All, Bool-cases, if◌then◌else◌, if_cases, String, some,
  ok,
}
use vedadb_driver.Base.Dict.{nat_eq, get, Distinct}
use vedadb_driver.LoadBalance.{
  Float, Node, least_connections, LoadBalancer, Draw, load_score, min_by, choose, healthy_nodes,
  get_node_of, get_node,
}
use vedadb_driver.LoadBalance.Choice.{Listed, min_by-All, healthy_nodes-Listed}

-- No node of a list has a lower score than `x`.
abbrev pub IsLeast :
    {F : Type 0} ⦃o : Float F⦄ → (Node F → F) → ℕ × Node F → List (ℕ × Node F) → Type 0
IsLeast ⦃o = o⦄ score x xs = All (λ y. o.less (score y.1) (score x.1) ≡ false) xs

module _ {F : Type 0} ⦃o : Float F⦄ (asym : (x y : F) → o.less x y ≡ true → o.less y x ≡ false)
    (trans : (x y z : F) → o.less y x ≡ false → o.less z y ≡ false → o.less z x ≡ false) where
  less_irrefl : (x : F) → o.less x x ≡ false
  less_irrefl x = ground (arith, asym x x, Bool-cases (o.less x x))

  min_by-IsLeast :
      (score : Node F → F) (x : ℕ × Node F) (xs : List (ℕ × Node F))
      → IsLeast score (min_by score x xs) (x ∷ xs)
  unfolding min_by
  min_by-IsLeast score x [] = (less_irrefl (score x.1), tt)
  min_by-IsLeast score x (y ∷ ys) =
      let b = if o.less (score y.1) (score x.1) then y else x in
      let m = score (min_by score b ys).1 in
      let (l, h) = min_by-IsLeast score b ys in
      let P : ℕ × Node F → Type 0 =
        λ z. (o.less (score x.1) (score z.1) ≡ false) × (o.less (score y.1) (score z.1) ≡ false) in
      let (lx, ly) : P b =
        if_cases P (o.less (score y.1) (score x.1))
          (λ e. (asym (score y.1) (score x.1) e, less_irrefl (score y.1)))
          (λ e. (less_irrefl (score x.1), e)) in
      (trans m (score b.1) (score x.1) l lx, (trans m (score b.1) (score y.1) l ly, h))

  Least_of :
      (d : Draw F) (b c : LoadBalancer F) (a : String) (xs : List (ℕ × Node F))
      → b.strategy ≡ least_connections
      → All (λ x. Listed b.nodes x × ((x.1).healthy ≡ true)) xs
      → get_node_of d b xs ≡ ok (a, c)
      → (x : ℕ × Node F) × (get x.0 b.nodes ≡ some x.1)
        × ((x.1).healthy ≡ true)
        × ((x.1).address ≡ a)
        × IsLeast load_score x xs
  unfolding get_node_of choose
  Least_of d b c a [] s h e = absurd (ground (arith, e))
  Least_of d b c a (x ∷ xs) s h e =
      let (l, f) =
        min_by-All (λ x. Listed b.nodes x × ((x.1).healthy ≡ true)) load_score x xs h.0 h.1 in
      (min_by load_score x xs, l, f, ground (arith, e, s), min_by-IsLeast load_score x xs)

  -- With least_connections, `get_node` returns the address of a healthy node such that no healthy node
  -- has a lower quotient of connections and weight, for floating-point numbers without NaN.
  get_node-IsLeast :
      (d : Draw F) (b c : LoadBalancer F) (a : String)
      → Distinct b.nodes
      → b.strategy ≡ least_connections
      → get_node d b ≡ ok (a, c)
      → (x : ℕ × Node F) × (get x.0 b.nodes ≡ some x.1)
        × ((x.1).healthy ≡ true)
        × ((x.1).address ≡ a)
        × IsLeast load_score x (healthy_nodes b)
  unfolding get_node
  get_node-IsLeast d b c a u s e = Least_of d b c a (healthy_nodes b) s (healthy_nodes-Listed b u) e
