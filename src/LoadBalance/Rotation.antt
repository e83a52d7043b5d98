-- ===== src/LoadBalance/Rotation.antt =====
-- The strategy round_robin of python/vedadb/load_balance.py.
use vedadb_driver.Base.{
  ℕ, zero, suc, ◌+◌, ◌%◌, ◌≤◌, ◌<◌, ◌≡◌, refl, ap, sym, ◌∙◌, true, List, [], ◌∷◌, ◌++◌, map, arith,
  All, if◌then◌else◌, if_cases, String, some, Result, ok, err, length, take, drop, drop-append,
  take-append_le, take-append_ge, drop-append_le, length-drop, ==_iff, ◌==◌,
}
use vedadb_driver.Base.Dict.{Dict, nat_eq, get, put, Distinct, put-Distinct}
use native.Mathlib.Nat.{mod-lt, mod-mod, suc-mod, mod_self, mod-eq_of_lt}
use vedadb_driver.LoadBalance.{
  Float, Node, round_robin, LoadBalancer, Draw, BalanceError, choose, used, healthy_nodes,
  get_node_of, get_node, filter, at,
}
use vedadb_driver.LoadBalance.Choice.{Listed, healthy_nodes-Listed, at-All}

drop-at :
    (x : String) (xs ys : List String) (i : ℕ)
    → i < suc (length xs)
    → drop i ((x ∷ xs) ++ ys) ≡ at x xs i ∷ drop (suc i) ((x ∷ xs) ++ ys)
drop-at x xs ys zero l = refl
drop-at x [] ys (suc i) l = absurd (omega (arith, l))
drop-at x (z ∷ zs) ys (suc i) l = drop-at z zs ys i (omega (arith, l))

next_mod :
    (rr n : ℕ) → 0 < n → ((rr + 1) % n) % n ≡ (if (suc (rr % n)) == n then 0 else suc (rr % n))
next_mod rr n pos =
    let r = rr % n in
    let e : ((rr + 1) % n) % n ≡ suc r % n =
      mod-mod (rr + 1) n ∙ (ap (λ k. k % n) (omega arith) ∙ suc-mod rr n) in
    let l : r < n = mod-lt rr pos in
    e
    ∙ if_cases (λ k. suc r % n ≡ k) (suc r == n)
        (λ h. ap (λ k. k % n) ((==_iff (suc r) n).0 h) ∙ mod_self n)
        (λ h. mod-eq_of_lt (ground (arith, l, h)))

-- What is left to take is the same at the end of the list as from its start.
wrap :
    (ns : List String) (i k : ℕ)
    → k ≤ length ns
    → take k (drop (if i == length ns then 0 else i) (ns ++ ns)) ≡ take k (drop i (ns ++ ns))
wrap ns i k l =
    if_cases (λ j. take k (drop j (ns ++ ns)) ≡ take k (drop i (ns ++ ns))) (i == length ns)
      (λ h.
        take-append_le k ns ns l
        ∙ sym (
            ap (take k)
              (ap (λ j. drop j (ns ++ ns)) ((==_iff i (length ns)).0 h) ∙ drop-append ns ns)))
      (λ h. refl)

rotated_whole :
    (ns : List String) (r : ℕ)
    → r ≤ length ns
    → take (length ns) (drop r (ns ++ ns)) ≡ drop r ns ++ take r ns
rotated_whole ns r l =
    ap (take (length ns)) (drop-append_le r ns ns l)
    ∙ (take-append_ge (length ns) (drop r ns) ns (omega (arith, length-drop r ns))
        ∙ ap (λ k. drop r ns ++ take k ns) (omega (arith, l, length-drop r ns)))

module _ {F : Type 0} ⦃o : Float F⦄ where
  abbrev continued :
      (LoadBalancer F → List String) → Result BalanceError (String × LoadBalancer F) → List String
  continued rest (err e) = []
  continued rest (ok (a, c)) = a ∷ rest c

  -- The addresses that calls of `get_node` return, one after the other.
  unfoldable pub addresses : List (Draw F) → LoadBalancer F → List String
  addresses [] b = []
  addresses (d ∷ ds) b = continued (λ c. addresses ds c) (get_node d b)

  abbrev names : List (ℕ × Node F) → List String
  names xs = map (λ x. (x.1).address) xs

  names_kept :
      (i : ℕ) (n m : Node F) (ns : Dict ℕ (Node F))
      → get i ns ≡ some n
      → m.address ≡ n.address
      → m.healthy ≡ n.healthy
      → names (filter (λ x. (x.1).healthy) (put i m ns)) ≡ names (filter (λ x. (x.1).healthy) ns)
  unfolding get put
  names_kept i n m [] g a h = absurd (ground (arith, g))
  names_kept i n m ((j, k) ∷ ns) g a h = ground (arith, g, a, h, names_kept i n m ns)

  at-names :
      (x : ℕ × Node F) (xs : List (ℕ × Node F)) (i : ℕ)
      → (at x xs i).1.address ≡ at (x.1).address (names xs) i
  at-names x xs zero = refl
  at-names x [] (suc i) = refl
  at-names x (y ∷ ys) (suc i) = at-names y ys i

  length-names : (xs : List (ℕ × Node F)) → length (names xs) ≡ length xs
  length-names [] = refl
  length-names (x ∷ xs) = ap suc (length-names xs)

  -- A call of `get_node` with the strategy round_robin; `b` is the balancer before it.
  record Rotates (b : LoadBalancer F) (ns : List String) (a : String) (c : LoadBalancer F)
      : Type 0 where
    turn :
        drop (b.rr_index % length ns) (ns ++ ns)
        ≡ a ∷ drop (suc (b.rr_index % length ns)) (ns ++ ns)
    same_names : names (healthy_nodes c) ≡ ns
    next : c.rr_index ≡ (b.rr_index + 1) % length ns
    same_strategy : c.strategy ≡ round_robin
    distinct : Distinct c.nodes

  abbrev Rotated :
      LoadBalancer F → List String → Result BalanceError (String × LoadBalancer F) → Type 0
  Rotated b ns (err e) = ns ≡ []
  Rotated b ns (ok (a, c)) = Rotates b ns a c

  get_node_of-Rotated :
      (d : Draw F) (b : LoadBalancer F) (xs : List (ℕ × Node F))
      → b.strategy ≡ round_robin
      → Distinct b.nodes
      → names (healthy_nodes b) ≡ names xs
      → All (λ x. Listed b.nodes x × ((x.1).healthy ≡ true)) xs
      → Rotated b (names xs) (get_node_of d b xs)
  unfolding get_node_of choose
  get_node_of-Rotated d b [] s u e h = refl
  get_node_of-Rotated d b (x ∷ xs) s u e h =
      let n = suc (length (names xs)) in
      let i = b.rr_index % n in
      let c = at x xs i in
      let l = at-All (λ x. Listed b.nodes x × ((x.1).healthy ≡ true)) x xs i h.0 h.1 in
      rw (s, ← (length-names xs))
        (record {
          turn = rw (at-names x xs i) (
              drop-at (x.1).address (names xs) (names (x ∷ xs)) i
                (mod-lt b.rr_index (omega arith)));
          same_names =
              unfold healthy_nodes used in
              (names_kept c.0 c.1 (used d.now c.1) b.nodes l.0 refl refl ∙ e);
          next = refl;
          same_strategy = refl;
          distinct = put-Distinct c.0 (used d.now c.1) b.nodes u;
        })

  get_node-Rotated :
      (d : Draw F) (b : LoadBalancer F)
      → b.strategy ≡ round_robin
      → Distinct b.nodes
      → Rotated b (names (healthy_nodes b)) (get_node d b)
  unfolding get_node
  get_node-Rotated d b s u =
      get_node_of-Rotated d b (healthy_nodes b) s u refl (healthy_nodes-Listed b u)

  turn_step :
      (d : Draw F) (ds : List (Draw F)) (b : LoadBalancer F) (ns : List String)
      (g : Result BalanceError (String × LoadBalancer F))
      → get_node d b ≡ g
      → 0 < length ns
      → suc (length ds) ≤ length ns
      → Rotated b ns g
      → ((c : LoadBalancer F)
          → c.strategy ≡ round_robin
          → Distinct c.nodes
          → names (healthy_nodes c) ≡ ns
          → addresses ds c ≡ take (length ds) (drop (c.rr_index % length ns) (ns ++ ns)))
      → addresses (d ∷ ds) b ≡ take (suc (length ds)) (drop (b.rr_index % length ns) (ns ++ ns))
  unfolding addresses
  turn_step d ds b ns (err x) eg pos l q rec = absurd (omega (arith, pos, ap length q))
  turn_step d ds b ns (ok (a, c)) eg pos l q rec =
      let r = b.rr_index % length ns in
      ap (continued (λ x. addresses ds x)) eg
      ∙ rw q.turn (
          ap (λ t. a ∷ t)
            (rec c q.same_strategy q.distinct q.same_names
              ∙ (ap (λ i. take (length ds) (drop i (ns ++ ns)))
                    (ap (λ i. i % length ns) q.next ∙ next_mod b.rr_index (length ns) pos)
                  ∙ wrap ns (suc r) (length ds) (omega (arith, l)))))

  -- The calls `ds`, where they are at most as many as there are nodes.
  turns :
      (ds : List (Draw F)) (b : LoadBalancer F) (ns : List String)
      → b.strategy ≡ round_robin
      → Distinct b.nodes
      → names (healthy_nodes b) ≡ ns
      → 0 < length ns
      → length ds ≤ length ns
      → addresses ds b ≡ take (length ds) (drop (b.rr_index % length ns) (ns ++ ns))
  unfolding addresses
  turns [] b ns s u e pos l = refl
  turns (d ∷ ds) b ns s u e pos l =
      turn_step d ds b ns (get_node d b) refl pos l (rw (← e) (get_node-Rotated d b s u))
        (λ c sc uc ec. turns ds c ns sc uc ec pos (omega (arith, l)))

  -- With round_robin, as many calls of `get_node` in a row as there are healthy nodes return the
  -- address of each of them: from that at the balancer's index on, and then from the first.
  pub get_node_rotates :
      (ds : List (Draw F)) (b : LoadBalancer F) (ns : List String)
      → b.strategy ≡ round_robin
      → Distinct b.nodes
      → map (λ x. (x.1).address) (healthy_nodes b) ≡ ns
      → 0 < length ns
      → length ds ≡ length ns
      → let r = b.rr_index % length ns in addresses ds b ≡ drop r ns ++ take r ns
  get_node_rotates ds b ns s u e pos l =
      let r = b.rr_index % length ns in
      turns ds b ns s u e pos (omega (arith, l))
      ∙ (ap (λ k. take k (drop r (ns ++ ns))) l
          ∙ rotated_whole ns r (omega (arith, mod-lt b.rr_index pos)))
