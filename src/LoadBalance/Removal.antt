-- ===== src/LoadBalance/Removal.antt =====
-- `remove_node` of python/vedadb/load_balance.py, which looks for the node by comparing its fields.
use vedadb_driver.Base.{
  ℕ, ◌≡◌, refl, true, inl, inr, Option, none, some, List, [], ◌∷◌, ◌==◌, arith, Bool-cases, String,
}
use vedadb_driver.Base.Dict.{
  nat_eq, string_eq, Dict, get, remove, Distinct, get-remove, remove-Distinct, beq_refl,
}
use vedadb_driver.LoadBalance.{Float, Node, LoadBalancer}
use vedadb_driver.LoadBalance.Nodes.{remove_node, remove_first, node_eq}
use vedadb_driver.LoadBalance.Members.{count, IsCounted}

module _ {F : Type 0} ⦃o : Float F⦄ where
  remove-none : (i : ℕ) (ns : Dict ℕ (Node F)) → get i ns ≡ none → remove i ns ≡ ns
  unfolding get remove
  remove-none i [] h = refl
  remove-none i ((j, m) ∷ ns) h = ground (arith, h, remove-none i ns)

  node_eq-address : (m n : Node F) → node_eq m n ≡ true → m.address ≡ n.address
  unfolding node_eq
  node_eq-address m n h = ground (arith, h, string_eq.beq_iff m.address n.address)

  -- Where no other node has its address, the node itself is removed.
  remove_first_lem :
      (i : ℕ) (n : Node F) (ns : Dict ℕ (Node F))
      → Distinct ns
      → ((j : ℕ) (m : Node F) → get j ns ≡ some m → m.address ≡ n.address → j ≡ i)
      → remove_first i n ns ≡ remove i ns
  unfolding get remove remove_first
  remove_first_lem i n [] d alone = refl
  remove_first_lem i n ((j, m) ∷ ns) d alone =
      let rest = remove_first_lem i n ns d.1 (λ k x g e. alone k x (ground (arith, g, d.0)) e) in
      let head = alone j m (ground arith) in
      elim (Bool-cases (j == i)) [
        | inl p ↦ ground (arith, p, remove-none i ns, d.0)
        | inr p ↦ ground (arith, p, rest, head, node_eq-address m n)
      ]

  remove_node_unknown :
      (a : String) (b : LoadBalancer F) → get a b.node_map ≡ none → remove_node a b ≡ b
  unfolding remove_node
  remove_node_unknown a b e = rw e refl

  remove_node_known :
      (a : String) (b : LoadBalancer F) (i : ℕ) (n : Node F)
      → get a b.node_map ≡ some i
      → get i b.nodes ≡ some n
      → remove_node a b
        ≡ record b { node_map = remove a b.node_map; nodes = remove_first i n b.nodes }
  unfolding remove_node
  remove_node_known a b i n e g = rw (e, g) refl

  removed-IsCounted :
      (a : String) (i : ℕ) (n : Node F) (ns : Dict ℕ (Node F)) (known : Dict String ℕ) (next : ℕ)
      (held : List String)
      → IsCounted ns known next held
      → get a known ≡ some i
      → get i ns ≡ some n
      → n.address ≡ a
      → count a held ≡ 0
      → IsCounted (remove i ns) (remove a known) next held
  removed-IsCounted a i n ns known next held v e g q z = record {
    distinct = remove-Distinct i ns v.distinct;
    below = λ j k h. ground (arith, get-remove i j ns, h, v.below j k);
    mapped = λ x j h. mapped x j h;
    indexed = λ j k h. ground (
      arith,
      get-remove i j ns,
      get-remove a k.address known,
      string_eq.beq_iff a k.address,
      h,
      e,
      v.indexed j k,
    );
    counted = λ j k h. ground (arith, get-remove i j ns, h, v.counted j k);
    held_known =
        λ x h. ground (arith, get-remove a x known, string_eq.beq_iff a x, h, z, v.held_known x);
  }
    where
      mapped :
          (x : String) (j : ℕ)
          → get x (remove a known) ≡ some j
          → (k : Node F) × (get j (remove i ns) ≡ some k) × (k.address ≡ x)
      mapped x j h =
          let f : get x known ≡ some j = ground (arith, get-remove a x known, h) in
          let (k, gk, ek) = v.mapped x j f in
          (
            k,
            ground (
              arith,
              get-remove i j ns,
              get-remove a x known,
              string_eq.beq_iff a x,
              h,
              gk,
              ek,
              g,
              q,
            ),
            ek,
          )

  -- A node of which no connection is held is removed.
  pub remove_node-IsCounted :
      (a : String) (b : LoadBalancer F) (held : List String)
      → count a held ≡ 0
      → IsCounted b.nodes b.node_map b.next held
      → let c = remove_node a b in
        IsCounted c.nodes c.node_map c.next held × (get a c.node_map ≡ none)
  remove_node-IsCounted a b held z v = cases (get a b.node_map) refl
    where
      cases :
          (r : Option ℕ)
          → get a b.node_map ≡ r
          → let c = remove_node a b in
            IsCounted c.nodes c.node_map c.next held × (get a c.node_map ≡ none)
      cases none h = rw (remove_node_unknown a b h) (v, h)
      cases (some i) h =
          let (n, g, q) = v.mapped a i h in
          let alone : (j : ℕ) (m : Node F)
              → get j b.nodes ≡ some m
              → m.address ≡ n.address
              → j ≡ i =
            λ j m gj e. (ground (arith, v.indexed j m gj, v.indexed i n g, e)) in
          rw (remove_node_known a b i n h g, remove_first_lem i n b.nodes v.distinct alone)
            (
              removed-IsCounted a i n b.nodes b.node_map b.next held v h g q z,
              ground (arith, get-remove a a b.node_map, beq_refl a),
            )
