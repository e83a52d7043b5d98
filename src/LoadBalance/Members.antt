-- ===== src/LoadBalance/Members.antt =====
-- The nodes of python/vedadb/load_balance.py, and the connections of its clients: what the counts and
-- the map of a balancer say of them.
use vedadb_driver.Base.{
  ℕ, ◌+◌, ◌-◌, ◌<◌, ◌≡◌, ◌≢◌, ◌⊎◌, refl, ap, sym, ◌∙◌, true, false, inl, inr, Option, none, some,
  List, [], ◌∷◌, ◌++◌, ◌==◌, if◌then◌else◌, arith, Bool-cases, String,
}
use vedadb_driver.Base.Dict.{
  nat_eq, string_eq, Dict, get, put, Distinct, get-put, put-Distinct, get-append_last,
  append_last-Distinct,
}
use vedadb_driver.LoadBalance.{Float, Node, LoadBalancer, make_node, adjust}
use vedadb_driver.LoadBalance.Nodes.{append_node}

-- How often an address is in a list, and the list without one occurrence of it.
unfoldable pub count : String → List String → ℕ
count a [] = 0
count a (b ∷ bs) = (if string_eq.beq b a then 1 else 0) + count a bs

unfoldable pub drop_one : String → List String → List String
drop_one a [] = []
drop_one a (b ∷ bs) = let rest = drop_one a bs in if string_eq.beq b a then bs else b ∷ rest

pub count-drop_one :
    (a b : String) (bs : List String)
    → count b (drop_one a bs) ≡ (if string_eq.beq a b then count b bs - 1 else count b bs)
unfolding count drop_one
count-drop_one a b [] = ground arith
count-drop_one a b (c ∷ bs) = ground (
  arith,
  count-drop_one a b bs,
  string_eq.beq_iff a b,
  string_eq.beq_iff c a,
  string_eq.beq_iff c b,
)

-- The map has the number of each node under its address, and nothing else; a node counts as many
-- connections as addresses `held` has of it.
pub record IsCounted {F : Type 0} (ns : Dict ℕ (Node F)) (known : Dict String ℕ) (next : ℕ)
    (held : List String) : Type 0 where
  pub distinct : Distinct ns
  pub below : (i : ℕ) (n : Node F) → get i ns ≡ some n → i < next
  pub mapped :
      (a : String) (i : ℕ)
      → get a known ≡ some i
      → (n : Node F) × (get i ns ≡ some n) × (n.address ≡ a)
  pub indexed : (i : ℕ) (n : Node F) → get i ns ≡ some n → get n.address known ≡ some i
  pub counted :
      (i : ℕ) (n : Node F) → get i ns ≡ some n → n.active_connections ≡ count n.address held
  pub held_known : (a : String) → get a known ≡ none → count a held ≡ 0

module _ {F : Type 0} ⦃o : Float F⦄ where
  -- A change of one node and of the addresses held of it.
  pub put-IsCounted :
      (i : ℕ) (n m : Node F) (ns : Dict ℕ (Node F)) (known : Dict String ℕ) (next : ℕ)
      (held held' : List String)
      → IsCounted ns known next held
      → get i ns ≡ some n
      → m.address ≡ n.address
      → m.active_connections ≡ count n.address held'
      → ((a : String) → n.address ≢ a → count a held' ≡ count a held)
      → IsCounted (put i m ns) known next held'
  put-IsCounted i n m ns known next held held' v g e c same = record {
    distinct = put-Distinct i m ns v.distinct;
    below = λ j k h. ground (arith, get-put i j m ns, v.below j k, v.below i n g, h);
    mapped = λ a j h. mapped a j h (Bool-cases (i == j));
    indexed = λ j k h. ground (arith, get-put i j m ns, v.indexed j k, v.indexed i n g, h, e);
    counted = λ j k h. counted j k h (Bool-cases (i == j));
    held_known = λ a h. ground (arith, h, v.held_known a h, same a, v.indexed i n g);
  }
    where
      mapped :
          (a : String) (j : ℕ)
          → get a known ≡ some j
          → ((i == j) ≡ true) ⊎ ((i == j) ≡ false)
          → (k : Node F) × (get j (put i m ns) ≡ some k) × (k.address ≡ a)
      mapped a j h s =
          let (k, gk, ek) = v.mapped a j h in
          elim s [
            | inl p ↦ (m, ground (arith, get-put i j m ns, p), ground (arith, e, ek, gk, g, p))
            | inr p ↦ (k, ground (arith, get-put i j m ns, gk, p), ek)
          ]

      counted :
          (j : ℕ) (k : Node F)
          → get j (put i m ns) ≡ some k
          → ((i == j) ≡ true) ⊎ ((i == j) ≡ false)
          → k.active_connections ≡ count k.address held'
      counted j k h (inl p) = ground (arith, get-put i j m ns, p, h, c, e)
      counted j k h (inr p) =
          let gk : get j ns ≡ some k = ground (arith, get-put i j m ns, p, h) in
          let apart : n.address ≢ k.address =
            λ q. (ground (arith, v.indexed j k gk, v.indexed i n g, q, p)) in
          v.counted j k gk ∙ sym (same k.address apart)

  -- A field that is no address and no count.
  pub put-IsCounted_same :
      (i : ℕ) (n m : Node F) (ns : Dict ℕ (Node F)) (known : Dict String ℕ) (next : ℕ)
      (held : List String)
      → IsCounted ns known next held
      → get i ns ≡ some n
      → m.address ≡ n.address
      → m.active_connections ≡ n.active_connections
      → IsCounted (put i m ns) known next held
  put-IsCounted_same i n m ns known next held v g e c =
      put-IsCounted i n m ns known next held held v g e (c ∙ v.counted i n g) (λ a h. refl)

  pub adjust_unknown :
      (f : Node F → Node F) (a : String) (b : LoadBalancer F)
      → get a b.node_map ≡ none
      → adjust f a b ≡ b
  unfolding adjust
  adjust_unknown f a b e = rw e refl

  pub adjust_known :
      (f : Node F → Node F) (a : String) (b : LoadBalancer F) (i : ℕ) (n : Node F)
      → get a b.node_map ≡ some i
      → get i b.nodes ≡ some n
      → adjust f a b ≡ record b { nodes = put i (f n) b.nodes }
  unfolding adjust
  adjust_known f a b i n e g = rw (e, g) refl

  -- An assignment to the fields of the node of an address.
  pub adjust-IsCounted :
      (f : Node F → Node F) (a : String) (b : LoadBalancer F) (held held' : List String)
      → IsCounted b.nodes b.node_map b.next held
      → ((n : Node F) → (f n).address ≡ n.address)
      → ((n : Node F)
          → n.active_connections ≡ count a held
          → (f n).active_connections ≡ count a held')
      → ((x : String) → a ≢ x → count x held' ≡ count x held)
      → (get a b.node_map ≡ none → held' ≡ held)
      → let c = adjust f a b in IsCounted c.nodes c.node_map c.next held'
  adjust-IsCounted f a b held held' v e c same out = cases (get a b.node_map) refl
    where
      cases :
          (r : Option ℕ)
          → get a b.node_map ≡ r
          → let x = adjust f a b in IsCounted x.nodes x.node_map x.next held'
      cases none h = rw (adjust_unknown f a b h, out h) v
      cases (some i) h =
          let (n, g, q) = v.mapped a i h in
          rw (adjust_known f a b i n h g) (
            put-IsCounted i n (f n) b.nodes b.node_map b.next held held' v g (e n)
              (c n (v.counted i n g ∙ ap (λ x. count x held) q) ∙ ap (λ x. count x held') (sym q))
              (λ x ne. same x (λ k. ne (q ∙ k))))

  -- A node whose address is new.
  pub append_node-IsCounted :
      (a : String) (w now : ℕ) (b : LoadBalancer F) (held : List String)
      → get a b.node_map ≡ none
      → IsCounted b.nodes b.node_map b.next held
      → let c = append_node a w now b in IsCounted c.nodes c.node_map c.next held
  unfolding append_node make_node
  append_node-IsCounted a w now b held fresh v =
      let n = make_node a w now in
      let gone : get b.next b.nodes ≡ none = no_next (get b.next b.nodes) refl in
      let look = λ (j : ℕ). get-append_last b.next j n b.nodes gone in
      record {
        distinct = append_last-Distinct b.next n b.nodes gone v.distinct;
        below = λ j k h. ground (arith, look j, h, v.below j k);
        mapped = λ x j h. mapped x j h look (Bool-cases (string_eq.beq a x));
        indexed = λ j k h. indexed j k h look (Bool-cases (b.next == j));
        counted = λ j k h. ground (arith, look j, h, v.counted j k, v.held_known a fresh);
        held_known = λ x h. ground (arith, get-put a x b.next b.node_map, h, v.held_known x);
      }
    where
      no_next : (r : Option (Node F)) → get b.next b.nodes ≡ r → r ≡ none
      no_next none e = refl
      no_next (some n) e = absurd (omega (arith, v.below b.next n e))

      mapped :
          (x : String) (j : ℕ)
          → get x (put a b.next b.node_map) ≡ some j
          → ((i : ℕ)
              → get i (b.nodes ++ ((b.next, make_node a w now) ∷ []))
                ≡ (if b.next == i then some (make_node a w now) else get i b.nodes))
          → (string_eq.beq a x ≡ true) ⊎ (string_eq.beq a x ≡ false)
          → (n : Node F) × (get j (b.nodes ++ ((b.next, make_node a w now) ∷ [])) ≡ some n)
            × (n.address ≡ x)
      mapped x j h look (inl p) = (
        make_node a w now,
        ground (arith, get-put a x b.next b.node_map, h, p, look j),
        ground (arith, p, string_eq.beq_iff a x),
      )
      mapped x j h look (inr p) =
          let (k, gk, ek) = v.mapped x j (ground (arith, get-put a x b.next b.node_map, h, p)) in
          (k, ground (arith, look j, gk, v.below j k gk), ek)

      indexed :
          (j : ℕ) (k : Node F)
          → get j (b.nodes ++ ((b.next, make_node a w now) ∷ [])) ≡ some k
          → ((i : ℕ)
              → get i (b.nodes ++ ((b.next, make_node a w now) ∷ []))
                ≡ (if b.next == i then some (make_node a w now) else get i b.nodes))
          → ((b.next == j) ≡ true) ⊎ ((b.next == j) ≡ false)
          → get k.address (put a b.next b.node_map) ≡ some j
      indexed j k h look (inl p) = ground (
        arith,
        look j,
        h,
        p,
        get-put a k.address b.next b.node_map,
        string_eq.beq_iff a k.address,
      )
      indexed j k h look (inr p) = ground (
        arith,
        look j,
        h,
        p,
        get-put a k.address b.next b.node_map,
        string_eq.beq_iff a k.address,
        v.indexed j k,
        fresh,
      )
