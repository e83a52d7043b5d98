-- ===== src/LoadBalance/Failures.antt =====
-- Failures that clients of python/vedadb/load_balance.py report.
use vedadb_driver.Base.{
  ℕ, suc, ◌≤◌, ◌<◌, ◌≡◌, ◌≢◌, refl, ap, ◌∙◌, false, Option, none, some, List, [], ◌∷◌, arith,
  String, ok,
}
use mathlib.Core.Path.{subst}
use vedadb_driver.Base.Dict.{nat_eq, string_eq, get, get-put}
use vedadb_driver.LoadBalance.{Float, Node, LoadBalancer, Draw, get_node, failed, report_failure}
use vedadb_driver.LoadBalance.Choice.{Gets, Takes, get_node-Gets}
use vedadb_driver.LoadBalance.Members.{
  count, drop_one, count-drop_one, IsCounted, adjust-IsCounted, adjust_known, adjust_unknown,
}

drop_one_absent : (a : String) (held : List String) → count a held ≡ 0 → drop_one a held ≡ held
unfolding count drop_one
drop_one_absent a [] h = refl
drop_one_absent a (b ∷ bs) h = ground (arith, h, drop_one_absent a bs)

module _ {F : Type 0} ⦃o : Float F⦄ where
  failure-IsCounted :
      (a : String) (b : LoadBalancer F) (held : List String)
      → IsCounted b.nodes b.node_map b.next held
      → let c = report_failure a b in IsCounted c.nodes c.node_map c.next (drop_one a held)
  unfolding report_failure failed
  failure-IsCounted a b held v =
      adjust-IsCounted failed a b held (drop_one a held) v (λ n. refl)
        (λ n h. ground (arith, h, count-drop_one a a held, string_eq.beq_iff a a))
        (λ x ne. ground (arith, ne, count-drop_one a x held, string_eq.beq_iff a x))
        (λ h. drop_one_absent a held (v.held_known a h))

  -- The node of an address, and how often it failed.
  record Fails (a : String) (i : ℕ) (k : ℕ) (b : LoadBalancer F) : Type 0 where
    known : get a b.node_map ≡ some i
    node : Node F
    found : get i b.nodes ≡ some node
    times : k ≤ node.failure_count
    out : 3 ≤ k → node.healthy ≡ false

  failure-Fails :
      (a : String) (i k : ℕ) (b : LoadBalancer F)
      → k < 3
      → Fails a i k b
      → Fails a i (suc k) (report_failure a b)
  unfolding report_failure failed
  failure-Fails a i k b l h =
      let n = h.node in
      rw (adjust_known failed a b i n h.known h.found) (record {
        known = h.known;
        node = failed n;
        found = ground (arith, get-put i i (failed n) b.nodes);
        times = omega (arith, h.times);
        out = λ q. (ground (arith, h.times, q));
      })

  failure_unknown :
      (a : String) (b : LoadBalancer F) → get a b.node_map ≡ none → report_failure a b ≡ b
  unfolding report_failure
  failure_unknown a b h = adjust_unknown failed a b h

  -- A healthy node of another address was taken.
  other_address :
      (a x : String) (d : Draw F) (b c : LoadBalancer F) (held : List String) (i : ℕ)
      → IsCounted b.nodes b.node_map b.next held
      → Takes d b x c
      → Fails a i 3 b
      → x ≢ a
  other_address a x d b c held i v t h q =
      let number : t.number ≡ i =
        ground (arith, v.indexed t.number t.node t.listed, h.known, t.named, q) in
      ground (arith, number, t.listed, h.found, t.fine, h.out (omega arith))

  -- After three reports of a failure at an address without a success in between, `get_node` does not
  -- return this address, whatever the strategy.
  failures_exclude :
      (a x : String) (d : Draw F) (b c : LoadBalancer F) (held : List String)
      → IsCounted b.nodes b.node_map b.next held
      → get_node d (report_failure a (report_failure a (report_failure a b))) ≡ ok (x, c)
      → x ≢ a
  failures_exclude a x d b c held v e q =
      let b1 = report_failure a b in
      let b2 = report_failure a b1 in
      let w = failure-IsCounted a b2 _ (failure-IsCounted a b1 _ (failure-IsCounted a b held v)) in
      let t : Takes d b3 x c = subst (λ r. Gets d b3 r) e (get_node-Gets d b3 w.distinct) in
      cases w t (get a b.node_map) refl
    where
      b3 : LoadBalancer F
      b3 = report_failure a (report_failure a (report_failure a b))

      cases :
          IsCounted b3.nodes b3.node_map b3.next (drop_one a (drop_one a (drop_one a held)))
          → Takes d b3 x c
          → (r : Option ℕ) → get a b.node_map ≡ r
          → ⊥
      cases w t none h =
          let same : b3 ≡ b =
            ap (λ y. report_failure a (report_failure a y)) (failure_unknown a b h)
            ∙ (ap (report_failure a) (failure_unknown a b h) ∙ failure_unknown a b h) in
          ground (
            arith,
            w.indexed t.number t.node t.listed,
            t.named,
            q,
            ap (λ y. get a y.node_map) same,
            h,
          )
      cases w t (some i) h =
          let (n, g, p) = v.mapped a i h in
          let first : Fails a i 0 b = record {
            known = h;
            node = n;
            found = g;
            times = omega arith;
            out = λ l. absurd (omega (arith, l));
          } in
          let f1 = failure-Fails a i 0 b (omega arith) first in
          let f2 = failure-Fails a i 1 _ (omega arith) f1 in
          let f3 = failure-Fails a i 2 _ (omega arith) f2 in other_address a x d b3 c _ i w t f3 q
