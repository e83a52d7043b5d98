-- ===== src/Failover/Outcomes.antt =====
-- The counts of failures of python/vedadb/failover.py, compared with what the nodes answered, call by call.
use vedadb_driver.Base.{
  ℕ, suc, ◌≡◌, refl, ap, sym, ◌∙◌, Bool, true, false, inl, inr, ◌==◌, Option, none, some, List, [],
  ◌∷◌, if◌then◌else◌, Bool-cases, Result, ok, err, arith,
}
use vedadb_driver.Base.Dict.{nat_eq, Dict, Distinct, get, put, get-put}
use vedadb_driver.Failover.{
  FailoverNode, Settings, FailoverClient, Network, first_due, get_current_node, change,
  change_found, fail, answer_ping, pinged,
}
use vedadb_driver.Failover.Calls.{check_all_nodes, query}
use vedadb_driver.Failover.Sound.{Call, queried, checked}

-- Nodes, and whether they answered well; the latest comes first.
abbrev pub Outcomes : Type 0
Outcomes = List (ℕ × Bool)

-- The failures of a node since it last answered well.
unfoldable pub in_row : ℕ → Outcomes → ℕ
in_row i [] = 0
in_row i ((j, good) ∷ os) =
    let before = in_row i os in if j == i then if good then 0 else suc before else before

abbrev pub is_answer : {E A : Type 0} → Result E A → Bool
is_answer (ok a) = true
is_answer (err e) = false

abbrev pub is_pong : {E : Type 0} → Result E Bool → Bool
is_pong (ok b) = b
is_pong (err e) = false

-- The first try of a query; its second try is none of the outcomes.
abbrev pub asked : {E R : Type 0} → Network E R → Option ℕ × FailoverClient → Outcomes → Outcomes
asked net (none, c) os = os
asked net (some i, c) os = (i, is_answer (net.query c.calls i)) ∷ os

-- The pings of a round of health checks, from the call of number `k` on.
abbrev pub pings : {E R : Type 0} → Network E R → Dict ℕ FailoverNode → ℕ → Outcomes → Outcomes
pings net [] k os = os
pings net ((i, n) ∷ ns) k os = pings net ns (suc k) ((i, is_pong (net.ping k i)) ∷ os)

unfoldable pub outcomes :
    {E R : Type 0} → Settings → Network E R → List Call → FailoverClient → Outcomes → Outcomes
unfolding query check_all_nodes get_current_node
outcomes s net [] c os = os
outcomes s net (queried ∷ cs) c os =
    outcomes s net cs (query s net c).1 (asked net (get_current_node s (net.now c.calls) c) os)
outcomes s net (checked ∷ cs) c os =
    outcomes s net cs (check_all_nodes s net c) (pings net c.nodes c.calls os)

-- Each node's count is that of its failures in a row.
abbrev pub Agrees : Outcomes → Dict ℕ FailoverNode → Type 0
Agrees os ns = (i : ℕ) (n : FailoverNode) → get i ns ≡ some n → n.consecutive_failures ≡ in_row i os

-- The outcomes are the same but for those of the node.
abbrev pub Apart : ℕ → Outcomes → Outcomes → Type 0
Apart i os os' = (j : ℕ) → (i == j) ≡ false → in_row j os' ≡ in_row j os

pub one-Apart : (i : ℕ) (good : Bool) (os : Outcomes) → Apart i os ((i, good) ∷ os)
unfolding in_row
one-Apart i good os j h = rw h

pub in_row-good : (i : ℕ) (os : Outcomes) → in_row i ((i, true) ∷ os) ≡ 0
unfolding in_row
in_row-good i os = ground arith

in_row-bad : (i : ℕ) (os : Outcomes) → in_row i ((i, false) ∷ os) ≡ suc (in_row i os)
unfolding in_row
in_row-bad i os = ground arith

pub put-Agrees :
    (i : ℕ) (m : FailoverNode) (os os' : Outcomes) (ns : Dict ℕ FailoverNode)
    → m.consecutive_failures ≡ in_row i os'
    → Apart i os os'
    → Agrees os ns
    → Agrees os' (put i m ns)
put-Agrees i m os os' ns e a v j n g = elim (Bool-cases (i == j)) [
  | inl p ↦
      let same : m ≡ n = ground (arith, get-put i j m ns, p, g) in
      let ij : i ≡ j = ground (arith, p) in
      ap (λ x. x.consecutive_failures) (sym same) ∙ (e ∙ ap (λ k. in_row k os') ij)
  | inr p ↦ v j n (ground (arith, get-put i j m ns, p, g)) ∙ sym (a j p)
]

pub change-Agrees :
    (f : FailoverNode → FailoverNode) (i : ℕ) (c : FailoverClient) (os os' : Outcomes)
    → ((n : FailoverNode)
        → n.consecutive_failures ≡ in_row i os
        → (f n).consecutive_failures ≡ in_row i os')
    → Apart i os os'
    → Agrees os c.nodes
    → Agrees os' (change f i c).nodes
unfolding change
change-Agrees f i c os os' h a v = cases (get i c.nodes) refl
  where
    cases : (r : Option FailoverNode) → get i c.nodes ≡ r → Agrees os' (change_found f i r c).nodes
    cases none e = λ j n g. elim (Bool-cases (i == j)) [
      | inl p ↦
          let ij : i ≡ j = ground (arith, p) in
          absurd (ground (arith, sym e ∙ (ap (λ k. get k c.nodes) ij ∙ g)))
      | inr p ↦ v j n g ∙ sym (a j p)
    ]
    cases (some n) e = put-Agrees i (f n) os os' c.nodes (h n (v i n e)) a v

change-calls :
    (f : FailoverNode → FailoverNode) (i : ℕ) (c : FailoverClient) → (change f i c).calls ≡ c.calls
unfolding change
change-calls f i c = cases (get i c.nodes)
  where
    cases : (r : Option FailoverNode) → (change_found f i r c).calls ≡ c.calls
    cases none = refl
    cases (some n) = refl

pub failure-Agrees :
    (s : Settings) (now i : ℕ) (c : FailoverClient) (os : Outcomes)
    → Agrees os c.nodes
    → Agrees ((i, false) ∷ os) (change (fail s now) i c).nodes
failure-Agrees s now i c os v =
    change-Agrees (fail s now) i c os ((i, false) ∷ os)
      (λ n e. unfold fail in ap suc e ∙ sym (in_row-bad i os)) (one-Apart i false os) v

pub pinged-Agrees :
    {E : Type 0} (s : Settings) (now i : ℕ) (r : Result E Bool) (c : FailoverClient) (os : Outcomes)
    → Agrees os c.nodes
    → Agrees ((i, is_pong r) ∷ os) (pinged s now i r c).nodes
pinged-Agrees s now i (ok true) c os v =
    change-Agrees (answer_ping now) i c os ((i, true) ∷ os)
      (λ n e. unfold answer_ping in sym (in_row-good i os)) (one-Apart i true os) v
pinged-Agrees s now i (ok false) c os v = failure-Agrees s now i c os v
pinged-Agrees s now i (err e) c os v = failure-Agrees s now i c os v

pub pinged-calls :
    {E : Type 0} (s : Settings) (now i : ℕ) (r : Result E Bool) (c : FailoverClient)
    → (pinged s now i r c).calls ≡ c.calls
pinged-calls s now i (ok true) c = change-calls (answer_ping now) i c
pinged-calls s now i (ok false) c = change-calls (fail s now) i c
pinged-calls s now i (err e) c = change-calls (fail s now) i c

pub first_due-get :
    (s : Settings) (now i : ℕ) (n : FailoverNode) (ns : Dict ℕ FailoverNode)
    → Distinct ns
    → first_due s now ns ≡ some (i, n)
    → get i ns ≡ some n
unfolding first_due get
first_due-get s now i n [] d e = cc
first_due-get s now i n ((j, m) ∷ ns) d e = ground (arith, d.0, e, first_due-get s now i n ns d.1)
