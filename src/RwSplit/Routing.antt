-- ===== src/RwSplit/Routing.antt =====
-- Where python/vedadb/rw_split.py sends a statement, and what it counts as a replica's load.
use vedadb_driver.Base.{
  ℕ, zero, suc, ◌%◌, ◌≤◌, ◌≡◌, refl, sym, ap, ◌∙◌, ◌⊎◌, inl, inr, Bool, true, false, not, ◌&&◌,
  ◌||◌, Option, none, some, List, [], ◌∷◌, arith, All, ltb, ◌==◌, ==_iff, if_cases, Result, ok, err,
  length, Bool-cases,
}
use vedadb_driver.Base.Dict.{nat_eq, Dict, get, Distinct}
use mathlib.Core.Path.{subst}
use vedadb_driver.RwSplit.{
  Characters, is_read, is_write, is_transaction, Strategy, round_robin, random, least_loaded,
  RwSplitClient, Node, primary, replica, RouteError, healthy_of, load_of, least, at, nth_replica,
  pick, pick_healthy, pick_replica, routed, route, healthy_replica_count,
}

none_is_not : {A : Type 0} {x : A} → none ≡ some x → ⊥
none_is_not h = cc

-- The tables of health have each replica once, and no other index.
pub record IsValid (c : RwSplitClient) : Type 0 where
  pub distinct : Distinct c.replica_health
  pub listed : All (λ x. suc x.0 ≤ c.count) c.replica_health

-- A replica in use.
abbrev pub Up : RwSplitClient → ℕ → Type 0
Up c i = (get i c.replica_health ≡ some true) × (suc i ≤ c.count)

get-head : (i : ℕ) (b : Bool) (hs : Dict ℕ Bool) → get i ((i, b) ∷ hs) ≡ some b
unfolding get
get-head i b hs = ground arith

get-tail :
    (i : ℕ) (v : Bool) (hs : Dict ℕ Bool)
    → get i hs ≡ none
    → (j : ℕ) (b : Bool) → get j hs ≡ some b
    → get j ((i, v) ∷ hs) ≡ some b
unfolding get
get-tail i v hs n j b e =
    if_cases (λ o. o ≡ some b) (i == j)
      (λ h. absurd (none_is_not (sym n ∙ (ap (λ k. get k hs) ((==_iff i j).0 h) ∙ e)))) (λ h. e)

healthy_of-Up :
    (n : ℕ) (whole hs : Dict ℕ Bool)
    → ((i : ℕ) (b : Bool) → get i hs ≡ some b → get i whole ≡ some b)
    → Distinct hs
    → All (λ x. suc x.0 ≤ n) hs
    → All (λ i. (get i whole ≡ some true) × (suc i ≤ n)) (healthy_of hs)
unfolding healthy_of get
healthy_of-Up n whole [] g d l = tt
healthy_of-Up n whole ((i, true) ∷ hs) g d l = (
  (g i true (get-head i true hs), l.0),
  healthy_of-Up n whole hs (λ j b e. g j b (get-tail i true hs d.0 j b e)) d.1 l.1,
)
healthy_of-Up n whole ((i, false) ∷ hs) g d l =
    healthy_of-Up n whole hs (λ j b e. g j b (get-tail i false hs d.0 j b e)) d.1 l.1

at-All : (P : ℕ → Type 0) (h : ℕ) (hs : List ℕ) (i : ℕ) → P h → All P hs → P (at h hs i)
at-All P h [] i p a = p
at-All P h (g ∷ hs) zero p a = p
at-All P h (g ∷ hs) (suc i) p a = at-All P g hs i a.0 a.1

least-All :
    (P : ℕ → Type 0) (load : Dict ℕ ℕ) (h : ℕ) (hs : List ℕ) → P h → All P hs → P (least load h hs)
unfolding least
least-All P load h [] p a = p
least-All P load h (g ∷ hs) p a =
    if_cases P (ltb (load_of load g) (load_of load h)) (λ e. least-All P load g hs a.0 a.1)
      (λ e. least-All P load h hs p a.1)

pick-All :
    (P : ℕ → Type 0) (h : ℕ) (hs : List ℕ) (s : Strategy) (draw : ℕ) (c : RwSplitClient)
    → P h
    → All P hs
    → P (pick h hs s draw c).0
pick-All P h hs round_robin draw c p a = at-All P h hs (c.replica_idx % suc (length hs)) p a
pick-All P h hs random draw c p a = at-All P h hs (draw % suc (length hs)) p a
pick-All P h hs least_loaded draw c p a = least-All P c.replica_load h hs p a

pick-count :
    (h : ℕ) (hs : List ℕ) (s : Strategy) (draw : ℕ) (c : RwSplitClient)
    → ((pick h hs s draw c).1).count ≡ c.count
pick-count h hs round_robin draw c = refl
pick-count h hs random draw c = refl
pick-count h hs least_loaded draw c = refl

-- A replica that is up answers a read; the primary gets what is no read, and reads only while
-- no replica is up.
abbrev pub Sound : Characters → List ℕ → RwSplitClient → Result RouteError Node → Type 0
Sound re sql c (ok (replica i)) =
    ((is_transaction re sql || is_write re sql) ≡ false) × (is_read re sql ≡ true) × Up c i
Sound re sql c (ok primary) =
    ((is_transaction re sql || is_write re sql) ≡ true)
    ⊎ ((is_read re sql ≡ false) ⊎ (healthy_replica_count c ≡ 0))
Sound re sql c (err e) = ⊥

nth_replica-ok : (n i : ℕ) → suc i ≤ n → nth_replica n i ≡ ok (some i)
unfolding nth_replica
nth_replica-ok n i l = ground (arith, l)

healthy-Up : (c : RwSplitClient) → IsValid c → All (Up c) (healthy_of c.replica_health)
healthy-Up c v =
    healthy_of-Up c.count c.replica_health c.replica_health (λ i b e. e) v.distinct v.listed

-- What pick_replica gives: a replica that is up, or none where none is.
abbrev Picks : RwSplitClient → Result RouteError (Option ℕ) → Type 0
Picks c (ok (some i)) = Up c i
Picks c (ok none) = healthy_replica_count c ≡ 0
Picks c (err e) = ⊥

pick_healthy-Picks :
    (c : RwSplitClient) (hs : List ℕ) (draw : ℕ)
    → healthy_replica_count c ≡ length hs
    → All (Up c) hs
    → Picks c (pick_healthy hs draw c).0
pick_healthy-Picks c [] draw e a = e
pick_healthy-Picks c (h ∷ hs) draw e a =
    let up : Up c (pick h hs c.strategy draw c).0 =
      pick-All (Up c) h hs c.strategy draw c a.0 a.1 in
    subst (Picks c)
      (sym (
        ap (λ n. nth_replica n (pick h hs c.strategy draw c).0) (pick-count h hs c.strategy draw c)
        ∙ nth_replica-ok c.count (pick h hs c.strategy draw c).0 up.1))
      up

no_replica : (c : RwSplitClient) → IsValid c → c.count ≡ 0 → healthy_replica_count c ≡ 0
unfolding healthy_replica_count healthy_of
no_replica c v e = none_listed c.replica_health v.listed
  where
    none_listed : (hs : Dict ℕ Bool) → All (λ x. suc x.0 ≤ c.count) hs → length (healthy_of hs) ≡ 0
    none_listed [] l = refl
    none_listed (h ∷ hs) l = absurd (omega (arith, e, l.0))

pick_replica-Picks : (c : RwSplitClient) (draw : ℕ) → IsValid c → Picks c (pick_replica draw c).0
unfolding pick_replica healthy_replica_count
pick_replica-Picks c draw v =
    if_cases (λ (o : Result RouteError (Option ℕ) × RwSplitClient). Picks c o.0) (c.count == 0)
      (λ h. no_replica c v ((==_iff c.count 0).0 h))
      (λ h. pick_healthy-Picks c (healthy_of c.replica_health) draw refl (healthy-Up c v))

routed-Sound :
    (re : Characters) (sql : List ℕ) (c : RwSplitClient)
    (o : Result RouteError (Option ℕ) × RwSplitClient)
    → (is_transaction re sql || is_write re sql) ≡ false
    → is_read re sql ≡ true
    → Picks c o.0
    → Sound re sql c (routed o).0
routed-Sound re sql c (err e, c') w r p = p
routed-Sound re sql c (ok (some i), c') w r p = (w, r, p)
routed-Sound re sql c (ok none, c') w r p =
    if_cases (λ (o : Result RouteError Node × RwSplitClient). Sound re sql c o.0)
      (c'.fallback_to_primary) (λ h. inr (inr p)) (λ h. inr (inr p))

not_read : (a b : Bool) → (a && not b) ≡ false → (a ≡ false) ⊎ (b ≡ true)
not_read true true h = inr refl
not_read true false h = cc
not_read false b h = inl refl

both_true : (a b : Bool) → (a && not b) ≡ true → a ≡ true
both_true true b h = refl
both_true false b h = cc

-- `query` sends a statement to a replica only if it is a read, and neither a write nor a statement of a
-- transaction, and the replica is marked healthy; it sends a read to the primary only if no replica
-- is healthy; and choosing the node raises no exception: if the table of health has each replica
-- once and no other index.
pub route-Sound :
    (re : Characters) (sql : List ℕ) (draw : ℕ) (c : RwSplitClient)
    → IsValid c
    → Sound re sql c (route re sql draw c).0
unfolding route
route-Sound re sql draw c v =
    let Q : Result RouteError Node × RwSplitClient → Type 0 = λ o. Sound re sql c o.0 in
    if_cases Q (is_transaction re sql || is_write re sql) (λ w. inl w)
      (λ w.
        if_cases Q (is_read re sql && not (c.count == 0))
          (λ r.
            routed-Sound re sql c (pick_replica draw c) w
              (both_true (is_read re sql) (c.count == 0) r) (pick_replica-Picks c draw v))
          (λ r. inr (elim (not_read (is_read re sql) (c.count == 0) r) [
            | inl n ↦ inl n
            | inr z ↦ inr (no_replica c v ((==_iff c.count 0).0 z))
          ])))

-- The node for a picked replica.
abbrev pub node : Result RouteError (Option ℕ) → Result RouteError Node
node (err e) = err e
node (ok (some i)) = ok (replica i)
node (ok none) = ok primary

routed-node : (o : Result RouteError (Option ℕ) × RwSplitClient) → (routed o).0 ≡ node o.0
routed-node (err e, c) = refl
routed-node (ok (some i), c) = refl
routed-node (ok none, c) =
    if_cases (λ (o : Result RouteError Node × RwSplitClient). o.0 ≡ ok primary)
      c.fallback_to_primary (λ h. refl) (λ h. refl)

pick-fallback :
    (h : ℕ) (hs : List ℕ) (s : Strategy) (draw : ℕ) (c : RwSplitClient) (b : Bool)
    → (pick h hs s draw (record c { fallback_to_primary = b })).0 ≡ (pick h hs s draw c).0
pick-fallback h hs round_robin draw c b = refl
pick-fallback h hs random draw c b = refl
pick-fallback h hs least_loaded draw c b = refl

pick_healthy-fallback :
    (hs : List ℕ) (draw : ℕ) (c : RwSplitClient) (b : Bool)
    → (pick_healthy hs draw (record c { fallback_to_primary = b })).0 ≡ (pick_healthy hs draw c).0
pick_healthy-fallback [] draw c b = refl
pick_healthy-fallback (h ∷ hs) draw c b =
    let c' : RwSplitClient = record c { fallback_to_primary = b } in
    ap (λ n. nth_replica n (pick h hs c.strategy draw c').0) (pick-count h hs c.strategy draw c')
    ∙ (ap (nth_replica c.count) (pick-fallback h hs c.strategy draw c b)
        ∙ sym (
            ap (λ n. nth_replica n (pick h hs c.strategy draw c).0)
              (pick-count h hs c.strategy draw c)))

pick_replica-fallback :
    (draw : ℕ) (c : RwSplitClient) (b : Bool)
    → (pick_replica draw (record c { fallback_to_primary = b })).0 ≡ (pick_replica draw c).0
unfolding pick_replica
pick_replica-fallback draw c b = elim (Bool-cases (c.count == 0)) [
  | inl h ↦ rw h
  | inr h ↦ rw h (pick_healthy-fallback (healthy_of c.replica_health) draw c b)
]

-- The node that `query` sends a statement to does not depend on `fallback_to_primary`: without it a
-- read goes to the primary as well when all replicas are down.
pub fallback_unused :
    (re : Characters) (sql : List ℕ) (draw : ℕ) (c : RwSplitClient) (b : Bool)
    → (route re sql draw (record c { fallback_to_primary = b })).0 ≡ (route re sql draw c).0
unfolding route
fallback_unused re sql draw c b = elim (Bool-cases (is_transaction re sql || is_write re sql)) [
  | inl w ↦ rw w
  | inr w ↦ elim (Bool-cases (is_read re sql && not (c.count == 0))) [
    | inl r ↦
        let c' : RwSplitClient = record c { fallback_to_primary = b } in
        rw (w, r)
          (routed-node (pick_replica draw c')
            ∙ (ap node (pick_replica-fallback draw c b) ∙ sym (routed-node (pick_replica draw c))))
    | inr r ↦ rw (w, r)
  ]
]
