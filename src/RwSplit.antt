-- ===== src/RwSplit.antt =====
-- python/vedadb/rw_split.py: reads go to a replica, all else to the primary. A replica is its place in
-- the list that the client was made with. The classes of characters and the comparison of letters
-- without their case, which the module `re` has, are arguments, as is what random.choice draws.
pub mod Routing
pub mod Loads
mod Examples
use vedadb_driver.Base.{
  ℕ, zero, suc, ◌+◌, ◌-◌, ◌%◌, Bool, true, false, not, ◌&&◌, ◌||◌, Option, none, some, String, List,
  [], ◌∷◌, map, ltb, ◌==◌, if◌then◌else◌, Result, ok, err, length, get_elem?,
}
use vedadb_driver.Base.Dict.{Eq, nat_eq, Dict, get, put}
use vedadb_driver.Query.Builder.{word}

-- What `re` knows of characters: \s, \w, and equality under IGNORECASE.
pub record Characters : Type 0 where
  pub is_space : ℕ → Bool
  pub is_word : ℕ → Bool
  pub same : ℕ → ℕ → Bool

unfoldable pub skip_space : Characters → List ℕ → List ℕ
skip_space re [] = []
skip_space re (c ∷ cs) = if re.is_space c then skip_space re cs else c ∷ cs

-- `\b` after a letter.
abbrev at_boundary : Characters → List ℕ → Bool
at_boundary re [] = true
at_boundary re (c ∷ cs) = not (re.is_word c)

-- A keyword and a boundary stand at the start of the text.
unfoldable pub starts_with : Characters → List ℕ → List ℕ → Bool
starts_with re [] cs = at_boundary re cs
starts_with re (k ∷ ks) [] = false
starts_with re (k ∷ ks) (c ∷ cs) = re.same k c && starts_with re ks cs

unfoldable pub starts_with_any : Characters → List (List ℕ) → List ℕ → Bool
unfolding starts_with
starts_with_any re [] cs = false
starts_with_any re (k ∷ ks) cs = starts_with re k cs || starts_with_any re ks cs

abbrev pub re_select : List (List ℕ)
re_select = word "SELECT" ∷ []

abbrev pub re_write : List (List ℕ)
re_write = map word (
    "INSERT" ∷ "UPDATE" ∷ "DELETE" ∷ "REPLACE" ∷ "MERGE" ∷ "CREATE" ∷ "DROP" ∷ "ALTER" ∷ "TRUNCATE"
    ∷ [])

abbrev pub re_transaction : List (List ℕ)
re_transaction = map word ("BEGIN" ∷ "COMMIT" ∷ "ROLLBACK" ∷ "SAVEPOINT" ∷ [])

unfoldable pub is_read : Characters → List ℕ → Bool
unfolding skip_space starts_with_any
is_read re sql = starts_with_any re re_select (skip_space re sql)

unfoldable pub is_write : Characters → List ℕ → Bool
unfolding skip_space starts_with_any
is_write re sql = starts_with_any re re_write (skip_space re sql)

unfoldable pub is_transaction : Characters → List ℕ → Bool
unfolding skip_space starts_with_any
is_transaction re sql = starts_with_any re re_transaction (skip_space re sql)

pub data Strategy : Type 0 where
  round_robin random least_loaded : Strategy

-- The client without its connections: there are `count` replicas.
pub record RwSplitClient : Type 0 where
  pub count : ℕ
  pub strategy : Strategy
  pub fallback_to_primary : Bool
  pub replica_idx : ℕ
  pub replica_health : Dict ℕ Bool
  pub replica_load : Dict ℕ ℕ

pub data Node : Type 0 where
  primary : Node
  replica : ℕ → Node

pub data RouteError : Type 0 where
  index_error : RouteError

unfoldable pub filled : {V : Type 0} → V → ℕ → ℕ → Dict ℕ V
filled v i zero = []
filled v i (suc n) = (i, v) ∷ filled v (suc i) n

-- `__init__`, with a strategy that is one of STRATEGIES.
unfoldable pub new : ℕ → Strategy → Bool → RwSplitClient
unfolding filled
new n s fallback = record {
  count = n;
  strategy = s;
  fallback_to_primary = fallback;
  replica_idx = 0;
  replica_health = filled true 0 n;
  replica_load = filled 0 0 n;
}

-- [i for i, ok in health.items() if ok]
unfoldable pub healthy_of : Dict ℕ Bool → List ℕ
healthy_of [] = []
healthy_of ((i, b) ∷ hs) = let rest = healthy_of hs in if b then i ∷ rest else rest

abbrev or_zero : Option ℕ → ℕ
or_zero none = 0
or_zero (some n) = n

unfoldable pub load_of : Dict ℕ ℕ → ℕ → ℕ
unfolding get
load_of load i = or_zero (get i load)

-- min(healthy, key=load)
unfoldable pub least : Dict ℕ ℕ → ℕ → List ℕ → ℕ
unfolding load_of
least load i [] = i
least load i (j ∷ js) =
    if ltb (load_of load j) (load_of load i) then least load j js else least load i js

-- `healthy[i]` for a list that is not empty.
abbrev pub at : ℕ → List ℕ → ℕ → ℕ
at h [] i = h
at h (g ∷ hs) zero = h
at h (g ∷ hs) (suc i) = at g hs i

-- `self._replicas[idx]`
unfoldable pub nth_replica : ℕ → ℕ → Result RouteError (Option ℕ)
nth_replica count i = if ltb i count then ok (some i) else err index_error

abbrev pub pick : ℕ → List ℕ → Strategy → ℕ → RwSplitClient → ℕ × RwSplitClient
pick h hs round_robin draw c =
    let n = suc (length hs) in
    (at h hs (c.replica_idx % n), record c { replica_idx = (c.replica_idx + 1) % n })
pick h hs random draw c = (at h hs (draw % suc (length hs)), c)
pick h hs least_loaded draw c =
    let i = least c.replica_load h hs in
    (i, record c { replica_load = put i (load_of c.replica_load i + 1) c.replica_load })

abbrev pub picked : ℕ × RwSplitClient → Result RouteError (Option ℕ) × RwSplitClient
picked (i, c) = (nth_replica c.count i, c)

abbrev pub pick_healthy : List ℕ → ℕ → RwSplitClient → Result RouteError (Option ℕ) × RwSplitClient
pick_healthy [] draw c = (ok none, c)
pick_healthy (h ∷ hs) draw c = picked (pick h hs c.strategy draw c)

unfoldable pub pick_replica : ℕ → RwSplitClient → Result RouteError (Option ℕ) × RwSplitClient
unfolding healthy_of least load_of nth_replica put
pick_replica draw c =
    if c.count == 0 then (ok none, c) else pick_healthy (healthy_of c.replica_health) draw c

-- The read's node: a replica, or the primary if there is none, whichever branch gives it.
abbrev pub routed :
    Result RouteError (Option ℕ) × RwSplitClient → Result RouteError Node × RwSplitClient
routed (err e, c) = (err e, c)
routed (ok (some i), c) = (ok (replica i), c)
routed (ok none, c) = if c.fallback_to_primary then (ok primary, c) else (ok primary, c)

-- The node that `query` sends a statement to.
unfoldable pub route :
    Characters → List ℕ → ℕ → RwSplitClient → Result RouteError Node × RwSplitClient
unfolding is_transaction is_write is_read pick_replica
route re sql draw c =
    if is_transaction re sql || is_write re sql
    then (ok primary, c)
    else if is_read re sql && not (c.count == 0)
    then routed (pick_replica draw c)
    else (ok primary, c)

-- No method calls this one.
unfoldable pub release_replica : ℕ → RwSplitClient → RwSplitClient
unfolding load_of put
release_replica i c = released c.strategy i c
  where
    released : Strategy → ℕ → RwSplitClient → RwSplitClient
    released least_loaded i c = record c {
      replica_load = put i (load_of c.replica_load i - 1) c.replica_load;
    }
    released _ i c = c

unfoldable pub set_replica_health : ℕ → Bool → RwSplitClient → RwSplitClient
unfolding put
set_replica_health i healthy c = record c { replica_health = put i healthy c.replica_health }

abbrev pub answered : {E : Type 0} → Result E Bool → Bool
answered (ok b) = b
answered (err e) = false

-- The replicas from the i-th on, and what their pings return or raise.
unfoldable check_from :
    {E : Type 0} → (ℕ → Result E Bool) → ℕ → ℕ → RwSplitClient → Dict ℕ Bool × RwSplitClient
unfolding set_replica_health
check_from ping i zero c = ([], c)
check_from ping i (suc n) c =
    let rest = check_from ping (suc i) n (set_replica_health i (answered (ping i)) c) in
    ((i, answered (ping i)) ∷ rest.0, rest.1)

unfoldable pub check_replica_health :
    {E : Type 0} → (ℕ → Result E Bool) → RwSplitClient → Dict ℕ Bool × RwSplitClient
unfolding check_from
check_replica_health ping c = check_from ping 0 c.count c

unfoldable pub healthy_replica_count : RwSplitClient → ℕ
unfolding healthy_of
healthy_replica_count c = length (healthy_of c.replica_health)
