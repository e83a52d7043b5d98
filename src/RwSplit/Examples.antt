-- ===== src/RwSplit/Examples.antt =====
-- Statements that go to replicas or to the primary.
use vedadb_driver.Base.{
  ℕ, ◌+◌, ◌≡◌, refl, Bool, true, false, ◌&&◌, ◌||◌, List, [], ◌∷◌, arith, leb, ◌==◌, ok, err,
}
use vedadb_driver.Base.Dict.{nat_eq, get, put}
use vedadb_driver.Query.Builder.{word}
use vedadb_driver.RwSplit.{
  Characters, round_robin, least_loaded, RwSplitClient, replica, primary, route, set_replica_health,
  skip_space, starts_with, starts_with_any, is_read, is_write, is_transaction, pick_replica,
  healthy_of, nth_replica, index_error,
}
use vedadb_driver.RwSplit.Routing.{IsValid, Sound, route-Sound, fallback_unused}
use vedadb_driver.RwSplit.Loads.{total, routes, to_replicas, loads_never_fall}

abbrev is_letter : ℕ → Bool
is_letter c = (leb 65 c && leb c 90) || (leb 97 c && leb c 122)

-- The characters of ASCII.
abbrev ascii_re : Characters
ascii_re = record {
  is_space = λ c. c == 32;
  is_word = is_letter;
  same = λ k c. (k == c) || ((k + 32) == c);
}

abbrev fetch : List ℕ
fetch = word " select * from users"

abbrev delete : List ℕ
delete = word "DELETE FROM users"

-- The first of the two replicas is down.
abbrev one_down : RwSplitClient
one_down = record {
  count = 2;
  strategy = round_robin;
  fallback_to_primary = false;
  replica_idx = 0;
  replica_health = (0, false) ∷ (1, true) ∷ [];
  replica_load = (0, 0) ∷ (1, 0) ∷ [];
}

one_down-IsValid : IsValid one_down
unfolding get
one_down-IsValid = record {
  distinct = (refl, (refl, tt));
  listed = (omega arith, (omega arith, tt));
}

route-Sound_example : Sound ascii_re fetch one_down (route ascii_re fetch 0 one_down).0
route-Sound_example = route-Sound ascii_re fetch 0 one_down one_down-IsValid

reads_second : (route ascii_re fetch 0 one_down).0 ≡ ok (replica 1)
unfolding route is_transaction is_write is_read pick_replica skip_space starts_with_any starts_with
    healthy_of nth_replica
reads_second = refl

writes_primary : (route ascii_re delete 0 one_down).0 ≡ ok primary
unfolding route is_transaction is_write is_read pick_replica skip_space starts_with_any starts_with
    healthy_of nth_replica
writes_primary = refl

abbrev all_down : RwSplitClient
all_down = record one_down { replica_health = (0, false) ∷ (1, false) ∷ [] }

fallback_unused_example :
    (route ascii_re fetch 0 (record all_down { fallback_to_primary = true })).0
    ≡ (route ascii_re fetch 0 all_down).0
fallback_unused_example = fallback_unused ascii_re fetch 0 all_down true

abbrev balanced : RwSplitClient
balanced = record one_down { strategy = least_loaded; replica_health = (0, true) ∷ (1, true) ∷ [] }

loads_of_run :
    total ((routes ascii_re ((fetch, 0) ∷ (delete, 0) ∷ (fetch, 0) ∷ []) balanced).1).replica_load
    ≡ 0 + to_replicas (routes ascii_re ((fetch, 0) ∷ (delete, 0) ∷ (fetch, 0) ∷ []) balanced).0
loads_of_run = loads_never_fall ascii_re ((fetch, 0) ∷ (delete, 0) ∷ (fetch, 0) ∷ []) balanced refl

-- An index that is no replica's is taken into the table, and a read raises.
abbrev unknown : RwSplitClient
unknown = set_replica_health 5 true all_down

unknown_raises : (route ascii_re fetch 0 unknown).0 ≡ err index_error
unfolding route is_transaction is_write is_read pick_replica skip_space starts_with_any starts_with
    healthy_of nth_replica set_replica_health put
unknown_raises = refl
