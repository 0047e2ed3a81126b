-- ===== src/HashRing/Tests.antt =====
-- Runs of the ring of consistenthash on two nodes with one virtual node each.
use my_cache_go.Common.{
  ℕ, ◌-◌, ◌*◌, ◌/◌, ◌≡◌, ◌≢◌, refl, ap, [], ◌∷◌, some, if◌then◌else◌, ◌==◌, ltb, ◌⊎◌, get_or, Key,
  key_dec, ℕ_discrete, arith,
}
use my_cache_go.Common.Dict
use my_cache_go.HashRing
use my_cache_go.HashRing.{HashRing, Config, add, remove, new, locate, or_zero}
use my_cache_go.HashRing.Search.{search}
use my_cache_go.HashRing.Sorted.{Sorted}
use my_cache_go.HashRing.Owner.{owner, owner_key, first_from}
use my_cache_go.HashRing.Addition.{get-add}
use my_cache_go.HashRing.Life.{Life, born, joined, get-remove}
use my_cache_go.HashRing.Removal.{Clean, Owned, get-remove_ne}
use my_cache_go.HashRing.Balancer.{Floats}
use my_cache_go.HashRing.Steps.{Reachable, added, made, Reachable-get}

abbrev hash : Key → ℕ
hash [] = 0
hash (b ∷ key) = if b == b'a' then 10 else if b == b'b' then 20 else 15

abbrev node_a : Key
node_a = b'a' ∷ []

abbrev node_b : Key
node_b = b'b' ∷ []

abbrev ring : HashRing
ring = record {
  keys = 10 ∷ 20 ∷ [];
  hash_map = (20, node_b) ∷ (10, node_a) ∷ [];
  node_replicas = (node_b, 1) ∷ (node_a, 1) ∷ [];
  node_counts = [];
  total_requests = 0;
}

abbrev ring_b : HashRing
ring_b = record {
  keys = 20 ∷ [];
  hash_map = (20, node_b) ∷ [];
  node_replicas = (node_b, 1) ∷ [];
  node_counts = [];
  total_requests = 0;
}

ring-Sorted : Sorted ring.keys
ring-Sorted = ((omega arith, tt), (tt, tt))

removed : remove hash ring node_a ≡ some ring_b
unfolding remove HashRing.remove_node_unlocked HashRing.remove_replicas HashRing.hash_virtual_node
    HashRing.virtual_key HashRing.remove_key Dict.find Dict.delete key_dec
removed = refl

clean : Clean hash node_a 1 0 ring
unfolding HashRing.hash_virtual_node HashRing.virtual_key Dict.find
clean j m p q e = ground (arith, e)

nodes_differ : node_b ≢ node_a
nodes_differ h = let n = ap (λ k. get_or k 0 0) h in omega (arith, n)

owned : Owned ring (hash (b'k' ∷ [])) node_b
unfolding owner_key first_from Dict.find ℕ_discrete
owned = record { at = 20; first = refl; named = refl }

get-remove_ne_example :
    (HashRing.get hash ring_b (b'k' ∷ [])).1 ≡ (HashRing.get hash ring (b'k' ∷ [])).1
unfolding Dict.find key_dec
get-remove_ne_example =
    get-remove_ne hash ring ring_b b'a' [] b'k' [] node_b ring-Sorted removed clean owned
      nodes_differ

abbrev config : Config
config = record { default_replicas = 1; min_replicas = 1; max_replicas = 3 }

-- Whole numbers in place of the floating-point ones.
abbrev floats : Floats
floats = record {
  Float = ℕ;
  of_int = λ n. n;
  div = λ a b. a / b;
  mul = λ a b. a * b;
  sub = λ a b. a - b;
  abs = λ a. a;
  gt = λ a b. ltb b a;
  to_int = λ a. a;
}

reached : Reachable hash floats config 1 ring
reached = added (node_a ∷ node_b ∷ []) made from_new
  where
    from_new : add hash config new (node_a ∷ node_b ∷ []) ≡ some ring
    from_new =
        unfold add HashRing.add_nodes HashRing.add_node HashRing.add_replicas
          HashRing.hash_virtual_node HashRing.virtual_key HashRing.sort_keys HashRing.sort_ints
          Dict.insert Dict.delete key_dec in
        refl

Reachable-get_example : (HashRing.get hash ring (b'k' ∷ [])).1 ≡ owner ring (hash (b'k' ∷ []))
Reachable-get_example = Reachable-get hash floats config 1 b'k' [] reached

abbrev ring_a : HashRing
ring_a = record {
  keys = 10 ∷ [];
  hash_map = (10, node_a) ∷ [];
  node_replicas = (node_a, 1) ∷ [];
  node_counts = [];
  total_requests = 0;
}

add_b : add hash config ring_a (node_b ∷ []) ≡ some ring
unfolding add HashRing.add_nodes HashRing.add_node HashRing.add_replicas HashRing.hash_virtual_node
    HashRing.virtual_key HashRing.sort_keys HashRing.sort_ints Dict.insert Dict.delete key_dec
    ℕ_discrete
add_b = refl

get-add_example :
    ((HashRing.get hash ring (b'k' ∷ [])).1 ≡ (HashRing.get hash ring_a (b'k' ∷ [])).1)
    ⊎ ((HashRing.get hash ring (b'k' ∷ [])).1 ≡ node_b)
get-add_example = get-add hash config ring_a ring b'b' [] b'k' [] (tt, tt) add_b

lived : Life hash floats config 1 ring
lived =
    joined b'b' [] (joined b'a' [] born (unfold Dict.find in refl) add_a)
      (unfold Dict.find key_dec in refl) add_b
  where
    add_a : add hash config new (node_a ∷ []) ≡ some ring_a
    add_a =
        unfold add HashRing.add_nodes HashRing.add_node HashRing.add_replicas
          HashRing.hash_virtual_node HashRing.virtual_key HashRing.sort_keys HashRing.sort_ints
          Dict.insert Dict.delete key_dec in
        refl

routed : (HashRing.get hash ring (b'k' ∷ [])).1 ≡ node_b
unfolding HashRing.get locate search HashRing.Search.search_between Dict.find ℕ_discrete
routed = refl

get-remove_example : (HashRing.get hash ring_b (b'k' ∷ [])).1 ≢ node_a
get-remove_example = get-remove hash floats config 1 b'a' [] b'k' [] lived removed
