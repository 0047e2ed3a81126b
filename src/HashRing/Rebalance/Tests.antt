-- ===== src/HashRing/Rebalance/Tests.antt =====
-- A ring of two nodes after a thousand requests.
use my_cache_go.Common.{
  ℕ, zero, suc, ◌≤◌, ◌<◌, ◌≡◌, ◌⊎◌, refl, List, [], ◌∷◌, Key, key_dec, ℕ_discrete, get_or, ap, sym,
  ◌∙◌, arith, subst, some, true,
}
use my_cache_go.Common.Int64.{Int64}
use my_cache_go.Common.Dict.{find}
use my_cache_go.HashRing
use my_cache_go.HashRing.{HashRing, hash_virtual_node}
use my_cache_go.HashRing.Absent.{replicas, replicas-get}
use my_cache_go.HashRing.Order.{has}
use my_cache_go.HashRing.Balancer.{check_and_rebalance, max_deviation}
use my_cache_go.HashRing.Fleet.{Fleet, queried}
use my_cache_go.HashRing.FleetTests.{
  hash, node_a, node_b, config, floats, Known, a_first, a_first-Fleet, hashes_apart,
}
use my_cache_go.HashRing.Rebalance.{
  Keyed, average, check_and_rebalance-bounds, get-check_and_rebalance,
}

-- One key after the other, all of them served by the same node.
unfoldable asked : ℕ → HashRing
asked zero = a_first
asked (suc n) = (HashRing.get hash (asked n) (b'k' ∷ [])).0

asked-Fleet : (n : ℕ) → Fleet hash floats config 1 Known (asked n)
unfolding asked
asked-Fleet zero = a_first-Fleet
asked-Fleet (suc n) = queried (b'k' ∷ []) (asked-Fleet n)

abbrev order : List (Key × Int64)
order = (node_b, 900) ∷ (node_a, 100) ∷ []

abbrev other : List (Key × Int64)
other = (node_a, 100) ∷ (node_b, 900) ∷ []

same_counts : (m : Key) → find key_dec m order ≡ find key_dec m other
unfolding find
same_counts m = elim (key_dec node_a m) [
  | yes p ↦ elim (key_dec node_b m) [
    | yes q ↦ let n = ap (λ k. get_or k 0 0) (p ∙ sym q) in absurd (omega (arith, n))
    | no q ↦ ground (arith, p, q)
  ]
  | no p ↦ ground (arith, p)
]

same_deviation : (avg : ℕ) → max_deviation floats avg 0 order ≡ max_deviation floats avg 0 other
unfolding max_deviation
same_deviation avg = ground arith

order-Keyed : Keyed order
unfolding find key_dec ℕ_discrete
order-Keyed = (refl, (refl, tt))

other-Keyed : Keyed other
unfolding find key_dec ℕ_discrete
other-Keyed = (refl, (refl, tt))

get-check_and_rebalance_example :
    (HashRing.get hash (check_and_rebalance floats hash config 1 (asked 1000) order) (b'j' ∷ [])).1
    ≡ (HashRing.get hash
        (check_and_rebalance floats hash config 1 (asked 1000) other)
        (b'j' ∷ [])).1
get-check_and_rebalance_example =
    get-check_and_rebalance hash floats config 1 Known 1 hashes_apart (omega arith) (omega arith)
      (asked 1000) order other b'j' [] (asked-Fleet 1000) order-Keyed other-Keyed same_counts
      (same_deviation (average hash floats config (asked 1000)))

asked-replicas : (n : ℕ) (m : Key) → replicas (asked n) m ≡ replicas a_first m
unfolding asked
asked-replicas zero m = refl
asked-replicas (suc n) m = replicas-get hash (asked n) (b'k' ∷ []) m ∙ asked-replicas n m

b_served : 0 < replicas (asked 1000) node_b
b_served =
    subst (λ n. 0 < n) (sym (asked-replicas 1000 node_b))
      (unfold find key_dec ℕ_discrete in omega arith)

abbrev after : HashRing
after = check_and_rebalance floats hash config 1 (asked 1000) order

check_and_rebalance-bounds_example :
    (0 < replicas after node_b)
    × ((replicas after node_b ≡ replicas (asked 1000) node_b)
        ⊎ ((1 ≤ replicas after node_b) × (replicas after node_b ≤ 1)))
    × ((j : ℕ)
        → j < replicas after node_b
        → (has (hash_virtual_node hash node_b j) after.keys ≡ true)
          × (find ℕ_discrete (hash_virtual_node hash node_b j) after.hash_map ≡ some node_b))
check_and_rebalance-bounds_example =
    check_and_rebalance-bounds hash floats config 1 Known 1 hashes_apart (omega arith) (omega arith)
      (asked 1000) order node_b (asked-Fleet 1000) order-Keyed (omega arith) (omega arith) b_served
