-- ===== src/HashRing/FleetTests.antt =====
-- Two rings that met the same two nodes in different orders.
use my_cache_go.Common.{
  ℕ, ◌-◌, ◌*◌, ◌/◌, ◌≡◌, ◌⊎◌, inl, inr, refl, ap, sym, ◌∙◌, [], ◌∷◌, some, if◌then◌else◌, ◌==◌, ltb,
  get_or, Key, key_dec, ℕ_discrete, arith,
}
use my_cache_go.Common.Dict
use my_cache_go.HashRing
use my_cache_go.HashRing.{HashRing, Config, add, new, hash_virtual_node}
use my_cache_go.HashRing.Balancer.{Floats}
use my_cache_go.HashRing.Absent.{replicas}
use my_cache_go.HashRing.Exact.{Apart}
use my_cache_go.HashRing.Fleet.{Fleet, born, joined, get-Fleet}

abbrev pub hash : Key → ℕ
hash [] = 0
hash (b ∷ key) = if b == b'a' then 10 else if b == b'b' then 20 else 15

abbrev pub node_a : Key
node_a = b'a' ∷ []

abbrev pub node_b : Key
node_b = b'b' ∷ []

abbrev pub config : Config
config = record { default_replicas = 1; min_replicas = 1; max_replicas = 1 }

-- Whole numbers in place of the floating-point ones.
abbrev pub floats : Floats
floats = record {
  Float = ℕ;
  of_int = λ n. n;
  div = λ a b. a / b;
  mul = λ a b. a * b;
  sub = λ a b. a - b;
  abs = λ a. a;
  gt = λ a b. ltb b a;
  to_int = λ a. a;
}

abbrev pub Known : Key → Type 0
Known m = (m ≡ node_a) ⊎ (m ≡ node_b)

abbrev pub a_first : HashRing
a_first = record {
  keys = 10 ∷ 20 ∷ [];
  hash_map = (20, node_b) ∷ (10, node_a) ∷ [];
  node_replicas = (node_b, 1) ∷ (node_a, 1) ∷ [];
  node_counts = [];
  total_requests = 0;
}

abbrev b_first : HashRing
b_first = record {
  keys = 10 ∷ 20 ∷ [];
  hash_map = (10, node_a) ∷ (20, node_b) ∷ [];
  node_replicas = (node_a, 1) ∷ (node_b, 1) ∷ [];
  node_counts = [];
  total_requests = 0;
}

abbrev a_alone : HashRing
a_alone = record {
  keys = 10 ∷ [];
  hash_map = (10, node_a) ∷ [];
  node_replicas = (node_a, 1) ∷ [];
  node_counts = [];
  total_requests = 0;
}

abbrev b_alone : HashRing
b_alone = record {
  keys = 20 ∷ [];
  hash_map = (20, node_b) ∷ [];
  node_replicas = (node_b, 1) ∷ [];
  node_counts = [];
  total_requests = 0;
}

pub a_first-Fleet : Fleet hash floats config 1 Known a_first
a_first-Fleet =
    joined b'b' [] (joined b'a' [] born (inl refl) (unfold Dict.find in refl) one) (inr refl)
      (unfold Dict.find key_dec in refl) two
  where
    one : add hash config new (node_a ∷ []) ≡ some a_alone
    one =
        unfold add HashRing.add_nodes HashRing.add_node HashRing.add_replicas
          HashRing.hash_virtual_node HashRing.virtual_key HashRing.sort_keys HashRing.sort_ints
          Dict.insert Dict.delete key_dec ℕ_discrete in
        refl

    two : add hash config a_alone (node_b ∷ []) ≡ some a_first
    two =
        unfold add HashRing.add_nodes HashRing.add_node HashRing.add_replicas
          HashRing.hash_virtual_node HashRing.virtual_key HashRing.sort_keys HashRing.sort_ints
          Dict.insert Dict.delete key_dec ℕ_discrete in
        refl

b_first-Fleet : Fleet hash floats config 1 Known b_first
b_first-Fleet =
    joined b'a' [] (joined b'b' [] born (inr refl) (unfold Dict.find in refl) one) (inl refl)
      (unfold Dict.find key_dec in refl) two
  where
    one : add hash config new (node_b ∷ []) ≡ some b_alone
    one =
        unfold add HashRing.add_nodes HashRing.add_node HashRing.add_replicas
          HashRing.hash_virtual_node HashRing.virtual_key HashRing.sort_keys HashRing.sort_ints
          Dict.insert Dict.delete key_dec ℕ_discrete in
        refl

    two : add hash config b_alone (node_a ∷ []) ≡ some b_first
    two =
        unfold add HashRing.add_nodes HashRing.add_node HashRing.add_replicas
          HashRing.hash_virtual_node HashRing.virtual_key HashRing.sort_keys HashRing.sort_ints
          Dict.insert Dict.delete key_dec ℕ_discrete in
        refl

pub hashes_apart : Apart hash Known 1
unfolding HashRing.hash_virtual_node HashRing.virtual_key
hashes_apart m n i j (inl p) (inl q) k l e = (p ∙ sym q, omega (arith, k, l))
hashes_apart m n i j (inr p) (inr q) k l e = (p ∙ sym q, omega (arith, k, l))
hashes_apart m n i j (inl p) (inr q) k l e =
    let t : 10 ≡ 20 =
      ap (λ x. hash_virtual_node hash x i) (sym p) ∙ (e ∙ ap (λ x. hash_virtual_node hash x j) q) in
    absurd (omega (arith, t))
hashes_apart m n i j (inr p) (inl q) k l e =
    let t : 20 ≡ 10 =
      ap (λ x. hash_virtual_node hash x i) (sym p) ∙ (e ∙ ap (λ x. hash_virtual_node hash x j) q) in
    absurd (omega (arith, t))

same_nodes : (m : Key) → replicas a_first m ≡ replicas b_first m
unfolding Dict.find
same_nodes m = elim (key_dec node_a m) [
  | yes p ↦ elim (key_dec node_b m) [
    | yes q ↦ let n = ap (λ k. get_or k 0 0) (p ∙ sym q) in absurd (omega (arith, n))
    | no q ↦ ground (arith, p, q)
  ]
  | no p ↦ ground (arith, p)
]

get-Fleet_example :
    (HashRing.get hash a_first (b'k' ∷ [])).1 ≡ (HashRing.get hash b_first (b'k' ∷ [])).1
get-Fleet_example =
    get-Fleet hash floats config 1 Known 1 hashes_apart (omega arith) (omega arith) a_first b_first
      a_first-Fleet b_first-Fleet same_nodes b'k' []
