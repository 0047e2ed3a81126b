-- ===== src/HashRing/Absent.antt =====
-- How many virtual nodes the nodes have after the operations of the ring.
use my_cache_go.Common.{
  ℕ, ◌≡◌, ◌≢◌, refl, ap, ◌∙◌, List, [], ◌∷◌, Option, none, some, Bool, true, false, if◌then◌else◌,
  ◌==◌, ite, if_neg, Key, key_dec, ltb, length, arith,
}
use my_cache_go.Common.Int64.{Int64}
use my_cache_go.Common.Dict.{find, find-delete}
use my_cache_go.HashRing
use my_cache_go.HashRing.{
  HashRing, Config, or_zero, sort_keys, add_node, add_nodes, add, remove_node_unlocked, remove,
}
use my_cache_go.HashRing.Balancer.{
  Floats, clamp, wanted, readd, rebalance_node, rebalance_each, rebalance_nodes,
  check_and_rebalance, min_sample_size, max_deviation,
}
use my_cache_go.HashRing.Members.{replicas-add_node, removed}

-- The number of virtual nodes of a node.
abbrev pub replicas : HashRing → Key → ℕ
replicas r m = or_zero (find key_dec m r.node_replicas)

module _ (hash : Key → ℕ) where
  pub replicas-add :
      (c : Config) (r r' : HashRing) (b : ℕ) (name m : Key)
      → add hash c r ((b ∷ name) ∷ []) ≡ some r'
      → replicas r' m ≡ ite (key_dec (b ∷ name) m) c.default_replicas (replicas r m)
  replicas-add c r r' b name m e =
      ap (λ l. or_zero (find key_dec m l)) same
      ∙ replicas-add_node hash r (b ∷ name) c.default_replicas m
    where
      same : r'.node_replicas ≡ (add_node hash r (b ∷ name) c.default_replicas).node_replicas
      same = unfold add add_nodes sort_keys in ground (arith, e)

  pub replicas-unnamed :
      (c : Config) (r r' : HashRing) (m : Key)
      → add hash c r ([] ∷ []) ≡ some r'
      → replicas r' m ≡ replicas r m
  unfolding add add_nodes sort_keys
  replicas-unnamed c r r' m e = ground (arith, e)

  pub remove_node_unlocked-replicas :
      (r r' : HashRing) (node m : Key)
      → remove_node_unlocked hash r node ≡ some r'
      → replicas r' m ≡ ite (key_dec node m) 0 (replicas r m)
  remove_node_unlocked-replicas r r' node m e =
      ap (λ l. or_zero (find key_dec m l)) (removed hash r r' node e).1
      ∙ ground (arith, find-delete key_dec node m r.node_replicas)

  pub remove_node_unlocked-none :
      (r : HashRing) (node : Key) → remove_node_unlocked hash r node ≡ none → replicas r node ≡ 0
  unfolding remove_node_unlocked
  remove_node_unlocked-none r node e = ground (arith, e)

  pub remove_node_unlocked-some :
      (r r' : HashRing) (node : Key)
      → remove_node_unlocked hash r node ≡ some r'
      → replicas r node ≢ 0
  unfolding remove_node_unlocked
  remove_node_unlocked-some r r' node e = ground (arith, e)

  pub replicas-remove :
      (r r' : HashRing) (node m : Key)
      → remove hash r node ≡ some r'
      → replicas r' m ≡ ite (key_dec node m) 0 (replicas r m)
  unfolding remove
  replicas-remove r r' [] m e = absurd (ground (arith, e))
  replicas-remove r r' (b ∷ name) m e = remove_node_unlocked-replicas r r' (b ∷ name) m e

  pub remove-none :
      (r : HashRing) (b : ℕ) (name : Key)
      → remove hash r (b ∷ name) ≡ none
      → replicas r (b ∷ name) ≡ 0
  unfolding remove
  remove-none r b name e = remove_node_unlocked-none r (b ∷ name) e

  pub replicas-get :
      (r : HashRing) (key m : Key) → replicas (HashRing.get hash r key).0 m ≡ replicas r m
  unfolding HashRing.get
  replicas-get r [] m = refl
  replicas-get r (b ∷ key) m = ground arith

  module _ (f : Floats) (c : Config) where
    -- A node without virtual nodes is not given any by the balancer.
    rebalance_node-replicas :
        (avg : f.Float) (r : HashRing) (node : Key) (count : Int64) (m : Key)
        → replicas r m ≡ 0
        → replicas (rebalance_node f hash c avg r node count) m ≡ 0
    unfolding rebalance_node
    rebalance_node-replicas avg r node count m z =
        choose (n == replicas r node) _ (again (remove_node_unlocked hash r node) refl)
      where
        n : ℕ
        n = clamp c (wanted f avg (replicas r node) count)

        again :
            (o : Option HashRing)
            → remove_node_unlocked hash r node ≡ o
            → replicas (readd f hash c r o node n) m ≡ 0
        again none e = z
        again (some r') e =
            replicas-add_node hash r' node n m
            ∙ (if_neg (key_dec node m)
                  (λ same. remove_node_unlocked-some r r' node e (ap (replicas r) same ∙ z)) _ _
                ∙ ground (arith, z, remove_node_unlocked-replicas r r' node m e))

        choose :
            (b : Bool) (r' : HashRing) → replicas r' m ≡ 0 → replicas (if b then r else r') m ≡ 0
        choose true r' p = z
        choose false r' p = p

    rebalance_each-replicas :
        (avg : f.Float) (r : HashRing) (counts : List (Key × Int64)) (m : Key)
        → replicas r m ≡ 0
        → replicas (rebalance_each f hash c avg r counts) m ≡ 0
    unfolding rebalance_each
    rebalance_each-replicas avg r [] m z = z
    rebalance_each-replicas avg r ((node, count) ∷ counts) m z =
        rebalance_each-replicas avg (rebalance_node f hash c avg r node count) counts m
          (rebalance_node-replicas avg r node count m z)

    pub check_and_rebalance-replicas :
        (threshold : f.Float) (r : HashRing) (order : List (Key × Int64)) (m : Key)
        → replicas r m ≡ 0
        → replicas (check_and_rebalance f hash c threshold r order) m ≡ 0
    unfolding check_and_rebalance rebalance_nodes sort_keys
    check_and_rebalance-replicas threshold r order m z =
        choose (ltb r.total_requests min_sample_size)
          (f.gt (max_deviation f avg (f.of_int 0) order) threshold) _
          (rebalance_each-replicas avg r order m z)
      where
        avg : f.Float
        avg = f.div (f.of_int r.total_requests) (f.of_int (length r.node_replicas))

        choose :
            (p q : Bool) (r' : HashRing)
            → replicas r' m ≡ 0
            → replicas (if p then r else if q then r' else r) m ≡ 0
        choose true q r' p = z
        choose false true r' p = p
        choose false false r' p = z
