-- ===== src/HashRing/Fleet.antt =====
-- Rings of several processes that have been through different calls, consistenthash/ring.go and
-- consistenthash/balancer.go.
use my_cache_go.Common.{
  ℕ, ◌≤◌, ◌<◌, ◌≡◌, refl, ap, sym, subst, ◌∙◌, List, [], ◌∷◌, Option, none, some, Bool, true, false,
  Bool-cases, inl, inr, if◌then◌else◌, ◌==◌, Key, ℕ_discrete, ltb, length, arith,
}
use my_cache_go.Common.Int64.{Int64}
use my_cache_go.Common.Dict.{find}
use my_cache_go.HashRing
use my_cache_go.HashRing.{
  HashRing, Config, new, or_empty, or_zero, sort_keys, add_node, add_nodes, add, hash_virtual_node,
  remove_node_unlocked, remove,
}
use my_cache_go.HashRing.Balancer.{
  Floats, clamp, wanted, readd, rebalance_node, rebalance_each, rebalance_nodes,
  check_and_rebalance, min_sample_size, max_deviation,
}
use my_cache_go.HashRing.Order.{has, has-sort_ints, owner-same}
use my_cache_go.HashRing.Distinct.{Once-sort_ints}
use my_cache_go.HashRing.Absent.{replicas, remove_node_unlocked-replicas, remove_node_unlocked-some}
use my_cache_go.HashRing.Exact.{Apart, IsExact}
use my_cache_go.HashRing.Exact.Leaving.{remove_node_unlocked-IsExact}
use my_cache_go.HashRing.Exact.Moves.{add_node-IsExact, same-IsExact}
use my_cache_go.HashRing.Steps.{
  Reachable, made, added, left, asked, ticked, Reachable-Sorted, Reachable-get,
}

removed_by :
    (hash : Key → ℕ) (r r' : HashRing) (node : Key)
    → remove hash r node ≡ some r'
    → remove_node_unlocked hash r node ≡ some r'
unfolding remove
removed_by hash r r' [] e = absurd (ground (arith, e))
removed_by hash r r' (d ∷ node) e = e

module _ (hash : Key → ℕ) (f : Floats) (c : Config) (threshold : f.Float) (P : Key → Type 0) where
  -- The rings of a program that adds a node only while it has no virtual nodes, where the nodes are
  -- among those that `P` names.
  pub data Fleet : HashRing → Type 0 where
    born : Fleet new
    joined :
        {r r' : HashRing} (b : ℕ) (name : Key)
        → Fleet r
        → P (b ∷ name)
        → replicas r (b ∷ name) ≡ 0
        → add hash c r ((b ∷ name) ∷ []) ≡ some r'
        → Fleet r'
    parted : {r r' : HashRing} (node : Key) → Fleet r → remove hash r node ≡ some r' → Fleet r'
    queried : {r : HashRing} (key : Key) → Fleet r → Fleet (HashRing.get hash r key).0
    balanced :
        {r : HashRing} (order : List (Key × Int64))
        → Fleet r
        → Fleet (check_and_rebalance f hash c threshold r order)

  Fleet-Reachable : {r : HashRing} → Fleet r → Reachable hash f c threshold r
  Fleet-Reachable born = made
  Fleet-Reachable (joined b name l q z e) = added ((b ∷ name) ∷ []) (Fleet-Reachable l) e
  Fleet-Reachable (parted node l e) = left node (Fleet-Reachable l) e
  Fleet-Reachable (queried key l) = asked key (Fleet-Reachable l)
  Fleet-Reachable (balanced order l) = ticked order (Fleet-Reachable l)

  module _ (limit : ℕ) (apart : Apart hash P limit) (low : c.default_replicas ≤ limit)
      (high : c.max_replicas ≤ limit) where
    sorted-IsExact :
        (r r' : HashRing)
        → r'.keys ≡ (sort_keys r).keys
        → r'.hash_map ≡ r.hash_map
        → r'.node_replicas ≡ r.node_replicas
        → IsExact hash P limit r
        → IsExact hash P limit r'
    unfolding sort_keys
    sorted-IsExact r r' k m n v =
        same-IsExact hash P limit r r' v
          (subst HashRing.Distinct.Once (sym k) (Once-sort_ints r.keys v.once))
          (λ y. ap (has y) k ∙ has-sort_ints y r.keys) m n

    clamp-le : (n : ℕ) → clamp c n ≤ limit
    unfolding clamp
    clamp-le n = ground (arith, high)

    rebalance_node-IsExact :
        (avg : f.Float) (r : HashRing) (node : Key) (count : Int64)
        → IsExact hash P limit r
        → IsExact hash P limit (rebalance_node f hash c avg r node count)
    unfolding rebalance_node
    rebalance_node-IsExact avg r node count v =
        choose (n == replicas r node) _ (again (remove_node_unlocked hash r node) refl)
      where
        n : ℕ
        n = clamp c (wanted f avg (replicas r node) count)

        again :
            (o : Option HashRing)
            → remove_node_unlocked hash r node ≡ o
            → IsExact hash P limit (readd f hash c r o node n)
        again none e = v
        again (some r') e =
            add_node-IsExact hash P limit apart r' node n
              (remove_node_unlocked-IsExact hash P limit apart r r' node v e)
              (v.named node
                (let ne = remove_node_unlocked-some hash r r' node e in ground (arith, ne)))
              (clamp-le _) (ground (arith, remove_node_unlocked-replicas hash r r' node node e))

        choose :
            (b : Bool) (r' : HashRing)
            → IsExact hash P limit r'
            → IsExact hash P limit (if b then r else r')
        choose true r' w = v
        choose false r' w = w

    rebalance_each-IsExact :
        (avg : f.Float) (counts : List (Key × Int64)) (r : HashRing)
        → IsExact hash P limit r
        → IsExact hash P limit (rebalance_each f hash c avg r counts)
    unfolding rebalance_each
    rebalance_each-IsExact avg [] r v = v
    rebalance_each-IsExact avg ((node, count) ∷ counts) r v =
        rebalance_each-IsExact avg counts (rebalance_node f hash c avg r node count)
          (rebalance_node-IsExact avg r node count v)

    balanced-IsExact :
        (r : HashRing) (order : List (Key × Int64))
        → IsExact hash P limit r
        → IsExact hash P limit (check_and_rebalance f hash c threshold r order)
    unfolding check_and_rebalance rebalance_nodes sort_keys
    balanced-IsExact r order v =
        choose (ltb r.total_requests min_sample_size)
          (f.gt (max_deviation f avg (f.of_int 0) order) threshold) _
          (sorted-IsExact (rebalance_each f hash c avg r order) _ refl refl refl
            (rebalance_each-IsExact avg order r v))
      where
        avg : f.Float
        avg = f.div (f.of_int r.total_requests) (f.of_int (length r.node_replicas))

        choose :
            (p q : Bool) (r' : HashRing)
            → IsExact hash P limit r'
            → IsExact hash P limit (if p then r else if q then r' else r)
        choose true q r' w = v
        choose false true r' w = w
        choose false false r' w = v

    get-IsExact :
        (r : HashRing) (key : Key)
        → IsExact hash P limit r
        → IsExact hash P limit (HashRing.get hash r key).0
    get-IsExact r [] v = unfold HashRing.get in v
    get-IsExact r (b ∷ key) v =
        same-IsExact hash P limit r _ v (subst HashRing.Distinct.Once (sym keys) v.once)
          (λ y. ap (has y) keys) (unfold HashRing.get in ground arith)
          (unfold HashRing.get in ground arith)
      where
        keys : (HashRing.get hash r (b ∷ key)).0.keys ≡ r.keys
        keys = unfold HashRing.get in ground arith

    pub Fleet-IsExact : {r : HashRing} → Fleet r → IsExact hash P limit r
    Fleet-IsExact born = record {
      named = λ m h. absurd (unfold find in ground (arith, h));
      few = λ m. unfold find in omega arith;
      once = tt;
      keyed = λ y h. absurd (unfold has in cc);
      placed = λ m j h. absurd (unfold find in ground (arith, h));
    }
    Fleet-IsExact (joined {r} {r'} b name l q z e) =
        sorted-IsExact (add_node hash r (b ∷ name) c.default_replicas) r'
          (unfold add add_nodes sort_keys in ground (arith, e))
          (unfold add add_nodes sort_keys in ground (arith, e))
          (unfold add add_nodes sort_keys in ground (arith, e))
          (add_node-IsExact hash P limit apart r (b ∷ name) c.default_replicas (Fleet-IsExact l) q
            low z)
    Fleet-IsExact (parted {r} {r'} node l e) =
        remove_node_unlocked-IsExact hash P limit apart r r' node (Fleet-IsExact l)
          (removed_by hash r r' node e)
    Fleet-IsExact (queried {r} key l) = get-IsExact r key (Fleet-IsExact l)
    Fleet-IsExact (balanced {r} order l) = balanced-IsExact r order (Fleet-IsExact l)

    module _ (r r' : HashRing) (l : Fleet r) (l' : Fleet r')
        (same : (m : Key) → replicas r m ≡ replicas r' m) where
      moved :
          (s s' : HashRing) (y : ℕ)
          → IsExact hash P limit s
          → IsExact hash P limit s'
          → ((m : Key) → replicas s m ≡ replicas s' m)
          → has y s.keys ≡ true
          → (has y s'.keys ≡ true) × (find ℕ_discrete y s.hash_map ≡ find ℕ_discrete y s'.hash_map)
      moved s s' y v v' eq h =
          let (m, j, lt, q) = v.keyed y h in
          let (there, at) = v.placed m j lt in
          let (there', at') = v'.placed m j (subst (λ k. j < k) (eq m) lt) in
          (
            ap (λ k. has k s'.keys) q ∙ there',
            ap (λ k. find ℕ_discrete k s.hash_map) q
                ∙ at
                ∙ sym (ap (λ k. find ℕ_discrete k s'.hash_map) q ∙ at'),
          )

      keys_same : (y : ℕ) → has y r.keys ≡ has y r'.keys
      keys_same y = elim (Bool-cases (has y r.keys)) [
        | inl h ↦ h ∙ sym (moved r r' y (Fleet-IsExact l) (Fleet-IsExact l') same h).0
        | inr h ↦ elim (Bool-cases (has y r'.keys)) [
          | inr h' ↦ h ∙ sym h'
          | inl h' ↦
              (moved r' r y (Fleet-IsExact l') (Fleet-IsExact l) (λ m. sym (same m)) h').0 ∙ sym h'
        ]
      ]

      -- Two rings with the same nodes and the same numbers of virtual nodes serve every key by the same
      -- node, whatever additions, removals, requests and rebalancings each has been through, where a node
      -- was added only while it had no virtual nodes, the named nodes' virtual nodes have hashes of their own,
      -- and the limit is not below the default and the maximal number of them.
      pub get-Fleet :
          (a : ℕ) (key : Key)
          → (HashRing.get hash r (a ∷ key)).1 ≡ (HashRing.get hash r' (a ∷ key)).1
      get-Fleet a key =
          Reachable-get hash f c threshold a key (Fleet-Reachable l)
          ∙ owner-same r r' (hash (a ∷ key))
              (Reachable-Sorted hash f c threshold (Fleet-Reachable l))
              (Reachable-Sorted hash f c threshold (Fleet-Reachable l')) keys_same
              (λ y h. (moved r r' y (Fleet-IsExact l) (Fleet-IsExact l') same h).1)
          ∙ sym (Reachable-get hash f c threshold a key (Fleet-Reachable l'))
