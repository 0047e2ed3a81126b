-- ===== src/HashRing/Rebalance.antt =====
-- The virtual nodes that the balancer of consistenthash/balancer.go leaves each node, with the order in
-- which Go iterates the map of counts as an argument.
mod Tests
use my_cache_go.Common.{
  ℕ, ◌≤◌, ◌<◌, ◌≡◌, ◌≢◌, refl, ap, sym, subst, ◌∙◌, ◌⊎◌, inl, inr, List, [], ◌∷◌, Option, none,
  some, Option-cases, Bool, true, false, Bool-cases, if◌then◌else◌, ◌==◌, ite, if_pos, if_neg, Key,
  key_dec, ℕ_discrete, ltb, length, arith,
}
use my_cache_go.Common.Int64.{Int64}
use my_cache_go.Common.Dict.{find}
use my_cache_go.HashRing
use my_cache_go.HashRing.Order.{has}
use my_cache_go.HashRing.{
  HashRing, Config, hash_virtual_node, sort_keys, add_node, remove_node_unlocked,
}
use my_cache_go.HashRing.Balancer.{
  Floats, clamp, wanted, readd, rebalance_node, rebalance_each, rebalance_nodes,
  check_and_rebalance, min_sample_size, max_deviation,
}
use my_cache_go.HashRing.Members.{replicas-add_node}
use my_cache_go.HashRing.Absent.{
  replicas, remove_node_unlocked-replicas, remove_node_unlocked-none, remove_node_unlocked-some,
}
use my_cache_go.HashRing.Exact.{Apart}
use my_cache_go.HashRing.Fleet.{Fleet, balanced, Fleet-IsExact, get-Fleet}

-- An iteration over a map has no key twice.
abbrev pub Keyed : List (Key × Int64) → Type 0
Keyed [] = Unit
Keyed ((node, count) ∷ counts) = (find key_dec node counts ≡ none) × Keyed counts

module _ (hash : Key → ℕ) (f : Floats) (c : Config) where
  -- The number of virtual nodes that a node has after it was looked at.
  abbrev pub balanced_to : f.Float → ℕ → Option Int64 → ℕ
  balanced_to avg current none = current
  balanced_to avg current (some count) =
      if current == 0 then 0 else clamp c (wanted f avg current count)

  rebalance_node-replicas :
      (avg : f.Float) (r : HashRing) (node : Key) (count : Int64) (m : Key)
      → replicas (rebalance_node f hash c avg r node count) m
        ≡ ite (key_dec node m) (balanced_to avg (replicas r node) (some count)) (replicas r m)
  unfolding rebalance_node
  rebalance_node-replicas avg r node count m =
      choose (n == replicas r node) refl _ (again (remove_node_unlocked hash r node) refl)
    where
      n : ℕ
      n = clamp c (wanted f avg (replicas r node) count)

      again :
          (o : Option HashRing)
          → remove_node_unlocked hash r node ≡ o
          → replicas (readd f hash c r o node n) m
            ≡ ite (key_dec node m) (if replicas r node == 0 then 0 else n) (replicas r m)
      again none e =
          let z = remove_node_unlocked-none hash r node e in
          elim (key_dec node m) [
            | yes same ↦ ground (arith, same, z, ap (replicas r) same)
            | no ne ↦ ground (arith, ne)
          ]
      again (some r') e =
          replicas-add_node hash r' node n m
          ∙ ground (
            arith,
            remove_node_unlocked-some hash r r' node e,
            remove_node_unlocked-replicas hash r r' node m e,
          )

      choose :
          (b : Bool)
          → (n == replicas r node) ≡ b
          → (r' : HashRing)
          → replicas r' m
            ≡ ite (key_dec node m) (if replicas r node == 0 then 0 else n) (replicas r m)
          → replicas (if b then r else r') m
            ≡ ite (key_dec node m) (if replicas r node == 0 then 0 else n) (replicas r m)
      choose true e r' p = elim (key_dec node m) [
        | yes same ↦ ground (arith, same, e, ap (replicas r) same)
        | no ne ↦ ground (arith, ne)
      ]
      choose false e r' p = p

  rebalance_each-replicas :
      (avg : f.Float) (counts : List (Key × Int64)) (r : HashRing) (m : Key)
      → Keyed counts
      → replicas (rebalance_each f hash c avg r counts) m
        ≡ balanced_to avg (replicas r m) (find key_dec m counts)
  unfolding rebalance_each find
  rebalance_each-replicas avg [] r m k = refl
  rebalance_each-replicas avg ((node, count) ∷ counts) r m k =
      rebalance_each-replicas avg counts (rebalance_node f hash c avg r node count) m k.1
      ∙ (ap (λ n. balanced_to avg n (find key_dec m counts))
            (rebalance_node-replicas avg r node count m)
          ∙ choose (key_dec node m))
    where
      choose :
          (d : Dec (node ≡ m))
          → balanced_to avg
              (ite d (balanced_to avg (replicas r node) (some count)) (replicas r m))
              (find key_dec m counts)
            ≡ balanced_to avg (replicas r m) (ite d (some count) (find key_dec m counts))
      choose (yes same) =
          ap (balanced_to avg (balanced_to avg (replicas r node) (some count)))
            (ap (λ a. find key_dec a counts) (sym same) ∙ k.0)
          ∙ ap (λ a. balanced_to avg (replicas r a) (some count)) same
      choose (no ne) = refl

  -- The average that `checkAndRebalance` computes.
  abbrev pub average : HashRing → f.Float
  average r = f.div (f.of_int r.total_requests) (f.of_int (length r.node_replicas))

  -- The balancer goes on to `rebalanceNodes`.
  abbrev pub triggers : f.Float → HashRing → List (Key × Int64) → Bool
  triggers threshold r order =
      if ltb r.total_requests min_sample_size
      then false
      else f.gt (max_deviation f (average r) (f.of_int 0) order) threshold

  check_and_rebalance-replicas :
      (threshold : f.Float) (r : HashRing) (order : List (Key × Int64)) (m : Key)
      → Keyed order
      → replicas (check_and_rebalance f hash c threshold r order) m ≡ (
          if triggers threshold r order
          then balanced_to (average r) (replicas r m) (find key_dec m order)
          else replicas r m)
  unfolding check_and_rebalance rebalance_nodes sort_keys
  check_and_rebalance-replicas threshold r order m k =
      choose (ltb r.total_requests min_sample_size)
        (f.gt (max_deviation f (average r) (f.of_int 0) order) threshold) _
        (rebalance_each-replicas (average r) order r m k)
    where
      choose :
          (p q : Bool) (r' : HashRing)
          → replicas r' m ≡ balanced_to (average r) (replicas r m) (find key_dec m order)
          → replicas (if p then r else if q then r' else r) m ≡ (
              if (if p then false else q)
              then balanced_to (average r) (replicas r m) (find key_dec m order)
              else replicas r m)
      choose true q r' e = refl
      choose false true r' e = e
      choose false false r' e = refl

  -- The bounds of the count that the ring keeps of a node.
  counted-bounds :
      (threshold : f.Float) (r : HashRing) (order : List (Key × Int64)) (m : Key)
      → Keyed order
      → 0 < c.min_replicas
      → c.min_replicas ≤ c.max_replicas
      → 0 < replicas r m
      → (0 < replicas (check_and_rebalance f hash c threshold r order) m)
        × ((replicas (check_and_rebalance f hash c threshold r order) m ≡ replicas r m)
            ⊎ ((c.min_replicas ≤ replicas (check_and_rebalance f hash c threshold r order) m)
                × (replicas (check_and_rebalance f hash c threshold r order) m ≤ c.max_replicas)))
  unfolding clamp
  counted-bounds threshold r order m k low ordered some_nodes =
      subst (λ n. (0 < n) × ((n ≡ replicas r m) ⊎ ((c.min_replicas ≤ n) × (n ≤ c.max_replicas))))
        (sym (check_and_rebalance-replicas threshold r order m k))
        (choose (triggers threshold r order) (find key_dec m order))
    where
      choose :
          (b : Bool) (o : Option Int64)
          → (0 < (if b then balanced_to (average r) (replicas r m) o else replicas r m))
            × (((if b then balanced_to (average r) (replicas r m) o else replicas r m)
                  ≡ replicas r m)
                ⊎ ((c.min_replicas
                      ≤ (if b then balanced_to (average r) (replicas r m) o else replicas r m))
                    × ((if b then balanced_to (average r) (replicas r m) o else replicas r m)
                        ≤ c.max_replicas)))
      choose false o = (some_nodes, inl refl)
      choose true none = (some_nodes, inl refl)
      choose true (some count) =
          (ground (arith, some_nodes, low, ordered), inr (ground (arith, some_nodes, low, ordered)))

  module _ (threshold : f.Float) (P : Key → Type 0) (limit : ℕ) (apart : Apart hash P limit)
      (low : c.default_replicas ≤ limit) (high : c.max_replicas ≤ limit) where
    -- Whatever the balancer does, a node with virtual nodes keeps some, and where it gets another number
    -- of them, the number is within the limits of the configuration, where the lower limit is positive
    -- and not above the upper one. Each of that number stands on the ring as a virtual node of the node.
    -- The ring is one to which a node was added only while it had no virtual nodes, the named nodes'
    -- virtual nodes have hashes of their own, and the limit is not below the default and the maximal
    -- number of them.
    pub check_and_rebalance-bounds :
        (r : HashRing) (order : List (Key × Int64)) (m : Key)
        → Fleet hash f c threshold P r
        → Keyed order
        → 0 < c.min_replicas
        → c.min_replicas ≤ c.max_replicas
        → 0 < replicas r m
        → (0 < replicas (check_and_rebalance f hash c threshold r order) m)
          × ((replicas (check_and_rebalance f hash c threshold r order) m ≡ replicas r m)
              ⊎ ((c.min_replicas ≤ replicas (check_and_rebalance f hash c threshold r order) m)
                  × (replicas (check_and_rebalance f hash c threshold r order) m ≤ c.max_replicas)))
          × ((j : ℕ)
              → j < replicas (check_and_rebalance f hash c threshold r order) m
              → (has
                    (hash_virtual_node hash m j)
                    (check_and_rebalance f hash c threshold r order).keys
                  ≡ true)
                × (find ℕ_discrete
                      (hash_virtual_node hash m j)
                      (check_and_rebalance f hash c threshold r order).hash_map
                    ≡ some m))
    check_and_rebalance-bounds r order m l k least ordered some_nodes =
        let (kept, within) = counted-bounds threshold r order m k least ordered some_nodes in
        let exact = Fleet-IsExact hash f c threshold P limit apart low high (balanced order l) in
        (kept, within, exact.placed m)

    -- The order in which Go iterates the map of counts makes no difference to where a key is served
    -- after the balancer has run, on a ring to which a node was added only while it had no virtual
    -- nodes, where the named nodes' virtual nodes have hashes of their own, the limit is not below the
    -- default and the maximal number of them, and the largest deviation is the same in both orders.
    pub get-check_and_rebalance :
        (r : HashRing) (order other : List (Key × Int64)) (a : ℕ) (key : Key)
        → Fleet hash f c threshold P r
        → Keyed order
        → Keyed other
        → ((m : Key) → find key_dec m order ≡ find key_dec m other)
        → max_deviation f (average r) (f.of_int 0) order
          ≡ max_deviation f (average r) (f.of_int 0) other
        → (HashRing.get hash (check_and_rebalance f hash c threshold r order) (a ∷ key)).1
          ≡ (HashRing.get hash (check_and_rebalance f hash c threshold r other) (a ∷ key)).1
    get-check_and_rebalance r order other a key l k k' same deviation =
        get-Fleet hash f c threshold P limit apart low high
          (check_and_rebalance f hash c threshold r order)
          (check_and_rebalance f hash c threshold r other) (balanced order l) (balanced other l)
          (λ m.
            check_and_rebalance-replicas threshold r order m k
            ∙ (ap
                  (λ d.
                    if (if ltb r.total_requests min_sample_size then false else f.gt d threshold)
                    then balanced_to (average r) (replicas r m) (find key_dec m order)
                    else replicas r m)
                  deviation
                ∙ (ap
                      (λ o.
                        if triggers threshold r other
                        then balanced_to (average r) (replicas r m) o
                        else replicas r m)
                      (same m)
                    ∙ sym (check_and_rebalance-replicas threshold r other m k'))))
          a key
