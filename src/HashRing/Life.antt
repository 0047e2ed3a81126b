-- ===== src/HashRing/Life.antt =====
-- The rings of a program that adds a node only while it has no virtual nodes in the ring, as the
-- picker of peers.go does on events.
use my_cache_go.Common.{
  ℕ, ◌<◌, ◌≡◌, ◌≢◌, refl, ap, sym, subst, ◌∙◌, List, [], ◌∷◌, Option, none, some, Option-cases,
  Bool, true, false, if◌then◌else◌, ◌==◌, inl, inr, Key, key_dec, ℕ_discrete, arith, ltb, length,
}
use my_cache_go.Common.Int64.{Int64}
use my_cache_go.Common.Dict.{find}
use my_cache_go.HashRing
use my_cache_go.HashRing.{
  HashRing, Config, new, or_empty, or_zero, sort_keys, add_node, add_nodes, add,
  remove_node_unlocked, remove,
}
use my_cache_go.HashRing.Balancer.{
  Floats, clamp, wanted, readd, rebalance_node, rebalance_each, rebalance_nodes,
  check_and_rebalance, min_sample_size, max_deviation,
}
use my_cache_go.HashRing.Owner.{owner, owner_key}
use my_cache_go.HashRing.Steps.{Reachable, made, added, left, asked, ticked, Reachable-get}
use my_cache_go.HashRing.Members.{Tidy, add_node-Tidy, remove_node_unlocked-Tidy}

module _ (hash : Key → ℕ) (f : Floats) (c : Config) (threshold : f.Float) where
  pub data Life : HashRing → Type 0 where
    born : Life new
    joined :
        {r r' : HashRing} (b : ℕ) (name : Key)
        → Life r
        → or_zero (find key_dec (b ∷ name) r.node_replicas) ≡ 0
        → add hash c r ((b ∷ name) ∷ []) ≡ some r'
        → Life r'
    unnamed : {r r' : HashRing} → Life r → add hash c r ([] ∷ []) ≡ some r' → Life r'
    parted : {r r' : HashRing} (node : Key) → Life r → remove hash r node ≡ some r' → Life r'
    queried : {r : HashRing} (key : Key) → Life r → Life (HashRing.get hash r key).0
    balanced :
        {r : HashRing} (order : List (Key × Int64))
        → Life r
        → Life (check_and_rebalance f hash c threshold r order)

  pub Life-Reachable : {r : HashRing} → Life r → Reachable hash f c threshold r
  Life-Reachable born = made
  Life-Reachable (joined b name l a e) = added ((b ∷ name) ∷ []) (Life-Reachable l) e
  Life-Reachable (unnamed l e) = added ([] ∷ []) (Life-Reachable l) e
  Life-Reachable (parted node l e) = left node (Life-Reachable l) e
  Life-Reachable (queried key l) = asked key (Life-Reachable l)
  Life-Reachable (balanced order l) = ticked order (Life-Reachable l)

  -- Rings with the same map and the same nodes.
  same-Tidy :
      (r r' : HashRing)
      → r'.hash_map ≡ r.hash_map
      → r'.node_replicas ≡ r.node_replicas
      → Tidy hash r
      → Tidy hash r'
  same-Tidy r r' p q t = record {
    placed = λ x m h.
        let (j, l, e) = t.placed x m (ap (find ℕ_discrete x) (sym p) ∙ h) in
        (j, subst (λ d. j < or_zero (find key_dec m d)) (sym q) l, e);
  }

  joined-Tidy :
      (r r' : HashRing) (b : ℕ) (name : Key)
      → or_zero (find key_dec (b ∷ name) r.node_replicas) ≡ 0
      → add hash c r ((b ∷ name) ∷ []) ≡ some r'
      → Tidy hash r
      → Tidy hash r'
  joined-Tidy r r' b name a e t =
      same-Tidy (add_node hash r (b ∷ name) c.default_replicas) r'
        (unfold add add_nodes sort_keys in ground (arith, e))
        (unfold add add_nodes sort_keys in ground (arith, e))
        (add_node-Tidy hash r (b ∷ name) c.default_replicas t a)

  removed-Tidy :
      (r r' : HashRing) (node : Key)
      → remove hash r node ≡ some r'
      → Tidy hash r
      → Tidy hash r' × (find key_dec node r'.node_replicas ≡ none)
  removed-Tidy r r' [] e t = absurd (unfold remove in ground (arith, e))
  removed-Tidy r r' (b ∷ name) e t =
      remove_node_unlocked-Tidy hash r r' (b ∷ name) t (unfold remove in e)

  rebalance_node-Tidy :
      (avg : f.Float) (r : HashRing) (node : Key) (count : Int64)
      → Tidy hash r
      → Tidy hash (rebalance_node f hash c avg r node count)
  unfolding rebalance_node
  rebalance_node-Tidy avg r node count t =
      if-Tidy (n == or_zero (find key_dec node r.node_replicas))
        (readd-Tidy (remove_node_unlocked hash r node) refl)
    where
      n : ℕ
      n = clamp c (wanted f avg (or_zero (find key_dec node r.node_replicas)) count)

      readd-Tidy :
          (o : Option HashRing)
          → remove_node_unlocked hash r node ≡ o
          → Tidy hash (readd f hash c r o node n)
      readd-Tidy none e = t
      readd-Tidy (some r') e =
          let (t', a) = remove_node_unlocked-Tidy hash r r' node t e in
          add_node-Tidy hash r' node n t' (ap or_zero a)

      if-Tidy : (b : Bool) {r' : HashRing} → Tidy hash r' → Tidy hash (if b then r else r')
      if-Tidy true t' = t
      if-Tidy false t' = t'

  rebalance_each-Tidy :
      (avg : f.Float) (r : HashRing) (counts : List (Key × Int64))
      → Tidy hash r
      → Tidy hash (rebalance_each f hash c avg r counts)
  unfolding rebalance_each
  rebalance_each-Tidy avg r [] t = t
  rebalance_each-Tidy avg r ((node, count) ∷ counts) t =
      rebalance_each-Tidy avg (rebalance_node f hash c avg r node count) counts
        (rebalance_node-Tidy avg r node count t)

  balanced-Tidy :
      (r : HashRing) (order : List (Key × Int64))
      → Tidy hash r
      → Tidy hash (check_and_rebalance f hash c threshold r order)
  unfolding check_and_rebalance rebalance_nodes sort_keys
  balanced-Tidy r order t =
      choose (ltb r.total_requests min_sample_size)
        (f.gt (max_deviation f avg (f.of_int 0) order) threshold)
        (same-Tidy (rebalance_each f hash c avg r order) _ refl refl
          (rebalance_each-Tidy avg r order t))
    where
      avg : f.Float
      avg = f.div (f.of_int r.total_requests) (f.of_int (length r.node_replicas))

      choose :
          (p q : Bool) {r' : HashRing}
          → Tidy hash r'
          → Tidy hash (if p then r else if q then r' else r)
      choose true q t' = t
      choose false true t' = t'
      choose false false t' = t

  get-Tidy : (r : HashRing) (key : Key) → Tidy hash r → Tidy hash (HashRing.get hash r key).0
  get-Tidy r [] t = unfold HashRing.get in t
  get-Tidy r (b ∷ key) t =
      same-Tidy r _ (unfold HashRing.get in ground arith) (unfold HashRing.get in ground arith) t

  pub Life-Tidy : {r : HashRing} → Life r → Tidy hash r
  Life-Tidy born = record { placed = λ x m h. absurd (unfold find in cc) }
  Life-Tidy (joined {r} {r'} b name l a e) = joined-Tidy r r' b name a e (Life-Tidy l)
  Life-Tidy (unnamed {r} {r'} l e) =
      same-Tidy r r' (unfold add add_nodes sort_keys in ground (arith, e))
        (unfold add add_nodes sort_keys in ground (arith, e)) (Life-Tidy l)
  Life-Tidy (parted {r} {r'} node l e) = (removed-Tidy r r' node e (Life-Tidy l)).0
  Life-Tidy (queried {r} key l) = get-Tidy r key (Life-Tidy l)
  Life-Tidy (balanced {r} order l) = balanced-Tidy r order (Life-Tidy l)

  owner-member :
      (r : HashRing) (h b : ℕ) (name : Key)
      → Tidy hash r
      → owner r h ≡ b ∷ name
      → 0 < or_zero (find key_dec (b ∷ name) r.node_replicas)
  unfolding owner
  owner-member r h b name t e = elim (Option-cases (owner_key r.keys h)) [
    | inl n ↦ absurd (ground (arith, e, n))
    | inr (x, n) ↦ elim (Option-cases (find ℕ_discrete x r.hash_map)) [
      | inl u ↦ absurd (ground (arith, e, n, u))
      | inr (m, u) ↦
          let same = let v : m ≡ b ∷ name = ground (arith, e, n, u) in v in
          let (j, l, q) = t.placed x (b ∷ name) (u ∙ ap some same) in omega (arith, l)
    ]
  ]

  -- On a ring to which each node was added while it had no virtual nodes there, `Get` returns a node
  -- that has virtual nodes there, or the empty string.
  pub get-member :
      {r : HashRing} (a : ℕ) (key : Key) (b : ℕ) (name : Key)
      → Life r
      → (HashRing.get hash r (a ∷ key)).1 ≡ b ∷ name
      → 0 < or_zero (find key_dec (b ∷ name) r.node_replicas)
  get-member {r} a key b name l e =
      owner-member r (hash (a ∷ key)) b name (Life-Tidy l)
        (sym (Reachable-get hash f c threshold a key (Life-Reachable l)) ∙ e)

  -- On a ring to which each node was added while it had no virtual nodes there, after `Remove` of a
  -- node, `Get` does not return that node for any key.
  pub get-remove :
      {r r' : HashRing} (b : ℕ) (name : Key) (a : ℕ) (key : Key)
      → Life r
      → remove hash r (b ∷ name) ≡ some r'
      → (HashRing.get hash r' (a ∷ key)).1 ≢ b ∷ name
  get-remove {r} {r'} b name a key l e q = gone (get-member a key b name (parted (b ∷ name) l e) q)
    where
      gone : 0 < or_zero (find key_dec (b ∷ name) r'.node_replicas) → ⊥
      gone p = ground (arith, p, (removed-Tidy r r' (b ∷ name) e (Life-Tidy l)).1)
