-- ===== src/HashRing/Steps.antt =====
-- The rings that the calls of a program can reach from `New`, with the ticks of the balancer.
use my_cache_go.Common.{
  ℕ, ◌≡◌, ◌≤◌, refl, sym, subst, List, [], ◌∷◌, some, Bool, true, false, if◌then◌else◌, ltb, length,
  Key, arith,
}
use my_cache_go.Common.Int64.{Int64}
use my_cache_go.HashRing
use my_cache_go.HashRing.{HashRing, Config, add, add_nodes, remove, new, sort_ints, sort_keys}
use my_cache_go.HashRing.Balancer.{
  Floats, clamp, check_and_rebalance, rebalance_nodes, min_sample_size, max_deviation,
}
use my_cache_go.HashRing.Sorted.{Sorted, sort_ints-Sorted}
use my_cache_go.HashRing.Owner.{owner, get-owner}
use my_cache_go.HashRing.Removal.{remove-Sorted}

-- The limits on the number of virtual nodes hold after `rebalanceNodes` has chosen it.
pub clamp_lem :
    (c : Config) (n : ℕ)
    → c.min_replicas ≤ c.max_replicas
    → (c.min_replicas ≤ clamp c n) × (clamp c n ≤ c.max_replicas)
unfolding clamp
clamp_lem c n p = (ground arith, ground arith)

module _ (hash : Key → ℕ) (f : Floats) (c : Config) (threshold : f.Float) where
  pub data Reachable : HashRing → Type 0 where
    made : Reachable new
    added :
        {r r' : HashRing} (nodes : List Key)
        → Reachable r
        → add hash c r nodes ≡ some r'
        → Reachable r'
    left :
        {r r' : HashRing} (node : Key) → Reachable r → remove hash r node ≡ some r' → Reachable r'
    asked : {r : HashRing} (key : Key) → Reachable r → Reachable (HashRing.get hash r key).0
    ticked :
        {r : HashRing} (order : List (Key × Int64))
        → Reachable r
        → Reachable (check_and_rebalance f hash c threshold r order)

  add-Sorted : (r r' : HashRing) (nodes : List Key) → add hash c r nodes ≡ some r' → Sorted r'.keys
  add-Sorted r r' [] e = absurd (unfold add in ground (arith, e))
  add-Sorted r r' (n ∷ nodes) e =
      subst Sorted keys (sort_ints-Sorted (add_nodes hash c r (n ∷ nodes)).keys)
    where
      keys : sort_ints (add_nodes hash c r (n ∷ nodes)).keys ≡ r'.keys
      keys = unfold add sort_keys in ground (arith, e)

  get-keys : (r : HashRing) (key : Key) → (HashRing.get hash r key).0.keys ≡ r.keys
  unfolding HashRing.get
  get-keys r [] = refl
  get-keys r (b ∷ key) = ground arith

  if-Sorted :
      (t : Bool) (p q : HashRing) → Sorted p.keys → Sorted q.keys → Sorted (if t then p else q).keys
  if-Sorted true p q s t = s
  if-Sorted false p q s t = t

  tick-Sorted :
      (r : HashRing) (order : List (Key × Int64))
      → Sorted r.keys
      → Sorted (check_and_rebalance f hash c threshold r order).keys
  unfolding check_and_rebalance rebalance_nodes sort_keys
  tick-Sorted r order s = if-Sorted (ltb r.total_requests min_sample_size) r _ s (
      if-Sorted (f.gt (max_deviation f avg (f.of_int 0) order) threshold)
        (rebalance_nodes f hash c r order) r (sort_ints-Sorted _) s)
    where
      avg : f.Float
      avg = f.div (f.of_int r.total_requests) (f.of_int (length r.node_replicas))

  -- The keys of every reachable ring are sorted.
  pub Reachable-Sorted : {r : HashRing} → Reachable r → Sorted r.keys
  Reachable-Sorted made = tt
  Reachable-Sorted (added {r} {r'} nodes q e) = add-Sorted r r' nodes e
  Reachable-Sorted (left {r} {r'} node q e) = remove-Sorted hash r r' node e (Reachable-Sorted q)
  Reachable-Sorted (asked {r} key q) = subst Sorted (sym (get-keys r key)) (Reachable-Sorted q)
  Reachable-Sorted (ticked {r} order q) = tick-Sorted r order (Reachable-Sorted q)

  -- `Get` on a reachable ring returns the owner of the key's hash.
  pub Reachable-get :
      {r : HashRing} (b : ℕ) (key : Key)
      → Reachable r
      → (HashRing.get hash r (b ∷ key)).1 ≡ owner r (hash (b ∷ key))
  Reachable-get {r} b key q = get-owner hash r b key (Reachable-Sorted q)
