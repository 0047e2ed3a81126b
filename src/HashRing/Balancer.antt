-- ===== src/HashRing/Balancer.antt =====
-- consistenthash/balancer.go. The floating-point numbers are the parameter `Floats`.
use my_cache_go.Common.{
  ℕ, List, [], ◌∷◌, Option, none, some, Bool, if◌then◌else◌, ◌==◌, ltb, length, map, Key, key_dec,
}
use my_cache_go.Common.Int64.{Int64}
use my_cache_go.Common.Dict
use my_cache_go.HashRing.{HashRing, Config, or_zero, remove_node_unlocked, add_node, sort_keys}

-- float64 with what the balancer does with it. `to_int` is applied to what is not negative alone.
pub record Floats : Type 1 where
  pub Float : Type 0
  pub of_int : ℕ → Float
  pub div : Float → Float → Float
  pub mul : Float → Float → Float
  pub sub : Float → Float → Float
  pub abs : Float → Float
  pub gt : Float → Float → Bool
  pub to_int : Float → ℕ

abbrev pub min_sample_size : ℕ
min_sample_size = 1000

-- The limits that `rebalanceNodes` puts on a number of virtual nodes, in its order.
unfoldable pub clamp : Config → ℕ → ℕ
clamp c n =
    let m = if ltb n c.min_replicas then c.min_replicas else n in
    if ltb c.max_replicas m then c.max_replicas else m

unfoldable pub reset_counts : List (Key × Int64) → List (Key × Int64)
reset_counts [] = []
reset_counts ((node, n) ∷ counts) = (node, 0) ∷ reset_counts counts

module _ (f : Floats) where
  open f use {Float, of_int, div, mul, sub, abs, gt, to_int}

  unfoldable pub max_deviation : Float → Float → List (Key × Int64) → Float
  max_deviation avg max [] = max
  max_deviation avg max ((node, count) ∷ counts) =
      let deviation = div (abs (sub (of_int count) avg)) avg in
      max_deviation avg (if gt deviation max then deviation else max) counts

  -- The new number of virtual nodes before the limits.
  unfoldable pub wanted : Float → ℕ → Int64 → ℕ
  wanted avg current count =
      let ratio = div (of_int count) avg in
      if gt ratio (of_int 1)
      then to_int (div (of_int current) ratio)
      else to_int (mul (of_int current) (sub (of_int 2) ratio))

  module _ (hash : Key → ℕ) (c : Config) where
    abbrev pub readd : HashRing → Option HashRing → Key → ℕ → HashRing
    readd r none node n = r
    readd r (some r') node n = add_node hash r' node n

    -- The body of the loop of `rebalanceNodes` for one node.
    unfoldable pub rebalance_node : Float → HashRing → Key → Int64 → HashRing
    rebalance_node avg r node count =
        let current = or_zero (Dict.find key_dec node r.node_replicas) in
        let n = clamp c (wanted avg current count) in
        if n == current then r else readd r (remove_node_unlocked hash r node) node n

    unfoldable pub rebalance_each : Float → HashRing → List (Key × Int64) → HashRing
    rebalance_each avg r [] = r
    rebalance_each avg r ((node, count) ∷ counts) =
        rebalance_each avg (rebalance_node avg r node count) counts

    -- `rebalanceNodes`; `order` is the map of counts in the order of the iteration.
    unfoldable pub rebalance_nodes : HashRing → List (Key × Int64) → HashRing
    rebalance_nodes r order =
        let avg = div (of_int r.total_requests) (of_int (length r.node_replicas)) in
        let r' = rebalance_each avg r order in
        sort_keys (record r' { node_counts = reset_counts r'.node_counts; total_requests = 0 })

    -- `checkAndRebalance`, with the threshold of the configuration.
    unfoldable pub check_and_rebalance : Float → HashRing → List (Key × Int64) → HashRing
    check_and_rebalance threshold r order =
        let avg = div (of_int r.total_requests) (of_int (length r.node_replicas)) in
        if ltb r.total_requests min_sample_size
        then r
        else if gt (max_deviation avg (of_int 0) order) threshold
        then rebalance_nodes r order
        else r

  -- `GetStats`.
  unfoldable pub get_stats : HashRing → List (Key × Float)
  get_stats r =
      if r.total_requests == 0
      then []
      else map (λ p. (p.0, div (of_int p.1) (of_int r.total_requests))) r.node_counts
