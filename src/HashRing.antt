-- ===== src/HashRing.antt =====
-- `HashRing` of consistenthash/ring.go. A node name is a string, and the hash function of the
-- configuration, a uint32 of some bytes, is the parameter `hash`.
pub mod Search
pub mod Absent
pub mod Addition
pub mod Balancer
pub mod Distinct
pub mod Exact
pub mod Fleet
pub mod Life
pub mod Members
pub mod Order
pub mod Owner
pub mod Rebalance
pub mod Removal
pub mod Sorted
pub mod Steps
mod FleetTests
mod Tests
use my_cache_go.Common.{
  ℕ, zero, suc, ◌+◌, ◌/◌, ◌%◌, List, [], ◌∷◌, ◌++◌, Option, none, some, if◌then◌else◌, ◌==◌, ltb,
  leb, ite, length, get_or, Key, key_dec, ℕ_discrete,
}
use my_cache_go.Common.Int64.{Int64, add64}
use my_cache_go.Common.Dict
use Search.{search}

pub record HashRing : Type 0 where
  pub keys : List ℕ
  pub hash_map : List (ℕ × Key)
  pub node_replicas : List (Key × ℕ)
  pub node_counts : List (Key × Int64)
  pub total_requests : Int64

-- The fields of `Config` that count virtual nodes.
pub record Config : Type 0 where
  pub default_replicas : ℕ
  pub min_replicas : ℕ
  pub max_replicas : ℕ

abbrev pub default_config : Config
default_config = record { default_replicas = 50; min_replicas = 10; max_replicas = 200 }

-- `New`, without the options and the goroutine of the balancer.
abbrev pub new : HashRing
new = record { keys = []; hash_map = []; node_replicas = []; node_counts = []; total_requests = 0 }

-- `%d`: the decimal digits, with fuel for each of them.
unfoldable pub decimal : ℕ → ℕ → List ℕ
decimal zero n = []
decimal (suc fuel) n =
    let rest = decimal fuel (n / 10) in
    if ltb n 10 then (b'0' + n) ∷ [] else rest ++ (b'0' + n % 10) ∷ []

-- `fmt.Sprintf("%s-%d", node, replicaIdx)`.
unfoldable pub virtual_key : Key → ℕ → Key
unfolding decimal
virtual_key node replica_idx = node ++ b'-' ∷ decimal (suc replica_idx) replica_idx

-- The value of a missing key of a map of strings or of numbers.
abbrev pub or_empty : Option Key → Key
or_empty none = []
or_empty (some k) = k

abbrev pub or_zero : Option ℕ → ℕ
or_zero none = 0
or_zero (some n) = n

abbrev pub insert_sorted : ℕ → List ℕ → List ℕ
insert_sorted x [] = x ∷ []
insert_sorted x (y ∷ ys) = if leb x y then x ∷ y ∷ ys else y ∷ insert_sorted x ys

-- `sort.Ints`: the one sorted arrangement of the numbers.
unfoldable pub sort_ints : List ℕ → List ℕ
sort_ints [] = []
sort_ints (x ∷ xs) = insert_sorted x (sort_ints xs)

-- The inner loop of `removeNodeUnlocked`: the first key that is the hash goes.
unfoldable pub remove_key : ℕ → List ℕ → List ℕ
remove_key h [] = []
remove_key h (k ∷ ks) = ite (ℕ_discrete k h) ks (k ∷ remove_key h ks)

unfoldable pub sort_keys : HashRing → HashRing
sort_keys r = record r { keys = sort_ints r.keys }

-- The index that `Get` reads the ring at.
unfoldable pub locate : List ℕ → ℕ → ℕ
locate keys h = let idx = search keys h in if idx == length keys then 0 else idx

module _ (hash : Key → ℕ) where
  unfoldable pub hash_virtual_node : Key → ℕ → ℕ
  hash_virtual_node node replica_idx = hash (virtual_key node replica_idx)

  -- The loop of `addNode`, with `n` rounds left and `i` done.
  unfoldable pub add_replicas : ℕ → ℕ → Key → HashRing → HashRing
  add_replicas zero i node r = r
  add_replicas (suc n) i node r =
      let h = hash_virtual_node node i in
      add_replicas n (suc i) node
        (record r { keys = r.keys ++ h ∷ []; hash_map = Dict.insert ℕ_discrete h node r.hash_map })

  unfoldable pub add_node : HashRing → Key → ℕ → HashRing
  unfolding add_replicas
  add_node r node replicas =
      let r' = add_replicas replicas 0 node r in
      record r' { node_replicas = Dict.insert key_dec node replicas r'.node_replicas }

  -- The loop of `Add`; an empty name is passed over.
  unfoldable pub add_nodes : Config → HashRing → List Key → HashRing
  add_nodes c r [] = r
  add_nodes c r ([] ∷ nodes) = add_nodes c r nodes
  add_nodes c r ((b ∷ node) ∷ nodes) = add_nodes c (add_node r (b ∷ node) c.default_replicas) nodes

  -- `Add`; `none` is the error "no nodes provided".
  unfoldable pub add : Config → HashRing → List Key → Option HashRing
  add c r [] = none
  add c r (n ∷ nodes) = some (sort_keys (add_nodes c r (n ∷ nodes)))

  -- The loop of `removeNodeUnlocked`, with `n` rounds left and `i` done.
  unfoldable pub remove_replicas : ℕ → ℕ → Key → HashRing → HashRing
  remove_replicas zero i node r = r
  remove_replicas (suc n) i node r =
      let h = hash_virtual_node node i in
      remove_replicas n (suc i) node
        (record r { hash_map = Dict.delete ℕ_discrete h r.hash_map; keys = remove_key h r.keys })

  -- `none` is the error "not found".
  unfoldable pub remove_node_unlocked : HashRing → Key → Option HashRing
  remove_node_unlocked r node =
      let replicas = or_zero (Dict.find key_dec node r.node_replicas) in
      let r' = remove_replicas replicas 0 node r in
      if replicas == 0
      then none
      else some (record r' {
        node_replicas = Dict.delete key_dec node r'.node_replicas;
        node_counts = Dict.delete key_dec node r'.node_counts;
      })

  -- `Remove`; `none` is either error.
  unfoldable pub remove : HashRing → Key → Option HashRing
  remove r [] = none
  remove r (b ∷ node) = remove_node_unlocked r (b ∷ node)

  -- `Get`: the ring with its counters, and the node, or the empty string.
  unfoldable pub get : HashRing → Key → HashRing × Key
  get r [] = (r, [])
  get r (b ∷ key) =
      let h = hash (b ∷ key) in
      let node = or_empty (Dict.find ℕ_discrete (get_or r.keys (locate r.keys h) 0) r.hash_map) in
      if length r.keys == 0 then (r, []) else (
        record r {
          node_counts =
              Dict.insert key_dec node (add64 (or_zero (Dict.find key_dec node r.node_counts)) 1)
                r.node_counts;
          total_requests = add64 r.total_requests 1;
        },
        node,
      )
