-- ===== src/HashRing/Exact.antt =====
-- A ring beside the virtual nodes of its nodes, where no two virtual nodes have one hash.
pub mod Leaving
pub mod Moves
use my_cache_go.Common.{
  ℕ, zero, suc, ◌+◌, ◌≤◌, ◌<◌, ◌≡◌, ◌≢◌, refl, ap, sym, subst, ◌∙◌, List, [], ◌∷◌, ◌++◌, Option,
  none, some, Option-cases, Bool, true, false, not, ◌&&◌, ◌||◌, Bool-cases, inl, inr, if◌then◌else◌,
  ◌==◌, ite, if_pos, if_neg, Key, key_dec, ℕ_discrete, arith,
}
use mathlib.Core.List.{append-nil, append_assoc}
use my_cache_go.Common.Dict
use my_cache_go.Common.Dict.{find, find-delete}
use my_cache_go.HashRing.{
  HashRing, or_zero, remove_key, hash_virtual_node, add_replicas, add_node, remove_replicas,
  remove_node_unlocked,
}
use my_cache_go.HashRing.Order.{has, has-append}
use my_cache_go.HashRing.Addition.{points, has-add_replicas}
use my_cache_go.HashRing.Members.{points-has, map-add_node, replicas-add_node, removed}
use my_cache_go.HashRing.Absent.{replicas, remove_node_unlocked-replicas}
use my_cache_go.HashRing.Distinct.{Once, Once-append, has-remove_key, Once-remove_key}

module _ (hash : Key → ℕ) where
  pub has-points :
      (node : Key) (n i j : ℕ)
      → i ≤ j
      → j < i + n
      → has (hash_virtual_node hash node j) (points hash node n i) ≡ true
  unfolding has points
  has-points node zero i j p q = absurd (omega (arith, p, q))
  has-points node (suc n) i j p q = elim (ℕ_discrete i j) [
    | yes e ↦ ground (arith, ap (hash_virtual_node hash node) e)
    | no ne ↦ ground (arith, has-points node n (suc i) j (omega (arith, p, ne)) (omega (arith, q)))
  ]

  pub points-from :
      (node : Key) (n i x : ℕ)
      → has x (points hash node n i) ≡ true
      → (j : ℕ) × (i ≤ j) × (j < i + n) × (x ≡ hash_virtual_node hash node j)
  unfolding points has
  points-from node zero i x h = absurd (cc)
  points-from node (suc n) i x h = elim (Bool-cases (x == hash_virtual_node hash node i)) [
    | inl e ↦ (i, omega arith, omega arith, ground (arith, e))
    | inr e ↦
        let (j, lo, hi, q) = points-from node n (suc i) x (ground (arith, e, h)) in
        (j, omega (arith, lo), omega (arith, hi), q)
  ]

  pub keys-add_replicas :
      (n i : ℕ) (node : Key) (r : HashRing)
      → (add_replicas hash n i node r).keys ≡ r.keys ++ points hash node n i
  unfolding add_replicas points
  keys-add_replicas zero i node r = sym (append-nil r.keys)
  keys-add_replicas (suc n) i node r =
      keys-add_replicas n (suc i) node _
      ∙ append_assoc r.keys (hash_virtual_node hash node i ∷ []) (points hash node n (suc i))

  -- What is left of the keys and of the map.
  pub keys-remove_replicas :
      (n i : ℕ) (node : Key) (r : HashRing)
      → Once r.keys
      → Once (remove_replicas hash n i node r).keys
        × ((y : ℕ)
            → has y (remove_replicas hash n i node r).keys
              ≡ (has y r.keys && not (has y (points hash node n i))))
  unfolding remove_replicas points has
  keys-remove_replicas zero i node r o = (o, λ y. ground arith)
  keys-remove_replicas (suc n) i node r o =
      let (once, rest) =
        keys-remove_replicas n (suc i) node
          (record r {
            hash_map = Dict.delete ℕ_discrete (hash_virtual_node hash node i) r.hash_map;
            keys = remove_key (hash_virtual_node hash node i) r.keys;
          })
          (Once-remove_key (hash_virtual_node hash node i) r.keys o) in
      (once, λ y. ground (arith, rest y, has-remove_key (hash_virtual_node hash node i) y r.keys o))

  pub map-remove_replicas :
      (n i : ℕ) (node : Key) (r : HashRing) (y : ℕ)
      → find ℕ_discrete y (remove_replicas hash n i node r).hash_map
        ≡ (if has y (points hash node n i) then none else find ℕ_discrete y r.hash_map)
  unfolding remove_replicas points has
  map-remove_replicas zero i node r y = refl
  map-remove_replicas (suc n) i node r y = ground (
    arith,
    map-remove_replicas n (suc i) node
        (record r {
          hash_map = Dict.delete ℕ_discrete (hash_virtual_node hash node i) r.hash_map;
          keys = remove_key (hash_virtual_node hash node i) r.keys;
        })
        y,
    find-delete ℕ_discrete (hash_virtual_node hash node i) y r.hash_map,
  )

  -- The virtual nodes below `limit` of the named nodes have hashes of their own.
  abbrev pub Apart : (Key → Type 0) → ℕ → Type 0
  Apart P limit =
      (m n : Key) (i j : ℕ)
      → P m
      → P n
      → i < limit
      → j < limit
      → hash_virtual_node hash m i ≡ hash_virtual_node hash n j
      → (m ≡ n) × (i ≡ j)

  pub record IsExact (P : Key → Type 0) (limit : ℕ) (r : HashRing) : Type 0 where
    pub named : (m : Key) → 0 < replicas r m → P m
    pub few : (m : Key) → replicas r m ≤ limit
    pub once : Once r.keys
    pub keyed :
        (y : ℕ)
        → has y r.keys ≡ true
        → (m : Key) × (j : ℕ) × (j < replicas r m) × (y ≡ hash_virtual_node hash m j)
    pub placed :
        (m : Key) (j : ℕ)
        → j < replicas r m
        → (has (hash_virtual_node hash m j) r.keys ≡ true)
          × (find ℕ_discrete (hash_virtual_node hash m j) r.hash_map ≡ some m)
