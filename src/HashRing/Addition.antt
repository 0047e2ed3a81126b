-- ===== src/HashRing/Addition.antt =====
-- The owners of the keys before and after a node is added, consistenthash/ring.go.
use my_cache_go.Common.{
  ℕ, zero, suc, ◌≡◌, refl, ap, sym, subst, ◌∙◌, ◌⊎◌, List, [], ◌∷◌, ◌++◌, some, Option-cases, false,
  ◌||◌, if◌then◌else◌, Bool-cases, inl, inr, Key, ℕ_discrete, arith,
}
use my_cache_go.Common.Dict
use my_cache_go.Common.Dict.{find, find-insert}
use my_cache_go.HashRing
use my_cache_go.HashRing.{
  HashRing, Config, or_empty, sort_ints, sort_keys, hash_virtual_node, add_replicas, add_node,
  add_nodes, add,
}
use my_cache_go.HashRing.Sorted.{Sorted, sort_ints-Sorted}
use my_cache_go.HashRing.Owner.{owner_key, owner, get-owner}
use my_cache_go.HashRing.Order.{
  has, has-append, has-sort_ints, owner_key-IsOwner, owner_key-of_IsOwner, IsOwner-part,
  owner_key-none,
}

module _ (hash : Key → ℕ) (node : Key) where
  -- The hashes of the virtual nodes from the one numbered `i` on.
  unfoldable pub points : ℕ → ℕ → List ℕ
  points zero i = []
  points (suc n) i = hash_virtual_node hash node i ∷ points n (suc i)

  pub has-add_replicas :
      (n i : ℕ) (r : HashRing) (x : ℕ)
      → has x (add_replicas hash n i node r).keys ≡ (has x r.keys || has x (points n i))
  unfolding add_replicas points has
  has-add_replicas zero i r x = ground arith
  has-add_replicas (suc n) i r x = ground (
    arith,
    has-add_replicas n (suc i)
        (record r {
          keys = r.keys ++ hash_virtual_node hash node i ∷ [];
          hash_map = Dict.insert ℕ_discrete (hash_virtual_node hash node i) node r.hash_map;
        })
        x,
    has-append x r.keys (hash_virtual_node hash node i ∷ []),
  )

  pub find-add_replicas :
      (n i : ℕ) (r : HashRing) (x : ℕ)
      → find ℕ_discrete x (add_replicas hash n i node r).hash_map
        ≡ (if has x (points n i) then some node else find ℕ_discrete x r.hash_map)
  unfolding add_replicas points has
  find-add_replicas zero i r x = refl
  find-add_replicas (suc n) i r x = ground (
    arith,
    find-add_replicas n (suc i)
        (record r {
          keys = r.keys ++ hash_virtual_node hash node i ∷ [];
          hash_map = Dict.insert ℕ_discrete (hash_virtual_node hash node i) node r.hash_map;
        })
        x,
    find-insert ℕ_discrete (hash_virtual_node hash node i) x node r.hash_map,
  )

module _ (hash : Key → ℕ) (c : Config) where
  -- The ring that `Add` of one node gives.
  added :
      (r r' : HashRing) (b : ℕ) (name : Key)
      → add hash c r ((b ∷ name) ∷ []) ≡ some r'
      → (r'.keys ≡ sort_ints (add_replicas hash c.default_replicas 0 (b ∷ name) r).keys)
        × (r'.hash_map ≡ (add_replicas hash c.default_replicas 0 (b ∷ name) r).hash_map)
  unfolding add add_nodes add_node sort_keys
  added r r' b name e = (ground (arith, e), ground (arith, e))

  module _ (r r' : HashRing) (b : ℕ) (name : Key) (h : ℕ) (sorted : Sorted r.keys)
      (e : add hash c r ((b ∷ name) ∷ []) ≡ some r') where
    abbrev fresh : List ℕ
    fresh = points hash (b ∷ name) c.default_replicas 0

    has-added : (y : ℕ) → has y r'.keys ≡ (has y r.keys || has y fresh)
    has-added y =
        ap (has y) (added r r' b name e).0
        ∙ (has-sort_ints y (add_replicas hash c.default_replicas 0 (b ∷ name) r).keys
            ∙ has-add_replicas hash (b ∷ name) c.default_replicas 0 r y)

    find-added :
        (y : ℕ)
        → find ℕ_discrete y r'.hash_map
          ≡ (if has y fresh then some (b ∷ name) else find ℕ_discrete y r.hash_map)
    find-added y =
        ap (find ℕ_discrete y) (added r r' b name e).1
        ∙ find-add_replicas hash (b ∷ name) c.default_replicas 0 r y

    sorted' : Sorted r'.keys
    sorted' = subst Sorted (sym (added r r' b name e).0) (sort_ints-Sorted _)

    stays :
        (x : ℕ) → owner_key r'.keys h ≡ some x → has x fresh ≡ false → owner_key r.keys h ≡ some x
    stays x q f =
        let o = owner_key-IsOwner h x r'.keys sorted' q in
        owner_key-of_IsOwner h x r.keys sorted (
          IsOwner-part h x r.keys fresh r'.keys has-added o
            (ground (arith, has-added x, o.member, f)))

    owner-add : (owner r' h ≡ owner r h) ⊎ (owner r' h ≡ b ∷ name)
    unfolding owner
    owner-add = elim (Option-cases (owner_key r'.keys h)) [
      | inl n ↦ elim (Option-cases (owner_key r.keys h)) [
        | inl m ↦ inl (ground (arith, n, m))
        | inr (y, m) ↦ absurd (
            ground (
              arith,
              owner_key-none h y r'.keys n,
              has-added y,
              (owner_key-IsOwner h y r.keys sorted m).member,
            ))
      ]
      | inr (x, q) ↦ elim (Bool-cases (has x fresh)) [
        | inl f ↦ inr (ground (arith, q, f, find-added x))
        | inr f ↦ inl (ground (arith, q, f, find-added x, stays x q f))
      ]
    ]

  -- When a node is added to a sorted ring, every key stays with the node that served it or goes to
  -- the new node.
  pub get-add :
      (r r' : HashRing) (b : ℕ) (name : Key) (a : ℕ) (key : Key)
      → Sorted r.keys
      → add hash c r ((b ∷ name) ∷ []) ≡ some r'
      → ((HashRing.get hash r' (a ∷ key)).1 ≡ (HashRing.get hash r (a ∷ key)).1)
        ⊎ ((HashRing.get hash r' (a ∷ key)).1 ≡ b ∷ name)
  get-add r r' b name a key sorted e = elim (owner-add r r' b name (hash (a ∷ key)) sorted e) [
    | inl same ↦ inl (new ∙ (same ∙ sym (get-owner hash r a key sorted)))
    | inr moved ↦ inr (new ∙ moved)
  ]
    where
      new : (HashRing.get hash r' (a ∷ key)).1 ≡ owner r' (hash (a ∷ key))
      new = get-owner hash r' a key (sorted' r r' b name (hash (a ∷ key)) sorted e)
