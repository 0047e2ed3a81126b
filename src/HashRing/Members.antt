-- ===== src/HashRing/Members.antt =====
-- The nodes of a ring and the entries of its map of hashes, consistenthash/ring.go.
use my_cache_go.Common.{
  ℕ, zero, suc, ◌+◌, ◌<◌, ◌≡◌, ◌≢◌, refl, ap, sym, subst, ◌∙◌, none, some, true, if◌then◌else◌,
  ◌==◌, Bool-cases, inl, inr, ite, if_pos, if_neg, Key, key_dec, ℕ_discrete, arith,
}
use my_cache_go.Common.Dict
use my_cache_go.Common.Dict.{find, find-insert, find-delete}
use my_cache_go.HashRing.{
  HashRing, or_zero, hash_virtual_node, add_replicas, add_node, remove_replicas,
  remove_node_unlocked,
}
use my_cache_go.HashRing.Order.{has}
use my_cache_go.HashRing.Addition.{points, find-add_replicas}
use my_cache_go.HashRing.Removal.{remove_replicas-Placed}

module _ (hash : Key → ℕ) where
  -- Every entry of the map is one of the virtual nodes of a node.
  pub record Tidy (r : HashRing) : Type 0 where
    pub placed :
        (x : ℕ) (m : Key)
        → find ℕ_discrete x r.hash_map ≡ some m
        → (j : ℕ) × (j < or_zero (find key_dec m r.node_replicas))
          × (x ≡ hash_virtual_node hash m j)

  pub points-has :
      (node : Key) (n i x : ℕ)
      → has x (points hash node n i) ≡ true
      → (j : ℕ) × (j < i + n) × (x ≡ hash_virtual_node hash node j)
  unfolding points has
  points-has node zero i x h = absurd (cc)
  points-has node (suc n) i x h = elim (Bool-cases (x == hash_virtual_node hash node i)) [
    | inl e ↦ (i, omega arith, ground (arith, e))
    | inr e ↦
        let (j, l, q) = points-has node n (suc i) x (ground (arith, e, h)) in (j, omega arith, q)
  ]

  add_replicas-replicas :
      (n i : ℕ) (node : Key) (r : HashRing)
      → (add_replicas hash n i node r).node_replicas ≡ r.node_replicas
  unfolding add_replicas
  add_replicas-replicas zero i node r = refl
  add_replicas-replicas (suc n) i node r = add_replicas-replicas n (suc i) node _

  find-remove_replicas :
      (n i : ℕ) (node : Key) (r : HashRing) (x : ℕ) (m : Key)
      → find ℕ_discrete x (remove_replicas hash n i node r).hash_map ≡ some m
      → find ℕ_discrete x r.hash_map ≡ some m
  unfolding remove_replicas
  find-remove_replicas zero i node r x m h = h
  find-remove_replicas (suc n) i node r x m h = ground (
    arith,
    find-remove_replicas n (suc i) node _ x m h,
    find-delete ℕ_discrete (hash_virtual_node hash node i) x r.hash_map,
  )

  remove_replicas-replicas :
      (n i : ℕ) (node : Key) (r : HashRing)
      → (remove_replicas hash n i node r).node_replicas ≡ r.node_replicas
  unfolding remove_replicas
  remove_replicas-replicas zero i node r = refl
  remove_replicas-replicas (suc n) i node r = remove_replicas-replicas n (suc i) node _

  -- How many virtual nodes a node has after one was added.
  pub replicas-add_node :
      (r : HashRing) (node : Key) (n : ℕ) (m : Key)
      → or_zero (find key_dec m (add_node hash r node n).node_replicas)
        ≡ ite (key_dec node m) n (or_zero (find key_dec m r.node_replicas))
  unfolding add_node
  replicas-add_node r node n m =
      ap (λ l. or_zero (find key_dec m (Dict.insert key_dec node n l)))
        (add_replicas-replicas n 0 node r)
      ∙ ground (arith, find-insert key_dec node m n r.node_replicas)

  pub map-add_node :
      (r : HashRing) (node : Key) (n x : ℕ)
      → find ℕ_discrete x (add_node hash r node n).hash_map
        ≡ (if has x (points hash node n 0) then some node else find ℕ_discrete x r.hash_map)
  unfolding add_node
  map-add_node r node n x = find-add_replicas hash node n 0 r x

  -- Where an entry of the map stands, for its node.
  abbrev At : HashRing → ℕ → Key → Type 0
  At r x m =
      (j : ℕ) × (j < or_zero (find key_dec m r.node_replicas)) × (x ≡ hash_virtual_node hash m j)

  pub add_node-Tidy :
      (r : HashRing) (node : Key) (n : ℕ)
      → Tidy r
      → or_zero (find key_dec node r.node_replicas) ≡ 0
      → Tidy (add_node hash r node n)
  add_node-Tidy r node n t absent = record {
    placed = λ x m h. elim (Bool-cases (has x (points hash node n 0))) [
      | inl p ↦
          let same = let t : node ≡ m = ground (arith, h, p, map-add_node r node n x) in t in
          subst (At (add_node hash r node n) x) same (
            let (j, l, q) = points-has node n 0 x p in
            (
              j,
              subst (λ k. j < k)
                  (sym (replicas-add_node r node n node ∙ if_pos (key_dec node node) refl _ _))
                  (omega (arith, l)),
              q,
            ))
      | inr p ↦
          let (j, l, q) = t.placed x m (
            let u : find ℕ_discrete x r.hash_map ≡ some m =
              ground (arith, h, p, map-add_node r node n x) in
            u) in
          let other = let u : node ≢ m = λ same. absurd (ground (arith, absent, l, same)) in u in
          (
            j,
            subst (λ k. j < k)
                (sym (replicas-add_node r node n m ∙ if_neg (key_dec node m) other _ _)) l,
            q,
          )
    ];
  }

  pub removed :
      (r r' : HashRing) (node : Key)
      → remove_node_unlocked hash r node ≡ some r'
      → (r'.hash_map
          ≡ (remove_replicas hash (or_zero (find key_dec node r.node_replicas)) 0 node r).hash_map)
        × (r'.node_replicas ≡ Dict.delete key_dec node r.node_replicas)
  unfolding remove_node_unlocked
  removed r r' node e = (
    ground (arith, e),
    ground (
      arith,
      e,
      ap (Dict.delete key_dec node)
          (remove_replicas-replicas (or_zero (find key_dec node r.node_replicas)) 0 node r),
    ),
  )

  pub remove_node_unlocked-Tidy :
      (r r' : HashRing) (node : Key)
      → Tidy r
      → remove_node_unlocked hash r node ≡ some r'
      → Tidy r' × (find key_dec node r'.node_replicas ≡ none)
  remove_node_unlocked-Tidy r r' node t e =
      let (map_eq, replicas_eq) = removed r r' node e in
      (
        record {
          placed = λ x m h.
              let k = ap (find ℕ_discrete x) (sym map_eq) ∙ h in
              let (j, l, q) = t.placed x m (
                find-remove_replicas (or_zero (find key_dec node r.node_replicas)) 0 node r x m
                  k) in
              let other =
                let u : node ≢ m = λ same.
                  remove_replicas-Placed hash (or_zero (find key_dec node r.node_replicas)) 0 node r
                    (λ y g.
                      let (i, b, p) = t.placed y node g in (i, omega arith, omega (arith, b), p))
                    x (k ∙ ap some (sym same)) in
                u in
              (
                j,
                subst (λ n. j < n)
                    (sym (
                      ap (λ l. or_zero (find key_dec m l)) replicas_eq
                      ∙ ap or_zero (
                          find-delete key_dec node m r.node_replicas
                          ∙ if_neg (key_dec node m) other _ _)))
                    l,
                q,
              );
        },
        ap (find key_dec node) replicas_eq
            ∙ (find-delete key_dec node node r.node_replicas ∙ if_pos (key_dec node node) refl _ _),
      )
