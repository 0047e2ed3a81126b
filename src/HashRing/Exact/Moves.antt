-- ===== src/HashRing/Exact/Moves.antt =====
-- The moves of `Add` and `Remove` of consistenthash/ring.go on an exact ring.
use my_cache_go.Common.{
  ℕ, zero, suc, ◌+◌, ◌≤◌, ◌<◌, ◌≡◌, ◌≢◌, refl, ap, sym, subst, ◌∙◌, ◌++◌, some, true, false, ◌||◌,
  Bool-cases, inl, inr, ite, if_pos, if_neg, Key, key_dec, ℕ_discrete, arith,
}
use my_cache_go.Common.Dict.{find}
use my_cache_go.HashRing.{HashRing, or_zero, hash_virtual_node, add_node}
use my_cache_go.HashRing.Order.{has, has-append}
use my_cache_go.HashRing.Addition.{points}
use my_cache_go.HashRing.Members.{map-add_node, replicas-add_node}
use my_cache_go.HashRing.Absent.{replicas}
use my_cache_go.HashRing.Distinct.{Once, Once-append}
use my_cache_go.HashRing.Exact.{has-points, points-from, keys-add_replicas, Apart, IsExact}

module _ (hash : Key → ℕ) (P : Key → Type 0) (limit : ℕ) (apart : Apart hash P limit) where
  Once-points : (node : Key) (n i : ℕ) → P node → i + n ≤ limit → Once (points hash node n i)
  unfolding points
  Once-points node zero i p l = tt
  Once-points node (suc n) i p l = (fresh, Once-points node n (suc i) p (omega (arith, l)))
    where
      fresh : has (hash_virtual_node hash node i) (points hash node n (suc i)) ≡ false
      fresh = elim (Bool-cases (has (hash_virtual_node hash node i) (points hash node n (suc i)))) [
        | inr e ↦ e
        | inl e ↦
            let (j, lo, hi, q) =
              points-from hash node n (suc i) (hash_virtual_node hash node i) e in
            let (_, same) = apart node node i j p p (omega (arith, l)) (omega (arith, l, hi)) q in
            absurd (omega (arith, lo, same))
      ]

  -- A virtual node of a node that has none in the ring does not stand in the ring.
  foreign :
      (r : HashRing) (node : Key) (n y : ℕ)
      → IsExact hash P limit r
      → P node
      → n ≤ limit
      → replicas r node ≡ 0
      → has y r.keys ≡ true
      → has y (points hash node n 0) ≡ false
  foreign r node n y v p l z h = elim (Bool-cases (has y (points hash node n 0))) [
    | inr e ↦ e
    | inl e ↦
        let (m, j, lt, q) = v.keyed y h in
        let (i, _, hi, q') = points-from hash node n 0 y e in
        let (same, _) =
          apart m node j i (v.named m (omega (arith, lt))) p (omega (arith, lt, v.few m))
            (omega (arith, hi, l)) (sym q ∙ q') in
        let s = ap (replicas r) same in absurd (omega (arith, lt, s, z))
  ]

  module _ (r : HashRing) (node : Key) (n : ℕ) (v : IsExact hash P limit r) (p : P node)
      (l : n ≤ limit) (z : replicas r node ≡ 0) where
    abbrev grown : HashRing
    grown = add_node hash r node n

    grown-replicas : (m : Key) → replicas grown m ≡ ite (key_dec node m) n (replicas r m)
    grown-replicas m = replicas-add_node hash r node n m

    grown-keys : grown.keys ≡ r.keys ++ points hash node n 0
    grown-keys = unfold add_node in keys-add_replicas hash n 0 node r

    grown-has : (y : ℕ) → has y grown.keys ≡ (has y r.keys || has y (points hash node n 0))
    grown-has y = ap (has y) grown-keys ∙ has-append y r.keys (points hash node n 0)

    other : (m : Key) (j : ℕ) → j < replicas r m → node ≢ m
    other m j lt same = let s = ap (replicas r) same in absurd (omega (arith, lt, s, z))

    grown-keyed :
        (y : ℕ)
        → has y grown.keys ≡ true
        → (m : Key) × (j : ℕ) × (j < replicas grown m) × (y ≡ hash_virtual_node hash m j)
    grown-keyed y h = elim (Bool-cases (has y (points hash node n 0))) [
      | inl e ↦
          let (j, _, hi, q) = points-from hash node n 0 y e in
          (
            node,
            j,
            subst (λ k. j < k) (sym (grown-replicas node ∙ if_pos (key_dec node node) refl _ _))
                (omega (arith, hi)),
            q,
          )
      | inr e ↦
          let (m, j, lt, q) = v.keyed y (ground (arith, h, e, grown-has y)) in
          (
            m,
            j,
            subst (λ k. j < k) (sym (grown-replicas m ∙ if_neg (key_dec node m) (other m j lt) _ _))
                lt,
            q,
          )
    ]

    grown-placed :
        (m : Key) (j : ℕ)
        → j < replicas grown m
        → (has (hash_virtual_node hash m j) grown.keys ≡ true)
          × (find ℕ_discrete (hash_virtual_node hash m j) grown.hash_map ≡ some m)
    grown-placed m j h = elim (key_dec node m) [
      | yes same ↦
          let lt =
            let t : j < n =
              subst (λ k. j < k) (grown-replicas m ∙ if_pos (key_dec node m) same _ _) h in
            t in
          let there =
            let t : has (hash_virtual_node hash m j) (points hash node n 0) ≡ true =
              subst (λ k. has (hash_virtual_node hash k j) (points hash node n 0) ≡ true) same
                (has-points hash node n 0 j (omega arith) (omega (arith, lt))) in
            t in
          (
            ground (arith, there, grown-has (hash_virtual_node hash m j)),
            ground (arith, there, same, map-add_node hash r node n (hash_virtual_node hash m j)),
          )
      | no ne ↦
          let (there, at) =
            v.placed m j
              (subst (λ k. j < k) (grown-replicas m ∙ if_neg (key_dec node m) ne _ _) h) in
          (
            ground (arith, there, grown-has (hash_virtual_node hash m j)),
            ground (
              arith,
              at,
              foreign r node n (hash_virtual_node hash m j) v p l z there,
              map-add_node hash r node n (hash_virtual_node hash m j),
            ),
          )
    ]

    pub add_node-IsExact : IsExact hash P limit grown
    add_node-IsExact = record {
      named = λ m h. elim (key_dec node m) [
        | yes same ↦ subst P same p
        | no ne ↦ v.named m (ground (arith, h, ne, grown-replicas m))
      ];
      few = λ m. ground (arith, l, v.few m, grown-replicas m);
      once = subst Once (sym grown-keys) (
          Once-append r.keys (points hash node n 0) v.once
            (Once-points node n 0 p (omega (arith, l))) (λ y h. foreign r node n y v p l z h));
      keyed = grown-keyed;
      placed = grown-placed;
    }

-- Another arrangement of the same keys.
pub same-IsExact :
    (hash : Key → ℕ) (P : Key → Type 0) (limit : ℕ) (r r' : HashRing)
    → IsExact hash P limit r
    → Once r'.keys
    → ((y : ℕ) → has y r'.keys ≡ has y r.keys)
    → r'.hash_map ≡ r.hash_map
    → r'.node_replicas ≡ r.node_replicas
    → IsExact hash P limit r'
same-IsExact hash P limit r r' v o k mp n = record {
  named = λ m h. v.named m (subst (λ x. 0 < x) (count m) h);
  few = λ m. subst (λ x. x ≤ limit) (sym (count m)) (v.few m);
  once = o;
  keyed = λ y h.
      let (m, j, lt, q) = v.keyed y (sym (k y) ∙ h) in
      (m, j, subst (λ x. j < x) (sym (count m)) lt, q);
  placed = λ m j h.
      let (there, at) = v.placed m j (subst (λ x. j < x) (count m) h) in
      (
        k (hash_virtual_node hash m j) ∙ there,
        ap (find ℕ_discrete (hash_virtual_node hash m j)) mp ∙ at,
      );
}
  where
    count : (m : Key) → replicas r' m ≡ replicas r m
    count m = ap (λ d. or_zero (find key_dec m d)) n
