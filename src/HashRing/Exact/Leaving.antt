-- ===== src/HashRing/Exact/Leaving.antt =====
-- A ring that loses a node, beside the virtual nodes of the nodes that are left.
use my_cache_go.Common.{
  ℕ, ◌+◌, ◌<◌, ◌≡◌, ◌≢◌, ap, sym, subst, ◌∙◌, some, true, false, not, ◌&&◌, Bool-cases, inl, inr,
  ite, if_neg, Key, key_dec, ℕ_discrete, arith,
}
use my_cache_go.Common.Dict.{find}
use my_cache_go.HashRing.{HashRing, hash_virtual_node, remove_replicas, remove_node_unlocked}
use my_cache_go.HashRing.Order.{has}
use my_cache_go.HashRing.Addition.{points}
use my_cache_go.HashRing.Members.{removed}
use my_cache_go.HashRing.Absent.{replicas, remove_node_unlocked-replicas}
use my_cache_go.HashRing.Distinct.{Once}
use my_cache_go.HashRing.Exact.{
  has-points, points-from, keys-remove_replicas, map-remove_replicas, Apart, IsExact,
}

module _ (hash : Key → ℕ) (P : Key → Type 0) (limit : ℕ) (apart : Apart hash P limit) where
  module _ (r r' : HashRing) (node : Key) (v : IsExact hash P limit r)
      (e : remove_node_unlocked hash r node ≡ some r') where
    left_keys : r'.keys ≡ (remove_replicas hash (replicas r node) 0 node r).keys
    left_keys = unfold remove_node_unlocked in ground (arith, e)

    left-replicas : (m : Key) → replicas r' m ≡ ite (key_dec node m) 0 (replicas r m)
    left-replicas m = remove_node_unlocked-replicas hash r r' node m e

    left-has :
        (y : ℕ)
        → has y r'.keys ≡ (has y r.keys && not (has y (points hash node (replicas r node) 0)))
    left-has y =
        ap (has y) left_keys ∙ (keys-remove_replicas hash (replicas r node) 0 node r v.once).1 y

    left-keyed :
        (y : ℕ)
        → has y r'.keys ≡ true
        → (m : Key) × (j : ℕ) × (j < replicas r' m) × (y ≡ hash_virtual_node hash m j)
    left-keyed y h =
        let (m, j, lt, q) = v.keyed y (ground (arith, h, left-has y)) in
        let ne = let t : node ≢ m = λ same. gone m j lt q same in t in
        (m, j, subst (λ k. j < k) (sym (left-replicas m ∙ if_neg (key_dec node m) ne _ _)) lt, q)
      where
        gone : (m : Key) (j : ℕ) → j < replicas r m → y ≡ hash_virtual_node hash m j → node ≡ m → ⊥
        gone m j lt q same =
            let there =
              let t : has y (points hash node (replicas r node) 0) ≡ true =
                ap (λ x. has x (points hash node (replicas r node) 0))
                  (q ∙ ap (λ k. hash_virtual_node hash k j) (sym same))
                ∙ has-points hash node (replicas r node) 0 j (omega arith)
                    (subst (λ k. j < 0 + replicas r k) (sym same) (omega (arith, lt))) in
              t in
            ground (arith, h, there, left-has y)

    left-placed :
        (m : Key) (j : ℕ)
        → j < replicas r' m
        → (has (hash_virtual_node hash m j) r'.keys ≡ true)
          × (find ℕ_discrete (hash_virtual_node hash m j) r'.hash_map ≡ some m)
    left-placed m j h = elim (key_dec node m) [
      | yes same ↦ absurd (ground (arith, h, same, left-replicas m))
      | no ne ↦
          let lt =
            let t : j < replicas r m =
              subst (λ k. j < k) (left-replicas m ∙ if_neg (key_dec node m) ne _ _) h in
            t in
          let (there, at) = v.placed m j lt in
          let clear = apart_from m j ne lt in
          (
            ground (arith, there, clear, left-has (hash_virtual_node hash m j)),
            ap (find ℕ_discrete (hash_virtual_node hash m j)) (removed hash r r' node e).0
                ∙ ground (
                  arith,
                  at,
                  clear,
                  map-remove_replicas hash (replicas r node) 0 node r (hash_virtual_node hash m j),
                ),
          )
    ]
      where
        apart_from :
            (m : Key) (j : ℕ)
            → node ≢ m
            → j < replicas r m
            → has (hash_virtual_node hash m j) (points hash node (replicas r node) 0) ≡ false
        apart_from m j ne lt =
            elim (Bool-cases
              (has (hash_virtual_node hash m j) (points hash node (replicas r node) 0))) [
                | inr c ↦ c
                | inl c ↦
                    let (i, _, hi, q) =
                      points-from hash node (replicas r node) 0 (hash_virtual_node hash m j) c in
                    let (same, _) =
                      apart m node j i (v.named m (omega (arith, lt)))
                        (v.named node (omega (arith, hi))) (omega (arith, lt, v.few m))
                        (omega (arith, hi, v.few node)) q in
                    absurd (ne (sym same))
              ]

    pub remove_node_unlocked-IsExact : IsExact hash P limit r'
    remove_node_unlocked-IsExact = record {
      named = λ m h. v.named m (ground (arith, h, left-replicas m));
      few = λ m. ground (arith, v.few m, left-replicas m);
      once =
          subst Once (sym left_keys)
            (keys-remove_replicas hash (replicas r node) 0 node r v.once).0;
      keyed = left-keyed;
      placed = left-placed;
    }
