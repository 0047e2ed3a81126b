-- ===== src/Lru/Refine/Weights.antt =====
-- The bytes of a list of items through its operations.
use my_cache_go.Common.{
  ℕ, ◌+◌, ◌-◌, ◌≤◌, ◌≡◌, refl, ap, sym, ◌∙◌, List, [], ◌∷◌, Option, none, some, Bool-cases, inl,
  inr, Bool, true, false, if◌then◌else◌, if_pos, Key, key_dec, arith,
}
use my_cache_go.Common.Int64.{Int64}
use my_cache_go.Lru.{has_expired}
use my_cache_go.Lru.Spec as Spec
use my_cache_go.Lru.Spec.{Item, find_item, others, fresh, fit, item_of, weight, size}

module _ {ℓ} {V : Type ℓ} where
  pub others-absent : (k : Key) (xs : List (Item V)) → find_item k xs ≡ none → others k xs ≡ xs
  others-absent k [] h = refl
  others-absent k (x ∷ xs) h = ground (arith, h, others-absent k xs)

module _ {ℓ} {V : Type ℓ} (len : V → ℕ) where
  weight-others : (k : Key) (xs : List (Item V)) → weight len (others k xs) ≤ weight len xs
  weight-others k [] = omega arith
  weight-others k (x ∷ xs) = ground (arith, weight-others k xs)

  weight-find_item :
      (k : Key) (x : Item V) (xs : List (Item V))
      → find_item k xs ≡ some x
      → size len x + weight len (others k xs) ≤ weight len xs
  weight-find_item k x [] h = absurd (ground (arith, h))
  weight-find_item k x (y ∷ xs) h = elim (key_dec k y.key) [
    | yes p ↦
        let one =
          let t : some y ≡ some x =
            sym (if_pos (key_dec k y.key) p (some y) (find_item k xs)) ∙ h in
          t in
        ground (
          arith,
          p,
          ap (λ (o : Option (Item V)). elim o as (λ z. ℕ) [ none ↦ 0 | some z ↦ size len z ]) one,
          weight-others k xs,
        )
    | no p ↦ ground (arith, p, h, weight-find_item k x xs)
  ]

  weight-fresh : (now : ℕ) (xs : List (Item V)) → weight len (fresh now xs) ≤ weight len xs
  weight-fresh now [] = omega arith
  weight-fresh now (x ∷ xs) = ground (arith, weight-fresh now xs)

  weight-fit : (max : ℕ) (xs : List (Item V)) → weight len (fit len max xs) ≤ weight len xs
  weight-fit max [] = omega arith
  weight-fit max (x ∷ xs) = ground (arith, weight-fit (max - size len x) xs)

  pub weight-evict :
      (max now : ℕ) (xs : List (Item V)) → weight len (fit len max (fresh now xs)) ≤ weight len xs
  weight-evict max now xs = omega (arith, weight-fit max (fresh now xs), weight-fresh now xs)

  pub weight-get :
      (xs : List (Item V)) (k : Key) (now : ℕ) → weight len (Spec.get xs k now).0 ≤ weight len xs
  weight-get xs k now = choose (find_item k xs) (λ x h. weight-find_item k x xs h)
    where
      choose :
          (o : Option (Item V))
          → ((x : Item V) → o ≡ some x → size len x + weight len (others k xs) ≤ weight len xs)
          → weight len
              (elim o as (λ x. List (Item V) × Option V × Bool) [
                | none ↦ (xs, none, false)
                | some x ↦
                    if has_expired x.deadline now
                    then (xs, none, true)
                    else (x ∷ others k xs, some x.value, false)
              ]).0
            ≤ weight len xs
      choose none h = omega arith
      choose (some x) h = elim (Bool-cases (has_expired x.deadline now)) [
        | inl q ↦ rw q (omega arith)
        | inr q ↦ rw q (h x refl)
      ]

  pub weight-delete :
      (xs : List (Item V)) (k : Key) → weight len (Spec.delete xs k).0 ≤ weight len xs
  weight-delete xs k = weight-others k xs

  pub weight-set :
      (max : ℕ) (xs : List (Item V)) (k : Key) (v : V) (exp : Int64) (now later : ℕ)
      → weight len (Spec.set len max xs k (some v) exp now later)
        ≤ size len (item_of k v exp now) + weight len xs
  weight-set max xs k v exp now later = choose (find_item k xs)
    where
      choose :
          (o : Option (Item V))
          → weight len (elim o as (λ x. List (Item V)) [
            | some x ↦ item_of k v exp now ∷ others k xs
            | none ↦ fit len max (fresh later (item_of k v exp now ∷ xs))
          ])
            ≤ size len (item_of k v exp now) + weight len xs
      choose none = weight-evict max later (item_of k v exp now ∷ xs)
      choose (some x) = omega (arith, weight-others k xs)
