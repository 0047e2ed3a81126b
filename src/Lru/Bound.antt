-- ===== src/Lru/Bound.antt =====
-- The bytes of the cache of store/lru before and after `evict`.
use my_cache_go.Common.{
  ℕ, zero, suc, ltb, ◌&&◌, ◌^◌, ◌<◌, ◌≤◌, ◌≡◌, ◌∙◌, List, [], ◌∷◌, some, false, Bool-cases,
  Option-cases, inl, inr, length, ℕ_discrete, Key, key_dec, arith,
}
use my_cache_go.Common.Int64.{lt64}
use my_cache_go.Common.Dict.{find}
use my_cache_go.Lru.{Lru, size_of, remove_element, remove_key, evict_expired, evict_oldest, evict}
use my_cache_go.Lru.Elements.{Element, elem_of, back}
use my_cache_go.Lru.Elements.Laws.{DistinctIds, total, total-remove, length-remove, elem_of-back}
use my_cache_go.Lru.Inv.{IsLru}
use my_cache_go.Lru.Evicts.{remove_element-IsLru, evict_expired-IsLru}

module _ {ℓ} {V : Type ℓ} (len : V → ℕ) where
  abbrev pub weight : Lru V → ℕ
  weight l = total (size_of len) l.lru_list

  -- `removeElement` does not add to the cache, nor change its limit.
  pub remove_element-le :
      (l : Lru V) (i : ℕ)
      → (weight (remove_element len l i).0 ≤ weight l)
        × ((remove_element len l i).0.max_bytes ≡ l.max_bytes)
  unfolding remove_element
  remove_element-le l i = elim (Option-cases (elem_of i l.lru_list)) [
    | inl h ↦ ground (arith, h)
    | inr (e, h) ↦ ground (arith, h, total-remove (size_of len) i l.lru_list e h)
  ]

  remove_key-le :
      (l : Lru V) (k : Key)
      → (weight (remove_key len l k).0 ≤ weight l)
        × ((remove_key len l k).0.max_bytes ≡ l.max_bytes)
  unfolding remove_key
  remove_key-le l k = elim (Option-cases (find key_dec k l.element_map)) [
    | inl h ↦ ground (arith, h)
    | inr (i, h) ↦ ground (arith, h, remove_element-le l i)
  ]

  pub evict_expired-le :
      (order : List (Key × ℕ)) (l : Lru V) (now : ℕ)
      → (weight (evict_expired len l now order).0 ≤ weight l)
        × ((evict_expired len l now order).0.max_bytes ≡ l.max_bytes)
  unfolding evict_expired
  evict_expired-le [] l now = ground arith
  evict_expired-le ((k, t) ∷ order) l now = elim (Bool-cases (ltb t now)) [
    | inr h ↦ rw h (evict_expired-le order l now)
    | inl h ↦
        let r = remove_key-le l k in
        let ih = evict_expired-le order (remove_key len l k).0 now in
        rw h (omega (arith, r.0, ih.0), ih.1 ∙ r.1)
  ]

  -- At a list that is not empty `removeElement` of `Back()` makes it shorter.
  pub remove_back-length :
      (l : Lru V)
      → IsLru len l
      → 0 < length l.lru_list
      → length l.lru_list ≡ suc (length (remove_element len l (back l.lru_list)).0.lru_list)
  unfolding remove_element
  remove_back-length l v h =
      let (e, at) = last_of l.lru_list v.distinct h in
      ground (arith, at, length-remove (back l.lru_list) l.lru_list e at)
    where
      last_of :
          (xs : List (Element V))
          → DistinctIds xs
          → 0 < length xs
          → (e : Element V) × (elem_of (back xs) xs ≡ some e)
      last_of [] d q = absurd (omega arith)
      last_of (x ∷ xs) d q = let r = elem_of-back x xs d in (r.1, r.3)

  evict_oldest-le :
      (fuel : ℕ) (l : Lru V) (max : ℕ)
      → IsLru len l
      → length l.lru_list ≤ fuel
      → l.max_bytes ≡ max
      → 0 < max
      → max < 2 ^ 63
      → weight l < 2 ^ 63
      → weight (evict_oldest len fuel l).0 ≤ max
  unfolding evict_oldest
  evict_oldest-le zero l max v f q p b w = empty l.lru_list f
    where
      empty : (xs : List (Element V)) → length xs ≤ 0 → total (size_of len) xs ≤ max
      empty [] h = omega arith
      empty (x ∷ xs) h = absurd (omega arith)
  evict_oldest-le (suc fuel) l max v f q p b w =
      elim (Bool-cases
        (lt64 0 l.max_bytes && (lt64 l.max_bytes l.used_bytes && ltb 0 (length l.lru_list)))) [
          | inl h ↦
              let r = remove_element-le l (back l.lru_list) in
              rw h (
                evict_oldest-le fuel (remove_element len l (back l.lru_list)).0 max
                  (remove_element-IsLru len l (back l.lru_list) v)
                  (omega (arith, remove_back-length l v (ground arith))) (r.1 ∙ q) p b
                  (omega (arith, r.0)))
          | inr h ↦ rw h (stop h)
        ]
    where
      small : (xs : List (Element V)) → length xs ≡ 0 → total (size_of len) xs ≤ max
      small [] e = omega arith
      small (x ∷ xs) e = absurd (omega arith)

      stop :
          (lt64 0 l.max_bytes && (lt64 l.max_bytes l.used_bytes && ltb 0 (length l.lru_list)))
            ≡ false
          → weight l ≤ max
      stop h = elim (ℕ_discrete (length l.lru_list) 0) [
        | yes e ↦ small l.lru_list e
        | no e ↦ ground (arith, v.used)
      ]

  -- `evict` brings the cache within its limit, however the expiration map is iterated, if the
  -- limit is positive and the sizes add up to less than 2 ^ 63 bytes.
  pub evict-le :
      (l : Lru V) (now : ℕ) (order : List (Key × ℕ))
      → IsLru len l
      → 0 < l.max_bytes
      → l.max_bytes < 2 ^ 63
      → weight l < 2 ^ 63
      → weight (evict len l now order).0 ≤ l.max_bytes
  unfolding evict
  evict-le l now order v p b w =
      let r = evict_expired-le order l now in
      evict_oldest-le (length (evict_expired len l now order).0.lru_list)
        (evict_expired len l now order).0 l.max_bytes (evict_expired-IsLru len order l now v)
        (omega arith) r.1 p b (omega (arith, r.0))
