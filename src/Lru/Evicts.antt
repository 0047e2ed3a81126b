-- ===== src/Lru/Evicts.antt =====
-- Removal and eviction in the cache of store/lru, and its invariant.
use my_cache_go.Common.{
  ℕ, zero, suc, ltb, ◌&&◌, ◌≡◌, sym, subst, List, [], ◌∷◌, none, some, Bool-cases, Option-cases,
  inl, inr, length, Key, key_dec, arith,
}
use my_cache_go.Common.Int64.{lt64}
use my_cache_go.Common.Dict.{find}
use my_cache_go.Lru.{Lru, remove_element, remove_key, evict_expired, evict_oldest, evict}
use my_cache_go.Lru.Elements.{Element, elem_of, back}
use my_cache_go.Lru.Inv.{IsLru, without, without-IsLru}

module _ {ℓ} {V : Type ℓ} (len : V → ℕ) where
  pub remove_element-IsLru :
      (l : Lru V) (i : ℕ) → IsLru len l → IsLru len (remove_element len l i).0
  remove_element-IsLru l i v = elim (Option-cases (elem_of i l.lru_list)) [
    | inl h ↦ subst (λ r. IsLru len r) (sym (skip h)) v
    | inr (e, h) ↦ subst (λ r. IsLru len r) (sym (gone e h)) (without-IsLru len l v i e h)
  ]
    where
      skip : elem_of i l.lru_list ≡ none → (remove_element len l i).0 ≡ l
      skip h = unfold remove_element in ground (arith, h)

      gone :
          (e : Element V) (h : elem_of i l.lru_list ≡ some e)
          → (remove_element len l i).0 ≡ without len l v i e h
      gone e h = unfold remove_element in ground (arith, h)

  pub remove_key-IsLru : (l : Lru V) (k : Key) → IsLru len l → IsLru len (remove_key len l k).0
  remove_key-IsLru l k v = elim (Option-cases (find key_dec k l.element_map)) [
    | inl h ↦ subst (λ r. IsLru len r) (sym (skip h)) v
    | inr (i, h) ↦ subst (λ r. IsLru len r) (sym (gone i h)) (remove_element-IsLru l i v)
  ]
    where
      skip : find key_dec k l.element_map ≡ none → (remove_key len l k).0 ≡ l
      skip h = unfold remove_key in ground (arith, h)

      gone :
          (i : ℕ)
          → find key_dec k l.element_map ≡ some i
          → (remove_key len l k).0 ≡ (remove_element len l i).0
      gone i h = unfold remove_key in ground (arith, h)

  pub evict_expired-IsLru :
      (order : List (Key × ℕ)) (l : Lru V) (now : ℕ)
      → IsLru len l
      → IsLru len (evict_expired len l now order).0
  unfolding evict_expired
  evict_expired-IsLru [] l now v = v
  evict_expired-IsLru ((k, t) ∷ order) l now v = elim (Bool-cases (ltb t now)) [
    | inl h ↦ rw h (evict_expired-IsLru order (remove_key len l k).0 now (remove_key-IsLru l k v))
    | inr h ↦ rw h (evict_expired-IsLru order l now v)
  ]

  evict_oldest-IsLru : (fuel : ℕ) (l : Lru V) → IsLru len l → IsLru len (evict_oldest len fuel l).0
  unfolding evict_oldest
  evict_oldest-IsLru zero l v = v
  evict_oldest-IsLru (suc fuel) l v =
      let ih =
        evict_oldest-IsLru fuel (remove_element len l (back l.lru_list)).0
          (remove_element-IsLru l (back l.lru_list) v) in
      elim (Bool-cases
        (lt64 0 l.max_bytes && (lt64 l.max_bytes l.used_bytes && ltb 0 (length l.lru_list)))) [
          | inl h ↦ rw h ih
          | inr h ↦ rw h v
        ]

  pub evict-IsLru :
      (l : Lru V) (now : ℕ) (order : List (Key × ℕ))
      → IsLru len l
      → IsLru len (evict len l now order).0
  unfolding evict
  evict-IsLru l now order v = evict_oldest-IsLru _ _ (evict_expired-IsLru order l now v)
