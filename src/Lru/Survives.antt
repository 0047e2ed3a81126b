-- ===== src/Lru/Survives.antt =====
-- The keys and deadlines of the cache of store/lru through its evictions.
use my_cache_go.Common.{
  ℕ, zero, suc, ltb, ◌&&◌, ◌≡◌, refl, ◌∙◌, List, [], ◌∷◌, some, Bool-cases, Option-cases, inl, inr,
  length, Key, key_dec, arith,
}
use my_cache_go.Common.Int64.{lt64}
use my_cache_go.Common.Dict.{find, find-delete}
use my_cache_go.Lru.{Lru, remove_element, remove_key, evict_expired, evict_oldest, evict}
use my_cache_go.Lru.Elements.{elem_of, back}

-- A key of the second cache has the same element and the same deadline in the first one.
abbrev pub Survives {ℓ} : {V : Type ℓ} → Lru V → Lru V → Type 0
Survives l l' =
    (k : Key) (i : ℕ)
    → find key_dec k l'.element_map ≡ some i
    → (find key_dec k l.element_map ≡ some i)
      × (find key_dec k l'.expiration_map ≡ find key_dec k l.expiration_map)

module _ {ℓ} {V : Type ℓ} (len : V → ℕ) where
  then-Survives : (l m n : Lru V) → Survives l m → Survives m n → Survives l n
  then-Survives l m n s t k i h = let a = t k i h in let b = s k i a.0 in (b.0, a.1 ∙ b.1)

  pub remove_element-Survives : (l : Lru V) (i : ℕ) → Survives l (remove_element len l i).0
  unfolding remove_element
  remove_element-Survives l i k j h = elim (Option-cases (elem_of i l.lru_list)) [
    | inl q ↦ ground (arith, h, q)
    | inr (e, q) ↦ ground (
      arith,
      h,
      q,
      find-delete key_dec e.key k l.element_map,
      find-delete key_dec e.key k l.expiration_map,
    )
  ]

  remove_key-Survives : (l : Lru V) (key : Key) → Survives l (remove_key len l key).0
  unfolding remove_key
  remove_key-Survives l key k j h = elim (Option-cases (find key_dec key l.element_map)) [
    | inl q ↦ ground (arith, h, q)
    | inr (i, q) ↦ ground (arith, h, q, remove_element-Survives l i k j)
  ]

  evict_expired-Survives :
      (order : List (Key × ℕ)) (l : Lru V) (now : ℕ) → Survives l (evict_expired len l now order).0
  unfolding evict_expired
  evict_expired-Survives [] l now = λ k i h. (h, refl)
  evict_expired-Survives ((key, t) ∷ order) l now = elim (Bool-cases (ltb t now)) [
    | inl q ↦ rw q (
        then-Survives l (remove_key len l key).0
          (evict_expired len (remove_key len l key).0 now order).0 (remove_key-Survives l key)
          (evict_expired-Survives order (remove_key len l key).0 now))
    | inr q ↦ rw q (evict_expired-Survives order l now)
  ]

  evict_oldest-Survives : (fuel : ℕ) (l : Lru V) → Survives l (evict_oldest len fuel l).0
  unfolding evict_oldest
  evict_oldest-Survives zero l = λ k i h. (h, refl)
  evict_oldest-Survives (suc fuel) l =
      elim (Bool-cases
        (lt64 0 l.max_bytes && (lt64 l.max_bytes l.used_bytes && ltb 0 (length l.lru_list)))) [
          | inl q ↦ rw q (
              then-Survives l (remove_element len l (back l.lru_list)).0
                (evict_oldest len fuel (remove_element len l (back l.lru_list)).0).0
                (remove_element-Survives l (back l.lru_list))
                (evict_oldest-Survives fuel (remove_element len l (back l.lru_list)).0))
          | inr q ↦ rw q (λ k i h. (h, refl))
        ]

  pub evict-Survives :
      (l : Lru V) (now : ℕ) (order : List (Key × ℕ)) → Survives l (evict len l now order).0
  unfolding evict
  evict-Survives l now order =
      then-Survives l (evict_expired len l now order).0
        (evict_oldest len (length (evict_expired len l now order).0.lru_list)
          (evict_expired len l now order).0).0
        (evict_expired-Survives order l now)
        (evict_oldest-Survives (length (evict_expired len l now order).0.lru_list)
          (evict_expired len l now order).0)
