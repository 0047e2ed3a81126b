-- ===== src/Lru/Refine/Limits.antt =====
-- The limit of the cache of store/lru through its calls.
use my_cache_go.Common.{
  ℕ, ◌≡◌, refl, List, Option, none, some, Bool, true, false, Option-cases, inl, inr, Key, key_dec,
  arith,
}
use my_cache_go.Common.Int64.{Int64}
use my_cache_go.Common.Dict.{find}
use my_cache_go.Lru.{
  Lru, get, get_read, get_touch, absent, stale, hit, Read, delete, store, update, push,
  with_expiration,
}
use my_cache_go.Lru.Elements.{elem_of}
use my_cache_go.Lru.Bound.{remove_element-le}
use my_cache_go.Lru.Refine.Moves.{evict-max_bytes}

module _ {ℓ} {V : Type ℓ} where
  get_touch-max_bytes : (l : Lru V) (k : Key) (i : ℕ) → (get_touch l k i).max_bytes ≡ l.max_bytes
  unfolding get_touch
  get_touch-max_bytes l k i = elim (Option-cases (find key_dec k l.element_map)) [
    | inl h ↦ ground (arith, h)
    | inr (j, h) ↦ ground (arith, h)
  ]

  pub get-max_bytes : (l : Lru V) (k : Key) (now : ℕ) → (get l k now).0.max_bytes ≡ l.max_bytes
  unfolding get
  get-max_bytes l k now = choose (get_read l k now)
    where
      choose :
          (r : Read V)
          → (elim r as (λ x. Lru V × Option V × Bool) [
            | absent ↦ (l, none, false)
            | stale ↦ (l, none, true)
            | hit i v ↦ (get_touch l k i, some v, false)
          ]).0.max_bytes
            ≡ l.max_bytes
      choose absent = refl
      choose stale = refl
      choose (hit i v) = get_touch-max_bytes l k i

module _ {ℓ} {V : Type ℓ} (len : V → ℕ) where
  pub delete-max_bytes : (l : Lru V) (k : Key) → (delete len l k).0.max_bytes ≡ l.max_bytes
  unfolding delete
  delete-max_bytes l k = elim (Option-cases (find key_dec k l.element_map)) [
    | inl h ↦ ground (arith, h)
    | inr (i, h) ↦ ground (arith, h, (remove_element-le len l i).1)
  ]

  pub store-max_bytes :
      (l : Lru V) (k : Key) (x : V) (exp : Int64) (now later : ℕ)
      (order : List (Key × ℕ) → List (Key × ℕ))
      → (store len l k x exp now later order).0.max_bytes ≡ l.max_bytes
  unfolding store update push
  store-max_bytes l k x exp now later order = elim (Option-cases (find key_dec k l.element_map)) [
    | inl h ↦ ground (
      arith,
      h,
      evict-max_bytes len (push len (with_expiration len l k exp now) k x) later
          (order (push len (with_expiration len l k exp now) k x).expiration_map),
    )
    | inr (i, h) ↦ elim (Option-cases (elem_of i l.lru_list)) [
      | inl q ↦ ground (arith, h, q)
      | inr (e, q) ↦ ground (arith, h, q)
    ]
  ]
