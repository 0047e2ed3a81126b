-- ===== src/Lru/Fitting.antt =====
-- `evict` of store/lru against a reference definition: the entries that have not expired, cut to the
-- longest prefix that fits.
pub mod Expired
use my_cache_go.Common.{
  ℕ, zero, suc, ◌+◌, ◌-◌, ◌^◌, ◌<◌, ◌≤◌, ◌≡◌, ◌≢◌, refl, sym, ◌∙◌, subst, ap, List, [], ◌∷◌, ◌++◌,
  Option, none, some, Bool, true, false, not, ltb, leb, ◌&&◌, if◌then◌else◌, Bool-cases, inl, inr,
  length, Key, key_dec, arith, ℕ_discrete,
}
use my_cache_go.Common.Int64.{lt64}
use my_cache_go.Common.Dict.{find}
use my_cache_go.Lru.{Lru, size_of, has_expired, remove_element, evict_expired, evict_oldest, evict}
use my_cache_go.Lru.Elements.{Element, elem_of, remove, back}
use my_cache_go.Lru.Elements.Laws.{DistinctIds, total, elem_of-back}
use my_cache_go.Lru.Fitting.Expired.{keep, Enumerates, evict_expired-live}
use my_cache_go.Lru.Inv.{IsLru}
use my_cache_go.Lru.Evicts.{remove_element-IsLru, evict_expired-IsLru}
use my_cache_go.Lru.Bound.{weight, remove_element-le, evict_expired-le, remove_back-length}

module _ {ℓ} {V : Type ℓ} (len : V → ℕ) where
  -- The longest prefix with at most this size.
  abbrev pub fitting : ℕ → List (Element V) → List (Element V)
  fitting max [] = []
  fitting max (e ∷ xs) =
      let rest = fitting (max - size_of len e) xs in
      if leb (size_of len e) max then e ∷ rest else []

  fitting-all :
      (xs : List (Element V)) (max : ℕ) → total (size_of len) xs ≤ max → fitting max xs ≡ xs
  fitting-all [] max h = refl
  fitting-all (e ∷ xs) max h =
      ground (arith, h, fitting-all xs (max - size_of len e) (omega (arith, h)))

  fitting-append :
      (xs : List (Element V)) (f : Element V) (max : ℕ)
      → max < total (size_of len) (xs ++ f ∷ [])
      → fitting max (xs ++ f ∷ []) ≡ fitting max xs
  fitting-append [] f max h = ground (arith, h)
  fitting-append (e ∷ xs) f max h = elim (Bool-cases (leb (size_of len e) max)) [
    | inr q ↦ rw q refl
    | inl q ↦
        rw q (ap (λ ys. e ∷ ys) (fitting-append xs f (max - size_of len e) (ground (arith, h, q))))
  ]

  fitting-remove-back :
      (xs : List (Element V)) (max : ℕ)
      → DistinctIds xs
      → max < total (size_of len) xs
      → (f : Element V) × (elem_of (back xs) xs ≡ some f)
        × (fitting max (remove (back xs) xs) ≡ fitting max xs)
  fitting-remove-back [] max d h = absurd (omega (arith, h))
  fitting-remove-back (e ∷ xs) max d h =
      let (ys, f, split, at, cut) = elem_of-back e xs d in
      (
        f,
        at,
        ap (fitting max) cut
            ∙ (sym (fitting-append ys f max (subst (λ zs. max < total (size_of len) zs) split h))
                ∙ ap (fitting max) (sym split)),
      )

  taken :
      (l : Lru V) (i : ℕ) (f : Element V)
      → elem_of i l.lru_list ≡ some f
      → (remove_element len l i).0.lru_list ≡ remove i l.lru_list
  unfolding remove_element
  taken l i f h = ground (arith, h)

  evict_oldest-fitting :
      (fuel : ℕ) (l : Lru V) (max : ℕ)
      → IsLru len l
      → length l.lru_list ≤ fuel
      → l.max_bytes ≡ max
      → 0 < max
      → max < 2 ^ 63
      → weight len l < 2 ^ 63
      → (evict_oldest len fuel l).0.lru_list ≡ fitting max l.lru_list
  unfolding evict_oldest
  evict_oldest-fitting zero l max v f q p b w = empty l.lru_list f
    where
      empty : (xs : List (Element V)) → length xs ≤ 0 → xs ≡ fitting max xs
      empty [] h = refl
      empty (x ∷ xs) h = absurd (omega arith)
  evict_oldest-fitting (suc fuel) l max v f q p b w =
      elim (Bool-cases
        (lt64 0 l.max_bytes && (lt64 l.max_bytes l.used_bytes && ltb 0 (length l.lru_list)))) [
          | inr h ↦ rw h (sym (fitting-all l.lru_list max (stop h)))
          | inl h ↦
              let r = remove_element-le len l (back l.lru_list) in
              let (g, at, cut) = fitting-remove-back l.lru_list max v.distinct (over h) in
              rw h (
                evict_oldest-fitting fuel (remove_element len l (back l.lru_list)).0 max
                  (remove_element-IsLru len l (back l.lru_list) v)
                  (omega (arith, remove_back-length len l v (ground (arith, h)))) (r.1 ∙ q) p b
                  (omega (arith, r.0))
                ∙ (ap (fitting max) (taken l (back l.lru_list) g at) ∙ cut))
        ]
    where
      over :
          (lt64 0 l.max_bytes && (lt64 l.max_bytes l.used_bytes && ltb 0 (length l.lru_list)))
            ≡ true
          → max < total (size_of len) l.lru_list
      over h = ground (arith, h, v.used)

      small : (xs : List (Element V)) → length xs ≡ 0 → total (size_of len) xs ≤ max
      small [] e = omega arith
      small (x ∷ xs) e = absurd (omega arith)

      stop :
          (lt64 0 l.max_bytes && (lt64 l.max_bytes l.used_bytes && ltb 0 (length l.lru_list)))
            ≡ false
          → total (size_of len) l.lru_list ≤ max
      stop h = elim (ℕ_discrete (length l.lru_list) 0) [
        | yes e ↦ small l.lru_list e
        | no e ↦ ground (arith, v.used)
      ]

  -- In a valid cache with a positive limit, and less than 2 ^ 63 bytes, `evict` leaves the longest
  -- prefix within the limit of the entries that have not expired, from the most recently used on,
  -- where the iteration is one over the pairs of the expiration map.
  pub evict-fitting :
      (l : Lru V) (now : ℕ) (order : List (Key × ℕ))
      → IsLru len l
      → Enumerates l.expiration_map order
      → 0 < l.max_bytes
      → l.max_bytes < 2 ^ 63
      → weight len l < 2 ^ 63
      → (evict len l now order).0.lru_list
        ≡ fitting l.max_bytes
            (keep (λ e. not (has_expired (find key_dec e.key l.expiration_map) now)) l.lru_list)
  unfolding evict
  evict-fitting l now order v h p b w =
      let r = evict_expired-le len order l now in
      evict_oldest-fitting (length (evict_expired len l now order).0.lru_list)
        (evict_expired len l now order).0 l.max_bytes (evict_expired-IsLru len order l now v)
        (omega arith) r.1 p b (omega (arith, r.0))
      ∙ ap (fitting l.max_bytes) (evict_expired-live len l now order v h)
