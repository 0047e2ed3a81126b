-- ===== src/Lru/Reads.antt =====
-- What `Get` of the cache of store/lru returns after `Delete` and `SetWithExpiration`.
use my_cache_go.Common.{
  ℕ, ◌+◌, ◌<◌, ◌≡◌, refl, ◌∙◌, ap, List, none, some, true, false, Option-cases, inl, inr,
  if◌then◌else◌, Key, key_dec, arith,
}
use my_cache_go.Common.Int64.{Int64, lt64}
use my_cache_go.Common.Dict.{find, find-delete, find-insert}
use my_cache_go.Lru.{
  Lru, get, get_read, has_expired, delete, remove_element, store, update, with_expiration,
}
use my_cache_go.Lru.Elements.{Element, elem_of, replace, to_front}
use my_cache_go.Lru.Elements.Laws.{elem_of-id, to_front-replace}
use my_cache_go.Lru.Inv.{IsLru}

module _ {ℓ} {V : Type ℓ} where
  -- The value that `Get` returns, from the three structures.
  pub get-value :
      (l : Lru V) (k : Key) (now : ℕ)
      → (get l k now).1 ≡ elim (find key_dec k l.element_map) [
        | none ↦ none
        | some i ↦
            if has_expired (find key_dec k l.expiration_map) now
            then none
            else elim (elem_of i l.lru_list) [ none ↦ none | some e ↦ some e.value ]
      ]
  unfolding get get_read
  get-value l k now = ground arith

  elem_of-front :
      (i : ℕ) (x : V) (l : List (Element V)) (e : Element V)
      → elem_of i l ≡ some e
      → elem_of i (to_front i (replace i x l)) ≡ some (record e { value = x })
  elem_of-front i x l e h =
      ap (elem_of i) (to_front-replace i x l e h)
      ∙ unfold elem_of in ground (arith, elem_of-id i l e h)

module _ {ℓ} {V : Type ℓ} (len : V → ℕ) (l : Lru V) (valid : IsLru len l) (k : Key) where
  unmapped : find key_dec k (delete len l k).0.element_map ≡ none
  unfolding delete remove_element
  unmapped = elim (Option-cases (find key_dec k l.element_map)) [
    | inl h ↦ ground (arith, h)
    | inr (i, h) ↦
        let (e, at, same) = valid.found k i h in
        ground (arith, h, at, same, find-delete key_dec e.key k l.element_map)
  ]

  -- After `Delete` a key is not found.
  pub get-delete : (now : ℕ) → (get (delete len l k).0 k now).1 ≡ none
  get-delete now = get-value (delete len l k).0 k now ∙ ground (arith, unmapped)

  -- A value that replaces one is read back until it expires.
  pub get-store :
      (x : V) (exp : Int64) (now later t : ℕ) (order : List (Key × ℕ) → List (Key × ℕ)) (i : ℕ)
      → find key_dec k l.element_map ≡ some i
      → (lt64 0 exp ≡ true → t < now + exp)
      → (get (store len l k x exp now later order).0 k t).1 ≡ some x
  get-store x exp now later t order i h live =
      let (e, at, _) = valid.found k i h in
      ap (λ r. (get r k t).1) (stored e at)
      ∙ (get-value (update len (with_expiration len l k exp now) i e x) k t ∙ read e at)
    where
      unexpired :
          has_expired (find key_dec k (with_expiration len l k exp now).expiration_map) t ≡ false
      unexpired = ground (
        arith,
        live,
        find-insert key_dec k k (now + exp) l.expiration_map,
        find-delete key_dec k k l.expiration_map,
      )

      stored :
          (e : Element V)
          → elem_of i l.lru_list ≡ some e
          → (store len l k x exp now later order).0
            ≡ update len (with_expiration len l k exp now) i e x
      stored e at = unfold store in rw (h, store) (rw at)

      read :
          (e : Element V)
          → elem_of i l.lru_list ≡ some e
          → elim (find key_dec k (update len (with_expiration len l k exp now) i e x).element_map) [
            | none ↦ none
            | some j ↦
                if has_expired
                  (find key_dec k
                    (update len (with_expiration len l k exp now) i e x).expiration_map)
                  t
                then none
                else elim (elem_of j
                    (update len (with_expiration len l k exp now) i e x).lru_list) [
                      | none ↦ none
                      | some f ↦ some f.value
                    ]
          ]
            ≡ some x
      read e at = unfold update in rw h (rw (unexpired, elem_of-front i x l.lru_list e at) refl)
