-- ===== src/Lru/Refine/Moves.antt =====
-- What `Get` and `evict` of the cache of store/lru do to the items.
use my_cache_go.Common.{
  ℕ, zero, suc, ◌^◌, ◌<◌, ◌≡◌, ◌≢◌, refl, ap, sym, ◌∙◌, List, ◌∷◌, Option, none, some, Bool, true,
  false, not, ltb, ◌&&◌, if◌then◌else◌, Bool-cases, Option-cases, inl, inr, All-map, length, Key,
  key_dec, arith,
}
use my_cache_go.Common.Int64.{lt64}
use my_cache_go.Common.Dict.{find}
use my_cache_go.Lru.{
  Lru, get, get_read, get_touch, has_expired, remove_element, evict, evict_expired, evict_oldest,
}
use my_cache_go.Lru.Elements.{Element, elem_of, remove, to_front, back}
use my_cache_go.Lru.Elements.Laws.{to_front-eq}
use my_cache_go.Lru.Inv.{IsLru}
use my_cache_go.Lru.Bound.{weight, remove_element-le, evict_expired-le}
use my_cache_go.Lru.Evicts.{evict-IsLru}
use my_cache_go.Lru.Fitting.{evict-fitting}
use my_cache_go.Lru.Fitting.Expired.{keep, Enumerates, remove-keep}
use my_cache_go.Lru.Survives.{evict-Survives}
use my_cache_go.Lru.Spec as Spec
use my_cache_go.Lru.Spec.{Item, find_item, others, fresh, fit, item_of}
use my_cache_go.Lru.Refine.{
  items, items_of, item, items_of-eq, items_of-keep, items_of-others, items_of-fitting,
  find_item-items_of, find_item-absent,
}

-- The items that `Get` leaves, and its results.
abbrev pub view {ℓ} : {V : Type ℓ} → Lru V × Option V × Bool → List (Item V) × Option V × Bool
view (l, value, started) = (items l, value, started)

module _ {ℓ} {V : Type ℓ} (len : V → ℕ) where
  evict_oldest-max_bytes :
      (fuel : ℕ) (l : Lru V) → (evict_oldest len fuel l).0.max_bytes ≡ l.max_bytes
  unfolding evict_oldest
  evict_oldest-max_bytes zero l = refl
  evict_oldest-max_bytes (suc fuel) l =
      elim (Bool-cases
        (lt64 0 l.max_bytes && (lt64 l.max_bytes l.used_bytes && ltb 0 (length l.lru_list)))) [
          | inr h ↦ rw h refl
          | inl h ↦ rw h (
              evict_oldest-max_bytes fuel (remove_element len l (back l.lru_list)).0
              ∙ (remove_element-le len l (back l.lru_list)).1)
        ]

  pub evict-max_bytes :
      (l : Lru V) (now : ℕ) (order : List (Key × ℕ))
      → (evict len l now order).0.max_bytes ≡ l.max_bytes
  unfolding evict
  evict-max_bytes l now order =
      evict_oldest-max_bytes (length (evict_expired len l now order).0.lru_list)
        (evict_expired len l now order).0
      ∙ (evict_expired-le len order l now).1

  pub items-evict :
      (l : Lru V) (now : ℕ) (order : List (Key × ℕ))
      → IsLru len l
      → Enumerates l.expiration_map order
      → 0 < l.max_bytes
      → l.max_bytes < 2 ^ 63
      → weight len l < 2 ^ 63
      → items (evict len l now order).0 ≡ fit len l.max_bytes (fresh now (items l))
  items-evict l now order v h p b w =
      items_of-eq (evict len l now order).0.expiration_map l.expiration_map
        (evict len l now order).0.lru_list
        (All-map (λ e. find key_dec e.key (evict len l now order).0.element_map ≡ some e.id)
          (λ e.
            find key_dec e.key (evict len l now order).0.expiration_map
            ≡ find key_dec e.key l.expiration_map)
          (evict len l now order).0.lru_list
          (λ e q. (evict-Survives len l now order e.key e.id q).1)
          (evict-IsLru len l now order v).indexed)
      ∙ (ap (items_of l.expiration_map) (evict-fitting len l now order v h p b w)
          ∙ (items_of-fitting len l.expiration_map l.max_bytes
                (keep (λ e. not (has_expired (find key_dec e.key l.expiration_map) now)) l.lru_list)
              ∙ ap (fit len l.max_bytes) (items_of-keep l.expiration_map now l.lru_list)))

  module _ (l : Lru V) (v : IsLru len l) (k : Key) where
    -- The element of a key that the map has.
    module _ (i : ℕ) (h : find key_dec k l.element_map ≡ some i) (e : Element V)
        (at : elem_of i l.lru_list ≡ some e) (same : e.key ≡ k) where
      pub items-remove :
          (m : List (Key × ℕ))
          → ((j : Key) → k ≢ j → find key_dec j m ≡ find key_dec j l.expiration_map)
          → items_of m (remove i l.lru_list) ≡ others k (items l)
      items-remove m s =
          ap (items_of m)
            (remove-keep l.element_map k i e l.lru_list v.distinct v.indexed h at same)
          ∙ items_of-others l.expiration_map m k l.lru_list s

      pub found_item : find_item k (items l) ≡ some (item l.expiration_map e)
      found_item =
          find_item-items_of l.expiration_map l.element_map k i e l.lru_list v.indexed h at same

    -- The answer of the list to what it finds.
    abbrev answer : ℕ → Option (Item V) → List (Item V) × Option V × Bool
    answer now none = (items l, none, false)
    answer now (some x) =
        if has_expired x.deadline now
        then (items l, none, true)
        else (x ∷ others k (items l), some x.value, false)

    Spec-get : (now : ℕ) → Spec.get (items l) k now ≡ answer now (find_item k (items l))
    Spec-get now = choose (find_item k (items l))
      where
        choose :
            (o : Option (Item V))
            → elim o as (λ x. List (Item V) × Option V × Bool) [
              | none ↦ (items l, none, false)
              | some x ↦
                  if has_expired x.deadline now
                  then (items l, none, true)
                  else (x ∷ others k (items l), some x.value, false)
            ]
              ≡ answer now o
        choose none = refl
        choose (some x) = refl

    abbrev outcome : ℕ → V → Bool → Lru V × Option V × Bool
    outcome i x true = (l, none, true)
    outcome i x false = (get_touch l k i, some x, false)

    -- What `Get` returns and leaves is what the list returns and leaves.
    pub items-get : (now : ℕ) → view (get l k now) ≡ Spec.get (items l) k now
    items-get now = elim (Option-cases (find key_dec k l.element_map)) [
      | inl h ↦
          ap view (missed h)
          ∙ sym (
              Spec-get now
              ∙ ap (answer now)
                  (find_item-absent l.expiration_map l.element_map k l.lru_list v.indexed h))
      | inr (i, h) ↦
          let (e, at, same) = v.found k i h in
          ap view (looked i h e at)
          ∙ (chosen i h e at same (has_expired (find key_dec k l.expiration_map) now)
                (ap (λ a. has_expired (find key_dec a l.expiration_map) now) same)
              ∙ sym (Spec-get now ∙ ap (answer now) (found_item i h e at same)))
    ]
      where
        missed : find key_dec k l.element_map ≡ none → get l k now ≡ (l, none, false)
        missed h = unfold get in unfold get_read in ground (arith, h)

        looked :
            (i : ℕ)
            → find key_dec k l.element_map ≡ some i
            → (e : Element V) → elem_of i l.lru_list ≡ some e
            → get l k now ≡ outcome i e.value (has_expired (find key_dec k l.expiration_map) now)
        looked i h e at = unfold get in unfold get_read in ground (arith, h, at)

        moved :
            (i : ℕ)
            → find key_dec k l.element_map ≡ some i
            → get_touch l k i ≡ record l { lru_list = to_front i l.lru_list }
        moved i h = unfold get_touch in ground (arith, h)

        touched :
            (i : ℕ)
            → find key_dec k l.element_map ≡ some i
            → (e : Element V) → elem_of i l.lru_list ≡ some e
            → e.key ≡ k
            → items (get_touch l k i) ≡ item l.expiration_map e ∷ others k (items l)
        touched i h e at same =
            ap items (moved i h)
            ∙ (ap (items_of l.expiration_map) (to_front-eq i l.lru_list e at)
                ∙ ap (λ xs. item l.expiration_map e ∷ xs)
                    (items-remove i h e at same l.expiration_map (λ j n. refl)))

        chosen :
            (i : ℕ)
            → find key_dec k l.element_map ≡ some i
            → (e : Element V) → elem_of i l.lru_list ≡ some e
            → e.key ≡ k
            → (b : Bool) → has_expired (find key_dec e.key l.expiration_map) now ≡ b
            → view (outcome i e.value b) ≡ answer now (some (item l.expiration_map e))
        chosen i h e at same true q = rw q refl
        chosen i h e at same false q =
            rw q (ap (λ xs. (xs, some e.value, false)) (touched i h e at same))
