-- ===== src/Lru/Refine/Writes.antt =====
-- What `Delete` and `SetWithExpiration` of the cache of store/lru do to the items.
use my_cache_go.Common.{
  ℕ, ◌+◌, ◌^◌, ◌<◌, ◌%◌, ◌≡◌, refl, ap, sym, ◌∙◌, List, ◌∷◌, Option, none, some, Bool, true, false,
  Option-cases, inl, inr, if_neg, All-map, length, Key, key_dec, arith,
}
use my_cache_go.Common.Int64.{Int64, sub64}
use my_cache_go.Common.Dict as Dict
use my_cache_go.Common.Dict.{find, find-delete, find-insert}
use my_cache_go.Lru.{
  Lru, size_of, delete, remove_element, evict, store, update, push, with_expiration,
}
use my_cache_go.Lru.Elements.{Element, elem_of, remove}
use my_cache_go.Lru.Elements.Laws.{to_front-replace}
use my_cache_go.Lru.Inv.{IsLru}
use my_cache_go.Lru.Bound.{weight}
use my_cache_go.Lru.Keeps.{push-IsLru, with_expiration-ne}
use my_cache_go.Lru.Fitting.Expired.{Enumerates}
use my_cache_go.Lru.Spec as Spec
use my_cache_go.Lru.Spec.{Item, find_item, others, fresh, fit, item_of}
use my_cache_go.Lru.Refine.{items, items_of, item, items_of-eq, find_item-absent}
use my_cache_go.Lru.Refine.Moves.{items-remove, found_item, items-evict}
use my_cache_go.Lru.Refine.Weights.{others-absent}

-- The result of a lookup as a Boolean.
abbrev pub is_there {ℓ} : {A : Type ℓ} → Option A → Bool
is_there none = false
is_there (some a) = true

-- A cache without an element.
abbrev without {ℓ} : {V : Type ℓ} → (V → ℕ) → Lru V → ℕ → Element V → Lru V
without len l i e = record l {
  lru_list = remove i l.lru_list;
  element_map = Dict.delete key_dec e.key l.element_map;
  expiration_map = Dict.delete key_dec e.key l.expiration_map;
  used_bytes = sub64 l.used_bytes (size_of len e % 2 ^ 64);
}

module _ {ℓ} {V : Type ℓ} (len : V → ℕ) (l : Lru V) (v : IsLru len l) (k : Key) where
  not_found : find key_dec k l.element_map ≡ none → find_item k (items l) ≡ none
  not_found h = find_item-absent l.expiration_map l.element_map k l.lru_list v.indexed h

  pub items-delete :
      (items (delete len l k).0 ≡ (Spec.delete (items l) k).0)
      × ((delete len l k).2 ≡ (Spec.delete (items l) k).1)
  items-delete = elim (Option-cases (find key_dec k l.element_map)) [
    | inl h ↦ (
      ap (λ (r : Lru V). items r) (kept h).0 ∙ sym (others-absent k (items l) (not_found h)),
      (kept h).1 ∙ sym (Spec-delete ∙ ap is_there (not_found h)),
    )
    | inr (i, h) ↦
        let (e, at, same) = v.found k i h in
        (
          ap (λ (r : Lru V). items r) (gone i h).0
              ∙ (ap (λ (r : Lru V). items r) (removed i e at)
                  ∙ items-remove len l v k i h e at same
                      (Dict.delete key_dec e.key l.expiration_map)
                      (λ j n.
                        find-delete key_dec e.key j l.expiration_map
                        ∙ if_neg (key_dec e.key j) (λ q. n (sym same ∙ q)) _ _)),
          (gone i h).1 ∙ sym (Spec-delete ∙ ap is_there (found_item len l v k i h e at same)),
        )
  ]
    where
      kept :
          find key_dec k l.element_map ≡ none
          → ((delete len l k).0 ≡ l) × ((delete len l k).2 ≡ false)
      kept h = unfold delete in ground (arith, h)

      gone :
          (i : ℕ)
          → find key_dec k l.element_map ≡ some i
          → ((delete len l k).0 ≡ (remove_element len l i).0) × ((delete len l k).2 ≡ true)
      gone i h = unfold delete in ground (arith, h)

      removed :
          (i : ℕ) (e : Element V)
          → elem_of i l.lru_list ≡ some e
          → (remove_element len l i).0 ≡ without len l i e
      removed i e at = unfold remove_element in rw (at, remove_element) refl

      Spec-delete : (Spec.delete (items l) k).1 ≡ is_there (find_item k (items l))
      Spec-delete = choose (find_item k (items l))
        where
          choose :
              (o : Option (Item V))
              → elim o as (λ x. Bool) [ none ↦ false | some _ ↦ true ] ≡ is_there o
          choose none = refl
          choose (some x) = refl

  module _ (x : V) (exp : Int64) (now : ℕ) where
    -- The expiration map that a set leaves before `evict`.
    abbrev written : List (Key × ℕ)
    written = (with_expiration len l k exp now).expiration_map

    written-key : find key_dec k written ≡ (item_of k x exp now).deadline
    written-key = ground (
      arith,
      find-insert key_dec k k (now + exp) l.expiration_map,
      find-delete key_dec k k l.expiration_map,
    )

    -- The entry of the key, with the new value.
    written-item : (e : Element V) → e.key ≡ k → e.value ≡ x → item written e ≡ item_of k x exp now
    written-item e same eq = λ j. record {
      key = same j;
      value = eq j;
      deadline = (ap (λ a. find key_dec a written) same ∙ written-key) j;
    }

    items-update :
        (i : ℕ) (e : Element V)
        → find key_dec k l.element_map ≡ some i
        → elem_of i l.lru_list ≡ some e
        → e.key ≡ k
        → items (update len (with_expiration len l k exp now) i e x)
          ≡ item_of k x exp now ∷ others k (items l)
    unfolding update
    items-update i e h at same =
        ap (items_of written) (to_front-replace i x l.lru_list e at)
        ∙ (ap (λ y. y ∷ items_of written (remove i l.lru_list))
              (written-item (record e { value = x }) same refl)
            ∙ ap (λ xs. item_of k x exp now ∷ xs)
                (items-remove len l v k i h e at same written
                  (with_expiration-ne len l v k exp now)))

    abbrev pushed : Lru V
    pushed = push len (with_expiration len l k exp now) k x

    items-push : find key_dec k l.element_map ≡ none → items pushed ≡ item_of k x exp now ∷ items l
    unfolding push
    items-push h =
        ap (λ y. y ∷ items_of written l.lru_list)
          (written-item (record { id = l.next_id; key = k; value = x }) refl refl)
        ∙ ap (λ xs. item_of k x exp now ∷ xs)
            (items_of-eq written l.expiration_map l.lru_list (
              All-map (λ e. find key_dec e.key l.element_map ≡ some e.id)
                (λ e. find key_dec e.key written ≡ find key_dec e.key l.expiration_map) l.lru_list
                (λ e q.
                  with_expiration-ne len l v k exp now e.key
                    (λ r. ground (arith, q, h, ap (λ a. find key_dec a l.element_map) r)))
                v.indexed))

    module _ (later : ℕ) (order : List (Key × ℕ) → List (Key × ℕ)) where
      added :
          find key_dec k l.element_map ≡ none
          → (store len l k x exp now later order).0
            ≡ (evict len pushed later (order pushed.expiration_map)).0
      added h = unfold store in rw (h, store)

      updated :
          (i : ℕ) (e : Element V)
          → find key_dec k l.element_map ≡ some i
          → elem_of i l.lru_list ≡ some e
          → (store len l k x exp now later order).0
            ≡ update len (with_expiration len l k exp now) i e x
      updated i e h at = unfold store in rw (h, store) (rw at)

      -- The list with the value, by what it finds.
      abbrev stored : Option (Item V) → List (Item V)
      stored (some y) = item_of k x exp now ∷ others k (items l)
      stored none = fit len l.max_bytes (fresh later (item_of k x exp now ∷ items l))

      Spec-set :
          Spec.set len l.max_bytes (items l) k (some x) exp now later
          ≡ stored (find_item k (items l))
      Spec-set = choose (find_item k (items l))
        where
          choose :
              (o : Option (Item V))
              → elim o as (λ y. List (Item V)) [
                | some y ↦ item_of k x exp now ∷ others k (items l)
                | none ↦ fit len l.max_bytes (fresh later (item_of k x exp now ∷ items l))
              ]
                ≡ stored o
          choose none = refl
          choose (some y) = refl

      pub items-store :
          Enumerates written (order written)
          → 0 < l.max_bytes
          → l.max_bytes < 2 ^ 63
          → length k + len x + weight len l < 2 ^ 63
          → items (store len l k x exp now later order).0
            ≡ Spec.set len l.max_bytes (items l) k (some x) exp now later
      items-store listed p b w = elim (Option-cases (find key_dec k l.element_map)) [
        | inr (i, h) ↦
            let (e, at, same) = v.found k i h in
            ap (λ (r : Lru V). items r) (updated i e h at)
            ∙ (items-update i e h at same
                ∙ sym (Spec-set ∙ ap stored (found_item len l v k i h e at same)))
        | inl h ↦
            ap (λ (r : Lru V). items r) (added h)
            ∙ (evicted h
                ∙ (ap (λ ys. fit len l.max_bytes (fresh later ys)) (items-push h)
                    ∙ sym (Spec-set ∙ ap stored (not_found h))))
      ]
        where
          evicted :
              find key_dec k l.element_map ≡ none
              → items (evict len pushed later (order pushed.expiration_map)).0
                ≡ fit len l.max_bytes (fresh later (items pushed))
          evicted h =
              unfold push in
              items-evict len pushed later (order pushed.expiration_map)
                (push-IsLru len l v k exp now x h) listed p b w
