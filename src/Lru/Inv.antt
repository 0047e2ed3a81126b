-- ===== src/Lru/Inv.antt =====
-- The representation invariant of the cache of store/lru.
use my_cache_go.Common.{
  ℕ, ℕ_discrete, ◌%◌, ◌^◌, ◌<◌, ◌≡◌, ◌≢◌, sym, ◌∙◌, subst, ap, ◌∷◌, none, some, if_pos, if_neg, All,
  All-map, All-both, Key, key_dec, arith,
}
use my_cache_go.Common.Int64.{add64, sub64}
use my_cache_go.Common.Dict
use my_cache_go.Common.Dict.{find, find-delete, find-insert}
use my_cache_go.Lru.{Lru, size_of}
use my_cache_go.Lru.Elements.{Element, elem_of, remove}
use my_cache_go.Lru.Elements.Laws.{
  DistinctIds, total, elem_of-id, elem_of-All, elem_of-remove_ne, remove-All, remove-DistinctIds,
  remove-ne, total-remove,
}

-- The element map leads from each key to its element and from no other key; no element expires
-- that is not there; `usedBytes` is the size of the entries, on int64.
pub record IsLru {ℓ} {V : Type ℓ} (len : V → ℕ) (l : Lru V) : Type ℓ where
  pub distinct : DistinctIds l.lru_list
  pub fresh : All (λ e. e.id < l.next_id) l.lru_list
  pub indexed : All (λ e. find key_dec e.key l.element_map ≡ some e.id) l.lru_list
  pub found :
      (k : Key) (i : ℕ)
      → find key_dec k l.element_map ≡ some i
      → (e : Element V) × (elem_of i l.lru_list ≡ some e) × (e.key ≡ k)
  pub expiring :
      (k : Key) → find key_dec k l.element_map ≡ none → find key_dec k l.expiration_map ≡ none
  pub used : l.used_bytes ≡ total (size_of len) l.lru_list % 2 ^ 64

module _ {ℓ} {V : Type ℓ} (len : V → ℕ) where
  module _ (l : Lru V) (v : IsLru len l) (i : ℕ) (e : Element V)
      (at : elem_of i l.lru_list ≡ some e) where
    -- The cache without the element.
    abbrev pub without : Lru V
    without = record l {
      lru_list = remove i l.lru_list;
      element_map = Dict.delete key_dec e.key l.element_map;
      expiration_map = Dict.delete key_dec e.key l.expiration_map;
      used_bytes = sub64 l.used_bytes (size_of len e % 2 ^ 64);
    }

    mapped : find key_dec e.key l.element_map ≡ some i
    mapped =
        elem_of-All (λ f. find key_dec f.key l.element_map ≡ some f.id) i l.lru_list e v.indexed at
        ∙ ap some (elem_of-id i l.lru_list e at)

    without_found :
        (k : Key) (j : ℕ)
        → find key_dec k (Dict.delete key_dec e.key l.element_map) ≡ some j
        → (f : Element V) × (elem_of j (remove i l.lru_list) ≡ some f) × (f.key ≡ k)
    without_found k j h =
        let ne =
          let t : e.key ≢ k = ground (arith, find-delete key_dec e.key k l.element_map) in t in
        let old =
          let t : find key_dec k l.element_map ≡ some j =
            ground (arith, find-delete key_dec e.key k l.element_map) in
          t in
        let (f, p, q) = v.found k j old in
        let other =
          let t : j ≢ i = λ r. ne (cc (p, at, q, ap (λ x. elem_of x l.lru_list) r)) in t in
        (f, elem_of-remove_ne i j l.lru_list other ∙ p, q)

    still_mapped :
        (f : Element V)
        → (find key_dec f.key l.element_map ≡ some f.id) × (i ≢ f.id)
        → find key_dec f.key (Dict.delete key_dec e.key l.element_map) ≡ some f.id
    still_mapped f h = ground (arith, find-delete key_dec e.key f.key l.element_map, mapped)

    pub without-IsLru : IsLru len without
    without-IsLru = record {
      distinct = remove-DistinctIds i l.lru_list v.distinct;
      fresh = remove-All _ i l.lru_list v.fresh;
      indexed = All-map _ _ (remove i l.lru_list) still_mapped (
          All-both _ _ (remove i l.lru_list) (remove-All _ i l.lru_list v.indexed)
            (remove-ne i l.lru_list v.distinct));
      found = without_found;
      expiring = λ k h. ground (
        arith,
        find-delete key_dec e.key k l.element_map,
        find-delete key_dec e.key k l.expiration_map,
        v.expiring k,
      );
      used = omega (arith, v.used, total-remove (size_of len) i l.lru_list e at);
    }

    -- The element goes to the front, with a value `x`.
    abbrev pub front : V → Lru V
    front x = record l {
      lru_list = record e { value = x } ∷ remove i l.lru_list;
      used_bytes = add64 l.used_bytes (sub64 (len x % 2 ^ 64) (len e.value % 2 ^ 64));
    }

    front_found :
        (x : V) (k : Key) (j : ℕ)
        → find key_dec k l.element_map ≡ some j
        → (f : Element V) × (elem_of j (record e { value = x } ∷ remove i l.lru_list) ≡ some f)
          × (f.key ≡ k)
    unfolding elem_of
    front_found x k j h = elim (ℕ_discrete e.id j) [
      | yes p ↦ (
        record e { value = x },
        if_pos (ℕ_discrete e.id j) p _ _,
        let r = v.found k j h in
            cc
              (at, r.1, r.2, ap (λ y. elem_of y l.lru_list) (sym p ∙ elem_of-id i l.lru_list e at)),
      )
      | no p ↦
          let (f, r, q) = v.found k j h in
          let ne = let t : j ≢ i = λ u. p (elem_of-id i l.lru_list e at ∙ sym u) in t in
          (f, if_neg (ℕ_discrete e.id j) p _ _ ∙ (elem_of-remove_ne i j l.lru_list ne ∙ r), q)
    ]

    pub front-IsLru : (x : V) → IsLru len (front x)
    front-IsLru x = record {
      distinct = (
        subst (λ j. All (λ f. j ≢ f.id) (remove i l.lru_list)) (sym (elem_of-id i l.lru_list e at))
            (remove-ne i l.lru_list v.distinct),
        remove-DistinctIds i l.lru_list v.distinct,
      );
      fresh = (
        elem_of-All (λ f. f.id < l.next_id) i l.lru_list e v.fresh at,
        remove-All _ i l.lru_list v.fresh,
      );
      indexed = (
        mapped ∙ ap some (sym (elem_of-id i l.lru_list e at)),
        remove-All _ i l.lru_list v.indexed,
      );
      found = front_found x;
      expiring = v.expiring;
      used = omega (arith, v.used, total-remove (size_of len) i l.lru_list e at);
    }
