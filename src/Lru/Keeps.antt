-- ===== src/Lru/Keeps.antt =====
-- The operations of the cache of store/lru and its invariant.
use my_cache_go.Common.{
  ℕ, ℕ_discrete, ◌+◌, ◌<◌, ◌≡◌, ◌≢◌, refl, sym, ◌∙◌, subst, ap, List, ◌∷◌, none, some, Bool,
  Option-cases, ◌⊎◌, inl, inr, if_pos, if_neg, All-map, Key, key_dec, arith,
}
use my_cache_go.Common.Int64.{Int64}
use my_cache_go.Common.Dict
use my_cache_go.Common.Dict.{find, find-delete, find-insert}
use my_cache_go.Lru.{
  Lru, Read, get_touch, get, get_read, absent, stale, hit, store, new, clear, remove_key, evict,
  delete, push, update, with_expiration,
}
use my_cache_go.Lru.Elements.{Element, elem_of, to_front}
use my_cache_go.Lru.Elements.Laws.{elem_of-id, elem_of-All, to_front-eq, to_front-replace}
use my_cache_go.Lru.Inv.{IsLru, front, front-IsLru}
use my_cache_go.Lru.Evicts.{remove_key-IsLru, evict-IsLru}

Read-cases {ℓ} :
    {V : Type ℓ} (r : Read V) → ((r ≡ absent) ⊎ (r ≡ stale)) ⊎ ((i : ℕ) × (x : V) × (r ≡ hit i x))
Read-cases absent = inl (inl refl)
Read-cases stale = inl (inr refl)
Read-cases (hit i x) = inr (i, x, refl)

module _ {ℓ} {V : Type ℓ} (len : V → ℕ) where
  module _ (l : Lru V) (v : IsLru len l) (k : Key) (exp : Int64) (now : ℕ) where
    -- The expiration map of the other keys.
    pub with_expiration-ne :
        (j : Key)
        → k ≢ j
        → find key_dec j (with_expiration len l k exp now).expiration_map
          ≡ find key_dec j l.expiration_map
    with_expiration-ne j ne = ground (
      arith,
      find-insert key_dec k j (now + exp) l.expiration_map,
      find-delete key_dec k j l.expiration_map,
    )

    with_expiration-IsLru :
        (i : ℕ)
        → find key_dec k l.element_map ≡ some i
        → IsLru len (with_expiration len l k exp now)
    with_expiration-IsLru i h = record {
      distinct = v.distinct;
      fresh = v.fresh;
      indexed = v.indexed;
      found = v.found;
      expiring = λ j q.
          with_expiration-ne j (λ r. cc (h, q, ap (λ x. find key_dec x l.element_map) r))
          ∙ v.expiring j q;
      used = v.used;
    }

    module _ (x : V) (absent_key : find key_dec k l.element_map ≡ none) where
      push_found :
          (j : Key) (i : ℕ)
          → find key_dec j (Dict.insert key_dec k l.next_id l.element_map) ≡ some i
          → (f : Element V) × (elem_of i
                (record { id = l.next_id; key = k; value = x } ∷ l.lru_list)
              ≡ some f)
            × (f.key ≡ j)
      unfolding elem_of
      push_found j i h = elim (key_dec k j) [
        | yes p ↦ (
          record { id = l.next_id; key = k; value = x },
          if_pos (ℕ_discrete l.next_id i)
              (ground (arith, find-insert key_dec k j l.next_id l.element_map)) _ _,
          p,
        )
        | no p ↦
            let old =
              let t : find key_dec j l.element_map ≡ some i =
                ground (arith, find-insert key_dec k j l.next_id l.element_map) in
              t in
            let (f, r, q) = v.found j i old in
            let ne =
              let t : l.next_id ≢ i = omega (
                arith,
                elem_of-All (λ g. g.id < l.next_id) i l.lru_list f v.fresh r,
                elem_of-id i l.lru_list f r,
              ) in
              t in
            (f, if_neg (ℕ_discrete l.next_id i) ne _ _ ∙ r, q)
      ]

      pub push-IsLru : IsLru len (push len (with_expiration len l k exp now) k x)
      unfolding push
      push-IsLru = record {
        distinct = (
          All-map _ _ l.lru_list (λ (f : Element V) (q : f.id < l.next_id). omega arith) v.fresh,
          v.distinct,
        );
        fresh = (
          omega arith,
          All-map _ _ l.lru_list (λ (f : Element V) (q : f.id < l.next_id). omega arith) v.fresh,
        );
        indexed = (
          ground (arith, find-insert key_dec k k l.next_id l.element_map),
          All-map _ _ l.lru_list
              (λ (f : Element V) (q : find key_dec f.key l.element_map ≡ some f.id).
                ground (arith, find-insert key_dec k f.key l.next_id l.element_map))
              v.indexed,
        );
        found = push_found;
        expiring = λ j q.
            let ne =
              let t : k ≢ j = ground (arith, find-insert key_dec k j l.next_id l.element_map) in
              t in
            let old =
              let t : find key_dec j l.element_map ≡ none =
                ground (arith, find-insert key_dec k j l.next_id l.element_map) in
              t in
            with_expiration-ne j ne ∙ v.expiring j old;
        used = omega (arith, v.used);
      }

    -- The branch of `store` for a key that is there.
    update-IsLru :
        (i : ℕ) (e : Element V) (x : V)
        → find key_dec k l.element_map ≡ some i
        → elem_of i l.lru_list ≡ some e
        → IsLru len (update len (with_expiration len l k exp now) i e x)
    update-IsLru i e x h at =
        let l1 = with_expiration len l k exp now in
        let w = with_expiration-IsLru i h in
        subst (λ r. IsLru len r) (sym (code at)) (front-IsLru len l1 w i e at x)
      where
        code :
            (q : elem_of i l.lru_list ≡ some e)
            → update len (with_expiration len l k exp now) i e x
              ≡ front len (with_expiration len l k exp now) (with_expiration-IsLru i h) i e q x
        code q =
            unfold update in
            λ j.
              record (front len (with_expiration len l k exp now) (with_expiration-IsLru i h) i e q
                x) { lru_list = to_front-replace i x l.lru_list e q j }

  module _ (l : Lru V) (v : IsLru len l) (k : Key) where
    -- `SetWithExpiration` with a value keeps the invariant, on every branch and in every order of
    -- the iteration.
    pub store-IsLru :
        (x : V) (exp : Int64) (now later : ℕ) (order : List (Key × ℕ) → List (Key × ℕ))
        → IsLru len (store len l k x exp now later order).0
    store-IsLru x exp now later order = elim (Option-cases (find key_dec k l.element_map)) [
      | inl h ↦
          subst (λ r. IsLru len r) (sym (added h))
            (evict-IsLru len _ later _ (push-IsLru l v k exp now x h))
      | inr (i, h) ↦
          let (e, at, _) = v.found k i h in
          subst (λ r. IsLru len r) (sym (updated i e h at)) (update-IsLru l v k exp now i e x h at)
    ]
      where
        added :
            find key_dec k l.element_map ≡ none
            → (store len l k x exp now later order).0
              ≡ (evict len
                  (push len (with_expiration len l k exp now) k x)
                  later
                  (order (push len (with_expiration len l k exp now) k x).expiration_map)).0
        added h = unfold store in rw (h, store)

        updated :
            (i : ℕ) (e : Element V)
            → find key_dec k l.element_map ≡ some i
            → elem_of i l.lru_list ≡ some e
            → (store len l k x exp now later order).0
              ≡ update len (with_expiration len l k exp now) i e x
        updated i e h at = unfold store in rw (h, store) (rw at)

    -- `Delete` keeps the invariant.
    pub delete-IsLru : IsLru len (delete len l k).0
    delete-IsLru = subst (λ r. IsLru len r) (sym code) (remove_key-IsLru len l k v)
      where
        code : (delete len l k).0 ≡ (remove_key len l k).0
        code = unfold delete remove_key in ground arith

    pub get_touch-IsLru : (i : ℕ) → IsLru len (get_touch l k i)
    get_touch-IsLru i = elim (Option-cases (elem_of i l.lru_list)) [
      | inl h ↦ subst (λ r. IsLru len r) (sym (left_alone h)) v
      | inr (e, h) ↦ elim (Option-cases (find key_dec k l.element_map)) [
        | inl q ↦ subst (λ r. IsLru len r) (sym (gone q)) v
        | inr (j, q) ↦
            subst (λ r. IsLru len r) (sym (moved e h j q)) (front-IsLru len l v i e h e.value)
      ]
    ]
      where
        left_alone : elem_of i l.lru_list ≡ none → get_touch l k i ≡ l
        left_alone h = unfold get_touch to_front in ground (arith, h)

        gone : find key_dec k l.element_map ≡ none → get_touch l k i ≡ l
        gone q = unfold get_touch in ground (arith, q)

        moved :
            (e : Element V) (h : elem_of i l.lru_list ≡ some e) (j : ℕ)
            → find key_dec k l.element_map ≡ some j
            → get_touch l k i ≡ front len l v i e h e.value
        moved e h j q = unfold get_touch in ground (arith, q, to_front-eq i l.lru_list e h, v.used)

    -- `Get` keeps the invariant.
    pub get-IsLru : (now : ℕ) → IsLru len (get l k now).0
    get-IsLru now = elim (Read-cases (get_read l k now)) [
      | inl h ↦ subst (λ r. IsLru len r) (sym (kept h)) v
      | inr (i, x, h) ↦ subst (λ r. IsLru len r) (sym (touched i x h)) (get_touch-IsLru i)
    ]
      where
        kept : (get_read l k now ≡ absent) ⊎ (get_read l k now ≡ stale) → (get l k now).0 ≡ l
        kept h = unfold get in ground (arith, h)

        touched : (i : ℕ) (x : V) → get_read l k now ≡ hit i x → (get l k now).0 ≡ get_touch l k i
        touched i x h = unfold get in ground (arith, h)

  pub clear-IsLru : (l : Lru V) (order : List (Key × ℕ)) → IsLru len (clear l order).0
  unfolding clear find
  clear-IsLru l order = record {
    distinct = tt;
    fresh = tt;
    indexed = tt;
    found = λ k i h. absurd (cc);
    expiring = λ k h. refl;
    used = refl;
  }

pub new-IsLru {ℓ} :
    (V : Type ℓ) (len : V → ℕ) (max : Int64) (notify : Bool) → IsLru {V = V} len (new max notify)
unfolding new find
new-IsLru V len max notify = record {
  distinct = tt;
  fresh = tt;
  indexed = tt;
  found = λ k i h. absurd (cc);
  expiring = λ k h. refl;
  used = refl;
}
