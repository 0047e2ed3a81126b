-- ===== src/Lru/Fitting/Expired.antt =====
-- The first loop of `evict` of store/lru as a filter on the entries.
use my_cache_go.Common.{
  ℕ, ◌≡◌, ◌≢◌, refl, sym, ◌∙◌, ap, List, [], ◌∷◌, none, some, Bool, true, false, not, ◌&&◌, ltb,
  if◌then◌else◌, ite, if_pos, if_neg, Bool-cases, Option-cases, inl, inr, All, All-map, Key,
  key_dec, arith, ℕ_discrete,
}
use my_cache_go.Common.Dict.{find}
use my_cache_go.Lru.{Lru, has_expired, remove_element, remove_key, evict_expired}
use my_cache_go.Lru.Elements.{Element, elem_of, remove}
use my_cache_go.Lru.Elements.Laws.{DistinctIds}
use my_cache_go.Lru.Inv.{IsLru}
use my_cache_go.Lru.Spec.{differs}
use my_cache_go.Lru.Evicts.{remove_key-IsLru}

-- The elements that pass a test.
abbrev pub keep {ℓ} : {V : Type ℓ} → (Element V → Bool) → List (Element V) → List (Element V)
keep p [] = []
keep p (e ∷ xs) = let rest = keep p xs in if p e then e ∷ rest else rest

-- An iteration over a map has the pairs of the map, and no others.
abbrev pub Enumerates : List (Key × ℕ) → List (Key × ℕ) → Type 0
Enumerates m order =
    All (λ p. find key_dec p.0 m ≡ some p.1) order
    × ((k : Key) → find key_dec k order ≡ find key_dec k m)

-- A pair of the iteration is of this key and has expired.
abbrev stale_in : List (Key × ℕ) → ℕ → Key → Bool
stale_in [] now k = false
stale_in ((j, t) ∷ order) now k =
    let rest = stale_in order now k in if ite (key_dec j k) (ltb t now) false then true else rest

stale_in-none :
    (m order : List (Key × ℕ)) (now : ℕ) (k : Key)
    → All (λ p. find key_dec p.0 m ≡ some p.1) order
    → stale_in order now k
      ≡ elim (find key_dec k order) [ none ↦ false | some _ ↦ has_expired (find key_dec k m) now ]
unfolding find
stale_in-none m [] now k a = refl
stale_in-none m ((j, t) ∷ order) now k a = elim (key_dec j k) [
  | yes q ↦
      let same =
        let u : find key_dec k m ≡ some t = ap (λ i. find key_dec i m) (sym q) ∙ a.0 in u in
      ground (arith, q, same, stale_in-none m order now k a.1)
  | no q ↦ ground (arith, q, stale_in-none m order now k a.1)
]

-- What the iteration says of a key is what the map says of it.
stale_in-has_expired :
    (m order : List (Key × ℕ)) (now : ℕ) (k : Key)
    → Enumerates m order
    → stale_in order now k ≡ has_expired (find key_dec k m) now
stale_in-has_expired m order now k h = ground (arith, stale_in-none m order now k h.0, h.1 k)

module _ {ℓ} {V : Type ℓ} where
  pub keep-eq :
      (p q : Element V → Bool) (xs : List (Element V))
      → All (λ e. p e ≡ q e) xs
      → keep p xs ≡ keep q xs
  keep-eq p q [] a = refl
  keep-eq p q (e ∷ xs) a = ground (arith, a.0, keep-eq p q xs a.1)

  pub keep-all :
      (p : Element V → Bool) (xs : List (Element V)) → All (λ e. p e ≡ true) xs → keep p xs ≡ xs
  keep-all p [] a = refl
  keep-all p (e ∷ xs) a = ground (arith, a.0, keep-all p xs a.1)

  keep-keep :
      (p q : Element V → Bool) (xs : List (Element V))
      → keep q (keep p xs) ≡ keep (λ e. p e && q e) xs
  keep-keep p q [] = refl
  keep-keep p q (e ∷ xs) = elim (Bool-cases (p e)) [
    | inl h ↦ rw h (ap (λ ys. if q e then e ∷ ys else ys) (keep-keep p q xs))
    | inr h ↦ rw h (keep-keep p q xs)
  ]

  -- Taking out the element of a key leaves the elements of the other keys.
  pub remove-keep :
      (m : List (Key × ℕ)) (k : Key) (i : ℕ) (f : Element V) (xs : List (Element V))
      → DistinctIds xs
      → All (λ e. find key_dec e.key m ≡ some e.id) xs
      → find key_dec k m ≡ some i
      → elem_of i xs ≡ some f
      → f.key ≡ k
      → remove i xs ≡ keep (λ e. differs k e.key) xs
  unfolding elem_of remove
  remove-keep m k i f [] d a h at same = absurd (ground (arith, at))
  remove-keep m k i f (e ∷ xs) d a h at same = elim (ℕ_discrete e.id i) [
    | yes p ↦
        let mine = let t : k ≡ e.key = ground (arith, p, at, same) in t in
        if_pos {C = List (Element V)} (ℕ_discrete e.id i) p _ _
        ∙ rw (if_pos {C = Bool} (key_dec k e.key) mine false true) (
            sym (
              keep-all (λ g. differs k g.key) xs
                (All-both-map xs a.1 d.0 (λ g j o.
                  if_neg (key_dec k g.key)
                    (λ q. o (ground (arith, p, j, h, ap (λ x. find key_dec x m) q))) _ _))))
    | no p ↦
        let other =
          let t : k ≢ e.key = λ q. p (ground (arith, a.0, h, ap (λ x. find key_dec x m) q)) in t in
        if_neg {C = List (Element V)} (ℕ_discrete e.id i) p _ _
        ∙ rw (if_neg {C = Bool} (key_dec k e.key) other false true)
            (ap (λ ys. e ∷ ys) (remove-keep m k i f xs d.1 a.1 h (ground (arith, p, at)) same))
  ]
    where
      All-both-map :
          (ys : List (Element V))
          → All (λ g. find key_dec g.key m ≡ some g.id) ys
          → All (λ g. e.id ≢ g.id) ys
          → ((g : Element V)
              → find key_dec g.key m ≡ some g.id
              → e.id ≢ g.id
              → differs k g.key ≡ true)
          → All (λ g. differs k g.key ≡ true) ys
      All-both-map [] p q r = tt
      All-both-map (g ∷ ys) p q r = (r g p.0 q.0, All-both-map ys p.1 q.1 r)

module _ {ℓ} {V : Type ℓ} (len : V → ℕ) where
  remove_key-keep :
      (l : Lru V) (k : Key)
      → IsLru len l
      → (remove_key len l k).0.lru_list ≡ keep (λ e. differs k e.key) l.lru_list
  unfolding remove_key remove_element
  remove_key-keep l k v = elim (Option-cases (find key_dec k l.element_map)) [
    | inl h ↦
        skip h
        ∙ sym (
            keep-all (λ e. differs k e.key) l.lru_list
              (All-map (λ e. find key_dec e.key l.element_map ≡ some e.id)
                (λ e. differs k e.key ≡ true) l.lru_list
                (λ e q.
                  if_neg (key_dec k e.key)
                    (λ s. ground (arith, q, h, ap (λ x. find key_dec x l.element_map) s)) _ _)
                v.indexed))
    | inr (i, h) ↦
        let (f, at, same) = v.found k i h in
        gone i f h at ∙ remove-keep l.element_map k i f l.lru_list v.distinct v.indexed h at same
  ]
    where
      skip : find key_dec k l.element_map ≡ none → (remove_key len l k).0.lru_list ≡ l.lru_list
      skip h = ground (arith, h)

      gone :
          (i : ℕ) (f : Element V)
          → find key_dec k l.element_map ≡ some i
          → elem_of i l.lru_list ≡ some f
          → (remove_key len l k).0.lru_list ≡ remove i l.lru_list
      gone i f h at = ground (arith, h, at)

  evict_expired-keep :
      (order : List (Key × ℕ)) (l : Lru V) (now : ℕ)
      → IsLru len l
      → (evict_expired len l now order).0.lru_list
        ≡ keep (λ e. not (stale_in order now e.key)) l.lru_list
  unfolding evict_expired
  evict_expired-keep [] l now v = sym (keep-all (λ e. true) l.lru_list (every l.lru_list))
    where
      every : (xs : List (Element V)) → All (λ e. true ≡ true) xs
      every [] = tt
      every (x ∷ xs) = (refl, every xs)
  evict_expired-keep ((k, t) ∷ order) l now v = elim (Bool-cases (ltb t now)) [
    | inl h ↦
        due h
        ∙ (evict_expired-keep order (remove_key len l k).0 now (remove_key-IsLru len l k v)
            ∙ (ap (keep (λ e. not (stale_in order now e.key))) (remove_key-keep l k v)
                ∙ (keep-keep (λ e. differs k e.key) (λ e. not (stale_in order now e.key)) l.lru_list
                    ∙ keep-eq (λ e. differs k e.key && not (stale_in order now e.key))
                        (λ e. not (stale_in ((k, t) ∷ order) now e.key)) l.lru_list
                        (every (λ e. differs k e.key && not (stale_in order now e.key))
                          (λ e. not (stale_in ((k, t) ∷ order) now e.key)) l.lru_list
                          (λ e. ground (arith, h))))))
    | inr h ↦
        early h
        ∙ (evict_expired-keep order l now v
            ∙ keep-eq (λ e. not (stale_in order now e.key))
                (λ e. not (stale_in ((k, t) ∷ order) now e.key)) l.lru_list
                (every (λ e. not (stale_in order now e.key))
                  (λ e. not (stale_in ((k, t) ∷ order) now e.key)) l.lru_list
                  (λ e. ground (arith, h))))
  ]
    where
      due :
          ltb t now ≡ true
          → (evict_expired len l now ((k, t) ∷ order)).0.lru_list
            ≡ (evict_expired len (remove_key len l k).0 now order).0.lru_list
      due h = rw h refl

      early :
          ltb t now ≡ false
          → (evict_expired len l now ((k, t) ∷ order)).0.lru_list
            ≡ (evict_expired len l now order).0.lru_list
      early h = rw h refl

      every :
          (p q : Element V → Bool) (xs : List (Element V))
          → ((e : Element V) → p e ≡ q e)
          → All (λ e. p e ≡ q e) xs
      every p q [] h = tt
      every p q (x ∷ xs) h = (h x, every p q xs h)

  -- After the first loop of `evict` the entries are the ones that had not expired, in their order.
  pub evict_expired-live :
      (l : Lru V) (now : ℕ) (order : List (Key × ℕ))
      → IsLru len l
      → Enumerates l.expiration_map order
      → (evict_expired len l now order).0.lru_list
        ≡ keep (λ e. not (has_expired (find key_dec e.key l.expiration_map) now)) l.lru_list
  evict_expired-live l now order v h =
      evict_expired-keep order l now v
      ∙ ap (λ (p : Key → Bool). keep (λ e. not (p e.key)) l.lru_list)
          (λ i k. stale_in-has_expired l.expiration_map order now k h i)
