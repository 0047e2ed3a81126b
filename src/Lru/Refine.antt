-- ===== src/Lru/Refine.antt =====
-- The cache of store/lru as the list of its items.
pub mod Limits
pub mod Moves
pub mod Runs
mod Tests
pub mod Weights
pub mod Writes
use my_cache_go.Common.{
  ℕ, suc, ◌+◌, ◌≡◌, ◌≢◌, refl, ap, sym, subst, ◌∙◌, List, [], ◌∷◌, Option, none, some, Bool, true,
  false, not, if◌then◌else◌, leb, ◌-◌, Bool-cases, Option-cases, inl, inr, if_pos, if_neg, All,
  All-map, ite, ℕ_discrete, length, Key, key_dec, arith,
}
use my_cache_go.Common.Dict as Dict
use my_cache_go.Common.Dict.{find, find-delete}
use my_cache_go.Lru.{Lru, has_expired, size_of, evict}
use my_cache_go.Lru.Elements.{Element, elem_of, remove}
use my_cache_go.Lru.Elements.Laws.{DistinctIds, total}
use my_cache_go.Lru.Inv.{IsLru}
use my_cache_go.Lru.Fitting.{fitting}
use my_cache_go.Lru.Fitting.Expired.{keep}
use my_cache_go.Lru.Spec as Spec
use my_cache_go.Lru.Spec.{Item, differs, find_item, others, fresh, fit}

module _ {ℓ} {V : Type ℓ} where
  abbrev pub item : List (Key × ℕ) → Element V → Item V
  item m e = record { key = e.key; value = e.value; deadline = find key_dec e.key m }

  abbrev pub items_of : List (Key × ℕ) → List (Element V) → List (Item V)
  items_of m [] = []
  items_of m (e ∷ xs) = item m e ∷ items_of m xs

  -- The items of a cache.
  abbrev pub items : Lru V → List (Item V)
  items l = items_of l.expiration_map l.lru_list

  -- Deadlines that stay make the items stay.
  pub items_of-eq :
      (m m' : List (Key × ℕ)) (xs : List (Element V))
      → All (λ e. find key_dec e.key m ≡ find key_dec e.key m') xs
      → items_of m xs ≡ items_of m' xs
  items_of-eq m m' [] a = refl
  items_of-eq m m' (e ∷ xs) a =
      λ i. (record { key = e.key; value = e.value; deadline = a.0 i }) ∷ items_of-eq m m' xs a.1 i

  pub items_of-keep :
      (m : List (Key × ℕ)) (now : ℕ) (xs : List (Element V))
      → items_of m (keep (λ e. not (has_expired (find key_dec e.key m) now)) xs)
        ≡ fresh now (items_of m xs)
  items_of-keep m now [] = refl
  items_of-keep m now (e ∷ xs) = elim (Bool-cases (has_expired (find key_dec e.key m) now)) [
    | inl h ↦ rw h (items_of-keep m now xs)
    | inr h ↦ rw h (ap (λ ys. item m e ∷ ys) (items_of-keep m now xs))
  ]

  -- The other keys, where their deadlines are the same.
  pub items_of-others :
      (m m' : List (Key × ℕ)) (k : Key) (xs : List (Element V))
      → ((j : Key) → k ≢ j → find key_dec j m' ≡ find key_dec j m)
      → items_of m' (keep (λ e. differs k e.key) xs) ≡ others k (items_of m xs)
  items_of-others m m' k [] h = refl
  items_of-others m m' k (e ∷ xs) h = elim (key_dec k e.key) [
    | yes p ↦ rw (if_pos (key_dec k e.key) p) (items_of-others m m' k xs h)
    | no p ↦ rw (if_neg (key_dec k e.key) p) (λ i.
        (record { key = e.key; value = e.value; deadline = h e.key p i })
        ∷ items_of-others m m' k xs h i)
  ]

  -- A key of the map is the key of an item.
  pub find_item-items_of :
      (m em : List (Key × ℕ)) (k : Key) (i : ℕ) (e : Element V) (xs : List (Element V))
      → All (λ f. find key_dec f.key em ≡ some f.id) xs
      → find key_dec k em ≡ some i
      → elem_of i xs ≡ some e
      → e.key ≡ k
      → find_item k (items_of m xs) ≡ some (item m e)
  unfolding elem_of
  find_item-items_of m em k i e [] a h at same = absurd (ground (arith, at))
  find_item-items_of m em k i e (f ∷ xs) a h at same = elim (ℕ_discrete f.id i) [
    | yes p ↦
        let one = let t : some f ≡ some e = sym (if_pos (ℕ_discrete f.id i) p _ _) ∙ at in t in
        if_pos (key_dec k f.key)
          (sym (ap (λ (o : Option (Element V)). elim o [ none ↦ k | some g ↦ g.key ]) one ∙ same)) _
          _
        ∙ ap (λ (o : Option (Element V)). elim o [ none ↦ none | some g ↦ some (item m g) ]) one
    | no p ↦
        if_neg (key_dec k f.key) (λ q. p (ground (arith, a.0, h, ap (λ j. find key_dec j em) q))) _
          _
        ∙ find_item-items_of m em k i e xs a.1 h
            (sym (if_neg (ℕ_discrete f.id i) p (some f) (elem_of i xs)) ∙ at) same
  ]

  pub find_item-absent :
      (m em : List (Key × ℕ)) (k : Key) (xs : List (Element V))
      → All (λ f. find key_dec f.key em ≡ some f.id) xs
      → find key_dec k em ≡ none
      → find_item k (items_of m xs) ≡ none
  find_item-absent m em k [] a h = refl
  find_item-absent m em k (f ∷ xs) a h =
      if_neg (key_dec k f.key) (λ q. ground (arith, a.0, h, ap (λ j. find key_dec j em) q)) _ _
      ∙ find_item-absent m em k xs a.1 h

module _ {ℓ} {V : Type ℓ} (len : V → ℕ) where
  pub items_of-fitting :
      (m : List (Key × ℕ)) (max : ℕ) (xs : List (Element V))
      → items_of m (fitting len max xs) ≡ fit len max (items_of m xs)
  items_of-fitting m max [] = refl
  items_of-fitting m max (e ∷ xs) = elim (Bool-cases (leb (size_of len e) max)) [
    | inl h ↦ rw h (ap (λ ys. item m e ∷ ys) (items_of-fitting m (max - size_of len e) xs))
    | inr h ↦ rw h refl
  ]

  pub weight-items_of :
      (m : List (Key × ℕ)) (xs : List (Element V))
      → Spec.weight len (items_of m xs) ≡ total (size_of len) xs
  weight-items_of m [] = refl
  weight-items_of m (e ∷ xs) = ap (λ n. size_of len e + n) (weight-items_of m xs)

  pub length-items_of :
      (m : List (Key × ℕ)) (xs : List (Element V)) → length (items_of m xs) ≡ length xs
  length-items_of m [] = refl
  length-items_of m (e ∷ xs) = ap suc (length-items_of m xs)
