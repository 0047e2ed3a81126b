-- ===== src/HashRing/Owner.antt =====
-- The owner of a position of the ring, without the binary search: the first key that is not less,
-- and past the last key the first of all.
use my_cache_go.Common.{
  ℕ, zero, suc, ◌≡◌, refl, List, [], ◌∷◌, Option, none, some, if◌then◌else◌, leb, ◌==◌, length,
  get_or, Key, ℕ_discrete, arith,
}
use my_cache_go.Common.Dict.{find}
use my_cache_go.HashRing
use my_cache_go.HashRing.{HashRing, locate, or_empty}
use my_cache_go.HashRing.Search.{search}
use my_cache_go.HashRing.Sorted.{Sorted, Split, search-Split}

unfoldable pub first_from : ℕ → List ℕ → Option ℕ
first_from h [] = none
first_from h (x ∷ xs) = if leb h x then some x else first_from h xs

unfoldable pub owner_key : List ℕ → ℕ → Option ℕ
owner_key [] h = none
owner_key (x ∷ xs) h = elim (first_from h (x ∷ xs)) [ some y ↦ some y | none ↦ some x ]

unfoldable pub owner : HashRing → ℕ → Key
owner r h = elim (owner_key r.keys h) [
  | none ↦ []
  | some x ↦ or_empty (find ℕ_discrete x r.hash_map)
]

first_from-Split :
    (keys : List ℕ) (h r : ℕ)
    → Split keys h r
    → first_from h keys ≡ (if r == length keys then none else some (get_or keys r 0))
unfolding first_from
first_from-Split [] h r s = ground arith
first_from-Split (x ∷ xs) h zero s = ground (arith, s.2 0 (omega arith) (omega arith))
first_from-Split (x ∷ xs) h (suc r) s =
    let ih = first_from-Split xs h r (
      omega (arith, s.0),
      λ a u. s.1 (suc a) (omega arith),
      λ a u w. s.2 (suc a) (omega arith) (omega arith),
    ) in
    ground (arith, ih, s.1 0 (omega arith))

-- On sorted keys, if there are any, the key at the index that `Get` computes is the owner.
pub locate_lem :
    (x : ℕ) (xs : List ℕ) (h : ℕ)
    → Sorted (x ∷ xs)
    → owner_key (x ∷ xs) h ≡ some (get_or (x ∷ xs) (locate (x ∷ xs) h) 0)
unfolding owner_key locate
locate_lem x xs h s =
    ground (arith, first_from-Split (x ∷ xs) h (search (x ∷ xs) h) (search-Split (x ∷ xs) h s))

module _ (hash : Key → ℕ) where
  -- On sorted keys `Get` of a key that is not empty returns the owner of the key's hash, or the
  -- empty string on an empty ring.
  pub get-owner :
      (r : HashRing) (b : ℕ) (key : Key)
      → Sorted r.keys
      → (HashRing.get hash r (b ∷ key)).1 ≡ owner r (hash (b ∷ key))
  unfolding HashRing.get owner
  get-owner r b key s = at r.keys s refl
    where
      at :
          (ks : List ℕ)
          → Sorted ks
          → r.keys ≡ ks
          → (HashRing.get hash r (b ∷ key)).1 ≡ owner r (hash (b ∷ key))
      at [] t e = unfold owner_key in ground (arith, e)
      at (x ∷ xs) t e = ground (arith, e, locate_lem x xs (hash (b ∷ key)) t)
