-- ===== src/HashRing/Distinct.antt =====
-- Lists of keys in which no key stands twice: appending, sorting and removing.
use my_cache_go.Common.{
  ℕ, ◌≡◌, refl, ◌∙◌, List, [], ◌∷◌, ◌++◌, true, false, not, ◌&&◌, ◌==◌, leb, Bool-cases, inl, inr,
  if_pos, if_neg, ℕ_discrete, arith,
}
use my_cache_go.HashRing.{insert_sorted, sort_ints, remove_key}
use my_cache_go.HashRing.Order.{has, has-append, has-insert_sorted, has-sort_ints}

abbrev pub Once : List ℕ → Type 0
Once [] = Unit
Once (x ∷ xs) = (has x xs ≡ false) × Once xs

pub Once-append :
    (xs ys : List ℕ)
    → Once xs
    → Once ys
    → ((x : ℕ) → has x xs ≡ true → has x ys ≡ false)
    → Once (xs ++ ys)
unfolding has
Once-append [] ys p q apart = q
Once-append (x ∷ xs) ys p q apart = (
  ground (arith, has-append x xs ys, p, apart x),
  Once-append xs ys p.1 q (λ y m. apart y (ground (arith, m))),
)

Once-insert_sorted : (x : ℕ) (xs : List ℕ) → has x xs ≡ false → Once xs → Once (insert_sorted x xs)
unfolding has
Once-insert_sorted x [] h p = (refl, tt)
Once-insert_sorted x (y ∷ ys) h p = elim (Bool-cases (leb x y)) [
  | inl e ↦ rw e (h, p)
  | inr e ↦ rw e (
    ground (arith, h, p, has-insert_sorted y x ys),
    Once-insert_sorted x ys (ground (arith, h)) p.1,
  )
]

pub Once-sort_ints : (xs : List ℕ) → Once xs → Once (sort_ints xs)
unfolding sort_ints
Once-sort_ints [] p = tt
Once-sort_ints (x ∷ xs) p =
    Once-insert_sorted x (sort_ints xs) (has-sort_ints x xs ∙ p.0) (Once-sort_ints xs p.1)

pub has-remove_key :
    (h y : ℕ) (xs : List ℕ) → Once xs → has y (remove_key h xs) ≡ (has y xs && not (y == h))
unfolding has remove_key
has-remove_key h y [] p = refl
has-remove_key h y (x ∷ xs) p = ground (arith, p, has-remove_key h y xs p.1)

pub Once-remove_key : (h : ℕ) (xs : List ℕ) → Once xs → Once (remove_key h xs)
unfolding remove_key
Once-remove_key h [] p = tt
Once-remove_key h (x ∷ xs) p = elim (ℕ_discrete x h) [
  | yes q ↦ rw (if_pos {C = List ℕ} (ℕ_discrete x h) q) p.1
  | no q ↦
      rw (if_neg {C = List ℕ} (ℕ_discrete x h) q)
        (ground (arith, p, has-remove_key h x xs p.1), Once-remove_key h xs p.1)
]
