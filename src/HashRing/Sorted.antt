-- ===== src/HashRing/Sorted.antt =====
-- The keys of the ring in ascending order: sorting, removing and searching.
use my_cache_go.Common.{
  ℕ, zero, suc, ◌+◌, ◌-◌, ◌/◌, ◌≤◌, ◌<◌, List, [], ◌∷◌, ltb, leb, length, get_or, All, All-map,
  Bool-cases, inl, inr, if_pos, if_neg, ℕ_discrete, arith,
}
use my_cache_go.HashRing.{sort_ints, insert_sorted, remove_key}
use my_cache_go.HashRing.Search.{search, search_between}

abbrev pub Sorted : List ℕ → Type 0
Sorted [] = Unit
Sorted (x ∷ xs) = All (λ y. x ≤ y) xs × Sorted xs

insert-All : (P : ℕ → Type 0) (x : ℕ) (xs : List ℕ) → P x → All P xs → All P (insert_sorted x xs)
insert-All P x [] p a = (p, tt)
insert-All P x (y ∷ ys) p a = elim (Bool-cases (leb x y)) [
  | inl h ↦ rw h (p, a)
  | inr h ↦ rw h (a.0, insert-All P x ys p a.1)
]

insert-Sorted : (x : ℕ) (xs : List ℕ) → Sorted xs → Sorted (insert_sorted x xs)
insert-Sorted x [] s = (tt, tt)
insert-Sorted x (y ∷ ys) s = elim (Bool-cases (leb x y)) [
  | inl h ↦ rw h ((ground arith, All-map _ _ ys (λ z (q : y ≤ z). ground arith) s.0), s)
  | inr h ↦ rw h (insert-All (λ z. y ≤ z) x ys (ground arith) s.0, insert-Sorted x ys s.1)
]

pub sort_ints-Sorted : (xs : List ℕ) → Sorted (sort_ints xs)
unfolding sort_ints
sort_ints-Sorted [] = tt
sort_ints-Sorted (x ∷ xs) = insert-Sorted x (sort_ints xs) (sort_ints-Sorted xs)

remove_key-All : (P : ℕ → Type 0) (h : ℕ) (xs : List ℕ) → All P xs → All P (remove_key h xs)
unfolding remove_key
remove_key-All P h [] a = tt
remove_key-All P h (x ∷ xs) a = elim (ℕ_discrete x h) [
  | yes p ↦ rw (if_pos {C = List ℕ} (ℕ_discrete x h) p) a.1
  | no p ↦ rw (if_neg {C = List ℕ} (ℕ_discrete x h) p) (a.0, remove_key-All P h xs a.1)
]

pub remove_key-Sorted : (h : ℕ) (xs : List ℕ) → Sorted xs → Sorted (remove_key h xs)
unfolding remove_key
remove_key-Sorted h [] s = tt
remove_key-Sorted h (x ∷ xs) s = elim (ℕ_discrete x h) [
  | yes p ↦ rw (if_pos {C = List ℕ} (ℕ_discrete x h) p) s.1
  | no p ↦
      rw (if_neg {C = List ℕ} (ℕ_discrete x h) p)
        (remove_key-All (λ y. x ≤ y) h xs s.0, remove_key-Sorted h xs s.1)
]

-- The keys before `r` are less than `h`, and the others are not.
abbrev pub Split : List ℕ → ℕ → ℕ → Type 0
Split keys h r =
    (r ≤ length keys)
    × ((a : ℕ) → a < r → get_or keys a 0 < h)
    × ((a : ℕ) → r ≤ a → a < length keys → h ≤ get_or keys a 0)

get_or-All : (x : ℕ) (xs : List ℕ) (b : ℕ) → All (λ y. x ≤ y) xs → b < length xs → x ≤ get_or xs b 0
get_or-All x [] b a q = absurd (omega arith)
get_or-All x (y ∷ ys) zero a q = a.0
get_or-All x (y ∷ ys) (suc b) a q = get_or-All x ys b a.1 (omega arith)

get_or_mono :
    (xs : List ℕ) (a b : ℕ) → Sorted xs → a ≤ b → b < length xs → get_or xs a 0 ≤ get_or xs b 0
get_or_mono [] a b s p q = absurd (omega arith)
get_or_mono (x ∷ xs) zero zero s p q = omega arith
get_or_mono (x ∷ xs) zero (suc b) s p q = get_or-All x xs b s.0 (omega arith)
get_or_mono (x ∷ xs) (suc a) zero s p q = absurd (omega arith)
get_or_mono (x ∷ xs) (suc a) (suc b) s p q = get_or_mono xs a b s.1 (omega arith) (omega arith)

search_between-Split :
    (fuel : ℕ) (keys : List ℕ) (h i j : ℕ)
    → Sorted keys
    → j - i ≤ fuel
    → i ≤ j
    → j ≤ length keys
    → ((a : ℕ) → a < i → get_or keys a 0 < h)
    → ((a : ℕ) → j ≤ a → a < length keys → h ≤ get_or keys a 0)
    → Split keys h (search_between fuel keys h i j)
unfolding search_between
search_between-Split zero keys h i j s f p q low high =
    (omega arith, low, λ a u w. high a (omega arith) w)
search_between-Split (suc fuel) keys h i j s f p q low high = elim (Bool-cases (ltb i j)) [
  | inr e ↦ rw e (ground arith, low, λ a u w. high a (ground arith) w)
  | inl e ↦ elim (Bool-cases (leb h (get_or keys ((i + j) / 2) 0))) [
    | inl t ↦
        rw (e, t)
          (search_between-Split fuel keys h i ((i + j) / 2) s (ground arith) (ground arith)
            (ground arith) low
            (λ a u w. let m = get_or_mono keys ((i + j) / 2) a s u w in ground arith))
    | inr t ↦
        rw (e, t)
          (search_between-Split fuel keys h ((i + j) / 2 + 1) j s (ground arith) (ground arith) q
            (λ a u.
              let m = get_or_mono keys a ((i + j) / 2) s (omega arith) (ground arith) in
              ground arith)
            high)
  ]
]

-- On sorted keys the binary search ends at the first key that is not less than the hash.
pub search-Split : (keys : List ℕ) (h : ℕ) → Sorted keys → Split keys h (search keys h)
unfolding search
search-Split keys h s =
    search_between-Split (length keys) keys h 0 (length keys) s (omega arith) (omega arith)
      (omega arith) (λ a u. absurd (omega arith)) (λ a u w. absurd (omega arith))
