-- ===== src/Lru2/Bucket/Lookup.antt =====
-- Finding and taking out an entry of the list that a bucket holds.
use my_cache_go.Common.{
  ℕ, ◌≡◌, ◌≢◌, refl, ◌∙◌, List, [], ◌∷◌, ◌++◌, none, some, if_pos, if_neg, map, All, Key, key_dec,
}
use my_cache_go.Lru2.Bucket.{Entry}
use my_cache_go.Lru2.Bucket.Spec.{find_entry, take_out, drop_last, last}

module _ {ℓ} {V : Type ℓ} (f : ℕ → Entry V) where
  pub find_entry-middle :
      (xs ys : List ℕ) (i : ℕ)
      → All (λ j. (f j).key ≢ (f i).key) xs
      → find_entry (f i).key (map f (xs ++ i ∷ ys)) ≡ some (f i)
  unfolding find_entry
  find_entry-middle [] ys i h = if_pos (key_dec (f i).key (f i).key) refl _ _
  find_entry-middle (x ∷ xs) ys i h =
      if_neg (key_dec (f x).key (f i).key) h.0 _ _ ∙ find_entry-middle xs ys i h.1

  pub take_out-middle :
      (xs ys : List ℕ) (i : ℕ)
      → All (λ j. (f j).key ≢ (f i).key) xs
      → take_out (f i).key (map f (xs ++ i ∷ ys)) ≡ map f (xs ++ ys)
  unfolding take_out
  take_out-middle [] ys i h = if_pos (key_dec (f i).key (f i).key) refl _ _
  take_out-middle (x ∷ xs) ys i h =
      rw (if_neg (key_dec (f x).key (f i).key) h.0) (rw (take_out-middle xs ys i h.1))

  pub find_entry-absent :
      (xs : List ℕ) (k : Key) → All (λ j. (f j).key ≢ k) xs → find_entry k (map f xs) ≡ none
  unfolding find_entry
  find_entry-absent [] k h = refl
  find_entry-absent (x ∷ xs) k h = if_neg (key_dec (f x).key k) h.0 _ _ ∙ find_entry-absent xs k h.1

  pub drop_last-snoc : (xs : List ℕ) (i : ℕ) → drop_last (map f (xs ++ i ∷ [])) ≡ map f xs
  unfolding drop_last
  drop_last-snoc [] i = refl
  drop_last-snoc (x ∷ []) i = refl
  drop_last-snoc (x ∷ y ∷ xs) i = rw (drop_last-snoc (y ∷ xs) i)

  pub last-snoc : (xs : List ℕ) (i : ℕ) → last (map f (xs ++ i ∷ [])) ≡ f i
  unfolding last
  last-snoc [] i = refl
  last-snoc (x ∷ []) i = refl
  last-snoc (x ∷ y ∷ xs) i = last-snoc (y ∷ xs) i
