-- ===== src/Lru/Elements/Laws.antt =====
-- Laws of the list of elements, where no identity stands twice.
use my_cache_go.Common.{
  ℕ, suc, ◌+◌, ◌≡◌, ◌≢◌, refl, sym, ap, ◌∙◌, subst, List, [], ◌∷◌, ◌++◌, none, some, if_pos, if_neg,
  ℕ_discrete, length, All, arith,
}
use my_cache_go.Lru.Elements.{Element, elem_of, remove, replace, to_front, back}

-- No identity twice.
abbrev pub DistinctIds {ℓ} : {V : Type ℓ} → List (Element V) → Type 0
DistinctIds [] = Unit
DistinctIds (e ∷ l) = All (λ f. e.id ≢ f.id) l × DistinctIds l

module _ {ℓ} {V : Type ℓ} where
  pub elem_of-id : (i : ℕ) (l : List (Element V)) (e : Element V) → elem_of i l ≡ some e → e.id ≡ i
  unfolding elem_of
  elem_of-id i [] e h = cc
  elem_of-id i (f ∷ l) e h = ground (arith, elem_of-id i l e)

  pub elem_of-All {κ} :
      (P : Element V → Type κ) (i : ℕ) (l : List (Element V)) (e : Element V)
      → All P l
      → elem_of i l ≡ some e
      → P e
  unfolding elem_of
  elem_of-All P i [] e a h = absurd (cc)
  elem_of-All P i (f ∷ l) e a h = elim (ℕ_discrete f.id i) [
    | yes p ↦ subst P (ground arith) a.0
    | no p ↦ elem_of-All P i l e a.1 (ground arith)
  ]

  elem_of-absent : (i : ℕ) (l : List (Element V)) → All (λ f. i ≢ f.id) l → elem_of i l ≡ none
  unfolding elem_of
  elem_of-absent i [] h = refl
  elem_of-absent i (e ∷ l) h = ground (arith, elem_of-absent i l h.1)

  pub elem_of-remove_self :
      (i : ℕ) (l : List (Element V)) → DistinctIds l → elem_of i (remove i l) ≡ none
  unfolding elem_of remove
  elem_of-remove_self i [] d = refl
  elem_of-remove_self i (e ∷ l) d = elim (ℕ_discrete e.id i) [
    | yes p ↦
        rw (if_pos {C = List (Element V)} (ℕ_discrete e.id i) p)
          (elem_of-absent i l (subst (λ j. All (λ f. j ≢ f.id) l) p d.0))
    | no p ↦
        rw (if_neg {C = List (Element V)} (ℕ_discrete e.id i) p)
          (if_neg (ℕ_discrete e.id i) p _ _ ∙ elem_of-remove_self i l d.1)
  ]

  pub elem_of-remove_ne :
      (i j : ℕ) (l : List (Element V)) → j ≢ i → elem_of j (remove i l) ≡ elem_of j l
  unfolding elem_of remove
  elem_of-remove_ne i j [] h = refl
  elem_of-remove_ne i j (e ∷ l) h = elim (ℕ_discrete e.id i) [
    | yes p ↦
        rw (if_pos {C = List (Element V)} (ℕ_discrete e.id i) p)
          (sym (if_neg (ℕ_discrete e.id j) (λ q. h (sym q ∙ p)) (some e) (elem_of j l)))
    | no p ↦
        rw (if_neg {C = List (Element V)} (ℕ_discrete e.id i) p) (rw (elem_of-remove_ne i j l h))
  ]

  pub remove-All {κ} :
      (P : Element V → Type κ) (i : ℕ) (l : List (Element V)) → All P l → All P (remove i l)
  unfolding remove
  remove-All P i [] a = tt
  remove-All P i (e ∷ l) a = elim (ℕ_discrete e.id i) [
    | yes p ↦ rw (if_pos {C = List (Element V)} (ℕ_discrete e.id i) p) a.1
    | no p ↦ rw (if_neg {C = List (Element V)} (ℕ_discrete e.id i) p) (a.0, remove-All P i l a.1)
  ]

  pub remove-DistinctIds : (i : ℕ) (l : List (Element V)) → DistinctIds l → DistinctIds (remove i l)
  unfolding remove
  remove-DistinctIds i [] d = tt
  remove-DistinctIds i (e ∷ l) d = elim (ℕ_discrete e.id i) [
    | yes p ↦ rw (if_pos {C = List (Element V)} (ℕ_discrete e.id i) p) d.1
    | no p ↦
        rw (if_neg {C = List (Element V)} (ℕ_discrete e.id i) p)
          (remove-All (λ f. e.id ≢ f.id) i l d.0, remove-DistinctIds i l d.1)
  ]

  -- After a removal the identity is gone.
  pub remove-ne : (i : ℕ) (l : List (Element V)) → DistinctIds l → All (λ f. i ≢ f.id) (remove i l)
  unfolding remove
  remove-ne i [] d = tt
  remove-ne i (e ∷ l) d = elim (ℕ_discrete e.id i) [
    | yes p ↦
        rw (if_pos {C = List (Element V)} (ℕ_discrete e.id i) p)
          (subst (λ j. All (λ f. j ≢ f.id) l) p d.0)
    | no p ↦
        rw (if_neg {C = List (Element V)} (ℕ_discrete e.id i) p)
          ((λ q. p (sym q)), remove-ne i l d.1)
  ]

  pub length-remove :
      (i : ℕ) (l : List (Element V)) (e : Element V)
      → elem_of i l ≡ some e
      → length l ≡ suc (length (remove i l))
  unfolding elem_of remove
  length-remove i [] e h = absurd (cc)
  length-remove i (f ∷ l) e h = elim (ℕ_discrete f.id i) [
    | yes p ↦ rw (if_pos {C = List (Element V)} (ℕ_discrete f.id i) p)
    | no p ↦
        rw (if_neg {C = List (Element V)} (ℕ_discrete f.id i) p)
          (ap suc (length-remove i l e (ground arith)))
  ]

  pub elem_of-replace :
      (i : ℕ) (v : V) (l : List (Element V)) (e : Element V)
      → elem_of i l ≡ some e
      → elem_of i (replace i v l) ≡ some (record e { value = v })
  unfolding elem_of replace
  elem_of-replace i v [] e h = cc
  elem_of-replace i v (f ∷ l) e h = elim (ℕ_discrete f.id i) [
    | yes p ↦
        rw (if_pos {C = List (Element V)} (ℕ_discrete f.id i) p)
          (if_pos (ℕ_discrete f.id i) p _ _ ∙ ap some (ground arith))
    | no p ↦
        rw (if_neg {C = List (Element V)} (ℕ_discrete f.id i) p)
          (if_neg (ℕ_discrete f.id i) p _ _ ∙ elem_of-replace i v l e (ground arith))
  ]

  pub remove-replace :
      (i : ℕ) (v : V) (l : List (Element V)) → remove i (replace i v l) ≡ remove i l
  unfolding remove replace
  remove-replace i v [] = refl
  remove-replace i v (f ∷ l) = elim (ℕ_discrete f.id i) [
    | yes p ↦ simp (if_pos {C = List (Element V)} (ℕ_discrete f.id i) p)
    | no p ↦ simp (if_neg {C = List (Element V)} (ℕ_discrete f.id i) p, remove-replace i v l)
  ]

  pub to_front-replace :
      (i : ℕ) (v : V) (l : List (Element V)) (e : Element V)
      → elem_of i l ≡ some e
      → to_front i (replace i v l) ≡ record e { value = v } ∷ remove i l
  unfolding to_front
  to_front-replace i v l e h = rw (elem_of-replace i v l e h, to_front, remove-replace i v l)

  pub to_front-eq :
      (i : ℕ) (l : List (Element V)) (e : Element V)
      → elem_of i l ≡ some e
      → to_front i l ≡ e ∷ remove i l
  unfolding to_front
  to_front-eq i l e h = rw (h, to_front)

module _ {ℓ} {V : Type ℓ} (size : Element V → ℕ) where
  abbrev pub total : List (Element V) → ℕ
  total [] = 0
  total (e ∷ l) = size e + total l

  pub total-remove :
      (i : ℕ) (l : List (Element V)) (e : Element V)
      → elem_of i l ≡ some e
      → total l ≡ size e + total (remove i l)
  unfolding elem_of remove
  total-remove i [] e h = absurd (cc)
  total-remove i (f ∷ l) e h = elim (ℕ_discrete f.id i) [
    | yes p ↦
        let q = let t : f ≡ e = ground arith in t in
        rw (if_pos {C = List (Element V)} (ℕ_discrete f.id i) p, q)
    | no p ↦
        let r = total-remove i l e (ground arith) in
        rw (if_neg {C = List (Element V)} (ℕ_discrete f.id i) p) (omega (arith, r))
  ]

-- A list that is not empty has a last element, which `back` names.
module _ {ℓ} {V : Type ℓ} where
  back-All {κ} :
      (P : ℕ → Type κ) (e : Element V) (l : List (Element V))
      → All (λ f. P f.id) (e ∷ l)
      → P (back (e ∷ l))
  unfolding back
  back-All P e [] a = a.0
  back-All P e (f ∷ l) a = back-All P f l a.1

  pub elem_of-back :
      (e : Element V) (l : List (Element V))
      → DistinctIds (e ∷ l)
      → (xs : List (Element V)) × (f : Element V) × (e ∷ l ≡ xs ++ f ∷ [])
        × (elem_of (back (e ∷ l)) (e ∷ l) ≡ some f)
        × (remove (back (e ∷ l)) (e ∷ l) ≡ xs)
  unfolding elem_of remove back
  elem_of-back e [] d =
      ([], e, refl, if_pos (ℕ_discrete e.id e.id) refl _ _, if_pos (ℕ_discrete e.id e.id) refl _ _)
  elem_of-back e (g ∷ l) d =
      let (xs, f, o, p, q) = elem_of-back g l d.1 in
      let ne = back-All (λ j. e.id ≢ j) g l d.0 in
      (
        e ∷ xs,
        f,
        ap (◌∷◌ e) o,
        if_neg (ℕ_discrete e.id (back (g ∷ l))) ne _ _ ∙ p,
        if_neg (ℕ_discrete e.id (back (g ∷ l))) ne _ _ ∙ ap (◌∷◌ e) q,
      )
