-- ===== src/Common/Lists.antt =====
-- Lists measured and indexed by native numbers, under the library's names, and the predicates by
-- recursion that the components' invariants are made of.
use Prim.Native.Nat.{ℕ, zero, suc, ◌+◌, ◌<◌}
use mathlib.Core.Path.{◌≡◌, refl, sym, ap}
use mathlib.Core.Logic.{◌≢◌, ◌⊎◌, inl, inr}
use mathlib.Core.List.{List, [], ◌∷◌, ◌++◌, map}
use native.Mathlib.Omega.{arith}

module _ {ℓ} {A : Type ℓ} where
  abbrev pub length : List A → ℕ
  length [] = 0
  length (x ∷ xs) = suc (length xs)

  abbrev pub get_or : List A → ℕ → A → A
  get_or [] i d = d
  get_or (x ∷ xs) zero d = x
  get_or (x ∷ xs) (suc i) d = get_or xs i d

  -- A write out of bounds changes nothing.
  abbrev pub set : List A → ℕ → A → List A
  set [] i v = []
  set (x ∷ xs) zero v = v ∷ xs
  set (x ∷ xs) (suc i) v = x ∷ set xs i v

  abbrev pub replicate : ℕ → A → List A
  replicate zero a = []
  replicate (suc n) a = a ∷ replicate n a

  pub length-append : (xs ys : List A) → length (xs ++ ys) ≡ length xs + length ys
  length-append [] ys = omega arith
  length-append (x ∷ xs) ys = omega (arith, length-append xs ys)

  pub length-set : (xs : List A) (i : ℕ) (v : A) → length (set xs i v) ≡ length xs
  length-set [] i v = refl
  length-set (x ∷ xs) zero v = refl
  length-set (x ∷ xs) (suc i) v = ap suc (length-set xs i v)

  pub length-replicate : (n : ℕ) (a : A) → length (replicate n a) ≡ n
  length-replicate zero a = refl
  length-replicate (suc n) a = ap suc (length-replicate n a)

  pub get_or-set_self :
      (xs : List A) (i : ℕ) (v d : A) → i < length xs → get_or (set xs i v) i d ≡ v
  get_or-set_self [] i v d h = absurd (omega arith)
  get_or-set_self (x ∷ xs) zero v d h = refl
  get_or-set_self (x ∷ xs) (suc i) v d h = get_or-set_self xs i v d (omega arith)

  pub get_or-set_ne :
      (xs : List A) (i j : ℕ) (v d : A) → i ≢ j → get_or (set xs i v) j d ≡ get_or xs j d
  get_or-set_ne [] i j v d h = refl
  get_or-set_ne (x ∷ xs) zero zero v d h = absurd (h refl)
  get_or-set_ne (x ∷ xs) zero (suc j) v d h = refl
  get_or-set_ne (x ∷ xs) (suc i) zero v d h = refl
  get_or-set_ne (x ∷ xs) (suc i) (suc j) v d h = get_or-set_ne xs i j v d (λ e. h (ap suc e))

  -- What a write keeps of the item that it replaces, it keeps everywhere.
  pub get_or-set_keep {κ} :
      {B : Type κ} (φ : A → B) (xs : List A) (i j : ℕ) (v d : A)
      → φ v ≡ φ (get_or xs i d)
      → φ (get_or (set xs i v) j d) ≡ φ (get_or xs j d)
  get_or-set_keep φ [] i j v d h = refl
  get_or-set_keep φ (x ∷ xs) zero zero v d h = h
  get_or-set_keep φ (x ∷ xs) zero (suc j) v d h = refl
  get_or-set_keep φ (x ∷ xs) (suc i) zero v d h = refl
  get_or-set_keep φ (x ∷ xs) (suc i) (suc j) v d h = get_or-set_keep φ xs i j v d h

  pub get_or-replicate : (n i : ℕ) (a : A) → get_or (replicate n a) i a ≡ a
  get_or-replicate zero i a = refl
  get_or-replicate (suc n) zero a = refl
  get_or-replicate (suc n) (suc i) a = get_or-replicate n i a

module _ {ℓ κ} {A : Type ℓ} where
  -- Every item has the property: a tuple, which the tactics read and build.
  abbrev pub All : (A → Type κ) → List A → Type κ
  All P [] = Unit
  All P (x ∷ xs) = P x × All P xs

  pub All-append : (P : A → Type κ) (xs ys : List A) → All P xs → All P ys → All P (xs ++ ys)
  All-append P [] ys p q = q
  All-append P (x ∷ xs) ys p q = (p.0, All-append P xs ys p.1 q)

  pub All-left : (P : A → Type κ) (xs ys : List A) → All P (xs ++ ys) → All P xs
  All-left P [] ys p = tt
  All-left P (x ∷ xs) ys p = (p.0, All-left P xs ys p.1)

  pub All-right : (P : A → Type κ) (xs ys : List A) → All P (xs ++ ys) → All P ys
  All-right P [] ys p = p
  All-right P (x ∷ xs) ys p = All-right P xs ys p.1

  pub All-map : (P Q : A → Type κ) (xs : List A) → ((x : A) → P x → Q x) → All P xs → All Q xs
  All-map P Q [] f p = tt
  All-map P Q (x ∷ xs) f p = (f x p.0, All-map P Q xs f p.1)

  pub All-both : (P Q : A → Type κ) (xs : List A) → All P xs → All Q xs → All (λ x. P x × Q x) xs
  All-both P Q [] p q = tt
  All-both P Q (x ∷ xs) p q = ((p.0, q.0), All-both P Q xs p.1 q.1)

  -- Moving the item in the middle to the front, and back.
  pub All-middle :
      (P : A → Type κ) (xs ys : List A) (a : A) → All P (xs ++ a ∷ ys) → All P (a ∷ xs ++ ys)
  All-middle P [] ys a p = p
  All-middle P (x ∷ xs) ys a p = let r = All-middle P xs ys a p.1 in (r.0, (p.0, r.1))

  pub All-unmiddle :
      (P : A → Type κ) (xs ys : List A) (a : A) → All P (a ∷ xs ++ ys) → All P (xs ++ a ∷ ys)
  All-unmiddle P [] ys a p = p
  All-unmiddle P (x ∷ xs) ys a p = (p.1.0, All-unmiddle P xs ys a (p.0, p.1.1))

module _ {ℓ} {A : Type ℓ} where
  -- The item is not in the list.
  abbrev pub Fresh : A → List A → Type ℓ
  Fresh a xs = All (λ x. a ≢ x) xs

  abbrev pub Distinct : List A → Type ℓ
  Distinct [] = Unit
  Distinct (x ∷ xs) = Fresh x xs × Distinct xs

  pub length-middle : (xs ys : List A) (a : A) → length (xs ++ a ∷ ys) ≡ suc (length (xs ++ ys))
  length-middle [] ys a = refl
  length-middle (x ∷ xs) ys a = ap suc (length-middle xs ys a)

  pub Fresh-append : (a : A) (xs ys : List A) → Fresh a (xs ++ ys) → Fresh a xs × Fresh a ys
  Fresh-append a xs ys h = (All-left _ xs ys h, All-right _ xs ys h)

  pub Distinct-middle : (xs ys : List A) (a : A) → Distinct (xs ++ a ∷ ys) → Distinct (a ∷ xs ++ ys)
  Distinct-middle [] ys a d = d
  Distinct-middle (x ∷ xs) ys a d =
      let r = Distinct-middle xs ys a d.1 in
      let m = All-middle (λ y. x ≢ y) xs ys a d.0 in (((λ e. m.0 (sym e)), r.0), (m.1, r.1))

  pub Distinct-unmiddle :
      (xs ys : List A) (a : A) → Distinct (a ∷ xs ++ ys) → Distinct (xs ++ a ∷ ys)
  Distinct-unmiddle [] ys a d = d
  Distinct-unmiddle (x ∷ xs) ys a d = (
    All-unmiddle (λ y. x ≢ y) xs ys a ((λ e. d.0.0 (sym e)), d.1.0),
    Distinct-unmiddle xs ys a (d.0.1, d.1.1),
  )

module _ {ℓ} {A : Type ℓ} where
  -- A list with items has a last one.
  pub snoc-view : (x : A) (xs : List A) → (ys : List A) × (y : A) × (x ∷ xs ≡ ys ++ y ∷ [])
  snoc-view x [] = ([], x, refl)
  snoc-view x (z ∷ zs) = let (ys, y, e) = snoc-view z zs in (x ∷ ys, y, rw e)

module _ {ℓ κ} {A : Type ℓ} {B : Type κ} where
  pub length-map : (xs : List A) (f : A → B) → length (map f xs) ≡ length xs
  length-map [] f = refl
  length-map (x ∷ xs) f = ap suc (length-map xs f)

  pub map-cong : (f g : A → B) (xs : List A) → All (λ x. f x ≡ g x) xs → map f xs ≡ map g xs
  map-cong f g [] h = refl
  map-cong f g (x ∷ xs) h = λ i. h.0 i ∷ map-cong f g xs h.1 i

-- The number is in the list.
abbrev pub In : ℕ → List ℕ → Type 0
In a [] = ⊥
In a (x ∷ xs) = (a ≡ x) ⊎ In a xs

pub In-split : (a : ℕ) (xs : List ℕ) → In a xs → (ps : List ℕ) × (qs : List ℕ) × (xs ≡ ps ++ a ∷ qs)
In-split a [] h = elim h [ ]
In-split a (x ∷ xs) (inl e) = ([], xs, rw e)
In-split a (x ∷ xs) (inr h) = let (ps, qs, e) = In-split a xs h in (x ∷ ps, qs, rw e)

pub In-middle : (b a : ℕ) (xs ys : List ℕ) → In b (xs ++ a ∷ ys) → In b (a ∷ xs ++ ys)
In-middle b a [] ys h = h
In-middle b a (x ∷ xs) ys (inl e) = inr (inl e)
In-middle b a (x ∷ xs) ys (inr h) = elim (In-middle b a xs ys h) [
  | inl e ↦ inl e
  | inr m ↦ inr (inr m)
]

pub In-unmiddle : (b a : ℕ) (xs ys : List ℕ) → In b (a ∷ xs ++ ys) → In b (xs ++ a ∷ ys)
In-unmiddle b a [] ys h = h
In-unmiddle b a (x ∷ xs) ys (inl e) = inr (In-unmiddle b a xs ys (inl e))
In-unmiddle b a (x ∷ xs) ys (inr (inl e)) = inl e
In-unmiddle b a (x ∷ xs) ys (inr (inr m)) = inr (In-unmiddle b a xs ys (inr m))

pub All-In {κ} : (P : ℕ → Type κ) (a : ℕ) (xs : List ℕ) → In a xs → All P xs → P a
All-In P a [] h p = elim h [ ]
All-In P a (x ∷ xs) (inl e) p = rw e p.0
All-In P a (x ∷ xs) (inr h) p = All-In P a xs h p.1

pub All-of_In {κ} : (P : ℕ → Type κ) (xs : List ℕ) → ((a : ℕ) → In a xs → P a) → All P xs
All-of_In P [] h = tt
All-of_In P (x ∷ xs) h = (h x (inl refl), All-of_In P xs (λ a m. h a (inr m)))
