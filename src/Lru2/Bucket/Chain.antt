-- ===== src/Lru2/Bucket/Chain.antt =====
-- Doubly linked chains, over any pair of successor and predecessor functions: the shape that the
-- links of a bucket have. Node 0 is the sentinel.
use mathlib.Core.List.{reverse, reverse-cons}
use my_cache_go.Common.{ℕ, ◌≡◌, ◌≢◌, ◌∙◌, List, [], ◌∷◌, ◌++◌, All}

-- From `a` the nodes `xs` follow one another up to `b`: `f` steps on, and `g` steps back.
abbrev pub Seg : (ℕ → ℕ) → (ℕ → ℕ) → ℕ → List ℕ → ℕ → Type 0
Seg f g a [] b = (f a ≡ b) × (g b ≡ a)
Seg f g a (x ∷ xs) b = (f a ≡ x) × (g x ≡ a) × Seg f g x xs b

-- A node other than the sentinel and the node `i`.
abbrev pub Other : ℕ → ℕ → Type 0
Other i x = (x ≢ 0) × (x ≢ i)

module _ (f g : ℕ → ℕ) where
  pub Seg-split :
      (a i b : ℕ) (xs ys : List ℕ) → Seg f g a (xs ++ i ∷ ys) b → Seg f g a xs i × Seg f g i ys b
  Seg-split a i b [] ys s = ((s.0, s.1), s.2)
  Seg-split a i b (x ∷ xs) ys s = let r = Seg-split x i b xs ys s.2 in ((s.0, s.1, r.0), r.1)

  pub Seg-join :
      (a i b : ℕ) (xs ys : List ℕ) → Seg f g a xs i → Seg f g i ys b → Seg f g a (xs ++ i ∷ ys) b
  Seg-join a i b [] ys s t = (s.0, s.1, t)
  Seg-join a i b (x ∷ xs) ys s t = (s.0, s.1, Seg-join x i b xs ys s.2 t)

  -- The step back from the end, and on again.
  pub Seg-last : (a b : ℕ) (xs : List ℕ) → Seg f g a xs b → f (g b) ≡ b
  Seg-last a b [] s = cc
  Seg-last a b (x ∷ xs) s = Seg-last x b xs s.2

  pub Seg-first : (a b : ℕ) (xs : List ℕ) → Seg f g a xs b → g (f a) ≡ a
  Seg-first a b [] s = cc
  Seg-first a b (x ∷ xs) s = cc

  -- The node before the end of a chain with nodes is one of them.
  pub Seg-All_back {κ} :
      (P : ℕ → Type κ) (a b x : ℕ) (xs : List ℕ) → All P (x ∷ xs) → Seg f g a (x ∷ xs) b → P (g b)
  Seg-All_back P a b x [] p s = rw s.2.1 p.0
  Seg-All_back P a b x (y ∷ ys) p s = Seg-All_back P x b y ys p.1 s.2

  -- The node after the start is the first one, or the end.
  pub Seg-All_on {κ} :
      (P : ℕ → Type κ) (a b : ℕ) (xs : List ℕ) → All P xs → P b → Seg f g a xs b → P (f a)
  Seg-All_on P a b [] p q s = rw s.0 q
  Seg-All_on P a b (x ∷ xs) p q s = rw s.0 p.0

pub Seg-reverse : (f g : ℕ → ℕ) (a b : ℕ) (xs : List ℕ) → Seg f g a xs b → Seg g f b (reverse xs) a
Seg-reverse f g a b [] s = (s.1, s.0)
Seg-reverse f g a b (x ∷ xs) s =
    rw reverse-cons (Seg-join g f b x a (reverse xs) [] (Seg-reverse f g x b xs s.2) (s.1, s.0))

-- `f'` and `g'` are the links after node `i` has moved to the front.
module _ (f g f' g' : ℕ → ℕ) (i : ℕ) (back_on : f (g i) ≡ i) (on_back : g (f i) ≡ i)
    (first : g (f 0) ≡ 0) (keep : (x : ℕ) → x ≢ 0 → x ≢ i → x ≢ g i → f' x ≡ f x)
    (keep_back : (x : ℕ) → x ≢ i → x ≢ f 0 → x ≢ f i → g' x ≡ g x) (bridge : f' (g i) ≡ f i)
    (bridge_back : g' (f i) ≡ g i) where
  -- A pair of neighbours that the move leaves alone.
  edge : (a c : ℕ) → f a ≡ c → g c ≡ a → Other i a → c ≢ i → (f' a ≡ c) × (g' c ≡ a)
  edge a c on back o n =
      (keep a o.0 o.1 (λ e. n (cc)) ∙ on, keep_back c n (λ e. o.0 (cc)) (λ e. o.1 (cc)) ∙ back)

  frame :
      (a : ℕ) (xs : List ℕ)
      → 0 ≢ i
      → Other i a
      → All (Other i) xs
      → Seg f g a xs 0
      → Seg f' g' a xs 0
  frame a [] z o p s = edge a 0 s.0 s.1 o z
  frame a (c ∷ cs) z o p s =
      let e = edge a c s.0 s.1 o p.0.1 in (e.0, e.1, frame c cs z p.0 p.1 s.2)

  splice :
      (a : ℕ) (xs ys : List ℕ)
      → 0 ≢ i
      → Other i a
      → All (Other i) xs
      → All (Other i) ys
      → Seg f g a xs i
      → Seg f g i ys 0
      → Seg f' g' a (xs ++ ys) 0
  splice a [] [] z o p q s t = (cc, cc)
  splice a [] (y ∷ ys) z o p q s t = (cc, cc, frame y ys z q.0 q.1 t.2)
  splice a (c ∷ cs) ys z o p q s t =
      let e = edge a c s.0 s.1 o p.0.1 in (e.0, e.1, splice c cs ys z p.0 p.1 q s.2 t)

  -- Moving node `i` to the front of a chain round the sentinel.
  pub Seg-move :
      (x : ℕ) (xs ys : List ℕ)
      → 0 ≢ i
      → All (Other i) (x ∷ xs)
      → All (Other i) ys
      → f' 0 ≡ i
      → g' i ≡ 0
      → f' i ≡ f 0
      → g' (f 0) ≡ i
      → Seg f g 0 ((x ∷ xs) ++ i ∷ ys) 0
      → Seg f' g' 0 (i ∷ (x ∷ xs) ++ ys) 0
  Seg-move x xs ys z p q a b c d s =
      let r = Seg-split f g 0 i 0 (x ∷ xs) ys s in
      (a, b, (cc, cc, splice x xs ys z p.0 p.1 q r.0.2 r.1))

-- `f'` and `g'` are the links after the fresh node `n` has gone to the front.
module _ (f g f' g' : ℕ → ℕ) (n : ℕ) (first : g (f 0) ≡ 0)
    (keep : (x : ℕ) → x ≢ 0 → x ≢ n → f' x ≡ f x)
    (keep_back : (x : ℕ) → x ≢ n → x ≢ f 0 → g' x ≡ g x) where
  push_frame :
      (a : ℕ) (xs : List ℕ)
      → 0 ≢ n
      → Other n a
      → All (Other n) xs
      → Seg f g a xs 0
      → Seg f' g' a xs 0
  push_frame a [] z o p s = (keep a o.0 o.1 ∙ s.0, keep_back 0 z (λ e. o.0 (cc)) ∙ s.1)
  push_frame a (c ∷ cs) z o p s =
      (keep a o.0 o.1 ∙ s.0, keep_back c p.0.1 (λ e. o.0 (cc)) ∙ s.1, push_frame c cs z p.0 p.1 s.2)

  pub Seg-push :
      (xs : List ℕ)
      → 0 ≢ n
      → All (Other n) xs
      → f' 0 ≡ n
      → g' n ≡ 0
      → f' n ≡ f 0
      → g' (f 0) ≡ n
      → Seg f g 0 xs 0
      → Seg f' g' 0 (n ∷ xs) 0
  Seg-push [] z p a b c d s = (a, b, (cc, cc))
  Seg-push (x ∷ xs) z p a b c d s = (a, b, (cc, cc, push_frame x xs z p.0 p.1 s.2))
