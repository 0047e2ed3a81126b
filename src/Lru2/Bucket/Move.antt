-- ===== src/Lru2/Bucket/Move.antt =====
-- `adjust` on a chain round the sentinel.
use mathlib.Core.List.{reverse, reverse-cons, reverse-append, reverse-reverse, append_assoc}
use my_cache_go.Common.{
  ℕ, ◌≡◌, ◌≢◌, sym, ap, subst, ◌<◌, ◌∙◌, List, [], ◌∷◌, ◌++◌, All, length, All-map, All-append,
  arith,
}
use my_cache_go.Lru2.Bucket.Ring.{Side, prev, next, opposite, Link, read, unlink, link_end, adjust}
use my_cache_go.Lru2.Bucket.Chain.{
  Seg, Other, Seg-split, Seg-last, Seg-first, Seg-All_back, Seg-All_on, Seg-move, Seg-reverse,
}
use my_cache_go.Lru2.Bucket.Adjust.{
  unlink_bridge, unlink_keep, unlink_bridge_back, unlink_keep_back, length-unlink, link_end_front,
  link_end_on, link_end_keep, link_end_back, link_end_node, link_end_keep_back,
}

-- The nodes `xs`, in the direction `t`, form a ring with the sentinel.
abbrev pub Circle : List Link → Side → List ℕ → Type 0
Circle l t xs = Seg (λ j. read l j t) (λ j. read l j (opposite t)) 0 xs 0

-- A node of the array that is neither the sentinel nor `i`.
abbrev pub Apart : List Link → ℕ → ℕ → Type 0
Apart l i x = Other i x × (x < length l)

module _ (l : List Link) (i : ℕ) (t : Side) (node : i < length l) (node_ne : 0 ≢ i) (x : ℕ)
    (xs ys : List ℕ) (p : All (Apart l i) (x ∷ xs)) (q : All (Apart l i) ys)
    (s : Circle l t ((x ∷ xs) ++ i ∷ ys)) where
  abbrev f : ℕ → ℕ
  f j = read l j t

  abbrev g : ℕ → ℕ
  g j = read l j (opposite t)

  abbrev f' : ℕ → ℕ
  f' j = read (link_end (unlink l i) i t) j t

  abbrev g' : ℕ → ℕ
  g' j = read (link_end (unlink l i) i t) j (opposite t)

  parts : Seg f g 0 (x ∷ xs) i × Seg f g i ys 0
  parts = Seg-split f g 0 i 0 (x ∷ xs) ys s

  start : 0 < length (unlink l i)
  start = rw length-unlink (omega arith)

  node' : i < length (unlink l i)
  node' = rw length-unlink node

  before : Apart l i (g i)
  before = Seg-All_back f g (Apart l i) 0 i x xs p parts.0

  after : (f i < length l) × (f i ≢ i)
  after =
      Seg-All_on f g (λ y. (y < length l) × (y ≢ i)) i 0 ys
        (All-map (Apart l i) (λ y. (y < length l) × (y ≢ i)) ys (λ y a. (a.1, a.0.1)) q)
        (omega arith, node_ne) parts.1

  back_on : f (g i) ≡ i
  back_on = Seg-last f g 0 i (x ∷ xs) parts.0

  on_back : g (f i) ≡ i
  on_back = Seg-first f g i 0 ys parts.1

  first : g (f 0) ≡ 0
  first = Seg-first f g 0 i (x ∷ xs) parts.0

  head : read (unlink l i) 0 t ≡ f 0
  head = unlink_keep l i 0 t (λ e. before.0.0 (sym e))

  head_ne : read (unlink l i) 0 t ≢ i
  head_ne e = p.0.0.1 (sym s.0 ∙ (sym head ∙ e))

  head-lt : read (unlink l i) 0 t < length (unlink l i)
  head-lt = rw (head, length-unlink) (rw s.0 p.0.1)

  after_ne : f i ≢ read (unlink l i) 0 t
  after_ne e = node_ne (sym first ∙ (sym (ap g (e ∙ head)) ∙ on_back))

  keep : (y : ℕ) → y ≢ 0 → y ≢ i → y ≢ g i → f' y ≡ f y
  keep y a b c = link_end_keep (unlink l i) i t node' start node_ne y a b ∙ unlink_keep l i y t c

  keep_back : (y : ℕ) → y ≢ i → y ≢ f 0 → y ≢ f i → g' y ≡ g y
  keep_back y a b c =
      link_end_keep_back (unlink l i) i t node' start node_ne y a (λ e. b (e ∙ head))
      ∙ unlink_keep_back l i y t c

  bridge : f' (g i) ≡ f i
  bridge =
      link_end_keep (unlink l i) i t node' start node_ne (g i) before.0.0 before.0.1
      ∙ unlink_bridge l i t before.1

  bridge_back : g' (f i) ≡ g i
  bridge_back =
      link_end_keep_back (unlink l i) i t node' start node_ne (f i) after.1 after_ne
      ∙ unlink_bridge_back l i t after.0

  back : g' (f 0) ≡ i
  back = subst (λ y. g' y ≡ i) head (link_end_back (unlink l i) i t node' start node_ne head-lt)

  away : adjust l i t ≡ link_end (unlink l i) i t
  unfolding adjust
  away = ground (arith, before.0.0)

  -- A node with nodes before it goes to the front.
  Circle-move : Circle (adjust l i t) t (i ∷ (x ∷ xs) ++ ys)
  Circle-move =
      subst (λ l'. Circle l' t (i ∷ (x ∷ xs) ++ ys)) (sym away)
        (Seg-move f g f' g' i back_on on_back first keep keep_back bridge bridge_back x xs ys
          node_ne (All-map (Apart l i) (Other i) (x ∷ xs) (λ y a. a.0) p)
          (All-map (Apart l i) (Other i) ys (λ y a. a.0) q)
          (link_end_front (unlink l i) i t node' start node_ne)
          (link_end_node (unlink l i) i t node' start node_ne head_ne)
          (link_end_on (unlink l i) i t node' start node_ne ∙ head) back s)

adjust_stay : (l : List Link) (i : ℕ) (t : Side) → read l i (opposite t) ≡ 0 → adjust l i t ≡ l
unfolding adjust
adjust_stay l i t h = ground arith

-- The node goes to the front as one looks in the direction `t`.
pub Circle-adjust :
    (l : List Link) (i : ℕ) (t : Side) (xs ys : List ℕ)
    → i < length l
    → 0 ≢ i
    → All (Apart l i) xs
    → All (Apart l i) ys
    → Circle l t (xs ++ i ∷ ys)
    → Circle (adjust l i t) t (i ∷ xs ++ ys)
Circle-adjust l i t [] ys node node_ne p q s =
    subst (λ l'. Circle l' t (i ∷ ys)) (sym (adjust_stay l i t s.1)) s
Circle-adjust l i t (x ∷ xs) ys node node_ne p q s = Circle-move l i t node node_ne x xs ys p q s

pub Circle-reverse :
    (l : List Link) (t : Side) (xs : List ℕ) → Circle l t xs → Circle l (opposite t) (reverse xs)
Circle-reverse l prev xs s = Seg-reverse (λ j. read l j prev) (λ j. read l j next) 0 0 xs s
Circle-reverse l next xs s = Seg-reverse (λ j. read l j next) (λ j. read l j prev) 0 0 xs s

All-reverse {κ} : (P : ℕ → Type κ) (xs : List ℕ) → All P xs → All P (reverse xs)
All-reverse P [] p = p
All-reverse P (x ∷ xs) p =
    rw reverse-cons (All-append P (reverse xs) (x ∷ []) (All-reverse P xs p.1) (p.0, tt))

reverse-middle : (xs ys : List ℕ) (i : ℕ) → reverse (xs ++ i ∷ ys) ≡ reverse ys ++ i ∷ reverse xs
reverse-middle xs ys i = simp (reverse-append, reverse-cons, append_assoc)

-- The node goes to the back as one looks from the head.
pub Circle-adjust_tail :
    (l : List Link) (i : ℕ) (xs ys : List ℕ)
    → i < length l
    → 0 ≢ i
    → All (Apart l i) xs
    → All (Apart l i) ys
    → Circle l next (xs ++ i ∷ ys)
    → Circle (adjust l i prev) next ((xs ++ ys) ++ i ∷ [])
Circle-adjust_tail l i xs ys node node_ne p q s =
    subst (Circle (adjust l i prev) next)
      (simp (reverse-cons, reverse-append, reverse-reverse, append_assoc))
      (Circle-reverse (adjust l i prev) prev (i ∷ reverse ys ++ reverse xs) (
        Circle-adjust l i prev (reverse ys) (reverse xs) node node_ne (All-reverse _ ys q)
          (All-reverse _ xs p)
          (subst (Circle l prev) (reverse-middle xs ys i) (Circle-reverse l next _ s))))
