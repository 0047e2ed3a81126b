-- ===== src/Lru2/Bucket/Push.antt =====
-- The links of a bucket after `put` has taken a fresh node.
use my_cache_go.Common.{
  ℕ, ◌≡◌, ◌≢◌, refl, sym, ap, subst, ◌<◌, ◌∙◌, List, [], ◌∷◌, Bool, true, false, All, All-map,
  get_or-set_self, get_or-set_ne, length, length-set, set, arith,
}
use my_cache_go.Lru2.Bucket.{push_links}
use my_cache_go.Lru2.Bucket.Ring.{Side, prev, next, Link, zero_link, read, write, side}
use my_cache_go.Lru2.Bucket.Chain.{Other, Seg-first, Seg-push}
use my_cache_go.Lru2.Bucket.Adjust.{
  read-write_self, read-write_ne, read-write-opposite, length-write,
}
use my_cache_go.Lru2.Bucket.Move.{Circle, Apart}

read-set_self :
    (l : List Link) (i : ℕ) (k : Link) (s : Side) → i < length l → read (set l i k) i s ≡ side k s
unfolding read
read-set_self l i k s h = ap (λ x. side x s) (get_or-set_self l i k zero_link h)

read-set_ne :
    (l : List Link) (i j : ℕ) (k : Link) (s : Side) → i ≢ j → read (set l i k) j s ≡ read l j s
unfolding read
read-set_ne l i j k s h = ap (λ x. side x s) (get_or-set_ne l i j k zero_link h)

module _ (l : List Link) (n : ℕ) (fits : n < length l) (fresh : 0 ≢ n) where
  -- Both branches of the test write here.
  abbrev hooked : List Link
  hooked = write l (read l 0 next) prev n

  abbrev pushed : List Link
  pushed = write (set hooked n (record { at_prev = 0; at_next = read hooked 0 next })) 0 next n

  start : 0 < length (set hooked n (record { at_prev = 0; at_next = read hooked 0 next }))
  start = rw (length-set, length-write) (omega arith)

  fits' : n < length hooked
  fits' = rw length-write fits

  push_front : read pushed 0 next ≡ n
  push_front = read-write_self _ 0 next n start

  push_on : read pushed n next ≡ read l 0 next
  push_on =
      read-write_ne _ 0 n next next n fresh
      ∙ (read-set_self hooked n _ next fits' ∙ read-write-opposite l _ 0 prev n)

  push_keep : (x : ℕ) → x ≢ 0 → x ≢ n → read pushed x next ≡ read l x next
  push_keep x p q =
      read-write_ne _ 0 x next next n (λ e. p (sym e))
      ∙ (read-set_ne hooked n x _ next (λ e. q (sym e)) ∙ read-write-opposite l _ x prev n)

  push_node : read pushed n prev ≡ 0
  push_node = read-write-opposite _ 0 n next n ∙ read-set_self hooked n _ prev fits'

  push_back : read l 0 next < length l → n ≢ read l 0 next → read pushed (read l 0 next) prev ≡ n
  push_back h q =
      read-write-opposite _ 0 _ next n
      ∙ (read-set_ne hooked n _ _ prev q ∙ read-write_self l _ prev n h)

  push_keep_back : (x : ℕ) → x ≢ n → x ≢ read l 0 next → read pushed x prev ≡ read l x prev
  push_keep_back x p q =
      read-write-opposite _ 0 x next n
      ∙ (read-set_ne hooked n x _ prev (λ e. p (sym e))
          ∙ read-write_ne l _ x prev prev n (λ e. q (sym e)))

  Circle-pushed :
      (xs : List ℕ)
      → All (Apart l n) xs
      → read l 0 next < length l
      → n ≢ read l 0 next
      → Circle l next xs
      → Circle pushed next (n ∷ xs)
  Circle-pushed xs p h q s =
      Seg-push (λ j. read l j next) (λ j. read l j prev) (λ j. read pushed j next)
        (λ j. read pushed j prev) n (Seg-first _ _ 0 0 xs s) push_keep push_keep_back xs fresh
        (All-map (Apart l n) (Other n) xs (λ y a. a.0) p) push_front push_node push_on
        (push_back h q) s

  -- The test for an empty bucket only avoids a read of the sentinel's neighbour.
  push_links-pushed :
      (empty : Bool) → (empty ≡ true → read l 0 next ≡ 0) → push_links l empty n ≡ pushed
  unfolding push_links
  push_links-pushed true h = rw (h refl)
  push_links-pushed false h = refl

  -- The fresh node goes to the head.
  pub Circle-push :
      (xs : List ℕ) (empty : Bool)
      → All (Apart l n) xs
      → (empty ≡ true → read l 0 next ≡ 0)
      → Circle l next xs
      → Circle (push_links l empty n) next (n ∷ xs)
  Circle-push [] empty p h s =
      subst (λ k. Circle k next (n ∷ [])) (sym (push_links-pushed empty h))
        (Circle-pushed [] p (rw s.0 (omega arith)) (λ e. fresh (sym (e ∙ s.0))) s)
  Circle-push (x ∷ xs) empty p h s =
      subst (λ k. Circle k next (n ∷ x ∷ xs)) (sym (push_links-pushed empty h))
        (Circle-pushed (x ∷ xs) p (rw s.0 p.0.1) (λ e. p.0.0.1 (sym (e ∙ s.0))) s)

pub length-push_links :
    (l : List Link) (empty : Bool) (n : ℕ) → length (push_links l empty n) ≡ length l
unfolding push_links
length-push_links l true n = simp (length-write, length-set)
length-push_links l false n = simp (length-write, length-set)
