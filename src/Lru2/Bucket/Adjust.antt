-- ===== src/Lru2/Bucket/Adjust.antt =====
-- What `adjust` of store/lru2/bucket.go reads back as.
use my_cache_go.Common.{
  ℕ, ◌≡◌, ◌≢◌, refl, ◌∙◌, sym, ◌<◌, inl, inr, List, get_or, length, length-set, get_or-set_self,
  get_or-set_ne, get_or-set_keep, ◌==◌, Bool-cases,
}
use my_cache_go.Lru2.Bucket.Ring.{
  Side, prev, next, opposite, Link, zero_link, side, with_side, read, write, unlink, link_end,
  adjust,
}

opposite-opposite : (s : Side) → opposite (opposite s) ≡ s
opposite-opposite prev = refl
opposite-opposite next = refl

side-with_side : (l : Link) (s : Side) (n : ℕ) → side (with_side l s n) s ≡ n
side-with_side l prev n = refl
side-with_side l next n = refl

side-with_side-opposite :
    (l : Link) (s : Side) (n : ℕ) → side (with_side l s n) (opposite s) ≡ side l (opposite s)
side-with_side-opposite l prev n = refl
side-with_side-opposite l next n = refl

pub length-write : (l : List Link) (i : ℕ) (s : Side) (n : ℕ) → length (write l i s n) ≡ length l
unfolding write
length-write l i s n = length-set l i _

pub read-write_self :
    (l : List Link) (i : ℕ) (s : Side) (n : ℕ) → i < length l → read (write l i s n) i s ≡ n
unfolding read write
read-write_self l i s n h =
    rw (get_or-set_self l i (with_side (get_or l i zero_link) s n) zero_link h)
      (side-with_side _ s n)

pub read-write_ne :
    (l : List Link) (i j : ℕ) (s t : Side) (n : ℕ) → i ≢ j → read (write l i s n) j t ≡ read l j t
unfolding read write
read-write_ne l i j s t n h = rw (get_or-set_ne l i j _ zero_link h)

pub read-write-opposite :
    (l : List Link) (i j : ℕ) (s : Side) (n : ℕ)
    → read (write l i s n) j (opposite s) ≡ read l j (opposite s)
unfolding read write
read-write-opposite l i j s n =
    get_or-set_keep (λ k. side k (opposite s)) l i j _ zero_link
      (side-with_side-opposite (get_or l i zero_link) s n)

pub read-write_cross :
    (l : List Link) (i j : ℕ) (s : Side) (n : ℕ) → read (write l i (opposite s) n) j s ≡ read l j s
read-write_cross l i j prev n = read-write-opposite l i j next n
read-write_cross l i j next n = read-write-opposite l i j prev n

pub length-adjust : (l : List Link) (i : ℕ) (t : Side) → length (adjust l i t) ≡ length l
unfolding adjust unlink link_end
length-adjust l i t = elim (Bool-cases (read l i (opposite t) == 0)) [
  | inl e ↦ rw e
  | inr e ↦ rw e (simp length-write)
]

-- `unlink` joins the neighbours of the node, whichever direction one looks in.
pub unlink_bridge :
    (l : List Link) (i : ℕ) (t : Side)
    → read l i (opposite t) < length l
    → read (unlink l i) (read l i (opposite t)) t ≡ read l i t
unfolding unlink
unlink_bridge l i prev h = read-write_self _ _ prev _ (rw length-write h)
unlink_bridge l i next h = read-write-opposite _ _ _ prev _ ∙ read-write_self l _ next _ h

pub unlink_keep :
    (l : List Link) (i x : ℕ) (t : Side)
    → x ≢ read l i (opposite t)
    → read (unlink l i) x t ≡ read l x t
unfolding unlink
unlink_keep l i x prev h =
    read-write_ne _ _ x prev prev _ (λ e. h (sym e)) ∙ read-write-opposite l _ x next _
unlink_keep l i x next h =
    read-write-opposite _ _ x prev _ ∙ read-write_ne l _ x next next _ (λ e. h (sym e))

pub unlink_bridge_back :
    (l : List Link) (i : ℕ) (t : Side)
    → read l i t < length l
    → read (unlink l i) (read l i t) (opposite t) ≡ read l i (opposite t)
unlink_bridge_back l i prev h = unlink_bridge l i next h
unlink_bridge_back l i next h = unlink_bridge l i prev h

pub unlink_keep_back :
    (l : List Link) (i x : ℕ) (t : Side)
    → x ≢ read l i t
    → read (unlink l i) x (opposite t) ≡ read l x (opposite t)
unlink_keep_back l i x prev h = unlink_keep l i x next h
unlink_keep_back l i x next h = unlink_keep l i x prev h

pub length-unlink : (l : List Link) (i : ℕ) → length (unlink l i) ≡ length l
unfolding unlink
length-unlink l i = simp length-write

module _ (l : List Link) (i : ℕ) (t : Side) (node : i < length l) (start : 0 < length l)
    (node_ne : 0 ≢ i) where
  pub link_end_front : read (link_end l i t) 0 t ≡ i
  unfolding link_end
  link_end_front = read-write_self _ 0 t i (simp length-write start)

  pub link_end_on : read (link_end l i t) i t ≡ read l 0 t
  unfolding link_end
  link_end_on =
      read-write_ne _ 0 i t t i node_ne
      ∙ (read-write_cross _ _ i t _ ∙ read-write_self _ i t _ (simp length-write node))

  pub link_end_keep : (x : ℕ) → x ≢ 0 → x ≢ i → read (link_end l i t) x t ≡ read l x t
  unfolding link_end
  link_end_keep x p q =
      read-write_ne _ 0 x t t i (λ e. p (sym e))
      ∙ (read-write_cross _ _ x t _
          ∙ (read-write_ne _ i x t t _ (λ e. q (sym e)) ∙ read-write_cross _ _ x t _))

  pub link_end_back : read l 0 t < length l → read (link_end l i t) (read l 0 t) (opposite t) ≡ i
  unfolding link_end
  link_end_back h =
      read-write-opposite _ 0 _ t i ∙ read-write_self _ _ (opposite t) i (simp length-write h)

  pub link_end_node : read l 0 t ≢ i → read (link_end l i t) i (opposite t) ≡ 0
  unfolding link_end
  link_end_node h =
      read-write-opposite _ 0 i t i
      ∙ (read-write_ne _ _ i (opposite t) (opposite t) i h
          ∙ (read-write-opposite _ i i t _ ∙ read-write_self l i (opposite t) 0 node))

  pub link_end_keep_back :
      (x : ℕ)
      → x ≢ i
      → x ≢ read l 0 t
      → read (link_end l i t) x (opposite t) ≡ read l x (opposite t)
  unfolding link_end
  link_end_keep_back x p q =
      read-write-opposite _ 0 x t i
      ∙ (read-write_ne _ _ x (opposite t) (opposite t) i (λ e. q (sym e))
          ∙ (read-write-opposite _ i x t _
              ∙ read-write_ne l i x (opposite t) (opposite t) 0 (λ e. p (sym e))))
