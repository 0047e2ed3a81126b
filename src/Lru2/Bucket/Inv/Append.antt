-- ===== src/Lru2/Bucket/Inv/Append.antt =====
-- The invariant of a bucket that is not full and takes a new entry at its head.
use my_cache_go.Common.{
  ℕ, suc, ◌≤◌, ◌<◌, ◌≡◌, refl, ◌∙◌, List, [], ◌∷◌, none, some, length, length-set, get_or, set, All,
  All-In, All-of_In, In, Key, ap, ap₂, true, ◌==◌, key_dec, map, map-cong, arith,
}
use my_cache_go.Lru2.Bucket.{Entry, Bucket, zero_entry, slot, entry_at, push_links}
use my_cache_go.Lru2.Bucket.Ring.{next, read}
use my_cache_go.Lru2.Bucket.Push.{Circle-push, length-push_links}
use my_cache_go.Lru2.Bucket.Move.{Circle}
use my_cache_go.Lru2.Bucket.Index.{IsIndex-append}
use my_cache_go.Common.Dict.{find, insert}
use my_cache_go.Lru2.Bucket.Inv.{Inv, key_of, at-set_self, at-set_ne}

-- A fresh node goes to the head with an entry for a key that the bucket did not have.
module _ {ℓ} {V : Type ℓ} {cap : ℕ} {b : Bucket V} (xs : List ℕ) (v : Inv cap b xs) (e : Entry V)
    (absent : find key_dec e.key b.key_to_index ≡ none) (room : b.size < cap) where
  append_ne : (j : ℕ) → In j xs → (0 < j) × (j ≤ b.size)
  append_ne j h = All-In _ j xs h v.index.nodes

  append_here : get_or (set b.entries (slot (suc b.size)) e) (slot (suc b.size)) zero_entry ≡ e
  append_here =
      at-set_self b.entries (suc b.size) e (omega arith) (omega (arith, v.entries_len))
        (omega (arith, v.cap_small))

  append_there :
      (j : ℕ)
      → In j xs
      → get_or (set b.entries (slot (suc b.size)) e) (slot j) zero_entry ≡ entry_at b j
  append_there j h =
      at-set_ne b.entries (suc b.size) e j (omega arith) (omega (arith, v.cap_small))
        (append_ne j h).0 (omega (arith, append_ne j h, v.cap_small)) (omega (arith, append_ne j h))

  -- An empty map has no nodes to map to.
  append_empty : (length b.key_to_index == 0) ≡ true → read b.links 0 next ≡ 0
  unfolding find
  append_empty h = nodes_of xs v.circle v.index.indexed
    where
      none_mapped :
          (m : List (Key × ℕ)) (k : Key) → (length m == 0) ≡ true → find key_dec k m ≡ none
      none_mapped [] k q = refl
      none_mapped (x ∷ m) k q = absurd (ground arith)

      nodes_of :
          (order : List ℕ)
          → Circle b.links next order
          → All (λ i. find key_dec (key_of b.entries i) b.key_to_index ≡ some i) order
          → read b.links 0 next ≡ 0
      nodes_of [] s a = s.0
      nodes_of (x ∷ order) s a = cc (none_mapped b.key_to_index (key_of b.entries x) h, a.0)

  pub entries_append :
      map (λ j. get_or (set b.entries (slot (suc b.size)) e) (slot j) zero_entry) (suc b.size ∷ xs)
      ≡ e ∷ map (entry_at b) xs
  entries_append = ap₂ ◌∷◌ append_here (map-cong _ _ xs (All-of_In _ xs append_there))

  pub Inv-append :
      Inv cap
        (record {
          links = push_links b.links (length b.key_to_index == 0) (suc b.size);
          entries = set b.entries (slot (suc b.size)) e;
          key_to_index = insert key_dec e.key (suc b.size) b.key_to_index;
          size = suc b.size;
        })
        (suc b.size ∷ xs)
  Inv-append = record {
    cap_pos = v.cap_pos;
    cap_small = v.cap_small;
    links_len = length-push_links b.links _ (suc b.size) ∙ v.links_len;
    entries_len = length-set b.entries _ e ∙ v.entries_len;
    size_le = room;
    circle =
        Circle-push b.links (suc b.size) (omega (arith, v.links_len)) (omega arith) xs _
          (All-of_In _ xs λ j h. omega (arith, append_ne j h, v.links_len)) append_empty v.circle;
    index =
        IsIndex-append (key_of b.entries) (key_of (set b.entries (slot (suc b.size)) e))
          b.key_to_index b.size (suc b.size) e.key (ap (λ x. x.key) append_here) xs
          (λ j h. ap (λ x. x.key) (append_there j h)) absent v.index refl;
  }
