-- ===== src/Lru2/Bucket/Refine.antt =====
-- The operations of a bucket beside the ones of `Spec`.
use mathlib.Core.List.{append-nil}
use mathlib.Core.Path.{subst₂}
use my_cache_go.Common.{
  ℕ, suc, ◌<◌, ◌≡◌, ◌≢◌, refl, sym, ap, subst, ◌∙◌, inl, inr, List, [], ◌∷◌, ◌++◌, Option, none,
  some, Bool, ◌==◌, Option-cases, map, length, All, length-map, snoc-view, All-left, In-split, Key,
  key_dec, arith, get_or, set, ℕ_discrete,
}
use my_cache_go.Common.Int64.{Int64}
use my_cache_go.Common.Dict.{find, insert}
use my_cache_go.Lru2.Bucket.{
  Entry, Bucket, entry_at, push_links, slot, zero_entry, Calls, update, recycle, append, put,
  evict_call,
}
use my_cache_go.Lru2.Bucket.Ring.{prev, next, read}
use my_cache_go.Lru2.Bucket.Chain.{Seg-split}
use my_cache_go.Lru2.Bucket.Move.{Circle}
use my_cache_go.Lru2.Bucket.Index.{absent-ne, other-ne}
use my_cache_go.Lru2.Bucket.Inv.{
  Inv, Holds, key_of, front-IsIndex, Inv-front, Inv-recycle, entries_front,
}
use my_cache_go.Lru2.Bucket.Inv.Append.{Inv-append, entries_append}
use my_cache_go.Lru2.Bucket.Lookup.{
  find_entry-middle, take_out-middle, find_entry-absent, drop_last-snoc, last-snoc,
}
use my_cache_go.Lru2.Bucket.Spec

module _ {ℓ} {V : Type ℓ} (cap : ℕ) (b : Bucket V) where
  -- A key that the index maps: its node, and where it stands.
  pub found_node :
      (order : List ℕ) (k : Key) (i : ℕ)
      → Inv cap b order
      → find key_dec k b.key_to_index ≡ some i
      → (xs : List ℕ) × (ys : List ℕ) × (order ≡ xs ++ i ∷ ys) × ((entry_at b i).key ≡ k)
  found_node order k i v h =
      let r = v.index.found k i h in let (xs, ys, e) = In-split i order r.0 in (xs, ys, e, r.1)

  module _ (xs ys : List ℕ) (i : ℕ) (v : Inv cap b (xs ++ i ∷ ys)) where
    others : All (λ j. (entry_at b j).key ≢ (entry_at b i).key) xs
    others =
        All-left _ xs ys
          (other-ne (key_of b.entries) b.key_to_index b.size (xs ++ ys) i (front-IsIndex xs ys i v))

    pub spec_find :
        Spec.find_entry (entry_at b i).key (map (entry_at b) (xs ++ i ∷ ys)) ≡ some (entry_at b i)
    spec_find = find_entry-middle (entry_at b) xs ys i others

    pub spec_take_out :
        Spec.take_out (entry_at b i).key (map (entry_at b) (xs ++ i ∷ ys))
        ≡ map (entry_at b) (xs ++ ys)
    spec_take_out = take_out-middle (entry_at b) xs ys i others

  -- A key that the index lacks is no entry's.
  pub spec_absent :
      (order : List ℕ) (k : Key)
      → Inv cap b order
      → find key_dec k b.key_to_index ≡ none
      → Spec.find_entry k (map (entry_at b) order) ≡ none
  spec_absent order k v h =
      find_entry-absent (entry_at b) order k
        (absent-ne (key_of b.entries) b.key_to_index b.size order k v.index h)

  pub length-contents :
      (order : List ℕ) → Inv cap b order → length (map (entry_at b) order) ≡ b.size
  length-contents order v = length-map order (entry_at b) ∙ v.index.sized

  -- The node at the tail, and those before it.
  tail_node :
      (order : List ℕ)
      → Inv cap b order
      → b.size ≡ cap
      → (xs : List ℕ) × (order ≡ xs ++ read b.links 0 prev ∷ [])
  tail_node [] v h = absurd (omega (arith, v.cap_pos, v.index.sized))
  tail_node (x ∷ xs) v h =
      let (ys, i, e) = snoc-view x xs in
      let s = subst (Circle b.links next) e v.circle in
      let t = Seg-split (λ j. read b.links j next) (λ j. read b.links j prev) 0 i 0 ys [] s in
      (ys, e ∙ ap (λ j. ys ++ j ∷ []) (sym t.1.1))

  -- The result of `put` on the bucket and the result on its list agree.
  abbrev pub PutAgrees : Bucket V × Calls V × ℕ → List (Entry V) × Calls V × ℕ → Type ℓ
  PutAgrees r s = Holds cap r.0 s.0 × (r.1 ≡ s.1) × (r.2 ≡ s.2)

  abbrev pub PutRefines : List (Entry V) → Key → Option V → Int64 → Bool → Type ℓ
  PutRefines l k val d notify = PutAgrees (put b k val d notify) (Spec.put cap l k val d notify)

  put_hit :
      (xs ys : List ℕ) (i : ℕ) (val : Option V) (d : Int64) (notify : Bool)
      → Inv cap b (xs ++ i ∷ ys)
      → find key_dec (entry_at b i).key b.key_to_index ≡ some i
      → PutRefines (map (entry_at b) (xs ++ i ∷ ys)) (entry_at b i).key val d notify
  unfolding put Spec.put update
  put_hit xs ys i val d notify v h =
      subst₂ PutAgrees (sym code) (sym spec)
        ((i ∷ xs ++ ys, Inv-front xs ys i v _ refl, entries_front xs ys i v _), refl, refl)
    where
      code : put b (entry_at b i).key val d notify ≡ (update b i val d, [], 0)
      code = rw (h, put)

      spec : Spec.put cap (map (entry_at b) (xs ++ i ∷ ys)) (entry_at b i).key val d notify ≡ (
        record { key = (entry_at b i).key; value = val; deadline = d }
            ∷ map (entry_at b) (xs ++ ys),
        [],
        0,
      )
      spec = rw (spec_find xs ys i v, Spec.put, spec_take_out xs ys i v)

  module _ (k : Key) (val : Option V) (d : Int64) (notify : Bool)
      (h : find key_dec k b.key_to_index ≡ none) where
    abbrev fresh : Entry V
    fresh = record { key = k; value = val; deadline = d }

    moved :
        (xs : List ℕ) (i : ℕ)
        → Inv cap b (xs ++ i ∷ [])
        → map (λ j. get_or (set b.entries (slot i) fresh) (slot j) zero_entry) (i ∷ xs ++ [])
          ≡ fresh ∷ map (entry_at b) xs
    moved xs i v =
        entries_front xs [] i v fresh ∙ ap (λ ys. fresh ∷ map (entry_at b) ys) (append-nil xs)

    put_full :
        (xs : List ℕ)
        → Inv cap b (xs ++ read b.links 0 prev ∷ [])
        → b.size ≡ cap
        → PutRefines (map (entry_at b) (xs ++ read b.links 0 prev ∷ [])) k val d notify
    unfolding put Spec.put recycle
    put_full xs v full =
        subst₂ PutAgrees (sym code) (sym spec)
          ((i ∷ xs ++ [], Inv-recycle xs [] i v fresh h, moved xs i v), refl, refl)
      where
        i : ℕ
        i = read b.links 0 prev

        l : List (Entry V)
        l = map (entry_at b) (xs ++ i ∷ [])

        code : put b k val d notify ≡ (recycle b k val d, evict_call notify (entry_at b i), 1)
        code = ground (arith, v.entries_len, v.cap_small)

        spec :
            Spec.put cap l k val d notify
            ≡ (fresh ∷ map (entry_at b) xs, evict_call notify (entry_at b i), 1)
        spec = ground (
          arith,
          spec_absent (xs ++ i ∷ []) k v h,
          length-contents (xs ++ i ∷ []) v,
          drop_last-snoc (entry_at b) xs i,
          last-snoc (entry_at b) xs i,
        )

    put_room :
        (order : List ℕ)
        → Inv cap b order
        → b.size ≢ cap
        → PutRefines (map (entry_at b) order) k val d notify
    unfolding put Spec.put append
    put_room order v room = subst₂ PutAgrees (sym code) (sym spec) (
      (suc b.size ∷ order, Inv-append order v fresh h fits, entries_append order v fresh h fits),
      refl,
      refl,
    )
      where
        fits : b.size < cap
        fits = omega (arith, v.size_le)

        code : put b k val d notify ≡ (
          record {
            links = push_links b.links (length b.key_to_index == 0) (suc b.size);
            entries = set b.entries (slot (suc b.size)) fresh;
            key_to_index = insert key_dec k (suc b.size) b.key_to_index;
            size = suc b.size;
          },
          [],
          1,
        )
        code = ground (arith, v.entries_len, v.cap_small, v.size_le)

        spec :
            Spec.put cap (map (entry_at b) order) k val d notify
            ≡ (fresh ∷ map (entry_at b) order, [], 1)
        spec = ground (arith, spec_absent order k v h, length-contents order v)

  pub put_order :
      (order : List ℕ) (k : Key) (val : Option V) (d : Int64) (notify : Bool)
      → Inv cap b order
      → PutRefines (map (entry_at b) order) k val d notify
  put_order order k val d notify v = elim (Option-cases (find key_dec k b.key_to_index)) [
    | inr (i, h) ↦
        let (xs, ys, o, q) = found_node order k i v h in
        subst (λ o'. PutRefines (map (entry_at b) o') k val d notify) (sym o)
          (subst (λ k'. PutRefines (map (entry_at b) (xs ++ i ∷ ys)) k' val d notify) q
            (put_hit xs ys i val d notify (subst (Inv cap b) o v)
              (subst (λ k'. find key_dec k' b.key_to_index ≡ some i) (sym q) h)))
    | inl h ↦ elim (ℕ_discrete b.size cap) [
      | yes full ↦
          let (xs, o) = tail_node order v full in
          subst (λ o'. PutRefines (map (entry_at b) o') k val d notify) (sym o)
            (put_full k val d notify h xs (subst (Inv cap b) o v) full)
      | no room ↦ put_room k val d notify h order v room
    ]
  ]
