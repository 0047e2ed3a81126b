-- ===== src/Lru2/Bucket/Walk.antt =====
-- `get`, `del` and `walk` on the bucket and on the list that it holds.
use mathlib.Core.Path.{subst₂}
use my_cache_go.Common.{
  ℕ, zero, suc, ◌≤◌, ◌<◌, ◌≡◌, refl, sym, subst, inl, inr, List, [], ◌∷◌, ◌++◌, Option, none, some,
  Bool, false, ◌==◌, Bool-cases, Option-cases, map, length, All, All-map, Key, key_dec, arith,
}
use my_cache_go.Common.Int64.{Int64}
use my_cache_go.Common.Dict.{find}
use my_cache_go.Lru2.Bucket.{Entry, Bucket, entry_at, get, del, bury, walk, walk_from}
use my_cache_go.Lru2.Bucket.Ring.{prev, next, read, adjust}
use my_cache_go.Lru2.Bucket.Chain.{Seg}
use my_cache_go.Lru2.Bucket.Inv.{Inv, Holds, Inv-back, Inv-touch, entries_back}
use my_cache_go.Lru2.Bucket.Refine.{found_node, spec_find, spec_take_out, spec_absent}
use my_cache_go.Lru2.Bucket.Spec

module _ {ℓ} {V : Type ℓ} (cap : ℕ) (b : Bucket V) where
  abbrev pub GetAgrees : Bucket V × Option (Entry V) → List (Entry V) × Option (Entry V) → Type ℓ
  GetAgrees r s = Holds cap r.0 s.0 × (r.1 ≡ s.1)

  abbrev pub DelAgrees :
      Bucket V × Option (Entry V × Int64) → List (Entry V) × Option (Entry V × Int64) → Type ℓ
  DelAgrees r s = Holds cap r.0 s.0 × (r.1 ≡ s.1)

  get_hit :
      (xs ys : List ℕ) (i : ℕ)
      → Inv cap b (xs ++ i ∷ ys)
      → find key_dec (entry_at b i).key b.key_to_index ≡ some i
      → GetAgrees
          (get b (entry_at b i).key)
          (Spec.get (map (entry_at b) (xs ++ i ∷ ys)) (entry_at b i).key)
  unfolding get Spec.get
  get_hit xs ys i v h =
      subst₂ GetAgrees (sym code) (sym spec) ((i ∷ xs ++ ys, Inv-touch xs ys i v, refl), refl)
    where
      code :
          get b (entry_at b i).key
          ≡ (record b { links = adjust b.links i next }, some (entry_at b i))
      code = rw (h, get)

      spec :
          Spec.get (map (entry_at b) (xs ++ i ∷ ys)) (entry_at b i).key
          ≡ (map (entry_at b) (i ∷ xs ++ ys), some (entry_at b i))
      spec = rw (spec_find cap b xs ys i v, Spec.get, spec_take_out cap b xs ys i v)

  pub get_order :
      (order : List ℕ) (k : Key)
      → Inv cap b order
      → GetAgrees (get b k) (Spec.get (map (entry_at b) order) k)
  unfolding get Spec.get
  get_order order k v = elim (Option-cases (find key_dec k b.key_to_index)) [
    | inr (i, h) ↦
        let (xs, ys, o, q) = found_node cap b order k i v h in
        subst (λ o'. GetAgrees (get b k) (Spec.get (map (entry_at b) o') k)) (sym o)
          (subst (λ k'. GetAgrees (get b k') (Spec.get (map (entry_at b) (xs ++ i ∷ ys)) k')) q
            (get_hit xs ys i (subst (Inv cap b) o v)
              (subst (λ k'. find key_dec k' b.key_to_index ≡ some i) (sym q) h)))
    | inl h ↦
        subst₂ GetAgrees {x = (b, none)} {u = (map (entry_at b) order, none)}
          (sym (rw (h, get) refl)) (sym (rw (spec_absent cap b order k v h, Spec.get) refl))
          ((order, v, refl), refl)
  ]

  del_hit :
      (xs ys : List ℕ) (i : ℕ)
      → Inv cap b (xs ++ i ∷ ys)
      → find key_dec (entry_at b i).key b.key_to_index ≡ some i
      → DelAgrees
          (del b (entry_at b i).key)
          (Spec.del (map (entry_at b) (xs ++ i ∷ ys)) (entry_at b i).key)
  unfolding del Spec.del bury
  del_hit xs ys i v h = elim (Bool-cases ((entry_at b i).deadline == 0)) [
    | inl dead ↦
        subst₂ DelAgrees {x = (b, none)} {u = (map (entry_at b) (xs ++ i ∷ ys), none)}
          (sym (ground (arith, h, dead))) (sym (ground (arith, spec_find cap b xs ys i v, dead)))
          ((xs ++ i ∷ ys, v, refl), refl)
    | inr live ↦
        subst₂ DelAgrees (sym (code live)) (sym (spec live))
          (((xs ++ ys) ++ i ∷ [], Inv-back xs ys i v _ refl, entries_back xs ys i v _), refl)
  ]
    where
      gone : Entry V
      gone = record (entry_at b i) { deadline = 0 }

      code :
          ((entry_at b i).deadline == 0) ≡ false
          → del b (entry_at b i).key ≡ (bury b i, some (gone, (entry_at b i).deadline))
      code live = rw (h, del) (rw live)

      spec :
          ((entry_at b i).deadline == 0) ≡ false
          → Spec.del (map (entry_at b) (xs ++ i ∷ ys)) (entry_at b i).key
            ≡ (map (entry_at b) (xs ++ ys) ++ gone ∷ [], some (gone, (entry_at b i).deadline))
      spec live = rw (spec_find cap b xs ys i v, Spec.del, spec_take_out cap b xs ys i v) (rw live)

  pub del_order :
      (order : List ℕ) (k : Key)
      → Inv cap b order
      → DelAgrees (del b k) (Spec.del (map (entry_at b) order) k)
  unfolding del Spec.del
  del_order order k v = elim (Option-cases (find key_dec k b.key_to_index)) [
    | inr (i, h) ↦
        let (xs, ys, o, q) = found_node cap b order k i v h in
        subst (λ o'. DelAgrees (del b k) (Spec.del (map (entry_at b) o') k)) (sym o)
          (subst (λ k'. DelAgrees (del b k') (Spec.del (map (entry_at b) (xs ++ i ∷ ys)) k')) q
            (del_hit xs ys i (subst (Inv cap b) o v)
              (subst (λ k'. find key_dec k' b.key_to_index ≡ some i) (sym q) h)))
    | inl h ↦
        subst₂ DelAgrees {x = (b, none)} {u = (map (entry_at b) order, none)}
          (sym (rw (h, del) refl)) (sym (rw (spec_absent cap b order k v h, Spec.del) refl))
          ((order, v, refl), refl)
  ]

module _ {ℓ κ} {V : Type ℓ} {S : Type κ} (walker : S → Entry V → S × Bool) (b : Bucket V) where
  -- From node `a` on, with fuel for the nodes that are left.
  walk_from_lem :
      (fuel a : ℕ) (xs : List ℕ) (s : S)
      → Seg (λ j. read b.links j next) (λ j. read b.links j prev) a xs 0
      → All (λ i. 0 < i) xs
      → length xs < fuel
      → walk_from walker fuel b (read b.links a next) s ≡ Spec.walk walker (map (entry_at b) xs) s
  unfolding walk_from Spec.walk
  walk_from_lem zero a xs s c p h = absurd (omega arith)
  walk_from_lem (suc fuel) a [] s c p h = rw c.0
  walk_from_lem (suc fuel) a (x ∷ xs) s c p h =
      let ih = λ (s' : S). walk_from_lem fuel x xs s' c.2 p.1 (omega arith) in
      subst
        (λ y. walk_from walker (suc fuel) b y s ≡ Spec.walk walker (map (entry_at b) (x ∷ xs)) s)
        (sym c.0) (ground (arith, ih s, ih (walker s (entry_at b x)).0))

  pub walk_order :
      (cap : ℕ) (order : List ℕ) (s : S)
      → Inv cap b order
      → walk walker b s ≡ Spec.walk walker (map (entry_at b) order) s
  unfolding walk
  walk_order cap order s v =
      walk_from_lem (suc b.size) 0 order s v.circle
        (All-map _ _ order (λ i (q : (0 < i) × (i ≤ b.size)). q.0) v.index.nodes)
        (omega (arith, v.index.sized))
