-- ===== src/Lru2/Bucket/Peek.antt =====
-- The live entry of a key, and what the operations of the list do to it.
use my_cache_go.Common.{
  ℕ, ◌≡◌, ◌≢◌, refl, sym, subst, ◌∙◌, inl, inr, List, [], ◌∷◌, ◌++◌, Option, none, some, Bool,
  if◌then◌else◌, ◌==◌, Option-cases, ite, if_pos, if_neg, map, length, All, All-In, All-of_In,
  Distinct, Key, key_dec, arith, ℕ_discrete,
}
use my_cache_go.Common.Int64.{Int64}
use my_cache_go.Common.Dict.{find}
use my_cache_go.Lru2.Bucket.{Entry, Bucket, entry_at}
use my_cache_go.Lru2.Bucket.Inv.{Holds}
use my_cache_go.Lru2.Bucket.Spec
use my_cache_go.Lru2.Bucket.Spec.{find_entry, take_out, drop_last, last}

module _ {ℓ} {V : Type ℓ} where
  -- An entry that is not marked as deleted.
  abbrev pub if_live : Option (Entry V) → Option (Entry V)
  if_live none = none
  if_live (some e) = if e.deadline == 0 then none else some e

  -- The live entry of a key in a list.
  unfoldable pub peek : List (Entry V) → Key → Option (Entry V)
  peek l k = if_live (find_entry k l)

  -- No key twice.
  abbrev pub DistinctKeys : List (Entry V) → Type 0
  DistinctKeys [] = Unit
  DistinctKeys (e ∷ l) = All (λ f. f.key ≢ e.key) l × DistinctKeys l

  find_entry-absent :
      (k : Key) (l : List (Entry V)) → All (λ f. f.key ≢ k) l → find_entry k l ≡ none
  unfolding find_entry
  find_entry-absent k [] h = refl
  find_entry-absent k (e ∷ l) h = if_neg (key_dec e.key k) h.0 _ _ ∙ find_entry-absent k l h.1

  find_entry-take_out_self :
      (k : Key) (l : List (Entry V)) → DistinctKeys l → find_entry k (take_out k l) ≡ none
  unfolding find_entry take_out
  find_entry-take_out_self k [] d = refl
  find_entry-take_out_self k (e ∷ l) d = elim (key_dec e.key k) [
    | yes p ↦
        rw (if_pos (key_dec e.key k) p)
          (find_entry-absent k l (subst (λ q. All (λ f. f.key ≢ q) l) p d.0))
    | no p ↦
        rw (if_neg (key_dec e.key k) p)
          (if_neg (key_dec e.key k) p _ _ ∙ find_entry-take_out_self k l d.1)
  ]

  find_entry-take_out_ne :
      (k j : Key) (l : List (Entry V)) → j ≢ k → find_entry j (take_out k l) ≡ find_entry j l
  unfolding find_entry take_out
  find_entry-take_out_ne k j [] h = refl
  find_entry-take_out_ne k j (e ∷ l) h = elim (key_dec e.key k) [
    | yes p ↦
        rw (if_pos (key_dec e.key k) p)
          (sym (if_neg (key_dec e.key j) (λ q. h (sym q ∙ p)) (some e) (find_entry j l)))
    | no p ↦ rw (if_neg (key_dec e.key k) p) (rw (find_entry-take_out_ne k j l h))
  ]

  or_else : Option (Entry V) → Option (Entry V) → Option (Entry V)
  or_else none o = o
  or_else (some e) o = some e

  find_entry-append :
      (k : Key) (l m : List (Entry V))
      → find_entry k (l ++ m) ≡ or_else (find_entry k l) (find_entry k m)
  unfolding find_entry or_else
  find_entry-append k [] m = refl
  find_entry-append k (e ∷ l) m = elim (key_dec e.key k) [
    | yes p ↦ simp (if_pos {C = Option (Entry V)} (key_dec e.key k) p)
    | no p ↦ simp (if_neg {C = Option (Entry V)} (key_dec e.key k) p) (find_entry-append k l m)
  ]

  find_entry-cons :
      (j : Key) (e : Entry V) (l : List (Entry V))
      → find_entry j (e ∷ l) ≡ ite (key_dec e.key j) (some e) (find_entry j l)
  unfolding find_entry
  find_entry-cons j e l = refl

  find_entry-single :
      (j : Key) (e : Entry V) → find_entry j (e ∷ []) ≡ ite (key_dec e.key j) (some e) none
  unfolding find_entry
  find_entry-single j e = refl

  find_entry-key :
      (k : Key) (l : List (Entry V)) (e : Entry V) → find_entry k l ≡ some e → e.key ≡ k
  unfolding find_entry
  find_entry-key k [] e h = cc
  find_entry-key k (f ∷ l) e h = elim (key_dec f.key k) [
    | yes p ↦ cc (if_pos (key_dec f.key k) p (some f) (find_entry k l), p)
    | no p ↦ find_entry-key k l e (sym (if_neg (key_dec f.key k) p (some f) (find_entry k l)) ∙ h)
  ]

  -- The least recent entry goes, and no other.
  find_entry-drop_last :
      (j : Key) (l : List (Entry V))
      → (last l).key ≢ j
      → find_entry j (drop_last l) ≡ find_entry j l
  unfolding find_entry drop_last last
  find_entry-drop_last j [] h = refl
  find_entry-drop_last j (e ∷ []) h = sym (if_neg (key_dec e.key j) h (some e) none)
  find_entry-drop_last j (e ∷ f ∷ l) h = rw (find_entry-drop_last j (f ∷ l) h)

module _ {ℓ} {V : Type ℓ} (l : List (Entry V)) (k : Key) where
  -- What `del` reports is the live entry.
  pub del-peek :
      (Spec.del l k).1
      ≡ elim (peek l k) [ none ↦ none | some e ↦ some (record e { deadline = 0 }, e.deadline) ]
  unfolding Spec.del peek
  del-peek = ground arith

  pub peek-del_self : DistinctKeys l → peek (Spec.del l k).0 k ≡ none
  unfolding Spec.del peek or_else
  peek-del_self d =
      let gone = λ (e : Entry V). let f : Entry V = record e { deadline = 0 } in f in
      elim (Option-cases (find_entry k l)) [
        | inl h ↦ ground (arith, h)
        | inr (e, h) ↦ ground (
          arith,
          h,
          find_entry-append k (take_out k l) (gone e ∷ []),
          find_entry-take_out_self k l d,
          find_entry-single k (gone e),
        )
      ]

  pub peek-del_ne : (j : Key) → j ≢ k → peek (Spec.del l k).0 j ≡ peek l j
  unfolding Spec.del peek or_else
  peek-del_ne j h =
      let gone = λ (e : Entry V). let f : Entry V = record e { deadline = 0 } in f in
      elim (Option-cases (find_entry k l)) [
        | inl q ↦ ground (arith, q)
        | inr (e, q) ↦ ground (
          arith,
          q,
          find_entry-append j (take_out k l) (gone e ∷ []),
          find_entry-take_out_ne k j l h,
          find_entry-single j (gone e),
          find_entry-key k l e q,
        )
      ]

  -- A read changes no key's live entry.
  pub peek-get : (j : Key) → peek (Spec.get l k).0 j ≡ peek l j
  unfolding Spec.get peek
  peek-get j = elim (Option-cases (find_entry k l)) [
    | inl q ↦ ground (arith, q)
    | inr (e, q) ↦ ground (
      arith,
      q,
      find_entry-cons j e (take_out k l),
      find_entry-take_out_ne k j l,
      find_entry-key k l e q,
    )
  ]

  pub get_peek : if_live (Spec.get l k).1 ≡ peek l k
  unfolding Spec.get peek
  get_peek = ground arith

  module _ (cap : ℕ) (v : Option V) (d : Int64) (notify : Bool) where
    abbrev stored : Entry V
    stored = record { key = k; value = v; deadline = d }

    -- What was stored is there.
    pub peek-put_self : d ≢ 0 → peek (Spec.put cap l k v d notify).0 k ≡ some stored
    unfolding Spec.put peek
    peek-put_self h = ground (
      arith,
      find_entry-cons k stored (take_out k l),
      find_entry-cons k stored (drop_last l),
      find_entry-cons k stored l,
    )

    -- Every other key keeps its live entry, unless it is the least recent of a full bucket.
    pub peek-put_ne :
        (j : Key)
        → j ≢ k
        → (length l ≡ cap → find_entry k l ≡ none → (last l).key ≢ j)
        → peek (Spec.put cap l k v d notify).0 j ≡ peek l j
    unfolding Spec.put peek
    peek-put_ne j h kept = elim (Option-cases (find_entry k l)) [
      | inr (e, q) ↦
          ground (arith, q, find_entry-cons j stored (take_out k l), find_entry-take_out_ne k j l h)
      | inl q ↦ elim (ℕ_discrete (length l) cap) [
        | yes full ↦ ground (
          arith,
          q,
          full,
          find_entry-cons j stored (drop_last l),
          find_entry-drop_last j l (kept full q),
        )
        | no room ↦ ground (arith, q, room, find_entry-cons j stored l)
      ]
    ]

pub peek-ne_zero {ℓ} :
    {V : Type ℓ} (l : List (Entry V)) (k : Key) (e : Entry V) → peek l k ≡ some e → e.deadline ≢ 0
unfolding peek
peek-ne_zero l k e h = ground arith

-- The live entry of a key in a bucket: what `del` and `get` would find.
module _ {ℓ} {V : Type ℓ} {cap : ℕ} {b : Bucket V} {l : List (Entry V)}
    (holds : Holds cap b l) where
  keys-Distinct :
      (f : ℕ → Entry V) (m : List (Key × ℕ)) (order : List ℕ)
      → All (λ i. find key_dec (f i).key m ≡ some i) order
      → Distinct order
      → DistinctKeys (map f order)
  keys-Distinct f m [] a d = tt
  keys-Distinct f m (x ∷ xs) a d = (
    All-of_map f xs (
        All-of_In _ xs λ i h (q : (f i).key ≡ (f x).key).
          All-In (λ y. x ≢ y) i xs h d.0
            (cc (a.0, All-In (λ y. find key_dec (f y).key m ≡ some y) i xs h a.1))),
    keys-Distinct f m xs a.1 d.1,
  )
    where
      All-of_map :
          (f : ℕ → Entry V) (ys : List ℕ)
          → All (λ i. (f i).key ≢ (f x).key) ys
          → All (λ e. e.key ≢ (f x).key) (map f ys)
      All-of_map f [] h = tt
      All-of_map f (y ∷ ys) h = (h.0, All-of_map f ys h.1)

  pub Holds-DistinctKeys : DistinctKeys l
  Holds-DistinctKeys = subst DistinctKeys holds.2 (
      keys-Distinct (entry_at b) b.key_to_index holds.0 holds.1.index.indexed
        holds.1.index.distinct)
