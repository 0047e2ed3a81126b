-- ===== src/Lru2/Shard/Inv.antt =====
-- The invariant of a shard: two levels that hold two lists.
use my_cache_go.Common.{
  ℕ, ◌≡◌, sym, ◌⊎◌, arith, subst, inl, inr, List, [], ◌∷◌, Option, none, some, Bool, true, false,
  Bool-cases, Option-cases, Key,
}
use my_cache_go.Common.Int64.{Int64}
use my_cache_go.Lru2.Bucket
use my_cache_go.Lru2.Bucket.{Bucket, Entry}
use my_cache_go.Lru2.Bucket.Inv.{Holds}
use my_cache_go.Lru2.Bucket.Theorems.{put_refines, get_refines, del_refines}
use my_cache_go.Lru2.Shard.{
  Shard, delete, set, get, get_hot, get_warm, get_from_level, delete_all, cleanup, expired,
}

-- The levels hold some lists, within the capacities `c0` and `c1`.
pub record IsShard {ℓ} {V : Type ℓ} (c0 c1 : ℕ) (s : Shard V) : Type ℓ where
  pub hot_list : List (Entry V)
  pub warm_list : List (Entry V)
  pub hot_holds : Holds c0 s.hot hot_list
  pub warm_holds : Holds c1 s.warm warm_list

abbrev is_shard {ℓ} :
    {V : Type ℓ} {c0 c1 : ℕ} {s : Shard V} {h w : List (Entry V)}
    → Holds c0 s.hot h
    → Holds c1 s.warm w
    → IsShard c0 c1 s
is_shard {h} {w} p q = record { hot_list = h; warm_list = w; hot_holds = p; warm_holds = q }

module _ {ℓ} {V : Type ℓ} (c0 c1 : ℕ) where
  pub delete-IsShard :
      (s : Shard V) (k : Key) (notify : Bool)
      → IsShard c0 c1 s
      → IsShard c0 c1 (delete s k notify).0
  unfolding delete
  delete-IsShard s k notify v =
      is_shard (del_refines v.hot_holds k).0 (del_refines v.warm_holds k).0

  pub set-IsShard :
      (s : Shard V) (k : Key) (x : Option V) (now exp : Int64) (notify : Bool)
      → IsShard c0 c1 s
      → IsShard c0 c1 (set s k x now exp notify).0
  unfolding set
  set-IsShard s k x now exp notify v =
      is_shard (put_refines v.hot_holds k x _ notify).0 v.warm_holds

  module _ (s : Shard V) (k : Key) (now : Int64) (notify : Bool) where
    get_hot-IsShard :
        (e : Entry V) (d : Int64) → IsShard c0 c1 s → IsShard c0 c1 (get_hot s k e d now notify).0
    get_hot-IsShard e d v = elim (Bool-cases (expired now d)) [
      | inl old ↦ subst (λ r. IsShard c0 c1 r) (sym (code_old old)) (delete-IsShard s k notify v)
      | inr live ↦
          subst (λ r. IsShard c0 c1 r) (sym (code_live live))
            (is_shard v.hot_holds (put_refines v.warm_holds k e.value d notify).0)
    ]
      where
        code_old : expired now d ≡ true → (get_hot s k e d now notify).0 ≡ (delete s k notify).0
        code_old old = unfold get_hot in ground arith

        code_live :
            expired now d ≡ false
            → (get_hot s k e d now notify).0
              ≡ record s { warm = (Bucket.put s.warm k e.value d notify).0 }
        code_live live = unfold get_hot in ground arith

    get_from_level_lem :
        (later : Int64) → (get_from_level s.warm k later).0 ≡ (Bucket.get s.warm k).0
    unfolding get_from_level
    get_from_level_lem later = ground arith

    abbrev touched : Shard V
    touched = record s { warm = (Bucket.get s.warm k).0 }

    touched-IsShard : IsShard c0 c1 s → IsShard c0 c1 touched
    touched-IsShard v = is_shard v.hot_holds (get_refines v.warm_holds k).0

    get_warm-IsShard :
        (later : Int64) → IsShard c0 c1 s → IsShard c0 c1 (get_warm s k now later notify).0
    unfolding get_warm
    get_warm-IsShard later v = elim cases [
      | inl q ↦ subst (λ r. IsShard c0 c1 r) (sym q) (touched-IsShard v)
      | inr q ↦
          subst (λ r. IsShard c0 c1 r) (sym q) (delete-IsShard touched k notify (touched-IsShard v))
    ]
      where
        cases :
            ((get_warm s k now later notify).0 ≡ touched)
            ⊎ ((get_warm s k now later notify).0 ≡ (delete touched k notify).0)
        cases = ground (arith, get_from_level_lem later)

  module _ (s : Shard V) (k : Key) (now later : Int64) (notify : Bool) where
    abbrev buried : Shard V
    buried = record s { hot = (Bucket.del s.hot k).0 }

    get_miss :
        (Bucket.del s.hot k).1 ≡ none
        → (get s k now later notify).0 ≡ (get_warm buried k now later notify).0
    unfolding get
    get_miss q = rw (q, get)

    get_hit :
        (e : Entry V) (d : Int64)
        → (Bucket.del s.hot k).1 ≡ some (e, d)
        → (get s k now later notify).0 ≡ (get_hot buried k e d now notify).0
    unfolding get
    get_hit e d q = rw (q, get)

    pub get-IsShard : IsShard c0 c1 s → IsShard c0 c1 (get s k now later notify).0
    get-IsShard v =
        let v' =
          let t : IsShard c0 c1 buried = is_shard (del_refines v.hot_holds k).0 v.warm_holds in t in
        elim (Option-cases (Bucket.del s.hot k).1) [
          | inl q ↦
              subst (λ r. IsShard c0 c1 r) (sym (get_miss q))
                (get_warm-IsShard buried k now notify later v')
          | inr (e, q) ↦
              subst (λ r. IsShard c0 c1 r) (sym (get_hit e.0 e.1 q))
                (get_hot-IsShard buried k now notify e.0 e.1 v')
        ]

  delete_all-IsShard :
      (ks : List Key) (s : Shard V) (notify : Bool)
      → IsShard c0 c1 s
      → IsShard c0 c1 (delete_all s ks notify).0
  unfolding delete_all
  delete_all-IsShard [] s notify v = v
  delete_all-IsShard (k ∷ ks) s notify v =
      delete_all-IsShard ks (delete s k notify).0 notify (delete-IsShard s k notify v)

  -- One round of the cleanup loop keeps a valid shard valid.
  pub cleanup-IsShard :
      (s : Shard V) (now : Int64) (notify : Bool)
      → IsShard c0 c1 s
      → IsShard c0 c1 (cleanup s now notify).0
  unfolding cleanup
  cleanup-IsShard s now notify v = delete_all-IsShard _ s notify v
