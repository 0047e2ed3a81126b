-- ===== src/Lru2/Store/Clearing.antt =====
-- `Clear` of store/lru2/cache.go, and the keys that it collects.
use my_cache_go.Common.{
  ℕ, zero, suc, ◌<◌, ◌≡◌, ◌≢◌, refl, ap, sym, subst, ◌∙◌, List, [], ◌∷◌, ◌++◌, Option, none, some,
  Bool, true, false, Bool-cases, inl, inr, length, get_or, get_or-set_self, get_or-set_ne, if_pos,
  if_neg, if◌then◌else◌, ◌==◌, ite, All, ℕ_discrete, Key, key_dec, arith,
}
use my_cache_go.Common as Common
use my_cache_go.Common.Int64.{Int64}
use my_cache_go.Lru2.Bucket as Bucket
use my_cache_go.Lru2.Bucket.{Entry}
use my_cache_go.Lru2.Bucket.Spec
use my_cache_go.Lru2.Bucket.Spec.{find_entry}
use my_cache_go.Lru2.Bucket.Peek.{peek, peek-del_self, peek-del_ne, Holds-DistinctKeys}
use my_cache_go.Lru2.Bucket.Theorems.{walk_refines, del_refines}
use my_cache_go.Lru2.Shard
use my_cache_go.Lru2.Shard.{Shard, has_key, collect, collect_new}
use my_cache_go.Lru2.Shard.Inv.{IsShard}
use my_cache_go.Lru2.Shard.Reads.{get_lem, delete_lem}
use my_cache_go.Lru2.Store
use my_cache_go.Lru2.Store.{Store, no_shard, key_to_bucket_index, shard_of, keys_of, delete_keys}
use my_cache_go.Lru2.Store.Runs.{clear-IsStore}
use my_cache_go.Lru2.Store.Inv.{IsStore, index-lt, shard_of-IsShard, delete-IsStore}

has_key-append :
    (k j : Key) (keys : List Key)
    → has_key k (keys ++ j ∷ []) ≡ false
    → (has_key k keys ≡ false) × (k ≢ j)
has_key-append k j [] h = ground (arith, h)
has_key-append k j (i ∷ keys) h = ground (arith, h, has_key-append k j keys)

module _ {ℓ} {V : Type ℓ} where
  -- A key that a walk has not collected is not live in the list, and was not collected before.
  collect-absent :
      (k : Key) (l : List (Entry V)) (keys : List Key)
      → has_key k (Spec.walk collect l keys) ≡ false
      → (peek l k ≡ none) × (has_key k keys ≡ false)
  unfolding peek find_entry Spec.walk
  collect-absent k [] keys h = (refl, h)
  collect-absent k (e ∷ l) keys h = ground (
    arith,
    h,
    collect-absent k l keys,
    collect-absent k l (keys ++ e.key ∷ []),
    has_key-append k e.key keys,
  )

  collect_new-absent :
      (k : Key) (l : List (Entry V)) (keys : List Key)
      → has_key k (Spec.walk collect_new l keys) ≡ false
      → (peek l k ≡ none) × (has_key k keys ≡ false)
  unfolding peek find_entry Spec.walk
  collect_new-absent k [] keys h = (refl, h)
  collect_new-absent k (e ∷ l) keys h = elim (key_dec e.key k) [
    | no ne ↦ ground (
      arith,
      h,
      ne,
      collect_new-absent k l keys,
      collect_new-absent k l (keys ++ e.key ∷ []),
      has_key-append k e.key keys,
    )
    | yes same ↦ ground (
      arith,
      h,
      same,
      ap (λ j. has_key j keys) same,
      collect_new-absent k l keys,
      collect_new-absent k l (keys ++ e.key ∷ []),
      has_key-append k e.key keys,
    )
  ]

  -- No level has the key live.
  abbrev pub Absent : Shard V → Key → Type 0
  Absent s k = (notify : Bool) → (Shard.delete s k notify).2 ≡ false

  module _ {c0 c1 : ℕ} where
    Absent-peek :
        (s : Shard V) (v : IsShard c0 c1 s) (k : Key)
        → Absent s k
        → (peek v.hot_list k ≡ none) × (peek v.warm_list k ≡ none)
    Absent-peek s v k a = ground (arith, a true, delete_lem v.hot_holds v.warm_holds k true)

    peek-Absent :
        (s : Shard V) (v : IsShard c0 c1 s) (k : Key)
        → (peek v.hot_list k ≡ none) × (peek v.warm_list k ≡ none)
        → Absent s k
    peek-Absent s v k h notify = ground (arith, h, delete_lem v.hot_holds v.warm_holds k notify)

    get-Absent :
        (s : Shard V) (v : IsShard c0 c1 s) (k : Key) (now later : Int64) (notify : Bool)
        → Absent s k
        → (Shard.get s k now later notify).2 ≡ (none, false)
    get-Absent s v k now later notify a =
        ground (arith, Absent-peek s v k a, get_lem v.hot_holds v.warm_holds k now later notify)

    delete-Absent :
        (s : Shard V) (v : IsShard c0 c1 s) (j k : Key) (notify : Bool)
        → (j ≢ k → Absent s k)
        → Absent (Shard.delete s j notify).0 k
    unfolding Shard.delete
    delete-Absent s v j k notify a =
        peek-Absent (Shard.delete s j notify).0
          (record {
            hot_list = (Spec.del v.hot_list j).0;
            warm_list = (Spec.del v.warm_list j).0;
            hot_holds = (del_refines v.hot_holds j).0;
            warm_holds = (del_refines v.warm_holds j).0;
          })
          k
          (elim (key_dec j k) [
            | yes same ↦
                subst
                  (λ i.
                    (peek (Spec.del v.hot_list j).0 i ≡ none)
                    × (peek (Spec.del v.warm_list j).0 i ≡ none))
                  same
                  (
                    peek-del_self v.hot_list j (Holds-DistinctKeys v.hot_holds),
                    peek-del_self v.warm_list j (Holds-DistinctKeys v.warm_holds),
                  )
            | no ne ↦
                let h = Absent-peek s v k (a ne) in
                (
                  peek-del_ne v.hot_list j k (λ q. ne (sym q)) ∙ h.0,
                  peek-del_ne v.warm_list j k (λ q. ne (sym q)) ∙ h.1,
                )
          ])

  module _ (c0 c1 : ℕ) where
    -- A key that the first loop has not collected is live in no shard.
    keys_of-Absent :
        (ss : List (Shard V)) (k : Key) (keys : List Key)
        → All (IsShard c0 c1) ss
        → has_key k (keys_of ss keys) ≡ false
        → All (λ s. Absent s k) ss × (has_key k keys ≡ false)
    unfolding keys_of Shard.keys_of
    keys_of-Absent [] k keys v h = (tt, h)
    keys_of-Absent (s ∷ ss) k keys v h =
        let (rest, seen) = keys_of-Absent ss k (Shard.keys_of s keys) v.1 h in
        let l = v.0 in
        let collected = walk_refines l.hot_holds collect keys in
        let (warm, hot_seen) =
          collect_new-absent k l.warm_list (Spec.walk collect l.hot_list keys) (
            sym (
              ap (has_key k) (
                walk_refines l.warm_holds collect_new (Bucket.walk collect s.hot keys)
                ∙ ap (Spec.walk collect_new l.warm_list) collected))
            ∙ seen) in
        let (hot, before) = collect-absent k l.hot_list keys hot_seen in
        ((peek-Absent s l k (hot, warm), rest), before)

    All-at :
        (ss : List (Shard V)) (i : ℕ) (k : Key)
        → i < length ss
        → All (λ s. Absent s k) ss
        → Absent (get_or ss i no_shard) k
    All-at [] i k h a = absurd (omega arith)
    All-at (s ∷ ss) zero k h a = a.0
    All-at (s ∷ ss) (suc i) k h a = All-at ss i k (omega arith) a.1

    abbrev deleted : Store V → Key → Shard V
    deleted c j = (Shard.delete (shard_of c j) j c.notify).0

    -- A call of `Delete` leaves its key absent, and a key that was.
    delete-key_Absent :
        (c : Store V) (j k : Key)
        → IsStore c0 c1 c
        → (j ≢ k → Absent (shard_of c k) k)
        → Absent (shard_of (Store.delete c j).0 k) k
    unfolding Store.delete key_to_bucket_index
    delete-key_Absent c j k v a =
        elim (ℕ_discrete (key_to_bucket_index c j) (key_to_bucket_index c k)) [
          | yes q ↦
              subst (λ s. Absent s k)
                (sym (
                  ap
                    (λ i.
                      get_or (Common.set c.shards (key_to_bucket_index c j) (deleted c j)) i
                        no_shard)
                    (sym q)
                  ∙ get_or-set_self c.shards (key_to_bucket_index c j) (deleted c j) no_shard
                      (index-lt v j)))
                (delete-Absent (shard_of c j) (shard_of-IsShard v j) j k c.notify
                  (λ ne. subst (λ i. Absent (get_or c.shards i no_shard) k) (sym q) (a ne)))
          | no ne ↦
              subst (λ s. Absent s k)
                (sym (
                  get_or-set_ne c.shards (key_to_bucket_index c j) (key_to_bucket_index c k)
                    (deleted c j) no_shard ne))
                (a (λ e. ne (ap (key_to_bucket_index c) e)))
        ]

    delete_keys-Absent :
        (keys : List Key) (c : Store V) (k : Key)
        → IsStore c0 c1 c
        → (has_key k keys ≡ false → Absent (shard_of c k) k)
        → Absent (shard_of (delete_keys c keys).0 k) k
    unfolding delete_keys
    delete_keys-Absent [] c k v a = a refl
    delete_keys-Absent (j ∷ keys) c k v a =
        delete_keys-Absent keys (Store.delete c j).0 k (delete-IsStore v j)
          (λ h. delete-key_Absent c j k v (λ ne. a (ground (arith, h, ne))))

    cleared : (c : Store V) (k : Key) → IsStore c0 c1 c → Absent (shard_of (Store.clear c).0 k) k
    unfolding Store.clear
    cleared c k v = delete_keys-Absent (keys_of c.shards []) c k v (λ h.
        All-at c.shards (key_to_bucket_index c k) k (index-lt v k)
          (keys_of-Absent c.shards k [] v.shards_ok h).0)

    -- In a valid store, after `Clear`, no key is found: `Get` returns nothing and `Delete` reports
    -- that there was no such key.
    pub clear-Absent :
        (c : Store V) (k : Key) (now later : Int64)
        → IsStore c0 c1 c
        → ((Store.get (Store.clear c).0 k now later).2 ≡ (none, false))
          × ((Store.delete (Store.clear c).0 k).2 ≡ false)
    unfolding Store.get Store.delete
    clear-Absent c k now later v =
        let gone = cleared c k v in
        (
          get-Absent (shard_of (Store.clear c).0 k) (shard_of-IsShard (clear-IsStore c v) k) k now
              later (Store.clear c).0.notify gone,
          gone (Store.clear c).0.notify,
        )
