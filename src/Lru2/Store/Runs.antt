-- ===== src/Lru2/Store/Runs.antt =====
-- Runs of a store of store/lru2, with the ticks of the cleanup loop.
use my_cache_go.Common.{
  ℕ, ◌≤◌, ◌<◌, ◌≡◌, refl, ◌∙◌, ap, suc, List, [], ◌∷◌, Option, Bool, length, All, Key,
}
use my_cache_go.Common.Int64.{Int64}
use my_cache_go.Lru2.Shard.{Shard}
use my_cache_go.Lru2.Shard.Inv.{IsShard, cleanup-IsShard}
use my_cache_go.Lru2.Store
use my_cache_go.Lru2.Store.{Store, or_default, delete_keys, keys_of, cleanup_from}
use my_cache_go.Lru2.Store.Inv.{
  IsStore, get-IsStore, set_with_expiration-IsStore, delete-IsStore, new-IsStore,
}

pub data Op {ℓ} (V : Type ℓ) : Type ℓ where
  do_get : Key → Int64 → Int64 → Op V
  do_set : Key → Option V → Int64 → Int64 → Op V
  do_delete : Key → Op V
  do_clear : Op V
  do_cleanup : Int64 → Op V

module _ {ℓ} {V : Type ℓ} where
  unfoldable pub run : Store V → List (Op V) → Store V
  run c [] = c
  run c (do_get k now later ∷ ops) = run (Store.get c k now later).0 ops
  run c (do_set k x now exp ∷ ops) = run (Store.set_with_expiration c k x now exp).0 ops
  run c (do_delete k ∷ ops) = run (Store.delete c k).0 ops
  run c (do_clear ∷ ops) = run (Store.clear c).0 ops
  run c (do_cleanup now ∷ ops) = run (Store.cleanup c now).0 ops

  length-cleanup_from :
      (ss : List (Shard V)) (now : Int64) (notify : Bool)
      → length (cleanup_from ss now notify).0 ≡ length ss
  unfolding cleanup_from
  length-cleanup_from [] now notify = refl
  length-cleanup_from (s ∷ ss) now notify = ap suc (length-cleanup_from ss now notify)

  module _ (c0 c1 : ℕ) where
    cleanup_from-All :
        (ss : List (Shard V)) (now : Int64) (notify : Bool)
        → All (IsShard c0 c1) ss
        → All (IsShard c0 c1) (cleanup_from ss now notify).0
    unfolding cleanup_from
    cleanup_from-All [] now notify a = tt
    cleanup_from-All (s ∷ ss) now notify a =
        (cleanup-IsShard c0 c1 s now notify a.0, cleanup_from-All ss now notify a.1)

  module _ {c0 c1 : ℕ} where
    delete_keys-IsStore :
        (c : Store V) (ks : List Key) → IsStore c0 c1 c → IsStore c0 c1 (delete_keys c ks).0
    unfolding delete_keys
    delete_keys-IsStore c [] v = v
    delete_keys-IsStore c (k ∷ ks) v =
        delete_keys-IsStore (Store.delete c k).0 ks (delete-IsStore v k)

    pub clear-IsStore : (c : Store V) → IsStore c0 c1 c → IsStore c0 c1 (Store.clear c).0
    unfolding Store.clear
    clear-IsStore c v = delete_keys-IsStore c (keys_of c.shards []) v

    cleanup-IsStore :
        (c : Store V) (now : Int64) → IsStore c0 c1 c → IsStore c0 c1 (Store.cleanup c now).0
    unfolding Store.cleanup
    cleanup-IsStore c now v = record {
      masked = length-cleanup_from c.shards now c.notify ∙ v.masked;
      shards_ok = cleanup_from-All c0 c1 c.shards now c.notify v.shards_ok;
    }

    pub run-IsStore :
        (ops : List (Op V)) (c : Store V) → IsStore c0 c1 c → IsStore c0 c1 (run c ops)
    unfolding run
    run-IsStore [] c v = v
    run-IsStore (do_get k now later ∷ ops) c v = run-IsStore ops _ (get-IsStore v k now later)
    run-IsStore (do_set k x now exp ∷ ops) c v =
        run-IsStore ops _ (set_with_expiration-IsStore v k x now exp)
    run-IsStore (do_delete k ∷ ops) c v = run-IsStore ops _ (delete-IsStore v k)
    run-IsStore (do_clear ∷ ops) c v = run-IsStore ops _ (clear-IsStore c v)
    run-IsStore (do_cleanup now ∷ ops) c v = run-IsStore ops _ (cleanup-IsStore c now v)

-- A store that `New` makes with at most 32768 buckets and capacities below 65535 stays valid, whatever
-- calls of `Get`, `SetWithExpiration`, `Delete` and `Clear` and ticks of the cleanup loop follow.
pub run-new-IsStore {ℓ} :
    (V : Type ℓ) (bucket_count cap level2 : ℕ) (notify : Bool) (ops : List (Op V))
    → bucket_count ≤ 32768
    → cap < 65535
    → level2 < 65535
    → IsStore
        (or_default cap 1024)
        (or_default level2 1024)
        (run (Store.new bucket_count cap level2 notify) ops)
run-new-IsStore V n cap level2 notify ops p q r =
    run-IsStore ops _ (new-IsStore V n cap level2 notify p q r)
