-- ===== src/Lru2/StoreTests.antt =====
-- Runs of a shard and of the whole cache of store/lru2 on small inputs.
use my_cache_go.Common.{
  ℕ, ◌≡◌, ◌≢◌, refl, ap, get_or, key_dec, List, [], ◌∷◌, none, some, true, false, arith,
}
use my_cache_go.Lru2.Bucket.{Entry}
use my_cache_go.Lru2.Bucket.Peek.{peek}
use my_cache_go.Lru2.Bucket.Spec
use my_cache_go.Lru2.Tests.{key_a, key_b, empty, one, one_list, empty-Holds, one-Holds}
use my_cache_go.Lru2.Shard.{Shard}
use my_cache_go.Lru2.Shard.Inv.{IsShard}
use my_cache_go.Lru2.Store
use my_cache_go.Lru2.Store.{Store, key_to_bucket_index}
use my_cache_go.Lru2.Store.Runs.{
  Op, do_set, do_get, do_delete, do_clear, do_cleanup, run, run-new-IsStore,
}
use my_cache_go.Lru2.Store.Clearing.{clear-Absent}
use my_cache_go.Lru2.Store.Inv.{
  IsStore, set_with_expiration-IsStore, get-set_with_expiration, new-IsStore,
}

abbrev shard : Shard ℕ
shard = record { hot = one; warm = empty }

abbrev entry : Entry ℕ
entry = record { key = key_a; value = some 1; deadline = 100 }

abbrev shard_valid : IsShard 2 2 shard
shard_valid = record {
  hot_list = one_list;
  warm_list = [];
  hot_holds = one-Holds;
  warm_holds = empty-Holds;
}

keys_differ : key_b ≢ key_a
keys_differ h = let n = ap (λ k. get_or k 0 0) h in omega (arith, n)

one_peek : peek one_list key_a ≡ some entry
unfolding peek Spec.find_entry key_dec
one_peek = refl

abbrev fresh : Store ℕ
fresh = Store.new 4 2 2 true

fresh_valid : IsStore 2 2 fresh
fresh_valid = new-IsStore ℕ 4 2 2 true (omega arith) (omega arith) (omega arith)

filled_valid : IsStore 2 2 (Store.set_with_expiration fresh key_a (some 1) 5 100).0
filled_valid = set_with_expiration-IsStore fresh_valid key_a (some 1) 5 100

get-set_with_expiration_example :
    (Store.get (Store.set_with_expiration fresh key_a (some 1) 5 100).0 key_a 50 60).2
    ≡ (some 1, true)
get-set_with_expiration_example =
    get-set_with_expiration fresh_valid key_a (some 1) 5 100 50 60 (ground arith) refl

abbrev calls : List (Op ℕ)
calls =
    do_set key_a (some 1) 5 100
    ∷ do_set key_b (some 2) 6 0
    ∷ do_get key_a 7 8
    ∷ do_cleanup 150
    ∷ do_delete key_b
    ∷ do_clear
    ∷ []

run-new-IsStore_example : IsStore {V = ℕ} 2 2 (run (Store.new 4 2 2 true) calls)
run-new-IsStore_example =
    run-new-IsStore ℕ 4 2 2 true calls (omega arith) (omega arith) (omega arith)

clear-Absent_example :
    ((Store.get
        (Store.clear (Store.set_with_expiration fresh key_a (some 1) 5 100).0).0
        key_a
        50
        60).2
      ≡ (none, false))
    × ((Store.delete
          (Store.clear (Store.set_with_expiration fresh key_a (some 1) 5 100).0).0
          key_a).2
        ≡ false)
clear-Absent_example =
    clear-Absent 2 2 (Store.set_with_expiration fresh key_a (some 1) 5 100).0 key_a 50 60
      filled_valid
