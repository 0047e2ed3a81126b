-- ===== src/Cache/Backed.antt =====
-- The store of store/lru2 as the `Store` of a cache.
use my_cache_go.Common.{ℕ, ◌+◌, ◌^◌, ◌≤◌, ◌<◌, ◌≡◌, ◌≢◌, some, false, arith}
use my_cache_go.ByteView.{ByteView}
use my_cache_go.Lru2.Shard.{deadline_of}
use my_cache_go.Lru2.Store
use my_cache_go.Lru2.Store.{Store, or_default, delete_keys, keys_of}
use my_cache_go.Lru2.Store.Inv
use my_cache_go.Lru2.Store.Inv.{
  IsStore, set_with_expiration-IsStore, get-IsStore, delete-IsStore, new-IsStore,
}
use my_cache_go.Lru2.Store.Runs.{clear-IsStore}
use my_cache_go.Cache.{StoreOps}
use my_cache_go.Cache.Laws.{StoreLaws}

-- The parameters are those of `lru2.New`, without a callback on eviction.
abbrev pub lru2_ops : ℕ → ℕ → ℕ → StoreOps
lru2_ops bucket_count cap level2 = record {
  State = Store ByteView;
  new_store = Store.new bucket_count cap level2 false;
  get = λ s k now later. let r = Store.get s k now later in (r.0, r.2);
  set = λ s k v now. (Store.set s k (some v) now).0;
  set_with_expiration = λ s k v exp now. (Store.set_with_expiration s k (some v) now exp).0;
  delete = λ s k. let r = Store.delete s k in (r.0, r.2);
  clear = λ s. (Store.clear s).0;
  len = λ s. Store.len s;
}

unlimited : (now : ℕ) → deadline_of now 0 ≢ 0
unlimited now h = absurd (ground (arith, h))

limited : (now exp : ℕ) → 0 < exp → now + exp < 2 ^ 63 → deadline_of now exp ≡ now + exp
limited now exp p q = ground arith

-- Within the limits of `Lru2.Store.Inv` the store has the laws.
pub lru2_laws :
    (bucket_count cap level2 : ℕ)
    → bucket_count ≤ 32768
    → cap < 65535
    → level2 < 65535
    → StoreLaws (lru2_ops bucket_count cap level2)
unfolding Store.set
lru2_laws n cap level2 p q r = record {
  Valid = λ s. IsStore (or_default cap 1024) (or_default level2 1024) s;
  new_store-Valid = new-IsStore ByteView n cap level2 false p q r;
  get-Valid = λ s k t later v. get-IsStore v k t later;
  set-Valid = λ s k x now v. set_with_expiration-IsStore v k (some x) now 0;
  set_with_expiration-Valid = λ s k x exp now v. set_with_expiration-IsStore v k (some x) now exp;
  delete-Valid = λ s k v. delete-IsStore v k;
  clear-Valid = λ s v. clear-IsStore s v;
  get-set = λ s k x now t later v.
      Inv.get-set_with_expiration v k (some x) now 0 t later (unlimited now) (ground arith);
  get-set_with_expiration = λ s k x exp now t later v pos small live.
      Inv.get-set_with_expiration v k (some x) now exp t later
        (ground (arith, limited now exp pos small)) (ground (arith, limited now exp pos small));
  get-delete = λ s k t later v. Inv.get-delete_key v k t later;
}
