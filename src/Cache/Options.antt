-- ===== src/Cache/Options.antt =====
-- `CacheOptions` of cache.go and `NewStore` of store/types.go: the store that a cache has by its
-- options. `order` is the order in which Go iterates the expiration map of store/lru.
use my_cache_go.Common.{ℕ, ◌*◌, List, Option, none, some, true, false, Key}
use my_cache_go.Common.Int64.{Int64}
use my_cache_go.ByteView as ByteView
use my_cache_go.ByteView.{ByteView}
use my_cache_go.Lru as Lru
use my_cache_go.Lru.{Lru}
use my_cache_go.Cache.{StoreOps, Found}
use my_cache_go.Cache.Backed.{lru2_ops}

pub data CacheType : Type 0 where
  lru lru2 : CacheType
  other : Key → CacheType

-- Without the interval of the cleanup, which only sets the ticker, and with no callback.
pub record CacheOptions : Type 0 where
  pub cache_type : CacheType
  pub max_bytes : Int64
  pub bucket_count : ℕ
  pub cap_per_bucket : ℕ
  pub level2_cap : ℕ

abbrev pub default_cache_options : CacheOptions
default_cache_options = record {
  cache_type = lru2;
  max_bytes = 8 * 1024 * 1024;
  bucket_count = 16;
  cap_per_bucket = 512;
  level2_cap = 256;
}

-- The two results of `Get`.
abbrev pub as_found : Option ByteView → Found
as_found none = (none, false)
as_found (some v) = (some v, true)

-- The store of store/lru. The deletion of an expired key that `Get` starts is a call of `Delete` later.
abbrev pub lru_ops : (List (Key × ℕ) → List (Key × ℕ)) → Int64 → StoreOps
lru_ops order max_bytes = record {
  State = Lru ByteView;
  new_store = Lru.new max_bytes false;
  get = λ s k now later. let r = Lru.get s k now in (r.0, as_found r.1);
  set = λ s k v now. (Lru.set_with_expiration ByteView.len s k (some v) 0 now now order).0;
  set_with_expiration =
      λ s k v exp now. (Lru.set_with_expiration ByteView.len s k (some v) exp now now order).0;
  delete = λ s k. let r = Lru.delete ByteView.len s k in (r.0, r.2);
  clear = λ s. (Lru.clear s s.element_map).0;
  len = λ s. Lru.len_of s;
}

-- `NewStore`: any other type is store/lru2.
abbrev pub store_ops : (List (Key × ℕ) → List (Key × ℕ)) → CacheOptions → CacheType → StoreOps
store_ops order o lru = lru_ops order o.max_bytes
store_ops order o lru2 = lru2_ops o.bucket_count o.cap_per_bucket o.level2_cap
store_ops order o (other name) = lru2_ops o.bucket_count o.cap_per_bucket o.level2_cap

-- The store that `ensureInitialized` makes.
abbrev pub new_store : (List (Key × ℕ) → List (Key × ℕ)) → CacheOptions → StoreOps
new_store order o = store_ops order o o.cache_type
