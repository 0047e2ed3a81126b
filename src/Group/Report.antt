-- ===== src/Group/Report.antt =====
-- `Stats` of cache.go and of group.go. The map that they return is a record, with `none` for a key that
-- is not set. The quotient of two numbers as float64 is the parameter `ratio`, and the average time of
-- a load the parameter `average` of the number of loads.
use my_cache_go.Common.{ℕ, Option, none, some, Bool, if◌then◌else◌, Key}
use my_cache_go.Common.Int64.{Int64, lt64, add64}
use my_cache_go.Cache as Cache
use my_cache_go.Cache.{StoreOps, Cache}
use my_cache_go.Group.{Group, Stats}

pub record CacheReport (R : Type 0) : Type 0 where
  pub initialized : Bool
  pub closed : Bool
  pub hits : Int64
  pub misses : Int64
  pub size : Option ℕ
  pub hit_rate : Option R

pub record GroupReport (R : Type 0) : Type 0 where
  pub name : Key
  pub closed : Bool
  pub expiration : Int64
  pub counts : Stats
  pub hit_rate : Option R
  pub avg_load_time_ms : Option R
  pub cache : CacheReport R

module _ {R : Type 0} (ratio : Int64 → Int64 → R) (zero_rate : R) {ops : StoreOps} where
  -- `Cache.Stats`.
  unfoldable pub cache_stats : Cache ops → CacheReport R
  cache_stats c =
      let total_requests = add64 c.hits c.misses in
      record {
        initialized = c.initialized;
        closed = c.closed;
        hits = c.hits;
        misses = c.misses;
        size = if c.initialized then some (Cache.len c) else none;
        hit_rate =
            if c.initialized
            then some (if lt64 0 total_requests then ratio c.hits total_requests else zero_rate)
            else none;
      }

  -- `Group.Stats`.
  unfoldable pub group_stats : (Int64 → R) → Group ops → GroupReport R
  group_stats average g =
      let total_gets = add64 g.stats.local_hits g.stats.local_misses in
      record {
        name = g.name;
        closed = g.closed;
        expiration = g.expiration;
        counts = g.stats;
        hit_rate = if lt64 0 total_gets then some (ratio g.stats.local_hits total_gets) else none;
        avg_load_time_ms = if lt64 0 g.stats.loads then some (average g.stats.loads) else none;
        cache = cache_stats g.local_cache;
      }
