-- ===== src/Group/Tests.antt =====
-- Runs of a group over a small store of store/lru2, with entries that live for 100 nanoseconds.
use my_cache_go.Common.{ℕ, ◌≡◌, refl, List, [], ◌∷◌, none, some, false, Key, arith}
use my_cache_go.ByteView.{clone_bytes}
use my_cache_go.Cache as Cache
use my_cache_go.Cache.{StoreOps, new_cache, count_read}
use my_cache_go.Cache.Laws.{StoreLaws}
use my_cache_go.Cache.Backed.{lru2_ops, lru2_laws}
use my_cache_go.Cache.Inv.{IsCache, unopened}
use my_cache_go.Group as Group
use my_cache_go.Group.{
  Group, Env, save_to_local, peer_get, ok, get, set, finish_get, load_once, finish_load, fetch_data,
  fetch_local,
}
use my_cache_go.Registry.{new_value}
use my_cache_go.Group.Defaults.{default_store, default_laws, get-set_default}
use my_cache_go.Group.Report.{group_stats}
use my_cache_go.Group.Calls.{Op, do_get, do_wait, do_set, do_clear, do_close, step, run}
use my_cache_go.Cache.Options.{new_store}
use my_cache_go.Group.Wiring.{GroupOption, with_expiration, with_peers, wire, new_store-wire}
use my_cache_go.Group.Tally.{IsTally, lookups, shares, group_stats-IsTally}
use my_cache_go.Group.Reads.{Fresh}

abbrev ops : StoreOps
ops = lru2_ops 4 2 2

laws : StoreLaws ops
laws = lru2_laws 4 2 2 (omega arith) (omega arith) (omega arith)

abbrev group : Group ops
group = record {
  name = b'g' ∷ [];
  local_cache = new_cache;
  expiration = 100;
  closed = false;
  stats = record {
    loads = 0;
    local_hits = 0;
    local_misses = 0;
    peer_hits = 0;
    peer_misses = 0;
    loader_hits = 0;
    loader_errors = 0;
  };
}

-- A peer that fails, and a data source.
abbrev early : Env
early = record {
  pick_peer = some (λ key. peer_get none);
  data_source = λ key. some (b'x' ∷ []);
  read = 5;
  reread = 6;
  now = 5;
  until_now = 6;
  later = 6;
}

-- No peer, and a data source that fails.
abbrev late : Env
late = record {
  pick_peer = none;
  data_source = λ key. none;
  read = 50;
  reread = 52;
  now = 50;
  until_now = 51;
  later = 52;
}

group_valid : IsCache laws group.local_cache
group_valid = unopened 0 0

fresh : Fresh laws group early 50
fresh h = (omega arith, omega arith, omega arith, refl)

missed : (Cache.get group.local_cache (b'k' ∷ []) 5 6).1.1 ≡ false
unfolding Cache.get
missed = refl

loaded : (get group early (b'k' ∷ [])).1 ≡ ok (record { b = b'x' ∷ [] })
unfolding get finish_get load_once finish_load fetch_data fetch_local clone_bytes Cache.get
loaded = refl

abbrev calls : List Op
calls =
    do_get early (b'k' ∷ [])
    ∷ do_get early []
    ∷ do_set early false (b'j' ∷ []) (b'v' ∷ [])
    ∷ do_get late (b'j' ∷ [])
    ∷ do_close
    ∷ do_wait late (b'z' ∷ []) (some (record { b = b'v' ∷ [] }))
    ∷ do_get late (b'k' ∷ [])
    ∷ []

group_stats-IsTally_example :
    IsTally
      (lookups group calls)
      (shares group calls)
      (group_stats (λ a b. a) 0 (λ n. n) (run group calls)).counts
group_stats-IsTally_example = group_stats-IsTally (λ a b. a) 0 (λ n. n) group calls refl

abbrev same_order : List (Key × ℕ) → List (Key × ℕ)
same_order m = m

abbrev used : Group (default_store same_order 1000)
used = run (new_value (b'g' ∷ []) 100) (do_set early false (b'k' ∷ []) (b'a' ∷ []) ∷ do_clear ∷ [])

used_live : used.closed ≡ false
unfolding run step set save_to_local Group.clear
used_live = refl

used_expiration : used.expiration ≡ 100
unfolding run step set save_to_local Group.clear
used_expiration = refl

used_fresh : Fresh (default_laws same_order 1000) used early 50
used_fresh h = (
  omega (arith, used_expiration),
  omega (arith, used_expiration),
  omega (arith, used_expiration),
  refl,
)

get-set_default_example :
    (get (set used early false (b'k' ∷ []) (b'v' ∷ [])).0 late (b'k' ∷ [])).1
    ≡ ok (record { b = b'v' ∷ [] })
get-set_default_example =
    get-set_default same_order 1000 100 (b'g' ∷ [])
      (do_set early false (b'k' ∷ []) (b'a' ∷ []) ∷ do_clear ∷ []) early late false b'k' [] b'v' []
      used refl used_live used_fresh

abbrev options : List (GroupOption ℕ)
options = with_expiration 100 ∷ with_peers (some 7) ∷ []

new_store-wire_example :
    new_store same_order (wire 1000 options).cache_options
    ≡ new_store same_order (wire 2000 options).cache_options
new_store-wire_example = new_store-wire same_order 1000 2000 options (tt, (tt, tt))
