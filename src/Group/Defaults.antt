-- ===== src/Group/Defaults.antt =====
-- A group as `NewGroup` makes it, with the default options of the cache.
use my_cache_go.Common.{ℕ, ◌≡◌, refl, sym, subst, ◌∙◌, List, ◌∷◌, Bool, false, Key, arith}
use my_cache_go.Common.Int64.{Int64}
use my_cache_go.Cache.{StoreOps}
use my_cache_go.Cache.Laws.{StoreLaws}
use my_cache_go.Cache.Backed.{lru2_laws}
use my_cache_go.Cache.Options.{default_cache_options, new_store}
use my_cache_go.Cache.Inv.{unopened}
use my_cache_go.Group as Group
use my_cache_go.Group.{
  Group, Env, Stats, Error, Result, ok, err, err_group_closed, Sync, no_sync, sync_if, sync_set,
  sync_delete, fetch_data, save_to_local, finish_load, load_once, finish_get,
}
use my_cache_go.Group.Reads.{Fresh, get-set_value}
use my_cache_go.Group.Calls.{Op, run}
use my_cache_go.Registry.{new_value}
use my_cache_go.Group.Inv.{IsGroup, run-IsGroup}

-- The store of a group that `NewGroup` makes without options.
abbrev pub default_store : (List (Key × ℕ) → List (Key × ℕ)) → Int64 → StoreOps
default_store order cache_bytes =
    new_store order (record default_cache_options { max_bytes = cache_bytes })

pub default_laws :
    (order : List (Key × ℕ) → List (Key × ℕ)) (cache_bytes : Int64)
    → StoreLaws (default_store order cache_bytes)
default_laws order cache_bytes = lru2_laws 16 512 256 (omega arith) (omega arith) (omega arith)

-- In a group that `NewGroup` makes with the default options of the cache, after any calls that leave it
-- open, what `Set` stores is what the next `Get` of the key returns, before the entry expires, if the
-- cache and the store read the same time when they store it.
pub get-set_default :
    (order : List (Key × ℕ) → List (Key × ℕ)) (cache_bytes expiration : Int64) (name : Key)
    (calls : List Op) (env env' : Env) (from_peer : Bool) (b : ℕ) (key : Key) (v : ℕ)
    (value : List ℕ) (g : Group (default_store order cache_bytes))
    → g ≡ run (new_value name expiration) calls
    → g.closed ≡ false
    → Fresh (default_laws order cache_bytes) g env env'.read
    → (Group.get (Group.set g env from_peer (b ∷ key) (v ∷ value)).0 env' (b ∷ key)).1
      ≡ ok (record { b = v ∷ value })
get-set_default order cache_bytes expiration name calls env env' from_peer b key v value g made live
      f =
    let valid =
      let t : IsGroup (default_laws order cache_bytes) g =
        subst (λ h. IsGroup (default_laws order cache_bytes) h) (sym made)
          (run-IsGroup (default_laws order cache_bytes) calls (new_value name expiration)
            (record { cache = unopened 0 0; together = refl })) in
      t in
    get-set_value (default_laws order cache_bytes) g env env' from_peer b key v value valid.cache
      (valid.together ∙ live) live f
