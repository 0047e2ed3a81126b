-- ===== src/Group/Inv.antt =====
-- The invariant of a group of group.go: the cache of an open group and of a closed one.
use my_cache_go.Common.{
  ◌+◌, ◌≡◌, ◌∙◌, List, [], ◌∷◌, Option, none, some, Bool, true, false, if◌then◌else◌, Key, arith,
}
use my_cache_go.Common.Int64.{lt64}
use my_cache_go.ByteView.{ByteView, clone_bytes}
use my_cache_go.Cache as Cache
use my_cache_go.Cache.{StoreOps, Cache, Answer, new_cache, count_read, ensure_initialized}
use my_cache_go.Cache.Laws.{StoreLaws}
use my_cache_go.Cache.Inv as CacheInv
use my_cache_go.Cache.Inv.{IsCache, unopened, step-IsCache}
use my_cache_go.Group as Group
use my_cache_go.Group.{
  Group, Env, Stats, Error, Result, ok, err, err_group_closed, Sync, no_sync, sync_if, sync_set,
  sync_delete, fetch_data, save_to_local, finish_load, load_once, finish_get, finish_waiting,
}
use my_cache_go.Group.Reads.{get-closed}
use my_cache_go.Group.Calls.{Op, do_get, do_wait, do_set, do_delete, do_clear, do_close, step, run}

module _ {ops : StoreOps} (laws : StoreLaws ops) where
  -- The cache is valid, and it is closed with the group.
  pub record IsGroup (g : Group ops) : Type 0 where
    pub cache : IsCache laws g.local_cache
    pub together : g.local_cache.closed ≡ g.closed

  save_to_local-IsGroup :
      (g : Group ops) (env : Env) (key : Key) (x : ByteView)
      → IsGroup g
      → IsGroup (save_to_local g env key x)
  unfolding save_to_local
  save_to_local-IsGroup g env key x v = choose (lt64 0 g.expiration)
    where
      timed : Cache ops
      timed =
          Cache.add_with_expiration g.local_cache key x (env.now + g.expiration) env.until_now
            env.later

      plain : Cache ops
      plain = Cache.add g.local_cache key x env.later

      choose : (b : Bool) → IsGroup (record g { local_cache = if b then timed else plain })
      choose true = record {
        cache =
            unfold CacheInv.step in
            step-IsCache laws
              (CacheInv.do_add_with_expiration key x (env.now + g.expiration) env.until_now
                env.later)
              v.cache;
        together =
            let t : timed.closed ≡ g.local_cache.closed =
              unfold Cache.add_with_expiration ensure_initialized in ground arith in
            t ∙ v.together;
      }
      choose false = record {
        cache = unfold CacheInv.step in step-IsCache laws (CacheInv.do_add key x env.later) v.cache;
        together =
            let t : plain.closed ≡ g.local_cache.closed =
              unfold Cache.add ensure_initialized in ground arith in
            t ∙ v.together;
      }

  counted-IsGroup : (g : Group ops) (s : Stats) → IsGroup g → IsGroup (record g { stats = s })
  counted-IsGroup g s v = record { cache = v.cache; together = v.together }

  finish_load-IsGroup :
      (g : Group ops) (env : Env) (key : Key) (r : Stats × Option ByteView)
      → IsGroup g
      → IsGroup (finish_load g env key r).0
  unfolding finish_load
  finish_load-IsGroup g env key (s, none) v = counted-IsGroup g _ v
  finish_load-IsGroup g env key (s, some x) v =
      save_to_local-IsGroup _ env key x (counted-IsGroup g _ v)

  finish_get-IsGroup :
      (g : Group ops) (env : Env) (key : Key) (a : Cache ops × Answer)
      → IsGroup (record g { local_cache = a.0 })
      → IsGroup (finish_get g env key a).0
  unfolding finish_get load_once
  finish_get-IsGroup g env key (c, (x, true)) v = counted-IsGroup (record g { local_cache = c }) _ v
  finish_get-IsGroup g env key (c, (x, false)) v =
      finish_load-IsGroup _ env key _ (counted-IsGroup (record g { local_cache = c }) _ v)

  finish_waiting-IsGroup :
      (g : Group ops) (env : Env) (key : Key) (shared : Option ByteView) (a : Cache ops × Answer)
      → IsGroup (record g { local_cache = a.0 })
      → IsGroup (finish_waiting g env key shared a).0
  unfolding finish_waiting Group.load_waiting
  finish_waiting-IsGroup g env key shared (c, (x, true)) v =
      finish_get-IsGroup g env key (c, (x, true)) v
  finish_waiting-IsGroup g env key shared (c, (x, false)) v =
      finish_load-IsGroup _ env key _ (counted-IsGroup (record g { local_cache = c }) _ v)

  read-IsGroup :
      (g : Group ops) (env : Env) (key : Key)
      → IsGroup g
      → IsGroup (record g { local_cache = (Cache.get g.local_cache key env.read env.reread).0 })
  read-IsGroup g env key v = record {
    cache =
        unfold CacheInv.step in step-IsCache laws (CacheInv.do_get key env.read env.reread) v.cache;
    together = get-closed laws g.local_cache key env.read env.reread ∙ v.together;
  }

  if-IsGroup :
      {A : Type 0} (g : Group ops) (a : A) (r : Group ops × A)
      → IsGroup g
      → IsGroup r.0
      → (b : Bool) → IsGroup (if b then (g, a) else r).0
  if-IsGroup g a r v w true = v
  if-IsGroup g a r v w false = w

  synced-IsGroup :
      {A B : Type 0} (g : Group ops) (a : A) (d : B) (r : Group ops × A × B)
      → IsGroup g
      → IsGroup r.0
      → (b : Bool) → IsGroup (if b then (g, a, d) else r).0
  synced-IsGroup g a d r v w true = v
  synced-IsGroup g a d r v w false = w

  step-IsGroup : (g : Group ops) (op : Op) → IsGroup g → IsGroup (step g op)
  unfolding step Group.get Group.get_waiting Group.set Group.delete Group.clear Group.close
  step-IsGroup g (do_get env []) v = v
  step-IsGroup g (do_get env (b ∷ key)) v =
      if-IsGroup g (err err_group_closed) _ v
        (finish_get-IsGroup g env (b ∷ key) _ (read-IsGroup g env (b ∷ key) v)) g.closed
  step-IsGroup g (do_wait env [] shared) v = v
  step-IsGroup g (do_wait env (b ∷ key) shared) v =
      if-IsGroup g (err err_group_closed) _ v
        (finish_waiting-IsGroup g env (b ∷ key) shared _ (read-IsGroup g env (b ∷ key) v)) g.closed
  step-IsGroup g (do_set env from_peer [] value) v = v
  step-IsGroup g (do_set env from_peer (b ∷ key) []) v = v
  step-IsGroup g (do_set env from_peer (b ∷ key) (x ∷ value)) v =
      synced-IsGroup g (some err_group_closed) no_sync
        (
          save_to_local g env (b ∷ key) (record { b = clone_bytes (x ∷ value) }),
          none,
          sync_if from_peer env.pick_peer (sync_set (b ∷ key) (x ∷ value)),
        )
        v (save_to_local-IsGroup g env (b ∷ key) (record { b = clone_bytes (x ∷ value) }) v)
        g.closed
  step-IsGroup g (do_delete env from_peer []) v = v
  step-IsGroup g (do_delete env from_peer (b ∷ key)) v =
      synced-IsGroup g (some err_group_closed) no_sync
        (
          record g { local_cache = (Cache.delete g.local_cache (b ∷ key)).0 },
          none,
          sync_if from_peer env.pick_peer (sync_delete (b ∷ key)),
        )
        v
        (record {
          cache = unfold CacheInv.step in step-IsCache laws (CacheInv.do_delete (b ∷ key)) v.cache;
          together =
              let t : (Cache.delete g.local_cache (b ∷ key)).0.closed ≡ g.local_cache.closed =
                unfold Cache.delete in ground arith in
              t ∙ v.together;
        })
        g.closed
  step-IsGroup g do_clear v = choose g.closed
    where
      cleared : IsGroup (record g { local_cache = Cache.clear g.local_cache })
      cleared = record {
        cache = unfold CacheInv.step in step-IsCache laws CacheInv.do_clear v.cache;
        together =
            let t : (Cache.clear g.local_cache).closed ≡ g.local_cache.closed =
              unfold Cache.clear in ground arith in
            t ∙ v.together;
      }

      choose :
          (b : Bool)
          → IsGroup (if b then g else record g { local_cache = Cache.clear g.local_cache })
      choose true = v
      choose false = cleared
  step-IsGroup g do_close v = choose g.closed
    where
      shut : IsGroup (record g { local_cache = Cache.close g.local_cache; closed = true })
      shut = record {
        cache = unfold CacheInv.step in step-IsCache laws CacheInv.do_close v.cache;
        together = unfold Cache.close in ground arith;
      }

      choose :
          (b : Bool)
          → IsGroup
              (if b then g else record g { local_cache = Cache.close g.local_cache; closed = true })
      choose true = v
      choose false = shut

  pub run-IsGroup : (calls : List Op) (g : Group ops) → IsGroup g → IsGroup (run g calls)
  unfolding run
  run-IsGroup [] g v = v
  run-IsGroup (op ∷ calls) g v = run-IsGroup calls (step g op) (step-IsGroup g op v)
