-- ===== src/Group.antt =====
-- `Group` of group.go, over the cache of cache.go. A call reads the world outside through `Env`: the
-- peers, the data source and the clock. `Do` of singleflight runs its function when no other call
-- loads the key, which is `get`, and else waits for the result of that call, which is `get_waiting`.
pub mod Calls
pub mod Defaults
pub mod Inv
pub mod Reads
pub mod Report
pub mod Tally
pub mod Wiring
mod Tests
use my_cache_go.Common.{
  ℕ, ◌+◌, List, [], ◌∷◌, Option, none, some, Bool, true, false, not, ◌&&◌, if◌then◌else◌, ltb, Key,
}
use my_cache_go.Common.Int64.{Int64, lt64, add64}
use my_cache_go.ByteView.{ByteView, no_view, clone_bytes}
use my_cache_go.Cache as Cache
use my_cache_go.Cache.{StoreOps, Cache}

-- The three errors of group.go, and a failure of the data source.
pub data Error : Type 0 where
  err_key_required err_value_required err_group_closed failed_to_get_data : Error

pub data Result : Type 0 where
  ok : ByteView → Result
  err : Error → Result

-- What `PickPeer` says of a key: no peer, the node itself, or a peer, with the answer of its `Get`.
pub data Pick : Type 0 where
  no_peer : Pick
  is_self : Pick
  peer_get : Option (List ℕ) → Pick

-- The world at one call: the picker, which is nil at `none`, the data source, and the times that are
-- read, which may be of different clocks: `read` and `reread` by the store in its `Get`, `now` by the
-- group for the time at which an entry expires, `until_now` by the cache for the lifetime that is left,
-- and `later` by the store that takes the entry.
pub record Env : Type 0 where
  pub pick_peer : Option (Key → Pick)
  pub data_source : Key → Option (List ℕ)
  pub read : ℕ
  pub reread : ℕ
  pub now : ℕ
  pub until_now : ℕ
  pub later : ℕ

pub record Stats : Type 0 where
  pub loads : Int64
  pub local_hits : Int64
  pub local_misses : Int64
  pub peer_hits : Int64
  pub peer_misses : Int64
  pub loader_hits : Int64
  pub loader_errors : Int64

abbrev pub no_stats : Stats
no_stats = record {
  loads = 0;
  local_hits = 0;
  local_misses = 0;
  peer_hits = 0;
  peer_misses = 0;
  loader_hits = 0;
  loader_errors = 0;
}

pub record Group (ops : StoreOps) : Type 0 where
  pub name : Key
  pub local_cache : Cache ops
  pub expiration : Int64
  pub closed : Bool
  pub stats : Stats

-- A call of `syncToPeers` that a goroutine makes.
pub data Sync : Type 0 where
  no_sync : Sync
  sync_set : Key → List ℕ → Sync
  sync_delete : Key → Sync

-- A call of a peer, or none.
pub data PeerCall : Type 0 where
  no_call : PeerCall
  peer_set : Key → List ℕ → PeerCall
  peer_delete : Key → PeerCall

abbrev pub ask : Option (Key → Pick) → Key → Pick
ask none key = no_peer
ask (some pick) key = pick key

-- `fetchData` from the data source alone.
unfoldable pub fetch_local : Env → Key → Stats → Stats × Option ByteView
fetch_local env key s = elim (env.data_source key) [
  | none ↦ (s, none)
  | some bytes ↦
      (record s { loader_hits = add64 s.loader_hits 1 }, some (record { b = clone_bytes bytes }))
]

-- `fetchData`, with `fetchFromPeer`; `none` is the error.
unfoldable pub fetch_data : Env → Key → Stats → Stats × Option ByteView
fetch_data env key s = elim (ask env.pick_peer key) [
  | no_peer ↦ fetch_local env key s
  | is_self ↦ fetch_local env key s
  | peer_get (some bytes) ↦
      (record s { peer_hits = add64 s.peer_hits 1 }, some (record { b = bytes }))
  | peer_get none ↦ fetch_local env key (record s { peer_misses = add64 s.peer_misses 1 })
]

-- `syncToPeers`.
unfoldable pub sync_to_peers : Option (Key → Pick) → Sync → PeerCall
sync_to_peers picker no_sync = no_call
sync_to_peers picker (sync_set key value) = elim (ask picker key) [
  | no_peer ↦ no_call
  | is_self ↦ no_call
  | peer_get _ ↦ peer_set key value
]
sync_to_peers picker (sync_delete key) = elim (ask picker key) [
  | no_peer ↦ no_call
  | is_self ↦ no_call
  | peer_get _ ↦ peer_delete key
]

-- A call is synced if it does not come from a peer and there is a picker.
abbrev pub sync_if : Bool → Option (Key → Pick) → Sync → Sync
sync_if true picker s = no_sync
sync_if false none s = no_sync
sync_if false (some pick) s = s

module _ {ops : StoreOps} where
  -- `saveToLocal`, and the same lines of `Set`.
  unfoldable pub save_to_local : Group ops → Env → Key → ByteView → Group ops
  save_to_local g env key view = record g {
    local_cache =
        if lt64 0 g.expiration
        then Cache.add_with_expiration g.local_cache key view (env.now + g.expiration) env.until_now
            env.later
        else Cache.add g.local_cache key view env.later;
  }

  -- What `loadOnce` does with the result of `Do`.
  unfoldable pub finish_load : Group ops → Env → Key → Stats × Option ByteView → Group ops × Result
  finish_load g env key (s, none) = (
    record g {
      stats = record s { loads = add64 s.loads 1; loader_errors = add64 s.loader_errors 1 };
    },
    err failed_to_get_data,
  )
  finish_load g env key (s, some view) = (
    save_to_local (record g { stats = record s { loads = add64 s.loads 1 } }) env key view,
    ok view,
  )

  unfoldable pub load_once : Group ops → Env → Key → Group ops × Result
  load_once g env key = finish_load g env key (fetch_data env key g.stats)

  -- `loadOnce` where `Do` waits for another call of the same key; `shared` is the result of that one.
  unfoldable pub load_waiting : Group ops → Env → Key → Option ByteView → Group ops × Result
  load_waiting g env key shared = finish_load g env key (g.stats, shared)

  -- What `Get` does with the answer of the cache.
  unfoldable pub finish_get : Group ops → Env → Key → Cache ops × Cache.Answer → Group ops × Result
  finish_get g env key (c, (view, true)) = (
    record g {
      local_cache = c;
      stats = record g.stats { local_hits = add64 g.stats.local_hits 1 };
    },
    ok view,
  )
  finish_get g env key (c, (view, false)) =
      load_once
        (record g {
          local_cache = c;
          stats = record g.stats { local_misses = add64 g.stats.local_misses 1 };
        })
        env key

  unfoldable pub get : Group ops → Env → Key → Group ops × Result
  get g env [] = (g, if g.closed then err err_group_closed else err err_key_required)
  get g env (b ∷ key) =
      if g.closed
      then (g, err err_group_closed)
      else finish_get g env (b ∷ key) (Cache.get g.local_cache (b ∷ key) env.read env.reread)

  -- The same for a `Get` that waits for the load of another one.
  unfoldable pub finish_waiting :
      Group ops → Env → Key → Option ByteView → Cache ops × Cache.Answer → Group ops × Result
  finish_waiting g env key shared (c, (view, true)) = finish_get g env key (c, (view, true))
  finish_waiting g env key shared (c, (view, false)) =
      load_waiting
        (record g {
          local_cache = c;
          stats = record g.stats { local_misses = add64 g.stats.local_misses 1 };
        })
        env key shared

  -- `Get` while another `Get` loads the key.
  unfoldable pub get_waiting : Group ops → Env → Key → Option ByteView → Group ops × Result
  get_waiting g env [] shared = get g env []
  get_waiting g env (b ∷ key) shared =
      if g.closed
      then (g, err err_group_closed)
      else finish_waiting g env (b ∷ key) shared
          (Cache.get g.local_cache (b ∷ key) env.read env.reread)

  -- `Set`; `from_peer` is the mark of the context. The error is `none` on success.
  unfoldable pub set : Group ops → Env → Bool → Key → List ℕ → Group ops × Option Error × Sync
  set g env from_peer [] value =
      (g, some (if g.closed then err_group_closed else err_key_required), no_sync)
  set g env from_peer (b ∷ key) [] =
      (g, some (if g.closed then err_group_closed else err_value_required), no_sync)
  set g env from_peer (b ∷ key) (v ∷ value) =
      if g.closed then (g, some err_group_closed, no_sync) else (
        save_to_local g env (b ∷ key) (record { b = clone_bytes (v ∷ value) }),
        none,
        sync_if from_peer env.pick_peer (sync_set (b ∷ key) (v ∷ value)),
      )

  unfoldable pub delete : Group ops → Env → Bool → Key → Group ops × Option Error × Sync
  delete g env from_peer [] =
      (g, some (if g.closed then err_group_closed else err_key_required), no_sync)
  delete g env from_peer (b ∷ key) = if g.closed then (g, some err_group_closed, no_sync) else (
    record g { local_cache = (Cache.delete g.local_cache (b ∷ key)).0 },
    none,
    sync_if from_peer env.pick_peer (sync_delete (b ∷ key)),
  )

  unfoldable pub clear : Group ops → Group ops
  clear g = if g.closed then g else record g { local_cache = Cache.clear g.local_cache }

  -- `Close`, without the removal from the map of groups.
  unfoldable pub close : Group ops → Group ops
  close g =
      if g.closed then g else record g { local_cache = Cache.close g.local_cache; closed = true }
