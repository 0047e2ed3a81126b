-- ===== src/Server/Tests.antt =====
-- Requests to a node whose group lives over a small store of store/lru2.
use my_cache_go.Common.{◌≡◌, refl, [], ◌∷◌, none, some, false, Key, key_dec, ℕ_discrete, arith}
use my_cache_go.Common.Dict.{find}
use my_cache_go.Cache.{StoreOps, new_cache}
use my_cache_go.Cache.Laws.{StoreLaws}
use my_cache_go.Cache.Backed.{lru2_ops, lru2_laws}
use my_cache_go.Cache.Inv.{IsCache, unopened}
use my_cache_go.Group.{Env, peer_get, no_sync, peer_delete}
use my_cache_go.Group.Reads.{Fresh}
use my_cache_go.Registry.{Registry, new_value, close_group}
use my_cache_go.Server.{group_not_found, server_get, server_set, server_delete, after, exchange}
use my_cache_go.Server.Traffic.{Relays, exchange-peer_delete}
use my_cache_go.Server.Replies.{reply_to, server-close_group}

abbrev ops : StoreOps
ops = lru2_ops 4 2 2

laws : StoreLaws ops
laws = lru2_laws 4 2 2 (omega arith) (omega arith) (omega arith)

abbrev name : Key
name = b'g' ∷ []

abbrev node : Registry ops
node = record { groups = (name, 0) ∷ []; heap = λ i. new_value name 100; next = 1; locked = false }

abbrev key_k : Key
key_k = b'k' ∷ []

-- The other node is picked for every key, and does not have the key.
abbrev early : Env
early = record {
  pick_peer = some (λ key. peer_get none);
  data_source = λ key. none;
  read = 5;
  reread = 6;
  now = 5;
  until_now = 6;
  later = 6;
}

abbrev late : Env
late = record {
  pick_peer = none;
  data_source = λ key. none;
  read = 50;
  reread = 52;
  now = 50;
  until_now = 51;
  later = 52;
}

bound : find key_dec name node.groups ≡ some 0
unfolding find key_dec ℕ_discrete
bound = refl

new_cache-IsCache : IsCache laws new_cache
new_cache-IsCache = unopened 0 0

fresh : Fresh laws (new_value name 100) early 50
fresh h = (omega arith, omega arith, omega arith, refl)

relays : Relays node early name key_k
relays = record { free = refl; at = 0; bound = bound; live = refl; answer = none; picks = refl }

exchange-peer_delete_example :
    exchange 1000 node early node early name (peer_delete key_k) ≡ peer_delete key_k
exchange-peer_delete_example =
    exchange-peer_delete 1000 node early node early name b'k' [] relays relays

server-close_group_example :
    (reply_to (
        server_get
          (after node (close_group node 0))
          late
          (record { group = name; key = key_k; value = [] }))
      ≡ some group_not_found)
    × (reply_to (
          server_set
            (after node (close_group node 0))
            late
            (record { group = name; key = key_k; value = [] }))
        ≡ some (group_not_found, no_sync))
    × (reply_to (
          server_delete
            (after node (close_group node 0))
            late
            false
            (record { group = name; key = key_k; value = [] }))
        ≡ some (group_not_found, no_sync))
server-close_group_example = server-close_group node 0 late false key_k [] refl refl
