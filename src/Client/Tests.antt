-- ===== src/Client/Tests.antt =====
-- A node that gets a key from its peer.
use my_cache_go.Common.{
  ◌≡◌, refl, [], ◌∷◌, Option, none, some, false, Key, key_dec, ℕ_discrete, arith,
}
use my_cache_go.Common.Dict.{find}
use my_cache_go.Cache as Cache
use my_cache_go.Cache.{StoreOps, new_cache, count_read}
use my_cache_go.Cache.Laws.{StoreLaws}
use my_cache_go.Cache.Backed.{lru2_ops, lru2_laws}
use my_cache_go.Cache.Inv.{IsCache, unopened}
use my_cache_go.Group as Group
use my_cache_go.Group.{Group, Env, peer_get, ok, sync_to_peers}
use my_cache_go.Group.Reads.{Fresh}
use my_cache_go.Registry.{Registry, new_value}
use my_cache_go.Server.{
  Request, Reply, group_not_found, value_reply, server_get, server_set, deliver, after,
}
use my_cache_go.Server.Replies.{reply_to}
use my_cache_go.Client as Client
use my_cache_go.Client.Nodes.{peer_of, get-server_set, server_get-set}

abbrev ops : StoreOps
ops = lru2_ops 4 2 2

laws : StoreLaws ops
laws = lru2_laws 4 2 2 (omega arith) (omega arith) (omega arith)

abbrev name : Key
name = b'g' ∷ []

abbrev key_k : Key
key_k = b'k' ∷ []

-- The peer.
abbrev node : Registry ops
node = record { groups = (name, 0) ∷ []; heap = λ i. new_value name 100; next = 1; locked = false }

abbrev early : Env
early = record {
  pick_peer = none;
  data_source = λ key. none;
  read = 5;
  reread = 6;
  now = 5;
  until_now = 6;
  later = 6;
}

abbrev late : Env
late = record {
  pick_peer = none;
  data_source = λ key. none;
  read = 50;
  reread = 52;
  now = 50;
  until_now = 51;
  later = 52;
}

abbrev filled : Registry ops
filled =
    after node (server_set node early (record { group = name; key = key_k; value = b'v' ∷ [] }))

-- This node, which asks the peer for every key.
abbrev group : Group ops
group = new_value name 0

abbrev here : Env
here = record {
  pick_peer = some (peer_of filled late name);
  data_source = λ key. none;
  read = 50;
  reread = 52;
  now = 50;
  until_now = 51;
  later = 52;
}

bound : find key_dec name node.groups ≡ some 0
unfolding find key_dec ℕ_discrete
bound = refl

new_cache-IsCache : IsCache laws new_cache
new_cache-IsCache = unopened 0 0

fresh : Fresh laws (new_value name 100) early 50
fresh h = (omega arith, omega arith, omega arith, refl)

missed : (Cache.get group.local_cache key_k 50 52).1.1 ≡ false
unfolding Cache.get
missed = refl

get-server_set_example : (Group.get group here key_k).1 ≡ ok (record { b = b'v' ∷ [] })
get-server_set_example =
    get-server_set laws node early late 0 b'k' [] b'v' [] group here refl bound refl
      new_cache-IsCache refl fresh refl missed refl

server_get-set_example :
    reply_to (
      server_get
        (after node (
          deliver node early name
            (sync_to_peers here.pick_peer (Group.set group here false key_k (b'v' ∷ [])).2)))
        late
        (record { group = name; key = key_k; value = [] }))
    ≡ some (value_reply (b'v' ∷ []))
server_get-set_example =
    server_get-set laws group here node early late 0 b'k' [] b'v' []
      (Client.get (λ req. reply_to (server_get filled late req)) name key_k) refl refl refl bound
      refl new_cache-IsCache refl fresh

-- An error of the server is an error of the client.
no_group : Request → Option Reply
no_group req = some group_not_found

refused :
    (Client.get no_group name key_k ≡ none)
    × (Client.delete no_group name key_k ≡ none)
    × (Client.set no_group name key_k [] ≡ false)
unfolding Client.get Client.delete Client.set no_group
refused = (refl, refl, refl)
