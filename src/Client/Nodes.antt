-- ===== src/Client/Nodes.antt =====
-- Two nodes, one of which has the other as its peer: client.go, server.go and group.go together.
use my_cache_go.Common.{
  ℕ, ◌≡◌, ap, ◌∙◌, List, [], ◌∷◌, Option, none, some, false, Key, key_dec, arith,
}
use my_cache_go.Common.Dict.{find}
use my_cache_go.Cache as Cache
use my_cache_go.Cache.{StoreOps}
use my_cache_go.Cache.Laws.{StoreLaws}
use my_cache_go.Cache.Inv.{IsCache}
use my_cache_go.Group as Group
use my_cache_go.Group.{
  Group, Env, Pick, peer_get, ask, ok, fetch_data, finish_get, load_once, finish_load,
  sync_to_peers, sync_if, sync_set, peer_set,
}
use my_cache_go.Group.Reads.{Fresh}
use my_cache_go.Registry.{Registry}
use my_cache_go.Server.{value_reply, server_get, server_set, deliver, after}
use my_cache_go.Server.Replies.{reply_to, server_get-server_set}
use my_cache_go.Client as Client

module _ {ops : StoreOps} where
  -- The `Get` of the peer with this registry, for the group `name`.
  abbrev pub peer_of : Registry ops → Env → Key → Key → Pick
  peer_of r env name key = peer_get (Client.get (λ req. reply_to (server_get r env req)) name key)

  get-peer :
      (g : Group ops) (env : Env) (b : ℕ) (key : Key) (bytes : List ℕ)
      → g.closed ≡ false
      → (Cache.get g.local_cache (b ∷ key) env.read env.reread).1.1 ≡ false
      → ask env.pick_peer (b ∷ key) ≡ peer_get (some bytes)
      → (Group.get g env (b ∷ key)).1 ≡ ok (record { b = bytes })
  unfolding Group.get finish_get load_once finish_load fetch_data
  get-peer g env b key bytes live miss picks = ground (arith, live, miss, picks)

  -- What a client set on one node is what another node answers to its own `Get` of a key that its cache
  -- does not have, if that node picks the first one for the key: with an open group over a valid cache
  -- on the first node, before the entry expires there, if the cache and the store read the same time
  -- when they store it.
  pub get-server_set :
      (laws : StoreLaws ops) (r : Registry ops) (env env' : Env) (i b : ℕ) (key : Key) (v : ℕ)
      (value : List ℕ) (g : Group ops) (here : Env)
      → r.locked ≡ false
      → find key_dec g.name r.groups ≡ some i
      → (r.heap i).closed ≡ false
      → IsCache laws (r.heap i).local_cache
      → (r.heap i).local_cache.closed ≡ false
      → Fresh laws (r.heap i) env env'.read
      → g.closed ≡ false
      → (Cache.get g.local_cache (b ∷ key) here.read here.reread).1.1 ≡ false
      → ask here.pick_peer (b ∷ key)
        ≡ peer_of
            (after r
              (server_set r env (record { group = g.name; key = b ∷ key; value = v ∷ value })))
            env'
            g.name
            (b ∷ key)
      → (Group.get g here (b ∷ key)).1 ≡ ok (record { b = v ∷ value })
  get-server_set laws r env env' i b key v value g here free bound live c o f live_here miss picks =
      get-peer g here b key (v ∷ value) live_here miss (picks ∙ ap peer_get answered)
    where
      stored : Registry ops
      stored =
          after r (server_set r env (record { group = g.name; key = b ∷ key; value = v ∷ value }))

      answered :
          Client.get (λ req. reply_to (server_get stored env' req)) g.name (b ∷ key)
          ≡ some (v ∷ value)
      answered =
          unfold Client.get in
          ap Client.get_value
            (server_get-server_set laws r env env' g.name i b key v value [] free bound live c o f)

  set-sync :
      (g : Group ops) (env : Env) (b : ℕ) (key : Key) (v : ℕ) (value : List ℕ)
      (answer : Option (List ℕ))
      → g.closed ≡ false
      → ask env.pick_peer (b ∷ key) ≡ peer_get answer
      → sync_to_peers env.pick_peer (Group.set g env false (b ∷ key) (v ∷ value)).2
        ≡ peer_set (b ∷ key) (v ∷ value)
  unfolding Group.set sync_to_peers
  set-sync g env b key v value answer live picks = rw live (sent env.pick_peer picks)
    where
      sent :
          (picker : Option (Key → Pick))
          → ask picker (b ∷ key) ≡ peer_get answer
          → sync_to_peers picker (sync_if false picker (sync_set (b ∷ key) (v ∷ value)))
            ≡ peer_set (b ∷ key) (v ∷ value)
      sent none e = absurd (ground (arith, e))
      sent (some pick) e = ground (arith, e)

  -- A `Set` of a program on one node makes the peer that the node picks for the key answer that value
  -- too, once its call has been delivered: with an open group of the name over a valid cache there,
  -- before the entry expires there, if the cache and the store read the same time when they store it.
  pub server_get-set :
      (laws : StoreLaws ops) (g : Group ops) (here : Env) (r : Registry ops) (env env' : Env)
      (i b : ℕ) (key : Key) (v : ℕ) (value : List ℕ) (answer : Option (List ℕ))
      → g.closed ≡ false
      → ask here.pick_peer (b ∷ key) ≡ peer_get answer
      → r.locked ≡ false
      → find key_dec g.name r.groups ≡ some i
      → (r.heap i).closed ≡ false
      → IsCache laws (r.heap i).local_cache
      → (r.heap i).local_cache.closed ≡ false
      → Fresh laws (r.heap i) env env'.read
      → reply_to (
          server_get
            (after r (
              deliver r env g.name
                (sync_to_peers here.pick_peer (Group.set g here false (b ∷ key) (v ∷ value)).2)))
            env'
            (record { group = g.name; key = b ∷ key; value = [] }))
        ≡ some (value_reply (v ∷ value))
  server_get-set laws g here r env env' i b key v value answer live_here picks free bound live c o
        f =
      ap
        (λ call. reply_to (
          server_get (after r (deliver r env g.name call)) env'
            (record { group = g.name; key = b ∷ key; value = [] })))
        (set-sync g here b key v value answer live_here picks)
      ∙ unfold deliver in
        server_get-server_set laws r env env' g.name i b key v value [] free bound live c o f
