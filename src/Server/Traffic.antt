-- ===== src/Server/Traffic.antt =====
-- What the nodes send each other on a set and on a delete, server.go and group.go.
use my_cache_go.Common.{
  ℕ, zero, suc, ◌≡◌, refl, ap, sym, subst, ◌∙◌, List, [], ◌∷◌, Option, none, some, true, false,
  if_pos, ℕ_discrete, Key, key_dec, arith,
}
use my_cache_go.Common.Dict.{find}
use my_cache_go.Cache as Cache
use my_cache_go.Cache.{StoreOps}
use my_cache_go.Group as Group
use my_cache_go.Group.{
  Group, Env, Pick, peer_get, ask, Sync, no_sync, sync_if, sync_delete, PeerCall, no_call, peer_set,
  peer_delete, sync_to_peers,
}
use my_cache_go.Registry.{Registry, Outcome, returned, panicked, blocked, get_group}
use my_cache_go.Registry.Lookup.{get_group-eq}
use my_cache_go.Server.{
  Request, deleted_reply, delete_reply, with_group, server_set, answer_set, server_delete,
  answer_delete, deliver, next_call, after, exchange, then_with,
}

relayed :
    (picker : Option (Key → Pick)) (key : Key) (answer : Option (List ℕ))
    → ask picker key ≡ peer_get answer
    → sync_to_peers picker (sync_if false picker (sync_delete key)) ≡ peer_delete key
unfolding sync_to_peers
relayed none key answer h = absurd (ground (arith, h))
relayed (some pick) key answer h = ground (arith, h)

module _ {ops : StoreOps} where
  set-no_sync :
      (g : Group ops) (env : Env) (key : Key) (value : List ℕ)
      → (Group.set g env true key value).2 ≡ no_sync
  unfolding Group.set
  set-no_sync g env [] value = refl
  set-no_sync g env (b ∷ key) [] = refl
  set-no_sync g env (b ∷ key) (v ∷ value) = ground arith

  answer_set-next_call :
      (r : Registry ops) (env : Env) (req : Request) (o : Option ℕ)
      → next_call env (answer_set r env req o) ≡ no_call
  unfolding answer_set sync_to_peers
  answer_set-next_call r env req none = refl
  answer_set-next_call r env req (some i) =
      ap (sync_to_peers env.pick_peer) (set-no_sync (r.heap i) env req.key req.value)

  found-next_call :
      (env : Env) (req : Request) (o : Outcome (Registry ops) (Option ℕ))
      → next_call env (then_with o (λ r q. answer_set r env req q)) ≡ no_call
  found-next_call env req (returned r q) = answer_set-next_call r env req q
  found-next_call env req panicked = refl
  found-next_call env req (blocked r) = refl

  -- A set that a node takes from a peer makes it send nothing, whatever state the node is in.
  pub deliver-peer_set :
      (r : Registry ops) (env : Env) (name key : Key) (value : List ℕ)
      → next_call env (deliver r env name (peer_set key value)) ≡ no_call
  unfolding deliver server_set
  deliver-peer_set r env name key value =
      found-next_call env (record { group = name; key = key; value = value }) (get_group r name)

  -- The node has an open group of the name, and its picker gives a peer for the key.
  pub record Relays (r : Registry ops) (env : Env) (name key : Key) : Type 0 where
    pub free : r.locked ≡ false
    pub at : ℕ
    pub bound : find key_dec name r.groups ≡ some at
    pub live : (r.heap at).closed ≡ false
    pub answer : Option (List ℕ)
    pub picks : ask env.pick_peer key ≡ peer_get answer

  module _ (r : Registry ops) (env : Env) (name : Key) (b : ℕ) (key : Key)
      (v : Relays r env name (b ∷ key)) where
    abbrev group : Group ops
    group = r.heap v.at

    abbrev emptied : Group ops
    emptied = record group { local_cache = (Cache.delete group.local_cache (b ∷ key)).0 }

    deleted :
        deliver r env name (peer_delete (b ∷ key))
        ≡ returned
            (with_group r v.at emptied)
            (deleted_reply true, sync_if false env.pick_peer (sync_delete (b ∷ key)))
    unfolding deliver server_delete answer_delete
    deleted =
        ap
          (λ o. then_with o (λ r' q.
            answer_delete r' env false (record { group = name; key = b ∷ key; value = [] }) q))
          (get_group-eq r name v.free ∙ ap (returned r) v.bound)
        ∙ ap (λ t. returned (with_group r v.at t.0) (delete_reply t.1, t.2)) opened
      where
        opened :
            Group.delete group env false (b ∷ key)
            ≡ (emptied, none, sync_if false env.pick_peer (sync_delete (b ∷ key)))
        opened = unfold Group.delete in rw v.live refl

    deliver-peer_delete :
        (next_call env (deliver r env name (peer_delete (b ∷ key))) ≡ peer_delete (b ∷ key))
        × Relays (after r (deliver r env name (peer_delete (b ∷ key)))) env name (b ∷ key)
    deliver-peer_delete = (
      ap (next_call env) deleted ∙ relayed env.pick_peer (b ∷ key) v.answer v.picks,
      subst (λ o. Relays (after r o) env name (b ∷ key)) (sym deleted)
          (record {
            free = v.free;
            at = v.at;
            bound = v.bound;
            live =
                ap (λ g. g.closed) (if_pos (ℕ_discrete v.at v.at) refl emptied (r.heap v.at))
                ∙ v.live;
            answer = v.answer;
            picks = v.picks;
          }),
    )

  -- Two nodes that pick each other for a key send a delete of that key to and fro for ever: after any
  -- number of deliveries there is one on its way.
  pub exchange-peer_delete :
      (n : ℕ) (r : Registry ops) (env : Env) (r' : Registry ops) (env' : Env) (name : Key) (b : ℕ)
      (key : Key)
      → Relays r env name (b ∷ key)
      → Relays r' env' name (b ∷ key)
      → exchange n r env r' env' name (peer_delete (b ∷ key)) ≡ peer_delete (b ∷ key)
  unfolding exchange
  exchange-peer_delete zero r env r' env' name b key v w = refl
  exchange-peer_delete (suc n) r env r' env' name b key v w =
      let (sent, kept) = deliver-peer_delete r env name b key v in
      ap (exchange n r' env' (after r (deliver r env name (peer_delete (b ∷ key)))) env name) sent
      ∙ exchange-peer_delete n r' env' _ env name b key w kept
