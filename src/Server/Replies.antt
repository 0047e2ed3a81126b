-- ===== src/Server/Replies.antt =====
-- What the handlers of server.go tell a client after a set, and after the group is closed.
use my_cache_go.Common.{
  ℕ, ◌≡◌, refl, ap, ◌∙◌, List, ◌∷◌, Option, none, some, Bool, true, false, if_pos, ℕ_discrete, Key,
  key_dec,
}
use my_cache_go.Common.Dict.{find}
use my_cache_go.ByteView.{byte_slice}
use my_cache_go.Cache.{StoreOps}
use my_cache_go.Cache.Laws.{StoreLaws}
use my_cache_go.Cache.Inv.{IsCache}
use my_cache_go.Group as Group
use my_cache_go.Group.{Group, Env, Result, ok, err, Sync, no_sync}
use my_cache_go.Group.Reads.{Fresh, get-set_value, clone_bytes_lem}
use my_cache_go.Registry.{Registry, Outcome, returned, panicked, blocked, get_group, close_group}
use my_cache_go.Registry.Lookup.{get_group-eq, get_group-close_group}
use my_cache_go.Server.{
  Request, group_not_found, value_reply, reply_of, with_group, server_get, answer_get, server_set,
  answer_set, server_delete, answer_delete, after, then_with,
}

module _ {ops : StoreOps} where
  -- The answer of a call that returns.
  abbrev pub reply_to : {A : Type 0} → Outcome (Registry ops) A → Option A
  reply_to (returned r a) = some a
  reply_to panicked = none
  reply_to (blocked r) = none

  found :
      (r : Registry ops) (name : Key) (o : Option ℕ)
      → r.locked ≡ false
      → find key_dec name r.groups ≡ o
      → get_group r name ≡ returned r o
  found r name o free bound = get_group-eq r name free ∙ ap (returned r) bound

  server_get-found :
      (r : Registry ops) (env : Env) (name key : Key) (body : List ℕ) (i : ℕ)
      → r.locked ≡ false
      → find key_dec name r.groups ≡ some i
      → reply_to (server_get r env (record { group = name; key = key; value = body }))
        ≡ some (reply_of (Group.get (r.heap i) env key).1)
  unfolding server_get answer_get
  server_get-found r env name key body i free bound =
      ap
        (λ o. reply_to (
          then_with o
            (λ r' q. answer_get r' env (record { group = name; key = key; value = body }) q)))
        (found r name (some i) free bound)

  server_set-found :
      (r : Registry ops) (env : Env) (name key : Key) (value : List ℕ) (i : ℕ)
      → r.locked ≡ false
      → find key_dec name r.groups ≡ some i
      → after r (server_set r env (record { group = name; key = key; value = value }))
        ≡ with_group r i (Group.set (r.heap i) env true key value).0
  unfolding server_set answer_set
  server_set-found r env name key value i free bound =
      ap
        (λ o. after r (
          then_with o
            (λ r' q. answer_set r' env (record { group = name; key = key; value = value }) q)))
        (found r name (some i) free bound)

  -- What `Server.Set` stored in an open group is what `Server.Get` of that group and key answers, for
  -- a valid cache that is not closed, before the entry expires, if the cache and the store read the
  -- same time when they store it.
  pub server_get-server_set :
      (laws : StoreLaws ops) (r : Registry ops) (env env' : Env) (name : Key) (i b : ℕ) (key : Key)
      (v : ℕ) (value body : List ℕ)
      → r.locked ≡ false
      → find key_dec name r.groups ≡ some i
      → (r.heap i).closed ≡ false
      → IsCache laws (r.heap i).local_cache
      → (r.heap i).local_cache.closed ≡ false
      → Fresh laws (r.heap i) env env'.read
      → reply_to (
          server_get
            (after r (server_set r env (record { group = name; key = b ∷ key; value = v ∷ value })))
            env'
            (record { group = name; key = b ∷ key; value = body }))
        ≡ some (value_reply (v ∷ value))
  server_get-server_set laws r env env' name i b key v value body free bound live c o f =
      ap (λ s. reply_to (server_get s env' (record { group = name; key = b ∷ key; value = body })))
        (server_set-found r env name (b ∷ key) (v ∷ value) i free bound)
      ∙ server_get-found (with_group r i g) env' name (b ∷ key) body i free bound
      ∙ ap (λ h. some (reply_of (Group.get h env' (b ∷ key)).1))
          (if_pos (ℕ_discrete i i) refl g (r.heap i))
      ∙ ap (λ x. some (reply_of x))
          (get-set_value laws (r.heap i) env env' true b key v value c o live f)
      ∙ ap (λ l. some (value_reply l)) (unfold byte_slice in clone_bytes_lem (v ∷ value))
    where
      g : Group ops
      g = (Group.set (r.heap i) env true (b ∷ key) (v ∷ value)).0

  -- After `Close` of an open group, each of the three handlers answers a request for its name that
  -- there is no such group, and sends nothing to a peer.
  pub server-close_group :
      (r : Registry ops) (i : ℕ) (env : Env) (marked : Bool) (key : Key) (value : List ℕ)
      → r.locked ≡ false
      → (r.heap i).closed ≡ false
      → (reply_to (
            server_get
              (after r (close_group r i))
              env
              (record { group = (r.heap i).name; key = key; value = value }))
          ≡ some group_not_found)
        × (reply_to (
              server_set
                (after r (close_group r i))
                env
                (record { group = (r.heap i).name; key = key; value = value }))
            ≡ some (group_not_found, no_sync))
        × (reply_to (
              server_delete
                (after r (close_group r i))
                env
                marked
                (record { group = (r.heap i).name; key = key; value = value }))
            ≡ some (group_not_found, no_sync))
  unfolding server_get answer_get server_set answer_set server_delete answer_delete
  server-close_group r i env marked key value free live = (
    ap (λ o. reply_to (then_with o (λ r' q. answer_get r' env req q))) gone,
    ap (λ o. reply_to (then_with o (λ r' q. answer_set r' env req q))) gone,
    ap (λ o. reply_to (then_with o (λ r' q. answer_delete r' env marked req q))) gone,
  )
    where
      req : Request
      req = record { group = (r.heap i).name; key = key; value = value }

      closed : Registry ops
      closed = after r (close_group r i)

      gone : get_group closed (r.heap i).name ≡ returned closed none
      gone = get_group-close_group r i free live
