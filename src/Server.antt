-- ===== src/Server.antt =====
-- The handlers of server.go over the registry of groups, and the delivery of what `syncToPeers` sends.
-- gRPC hands a request over as it is, and an error as an error; the values of a context stay with the
-- sender, so that a request comes without the mark `from_peer`.
pub mod Replies
pub mod Traffic
mod Tests
use my_cache_go.Common.{ℕ, zero, suc, List, [], Option, none, some, Bool, true, false, Key}
use my_cache_go.ByteView.{byte_slice}
use my_cache_go.Cache.{StoreOps}
use my_cache_go.Group as Group
use my_cache_go.Group.{
  Group, Env, Error, Result, ok, err, Sync, no_sync, PeerCall, no_call, peer_set, peer_delete,
  sync_to_peers, Pick,
}
use my_cache_go.Registry.{Registry, Outcome, returned, panicked, blocked, put_at, get_group}

pub record Request : Type 0 where
  pub group : Key
  pub key : Key
  pub value : List ℕ

-- The errors of a handler, and its answers.
pub data Reply : Type 0 where
  group_not_found : Reply
  failed : Error → Reply
  value_reply : List ℕ → Reply
  deleted_reply : Bool → Reply

abbrev pub reply_of : Result → Reply
reply_of (ok view) = value_reply (byte_slice view)
reply_of (err e) = failed e

-- The answer of `Set`, with the value of the request.
abbrev pub set_reply : List ℕ → Option Error → Reply
set_reply value none = value_reply value
set_reply value (some e) = failed e

abbrev pub delete_reply : Option Error → Reply
delete_reply none = deleted_reply true
delete_reply (some e) = failed e

module _ {ops : StoreOps} where
  -- The registry after a call of the group at `i`.
  abbrev pub with_group : Registry ops → ℕ → Group ops → Registry ops
  with_group r i g = record r { heap = put_at r.heap i g }

  abbrev pub then_with :
      {A B : Type 0}
      → Outcome (Registry ops) A
      → (Registry ops → A → Outcome (Registry ops) B)
      → Outcome (Registry ops) B
  then_with (returned r a) rest = rest r a
  then_with panicked rest = panicked
  then_with (blocked r) rest = blocked r

  unfoldable pub answer_get : Registry ops → Env → Request → Option ℕ → Outcome (Registry ops) Reply
  answer_get r env req none = returned r group_not_found
  answer_get r env req (some i) =
      let (g, result) = Group.get (r.heap i) env req.key in
      returned (with_group r i g) (reply_of result)

  -- `Server.Get`.
  unfoldable pub server_get : Registry ops → Env → Request → Outcome (Registry ops) Reply
  server_get r env req = then_with (get_group r req.group) (λ r' o. answer_get r' env req o)

  -- `Set` marks its context, whether the caller did so or not.
  unfoldable pub answer_set :
      Registry ops → Env → Request → Option ℕ → Outcome (Registry ops) (Reply × Sync)
  answer_set r env req none = returned r (group_not_found, no_sync)
  answer_set r env req (some i) =
      let (g, e, sync) = Group.set (r.heap i) env true req.key req.value in
      returned (with_group r i g) (set_reply req.value e, sync)

  -- `Server.Set`.
  unfoldable pub server_set : Registry ops → Env → Request → Outcome (Registry ops) (Reply × Sync)
  server_set r env req = then_with (get_group r req.group) (λ r' o. answer_set r' env req o)

  -- `Delete` passes its context on as it came.
  unfoldable pub answer_delete :
      Registry ops → Env → Bool → Request → Option ℕ → Outcome (Registry ops) (Reply × Sync)
  answer_delete r env marked req none = returned r (group_not_found, no_sync)
  answer_delete r env marked req (some i) =
      let (g, e, sync) = Group.delete (r.heap i) env marked req.key in
      returned (with_group r i g) (delete_reply e, sync)

  -- `Server.Delete`; `marked` says that the context has `from_peer`.
  unfoldable pub server_delete :
      Registry ops → Env → Bool → Request → Outcome (Registry ops) (Reply × Sync)
  server_delete r env marked req =
      then_with (get_group r req.group) (λ r' o. answer_delete r' env marked req o)

  -- The call of a peer for the group `name`, as the server of the peer takes it.
  unfoldable pub deliver :
      Registry ops → Env → Key → PeerCall → Outcome (Registry ops) (Reply × Sync)
  deliver r env name no_call = returned r (group_not_found, no_sync)
  deliver r env name (peer_set key value) =
      server_set r env (record { group = name; key = key; value = value })
  deliver r env name (peer_delete key) =
      server_delete r env false (record { group = name; key = key; value = [] })

  -- What the node sends in turn, once its goroutine has run `syncToPeers`.
  abbrev pub next_call : Env → Outcome (Registry ops) (Reply × Sync) → PeerCall
  next_call env (returned r (reply, sync)) = sync_to_peers env.pick_peer sync
  next_call env panicked = no_call
  next_call env (blocked r) = no_call

  abbrev pub after : {A : Type 0} → Registry ops → Outcome (Registry ops) A → Registry ops
  after r (returned r' a) = r'
  after r panicked = r
  after r (blocked r') = r'

  -- Two nodes that are each other's peer: a call goes to the first, what that sends goes to the second,
  -- and so on for `n` deliveries. The result is the call that is then on its way.
  unfoldable pub exchange : ℕ → Registry ops → Env → Registry ops → Env → Key → PeerCall → PeerCall
  exchange zero r env r' env' name call = call
  exchange (suc n) r env r' env' name call =
      let o = deliver r env name call in exchange n r' env' (after r o) env name (next_call env o)
