-- ===== src/Group/Calls.antt =====
-- Sequences of calls on a group of group.go.
use my_cache_go.Common.{ℕ, List, [], ◌∷◌, Option, Bool, Key}
use my_cache_go.ByteView.{ByteView}
use my_cache_go.Cache.{StoreOps}
use my_cache_go.Group as Group
use my_cache_go.Group.{Group, Env}

-- A call of an operation of a group; `do_wait` is a `Get` that waits for the load of another one.
pub data Op : Type 0 where
  do_get : Env → Key → Op
  do_wait : Env → Key → Option ByteView → Op
  do_set : Env → Bool → Key → List ℕ → Op
  do_delete : Env → Bool → Key → Op
  do_clear do_close : Op

module _ {ops : StoreOps} where
  unfoldable pub step : Group ops → Op → Group ops
  step g (do_get env key) = (Group.get g env key).0
  step g (do_wait env key shared) = (Group.get_waiting g env key shared).0
  step g (do_set env from_peer key value) = (Group.set g env from_peer key value).0
  step g (do_delete env from_peer key) = (Group.delete g env from_peer key).0
  step g do_clear = Group.clear g
  step g do_close = Group.close g

  unfoldable pub run : Group ops → List Op → Group ops
  run g [] = g
  run g (op ∷ calls) = run (step g op) calls
