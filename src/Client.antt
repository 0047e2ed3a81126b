-- ===== src/Client.antt =====
-- `Client` of client.go: the calls of a peer. `rpc` is what gRPC makes of a request: the answer of the
-- server, or `none` when the call fails, as it does when no answer comes within the time limit.
pub mod Dial
pub mod Nodes
mod Tests
use my_cache_go.Common.{ℕ, List, [], Option, none, some, Bool, true, false, Key}
use my_cache_go.Server.{Request, Reply, group_not_found, failed, value_reply, deleted_reply}

-- `resp.GetValue()` of an answer without an error.
abbrev pub get_value : Option Reply → Option (List ℕ)
get_value (some (value_reply value)) = some value
get_value _ = none

abbrev pub get_deleted : Option Reply → Option Bool
get_deleted (some (deleted_reply deleted)) = some deleted
get_deleted _ = none

abbrev pub request : Key → Key → List ℕ → Request
request group key value = record { group = group; key = key; value = value }

-- `Get`; `none` is the error.
unfoldable pub get : (Request → Option Reply) → Key → Key → Option (List ℕ)
get rpc group key = get_value (rpc (request group key []))

unfoldable pub delete : (Request → Option Reply) → Key → Key → Option Bool
delete rpc group key = get_deleted (rpc (request group key []))

-- `Set`: whether the call succeeded.
unfoldable pub set : (Request → Option Reply) → Key → Key → List ℕ → Bool
set rpc group key value = elim (get_value (rpc (request group key value))) [
  | none ↦ false
  | some _ ↦ true
]
