-- ===== src/Peers.antt =====
-- `ClientPicker` of peers.go, over the ring of consistenthash. The hash of the ring is the parameter
-- `hash`; a client is its address, and `NewClient` succeeds on the addresses that `reachable` accepts.
pub mod Clients
pub mod Discovery
pub mod Removals
pub mod Self
mod Tests
use my_cache_go.Common.{
  ℕ, List, [], ◌∷◌, Option, none, some, Bool, true, false, if◌then◌else◌, ite, Key, key_dec,
}
use my_cache_go.Common.Dict
use my_cache_go.HashRing as HashRing
use my_cache_go.HashRing.{HashRing, Config}

pub record ClientPicker : Type 0 where
  pub self_addr : Key
  pub cons_hash : HashRing
  pub clients : List (Key × Key)

-- An event of the watch on etcd, with the address that it carries.
pub data Event : Type 0 where
  put : Key → Event
  delete : Key → Event

-- The ring after a call whose error is dropped.
abbrev pub or_same : HashRing → Option HashRing → HashRing
or_same r none = r
or_same r (some r') = r'

-- What `PickPeer` makes of the address that the ring gives.
unfoldable pub client_of : ClientPicker → Key → Option (Key × Bool)
client_of p [] = none
client_of p (b ∷ addr) = elim (Dict.find key_dec (b ∷ addr) p.clients) [
  | none ↦ none
  | some client ↦ some (client, ite (key_dec (b ∷ addr) p.self_addr) true false)
]

module _ (hash : Key → ℕ) (c : Config) (reachable : Key → Bool) where
  unfoldable pub set : ClientPicker → Key → ClientPicker
  set p addr =
      if reachable addr
      then record p {
        cons_hash = or_same p.cons_hash (HashRing.add hash c p.cons_hash (addr ∷ []));
        clients = Dict.insert key_dec addr addr p.clients;
      }
      else p

  unfoldable pub remove : ClientPicker → Key → ClientPicker
  remove p addr = record p {
    cons_hash = or_same p.cons_hash (HashRing.remove hash p.cons_hash addr);
    clients = Dict.delete key_dec addr p.clients;
  }

  -- The body of the loop of `handleWatchEvents`.
  unfoldable pub handle_event : ClientPicker → Event → ClientPicker
  handle_event p (put addr) =
      ite (key_dec addr p.self_addr) p
        (elim (Dict.find key_dec addr p.clients) [ none ↦ set p addr | some _ ↦ p ])
  handle_event p (delete addr) =
      ite (key_dec addr p.self_addr) p
        (elim (Dict.find key_dec addr p.clients) [ none ↦ p | some _ ↦ remove p addr ])

  unfoldable pub handle_watch_events : ClientPicker → List Event → ClientPicker
  handle_watch_events p [] = p
  handle_watch_events p (e ∷ events) = handle_watch_events (handle_event p e) events

  -- The loop of `fetchAllServices` over the addresses that etcd has.
  unfoldable pub fetch_all_services : ClientPicker → List Key → ClientPicker
  fetch_all_services p [] = p
  fetch_all_services p ([] ∷ addrs) = fetch_all_services p addrs
  fetch_all_services p ((b ∷ addr) ∷ addrs) =
      fetch_all_services (ite (key_dec (b ∷ addr) p.self_addr) p (set p (b ∷ addr))) addrs

  -- `PickPeer`: the picker with the counters of the ring, and the client with its test for the node
  -- itself.
  unfoldable pub pick_peer : ClientPicker → Key → ClientPicker × Option (Key × Bool)
  pick_peer p key =
      let (r, addr) = HashRing.get hash p.cons_hash key in
      (record p { cons_hash = r }, client_of p addr)
