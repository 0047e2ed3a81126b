-- ===== src/Peers/Discovery.antt =====
-- `NewClientPicker`, the watch and `Close` of peers.go, with the connections that the clients hold. What
-- etcd answers is an argument, and so is which addresses can be dialed, for each call.
pub mod Forget
pub mod Owned
mod Tests
use my_cache_go.Common.{
  ℕ, suc, ◌-◌, ◌≡◌, List, [], ◌∷◌, ◌++◌, Option, none, some, Bool, true, false, if◌then◌else◌, ite,
  Key, key_dec,
}
use my_cache_go.Common.Dict
use my_cache_go.HashRing as HashRing
use my_cache_go.HashRing.{HashRing, Config}
use my_cache_go.Client.Dial.{Process, Client, NewClient, dialed, no_etcd, not_dialed, new_client}
use my_cache_go.Client.Dial as Dial
use my_cache_go.Peers.{Event, put, delete, or_same}

-- `ClientPicker` without its lock: `cancelled` is the state of its context, and `watching` tells whether
-- the goroutine of the watch runs.
pub record Picker : Type 0 where
  pub self_addr : Key
  pub svc_name : Key
  pub cons_hash : HashRing
  pub clients : List (Key × Client)
  pub cancelled : Bool
  pub watching : Bool

-- `WithServiceName`.
pub data PickerOption : Type 0 where
  with_service_name : Key → PickerOption

-- "kama-cache".
abbrev pub default_svc_name : Key
default_svc_name = b'k' ∷ b'a' ∷ b'm' ∷ b'a' ∷ b'-' ∷ b'c' ∷ b'a' ∷ b'c' ∷ b'h' ∷ b'e' ∷ []

unfoldable pub apply_options : Picker → List PickerOption → Picker
apply_options p [] = p
apply_options p (with_service_name name ∷ opts) = apply_options (record p { svc_name = name }) opts

unfoldable pub empty_picker : Key → Picker
empty_picker addr = record {
  self_addr = addr;
  svc_name = default_svc_name;
  cons_hash = HashRing.new;
  clients = [];
  cancelled = false;
  watching = false;
}

-- `consistenthash.New` starts the balancer of its ring.
abbrev pub with_balancer : Process → Process
with_balancer w = record w { balancers = suc w.balancers }

-- The key of etcd that the fetch and the watch begin with, "/services/" and the name.
unfoldable pub services_prefix : Key → Key
services_prefix svc_name =
    b'/' ∷ b's' ∷ b'e' ∷ b'r' ∷ b'v' ∷ b'i' ∷ b'c' ∷ b'e' ∷ b's' ∷ b'/' ∷ svc_name

-- What the goroutine of the watch receives.
pub data Wakeup : Type 0 where
  done : Wakeup
  response : (Key → Bool) → List Event → Wakeup

-- The result of `NewClientPicker`.
pub data NewPicker : Type 0 where
  picker : Picker → NewPicker
  no_etcd_client : NewPicker
  no_services : NewPicker

-- The errors that `Close` collects.
pub data CloseError : Type 0 where
  client_error : Key → CloseError
  etcd_error : CloseError

abbrev pub close_etcd : Process → Process
close_etcd w = record w { etcd_clients = w.etcd_clients - 1 }

unfoldable pub cancel : Picker → Picker
cancel p = record p { cancelled = true }

module _ (hash : Key → ℕ) (c : Config) where
  -- `set` with the client that `NewClient` has made.
  unfoldable pub add_client : Picker → Key → NewClient → Picker
  add_client p addr (dialed x) = record p {
    cons_hash = or_same p.cons_hash (HashRing.add hash c p.cons_hash (addr ∷ []));
    clients = Dict.insert key_dec addr x p.clients;
  }
  add_client p addr no_etcd = p
  add_client p addr not_dialed = p

  unfoldable pub set : (Key → Bool) → Process → Picker → Key → Process × Picker
  set reachable w p addr =
      let (w', result) = new_client w true true (reachable addr) addr p.svc_name in
      (w', add_client p addr result)

  unfoldable pub remove : Picker → Key → Picker
  remove p addr = record p {
    cons_hash = or_same p.cons_hash (HashRing.remove hash p.cons_hash addr);
    clients = Dict.delete key_dec addr p.clients;
  }

  -- The body of the loop of `handleWatchEvents`.
  unfoldable pub handle_event : (Key → Bool) → Process → Picker → Event → Process × Picker
  handle_event reachable w p (put addr) =
      ite (key_dec addr p.self_addr) (w, p)
        (elim (Dict.find key_dec addr p.clients) [
          | none ↦ set reachable w p addr
          | some _ ↦ (w, p)
        ])
  handle_event reachable w p (delete addr) =
      ite (key_dec addr p.self_addr) (w, p)
        (elim (Dict.find key_dec addr p.clients) [
          | none ↦ (w, p)
          | some x ↦ ((Dial.close w x).0, remove p addr)
        ])

  unfoldable pub handle_watch_events :
      (Key → Bool) → Process → Picker → List Event → Process × Picker
  handle_watch_events reachable w p [] = (w, p)
  handle_watch_events reachable w p (e ∷ events) =
      let (w', p') = handle_event reachable w p e in handle_watch_events reachable w' p' events

  -- The loop of `fetchAllServices` over the values of the entries.
  unfoldable pub set_all : (Key → Bool) → Process → Picker → List Key → Process × Picker
  set_all reachable w p [] = (w, p)
  set_all reachable w p ([] ∷ addrs) = set_all reachable w p addrs
  set_all reachable w p ((b ∷ addr) ∷ addrs) =
      let (w', p') = ite (key_dec (b ∷ addr) p.self_addr) (w, p) (set reachable w p (b ∷ addr)) in
      set_all reachable w' p' addrs

  -- `startServiceDiscovery` with the answer of `fetchAllServices` to its request; an error of etcd is
  -- `none`.
  unfoldable pub start_service_discovery :
      (Key → Bool) → Process → Picker → Option (List Key) → Process × NewPicker
  start_service_discovery reachable w p none = (close_etcd w, no_services)
  start_service_discovery reachable w p (some addrs) =
      let (w', p') = set_all reachable w p addrs in (w', picker (record p' { watching = true }))

  -- `NewClientPicker`. `values` is what etcd has under a prefix.
  unfoldable pub new_client_picker :
      (Key → Bool)
      → (Key → Option (List Key))
      → Process
      → Bool
      → Key
      → List PickerOption
      → Process × NewPicker
  new_client_picker reachable values w etcd addr opts =
      let p = apply_options (empty_picker addr) opts in
      let w' = with_balancer w in
      if etcd
      then start_service_discovery reachable (record w' { etcd_clients = suc w'.etcd_clients }) p
          (values (services_prefix p.svc_name))
      else (w', no_etcd_client)

  -- The loop of `watchServiceChanges`; the context is done once it is cancelled.
  unfoldable pub watch_service_changes : Process → Picker → List Wakeup → Process × Picker
  watch_service_changes w p [] = (w, p)
  watch_service_changes w p (done ∷ wakeups) = (w, record p { watching = false })
  watch_service_changes w p (response reachable events ∷ wakeups) =
      let (w', p') = handle_watch_events reachable w p events in watch_service_changes w' p' wakeups

-- The loop of `Close` over the clients, with the errors, in an order of the map.
unfoldable pub close_clients : Process → List (Key × Client) → Process × List CloseError
close_clients w [] = (w, [])
close_clients w ((addr, x) ∷ clients) =
    let (w', closed) = Dial.close w x in
    let (w'', errors) = close_clients w' clients in
    (w'', if closed then errors else client_error addr ∷ errors)

-- `Close`, where `etcd` tells whether the client of etcd closes without an error.
unfoldable pub close : Process → Picker → Bool → (Process × Picker) × List CloseError
close w p etcd =
    let (w', errors) = close_clients w p.clients in
    ((close_etcd w', cancel p), if etcd then errors else errors ++ etcd_error ∷ [])
