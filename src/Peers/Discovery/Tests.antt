-- ===== src/Peers/Discovery/Tests.antt =====
-- A picker that etcd tells of one node, which then hears of a second one and of the end of the first.
use my_cache_go.Common.{
  ℕ, ltb, ◌≡◌, refl, subst, List, [], ◌∷◌, Option, none, some, Bool, true, false, Key, key_dec,
  ℕ_discrete, arith,
}
use my_cache_go.Common.Dict
use my_cache_go.HashRing.{Config}
use my_cache_go.Client.Dial.{Process, new_client, dial}
use my_cache_go.Client.Dial as Dial
use my_cache_go.Peers.{put, delete}
use my_cache_go.Peers.Discovery.{
  Picker, PickerOption, with_service_name, apply_options, empty_picker, with_balancer, Wakeup, done,
  response, NewPicker, picker, no_services, no_etcd_client, add_client, set, remove, handle_event,
  handle_watch_events, set_all, start_service_discovery, new_client_picker, watch_service_changes,
}
use my_cache_go.Peers.Discovery.Owned.Steps.{Different}
use my_cache_go.Peers.Discovery.Owned.Closing.{Fresh, Released, new_client_picker-Released}

abbrev hash : Key → ℕ
hash [] = 0
hash (b ∷ key) = b

abbrev config : Config
config = record { default_replicas = 1; min_replicas = 1; max_replicas = 3 }

abbrev any : Key → Bool
any key = true

-- The process has one connection of something else.
abbrev process : Process
process = record { etcd_clients = 1; next_conn = 1; connected = λ i. ltb i 1; balancers = 0 }

abbrev self : Key
self = b's' ∷ []

abbrev one : List Key
one = (b'o' ∷ []) ∷ []

abbrev values : Key → Option (List Key)
values prefix = some one

abbrev opts : List PickerOption
opts = with_service_name (b'n' ∷ []) ∷ []

abbrev wakeups : List Wakeup
wakeups = response any (put (b't' ∷ []) ∷ delete (b'o' ∷ []) ∷ []) ∷ done ∷ []

fresh : Fresh process
fresh i h = ground (arith, h)

abbrev OrUnit : Option (List Key) → Type 0
OrUnit none = Unit
OrUnit (some addrs) = Different addrs

different : (prefix : Key) (addrs : List Key) → values prefix ≡ some addrs → Different addrs
different prefix addrs e = subst OrUnit e (tt, tt)

new_client_picker-Released_example :
    Released hash config
      (with_balancer process)
      (new_client_picker hash config any values process true self opts)
      wakeups
      false
new_client_picker-Released_example =
    new_client_picker-Released hash config process any values true false self opts wakeups fresh
      different

-- After `NewClientPicker` and the watch the process has its own connection, not the one to the first
-- node, and the one to the second node; then `Close` ends that one too.
abbrev after_watch : Process × NewPicker → Process × Picker
after_watch (w, picker p) = watch_service_changes hash config w p wakeups
after_watch (w, no_services) = (w, empty_picker self)
after_watch (w, no_etcd_client) = (w, empty_picker self)

abbrev opened : Process → Bool × Bool × Bool
opened w = (w.connected 0, w.connected 1, w.connected 2)

watched :
    opened (after_watch (new_client_picker hash config any values process true self opts)).0
    ≡ (true, false, true)
unfolding new_client_picker start_service_discovery set_all set add_client remove handle_event
    handle_watch_events watch_service_changes apply_options empty_picker new_client dial Dial.close
    Dict.find Dict.insert Dict.delete key_dec ℕ_discrete
watched = refl
