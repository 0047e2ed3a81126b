-- ===== src/Peers/Tests.antt =====
-- Runs of a picker that hears of itself and of one other node.
use my_cache_go.Common.{
  ℕ, ◌-◌, ◌*◌, ◌/◌, ◌≡◌, ◌≢◌, refl, List, [], ◌∷◌, some, none, ltb, Bool, true, false, Key, key_dec,
  ℕ_discrete,
}
use my_cache_go.Common.Dict
use my_cache_go.HashRing as HashRing
use my_cache_go.HashRing.{Config, new}
use my_cache_go.Peers.{
  ClientPicker, Event, put, delete, set, handle_event, handle_watch_events, fetch_all_services,
  client_of, pick_peer,
}
use my_cache_go.HashRing.Balancer.{Floats}
use my_cache_go.Peers.Clients.{History, opened, handled, pick_peer-none}
use my_cache_go.Peers.Removals.{Keeps, handle_watch_events-Keeps}
use my_cache_go.Peers.Self.{NoSelf, pick_peer-other}

abbrev hash : Key → ℕ
hash [] = 0
hash (b ∷ key) = b

abbrev config : Config
config = record { default_replicas = 1; min_replicas = 1; max_replicas = 3 }

abbrev any : Key → Bool
any key = true

abbrev picker : ClientPicker
picker = record { self_addr = b's' ∷ []; cons_hash = new; clients = [] }

abbrev events : List Event
events = put (b's' ∷ []) ∷ put (b'o' ∷ []) ∷ []

no_self : NoSelf (b's' ∷ []) picker
unfolding Dict.find
no_self = record { same = refl; absent = refl; named = λ addr client h. absurd (cc) }

-- The other node is picked.
picked :
    (pick_peer hash config any
      (handle_watch_events hash config any (fetch_all_services hash config any picker []) events)
      (b'k' ∷ [])).1
    ≡ some (b'o' ∷ [], false)
unfolding pick_peer client_of handle_watch_events handle_event fetch_all_services set HashRing.get
    HashRing.add HashRing.add_nodes HashRing.add_node HashRing.add_replicas
    HashRing.hash_virtual_node HashRing.virtual_key HashRing.sort_keys HashRing.sort_ints
    HashRing.locate HashRing.Search.search Dict.find Dict.insert Dict.delete key_dec ℕ_discrete
picked = refl

abbrev own_address : Key
own_address = b's' ∷ []

abbrev other_address : Key
other_address = b'o' ∷ []

pick_peer-other_example : (other_address ≢ own_address) × (false ≡ false)
pick_peer-other_example =
    pick_peer-other own_address hash config any picker [] events (b'k' ∷ []) other_address false
      no_self picked

-- Whole numbers in place of the floating-point ones.
abbrev floats : Floats
floats = record {
  Float = ℕ;
  of_int = λ n. n;
  div = λ a b. a / b;
  mul = λ a b. a * b;
  sub = λ a b. a - b;
  abs = λ a. a;
  gt = λ a b. ltb b a;
  to_int = λ a. a;
}

history :
    History hash floats config 1
      (λ addr. false)
      (handle_event hash config (λ addr. false) picker (put (b'o' ∷ [])))
history = handled (put (b'o' ∷ [])) (opened (b's' ∷ []))

no_client :
    (pick_peer hash config
      (λ addr. false)
      (handle_event hash config (λ addr. false) picker (put (b'o' ∷ [])))
      (b'k' ∷ [])).1
    ≡ none
unfolding pick_peer client_of handle_event set HashRing.get Dict.find key_dec ℕ_discrete
no_client = refl

-- The other node cannot be reached, so that neither the map nor the ring has it.
pick_peer-none_example :
    (HashRing.get hash
      (handle_event hash config (λ addr. false) picker (put (b'o' ∷ []))).cons_hash
      (b'k' ∷ [])).1
    ≡ []
pick_peer-none_example =
    pick_peer-none hash floats config 1 (λ addr. false) b'k' [] history no_client

-- The picker has heard of the other node; then a service goes, and a third one comes.
known :
    Keeps hash config any
      (b'o')
      []
      (b'o' ∷ [])
      1
      (handle_watch_events hash config any picker events)
unfolding handle_watch_events handle_event set HashRing.add HashRing.add_nodes HashRing.add_node
    HashRing.add_replicas HashRing.hash_virtual_node HashRing.virtual_key HashRing.sort_keys
    HashRing.sort_ints Dict.find Dict.insert Dict.delete key_dec ℕ_discrete
known = record { known = refl; placed = refl }

handle_watch_events-Keeps_example : Keeps hash config any (b'o') [] (b'o' ∷ []) 1 (
    handle_watch_events hash config any
      (handle_watch_events hash config any picker events)
      (delete [] ∷ put (b't' ∷ []) ∷ []))
handle_watch_events-Keeps_example =
    handle_watch_events-Keeps hash config any (b'o') [] (b'o' ∷ []) 1
      (delete [] ∷ put (b't' ∷ []) ∷ []) (handle_watch_events hash config any picker events)
      (refl, (tt, tt)) known
