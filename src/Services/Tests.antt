-- ===== src/Services/Tests.antt =====
-- A node with one network interface beside the loopback.
use my_cache_go.Common.{
  ℕ, ◌≡◌, refl, List, [], ◌∷◌, ◌++◌, none, some, Bool, true, false, Key, key_dec,
}
use my_cache_go.Common.Dict.{find}
use my_cache_go.HashRing as HashRing
use my_cache_go.HashRing.{Config}
use my_cache_go.Peers.{ClientPicker, put, handle_event, client_of}
use my_cache_go.Services.{
  InterfaceAddr, get_local_ip, local_ip_of, Etcd, registered, refused, panicked, no_lease,
  service_key, full_addr, close_client, put_service, with_local_ip, register, opened, stop, renewed,
  keep,
}
use my_cache_go.Services.Theorems.{Agrees, register-Agrees}
use my_cache_go.Services.Own.{handle_event-own}

abbrev host : Key
host = b'1' ∷ b'0' ∷ []

abbrev addrs : List InterfaceAddr
addrs =
    record { is_ip_net = true; loopback = true; ip = some (b'1' ∷ b'2' ∷ b'7' ∷ []) }
    ∷ record { is_ip_net = true; loopback = false; ip = none }
    ∷ record { is_ip_net = true; loopback = false; ip = some host }
    ∷ []

abbrev etcd : Etcd
etcd = record {
  new_client = true;
  interface_addrs = some addrs;
  grant = true;
  put = true;
  keep_alive = true;
}

abbrev port : Key
port = b'8' ∷ []

abbrev service : Key
service = b's' ∷ []

published :
    register etcd service (b':' ∷ port)
    ≡ registered (record {
      client_open = true;
      entry = some (service_key service (host ++ b':' ∷ port), host ++ b':' ∷ port);
      keeping = true;
    })
unfolding register with_local_ip put_service get_local_ip full_addr
published = refl

refused_lease :
    register (record etcd { grant = false }) service (b':' ∷ port)
    ≡ refused no_lease (close_client none)
unfolding register with_local_ip put_service get_local_ip full_addr
refused_lease = refl

empty_panics : register etcd service [] ≡ panicked opened
unfolding register with_local_ip get_local_ip
empty_panics = refl

revoked : keep opened (renewed ∷ stop ∷ []) ≡ close_client none
unfolding keep
revoked = refl

register-Agrees_example :
    Agrees service (b':' ∷ port) (local_ip_of (some addrs)) (register etcd service (b':' ∷ port))
register-Agrees_example = register-Agrees etcd service (b':' ∷ port)

abbrev hash : Key → ℕ
hash [] = 0
hash (b ∷ key) = b

abbrev config : Config
config = record { default_replicas = 1; min_replicas = 1; max_replicas = 3 }

abbrev any : Key → Bool
any key = true

abbrev picker : ClientPicker
picker = record { self_addr = b':' ∷ port; cons_hash = HashRing.new; clients = [] }

no_clients : find key_dec (full_addr host b':' port) picker.clients ≡ none
unfolding find
no_clients = refl

handle_event-own_example :
    client_of
      (handle_event hash config any picker (put (full_addr host b':' port)))
      (full_addr host b':' port)
    ≡ some (full_addr host b':' port, false)
handle_event-own_example =
    handle_event-own hash config any picker b'1' (b'0' ∷ []) port refl refl no_clients
