-- ===== src/Lifecycle/Tests.antt =====
-- A server from its start to its stop.
use my_cache_go.Common.{
  ◌≡◌, refl, [], ◌∷◌, none, some, Bool, true, false, ite, Key, key_dec, ℕ_discrete, arith,
}
use my_cache_go.Services.{
  Etcd, register, with_local_ip, put_service, get_local_ip, full_addr, service_key,
}
use my_cache_go.Lifecycle.{
  ServerOptions, with_tls, World, Server, server, credentials_failed, new_server, with_client,
  put_at, apply_all, apply, Service, serving, start, stop_server, close_channel, turns,
}
use my_cache_go.Lifecycle.Stopping.{IsWorld, stop_server-turns, new_server-tls}

abbrev options : ServerOptions
options = record {
  etcd_endpoints = [];
  dial_timeout = 5;
  max_msg_size = 4;
  tls = false;
  cert_file = [];
  key_file = [];
}

abbrev world : World
world = record { options = options; open_clients = 1; next_channel = 1; closed = λ i. false }

world-IsWorld : IsWorld world
world-IsWorld i h = refl

abbrev addr : Key
addr = b'h' ∷ b':' ∷ b'8' ∷ []

abbrev service_name : Key
service_name = b's' ∷ []

abbrev one_server : Server
one_server = record { addr = addr; svc_name = service_name; stop_ch = 0 }

-- No file of a certificate is there.
abbrev none_loads : Key → Key → Bool
none_loads cert_file key_file = false

-- The file "c" and the file "k" are there.
abbrev one_loads : Key → Key → Bool
one_loads cert_file key_file =
    ite (key_dec cert_file (b'c' ∷ [])) (ite (key_dec key_file (b'k' ∷ [])) true false) false

made :
    new_server
      (record world { open_clients = 0; next_channel = 0 })
      true
      none_loads
      addr
      service_name
      []
    ≡ (world, server one_server)
unfolding new_server with_client apply_all
made = refl

abbrev etcd : Etcd
etcd = record {
  new_client = true;
  interface_addrs =
      some (record { is_ip_net = true; loopback = false; ip = some (b'1' ∷ []) } ∷ []);
  grant = true;
  put = true;
  keep_alive = true;
}

abbrev running : Service
running = record {
  channel = 1;
  registration = record {
    client_open = true;
    entry = some (service_key service_name addr, addr);
    keeping = true;
  };
}

begun :
    start world one_server true etcd ≡ serving (record world { next_channel = 2 }) (some running)
unfolding start register with_local_ip put_service get_local_ip full_addr
begun = refl

abbrev stopped_world : World
stopped_world = record world {
  next_channel = 2;
  open_clients = 0;
  closed = put_at world.closed 0 true;
}

stopped : stop_server (record world { next_channel = 2 }) one_server ≡ some stopped_world
unfolding stop_server close_channel
stopped = refl

stop_server-turns_example :
    (running.registration.keeping ≡ true)
    × (turns 1000 stopped_world running ≡ running)
    × (stop_server stopped_world one_server ≡ none)
stop_server-turns_example =
    stop_server-turns 1000 world (record world { next_channel = 2 }) stopped_world one_server etcd
      running world-IsWorld (omega arith) begun stopped

new_server-tls_example :
    new_server
      (new_server world true one_loads addr service_name (with_tls (b'c' ∷ []) (b'k' ∷ []) ∷ [])).0
      true
      none_loads
      addr
      service_name
      []
    ≡ (
      record (new_server world true one_loads addr service_name
          (with_tls (b'c' ∷ []) (b'k' ∷ []) ∷ [])).0 { open_clients = 3 },
      credentials_failed,
    )
unfolding new_server with_client apply_all apply key_dec ℕ_discrete
new_server-tls_example =
    new_server-tls world true one_loads none_loads addr service_name (b'c' ∷ []) (b'k' ∷ []) addr
      service_name refl
