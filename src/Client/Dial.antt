-- ===== src/Client/Dial.antt =====
-- `NewClient` and `Close` of client.go. Whether etcd and the other node can be reached are arguments; a
-- connection of gRPC is a number.
use my_cache_go.Common.{ℕ, suc, Bool, true, false, if◌then◌else◌, ite, ℕ_discrete, Key}

-- What a process has open: the clients of etcd by their number, the connections, and the goroutines of
-- the balancers of its rings, each with a ticker, by their number.
pub record Process : Type 0 where
  pub etcd_clients : ℕ
  pub next_conn : ℕ
  pub connected : ℕ → Bool
  pub balancers : ℕ

pub record Client : Type 0 where
  pub addr : Key
  pub svc_name : Key
  pub conn : ℕ

pub data NewClient : Type 0 where
  dialed : Client → NewClient
  no_etcd : NewClient
  not_dialed : NewClient

abbrev pub set_conn : ℕ → Bool → Process → Process
set_conn i b w = record w { connected = λ j. ite (ℕ_discrete i j) b (w.connected j) }

-- `grpc.Dial` and what follows it.
unfoldable pub dial : Process → Bool → Key → Key → Process × NewClient
dial w reached addr svc_name =
    if reached
    then (
      set_conn w.next_conn true (record w { next_conn = suc w.next_conn }),
      dialed (record { addr = addr; svc_name = svc_name; conn = w.next_conn }),
    )
    else (w, not_dialed)

-- `NewClient`. With `given` the caller hands over a client of etcd, and else the call opens one.
unfoldable pub new_client : Process → Bool → Bool → Bool → Key → Key → Process × NewClient
new_client w given etcd reached addr svc_name =
    if given
    then dial w reached addr svc_name
    else if etcd
    then dial (record w { etcd_clients = suc w.etcd_clients }) reached addr svc_name
    else (w, no_etcd)

-- `Close`, with whether it succeeds: gRPC answers with an error for a connection that is closed.
unfoldable pub close : Process → Client → Process × Bool
close w x = (set_conn x.conn false w, w.connected x.conn)
