-- ===== src/Lifecycle.antt =====
-- `NewServer`, `Start` and `Stop` of server.go, without gRPC. Whether etcd, the certificates and the
-- listener are there are arguments; a channel is a number.
pub mod Stopping
mod Tests
use my_cache_go.Common.{
  ℕ, zero, suc, ◌-◌, ◌*◌, List, [], ◌∷◌, Option, none, some, Bool, true, false, not, ◌&&◌,
  if◌then◌else◌, ite, ℕ_discrete, Key,
}
use my_cache_go.Services.{
  Etcd, Registration, Registered, registered, refused, panicked, register, Signal, stop, renewed,
  keep,
}

pub record ServerOptions : Type 0 where
  pub etcd_endpoints : List Key
  pub dial_timeout : ℕ
  pub max_msg_size : ℕ
  pub tls : Bool
  pub cert_file : Key
  pub key_file : Key

pub data ServerOption : Type 0 where
  with_etcd_endpoints : List Key → ServerOption
  with_dial_timeout : ℕ → ServerOption
  with_tls : Key → Key → ServerOption

unfoldable pub apply : ServerOptions → ServerOption → ServerOptions
apply o (with_etcd_endpoints endpoints) = record o { etcd_endpoints = endpoints }
apply o (with_dial_timeout timeout) = record o { dial_timeout = timeout }
apply o (with_tls cert_file key_file) = record o {
  tls = true;
  cert_file = cert_file;
  key_file = key_file;
}

unfoldable pub apply_all : ServerOptions → List ServerOption → ServerOptions
apply_all o [] = o
apply_all o (opt ∷ opts) = apply_all (apply o opt) opts

-- What the servers of a program share: the options that `DefaultServerOptions` points to, the clients
-- of etcd that `NewServer` has opened, and the channels.
pub record World : Type 0 where
  pub options : ServerOptions
  pub open_clients : ℕ
  pub next_channel : ℕ
  pub closed : ℕ → Bool

pub record Server : Type 0 where
  pub addr : Key
  pub svc_name : Key
  pub stop_ch : ℕ

pub data NewResult : Type 0 where
  server : Server → NewResult
  etcd_failed : NewResult
  credentials_failed : NewResult

-- `NewServer` with a client of etcd. `loads` is whether `loadTLSCredentials` finds a pair of files.
unfoldable pub with_client : World → (Key → Key → Bool) → Key → Key → World × NewResult
with_client w loads addr svc_name =
    if w.options.tls && not (loads w.options.cert_file w.options.key_file)
    then (w, credentials_failed)
    else (
      record w { next_channel = suc w.next_channel },
      server (record { addr = addr; svc_name = svc_name; stop_ch = w.next_channel }),
    )

-- `NewServer`. The options are written through the pointer `DefaultServerOptions`.
unfoldable pub new_server :
    World → Bool → (Key → Key → Bool) → Key → Key → List ServerOption → World × NewResult
new_server w etcd loads addr svc_name opts =
    let w' = let t : World = record w { options = apply_all w.options opts } in t in
    if etcd
    then with_client (record w' { open_clients = suc w.open_clients }) loads addr svc_name
    else (w', etcd_failed)

abbrev pub put_at : {A : Type 0} → (ℕ → A) → ℕ → A → ℕ → A
put_at f i a j = ite (ℕ_discrete i j) a (f j)

-- `close` of a channel; `none` is the panic for a channel that is closed.
unfoldable pub close_channel : World → ℕ → Option World
close_channel w i = if w.closed i then none else some (record w { closed = put_at w.closed i true })

-- The goroutine of `Register` with the channel that it listens to.
pub record Service : Type 0 where
  pub channel : ℕ
  pub registration : Registration

-- The result of `Start` up to `Serve`, once its goroutine has run.
pub data Started : Type 0 where
  listen_failed : World → Started
  serving : World → Option Service → Started
  crashed : Started

abbrev pub serving_alone : Option World → Started
serving_alone none = crashed
serving_alone (some w) = serving w none

abbrev pub started : World → ℕ → Registered → Started
started w i (registered r) = serving w (some (record { channel = i; registration = r }))
started w i (refused e r) = serving_alone (close_channel w i)
started w i (panicked r) = crashed

-- `Start` makes a channel of its own for `Register`.
unfoldable pub start : World → Server → Bool → Etcd → Started
start w s listens e =
    if listens
    then started (record w { next_channel = suc w.next_channel }) w.next_channel
        (register e s.svc_name s.addr)
    else listen_failed w

abbrev pub close_client : Option World → Option World
close_client none = none
close_client (some w) = some (record w { open_clients = w.open_clients - 1 })

-- `Stop` closes the channel of the server; `none` is a panic.
unfoldable pub stop_server : World → Server → Option World
stop_server w s = close_client (close_channel w s.stop_ch)

-- A turn of the goroutine of `Register`: it stops where its channel is closed, and else takes a
-- renewal of the lease.
unfoldable pub turn : World → Service → Service
turn w v = record v {
  registration = keep v.registration ((if w.closed v.channel then stop else renewed) ∷ []);
}

unfoldable pub turns : ℕ → World → Service → Service
turns zero w v = v
turns (suc n) w v = turns n w (turn w v)
