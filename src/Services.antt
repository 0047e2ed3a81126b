-- ===== src/Services.antt =====
-- `Register` and `getLocalIP` of registry/register.go. Whether each call of etcd succeeds is the record
-- `Etcd`; the entry of a service lives in etcd until its lease is revoked or runs out.
pub mod Own
pub mod Theorems
mod Tests
use my_cache_go.Common.{
  ℕ, List, [], ◌∷◌, ◌++◌, Option, none, some, Bool, true, false, not, ◌&&◌, if◌then◌else◌, ◌==◌,
  Key,
}

-- An address of an interface: `ip` is nil where it has no form of four bytes.
pub record InterfaceAddr : Type 0 where
  pub is_ip_net : Bool
  pub loopback : Bool
  pub ip : Option Key

-- The loop of `getLocalIP`; `none` is the error.
unfoldable pub get_local_ip : List InterfaceAddr → Option Key
get_local_ip [] = none
get_local_ip (a ∷ addrs) =
    let rest = get_local_ip addrs in
    if a.is_ip_net && not a.loopback then elim a.ip [ none ↦ rest | some ip ↦ some ip ] else rest

-- What the calls of `Register` do: the addresses are `none` where `InterfaceAddrs` fails.
pub record Etcd : Type 0 where
  pub new_client : Bool
  pub interface_addrs : Option (List InterfaceAddr)
  pub grant : Bool
  pub put : Bool
  pub keep_alive : Bool

pub data RegisterError : Type 0 where
  no_client no_local_ip no_lease no_put no_keep_alive : RegisterError

-- What a call of `Register` has left: whether its client is open, the entry that etcd has, and whether
-- the goroutine runs that keeps the lease.
pub record Registration : Type 0 where
  pub client_open : Bool
  pub entry : Option (Key × Key)
  pub keeping : Bool

-- The result of `Register`; an empty address panics at `addr[0]`.
pub data Registered : Type 0 where
  registered : Registration → Registered
  refused : RegisterError → Registration → Registered
  panicked : Registration → Registered

-- "/services/%s/%s".
abbrev pub service_key : Key → Key → Key
service_key svc_name addr =
    (b'/' ∷ b's' ∷ b'e' ∷ b'r' ∷ b'v' ∷ b'i' ∷ b'c' ∷ b'e' ∷ b's' ∷ b'/' ∷ [])
    ++ svc_name
    ++ b'/' ∷ addr

-- The address with the host filled in, where it starts with a colon.
unfoldable pub full_addr : Key → ℕ → Key → Key
full_addr local_ip b addr = if b == b':' then local_ip ++ b ∷ addr else b ∷ addr

-- `cli.Close()`.
abbrev pub close_client : Option (Key × Key) → Registration
close_client entry = record { client_open = false; entry = entry; keeping = false }

abbrev pub opened : Registration
opened = record { client_open = true; entry = none; keeping = false }

-- `Register` once its address is known.
unfoldable pub put_service : Etcd → Key → Key → Registered
put_service e svc_name addr =
    let entry = let t : Option (Key × Key) = some (service_key svc_name addr, addr) in t in
    if not e.grant
    then refused no_lease (close_client none)
    else if not e.put
    then refused no_put (close_client none)
    else if not e.keep_alive
    then refused no_keep_alive (close_client entry)
    else registered (record { client_open = true; entry = entry; keeping = true })

unfoldable pub with_local_ip : Etcd → Key → Key → Option Key → Registered
with_local_ip e svc_name addr none = refused no_local_ip (close_client none)
with_local_ip e svc_name [] (some ip) = panicked opened
with_local_ip e svc_name (b ∷ addr) (some ip) = put_service e svc_name (full_addr ip b addr)

-- `getLocalIP`.
abbrev pub local_ip_of : Option (List InterfaceAddr) → Option Key
local_ip_of none = none
local_ip_of (some addrs) = get_local_ip addrs

unfoldable pub register : Etcd → Key → Key → Registered
register e svc_name addr =
    if e.new_client
    then with_local_ip e svc_name addr (local_ip_of e.interface_addrs)
    else refused no_client (record { client_open = false; entry = none; keeping = false })

-- What the goroutine of `Register` receives: the stop, a renewal, or the end of the renewals.
pub data Signal : Type 0 where
  stop renewed keep_alive_closed : Signal

-- The loop of the goroutine. The revocation takes the entry out of etcd.
unfoldable pub keep : Registration → List Signal → Registration
keep r [] = r
keep r (stop ∷ signals) = close_client none
keep r (renewed ∷ signals) = keep r signals
keep r (keep_alive_closed ∷ signals) = close_client r.entry
