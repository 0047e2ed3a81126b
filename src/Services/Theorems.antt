-- ===== src/Services/Theorems.antt =====
-- What a call of `Register` leaves open.
use my_cache_go.Common.{
  ℕ, ◌≡◌, refl, ap, ◌∙◌, List, [], ◌∷◌, ◌++◌, Option, none, some, Bool, true, false, Bool-cases,
  not, ◌&&◌, inl, inr, if◌then◌else◌, Key, arith,
}
use my_cache_go.Services.{
  InterfaceAddr, get_local_ip, local_ip_of, Etcd, Registration, Registered, no_client, registered,
  refused, panicked, service_key, full_addr, put_service, with_local_ip, register,
}

-- An interface address that can be the host of a service.
abbrev pub Usable : InterfaceAddr → Key → Type 0
Usable a ip = (a.is_ip_net ≡ true) × (a.loopback ≡ false) × (a.ip ≡ some ip)

-- The registration of an address: the client is open, the goroutine runs, and etcd has the entry.
pub record IsKept (svc_name addr : Key) (r : Registration) : Type 0 where
  pub client_open : r.client_open ≡ true
  pub keeping : r.keeping ≡ true
  pub entry : r.entry ≡ some (service_key svc_name addr, addr)

-- What a result says of the client.
unfoldable pub Agrees : Key → Key → Option Key → Registered → Type 0
Agrees svc_name addr ip (registered r) =
    (b : ℕ) × (rest : Key) × (host : Key) × (addr ≡ b ∷ rest)
    × (ip ≡ some host)
    × IsKept svc_name (full_addr host b rest) r
Agrees svc_name addr ip (refused e r) = (r.client_open ≡ false) × (r.keeping ≡ false)
Agrees svc_name addr ip (panicked r) = addr ≡ []

put_service-Agrees :
    (e : Etcd) (svc_name : Key) (b : ℕ) (rest host : Key)
    → Agrees svc_name (b ∷ rest) (some host) (put_service e svc_name (full_addr host b rest))
unfolding put_service Agrees
put_service-Agrees e svc_name b rest host = elim (Bool-cases e.grant) [
  | inr g ↦ rw g (refl, refl)
  | inl g ↦ elim (Bool-cases e.put) [
    | inr p ↦ rw g (rw p (refl, refl))
    | inl p ↦ elim (Bool-cases e.keep_alive) [
      | inr k ↦ rw g (rw p (rw k (refl, refl)))
      | inl k ↦ rw g (
          rw p (
            rw k (
              b,
              rest,
              host,
              refl,
              refl,
              record { client_open = refl; keeping = refl; entry = refl },
            )))
    ]
  ]
]

with_local_ip-Agrees :
    (e : Etcd) (svc_name addr : Key) (ip : Option Key)
    → Agrees svc_name addr ip (with_local_ip e svc_name addr ip)
unfolding with_local_ip Agrees
with_local_ip-Agrees e svc_name addr none = (refl, refl)
with_local_ip-Agrees e svc_name [] (some ip) = refl
with_local_ip-Agrees e svc_name (b ∷ addr) (some ip) = put_service-Agrees e svc_name b addr ip

-- Where `Register` returns an error its client is closed and no goroutine keeps the lease; where it
-- succeeds the goroutine runs, and etcd has the address with the local host filled in; it panics for
-- the empty address alone.
pub register-Agrees :
    (e : Etcd) (svc_name addr : Key)
    → Agrees svc_name addr (local_ip_of e.interface_addrs) (register e svc_name addr)
unfolding register
register-Agrees e svc_name addr = choose e.new_client
  where
    choose :
        (n : Bool)
        → Agrees svc_name addr (local_ip_of e.interface_addrs) (
            if n
            then with_local_ip e svc_name addr (local_ip_of e.interface_addrs)
            else refused no_client (record { client_open = false; entry = none; keeping = false }))
    choose true = with_local_ip-Agrees e svc_name addr (local_ip_of e.interface_addrs)
    choose false = unfold Agrees in (refl, refl)

-- An address of the list is usable, with this host.
abbrev pub HasUsable : List InterfaceAddr → Key → Type 0
HasUsable l ip =
    (before : List InterfaceAddr) × (x : InterfaceAddr) × (after : List InterfaceAddr) × (l
      ≡ before ++ x ∷ after)
    × Usable x ip

-- The host is the address of an interface that is not a loopback.
get_local_ip-Usable :
    (addrs : List InterfaceAddr) (ip : Key) → get_local_ip addrs ≡ some ip → HasUsable addrs ip
unfolding get_local_ip
get_local_ip-Usable [] ip h = absurd (ground (arith, h))
get_local_ip-Usable (a ∷ addrs) ip h =
    found a.is_ip_net a.loopback a.ip refl refl refl (λ q. get_local_ip-Usable addrs ip q) h
  where
    skipped : HasUsable addrs ip → HasUsable (a ∷ addrs) ip
    skipped (before, x, after, e, u) = (a ∷ before, x, after, ap (λ l. a ∷ l) e, u)

    found :
        (n l : Bool) (o : Option Key)
        → a.is_ip_net ≡ n
        → a.loopback ≡ l
        → a.ip ≡ o
        → (get_local_ip addrs ≡ some ip → HasUsable addrs ip)
        → (if n && not l
            then elim o [ none ↦ get_local_ip addrs | some x ↦ some x ]
            else get_local_ip addrs)
          ≡ some ip
        → HasUsable (a ∷ addrs) ip
    found false l o p q r rest e = skipped (rest e)
    found true true o p q r rest e = skipped (rest e)
    found true false none p q r rest e = skipped (rest e)
    found true false (some x) p q r rest e = ([], a, addrs, refl, (p, q, r ∙ e))
