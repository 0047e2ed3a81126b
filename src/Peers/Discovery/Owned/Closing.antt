-- ===== src/Peers/Discovery/Owned/Closing.antt =====
-- The connections from `NewClientPicker` to `Close` of peers.go.
use my_cache_go.Common.{
  ℕ, suc, ◌-◌, ◌≤◌, ◌≡◌, refl, ap, subst, sym, ◌∙◌, List, [], ◌∷◌, Option, none, some, Bool, true,
  false, not, ◌&&◌, if◌then◌else◌, Key, key_dec, arith,
}
use my_cache_go.Common.Dict as Dict
use my_cache_go.Common.Dict.{find, find-delete, find-insert}
use my_cache_go.HashRing.{Config}
use my_cache_go.Client.Dial.{Process, Client, set_conn, new_client, dial}
use my_cache_go.Client.Dial as Dial
use my_cache_go.Peers.Discovery.{
  Picker, PickerOption, with_service_name, apply_options, empty_picker, services_prefix, Wakeup,
  NewPicker, picker, no_etcd_client, no_services, etcd_error, with_balancer, set_all,
  start_service_discovery, new_client_picker, watch_service_changes, close_clients, close,
}
use my_cache_go.Peers.Discovery.Owned.{held, Live, Live-off, Owns}
use my_cache_go.Peers.Discovery.Owned.Steps.{
  Different, Unknown, watch_service_changes-Owns, set_all-Owns,
}

-- A connection is made after the ones that are there.
abbrev pub Fresh : Process → Type 0
Fresh w = (i : ℕ) → w.next_conn ≤ i → w.connected i ≡ false

module _ (hash : Key → ℕ) (c : Config) (base : Process) where
  close_clients-Live :
      (m : List (Key × Client)) (w : Process)
      → Live w.connected m
      → ((close_clients w m).1 ≡ [])
        × ((close_clients w m).0.etcd_clients ≡ w.etcd_clients)
        × ((close_clients w m).0.balancers ≡ w.balancers)
        × ((i : ℕ) → (close_clients w m).0.connected i ≡ (not (held i m) && w.connected i))
  unfolding close_clients Dial.close held
  close_clients-Live [] w l = (refl, refl, refl, λ i. refl)
  close_clients-Live ((addr, x) ∷ m) w l =
      let (errors, etcd, balancing, conns) =
        close_clients-Live m (set_conn x.conn false w) (Live-off w.connected x.conn m l.2 l.1) in
      (ground (arith, errors, l.0), etcd, balancing, λ i. ground (arith, conns i))

  -- After a call of `NewClientPicker` the process has what is in `base`, if the call failed, and else
  -- once the watch has run and `Close` has returned, which then reports an error of etcd alone.
  abbrev pub Released : Process × NewPicker → List Wakeup → Bool → Type 0
  Released (w, no_etcd_client) wakeups etcd = w ≡ base
  Released (w, no_services) wakeups etcd = w ≡ base
  Released (w, picker p) wakeups etcd =
      let (w', p') = watch_service_changes hash c w p wakeups in
      let (closed, errors) = close w' p' etcd in
      ((i : ℕ) → closed.0.connected i ≡ base.connected i)
      × (closed.0.etcd_clients ≡ base.etcd_clients)
      × (closed.0.balancers ≡ base.balancers)
      × (errors ≡ (if etcd then [] else etcd_error ∷ []))

  close-Owns :
      (w : Process) (p : Picker) (etcd : Bool)
      → Owns base w p.clients
      → ((i : ℕ) → (close w p etcd).0.0.connected i ≡ base.connected i)
        × ((close w p etcd).0.0.etcd_clients ≡ base.etcd_clients)
        × ((close w p etcd).0.0.balancers ≡ base.balancers)
        × ((close w p etcd).1 ≡ (if etcd then [] else etcd_error ∷ []))
  unfolding close
  close-Owns w p etcd o =
      let (errors, kept, balancing, conns) = close_clients-Live p.clients w o.live in
      (
        λ i. conns i ∙ sym (o.rest i),
        ground (arith, kept, o.etcd),
        balancing ∙ o.balancing,
        ground (arith, errors),
      )

  apply_options-clients :
      (p : Picker) (opts : List PickerOption) → (apply_options p opts).clients ≡ p.clients
  unfolding apply_options
  apply_options-clients p [] = refl
  apply_options-clients p (with_service_name name ∷ opts) =
      apply_options-clients (record p { svc_name = name }) opts

  Unknown-empty : (p : Picker) → p.clients ≡ [] → (addrs : List Key) → Unknown hash c base p addrs
  Unknown-empty p e [] = tt
  Unknown-empty p e (a ∷ addrs) =
      (ap (find key_dec a) e ∙ unfold Dict.find in refl, Unknown-empty p e addrs)

  start-Released :
      (reachable : Key → Bool) (p : Picker) (found : Option (List Key)) (wakeups : List Wakeup)
      (etcd : Bool)
      → Fresh base
      → p.clients ≡ []
      → ((addrs : List Key) → found ≡ some addrs → Different addrs)
      → Released
          (start_service_discovery hash c reachable
            (record base { etcd_clients = suc base.etcd_clients })
            p
            found)
          wakeups
          etcd
  unfolding start_service_discovery held
  start-Released reachable p none wakeups etcd f e d =
      let same : suc base.etcd_clients - 1 ≡ base.etcd_clients = omega arith in
      ap (λ n. let t : Process = record base { etcd_clients = n } in t) same
  start-Released reachable p (some addrs) wakeups etcd f e d =
      let w = let t : Process = record base { etcd_clients = suc base.etcd_clients } in t in
      let (w', p') = set_all hash c reachable w p addrs in
      let q = let t : Picker = record p' { watching = true } in t in
      let (w'', p'') = watch_service_changes hash c w' q wakeups in
      close-Owns w'' p'' etcd (
        watch_service_changes-Owns hash c base wakeups w' q (
          set_all-Owns hash c base reachable addrs w p (d addrs refl) (Unknown-empty p e addrs) (
            subst (Owns base w) (sym e) (record {
              fresh = f;
              rest = λ i. refl;
              keyed = tt;
              live = tt;
              etcd = refl;
              balancing = refl;
            }))))

-- Where etcd lists no address twice, a call of `NewClientPicker` that fails leaves the process as it
-- was, but for the balancer of the ring, whose goroutine and ticker stay. After one that succeeds,
-- whatever the watch adds and removes, `Close` leaves the connections and the clients of etcd that were
-- there before the call, one balancer more, and reports an error only where the client of etcd does not
-- close, provided that no connection was open under a number that is still to be given.
pub new_client_picker-Released :
    (hash : Key → ℕ) (c : Config) (w : Process) (reachable : Key → Bool)
    (values : Key → Option (List Key)) (opens closes : Bool) (addr : Key) (opts : List PickerOption)
    (wakeups : List Wakeup)
    → Fresh w
    → ((prefix : Key) (addrs : List Key) → values prefix ≡ some addrs → Different addrs)
    → Released hash c
        (with_balancer w)
        (new_client_picker hash c reachable values w opens addr opts)
        wakeups
        closes
unfolding new_client_picker
new_client_picker-Released hash c w reachable values false closes addr opts wakeups f d = refl
new_client_picker-Released hash c w reachable values true closes addr opts wakeups f d =
    let p = let t : Picker = apply_options (empty_picker addr) opts in t in
    start-Released hash c (with_balancer w) reachable p (values (services_prefix p.svc_name))
      wakeups closes f
      (apply_options-clients hash c (with_balancer w) (empty_picker addr) opts
        ∙ unfold empty_picker in refl)
      (d (services_prefix p.svc_name))
